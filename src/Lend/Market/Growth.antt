-- ===== src/Lend/Market/Growth.antt =====
-- contracts/lend/market/src/ops.rs: what `accrue_interest` does to the borrows, the reserves and the index.
use mathlib.Core.Path.{subst}
use sienna_network.Base.{
  ℕ, ◌-◌, ◌≤◌, ◌≡◌, refl, ◌∙◌, Bool-cases, inl, inr, Option, some, none, Result, ok, err, >>=-elim,
  ok-injective, ltb, ltb→ge, ◌==◌, ==_iff, min, arith, Uint256, Decimals, generic, lend,
  future_block, if◌then◌else◌,
}
use sienna_network.Lend.Market.Storage.{State, Deps, load_config, load_interest_model}
use sienna_network.Lend.Market.Interest.{
  AccruedInterest, LatestInterest, latest_borrows, latest_reserves, latest_index,
  calc_accrued_interest, latest_of, no_interest, accrue_interest, set_interest, max_borrow_rate,
}

module _ {C S : Type 0} where
  -- From `s` to `s'`, with what the caller is told.
  pub record Grown (s s' : State C S) (block : ℕ) (told : LatestInterest) : Type 0 where
    pub borrows : s.total_borrows ≤ s'.total_borrows
    pub reserves : s.interest_reserve ≤ s'.interest_reserve
    pub index : s.borrow_index ≤ s'.borrow_index
    pub accrued_at : s'.accrual_block ≡ block
    pub forward : s.accrual_block ≤ block
    pub told_borrows : latest_borrows told s' ≡ s'.total_borrows
    pub told_reserves : latest_reserves told s' ≡ s'.interest_reserve
    pub told_index : latest_index told s' ≡ s'.borrow_index

not_later :
    (at block : ℕ) {x : Unit {0}}
    → (if ltb block at then err (generic (lend (future_block at))) else ok tt) ≡ ok x
    → at ≤ block
not_later at block h = elim (Bool-cases (ltb block at)) [
  | inl p ↦ absurd (cc (rw p at h))
  | inr p ↦ ltb→ge block at p
]

module _ {H C S : Type 0} ⦃w : Uint256⦄ ⦃dec : Decimals⦄ (d : Deps H C) where
  record Accrued (s : State C S) (block : ℕ) (o : Option AccruedInterest) : Type 0 where
    pub kept : o ≡ none → s.accrual_block ≡ block
    pub grown :
        (i : AccruedInterest)
        → o ≡ some i
        → (s.accrual_block ≤ block)
          × (s.total_borrows ≤ i.total_borrows)
          × (s.interest_reserve ≤ i.total_reserves)
          × (s.borrow_index ≤ i.borrow_index)

  calc_accrued_interest-Accrued :
      (s : State C S) (block balance : ℕ) (o : Option AccruedInterest)
      → calc_accrued_interest d s block balance ≡ ok o
      → Accrued s block o
  unfolding calc_accrued_interest
  calc_accrued_interest-Accrued s block balance o h = >>=-elim (load_config s) _ h λ config _ h1.
      elim (Bool-cases (s.accrual_block == block)) [
        | inl p ↦
            let same : none ≡ o = ok-injective (rw p at h1) in
            record {
              kept = λ _. (==_iff s.accrual_block block).0 p;
              grown = λ i q. absurd (cc (same ∙ q));
            }
        | inr p ↦ >>=-elim (load_interest_model d s) _ (rw p at h1) λ model _ h2.
            >>=-elim (dec.from_uint256 balance) _ h2 λ size _ h3.
              >>=-elim (dec.from_uint256 s.total_borrows) _ h3 λ borrows _ h4.
                >>=-elim (dec.from_uint256 s.interest_reserve) _ h4 λ reserves _ h5.
                  >>=-elim (d.borrow_rate model size borrows reserves) _ h5 λ rate _ h6.
                    >>=-elim
                      (if ltb block s.accrual_block
                        then err (generic (lend (future_block s.accrual_block)))
                        else ok tt)
                      _ h6
                      λ _ forward h7.
                        >>=-elim (dec.from_uint256 (block - s.accrual_block)) _ h7 λ delta _ h8.
                          >>=-elim (dec.mul (min rate max_borrow_rate) delta) _ h8 λ factor _ h9.
                            >>=-elim (dec.decimal_mul s.total_borrows factor) _ h9 λ more _ h10.
                              >>=-elim (w.add more s.total_borrows) _ h10 λ total q h11.
                                >>=-elim (dec.decimal_mul more config.reserve_factor) _ h11
                                  λ reserved _ h12.
                                    >>=-elim (w.add reserved s.interest_reserve) _ h12 λ kept t h13.
                                      >>=-elim (dec.mul s.borrow_index factor) _ h13 λ grown _ h14.
                                        >>=-elim (dec.add grown s.borrow_index) _ h14
                                          λ index v rest. record {
                                            kept = λ none_is.
                                                absurd (cc (ok-injective rest ∙ none_is));
                                            grown = λ i some_is.
                                                subst
                                                  (λ x.
                                                    (s.accrual_block ≤ block)
                                                    × (s.total_borrows ≤ x.total_borrows)
                                                    × (s.interest_reserve ≤ x.total_reserves)
                                                    × (s.borrow_index ≤ x.borrow_index))
                                                  (some_of (ok-injective rest ∙ some_is))
                                                  (
                                                    not_later s.accrual_block block forward,
                                                    omega (
                                                      arith,
                                                      w.add-eq-ok more s.total_borrows total q,
                                                    ),
                                                    omega (
                                                      arith,
                                                      w.add-eq-ok reserved s.interest_reserve kept
                                                          t,
                                                    ),
                                                    omega (
                                                      arith,
                                                      dec.add-eq-ok grown s.borrow_index index v,
                                                    ),
                                                  );
                                          }
      ]
    where
      some_of : {i j : AccruedInterest} → some i ≡ some j → i ≡ j
      some_of h = cc

  -- Where interest is accrued, the borrows, the reserves and the index do not fall, the block of the accrual is
  -- the given one and not before the last one, and what the caller is told is what is stored.
  pub accrue_interest-Grown :
      (s : State C S) (block balance : ℕ) (r : State C S × LatestInterest)
      → accrue_interest d s block balance ≡ ok r
      → Grown s r.0 block r.1
  unfolding accrue_interest latest_borrows latest_reserves latest_index
  accrue_interest-Grown s block balance r h =
      >>=-elim (calc_accrued_interest d s block balance) _ h
        λ o q rest. after o (calc_accrued_interest-Accrued s block balance o q) rest
    where
      after :
          (o : Option AccruedInterest)
          → Accrued s block o
          → elim o as (λ _. Result (State C S × LatestInterest)) [
            | some i ↦ ok (set_interest d s block i, latest_of i)
            | none ↦ ok (s, no_interest)
          ]
            ≡ ok r
          → Grown s r.0 block r.1
      after (some i) a h =
          let (forward, borrows, reserves, index) = a.grown i refl in
          subst (λ p. Grown s p.0 block p.1) (ok-injective h)
            (record {
              borrows = borrows;
              reserves = reserves;
              index = index;
              accrued_at = refl;
              forward = forward;
              told_borrows = refl;
              told_reserves = refl;
              told_index = refl;
            })
      after none a h =
          subst (λ p. Grown s p.0 block p.1) (ok-injective h)
            (record {
              borrows = omega arith;
              reserves = omega arith;
              index = omega arith;
              accrued_at = a.kept refl;
              forward = omega (arith, a.kept refl);
              told_borrows = refl;
              told_reserves = refl;
              told_index = refl;
            })
