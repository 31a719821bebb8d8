-- ===== src/Lend/Market/Sound.antt =====
-- What the steps of a handler of the market keep: the supply of its tokens is the sum of the balances,
-- and the indices fit the vector of borrowers.
use mathlib.Core.Path.{subst}
use sienna_network.Base.{
  ℕ, ◌+◌, ◌≡◌, refl, sym, ◌∙◌, ap, inl, inr, Option, some, none, Result, ok, >>=-elim, Result-cases,
  ok-injective, arith, Eq, Uint256, Decimals, Iterable,
}
use sienna_network.Base.Dict
use sienna_network.Base.Dict.{total, total-put}
use sienna_network.Lend.Market.Storage.{State, BorrowSnapshot, Deps}
use sienna_network.Lend.Market.Interest.{
  AccruedInterest, LatestInterest, calc_accrued_interest, latest_of, no_interest, accrue_interest,
  set_interest,
}
use sienna_network.Lend.Market.Accounts.{get_balance, add_to, subtract_from}
use sienna_network.Lend.Market.Accounts.Borrowers.{Listed}
use sienna_network.Lend.Market.Token.{
  increase_borrows, decrease_borrows, increase_supply, decrease_supply,
}

abbrev pub itself : ℕ → ℕ
itself n = n

module _ {C S : Type 0} where
  abbrev pub held : State C S → ℕ
  held s = total itself s.balances

  -- Neither the tokens nor the borrowers differ.
  pub record Same (s s' : State C S) : Type 0 where
    pub balances : s'.balances ≡ s.balances
    pub supply : s'.total_supply ≡ s.total_supply
    pub borrowers : s'.borrowers ≡ s.borrowers
    pub info : s'.borrow_info ≡ s.borrow_info

  module _ ⦃ec : Eq C⦄ ⦃it : Iterable S (BorrowSnapshot C)⦄ where
    pub record Sound (s : State C S) : Type 0 where
      pub supplied : s.total_supply ≡ held s
      pub listed : Listed s

    pub Listed-same :
        (s s' : State C S)
        → s'.borrowers ≡ s.borrowers
        → s'.borrow_info ≡ s.borrow_info
        → Listed s
        → Listed s'
    Listed-same s s' p q l = record {
      listed = λ a i h.
          let (b, there, of_a) = l.listed a i (subst (λ x. Dict.get none a x ≡ some i) q h) in
          (b, ap (λ x. it.get_at x i) p ∙ there, of_a);
      indexed = λ i b h.
          subst (λ x. Dict.get none b.address x ≡ some i) (sym q)
            (l.indexed i b (ap (λ x. it.get_at x i) (sym p) ∙ h));
    }

    pub Same-Sound : (s s' : State C S) → Same s s' → Sound s → Sound s'
    Same-Sound s s' m i = record {
      supplied = m.supply ∙ i.supplied ∙ sym (ap (total itself) m.balances);
      listed = Listed-same s s' m.borrowers m.info i.listed;
    }

  pub Same-refl : (s : State C S) → Same s s
  Same-refl s = record { balances = refl; supply = refl; borrowers = refl; info = refl }

  pub record Tokens (s s' : State C S) (added taken : ℕ) : Type 0 where
    pub sum : held s' + taken ≡ held s + added
    pub supply : s'.total_supply ≡ s.total_supply
    pub borrowers : s'.borrowers ≡ s.borrowers
    pub info : s'.borrow_info ≡ s.borrow_info

  pub record Supply (s s' : State C S) (added taken : ℕ) : Type 0 where
    pub supply : s'.total_supply + taken ≡ s.total_supply + added
    pub balances : s'.balances ≡ s.balances
    pub borrowers : s'.borrowers ≡ s.borrowers
    pub info : s'.borrow_info ≡ s.borrow_info

  module _ ⦃ec : Eq C⦄ ⦃w : Uint256⦄ where
    pub add_to-Tokens :
        (s s' : State C S) (a : C) (amount : ℕ) → add_to s a amount ≡ ok s' → Tokens s s' amount 0
    unfolding add_to get_balance
    add_to-Tokens s s' a amount h = elim (Result-cases (w.add (Dict.get 0 a s.balances) amount)) [
      | inl (new, q) ↦
          subst (λ x. Tokens s x amount 0) (ok-injective (rw (q, add_to) at h))
            (record {
              sum = omega (
                arith,
                total-put itself 0 a new s.balances refl,
                w.add-eq-ok (Dict.get 0 a s.balances) amount new q,
              );
              supply = refl;
              borrowers = refl;
              info = refl;
            })
      | inr (problem, q) ↦ absurd (cc (rw (q, add_to) at h))
    ]

    pub subtract_from-Tokens :
        (s s' : State C S) (a : C) (amount : ℕ)
        → subtract_from s a amount ≡ ok s'
        → Tokens s s' 0 amount
    unfolding subtract_from get_balance
    subtract_from-Tokens s s' a amount h =
        elim (Result-cases (w.sub (Dict.get 0 a s.balances) amount)) [
          | inl (new, q) ↦
              subst (λ x. Tokens s x 0 amount) (ok-injective (rw (q, subtract_from) at h))
                (record {
                  sum = omega (
                    arith,
                    total-put itself 0 a new s.balances refl,
                    (w.sub-eq-ok (Dict.get 0 a s.balances) amount new q).1,
                  );
                  supply = refl;
                  borrowers = refl;
                  info = refl;
                })
          | inr (problem, q) ↦ absurd (cc (rw (q, subtract_from) at h))
        ]

  module _ ⦃w : Uint256⦄ where
    pub increase_supply-Supply :
        (s s' : State C S) (amount : ℕ) → increase_supply s amount ≡ ok s' → Supply s s' amount 0
    unfolding increase_supply
    increase_supply-Supply s s' amount h = >>=-elim (w.add s.total_supply amount) _ h λ new q rest.
        subst (λ x. Supply s x amount 0) (ok-injective rest)
          (record {
            supply = omega (arith, w.add-eq-ok s.total_supply amount new q);
            balances = refl;
            borrowers = refl;
            info = refl;
          })

    pub decrease_supply-Supply :
        (s s' : State C S) (amount : ℕ) → decrease_supply s amount ≡ ok s' → Supply s s' 0 amount
    unfolding decrease_supply
    decrease_supply-Supply s s' amount h = >>=-elim (w.sub s.total_supply amount) _ h λ new q rest.
        subst (λ x. Supply s x 0 amount) (ok-injective rest)
          (record {
            supply = omega (arith, (w.sub-eq-ok s.total_supply amount new q).1);
            balances = refl;
            borrowers = refl;
            info = refl;
          })

    pub increase_borrows-Same :
        (s s' : State C S) (amount : ℕ) → increase_borrows s amount ≡ ok s' → Same s s'
    unfolding increase_borrows
    increase_borrows-Same s s' amount h = >>=-elim (w.add s.total_borrows amount) _ h λ new q rest.
        subst (λ x. Same s x) (ok-injective rest)
          (record { balances = refl; supply = refl; borrowers = refl; info = refl })

    pub decrease_borrows-Same :
        (s s' : State C S) (amount : ℕ) → decrease_borrows s amount ≡ ok s' → Same s s'
    unfolding decrease_borrows
    decrease_borrows-Same s s' amount h = >>=-elim (w.sub s.total_borrows amount) _ h λ new q rest.
        subst (λ x. Same s x) (ok-injective rest)
          (record { balances = refl; supply = refl; borrowers = refl; info = refl })

module _ {H C S : Type 0} ⦃w : Uint256⦄ ⦃dec : Decimals⦄ (d : Deps H C) where
  pub accrue_interest-Same :
      (s : State C S) (block balance : ℕ) (r : State C S × LatestInterest)
      → accrue_interest d s block balance ≡ ok r
      → Same s r.0
  unfolding accrue_interest
  accrue_interest-Same s block balance r h =
      >>=-elim (calc_accrued_interest d s block balance) _ h λ o q rest. after o rest
    where
      after :
          (o : Option AccruedInterest)
          → elim o as (λ _. Result (State C S × LatestInterest)) [
            | some i ↦ ok (set_interest d s block i, latest_of i)
            | none ↦ ok (s, no_interest)
          ]
            ≡ ok r
          → Same s r.0
      after (some i) h =
          subst (λ p. Same s p.0) (ok-injective h)
            (record { balances = refl; supply = refl; borrowers = refl; info = refl })
      after none h = subst (λ p. Same s p.0) (ok-injective h) (Same-refl s)
