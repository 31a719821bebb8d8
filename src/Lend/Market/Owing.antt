-- ===== src/Lend/Market/Owing.antt =====
-- contracts/lend/market/src/contract.rs: what borrowing, repaying and seizing keep of the tokens and of the
-- borrowers.
use mathlib.Core.Path.{subst}
use sienna_network.Base.{
  ℕ, ◌≡◌, refl, sym, ◌∙◌, ap, Bool-cases, inl, inr, Option, some, none, Option-cases, Result, ok,
  err, ◌>>=◌, >>=-elim, ok-injective, ltb, ◌==◌, arith, Eq, Uint256, Decimals, Iterable, generic,
  lend, seize_shortfall,
}
use sienna_network.Base.Dict.{total}
use sienna_network.Lend.Market.Storage.{State, BorrowSnapshot, load_config}
use sienna_network.Lend.Market.Interest.{
  LatestInterest, latest_borrows, latest_reserves, current_balance, add_balance, subtract_balance,
}
use sienna_network.Lend.Market.Accounts.{
  get_balance, subtract_from, get_borrow_snapshot, save_borrow_snapshot, save_swapped, save_listed,
  save_unlisted, index_of,
}
use sienna_network.Lend.Market.Accounts.Borrowers.{Listed}
use sienna_network.Lend.Market.Accounts.Map.{save_borrow_snapshot-get, get_borrow_snapshot-own}
use sienna_network.Lend.Market.Token.{calc_exchange_rate, decrease_supply}
use sienna_network.Lend.Market.Sound.{
  itself, Sound, Listed-same, add_to-Tokens, subtract_from-Tokens, decrease_supply-Supply,
}
use sienna_network.Lend.Market.Debts.{add_debt, subtract_debt, do_seize}

module _ {C S : Type 0} where
  -- The tokens and the total of debts do not differ.
  pub record Owned (s s' : State C S) : Type 0 where
    pub balances : s'.balances ≡ s.balances
    pub supply : s'.total_supply ≡ s.total_supply
    pub borrows : s'.total_borrows ≡ s.total_borrows

  module _ ⦃ec : Eq C⦄ ⦃it : Iterable S (BorrowSnapshot C)⦄ where
    save_swapped-Owned :
        (s : State C S) (o : Option (BorrowSnapshot C)) (i : ℕ) → Owned s (save_swapped s o i)
    unfolding save_swapped
    save_swapped-Owned s none i = record { balances = refl; supply = refl; borrows = refl }
    save_swapped-Owned s (some b) i = record { balances = refl; supply = refl; borrows = refl }

    save_listed-Owned :
        (s s' : State C S) (a : C) (info : BorrowSnapshot C) (i : ℕ)
        → save_listed s a info i ≡ ok s'
        → Owned s s'
    unfolding save_listed
    save_listed-Owned s s' a info i h = elim (Bool-cases (info.principal == 0)) [
      | inl p ↦ >>=-elim (it.swap_remove s.borrowers i) _ (rw p at h) λ r q rest.
          let o = save_swapped-Owned (record s { borrowers = r.0 }) r.1 i in
          subst (λ x. Owned s x) (ok-injective rest)
            (record { balances = o.balances; supply = o.supply; borrows = o.borrows })
      | inr p ↦ >>=-elim (it.update_at s.borrowers i info) _ (rw p at h) λ b q rest.
          subst (λ x. Owned s x) (ok-injective rest)
            (record { balances = refl; supply = refl; borrows = refl })
    ]

    save_unlisted-Owned :
        (s s' : State C S) (a : C) (info : BorrowSnapshot C)
        → save_unlisted s a info ≡ ok s'
        → Owned s s'
    unfolding save_unlisted
    save_unlisted-Owned s s' a info h = elim (Bool-cases (info.principal == 0)) [
      | inl p ↦
          subst (λ x. Owned s x) (ok-injective (rw p at h))
            (record { balances = refl; supply = refl; borrows = refl })
      | inr p ↦ >>=-elim (it.push s.borrowers info) _ (rw p at h) λ b q rest.
          subst (λ x. Owned s x) (ok-injective rest)
            (record { balances = refl; supply = refl; borrows = refl })
    ]

    pub save_borrow_snapshot-Owned :
        (s s' : State C S) (a : C) (info : BorrowSnapshot C)
        → save_borrow_snapshot s a info ≡ ok s'
        → Owned s s'
    unfolding save_borrow_snapshot
    save_borrow_snapshot-Owned s s' a info h = elim (Option-cases (index_of s a)) [
      | inl at ↦ save_unlisted-Owned s s' a info (rw (save_borrow_snapshot, at) at h)
      | inr (i, at) ↦ save_listed-Owned s s' a info i (rw (save_borrow_snapshot, at) at h)
    ]

    pub save_borrow_snapshot-Sound :
        (s s' : State C S) (a : C) (info : BorrowSnapshot C)
        → Sound s
        → info.address ≡ a
        → save_borrow_snapshot s a info ≡ ok s'
        → Sound s'
    save_borrow_snapshot-Sound s s' a info i own h =
        let o = save_borrow_snapshot-Owned s s' a info h in
        record {
          supplied = o.supply ∙ i.supplied ∙ sym (ap (total itself) o.balances);
          listed = (save_borrow_snapshot-get s s' a info i.listed own h).0;
        }

    -- What is stored for an account is about it.
    pub get_borrow_snapshot-address :
        (s : State C S) (a : C) (b : BorrowSnapshot C)
        → Listed s
        → get_borrow_snapshot s a ≡ ok b
        → b.address ≡ a
    get_borrow_snapshot-address s a b l h =
        let (c, there, of_a) = get_borrow_snapshot-own s a l in
        ap (λ x. x.address) (ok-injective (sym h ∙ there)) ∙ of_a

module _ {C : Type 0} ⦃w : Uint256⦄ ⦃dec : Decimals⦄ where
  add_balance-address :
      (b new : BorrowSnapshot C) (index amount : ℕ)
      → add_balance b index amount ≡ ok new
      → new.address ≡ b.address
  unfolding add_balance
  add_balance-address b new index amount h =
      >>=-elim (current_balance b index) _ h λ balance p more.
        >>=-elim (w.add balance amount) _ more
          λ principal q rest. sym (ap (λ x. x.address) (ok-injective rest))

  pub subtract_balance-address :
      (b : BorrowSnapshot C) (index amount : ℕ) (r : BorrowSnapshot C × ℕ)
      → subtract_balance b index amount ≡ ok r
      → (r.0).address ≡ b.address
  unfolding subtract_balance
  subtract_balance-address b index amount r h =
      >>=-elim (current_balance b index) _ h λ balance p rest.
        elim (Bool-cases (ltb balance amount)) [
          | inl q ↦ sym (ap (λ x. (x.0).address) (ok-injective (rw q at rest)))
          | inr q ↦ sym (ap (λ x. (x.0).address) (ok-injective (rw q at rest)))
        ]

module _ {C S : Type 0} ⦃ec : Eq C⦄ ⦃w : Uint256⦄ ⦃dec : Decimals⦄
    ⦃it : Iterable S (BorrowSnapshot C)⦄ where
  pub add_debt-Sound :
      (s s' : State C S) (a : C) (index amount : ℕ)
      → Sound s
      → add_debt s a index amount ≡ ok s'
      → Sound s'
  unfolding add_debt
  add_debt-Sound s s' a index amount i h = >>=-elim (get_borrow_snapshot s a) _ h λ b p more.
      >>=-elim (add_balance b index amount) _ more λ new q rest.
        save_borrow_snapshot-Sound s s' a new i
          (add_balance-address b new index amount q ∙ get_borrow_snapshot-address s a b i.listed p)
          rest

  pub subtract_debt-Sound :
      (s : State C S) (a : C) (index amount : ℕ) (r : State C S × ℕ)
      → Sound s
      → subtract_debt s a index amount ≡ ok r
      → Sound r.0
  unfolding subtract_debt
  subtract_debt-Sound s a index amount r i h = >>=-elim (get_borrow_snapshot s a) _ h λ b p more.
      >>=-elim (subtract_balance b index amount) _ more λ n q saving.
        >>=-elim (save_borrow_snapshot s a n.0) _ saving λ s' saved rest.
          subst (λ x. Sound x.0) (ok-injective rest)
            (save_borrow_snapshot-Sound s s' a n.0 i
              (subtract_balance-address b index amount n q
                ∙ get_borrow_snapshot-address s a b i.listed p)
              saved)

  -- The failure of the seizure is told in other words.
  retold :
      (r : Result (State C S)) (t : State C S) (amount balance : ℕ)
      → elim r as (λ _. Result (State C S)) [
        | ok s' ↦ ok s'
        | err problem ↦
            w.sub amount balance >>= λ missing. err (generic (lend (seize_shortfall missing)))
      ]
        ≡ ok t
      → r ≡ ok t
  retold (ok s) t amount balance h = h
  retold (err problem) t amount balance h = >>=-elim (w.sub amount balance) _ h λ missing p rest. cc

  -- What the liquidator does not get is burned.
  pub do_seize-Sound :
      (s s' : State C S) (latest : LatestInterest) (balance : ℕ) (liquidator borrower : C)
      (amount : ℕ)
      → Sound s
      → do_seize s latest balance liquidator borrower amount ≡ ok s'
      → Sound s'
  unfolding do_seize
  do_seize-Sound s s' latest balance liquidator borrower amount i h = >>=-elim _ _ h λ taken p h1.
      >>=-elim (load_config taken) _ h1 λ config _ h2.
        >>=-elim (dec.decimal_mul amount config.seize_factor) _ h2 λ share _ h3.
          >>=-elim (w.sub amount share) _ h3 λ rest q h4.
            >>=-elim
              (calc_exchange_rate taken balance (latest_borrows latest taken)
                (latest_reserves latest taken))
              _ h4
              λ rate _ h5. >>=-elim (dec.decimal_mul share rate) _ h5 λ worth _ h6.
                >>=-elim (w.add (latest_reserves latest taken) worth) _ h6 λ reserve _ h7.
                  >>=-elim (decrease_supply (record taken { interest_reserve = reserve }) share) _
                    h7
                    λ less r h8.
                      let from = subtract_from-Tokens s taken borrower amount (
                        retold (subtract_from s borrower amount) taken amount
                          (get_balance s borrower) p) in
                      let burned =
                        decrease_supply-Supply (record taken { interest_reserve = reserve }) less
                          share r in
                      let to = add_to-Tokens less s' liquidator rest h8 in
                      record {
                        supplied = omega (
                          arith,
                          from.sum,
                          from.supply,
                          burned.supply,
                          ap (total itself) burned.balances,
                          to.sum,
                          to.supply,
                          i.supplied,
                          (w.sub-eq-ok amount share rest q).1,
                        );
                        listed =
                            Listed-same s s' (to.borrowers ∙ burned.borrowers ∙ from.borrowers)
                              (to.info ∙ burned.info ∙ from.info) i.listed;
                      }
