-- ===== src/Lend/Market/Accounts/Map.antt =====
-- The stored borrowers as a map from accounts to debts: what a write comes to.
use mathlib.Core.Path.{subst}
use sienna_network.Base.{
  ℕ, suc, ◌≡◌, refl, sym, ◌∙◌, ap, true, false, Bool-cases, inl, inr, Option, some, none, ltb,
  Option-cases, ok, >>=-elim, ok-injective, ◌==◌, ==_iff, if◌then◌else◌, arith, Eq, Iterable,
}
use sienna_network.Lend.Market.Storage.{State, BorrowSnapshot}
use sienna_network.Lend.Market.Accounts.{
  index_of, set_index, no_debt, get_borrow_snapshot, save_swapped, save_listed, save_unlisted,
  save_borrow_snapshot,
}
use sienna_network.Lend.Market.Accounts.Borrowers.{
  if_true, if_false, same_key, Listed, Writes, get_borrow_snapshot-none, written-other,
  update_written, push_written, get_borrow_snapshot-some,
}
use sienna_network.Lend.Market.Accounts.Saving.{last_removed, moved_removed}

last_within : (n k : ℕ) → k ≡ suc n → ltb n k ≡ true
last_within n k h = ground arith

apart_sym : (n k : ℕ) → (n == k) ≡ false → (k == n) ≡ false
apart_sym n k h = ground arith

module _ {C S : Type 0} ⦃ec : Eq C⦄ ⦃it : Iterable S (BorrowSnapshot C)⦄ where
  removed_written :
      (s : State C S) (b : S) (a : C) (info : BorrowSnapshot C) (i : ℕ)
      (o : Option (BorrowSnapshot C))
      → Listed s
      → index_of s a ≡ some i
      → (info.principal == 0) ≡ true
      → it.swap_remove s.borrowers i ≡ ok (b, o)
      → Writes s a info (set_index (save_swapped (record s { borrowers = b }) o i) a none)
  unfolding save_swapped
  removed_written s b a info i o l at zero q = elim (Bool-cases (i == it.len b)) [
    | inl p ↦
        subst
          (λ x. Writes s a info (set_index (save_swapped (record s { borrowers = b }) x i) a none))
          (sym (moved ∙ if_true _ _ p))
          (last_removed s b a i o l at q info zero
            ((==_iff (it.len b) i).1 (sym ((==_iff i (it.len b)).0 p))))
    | inr p ↦
        let (m, at_last) = it.get_at_within s.borrowers (it.len b) (
          last_within (it.len b) (it.len s.borrowers) (it.swap_remove-len s.borrowers b i o q).1) in
        subst
          (λ x. Writes s a info (set_index (save_swapped (record s { borrowers = b }) x i) a none))
          (sym (moved ∙ if_false _ _ p ∙ at_last))
          (moved_removed s b a i o l at q info m zero (apart_sym i (it.len b) p) at_last)
  ]
    where
      moved : o ≡ (if i == it.len b then none else it.get_at s.borrowers (it.len b))
      moved = it.swap_remove-moved s.borrowers b i o q

  save_listed-Listed :
      (s s' : State C S) (a : C) (info : BorrowSnapshot C) (i : ℕ)
      → Listed s
      → info.address ≡ a
      → index_of s a ≡ some i
      → save_listed s a info i ≡ ok s'
      → Writes s a info s'
  unfolding save_listed
  save_listed-Listed s s' a info i l own at h = elim (Bool-cases (info.principal == 0)) [
    | inl zero ↦ >>=-elim (it.swap_remove s.borrowers i) _ (rw zero at h) λ r q rest.
        subst (λ x. Writes s a info x) (ok-injective rest)
          (removed_written s r.0 a info i r.1 l at zero q)
    | inr nonzero ↦ >>=-elim (it.update_at s.borrowers i info) _ (rw nonzero at h) λ b q rest.
        subst (λ x. Writes s a info x) (ok-injective rest)
          (update_written s b a info i l own at nonzero q)
  ]

  -- Nothing is owed, as before.
  nothing_written :
      (s : State C S) (a : C) (info : BorrowSnapshot C)
      → Listed s
      → index_of s a ≡ none
      → (info.principal == 0) ≡ true
      → Writes s a info s
  nothing_written s a info l at zero = (
    l,
    λ c. elim (Bool-cases (ec.beq a c)) [
      | inl p ↦
          get_borrow_snapshot-none s c (ap (index_of s) (sym (same_key p)) ∙ at)
          ∙ ap (λ x. ok (no_debt x)) (sym (same_key p))
          ∙ sym (if_true _ _ p ∙ ap ok (if_true _ _ zero))
      | inr p ↦ sym (written-other s a c info p)
    ],
  )

  save_unlisted-Listed :
      (s s' : State C S) (a : C) (info : BorrowSnapshot C)
      → Listed s
      → info.address ≡ a
      → index_of s a ≡ none
      → save_unlisted s a info ≡ ok s'
      → Writes s a info s'
  unfolding save_unlisted
  save_unlisted-Listed s s' a info l own at h = elim (Bool-cases (info.principal == 0)) [
    | inl zero ↦
        subst (λ x. Writes s a info x) (ok-injective (rw zero at h))
          (nothing_written s a info l at zero)
    | inr nonzero ↦ >>=-elim (it.push s.borrowers info) _ (rw nonzero at h) λ r q rest.
        subst (λ x. Writes s a info x) (ok-injective rest)
          (push_written s r.0 r.1 a info l own at nonzero q)
  ]

  -- Where the indices fit the vector of borrowers, a successful write of an account's own debt keeps them
  -- fitting. It is then read back, as no debt where the principal is zero, and every other account's
  -- debt is read as before.
  pub save_borrow_snapshot-get :
      (s s' : State C S) (a : C) (info : BorrowSnapshot C)
      → Listed s
      → info.address ≡ a
      → save_borrow_snapshot s a info ≡ ok s'
      → Listed s'
        × ((c : C)
            → get_borrow_snapshot s' c ≡ (
                if ec.beq a c
                then ok (if info.principal == 0 then no_debt a else info)
                else get_borrow_snapshot s c))
  unfolding save_borrow_snapshot
  save_borrow_snapshot-get s s' a info l own h = elim (Option-cases (index_of s a)) [
    | inl at ↦ save_unlisted-Listed s s' a info l own at (rw (save_borrow_snapshot, at) at h)
    | inr (i, at) ↦ save_listed-Listed s s' a info i l own at (rw (save_borrow_snapshot, at) at h)
  ]

  -- Where the indices fit, every account's debt can be read, and is that account's.
  pub get_borrow_snapshot-own :
      (s : State C S) (a : C)
      → Listed s
      → (b : BorrowSnapshot C) × (get_borrow_snapshot s a ≡ ok b) × (b.address ≡ a)
  get_borrow_snapshot-own s a l = elim (Option-cases (index_of s a)) [
    | inl at ↦ (no_debt a, get_borrow_snapshot-none s a at, refl)
    | inr (i, at) ↦
        let (b, there, of_a) = l.listed a i at in
        (b, get_borrow_snapshot-some s a i b at there, of_a)
  ]
