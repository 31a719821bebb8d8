-- ===== src/Lend/Market/Accounts/Saving.antt =====
-- A repaid debt leaves the vector of borrowers, and what a write of any debt comes to.
use mathlib.Core.Path.{subst}
use sienna_network.Base.{
  ℕ, suc, ◌<◌, ◌≡◌, refl, sym, ◌∙◌, ap, true, false, Bool-cases, inl, inr, Option, some, none, ok,
  ◌==◌, ==_iff, if◌then◌else◌, arith, Eq, Iterable,
}
use sienna_network.Lend.Market.Storage.{State, BorrowSnapshot}
use sienna_network.Lend.Market.Accounts.{index_of, set_index, no_debt}
use sienna_network.Lend.Market.Accounts.Borrowers.{
  some-injective, if_true, if_false, same_key, own_key, index_of-set_index, Listed, Writes,
  get_borrow_snapshot-none, get_borrow_snapshot-some, get_borrow_snapshot-same, one_account,
  written-other,
}

apart_by : (i j : ℕ) → (i ≡ j → ⊥) → (i == j) ≡ false
apart_by i j h = elim (Bool-cases (i == j)) [ inl p ↦ absurd (h ((==_iff i j).0 p)) | inr p ↦ p ]

apart_sym : (n k : ℕ) → (n == k) ≡ false → (k == n) ≡ false
apart_sym n k h = ground arith

module _ {C S : Type 0} ⦃ec : Eq C⦄ ⦃it : Iterable S (BorrowSnapshot C)⦄ (s : State C S) (b : S)
    (a : C) (i : ℕ) (o : Option (BorrowSnapshot C)) (l : Listed s) (at : index_of s a ≡ some i)
    (q : it.swap_remove s.borrowers i ≡ ok (b, o)) where
  size : (i < it.len s.borrowers) × (it.len s.borrowers ≡ suc (it.len b))
  size = it.swap_remove-len s.borrowers b i o q

  entry :
      (j : ℕ)
      → it.get_at b j ≡ (
          if it.len b == j
          then none
          else if i == j
          then it.get_at s.borrowers (it.len b)
          else it.get_at s.borrowers j)
  entry j = it.swap_remove-get_at s.borrowers b i j o q

  entry_kept :
      (j : ℕ) → (it.len b == j) ≡ false → (i == j) ≡ false → it.get_at b j ≡ it.get_at s.borrowers j
  entry_kept j p r = entry j ∙ if_false _ _ p ∙ if_false _ _ r

  entry_moved : (it.len b == i) ≡ false → it.get_at b i ≡ it.get_at s.borrowers (it.len b)
  entry_moved p = entry i ∙ if_false _ _ p ∙ if_true _ _ ((==_iff i i).1 refl)

  entry_gone : (j : ℕ) → (it.len b == j) ≡ true → it.get_at b j ≡ none
  entry_gone j p = entry j ∙ if_true _ _ p

  -- Another account has another index.
  other_index : (c : C) (j : ℕ) → index_of s c ≡ some j → ec.beq a c ≡ false → (i == j) ≡ false
  other_index c j h p =
      apart_by i j
        λ same. (cc (p, (ec.beq_iff a c).1 (one_account s a c i l at (h ∙ ap some (sym same)))))

  other_account : (c : C) (j : ℕ) → index_of s c ≡ some j → (i == j) ≡ false → ec.beq a c ≡ false
  other_account c j h p = elim (Bool-cases (ec.beq a c)) [
    | inl r ↦
        absurd (cc (p, (==_iff i j).1 (some-injective (sym at ∙ ap (index_of s) (same_key r) ∙ h))))
    | inr r ↦ r
  ]

  -- An index of another account that is not the removed one leads where it did, unless it is the last.
  within :
      (c : C) (j : ℕ)
      → index_of s c ≡ some j
      → ec.beq a c ≡ false
      → (it.len b == j) ≡ false
      → (v : BorrowSnapshot C) × (it.get_at b j ≡ some v) × (v.address ≡ c)
  within c j h p r =
      let (v, there, of_c) = l.listed c j h in
      (v, entry_kept j r (other_index c j h p) ∙ there, of_c)

  -- The removed entry was the last.
  pub last_removed :
      (info : BorrowSnapshot C)
      → (info.principal == 0) ≡ true
      → (it.len b == i) ≡ true
      → Writes s a info (set_index (record s { borrowers = b }) a none)
  last_removed info zero last = (
    record {
      listed = λ c j h. elim (Bool-cases (ec.beq a c)) [
        | inl p ↦ absurd (cc (sym (idx c ∙ if_true _ _ p) ∙ h))
        | inr p ↦
            let old = sym (idx c ∙ if_false _ _ p) ∙ h in
            within c j old p (not_last j (other_index c j old p))
      ];
      indexed = λ j v h. elim (Bool-cases (it.len b == j)) [
        | inl p ↦ absurd (cc (sym (entry_gone j p) ∙ h))
        | inr p ↦
            let apart = not_removed j p in
            let found = l.indexed j v (sym (entry_kept j p apart) ∙ h) in
            idx v.address ∙ if_false _ _ (other_account v.address j found apart) ∙ found
      ];
    },
    λ c. elim (Bool-cases (ec.beq a c)) [
      | inl p ↦
          get_borrow_snapshot-none t c (idx c ∙ if_true _ _ p)
          ∙ ap (λ x. ok (no_debt x)) (sym (same_key p))
          ∙ sym (if_true _ _ p ∙ ap ok (if_true _ _ zero))
      | inr p ↦
          get_borrow_snapshot-same s t c (idx c ∙ if_false _ _ p)
            (λ j h. let apart = other_index c j h p in entry_kept j (not_last j apart) apart)
          ∙ sym (written-other s a c info p)
    ],
  )
    where
      t : State C S
      t = set_index (record s { borrowers = b }) a none

      idx : (c : C) → index_of t c ≡ (if ec.beq a c then none else index_of s c)
      idx c = index_of-set_index (record s { borrowers = b }) a c none

      not_last : (j : ℕ) → (i == j) ≡ false → (it.len b == j) ≡ false
      not_last j h = subst (λ n. (n == j) ≡ false) (sym ((==_iff (it.len b) i).0 last)) h

      not_removed : (j : ℕ) → (it.len b == j) ≡ false → (i == j) ≡ false
      not_removed j h = subst (λ n. (n == j) ≡ false) ((==_iff (it.len b) i).0 last) h

  -- Another entry took its place.
  pub moved_removed :
      (info m : BorrowSnapshot C)
      → (info.principal == 0) ≡ true
      → (it.len b == i) ≡ false
      → it.get_at s.borrowers (it.len b) ≡ some m
      → Writes s a info
          (set_index (set_index (record s { borrowers = b }) m.address (some i)) a none)
  moved_removed info m zero elsewhere at_last = (
    record {
      listed = λ c j h. elim (Bool-cases (ec.beq a c)) [
        | inl p ↦ absurd (cc (sym (idx c ∙ if_true _ _ p) ∙ h))
        | inr p ↦ elim (Bool-cases (ec.beq m.address c)) [
          | inl r ↦
              let i=j : i ≡ j = some-injective (sym (moved_idx c p r) ∙ h) in
              (m, subst (λ n. it.get_at b n ≡ some m) i=j here, same_key r)
          | inr r ↦ let old = sym (kept_idx c p r) ∙ h in within c j old p (not_last c j old r)
        ]
      ];
      indexed = λ j v h. elim (Bool-cases (it.len b == j)) [
        | inl p ↦ absurd (cc (sym (entry_gone j p) ∙ h))
        | inr p ↦ elim (Bool-cases (i == j)) [
          | inl r ↦
              let i=j = (==_iff i j).0 r in
              let same : m ≡ v =
                some-injective (sym here ∙ subst (λ n. it.get_at b n ≡ some v) (sym i=j) h) in
              subst (λ x. index_of t (x.address) ≡ some j) same
                (moved_idx m.address not_own (own_key m.address) ∙ ap some i=j)
          | inr r ↦
              let found = l.indexed j v (sym (entry_kept j p r) ∙ h) in
              kept_idx v.address (other_account v.address j found r) (not_moved v.address j found p)
              ∙ found
        ]
      ];
    },
    λ c. elim (Bool-cases (ec.beq a c)) [
      | inl p ↦
          get_borrow_snapshot-none t c (idx c ∙ if_true _ _ p)
          ∙ ap (λ x. ok (no_debt x)) (sym (same_key p))
          ∙ sym (if_true _ _ p ∙ ap ok (if_true _ _ zero))
      | inr p ↦ elim (Bool-cases (ec.beq m.address c)) [
        | inl r ↦
            get_borrow_snapshot-some t c i m (moved_idx c p r) here
            ∙ sym (
                get_borrow_snapshot-some s c (it.len b) m
                  (subst (λ x. index_of s x ≡ some (it.len b)) (same_key r) last_idx) at_last)
            ∙ sym (written-other s a c info p)
        | inr r ↦
            get_borrow_snapshot-same s t c (kept_idx c p r)
              (λ j h. entry_kept j (not_last c j h r) (other_index c j h p))
            ∙ sym (written-other s a c info p)
      ]
    ],
  )
    where
      t_0 : State C S
      t_0 = set_index (record s { borrowers = b }) m.address (some i)

      t : State C S
      t = set_index t_0 a none

      idx : (c : C) → index_of t c ≡ (if ec.beq a c then none else index_of t_0 c)
      idx c = index_of-set_index t_0 a c none

      moved_idx : (c : C) → ec.beq a c ≡ false → ec.beq m.address c ≡ true → index_of t c ≡ some i
      moved_idx c p r =
          idx c
          ∙ if_false _ _ p
          ∙ index_of-set_index (record s { borrowers = b }) m.address c (some i)
          ∙ if_true _ _ r

      kept_idx :
          (c : C) → ec.beq a c ≡ false → ec.beq m.address c ≡ false → index_of t c ≡ index_of s c
      kept_idx c p r =
          idx c
          ∙ if_false _ _ p
          ∙ index_of-set_index (record s { borrowers = b }) m.address c (some i)
          ∙ if_false _ _ r

      here : it.get_at b i ≡ some m
      here = entry_moved elsewhere ∙ at_last

      last_idx : index_of s m.address ≡ some (it.len b)
      last_idx = l.indexed (it.len b) m at_last

      not_own : ec.beq a m.address ≡ false
      not_own = other_account m.address (it.len b) last_idx (apart_sym (it.len b) i elsewhere)

      not_last :
          (c : C) (j : ℕ)
          → index_of s c ≡ some j
          → ec.beq m.address c ≡ false
          → (it.len b == j) ≡ false
      not_last c j h r = apart_by (it.len b) j λ same.
          (cc (
            r,
            (ec.beq_iff m.address c).1 (one_account s m.address c j l (last_idx ∙ ap some same) h),
          ))

      not_moved :
          (c : C) (j : ℕ)
          → index_of s c ≡ some j
          → (it.len b == j) ≡ false
          → ec.beq m.address c ≡ false
      not_moved c j h p = elim (Bool-cases (ec.beq m.address c)) [
        | inl r ↦ absurd (
            cc (
              p,
              (==_iff (it.len b) j).1
                  (some-injective (sym last_idx ∙ ap (index_of s) (same_key r) ∙ h)),
            ))
        | inr r ↦ r
      ]
