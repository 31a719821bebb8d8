-- ===== src/Lend/Market/Accounts/Borrowers.antt =====
-- The stored vector of borrowers and the indices into it are a map from accounts to debts.
use mathlib.Core.Path.{subst}
use sienna_network.Base.{
  ℕ, suc, ◌≡◌, refl, sym, ◌∙◌, ap, Bool, true, false, Bool-cases, inl, inr, Option, some, none,
  Option-cases, Result, ok, ltb, ◌==◌, ==_iff, if◌then◌else◌, arith, Eq, Iterable,
}
use sienna_network.Base.Dict.{get-put}
use sienna_network.Lend.Market.Storage.{State, BorrowSnapshot}
use sienna_network.Lend.Market.Accounts.{index_of, set_index, no_debt, get_borrow_snapshot}

pub some-injective : {A : Type 0} {a b : A} → some a ≡ some b → a ≡ b
some-injective h = cc

pub if_true : {A : Type 0} {t : Bool} (x y : A) → t ≡ true → (if t then x else y) ≡ x
if_true x y p = rw p refl

pub if_false : {A : Type 0} {t : Bool} (x y : A) → t ≡ false → (if t then x else y) ≡ y
if_false x y p = rw p refl

not_within_itself : (n j : ℕ) → (n == j) ≡ true → ltb j n ≡ false
not_within_itself n j h = ground arith

module _ {C : Type 0} ⦃ec : Eq C⦄ where
  pub same_key : {a b : C} → ec.beq a b ≡ true → a ≡ b
  same_key {a} {b} h = (ec.beq_iff a b).0 h

  pub own_key : (a : C) → ec.beq a a ≡ true
  own_key a = (ec.beq_iff a a).1 refl

module _ {C S : Type 0} ⦃ec : Eq C⦄ where
  pub index_of-set_index :
      (s : State C S) (a c : C) (i : Option ℕ)
      → index_of (set_index s a i) c ≡ (if ec.beq a c then i else index_of s c)
  index_of-set_index s a c i = get-put none c a i s.borrow_info

  module _ ⦃it : Iterable S (BorrowSnapshot C)⦄ where
    -- Every index leads to the account's entry, and every entry is found by the index of its account.
    pub record Listed (s : State C S) : Type 0 where
      pub listed :
          (a : C) (i : ℕ)
          → index_of s a ≡ some i
          → (b : BorrowSnapshot C) × (it.get_at s.borrowers i ≡ some b) × (b.address ≡ a)
      pub indexed :
          (i : ℕ) (b : BorrowSnapshot C)
          → it.get_at s.borrowers i ≡ some b
          → index_of s b.address ≡ some i

    -- What `get_borrow_snapshot` reads after a write.
    abbrev pub written : State C S → C → BorrowSnapshot C → C → Result (BorrowSnapshot C)
    written s a info c =
        if ec.beq a c
        then ok (if info.principal == 0 then no_debt a else info)
        else get_borrow_snapshot s c

    -- The two parts of a write: the lists stay in step, and the write is read back.
    abbrev pub Writes : State C S → C → BorrowSnapshot C → State C S → Type 0
    Writes s a info s' = Listed s' × ((c : C) → get_borrow_snapshot s' c ≡ written s a info c)

    pub get_borrow_snapshot-none :
        (s : State C S) (a : C) → index_of s a ≡ none → get_borrow_snapshot s a ≡ ok (no_debt a)
    unfolding get_borrow_snapshot
    get_borrow_snapshot-none s a h = rw (h, get_borrow_snapshot) refl

    pub get_borrow_snapshot-some :
        (s : State C S) (a : C) (i : ℕ) (b : BorrowSnapshot C)
        → index_of s a ≡ some i
        → it.get_at s.borrowers i ≡ some b
        → get_borrow_snapshot s a ≡ ok b
    unfolding get_borrow_snapshot
    get_borrow_snapshot-some s a i b h k = rw (h, k, get_borrow_snapshot) refl

    same_at :
        (s s' : State C S) (a : C) (i : ℕ)
        → index_of s' a ≡ some i
        → index_of s a ≡ some i
        → it.get_at s'.borrowers i ≡ it.get_at s.borrowers i
        → get_borrow_snapshot s' a ≡ get_borrow_snapshot s a
    unfolding get_borrow_snapshot
    same_at s s' a i p q k = rw (p, q, k, get_borrow_snapshot) refl

    -- Reading depends on the index and on the entry there.
    pub get_borrow_snapshot-same :
        (s s' : State C S) (a : C)
        → index_of s' a ≡ index_of s a
        → ((i : ℕ) → index_of s a ≡ some i → it.get_at s'.borrowers i ≡ it.get_at s.borrowers i)
        → get_borrow_snapshot s' a ≡ get_borrow_snapshot s a
    get_borrow_snapshot-same s s' a h k = elim (Option-cases (index_of s a)) [
      | inl q ↦ get_borrow_snapshot-none s' a (h ∙ q) ∙ sym (get_borrow_snapshot-none s a q)
      | inr (i, q) ↦ same_at s s' a i (h ∙ q) q (k i q)
    ]

    -- Two accounts with one index are one.
    pub one_account :
        (s : State C S) (a c : C) (i : ℕ)
        → Listed s
        → index_of s a ≡ some i
        → index_of s c ≡ some i
        → a ≡ c
    one_account s a c i l p q =
        let (b, at_b, of_a) = l.listed a i p in
        let (b', at_b', of_c) = l.listed c i q in
        sym of_a ∙ ap BorrowSnapshot.address (some-injective (sym at_b ∙ at_b')) ∙ of_c

    written-own :
        (s : State C S) (a c : C) (info : BorrowSnapshot C)
        → ec.beq a c ≡ true
        → (info.principal == 0) ≡ false
        → written s a info c ≡ ok info
    written-own s a c info p n = rw (p, n) refl

    pub written-other :
        (s : State C S) (a c : C) (info : BorrowSnapshot C)
        → ec.beq a c ≡ false
        → written s a info c ≡ get_borrow_snapshot s c
    written-other s a c info p = rw p refl

    -- An entry is replaced.
    pub update_written :
        (s : State C S) (b : S) (a : C) (info : BorrowSnapshot C) (i : ℕ)
        → Listed s
        → info.address ≡ a
        → index_of s a ≡ some i
        → (info.principal == 0) ≡ false
        → it.update_at s.borrowers i info ≡ ok b
        → Writes s a info (record s { borrowers = b })
    update_written s b a info i l own at nonzero q =
        let e = λ (j : ℕ). it.update_at-get_at s.borrowers b info i j q in
        let t : State C S = record s { borrowers = b } in
        let here : it.get_at b i ≡ some info = e i ∙ if_true _ _ ((==_iff i i).1 refl) in
        (
          record {
            listed = λ c j h. elim (Bool-cases (i == j)) [
              | inl p ↦
                  let i=j = (==_iff i j).0 p in
                  (
                    info,
                    e j ∙ if_true _ _ p,
                    own ∙ one_account s a c i l at (h ∙ ap some (sym i=j)),
                  )
              | inr p ↦
                  let (v, there, of_c) = l.listed c j h in (v, e j ∙ if_false _ _ p ∙ there, of_c)
            ];
            indexed = λ j v h. elim (Bool-cases (i == j)) [
              | inl p ↦
                  let same : info ≡ v = some-injective (sym (e j ∙ if_true _ _ p) ∙ h) in
                  subst (λ x. index_of s (x.address) ≡ some j) same
                    (subst (λ x. index_of s x ≡ some j) (sym own) (at ∙ ap some ((==_iff i j).0 p)))
              | inr p ↦ l.indexed j v (sym (e j ∙ if_false _ _ p) ∙ h)
            ];
          },
          λ c. elim (Bool-cases (ec.beq a c)) [
            | inl p ↦
                get_borrow_snapshot-some t c i info
                  (subst (λ x. index_of s x ≡ some i) (same_key p) at) here
                ∙ sym (written-own s a c info p nonzero)
            | inr p ↦
                get_borrow_snapshot-same s t c refl (λ j h. e j ∙ apart j c h p)
                ∙ sym (written-other s a c info p)
          ],
        )
      where
        apart :
            (j : ℕ) (c : C)
            → index_of s c ≡ some j
            → ec.beq a c ≡ false
            → (if i == j then some info else it.get_at s.borrowers j) ≡ it.get_at s.borrowers j
        apart j c h p = elim (Bool-cases (i == j)) [
          | inl r ↦ absurd (
              cc (
                p,
                (ec.beq_iff a c).1
                    (one_account s a c i l at (h ∙ ap some (sym ((==_iff i j).0 r)))),
              ))
          | inr r ↦ rw r refl
        ]

    -- An entry is added.
    pub push_written :
        (s : State C S) (b : S) (n : ℕ) (a : C) (info : BorrowSnapshot C)
        → Listed s
        → info.address ≡ a
        → index_of s a ≡ none
        → (info.principal == 0) ≡ false
        → it.push s.borrowers info ≡ ok (b, n)
        → Writes s a info (set_index (record s { borrowers = b }) a (some n))
    push_written s b n a info l own at nonzero q = (
      record {
        listed = λ c j h. elim (Bool-cases (ec.beq a c)) [
          | inl p ↦
              let n=j : n ≡ j = some-injective (sym (idx c ∙ if_true _ _ p) ∙ h) in
              (
                info,
                e j ∙ if_true _ _ ((==_iff (it.len s.borrowers) j).1 (sym size.0 ∙ n=j)),
                own ∙ same_key p,
              )
          | inr p ↦
              let (v, there, of_c) = l.listed c j (sym (idx c ∙ if_false _ _ p) ∙ h) in
              (v, e j ∙ if_false _ _ (not_last j v there) ∙ there, of_c)
        ];
        indexed = λ j v h. elim (Bool-cases (it.len s.borrowers == j)) [
          | inl p ↦
              let same : info ≡ v = some-injective (sym (e j ∙ if_true _ _ p) ∙ h) in
              subst (λ x. index_of t (x.address) ≡ some j) same
                (subst (λ x. index_of t x ≡ some j) (sym own)
                  (here ∙ ap some (size.0 ∙ (==_iff (it.len s.borrowers) j).0 p)))
          | inr p ↦
              let found = l.indexed j v (sym (e j ∙ if_false _ _ p) ∙ h) in
              idx v.address ∙ if_false _ _ (not_own v.address j found) ∙ found
        ];
      },
      λ c. elim (Bool-cases (ec.beq a c)) [
        | inl p ↦
            get_borrow_snapshot-some t c n info (idx c ∙ if_true _ _ p)
              (e n ∙ if_true _ _ ((==_iff (it.len s.borrowers) n).1 (sym size.0)))
            ∙ sym (written-own s a c info p nonzero)
        | inr p ↦
            get_borrow_snapshot-same s t c (idx c ∙ if_false _ _ p) (λ j h.
              let (v, there, of_c) = l.listed c j h in e j ∙ if_false _ _ (not_last j v there))
            ∙ sym (written-other s a c info p)
      ],
    )
      where
        t : State C S
        t = set_index (record s { borrowers = b }) a (some n)

        size : (n ≡ it.len s.borrowers) × (it.len b ≡ suc (it.len s.borrowers))
        size = it.push-len s.borrowers b info n q

        e :
            (j : ℕ)
            → it.get_at b j
              ≡ (if it.len s.borrowers == j then some info else it.get_at s.borrowers j)
        e j = it.push-get_at s.borrowers b info n j q

        idx : (c : C) → index_of t c ≡ (if ec.beq a c then some n else index_of s c)
        idx c = index_of-set_index (record s { borrowers = b }) a c (some n)

        here : index_of t a ≡ some n
        here = idx a ∙ if_true _ _ (own_key a)

        not_last :
            (j : ℕ) (v : BorrowSnapshot C)
            → it.get_at s.borrowers j ≡ some v
            → (it.len s.borrowers == j) ≡ false
        not_last j v there = elim (Bool-cases (it.len s.borrowers == j)) [
          | inl p ↦ absurd (
              cc (there, it.get_at_past s.borrowers j (not_within_itself (it.len s.borrowers) j p)))
          | inr p ↦ p
        ]

        not_own : (c : C) (j : ℕ) → index_of s c ≡ some j → ec.beq a c ≡ false
        not_own c j h = elim (Bool-cases (ec.beq a c)) [
          | inl p ↦ absurd (cc (sym at ∙ ap (index_of s) (same_key p) ∙ h))
          | inr p ↦ p
        ]
