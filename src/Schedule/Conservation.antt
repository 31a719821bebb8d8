-- ===== src/Schedule/Conservation.antt =====
-- What a schedule owes to all its addresses together, and over time.
use sienna_network.Base.{
  ℕ, ◌≤◌, ◌≡◌, refl, true, false, List, [], ◌∷◌, arith, Eq, All, sum_by, sum_by-swap, sum_by-le,
  Bool-cases, inl, inr,
}
use sienna_network.Schedule.Account.{Account}
use sienna_network.Schedule.Account.Vested
use sienna_network.Schedule.Account.Vested.{vested}
use sienna_network.Schedule.Account.Growth.{vested_mono}
use sienna_network.Schedule.Pool
use sienna_network.Schedule.Pool.Valid
use sienna_network.Schedule.Pool.Valid.{allocated, Covers-le}
use sienna_network.Schedule.{Schedule}
use sienna_network.Schedule.Valid.{IsValid, promised}
use sienna_network.Schedule.Entitled.{
  due, pool_due, entitled, share, pool_share, allotted, due-le-share,
}

module _ {A : Type 0} ⦃e : Eq A⦄ where
  -- No address occurs twice.
  abbrev pub Distinct : List A → Type 0
  Distinct [] = Unit
  Distinct (x ∷ xs) = All (λ y. e.beq y x ≡ false) xs × Distinct xs

  due_mono :
      (s t : ℕ) (address : A) (xs : List (Account A))
      → s ≤ t
      → All Vested.IsValid xs
      → sum_by (due s address) xs ≤ sum_by (due t address) xs
  due_mono s t address [] h v = omega arith
  due_mono s t address (a ∷ xs) h v =
      ground (arith, vested_mono a s t v.0.cliff_le h, due_mono s t address xs h v.1)

  pool_due_mono :
      (s t : ℕ) (address : A) (ps : List (Pool.Pool A))
      → s ≤ t
      → All Valid.IsValid ps
      → sum_by (pool_due s address) ps ≤ sum_by (pool_due t address) ps
  pool_due_mono s t address [] h v = omega arith
  pool_due_mono s t address (p ∷ ps) h v = omega (
    arith,
    due_mono s t address p.accounts h v.0.accounts_valid,
    pool_due_mono s t address ps h v.1,
  )

  -- What a schedule owes never falls.
  pub entitled_mono :
      (sch : Schedule A) (s t : ℕ) (address : A)
      → IsValid sch
      → s ≤ t
      → entitled sch s address ≤ entitled sch t address
  unfolding entitled
  entitled_mono sch s t address v h = pool_due_mono s t address sch.pools h v.pools_valid

  pools-due-le-share :
      (t : ℕ) (address : A) (ps : List (Pool.Pool A))
      → All Valid.IsValid ps
      → sum_by (pool_due t address) ps ≤ sum_by (pool_share address) ps
  pools-due-le-share t address [] v = omega arith
  pools-due-le-share t address (p ∷ ps) v = omega (
    arith,
    due-le-share t address p.accounts v.0.accounts_valid,
    pools-due-le-share t address ps v.1,
  )

  pub entitled-le-allotted :
      (s : Schedule A) (t : ℕ) (address : A) → IsValid s → entitled s t address ≤ allotted s address
  unfolding entitled allotted
  entitled-le-allotted s t address v = pools-due-le-share t address s.pools v.pools_valid

  no_share :
      (a : Account A) (x : A) (addresses : List A)
      → e.beq x a.address ≡ true
      → All (λ y. e.beq y x ≡ false) addresses
      → sum_by (λ y. share y a) addresses ≡ 0
  no_share a x [] same fresh = refl
  no_share a x (y ∷ ys) same fresh = ground (
    arith,
    fresh.0,
    e.beq_iff x a.address,
    e.beq_iff y a.address,
    e.beq_iff y x,
    no_share a x ys same fresh.1,
  )

  -- Distinct addresses share one account's amount at most once.
  shares-le-amount :
      (a : Account A) (addresses : List A)
      → Distinct addresses
      → sum_by (λ y. share y a) addresses ≤ a.amount
  shares-le-amount a [] d = omega arith
  shares-le-amount a (x ∷ xs) d = elim (Bool-cases (e.beq x a.address)) [
    | inl same ↦ rw same (omega (arith, no_share a x xs same d.0))
    | inr other ↦ rw other (omega (arith, shares-le-amount a xs d.1))
  ]

  accounts_shares :
      (addresses : List A) (xs : List (Account A))
      → Distinct addresses
      → sum_by (λ y. sum_by (share y) xs) addresses ≤ allocated xs
  accounts_shares addresses xs d =
      rw (sum_by-swap share addresses xs) (sum_by-le _ _ xs (λ a. shares-le-amount a addresses d))

  pools_shares :
      (addresses : List A) (ps : List (Pool.Pool A))
      → Distinct addresses
      → All Valid.IsValid ps
      → sum_by (λ p. sum_by (λ y. pool_share y p) addresses) ps ≤ promised ps
  pools_shares addresses [] d v = omega arith
  pools_shares addresses (p ∷ ps) d v = omega (
    arith,
    accounts_shares addresses p.accounts d,
    Covers-le p.partial (allocated p.accounts) p.total v.0.covered,
    pools_shares addresses ps d v.1,
  )

  -- However many different addresses there are, a valid schedule grants them together no more than
  -- its total.
  pub allotted_sum-le-total :
      (s : Schedule A) (addresses : List A)
      → Distinct addresses
      → IsValid s
      → sum_by (allotted s) addresses ≤ s.total
  unfolding allotted
  allotted_sum-le-total s addresses d v =
      rw (sum_by-swap (λ y. pool_share y) addresses s.pools)
        (omega (arith, pools_shares addresses s.pools d v.pools_valid, v.adds_up))
