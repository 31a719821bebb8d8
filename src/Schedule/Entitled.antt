-- ===== src/Schedule/Entitled.antt =====
-- What a schedule owes to an address, in unbounded arithmetic, and the proof that the checked folds
-- of vesting.rs compute it.
use sienna_network.Base.{
  ℕ, ◌≤◌, ◌≡◌, List, [], ◌∷◌, ok, arith, if◌then◌else◌, Eq, fold128_zero_fits, All, sum_by,
}
use sienna_network.Schedule.Account
use sienna_network.Schedule.Account.{Account}
use sienna_network.Schedule.Account.Vested
use sienna_network.Schedule.Account.Vested.{vested, vested-le-amount, unlocked_lem}
use sienna_network.Schedule.Pool
use sienna_network.Schedule.Pool.Valid
use sienna_network.Schedule.Pool.Valid.{allocated, Covers-le}
use sienna_network.Schedule.{Schedule, unlocked}
use sienna_network.Schedule.Valid.{IsValid, InRange, promised, subtotal_lem}

module _ {A : Type 0} ⦃e : Eq A⦄ where
  -- The vested amount for the account's address, nothing for others.
  abbrev pub due : ℕ → A → Account A → ℕ
  due t address a = if e.beq address a.address then vested a t else 0

  abbrev pub pool_due : ℕ → A → Pool.Pool A → ℕ
  pool_due t address p = sum_by (due t address) p.accounts

  -- What the schedule owes the address after `t` seconds.
  unfoldable pub entitled : Schedule A → ℕ → A → ℕ
  entitled s t address = sum_by (pool_due t address) s.pools

  abbrev pub share : A → Account A → ℕ
  share address a = if e.beq address a.address then a.amount else 0

  abbrev pub pool_share : A → Pool.Pool A → ℕ
  pool_share address p = sum_by (share address) p.accounts

  -- What the schedule ever grants the address.
  unfoldable pub allotted : Schedule A → A → ℕ
  allotted s address = sum_by (pool_share address) s.pools

abbrev pub PoolRuns : {A : Type 0} → Pool.Pool A → Type 0
PoolRuns p = All Vested.IsRunnable p.accounts

-- No account of the schedule makes the code panic.
abbrev pub IsRunnable : {A : Type 0} → Schedule A → Type 0
IsRunnable s = All PoolRuns s.pools

module _ {A : Type 0} ⦃e : Eq A⦄ where
  pub due-le-share :
      (t : ℕ) (address : A) (xs : List (Account A))
      → All Vested.IsValid xs
      → sum_by (due t address) xs ≤ sum_by (share address) xs
  due-le-share t address [] v = omega arith
  due-le-share t address (a ∷ xs) v =
      ground (arith, vested-le-amount a t v.0.cliff_le, due-le-share t address xs v.1)

  pub share-le-amount :
      (address : A) (xs : List (Account A)) → sum_by (share address) xs ≤ allocated xs
  share-le-amount address [] = omega arith
  share-le-amount address (a ∷ xs) = ground (arith, share-le-amount address xs)

  accounts_unlocked :
      (t : ℕ) (address : A) (xs : List (Account A))
      → All Vested.IsValid xs
      → All Account.InRange xs
      → All Vested.IsRunnable xs
      → All (λ a. Account.unlocked a t address ≡ ok (due t address a)) xs
  accounts_unlocked t address [] v r n = tt
  accounts_unlocked t address (a ∷ xs) v r n =
      (unlocked_lem a t address v.0 r.0 n.0, accounts_unlocked t address xs v.1 r.1 n.1)

  pool_due-le-total :
      (t : ℕ) (address : A) (p : Pool.Pool A) → Valid.IsValid p → pool_due t address p ≤ p.total
  pool_due-le-total t address p v = omega (
    arith,
    due-le-share t address p.accounts v.accounts_valid,
    share-le-amount address p.accounts,
    Covers-le p.partial (allocated p.accounts) p.total v.covered,
  )

  pool_unlocked :
      (t : ℕ) (address : A) (p : Pool.Pool A)
      → Valid.IsValid p
      → Valid.InRange p
      → PoolRuns p
      → Pool.unlocked p t address ≡ ok (pool_due t address p)
  unfolding Pool.unlocked
  pool_unlocked t address p v r n =
      let total = Covers-le p.partial (allocated p.accounts) p.total v.covered in
      let paid = due-le-share t address p.accounts v.accounts_valid in
      ground (
        arith,
        r.total_fits,
        total,
        paid,
        share-le-amount address p.accounts,
        fold128_zero_fits (λ a. Account.unlocked a t address) (due t address) p.accounts
            (accounts_unlocked t address p.accounts v.accounts_valid r.accounts_fit n),
        Valid.subtotal_lem p,
      )

  pools_unlocked :
      (t : ℕ) (address : A) (ps : List (Pool.Pool A))
      → All Valid.IsValid ps
      → All Valid.InRange ps
      → All PoolRuns ps
      → All (λ p. Pool.unlocked p t address ≡ ok (pool_due t address p)) ps
  pools_unlocked t address [] v r n = tt
  pools_unlocked t address (p ∷ ps) v r n =
      (pool_unlocked t address p v.0 r.0 n.0, pools_unlocked t address ps v.1 r.1 n.1)

  pool_due-le-promised :
      (t : ℕ) (address : A) (ps : List (Pool.Pool A))
      → All Valid.IsValid ps
      → sum_by (pool_due t address) ps ≤ promised ps
  pool_due-le-promised t address [] v = omega arith
  pool_due-le-promised t address (p ∷ ps) v =
      omega (arith, pool_due-le-total t address p v.0, pool_due-le-promised t address ps v.1)

  pub entitled-le-total :
      (s : Schedule A) (t : ℕ) (address : A) → IsValid s → entitled s t address ≤ s.total
  unfolding entitled
  entitled-le-total s t address v =
      omega (arith, pool_due-le-promised t address s.pools v.pools_valid, v.adds_up)

  -- On a valid schedule of accounts that run, `unlocked` returns, without overflow or panic, the sum
  -- of the vested amounts of the address's accounts: neither minimum with a subtotal ever bites.
  pub unlocked-entitled :
      (s : Schedule A) (t : ℕ) (address : A)
      → IsValid s
      → InRange s
      → IsRunnable s
      → unlocked s t address ≡ ok (entitled s t address)
  unfolding unlocked entitled
  unlocked-entitled s t address v r n = ground (
    arith,
    r.total_fits,
    v.adds_up,
    pool_due-le-promised t address s.pools v.pools_valid,
    fold128_zero_fits (λ p. Pool.unlocked p t address) (pool_due t address) s.pools
        (pools_unlocked t address s.pools v.pools_valid r.pools_fit n),
    subtotal_lem s,
  )
