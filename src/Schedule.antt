-- ===== src/Schedule.antt =====
-- libraries/schedule: the vesting schedule of the token generation event.
pub mod Account
pub mod Pool
pub mod Valid
pub mod Entitled
pub mod Bounds
pub mod Canon
pub mod Adding
pub mod Conservation
use Prim.Native.String.{String}
use sienna_network.Base.{
  ℕ, min, true, false, List, [], ◌∷◌, Result, ok, err, ◌>>=◌, ◌>>◌, guard, generic, schedule_total,
  pool_not_found, ◌==◌, if◌then◌else◌, Eq, string_eq, fold128,
}

pub record Schedule (A : Type 0) : Type 0 where
  pub total : ℕ
  pub pools : List (Pool.Pool A)

module _ {A : Type 0} where
  -- `subtotal`, over the pools alone.
  unfoldable pub pools_total : List (Pool.Pool A) → Result ℕ
  pools_total = fold128 (λ p. ok p.total) 0

  unfoldable pub subtotal : Schedule A → Result ℕ
  subtotal s = pools_total s.pools

  unfoldable pub new : List (Pool.Pool A) → Result (Schedule A)
  new pools = do total ← pools_total pools; ok (record { total = total; pools = pools })

  -- `Vec<Pool>::validate`
  unfoldable pub validate_pools : List (Pool.Pool A) → Result (Unit {0})
  validate_pools [] = ok tt
  validate_pools (p ∷ rest) = Pool.validate p >> validate_pools rest

  unfoldable pub validate : Schedule A → Result (Unit {0})
  validate s = do
    validate_pools s.pools
    sum ← subtotal s
    guard (sum == s.total) (generic (schedule_total sum s.total))

  -- The loop of `add_account`: the first pool of that name takes the account.
  unfoldable pub add_to_pools :
      List (Pool.Pool A) → String → Account.Account A → Result (List (Pool.Pool A))
  add_to_pools [] name a = err (generic (pool_not_found name))
  add_to_pools (p ∷ rest) name a = elim (string_eq.beq p.name name) [
    | true ↦ do p' ← Pool.add_account p a; ok (p' ∷ rest)
    | false ↦ do rest' ← add_to_pools rest name a; ok (p ∷ rest')
  ]

  unfoldable pub add_account : Schedule A → String → Account.Account A → Result (Schedule A)
  add_account s name a = do pools ← add_to_pools s.pools name a; ok (record s { pools = pools })

unfoldable pub unlocked : {A : Type 0} ⦃e : Eq A⦄ → Schedule A → ℕ → A → Result ℕ
unlocked s t address = do
  released ← fold128 (λ p. Pool.unlocked p t address) 0 s.pools
  sum ← subtotal s
  ok (min released sum)
