-- ===== src/Schedule/Account/Vested.antt =====
-- The amount that an account has vested, in unbounded arithmetic, and the proof that the checked
-- code of vesting.rs computes it.
use sienna_network.Base.{
  ℕ, ◌+◌, ◌-◌, ◌*◌, ◌/◌, ◌≤◌, ◌<◌, ◌≡◌, ◌⊎◌, min, some, ok, arith, parts-le, div-le, ltb, leb, ◌==◌,
  if◌then◌else◌, Eq, u64_mod, u128_mod, add64_fits, add128_fits, mul128_fits, sub_fits, div_fits,
}
use sienna_network.Schedule.Account.{
  Account, InRange, amount_after_cliff, portion_count, portion_size, end, elapsed, portion_after,
  most_recent_portion, vested_portions, unlocked,
}

-- What `validate` asks of an account.
pub record IsValid {A : Type 0} (a : Account A) : Type 0 where
  pub positive : 0 < a.amount
  pub cliff_le : a.cliff ≤ a.amount

-- What `validate` does not ask, and the code needs in order not to panic.
pub record IsRunnable {A : Type 0} (a : Account A) : Type 0 where
  pub end_fits : a.start_at + a.duration < u64_mod
  pub steps : (0 < a.interval) ⊎ (a.duration ≡ 0)

module _ {A : Type 0} where
  -- The size of a regular portion.
  abbrev pub size : Account A → ℕ
  size a = if ltb 0 (portion_count a) then (a.amount - a.cliff) / portion_count a else 0

  -- Without a cliff the first portion is due at the start.
  abbrev pub first : Account A → ℕ
  first a = if a.cliff == 0 then 1 else 0

  abbrev pub portions_at : Account A → ℕ → ℕ
  portions_at a passed = min (passed / a.interval + first a) (portion_count a)

  unfoldable pub vested : Account A → ℕ → ℕ
  vested a t =
      if ltb t a.start_at
      then 0
      else if leb (a.start_at + a.duration) t
      then a.amount
      else a.cliff + portions_at a (t - a.start_at) * size a

  pub amount_after_cliff_lem :
      (a : Account A) → a.cliff ≤ a.amount → amount_after_cliff a ≡ ok (a.amount - a.cliff)
  unfolding amount_after_cliff
  amount_after_cliff_lem a h = ground (arith, sub_fits a.amount a.cliff)

  pub portion_size_lem : (a : Account A) → a.cliff ≤ a.amount → portion_size a ≡ ok (size a)
  unfolding portion_size
  portion_size_lem a h =
      ground (arith, amount_after_cliff_lem a h, div_fits (a.amount - a.cliff) (portion_count a))

  -- All regular portions together fit into what the cliff leaves.
  pub portions-le : (a : Account A) (n : ℕ) → n ≤ portion_count a → n * size a ≤ a.amount - a.cliff
  portions-le a n h = ground (arith, parts-le n (portion_count a) (a.amount - a.cliff) h)

  pub vested-le-amount : (a : Account A) (t : ℕ) → a.cliff ≤ a.amount → vested a t ≤ a.amount
  unfolding vested
  vested-le-amount a t h = ground (arith, portions-le a (portions_at a (t - a.start_at)))

  -- Between the start and the end no step leaves its machine type.
  pub portion_after_lem :
      (a : Account A) (passed : ℕ)
      → 0 < a.interval
      → passed < a.duration
      → a.duration < u64_mod
      → portion_after a passed ≡ ok (portions_at a passed)
  unfolding portion_after
  portion_after_lem a passed step within fits = ground (
    arith,
    div_fits passed a.interval,
    div-le passed a.interval,
    add64_fits (passed / a.interval) (first a),
  )

  pub vested_portions_lem :
      (a : Account A) (n : ℕ)
      → a.cliff ≤ a.amount
      → a.amount < u128_mod
      → n ≤ portion_count a
      → vested_portions a (some n) ≡ ok (a.cliff + n * size a)
  unfolding vested_portions
  vested_portions_lem a n cliff fits h =
      rw (portion_size_lem a cliff) (
        ground (arith, portions-le a n h, mul128_fits n (size a), add128_fits a.cliff (n * size a)))

  pub most_recent_portion_lem :
      (a : Account A) (t : ℕ)
      → a.duration < u64_mod
      → IsRunnable a
      → a.start_at ≤ t
      → t < a.start_at + a.duration
      → most_recent_portion a t ≡ ok (some (portions_at a (t - a.start_at)))
  unfolding most_recent_portion elapsed
  most_recent_portion_lem a t fits r from before =
      ground (arith, portion_after_lem a (t - a.start_at))

-- On a valid account that runs, `unlocked` returns the vested amount to the account's address, and
-- nothing to any other.
pub unlocked_lem :
    {A : Type 0} ⦃e : Eq A⦄ (a : Account A) (t : ℕ) (address : A)
    → IsValid a
    → InRange a
    → IsRunnable a
    → unlocked a t address ≡ ok (if e.beq address a.address then vested a t else 0)
unfolding unlocked end vested
unlocked_lem a t address v i r = ground (
  arith,
  add64_fits a.start_at a.duration,
  most_recent_portion_lem a t i.duration_fits r,
  vested_portions_lem a (portions_at a (t - a.start_at)) v.cliff_le i.amount_fits,
  portions-le a (portions_at a (t - a.start_at)),
)
