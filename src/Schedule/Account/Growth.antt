-- ===== src/Schedule/Account/Growth.antt =====
-- How the vested amount of one account grows, and where the code of vesting.rs stops instead.
use sienna_network.Base.{
  ℕ, ◌+◌, ◌-◌, ◌≤◌, ◌<◌, ◌≡◌, ok, err, panic, div_by_zero, arith, Eq, u64_mod, mul_mono, div_mono,
  div_checked, add64_fits, refl,
}
use sienna_network.Schedule.Account.{
  Account, InRange, most_recent_portion, elapsed, portion_after, unlocked, end,
}
use sienna_network.Schedule.Account.Vested.{
  IsValid, IsRunnable, size, portions_at, vested, portions-le, vested-le-amount, unlocked_lem,
}

module _ {A : Type 0} where
  portions_at_mono : (a : Account A) (p q : ℕ) → p ≤ q → portions_at a p ≤ portions_at a q
  portions_at_mono a p q h = ground (arith, div_mono p q a.interval h)

  -- The amount vested never falls.
  pub vested_mono : (a : Account A) (s t : ℕ) → a.cliff ≤ a.amount → s ≤ t → vested a s ≤ vested a t
  unfolding vested
  vested_mono a s t cliff h = ground (
    arith,
    portions_at_mono a (s - a.start_at) (t - a.start_at),
    mul_mono (portions_at a (s - a.start_at)) (portions_at a (t - a.start_at)) (size a) (size a),
    portions-le a (portions_at a (s - a.start_at)),
  )

-- For a valid account that runs, a later answer of `unlocked` to the same address is never below an
-- earlier one, and never above the account's amount.
pub unlocked_mono :
    {A : Type 0} ⦃e : Eq A⦄ (a : Account A) (address : A) (s t : ℕ) (m n : ℕ)
    → IsValid a
    → InRange a
    → IsRunnable a
    → s ≤ t
    → unlocked a s address ≡ ok m
    → unlocked a t address ≡ ok n
    → (m ≤ n) × (n ≤ a.amount)
unlocked_mono ⦃e⦄ a address s t m n v i r h p q = grind (
  arith,
  unlocked_lem a s address v i r,
  unlocked_lem a t address v i r,
  vested_mono a s t v.cliff_le h,
  vested-le-amount a t v.cliff_le,
)

-- `validate` lets an account through whose interval is zero and whose duration is not, and then
-- every question about that account's address between its start and its end panics.
pub unlocked_zero_interval :
    {A : Type 0} ⦃e : Eq A⦄ (a : Account A) (t : ℕ)
    → a.interval ≡ 0
    → a.start_at ≤ t
    → t < a.start_at + a.duration
    → a.start_at + a.duration < u64_mod
    → unlocked a t a.address ≡ err (panic div_by_zero)
unfolding unlocked end most_recent_portion elapsed portion_after div_checked
unlocked_zero_interval ⦃e⦄ a t zero_step from before fits =
    ground (arith, add64_fits a.start_at a.duration, (e.beq_iff a.address a.address).1 refl)
