-- ===== src/Schedule/Account.antt =====
-- libraries/schedule/lib/lib.rs, vesting.rs and validate.rs: one vesting account of a pool.
-- `Uint128` and `u64` fields are numbers; `InRange` says that they fit. Every operation on them is
-- checked, so the fallible methods return a result.
pub mod Vested
pub mod Growth
pub mod Validity
use Prim.Native.String.{String}
use sienna_network.Base.{
  ℕ, ◌-◌, ◌/◌, ◌%◌, ◌<◌, min, Bool, not, false, Option, none, some, Result, ok, err, ◌>>=◌, ◌>>◌,
  guard, panic, generic, assertion, account_empty, cliff_too_big, does_not_add_up, ltb, leb, ◌==◌,
  if◌then◌else◌, Eq, u64_mod, u128_mod, add64, add128, mul128, sub_checked, div_checked,
}

pub record Account (A : Type 0) : Type 0 where
  pub name : String
  pub address : A
  pub amount : ℕ
  pub cliff : ℕ
  pub start_at : ℕ
  pub interval : ℕ
  pub duration : ℕ

-- The machine types of the fields.
pub record InRange {A : Type 0} (a : Account A) : Type 0 where
  pub amount_fits : a.amount < u128_mod
  pub cliff_fits : a.cliff < u128_mod
  pub start_fits : a.start_at < u64_mod
  pub interval_fits : a.interval < u64_mod
  pub duration_fits : a.duration < u64_mod

module _ {A : Type 0} where
  unfoldable pub immediate : String → A → ℕ → Account A
  immediate name address amount = record {
    name = name;
    address = address;
    amount = amount;
    cliff = 0;
    start_at = 0;
    interval = 0;
    duration = 0;
  }

  unfoldable pub periodic : String → A → ℕ → ℕ → ℕ → ℕ → ℕ → Account A
  periodic name address amount cliff start_at interval duration = record {
    name = name;
    address = address;
    amount = amount;
    cliff = cliff;
    start_at = start_at;
    interval = interval;
    duration = duration;
  }

  -- The `assert!` panics.
  unfoldable pub amount_after_cliff : Account A → Result ℕ
  amount_after_cliff a = do
    guard (leb a.cliff a.amount) (panic assertion)
    sub_checked a.amount a.cliff

  unfoldable pub portion_count : Account A → ℕ
  portion_count a = if ltb 0 a.interval then a.duration / a.interval else 0

  unfoldable pub portion_size : Account A → Result ℕ
  portion_size a =
      if ltb 0 (portion_count a)
      then (do rest ← amount_after_cliff a; div_checked rest (portion_count a))
      else ok 0

  unfoldable pub remainder : Account A → Result ℕ
  remainder a = do
    rest ← amount_after_cliff a
    size ← portion_size a
    portions ← mul128 size (portion_count a)
    sub_checked rest portions

  unfoldable pub end : Account A → Result ℕ
  end a = add64 a.start_at a.duration

  unfoldable pub elapsed : Account A → ℕ → Option ℕ
  elapsed a t = if leb a.start_at t then some (t - a.start_at) else none

  -- The closure that `most_recent_portion` maps over `elapsed`; `/` panics on a zero interval.
  unfoldable pub portion_after : Account A → ℕ → Result ℕ
  portion_after a passed = do
    whole ← div_checked passed a.interval
    n ← add64 whole (if a.cliff == 0 then 1 else 0)
    ok (min n (portion_count a))

  unfoldable pub most_recent_portion : Account A → ℕ → Result (Option ℕ)
  most_recent_portion a t = elim (elapsed a t) [
    | none ↦ ok none
    | some passed ↦ do n ← portion_after a passed; ok (some n)
  ]

  unfoldable pub vests_at : Account A → ℕ → Result Bool
  vests_at a t = elim (elapsed a t) [
    | none ↦ ok false
    | some passed ↦ do _ ← div_checked passed a.interval; ok (passed % a.interval == 0)
  ]

  -- The last arm of `unlocked`, before the minimum with the amount.
  unfoldable pub vested_portions : Account A → Option ℕ → Result ℕ
  vested_portions a none = ok 0
  vested_portions a (some n) = do
    size ← portion_size a
    portions ← mul128 n size
    add128 a.cliff portions

  unfoldable pub validate : Account A → Result (Unit {0})
  validate a =
      if a.amount == 0
      then err (generic (account_empty a.name))
      else if ltb a.amount a.cliff
      then err (generic (cliff_too_big a.name a.cliff a.amount))
      else (do
        size ← portion_size a
        portions ← mul128 size (portion_count a)
        vested ← add128 a.cliff portions
        rest ← remainder a
        total ← add128 vested rest
        guard (a.amount == total) (generic (does_not_add_up a.name)))

-- What this account has released to `address` after `t` seconds.
unfoldable pub unlocked : {A : Type 0} ⦃e : Eq A⦄ → Account A → ℕ → A → Result ℕ
unlocked ⦃e⦄ a t address =
    if not (e.beq address a.address)
    then ok 0
    else if ltb t a.start_at
    then ok 0
    else end a >>= λ finish. if leb finish t then ok a.amount else (do
      portion ← most_recent_portion a t
      vested ← vested_portions a portion
      ok (min vested a.amount))
