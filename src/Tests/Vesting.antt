-- ===== src/Tests/Vesting.antt =====
-- Tests of libraries/schedule: the account of its test `vest_periodic_with_cliff`, and a pool that
-- is open.
use sienna_network.Base.{
  ℕ, ◌+◌, ◌≤◌, ◌≡◌, ◌↔◌, refl, true, [], ◌∷◌, ok, err, panic, div_by_zero, arith, nat_eq, u64_mod,
  u128_mod, add64, add128, mul128, sub_checked, div_checked, fold128, inl, All,
}
use sienna_network.Schedule
use sienna_network.Schedule.{Schedule}
use sienna_network.Schedule.Account
use sienna_network.Schedule.Account.{Account}
use sienna_network.Schedule.Account.Vested
use sienna_network.Schedule.Account.Vested.{vested, unlocked_lem}
use sienna_network.Schedule.Account.Growth.{unlocked_zero_interval}
use sienna_network.Schedule.Pool
use sienna_network.Schedule.Pool.{Pool}
use sienna_network.Schedule.Pool.Valid.{pool_validate_iff}
use sienna_network.Schedule.Pool.Valid as PoolValid
use sienna_network.Schedule.Pool.Adding.{added, add_account-eq-ok}
use sienna_network.Schedule.Valid.{schedule_validate_iff}
use sienna_network.Schedule.Valid
use sienna_network.Schedule.Entitled.{entitled, allotted, unlocked-entitled}
use sienna_network.Schedule.Bounds.{unlocked-le-allotted}
use sienna_network.Schedule.Adding.{add_account-allotted}

abbrev pub alice : Account ℕ
alice = record {
  name = "alice";
  address = 1;
  amount = 100;
  cliff = 42;
  start_at = 7;
  interval = 12;
  duration = 70;
}

abbrev pub bob : Account ℕ
bob = record alice { name = "bob"; address = 2; amount = 50; cliff = 0 }

-- Accepted by `validate`, though it never steps.
abbrev stuck : Account ℕ
stuck = record alice { interval = 0 }

abbrev pub open_pool : Pool ℕ
open_pool = record { partial = true; name = "open"; total = 200; accounts = alice ∷ [] }

abbrev pub plan : Schedule ℕ
plan = record { total = 200; pools = open_pool ∷ [] }

alice-IsValid : Vested.IsValid alice
alice-IsValid = record { positive = omega arith; cliff_le = omega arith }

alice-InRange : Account.InRange alice
unfolding u64_mod u128_mod
alice-InRange = omega arith

bob-InRange : Account.InRange bob
unfolding u64_mod u128_mod
bob-InRange = omega arith

alice-IsRunnable : Vested.IsRunnable alice
unfolding u64_mod
alice-IsRunnable = record { end_fits = omega arith; steps = inl (omega arith) }

open_pool-IsValid : PoolValid.IsValid open_pool
open_pool-IsValid = record { accounts_valid = (alice-IsValid, tt); covered = omega arith }

open_pool-InRange : PoolValid.InRange open_pool
unfolding u128_mod
open_pool-InRange = record { total_fits = omega arith; accounts_fit = (alice-InRange, tt) }

pub plan-IsValid : Valid.IsValid plan
plan-IsValid = record { pools_valid = (open_pool-IsValid, tt); adds_up = refl }

pub plan-InRange : Valid.InRange plan
unfolding u128_mod
plan-InRange = record { total_fits = omega arith; pools_fit = (open_pool-InRange, tt) }

-- Two portions of 11 after the cliff.
alice_at_40 : Account.unlocked alice 40 1 ≡ ok 64
unfolding Account.unlocked Account.end Account.most_recent_portion Account.elapsed
    Account.portion_after Account.portion_count Account.vested_portions Account.portion_size
    Account.amount_after_cliff add64 add128 mul128 sub_checked div_checked
alice_at_40 = refl

unlocked_lem_example : Account.unlocked alice 40 1 ≡ ok (vested alice 40)
unlocked_lem_example = unlocked_lem alice 40 1 alice-IsValid alice-InRange alice-IsRunnable

unlocked_zero_interval_example : Account.unlocked stuck 40 1 ≡ err (panic div_by_zero)
unfolding u64_mod
unlocked_zero_interval_example =
    unlocked_zero_interval stuck 40 refl (omega arith) (omega arith) (omega arith)

schedule_validate_iff_example : (Schedule.validate plan ≡ ok tt) ↔ Valid.IsValid plan
schedule_validate_iff_example = schedule_validate_iff plan plan-InRange

bob-IsValid : Vested.IsValid bob
bob-IsValid = record { positive = omega arith; cliff_le = omega arith }

-- The pool with bob in it is still open, since 50 of its 200 are left.
open_pool_with_bob : Pool.add_account open_pool bob ≡ ok (Pool.push open_pool bob)
unfolding Pool.add_account Pool.unallocated Pool.subtotal Pool.validate Pool.validate_accounts
    Pool.is_invalid_total Account.validate Account.remainder Account.portion_count
    Account.portion_size Account.amount_after_cliff fold128 add128 mul128 sub_checked div_checked
open_pool_with_bob = refl

add_account-eq-ok_example :
    (open_pool.partial ≡ true)
    × (150 ≤ 200)
    × Vested.IsValid bob
    × (Pool.push open_pool bob ≡ added open_pool bob)
add_account-eq-ok_example =
    add_account-eq-ok open_pool (Pool.push open_pool bob) bob open_pool-InRange open_pool-IsValid
      bob-InRange open_pool_with_bob

pub plan-runs : All (λ p. All Vested.IsRunnable p.accounts) plan.pools
plan-runs = ((alice-IsRunnable, tt), tt)

unlocked-entitled_example : Schedule.unlocked plan 40 1 ≡ ok (entitled plan 40 1)
unlocked-entitled_example = unlocked-entitled plan 40 1 plan-IsValid plan-InRange plan-runs

plan_at_40 : Schedule.unlocked plan 40 1 ≡ ok 64
unfolding Schedule.unlocked Schedule.subtotal Schedule.pools_total Pool.unlocked Pool.subtotal
    Account.unlocked Account.end Account.most_recent_portion Account.elapsed Account.portion_after
    Account.portion_count Account.vested_portions Account.portion_size Account.amount_after_cliff
    fold128 add64 add128 mul128 sub_checked div_checked
plan_at_40 = refl

unlocked-le-allotted_example : 64 ≤ allotted plan 1
unlocked-le-allotted_example = unlocked-le-allotted 40 1 plan 64 plan_at_40

abbrev plan_with_bob : Schedule ℕ
plan_with_bob = record { total = 200; pools = Pool.push open_pool bob ∷ [] }

plan_takes_bob : Schedule.add_account plan "open" bob ≡ ok plan_with_bob
unfolding Schedule.add_account Schedule.add_to_pools Pool.add_account Pool.unallocated Pool.subtotal
    Pool.validate Pool.validate_accounts Pool.is_invalid_total Account.validate Account.remainder
    Account.portion_count Account.portion_size Account.amount_after_cliff fold128 add128 mul128
    sub_checked div_checked
plan_takes_bob = refl

add_account-allotted_example :
    Valid.IsValid plan_with_bob
    × Valid.InRange plan_with_bob
    × (◌≡◌ {A = ℕ} 200 200)
    × (allotted plan_with_bob 2 ≡ allotted plan 2 + 50)
add_account-allotted_example =
    add_account-allotted plan plan_with_bob "open" bob 2 plan-IsValid plan-InRange bob-InRange
      plan_takes_bob
