-- ===== src/Rewards/Pool.antt =====
-- contracts/amm/rewards: the clock (time_utils.rs) and the totals of the pool (total.rs).
use Prim.Native.String.{String}
use sienna_network.Base.{
  ℕ, ◌-◌, Option, some, unwrap_or, Result, ok, ◌>>=◌, ◌>>◌, guard, or_fail, not, ltb, ◌==◌, generic,
  rewards, no_time_travel, invalid_epoch_number, no_reward_vk, unauthorized, if◌then◌else◌, add64,
  sub_checked, Eq, Uint128, Uint256,
}
use sienna_network.Rewards.Storage.{
  Config, Deps, Env, State, day, load_self_link, load_lp_token, load_reward_token, load_timekeeper,
  same_link,
}

pub record Clock : Type 0 where
  pub now : ℕ
  pub number : ℕ
  pub started : ℕ
  pub volume : ℕ

pub record Total : Type 0 where
  pub clock : Clock
  pub updated : ℕ
  pub staked : ℕ
  pub volume : ℕ
  pub budget : ℕ
  pub distributed : ℕ
  pub unlocked : ℕ
  pub bonding : ℕ
  pub closed : Option (ℕ × String)

unfoldable pub accumulate : ⦃w : Uint256⦄ → (before elapsed rate : ℕ) → Result ℕ
accumulate ⦃w⦄ before elapsed rate = do
  increment ← w.multiply_ratio rate elapsed 1
  w.add before increment

module _ {H C D : Type 0} where
  -- `Clock::get`
  unfoldable pub get_clock : State H C D → (now : ℕ) → Clock
  get_clock s now = record {
    now = now;
    number = unwrap_or s.epoch.number 0;
    started = unwrap_or s.epoch.start 0;
    volume = unwrap_or s.epoch.volume 0;
  }

  -- `Total::commit_elapsed`
  unfoldable pub commit_total_elapsed : State H C D → Total → State H C D
  commit_total_elapsed s total = record s {
    totals = record (s.totals) { volume = some total.volume; updated = some total.clock.now };
  }

module _ {H C : Type 0} ⦃e : Eq H⦄ ⦃u : Uint128⦄ (d : Deps H C) where
  -- The balance in reward tokens, less what is staked where both tokens are one.
  unfoldable pub get_budget : Config C → (staked : ℕ) → Result ℕ
  get_budget c staked = do
    reward_token ← load_reward_token d c
    self_link ← load_self_link d c
    key ← or_fail c.reward_vk (generic no_reward_vk)
    balance ← d.balance reward_token self_link.address key
    lp_token ← load_lp_token d c
    (if same_link reward_token lp_token then u.sub balance staked else ok balance)

module _ {H C D : Type 0} ⦃e : Eq H⦄ ⦃u : Uint128⦄ ⦃w : Uint256⦄ (d : Deps H C) where
  -- `Total::get`
  unfoldable pub get_total : State H C D → Clock → Result Total
  get_total s clock = do
    let updated = unwrap_or s.totals.updated clock.now
    guard (not (ltb clock.now updated)) (generic (rewards (no_time_travel 2)))
    let staked = unwrap_or s.totals.staked 0
    volume ← accumulate (unwrap_or s.totals.volume 0) (clock.now - updated) staked
    budget ← get_budget d s.config staked
    let distributed = unwrap_or s.totals.claimed 0
    unlocked ← u.add distributed budget
    ok (record {
      clock = clock;
      updated = updated;
      staked = staked;
      volume = volume;
      budget = budget;
      distributed = distributed;
      unlocked = unlocked;
      bonding = unwrap_or s.config.bonding day;
      closed = s.config.closed;
    })

  -- `Total::from_time`
  unfoldable pub from_time : State H C D → (time : ℕ) → Result Total
  from_time s time = get_total s (get_clock s time)

  -- `Total::commit_claim`
  unfoldable pub commit_total_claim :
      State H C D → Total → (earned : ℕ) → Result (State H C D × Total)
  commit_total_claim s total earned = do
    distributed ← u.add total.distributed earned
    ok (
      record s { totals = record (s.totals) { claimed = some distributed } },
      record total { distributed = distributed },
    )

  -- `Clock::increment`
  unfoldable pub increment : Env H → State H C D → (next_epoch : ℕ) → Result (State H C D)
  increment env s next_epoch = do
    keeper ← load_timekeeper d s.config
    guard (e.beq env.sender keeper) unauthorized
    let epoch = unwrap_or s.epoch.number 0
    next ← add64 epoch 1
    guard (next_epoch == next) (generic (rewards (invalid_epoch_number epoch next_epoch)))
    elapsed ← sub_checked env.time (unwrap_or s.totals.updated env.time)
    volume ← accumulate (unwrap_or s.totals.volume 0) elapsed (unwrap_or s.totals.staked 0)
    ok (record s {
      epoch = record { number = some next_epoch; start = some env.time; volume = some volume };
    })
