-- ===== src/Rewards/Users.antt =====
-- contracts/amm/rewards/account.rs: the account of a user, without what it asks of governance.
use sienna_network.Base.{
  ℕ, ◌-◌, some, unwrap_or, Result, ok, ◌>>=◌, ◌>>◌, guard, not, ltb, ◌==◌, min, generic, rewards,
  no_time_travel, if◌then◌else◌, Eq, Uint128, Uint256,
}
use sienna_network.Base.Dict
use sienna_network.Rewards.Storage.{Deps, State, Stored, nothing_stored}
use sienna_network.Rewards.Pool.{
  Total, accumulate, from_time, commit_total_elapsed, commit_total_claim,
}

pub record Account (H C : Type 0) : Type 0 where
  pub total : Total
  pub updated : ℕ
  pub elapsed : ℕ
  pub staked : ℕ
  pub pool_share : ℕ × ℕ
  pub volume : ℕ
  pub starting_pool_volume : ℕ
  pub accumulated_pool_volume : ℕ
  pub reward_share : ℕ × ℕ
  pub starting_pool_rewards : ℕ
  pub accumulated_pool_rewards : ℕ
  pub earned : ℕ
  pub bonding : ℕ
  pub address : H
  pub id : C

-- The share of the rewards, by the share of the volume, and no more than the budget.
unfoldable pub get_earned : ⦃w : Uint256⦄ → (budget unlocked volume pool_volume : ℕ) → Result ℕ
get_earned ⦃w⦄ budget unlocked volume pool_volume = if pool_volume == 0 then ok 0 else (do
  reward ← w.multiply_ratio unlocked volume pool_volume
  ok (min budget (w.low_u128 reward)))

-- The volume at which an account starts again: that of the epoch if nothing is staked.
unfoldable pub entry_volume : {H C : Type 0} → Account H C → ℕ
entry_volume a = if a.staked == 0 then a.total.clock.volume else a.total.volume

module _ {H C D : Type 0} ⦃ec : Eq C⦄ where
  -- What is stored of an account.
  abbrev pub stored_of : State H C D → C → Stored
  stored_of s id = Dict.get nothing_stored id s.accounts

  abbrev pub store_account : State H C D → C → Stored → State H C D
  store_account s id keys = record s { accounts = Dict.put id keys s.accounts }

  -- `Account::reset`
  unfoldable pub reset : State H C D → Account H C → State H C D × Account H C
  unfolding entry_volume
  reset s a = (
    store_account s a.id (record (stored_of s a.id) {
      entry_vol = some (entry_volume a);
      entry_rew = some a.total.unlocked;
      bonding = some a.total.bonding;
      volume = some 0;
      updated = some a.total.clock.now;
    }),
    record a {
      starting_pool_volume = entry_volume a;
      starting_pool_rewards = a.total.unlocked;
      bonding = a.total.bonding;
      volume = 0;
      updated = a.total.clock.now;
    },
  )

  -- `Account::commit_elapsed`
  unfoldable pub commit_elapsed : State H C D → Account H C → State H C D × Account H C
  commit_elapsed s a =
      let s' = commit_total_elapsed s a.total in
      if a.staked == 0 then reset s' a else (
        store_account s' a.id (record (stored_of s' a.id) {
          bonding = some a.bonding;
          volume = some a.volume;
          updated = some a.total.clock.now;
        }),
        a,
      )

  -- The stake of an account and that of the pool, in storage and in the account at hand.
  unfoldable pub set_staked :
      State H C D → Account H C → (staked pool : ℕ) → State H C D × Account H C
  set_staked s a staked pool = (
    record (store_account s a.id (record (stored_of s a.id) { staked = some staked })) {
      totals = record (s.totals) { staked = some pool };
    },
    record a { staked = staked; total = record (a.total) { staked = pool } },
  )

  -- `Account::commit_withdrawal`
  unfoldable pub commit_withdrawal :
      ⦃u : Uint128⦄ → State H C D → Account H C → (amount : ℕ) → Result (State H C D × Account H C)
  commit_withdrawal ⦃u⦄ s a amount = do
    let (s', a') = commit_elapsed s a
    staked ← u.sub a'.staked amount
    pool ← u.sub a'.total.staked amount
    ok (set_staked s' a' staked pool)

  -- `Account::commit_deposit`, after the votes.
  unfoldable pub commit_stake :
      ⦃u : Uint128⦄ → State H C D → Account H C → (amount : ℕ) → Result (State H C D × Account H C)
  commit_stake ⦃u⦄ s a amount = do
    let (s', a') = commit_elapsed s a
    staked ← u.add a'.staked amount
    pool ← u.add a'.total.staked amount
    ok (set_staked s' a' staked pool)

module _ {H C D : Type 0} ⦃e : Eq H⦄ ⦃ec : Eq C⦄ ⦃u : Uint128⦄ ⦃w : Uint256⦄ (d : Deps H C) where
  -- `Account::get`
  unfoldable pub get_account : State H C D → Total → (address : H) → Result (Account H C)
  get_account s total address = do
    id ← d.canonize address
    let keys = stored_of s id
    let updated = unwrap_or keys.updated total.clock.now
    guard (not (ltb total.clock.now updated)) (generic (rewards (no_time_travel 3)))
    let staked = unwrap_or keys.staked 0
    let elapsed = total.clock.now - updated
    volume ← accumulate (unwrap_or keys.volume 0) elapsed staked
    let starting_pool_volume = unwrap_or keys.entry_vol total.clock.volume
    guard (not (ltb total.volume starting_pool_volume)) (generic (rewards (no_time_travel 4)))
    accumulated_pool_volume ← w.sub total.volume starting_pool_volume
    let starting_pool_rewards = unwrap_or keys.entry_rew total.unlocked
    guard (not (ltb total.unlocked starting_pool_rewards)) (generic (rewards (no_time_travel 5)))
    accumulated_pool_rewards ← u.sub total.unlocked starting_pool_rewards
    earned ← get_earned total.budget accumulated_pool_rewards volume accumulated_pool_volume
    let bonding = unwrap_or keys.bonding total.bonding
    ok (record {
      total = total;
      updated = updated;
      elapsed = elapsed;
      staked = staked;
      pool_share = (staked, total.staked);
      volume = volume;
      starting_pool_volume = starting_pool_volume;
      accumulated_pool_volume = accumulated_pool_volume;
      reward_share = (volume, accumulated_pool_volume);
      starting_pool_rewards = starting_pool_rewards;
      accumulated_pool_rewards = accumulated_pool_rewards;
      earned = earned;
      bonding = if ltb 0 staked then bonding - elapsed else bonding;
      address = address;
      id = id;
    })

  -- `Account::from_addr`
  unfoldable pub from_addr : State H C D → (address : H) → (time : ℕ) → Result (Account H C)
  from_addr s address time = do total ← from_time d s time; get_account s total address

  -- `Account::commit_claim`
  unfoldable pub commit_claim : State H C D → Account H C → Result (State H C D × Account H C)
  commit_claim s a =
      if ltb 0 a.earned
      then (let (s', a') = reset s a in
          commit_total_claim d s' a'.total a'.earned >>= λ r. ok (r.0, record a' { total = r.1 }))
      else ok (s, a)
