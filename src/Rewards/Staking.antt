-- ===== src/Rewards/Staking.antt =====
-- contracts/amm/rewards: what a user does with a stake (account.rs), the drain of a closed pool (drain.rs)
-- and the migration of accounts (migration.rs and lib.rs).
use Prim.Native.String.{String}
use sienna_network.Base.{
  ℕ, ◌-◌, ◌*◌, Bool, true, false, Option, none, some, unwrap_or, List, [], ◌∷◌, ◌++◌, Result, ok,
  ◌>>=◌, ◌>>◌, guard, or_fail, not, ltb, ◌==◌, ◌&&◌, generic, rewards, panic, unwrap_none,
  unauthorized, withdraw_refused, withdraw_fatal, claim_bonding, claim_pool_empty,
  claim_zero_claimable, unstake_disallowed, export_state_miscalled, immigration_disallowed,
  emigration_disallowed, if◌then◌else◌, sub_checked, add64, u128_mod, Eq, Uint128, Uint256, Decimal,
  ContractLink,
}
use sienna_network.Base.Dict
use sienna_network.Rewards.Storage.{
  Config, State, Deps, Env, Msg, transfer, transfer_from, send, set_viewing_key, increase_allowance,
  receive_migration, load_lp_token, load_reward_token, load_self_link, assert_closed, day,
  same_link,
}
use sienna_network.Rewards.Users.{
  Account, from_addr, reset, commit_stake, commit_withdrawal, commit_claim,
}
use sienna_network.Rewards.Auth.{load_vk, save_vk}
use sienna_network.Rewards.Gov.{active_polls, created_polls, increase_votes}

-- `ClaimRecipient`
pub data ClaimRecipient (H : Type 0) : Type 0 where
  to_contract : ContractLink H → (msg : Option String) → ClaimRecipient H
  to_human : H → ClaimRecipient H

abbrev is_empty : List ℕ → Bool
is_empty [] = true
is_empty (x ∷ xs) = false

-- `User::can_unstake`
unfoldable pub can_unstake : (active created : List ℕ) (balance threshold amount : ℕ) → Result Bool
can_unstake active created balance threshold amount =
    if not (is_empty active)
    then ok false
    else if not (is_empty created)
    then (sub_checked balance amount >>= λ rest. ok (ltb threshold rest))
    else ok true

-- What is done in a closed pool, and in an open one.
abbrev pub when_closed : {A : Type 0} → Option (ℕ × String) → A → A → A
when_closed (some seal) exit go_on = exit
when_closed none exit go_on = go_on

-- Seconds to wait after closing.
abbrev pub wait_period : ℕ
wait_period = 604800

-- The message that pays a reward.
unfoldable pub reward_message :
    {H : Type 0} → H → (earned : ℕ) → ContractLink H → Option (ClaimRecipient H) → Msg H
reward_message address earned token none = transfer address earned token
reward_message address earned token (some (to_human recipient)) = transfer recipient earned token
reward_message address earned token (some (to_contract contract msg)) =
    send contract earned msg token

module _ {H C : Type 0} (d : Deps H C) where
  -- The messages of a deposit: the tokens are taken, unless they came with the notification.
  unfoldable pub deposit_messages :
      Config C → Account H C → (amount : ℕ) → (take : Bool) → Result (List (Msg H))
  deposit_messages c a amount true = do
    lp_token ← load_lp_token d c
    self_link ← load_self_link d c
    ok (transfer_from a.address self_link.address amount lp_token ∷ [])
  deposit_messages c a amount false = ok []

module _ {H C D : Type 0} ⦃e : Eq H⦄ ⦃ec : Eq C⦄ ⦃u : Uint128⦄ ⦃w : Uint256⦄ ⦃dec : Decimal D⦄
    (d : Deps H C) where
  -- `Account::commit_deposit`. `Sender::from_human` takes the address again.
  unfoldable pub commit_deposit :
      State H C D → Account H C → (amount : ℕ) → Result (State H C D × Account H C)
  commit_deposit s a amount = do
    user ← d.canonize a.address
    polls ← active_polls s user a.total.clock.now
    _ ← created_polls s user a.total.clock.now
    s' ← increase_votes d s polls user amount a.total.clock.now
    commit_stake s' a amount

  -- `Account::force_exit`
  unfoldable pub force_exit : State H C D → Account H C → Result (State H C D × List (Msg H))
  force_exit s a = do
    lp_token ← load_lp_token d s.config
    reward_token ← load_reward_token d s.config
    (withdrawn, a') ← commit_withdrawal s a a.staked
    (claimed, _) ← commit_claim d withdrawn a'
    ok (
      claimed,
      transfer a.address a.staked lp_token ∷ transfer a.address a.earned reward_token ∷ [],
    )

  -- `Account::deposit`
  unfoldable pub deposit :
      State H C D → Account H C → (amount : ℕ) → (take : Bool) → Result (State H C D × List (Msg H))
  deposit s a amount take = when_closed a.total.closed (force_exit s a) (do
    (s', a') ← commit_deposit s a amount
    messages ← deposit_messages d s'.config a amount take
    ok (s', messages))

  -- After a withdrawal of everything: the reward, if it is due, and a new start in any case.
  unfoldable pub leave : State H C D → Account H C → Result (State H C D × List (Msg H))
  leave s a =
      if ltb 0 a.earned && (a.bonding == 0)
      then (do
        (s', a') ← commit_claim d s a
        reward_token ← load_reward_token d s'.config
        ok (s', transfer a'.address a'.earned reward_token ∷ []))
      else ok ((reset s a).0, [])

  -- `Account::withdraw` of an open pool.
  unfoldable pub withdraw_open :
      State H C D → Account H C → (amount : ℕ) → Result (State H C D × List (Msg H))
  withdraw_open s a amount = do
    guard (not (ltb a.staked amount)) (generic (rewards (withdraw_refused a.staked amount)))
    guard (not (ltb a.total.staked amount))
        (generic (rewards (withdraw_fatal a.total.staked amount)))
    user ← d.canonize a.address
    active ← active_polls s user a.total.clock.now
    created ← created_polls s user a.total.clock.now
    threshold ← or_fail s.gov.threshold (panic unwrap_none)
    allowed ← can_unstake active created a.staked threshold amount
    guard allowed (generic (rewards unstake_disallowed))
    (s', a') ← commit_withdrawal s a amount
    (s'', paid) ← (if a'.staked == 0 then leave s' a' else ok (s', []))
    lp_token ← load_lp_token d s''.config
    ok (s'', paid ++ transfer a.address amount lp_token ∷ [])

  -- `Account::withdraw`
  unfoldable pub withdraw :
      State H C D → Account H C → (amount : ℕ) → Result (State H C D × List (Msg H))
  withdraw s a amount = when_closed a.total.closed (force_exit s a) (withdraw_open s a amount)

  -- `Account::claim` of an open pool.
  unfoldable pub claim_open :
      State H C D → Account H C → Option (ClaimRecipient H) → Result (State H C D × List (Msg H))
  claim_open s a to = do
    guard (not (ltb 0 a.bonding)) (generic (rewards (claim_bonding a.bonding)))
    guard (not (a.total.budget == 0)) (generic (rewards claim_pool_empty))
    guard (not (a.earned == 0)) (generic (rewards claim_zero_claimable))
    (s', a') ← commit_claim d s a
    reward_token ← load_reward_token d s'.config
    ok (s', reward_message a'.address a'.earned reward_token to ∷ [])

  -- `Account::claim`
  unfoldable pub claim :
      State H C D → Account H C → Option (ClaimRecipient H) → Result (State H C D × List (Msg H))
  claim s a to = when_closed a.total.closed (force_exit s a) (claim_open s a to)

  -- `Drain::drain`, after the check of the admin.
  unfoldable pub drain :
      Env H
      → State H C D
      → ContractLink H
      → (recipient : Option H) → (key : String) → Result (State H C D × List (Msg H))
  drain env s token recipient key = do
    waited ← assert_closed d s.config env
    guard (not (ltb waited wait_period)) unauthorized
    reward_token ← load_reward_token d s.config
    let config =
        (if same_link reward_token token
          then record (s.config) { reward_vk = some key }
          else s.config)
    expiration ← add64 env.time (day * 10000)
    ok (
      record s { config = config },
      increase_allowance (unwrap_or recipient env.sender) (u128_mod - 1) expiration token
          ∷ set_viewing_key key token
          ∷ [],
    )

  -- `can_export_state` and `can_immigrate_from`: the other contract is in the list, under its own address.
  unfoldable pub can_export_state : State H C D → Env H → (migrant : H) → Result (ContractLink H)
  can_export_state s env migrant = do
    guard (not (e.beq env.sender migrant)) (generic (rewards export_state_miscalled))
    id ← d.canonize env.sender
    next ← or_fail (Dict.get none id s.migrate_to) (generic (rewards immigration_disallowed))
    guard (e.beq next.address env.sender) (generic (rewards immigration_disallowed))
    ok next

  unfoldable pub can_immigrate_from : State H C D → (prev : H) → Result (Unit {0})
  can_immigrate_from s prev = do
    id ← d.canonize prev
    link ← or_fail (Dict.get none id s.migrate_from) (generic (rewards emigration_disallowed))
    guard (e.beq link.address prev) (generic (rewards emigration_disallowed))

  -- `handle_export_state`
  unfoldable pub handle_export_state :
      Env H
      → State H C D
      → (next : ContractLink H) → (migrant : H) → Result (State H C D × List (Msg H))
  handle_export_state env s next migrant = do
    a ← from_addr d s migrant env.time
    key ← load_vk d s.admins migrant
    snapshot ← d.print_snapshot (record { migrant = migrant; viewing_key = key; staked = a.staked })
    (s', moved) ←
        (if ltb 0 a.staked
          then (do
            (s', _) ← commit_withdrawal s a a.staked
            lp_token ← load_lp_token d s'.config
            ok (s', transfer env.sender a.staked lp_token ∷ []))
          else ok (s, []))
    ok (s', moved ++ receive_migration snapshot next ∷ [])

  -- `handle_receive_migration`
  unfoldable pub handle_receive_migration :
      Env H → State H C D → (snapshot : String) → Result (State H C D × List (Msg H))
  handle_receive_migration env s data_ = do
    snapshot ← d.parse_snapshot data_
    admins ← elim snapshot.viewing_key [
      | some key ↦ save_vk d snapshot.migrant key s.admins
      | none ↦ ok s.admins
    ]
    let keyed = record s { admins = admins }
    a ← from_addr d keyed snapshot.migrant env.time
    (s', _) ← commit_deposit keyed a snapshot.staked
    ok (s', [])

  -- `EnableMigrationTo`, `DisableMigrationTo`, and the same of the contracts to migrate from.
  unfoldable pub set_migration_to :
      State H C D → (next : H) → Option (ContractLink H) → Result (State H C D)
  set_migration_to s next link = do
    id ← d.canonize next
    ok (record s { migrate_to = Dict.put id link s.migrate_to })

  unfoldable pub set_migration_from :
      State H C D → (prev : H) → Option (ContractLink H) → Result (State H C D)
  set_migration_from s prev link = do
    id ← d.canonize prev
    ok (record s { migrate_from = Dict.put id link s.migrate_from })
