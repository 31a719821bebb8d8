-- ===== src/Rewards.antt =====
-- contracts/amm/rewards: the staking pool and its governance. Here: the messages and how they are
-- dispatched (handle.rs, migration.rs and lib.rs), and queries (query.rs).
pub mod Storage
pub mod Pool
pub mod Users
pub mod Gov
pub mod Auth
pub mod Staking
pub mod Stakes
pub mod Polls
pub mod Ledger
pub mod Steps
pub mod Backed
use Prim.Native.String.{String}
use sienna_network.Base.{
  ℕ, Bool, true, false, Option, none, some, unwrap_or, List, [], ◌∷◌, Result, ok, err, ◌>>=◌, ◌>>◌,
  guard, unauthorized, Eq, Uint128, Uint256, Decimal, ContractLink,
}
use Storage.{
  State, Deps, Env, Msg, export_state, RewardsConfig, store_config, initialize, load_lp_token,
  config_from_storage,
}
use Pool.{Total, from_time, increment}
use Users.{Account, from_addr, stored_of}
use Auth.{
  AuthHandle, nominate, become, create_key, set_key, init_auth, assert_admin, nominate_admin,
  become_admin, create_vk, set_vk, check_vk,
}
use Staking.{
  ClaimRecipient, deposit, withdraw, claim, drain, can_export_state, can_immigrate_from,
  handle_export_state, handle_receive_migration, set_migration_to, set_migration_from,
}
use Polls.{GovernanceConfig, GovernanceHandle, default_config, initialize_gov, handle_governance}

pub data RewardsHandle (H : Type 0) : Type 0 where
  make_deposit : (amount : ℕ) → RewardsHandle H
  deposit_receiver : (from : H) (amount : ℕ) → RewardsHandle H
  make_withdrawal : (amount : ℕ) → RewardsHandle H
  make_claim : Option (ClaimRecipient H) → RewardsHandle H
  begin_epoch : (next_epoch : ℕ) → RewardsHandle H
  configure : RewardsConfig H → RewardsHandle H
  close : (message : String) → RewardsHandle H

pub data EmigrationHandle (H : Type 0) : Type 0 where
  enable_to disable_to : ContractLink H → EmigrationHandle H
  export : (migrant : H) → EmigrationHandle H

pub data ImmigrationHandle (H : Type 0) : Type 0 where
  enable_from disable_from request : ContractLink H → ImmigrationHandle H
  receive_snapshot : String → ImmigrationHandle H

pub data Handle (H D : Type 0) : Type 0 where
  receive : (from : H) (amount : ℕ) → Handle H D
  auth : AuthHandle H → Handle H D
  immigration : ImmigrationHandle H → Handle H D
  emigration : EmigrationHandle H → Handle H D
  rewards_pool : RewardsHandle H → Handle H D
  drain_token : ContractLink H → (recipient : Option H) → (key : String) → Handle H D
  governance : GovernanceHandle D → Handle H D

module _ {H C D : Type 0} where
  -- A handler that sends nothing.
  abbrev pub silent : Result (State H C D) → Result (State H C D × List (Msg H))
  silent r = r >>= λ s. ok (s, [])

module _ {H C D : Type 0} ⦃e : Eq H⦄ ⦃ec : Eq C⦄ ⦃u : Uint128⦄ ⦃w : Uint256⦄ ⦃dec : Decimal D⦄
    (d : Deps H C) where
  -- `RewardsHandle::dispatch_handle`
  unfoldable pub handle_rewards :
      Env H → State H C D → RewardsHandle H → Result (State H C D × List (Msg H))
  handle_rewards env s (deposit_receiver from amount) = do
    lp_token ← load_lp_token d s.config
    guard (e.beq lp_token.address env.sender) unauthorized
    a ← from_addr d s from env.time
    deposit d s a amount false
  handle_rewards env s (make_deposit amount) = do
    a ← from_addr d s env.sender env.time
    deposit d s a amount true
  handle_rewards env s (make_withdrawal amount) = do
    a ← from_addr d s env.sender env.time
    withdraw d s a amount
  handle_rewards env s (make_claim to) = do a ← from_addr d s env.sender env.time; claim d s a to
  handle_rewards env s (begin_epoch next_epoch) = silent (increment d env s next_epoch)
  handle_rewards env s (configure config) = do
    assert_admin d s.admins env
    (stored, messages) ← store_config d env config s.config
    ok (record s { config = stored }, messages)
  handle_rewards env s (close message) = do
    assert_admin d s.admins env
    ok (record s { config = record (s.config) { closed = some (env.time, message) } }, [])

  -- `AuthHandle`
  unfoldable pub handle_auth : Env H → State H C D → AuthHandle H → Result (State H C D)
  handle_auth env s (nominate address) = do
    admins ← nominate_admin d env address s.admins
    ok (record s { admins = admins })
  handle_auth env s become = do
    admins ← become_admin d env s.admins
    ok (record s { admins = admins })
  handle_auth env s (create_key entropy) = do
    admins ← create_vk d env entropy s.admins
    ok (record s { admins = admins })
  handle_auth env s (set_key key) = do
    admins ← set_vk d env key s.admins
    ok (record s { admins = admins })

  -- `Emigration::handle`
  unfoldable pub handle_emigration :
      Env H → State H C D → EmigrationHandle H → Result (State H C D × List (Msg H))
  handle_emigration env s (export migrant) = do
    next ← can_export_state d s env migrant
    handle_export_state d env s next migrant
  handle_emigration env s (enable_to contract) = do
    assert_admin d s.admins env
    silent (set_migration_to d s contract.address (some contract))
  handle_emigration env s (disable_to contract) = do
    assert_admin d s.admins env
    silent (set_migration_to d s contract.address none)

  -- `Immigration::handle`
  unfoldable pub handle_immigration :
      Env H → State H C D → ImmigrationHandle H → Result (State H C D × List (Msg H))
  handle_immigration env s (request contract) = do
    can_immigrate_from d s contract.address
    ok (s, export_state env.sender contract ∷ [])
  handle_immigration env s (receive_snapshot snapshot) = do
    can_immigrate_from d s env.sender
    handle_receive_migration d env s snapshot
  handle_immigration env s (enable_from contract) = do
    assert_admin d s.admins env
    silent (set_migration_from d s contract.address (some contract))
  handle_immigration env s (disable_from contract) = do
    assert_admin d s.admins env
    silent (set_migration_from d s contract.address none)

  -- `Handle::dispatch_handle`
  unfoldable pub handle : Env H → State H C D → Handle H D → Result (State H C D × List (Msg H))
  handle env s (receive from amount) = handle_rewards env s (deposit_receiver from amount)
  handle env s (auth msg) = silent (handle_auth env s msg)
  handle env s (immigration msg) = handle_immigration env s msg
  handle env s (emigration msg) = handle_emigration env s msg
  handle env s (rewards_pool msg) = handle_rewards env s msg
  handle env s (drain_token token recipient key) = do
    assert_admin d s.admins env
    drain d env s token recipient key
  handle env s (governance msg) = silent (handle_governance d env s msg)

  -- `Init::init`, in the storage that is there.
  unfoldable pub init :
      Env H
      → (admin : Option H) → RewardsConfig H
      → Option (GovernanceConfig D)
      → State H C D
      → Result (State H C D × List (Msg H))
  init env admin config governance_config s = do
    admins ← init_auth d env admin env.contract.address s.admins
    let gov = initialize_gov (unwrap_or governance_config default_config) s.gov
    (stored, messages) ← initialize d env config s.config
    ok (record s { admins = admins; gov = gov; config = stored }, messages)

  -- Queries with a viewing key: the account, and its stake.
  unfoldable pub query_user_info :
      State H C D → (at : ℕ) → H → (key : String) → Result (Account H C)
  query_user_info s at address key = do
    user ← check_vk d s.admins address key
    from_addr d s user at

  unfoldable pub query_pool_info : State H C D → (at : ℕ) → Result Total
  query_pool_info s at = from_time d s at

  -- `KeplrCompat::balance`
  unfoldable pub query_balance : State H C D → H → (key : String) → Result ℕ
  query_balance s address key = do
    user ← check_vk d s.admins address key
    id ← d.canonize user
    ok (unwrap_or (stored_of s id).staked 0)
