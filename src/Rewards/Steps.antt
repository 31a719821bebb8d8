-- ===== src/Rewards/Steps.antt =====
-- The messages of contracts/amm/rewards/handle.rs as steps of the ledger of stakes.
pub mod Migration
use Prim.Native.String.{String}
use mathlib.Core.Path.{subst}
use sienna_network.Base.{
  ℕ, ◌+◌, ◌<◌, ◌≡◌, refl, sym, ◌∙◌, ap, Bool, true, false, not, Bool-cases, inl, inr, Option, some,
  none, Option-cases, List, [], ◌∷◌, ◌++◌, Result, ok, err, ◌>>=◌, ◌>>◌, >>=-elim, ok-injective,
  guard, or_fail, arith, Eq, Uint128, Uint256, Decimal, ContractLink, unauthorized, ltb, ◌==◌,
  if◌then◌else◌, add64, sub_checked, generic, rewards, invalid_epoch_number, panic, unwrap_none,
  poor_creator, poll_expired, not_enough_stake_to_vote, unwrap_or,
}
use sienna_network.Rewards.{
  RewardsHandle, make_deposit, deposit_receiver, make_withdrawal, make_claim, begin_epoch,
  configure, close, EmigrationHandle, enable_to, disable_to, export, ImmigrationHandle, enable_from,
  disable_from, request, receive_snapshot, Handle, receive, auth, immigration, emigration,
  rewards_pool, drain_token, governance, silent, handle_rewards, handle_auth, handle_emigration,
  handle_immigration, handle, init,
}
use sienna_network.Rewards.Storage.{
  State, Deps, Env, Msg, Snapshot, transfer, load_lp_token, load_reward_token, load_timekeeper,
  export_state, RewardsConfig, store_config, initialize, assert_closed, day, Admins,
}
use sienna_network.Rewards.Pool.{accumulate, increment}
use sienna_network.Rewards.Users.{Account, from_addr, commit_withdrawal}
use sienna_network.Rewards.Auth.{
  AuthHandle, nominate, become, create_key, set_key, assert_admin, nominate_admin, become_admin,
  create_vk, set_vk, load_vk, save_vk, init_auth,
}
use sienna_network.Rewards.Gov.{set_gov}
use sienna_network.Rewards.Gov.Frame.{
  GovOnly, GovOnly-trans, create_id-GovOnly, create_poll-GovOnly, add_vote-GovOnly,
  change_choice-GovOnly, remove_vote-GovOnly,
}
use sienna_network.Rewards.Polls.{
  GovernanceConfig, GovernanceHandle, create, vote, unvote, change_vote_choice, update_config,
  close_governance, handle_create_poll, handle_vote, handle_unvote, handle_change_vote_choice,
  handle_governance, assert_governance_open, validate_metadata, assert_running, initialize_gov,
  default_config, min_staked_for_vote,
}
use sienna_network.Rewards.Staking.{
  ClaimRecipient, wait_period, when_closed, commit_deposit, force_exit, deposit_messages, deposit,
  withdraw, withdraw_open, claim, claim_open, drain, can_export_state, can_immigrate_from,
  handle_export_state, handle_receive_migration, set_migration_to, set_migration_from,
}
use sienna_network.Rewards.Stakes.{
  user_stake, Backed, Moved, Moved-trans, Moved-same, Moved-Backed, Moved-refl,
}
use sienna_network.Rewards.Stakes.Commits.{LoadedFor, from_addr-LoadedFor, commit_withdrawal-Staked}
use sienna_network.Rewards.Stakes.Moves.{
  commit_deposit-Moved, force_exit-Moved, withdraw_open-Moved, claim_open-Moved,
}
use sienna_network.Rewards.Ledger.{branch_none, branch_some, deposit_open_parts}

module _ {H C D : Type 0} ⦃ec : Eq C⦄ where
  -- A step of the ledger: the accounts and the totals stay, or one stake moves.
  pub data LedgerStep (s s' : State H C D) : Type 0 where
    kept : s'.accounts ≡ s.accounts → s'.totals ≡ s.totals → LedgerStep s s'
    moved : (id : C) (added taken : ℕ) → Moved s s' id added taken → LedgerStep s s'

  pub LedgerStep-Backed : (s s' : State H C D) → LedgerStep s s' → Backed s → Backed s'
  LedgerStep-Backed s s' (kept a t) b = rw (a, t) b
  LedgerStep-Backed s s' (moved id added taken m) b = Moved-Backed s s' id added taken m b

  pub GovOnly-LedgerStep : (s s' : State H C D) → GovOnly s s' → LedgerStep s s'
  GovOnly-LedgerStep s s' (g, e) = kept (ap (λ x. x.accounts) e) (ap (λ x. x.totals) e)

  -- A state that a handler returns with its messages.
  pub step_to :
      (s : State H C D) (r r' : State H C D × List (Msg H))
      → LedgerStep s r.0
      → ok r ≡ ok r'
      → LedgerStep s r'.0
  step_to s r r' l h = subst (λ p. LedgerStep s p.0) (ok-injective h) l

  pub step_silent :
      (s s' : State H C D) (r : Result (State H C D)) (messages : List (Msg H))
      → silent r ≡ ok (s', messages)
      → ((t : State H C D) → r ≡ ok t → LedgerStep s t)
      → LedgerStep s s'
  step_silent s s' r messages h step =
      >>=-elim r _ h λ t q0 h0. step_to s (t, []) (s', messages) (step t q0) h0

module _ {H C D : Type 0} ⦃e : Eq H⦄ ⦃ec : Eq C⦄ ⦃u : Uint128⦄ ⦃w : Uint256⦄ ⦃dec : Decimal D⦄
    (d : Deps H C) where
  force_exit-LedgerStep :
      (s s' : State H C D) (user : H) (a : Account H C) (messages : List (Msg H))
      → LoadedFor d s user a
      → force_exit d s a ≡ ok (s', messages)
      → LedgerStep s s'
  force_exit-LedgerStep s s' user a messages f h =
      moved a.id 0 a.staked (force_exit-Moved d s s' a messages f.loaded h).0

  deposit-LedgerStep :
      (s s' : State H C D) (user : H) (a : Account H C) (amount : ℕ) (take : Bool)
      (messages : List (Msg H))
      → LoadedFor d s user a
      → deposit d s a amount take ≡ ok (s', messages)
      → LedgerStep s s'
  unfolding deposit
  deposit-LedgerStep s s' user a amount take messages f h = elim (Option-cases a.total.closed) [
    | inl unclosed ↦
        let (r, q, same, _) = deposit_open_parts d s s' a amount take messages unclosed h in
        subst (λ x. LedgerStep s x) same
          (moved a.id amount 0 (commit_deposit-Moved d s r.0 a r.1 amount f.loaded q))
    | inr (seal, closed) ↦ force_exit-LedgerStep s s' user a messages f (branch_some _ _ closed h)
  ]

  withdraw-LedgerStep :
      (s s' : State H C D) (user : H) (a : Account H C) (amount : ℕ) (messages : List (Msg H))
      → LoadedFor d s user a
      → withdraw d s a amount ≡ ok (s', messages)
      → LedgerStep s s'
  unfolding withdraw
  withdraw-LedgerStep s s' user a amount messages f h = elim (Option-cases a.total.closed) [
    | inl unclosed ↦
        moved a.id 0 amount
          (withdraw_open-Moved d s s' a amount messages f.loaded (branch_none _ _ unclosed h)).0
    | inr (seal, closed) ↦ force_exit-LedgerStep s s' user a messages f (branch_some _ _ closed h)
  ]

  claim-LedgerStep :
      (s s' : State H C D) (user : H) (a : Account H C) (to : Option (ClaimRecipient H))
      (messages : List (Msg H))
      → LoadedFor d s user a
      → claim d s a to ≡ ok (s', messages)
      → LedgerStep s s'
  unfolding claim
  claim-LedgerStep s s' user a to messages f h = elim (Option-cases a.total.closed) [
    | inl unclosed ↦
        moved a.id 0 0 (claim_open-Moved d s s' a to messages (branch_none _ _ unclosed h)).0
    | inr (seal, closed) ↦ force_exit-LedgerStep s s' user a messages f (branch_some _ _ closed h)
  ]

  increment-LedgerStep :
      (env : Env H) (s s' : State H C D) (next_epoch : ℕ)
      → increment d env s next_epoch ≡ ok s'
      → LedgerStep s s'
  unfolding increment
  increment-LedgerStep env s s' next_epoch h =
      let number = unwrap_or s.epoch.number 0 in
      let stated = generic (rewards (invalid_epoch_number number next_epoch)) in
      >>=-elim (load_timekeeper d s.config) _ h λ keeper q0 h0.
        >>=-elim (guard (e.beq env.sender keeper) unauthorized) _ h0 λ unit q1 h1.
          >>=-elim (add64 number 1) _ h1 λ next q2 h2.
            >>=-elim (guard (next_epoch == next) stated) _ h2 λ unit_1 q3 h3.
              >>=-elim (sub_checked env.time (unwrap_or s.totals.updated env.time)) _ h3
                λ elapsed q4 h4.
                  >>=-elim
                    (accumulate (unwrap_or s.totals.volume 0) elapsed (unwrap_or s.totals.staked 0))
                    _ h4
                    λ volume q5 h5. subst (λ x. LedgerStep s x) (ok-injective h5) (kept refl refl)

  pub handle_rewards-LedgerStep :
      (env : Env H) (s s' : State H C D) (msg : RewardsHandle H) (messages : List (Msg H))
      → handle_rewards d env s msg ≡ ok (s', messages)
      → LedgerStep s s'
  unfolding handle_rewards
  handle_rewards-LedgerStep env s s' (deposit_receiver from amount) messages h =
      >>=-elim (load_lp_token d s.config) _ h λ lp_token q0 h0.
        >>=-elim (guard (e.beq lp_token.address env.sender) unauthorized) _ h0 λ unit q1 h1.
          >>=-elim (from_addr d s from env.time) _ h1 λ a q2 h2.
            deposit-LedgerStep s s' from a amount false messages
              (from_addr-LoadedFor d s from env.time a q2) h2
  handle_rewards-LedgerStep env s s' (make_deposit amount) messages h =
      >>=-elim (from_addr d s env.sender env.time) _ h λ a q0 h0.
        deposit-LedgerStep s s' env.sender a amount true messages
          (from_addr-LoadedFor d s env.sender env.time a q0) h0
  handle_rewards-LedgerStep env s s' (make_withdrawal amount) messages h =
      >>=-elim (from_addr d s env.sender env.time) _ h λ a q0 h0.
        withdraw-LedgerStep s s' env.sender a amount messages
          (from_addr-LoadedFor d s env.sender env.time a q0) h0
  handle_rewards-LedgerStep env s s' (make_claim to) messages h =
      >>=-elim (from_addr d s env.sender env.time) _ h λ a q0 h0.
        claim-LedgerStep s s' env.sender a to messages
          (from_addr-LoadedFor d s env.sender env.time a q0) h0
  handle_rewards-LedgerStep env s s' (begin_epoch next_epoch) messages h =
      step_silent s s' (increment d env s next_epoch) messages h
        λ t q. increment-LedgerStep env s t next_epoch q
  handle_rewards-LedgerStep env s s' (configure config) messages h =
      >>=-elim (assert_admin d s.admins env) _ h λ unit q0 h0.
        >>=-elim (store_config d env config s.config) _ h0
          λ r q1 h1. step_to s _ (s', messages) (kept refl refl) h1
  handle_rewards-LedgerStep env s s' (close message) messages h =
      >>=-elim (assert_admin d s.admins env) _ h
        λ unit q0 h0. step_to s _ (s', messages) (kept refl refl) h0
