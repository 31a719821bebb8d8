-- ===== src/Rewards/Polls/Frame.antt =====
-- The handlers of contracts/amm/rewards/gov change nothing but governance.
use sienna_network.Base.{
  ℕ, ◌≡◌, sym, not, ok, >>=-elim, ok-injective, guard, or_fail, Eq, Uint128, Uint256, Decimal, ltb,
  leb, add64, generic, rewards, panic, unwrap_none, poor_creator, not_enough_stake_to_vote,
}
use sienna_network.Rewards.Storage.{State, Deps, Env, VoteType, PollMetadata}
use sienna_network.Rewards.Users.{from_addr}
use sienna_network.Rewards.Auth.{assert_admin}
use sienna_network.Rewards.Gov.{create_id}
use sienna_network.Rewards.Gov.Frame.{
  GovOnly, GovOnly-trans, create_id-GovOnly, create_poll-GovOnly, add_vote-GovOnly,
  change_choice-GovOnly, remove_vote-GovOnly,
}
use sienna_network.Rewards.Polls.{
  GovernanceHandle, create, vote, unvote, change_vote_choice, update_config, close_governance,
  handle_create_poll, handle_vote, handle_unvote, handle_change_vote_choice, handle_governance,
  assert_governance_open, validate_metadata, assert_running, min_staked_for_vote,
}

module _ {H C D : Type 0} ⦃e : Eq H⦄ ⦃ec : Eq C⦄ ⦃u : Uint128⦄ ⦃w : Uint256⦄ ⦃dec : Decimal D⦄
    (d : Deps H C) where
  handle_create_poll-GovOnly :
      (env : Env H) (s s' : State H C D) (meta : PollMetadata)
      → handle_create_poll d env s meta ≡ ok s'
      → GovOnly s s'
  unfolding handle_create_poll
  handle_create_poll-GovOnly env s s' meta h =
      >>=-elim (assert_governance_open s.gov.closed) _ h λ unit q0 h0.
        >>=-elim (validate_metadata meta) _ h0 λ unit_1 q1 h1.
          >>=-elim (from_addr d s env.sender env.time) _ h1 λ a q2 h2.
            >>=-elim (or_fail s.gov.threshold (panic unwrap_none)) _ h2 λ threshold q3 h3.
              >>=-elim (guard (not (ltb a.staked threshold)) (generic poor_creator)) _ h3
                λ unit_2 q4 h4.
                  >>=-elim (or_fail s.gov.deadline (panic unwrap_none)) _ h4 λ deadline q5 h5.
                    >>=-elim (or_fail s.gov.quorum (panic unwrap_none)) _ h5 λ quorum q6 h6.
                      >>=-elim (add64 env.time deadline) _ h6 λ expiration q7 h7.
                        >>=-elim (d.canonize env.sender) _ h7 λ user q8 h8.
                          >>=-elim (create_id s) _ h8 λ r q9 h9.
                            GovOnly-trans s r.0 s' (create_id-GovOnly s r.0 r.1 q9)
                              (create_poll-GovOnly r.0 s' user _ env.time h9)

  handle_vote-GovOnly :
      (env : Env H) (s s' : State H C D) (choice : VoteType) (poll_id : ℕ)
      → handle_vote d env s choice poll_id ≡ ok s'
      → GovOnly s s'
  unfolding handle_vote
  handle_vote-GovOnly env s s' choice poll_id h =
      >>=-elim (assert_running d s poll_id env.time) _ h λ unit q0 h0.
        >>=-elim (from_addr d s env.sender env.time) _ h0 λ a q1 h1.
          let few = generic (rewards (not_enough_stake_to_vote a.staked min_staked_for_vote)) in
          >>=-elim (guard (not (leb a.staked min_staked_for_vote)) few) _ h1 λ unit_1 q2 h2.
            >>=-elim (d.canonize env.sender) _ h2
              λ user q3 h3. add_vote-GovOnly d s s' poll_id user choice a.staked env.time h3

  -- Polls and votes, and the configuration of governance, leave the rest of the state as it is: no
  -- message to governance touches a stake, a total, an epoch or an admin.
  pub handle_governance-GovOnly :
      (env : Env H) (s s' : State H C D) (msg : GovernanceHandle D)
      → handle_governance d env s msg ≡ ok s'
      → GovOnly s s'
  unfolding handle_governance handle_unvote handle_change_vote_choice
  handle_governance-GovOnly env s s' (create meta) h = handle_create_poll-GovOnly env s s' meta h
  handle_governance-GovOnly env s s' (vote choice poll_id) h =
      handle_vote-GovOnly env s s' choice poll_id h
  handle_governance-GovOnly env s s' (unvote poll_id) h =
      >>=-elim (assert_running d s poll_id env.time) _ h λ unit q0 h0.
        >>=-elim (d.canonize env.sender) _ h0
          λ user q1 h1. remove_vote-GovOnly d s s' poll_id user env.time h1
  handle_governance-GovOnly env s s' (change_vote_choice choice poll_id) h =
      >>=-elim (assert_running d s poll_id env.time) _ h λ unit q0 h0.
        >>=-elim (d.canonize env.sender) _ h0
          λ user q1 h1. change_choice-GovOnly d s s' poll_id user choice env.time h1
  handle_governance-GovOnly env s s' (update_config config) h =
      >>=-elim (assert_admin d s.admins env) _ h λ unit q0 h0. (_, sym (ok-injective h0))
  handle_governance-GovOnly env s s' (close_governance reason) h =
      >>=-elim (assert_admin d s.admins env) _ h λ unit q0 h0. (_, sym (ok-injective h0))
