-- ===== src/Rewards/Polls.antt =====
-- contracts/amm/rewards/gov: its configuration (config.rs), the check of texts (validator.rs) and the
-- handlers (handle.rs).
pub mod Frame
use Prim.Native.String.{String}
use sienna_network.Base.{
  ℕ, ◌+◌, ◌*◌, Option, none, some, List, [], ◌∷◌, Result, ok, err, ◌>>=◌, ◌>>◌, guard, or_fail, not,
  ltb, leb, generic, rewards, panic, unwrap_none, poll_expired, governance_closed,
  not_enough_stake_to_vote, poor_creator, too_short, too_long, if◌then◌else◌, add64, Eq, Uint128,
  Uint256, Decimal,
}
use Prim.Native.Char.{code}
use sienna_network.Rewards.Storage.{State, Deps, Env, Gov, Poll, PollMetadata, failed, VoteType}
use sienna_network.Rewards.Users.{from_addr}
use sienna_network.Rewards.Auth.{assert_admin}
use sienna_network.Rewards.Gov.{
  set_gov, poll_expiration, create_id, create_poll, add_vote, change_choice, remove_vote,
}

-- The bytes of a code point in UTF-8.
unfoldable pub char_bytes : ℕ → ℕ
char_bytes c = if ltb c 0x80 then 1 else if ltb c 0x800 then 2 else if ltb c 0x10000 then 3 else 4

-- `len()` of a text, in bytes.
unfoldable pub byte_length : String → ℕ
unfolding char_bytes
byte_length String.[] = 0
byte_length (String.◌∷◌ c s) = char_bytes (code c) + byte_length s

unfoldable pub validate_text_length : String → (min_length max_length : ℕ) → Result (Unit {0})
validate_text_length text min_length max_length = do
  guard (not (ltb (byte_length text) min_length)) (generic too_short)
  guard (not (ltb max_length (byte_length text))) (generic too_long)

-- `GovernanceConfig`, whose fields may be left out.
pub record GovernanceConfig (D : Type 0) : Type 0 where
  pub threshold : Option ℕ
  pub quorum : Option D
  pub deadline : Option ℕ

abbrev pub min_staked_for_vote : ℕ
min_staked_for_vote = 1

-- `GovernanceConfig::default`
unfoldable pub default_config : {D : Type 0} ⦃dec : Decimal D⦄ → GovernanceConfig D
default_config ⦃dec⦄ = record {
  threshold = some 3500;
  quorum = some (dec.percent 33);
  deadline = some (7 * 24 * 60 * 60);
}

abbrev pub or_old : {A : Type 0} → Option A → Option A → Option A
or_old none old = old
or_old (some new) old = some new

-- `GovernanceConfig::store`
unfoldable pub store_gov_config : {C D : Type 0} → GovernanceConfig D → Gov C D → Gov C D
store_gov_config new g = record g {
  deadline = or_old new.deadline g.deadline;
  threshold = or_old new.threshold g.threshold;
  quorum = or_old new.quorum g.quorum;
}

-- `GovernanceConfig::initialize`
unfoldable pub initialize_gov : {C D : Type 0} → GovernanceConfig D → Gov C D → Gov C D
initialize_gov new g = store_gov_config new (record g { poll_count = some 0 })

pub data GovernanceHandle (D : Type 0) : Type 0 where
  create : PollMetadata → GovernanceHandle D
  vote : VoteType → (poll_id : ℕ) → GovernanceHandle D
  unvote : (poll_id : ℕ) → GovernanceHandle D
  change_vote_choice : VoteType → (poll_id : ℕ) → GovernanceHandle D
  update_config : GovernanceConfig D → GovernanceHandle D
  close_governance : (reason : String) → GovernanceHandle D

-- Fails with the seal of a closed governance.
unfoldable pub assert_governance_open : Option (ℕ × String) → Result (Unit {0})
assert_governance_open none = ok tt
assert_governance_open (some (time, reason)) =
    err (generic (rewards (governance_closed time reason)))

unfoldable pub validate_metadata : PollMetadata → Result (Unit {0})
validate_metadata meta = do
  validate_text_length meta.title 8 64
  validate_text_length meta.description 8 1024
  validate_text_length meta.poll_type 8 24

module _ {H C D : Type 0} ⦃e : Eq H⦄ ⦃ec : Eq C⦄ ⦃u : Uint128⦄ ⦃w : Uint256⦄ ⦃dec : Decimal D⦄
    (d : Deps H C) where
  unfoldable pub handle_create_poll : Env H → State H C D → PollMetadata → Result (State H C D)
  handle_create_poll env s meta = do
    assert_governance_open s.gov.closed
    validate_metadata meta
    a ← from_addr d s env.sender env.time
    threshold ← or_fail s.gov.threshold (panic unwrap_none)
    guard (not (ltb a.staked threshold)) (generic poor_creator)
    deadline ← or_fail s.gov.deadline (panic unwrap_none)
    quorum ← or_fail s.gov.quorum (panic unwrap_none)
    expiration ← add64 env.time deadline
    user ← d.canonize env.sender
    (s', id) ← create_id s
    create_poll s' user
        (record {
          id = id;
          creator = user;
          metadata = meta;
          expiration = expiration;
          status = failed;
          current_quorum = quorum;
        })
        env.time

  -- Fails if the poll has expired.
  unfoldable pub assert_running : State H C D → (poll_id time : ℕ) → Result (Unit {0})
  assert_running s poll_id time = do
    expiration ← poll_expiration s poll_id
    guard (not (leb expiration time)) (generic (rewards poll_expired))

  unfoldable pub handle_vote : Env H → State H C D → VoteType → (poll_id : ℕ) → Result (State H C D)
  handle_vote env s choice poll_id = do
    assert_running s poll_id env.time
    a ← from_addr d s env.sender env.time
    guard (not (leb a.staked min_staked_for_vote))
        (generic (rewards (not_enough_stake_to_vote a.staked min_staked_for_vote)))
    user ← d.canonize env.sender
    add_vote d s poll_id user choice a.staked env.time

  unfoldable pub handle_change_vote_choice :
      Env H → State H C D → VoteType → (poll_id : ℕ) → Result (State H C D)
  handle_change_vote_choice env s choice poll_id = do
    assert_running s poll_id env.time
    user ← d.canonize env.sender
    change_choice d s poll_id user choice env.time

  unfoldable pub handle_unvote : Env H → State H C D → (poll_id : ℕ) → Result (State H C D)
  handle_unvote env s poll_id = do
    assert_running s poll_id env.time
    user ← d.canonize env.sender
    remove_vote d s poll_id user env.time

  -- `GovernanceHandle::dispatch_handle`
  unfoldable pub handle_governance : Env H → State H C D → GovernanceHandle D → Result (State H C D)
  handle_governance env s (create meta) = handle_create_poll env s meta
  handle_governance env s (vote choice poll_id) = handle_vote env s choice poll_id
  handle_governance env s (unvote poll_id) = handle_unvote env s poll_id
  handle_governance env s (change_vote_choice choice poll_id) =
      handle_change_vote_choice env s choice poll_id
  handle_governance env s (update_config config) = do
    assert_admin d s.admins env
    ok (set_gov s (store_gov_config config s.gov))
  handle_governance env s (close_governance reason) = do
    assert_admin d s.admins env
    ok (set_gov s (record (s.gov) { closed = some (env.time, reason) }))
