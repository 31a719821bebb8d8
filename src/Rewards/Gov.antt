-- ===== src/Rewards/Gov.antt =====
-- contracts/amm/rewards/gov: votes (vote.rs), tallies (poll_result.rs), polls (poll.rs) and what is kept
-- of a user's polls (user.rs). An expiration is its moment.
pub mod Tally
pub mod Frame
use sienna_network.Base.{
  ℕ, zero, suc, Bool, true, false, Option, none, some, unwrap_or, List, [], ◌∷◌, ◌++◌, Result, ok,
  err, ◌>>=◌, ◌>>◌, unwrap, guard, or_fail, leb, ltb, ◌==◌, ◌&&◌, not, generic, panic, unwrap_none,
  no_vote, already_voted, same_vote, if◌then◌else◌, add64, add128, Eq, nat_eq, Uint128, Uint256,
  Decimal,
}
use sienna_network.Base.Dict
use sienna_network.Base.Dict.{Dict}
use sienna_network.Rewards.Storage.{
  State, Deps, Gov, Poll, PollMetadata, PollResult, PollStatus, active, failed, passed, Vote,
  VoteType, vote_yes, vote_no,
}
use sienna_network.Rewards.Pool.{Total, from_time}
use Tally.{Signed, negate, as_i128, append_votes, transfer_vote, same_choice}

-- `UpdateResultReason`
pub data UpdateResultReason : Type 0 where
  change_vote_power : VoteType → (power_diff : Signed) → UpdateResultReason
  change_vote_choice : VoteType → (power : ℕ) → UpdateResultReason

unfoldable pub update_votes : PollResult → UpdateResultReason → Result PollResult
update_votes r (change_vote_power choice power_diff) = append_votes r power_diff choice
update_votes r (change_vote_choice choice power) = transfer_vote r choice power

-- `iter().position`, of an identifier.
unfoldable pub position : ℕ → List ℕ → Option ℕ
position id [] = none
position id (x ∷ xs) = elim (x == id) [
  | true ↦ some 0
  | false ↦ elim (position id xs) [ some i ↦ some (suc i) | none ↦ none ]
]

-- All but the last entry, and the last.
unfoldable pub unsnoc : ℕ → List ℕ → List ℕ × ℕ
unsnoc x [] = ([], x)
unsnoc x (y ∷ ys) = let r = unsnoc y ys in (x ∷ r.0, r.1)

-- A write out of bounds changes nothing.
unfoldable pub set : List ℕ → ℕ → ℕ → List ℕ
set [] i v = []
set (x ∷ xs) zero v = v ∷ xs
set (x ∷ xs) (suc i) v = x ∷ set xs i v

-- `swap_remove`: the last entry takes the place.
unfoldable pub swap_remove : ℕ → List ℕ → List ℕ
unfolding unsnoc set
swap_remove i [] = []
swap_remove i (x ∷ xs) = let r = unsnoc x xs in set r.0 i r.1

module _ {H C D : Type 0} where
  abbrev pub poll_of : State H C D → ℕ → Option (Poll C D)
  poll_of s id = Dict.get none id s.gov.polls

  abbrev pub result_of : State H C D → ℕ → Option PollResult
  result_of s id = Dict.get none id s.gov.results

  abbrev pub votes_of : State H C D → ℕ → Dict C (Option (Vote C))
  votes_of s id = Dict.get [] id s.gov.votes

  abbrev pub set_gov : State H C D → Gov C D → State H C D
  set_gov s g = record s { gov = g }

  -- `PollResult::store`
  unfoldable pub store_result : State H C D → PollResult → State H C D
  store_result s r =
      set_gov s (record (s.gov) { results = Dict.put r.poll_id (some r) s.gov.results })

  -- `Poll::commit_status`, of a poll that is stored.
  unfoldable pub commit_status : State H C D → ℕ → Poll C D → PollStatus → State H C D
  commit_status s id poll status =
      set_gov s (record (s.gov) {
        polls = Dict.put id (some (record poll { status = status })) s.gov.polls;
      })

  -- `Poll::expiration`
  unfoldable pub poll_expiration : State H C D → ℕ → Result ℕ
  poll_expiration s id = do poll ← or_fail (poll_of s id) (panic unwrap_none); ok poll.expiration

  -- `Poll::get`: a poll is active until it expires.
  unfoldable pub get_poll : State H C D → ℕ → (now : ℕ) → Result (Poll C D)
  get_poll s id now = do
    poll ← or_fail (poll_of s id) (panic unwrap_none)
    ok (if leb poll.expiration now then poll else record poll { status = active })

  -- `filter_active_polls`
  unfoldable pub filter_active_polls : State H C D → List ℕ → (now : ℕ) → Result (List ℕ)
  filter_active_polls s [] now = ok []
  filter_active_polls s (id ∷ ids) now = do
    expiration ← poll_expiration s id
    rest ← filter_active_polls s ids now
    ok (if leb expiration now then rest else id ∷ rest)

  -- `Poll::create_id`
  unfoldable pub create_id : State H C D → Result (State H C D × ℕ)
  create_id s = do
    count ← or_fail s.gov.poll_count (panic unwrap_none)
    id ← unwrap (add64 count 1)
    ok (set_gov s (record (s.gov) { poll_count = some id }), id)

  module _ ⦃ec : Eq C⦄ where
    abbrev pub vote_of : State H C D → ℕ → C → Option (Vote C)
    vote_of s id voter = Dict.get none voter (votes_of s id)

    -- `Vote::set`, and `Vote::remove` with `none`.
    unfoldable pub set_vote : State H C D → ℕ → C → Option (Vote C) → State H C D
    set_vote s id voter vote =
        set_gov s
          (record (s.gov) { votes = Dict.put id (Dict.put voter vote (votes_of s id)) s.gov.votes })

    -- `Vote::get`
    unfoldable pub get_vote : State H C D → ℕ → C → Result (Vote C)
    get_vote s id voter = or_fail (vote_of s id voter) (generic no_vote)

    -- `Vote::increase`
    unfoldable pub increase_vote : ⦃u : Uint128⦄ → State H C D → ℕ → C → ℕ → Result (State H C D)
    increase_vote ⦃u⦄ s id voter amount = do
      vote ← get_vote s id voter
      power ← u.add vote.power amount
      ok (set_vote s id voter (some (record vote { power = power })))

    -- `User::active_polls` and `User::created_polls`
    unfoldable pub active_polls : State H C D → C → (now : ℕ) → Result (List ℕ)
    active_polls s user now = filter_active_polls s (Dict.get [] user s.gov.active_polls) now

    unfoldable pub created_polls : State H C D → C → (now : ℕ) → Result (List ℕ)
    created_polls s user now = filter_active_polls s (Dict.get [] user s.gov.created_polls) now

    -- `User::set_active_polls`
    unfoldable pub set_active_polls : State H C D → C → List ℕ → State H C D
    set_active_polls s user ids =
        set_gov s (record (s.gov) { active_polls = Dict.put user ids s.gov.active_polls })

    unfoldable pub append_active_poll : State H C D → C → ℕ → (now : ℕ) → Result (State H C D)
    append_active_poll s user id now = do
      ids ← active_polls s user now
      ok (set_active_polls s user (ids ++ id ∷ []))

    unfoldable pub append_created_poll : State H C D → C → ℕ → (now : ℕ) → Result (State H C D)
    append_created_poll s user id now = do
      ids ← created_polls s user now
      ok (
          set_gov s
            (record (s.gov) { created_polls = Dict.put user (ids ++ id ∷ []) s.gov.created_polls }))

    -- `User::remove_active_poll`
    unfoldable pub remove_active_poll : State H C D → C → ℕ → (now : ℕ) → Result (State H C D)
    remove_active_poll s user id now = do
      ids ← active_polls s user now
      i ← or_fail (position id ids) (panic unwrap_none)
      ok (set_active_polls s user (swap_remove i ids))

    -- `User::create_poll`
    unfoldable pub create_poll : State H C D → C → Poll C D → (now : ℕ) → Result (State H C D)
    create_poll s user poll now = do
      let stored = set_gov s (record (s.gov) { polls = Dict.put poll.id (some poll) s.gov.polls })
      let empty : PollResult = record { poll_id = poll.id; yes_votes = 0; no_votes = 0 }
      append_created_poll (store_result stored empty) user poll.id now

module _ {H C D : Type 0} ⦃e : Eq H⦄ ⦃ec : Eq C⦄ ⦃u : Uint128⦄ ⦃w : Uint256⦄ ⦃dec : Decimal D⦄
    (d : Deps H C) where
  -- Whether a poll with these votes has passed.
  unfoldable pub new_status : Poll C D → PollResult → (staked : ℕ) → Result PollStatus
  new_status poll r staked = do
    votes ← add128 r.no_votes r.yes_votes
    participation ← dec.from_ratio votes staked
    ok (
        if dec.gt participation poll.current_quorum && ltb r.no_votes r.yes_votes
        then passed
        else failed)

  -- `Poll::update_result`
  unfoldable pub update_result :
      State H C D → ℕ → (now : ℕ) → UpdateResultReason → Result (State H C D)
  update_result s id now update = do
    result ← or_fail (result_of s id) (panic unwrap_none)
    result' ← update_votes result update
    let s' = store_result s result'
    total ← from_time d s' now
    poll ← or_fail (poll_of s' id) (panic unwrap_none)
    status ← new_status poll result' total.staked
    ok (commit_status s' id poll status)

  -- `User::add_vote`
  unfoldable pub add_vote : State H C D → ℕ → C → VoteType → (power now : ℕ) → Result (State H C D)
  add_vote s id user choice power now = elim (get_vote s id user) [
    | ok vote ↦ err (generic already_voted)
    | err missing ↦
        let s' =
          set_vote s id user (some (record { choice = choice; power = power; voter = user })) in
        append_active_poll s' user id now >>= λ s''.
        update_result s'' id now (change_vote_power choice (as_i128 power))
  ]

  -- `User::increase_vote_power`
  unfoldable pub increase_vote_power :
      State H C D → ℕ → C → (power_diff now : ℕ) → Result (State H C D)
  increase_vote_power s id user power_diff now = do
    s' ← unwrap (increase_vote s id user power_diff)
    vote ← get_vote s' id user
    unwrap (update_result s' id now (change_vote_power vote.choice (as_i128 power_diff)))

  -- `User::change_choice`
  unfoldable pub change_choice : State H C D → ℕ → C → VoteType → (now : ℕ) → Result (State H C D)
  change_choice s id user choice now = do
    vote ← get_vote s id user
    guard (not (same_choice vote.choice choice)) (generic same_vote)
    s' ← unwrap (update_result s id now (change_vote_choice choice vote.power))
    ok (set_vote s' id user (some (record vote { choice = choice })))

  -- `User::remove_vote`
  unfoldable pub remove_vote : State H C D → ℕ → C → (now : ℕ) → Result (State H C D)
  remove_vote s id user now = do
    vote ← get_vote s id user
    s' ← remove_active_poll (set_vote s id user none) user id now
    power_diff ← negate (as_i128 vote.power)
    unwrap (update_result s' id now (change_vote_power vote.choice power_diff))

  -- The votes of a depositor grow in every poll that is open: the loop of `Account::commit_deposit`.
  unfoldable pub increase_votes : State H C D → List ℕ → C → (amount now : ℕ) → Result (State H C D)
  increase_votes s [] user amount now = ok s
  increase_votes s (id ∷ ids) user amount now = do
    s' ← unwrap (increase_vote_power s id user amount now)
    increase_votes s' ids user amount now
