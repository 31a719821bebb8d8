-- ===== src/Mgmt.antt =====
-- contracts/tge/mgmt/src/lib.rs and migration.rs: the vesting contract. A handler takes the state
-- and returns the next one with its messages, or an error, upon which the chain restores the state.
-- `H` is the type of human addresses, `C` of canonical ones. Log attributes are left out.
pub mod Storage
pub mod Invariant
pub mod Claiming
pub mod Solvency
pub mod Sent
pub mod Reachable
pub mod Claimed
use Prim.Native.String.{String}
use sienna_network.Base.{
  ContractLink, ℕ, ◌-◌, Bool, not, true, false, Option, none, some, List, [], ◌∷◌, ◌++◌, Result, ok,
  err, ◌>>=◌, ◌>>◌, guard, panic, unwrap_none, generic, nothing, prefund_balance, Eq, Uint128, ltb,
  leb, ◌==◌, if◌then◌else◌, ◌||◌,
}
use sienna_network.Schedule
use sienna_network.Schedule.{Schedule}
use sienna_network.Schedule.Account.{Account}
use sienna_network.Schedule.Pool.{Pool}
use sienna_network.Schedule.Canon.{Conversion, convert, convert_account, convert_pool}
use Storage.{
  State, Participant, Pagination, Claim, assert_launched, assert_not_launched, set_launched,
  total_claimed, push, new_claim, set_claimed, new_participant, list_history,
}

-- What a handler asks of the chain, of fadroma's admin and killswitch components and of the token.
pub record Deps (H C : Type 0) : Type 0 where
  pub canonize : Conversion H C
  pub humanize : Conversion C H
  pub canonize_link : ContractLink H → Result (ContractLink C)
  pub humanize_link : ContractLink C → Result (ContractLink H)
  pub assert_admin : H → Result (Unit {0})
  pub load_admin : Result H
  pub is_operational : Result (Unit {0})
  -- The token balance of this contract, by its viewing key.
  pub balance : H → String → ContractLink H → Result ℕ

pub record Env (H : Type 0) : Type 0 where
  pub sender : H
  pub time : ℕ
  pub contract : H

pub data TokenMsg (H : Type 0) : Type 0 where
  set_viewing_key : String → ContractLink H → TokenMsg H
  mint : H → ℕ → ContractLink H → TokenMsg H
  set_minters : List H → ContractLink H → TokenMsg H
  transfer : H → ℕ → ContractLink H → TokenMsg H
  change_admin : H → ContractLink H → TokenMsg H

abbrev pub viewing_key : String
viewing_key = "SiennaMGMT"

-- Time passed from the second moment to the first, at least 0.
unfoldable pub get_elapsed : ℕ → ℕ → ℕ
get_elapsed t1 t2 = if ltb t2 t1 then t1 - t2 else 0

-- What is unlocked, and what of it is not claimed yet.
unfoldable pub portion : {C : Type 0} ⦃e : Eq C⦄ → Schedule C → Participant C → ℕ → Result (ℕ × ℕ)
portion schedule participant elapsed = do
  unlocked ← Schedule.unlocked schedule elapsed participant.address
  ok (
      if ltb 0 unlocked
      then (if ltb participant.claimed unlocked
          then (unlocked, unlocked - participant.claimed)
          else (unlocked, 0))
      else (unlocked, 0))

-- The public handlers, and those that other contracts' components share with this one: fadroma's
-- killswitch is told the level, and its admin component is not modelled.
pub data HandleMsg (H : Type 0) : Type 0 where
  configure : Schedule H → HandleMsg H
  add_account : String → Account H → HandleMsg H
  launch : HandleMsg H
  claim : HandleMsg H
  increase_allocation : ℕ → Pool H → HandleMsg H
  set_status : (migrating : Bool) → (checked : Result (Unit {0})) → HandleMsg H

pub record Progress : Type 0 where
  pub launched : ℕ
  pub elapsed : ℕ
  pub unlocked : ℕ
  pub claimed : ℕ

module _ {H C : Type 0} ⦃e : Eq C⦄ ⦃u : Uint128⦄ (d : Deps H C) where
  -- `Config::save_schedule`
  unfoldable pub save_schedule : State C → Schedule H → Result (State C)
  save_schedule s schedule = do
    canonical ← convert d.canonize schedule
    ok (record s { schedule = canonical })

  -- `new`, on empty storage; `admin` is the result of fadroma's admin component.
  unfoldable pub init :
      Result (Unit {0}) → Schedule H → ContractLink H → Bool → Result (State C × List (TokenMsg H))
  init admin schedule token prefund = do
    Schedule.validate schedule
    canonical ← convert d.canonize schedule
    link ← d.canonize_link token
    admin
    ok (
      record {
        schedule = canonical;
        token = link;
        prefunded = prefund;
        launched = none;
        claimed = [];
        history = [];
        current_total = none;
      },
      if prefund then set_viewing_key viewing_key token ∷ [] else [],
    )

  unfoldable pub handle_configure :
      Env H → State C → Schedule H → Result (State C × List (TokenMsg H))
  handle_configure env s schedule = do
    d.assert_admin env.sender
    assert_not_launched s
    Schedule.validate schedule
    s' ← save_schedule s schedule
    ok (s', [])

  unfoldable pub handle_add_account :
      Env H → State C → String → Account H → Result (State C × List (TokenMsg H))
  handle_add_account env s pool_name account = do
    d.assert_admin env.sender
    canonical ← convert_account d.canonize account
    grown ← Schedule.add_account s.schedule pool_name canonical
    schedule ← convert d.humanize grown
    s' ← save_schedule s schedule
    ok (s', [])

  -- What `launch` tells the token: nothing if it was prefunded, else to mint the total and to let
  -- nobody mint again.
  unfoldable pub launch_messages : Env H → State C → ContractLink H → Result (List (TokenMsg H))
  launch_messages env s token =
      if s.prefunded
      then (d.balance env.contract viewing_key token >>= λ balance.
          if ltb balance s.schedule.total
          then err (generic (prefund_balance balance s.schedule.total))
          else ok [])
      else ok (mint env.contract s.schedule.total token ∷ set_minters [] token ∷ [])

  unfoldable pub handle_launch : Env H → State C → Result (State C × List (TokenMsg H))
  handle_launch env s = do
    d.assert_admin env.sender
    assert_not_launched s
    let s' = set_launched s env.time
    token ← d.humanize_link s'.token
    messages ← launch_messages env s' token
    ok (s', messages)

  unfoldable pub handle_claim : Env H → State C → Result (State C × List (TokenMsg H))
  handle_claim env s = do
    launched ← assert_launched s
    claimant ← new_participant d.canonize.address s env.sender
    (unlocked, claimable) ← portion s.schedule claimant (get_elapsed env.time launched)
    guard (not (claimable == 0)) (generic nothing)
    let (s', claimant') = set_claimed s claimant unlocked
    s'' ← push s' (new_claim claimant' env.time claimable)
    token ← d.humanize_link s''.token
    ok (s'', transfer env.sender claimable token ∷ [])

  -- `(schedule.total - total_claimed).unwrap()`
  unfoldable pub outstanding : ℕ → ℕ → Result ℕ
  outstanding total paid = elim (u.sub total paid) [ ok n ↦ ok n | err _ ↦ err (panic unwrap_none) ]

  unfoldable pub handle_increase_allocation :
      Env H → State C → ℕ → Pool H → Result (State C × List (TokenMsg H))
  handle_increase_allocation env s total_increment pool = do
    d.assert_admin env.sender
    token ← d.humanize_link s.token
    canonical ← convert_pool d.canonize pool
    total ← u.add s.schedule.total total_increment
    let schedule = record (s.schedule) { total = total; pools = s.schedule.pools ++ canonical ∷ [] }
    Schedule.validate schedule
    balance ← d.balance env.contract viewing_key token
    required ← outstanding schedule.total (total_claimed s)
    guard (not (ltb balance required)) (generic (prefund_balance balance schedule.total))
    human ← convert d.humanize schedule
    s' ← save_schedule s human
    ok (s', [])

  -- On migration a contract that minted its tokens hands the token over to its own admin.
  unfoldable pub status_messages : State C → Bool → Result (List (TokenMsg H))
  status_messages s migrating = if s.prefunded || not migrating then ok [] else (do
    token ← d.humanize_link s.token
    admin ← d.load_admin
    ok (change_admin admin token ∷ []))

  -- `MgmtKillswitch::set_status`; `checked` is the result of fadroma's `set_status`, which checks for
  -- the admin and stores the level.
  unfoldable pub handle_set_status :
      State C → Bool → Result (Unit {0}) → Result (State C × List (TokenMsg H))
  handle_set_status s migrating checked = do
    checked
    messages ← status_messages s migrating
    ok (s, messages)

  -- `guard`: a contract that is not operational still hears its killswitch.
  unfoldable pub guard_msg : HandleMsg H → Result (Unit {0})
  guard_msg (set_status migrating checked) = ok tt
  guard_msg _ = d.is_operational

  unfoldable pub dispatch : Env H → State C → HandleMsg H → Result (State C × List (TokenMsg H))
  dispatch env s (configure schedule) = handle_configure env s schedule
  dispatch env s (add_account pool_name account) = handle_add_account env s pool_name account
  dispatch env s launch = handle_launch env s
  dispatch env s claim = handle_claim env s
  dispatch env s (increase_allocation total_increment pool) =
      handle_increase_allocation env s total_increment pool
  dispatch env s (set_status migrating checked) = handle_set_status s migrating checked

  unfoldable pub handle : Env H → State C → HandleMsg H → Result (State C × List (TokenMsg H))
  handle env s msg = guard_msg msg >> dispatch env s msg

  unfoldable pub query_progress : State C → H → ℕ → Result Progress
  query_progress s address time = do
    launched ← assert_launched s
    participant ← new_participant d.canonize.address s address
    unlocked ← Schedule.unlocked s.schedule (get_elapsed time launched) participant.address
    ok (record {
      launched = launched;
      elapsed = get_elapsed time launched;
      unlocked = unlocked;
      claimed = participant.claimed;
    })

  unfoldable pub query_config : State C → Result (Option ℕ × ContractLink H)
  query_config s = do token ← d.humanize_link s.token; ok (s.launched, token)

  unfoldable pub query_history : State C → Pagination → Result (List (Claim H) × ℕ)
  query_history s = list_history d.humanize.address s

  unfoldable pub query_schedule : State C → Result (Schedule H)
  query_schedule s = convert d.humanize s.schedule
