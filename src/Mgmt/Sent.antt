-- ===== src/Mgmt/Sent.antt =====
-- What each handler of the vesting contract sends, against what its books say.
use Prim.Native.String.{String}
use sienna_network.Base.{
  ContractLink, ℕ, ◌+◌, ◌-◌, ◌<◌, ◌≡◌, sym, ◌∙◌, ap, Bool, not, some, List, [], ◌∷◌, Result, ok,
  guard, >>=-eq-ok, arith, ◌==◌, Eq, Uint128, generic, nothing, sum_by,
}
use sienna_network.Schedule
use sienna_network.Schedule.{Schedule}
use sienna_network.Schedule.Account.{Account}
use sienna_network.Schedule.Pool.{Pool}
use sienna_network.Mgmt.Storage.{
  State, Participant, assert_launched, new_claim, set_launched, set_claimed, new_participant, push,
  increment_total, save_claimed,
}
use sienna_network.Mgmt.Claimed.{paid, paid-save}
use sienna_network.Mgmt.Invariant.{
  portion-eq-ok, new_participant-claimed, launched-eq-some, nonzero,
}
use sienna_network.Mgmt.{
  Deps, Env, TokenMsg, HandleMsg, set_viewing_key, mint, set_minters, transfer, change_admin,
  configure, add_account, launch, claim, increase_allocation, set_status, get_elapsed, portion,
  save_schedule, init, handle_configure, handle_add_account, launch_messages, handle_launch,
  handle_claim, outstanding, handle_increase_allocation, status_messages, handle_set_status,
  guard_msg, dispatch, handle,
}

-- The amount of a message's transfer.
abbrev pub amount_of : {H : Type 0} → TokenMsg H → ℕ
amount_of (set_viewing_key k t) = 0
amount_of (mint x n t) = 0
amount_of (set_minters xs t) = 0
amount_of (transfer x n t) = n
amount_of (change_admin x t) = 0

-- What a list of messages transfers to users.
abbrev pub sent : {H : Type 0} → List (TokenMsg H) → ℕ
sent = sum_by amount_of

module _ {H C : Type 0} ⦃e : Eq C⦄ ⦃u : Uint128⦄ (d : Deps H C) where
  -- The books move by what is sent.
  abbrev pub Balanced : State C → State C → List (TokenMsg H) → Type 0
  Balanced s s' ms = paid s'.claimed ≡ paid s.claimed + sent ms

  save_schedule-claimed :
      (s s' : State C) (schedule : Schedule H)
      → save_schedule d s schedule ≡ ok s'
      → s'.claimed ≡ s.claimed
  unfolding save_schedule
  save_schedule-claimed s s' schedule h = ground (arith, h)

  configure-Balanced :
      (env : Env H) (s s' : State C) (schedule : Schedule H) (ms : List (TokenMsg H))
      → handle_configure d env s schedule ≡ ok (s', ms)
      → Balanced s s' ms
  unfolding handle_configure
  configure-Balanced env s s' schedule ms h = ground (arith, h, save_schedule-claimed s s' schedule)

  add_account-Balanced :
      (env : Env H) (s s' : State C) (name : String) (a : Account H) (ms : List (TokenMsg H))
      → handle_add_account d env s name a ≡ ok (s', ms)
      → Balanced s s' ms
  unfolding handle_add_account save_schedule
  add_account-Balanced env s s' name a ms h = ground (arith, h)

  launch-Balanced :
      (env : Env H) (s s' : State C) (ms : List (TokenMsg H))
      → handle_launch d env s ≡ ok (s', ms)
      → Balanced s s' ms
  unfolding handle_launch launch_messages set_launched
  launch-Balanced env s s' ms h = ground (arith, h)

  set_status-Balanced :
      (s s' : State C) (migrating : Bool) (checked : Result (Unit {0})) (ms : List (TokenMsg H))
      → handle_set_status d s migrating checked ≡ ok (s', ms)
      → Balanced s s' ms
  unfolding handle_set_status status_messages
  set_status-Balanced s s' migrating checked ms h = ground (arith, h)

  increase_allocation-Balanced :
      (env : Env H) (s s' : State C) (n : ℕ) (pool : Pool H) (ms : List (TokenMsg H))
      → handle_increase_allocation d env s n pool ≡ ok (s', ms)
      → Balanced s s' ms
  unfolding handle_increase_allocation save_schedule outstanding
  increase_allocation-Balanced env s s' n pool ms h = ground (arith, h)

  -- A successful claim sends one message, a transfer to the sender, in the token of the contract, of what is
  -- unlocked and not claimed yet, some positive amount; it books all of what is unlocked as claimed, and
  -- leaves the schedule as it is.
  pub handle_claim-pays :
      (env : Env H) (s s' : State C) (ms : List (TokenMsg H))
      → handle_claim d env s ≡ ok (s', ms)
      → (launched : ℕ) × (p : Participant C) × (unlocked : ℕ) × (token : ContractLink H)
        × (s.launched ≡ some launched)
        × (d.humanize_link s.token ≡ ok token)
        × (new_participant d.canonize.address s env.sender ≡ ok p)
        × (Schedule.unlocked s.schedule (get_elapsed env.time launched) p.address ≡ ok unlocked)
        × (p.claimed < unlocked)
        × (ms ≡ transfer env.sender (unlocked - p.claimed) token ∷ [])
        × (s'.claimed ≡ save_claimed p.address unlocked s.claimed)
        × (s'.schedule ≡ s.schedule)
  unfolding handle_claim push increment_total set_claimed
  handle_claim-pays env s s' ms h =
      let (launched, q0, h0) = >>=-eq-ok (assert_launched s) _ h in
      let (p, q1, h1) = >>=-eq-ok (new_participant d.canonize.address s env.sender) _ h0 in
      let (nm, q2, h2) = >>=-eq-ok (portion s.schedule p (get_elapsed env.time launched)) _ h1 in
      let (asked, diff) = portion-eq-ok s.schedule p (get_elapsed env.time launched) q2 in
      let (t, q3, h3) = >>=-eq-ok (guard (not (nm.1 == 0)) (generic nothing)) _ h2 in
      let some_left = nonzero nm.1 q3 in
      let (s', claimant') = set_claimed s p nm.0 in
      let (s'', q4, h4) = >>=-eq-ok (push s' (new_claim claimant' env.time nm.1)) _ h3 in
      let same_token : s''.token ≡ s.token = ground (arith, q4) in
      let (token, q5, h5) = >>=-eq-ok (d.humanize_link s''.token) _ h4 in
      (
        launched,
        p,
        nm.0,
        token,
        launched-eq-some s q0,
        ap d.humanize_link (sym same_token) ∙ q5,
        q1,
        asked,
        omega arith,
        ground (arith, h3),
        ground (arith, h3),
        ground (arith, h3),
      )

  claim-Balanced :
      (env : Env H) (s s' : State C) (ms : List (TokenMsg H))
      → handle_claim d env s ≡ ok (s', ms)
      → Balanced s s' ms
  claim-Balanced env s s' ms h =
      let (launched, p, n, token, l, known, q, asked, more, pays, books, same) =
        handle_claim-pays env s s' ms h in
      rw (books, pays)
        (omega (
          arith,
          paid-save p.address n s.claimed,
          new_participant-claimed d.canonize.address s env.sender p q,
          more,
        ))

  dispatch-Balanced :
      (env : Env H) (msg : HandleMsg H) (s s' : State C) (ms : List (TokenMsg H))
      → dispatch d env s msg ≡ ok (s', ms)
      → Balanced s s' ms
  unfolding dispatch
  dispatch-Balanced env (configure schedule) s s' ms h = configure-Balanced env s s' schedule ms h
  dispatch-Balanced env (add_account name a) s s' ms h = add_account-Balanced env s s' name a ms h
  dispatch-Balanced env launch s s' ms h = launch-Balanced env s s' ms h
  dispatch-Balanced env claim s s' ms h = claim-Balanced env s s' ms h
  dispatch-Balanced env (increase_allocation n pool) s s' ms h =
      increase_allocation-Balanced env s s' n pool ms h
  dispatch-Balanced env (set_status migrating checked) s s' ms h =
      set_status-Balanced s s' migrating checked ms h

  -- With every message that the contract accepts, the sum that its books say was claimed grows by
  -- exactly what it transfers.
  pub handle-Balanced :
      (env : Env H) (msg : HandleMsg H) (s s' : State C) (ms : List (TokenMsg H))
      → handle d env s msg ≡ ok (s', ms)
      → Balanced s s' ms
  unfolding handle
  handle-Balanced env msg s s' ms h =
      let (t, q, rest) = >>=-eq-ok (guard_msg d msg) (λ _. dispatch d env s msg) h in
      dispatch-Balanced env msg s s' ms rest

  pub init-unpaid :
      (admin : Result (Unit {0})) (schedule : Schedule H) (token : ContractLink H) (prefund : Bool)
      (s : State C) (ms : List (TokenMsg H))
      → init d admin schedule token prefund ≡ ok (s, ms)
      → s.claimed ≡ []
  unfolding init
  init-unpaid admin schedule token prefund s ms h = ground (arith, h)
