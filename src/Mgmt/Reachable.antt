-- ===== src/Mgmt/Reachable.antt =====
-- Every state that the vesting contract can reach satisfies its invariant, and so it never pays out
-- more than its schedule's total.
use sienna_network.Base.{
  ℕ, ◌≡◌, ap, Bool, not, List, [], ◌∷◌, ◌++◌, Result, ok, guard, >>=-eq-ok, ok-injective, ltb, Eq,
  Uint128, All-append,
}
use sienna_network.Schedule
use sienna_network.Schedule.{Schedule}
use sienna_network.Schedule.Account
use sienna_network.Schedule.Account.{Account}
use sienna_network.Schedule.Pool.{Pool}
use sienna_network.Schedule.Pool.Valid as PoolValid
use sienna_network.Schedule.Valid.{InRange, schedule_validate_iff}
use sienna_network.Schedule.Adding.{allotted-push}
use sienna_network.Schedule.Canon.{convert, convert_pool}
use sienna_network.Schedule.Canon.RoundTrip.{Undoes}
use sienna_network.Schedule.Canon.Kept.{convert_pool-InRange}
use sienna_network.Mgmt.Storage.{State, assert_not_launched, set_launched, total_claimed}
use sienna_network.Mgmt.Invariant.{
  Inv, replaced-Inv, saved, handle_claim-Inv, handle_configure-Inv, handle_add_account-Inv,
}
use sienna_network.Mgmt.{
  Deps, Env, TokenMsg, HandleMsg, configure, add_account, launch, claim, increase_allocation,
  set_status, viewing_key, save_schedule, launch_messages, handle_launch, outstanding,
  handle_increase_allocation, status_messages, handle_set_status, guard_msg, dispatch, handle,
}

-- The numbers of a message fit their machine types.
abbrev pub MsgInRange : {H : Type 0} → HandleMsg H → Type 0
MsgInRange (configure schedule) = InRange schedule
MsgInRange (add_account name a) = Account.InRange a
MsgInRange launch = Unit
MsgInRange claim = Unit
MsgInRange (increase_allocation n pool) = PoolValid.InRange pool
MsgInRange (set_status migrating checked) = Unit

module _ {H C : Type 0} ⦃e : Eq C⦄ ⦃u : Uint128⦄ (d : Deps H C) where
  handle_launch-Inv :
      (env : Env H) (s s' : State C) (ms : List (TokenMsg H))
      → Inv s
      → handle_launch d env s ≡ ok (s', ms)
      → Inv s'
  unfolding handle_launch set_launched total_claimed
  handle_launch-Inv env s s' ms v h =
      let (t, q0, h0) = >>=-eq-ok (d.assert_admin env.sender) _ h in
      let (t', q1, h1) = >>=-eq-ok (assert_not_launched s) _ h0 in
      let (token, q2, h2) = >>=-eq-ok (d.humanize_link s.token) _ h1 in
      let (messages, q3, same) =
        >>=-eq-ok (launch_messages d env (set_launched s env.time) token) _ h2 in
      rw (← ap (λ p. p.0) (ok-injective same)) (record {
        valid = v.valid;
        in_range = v.in_range;
        books = v.books;
        total = v.total;
        logged = v.logged;
        early = λ never. absurd (cc never);
      })

  handle_increase_allocation-Inv :
      Undoes d.humanize.address d.canonize.address
      → (env : Env H) (s s' : State C) (n : ℕ) (pool : Pool H) (ms : List (TokenMsg H)) → Inv s
      → PoolValid.InRange pool
      → handle_increase_allocation d env s n pool ≡ ok (s', ms)
      → Inv s'
  unfolding handle_increase_allocation
  handle_increase_allocation-Inv back env s s' n pool ms v r h =
      let (t, q0, h0) = >>=-eq-ok (d.assert_admin env.sender) _ h in
      let (token, q1, h1) = >>=-eq-ok (d.humanize_link s.token) _ h0 in
      let (canonical, q2, h2) = >>=-eq-ok (convert_pool d.canonize pool) _ h1 in
      let (total, q3, h3) = >>=-eq-ok (u.add s.schedule.total n) _ h2 in
      let grown : Schedule C = record (s.schedule) {
        total = total;
        pools = s.schedule.pools ++ canonical ∷ [];
      } in
      let (t', q4, h4) = >>=-eq-ok (Schedule.validate grown) _ h3 in
      let (balance, q5, h5) = >>=-eq-ok (d.balance env.contract viewing_key token) _ h4 in
      let (required, q6, h6) = >>=-eq-ok (outstanding d total (total_claimed s)) _ h5 in
      let (t'', q7, h7) = >>=-eq-ok (guard (not (ltb balance required)) _) _ h6 in
      let (human, q8, h8) = >>=-eq-ok (convert d.humanize grown) _ h7 in
      let (s'', q9, same) = >>=-eq-ok (save_schedule d s human) _ h8 in
      let fits : InRange grown = record {
        total_fits = (u.add-eq-ok s.schedule.total n total q3).1;
        pools_fit =
            All-append PoolValid.InRange s.schedule.pools (canonical ∷ []) v.in_range.pools_fit
              (convert_pool-InRange d.canonize pool canonical q2 r, tt);
      } in
      rw (← ap (λ p. p.0) (ok-injective same), saved d back s s'' grown human q8 q9)
        (replaced-Inv d s grown v ((schedule_validate_iff grown fits).0 q4) fits
          (λ x. allotted-push x s.schedule.pools canonical s.schedule.total total))

  handle_set_status-Inv :
      (s s' : State C) (migrating : Bool) (checked : Result (Unit {0})) (ms : List (TokenMsg H))
      → Inv s
      → handle_set_status d s migrating checked ≡ ok (s', ms)
      → Inv s'
  unfolding handle_set_status
  handle_set_status-Inv s s' migrating checked ms v h =
      let (t, q0, h0) = >>=-eq-ok checked _ h in
      let (messages, q1, same) = >>=-eq-ok (status_messages d s migrating) _ h0 in
      rw (← ap (λ p. p.0) (ok-injective same)) v

  module _ (back : Undoes d.humanize.address d.canonize.address) where
    dispatch-Inv :
        (env : Env H) (msg : HandleMsg H) (s s' : State C) (ms : List (TokenMsg H))
        → Inv s
        → MsgInRange msg
        → dispatch d env s msg ≡ ok (s', ms)
        → Inv s'
    unfolding dispatch
    dispatch-Inv env (configure schedule) s s' ms v r h =
        handle_configure-Inv d env s s' schedule ms v r h
    dispatch-Inv env (add_account name a) s s' ms v r h =
        handle_add_account-Inv d back env s s' name a ms v r h
    dispatch-Inv env launch s s' ms v r h = handle_launch-Inv env s s' ms v h
    dispatch-Inv env claim s s' ms v r h = handle_claim-Inv d env s s' ms v h
    dispatch-Inv env (increase_allocation n pool) s s' ms v r h =
        handle_increase_allocation-Inv back env s s' n pool ms v r h
    dispatch-Inv env (set_status migrating checked) s s' ms v r h =
        handle_set_status-Inv s s' migrating checked ms v h

    -- Every message that the contract accepts keeps the invariant.
    pub handle-Inv :
        (env : Env H) (msg : HandleMsg H) (s s' : State C) (ms : List (TokenMsg H))
        → Inv s
        → MsgInRange msg
        → handle d env s msg ≡ ok (s', ms)
        → Inv s'
    unfolding handle
    handle-Inv env msg s s' ms v r h =
        let (t, q, rest) = >>=-eq-ok (guard_msg d msg) (λ _. dispatch d env s msg) h in
        dispatch-Inv env msg s s' ms v r rest
