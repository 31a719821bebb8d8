-- ===== src/Mgmt/Solvency.antt =====
-- The life of a vesting contract as a step relation, and what holds at every point of it.
use sienna_network.Base.{
  ContractLink, ℕ, ◌+◌, ◌≤◌, ◌≡◌, Bool, List, Result, ok, arith, Eq, Uint128, sum_by,
}
use sienna_network.Schedule.{Schedule}
use sienna_network.Schedule.Valid.{InRange}
use sienna_network.Schedule.Entitled.{allotted}
use sienna_network.Schedule.Conservation.{allotted_sum-le-total}
use sienna_network.Schedule.Canon.RoundTrip.{Undoes}
use sienna_network.Mgmt.Storage.{State, total_claimed}
use sienna_network.Mgmt.Claimed.{paid, keys, paid-le-grants}
use sienna_network.Mgmt.Invariant.{Inv, init-Inv}
use sienna_network.Mgmt.Reachable.{MsgInRange, handle-Inv}
use sienna_network.Mgmt.Sent.{sent, handle-Balanced, init-unpaid}
use sienna_network.Mgmt.{Deps, Env, TokenMsg, HandleMsg, init, handle}

-- The states that a contract can come to, with what it has transferred to users on the way. The
-- chain, the token and the components may answer differently at each message; a message that fails
-- leaves the state as it is, and so is no step.
pub data Reach (H : Type 0) {C : Type 0} ⦃e : Eq C⦄ ⦃u : Uint128⦄ : State C → ℕ → Type 0 where
  started :
      (d : Deps H C) (admin : Result (Unit {0})) (schedule : Schedule H) (token : ContractLink H)
      (prefund : Bool) (s : State C) (ms : List (TokenMsg H)) (n : ℕ)
      → InRange schedule
      → init d admin schedule token prefund ≡ ok (s, ms)
      → n ≡ 0
      → Reach H s n
  stepped :
      (d : Deps H C) (env : Env H) (msg : HandleMsg H) (s s' : State C) (ms : List (TokenMsg H))
      (n total : ℕ)
      → Undoes d.humanize.address d.canonize.address
      → MsgInRange msg
      → Reach H s n
      → handle d env s msg ≡ ok (s', ms)
      → total ≡ n + sent ms
      → Reach H s' total

module _ {H C : Type 0} ⦃e : Eq C⦄ ⦃u : Uint128⦄ where
  Reach-Inv : {s : State C} {n : ℕ} → Reach H s n → Inv s
  Reach-Inv (started d admin schedule token prefund s ms n r h z) =
      init-Inv d admin schedule token prefund s ms r h
  Reach-Inv (stepped d env msg s s' ms n total back r before h sum) =
      handle-Inv d back env msg s s' ms (Reach-Inv before) r h

  Reach-paid : {s : State C} {n : ℕ} → Reach H s n → paid s.claimed ≡ n
  Reach-paid (started d admin schedule token prefund s ms n r h z) =
      rw (init-unpaid d admin schedule token prefund s ms h) (omega arith)
  Reach-paid (stepped d env msg s s' ms n total back r before h sum) =
      omega (arith, Reach-paid before, handle-Balanced d env msg s s' ms h)

  -- In every state that the contract can reach it has transferred to its users no more than the
  -- schedule's total, and its running total and its history both say exactly what it transferred.
  pub Reach-solvent :
      {s : State C} {n : ℕ}
      → Reach H s n
      → (n ≤ s.schedule.total) × (total_claimed s ≡ n) × (sum_by (λ c. c.amount) s.history ≡ n)
  Reach-solvent {s} {n} r =
      let v = Reach-Inv r in
      let p = Reach-paid r in
      (
        omega (
          arith,
          p,
          paid-le-grants (allotted s.schedule) s.claimed v.books.within,
          allotted_sum-le-total s.schedule (keys s.claimed) v.books.distinct v.valid,
        ),
        omega (arith, p, v.total),
        omega (arith, p, v.logged),
      )
