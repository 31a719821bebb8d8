-- ===== src/Mgmt/Storage.antt =====
-- contracts/tge/mgmt/src/state.rs: the storage of the vesting contract. `init` writes the schedule,
-- the token and the prefund flag before anything else reads them, so the record has them outright;
-- `launched`, `current_total` and the participants' amounts may be absent. Reading and writing
-- storage, which is fadroma's, does not fail.
use sienna_network.Base.{
  ℕ, Bool, Option, none, some, List, [], ◌∷◌, ◌++◌, Result, ok, err, ◌>>=◌, generic, underway,
  prelaunch, Eq, Uint128, traverse, min, if◌then◌else◌, length, drop, take, ContractLink,
}
use sienna_network.Schedule.{Schedule}

pub record Claim (A : Type 0) : Type 0 where
  pub claimant : A
  pub amount : ℕ
  pub timestamp : ℕ

pub record Pagination : Type 0 where
  pub start : ℕ
  pub limit : ℕ

-- `Participant`
pub record Participant (C : Type 0) : Type 0 where
  pub address : C
  pub claimed : ℕ

-- `C` is the type of canonical addresses. `claimed` is the namespace "participant".
pub record State (C : Type 0) : Type 0 where
  pub schedule : Schedule C
  pub token : ContractLink C
  pub prefunded : Bool
  pub launched : Option ℕ
  pub claimed : List (C × ℕ)
  pub history : List (Claim C)
  pub current_total : Option ℕ

module _ {C : Type 0} where
  unfoldable pub assert_launched : State C → Result ℕ
  assert_launched s = elim s.launched [ none ↦ err (generic prelaunch) | some t ↦ ok t ]

  unfoldable pub assert_not_launched : State C → Result (Unit {0})
  assert_not_launched s = elim s.launched [ none ↦ ok tt | some t ↦ err (generic underway) ]

  unfoldable pub set_launched : State C → ℕ → State C
  set_launched s t = record s { launched = some t }

  unfoldable pub total_claimed : State C → ℕ
  total_claimed s = elim s.current_total [ none ↦ 0 | some n ↦ n ]

  -- `History::increment_total`
  unfoldable pub increment_total : ⦃u : Uint128⦄ → State C → ℕ → Result (State C)
  increment_total ⦃u⦄ s amount = do
    total ← u.add (total_claimed s) amount
    ok (record s { current_total = some total })

  -- `History::push`
  unfoldable pub push : ⦃u : Uint128⦄ → State C → Claim C → Result (State C)
  push s claim = increment_total (record s { history = s.history ++ claim ∷ [] }) claim.amount

  unfoldable pub new_claim : Participant C → ℕ → ℕ → Claim C
  new_claim p time amount = record { claimant = p.address; amount = amount; timestamp = time }

-- `History::list`: the page, and the length of the whole history. `limit` is at most 30.
unfoldable pub page : {C : Type 0} → State C → Pagination → List (Claim C)
page s p = take (min p.limit 30) (drop p.start s.history)

unfoldable pub list_history :
    {C H : Type 0} (humanize : C → Result H) → State C → Pagination → Result (List (Claim H) × ℕ)
list_history humanize s p = do
  entries ←
      traverse
        (λ c. do
          claimant ← humanize c.claimant
          ok (record { claimant = claimant; amount = c.amount; timestamp = c.timestamp }))
        (page s p)
  ok (entries, length s.history)

module _ {C : Type 0} ⦃e : Eq C⦄ where
  -- `ns_load(...).unwrap_or_default()`
  unfoldable pub claimed_by : C → List (C × ℕ) → ℕ
  claimed_by x [] = 0
  claimed_by x ((y, n) ∷ m) = if e.beq y x then n else claimed_by x m

  -- `ns_save`
  unfoldable pub save_claimed : C → ℕ → List (C × ℕ) → List (C × ℕ)
  save_claimed x n [] = (x, n) ∷ []
  save_claimed x n ((y, m) ∷ rest) =
      if e.beq y x then (y, n) ∷ rest else (y, m) ∷ save_claimed x n rest

  -- `Participant::set_claimed`
  unfoldable pub set_claimed : State C → Participant C → ℕ → State C × Participant C
  set_claimed s p amount = (
    record s { claimed = save_claimed p.address amount s.claimed },
    record p { claimed = amount },
  )

  -- `Participant::new`
  unfoldable pub new_participant :
      {H : Type 0} (canonize : H → Result C) → State C → H → Result (Participant C)
  new_participant canonize s human = do
    address ← canonize human
    ok (record { address = address; claimed = claimed_by address s.claimed })
