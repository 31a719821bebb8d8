-- ===== src/Rpt.antt =====
-- contracts/tge/rpt/src/lib.rs and state.rs: the contract that claims from the vesting contract and
-- splits what it gets by fixed proportions. `H` is the type of human addresses, `C` of canonical
-- ones. Log attributes are left out, but for the remainder, which is returned.
use sienna_network.Base.{
  ℕ, ◌%◌, ◌/◌, Bool, true, false, List, [], ◌∷◌, map, Result, ok, err, ◌>>=◌, ◌>>◌, guard, traverse,
  generic, allocations_total, Uint128, ContractLink, mul128, div_checked, ◌==◌, if◌then◌else◌,
}
use sienna_network.LinearMap.{convert_keys}
use sienna_network.Mgmt.{Progress}
pub mod Splitting

-- `Distribution<T>` is a LinearMap from addresses to amounts.
abbrev pub Distribution : Type 0 → Type 0
Distribution A = List (A × ℕ)

pub record State (C : Type 0) : Type 0 where
  pub portion : ℕ
  pub distribution : Distribution C
  pub token : ContractLink C
  pub mgmt : ContractLink C

-- What a handler asks of the chain, of fadroma's components and of the vesting contract.
pub record Deps (H C : Type 0) : Type 0 where
  pub canonical_address : H → Result C
  pub human_address : C → Result H
  pub canonize_link : ContractLink H → Result (ContractLink C)
  pub humanize_link : ContractLink C → Result (ContractLink H)
  pub assert_admin : H → Result (Unit {0})
  pub is_operational : Result (Unit {0})
  -- The vesting contract's answer about an address at a time.
  pub progress : ContractLink H → H → ℕ → Result Progress

pub record Env (H : Type 0) : Type 0 where
  pub sender : H
  pub time : ℕ
  pub contract : H

pub data RptMsg (H : Type 0) : Type 0 where
  claim : ContractLink H → RptMsg H
  transfer : H → ℕ → ContractLink H → RptMsg H
  batch_transfer : List (H × ℕ) → ContractLink H → RptMsg H

module _ {T : Type 0} ⦃u : Uint128⦄ where
  -- The loop of `sum_config`.
  unfoldable pub add_amounts : ℕ → Distribution T → Result ℕ
  add_amounts total [] = ok total
  add_amounts total (entry ∷ rest) = do sum ← u.add total entry.1; add_amounts sum rest

  unfoldable pub sum_config : Distribution T → Result ℕ
  sum_config = add_amounts 0

  unfoldable pub validate : ℕ → Distribution T → Result (Unit {0})
  validate portion config = do
    total ← sum_config config
    guard (portion == total) (generic (allocations_total portion total))

-- The closure that both forms of `build_messages` map over the distribution, up to the message.
unfoldable pub shares : {H : Type 0} → ℕ → Distribution H → Result (List (H × ℕ))
shares portions = traverse (λ entry. do amount ← mul128 entry.1 portions; ok (entry.0, amount))

-- `build_messages` without the feature `batch_transfer`.
unfoldable pub build_messages :
    {H : Type 0} → Distribution H → ℕ → ContractLink H → ContractLink H → Result (List (RptMsg H))
build_messages distribution portions token mgmt = do
  transfers ← shares portions distribution
  ok (claim mgmt ∷ map (λ t. transfer t.0 t.1 token) transfers)

-- `build_messages` with the feature `batch_transfer`.
unfoldable pub build_batch :
    {H : Type 0} → Distribution H → ℕ → ContractLink H → ContractLink H → Result (List (RptMsg H))
build_batch distribution portions token mgmt = do
  transfers ← shares portions distribution
  ok (claim mgmt ∷ batch_transfer transfers token ∷ [])

pub data HandleMsg (H : Type 0) : Type 0 where
  configure : ℕ → Distribution H → HandleMsg H
  vest : HandleMsg H
  -- What goes to fadroma's admin and killswitch components, with their result.
  component : Result (Unit {0}) → HandleMsg H

module _ {H C : Type 0} ⦃u : Uint128⦄ (d : Deps H C) where
  -- `new`, on empty storage; `admin` is the result of fadroma's admin component.
  unfoldable pub init :
      Result (Unit {0}) → Distribution H → ℕ → ContractLink H → ContractLink H → Result (State C)
  init admin distribution portion token mgmt = do
    validate portion distribution
    canonical ← convert_keys d.canonical_address distribution
    token' ← d.canonize_link token
    mgmt' ← d.canonize_link mgmt
    admin
    ok (record { portion = portion; distribution = canonical; token = token'; mgmt = mgmt' })

  unfoldable pub handle_configure : Env H → State C → ℕ → Distribution H → Result (State C)
  handle_configure env s portion distribution = do
    d.assert_admin env.sender
    validate portion distribution
    canonical ← convert_keys d.canonical_address distribution
    ok (record s { portion = portion; distribution = canonical })

  unfoldable pub query_claimable : Env H → ContractLink H → Result ℕ
  query_claimable env mgmt = do
    progress ← d.progress mgmt env.contract env.time
    u.sub progress.unlocked progress.claimed

  -- The messages, and the remainder that `vest` logs.
  unfoldable pub handle_vest :
      (build : Distribution H → ℕ → ContractLink H → ContractLink H → Result (List (RptMsg H)))
      → Env H
      → State C
      → Result (List (RptMsg H) × ℕ)
  handle_vest build env s = do
    mgmt ← d.humanize_link s.mgmt
    token ← d.humanize_link s.token
    distribution ← convert_keys d.human_address s.distribution
    claimable ← query_claimable env mgmt
    portions ← div_checked claimable s.portion
    messages ← build distribution portions token mgmt
    ok (messages, claimable % s.portion)

  unfoldable pub guard_msg : HandleMsg H → Result (Unit {0})
  guard_msg (component result) = ok tt
  guard_msg _ = d.is_operational

  unfoldable pub dispatch :
      (build : Distribution H → ℕ → ContractLink H → ContractLink H → Result (List (RptMsg H)))
      → Env H
      → State C
      → HandleMsg H
      → Result (State C × List (RptMsg H))
  dispatch build env s (configure portion distribution) = do
    s' ← handle_configure env s portion distribution
    ok (s', [])
  dispatch build env s vest = do (messages, remainder) ← handle_vest build env s; ok (s, messages)
  dispatch build env s (component result) = do result; ok (s, [])

  unfoldable pub handle :
      (build : Distribution H → ℕ → ContractLink H → ContractLink H → Result (List (RptMsg H)))
      → Env H
      → State C
      → HandleMsg H
      → Result (State C × List (RptMsg H))
  handle build env s msg = guard_msg msg >> dispatch build env s msg
