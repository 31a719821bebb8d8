-- ===== src/Tests/Contract.antt =====
-- Tests of contracts/tge: the vesting contract over the schedule of `Vesting`, from its start over
-- the launch to a claim, and the splitter. Addresses are numbers, and 9 is the admin.
use sienna_network.Base.{
  ℕ, ◌+◌, ◌-◌, ◌/◌, ◌%◌, ◌≤◌, ◌<◌, ◌≡◌, sym, ap, refl, false, List, [], ◌∷◌, map, none, some, ok,
  err, unauthorized, panic, div_by_zero, generic, nothing, arith, nat_eq, if◌then◌else◌, ◌==◌,
  traverse, u128_mod, add64, add128, mul128, sub_checked, div_checked, fold128, sum_by,
  ContractLink, Uint128, checked_uint128, ok-injective,
}
use sienna_network.LinearMap
use sienna_network.LinearMap.Laws.{get-insert}
use sienna_network.Schedule
use sienna_network.Schedule.Account
use sienna_network.Schedule.Pool
use sienna_network.Schedule.Entitled.{entitled}
use sienna_network.Schedule.Account.Vested.{vested}
use sienna_network.Schedule.Canon.{Conversion, convert, convert_account, convert_pool}
use sienna_network.Schedule.Canon.RoundTrip.{Undoes, convert_back}
use sienna_network.Mgmt.Storage.{
  State, Participant, assert_launched, assert_not_launched, set_launched, total_claimed,
  increment_total, push, new_claim, claimed_by, save_claimed, set_claimed, new_participant,
}
use sienna_network.Mgmt.Claimed.{paid}
use sienna_network.Mgmt.Invariant.{Inv, init-Inv}
use sienna_network.Mgmt.Reachable.{handle-Inv}
use sienna_network.Mgmt.Claiming.{after_claim, handle_claim-succeeds, handle_claim_twice}
use sienna_network.Mgmt.Sent.{sent, handle_claim-pays, handle-Balanced}
use sienna_network.Mgmt.Solvency.{Reach, started, stepped, Reach-solvent}
use sienna_network.Mgmt.{
  Deps, Env, transfer, mint, set_minters, launch, claim, get_elapsed, portion, init,
  launch_messages, handle_launch, handle_claim, guard_msg, dispatch, handle,
}
use sienna_network.Rpt
use sienna_network.Rpt.Splitting.{
  IsSplit, split, moved, handle_vest-splits, init_empty-vest, Reach-IsSplit,
}
use sienna_network.Rpt.Splitting
use sienna_network.Tests.Vesting.{plan, plan-InRange, plan-runs}

instance abbrev pub uint128 : Uint128
uint128 = checked_uint128

abbrev same_address : Conversion ℕ ℕ
same_address = record {
  address = ok;
  each_account = traverse;
  each_pool = traverse;
  each_account_lem = λ f xs. refl;
  each_pool_lem = λ f xs. refl;
}

same_address-Undoes : Undoes (same_address.address) (same_address.address)
same_address-Undoes x y h = ap ok (sym (ok-injective h))

abbrev token : ContractLink ℕ
token = record { address = 5; code_hash = "token" }

abbrev deps : Deps ℕ ℕ
deps = record {
  canonize = same_address;
  humanize = same_address;
  canonize_link = ok;
  humanize_link = ok;
  assert_admin = λ x. if x == 9 then ok tt else err unauthorized;
  load_admin = ok 9;
  is_operational = ok tt;
  balance = λ a k t. ok 1000;
}

abbrev admin_env : Env ℕ
admin_env = record { sender = 9; time = 1000; contract = 7 }

abbrev alice_env : Env ℕ
alice_env = record { sender = 1; time = 1040; contract = 7 }

abbrev begun : State ℕ
begun = record {
  schedule = plan;
  token = token;
  prefunded = false;
  launched = none;
  claimed = [];
  history = [];
  current_total = none;
}

abbrev launched_state : State ℕ
launched_state = record begun { launched = some 1000 }

-- After alice's claim of the cliff and two portions.
abbrev claimed_state : State ℕ
claimed_state = record launched_state {
  claimed = (1, 64) ∷ [];
  history = record { claimant = 1; amount = 64; timestamp = 1040 } ∷ [];
  current_total = some 64;
}

begins : init deps (ok tt) plan token false ≡ ok (begun, [])
unfolding init convert convert_pool convert_account Schedule.validate Schedule.validate_pools
    Schedule.subtotal Schedule.pools_total Pool.subtotal Pool.validate Pool.validate_accounts
    Pool.is_invalid_total Account.validate Account.remainder Account.portion_count
    Account.portion_size Account.amount_after_cliff fold128 add128 mul128 sub_checked div_checked
begins = refl

launches :
    handle deps admin_env begun launch
    ≡ ok (launched_state, mint 7 200 token ∷ set_minters [] token ∷ [])
unfolding handle guard_msg dispatch handle_launch launch_messages assert_not_launched set_launched
launches = refl

alice_claims :
    handle_claim deps alice_env launched_state ≡ ok (claimed_state, transfer 1 64 token ∷ [])
unfolding handle_claim assert_launched new_participant claimed_by save_claimed set_claimed push
    increment_total total_claimed new_claim portion get_elapsed Schedule.unlocked Schedule.subtotal
    Schedule.pools_total Pool.unlocked Pool.subtotal Account.unlocked Account.end
    Account.most_recent_portion Account.elapsed Account.portion_after Account.portion_count
    Account.vested_portions Account.portion_size Account.amount_after_cliff fold128 add64 add128
    mul128 sub_checked div_checked
alice_claims = refl

alice_message :
    handle deps alice_env launched_state claim ≡ ok (claimed_state, transfer 1 64 token ∷ [])
unfolding handle guard_msg dispatch
alice_message = alice_claims

begun-Inv : Inv begun
begun-Inv = init-Inv deps (ok tt) plan token false begun [] plan-InRange begins

begun-Reach : Reach ℕ begun 0
begun-Reach = started deps (ok tt) plan token false begun [] 0 plan-InRange begins refl

launched-Reach : Reach ℕ launched_state 0
launched-Reach =
    stepped deps admin_env launch begun launched_state _ 0 0 same_address-Undoes tt begun-Reach
      launches refl

claimed-Reach : Reach ℕ claimed_state 64
claimed-Reach =
    stepped deps alice_env claim launched_state claimed_state _ 0 64 same_address-Undoes tt
      launched-Reach alice_message refl

Reach-solvent_example :
    (64 ≤ claimed_state.schedule.total)
    × (total_claimed claimed_state ≡ 64)
    × (sum_by (λ c. c.amount) (claimed_state.history) ≡ 64)
Reach-solvent_example = Reach-solvent claimed-Reach

launched-Inv : Inv launched_state
launched-Inv =
    handle-Inv deps same_address-Undoes admin_env launch begun launched_state _ begun-Inv tt
      launches

handle-Inv_example : Inv claimed_state
handle-Inv_example =
    handle-Inv deps same_address-Undoes alice_env claim launched_state claimed_state
      (transfer 1 64 token ∷ []) launched-Inv tt alice_message

handle-Balanced_example :
    paid claimed_state.claimed ≡ paid launched_state.claimed + sent (transfer 1 64 token ∷ [])
handle-Balanced_example =
    handle-Balanced deps alice_env claim launched_state claimed_state (transfer 1 64 token ∷ [])
      alice_message

handle_claim-pays_example :
    (launched : ℕ) × (p : Participant ℕ) × (unlocked : ℕ) × (link : ContractLink ℕ)
    × (launched_state.launched ≡ some launched)
    × (deps.humanize_link launched_state.token ≡ ok link)
    × (new_participant deps.canonize.address launched_state 1 ≡ ok p)
    × (Schedule.unlocked plan (get_elapsed 1040 launched) p.address ≡ ok unlocked)
    × (p.claimed < unlocked)
    × (transfer 1 64 token ∷ [] ≡ transfer 1 (unlocked - p.claimed) link ∷ [])
    × (claimed_state.claimed ≡ save_claimed p.address unlocked [])
    × (claimed_state.schedule ≡ plan)
handle_claim-pays_example =
    handle_claim-pays deps alice_env launched_state claimed_state (transfer 1 64 token ∷ [])
      alice_claims

handle_claim-succeeds_example :
    handle_claim deps alice_env launched_state
    ≡ ok (
      after_claim deps launched_state 1 (entitled plan 40 1) 1040,
      transfer 1 (entitled plan 40 1 - 0) token ∷ [],
    )
unfolding get_elapsed claimed_by entitled vested Account.portion_count
handle_claim-succeeds_example =
    handle_claim-succeeds deps alice_env launched_state 1 1000 token launched-Inv plan-runs refl
      refl refl (omega arith)

handle_claim_twice_example : handle_claim deps alice_env claimed_state ≡ err (generic nothing)
handle_claim_twice_example =
    handle_claim_twice deps alice_env launched_state claimed_state (transfer 1 64 token ∷ [])
      alice_claims

convert_back_example : convert same_address plan ≡ ok plan
unfolding convert convert_pool convert_account
convert_back_example = convert_back same_address same_address same_address-Undoes plan plan refl

abbrev entries : List (ℕ × ℕ)
entries = (2, 5) ∷ []

get-insert_example :
    (LinearMap.get 3 (LinearMap.insert 2 7 entries).0
      ≡ (if 3 == 2 then some 7 else LinearMap.get 3 entries))
    × ((LinearMap.insert 2 7 entries).1 ≡ LinearMap.get 2 entries)
get-insert_example = get-insert 2 3 7 entries

-- The splitter gives 1 and 2 of every 3 to addresses 1 and 2.
abbrev rpt_deps : Rpt.Deps ℕ ℕ
rpt_deps = record {
  canonical_address = ok;
  human_address = ok;
  canonize_link = ok;
  humanize_link = ok;
  assert_admin = λ x. if x == 9 then ok tt else err unauthorized;
  is_operational = ok tt;
  progress = λ m x t. ok (record { launched = 1000; elapsed = 40; unlocked = 64; claimed = 0 });
}

abbrev shares : Rpt.Distribution ℕ
shares = (1, 1) ∷ (2, 2) ∷ []

abbrev mgmt : ContractLink ℕ
mgmt = record { address = 7; code_hash = "mgmt" }

abbrev splitter : Rpt.State ℕ
splitter = record { portion = 3; distribution = shares; token = token; mgmt = mgmt }

abbrev rpt_env : Rpt.Env ℕ
rpt_env = record { sender = 4; time = 1040; contract = 8 }

splitter-Reach : Splitting.Reach ℕ splitter
unfolding Rpt.init Rpt.validate Rpt.sum_config Rpt.add_amounts LinearMap.convert_keys add128
splitter-Reach = Splitting.started rpt_deps (ok tt) shares 3 token mgmt splitter refl

Reach-IsSplit_example : IsSplit splitter
Reach-IsSplit_example = Reach-IsSplit splitter-Reach

handle_vest-splits_example :
    let transfers = map (λ t. Rpt.transfer t.0 t.1 token) (split (64 / 3) shares) in
    let batch = Rpt.batch_transfer (split (64 / 3) shares) token ∷ [] in
    (Rpt.handle_vest rpt_deps Rpt.build_batch rpt_env splitter
      ≡ ok (Rpt.claim mgmt ∷ batch, 64 % 3))
    × (Rpt.handle_vest rpt_deps Rpt.build_messages rpt_env splitter
        ≡ ok (Rpt.claim mgmt ∷ transfers, 64 % 3))
    × (sum_by moved batch + 64 % 3 ≡ 64)
    × (sum_by moved transfers + 64 % 3 ≡ 64)
unfolding LinearMap.convert_keys Rpt.query_claimable sub_checked u128_mod
handle_vest-splits_example =
    handle_vest-splits rpt_deps rpt_env splitter mgmt token shares 64 refl (omega arith) refl refl
      refl refl (omega arith)

init_empty-vest_example :
    (s : Rpt.State ℕ) × (Rpt.init rpt_deps (ok tt) [] 0 token mgmt ≡ ok s)
    × (Rpt.handle_vest rpt_deps Rpt.build_batch rpt_env s ≡ err (panic div_by_zero))
    × (Rpt.handle_vest rpt_deps Rpt.build_messages rpt_env s ≡ err (panic div_by_zero))
init_empty-vest_example =
    init_empty-vest rpt_deps rpt_deps rpt_env token mgmt token mgmt
      (record { launched = 1000; elapsed = 40; unlocked = 64; claimed = 0 }) refl refl refl refl
      refl (omega arith)
