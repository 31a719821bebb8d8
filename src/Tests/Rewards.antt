-- ===== src/Tests/Rewards.antt =====
-- Tests of contracts/amm/rewards on a pool whose contract is 7, with the staked token 20 and the reward
-- token 30. Addresses are numbers; 1 is the admin, and 5 has a stake.
use sienna_network.Base.{
  ℕ, ◌≡◌, refl, none, some, List, [], ◌∷◌, ok, err, nat_eq, string_eq, Uint128, checked_uint128,
  Uint256, checked_uint256, Decimal, ContractLink, ltb, ◌*◌, div_checked,
}
use sienna_network.Base.{◌<◌, ◌++◌, arith, Error, add64, u64_mod}
use sienna_network.Rewards.{deposit_receiver, rewards_pool}
use sienna_network.Rewards.Storage.{PollMetadata, failed, transfer}
use sienna_network.Rewards.Users.{commit_withdrawal, commit_claim}
use sienna_network.Rewards.Pool.{commit_total_claim}
use sienna_network.Rewards.Gov.{create_id, create_poll, store_result, append_created_poll}
use sienna_network.Rewards.Gov.Frame.{GovOnly}
use sienna_network.Rewards.Polls.{
  handle_governance, create, handle_create_poll, assert_governance_open, validate_metadata,
  validate_text_length, byte_length, char_bytes,
}
use sienna_network.Rewards.Polls.Frame.{handle_governance-GovOnly}
use sienna_network.Rewards.Staking.{
  withdraw, withdraw_open, can_unstake, claim, claim_open, force_exit, reward_message,
}
use sienna_network.Rewards.Stakes.Moves.{PaidReward, ClaimSends}
use sienna_network.Rewards.Users.{Account}
use sienna_network.Rewards.Stakes.{Backed, user_stake}
use sienna_network.Rewards.Steps.{LedgerStep}
use sienna_network.Rewards.Backed.{handle-LedgerStep, begun, handled, Reach-Backed}
use sienna_network.Rewards.Ledger.{
  Booked, Exited, is_own, make_deposit-books, deposit_receiver-books, make_withdrawal-books,
  make_claim-pays, handle_rewards-exits, make_withdrawal-refused,
}
use sienna_network.Rewards.{make_deposit, make_withdrawal, make_claim, handle_rewards, init, handle}
use sienna_network.Rewards.Polls.{GovernanceConfig, initialize_gov, store_gov_config}
use sienna_network.Rewards.Auth.{init_auth, save_admin, save_next_admin}
use sienna_network.Rewards.Pool.{
  from_time, get_total, get_clock, accumulate, get_budget, commit_total_elapsed,
}
use sienna_network.Rewards.Users.{
  from_addr, get_account, get_earned, commit_stake, commit_elapsed, set_staked, reset, entry_volume,
}
use sienna_network.Rewards.Gov.{active_polls, created_polls, increase_votes, filter_active_polls}
use sienna_network.Rewards.Staking.{deposit, commit_deposit, deposit_messages}
use sienna_network.Rewards.Storage.{
  initialize, store_config, store_lp_token, store_reward, store_timekeeper, load_reward_token,
  load_self_link, load_lp_token, register_receive, set_viewing_key, transfer_from,
}
use sienna_network.Base.Dict.{get, put}
use sienna_network.Base.{checked, u256_mod, u128_mod, add128, sub_checked}
use sienna_network.Rewards.Storage.{State, Stored, Deps, Env, Msg, RewardsConfig}

instance abbrev uint128 : Uint128
uint128 = checked_uint128

instance abbrev uint256 : Uint256
uint256 = checked_uint256

-- Decimals in hundredths.
instance abbrev hundredths : Decimal ℕ
hundredths = record {
  from_ratio = λ a b. div_checked (a * 100) b;
  percent = λ n. n;
  gt = λ a b. ltb b a;
}

abbrev link : ℕ → ContractLink ℕ
link n = record { address = n; code_hash = "" }

-- The platform, with a balance of the pool in reward tokens.
abbrev with_balance : ℕ → Deps ℕ ℕ
with_balance n = record {
  canonize = ok;
  humanize = ok;
  canonize_link = ok;
  humanize_link = ok;
  balance = λ token user key. ok n;
  parse_snapshot = λ text. ok (record { migrant = 6; viewing_key = none; staked = 3 });
  print_snapshot = λ snapshot. ok "";
  new_viewing_key = λ env entropy. entropy;
  check_viewing_key = λ given stored. string_eq.beq given stored;
}

abbrev env : (sender time : ℕ) → Env ℕ
env sender time = record { sender = sender; time = time; contract = link 7 }

abbrev empty : State ℕ ℕ ℕ
empty = record {
  config = record {
    self_link = none;
    lp_token = none;
    reward_token = none;
    reward_vk = none;
    bonding = none;
    timekeeper = none;
    closed = none;
  };
  epoch = record { number = none; start = none; volume = none };
  totals = record { volume = none; updated = none; staked = none; claimed = none };
  accounts = [];
  gov = record {
    threshold = none;
    quorum = none;
    deadline = none;
    closed = none;
    poll_count = none;
    polls = [];
    results = [];
    votes = [];
    active_polls = [];
    created_polls = [];
  };
  admins = record { admin = none; next_admin = none; contract = none; viewing_keys = [] };
  migrate_to = [];
  migrate_from = [];
}

abbrev pool_config : RewardsConfig ℕ
pool_config = record {
  lp_token = some (link 20);
  reward_token = some (link 30);
  reward_vk = none;
  bonding = some 0;
  timekeeper = none;
}

abbrev deps : Deps ℕ ℕ
deps = with_balance 100

abbrev gov_config : GovernanceConfig ℕ
gov_config = record { threshold = some 4; quorum = some 33; deadline = some 1000 }

-- The pool after `init`.
abbrev started : State ℕ ℕ ℕ
started = record empty {
  config = record {
    self_link = some (link 7);
    lp_token = some (link 20);
    reward_token = some (link 30);
    reward_vk = some "";
    bonding = some 0;
    timekeeper = some 1;
    closed = none;
  };
  gov = record (empty.gov) {
    threshold = some 4;
    quorum = some 33;
    deadline = some 1000;
    poll_count = some 0;
  };
  admins = record { admin = some 1; next_admin = some 1; contract = some 7; viewing_keys = [] };
}

started_ok :
    init deps (env 1 100) none pool_config (some gov_config) empty
    ≡ ok (started, register_receive "" (link 20) ∷ set_viewing_key "" (link 30) ∷ [])
unfolding init init_auth save_admin save_next_admin initialize store_config store_lp_token
    store_reward store_timekeeper initialize_gov store_gov_config
started_ok = refl

abbrev stake_of_5 : (updated staked volume entry_rew : ℕ) → Stored
stake_of_5 updated staked volume entry_rew = record {
  updated = some updated;
  staked = some staked;
  volume = some volume;
  entry_vol = some 0;
  entry_rew = some entry_rew;
  bonding = some 0;
}

-- 5 has deposited 10 at 110.
abbrev funded : State ℕ ℕ ℕ
funded = record started {
  totals = record { volume = some 0; updated = some 110; staked = some 10; claimed = none };
  accounts = (5, stake_of_5 110 10 0 100) ∷ [];
}

deposit_ok :
    handle_rewards deps (env 5 110) started (make_deposit 10)
    ≡ ok (funded, transfer_from 5 7 10 (link 20) ∷ [])
unfolding handle_rewards from_addr from_time get_total get_clock accumulate checked u256_mod
    get_budget load_reward_token load_self_link load_lp_token add128 u128_mod get_account get_earned
    deposit commit_deposit active_polls created_polls increase_votes filter_active_polls
    commit_stake commit_elapsed commit_total_elapsed set_staked reset entry_volume deposit_messages
    sub_checked div_checked get put
deposit_ok = refl

received_ok : handle_rewards deps (env 20 110) started (deposit_receiver 5 10) ≡ ok (funded, [])
unfolding handle_rewards from_addr from_time get_total get_clock accumulate checked u256_mod
    get_budget load_reward_token load_self_link load_lp_token add128 u128_mod get_account get_earned
    deposit commit_deposit active_polls created_polls increase_votes filter_active_polls
    commit_stake commit_elapsed commit_total_elapsed set_staked reset entry_volume deposit_messages
    sub_checked div_checked get put
received_ok = refl

-- 5 withdraws 4 at 120.
abbrev withdrew : State ℕ ℕ ℕ
withdrew = record funded {
  totals = record { volume = some 100; updated = some 120; staked = some 6; claimed = none };
  accounts = (5, stake_of_5 120 6 100 100) ∷ [];
}

withdraw_ok :
    handle_rewards deps (env 5 120) funded (make_withdrawal 4)
    ≡ ok (withdrew, transfer 5 4 (link 20) ∷ [])
unfolding handle_rewards from_addr from_time get_total get_clock accumulate checked u256_mod
    get_budget load_reward_token load_self_link load_lp_token add128 u128_mod get_account get_earned
    active_polls created_polls filter_active_polls commit_elapsed commit_total_elapsed set_staked
    reset entry_volume sub_checked div_checked get put withdraw withdraw_open can_unstake
    commit_withdrawal
withdraw_ok = refl

-- 50 reward tokens more come in, and 5 claims them at 120.
abbrev claimed_by_5 : State ℕ ℕ ℕ
claimed_by_5 = record funded {
  totals = record { volume = some 0; updated = some 110; staked = some 10; claimed = some 50 };
  accounts = (5, record (stake_of_5 120 10 0 150) { entry_vol = some 100 }) ∷ [];
}

claim_ok :
    handle_rewards (with_balance 150) (env 5 120) funded (make_claim none)
    ≡ ok (claimed_by_5, transfer 5 50 (link 30) ∷ [])
unfolding handle_rewards from_addr from_time get_total get_clock accumulate checked u256_mod
    get_budget load_reward_token load_self_link load_lp_token add128 u128_mod get_account get_earned
    active_polls created_polls filter_active_polls commit_elapsed commit_total_elapsed set_staked
    reset entry_volume sub_checked div_checked get put claim claim_open commit_claim
    commit_total_claim reward_message
claim_ok = refl

-- The pool is closed at 115, and the claim makes 5 leave.
abbrev sealed : State ℕ ℕ ℕ
sealed = record funded { config = record (funded.config) { closed = some (115, "over") } }

abbrev left : State ℕ ℕ ℕ
left = record sealed {
  totals = record { volume = some 100; updated = some 120; staked = some 0; claimed = some 50 };
  accounts = (5, stake_of_5 120 0 0 150) ∷ [];
}

exit_ok :
    handle_rewards (with_balance 150) (env 5 120) sealed (make_claim none)
    ≡ ok (left, transfer 5 10 (link 20) ∷ transfer 5 50 (link 30) ∷ [])
unfolding handle_rewards from_addr from_time get_total get_clock accumulate checked u256_mod
    get_budget load_reward_token load_self_link load_lp_token add128 u128_mod get_account get_earned
    active_polls created_polls filter_active_polls commit_elapsed commit_total_elapsed set_staked
    reset entry_volume sub_checked div_checked get put claim force_exit commit_withdrawal
    commit_claim commit_total_claim
exit_ok = refl

abbrev fees : PollMetadata
fees = record {
  title = "Lower fees";
  description = "The fees are too high.";
  poll_type = "exchange";
}

-- 5 makes a poll at 115.
abbrev polled : State ℕ ℕ ℕ
polled = record funded {
  gov = record (started.gov) {
    poll_count = some 1;
    polls =
        (
          1,
          some (record {
            id = 1;
            creator = 5;
            metadata = fees;
            expiration = 1115;
            status = failed;
            current_quorum = 33;
          }),
        )
        ∷ [];
    results = (1, some (record { poll_id = 1; yes_votes = 0; no_votes = 0 })) ∷ [];
    created_polls = (5, 1 ∷ []) ∷ [];
  };
}

poll_ok : handle_governance deps (env 5 115) funded (create fees) ≡ ok polled
unfolding handle_rewards from_addr from_time get_total get_clock accumulate checked u256_mod
    get_budget load_reward_token load_self_link load_lp_token add128 u128_mod get_account get_earned
    active_polls created_polls filter_active_polls commit_elapsed commit_total_elapsed set_staked
    reset entry_volume sub_checked div_checked get put handle_governance handle_create_poll
    assert_governance_open validate_metadata validate_text_length byte_length char_bytes create_id
    create_poll store_result append_created_poll add64 u64_mod
poll_ok = refl

deposit_handled :
    handle deps (env 5 110) started (rewards_pool (make_deposit 10))
    ≡ ok (funded, transfer_from 5 7 10 (link 20) ∷ [])
unfolding handle
deposit_handled = deposit_ok

ten_less : user_stake funded 5 < 11
unfolding get
ten_less = omega arith

Reach-Backed_example : Backed funded
Reach-Backed_example = Reach-Backed funded (
    handled deps (env 5 110) (rewards_pool (make_deposit 10)) started funded
      (transfer_from 5 7 10 (link 20) ∷ [])
      (begun deps (env 1 100) none pool_config (some gov_config) empty started
        (register_receive "" (link 20) ∷ set_viewing_key "" (link 30) ∷ []) refl refl started_ok)
      deposit_handled)

handle-LedgerStep_example : LedgerStep started funded
handle-LedgerStep_example =
    handle-LedgerStep deps (env 5 110) started funded (rewards_pool (make_deposit 10))
      (transfer_from 5 7 10 (link 20) ∷ []) deposit_handled

make_deposit-books_example :
    Booked deps started funded 5 10 0
    × ((lp_token self_link : ContractLink ℕ) × (load_lp_token deps started.config ≡ ok lp_token)
        × (load_self_link deps started.config ≡ ok self_link)
        × (transfer_from 5 7 10 (link 20) ∷ []
            ≡ transfer_from 5 self_link.address 10 lp_token ∷ []))
make_deposit-books_example =
    make_deposit-books deps (env 5 110) started funded 10 (transfer_from 5 7 10 (link 20) ∷ []) refl
      deposit_ok

deposit_receiver-books_example :
    Booked deps started funded 5 10 0
    × (◌≡◌ {A = List (Msg ℕ)} [] [])
    × ((lp_token : ContractLink ℕ) × (load_lp_token deps started.config ≡ ok lp_token)
        × (lp_token.address ≡ 20))
deposit_receiver-books_example =
    deposit_receiver-books deps (env 20 110) started funded 5 10 [] refl received_ok

make_withdrawal-books_example :
    Booked deps funded withdrew 5 0 4
    × ((a : Account ℕ ℕ) × (paid : List (Msg ℕ)) × (lp_token : ContractLink ℕ) × (from_addr deps
            funded 5 120
          ≡ ok a)
        × PaidReward deps funded 5 a.earned paid
        × (load_lp_token deps funded.config ≡ ok lp_token)
        × (transfer 5 4 (link 20) ∷ [] ≡ paid ++ transfer 5 4 lp_token ∷ []))
make_withdrawal-books_example =
    make_withdrawal-books deps (env 5 120) funded withdrew 4 (transfer 5 4 (link 20) ∷ []) refl
      withdraw_ok

make_claim-pays_example :
    Booked (with_balance 150) funded claimed_by_5 5 0 0
    × ((a : Account ℕ ℕ) × (reward_token : ContractLink ℕ) × (from_addr
            (with_balance 150)
            funded
            5
            120
          ≡ ok a)
        × (0 < a.earned)
        × (load_reward_token (with_balance 150) funded.config ≡ ok reward_token)
        × ClaimSends 5 a.earned reward_token none (transfer 5 50 (link 30) ∷ []))
make_claim-pays_example =
    make_claim-pays (with_balance 150) (env 5 120) funded claimed_by_5 none
      (transfer 5 50 (link 30) ∷ []) refl claim_ok

handle_rewards-exits_example :
    Exited
      (with_balance 150)
      sealed
      left
      5
      120
      (transfer 5 10 (link 20) ∷ transfer 5 50 (link 30) ∷ [])
unfolding is_own
handle_rewards-exits_example =
    handle_rewards-exits (with_balance 150) (env 5 120) sealed left (make_claim none) (115, "over")
      (transfer 5 10 (link 20) ∷ transfer 5 50 (link 30) ∷ []) refl refl exit_ok

make_withdrawal-refused_example :
    (problem : Error) × (handle_rewards deps (env 5 120) funded (make_withdrawal 11) ≡ err problem)
make_withdrawal-refused_example =
    make_withdrawal-refused deps (env 5 120) funded 5 11 refl refl ten_less

handle_governance-GovOnly_example : GovOnly funded polled
handle_governance-GovOnly_example =
    handle_governance-GovOnly deps (env 5 115) funded polled (create fees) poll_ok
