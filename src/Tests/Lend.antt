-- ===== src/Tests/Lend.antt =====
-- Tests of contracts/lend/market on a market whose contract is 7, with the underlying token 20, the overseer
-- 30 and the interest model 40. Addresses are numbers.
use sienna_network.Base.{
  ℕ, ◌≡◌, refl, none, some, [], ◌∷◌, ok, true, nat_eq, string_eq, Uint128, checked_uint128, Uint256,
  checked_uint256, Decimals, checked_decimals, decimal_one, Vector, vectors, ContractLink,
  if◌then◌else◌, ◌==◌, nth_past, ge→ltb, arith, checked, sub_checked, u256_mod, div_checked,
}
use sienna_network.Base.Dict.{get, put}
use sienna_network.Lend.Market.{
  InitMsg, receive_tokens, new, dispatch, guard_msg, handle, do_receive, dispatch_received,
}
use sienna_network.Lend.Market.Storage.{
  State, BorrowSnapshot, Deps, Env, Config, deposit, callback, set_viewing_key, register_receive,
  validate, validate_reserve_factor, load_underlying, underlying_balance, load_config,
  load_interest_model,
}
use sienna_network.Lend.Market.Interest.{
  LatestInterest, accrue_interest, calc_accrued_interest, latest_borrows, latest_reserves,
  latest_index,
}
use sienna_network.Lend.Market.Accounts.{
  no_debt, set_prng_seed, save_borrow_snapshot, save_unlisted, get_borrow_snapshot, add_to,
  get_balance,
}
use sienna_network.Lend.Market.Accounts.Borrowers.{Listed}
use sienna_network.Lend.Market.Accounts.Map.{save_borrow_snapshot-get}
use sienna_network.Lend.Market.Token.{calc_exchange_rate, increase_supply}
use sienna_network.Lend.Market.Token
use sienna_network.Lend.Market.Sound.{Sound}
use sienna_network.Lend.Market.Reach.{Fresh, Reach, start, step, Reach-Sound}
use sienna_network.Lend.Market.Growth.{Grown, accrue_interest-Grown}

instance abbrev uint128 : Uint128
uint128 = checked_uint128

instance abbrev uint256 : Uint256
uint256 = checked_uint256

instance abbrev decimals : Decimals
decimals = checked_decimals

abbrev Stored : Type 0
Stored = Vector (BorrowSnapshot ℕ)

abbrev link : ℕ → ContractLink ℕ
link a = record { address = a; code_hash = "hash" }

-- The market holds 1000 of the underlying token, and interest is a tenth of a percent for a block.
abbrev chain : Deps ℕ ℕ
chain = record {
  canonize = λ a. ok a;
  humanize = λ a. ok a;
  canonize_link = λ l. ok l;
  humanize_link = λ l. ok l;
  token_balance = λ _ _ _. ok 1000;
  borrow_rate = λ _ _ _ _. ok 1_000_000_000_000_000;
  supply_rate = λ _ _ _ _ _. ok 0;
  account_liquidity = λ _ _ _ _ _ _ _. ok (record { liquidity = 1000; shortfall = 0 });
  can_transfer = λ _ _ _ _ _ _. ok true;
  market = λ _ a. ok (link a);
  close_factor = λ _. ok 500_000_000_000_000_000;
  seize_amount = λ _ _ _ n. ok n;
  simulate_seize = λ _ _ _ _. ok 0;
  from_binary = λ _. ok deposit;
  borrower_id = λ _ seed. seed;
  new_viewing_key = λ _ _ _. "vk";
  check_viewing_key = λ _ _. true;
  assert_admin = λ _. ok tt;
  is_operational = ok tt;
  auth_viewing_key = λ _ _. ok tt;
  validate_permit = λ _ _ _. ok 5;
}

abbrev blank : State ℕ Stored
blank = record {
  config = none;
  underlying_vk = none;
  master_key = none;
  prng_seed = none;
  interest_model = none;
  overseer = none;
  underlying = none;
  self_ref = none;
  total_borrows = 0;
  total_supply = 0;
  borrow_cap = none;
  borrow_index = 0;
  interest_reserve = 0;
  accrual_block = 0;
  balances = [];
  borrowers = (0, λ j. no_debt j);
  borrow_info = [];
  address_of_id = [];
  id_of_address = [];
  receivers = [];
}

blank-Fresh : Fresh blank
blank-Fresh = record {
  balances = refl;
  supply = refl;
  info = refl;
  borrowers = λ i. nth_past blank.borrowers i (ge→ltb i 0 (omega arith));
}

abbrev config : Config
config = record {
  initial_exchange_rate = 1_000_000_000_000_000_000;
  reserve_factor = 100_000_000_000_000_000;
  seize_factor = 0;
}

abbrev set_up : State ℕ Stored
set_up = record blank {
  config = some config;
  master_key = some "key";
  prng_seed = some "seed";
  overseer = some (link 30);
  interest_model = some (link 40);
  underlying = some (link 20);
  self_ref = some (link 7);
  borrow_index = 1_000_000_000_000_000_000;
  accrual_block = 10;
  underlying_vk = some "vk";
}

abbrev env_of : (sender block : ℕ) → Env ℕ
env_of sender block = record { sender = sender; block = block; contract = link 7 }

abbrev init_msg : InitMsg ℕ
init_msg = record {
  prng_seed = "seed";
  entropy = "";
  key = "key";
  underlying_asset = link 20;
  interest_model_contract = link 40;
  config = config;
  callback_contract = link 30;
  callback_msg = "";
}

set_up-Reach : Reach ℕ ℕ Stored set_up
unfolding new validate validate_reserve_factor set_prng_seed decimal_one
set_up-Reach =
    start chain (env_of 1 10) blank init_msg
      (
        set_up,
        callback "" (link 30)
            ∷ set_viewing_key "vk" (link 20)
            ∷ register_receive "hash" (link 20)
            ∷ [],
      )
      blank-Fresh refl

abbrev funded : State ℕ Stored
funded = record set_up { total_supply = 600; balances = (5, 600) ∷ [] }

Reach-Sound_example : Sound funded
unfolding dispatch guard_msg handle do_receive dispatch_received underlying_balance load_underlying
    accrue_interest calc_accrued_interest load_config Token.deposit latest_borrows latest_reserves
    calc_exchange_rate increase_supply add_to get_balance get put decimal_one sub_checked checked
    u256_mod div_checked
Reach-Sound_example = Reach-Sound {H = ℕ} funded (
    step chain (env_of 20 10) set_up (receive_tokens 5 (some "deposit") 600) (funded, [])
      set_up-Reach refl)

abbrev debt_of : ℕ → ℕ → BorrowSnapshot ℕ
debt_of a n = record { principal = n; interest_index = 1_000_000_000_000_000_000; address = a }

abbrev owing : State ℕ Stored
owing = record set_up {
  borrowers = (1, λ j. if 0 == j then debt_of 5 200 else no_debt j);
  borrow_info = (5, some 0) ∷ [];
}

owing-Listed : Listed owing
unfolding save_borrow_snapshot save_unlisted get put
owing-Listed =
    (save_borrow_snapshot-get set_up owing 5 (debt_of 5 200)
      (Reach-Sound {H = ℕ} set_up set_up-Reach).listed refl refl).0

abbrev owing_both : State ℕ Stored
owing_both = record owing {
  borrowers =
      (2, λ j. if 1 == j then debt_of 6 300 else if 0 == j then debt_of 5 200 else no_debt j);
  borrow_info = (5, some 0) ∷ (6, some 1) ∷ [];
}

save_borrow_snapshot-get_example :
    Listed owing_both
    × ((c : ℕ)
        → get_borrow_snapshot owing_both c
          ≡ (if 6 == c then ok (debt_of 6 300) else get_borrow_snapshot owing c))
unfolding save_borrow_snapshot save_unlisted get put
save_borrow_snapshot-get_example =
    save_borrow_snapshot-get owing owing_both 6 (debt_of 6 300) owing-Listed refl refl

abbrev lent : State ℕ Stored
lent = record owing { total_borrows = 200 }

abbrev repaid : State ℕ Stored
repaid = record lent {
  total_borrows = 50;
  borrowers =
      (1, λ j. if 0 == j then debt_of 5 50 else (if 0 == j then debt_of 5 200 else no_debt j));
}

abbrev accrued : State ℕ Stored
accrued = record lent {
  total_borrows = 200;
  borrow_index = 1_000_015_000_000_000_000;
  accrual_block = 13;
}

abbrev told : LatestInterest
told = record {
  total_borrows = some 200;
  total_reserves = some 0;
  borrow_index = some 1_000_015_000_000_000_000;
}

accrue_interest-Grown_example : Grown lent accrued 13 told
unfolding accrue_interest calc_accrued_interest load_config load_interest_model latest_borrows
    latest_reserves latest_index decimal_one sub_checked checked u256_mod div_checked
accrue_interest-Grown_example = accrue_interest-Grown chain lent 13 1000 (accrued, told) refl
