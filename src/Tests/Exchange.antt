-- ===== src/Tests/Exchange.antt =====
-- Tests of contracts/amm/exchange on a pair of two token contracts, 10 and 11. Addresses are numbers, 7
-- is the exchange, 8 its factory and 12 the token of its shares.
use sienna_network.Base.{
  ℕ, ◌+◌, ◌-◌, ◌*◌, ◌≤◌, ◌<◌, ◌≡◌, sym, ap, refl, arith, true, false, List, [], ◌∷◌, none, some, ok,
  err, unauthorized, nat_eq, string_eq, if◌then◌else◌, ◌==◌, u128_mod, u256_mod, checked,
  sub_checked, div_checked, add128, Uint128, checked_uint128, Uint256, checked_uint256,
  ok-injective,
}
use sienna_network.Amm.Tokens.{
  TokenType, custom_token, TokenPair, TokenTypeAmount, ExchangeSettings, Msg, send, burn, transfer,
  register_receive, link, same_token, contains, get_token_index, get_token, query_balance,
  query_balances, create_send_msg, convert_token, convert_pair,
}
use sienna_network.Amm.Exchange.{
  Deps, Env, remove_liquidity, burner_messages, query_exchange_settings, query_liquidity,
  burner_commission, do_swap, do_swap_messages, do_remove_liquidity, receive_msg, receiver_callback,
  register_lp_token,
}
use sienna_network.Amm.Exchange.Storage.{Config, Convert, convert_config, store_config, load_config}
use sienna_network.Amm.Exchange.Storage.RoundTrip.{Undoes, load_config-store_config}
use sienna_network.Amm.Exchange.Pricing.{
  percentage_decrease, compute_swap, share_of, lp_tokens, withdrawn,
}
use sienna_network.Amm.Exchange.Product.{compute_swap-product}
use sienna_network.Amm.Exchange.Shares.{withdrawn-lp_tokens}
use sienna_network.Amm.Exchange.Trading.{
  raise, SwapSends, Withdraws, do_swap_messages-sends, do_remove_liquidity-sends, do_swap_simulated,
}
use sienna_network.Amm.Exchange.Depositing.{Deposited, do_add_liquidity-mints}
use sienna_network.Amm.Exchange.{take_deposit, do_add_liquidity}
use sienna_network.Amm.Exchange.Pricing.{assert_slippage_tolerance, cmp_ratio}
use sienna_network.Amm.Tokens.{TokenPairAmount, same_pair, transfer_from, mint}
use sienna_network.Base.{Decimal256, leb, ltb, ◌*◌, ◌/◌}
use sienna_network.Amm.Exchange.Access.{FromToken, receiver_callback-sender, register_lp_token_once}

instance abbrev uint128 : Uint128
uint128 = checked_uint128

instance abbrev uint256 : Uint256
uint256 = checked_uint256

abbrev same : Convert ℕ ℕ
same = record { address = ok; link = ok }

same-Undoes : Undoes same same
same-Undoes = record {
  address_back = λ a b h. ap ok (sym (ok-injective h));
  link_back = λ a b h. ap ok (sym (ok-injective h));
}

abbrev token_a : TokenType ℕ
token_a = custom_token 10 "a"

abbrev token_b : TokenType ℕ
token_b = custom_token 11 "b"

abbrev pair : TokenPair ℕ
pair = record { token_0 = token_a; token_1 = token_b }

abbrev config : Config ℕ
config = record {
  factory_info = link 8 "factory";
  lp_token_info = link 12 "lp";
  pair = pair;
  contract_addr = 7;
  viewing_key = "key";
}

abbrev settings : ExchangeSettings ℕ
settings = record {
  swap_fee = record { nom = 1; denom = 10 };
  sienna_fee = record { nom = 1; denom = 20 };
  sienna_burner = some 6;
}

-- The chain where the exchange has balances `a` and `b` of the two tokens.
abbrev chain : ℕ → ℕ → Deps ℕ ℕ
chain a b = record {
  canonize = same;
  humanize = same;
  querier = record {
    bank_balance = λ x denom. ok 0;
    token_balance = λ x key token. ok (if token.address == 10 then a else b);
  };
  settings = λ factory. ok (some settings);
  total_supply = λ token. ok (some 500);
  parse = λ binary. ok (remove_liquidity 3);
  no_address = 0;
}

abbrev sent_by : ℕ → Env ℕ
sent_by sender = record { sender = sender; contract = link 7 "exchange"; sent_funds = [] }

abbrev offer : TokenTypeAmount ℕ
offer = record { token = token_a; amount = 100 }

compute_swap-product_example :
    (157 ≤ 2000)
    × (1000 * 2000 < (1000 + 85) * (2000 - 157) + (1000 + 85))
    × ((1000 + 85) * (2000 - 157) ≤ 1000 * 2000)
unfolding compute_swap checked sub_checked div_checked u128_mod u256_mod
compute_swap-product_example =
    compute_swap-product 1000 2000 85 (record { return_amount = 157; spread_amount = 13 })
      (omega arith) refl

withdrawn-lp_tokens_example : (100 ≤ 100) × (200 ≤ 200)
unfolding lp_tokens share_of withdrawn checked div_checked u128_mod u256_mod
withdrawn-lp_tokens_example =
    withdrawn-lp_tokens 500 100 200 1000 2000 50 100 200 (omega arith) refl refl refl

abbrev swap_messages : List (Msg ℕ)
swap_messages = transfer 6 5 (link 10 "a") ∷ send 3 157 (link 11 "b") ∷ []

do_swap_messages-sends_example :
    SwapSends (chain 1100 2000) (sent_by 10) config 3 none offer (some 150) swap_messages
unfolding do_swap_messages do_swap compute_swap percentage_decrease query_exchange_settings
    burner_commission burner_messages contains get_token_index get_token same_token query_balances
    query_balance create_send_msg checked sub_checked div_checked u128_mod u256_mod add128
do_swap_messages-sends_example =
    do_swap_messages-sends (chain 1100 2000) (sent_by 10) config 3 none offer (some 150)
      swap_messages refl

do_swap_simulated_example :
    do_swap (chain 1000 2000) config settings offer true
    ≡ do_swap (chain 1100 2000) config settings offer false
unfolding get_token_index same_token query_balances query_balance raise
do_swap_simulated_example =
    do_swap_simulated (chain 1000 2000) (chain 1100 2000) config settings offer 0 (1000, 2000) refl
      refl refl

abbrev withdrawal_messages : List (Msg ℕ)
withdrawal_messages =
    send 3 110 (link 10 "a") ∷ send 3 200 (link 11 "b") ∷ burn 50 (link 12 "lp") ∷ []

do_remove_liquidity-sends_example :
    Withdraws (sent_by 12) 50 3 config 500 1100 2000 withdrawal_messages
unfolding do_remove_liquidity load_config convert_config convert_pair convert_token query_liquidity
    query_balances query_balance create_send_msg withdrawn checked div_checked u128_mod u256_mod
do_remove_liquidity-sends_example =
    do_remove_liquidity-sends (chain 1100 2000) (sent_by 12) (some config) 50 3 config 500 1100 2000
      withdrawal_messages refl refl refl refl

receiver_callback-sender_example : FromToken (chain 1100 2000) (sent_by 12) (some config)
unfolding receiver_callback receive_msg do_remove_liquidity load_config convert_config convert_pair
    convert_token query_liquidity query_balances query_balance create_send_msg withdrawn checked
    div_checked u128_mod u256_mod
receiver_callback-sender_example =
    receiver_callback-sender (chain 1100 2000) (sent_by 12) (some config) 4 50 (some "remove")
      withdrawal_messages refl

abbrev unregistered : Config ℕ
unregistered = record config { lp_token_info = link 0 "lp" }

register_lp_token_once_example :
    ((c : Config ℕ) × (load_config same (some config) ≡ ok c) × (c.lp_token_info.address ≡ 12))
    × (register_lp_token (chain 0 0) (sent_by 13) (some config) ≡ err unauthorized)
unfolding register_lp_token load_config store_config convert_config convert_pair convert_token
register_lp_token_once_example =
    register_lp_token_once (chain 0 0) (sent_by 12) (sent_by 13) (some unregistered) (some config)
      (register_receive (link 12 "lp") ∷ []) same-Undoes (omega arith) refl

load_config-store_config_example : load_config same (some config) ≡ ok config
unfolding store_config convert_config convert_pair convert_token
load_config-store_config_example =
    load_config-store_config same same same-Undoes config (some config) refl

-- Decimals with eighteen places.
instance abbrev decimals : Decimal256 ℕ
decimals = record {
  one = 1000000000000000000;
  is_zero = λ x. x == 0;
  from_ratio = λ a b. div_checked (a * 1000000000000000000) b;
  mul = λ x y. ok (x * y / 1000000000000000000);
  sub = sub_checked;
  gt = λ x y. ltb y x;
  ge = λ x y. leb y x;
}

abbrev deposit : TokenPairAmount ℕ
deposit = record { pair = pair; amount_0 = 100; amount_1 = 200 }

abbrev deposit_messages : List (Msg ℕ)
deposit_messages =
    transfer_from 3 7 100 (link 10 "a")
    ∷ transfer_from 3 7 200 (link 11 "b")
    ∷ mint 3 50 (link 12 "lp")
    ∷ []

-- A slippage of one per cent.
do_add_liquidity-mints_example :
    Deposited (chain 1000 2000) (sent_by 3) (some config) deposit deposit_messages
unfolding do_add_liquidity load_config convert_config convert_pair convert_token same_pair
    same_token query_balances query_balance take_deposit assert_slippage_tolerance cmp_ratio
    query_liquidity lp_tokens share_of checked sub_checked div_checked u128_mod u256_mod
do_add_liquidity-mints_example =
    do_add_liquidity-mints {D = ℕ} (chain 1000 2000) (sent_by 3) (some config) deposit
      (some 10000000000000000) deposit_messages refl
