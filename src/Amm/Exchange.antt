-- ===== src/Amm/Exchange.antt =====
-- contracts/amm/exchange/src/contract.rs: an exchange between the two tokens of a pair. `H` is the type
-- of human addresses, `C` of canonical ones, `D` of decimals. Log attributes are left out.
pub mod Storage
pub mod Pricing
pub mod Product
pub mod Shares
pub mod Trading
pub mod Access
pub mod Depositing
use Prim.Native.String.{String}
use Prim.Native.Nat.{bit_xor}
use sienna_network.Base.{
  ℕ, Bool, true, false, not, Option, none, some, List, [], ◌∷◌, ◌++◌, Result, ok, err, ◌>>=◌, ◌>>◌,
  guard, or_fail, panic, unwrap_none, assertion, generic, unauthorized, same_token_pair,
  empty_callback, zero_liquidity, wrong_pair, fell_short, unmanaged_token, no_settings, ltb, ◌==◌,
  if◌then◌else◌, ◌||◌, Eq, ContractLink, Uint128, Uint256, Decimal256,
}
use sienna_network.Amm.Tokens
use sienna_network.Amm.Tokens.{
  TokenType, custom_token, native_token, TokenPair, TokenTypeAmount, TokenPairAmount,
  ExchangeSettings, Coin, Msg, Querier, set_viewing_key, register_receive, instantiate_lp, callback,
  transfer, transfer_from, send, mint, burn, bank_send, link, is_native_token,
  assert_sent_native_token_balance, create_send_msg, query_balances, at, get_token, same_pair,
  contains, get_token_index,
}
use Storage.{Config, Convert, State, store_config, load_config}
use Pricing.{
  SwapResult, percentage_decrease, compute_swap, lp_tokens, withdrawn, assert_slippage_tolerance,
}

pub record SwapInfo : Type 0 where
  pub total_commission : ℕ
  pub sienna_commission : ℕ
  pub swap_commission : ℕ
  pub result : SwapResult

pub record Env (H : Type 0) : Type 0 where
  pub sender : H
  pub contract : ContractLink H
  pub sent_funds : List Coin

-- `ReceiverCallbackMsg`, in the message of a token that was sent here.
pub data ReceiverMsg (H : Type 0) : Type 0 where
  receive_swap : (expected_return : Option ℕ) (to : Option H) → ReceiverMsg H
  remove_liquidity : (recipient : H) → ReceiverMsg H

-- What the contract asks of the chain, of the factory and of the token contracts.
pub record Deps (H C : Type 0) : Type 0 where
  pub canonize : Convert H C
  pub humanize : Convert C H
  pub querier : Querier H
  -- The answer of the factory: the settings, or one of another form.
  pub settings : ContractLink H → Result (Option (ExchangeSettings H))
  pub total_supply : ContractLink H → Result (Option ℕ)
  -- `from_binary`
  pub parse : String → Result (ReceiverMsg H)
  -- `HumanAddr::default()`
  pub no_address : H

pub record InitMsg (H : Type 0) : Type 0 where
  pub pair : TokenPair H
  pub lp_code_id : ℕ
  pub lp_code_hash : String
  pub factory_info : ContractLink H
  pub callback_msg : String
  pub callback_contract : ContractLink H

pub data HandleMsg (H D : Type 0) : Type 0 where
  add_liquidity : TokenPairAmount H → (slippage_tolerance : Option D) → HandleMsg H D
  swap : TokenTypeAmount H → (expected_return : Option ℕ) → (to : Option H) → HandleMsg H D
  receive : (from : H) → (msg : Option String) → (amount : ℕ) → HandleMsg H D
  on_lp_token_init : HandleMsg H D
  change_factory : ContractLink H → HandleMsg H D

pub record PairInfo (H : Type 0) : Type 0 where
  pub liquidity_token : ContractLink H
  pub factory : ContractLink H
  pub pair : TokenPair H
  pub amount_0 : ℕ
  pub amount_1 : ℕ
  pub total_liquidity : ℕ

-- The burner's part of a swap, in the offered token.
unfoldable pub burner_messages : {H : Type 0} → H → Option H → TokenType H → ℕ → List (Msg H)
burner_messages contract none token commission = []
burner_messages contract (some burner) (custom_token a h) commission =
    if ltb 0 commission then transfer burner commission (link a h) ∷ [] else []
burner_messages contract (some burner) (native_token denom) commission =
    if ltb 0 commission
    then bank_send contract burner (record { denom = denom; amount = commission }) ∷ []
    else []

-- `register_custom_token`
unfoldable pub register_custom_token :
    {H : Type 0} → ContractLink H → TokenType H → String → List (Msg H)
register_custom_token contract (custom_token a h) viewing_key =
    set_viewing_key viewing_key (link a h) ∷ register_receive (link a h) ∷ []
register_custom_token contract (native_token denom) viewing_key = []

-- The round of the loop of `add_liquidity` for one token: its messages, and the balance of the pool
-- before the deposit.
unfoldable pub take_deposit :
    {H : Type 0} ⦃u : Uint128⦄
    → Env H
    → TokenType H
    → (amount balance : ℕ) → Result (List (Msg H) × ℕ)
take_deposit env (custom_token a h) amount balance =
    ok (transfer_from env.sender env.contract.address amount (link a h) ∷ [], balance)
take_deposit {H} ⦃u⦄ env (native_token denom) amount balance = do
  assert_sent_native_token_balance {A = H} (native_token denom) env.sent_funds amount
  before ← u.sub balance amount
  ok ([], before)

abbrev pub expects : Option ℕ → ℕ → Result (Unit {0})
expects none return_amount = ok tt
expects (some expected) return_amount =
    guard (not (ltb return_amount expected)) (generic fell_short)

abbrev pub or_else : {A : Type 0} → Option A → A → A
or_else none y = y
or_else (some x) y = x

module _ {H C : Type 0} ⦃e : Eq H⦄ ⦃u : Uint128⦄ ⦃w : Uint256⦄ (d : Deps H C) where
  unfoldable pub query_exchange_settings : ContractLink H → Result (ExchangeSettings H)
  query_exchange_settings factory = do
    answer ← d.settings factory
    or_fail answer (generic no_settings)

  -- A token without a supply panics.
  unfoldable pub query_liquidity : ContractLink H → Result ℕ
  query_liquidity lp_token_info = do
    total_supply ← d.total_supply lp_token_info
    or_fail total_supply (panic assertion)

  -- The commission of the burner, if there is one.
  unfoldable pub burner_commission : ExchangeSettings H → ℕ → Result ℕ
  burner_commission settings amount = elim settings.sienna_burner [
    | some burner ↦ percentage_decrease amount settings.sienna_fee
    | none ↦ ok 0
  ]

  unfoldable pub do_swap :
      Config H → ExchangeSettings H → TokenTypeAmount H → (is_simulation : Bool) → Result SwapInfo
  do_swap config settings offer is_simulation = do
    guard (contains config.pair offer.token) (generic unmanaged_token)
    swap_commission ← percentage_decrease offer.amount settings.swap_fee
    sienna_commission ← burner_commission settings offer.amount
    balances ← query_balances d.querier config.pair config.contract_addr config.viewing_key
    token_index ← or_fail (get_token_index config.pair offer.token) (panic unwrap_none)
    offer_pool ←
        (if is_simulation
          then ok (at balances token_index)
          else u.sub (at balances token_index) offer.amount)
    total_commission ← u.add swap_commission sienna_commission
    offer_amount ← u.sub offer.amount total_commission
    result ← compute_swap offer_pool (at balances (bit_xor token_index 1)) offer_amount
    ok (record {
      total_commission = total_commission;
      sienna_commission = sienna_commission;
      swap_commission = swap_commission;
      result = result;
    })

  unfoldable pub do_swap_messages :
      Env H → Config H → H → Option H → TokenTypeAmount H → Option ℕ → Result (List (Msg H))
  do_swap_messages env config sender recipient offer expected_return = do
    settings ← query_exchange_settings config.factory_info
    info ← do_swap config settings offer false
    expects expected_return info.result.return_amount
    index ← or_fail (get_token_index config.pair offer.token) (panic unwrap_none)
    token ← or_fail (get_token config.pair (bit_xor index 1)) (panic unwrap_none)
    ok (
        burner_messages env.contract.address settings.sienna_burner offer.token
          info.sienna_commission
        ++ create_send_msg token env.contract.address (or_else recipient sender)
            info.result.return_amount
          ∷ [])

  unfoldable pub swap_simulation : Config H → TokenTypeAmount H → Result (ℕ × ℕ × ℕ)
  swap_simulation config offer = do
    settings ← query_exchange_settings config.factory_info
    info ← do_swap config settings offer true
    ok (info.result.return_amount, info.result.spread_amount, info.total_commission)

  unfoldable pub query_swap_simulation : State C → TokenTypeAmount H → Result (ℕ × ℕ × ℕ)
  query_swap_simulation s offer = do config ← load_config d.humanize s; swap_simulation config offer

  -- The version number of the contract is left out.
  unfoldable pub query_pair_info : State C → Result (PairInfo H)
  query_pair_info s = do
    config ← load_config d.humanize s
    balances ← query_balances d.querier config.pair config.contract_addr config.viewing_key
    total_liquidity ← query_liquidity config.lp_token_info
    ok (record {
      liquidity_token = config.lp_token_info;
      factory = config.factory_info;
      pair = config.pair;
      amount_0 = balances.0;
      amount_1 = balances.1;
      total_liquidity = total_liquidity;
    })

  unfoldable pub do_remove_liquidity : Env H → State C → ℕ → H → Result (List (Msg H))
  do_remove_liquidity env s amount recipient = do
    config ← load_config d.humanize s
    liquidity_supply ← query_liquidity config.lp_token_info
    pool ← query_balances d.querier config.pair config.contract_addr config.viewing_key
    withdrawn_0 ← withdrawn pool.0 amount liquidity_supply
    withdrawn_1 ← withdrawn pool.1 amount liquidity_supply
    ok (
        create_send_msg config.pair.token_0 env.contract.address recipient withdrawn_0
        ∷ create_send_msg config.pair.token_1 env.contract.address recipient withdrawn_1
        ∷ burn amount config.lp_token_info
        ∷ [])

  -- The token of the pair that sent the message, if one did.
  unfoldable pub sent_token : TokenType H → H → Option (TokenType H)
  sent_token (custom_token a h) sender = if e.beq a sender then some (custom_token a h) else none
  sent_token (native_token denom) sender = none

  -- The loop over the pair.
  unfoldable pub find_sent : TokenPair H → H → Option (TokenType H)
  find_sent pair sender = elim (sent_token pair.token_0 sender) [
    | some token ↦ some token
    | none ↦ sent_token pair.token_1 sender
  ]

  unfoldable pub receive_msg :
      Env H → State C → H → ℕ → Config H → ReceiverMsg H → Result (List (Msg H))
  receive_msg env s from amount config (receive_swap expected_return to) =
      elim (find_sent config.pair env.sender) [
        | some token ↦
            do_swap_messages env config from to (record { token = token; amount = amount })
              expected_return
        | none ↦ err unauthorized
      ]
  receive_msg env s from amount config (remove_liquidity recipient) = do
    guard (e.beq config.lp_token_info.address env.sender) unauthorized
    do_remove_liquidity env s amount recipient

  unfoldable pub receiver_callback : Env H → State C → H → ℕ → Option String → Result (List (Msg H))
  receiver_callback env s from amount msg = do
    binary ← or_fail msg (generic empty_callback)
    config ← load_config d.humanize s
    parsed ← d.parse binary
    receive_msg env s from amount config parsed

  unfoldable pub register_lp_token : Env H → State C → Result (State C × List (Msg H))
  register_lp_token env s = do
    config ← load_config d.humanize s
    guard (e.beq config.lp_token_info.address d.no_address) unauthorized
    let token = link env.sender config.lp_token_info.code_hash
    s' ← store_config d.canonize (record config { lp_token_info = token })
    ok (s', register_receive token ∷ [])

  unfoldable pub do_change_factory :
      Env H → State C → ContractLink H → Result (State C × List (Msg H))
  do_change_factory env s new_instance = do
    config ← load_config d.humanize s
    guard (e.beq env.sender config.factory_info.address) unauthorized
    s' ← store_config d.canonize (record config { factory_info = new_instance })
    ok (s', [])

  -- `viewing_key` is the key that the platform draws.
  unfoldable pub init : Env H → InitMsg H → (viewing_key : String) → Result (State C × List (Msg H))
  init env msg viewing_key = do
    guard (not (Tokens.same_token msg.pair.token_0 msg.pair.token_1)) (generic same_token_pair)
    s ← store_config d.canonize (record {
      factory_info = msg.factory_info;
      lp_token_info = link d.no_address msg.lp_code_hash;
      pair = msg.pair;
      contract_addr = env.contract.address;
      viewing_key = viewing_key;
    })
    ok (
      s,
      register_custom_token env.contract msg.pair.token_0 viewing_key
          ++ register_custom_token env.contract msg.pair.token_1 viewing_key
          ++ instantiate_lp msg.lp_code_id msg.lp_code_hash msg.pair
            ∷ callback msg.callback_msg msg.callback_contract
            ∷ [],
    )

  module _ {D : Type 0} ⦃dec : Decimal256 D⦄ where
    unfoldable pub do_add_liquidity :
        Env H → State C → TokenPairAmount H → Option D → Result (List (Msg H))
    do_add_liquidity env s deposit slippage = do
      guard (not (deposit.amount_0 == 0 || deposit.amount_1 == 0)) (generic zero_liquidity)
      config ← load_config d.humanize s
      guard (same_pair config.pair deposit.pair) (generic wrong_pair)
      balances ← query_balances d.querier deposit.pair config.contract_addr config.viewing_key
      taken_0 ← take_deposit env deposit.pair.token_0 deposit.amount_0 balances.0
      taken_1 ← take_deposit env deposit.pair.token_1 deposit.amount_1 balances.1
      assert_slippage_tolerance slippage (deposit.amount_0, deposit.amount_1) (taken_0.1, taken_1.1)
      liquidity_supply ← query_liquidity config.lp_token_info
      minted ←
          lp_tokens liquidity_supply (deposit.amount_0, deposit.amount_1) (taken_0.1, taken_1.1)
      ok (taken_0.0 ++ taken_1.0 ++ mint env.sender minted config.lp_token_info ∷ [])

    unfoldable pub handle : Env H → State C → HandleMsg H D → Result (State C × List (Msg H))
    handle env s (receive from msg amount) = do
      messages ← receiver_callback env s from amount msg
      ok (s, messages)
    handle env s (add_liquidity deposit slippage_tolerance) = do
      messages ← do_add_liquidity env s deposit slippage_tolerance
      ok (s, messages)
    handle env s on_lp_token_init = register_lp_token env s
    handle env s (change_factory contract) = do_change_factory env s contract
    handle env s (swap offer expected_return to) = do
      guard (is_native_token offer.token) unauthorized
      assert_sent_native_token_balance offer.token env.sent_funds offer.amount
      config ← load_config d.humanize s
      messages ← do_swap_messages env config env.sender to offer expected_return
      ok (s, messages)
