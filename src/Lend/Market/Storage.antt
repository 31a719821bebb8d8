-- ===== src/Lend/Market/Storage.antt =====
-- contracts/lend/market: what the market stores (state.rs), its configuration (interfaces/market.rs of
-- libraries/lend-shared), and what it asks of other contracts. `H` is the type of human addresses, `C` of
-- canonical ones, `S` of the stored vector of borrowers.
use Prim.Native.String.{String}
use sienna_network.Base.{
  ℕ, Option, Result, ok, ◌>>=◌, ◌>>◌, guard, or_fail, not, ltb, ◌==◌, generic, lend, panic,
  unwrap_none, reserve_factor_range, zero_initial_rate, unauthorized, Bool, decimal_one,
  ContractLink,
}
use sienna_network.Base.Dict.{Dict}

-- `Config`, in decimals.
pub record Config : Type 0 where
  pub initial_exchange_rate : ℕ
  pub reserve_factor : ℕ
  pub seize_factor : ℕ

unfoldable pub validate_reserve_factor : (reserve_factor : ℕ) → Result (Unit {0})
validate_reserve_factor reserve_factor =
    guard (not (ltb decimal_one reserve_factor)) (generic (lend reserve_factor_range))

unfoldable pub set_reserve_factor : Config → (new : ℕ) → Result Config
set_reserve_factor c new = do validate_reserve_factor new; ok (record c { reserve_factor = new })

-- `Config::validate`
unfoldable pub validate : Config → Result (Unit {0})
validate c = do
  guard (not (c.initial_exchange_rate == 0)) (generic (lend zero_initial_rate))
  validate_reserve_factor c.reserve_factor

-- `BorrowSnapshot`, with its `BorrowerInfo`.
pub record BorrowSnapshot (C : Type 0) : Type 0 where
  pub principal : ℕ
  pub interest_index : ℕ
  pub address : C

-- A number that was never written is 0, as `unwrap_or_default` reads it.
pub record State (C S : Type 0) : Type 0 where
  pub config : Option Config
  pub underlying_vk : Option String
  pub master_key : Option String
  pub prng_seed : Option String
  pub interest_model : Option (ContractLink C)
  pub overseer : Option (ContractLink C)
  pub underlying : Option (ContractLink C)
  pub self_ref : Option (ContractLink C)
  pub total_borrows : ℕ
  pub total_supply : ℕ
  pub borrow_cap : Option ℕ
  pub borrow_index : ℕ
  pub interest_reserve : ℕ
  pub accrual_block : ℕ
  pub balances : Dict C ℕ
  pub borrowers : S
  -- The index of an account among the borrowers.
  pub borrow_info : Dict C (Option ℕ)
  pub address_of_id : Dict String (Option C)
  pub id_of_address : Dict C (Option String)
  pub receivers : Dict C (Option String)

pub record Env (H : Type 0) : Type 0 where
  pub sender : H
  pub block : ℕ
  pub contract : ContractLink H

-- `AccountLiquidity`
pub record AccountLiquidity : Type 0 where
  pub liquidity : ℕ
  pub shortfall : ℕ

-- `ReceiverCallbackMsg`
pub data ReceiverMsg (H : Type 0) : Type 0 where
  deposit : ReceiverMsg H
  repay : (borrower : Option String) → ReceiverMsg H
  liquidate : (borrower : String) (collateral : H) → ReceiverMsg H

-- Messages to the token and to other markets. The last two are `Snip20ReceiveMsg` and the callback.
pub data Msg (H : Type 0) : Type 0 where
  transfer : (recipient : H) (amount : ℕ) → ContractLink H → Msg H
  set_viewing_key : String → ContractLink H → Msg H
  register_receive : (code_hash : String) → ContractLink H → Msg H
  seize : (liquidator borrower : H) (amount : ℕ) → ContractLink H → Msg H
  receive :
      (from : H) (amount : ℕ) (msg memo : Option String) (code_hash : String) (recipient : H)
      → Msg H
  callback : String → ContractLink H → Msg H

-- `MarketPermissions`
pub data MarketPermissions : Type 0 where
  account_info balance id : MarketPermissions

-- `MarketAuth`; a permit is its text.
pub data AuthMethod (H : Type 0) : Type 0 where
  permit : String → AuthMethod H
  viewing_key : (address : H) (key : String) → AuthMethod H
  internal : (address : H) (key : String) → AuthMethod H

-- What the chain, the token, the interest model, the overseer and the other markets answer.
pub record Deps (H C : Type 0) : Type 0 where
  pub canonize : H → Result C
  pub humanize : C → Result H
  pub canonize_link : ContractLink H → Result (ContractLink C)
  pub humanize_link : ContractLink C → Result (ContractLink H)
  pub token_balance : ContractLink H → H → (key : String) → Result ℕ
  pub borrow_rate : ContractLink H → (market_size num_borrows reserves : ℕ) → Result ℕ
  pub supply_rate :
      ContractLink H → (market_size num_borrows reserves reserve_factor : ℕ) → Result ℕ
  pub account_liquidity :
      ContractLink H
      → (key : String) → H
      → (market : Option H) → (block : Option ℕ) → (redeem_amount borrow_amount : ℕ)
      → Result AccountLiquidity
  pub can_transfer :
      ContractLink H → (key : String) → H → (market : H) → (block amount : ℕ) → Result Bool
  -- The contract of a market that the overseer lists.
  pub market : ContractLink H → H → Result (ContractLink H)
  pub close_factor : ContractLink H → Result ℕ
  pub seize_amount : ContractLink H → (borrowed collateral : H) → (repay_amount : ℕ) → Result ℕ
  pub simulate_seize : ContractLink H → (key : String) → H → ℕ → Result ℕ
  pub from_binary : String → Result (ReceiverMsg H)
  -- `sha_256` of an address and the seed.
  pub borrower_id : C → (seed : String) → String
  pub new_viewing_key : Env H → (seed entropy : String) → String
  pub check_viewing_key : (stored given : String) → Bool
  -- The admin, killswitch and authentication components of fadroma.
  pub assert_admin : Env H → Result (Unit {0})
  pub is_operational : Result (Unit {0})
  pub auth_viewing_key : (key : String) → C → Result (Unit {0})
  pub validate_permit : (permit : String) → (self_ref : H) → MarketPermissions → Result H

-- `impl_contract_storage!`
abbrev pub load_contract :
    {H C : Type 0} → Deps H C → Option (ContractLink C) → Result (ContractLink H)
load_contract d stored = do link ← or_fail stored (panic unwrap_none); d.humanize_link link

module _ {H C S : Type 0} (d : Deps H C) where
  unfoldable pub load_underlying : State C S → Result (ContractLink H)
  load_underlying s = load_contract d s.underlying

  unfoldable pub load_overseer : State C S → Result (ContractLink H)
  load_overseer s = load_contract d s.overseer

  unfoldable pub load_interest_model : State C S → Result (ContractLink H)
  load_interest_model s = load_contract d s.interest_model

  unfoldable pub load_self_ref : State C S → Result (ContractLink H)
  load_self_ref s = load_contract d s.self_ref

  -- The market's balance in the underlying token.
  unfoldable pub underlying_balance : State C S → (contract : H) → Result ℕ
  unfolding load_underlying
  underlying_balance s contract = do
    link ← load_underlying s
    key ← or_fail s.underlying_vk (panic unwrap_none)
    d.token_balance link contract key

  -- `MasterKey::check`
  unfoldable pub check_master_key : State C S → (given : String) → Result (Unit {0})
  check_master_key s given = do
    key ← or_fail s.master_key (panic unwrap_none)
    guard (d.check_viewing_key key given) unauthorized

module _ {C S : Type 0} where
  unfoldable pub load_config : State C S → Result Config
  load_config s = or_fail s.config (panic unwrap_none)

  unfoldable pub load_master_key : State C S → Result String
  load_master_key s = or_fail s.master_key (panic unwrap_none)
