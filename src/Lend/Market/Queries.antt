-- ===== src/Lend/Market/Queries.antt =====
-- contracts/lend/market/src/contract.rs: the queries, and libraries/lend-shared/src/core/auth.rs, which
-- says for whom a query is.
use Prim.Native.String.{String}
use sienna_network.Base.{
  ℕ, Option, some, Result, ok, ◌>>=◌, ◌>>◌, if◌then◌else◌, Eq, Uint256, Decimals, Iterable,
}
use sienna_network.Lend.Market.Storage.{
  Config, State, BorrowSnapshot, Deps, AuthMethod, permit, viewing_key, internal, MarketPermissions,
  account_info, balance as balance_permission, load_config, load_master_key, load_overseer,
  load_interest_model, load_self_ref, underlying_balance, check_master_key,
}
use sienna_network.Lend.Market.Interest.{AccruedInterest, accrued_interest_at, current_balance}
use sienna_network.Lend.Market.Accounts.{get_balance, can_subtract, from_id, get_borrow_snapshot}
use sienna_network.Lend.Market.Token.{calc_exchange_rate, assert_liquidate_allowed}

pub record SimulateLiquidationResult : Type 0 where
  pub seize_amount : ℕ
  pub shortfall : ℕ

pub record AccountInfo : Type 0 where
  pub sl_token_balance : ℕ
  pub borrow_balance : ℕ
  pub exchange_rate : ℕ

-- `State` of the interface.
pub record StateInfo : Type 0 where
  pub underlying_balance : ℕ
  pub total_borrows : ℕ
  pub total_reserves : ℕ
  pub borrow_index : ℕ
  pub total_supply : ℕ
  pub accrual_block : ℕ
  pub config : Config

module _ {H C S : Type 0} (d : Deps H C) where
  -- `AuthenticatedUser::authenticate`
  unfoldable pub authenticate : State C S → AuthMethod H → MarketPermissions → Result C
  authenticate s (permit text) permission = do
    self_ref ← load_self_ref d s
    address ← d.validate_permit text self_ref.address permission
    d.canonize address
  authenticate s (viewing_key address key) permission = do
    a ← d.canonize address
    d.auth_viewing_key key a
    ok a
  authenticate s (internal address key) permission = do check_master_key d s key; d.canonize address

  module _ ⦃w : Uint256⦄ ⦃dec : Decimals⦄ where
    -- The balance of the market, and the interest at a block.
    unfoldable pub interest_at : State C S → (block : Option ℕ) → Result (ℕ × AccruedInterest)
    interest_at s block = do
      self_ref ← load_self_ref d s
      balance ← underlying_balance d s self_ref.address
      interest ← accrued_interest_at d s block balance
      ok (balance, interest)

    unfoldable pub query_state : State C S → (block : Option ℕ) → Result StateInfo
    query_state s block = do
      (balance, interest) ← interest_at s block
      config ← load_config s
      ok (record {
        underlying_balance = balance;
        total_borrows = interest.total_borrows;
        total_reserves = interest.total_reserves;
        borrow_index = interest.borrow_index;
        total_supply = s.total_supply;
        accrual_block = s.accrual_block;
        config = config;
      })

    unfoldable pub query_borrow_rate : State C S → (block : Option ℕ) → Result ℕ
    query_borrow_rate s block = do
      (balance, interest) ← interest_at s block
      interest_model ← load_interest_model d s
      size ← dec.from_uint256 balance
      borrows ← dec.from_uint256 interest.total_borrows
      reserves ← dec.from_uint256 interest.total_reserves
      d.borrow_rate interest_model size borrows reserves

    unfoldable pub query_supply_rate : State C S → (block : Option ℕ) → Result ℕ
    query_supply_rate s block = do
      (balance, interest) ← interest_at s block
      interest_model ← load_interest_model d s
      size ← dec.from_uint256 balance
      borrows ← dec.from_uint256 interest.total_borrows
      reserves ← dec.from_uint256 interest.total_reserves
      config ← load_config s
      d.supply_rate interest_model size borrows reserves config.reserve_factor

    unfoldable pub query_exchange_rate : State C S → (block : Option ℕ) → Result ℕ
    query_exchange_rate s block = do
      (balance, interest) ← interest_at s block
      calc_exchange_rate s balance interest.total_borrows interest.total_reserves

    module _ ⦃ec : Eq C⦄ where
      unfoldable pub query_balance : State C S → (address : H) → (key : String) → Result ℕ
      query_balance s address key = do
        a ← authenticate s (viewing_key address key) balance_permission
        ok (w.low_u128 (get_balance s a))

      unfoldable pub query_balance_underlying :
          State C S → AuthMethod H → (block : Option ℕ) → Result ℕ
      query_balance_underlying s method block = do
        a ← authenticate s method balance_permission
        rate ← query_exchange_rate s block
        amount ← dec.decimal_mul (get_balance s a) rate
        ok (w.low_u128 amount)

      unfoldable pub simulate_seize : State C S → (key : String) → (borrower : H) → ℕ → Result ℕ
      simulate_seize s key borrower amount = do
        check_master_key d s key
        a ← d.canonize borrower
        ok (can_subtract s a amount)

      module _ ⦃it : Iterable S (BorrowSnapshot C)⦄ where
        unfoldable pub query_account :
            State C S → AuthMethod H → (block : Option ℕ) → Result AccountInfo
        query_account s method block = do
          a ← authenticate s method account_info
          (balance, interest) ← interest_at s block
          snapshot ← get_borrow_snapshot s a
          borrow_balance ← current_balance snapshot interest.borrow_index
          rate ← calc_exchange_rate s balance interest.total_borrows interest.total_reserves
          ok (record {
            sl_token_balance = get_balance s a;
            borrow_balance = borrow_balance;
            exchange_rate = rate;
          })

        unfoldable pub simulate_liquidation :
            ⦃e : Eq H⦄
            → State C S
            → (block : ℕ) → (borrower : String) → (collateral : H) → ℕ
            → Result SimulateLiquidationResult
        simulate_liquidation ⦃e⦄ s block id collateral amount = do
          (_, interest) ← interest_at s (some block)
          borrower ← from_id s id
          snapshot ← get_borrow_snapshot s borrower
          borrower_address ← d.humanize borrower
          overseer ← load_overseer d s
          balance ← current_balance snapshot interest.borrow_index
          assert_liquidate_allowed d s overseer borrower_address balance block amount
          this ← load_self_ref d s
          seize_amount ← d.seize_amount overseer this.address collateral amount
          shortfall ←
              (if e.beq this.address collateral
                then ok (can_subtract s borrower seize_amount)
                else (do
                  market ← d.market overseer collateral
                  key ← load_master_key s
                  d.simulate_seize market key borrower_address seize_amount))
          ok (record { seize_amount = seize_amount; shortfall = shortfall })
