-- ===== src/Lend/Market/Token.antt =====
-- contracts/lend/market: the token of the market (token.rs), and the checks (checks.rs).
use sienna_network.Base.{
  ℕ, ◌+◌, none, some, List, [], ◌∷◌, Result, ok, ◌>>=◌, ◌>>◌, guard, not, ltb, ◌==◌, generic, lend,
  cap_overflow, cap_reached, shortfall, zero_repay, not_liquidatable, repay_too_high, low_supply,
  redeem_refused, if◌then◌else◌, Eq, Uint256, Decimals, u256_mod, ContractLink,
}
use sienna_network.Lend.Market.Storage.{
  State, Deps, Env, Msg, transfer, load_config, load_master_key, load_overseer, load_underlying,
  underlying_balance,
}
use sienna_network.Lend.Market.Interest.{
  LatestInterest, latest_borrows, latest_reserves, accrue_interest,
}
use sienna_network.Lend.Market.Accounts.{add_to, subtract_from}

-- `assert_can_withdraw`
unfoldable pub assert_can_withdraw : (balance amount : ℕ) → Result (Unit {0})
assert_can_withdraw balance amount =
    guard (not (ltb balance amount)) (generic (lend (low_supply balance amount)))

module _ {C S : Type 0} ⦃w : Uint256⦄ where
  -- `TotalBorrows` and `TotalSupply`: `increase` and `decrease`
  unfoldable pub increase_borrows : State C S → ℕ → Result (State C S)
  increase_borrows s amount = do
    new ← w.add s.total_borrows amount
    ok (record s { total_borrows = new })

  unfoldable pub decrease_borrows : State C S → ℕ → Result (State C S)
  decrease_borrows s amount = do
    new ← w.sub s.total_borrows amount
    ok (record s { total_borrows = new })

  unfoldable pub increase_supply : State C S → ℕ → Result (State C S)
  increase_supply s amount = do
    new ← w.add s.total_supply amount
    ok (record s { total_supply = new })

  unfoldable pub decrease_supply : State C S → ℕ → Result (State C S)
  decrease_supply s amount = do
    new ← w.sub s.total_supply amount
    ok (record s { total_supply = new })

  -- `calc_exchange_rate`
  unfoldable pub calc_exchange_rate :
      ⦃dec : Decimals⦄ → State C S → (balance total_borrows total_reserves : ℕ) → Result ℕ
  calc_exchange_rate ⦃dec⦄ s balance total_borrows total_reserves =
      if s.total_supply == 0
      then (load_config s >>= λ config. ok config.initial_exchange_rate)
      else (do
        assets ← w.add balance total_borrows
        net ← w.sub assets total_reserves
        dec.from_ratio net s.total_supply)

module _ {H C S : Type 0} (d : Deps H C) where
  -- Fails where the cap is exceeded.
  unfoldable pub assert_cap : State C S → (amount : ℕ) → Result (Unit {0})
  assert_cap s amount = elim s.borrow_cap [
    | none ↦ ok tt
    | some cap ↦
        guard (ltb (s.total_borrows + amount) u256_mod) (generic (lend cap_overflow))
        >> guard (not (ltb cap (s.total_borrows + amount))) (generic (lend cap_reached))
  ]

  -- `assert_borrow_allowed`
  unfoldable pub assert_borrow_allowed :
      State C S → (sender : H) → (block : ℕ) → (self_addr : H) → (amount : ℕ) → Result (Unit {0})
  assert_borrow_allowed s sender block self_addr amount = do
    assert_cap s amount
    overseer ← load_overseer d s
    key ← load_master_key s
    liquidity ← d.account_liquidity overseer key sender (some self_addr) (some block) 0 amount
    guard (not (ltb 0 liquidity.shortfall)) (generic (lend (shortfall liquidity.shortfall)))

  -- `assert_liquidate_allowed`
  unfoldable pub assert_liquidate_allowed :
      ⦃dec : Decimals⦄
      → State C S
      → (overseer : ContractLink H) → (borrower : H) → (borrower_balance block amount : ℕ)
      → Result (Unit {0})
  assert_liquidate_allowed ⦃dec⦄ s overseer borrower borrower_balance block amount = do
    guard (not (amount == 0)) (generic (lend zero_repay))
    key ← load_master_key s
    liquidity ← d.account_liquidity overseer key borrower none (some block) 0 0
    guard (not (liquidity.shortfall == 0)) (generic (lend not_liquidatable))
    close_factor ← d.close_factor overseer
    max ← dec.decimal_mul borrower_balance close_factor
    guard (not (ltb max amount)) (generic (lend (repay_too_high amount max)))

-- What is paid and what is burned.
unfoldable pub redeem_amounts :
    ⦃dec : Decimals⦄ → (rate from_sl_token from_underlying : ℕ) → Result (ℕ × ℕ)
redeem_amounts ⦃dec⦄ rate from_sl_token from_underlying =
    if ltb 0 from_sl_token
    then (dec.decimal_mul from_sl_token rate >>= λ redeem_amount. ok (redeem_amount, from_sl_token))
    else (dec.decimal_div from_underlying rate >>= λ burn_amount. ok (from_underlying, burn_amount))

module _ {H C S : Type 0} ⦃ec : Eq C⦄ ⦃w : Uint256⦄ ⦃dec : Decimals⦄ (d : Deps H C) where
  -- `token::deposit`
  unfoldable pub deposit :
      State C S → LatestInterest → (balance : ℕ) → (from : H) → (amount : ℕ) → Result (State C S)
  unfolding latest_borrows latest_reserves
  deposit s interest balance from amount = do
    rate ← calc_exchange_rate s balance (latest_borrows interest s) (latest_reserves interest s)
    mint_amount ← dec.decimal_div amount rate
    s' ← increase_supply s mint_amount
    a ← d.canonize from
    add_to s' a mint_amount

  -- `token::redeem`
  unfoldable pub redeem :
      Env H → State C S → (from_sl_token from_underlying : ℕ) → Result (State C S × List (Msg H))
  redeem env s from_sl_token from_underlying = do
    underlying ← load_underlying d s
    balance ← underlying_balance d s env.contract.address
    (accrued, latest) ← accrue_interest d s env.block balance
    rate ←
        calc_exchange_rate accrued balance (latest_borrows latest accrued)
          (latest_reserves latest accrued)
    (redeem_amount, burn_amount) ← redeem_amounts rate from_sl_token from_underlying
    assert_can_withdraw balance redeem_amount
    overseer ← load_overseer d accrued
    key ← load_master_key accrued
    clamped ← w.clamp_u128 burn_amount
    allowed ← d.can_transfer overseer key env.sender env.contract.address env.block clamped
    guard allowed (generic (lend redeem_refused))
    s' ← decrease_supply accrued burn_amount
    a ← d.canonize env.sender
    s'' ← subtract_from s' a burn_amount
    paid ← w.clamp_u128 redeem_amount
    ok (s'', transfer env.sender paid underlying ∷ [])
