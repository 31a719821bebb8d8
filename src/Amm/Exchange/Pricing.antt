-- ===== src/Amm/Exchange/Pricing.antt =====
-- The arithmetic of contracts/amm/exchange/src/contract.rs: fees, swaps, shares and slippage.
use sienna_network.Base.{
  ℕ, Bool, true, false, Option, none, some, Result, ok, err, ◌>>=◌, ◌>>◌, guard, generic,
  slippage_range, slippage_exceeded, ◌==◌, if◌then◌else◌, not, ◌||◌, min, Uint256, Decimal256,
}
use sienna_network.Amm.Tokens.{Fee}

pub record SwapResult : Type 0 where
  pub return_amount : ℕ
  pub spread_amount : ℕ

-- `unwrap_or(Uint256::zero())`
abbrev pub or_zero : Result ℕ → ℕ
or_zero (ok n) = n
or_zero (err e) = 0

module _ ⦃w : Uint256⦄ where
  unfoldable pub percentage_decrease : ℕ → Fee → Result ℕ
  percentage_decrease amount fee = do
    scaled ← w.mul amount fee.nom
    decrease_amount ← w.div scaled fee.denom
    w.clamp_u128 decrease_amount

  unfoldable pub compute_swap : ℕ → ℕ → ℕ → Result SwapResult
  compute_swap offer_pool ask_pool offer_amount = do
    total_pool ← w.mul offer_pool ask_pool
    grown ← w.add offer_pool offer_amount
    kept ← w.div total_pool grown
    return_amount ← w.sub ask_pool kept
    gross ← w.mul offer_amount ask_pool
    spread_amount ← w.div gross offer_pool
    paid ← w.clamp_u128 return_amount
    spread ← w.clamp_u128 (or_zero (w.sub spread_amount return_amount))
    ok (record { return_amount = paid; spread_amount = spread })

  -- The shares of the first deposit.
  unfoldable pub first_shares : ℕ → ℕ → Result ℕ
  first_shares amount_0 amount_1 = do
    product ← w.mul amount_0 amount_1
    root ← w.sqrt product
    w.clamp_u128 root

  -- The share of one token of a later deposit.
  unfoldable pub share_of : ℕ → ℕ → ℕ → Result ℕ
  share_of amount total_share pool = do scaled ← w.mul amount total_share; w.div scaled pool

  unfoldable pub lp_tokens : ℕ → ℕ × ℕ → ℕ × ℕ → Result ℕ
  lp_tokens liquidity_supply deposits pool_balances =
      if liquidity_supply == 0 then first_shares deposits.0 deposits.1 else (do
        share_0 ← share_of deposits.0 liquidity_supply pool_balances.0
        share_1 ← share_of deposits.1 liquidity_supply pool_balances.1
        w.clamp_u128 (min share_0 share_1))

  -- What a share of the liquidity is worth in one token.
  unfoldable pub withdrawn : ℕ → ℕ → ℕ → Result ℕ
  withdrawn pool_amount withdraw_amount total_liquidity = do
    scaled ← w.mul pool_amount withdraw_amount
    part ← w.div scaled total_liquidity
    w.clamp_u128 part

-- `D` is the type of decimals.
module _ {D : Type 0} ⦃dec : Decimal256 D⦄ where
  unfoldable pub cmp_ratio : D → ℕ → ℕ → Result Bool
  cmp_ratio price pool_0 pool_1 =
      if pool_1 == 0
      then ok false
      else (do ratio ← dec.from_ratio pool_0 pool_1; ok (dec.gt price ratio))

  unfoldable pub assert_slippage_tolerance : Option D → ℕ × ℕ → ℕ × ℕ → Result (Unit {0})
  unfolding cmp_ratio
  assert_slippage_tolerance none deposits pools = ok tt
  assert_slippage_tolerance (some slippage) deposits pools = do
    guard (not (dec.is_zero slippage || dec.ge slippage dec.one)) (generic slippage_range)
    one_minus_slippage_tolerance ← dec.sub dec.one slippage
    ratio_0 ← dec.from_ratio deposits.0 deposits.1
    price_0 ← dec.mul ratio_0 one_minus_slippage_tolerance
    ratio_1 ← dec.from_ratio deposits.1 deposits.0
    price_1 ← dec.mul ratio_1 one_minus_slippage_tolerance
    dropped_0 ← cmp_ratio price_0 pools.0 pools.1
    dropped ← elim dropped_0 [ true ↦ ok true | false ↦ cmp_ratio price_1 pools.1 pools.0 ]
    guard (not dropped) (generic slippage_exceeded)
