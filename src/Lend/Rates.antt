-- ===== src/Lend/Rates.antt =====
-- libraries/lend-shared/src/core/interest.rs, the jump rate model, and contracts/lend/interest_model, the
-- contract that stores one.
use sienna_network.Base.{
  ℕ, Option, some, unwrap_or, Result, ok, ◌>>=◌, ◌>>◌, or_fail, panic, unwrap_none, leb, ◌==◌,
  if◌then◌else◌, Decimals, decimal_one,
}

abbrev pub blocks_per_year : ℕ
blocks_per_year = 5259600

-- `JumpRateInterest`; every field is a decimal.
pub record JumpRateInterest : Type 0 where
  pub multiplier_block : ℕ
  pub jump_multiplier_block : ℕ
  pub base_rate_block : ℕ
  pub jump_threshold : ℕ

module _ ⦃dec : Decimals⦄ where
  unfoldable pub utilization_rate : (market_size num_borrows reserves : ℕ) → Result ℕ
  utilization_rate market_size num_borrows reserves =
      if num_borrows == 0 then ok num_borrows else (do
        scaled ← dec.mul num_borrows decimal_one
        sum ← dec.add market_size num_borrows
        supplied ← dec.sub sum reserves
        dec.div scaled supplied)

  -- `JumpRateInterest::v1`
  unfoldable pub v1 :
      (base_rate_year multiplier_year jump_multiplier_year jump_threshold : ℕ)
      → (blocks_year : Option ℕ) → Result JumpRateInterest
  v1 base_rate_year multiplier_year jump_multiplier_year jump_threshold blocks_year = do
    blocks ← dec.from_uint256 (unwrap_or blocks_year blocks_per_year)
    base ← dec.div base_rate_year blocks
    multiplier ← dec.div multiplier_year blocks
    jump ← dec.div jump_multiplier_year blocks
    ok (record {
      multiplier_block = multiplier;
      jump_multiplier_block = jump;
      base_rate_block = base;
      jump_threshold = jump_threshold;
    })

  -- `JumpRateInterest::v2`
  unfoldable pub v2 :
      (base_rate_year multiplier_year jump_multiplier_year jump_threshold : ℕ)
      → (blocks_year : Option ℕ) → Result JumpRateInterest
  v2 base_rate_year multiplier_year jump_multiplier_year jump_threshold blocks_year = do
    blocks ← dec.from_uint256 (unwrap_or blocks_year blocks_per_year)
    base ← dec.div base_rate_year blocks
    scaled ← dec.mul multiplier_year decimal_one
    until_jump ← dec.mul blocks jump_threshold
    multiplier ← dec.div scaled until_jump
    jump ← dec.div jump_multiplier_year blocks
    ok (record {
      multiplier_block = multiplier;
      jump_multiplier_block = jump;
      base_rate_block = base;
      jump_threshold = jump_threshold;
    })

  -- `a * b / one`, as both rates write it.
  abbrev pub scaled_mul : ℕ → ℕ → Result ℕ
  scaled_mul a b = dec.mul a b >>= λ p. dec.div p decimal_one

  -- The slope up to a utilization, from the base.
  unfoldable pub normal_rate : JumpRateInterest → (util : ℕ) → Result ℕ
  normal_rate m util = do
    sloped ← scaled_mul util m.multiplier_block
    dec.add sloped m.base_rate_block

  -- `JumpRateInterest::borrow_rate`
  unfoldable pub borrow_rate : JumpRateInterest → (market_size num_borrows reserves : ℕ) → Result ℕ
  unfolding normal_rate
  borrow_rate m market_size num_borrows reserves = do
    util ← utilization_rate market_size num_borrows reserves
    (if leb util m.jump_threshold then normal_rate m util else (do
      normal ← normal_rate m m.jump_threshold
      excess ← dec.sub util m.jump_threshold
      steep ← scaled_mul excess m.jump_multiplier_block
      dec.add steep normal))

  -- `JumpRateInterest::supply_rate`
  unfoldable pub supply_rate :
      JumpRateInterest → (market_size num_borrows reserves reserve_factor : ℕ) → Result ℕ
  supply_rate m market_size num_borrows reserves reserve_factor = do
    to_suppliers ← dec.sub decimal_one reserve_factor
    rate ← borrow_rate m market_size num_borrows reserves
    rate_to_pool ← scaled_mul rate to_suppliers
    util ← utilization_rate market_size num_borrows reserves
    scaled_mul util rate_to_pool

  -- The contract: `new` and `update_config` store a model, and the queries read it.
  unfoldable pub update_config :
      (assert_admin : Result (Unit {0}))
      → (base_rate_year multiplier_year jump_multiplier_year jump_threshold : ℕ)
      → (blocks_year : Option ℕ) → Result (Option JumpRateInterest)
  update_config assert_admin base multiplier jump threshold blocks_year = do
    assert_admin
    model ← v1 base multiplier jump threshold blocks_year
    ok (some model)

  unfoldable pub query_borrow_rate :
      Option JumpRateInterest → (market_size num_borrows reserves : ℕ) → Result ℕ
  query_borrow_rate stored market_size num_borrows reserves = do
    model ← or_fail stored (panic unwrap_none)
    borrow_rate model market_size num_borrows reserves

  unfoldable pub query_supply_rate :
      Option JumpRateInterest → (market_size num_borrows reserves reserve_factor : ℕ) → Result ℕ
  query_supply_rate stored market_size num_borrows reserves reserve_factor = do
    model ← or_fail stored (panic unwrap_none)
    supply_rate model market_size num_borrows reserves reserve_factor
