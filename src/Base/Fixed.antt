-- ===== src/Base/Fixed.antt =====
-- `Decimal256` of fadroma, by the number of 10 ^ -18ths that it wraps, with the operators between it and
-- `Uint256`. Its comparisons are those of the wrapped numbers. Every operator returns a result.
use Prim.Native.Nat.{ℕ, ◌+◌, ◌*◌, ◌/◌, ◌≤◌}
use mathlib.Core.Path.{◌≡◌}
use mathlib.Core.Logic.{◌≢◌}
use sienna_network.Base.Outcome.{Result, ok}
use sienna_network.Base.Checked.{sub_checked, checked, sub-eq-ok}
use sienna_network.Base.Wide.{u256_mod, checked-eq-ok, ratio_of, ratio_of-eq-ok}

-- `Decimal256::one()`
unfoldable pub decimal_one : ℕ
decimal_one = 1_000_000_000_000_000_000

pub record Decimals : Type 0 where
  pub add : ℕ → ℕ → Result ℕ
  pub sub : ℕ → ℕ → Result ℕ
  pub mul : ℕ → ℕ → Result ℕ
  pub div : ℕ → ℕ → Result ℕ
  pub from_uint256 : ℕ → Result ℕ
  pub from_ratio : ℕ → ℕ → Result ℕ
  -- Of a `Uint256` and a decimal.
  pub decimal_mul : ℕ → ℕ → Result ℕ
  pub decimal_div : ℕ → ℕ → Result ℕ
  pub add-eq-ok : (a b c : ℕ) → add a b ≡ ok c → c ≡ a + b
  pub sub-eq-ok : (a b c : ℕ) → sub a b ≡ ok c → (b ≤ a) × (c + b ≡ a)
  pub mul-eq-ok : (a b c : ℕ) → mul a b ≡ ok c → c ≡ a * b / decimal_one
  pub div-eq-ok : (a b c : ℕ) → div a b ≡ ok c → (b ≢ 0) × (c ≡ a * decimal_one / b)
  pub from_uint256-eq-ok : (n c : ℕ) → from_uint256 n ≡ ok c → c ≡ n * decimal_one
  pub from_ratio-eq-ok : (a b c : ℕ) → from_ratio a b ≡ ok c → (b ≢ 0) × (c ≡ a * decimal_one / b)
  pub decimal_mul-eq-ok : (n d c : ℕ) → decimal_mul n d ≡ ok c → c ≡ n * d / decimal_one
  pub decimal_div-eq-ok : (n d c : ℕ) → decimal_div n d ≡ ok c → (d ≢ 0) × (c ≡ n * decimal_one / d)

decimal_one_ne : decimal_one ≢ 0
unfolding decimal_one
decimal_one_ne h = cc

-- The behaviour can be met.
abbrev pub checked_decimals : Decimals
checked_decimals = record {
  add = λ a b. checked u256_mod (a + b);
  sub = sub_checked;
  mul = λ a b. ratio_of a b decimal_one;
  div = λ a b. ratio_of a decimal_one b;
  from_uint256 = λ n. checked u256_mod (n * decimal_one);
  from_ratio = λ a b. ratio_of a decimal_one b;
  decimal_mul = λ n d. ratio_of n d decimal_one;
  decimal_div = λ n d. ratio_of n decimal_one d;
  add-eq-ok = λ a b c h. checked-eq-ok u256_mod (a + b) c h;
  sub-eq-ok = λ a b c h. sub-eq-ok a b h;
  mul-eq-ok = λ a b c h. (ratio_of-eq-ok a b decimal_one c h).1;
  div-eq-ok = λ a b c h. ratio_of-eq-ok a decimal_one b c h;
  from_uint256-eq-ok = λ n c h. checked-eq-ok u256_mod (n * decimal_one) c h;
  from_ratio-eq-ok = λ a b c h. ratio_of-eq-ok a decimal_one b c h;
  decimal_mul-eq-ok = λ n d c h. (ratio_of-eq-ok n d decimal_one c h).1;
  decimal_div-eq-ok = λ n d c h. ratio_of-eq-ok n decimal_one d c h;
}
