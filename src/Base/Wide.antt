-- ===== src/Base/Wide.antt =====
-- `Uint256` and `Decimal256` of fadroma, which the repository does not hold: their operators are
-- parameters of what uses them, with their documented behaviour. Every operator returns a result.
use Prim.Native.Nat.{ℕ, suc, ◌+◌, ◌-◌, ◌*◌, ◌/◌, ◌%◌, ◌^◌, ◌<◌, ◌≤◌}
use Prim.Native.Nat.{zero, min}
use mathlib.Core.Path.{◌≡◌, ap, refl}
use mathlib.Core.Logic.{◌≢◌}
use mathlib.Core.Bool.{Bool}
use native.Mathlib.Omega.{arith}
use sienna_network.Base.Tests.{leb, if◌then◌else◌}
use sienna_network.Base.Outcome.{Result, ok, ok-injective, ◌>>=◌, >>=-elim}
use sienna_network.Base.Checked.{
  u128_mod, checked, sub_checked, div_checked, sub_fits, div_fits, sub-eq-ok,
}

unfoldable pub u256_mod : ℕ
u256_mod = 2 ^ 256

pub record Uint256 : Type 0 where
  pub add : ℕ → ℕ → Result ℕ
  pub sub : ℕ → ℕ → Result ℕ
  pub mul : ℕ → ℕ → Result ℕ
  pub div : ℕ → ℕ → Result ℕ
  pub sqrt : ℕ → Result ℕ
  pub clamp_u128 : ℕ → Result ℕ
  -- `multiply_ratio n a b` is n * a / b.
  pub multiply_ratio : ℕ → ℕ → ℕ → Result ℕ
  pub low_u128 : ℕ → ℕ
  pub add_fits : (a b : ℕ) → a + b < u256_mod → add a b ≡ ok (a + b)
  pub add-eq-ok : (a b c : ℕ) → add a b ≡ ok c → c ≡ a + b
  pub sub_fits : (a b : ℕ) → b ≤ a → sub a b ≡ ok (a - b)
  pub sub-eq-ok : (a b c : ℕ) → sub a b ≡ ok c → (b ≤ a) × (c + b ≡ a)
  pub mul_fits : (a b : ℕ) → a * b < u256_mod → mul a b ≡ ok (a * b)
  pub mul-eq-ok : (a b c : ℕ) → mul a b ≡ ok c → c ≡ a * b
  pub div_fits : (a b : ℕ) → b ≢ 0 → div a b ≡ ok (a / b)
  pub div-eq-ok : (a b c : ℕ) → div a b ≡ ok c → (b ≢ 0) × (c ≡ a / b)
  pub sqrt-eq-ok : (n r : ℕ) → sqrt n ≡ ok r → (r * r ≤ n) × (n < suc r * suc r)
  -- What fits a u128 is kept, and nothing grows.
  pub clamp_fits : (n : ℕ) → n < u128_mod → clamp_u128 n ≡ ok n
  pub clamp-eq-ok : (n c : ℕ) → clamp_u128 n ≡ ok c → c ≤ n
  pub multiply_ratio_fits :
      (n a b : ℕ) → b ≢ 0 → n * a < u256_mod → multiply_ratio n a b ≡ ok (n * a / b)
  pub multiply_ratio-eq-ok : (n a b c : ℕ) → multiply_ratio n a b ≡ ok c → (b ≢ 0) × (c ≡ n * a / b)
  pub low_u128_lem : (n : ℕ) → low_u128 n ≡ n % u128_mod

-- The behaviour can be met. The root is searched from below.
unfoldable pub root : ℕ → ℕ
root zero = 0
root (suc n) = let r = root n in if leb (suc r * suc r) (suc n) then suc r else r

root_step :
    (n r : ℕ)
    → r * r ≤ n
    → n < suc r * suc r
    → let s = if leb (suc r * suc r) (suc n) then suc r else r in
      (s * s ≤ suc n) × (suc n < suc s * suc s)
root_step n r low high = ground arith

root_bounds : (n : ℕ) → (root n * root n ≤ n) × (n < suc (root n) * suc (root n))
unfolding root
root_bounds zero = (omega arith, omega arith)
root_bounds (suc n) = let (low, high) = root_bounds n in root_step n (root n) low high

pub checked_fits : (limit n : ℕ) → n < limit → checked limit n ≡ ok n
unfolding checked
checked_fits limit n h = ground arith

pub checked-eq-ok : (limit n c : ℕ) → checked limit n ≡ ok c → c ≡ n
unfolding checked
checked-eq-ok limit n c h = ground arith

pub div-eq-ok : (a b c : ℕ) → div_checked a b ≡ ok c → (b ≢ 0) × (c ≡ a / b)
unfolding div_checked
div-eq-ok a b c h = ground arith

pub root-eq-ok : (n r : ℕ) → ok (root n) ≡ ok r → (r * r ≤ n) × (n < suc r * suc r)
root-eq-ok n r h = rw (← ok-injective h) (root_bounds n)

-- The largest u128 that is not above `n`.
abbrev pub clamped : ℕ → ℕ
clamped n = min n (u128_mod - 1)

pub clamped_same : (n : ℕ) → n < u128_mod → clamped n ≡ n
clamped_same n h = omega arith

pub clamped-le : (n c : ℕ) → ok (clamped n) ≡ ok c → c ≤ n
clamped-le n c h = rw (← ok-injective h) (omega arith)

abbrev pub ratio_of : ℕ → ℕ → ℕ → Result ℕ
ratio_of n a b = checked u256_mod (n * a) >>= λ p. div_checked p b

pub ratio_of_fits : (n a b : ℕ) → b ≢ 0 → n * a < u256_mod → ratio_of n a b ≡ ok (n * a / b)
ratio_of_fits n a b h fits = rw (checked_fits u256_mod (n * a) fits) (div_fits (n * a) b h)

pub ratio_of-eq-ok : (n a b c : ℕ) → ratio_of n a b ≡ ok c → (b ≢ 0) × (c ≡ n * a / b)
ratio_of-eq-ok n a b c h =
    >>=-elim (checked u256_mod (n * a)) _ h
      λ p e rest. rw (← checked-eq-ok u256_mod (n * a) p e) (div-eq-ok p b c rest)

abbrev pub checked_uint256 : Uint256
checked_uint256 = record {
  add = λ a b. checked u256_mod (a + b);
  sub = sub_checked;
  mul = λ a b. checked u256_mod (a * b);
  div = div_checked;
  sqrt = λ n. ok (root n);
  clamp_u128 = λ n. ok (clamped n);
  multiply_ratio = ratio_of;
  low_u128 = λ n. n % u128_mod;
  add_fits = λ a b h. checked_fits u256_mod (a + b) h;
  add-eq-ok = λ a b c h. checked-eq-ok u256_mod (a + b) c h;
  sub_fits = sub_fits;
  sub-eq-ok = λ a b c h. sub-eq-ok a b h;
  mul_fits = λ a b h. checked_fits u256_mod (a * b) h;
  mul-eq-ok = λ a b c h. checked-eq-ok u256_mod (a * b) c h;
  div_fits = div_fits;
  div-eq-ok = div-eq-ok;
  sqrt-eq-ok = root-eq-ok;
  clamp_fits = λ n h. ap ok (clamped_same n h);
  clamp-eq-ok = clamped-le;
  multiply_ratio_fits = ratio_of_fits;
  multiply_ratio-eq-ok = ratio_of-eq-ok;
  low_u128_lem = λ n. refl;
}

-- `D` is the type of the decimals.
pub record Decimal256 (D : Type 0) : Type 0 where
  pub one : D
  pub is_zero : D → Bool
  -- `from_ratio(a, b)` is a / b.
  pub from_ratio : ℕ → ℕ → Result D
  pub mul : D → D → Result D
  pub sub : D → D → Result D
  -- `gt a b` is `a > b`, `ge a b` is `a >= b`.
  pub gt : D → D → Bool
  pub ge : D → D → Bool

-- `Decimal` of cosmwasm_std. `from_ratio a b` is a / b.
pub record Decimal (D : Type 0) : Type 0 where
  pub from_ratio : ℕ → ℕ → Result D
  pub percent : ℕ → D
  -- `gt a b` is `a > b`.
  pub gt : D → D → Bool
