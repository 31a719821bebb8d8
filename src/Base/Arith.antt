-- ===== src/Base/Arith.antt =====
-- Products and quotients of natural numbers.
use Prim.Native.Nat.{ℕ, ◌*◌, ◌/◌, ◌≤◌}
use native.Mathlib.Omega.{arith}
use native.Mathlib.Nat.{div-add-mod, le_refl}

pub mul_mono : (a b c d : ℕ) → a ≤ b → c ≤ d → a * c ≤ b * d
mul_mono a b c d h k = grind arith

pub div-mul-le : (n d : ℕ) → d * (n / d) ≤ n
div-mul-le n d = omega (arith, div-add-mod n d)

-- At most `d` parts of an equal division.
pub parts-le : (k d n : ℕ) → k ≤ d → k * (n / d) ≤ n
parts-le k d n h = omega (arith, mul_mono k d (n / d) (n / d) h (le_refl (n / d)), div-mul-le n d)

pub div-le : (n d : ℕ) → n / d ≤ n
div-le n d = grind arith

pub div_mono : (n m d : ℕ) → n ≤ m → n / d ≤ m / d
div_mono n m d h = grind arith
