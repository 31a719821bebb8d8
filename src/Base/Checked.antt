-- ===== src/Base/Checked.antt =====
-- Rust's u64 and u128 arithmetic. The workspace's release profile sets `overflow-checks = true` and
-- `panic = 'abort'` (Cargo.toml), so an operation that leaves the range aborts the transaction.
use Prim.Native.Nat.{ℕ, ◌+◌, ◌-◌, ◌*◌, ◌/◌, ◌^◌, ◌<◌, ◌≤◌}
use mathlib.Core.Path.{◌≡◌, ap, refl, ◌∙◌}
use mathlib.Core.Logic.{◌≢◌}
use native.Mathlib.Omega.{arith}
use sienna_network.Base.Tests.{ltb, leb, ◌==◌, if◌then◌else◌}
use sienna_network.Base.Outcome.{Result, ok, err, ◌>>=◌, >>=-eq-ok, panic, overflow, div_by_zero}
use sienna_network.Base.Lists.{All, sum_by}
use mathlib.Core.List.{List, [], ◌∷◌}

unfoldable pub u64_mod : ℕ
u64_mod = 2 ^ 64

unfoldable pub u128_mod : ℕ
u128_mod = 2 ^ 128

unfoldable pub checked : ℕ → ℕ → Result ℕ
checked limit n = if ltb n limit then ok n else err (panic overflow)

unfoldable pub add64 : ℕ → ℕ → Result ℕ
unfolding checked u64_mod
add64 a b = checked u64_mod (a + b)

unfoldable pub add128 : ℕ → ℕ → Result ℕ
unfolding checked u128_mod
add128 a b = checked u128_mod (a + b)

unfoldable pub mul128 : ℕ → ℕ → Result ℕ
unfolding checked u128_mod
mul128 a b = checked u128_mod (a * b)

unfoldable pub sub_checked : ℕ → ℕ → Result ℕ
sub_checked a b = if leb b a then ok (a - b) else err (panic overflow)

unfoldable pub div_checked : ℕ → ℕ → Result ℕ
div_checked a b = if b == 0 then err (panic div_by_zero) else ok (a / b)

pub add64_fits : (a b : ℕ) → a + b < u64_mod → add64 a b ≡ ok (a + b)
unfolding add64 checked
add64_fits a b h = ground arith

pub add128_fits : (a b : ℕ) → a + b < u128_mod → add128 a b ≡ ok (a + b)
unfolding add128 checked
add128_fits a b h = ground arith

pub mul128_fits : (a b : ℕ) → a * b < u128_mod → mul128 a b ≡ ok (a * b)
unfolding mul128 checked
mul128_fits a b h = ground arith

pub sub_fits : (a b : ℕ) → b ≤ a → sub_checked a b ≡ ok (a - b)
unfolding sub_checked
sub_fits a b h = ground arith

pub div_fits : (a b : ℕ) → b ≢ 0 → div_checked a b ≡ ok (a / b)
unfolding div_checked
div_fits a b h = ground arith

pub add128-eq-ok : (a b : ℕ) {c : ℕ} → add128 a b ≡ ok c → (c ≡ a + b) × (c < u128_mod)
unfolding add128 checked
add128-eq-ok a b h = ground arith

pub sub-eq-ok : (a b : ℕ) {c : ℕ} → sub_checked a b ≡ ok c → (b ≤ a) × (c + b ≡ a)
unfolding sub_checked
sub-eq-ok a b h = ground arith

-- `iter().fold(0, |total, x| total + f(x))` on u128.
unfoldable pub fold128 {ℓ} : {X : Type ℓ} → (X → Result ℕ) → ℕ → List X → Result ℕ
fold128 f acc [] = ok acc
fold128 f acc (x ∷ xs) = do v ← f x; total ← add128 acc v; fold128 f total xs

module _ {ℓ} {X : Type ℓ} (f : X → Result ℕ) (g : X → ℕ) where
  -- The fold returns the sum, if every term is computed and the sum fits.
  pub fold128_fits :
      (acc : ℕ) (xs : List X)
      → All (λ x. f x ≡ ok (g x)) xs
      → acc + sum_by g xs < u128_mod
      → fold128 f acc xs ≡ ok (acc + sum_by g xs)
  unfolding fold128
  fold128_fits acc [] h fits = ap ok (omega arith)
  fold128_fits acc (x ∷ xs) h fits =
      ground (arith, h.0, add128_fits acc (g x), fold128_fits (acc + g x) xs h.1)

-- A fold over plain numbers that returns has returned their sum, which fits.
pub fold128-eq-ok {ℓ} :
    {X : Type ℓ} (g : X → ℕ) (acc : ℕ) (xs : List X) {n : ℕ}
    → acc < u128_mod
    → fold128 (λ x. ok (g x)) acc xs ≡ ok n
    → (n ≡ acc + sum_by g xs) × (n < u128_mod)
unfolding fold128
fold128-eq-ok g acc [] fits h = ground arith
fold128-eq-ok g acc (x ∷ xs) fits h =
    let (total, e, rest) = >>=-eq-ok (add128 acc (g x)) (λ t. fold128 (λ y. ok (g y)) t xs) h in
    let (sum, small) = add128-eq-ok acc (g x) e in
    let (all, fit) = fold128-eq-ok g total xs small rest in (omega arith, fit)

module _ {ℓ} {X : Type ℓ} where
  pub fold128_zero_fits :
      (f : X → Result ℕ) (g : X → ℕ) (xs : List X)
      → All (λ x. f x ≡ ok (g x)) xs
      → sum_by g xs < u128_mod
      → fold128 f 0 xs ≡ ok (sum_by g xs)
  fold128_zero_fits f g xs h fits = fold128_fits f g 0 xs h (omega arith) ∙ ap ok (omega arith)

  All-plain : (g : X → ℕ) (xs : List X) → All (λ x. ok (g x) ≡ ok (g x)) xs
  All-plain g [] = tt
  All-plain g (x ∷ xs) = (refl, All-plain g xs)

  -- A fold over plain numbers returns exactly if their sum fits.
  pub fold128_plain :
      (g : X → ℕ) (xs : List X)
      → sum_by g xs < u128_mod
      → fold128 (λ x. ok (g x)) 0 xs ≡ ok (sum_by g xs)
  fold128_plain g xs = fold128_zero_fits (λ x. ok (g x)) g xs (All-plain g xs)

  pub fold128_plain-eq-ok :
      (g : X → ℕ) (xs : List X) {n : ℕ}
      → fold128 (λ x. ok (g x)) 0 xs ≡ ok n
      → (n ≡ sum_by g xs) × (n < u128_mod)
  unfolding u128_mod
  fold128_plain-eq-ok g xs h =
      let (e, fit) = fold128-eq-ok g 0 xs (omega arith) h in (omega arith, fit)

-- A fold that returns is bounded by the sum of bounds on its terms.
pub fold128-le {ℓ} :
    {X : Type ℓ} (f : X → Result ℕ) (g : X → ℕ) (acc : ℕ) (xs : List X) {n : ℕ}
    → ((x : X) (v : ℕ) → f x ≡ ok v → v ≤ g x)
    → fold128 f acc xs ≡ ok n
    → n ≤ acc + sum_by g xs
unfolding fold128
fold128-le f g acc [] bound h = ground arith
fold128-le f g acc (x ∷ xs) bound h =
    let (v, e, rest) = >>=-eq-ok (f x) (λ w. add128 acc w >>= λ t. fold128 f t xs) h in
    let (total, q, tail) = >>=-eq-ok (add128 acc v) (λ t. fold128 f t xs) rest in
    omega (arith, bound x v e, (add128-eq-ok acc v q).0, fold128-le f g total xs bound tail)
