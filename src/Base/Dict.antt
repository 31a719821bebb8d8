-- ===== src/Base/Dict.antt =====
-- A part of storage under a key prefix: a map that gives `missing` for what was never written.
use Prim.Native.Nat.{ℕ, ◌+◌, ◌≤◌}
use mathlib.Core.Path.{◌≡◌, refl}
use mathlib.Core.List.{List, [], ◌∷◌}
use native.Mathlib.Omega.{arith}
use sienna_network.Base.Tests.{Eq, if◌then◌else◌, Bool-cases}
use mathlib.Core.Logic.{inl, inr}

abbrev pub Dict : Type 0 → Type 0 → Type 0
Dict K V = List (K × V)

-- The sum of a measure of the values.
unfoldable pub total : {K V : Type 0} → (V → ℕ) → Dict K V → ℕ
total f [] = 0
total f ((j, v) ∷ d) = f v + total f d

module _ {K V : Type 0} ⦃e : Eq K⦄ where
  unfoldable pub get : V → K → Dict K V → V
  get missing k [] = missing
  get missing k ((j, v) ∷ d) = if e.beq j k then v else get missing k d

  unfoldable pub put : K → V → Dict K V → Dict K V
  put k v [] = (k, v) ∷ []
  put k v ((j, w) ∷ d) = if e.beq j k then (k, v) ∷ d else (j, w) ∷ put k v d

  pub get-put :
      (missing : V) (j k : K) (v : V) (d : Dict K V)
      → get missing j (put k v d) ≡ (if e.beq k j then v else get missing j d)
  unfolding get put
  get-put missing j k v [] = refl
  get-put missing j k v ((i, w) ∷ d) =
      ground
        (arith, e.beq_iff k j, e.beq_iff i k, e.beq_iff i j, e.beq_iff j j, get-put missing j k v d)

  -- Writing a value moves the sum by the difference to the value before.
  pub total-put :
      (f : V → ℕ) (missing : V) (k : K) (v : V) (d : Dict K V)
      → f missing ≡ 0
      → total f (put k v d) + f (get missing k d) ≡ total f d + f v
  unfolding total get put
  total-put f missing k v [] z = omega arith
  total-put f missing k v ((j, w) ∷ d) z = elim (Bool-cases (e.beq j k)) [
    | inl q ↦ rw q (omega arith)
    | inr q ↦ rw q (omega (arith, total-put f missing k v d z))
  ]

  -- A value is at most the sum.
  pub get-le-total :
      (f : V → ℕ) (missing : V) (k : K) (d : Dict K V)
      → f missing ≡ 0
      → f (get missing k d) ≤ total f d
  unfolding total get
  get-le-total f missing k [] z = omega arith
  get-le-total f missing k ((j, w) ∷ d) z = elim (Bool-cases (e.beq j k)) [
    | inl q ↦ rw q (omega arith)
    | inr q ↦ rw q (omega (arith, get-le-total f missing k d z))
  ]
