-- ===== src/LinearMap.antt =====
-- libraries/linear-map/lib/lib.rs: a list of pairs used as a map. The first entry of a key counts.
use sienna_network.Base.{
  ℕ, zero, suc, Bool, true, false, Option, none, some, List, [], ◌∷◌, ◌++◌, Result, ok, ◌>>=◌,
  traverse, Eq, if◌then◌else◌,
}
pub mod Laws

module _ {K V : Type 0} where
  unfoldable pub new : List (K × V)
  new = []

  -- `replace(&mut self.0[index], entry)`: the list with the entry, and the value that was there.
  -- `insert` calls it at an index in range.
  unfoldable pub replace : List (K × V) → ℕ → K × V → List (K × V) × Option V
  replace [] i entry = ([], none)
  replace (old ∷ m) zero entry = (entry ∷ m, some (old.1))
  replace (old ∷ m) (suc i) entry = let (rest, value) = replace m i entry in (old ∷ rest, value)

module _ {K V : Type 0} ⦃e : Eq K⦄ where
  unfoldable pub get : K → List (K × V) → Option V
  get key [] = none
  get key ((k, v) ∷ m) = if e.beq key k then some v else get key m

  -- The loop of `insert`: the index of the first entry with the key.
  unfoldable pub find_index : K → List (K × V) → Option ℕ
  find_index key [] = none
  find_index key ((k, v) ∷ m) =
      if e.beq key k
      then some 0
      else elim (find_index key m) [ none ↦ none | some i ↦ some (suc i) ]

  unfoldable pub insert : K → V → List (K × V) → List (K × V) × Option V
  insert key value m = elim (find_index key m) [
    | some index ↦ replace m index (key, value)
    | none ↦ (m ++ (key, value) ∷ [], none)
  ]

-- `canonize` and `humanize`; `convert` is the call of the chain's `Api`.
unfoldable pub convert_keys :
    {A B V : Type 0} (convert : A → Result B) → List (A × V) → Result (List (B × V))
convert_keys convert = traverse (λ entry. do key ← convert entry.0; ok (key, entry.1))
