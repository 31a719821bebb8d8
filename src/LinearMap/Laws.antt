-- ===== src/LinearMap/Laws.antt =====
-- The map laws of LinearMap.
use sienna_network.Base.{
  ◌≡◌, refl, Option, none, some, List, [], ◌∷◌, Result, ok, ◌>>=◌, >>=-eq-ok, ok-injective,
  traverse_back, Eq, if◌then◌else◌, arith,
}
use sienna_network.LinearMap.{replace, get, find_index, insert, convert_keys}

module _ {K V : Type 0} ⦃e : Eq K⦄ where
  -- `insert`, by recursion on the entries.
  placed : K → V → List (K × V) → List (K × V) × Option V
  placed key value [] = ((key, value) ∷ [], none)
  placed key value ((k, v) ∷ m) =
      let (rest, old) = placed key value m in
      if e.beq key k then ((key, value) ∷ m, some v) else ((k, v) ∷ rest, old)

  insert-placed : (key : K) (value : V) (m : List (K × V)) → insert key value m ≡ placed key value m
  unfolding insert find_index replace placed
  insert-placed key value [] = refl
  insert-placed key value ((k, v) ∷ m) = ground (arith, insert-placed key value m)

  get-placed :
      (key j : K) (value : V) (m : List (K × V))
      → get j (placed key value m).0 ≡ (if e.beq j key then some value else get j m)
  unfolding get placed
  get-placed key j value [] = refl
  get-placed key j value ((k, v) ∷ m) =
      ground (arith, e.beq_iff key k, e.beq_iff j k, e.beq_iff j key, get-placed key j value m)

  old-placed : (key : K) (value : V) (m : List (K × V)) → (placed key value m).1 ≡ get key m
  unfolding get placed
  old-placed key value [] = refl
  old-placed key value ((k, v) ∷ m) = ground (arith, old-placed key value m)

  -- After `insert` the key has the new value, every other key what it had, and the call returns what
  -- the key had.
  pub get-insert :
      (key j : K) (value : V) (m : List (K × V))
      → (get j (insert key value m).0 ≡ (if e.beq j key then some value else get j m))
        × ((insert key value m).1 ≡ get key m)
  get-insert key j value m =
      rw (insert-placed key value m) (get-placed key j value m, old-placed key value m)

-- If addresses convert back, so does a map keyed by them.
convert_keys_back :
    {A B V : Type 0} (f : A → Result B) (g : B → Result A) (m : List (A × V)) (n : List (B × V))
    → ((a : A) (b : B) → f a ≡ ok b → g b ≡ ok a)
    → convert_keys f m ≡ ok n
    → convert_keys g n ≡ ok m
unfolding convert_keys
convert_keys_back {A} {B} {V} f g m n back =
    traverse_back (λ entry. f entry.0 >>= λ key. ok (key, entry.1))
      (λ entry. g entry.0 >>= λ key. ok (key, entry.1)) (λ x y. entry_back x y) m n
  where
    entry_back :
        (x : A × V) (y : B × V)
        → (f x.0 >>= λ key. ok (key, x.1)) ≡ ok y
        → (g y.0 >>= λ key. ok (key, y.1)) ≡ ok x
    entry_back x y h =
        let (key, q, same) = >>=-eq-ok (f x.0) (λ k. ok (k, x.1)) h in
        rw (← ok-injective same) (rw (back x.0 key q) refl)
