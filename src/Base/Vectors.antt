-- ===== src/Base/Vectors.antt =====
-- `IterableStorage` of fadroma, which the repository does not hold: a vector in storage. It is a
-- parameter of what uses it, with its documented behaviour.
use Prim.Native.Nat.{ℕ, suc, ◌-◌, ◌<◌}
use mathlib.Core.Path.{◌≡◌, refl, subst, sym, ap}
use mathlib.Core.Logic.{inl, inr}
use mathlib.Core.Bool.{true, false}
use mathlib.Core.Option.{Option, none, some}
use native.Mathlib.Omega.{arith}
use sienna_network.Base.Tests.{if◌then◌else◌, ltb, ◌==◌, Bool-cases}
use sienna_network.Base.Outcome.{Result, ok, err, panic, unwrap_none, ok-injective}

-- `S` is the stored vector, `V` the type of its entries.
pub record Iterable (S V : Type 0) : Type 0 where
  pub len : S → ℕ
  -- The entry at an index, if there is one.
  pub get_at : S → ℕ → Option V
  -- With the index of the new entry.
  pub push : S → V → Result (S × ℕ)
  pub update_at : S → ℕ → V → Result S
  -- The last entry takes the place of the removed one, and is returned unless it is that one.
  pub swap_remove : S → ℕ → Result (S × Option V)
  pub get_at_past : (s : S) (j : ℕ) → ltb j (len s) ≡ false → get_at s j ≡ none
  pub get_at_within : (s : S) (j : ℕ) → ltb j (len s) ≡ true → (v : V) × (get_at s j ≡ some v)
  pub push-len :
      (s s' : S) (v : V) (i : ℕ) → push s v ≡ ok (s', i) → (i ≡ len s) × (len s' ≡ suc (len s))
  pub push-get_at :
      (s s' : S) (v : V) (i j : ℕ)
      → push s v ≡ ok (s', i)
      → get_at s' j ≡ (if len s == j then some v else get_at s j)
  pub update_at-len :
      (s s' : S) (v : V) (i : ℕ) → update_at s i v ≡ ok s' → (i < len s) × (len s' ≡ len s)
  pub update_at-get_at :
      (s s' : S) (v : V) (i j : ℕ)
      → update_at s i v ≡ ok s'
      → get_at s' j ≡ (if i == j then some v else get_at s j)
  pub swap_remove-len :
      (s s' : S) (i : ℕ) (o : Option V)
      → swap_remove s i ≡ ok (s', o)
      → (i < len s) × (len s ≡ suc (len s'))
  pub swap_remove-moved :
      (s s' : S) (i : ℕ) (o : Option V)
      → swap_remove s i ≡ ok (s', o)
      → o ≡ (if i == len s' then none else get_at s (len s'))
  pub swap_remove-get_at :
      (s s' : S) (i j : ℕ) (o : Option V)
      → swap_remove s i ≡ ok (s', o)
      → get_at s' j
        ≡ (if len s' == j then none else if i == j then get_at s (len s') else get_at s j)

-- The behaviour can be met: the size, and the entries by index.
abbrev pub Vector : Type 0 → Type 0
Vector V = ℕ × (ℕ → V)

module _ {V : Type 0} where
  abbrev nth : Vector V → ℕ → Option V
  nth s j = if ltb j s.0 then some (s.1 j) else none

  abbrev push_back : Vector V → V → Result (Vector V × ℕ)
  push_back s v = ok ((suc s.0, λ j. if s.0 == j then v else s.1 j), s.0)

  abbrev replace : Vector V → ℕ → V → Result (Vector V)
  replace s i v =
      if ltb i s.0 then ok (s.0, λ j. if i == j then v else s.1 j) else err (panic unwrap_none)

  abbrev remove : Vector V → ℕ → Result (Vector V × Option V)
  remove s i =
      if ltb i s.0
      then ok (
        (s.0 - 1, λ j. if i == j then s.1 (s.0 - 1) else s.1 j),
        if i == s.0 - 1 then none else some (s.1 (s.0 - 1)),
      )
      else err (panic unwrap_none)

  pub nth_within : (s : Vector V) (j : ℕ) → ltb j s.0 ≡ true → (v : V) × (nth s j ≡ some v)
  nth_within s j h = (s.1 j, rw h refl)

  pub nth_past : (s : Vector V) (j : ℕ) → ltb j s.0 ≡ false → nth s j ≡ none
  nth_past s j h = rw h refl

  pub push_back-len :
      (s s' : Vector V) (v : V) (i : ℕ) → push_back s v ≡ ok (s', i) → (i ≡ s.0) × (s'.0 ≡ suc s.0)
  push_back-len s s' v i h = ground (arith, ok-injective h)

  pub push_back-nth :
      (s s' : Vector V) (v : V) (i j : ℕ)
      → push_back s v ≡ ok (s', i)
      → nth s' j ≡ (if s.0 == j then some v else nth s j)
  push_back-nth s s' v i j h =
      subst (λ p. nth (p.0) j ≡ (if s.0 == j then some v else nth s j)) (ok-injective h)
        (ground arith)

  pub replace-parts :
      (s s' : Vector V) (v : V) (i : ℕ)
      → replace s i v ≡ ok s'
      → (i < s.0) × (s' ≡ (s.0, λ j. if i == j then v else s.1 j))
  replace-parts s s' v i h = elim (Bool-cases (ltb i s.0)) [
    | inl q ↦ (ground arith, sym (ok-injective (rw q at h)))
    | inr q ↦ absurd (cc (rw q at h))
  ]

  pub replace-nth :
      (s s' : Vector V) (v : V) (i j : ℕ)
      → replace s i v ≡ ok s'
      → nth s' j ≡ (if i == j then some v else nth s j)
  replace-nth s s' v i j h =
      let (within, same) = replace-parts s s' v i h in
      subst (λ x. nth x j ≡ (if i == j then some v else nth s j)) (sym same) (ground arith)

  remove-parts :
      (s s' : Vector V) (i : ℕ) (o : Option V)
      → remove s i ≡ ok (s', o)
      → (i < s.0)
        × (s' ≡ (s.0 - 1, λ j. if i == j then s.1 (s.0 - 1) else s.1 j))
        × (o ≡ (if i == s.0 - 1 then none else some (s.1 (s.0 - 1))))
  remove-parts s s' i o h = elim (Bool-cases (ltb i s.0)) [
    | inl q ↦ (
      ground arith,
      sym (ap (λ p. p.0) (ok-injective (rw q at h))),
      sym (ap (λ p. p.1) (ok-injective (rw q at h))),
    )
    | inr q ↦ absurd (cc (rw q at h))
  ]

  pub remove-len :
      (s s' : Vector V) (i : ℕ) (o : Option V)
      → remove s i ≡ ok (s', o)
      → (i < s.0) × (s.0 ≡ suc s'.0)
  remove-len s s' i o h =
      let (within, same, moved) = remove-parts s s' i o h in
      (within, subst (λ x. s.0 ≡ suc x.0) (sym same) (omega arith))

  pub remove-moved :
      (s s' : Vector V) (i : ℕ) (o : Option V)
      → remove s i ≡ ok (s', o)
      → o ≡ (if i == s'.0 then none else nth s s'.0)
  remove-moved s s' i o h =
      let (within, same, moved) = remove-parts s s' i o h in
      subst (λ x. o ≡ (if i == x.0 then none else nth s x.0)) (sym same) (ground (arith, moved))

  pub remove-nth :
      (s s' : Vector V) (i j : ℕ) (o : Option V)
      → remove s i ≡ ok (s', o)
      → nth s' j ≡ (if s'.0 == j then none else if i == j then nth s s'.0 else nth s j)
  remove-nth s s' i j o h =
      let (within, same, moved) = remove-parts s s' i o h in
      subst (λ x. nth x j ≡ (if x.0 == j then none else if i == j then nth s x.0 else nth s j))
        (sym same) (ground arith)

  instance abbrev pub vectors : Iterable (Vector V) V
  vectors = record {
    len = λ s. s.0;
    get_at = nth;
    push = push_back;
    update_at = replace;
    swap_remove = remove;
    get_at_past = nth_past;
    get_at_within = nth_within;
    push-len = push_back-len;
    push-get_at = push_back-nth;
    update_at-len =
        λ s s' v i h. let (within, same) = replace-parts s s' v i h in (within, ap (λ x. x.0) same);
    update_at-get_at = replace-nth;
    swap_remove-len = remove-len;
    swap_remove-moved = remove-moved;
    swap_remove-get_at = remove-nth;
  }
