-- ===== src/Mgmt/Claimed.antt =====
-- The namespace "participant" of the vesting contract (state.rs): what each address has claimed.
use sienna_network.Base.{
  ℕ, ◌+◌, ◌≤◌, ◌≡◌, refl, false, List, [], ◌∷◌, map, arith, Eq, All, sum_by, Bool-cases, inl, inr,
}
use sienna_network.Schedule.Conservation.{Distinct}
use sienna_network.Mgmt.Storage.{claimed_by, save_claimed}

module _ {C : Type 0} ⦃e : Eq C⦄ where
  abbrev pub keys : List (C × ℕ) → List C
  keys = map (λ p. p.0)

  -- The sum of all amounts claimed.
  abbrev pub paid : List (C × ℕ) → ℕ
  paid = sum_by (λ p. p.1)

  -- One entry for an address, and none above what the address is granted.
  pub record Books (grant : C → ℕ) (m : List (C × ℕ)) : Type 0 where
    pub distinct : Distinct (keys m)
    pub within : All (λ p. p.1 ≤ grant p.0) m

  pub claimed_by-save_self :
      (x : C) (n : ℕ) (m : List (C × ℕ)) → claimed_by x (save_claimed x n m) ≡ n
  unfolding claimed_by save_claimed
  claimed_by-save_self x n [] = ground (arith, (e.beq_iff x x).1 refl)
  claimed_by-save_self x n ((y, k) ∷ m) = ground (arith, claimed_by-save_self x n m)

  pub claimed_by-save_other :
      (x z : C) (n : ℕ) (m : List (C × ℕ))
      → e.beq x z ≡ false
      → claimed_by z (save_claimed x n m) ≡ claimed_by z m
  unfolding claimed_by save_claimed
  claimed_by-save_other x z n [] h = ground arith
  claimed_by-save_other x z n ((y, k) ∷ m) h =
      ground (arith, e.beq_iff y x, claimed_by-save_other x z n m h)

  -- Raising one address's amount raises the sum by the difference.
  pub paid-save :
      (x : C) (n : ℕ) (m : List (C × ℕ)) → paid (save_claimed x n m) + claimed_by x m ≡ paid m + n
  unfolding claimed_by save_claimed
  paid-save x n [] = omega arith
  paid-save x n ((y, k) ∷ m) = ground (arith, paid-save x n m)

  save_keeps_fresh :
      (x z : C) (n : ℕ) (m : List (C × ℕ))
      → e.beq x z ≡ false
      → All (λ y. e.beq y z ≡ false) (keys m)
      → All (λ y. e.beq y z ≡ false) (keys (save_claimed x n m))
  unfolding save_claimed
  save_keeps_fresh x z n [] ne h = (ne, tt)
  save_keeps_fresh x z n ((y, k) ∷ m) ne h = ground (arith, save_keeps_fresh x z n m ne h.1)

  Distinct-save :
      (x : C) (n : ℕ) (m : List (C × ℕ)) → Distinct (keys m) → Distinct (keys (save_claimed x n m))
  unfolding save_claimed
  Distinct-save x n [] d = (tt, tt)
  Distinct-save x n ((y, k) ∷ m) d = elim (Bool-cases (e.beq y x)) [
    | inl same ↦ rw same d
    | inr other ↦ rw other (
      save_keeps_fresh x y n m (ground (arith, other, e.beq_iff x y, e.beq_iff y x)) d.0,
      Distinct-save x n m d.1,
    )
  ]

  within-save :
      (grant : C → ℕ) (x : C) (n : ℕ) (m : List (C × ℕ))
      → n ≤ grant x
      → All (λ p. p.1 ≤ grant p.0) m
      → All (λ p. p.1 ≤ grant p.0) (save_claimed x n m)
  unfolding save_claimed
  within-save grant x n [] b w = (b, tt)
  within-save grant x n ((y, k) ∷ m) b w =
      ground (arith, e.beq_iff y x, within-save grant x n m b w.1)

  pub save-Books :
      (grant : C → ℕ) (x : C) (n : ℕ) (m : List (C × ℕ))
      → n ≤ grant x
      → Books grant m
      → Books grant (save_claimed x n m)
  save-Books grant x n m b k = record {
    distinct = Distinct-save x n m k.distinct;
    within = within-save grant x n m b k.within;
  }

  within_mono :
      (g h : C → ℕ) (m : List (C × ℕ))
      → ((x : C) → g x ≤ h x)
      → All (λ p. p.1 ≤ g p.0) m
      → All (λ p. p.1 ≤ h p.0) m
  within_mono g h [] le w = tt
  within_mono g h ((y, k) ∷ m) le w = (omega (arith, le y, w.0), within_mono g h m le w.1)

  -- The books stay right when every grant grows.
  pub Books-mono : (g h : C → ℕ) (m : List (C × ℕ)) → ((x : C) → g x ≤ h x) → Books g m → Books h m
  Books-mono g h m le b = record { distinct = b.distinct; within = within_mono g h m le b.within }

  pub paid-le-grants :
      (grant : C → ℕ) (m : List (C × ℕ))
      → All (λ p. p.1 ≤ grant p.0) m
      → paid m ≤ sum_by grant (keys m)
  paid-le-grants grant [] w = omega arith
  paid-le-grants grant ((y, k) ∷ m) w = omega (arith, w.0, paid-le-grants grant m w.1)
