-- ===== src/Schedule/Valid.antt =====
-- What `validate` of a schedule decides, and that `add_account` keeps it.
use sienna_network.Base.{
  ℕ, ◌<◌, ◌≡◌, ◌↔◌, refl, List, [], ◌∷◌, ok, ◌>>=◌, guard, generic, schedule_total, arith, ◌==◌,
  u128_mod, fold128_plain, fold128_plain-eq-ok, All, sum_by, >>=-eq-ok, string_eq,
}
use sienna_network.Schedule.Pool
use sienna_network.Schedule.Pool.Valid
use sienna_network.Schedule.{Schedule, subtotal, pools_total, validate_pools, validate}

module _ {A : Type 0} where
  abbrev pub promised : List (Pool.Pool A) → ℕ
  promised = sum_by (λ p. p.total)

  pub record IsValid (s : Schedule A) : Type 0 where
    pub pools_valid : All Valid.IsValid s.pools
    pub adds_up : promised s.pools ≡ s.total

  pub record InRange (s : Schedule A) : Type 0 where
    pub total_fits : s.total < u128_mod
    pub pools_fit : All Valid.InRange s.pools

  validate_pools-All :
      (ps : List (Pool.Pool A))
      → All Valid.InRange ps
      → validate_pools ps ≡ ok tt
      → All Valid.IsValid ps
  unfolding validate_pools
  validate_pools-All [] r h = tt
  validate_pools-All (p ∷ ps) r h =
      let (u, e, rest) = >>=-eq-ok (Pool.validate p) (λ _. validate_pools ps) h in
      ((Valid.pool_validate_iff p r.0).0 e, validate_pools-All ps r.1 rest)

  All-validate_pools :
      (ps : List (Pool.Pool A))
      → All Valid.InRange ps
      → All Valid.IsValid ps
      → validate_pools ps ≡ ok tt
  unfolding validate_pools
  All-validate_pools [] r h = refl
  All-validate_pools (p ∷ ps) r h =
      rw ((Valid.pool_validate_iff p r.0).1 h.0) (All-validate_pools ps r.1 h.1)

  pub subtotal_lem :
      (s : Schedule A) → promised s.pools < u128_mod → subtotal s ≡ ok (promised s.pools)
  unfolding subtotal pools_total
  subtotal_lem s = fold128_plain (λ p. p.total) s.pools

  validate-IsValid : (s : Schedule A) → InRange s → validate s ≡ ok tt → IsValid s
  unfolding validate subtotal pools_total
  validate-IsValid s r h =
      let (u, e, rest) =
        >>=-eq-ok (validate_pools s.pools)
          (λ _. subtotal s >>= λ sum. guard (sum == s.total) (generic (schedule_total sum s.total)))
          h in
      let (n, q, test) =
        >>=-eq-ok (subtotal s)
          (λ sum. guard (sum == s.total) (generic (schedule_total sum s.total))) rest in
      let (same, fits) = fold128_plain-eq-ok (λ p. p.total) s.pools q in
      let meets : n ≡ s.total = ground (arith, test) in
      record { pools_valid = validate_pools-All s.pools r.pools_fit e; adds_up = omega arith }

  IsValid-validate : (s : Schedule A) → InRange s → IsValid s → validate s ≡ ok tt
  unfolding validate
  IsValid-validate s r v =
      ground
        (arith, All-validate_pools s.pools r.pools_fit v.pools_valid, subtotal_lem s (omega arith))

  -- `validate` of a schedule passes exactly if every account has a positive amount that covers its
  -- cliff, the accounts of every pool fit its total (and meet it where the pool is not partial), and
  -- the pools add up to the schedule's total.
  pub schedule_validate_iff : (s : Schedule A) → InRange s → (validate s ≡ ok tt) ↔ IsValid s
  schedule_validate_iff s r = (validate-IsValid s r, IsValid-validate s r)
