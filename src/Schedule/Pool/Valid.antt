-- ===== src/Schedule/Pool/Valid.antt =====
-- What `validate` of a pool decides, and that `add_account` keeps it.
use sienna_network.Base.{
  ℕ, ◌≤◌, ◌<◌, ◌≡◌, ◌↔◌, refl, Bool, true, false, not, List, [], ◌∷◌, ok, ◌>>=◌, guard, generic,
  arith, u128_mod, fold128_plain, fold128_plain-eq-ok, pool_total, All, sum_by, >>=-eq-ok,
}
use sienna_network.Schedule.Account
use sienna_network.Schedule.Account.{Account}
use sienna_network.Schedule.Account.Vested
use sienna_network.Schedule.Account.Validity.{account_validate_iff}
use sienna_network.Schedule.Pool.{Pool, subtotal, validate_accounts, is_invalid_total, validate}

-- A partial pool may hold less than its total, any other holds exactly its total.
abbrev pub Covers : Bool → ℕ → ℕ → Type 0
Covers true sum total = sum ≤ total
Covers false sum total = sum ≡ total

pub Covers-le : (b : Bool) (sum total : ℕ) → Covers b sum total → sum ≤ total
Covers-le true sum total h = h
Covers-le false sum total h = omega arith

passes-Covers :
    (b : Bool) (sum total : ℕ) → is_invalid_total b sum total ≡ false → Covers b sum total
unfolding is_invalid_total
passes-Covers true sum total h = ground arith
passes-Covers false sum total h = ground arith

Covers-passes :
    (b : Bool) (sum total : ℕ) → Covers b sum total → is_invalid_total b sum total ≡ false
unfolding is_invalid_total
Covers-passes true sum total h = ground arith
Covers-passes false sum total h = ground arith

module _ {A : Type 0} where
  -- The sum of the amounts.
  abbrev pub allocated : List (Account A) → ℕ
  allocated = sum_by (λ a. a.amount)

  pub record IsValid (p : Pool A) : Type 0 where
    pub accounts_valid : All Vested.IsValid p.accounts
    pub covered : Covers p.partial (allocated p.accounts) p.total

  pub record InRange (p : Pool A) : Type 0 where
    pub total_fits : p.total < u128_mod
    pub accounts_fit : All Account.InRange p.accounts

  validate_accounts-All :
      (xs : List (Account A))
      → All Account.InRange xs
      → validate_accounts xs ≡ ok tt
      → All Vested.IsValid xs
  unfolding validate_accounts
  validate_accounts-All [] r h = tt
  validate_accounts-All (a ∷ xs) r h =
      let (u, e, rest) = >>=-eq-ok (Account.validate a) (λ _. validate_accounts xs) h in
      ((account_validate_iff a r.0.amount_fits).0 e, validate_accounts-All xs r.1 rest)

  All-validate_accounts :
      (xs : List (Account A))
      → All Account.InRange xs
      → All Vested.IsValid xs
      → validate_accounts xs ≡ ok tt
  unfolding validate_accounts
  All-validate_accounts [] r h = refl
  All-validate_accounts (a ∷ xs) r h =
      rw ((account_validate_iff a r.0.amount_fits).1 h.0) (All-validate_accounts xs r.1 h.1)

  pub subtotal_lem :
      (p : Pool A) → allocated p.accounts < u128_mod → subtotal p ≡ ok (allocated p.accounts)
  unfolding subtotal
  subtotal_lem p = fold128_plain (λ a. a.amount) p.accounts

  pub subtotal-eq-ok : (p : Pool A) {n : ℕ} → subtotal p ≡ ok n → n ≡ allocated p.accounts
  unfolding subtotal
  subtotal-eq-ok p h = (fold128_plain-eq-ok (λ a. a.amount) p.accounts h).0

  validate-IsValid : (p : Pool A) → InRange p → validate p ≡ ok tt → IsValid p
  unfolding validate
  validate-IsValid p r h =
      let (u, e, rest) =
        >>=-eq-ok (validate_accounts p.accounts)
          (λ _. subtotal p >>= λ sum.
            guard (not (is_invalid_total p.partial sum p.total))
              (generic (pool_total p.name sum p.total)))
          h in
      let (n, q, test) =
        >>=-eq-ok (subtotal p)
          (λ sum.
            guard (not (is_invalid_total p.partial sum p.total))
              (generic (pool_total p.name sum p.total)))
          rest in
      record {
        accounts_valid = validate_accounts-All p.accounts r.accounts_fit e;
        covered =
            rw (← subtotal-eq-ok p q) (passes-Covers p.partial n p.total (ground (arith, test)));
      }

  IsValid-validate : (p : Pool A) → InRange p → IsValid p → validate p ≡ ok tt
  unfolding validate
  IsValid-validate p r v = ground (
    arith,
    All-validate_accounts p.accounts r.accounts_fit v.accounts_valid,
    subtotal_lem p,
    Covers-le p.partial (allocated p.accounts) p.total v.covered,
    Covers-passes p.partial (allocated p.accounts) p.total v.covered,
  )

  -- `validate` of a pool passes exactly if every account is valid and the accounts add up to the
  -- total, or to no more than the total where the pool is partial.
  pub pool_validate_iff : (p : Pool A) → InRange p → (validate p ≡ ok tt) ↔ IsValid p
  pool_validate_iff p r = (validate-IsValid p r, IsValid-validate p r)
