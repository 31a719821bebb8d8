-- ===== src/Schedule/Pool/Adding.antt =====
-- `Pool::add_account` (mutate.rs) in closed form.
use sienna_network.Base.{
  ◌+◌, ◌-◌, ◌≤◌, ◌<◌, ◌≡◌, true, false, not, List, [], ◌∷◌, ◌++◌, ok, err, generic, pool_full,
  account_too_big, arith, ◌==◌, u128_mod, sub_fits, All-append, sum_by-append, ok-injective, sym,
  ◌∙◌,
}
use sienna_network.Schedule.Account
use sienna_network.Schedule.Account.{Account}
use sienna_network.Schedule.Account.Vested
use sienna_network.Schedule.Account.Validity.{validate-IsValid, account_validate_iff}
use sienna_network.Schedule.Pool.{Pool, unallocated, push, add_account}
use sienna_network.Schedule.Pool.Valid.{
  IsValid, InRange, Covers-le, allocated, subtotal_lem, pool_validate_iff,
}

module _ {A : Type 0} where
  -- The pool with the account in it, closed when nothing is left.
  abbrev pub added : Pool A → Account A → Pool A
  added p a = record p {
    partial = not (p.total - (allocated p.accounts + a.amount) == 0);
    accounts = p.accounts ++ a ∷ [];
  }

  pub allocated-push :
      (xs : List (Account A)) (a : Account A) → allocated (xs ++ a ∷ []) ≡ allocated xs + a.amount
  allocated-push xs a = omega (arith, sum_by-append (λ (b : Account A). b.amount) xs (a ∷ []))

  pub added-IsValid :
      (p : Pool A) (a : Account A)
      → IsValid p
      → Vested.IsValid a
      → allocated p.accounts + a.amount ≤ p.total
      → IsValid (added p a)
  added-IsValid p a v va fits = record {
    accounts_valid = All-append Vested.IsValid p.accounts (a ∷ []) v.accounts_valid (va, tt);
    covered = rw (allocated-push p.accounts a) (ground arith);
  }

  pub added-InRange :
      (p : Pool A) (a : Account A) → InRange p → Account.InRange a → InRange (added p a)
  added-InRange p a r ra = record {
    total_fits = r.total_fits;
    accounts_fit = All-append Account.InRange p.accounts (a ∷ []) r.accounts_fit (ra, tt);
  }

  unallocated_lem :
      (p : Pool A)
      → allocated p.accounts ≤ p.total
      → p.total < u128_mod
      → unallocated p ≡ ok (p.total - allocated p.accounts)
  unfolding unallocated
  unallocated_lem p h fits = ground (arith, subtotal_lem p, sub_fits p.total (allocated p.accounts))

  unallocated-push :
      (p : Pool A) (a : Account A)
      → allocated p.accounts + a.amount ≤ p.total
      → p.total < u128_mod
      → unallocated (push p a) ≡ ok (p.total - (allocated p.accounts + a.amount))
  unallocated-push p a h fits =
      rw (← allocated-push p.accounts a)
        (unallocated_lem (push p a) (omega (arith, allocated-push p.accounts a)) fits)

  -- A partial pool takes a valid account that fits into what is left.
  pub add_account_lem :
      (p : Pool A) (a : Account A)
      → InRange p
      → IsValid p
      → Account.InRange a
      → p.partial ≡ true
      → allocated p.accounts + a.amount ≤ p.total
      → Vested.IsValid a
      → add_account p a ≡ ok (added p a)
  unfolding add_account
  add_account_lem p a r v ra open_pool fits va = ground (
    arith,
    unallocated_lem p,
    (account_validate_iff a ra.amount_fits).1 va,
    unallocated-push p a fits r.total_fits,
    (pool_validate_iff (added p a) (added-InRange p a r ra)).1 (added-IsValid p a v va fits),
  )

  -- And it takes no other.
  pub add_account-eq-ok :
      (p p' : Pool A) (a : Account A)
      → InRange p
      → IsValid p
      → Account.InRange a
      → add_account p a ≡ ok p'
      → (p.partial ≡ true)
        × (allocated p.accounts + a.amount ≤ p.total)
        × Vested.IsValid a
        × (p' ≡ added p a)
  unfolding add_account
  add_account-eq-ok p p' a r v ra h =
      let covers = Covers-le p.partial (allocated p.accounts) p.total v.covered in
      let free = unallocated_lem p covers r.total_fits in
      let opened : p.partial ≡ true = ground (arith, h) in
      let fits : allocated p.accounts + a.amount ≤ p.total =
        ground (arith, h, free, opened, covers) in
      let va : Account.validate a ≡ ok tt = ground (arith, h, free, opened, fits) in
      let valid = validate-IsValid a va in
      (opened, fits, valid, ok-injective (sym h ∙ add_account_lem p a r v ra opened fits valid))

  -- Each refusal says why.
  pub add_account_refusals :
      (p : Pool A) (a : Account A)
      → InRange p
      → IsValid p
      → ((p.partial ≡ false → add_account p a ≡ err (generic (pool_full p.name)))
          × (p.partial ≡ true
              → p.total < allocated p.accounts + a.amount
              → add_account p a
                ≡ err (generic (account_too_big p.name a.amount (p.total - allocated p.accounts)))))
  unfolding add_account
  add_account_refusals p a r v =
      let covers = Covers-le p.partial (allocated p.accounts) p.total v.covered in
      (λ closed. ground arith, λ opened over. ground (arith, unallocated_lem p covers r.total_fits))
