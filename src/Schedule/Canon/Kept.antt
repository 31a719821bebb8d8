-- ===== src/Schedule/Canon/Kept.antt =====
-- What the conversion of addresses leaves alone.
use sienna_network.Base.{
  ℕ, ◌≡◌, refl, sym, List, [], ◌∷◌, Result, ok, ◌>>=◌, >>=-eq-ok, ok-injective, traverse, All,
  sum_by, arith, ◌∙◌,
}
use sienna_network.Schedule.Account
use sienna_network.Schedule.Account.{Account}
use sienna_network.Schedule.Account.Vested
use sienna_network.Schedule.Pool.{Pool}
use sienna_network.Schedule.Pool.Valid
use sienna_network.Schedule.Pool.Valid.{allocated, Covers}
use sienna_network.Schedule.{Schedule}
use sienna_network.Schedule.Valid.{IsValid, InRange}
use sienna_network.Schedule.Canon.{Conversion, convert_account, convert_pool, convert}

module _ {X Y : Type 0} (f : X → Result Y) where
  traverse-All :
      (P : X → Type 0) (Q : Y → Type 0)
      → ((x : X) (y : Y) → f x ≡ ok y → P x → Q y)
      → (xs : List X) (ys : List Y) → traverse f xs ≡ ok ys
      → All P xs
      → All Q ys
  traverse-All P Q step [] ys h a = rw (← ok-injective h) tt
  traverse-All P Q step (x ∷ xs) ys h a =
      let (y, e, rest) = >>=-eq-ok (f x) (λ v. traverse f xs >>= λ vs. ok (v ∷ vs)) h in
      let (zs, es, same) = >>=-eq-ok (traverse f xs) (λ vs. ok (y ∷ vs)) rest in
      rw (← ok-injective same) (step x y e a.0, traverse-All P Q step xs zs es a.1)

  traverse-sum :
      (g : X → ℕ) (k : Y → ℕ)
      → ((x : X) (y : Y) → f x ≡ ok y → k y ≡ g x)
      → (xs : List X) (ys : List Y) → traverse f xs ≡ ok ys
      → sum_by k ys ≡ sum_by g xs
  traverse-sum g k step [] ys h = rw (← ok-injective h) refl
  traverse-sum g k step (x ∷ xs) ys h =
      let (y, e, rest) = >>=-eq-ok (f x) (λ v. traverse f xs >>= λ vs. ok (v ∷ vs)) h in
      let (zs, es, same) = >>=-eq-ok (traverse f xs) (λ vs. ok (y ∷ vs)) rest in
      rw (← ok-injective same) (omega (arith, step x y e, traverse-sum g k step xs zs es))

module _ {A B : Type 0} (c : Conversion A B) where
  convert_account-IsValid :
      (a : Account A) (b : Account B)
      → convert_account c a ≡ ok b
      → Vested.IsValid a
      → Vested.IsValid b
  unfolding convert_account
  convert_account-IsValid a b h v =
      let (address, e, same) = >>=-eq-ok (c.address a.address) _ h in
      rw (← ok-injective same) (record { positive = v.positive; cliff_le = v.cliff_le })

  pub convert_account-InRange :
      (a : Account A) (b : Account B)
      → convert_account c a ≡ ok b
      → Account.InRange a
      → Account.InRange b
  unfolding convert_account
  convert_account-InRange a b h r =
      let (address, e, same) = >>=-eq-ok (c.address a.address) _ h in
      rw (← ok-injective same) (record {
        amount_fits = r.amount_fits;
        cliff_fits = r.cliff_fits;
        start_fits = r.start_fits;
        interval_fits = r.interval_fits;
        duration_fits = r.duration_fits;
      })

  convert_account-amount :
      (a : Account A) (b : Account B) → convert_account c a ≡ ok b → b.amount ≡ a.amount
  unfolding convert_account
  convert_account-amount a b h =
      let (address, e, same) = >>=-eq-ok (c.address a.address) _ h in rw (← ok-injective same) refl

  convert_pool-IsValid :
      (p : Pool A) (q : Pool B) → convert_pool c p ≡ ok q → Valid.IsValid p → Valid.IsValid q
  unfolding convert_pool
  convert_pool-IsValid p q h v =
      let (accounts, e, same) = >>=-eq-ok (c.each_account (convert_account c) p.accounts) _ h in
      let there = sym (c.each_account_lem (convert_account c) p.accounts) ∙ e in
      rw (← ok-injective same) (record {
        accounts_valid =
            traverse-All (convert_account c) Vested.IsValid Vested.IsValid convert_account-IsValid
              p.accounts accounts there v.accounts_valid;
        covered =
            rw
              (traverse-sum (convert_account c) (λ a. a.amount) (λ b. b.amount)
                convert_account-amount p.accounts accounts there)
              v.covered;
      })

  pub convert_pool-InRange :
      (p : Pool A) (q : Pool B) → convert_pool c p ≡ ok q → Valid.InRange p → Valid.InRange q
  unfolding convert_pool
  convert_pool-InRange p q h r =
      let (accounts, e, same) = >>=-eq-ok (c.each_account (convert_account c) p.accounts) _ h in
      let there = sym (c.each_account_lem (convert_account c) p.accounts) ∙ e in
      rw (← ok-injective same) (record {
        total_fits = r.total_fits;
        accounts_fit =
            traverse-All (convert_account c) Account.InRange Account.InRange convert_account-InRange
              p.accounts accounts there r.accounts_fit;
      })

  convert_pool-total : (p : Pool A) (q : Pool B) → convert_pool c p ≡ ok q → q.total ≡ p.total
  unfolding convert_pool
  convert_pool-total p q h =
      let (accounts, e, same) = >>=-eq-ok (c.each_account (convert_account c) p.accounts) _ h in
      rw (← ok-injective same) refl

  -- A converted schedule is as valid as it was, and fits as it did.
  pub convert-IsValid :
      (s : Schedule A) (t : Schedule B)
      → convert c s ≡ ok t
      → IsValid s
      → InRange s
      → IsValid t × InRange t × (t.total ≡ s.total)
  unfolding convert
  convert-IsValid s t h v r =
      let (pools, e, same) = >>=-eq-ok (c.each_pool (convert_pool c) s.pools) _ h in
      let there = sym (c.each_pool_lem (convert_pool c) s.pools) ∙ e in
      rw (← ok-injective same) (
        record {
          pools_valid =
              traverse-All (convert_pool c) Valid.IsValid Valid.IsValid convert_pool-IsValid s.pools
                pools there v.pools_valid;
          adds_up =
              traverse-sum (convert_pool c) (λ p. p.total) (λ q. q.total) convert_pool-total s.pools
                pools there
              ∙ v.adds_up;
        },
        record {
          total_fits = r.total_fits;
          pools_fit =
              traverse-All (convert_pool c) Valid.InRange Valid.InRange convert_pool-InRange s.pools
                pools there r.pools_fit;
        },
        refl,
      )
