-- ===== src/Schedule/Bounds.antt =====
-- Whatever a schedule holds, `unlocked` answers with no more than what it grants the address.
use sienna_network.Base.{ℕ, ◌≤◌, ◌≡◌, ok, arith, >>=-eq-ok, min, Eq, fold128, fold128-le}
use sienna_network.Schedule.Account
use sienna_network.Schedule.Account.{Account}
use sienna_network.Schedule.Pool
use sienna_network.Schedule.{Schedule, subtotal, unlocked}
use sienna_network.Schedule.Entitled.{share, pool_share, allotted}

module _ {A : Type 0} ⦃e : Eq A⦄ (t : ℕ) (address : A) where
  account_unlocked-le :
      (a : Account A) (n : ℕ) → Account.unlocked a t address ≡ ok n → n ≤ share address a
  unfolding Account.unlocked
  account_unlocked-le a n h = ground arith

  pool_unlocked-le :
      (p : Pool.Pool A) (n : ℕ) → Pool.unlocked p t address ≡ ok n → n ≤ pool_share address p
  unfolding Pool.unlocked
  pool_unlocked-le p n h =
      let (released, q, rest) =
        >>=-eq-ok (fold128 (λ a. Account.unlocked a t address) 0 p.accounts) _ h in
      let (sum, q', same) = >>=-eq-ok (Pool.subtotal p) (λ s. ok (min released s)) rest in
      ground (
        arith,
        same,
        fold128-le (λ a. Account.unlocked a t address) (share address) 0 p.accounts
            account_unlocked-le q,
      )

  -- An answer of `unlocked` never exceeds what the address is granted, whether or not the schedule
  -- is valid.
  pub unlocked-le-allotted :
      (s : Schedule A) (n : ℕ) → unlocked s t address ≡ ok n → n ≤ allotted s address
  unfolding unlocked allotted
  unlocked-le-allotted s n h =
      let (released, q, rest) =
        >>=-eq-ok (fold128 (λ p. Pool.unlocked p t address) 0 s.pools) _ h in
      let (sum, q', same) = >>=-eq-ok (subtotal s) (λ u. ok (min released u)) rest in
      ground (
        arith,
        same,
        fold128-le (λ p. Pool.unlocked p t address) (pool_share address) 0 s.pools pool_unlocked-le
            q,
      )
