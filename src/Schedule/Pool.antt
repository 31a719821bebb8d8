-- ===== src/Schedule/Pool.antt =====
-- libraries/schedule/lib: a pool of accounts. `add_account` takes the pool by `&mut self`; the model
-- returns the changed pool on success, and on an error the caller drops the pool unsaved.
pub mod Valid
pub mod Adding
use Prim.Native.String.{String}
use sienna_network.Base.{
  ℕ, ◌≢◌, min, Bool, true, false, not, List, [], ◌∷◌, ◌++◌, Result, ok, err, ◌>>=◌, ◌>>◌, guard,
  generic, pool_total, pool_full, account_too_big, ltb, leb, ◌==◌, if◌then◌else◌, Eq, Uint128,
  sub_checked, fold128,
}
use sienna_network.Schedule.Account
use sienna_network.Schedule.Account.{Account}

pub record Pool (A : Type 0) : Type 0 where
  -- `partial` in the source: accounts may be added later.
  pub partial : Bool
  pub name : String
  pub total : ℕ
  pub accounts : List (Account A)

-- The test in `validate`.
unfoldable pub is_invalid_total : Bool → ℕ → ℕ → Bool
is_invalid_total partial sum total = if partial then ltb total sum else not (sum == total)

module _ {A : Type 0} where
  unfoldable pub partial_pool : String → ℕ → List (Account A) → Pool A
  partial_pool name total accounts = record {
    partial = true;
    name = name;
    total = total;
    accounts = accounts;
  }

  -- The loop of `full` over `Uint128`.
  unfoldable pub add_amounts : ⦃u : Uint128⦄ → ℕ → List (Account A) → Result ℕ
  add_amounts total [] = ok total
  add_amounts ⦃u⦄ total (a ∷ as') = do sum ← u.add total a.amount; add_amounts sum as'

  unfoldable pub full : ⦃u : Uint128⦄ → String → List (Account A) → Result (Pool A)
  full name accounts = do
    total ← add_amounts 0 accounts
    ok (record { partial = false; name = name; total = total; accounts = accounts })

  unfoldable pub subtotal : Pool A → Result ℕ
  subtotal p = fold128 (λ a. ok a.amount) 0 p.accounts

  unfoldable pub unallocated : Pool A → Result ℕ
  unallocated p = do sum ← subtotal p; sub_checked p.total sum

  -- `Vec<Account>::validate`
  unfoldable pub validate_accounts : List (Account A) → Result (Unit {0})
  validate_accounts [] = ok tt
  validate_accounts (a ∷ rest) = Account.validate a >> validate_accounts rest

  unfoldable pub validate : Pool A → Result (Unit {0})
  validate p = do
    validate_accounts p.accounts
    sum ← subtotal p
    guard (not (is_invalid_total p.partial sum p.total)) (generic (pool_total p.name sum p.total))

  -- The pool after `accounts.push(account)`.
  abbrev pub push : Pool A → Account A → Pool A
  push p a = record p { accounts = p.accounts ++ a ∷ [] }

  unfoldable pub add_account : Pool A → Account A → Result (Pool A)
  add_account p a = do
    guard p.partial (generic (pool_full p.name))
    free ← unallocated p
    guard (leb a.amount free) (generic (account_too_big p.name a.amount free))
    Account.validate a
    left ← unallocated (push p a)
    let p' = if left == 0 then record (push p a) { partial = false } else push p a
    validate p' >> ok p'

unfoldable pub unlocked : {A : Type 0} ⦃e : Eq A⦄ → Pool A → ℕ → A → Result ℕ
unlocked p t address = do
  released ← fold128 (λ a. Account.unlocked a t address) 0 p.accounts
  sum ← subtotal p
  ok (min released sum)
