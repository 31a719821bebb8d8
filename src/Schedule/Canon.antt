-- ===== src/Schedule/Canon.antt =====
-- libraries/schedule/lib/canon.rs: address conversion of a schedule, pool or account, in either
-- direction. The conversion of one address and of a `Vec` are fadroma's: they are parameters, the
-- second with its documented behaviour, entry by entry up to the first error.
pub mod RoundTrip
pub mod Kept
use sienna_network.Base.{ℕ, ◌≡◌, refl, List, [], ◌∷◌, Result, ok, ◌>>=◌, traverse, ap, ◌∙◌}
use sienna_network.Schedule.Account.{Account}
use sienna_network.Schedule.Pool.{Pool}
use sienna_network.Schedule.{Schedule}

-- Either `Humanize` or `Canonize`.
pub record Conversion (A B : Type 0) : Type 0 where
  pub address : A → Result B
  pub each_account : (Account A → Result (Account B)) → List (Account A) → Result (List (Account B))
  pub each_pool : (Pool A → Result (Pool B)) → List (Pool A) → Result (List (Pool B))
  pub each_account_lem :
      (f : Account A → Result (Account B)) (xs : List (Account A))
      → each_account f xs ≡ traverse f xs
  pub each_pool_lem :
      (f : Pool A → Result (Pool B)) (xs : List (Pool A)) → each_pool f xs ≡ traverse f xs

module _ {A B : Type 0} (c : Conversion A B) where
  unfoldable pub convert_account : Account A → Result (Account B)
  convert_account a = do
    address ← c.address a.address
    ok (record {
      name = a.name;
      address = address;
      amount = a.amount;
      cliff = a.cliff;
      start_at = a.start_at;
      interval = a.interval;
      duration = a.duration;
    })

  unfoldable pub convert_pool : Pool A → Result (Pool B)
  convert_pool p = do
    accounts ← c.each_account convert_account p.accounts
    ok (record { partial = p.partial; name = p.name; total = p.total; accounts = accounts })

  unfoldable pub convert : Schedule A → Result (Schedule B)
  convert s = do
    pools ← c.each_pool convert_pool s.pools
    ok (record { total = s.total; pools = pools })
