-- ===== src/Schedule/Adding.antt =====
-- `Schedule::add_account` (mutate.rs) keeps a schedule valid and grants the new amount, no more.
use Prim.Native.String.{String}
use sienna_network.Base.{
  ℕ, ◌+◌, ◌≤◌, ◌≡◌, refl, List, [], ◌∷◌, ◌++◌, ok, arith, Eq, All, sum_by, sum_by-append,
  Bool-cases, inl, inr, string_eq, >>=-eq-ok, ok-injective, ◌∙◌,
}
use sienna_network.Schedule.Account
use sienna_network.Schedule.Account.{Account}
use sienna_network.Schedule.Pool
use sienna_network.Schedule.Pool.Valid
use sienna_network.Schedule.Pool.Adding.{added, add_account-eq-ok, added-IsValid, added-InRange}
use sienna_network.Schedule.{Schedule, add_to_pools, add_account}
use sienna_network.Schedule.Valid.{IsValid, InRange, promised}
use sienna_network.Schedule.Entitled.{share, pool_share, allotted}

module _ {A : Type 0} ⦃e : Eq A⦄ where
  -- What taking in one account does to the pools, as `address` sees it.
  pub record Grown (address : A) (a : Account A) (ps qs : List (Pool.Pool A)) : Type 0 where
    pub pools_valid : All Valid.IsValid qs
    pub pools_fit : All Valid.InRange qs
    pub promised_same : promised qs ≡ promised ps
    pub granted : sum_by (pool_share address) qs ≡ sum_by (pool_share address) ps + share address a

  pool_share-added :
      (address : A) (p : Pool.Pool A) (a : Account A)
      → pool_share address (added p a) ≡ pool_share address p + share address a
  pool_share-added address p a = omega (arith, sum_by-append (share address) p.accounts (a ∷ []))

  added-Grown :
      (address : A) (a : Account A) (p p' : Pool.Pool A) (rest : List (Pool.Pool A))
      → Account.InRange a
      → All Valid.IsValid (p ∷ rest)
      → All Valid.InRange (p ∷ rest)
      → Pool.add_account p a ≡ ok p'
      → Grown address a (p ∷ rest) (p' ∷ rest)
  added-Grown address a p p' rest ra v r h =
      let (opened, fits, va, same) = add_account-eq-ok p p' a r.0 v.0 ra h in
      record {
        pools_valid = rw same (added-IsValid p a v.0 va fits, v.1);
        pools_fit = rw same (added-InRange p a r.0 ra, r.1);
        promised_same = rw same;
        granted = rw same (omega (arith, pool_share-added address p a));
      }

  skipped-Grown :
      (address : A) (a : Account A) (p : Pool.Pool A) (ps qs : List (Pool.Pool A))
      → Valid.IsValid p
      → Valid.InRange p
      → Grown address a ps qs
      → Grown address a (p ∷ ps) (p ∷ qs)
  skipped-Grown address a p ps qs v r g = record {
    pools_valid = (v, g.pools_valid);
    pools_fit = (r, g.pools_fit);
    promised_same = omega (arith, g.promised_same);
    granted = omega (arith, g.granted);
  }

  add_to_pools-Grown :
      (address : A) (a : Account A) (name : String) (ps qs : List (Pool.Pool A))
      → Account.InRange a
      → All Valid.IsValid ps
      → All Valid.InRange ps
      → add_to_pools ps name a ≡ ok qs
      → Grown address a ps qs
  unfolding add_to_pools
  add_to_pools-Grown address a name [] qs ra v r h = cc
  add_to_pools-Grown address a name (p ∷ ps) qs ra v r h =
      elim (Bool-cases (string_eq.beq p.name name)) [
        | inl found ↦
            let (p', add, same) =
              >>=-eq-ok (Pool.add_account p a) (λ q. ok (q ∷ ps)) (rw (found, add_to_pools) at h) in
            rw (← ok-injective same) (added-Grown address a p p' ps ra v r add)
        | inr other ↦
            let (rest, add, same) =
              >>=-eq-ok (add_to_pools ps name a) (λ q. ok (p ∷ q))
                (rw (other, add_to_pools) at h) in
            rw (← ok-injective same) (
              skipped-Grown address a p ps rest v.0 r.0
                (add_to_pools-Grown address a name ps rest ra v.1 r.1 add))
      ]

  -- After a successful `add_account` the schedule is still valid and in range, its total is the
  -- same, and every address is granted what it was before and the new account's amount if that is
  -- its own.
  pub add_account-allotted :
      (s s' : Schedule A) (name : String) (a : Account A) (address : A)
      → IsValid s
      → InRange s
      → Account.InRange a
      → add_account s name a ≡ ok s'
      → IsValid s'
        × InRange s'
        × (s'.total ≡ s.total)
        × (allotted s' address ≡ allotted s address + share address a)
  unfolding add_account allotted
  add_account-allotted s s' name a address v r ra h =
      let (qs, add, same) =
        >>=-eq-ok (add_to_pools s.pools name a) (λ q. ok (record s { pools = q })) h in
      let g = add_to_pools-Grown address a name s.pools qs ra v.pools_valid r.pools_fit add in
      rw (← ok-injective same) (
        record { pools_valid = g.pools_valid; adds_up = g.promised_same ∙ v.adds_up },
        record { total_fits = r.total_fits; pools_fit = g.pools_fit },
        refl,
        g.granted,
      )

  -- One more pool takes nothing from anybody.
  pub allotted-push :
      (address : A) (ps : List (Pool.Pool A)) (p : Pool.Pool A) (total total' : ℕ)
      → allotted (record { total = total; pools = ps }) address
        ≤ allotted (record { total = total'; pools = ps ++ p ∷ [] }) address
  unfolding allotted
  allotted-push address ps p total total' =
      omega (arith, sum_by-append (pool_share address) ps (p ∷ []))
