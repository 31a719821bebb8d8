-- ===== src/Rpt/Splitting.antt =====
-- The split of the claimed tokens is exact.
use native.Mathlib.Nat.{div-add-mod}
use sienna_network.Base.{
  ◌≤◌, ℕ, ◌+◌, ◌*◌, ◌/◌, ◌%◌, ◌<◌, ◌≡◌, refl, ap, ◌∙◌, List, [], ◌∷◌, map, Result, ok, err, ◌>>=◌,
  >>=-eq-ok, ok-injective, panic, div_by_zero, Uint128, ContractLink, mul128_fits, div_checked,
  div_fits, sum_by, u128_mod, arith,
}
use sienna_network.LinearMap.{convert_keys}
use sienna_network.Mgmt.{Progress}
use sienna_network.Rpt.{
  Distribution, State, Deps, Env, RptMsg, claim, transfer, batch_transfer, HandleMsg, configure,
  vest, component, add_amounts, sum_config, validate, shares, build_messages, build_batch, init,
  handle_configure, query_claimable, handle_vest, guard_msg, dispatch, handle,
}

-- The sum of the amounts.
abbrev pub whole : {T : Type 0} → Distribution T → ℕ
whole = sum_by (λ entry. entry.1)

-- Every amount, taken the given number of times.
abbrev pub split : {T : Type 0} → ℕ → Distribution T → List (T × ℕ)
split portions = map (λ entry. (entry.0, entry.1 * portions))

module _ {T : Type 0} where
  add_amounts-eq-ok :
      ⦃u : Uint128⦄ (total : ℕ) (m : Distribution T) {n : ℕ}
      → add_amounts total m ≡ ok n
      → n ≡ total + whole m
  unfolding add_amounts
  add_amounts-eq-ok total [] h = ground arith
  add_amounts-eq-ok ⦃u⦄ total (entry ∷ m) h =
      let (sum, q, rest) = >>=-eq-ok (u.add total entry.1) (λ n. add_amounts n m) h in
      omega (arith, u.add-eq-ok total entry.1 sum q, add_amounts-eq-ok sum m rest)

  -- What `validate` lets through adds up to the portion.
  validate-whole :
      ⦃u : Uint128⦄ (portion : ℕ) (m : Distribution T)
      → validate portion m ≡ ok tt
      → whole m ≡ portion
  unfolding validate sum_config
  validate-whole portion m h =
      let (sum, q, test) = >>=-eq-ok (add_amounts 0 m) _ h in
      ground (arith, add_amounts-eq-ok 0 m q, test)

  whole-split : (portions : ℕ) (m : Distribution T) → whole (split portions m) ≡ whole m * portions
  whole-split portions [] = omega arith
  whole-split portions (entry ∷ m) = omega (arith, whole-split portions m)

  shares_lem :
      (portions : ℕ) (m : Distribution T)
      → whole m * portions < u128_mod
      → shares portions m ≡ ok (split portions m)
  unfolding shares
  shares_lem portions [] h = refl
  shares_lem portions (entry ∷ m) h =
      rw (mul128_fits entry.1 portions (omega arith))
        (rw (shares_lem portions m (omega arith)) refl)

convert_keys-whole :
    {A B : Type 0} (f : A → Result B) (m : Distribution A) (n : Distribution B)
    → convert_keys f m ≡ ok n
    → whole n ≡ whole m
unfolding convert_keys
convert_keys-whole f [] n h = rw (← ok-injective h) refl
convert_keys-whole f (entry ∷ m) n h =
    let (pair, q, rest) = >>=-eq-ok (f entry.0 >>= λ key. ok (key, entry.1)) _ h in
    let (key, q', here) = >>=-eq-ok (f entry.0) _ q in
    let (tail, q'', same) = >>=-eq-ok (convert_keys f m) _ rest in
    rw (← ok-injective same, ← ok-injective here) (omega (arith, convert_keys-whole f m tail q''))

-- The stored amounts add up to the stored portion.
abbrev pub IsSplit : {C : Type 0} → State C → Type 0
IsSplit s = whole s.distribution ≡ s.portion

-- What a message moves out of the contract.
abbrev pub moved : {H : Type 0} → RptMsg H → ℕ
moved (claim mgmt) = 0
moved (transfer to amount token) = amount
moved (batch_transfer transfers token) = whole transfers

module _ {H C : Type 0} ⦃u : Uint128⦄ (d : Deps H C) where
  init-IsSplit :
      (admin : Result (Unit {0})) (m : Distribution H) (portion : ℕ) (token mgmt : ContractLink H)
      (s : State C)
      → init d admin m portion token mgmt ≡ ok s
      → IsSplit s
  unfolding init
  init-IsSplit admin m portion token mgmt s h =
      let (t, q, h0) = >>=-eq-ok (validate portion m) _ h in
      let (canonical, q', h1) = >>=-eq-ok (convert_keys d.canonical_address m) _ h0 in
      let whole_same = convert_keys-whole d.canonical_address m canonical q' in
      let (token', q2, h2) = >>=-eq-ok (d.canonize_link token) _ h1 in
      let (mgmt', q3, h3) = >>=-eq-ok (d.canonize_link mgmt) _ h2 in
      let (t', q4, same) = >>=-eq-ok admin _ h3 in
      rw (← ok-injective same) (whole_same ∙ validate-whole portion m q)

  handle_configure-IsSplit :
      (env : Env H) (s s' : State C) (portion : ℕ) (m : Distribution H)
      → handle_configure d env s portion m ≡ ok s'
      → IsSplit s'
  unfolding handle_configure
  handle_configure-IsSplit env s s' portion m h =
      let (t, q0, h0) = >>=-eq-ok (d.assert_admin env.sender) _ h in
      let (t', q, h1) = >>=-eq-ok (validate portion m) _ h0 in
      let (canonical, q', same) = >>=-eq-ok (convert_keys d.canonical_address m) _ h1 in
      rw (← ok-injective same)
        (convert_keys-whole d.canonical_address m canonical q' ∙ validate-whole portion m q)

-- The states that the contract can come to. The components may answer differently at each message.
pub data Reach (H : Type 0) {C : Type 0} ⦃u : Uint128⦄ : State C → Type 0 where
  started :
      (d : Deps H C) (admin : Result (Unit {0})) (m : Distribution H) (portion : ℕ)
      (token mgmt : ContractLink H) (s : State C)
      → init d admin m portion token mgmt ≡ ok s
      → Reach H s
  stepped :
      (d : Deps H C) (env : Env H) (msg : HandleMsg H) (s s' : State C) (ms : List (RptMsg H))
      → Reach H s
      → handle d build_messages env s msg ≡ ok (s', ms)
      → Reach H s'

moved-split :
    {H : Type 0} (token : ContractLink H) (xs : List (H × ℕ))
    → sum_by moved (map (λ t. transfer t.0 t.1 token) xs) ≡ whole xs
moved-split token [] = refl
moved-split token (x ∷ xs) = omega (arith, moved-split token xs)

module _ {H C : Type 0} ⦃u : Uint128⦄ where
  handle-IsSplit :
      (d : Deps H C) (env : Env H) (msg : HandleMsg H) (s s' : State C) (ms : List (RptMsg H))
      → IsSplit s
      → handle d build_messages env s msg ≡ ok (s', ms)
      → IsSplit s'
  unfolding handle dispatch
  handle-IsSplit d env (configure portion m) s s' ms v h =
      let (t, q, h0) = >>=-eq-ok (guard_msg d (configure portion m)) _ h in
      let (s'', q', same) = >>=-eq-ok (handle_configure d env s portion m) _ h0 in
      rw (← ap (λ p. p.0) (ok-injective same)) (handle_configure-IsSplit d env s s'' portion m q')
  handle-IsSplit d env vest s s' ms v h = ground (arith, h, v)
  handle-IsSplit d env (component result) s s' ms v h = ground (arith, h, v)

  -- However the contract is set up and configured, the amounts that it stores add up to the portion
  -- that it stores.
  pub Reach-IsSplit : {s : State C} → Reach H s → IsSplit s
  Reach-IsSplit (started d admin m portion token mgmt s h) =
      init-IsSplit d admin m portion token mgmt s h
  Reach-IsSplit (stepped d env msg s s' ms before h) =
      handle-IsSplit d env msg s s' ms (Reach-IsSplit before) h

  -- Where the stored amounts add up to a positive portion, and with answers from the chain and the vesting
  -- contract, `vest` does not fail: with the feature `batch_transfer` and without it, it claims, then sends
  -- every recipient its amount as often as the portion goes into what is claimable, in one message or in one
  -- each; either way, what is sent and the remainder make up exactly what is claimable.
  pub handle_vest-splits :
      (d : Deps H C) (env : Env H) (s : State C) (mgmt token : ContractLink H) (m : Distribution H)
      (claimable : ℕ)
      → IsSplit s
      → 0 < s.portion
      → d.humanize_link s.mgmt ≡ ok mgmt
      → d.humanize_link s.token ≡ ok token
      → convert_keys d.human_address s.distribution ≡ ok m
      → query_claimable d env mgmt ≡ ok claimable
      → claimable < u128_mod
      → let amounts = split (claimable / s.portion) m in
        let transfers = map (λ t. transfer t.0 t.1 token) amounts in
        let batch : List (RptMsg H) = batch_transfer amounts token ∷ [] in
        (handle_vest d build_batch env s ≡ ok (claim mgmt ∷ batch, claimable % s.portion))
        × (handle_vest d build_messages env s ≡ ok (claim mgmt ∷ transfers, claimable % s.portion))
        × (sum_by moved batch + claimable % s.portion ≡ claimable)
        × (sum_by moved transfers + claimable % s.portion ≡ claimable)
  unfolding handle_vest build_messages build_batch
  handle_vest-splits d env s mgmt token m claimable v some_portion q0 q1 q2 q3 fits =
      let same = convert_keys-whole d.human_address s.distribution m q2 in
      let exact = div-add-mod claimable s.portion in
      let parts = ap (λ n. n * (claimable / s.portion)) (same ∙ v) in
      let small : whole m * (claimable / s.portion) < u128_mod = omega (arith, parts, exact) in
      let divided = div_fits claimable s.portion (omega arith) in
      let shared = shares_lem (claimable / s.portion) m small in
      (
        rw q0 (rw q1 (rw q2 (rw q3 (rw divided (rw shared refl))))),
        rw q0 (rw q1 (rw q2 (rw q3 (rw divided (rw shared refl))))),
        omega (arith, whole-split (claimable / s.portion) m, parts, exact),
        omega (
          arith,
          moved-split token (split (claimable / s.portion) m),
          whole-split (claimable / s.portion) m,
          parts,
          exact,
        ),
      )

  -- An empty distribution with a portion of zero is accepted when the contract is set up, and then `vest`
  -- panics, in both forms, whenever the vesting contract answers with a claim no larger than what is
  -- unlocked: where the links convert back and forth.
  pub init_empty-vest :
      (d d' : Deps H C) (env : Env H) (token mgmt : ContractLink H) (token' mgmt' : ContractLink C)
      (progress : Progress)
      → d.canonize_link token ≡ ok token'
      → d.canonize_link mgmt ≡ ok mgmt'
      → d'.humanize_link token' ≡ ok token
      → d'.humanize_link mgmt' ≡ ok mgmt
      → d'.progress mgmt env.contract env.time ≡ ok progress
      → progress.claimed ≤ progress.unlocked
      → (s : State C) × (init d (ok tt) [] 0 token mgmt ≡ ok s)
        × (handle_vest d' build_batch env s ≡ err (panic div_by_zero))
        × (handle_vest d' build_messages env s ≡ err (panic div_by_zero))
  unfolding init validate sum_config add_amounts convert_keys handle_vest query_claimable
      div_checked
  init_empty-vest d d' env token mgmt token' mgmt' progress p0 p1 q0 q1 q2 less =
      let left = u.sub_fits progress.unlocked progress.claimed less in
      (
        record { portion = 0; distribution = []; token = token'; mgmt = mgmt' },
        rw p0 (rw p1 refl),
        rw q1 (rw q0 (rw q2 (rw left refl))),
        rw q1 (rw q0 (rw q2 (rw left refl))),
      )
