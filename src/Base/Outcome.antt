-- ===== src/Base/Outcome.antt =====
-- Results of fallible code. `StdError` of cosmwasm_std and the messages that the contracts put into
-- `StdError::generic_err`, with their arguments; a panic aborts the transaction as an error does.
use Prim.Native.Nat.{ℕ}
use Prim.Native.String.{String}
use mathlib.Core.Path.{◌≡◌, refl}
use mathlib.Core.Logic.{◌⊎◌, inl, inr}
use mathlib.Core.Option.{Option, none, some}
use mathlib.Core.Bool.{Bool, true, false}
use mathlib.Core.List.{List, [], ◌∷◌}

pub data Panic : Type 0 where
  overflow div_by_zero assertion unwrap_none : Panic

-- The functions of contracts/amm/rewards/errors.rs.
pub data RewardsError : Type 0 where
  invalid_epoch_number : (epoch next_epoch : ℕ) → RewardsError
  no_time_travel : (code : ℕ) → RewardsError
  pool_not_closed : RewardsError
  withdraw_refused withdraw_fatal : (staked withdrawn : ℕ) → RewardsError
  claim_bonding : (bonding : ℕ) → RewardsError
  claim_pool_empty claim_zero_claimable export_state_miscalled : RewardsError
  immigration_disallowed emigration_disallowed poll_expired unstake_disallowed : RewardsError
  governance_closed : (time : ℕ) (reason : String) → RewardsError
  not_enough_stake_to_vote : (balance required : ℕ) → RewardsError

-- What the contracts of contracts/lend and libraries/lend-shared say.
pub data LendError : Type 0 where
  empty_msg cap_overflow cap_reached zero_repay not_liquidatable redeem_refused : LendError
  transfer_refused same_account balance_overflow no_id seed_set : LendError
  reserve_factor_range zero_initial_rate premium_range close_factor_range ltv_range : LendError
  zero_price_whitelist zero_price_ltv already_listed not_listed too_many_markets : LendError
  not_entered borrowing no_markets invalid_price : LendError
  low_balance low_reserve low_supply repay_too_high low_funds : (had needed : ℕ) → LendError
  shortfall seize_shortfall below_requirement future_block : ℕ → LendError
  unknown_id : String → LendError

pub data Message : Type 0 where
  -- libraries/schedule/lib/errors.rs
  schedule_total : ℕ → ℕ → Message
  pool_not_found : String → Message
  pool_total : String → ℕ → ℕ → Message
  pool_full : String → Message
  account_too_big : String → ℕ → ℕ → Message
  account_empty : String → Message
  cliff_too_big : String → ℕ → ℕ → Message
  does_not_add_up : String → Message
  -- contracts/tge/mgmt/src/lib.rs
  nothing underway prelaunch : Message
  prefund_balance : ℕ → ℕ → Message
  -- contracts/tge/rpt/src/lib.rs
  allocations_total : ℕ → ℕ → Message
  -- libraries/amm-shared/src/token_type.rs
  native_mismatch : Message
  -- contracts/amm/exchange/src/contract.rs and state.rs
  same_token_pair empty_callback zero_liquidity wrong_pair fell_short : Message
  unmanaged_token slippage_range slippage_exceeded no_settings no_config : Message
  lend : LendError → Message
  -- contracts/amm/rewards
  rewards : RewardsError → Message
  no_reward_token no_self_link no_lp_token no_reward_vk no_bonding no_timekeeper : Message
  no_admin no_vote already_voted same_vote poor_creator too_short too_long : Message

pub data Error : Type 0 where
  panic : Panic → Error
  generic : Message → Error
  unauthorized : Error
  -- What code outside the repository returns.
  external : ℕ → Error

pub data Result {ℓ} (A : Type ℓ) : Type ℓ where
  ok : A → Result A
  err : Error → Result A

module _ {ℓ κ} {X : Type ℓ} {Y : Type κ} where
  infixl 5 ◌>>=◌
  -- The `?` operator.
  abbrev pub ◌>>=◌ : Result X → (X → Result Y) → Result Y
  err problem >>= next = err problem
  ok x >>= next = next x

  -- Inversion of a successful bind, for proofs where the parts stay shut.
  pub >>=-eq-ok :
      (before : Result X) (next : X → Result Y) {y : Y}
      → (before >>= next) ≡ ok y
      → (x : X) × (before ≡ ok x) × (next x ≡ ok y)
  >>=-eq-ok (err problem) next h = cc
  >>=-eq-ok (ok x) next h = (x, refl, h)

  -- The same with what follows from it, so that a chain of them stays small.
  pub >>=-elim {μ} :
      (before : Result X) (next : X → Result Y) {y : Y} {P : Type μ}
      → (before >>= next) ≡ ok y
      → ((x : X) → before ≡ ok x → next x ≡ ok y → P)
      → P
  >>=-elim before next h use_parts =
      let (x, e, rest) = >>=-eq-ok before next h in use_parts x e rest

infixl 5 ◌>>◌
abbrev pub ◌>>◌ {κ} : {Y : Type κ} → Result (Unit {0}) → Result Y → Result Y
before >> next = before >>= λ _. next

-- `ok_or`, and `unwrap` with the panic as the error.
abbrev pub or_fail {ℓ} : {X : Type ℓ} → Option X → (problem : Error) → Result X
or_fail (some x) problem = ok x
or_fail none problem = err problem

-- `unwrap_or`
abbrev pub unwrap_or {ℓ} : {X : Type ℓ} → Option X → X → X
unwrap_or none fallback = fallback
unwrap_or (some x) fallback = x

-- `unwrap` of a result: an error becomes a panic.
abbrev pub unwrap {ℓ} : {X : Type ℓ} → Result X → Result X
unwrap (err problem) = err (panic unwrap_none)
unwrap (ok x) = ok x

pub unwrap-eq-ok {ℓ} : {X : Type ℓ} (r : Result X) {x : X} → unwrap r ≡ ok x → r ≡ ok x
unwrap-eq-ok (err problem) h = cc
unwrap-eq-ok (ok y) h = h

pub or_fail-eq-ok {ℓ} :
    {X : Type ℓ} (o : Option X) (problem : Error) {x : X} → or_fail o problem ≡ ok x → o ≡ some x
or_fail-eq-ok none problem h = cc
or_fail-eq-ok (some x) problem h = cc

-- A test that returns early with the error where it fails.
abbrev pub guard : (test : Bool) → (problem : Error) → Result (Unit {0})
guard false problem = err problem
guard true problem = ok tt

pub guard-eq-ok :
    (test : Bool) (problem : Error) {x : Unit {0}} → guard test problem ≡ ok x → test ≡ true
guard-eq-ok false problem h = cc
guard-eq-ok true problem h = refl

-- `iter().map(f).collect::<StdResult<Vec<_>>>()`: the first error stops it.
abbrev pub traverse {ℓ κ} : {A : Type ℓ} {B : Type κ} → (A → Result B) → List A → Result (List B)
traverse f [] = ok []
traverse f (x ∷ xs) = do y ← f x; ys ← traverse f xs; ok (y ∷ ys)

-- To split on a result and keep the equation.
pub Result-cases {ℓ} :
    {A : Type ℓ} (r : Result A) → ((a : A) × (r ≡ ok a)) ⊎ ((problem : Error) × (r ≡ err problem))
Result-cases (ok a) = inl (a, refl)
Result-cases (err problem) = inr (problem, refl)

pub ok-injective {ℓ} : {A : Type ℓ} {a b : A} → ok a ≡ ok b → a ≡ b
ok-injective h = cc

module _ {X Y : Type 0} (f : X → Result Y) (g : Y → Result X) where
  -- Where every entry maps back, the list does.
  pub traverse_back :
      ((x : X) (y : Y) → f x ≡ ok y → g y ≡ ok x)
      → (xs : List X) (ys : List Y) → traverse f xs ≡ ok ys
      → traverse g ys ≡ ok xs
  traverse_back back [] ys h = rw (← ok-injective h) refl
  traverse_back back (x ∷ xs) ys h =
      let (y, e, rest) = >>=-eq-ok (f x) (λ v. traverse f xs >>= λ vs. ok (v ∷ vs)) h in
      let (zs, es, same) = >>=-eq-ok (traverse f xs) (λ vs. ok (y ∷ vs)) rest in
      rw (← ok-injective same) (rw (back x y e) (rw (traverse_back back xs zs es) refl))
