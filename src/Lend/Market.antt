-- ===== src/Lend/Market.antt =====
-- contracts/lend/market/src/contract.rs: how the market is set up, what it does while it is paused, and its
-- handlers.
pub mod Storage
pub mod Interest
pub mod Accounts
pub mod Token
pub mod Debts
pub mod Queries
pub mod Sound
pub mod Owing
pub mod Backing
pub mod Invariant
pub mod Reach
pub mod Growth
pub mod Repaying
use Prim.Native.String.{String}
use sienna_network.Base.{
  ℕ, ◌-◌, Bool, true, false, Option, none, some, List, [], ◌∷◌, Result, ok, err, ◌>>=◌, ◌>>◌, guard,
  or_fail, not, ltb, generic, lend, empty_msg, low_balance, low_reserve, unauthorized,
  if◌then◌else◌, unwrap_or, Eq, Uint128, Uint256, Decimals, decimal_one, Iterable, ContractLink,
}
use Storage.{
  Config, State, BorrowSnapshot, Deps, Env, ReceiverMsg, deposit, repay, liquidate, Msg, transfer,
  callback, set_viewing_key, register_receive, receive, validate, set_reserve_factor, load_config,
  load_underlying, underlying_balance,
}
use Interest.{LatestInterest, latest_reserves, accrue_interest}
use Accounts.{from_id, set_prng_seed, set_receiver, get_receiver}
use Token
use Debts.{do_borrow, do_repay, do_liquidate, handle_seize, do_transfer}

pub record InitMsg (H : Type 0) : Type 0 where
  pub prng_seed : String
  pub entropy : String
  pub key : String
  pub underlying_asset : ContractLink H
  pub interest_model_contract : ContractLink H
  pub config : Config
  pub callback_contract : ContractLink H
  pub callback_msg : String

pub data HandleMsg (H : Type 0) : Type 0 where
  receive_tokens : (from : H) (msg : Option String) (amount : ℕ) → HandleMsg H
  redeem_token : (burn_amount : ℕ) → HandleMsg H
  redeem_underlying : (receive_amount : ℕ) → HandleMsg H
  borrow : (amount : ℕ) → HandleMsg H
  transfer_tokens : (recipient : H) (amount : ℕ) → HandleMsg H
  send :
      (recipient : H) (code_hash : Option String) (amount : ℕ) (msg memo : Option String)
      → HandleMsg H
  register : (code_hash : String) → HandleMsg H
  accrue : HandleMsg H
  seize_tokens : (liquidator borrower : H) (amount : ℕ) → HandleMsg H
  update_config :
      (interest_model : Option (ContractLink H)) (reserve_factor borrow_cap : Option ℕ)
      → HandleMsg H
  reduce_reserves : (amount : ℕ) (to : Option H) → HandleMsg H

-- What may be done while the market is paused, of the messages above.
unfoldable pub allowed_in_pause : {H : Type 0} → HandleMsg H → Bool
allowed_in_pause (update_config interest_model reserve_factor borrow_cap) = true
allowed_in_pause (reduce_reserves amount to) = true
allowed_in_pause (receive_tokens from msg amount) = false
allowed_in_pause (redeem_token burn_amount) = false
allowed_in_pause (redeem_underlying receive_amount) = false
allowed_in_pause (borrow amount) = false
allowed_in_pause (transfer_tokens recipient amount) = false
allowed_in_pause (send recipient code_hash amount msg memo) = false
allowed_in_pause (register code_hash) = false
allowed_in_pause accrue = false
allowed_in_pause (seize_tokens liquidator borrower amount) = false

-- The handle guard.
unfoldable pub guard_msg : {H C : Type 0} → Deps H C → HandleMsg H → Result (Unit {0})
guard_msg d msg = elim d.is_operational [
  | ok u ↦ ok u
  | err problem ↦ if allowed_in_pause msg then ok tt else err problem
]

-- A contract that is replaced, or not.
unfoldable pub or_kept :
    {H C : Type 0}
    → Deps H C
    → Option (ContractLink H)
    → Option (ContractLink C)
    → Result (Option (ContractLink C))
or_kept d none old = ok old
or_kept d (some link) old = d.canonize_link link >>= λ canonical. ok (some canonical)

module _ {H C S : Type 0} (d : Deps H C) where
  -- `new`, in the storage that is there. The admin component is told the admin.
  unfoldable pub new : Env H → State C S → InitMsg H → Result (State C S × List (Msg H))
  new env s msg = do
    validate msg.config
    seeded ←
        set_prng_seed (record s { master_key = some msg.key; config = some msg.config })
          msg.prng_seed
    overseer ← d.canonize_link msg.callback_contract
    interest_model ← d.canonize_link msg.interest_model_contract
    underlying ← d.canonize_link msg.underlying_asset
    self_ref ← d.canonize_link env.contract
    let vk = d.new_viewing_key env msg.prng_seed msg.entropy
    ok (
      record seeded {
        overseer = some overseer;
        interest_model = some interest_model;
        underlying = some underlying;
        self_ref = some self_ref;
        borrow_index = decimal_one;
        accrual_block = env.block;
        underlying_vk = some vk;
      },
      callback msg.callback_msg msg.callback_contract
          ∷ set_viewing_key vk msg.underlying_asset
          ∷ register_receive env.contract.code_hash msg.underlying_asset
          ∷ [],
    )

unfoldable pub or_kept_factor : {C S : Type 0} → Option ℕ → State C S → Result (State C S)
or_kept_factor none s = ok s
or_kept_factor (some reserve_factor) s = do
  config ← load_config s
  changed ← set_reserve_factor config reserve_factor
  ok (record s { config = some changed })

abbrev pub or_kept_cap : Option ℕ → Option ℕ → Option ℕ
or_kept_cap none old = old
or_kept_cap (some cap) old = some cap

module _ {H C S : Type 0} ⦃e : Eq H⦄ ⦃ec : Eq C⦄ ⦃u : Uint128⦄ ⦃w : Uint256⦄ ⦃dec : Decimals⦄
    ⦃it : Iterable S (BorrowSnapshot C)⦄ (d : Deps H C) where
  -- Who repays names a borrower, or is one.
  unfoldable pub borrower_of : State C S → Option String → (from : H) → Result C
  borrower_of s none from = d.canonize from
  borrower_of s (some id) from = from_id s id

  -- What the tokens that came in are for.
  unfoldable pub dispatch_received :
      Env H
      → State C S
      → LatestInterest
      → (balance : ℕ) → (from : H) → (amount : ℕ) → ReceiverMsg H
      → Result (State C S × List (Msg H))
  dispatch_received env s interest balance from amount deposit =
      Token.deposit d s interest balance from amount >>= λ s'. ok (s', [])
  dispatch_received env s interest balance from amount (repay id) = do
    borrower ← borrower_of s id from
    do_repay d s interest borrower from amount
  dispatch_received env s interest balance from amount (liquidate id collateral) = do
    borrower ← from_id s id
    do_liquidate d env s interest balance from borrower collateral amount

  -- `receive`
  unfoldable pub do_receive :
      Env H
      → State C S
      → (from : H) → (msg : Option String) → (amount : ℕ) → Result (State C S × List (Msg H))
  do_receive env s from msg amount = do
    text ← or_fail msg (generic (lend empty_msg))
    underlying ← load_underlying d s
    guard (e.beq env.sender underlying.address) unauthorized
    increased ← underlying_balance d s env.contract.address
    balance ← u.sub increased amount
    (accrued, interest) ← accrue_interest d s env.block balance
    received ← d.from_binary text
    dispatch_received env accrued interest balance from amount received

  -- `send`: the recipient is told, where its code hash is known.
  unfoldable pub do_send :
      Env H
      → State C S
      → (recipient : H) → (code_hash : Option String) → (amount : ℕ) → (msg memo : Option String)
      → Result (State C S × List (Msg H))
  do_send env s recipient code_hash amount msg memo = do
    s' ← do_transfer d env s recipient amount
    known ← elim code_hash [ some hash ↦ ok (some hash) | none ↦ get_receiver d s' recipient ]
    ok (
      s',
      elim known [
        | some hash ↦ receive env.sender (w.low_u128 amount) msg memo hash recipient ∷ []
        | none ↦ []
      ],
    )

  -- The handler `accrue_interest`
  unfoldable pub do_accrue : Env H → State C S → Result (State C S)
  do_accrue env s = do
    balance ← underlying_balance d s env.contract.address
    (accrued, _) ← accrue_interest d s env.block balance
    ok accrued

  -- `update_config`
  unfoldable pub do_update_config :
      Env H
      → State C S
      → Option (ContractLink H)
      → (reserve_factor borrow_cap : Option ℕ) → Result (State C S)
  do_update_config env s interest_model reserve_factor borrow_cap = do
    d.assert_admin env
    accrued ← do_accrue env s
    model ← or_kept d interest_model accrued.interest_model
    s' ← or_kept_factor reserve_factor (record accrued { interest_model = model })
    ok (record s' { borrow_cap = or_kept_cap borrow_cap s'.borrow_cap })

  -- `reduce_reserves`
  unfoldable pub do_reduce_reserves :
      Env H → State C S → (amount : ℕ) → (to : Option H) → Result (State C S × List (Msg H))
  do_reduce_reserves env s amount to = do
    d.assert_admin env
    underlying ← load_underlying d s
    balance ← underlying_balance d s env.contract.address
    guard (not (ltb balance amount)) (generic (lend (low_balance balance amount)))
    (accrued, latest) ← accrue_interest d s env.block balance
    let reserve = latest_reserves latest accrued
    guard (not (ltb reserve amount)) (generic (lend (low_reserve reserve amount)))
    rest ← w.sub reserve amount
    ok (
      record accrued { interest_reserve = rest },
      transfer (unwrap_or to env.sender) amount underlying ∷ [],
    )

  abbrev pub silent : Result (State C S) → Result (State C S × List (Msg H))
  silent r = r >>= λ s. ok (s, [])

  -- The handlers, after the guard.
  unfoldable pub handle : Env H → State C S → HandleMsg H → Result (State C S × List (Msg H))
  handle env s (receive_tokens from msg amount) = do_receive env s from msg amount
  handle env s (redeem_token burn_amount) = Token.redeem d env s burn_amount 0
  handle env s (redeem_underlying receive_amount) = Token.redeem d env s 0 receive_amount
  handle env s (borrow amount) = do_borrow d env s amount
  handle env s (transfer_tokens recipient amount) = silent (do_transfer d env s recipient amount)
  handle env s (send recipient code_hash amount msg memo) =
      do_send env s recipient code_hash amount msg memo
  handle env s (register code_hash) = silent (set_receiver d s env.sender code_hash)
  handle env s accrue = silent (do_accrue env s)
  handle env s (seize_tokens liquidator borrower amount) =
      silent (handle_seize d env s liquidator borrower amount)
  handle env s (update_config interest_model reserve_factor borrow_cap) =
      silent (do_update_config env s interest_model reserve_factor borrow_cap)
  handle env s (reduce_reserves amount to) = do_reduce_reserves env s amount to

  unfoldable pub dispatch : Env H → State C S → HandleMsg H → Result (State C S × List (Msg H))
  dispatch env s msg = do guard_msg d msg; handle env s msg
