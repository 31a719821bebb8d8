-- ===== src/Lend/Market/Debts.antt =====
-- contracts/lend/market/src/contract.rs: borrowing, repaying, liquidating and seizing.
use sienna_network.Base.{
  ℕ, ◌-◌, List, [], ◌∷◌, Result, ok, err, ◌>>=◌, ◌>>◌, guard, not, ltb, generic, lend, same_account,
  seize_shortfall, transfer_refused, if◌then◌else◌, Eq, Uint256, Decimals, Iterable, ContractLink,
}
use sienna_network.Lend.Market.Storage.{
  State, BorrowSnapshot, Deps, Env, Msg, transfer, seize, load_config, load_master_key,
  load_overseer, load_underlying, underlying_balance,
}
use sienna_network.Lend.Market.Interest.{
  LatestInterest, latest_borrows, latest_reserves, latest_index, accrue_interest, current_balance,
  add_balance, subtract_balance,
}
use sienna_network.Lend.Market.Accounts.{
  get_balance, add_to, subtract_from, get_borrow_snapshot, save_borrow_snapshot, new_account,
}
use sienna_network.Lend.Market.Token.{
  assert_can_withdraw, assert_borrow_allowed, assert_liquidate_allowed, increase_borrows,
  decrease_borrows, decrease_supply, calc_exchange_rate,
}

module _ {C S : Type 0} ⦃ec : Eq C⦄ ⦃w : Uint256⦄ ⦃dec : Decimals⦄
    ⦃it : Iterable S (BorrowSnapshot C)⦄ where
  -- The new debt of a borrower.
  unfoldable pub add_debt : State C S → C → (borrow_index amount : ℕ) → Result (State C S)
  add_debt s a borrow_index amount = do
    snapshot ← get_borrow_snapshot s a
    new ← add_balance snapshot borrow_index amount
    save_borrow_snapshot s a new

  -- The debt that is left, and what is left of the amount.
  unfoldable pub subtract_debt : State C S → C → (borrow_index amount : ℕ) → Result (State C S × ℕ)
  subtract_debt s a borrow_index amount = do
    snapshot ← get_borrow_snapshot s a
    (new, remainder) ← subtract_balance snapshot borrow_index amount
    s' ← save_borrow_snapshot s a new
    ok (s', remainder)

  -- `seize`, between accounts of this market.
  unfoldable pub do_seize :
      State C S
      → LatestInterest
      → (balance : ℕ) → (liquidator borrower : C) → (amount : ℕ) → Result (State C S)
  unfolding latest_borrows latest_reserves
  do_seize s latest balance liquidator borrower amount = do
    taken ← elim (subtract_from s borrower amount) [
      | ok s' ↦ ok s'
      | err problem ↦ w.sub amount (get_balance s borrower) >>= λ missing.
          err (generic (lend (seize_shortfall missing)))
    ]
    config ← load_config taken
    protocol_share ← dec.decimal_mul amount config.seize_factor
    liquidator_share ← w.sub amount protocol_share
    let reserve = latest_reserves latest taken
    rate ← calc_exchange_rate taken balance (latest_borrows latest taken) reserve
    protocol_amount ← dec.decimal_mul protocol_share rate
    new_reserve ← w.add reserve protocol_amount
    less ← decrease_supply (record taken { interest_reserve = new_reserve }) protocol_share
    add_to less liquidator liquidator_share

module _ {H C S : Type 0} ⦃e : Eq H⦄ ⦃ec : Eq C⦄ ⦃w : Uint256⦄ ⦃dec : Decimals⦄
    ⦃it : Iterable S (BorrowSnapshot C)⦄ (d : Deps H C) where
  -- `borrow`
  unfoldable pub do_borrow : Env H → State C S → (amount : ℕ) → Result (State C S × List (Msg H))
  do_borrow env s amount = do
    underlying ← load_underlying d s
    balance ← underlying_balance d s env.contract.address
    assert_can_withdraw balance amount
    (accrued, latest) ← accrue_interest d s env.block balance
    assert_borrow_allowed d accrued env.sender env.block env.contract.address amount
    (known, a) ← new_account d accrued env.sender
    owing ← add_debt known a (latest_index latest known) amount
    s' ← increase_borrows owing amount
    paid ← w.clamp_u128 amount
    ok (s', transfer env.sender paid underlying ∷ [])

  -- `repay`
  unfoldable pub do_repay :
      State C S
      → LatestInterest
      → (borrower : C) → (sender : H) → (amount : ℕ) → Result (State C S × List (Msg H))
  do_repay s interest borrower sender amount = do
    (s', remainder) ← subtract_debt s borrower (latest_index interest s) amount
    s'' ← decrease_borrows s' (amount - remainder)
    (if ltb 0 remainder
        then (do
          underlying ← load_underlying d s''
          ok (s'', transfer sender (w.low_u128 remainder) underlying ∷ []))
        else ok (s'', []))

  -- What a liquidation asks for, before anything is written.
  unfoldable pub check_liquidation :
      Env H
      → State C S
      → (liquidator borrower : C) → (index amount : ℕ)
      → Result (BorrowSnapshot C × H × ContractLink H)
  check_liquidation env s liquidator borrower index amount = do
    guard (not (ec.beq liquidator borrower)) (generic (lend same_account))
    snapshot ← get_borrow_snapshot s borrower
    borrower_address ← d.humanize borrower
    overseer ← load_overseer d s
    balance ← current_balance snapshot index
    assert_liquidate_allowed d s overseer borrower_address balance env.block amount
    ok (snapshot, borrower_address, overseer)

  -- `liquidate`
  unfoldable pub do_liquidate :
      Env H
      → State C S
      → LatestInterest
      → (balance : ℕ) → (liquidator_address : H) → (borrower : C) → (collateral : H) → (amount : ℕ)
      → Result (State C S × List (Msg H))
  do_liquidate env s interest balance liquidator_address borrower collateral amount = do
    liquidator ← d.canonize liquidator_address
    let index = latest_index interest s
    (snapshot, borrower_address, overseer) ←
        check_liquidation env s liquidator borrower index amount
    (new, _) ← subtract_balance snapshot index amount
    repaid ← save_borrow_snapshot s borrower new
    s' ← decrease_borrows repaid amount
    seize_amount ← d.seize_amount overseer env.contract.address collateral amount
    (if e.beq env.contract.address collateral
        then (do_seize s' interest balance liquidator borrower seize_amount >>= λ s''. ok (s'', []))
        else (d.market overseer collateral >>= λ market.
            ok (s', seize liquidator_address borrower_address seize_amount market ∷ [])))

  -- The handler `seize`, for other markets.
  unfoldable pub handle_seize :
      Env H → State C S → (liquidator borrower : H) → (amount : ℕ) → Result (State C S)
  handle_seize env s liquidator borrower amount = do
    overseer ← load_overseer d s
    _ ← d.market overseer env.sender
    balance ← underlying_balance d s env.contract.address
    (accrued, latest) ← accrue_interest d s env.block balance
    to ← d.canonize liquidator
    from ← d.canonize borrower
    do_seize accrued latest balance to from amount

  -- `do_transfer`
  unfoldable pub do_transfer :
      Env H → State C S → (recipient : H) → (amount : ℕ) → Result (State C S)
  do_transfer env s recipient amount = do
    from ← d.canonize env.sender
    to ← d.canonize recipient
    overseer ← load_overseer d s
    key ← load_master_key s
    allowed ← d.can_transfer overseer key env.sender env.contract.address env.block amount
    guard allowed (generic (lend transfer_refused))
    s' ← subtract_from s from amount
    add_to s' to amount
