-- ===== src/Lend/Market/Interest.antt =====
-- contracts/lend/market/src/ops.rs: the balance of a borrower, and the interest.
use sienna_network.Base.{
  ℕ, ◌-◌, Option, none, some, unwrap_or, Result, ok, err, ◌>>=◌, ◌>>◌, ltb, ◌==◌, min, generic,
  lend, future_block, if◌then◌else◌, Uint256, Decimals,
}
use sienna_network.Lend.Market.Storage.{
  BorrowSnapshot, State, Deps, load_config, load_interest_model,
}

-- `AccruedInterest`
pub record AccruedInterest : Type 0 where
  pub total_borrows : ℕ
  pub total_reserves : ℕ
  pub borrow_index : ℕ

-- `LatestInterest`: what is not known yet is read from storage when it is first asked for. Every use
-- asks for a value once.
pub record LatestInterest : Type 0 where
  pub total_borrows : Option ℕ
  pub total_reserves : Option ℕ
  pub borrow_index : Option ℕ

abbrev pub no_interest : LatestInterest
no_interest = record { total_borrows = none; total_reserves = none; borrow_index = none }

-- `LatestInterest::from`
abbrev pub latest_of : AccruedInterest → LatestInterest
latest_of i = record {
  total_borrows = some i.total_borrows;
  total_reserves = some i.total_reserves;
  borrow_index = some i.borrow_index;
}

module _ {C S : Type 0} where
  unfoldable pub latest_borrows : LatestInterest → State C S → ℕ
  latest_borrows i s = unwrap_or i.total_borrows s.total_borrows

  unfoldable pub latest_reserves : LatestInterest → State C S → ℕ
  latest_reserves i s = unwrap_or i.total_reserves s.interest_reserve

  unfoldable pub latest_index : LatestInterest → State C S → ℕ
  latest_index i s = unwrap_or i.borrow_index s.borrow_index

module _ {C : Type 0} ⦃w : Uint256⦄ ⦃dec : Decimals⦄ where
  -- `BorrowSnapshot::current_balance`
  unfoldable pub current_balance : BorrowSnapshot C → (borrow_index : ℕ) → Result ℕ
  current_balance b borrow_index =
      if b.principal == 0
      then ok 0
      else (dec.decimal_mul b.principal borrow_index >>= λ grown.
          dec.decimal_div grown b.interest_index)

  -- `BorrowSnapshot::add_balance`
  unfoldable pub add_balance :
      BorrowSnapshot C → (borrow_index amount : ℕ) → Result (BorrowSnapshot C)
  add_balance b borrow_index amount = do
    balance ← current_balance b borrow_index
    principal ← w.add balance amount
    ok (record b { principal = principal; interest_index = borrow_index })

  -- `BorrowSnapshot::subtract_balance`, with what is left of the amount.
  unfoldable pub subtract_balance :
      BorrowSnapshot C → (borrow_index amount : ℕ) → Result (BorrowSnapshot C × ℕ)
  subtract_balance b borrow_index amount = do
    balance ← current_balance b borrow_index
    ok (
        if ltb balance amount
        then (record b { principal = 0; interest_index = borrow_index }, amount - balance)
        else (record b { principal = balance - amount; interest_index = borrow_index }, 0))

-- `MAX_BORROW_RATE`
abbrev pub max_borrow_rate : ℕ
max_borrow_rate = 5_000_000_000_000

module _ {H C S : Type 0} ⦃w : Uint256⦄ ⦃dec : Decimals⦄ (d : Deps H C) where
  unfoldable pub calc_accrued_interest :
      State C S → (current_block balance_prior : ℕ) → Result (Option AccruedInterest)
  calc_accrued_interest s current_block balance_prior = do
    config ← load_config s
    (if s.accrual_block == current_block then ok none else (do
      interest_model ← load_interest_model d s
      size ← dec.from_uint256 balance_prior
      borrows ← dec.from_uint256 s.total_borrows
      reserves ← dec.from_uint256 s.interest_reserve
      rate ← d.borrow_rate interest_model size borrows reserves
      (if ltb current_block s.accrual_block
          then err (generic (lend (future_block s.accrual_block)))
          else ok tt)
      delta ← dec.from_uint256 (current_block - s.accrual_block)
      factor ← dec.mul (min rate max_borrow_rate) delta
      accumulated ← dec.decimal_mul s.total_borrows factor
      total_borrows ← w.add accumulated s.total_borrows
      reserved ← dec.decimal_mul accumulated config.reserve_factor
      total_reserves ← w.add reserved s.interest_reserve
      grown ← dec.mul s.borrow_index factor
      borrow_index ← dec.add grown s.borrow_index
      ok (
          some (record {
            total_borrows = total_borrows;
            total_reserves = total_reserves;
            borrow_index = borrow_index;
          }))))

  abbrev pub set_interest : State C S → (block : ℕ) → AccruedInterest → State C S
  set_interest s block i = record s {
    total_borrows = i.total_borrows;
    interest_reserve = i.total_reserves;
    borrow_index = i.borrow_index;
    accrual_block = block;
  }

  -- `accrue_interest`
  unfoldable pub accrue_interest :
      State C S → (current_block balance_prior : ℕ) → Result (State C S × LatestInterest)
  accrue_interest s current_block balance_prior =
      calc_accrued_interest s current_block balance_prior >>= λ o. elim o [
        | some i ↦ ok (set_interest s current_block i, latest_of i)
        | none ↦ ok (s, no_interest)
      ]

  -- `accrued_interest_at`
  unfoldable pub accrued_interest_at :
      State C S → (block : Option ℕ) → (balance_prior : ℕ) → Result AccruedInterest
  accrued_interest_at s block balance_prior = do
    result ← elim block [ some b ↦ calc_accrued_interest s b balance_prior | none ↦ ok none ]
    ok (
        unwrap_or result (record {
          total_borrows = s.total_borrows;
          total_reserves = s.interest_reserve;
          borrow_index = s.borrow_index;
        }))
