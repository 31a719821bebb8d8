-- ===== src/Lend/Market/Repaying.antt =====
-- contracts/lend/market/src/contract.rs: what a repayment settles, and who may be liquidated.
use sienna_network.Base.{
  ◌⊎◌, ◌<◌, [], ◌∷◌, min, ContractLink, ℕ, ◌+◌, ◌-◌, ◌≤◌, ◌≡◌, ok, List, ◌==◌, Eq, Uint256,
  Decimals, Iterable, if◌then◌else◌,
}
use sienna_network.Lend.Market.Storage.{transfer, State, BorrowSnapshot, Deps, Msg, load_underlying}
use sienna_network.Lend.Market.Interest.{current_balance}
use sienna_network.Lend.Market.Accounts.{get_borrow_snapshot, no_debt}

module _ {C : Type 0} ⦃w : Uint256⦄ ⦃dec : Decimals⦄ where
  -- What is left of a balance and of an amount.
  record Paid (b : BorrowSnapshot C) (index amount : ℕ) (r : BorrowSnapshot C × ℕ) : Type 0 where
    pub balance : ℕ
    pub owed : current_balance b index ≡ ok balance
    pub left :
        r ≡ (record b { principal = balance - amount; interest_index = index }, amount - balance)

-- What is read back of a debt of `n` that is taken at an index.
abbrev pub debt_left : {C : Type 0} → C → (index n : ℕ) → BorrowSnapshot C
debt_left a index n =
    if n == 0 then no_debt a else record { principal = n; interest_index = index; address = a }

module _ {C S : Type 0} ⦃ec : Eq C⦄ ⦃w : Uint256⦄ ⦃dec : Decimals⦄
    ⦃it : Iterable S (BorrowSnapshot C)⦄ where
  -- What a repayment does to the debts and to their total.
  pub record Repaid (s s' : State C S) (borrower : C) (index amount owed : ℕ) : Type 0 where
    pub before : BorrowSnapshot C
    pub was : get_borrow_snapshot s borrower ≡ ok before
    pub owes : current_balance before index ≡ ok owed
    pub debts :
        (c : C)
        → get_borrow_snapshot s' c ≡ (
            if ec.beq borrower c
            then ok (debt_left borrower index (owed - amount))
            else get_borrow_snapshot s c)
    pub sum : s'.total_borrows + min owed amount ≡ s.total_borrows

  -- Where the amount is more than what was owed, the rest goes back to the sender.
  pub Refunded : {H : Type 0} → Deps H C → State C S → H → (owed amount : ℕ) → List (Msg H) → Type 0
  Refunded {H} d s sender owed amount messages =
      ((amount ≤ owed) × (messages ≡ []))
      ⊎ ((owed < amount)
          × ((underlying : ContractLink H) × (load_underlying d s ≡ ok underlying)
              × (messages ≡ transfer sender (w.low_u128 (amount - owed)) underlying ∷ [])))
