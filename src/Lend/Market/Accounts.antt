-- ===== src/Lend/Market/Accounts.antt =====
-- contracts/lend/market/src/state.rs: accounts, borrowers and receivers.
pub mod Borrowers
pub mod Saving
pub mod Map
use Prim.Native.String.{String}
use sienna_network.Base.{
  ℕ, ◌-◌, Bool, Option, none, some, unwrap_or, List, [], ◌∷◌, Result, ok, err, ◌>>=◌, ◌>>◌, or_fail,
  ltb, ◌==◌, generic, lend, balance_overflow, low_funds, unknown_id, no_id, seed_set, panic,
  unwrap_none, if◌then◌else◌, Eq, string_eq, Uint256, Iterable,
}
use sienna_network.Base.Dict
use sienna_network.Lend.Market.Storage.{State, BorrowSnapshot, Deps}

abbrev pub no_debt : {C : Type 0} → C → BorrowSnapshot C
no_debt a = record { principal = 0; interest_index = 0; address = a }

module _ {C S : Type 0} ⦃ec : Eq C⦄ where
  -- `Account::get_balance`
  unfoldable pub get_balance : State C S → C → ℕ
  get_balance s a = Dict.get 0 a s.balances

  -- `Account::set_balance`
  abbrev pub set_balance : State C S → C → ℕ → State C S
  set_balance s a amount = record s { balances = Dict.put a amount s.balances }

  -- `Account::add_balance` and `Account::subtract_balance`: any failure is told as one of the balance.
  unfoldable pub add_to : ⦃w : Uint256⦄ → State C S → C → (amount : ℕ) → Result (State C S)
  unfolding get_balance
  add_to ⦃w⦄ s a amount = elim (w.add (get_balance s a) amount) [
    | ok new_balance ↦ ok (set_balance s a new_balance)
    | err problem ↦ err (generic (lend balance_overflow))
  ]

  unfoldable pub subtract_from : ⦃w : Uint256⦄ → State C S → C → (amount : ℕ) → Result (State C S)
  unfolding get_balance
  subtract_from ⦃w⦄ s a amount = elim (w.sub (get_balance s a) amount) [
    | ok new_balance ↦ ok (set_balance s a new_balance)
    | err problem ↦ err (generic (lend (low_funds (get_balance s a) amount)))
  ]

  -- `Account::can_subtract`: what is missing.
  unfoldable pub can_subtract : State C S → C → (amount : ℕ) → ℕ
  unfolding get_balance
  can_subtract s a amount =
      let balance = get_balance s a in if ltb balance amount then amount - balance else 0

  -- `Account::load_id` and `Account::get_id`
  abbrev pub load_id : State C S → C → Option String
  load_id s a = Dict.get none a s.id_of_address

  unfoldable pub get_id : State C S → C → Result String
  get_id s a = or_fail (load_id s a) (generic (lend no_id))

  -- `Account::from_id`
  unfoldable pub from_id : State C S → (id : String) → Result C
  from_id s id = or_fail (Dict.get none id s.address_of_id) (generic (lend (unknown_id id)))

  -- The index of an account among the borrowers.
  abbrev pub index_of : State C S → C → Option ℕ
  index_of s a = Dict.get none a s.borrow_info

  abbrev pub set_index : State C S → C → Option ℕ → State C S
  set_index s a i = record s { borrow_info = Dict.put a i s.borrow_info }

  module _ ⦃it : Iterable S (BorrowSnapshot C)⦄ where
    -- `Account::get_borrow_snapshot`
    unfoldable pub get_borrow_snapshot : State C S → C → Result (BorrowSnapshot C)
    get_borrow_snapshot s a = elim (index_of s a) [
      | some i ↦ or_fail (it.get_at s.borrowers i) (panic unwrap_none)
      | none ↦ ok (no_debt a)
    ]

    -- The entry that took the place of a removed one gets its index.
    unfoldable pub save_swapped : State C S → (swapped : Option (BorrowSnapshot C)) → ℕ → State C S
    save_swapped s none i = s
    save_swapped s (some swapped) i = set_index s swapped.address (some i)

    unfoldable pub save_listed : State C S → C → BorrowSnapshot C → ℕ → Result (State C S)
    unfolding save_swapped
    save_listed s a info i =
        if info.principal == 0
        then (it.swap_remove s.borrowers i >>= λ r.
            ok (set_index (save_swapped (record s { borrowers = r.0 }) r.1 i) a none))
        else (it.update_at s.borrowers i info >>= λ b. ok (record s { borrowers = b }))

    unfoldable pub save_unlisted : State C S → C → BorrowSnapshot C → Result (State C S)
    save_unlisted s a info =
        if info.principal == 0
        then ok s
        else (it.push s.borrowers info >>= λ r.
            ok (set_index (record s { borrowers = r.0 }) a (some r.1)))

    -- `Account::save_borrow_snapshot`
    unfoldable pub save_borrow_snapshot : State C S → C → BorrowSnapshot C → Result (State C S)
    save_borrow_snapshot s a info = elim (index_of s a) [
      | some i ↦ save_listed s a info i
      | none ↦ save_unlisted s a info
    ]

  module _ {H : Type 0} (d : Deps H C) where
    -- `BorrowerId::new`
    unfoldable pub new_id : State C S → C → Result String
    new_id s a = do seed ← or_fail s.prng_seed (panic unwrap_none); ok (d.borrower_id a seed)

    -- `Account::new`
    unfoldable pub new_account : State C S → (address : H) → Result (State C S × C)
    new_account s address = do
      a ← d.canonize address
      elim (load_id s a) [
        | some id ↦ ok (s, a)
        | none ↦ new_id s a >>= λ id. ok (
          record s {
            address_of_id = Dict.put id (some a) s.address_of_id;
            id_of_address = Dict.put a (some id) s.id_of_address;
          },
          a,
        )
      ]

    -- `ReceiverRegistry`
    unfoldable pub set_receiver :
        State C S → (receiver : H) → (code_hash : String) → Result (State C S)
    set_receiver s receiver code_hash = do
      a ← d.canonize receiver
      ok (record s { receivers = Dict.put a (some code_hash) s.receivers })

    unfoldable pub get_receiver : State C S → (receiver : H) → Result (Option String)
    get_receiver s receiver = do a ← d.canonize receiver; ok (Dict.get none a s.receivers)

-- `BorrowerId::set_prng_seed`
unfoldable pub set_prng_seed : {C S : Type 0} → State C S → (seed : String) → Result (State C S)
set_prng_seed s seed = elim s.prng_seed [
  | some old ↦ err (generic (lend seed_set))
  | none ↦ ok (record s { prng_seed = some seed })
]
