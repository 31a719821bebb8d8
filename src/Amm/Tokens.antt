-- ===== src/Amm/Tokens.antt =====
-- libraries/amm-shared/src: token_type.rs, token_pair.rs, token_pair_amount.rs and exchange.rs. `A` is
-- the type of addresses. A binary, such as the message of a callback, is a text.
pub mod Pairs
use Prim.Native.String.{String}
use sienna_network.Base.{
  ℕ, zero, suc, Bool, true, false, Option, none, some, List, [], ◌∷◌, ◌&&◌, ◌||◌, Result, ok, err,
  ◌>>=◌, generic, native_mismatch, ◌==◌, if◌then◌else◌, Eq, string_eq, ContractLink,
}

pub data TokenType (A : Type 0) : Type 0 where
  custom_token : (contract_addr : A) (token_code_hash : String) → TokenType A
  native_token : (denom : String) → TokenType A

pub record TokenPair (A : Type 0) : Type 0 where
  pub token_0 : TokenType A
  pub token_1 : TokenType A

pub record TokenTypeAmount (A : Type 0) : Type 0 where
  pub token : TokenType A
  pub amount : ℕ

pub record TokenPairAmount (A : Type 0) : Type 0 where
  pub pair : TokenPair A
  pub amount_0 : ℕ
  pub amount_1 : ℕ

pub record Fee : Type 0 where
  pub nom : ℕ
  pub denom : ℕ

pub record ExchangeSettings (A : Type 0) : Type 0 where
  pub swap_fee : Fee
  pub sienna_fee : Fee
  pub sienna_burner : Option A

-- `Coin` of the chain.
pub record Coin : Type 0 where
  pub denom : String
  pub amount : ℕ

-- Messages to token contracts and to the chain.
pub data Msg (A : Type 0) : Type 0 where
  set_viewing_key : String → ContractLink A → Msg A
  register_receive : ContractLink A → Msg A
  instantiate_lp : (code_id : ℕ) (code_hash : String) → TokenPair A → Msg A
  callback : String → ContractLink A → Msg A
  transfer : (recipient : A) (amount : ℕ) → ContractLink A → Msg A
  transfer_from : (owner recipient : A) (amount : ℕ) → ContractLink A → Msg A
  send : (recipient : A) (amount : ℕ) → ContractLink A → Msg A
  mint : (recipient : A) (amount : ℕ) → ContractLink A → Msg A
  burn : (amount : ℕ) → ContractLink A → Msg A
  bank_send : (from_address to_address : A) → Coin → Msg A

-- What the chain and the token contracts answer.
pub record Querier (A : Type 0) : Type 0 where
  pub bank_balance : A → String → Result ℕ
  -- The balance of an address, by its viewing key.
  pub token_balance : A → String → ContractLink A → Result ℕ

-- `sent_funds.iter().find(|x| x.denom == *denom)`
unfoldable pub find_coin : String → List Coin → Option Coin
find_coin denom [] = none
find_coin denom (coin ∷ coins) =
    if string_eq.beq coin.denom denom then some coin else find_coin denom coins

-- `balances[index]`, of an array of two.
abbrev pub at : ℕ × ℕ → ℕ → ℕ
at (a, b) zero = a
at (a, b) (suc i) = b

module _ {A : Type 0} where
  abbrev pub link : A → String → ContractLink A
  link address code_hash = record { address = address; code_hash = code_hash }

  unfoldable pub is_native_token : TokenType A → Bool
  is_native_token (custom_token a h) = false
  is_native_token (native_token d) = true

  unfoldable pub assert_sent_native_token_balance : TokenType A → List Coin → ℕ → Result (Unit {0})
  unfolding find_coin
  assert_sent_native_token_balance (custom_token a h) sent amount = ok tt
  assert_sent_native_token_balance (native_token denom) sent amount = elim (find_coin denom sent) [
    | some coin ↦ if amount == coin.amount then ok tt else err (generic native_mismatch)
    | none ↦ if amount == 0 then ok tt else err (generic native_mismatch)
  ]

  unfoldable pub query_balance : Querier A → TokenType A → A → String → Result ℕ
  query_balance q (native_token denom) exchange_addr viewing_key =
      q.bank_balance exchange_addr denom
  query_balance q (custom_token a h) exchange_addr viewing_key =
      q.token_balance exchange_addr viewing_key (link a h)

  unfoldable pub create_send_msg : TokenType A → A → A → ℕ → Msg A
  create_send_msg (custom_token a h) sender recipient amount = send recipient amount (link a h)
  create_send_msg (native_token denom) sender recipient amount =
      bank_send sender recipient (record { denom = denom; amount = amount })

  -- The balances in the order of the pair.
  unfoldable pub query_balances : Querier A → TokenPair A → A → String → Result (ℕ × ℕ)
  query_balances q pair exchange_addr viewing_key = do
    amount_0 ← query_balance q pair.token_0 exchange_addr viewing_key
    amount_1 ← query_balance q pair.token_1 exchange_addr viewing_key
    ok (amount_0, amount_1)

  unfoldable pub get_token : TokenPair A → ℕ → Option (TokenType A)
  get_token pair zero = some pair.token_0
  get_token pair (suc zero) = some pair.token_1
  get_token pair (suc (suc i)) = none

module _ {A : Type 0} ⦃e : Eq A⦄ where
  -- `PartialEq`: the code hash does not count.
  unfoldable pub same_token : TokenType A → TokenType A → Bool
  same_token (custom_token a h) (custom_token b k) = e.beq a b
  same_token (native_token d) (native_token f) = string_eq.beq d f
  same_token (custom_token a h) (native_token d) = false
  same_token (native_token d) (custom_token a h) = false

  -- `PartialEq`: in either order.
  unfoldable pub same_pair : TokenPair A → TokenPair A → Bool
  unfolding same_token
  same_pair p q =
      (same_token p.token_0 q.token_0 && same_token p.token_1 q.token_1)
      || (same_token p.token_0 q.token_1 && same_token p.token_1 q.token_0)

  unfoldable pub contains : TokenPair A → TokenType A → Bool
  contains pair token = same_token pair.token_0 token || same_token pair.token_1 token

  unfoldable pub get_token_index : TokenPair A → TokenType A → Option ℕ
  get_token_index pair token =
      if same_token pair.token_0 token
      then some 0
      else if same_token pair.token_1 token
      then some 1
      else none

-- `canonize` and `humanize`; `convert` is that of one address.
module _ {A B : Type 0} (convert : A → Result B) where
  unfoldable pub convert_token : TokenType A → Result (TokenType B)
  convert_token (custom_token a h) = do b ← convert a; ok (custom_token b h)
  convert_token (native_token denom) = ok (native_token denom)

  unfoldable pub convert_pair : TokenPair A → Result (TokenPair B)
  convert_pair p = do
    token_0 ← convert_token p.token_0
    token_1 ← convert_token p.token_1
    ok (record { token_0 = token_0; token_1 = token_1 })
