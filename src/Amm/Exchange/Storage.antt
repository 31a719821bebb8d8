-- ===== src/Amm/Exchange/Storage.antt =====
-- contracts/amm/exchange/src/state.rs: the configuration of an exchange, in storage by canonical
-- addresses. Reading and writing storage does not fail.
pub mod RoundTrip
use Prim.Native.String.{String}
use sienna_network.Base.{
  ℕ, Option, none, some, Result, ok, err, ◌>>=◌, ◌≡◌, refl, sym, ◌∙◌, ap, generic, no_config,
  ContractLink, >>=-eq-ok, ok-injective,
}
use sienna_network.Amm.Tokens.{
  TokenType, custom_token, native_token, TokenPair, convert_token, convert_pair,
}

pub record Config (A : Type 0) : Type 0 where
  pub factory_info : ContractLink A
  pub lp_token_info : ContractLink A
  pub pair : TokenPair A
  pub contract_addr : A
  pub viewing_key : String

-- The conversion of addresses in one direction, `Canonize` or `Humanize` of fadroma.
pub record Convert (A B : Type 0) : Type 0 where
  pub address : A → Result B
  pub link : ContractLink A → Result (ContractLink B)

unfoldable pub convert_config : {A B : Type 0} → Convert A B → Config A → Result (Config B)
convert_config c config = do
  factory_info ← c.link config.factory_info
  lp_token_info ← c.link config.lp_token_info
  pair ← convert_pair c.address config.pair
  contract_addr ← c.address config.contract_addr
  ok (record {
    factory_info = factory_info;
    lp_token_info = lp_token_info;
    pair = pair;
    contract_addr = contract_addr;
    viewing_key = config.viewing_key;
  })

-- The storage of the contract, of which the key "config" is the whole.
abbrev pub State : Type 0 → Type 0
State C = Option (Config C)

module _ {H C : Type 0} where
  unfoldable pub store_config : Convert H C → Config H → Result (State C)
  store_config canonize config = do canonical ← convert_config canonize config; ok (some canonical)

  unfoldable pub load_config : Convert C H → State C → Result (Config H)
  load_config humanize none = err (generic no_config)
  load_config humanize (some config) = convert_config humanize config
