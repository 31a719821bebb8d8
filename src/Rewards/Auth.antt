-- ===== src/Rewards/Auth.antt =====
-- contracts/amm/rewards/auth.rs: the admin, the next admin and viewing keys. Permits are signatures, and
-- are not modelled.
use Prim.Native.String.{String}
use sienna_network.Base.{
  Option, none, some, unwrap_or, Result, ok, ◌>>=◌, ◌>>◌, guard, or_fail, generic, panic,
  unwrap_none, no_admin, unauthorized, Eq, string_eq,
}
use sienna_network.Base.Dict
use sienna_network.Rewards.Storage.{Admins, Deps, Env}

pub data AuthHandle (H : Type 0) : Type 0 where
  nominate : H → AuthHandle H
  become : AuthHandle H
  create_key : (entropy : String) → AuthHandle H
  set_key : String → AuthHandle H

module _ {H C : Type 0} ⦃e : Eq H⦄ ⦃ec : Eq C⦄ (d : Deps H C) where
  unfoldable pub load_admin : Admins C → Result H
  load_admin a = do admin ← or_fail a.admin (generic no_admin); d.humanize admin

  unfoldable pub load_next_admin : Admins C → Result H
  load_next_admin a = do admin ← or_fail a.next_admin (generic no_admin); d.humanize admin

  unfoldable pub assert_admin : Admins C → Env H → Result (Unit {0})
  assert_admin a env = do admin ← load_admin a; guard (e.beq admin env.sender) unauthorized

  unfoldable pub save_admin : Admins C → H → Result (Admins C)
  save_admin a admin = do canonical ← d.canonize admin; ok (record a { admin = some canonical })

  unfoldable pub save_next_admin : Admins C → H → Result (Admins C)
  save_next_admin a admin = do
    canonical ← d.canonize admin
    ok (record a { next_admin = some canonical })

  -- `Auth::init`
  unfoldable pub init_auth :
      Env H → Option H → (contract_address : H) → Admins C → Result (Admins C)
  init_auth env admin contract_address a = do
    let first = unwrap_or admin env.sender
    with_admin ← save_admin a first
    contract ← d.canonize contract_address
    save_next_admin (record with_admin { contract = some contract }) first

  unfoldable pub nominate_admin : Env H → H → Admins C → Result (Admins C)
  nominate_admin env address a = do assert_admin a env; save_next_admin a address

  unfoldable pub become_admin : Env H → Admins C → Result (Admins C)
  become_admin env a = do
    next ← load_next_admin a
    guard (e.beq next env.sender) unauthorized
    save_admin a env.sender

  unfoldable pub load_contract_address : Admins C → Result H
  load_contract_address a = do address ← or_fail a.contract (panic unwrap_none); d.humanize address

  unfoldable pub save_vk : H → String → Admins C → Result (Admins C)
  save_vk address key a = do
    id ← d.canonize address
    ok (record a { viewing_keys = Dict.put id (some key) a.viewing_keys })

  unfoldable pub load_vk : Admins C → H → Result (Option String)
  load_vk a address = do id ← d.canonize address; ok (Dict.get none id a.viewing_keys)

  -- `set_vk`, and `create_vk` with the key that the platform makes of the entropy.
  unfoldable pub set_vk : Env H → String → Admins C → Result (Admins C)
  set_vk env key a = save_vk env.sender key a

  unfoldable pub create_vk : Env H → (entropy : String) → Admins C → Result (Admins C)
  create_vk env entropy a = save_vk env.sender (d.new_viewing_key env entropy) a

  unfoldable pub check_vk : Admins C → H → (provided : String) → Result H
  check_vk a address provided = do
    stored ← load_vk a address
    key ← or_fail stored unauthorized
    guard (d.check_viewing_key provided key) unauthorized
    ok address
