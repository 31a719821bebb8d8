-- ===== src/Rewards/Storage.antt =====
-- contracts/amm/rewards: what the contract stores, by storage key, and its configuration (config.rs).
-- `H` is the type of human addresses, `C` of canonical ones, `D` of decimals.
use Prim.Native.String.{String}
use sienna_network.Base.{
  ℕ, ◌-◌, Bool, Option, none, some, List, [], ◌∷◌, ◌++◌, ◌&&◌, Result, ok, err, ◌>>=◌, guard,
  or_fail, leb, generic, rewards, no_time_travel, pool_not_closed, no_reward_token, no_self_link,
  no_lp_token, no_bonding, no_timekeeper, Eq, string_eq, ContractLink,
}
use sienna_network.Base.Dict.{Dict}

-- The keys of an account.
pub record Stored : Type 0 where
  pub updated : Option ℕ
  pub staked : Option ℕ
  pub volume : Option ℕ
  pub entry_vol : Option ℕ
  pub entry_rew : Option ℕ
  pub bonding : Option ℕ

abbrev pub nothing_stored : Stored
nothing_stored = record {
  updated = none;
  staked = none;
  volume = none;
  entry_vol = none;
  entry_rew = none;
  bonding = none;
}

pub data VoteType : Type 0 where
  vote_yes vote_no : VoteType

pub record Vote (C : Type 0) : Type 0 where
  pub choice : VoteType
  pub power : ℕ
  pub voter : C

pub record PollResult : Type 0 where
  pub poll_id : ℕ
  pub yes_votes : ℕ
  pub no_votes : ℕ

pub data PollStatus : Type 0 where
  active failed passed : PollStatus

pub record PollMetadata : Type 0 where
  pub title : String
  pub description : String
  pub poll_type : String

-- A poll, whose parts are always stored together. `Expiration::AtTime` is its moment.
pub record Poll (C D : Type 0) : Type 0 where
  pub id : ℕ
  pub creator : C
  pub metadata : PollMetadata
  pub expiration : ℕ
  pub status : PollStatus
  pub current_quorum : D

-- The keys under "/gov/".
pub record Gov (C D : Type 0) : Type 0 where
  pub threshold : Option ℕ
  pub quorum : Option D
  pub deadline : Option ℕ
  pub closed : Option (ℕ × String)
  pub poll_count : Option ℕ
  pub polls : Dict ℕ (Option (Poll C D))
  pub results : Dict ℕ (Option PollResult)
  -- By poll, then by voter.
  pub votes : Dict ℕ (Dict C (Option (Vote C)))
  pub active_polls : Dict C (List ℕ)
  pub created_polls : Dict C (List ℕ)

-- The keys under "/config/".
pub record Config (C : Type 0) : Type 0 where
  pub self_link : Option (ContractLink C)
  pub lp_token : Option (ContractLink C)
  pub reward_token : Option (ContractLink C)
  pub reward_vk : Option String
  pub bonding : Option ℕ
  pub timekeeper : Option C
  -- `CloseSeal`: when and why the pool was closed.
  pub closed : Option (ℕ × String)

-- The keys under "/epoch/".
pub record Epoch : Type 0 where
  pub number : Option ℕ
  pub start : Option ℕ
  pub volume : Option ℕ

-- The keys under "/total/".
pub record Totals : Type 0 where
  pub volume : Option ℕ
  pub updated : Option ℕ
  pub staked : Option ℕ
  pub claimed : Option ℕ

-- The keys of auth.rs.
pub record Admins (C : Type 0) : Type 0 where
  pub admin : Option C
  pub next_admin : Option C
  pub contract : Option C
  pub viewing_keys : Dict C (Option String)

pub record State (H C D : Type 0) : Type 0 where
  pub config : Config C
  pub epoch : Epoch
  pub totals : Totals
  pub accounts : Dict C Stored
  pub gov : Gov C D
  pub admins : Admins C
  -- The contracts to which, and from which, accounts may migrate.
  pub migrate_to : Dict C (Option (ContractLink H))
  pub migrate_from : Dict C (Option (ContractLink H))

pub record Env (H : Type 0) : Type 0 where
  pub sender : H
  pub time : ℕ
  pub contract : ContractLink H

-- `AccountSnapshot`
pub record Snapshot (H : Type 0) : Type 0 where
  pub migrant : H
  pub viewing_key : Option String
  pub staked : ℕ

-- Messages to the token contracts, and to the contracts of a migration.
pub data Msg (H : Type 0) : Type 0 where
  transfer : (recipient : H) (amount : ℕ) → ContractLink H → Msg H
  transfer_from : (owner recipient : H) (amount : ℕ) → ContractLink H → Msg H
  send : (recipient : ContractLink H) (amount : ℕ) (msg : Option String) → ContractLink H → Msg H
  register_receive : (code_hash : String) → ContractLink H → Msg H
  set_viewing_key : String → ContractLink H → Msg H
  increase_allowance : (spender : H) (amount expiration : ℕ) → ContractLink H → Msg H
  export_state : (migrant : H) → ContractLink H → Msg H
  receive_migration : String → ContractLink H → Msg H

-- What the chain, the token contracts and the encoding of messages do.
pub record Deps (H C : Type 0) : Type 0 where
  pub canonize : H → Result C
  pub humanize : C → Result H
  pub canonize_link : ContractLink H → Result (ContractLink C)
  pub humanize_link : ContractLink C → Result (ContractLink H)
  -- The balance in a token of an address, by its viewing key.
  pub balance : ContractLink H → H → String → Result ℕ
  -- `from_slice` and `to_binary` of a snapshot.
  pub parse_snapshot : String → Result (Snapshot H)
  pub print_snapshot : Snapshot H → Result String
  -- `ViewingKey::new`, and whether a key matches the stored one.
  pub new_viewing_key : Env H → String → String
  pub check_viewing_key : (given stored : String) → Bool

-- `RewardsConfig`, whose fields may be left out.
pub record RewardsConfig (H : Type 0) : Type 0 where
  pub lp_token : Option (ContractLink H)
  pub reward_token : Option (ContractLink H)
  pub reward_vk : Option String
  pub bonding : Option ℕ
  pub timekeeper : Option H

-- Seconds in a day.
abbrev pub day : ℕ
day = 86400

module _ {H C : Type 0} (d : Deps H C) where
  unfoldable pub load_self_link : Config C → Result (ContractLink H)
  load_self_link c = do link ← or_fail c.self_link (generic no_self_link); d.humanize_link link

  unfoldable pub load_lp_token : Config C → Result (ContractLink H)
  load_lp_token c = do link ← or_fail c.lp_token (generic no_lp_token); d.humanize_link link

  unfoldable pub load_reward_token : Config C → Result (ContractLink H)
  load_reward_token c = do
    link ← or_fail c.reward_token (generic no_reward_token)
    d.humanize_link link

  unfoldable pub load_timekeeper : Config C → Result H
  load_timekeeper c = do keeper ← or_fail c.timekeeper (generic no_timekeeper); d.humanize keeper

  -- How long ago the pool was closed.
  unfoldable pub assert_closed : Config C → Env H → Result ℕ
  assert_closed c env = elim c.closed [
    | some (closed, why) ↦
        guard (leb closed env.time) (generic (rewards (no_time_travel 1))) >>= λ _.
        ok (env.time - closed)
    | none ↦ err (generic (rewards pool_not_closed))
  ]

  unfoldable pub store_lp_token :
      Env H → Option (ContractLink H) → Config C → Result (Config C × List (Msg H))
  store_lp_token env none c = ok (c, [])
  store_lp_token env (some link) c = do
    canonical ← d.canonize_link link
    ok (record c { lp_token = some canonical }, register_receive env.contract.code_hash link ∷ [])

  abbrev pub store_bonding : Option ℕ → Config C → Config C
  store_bonding none c = c
  store_bonding (some bonding) c = record c { bonding = some bonding }

  unfoldable pub store_reward :
      Option (ContractLink H) → Option String → Config C → Result (Config C × List (Msg H))
  unfolding load_reward_token
  store_reward none none c = ok (c, [])
  store_reward none (some key) c = do
    link ← load_reward_token c
    ok (record c { reward_vk = some key }, set_viewing_key key link ∷ [])
  store_reward (some link) none c = do
    canonical ← d.canonize_link link
    ok (record c { reward_token = some canonical }, [])
  store_reward (some link) (some key) c = do
    canonical ← d.canonize_link link
    ok (
      record c { reward_token = some canonical; reward_vk = some key },
      set_viewing_key key link ∷ [],
    )

  unfoldable pub store_timekeeper : Option H → Config C → Result (Config C)
  store_timekeeper none c = ok c
  store_timekeeper (some keeper) c = do
    canonical ← d.canonize keeper
    ok (record c { timekeeper = some canonical })

  -- `RewardsConfig::store`
  unfoldable pub store_config :
      Env H → RewardsConfig H → Config C → Result (Config C × List (Msg H))
  store_config env new c = do
    (with_lp, registered) ← store_lp_token env new.lp_token c
    (with_reward, keyed) ←
        store_reward new.reward_token new.reward_vk (store_bonding new.bonding with_lp)
    stored ← store_timekeeper new.timekeeper with_reward
    ok (stored, registered ++ keyed)

  abbrev pub or_some : {A : Type 0} → Option A → A → Option A
  or_some none y = some y
  or_some (some x) y = some x

  -- `RewardsConfig::initialize`
  unfoldable pub initialize : Env H → RewardsConfig H → Config C → Result (Config C × List (Msg H))
  initialize env new c = do
    _ ← or_fail new.reward_token (generic no_reward_token)
    self_link ← d.canonize_link env.contract
    let complete = record new {
      reward_vk = or_some new.reward_vk "";
      bonding = or_some new.bonding day;
      timekeeper = or_some new.timekeeper env.sender;
    }
    store_config env complete (record c { self_link = some self_link })

  -- `RewardsConfig::from_storage`
  unfoldable pub config_from_storage : Config C → Result (RewardsConfig H)
  config_from_storage c = do
    lp_token ← load_lp_token c
    reward_token ← load_reward_token c
    bonding ← or_fail c.bonding (generic no_bonding)
    timekeeper ← load_timekeeper c
    ok (record {
      lp_token = some lp_token;
      reward_token = some reward_token;
      reward_vk = none;
      bonding = some bonding;
      timekeeper = some timekeeper;
    })

abbrev pub same_link : {H : Type 0} ⦃e : Eq H⦄ → ContractLink H → ContractLink H → Bool
same_link ⦃e⦄ a b = e.beq a.address b.address && string_eq.beq a.code_hash b.code_hash
