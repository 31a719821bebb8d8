-- ===== src/Rewards/Backed.antt =====
-- Every message of contracts/amm/rewards as a step of the ledger of stakes, and what holds of every state
-- that messages lead to.
use mathlib.Core.Path.{subst}
use sienna_network.Base.{
  ◌*◌, ◌≡◌, refl, not, Option, none, List, [], ok, >>=-elim, ok-injective, guard, Eq, Uint128,
  Uint256, Decimal, unauthorized, ltb, add64,
}
use sienna_network.Rewards.{
  deposit_receiver, Handle, receive, auth, immigration, emigration, rewards_pool, drain_token,
  governance, handle, init,
}
use sienna_network.Rewards.Storage.{
  State, Deps, Env, Msg, load_reward_token, RewardsConfig, initialize, assert_closed, day,
}
use sienna_network.Rewards.Auth.{assert_admin, init_auth}
use sienna_network.Rewards.Polls.{GovernanceConfig}
use sienna_network.Rewards.Staking.{wait_period, drain}
use sienna_network.Rewards.Stakes.{Backed}
use sienna_network.Rewards.Polls.Frame.{handle_governance-GovOnly}
use sienna_network.Rewards.Steps.{
  LedgerStep, kept, LedgerStep-Backed, step_to, step_silent, GovOnly-LedgerStep,
  handle_rewards-LedgerStep,
}
use sienna_network.Base.Dict.{total}
use sienna_network.Rewards.Steps.Migration.{
  handle_auth-LedgerStep, handle_emigration-LedgerStep, handle_immigration-LedgerStep,
}

module _ {H C D : Type 0} ⦃e : Eq H⦄ ⦃ec : Eq C⦄ ⦃u : Uint128⦄ ⦃w : Uint256⦄ ⦃dec : Decimal D⦄
    (d : Deps H C) where
  -- Every accepted message moves the stake of at most one user, and with it the sum of the stakes and
  -- the stake of the pool by the same amounts.
  pub handle-LedgerStep :
      (env : Env H) (s s' : State H C D) (msg : Handle H D) (messages : List (Msg H))
      → handle d env s msg ≡ ok (s', messages)
      → LedgerStep s s'
  unfolding handle drain
  handle-LedgerStep env s s' (receive from amount) messages h =
      handle_rewards-LedgerStep d env s s' (deposit_receiver from amount) messages h
  handle-LedgerStep env s s' (auth msg) messages h =
      step_silent s s' _ messages h λ t q. handle_auth-LedgerStep d env s t msg q
  handle-LedgerStep env s s' (immigration msg) messages h =
      handle_immigration-LedgerStep d env s s' msg messages h
  handle-LedgerStep env s s' (emigration msg) messages h =
      handle_emigration-LedgerStep d env s s' msg messages h
  handle-LedgerStep env s s' (rewards_pool msg) messages h =
      handle_rewards-LedgerStep d env s s' msg messages h
  handle-LedgerStep env s s' (drain_token token recipient key) messages h =
      >>=-elim (assert_admin d s.admins env) _ h λ unit q0 h0.
        >>=-elim (assert_closed d s.config env) _ h0 λ waited q1 h1.
          >>=-elim (guard (not (ltb waited wait_period)) unauthorized) _ h1 λ unit_1 q2 h2.
            >>=-elim (load_reward_token d s.config) _ h2 λ reward_token q3 h3.
              >>=-elim (add64 env.time (day * 10000)) _ h3
                λ expiration q4 h4. step_to s _ (s', messages) (kept refl refl) h4
  handle-LedgerStep env s s' (governance msg) messages h =
      step_silent s s' _ messages h
        λ t q. GovOnly-LedgerStep s t (handle_governance-GovOnly d env s t msg q)

  init-Backed :
      (env : Env H) (admin : Option H) (config : RewardsConfig H)
      (governance_config : Option (GovernanceConfig D)) (s s' : State H C D)
      (messages : List (Msg H))
      → s.accounts ≡ []
      → s.totals.staked ≡ none
      → init d env admin config governance_config s ≡ ok (s', messages)
      → Backed s'
  unfolding init total
  init-Backed env admin config governance_config s s' messages no_accounts no_total h =
      >>=-elim (init_auth d env admin env.contract.address s.admins) _ h λ admins q0 h0.
        >>=-elim (initialize d env config s.config) _ h0
          λ r q1 h1. subst (λ p. Backed p.0) (ok-injective h1) (rw (no_accounts, no_total) refl)

-- The states that accepted messages lead to, from one that `init` makes of the empty ledger. The chain and
-- the other contracts may answer differently at each message.
pub data Reach (H C D : Type 0) ⦃e : Eq H⦄ ⦃ec : Eq C⦄ ⦃u : Uint128⦄ ⦃w : Uint256⦄ ⦃dec : Decimal D⦄
    : State H C D → Type 0 where
  begun :
      (d : Deps H C) (env : Env H) (admin : Option H) (config : RewardsConfig H)
      (governance_config : Option (GovernanceConfig D)) (s s' : State H C D)
      (messages : List (Msg H))
      → s.accounts ≡ []
      → s.totals.staked ≡ none
      → init d env admin config governance_config s ≡ ok (s', messages)
      → Reach H C D s'
  handled :
      (d : Deps H C) (env : Env H) (msg : Handle H D) (s s' : State H C D) (messages : List (Msg H))
      → Reach H C D s
      → handle d env s msg ≡ ok (s', messages)
      → Reach H C D s'

module _ {H C D : Type 0} ⦃e : Eq H⦄ ⦃ec : Eq C⦄ ⦃u : Uint128⦄ ⦃w : Uint256⦄ ⦃dec : Decimal D⦄ where
  -- In every state that accepted messages lead to, from one that `init` makes where no account and no total is
  -- stored, whatever the chain and the other contracts answer on the way, what the pool says is staked is
  -- the sum of the stakes of all accounts.
  pub Reach-Backed : (s : State H C D) → Reach H C D s → Backed s
  Reach-Backed s
        (begun d env admin config governance_config s0 s1 messages no_accounts no_total h) =
      init-Backed d env admin config governance_config s0 s messages no_accounts no_total h
  Reach-Backed s (handled d env msg before after messages reached h) =
      LedgerStep-Backed before s (handle-LedgerStep d env before s msg messages h)
        (Reach-Backed before reached)
