-- ===== src/Rewards/Steps/Migration.antt =====
-- The messages of contracts/amm/rewards/auth.rs and migration.rs as steps of the ledger of stakes.
use Prim.Native.String.{String}
use mathlib.Core.Path.{subst}
use sienna_network.Base.{
  ℕ, ◌+◌, ◌≡◌, refl, sym, Bool-cases, inl, inr, List, [], ◌∷◌, Result, ok, ◌>>=◌, >>=-elim,
  ok-injective, arith, Eq, Uint128, Uint256, Decimal, ContractLink, ltb, if◌then◌else◌,
}
use sienna_network.Rewards.{
  EmigrationHandle, enable_to, disable_to, export, ImmigrationHandle, enable_from, disable_from,
  request, receive_snapshot, handle_auth, handle_emigration, handle_immigration,
}
use sienna_network.Rewards.Storage.{State, Deps, Env, Msg, Snapshot, transfer, load_lp_token}
use sienna_network.Rewards.Users.{Account, from_addr, commit_withdrawal}
use sienna_network.Rewards.Auth.{
  AuthHandle, nominate, become, create_key, set_key, assert_admin, nominate_admin, become_admin,
  create_vk, set_vk, load_vk,
}
use sienna_network.Rewards.Staking.{
  commit_deposit, can_export_state, can_immigrate_from, handle_export_state,
  handle_receive_migration, set_migration_to, set_migration_from,
}
use sienna_network.Rewards.Stakes.{Moved-trans, Moved-same}
use sienna_network.Rewards.Stakes.Commits.{LoadedFor, from_addr-LoadedFor, commit_withdrawal-Staked}
use sienna_network.Rewards.Stakes.Moves.{commit_deposit-Moved}
use sienna_network.Rewards.Steps.{LedgerStep, kept, moved, step_to, step_silent}

zero_plus : (n : ℕ) → 0 + n ≡ n
zero_plus n = omega arith

module _ {H C D : Type 0} ⦃e : Eq H⦄ ⦃ec : Eq C⦄ ⦃u : Uint128⦄ ⦃w : Uint256⦄ ⦃dec : Decimal D⦄
    (d : Deps H C) where
  pub handle_auth-LedgerStep :
      (env : Env H) (s s' : State H C D) (msg : AuthHandle H)
      → handle_auth d env s msg ≡ ok s'
      → LedgerStep s s'
  unfolding handle_auth
  handle_auth-LedgerStep env s s' (nominate address) h =
      >>=-elim (nominate_admin d env address s.admins) _ h
        λ admins q0 h0. subst (λ x. LedgerStep s x) (ok-injective h0) (kept refl refl)
  handle_auth-LedgerStep env s s' become h =
      >>=-elim (become_admin d env s.admins) _ h
        λ admins q0 h0. subst (λ x. LedgerStep s x) (ok-injective h0) (kept refl refl)
  handle_auth-LedgerStep env s s' (create_key entropy) h =
      >>=-elim (create_vk d env entropy s.admins) _ h
        λ admins q0 h0. subst (λ x. LedgerStep s x) (ok-injective h0) (kept refl refl)
  handle_auth-LedgerStep env s s' (set_key key) h =
      >>=-elim (set_vk d env key s.admins) _ h
        λ admins q0 h0. subst (λ x. LedgerStep s x) (ok-injective h0) (kept refl refl)

  exported_step :
      (s : State H C D) (user sender : H) (a : Account H C) (r : State H C D × List (Msg H))
      → LoadedFor d s user a
      → (if ltb 0 a.staked
          then (commit_withdrawal s a a.staked >>= λ r. load_lp_token d r.0.config >>= λ lp_token.
              ok (r.0, transfer sender a.staked lp_token ∷ []))
          else ok (s, []))
        ≡ ok r
      → LedgerStep s r.0
  exported_step s user sender a r f h = elim (Bool-cases (ltb 0 a.staked)) [
    | inl q ↦ >>=-elim (commit_withdrawal s a a.staked) _ (rw q at h) λ v q0 h0.
        >>=-elim (load_lp_token d v.0.config) _ h0 λ lp_token q1 h1.
          step_to s _ r
            (moved a.id 0 a.staked
              (commit_withdrawal-Staked s v.0 a v.1 a.staked f.loaded q0).moved)
            h1
    | inr q ↦ step_to s (s, []) r (kept refl refl) (rw q at h)
  ]

  -- All that the export moves is the migrant's whole stake.
  handle_export_state-LedgerStep :
      (env : Env H) (s s' : State H C D) (next : ContractLink H) (migrant : H)
      (messages : List (Msg H))
      → handle_export_state d env s next migrant ≡ ok (s', messages)
      → LedgerStep s s'
  unfolding handle_export_state
  handle_export_state-LedgerStep env s s' next migrant messages h =
      >>=-elim (from_addr d s migrant env.time) _ h λ a q0 h0.
        >>=-elim (load_vk d s.admins migrant) _ h0 λ key q1 h1.
          let snapshot : Snapshot H = record {
            migrant = migrant;
            viewing_key = key;
            staked = a.staked;
          } in
          >>=-elim (d.print_snapshot snapshot) _ h1 λ printed q2 h2.
            let withdrawn : Result (State H C D × List (Msg H)) =
              (commit_withdrawal s a a.staked >>= λ r. load_lp_token d r.0.config >>= λ lp_token.
              ok (r.0, transfer env.sender a.staked lp_token ∷ [])) in
            >>=-elim (if ltb 0 a.staked then withdrawn else ok (s, [])) _ h2 λ r q3 h3.
              step_to s _ (s', messages)
                (exported_step s migrant env.sender a r
                  (from_addr-LoadedFor d s migrant env.time a q0) q3)
                h3

  handle_receive_migration-LedgerStep :
      (env : Env H) (s s' : State H C D) (snapshot : String) (messages : List (Msg H))
      → handle_receive_migration d env s snapshot ≡ ok (s', messages)
      → LedgerStep s s'
  unfolding handle_receive_migration
  handle_receive_migration-LedgerStep env s s' data_ messages h =
      >>=-elim (d.parse_snapshot data_) _ h λ snapshot q0 h0. >>=-elim _ _ h0 λ admins q1 h1.
        let keyed : State H C D = record s { admins = admins } in
        >>=-elim (from_addr d keyed snapshot.migrant env.time) _ h1 λ a q2 h2.
          >>=-elim (commit_deposit d keyed a snapshot.staked) _ h2 λ r q3 h3.
            let f = from_addr-LoadedFor d keyed snapshot.migrant env.time a q2 in
            step_to s (r.0, []) (s', messages)
              (moved a.id snapshot.staked 0 (
                Moved-trans s keyed r.0 a.id 0 0 snapshot.staked 0 snapshot.staked 0
                  (Moved-same s keyed a.id refl refl)
                  (commit_deposit-Moved d keyed r.0 a r.1 snapshot.staked f.loaded q3)
                  (sym (zero_plus snapshot.staked)) refl))
              h3

  pub handle_emigration-LedgerStep :
      (env : Env H) (s s' : State H C D) (msg : EmigrationHandle H) (messages : List (Msg H))
      → handle_emigration d env s msg ≡ ok (s', messages)
      → LedgerStep s s'
  unfolding handle_emigration set_migration_to
  handle_emigration-LedgerStep env s s' (export migrant) messages h =
      >>=-elim (can_export_state d s env migrant) _ h
        λ next q0 h0. handle_export_state-LedgerStep env s s' next migrant messages h0
  handle_emigration-LedgerStep env s s' (enable_to contract) messages h =
      >>=-elim (assert_admin d s.admins env) _ h λ unit q0 h0. step_silent s s' _ messages h0 λ t q.
        >>=-elim (d.canonize contract.address) _ q
          λ id q1 h1. subst (λ x. LedgerStep s x) (ok-injective h1) (kept refl refl)
  handle_emigration-LedgerStep env s s' (disable_to contract) messages h =
      >>=-elim (assert_admin d s.admins env) _ h λ unit q0 h0. step_silent s s' _ messages h0 λ t q.
        >>=-elim (d.canonize contract.address) _ q
          λ id q1 h1. subst (λ x. LedgerStep s x) (ok-injective h1) (kept refl refl)

  pub handle_immigration-LedgerStep :
      (env : Env H) (s s' : State H C D) (msg : ImmigrationHandle H) (messages : List (Msg H))
      → handle_immigration d env s msg ≡ ok (s', messages)
      → LedgerStep s s'
  unfolding handle_immigration set_migration_from
  handle_immigration-LedgerStep env s s' (request contract) messages h =
      >>=-elim (can_immigrate_from d s contract.address) _ h
        λ unit q0 h0. step_to s _ (s', messages) (kept refl refl) h0
  handle_immigration-LedgerStep env s s' (receive_snapshot snapshot) messages h =
      >>=-elim (can_immigrate_from d s env.sender) _ h
        λ unit q0 h0. handle_receive_migration-LedgerStep env s s' snapshot messages h0
  handle_immigration-LedgerStep env s s' (enable_from contract) messages h =
      >>=-elim (assert_admin d s.admins env) _ h λ unit q0 h0. step_silent s s' _ messages h0 λ t q.
        >>=-elim (d.canonize contract.address) _ q
          λ id q1 h1. subst (λ x. LedgerStep s x) (ok-injective h1) (kept refl refl)
  handle_immigration-LedgerStep env s s' (disable_from contract) messages h =
      >>=-elim (assert_admin d s.admins env) _ h λ unit q0 h0. step_silent s s' _ messages h0 λ t q.
        >>=-elim (d.canonize contract.address) _ q
          λ id q1 h1. subst (λ x. LedgerStep s x) (ok-injective h1) (kept refl refl)
