-- ===== src/Rewards/Stakes/Settings.antt =====
-- That the steps of an account leave the configuration of the pool as it is.
use sienna_network.Base.{
  ℕ, ◌≡◌, refl, sym, ◌∙◌, ap, Bool-cases, inl, inr, ok, >>=-elim, ok-injective, ltb, ◌==◌, Eq,
  Uint128, Uint256, Decimal,
}
use sienna_network.Rewards.Storage.{State, Deps}
use sienna_network.Rewards.Pool.{commit_total_elapsed, commit_total_claim}
use sienna_network.Rewards.Users.{
  Account, reset, commit_elapsed, set_staked, commit_withdrawal, commit_stake, commit_claim,
}
use sienna_network.Rewards.Gov.{active_polls, created_polls, increase_votes}
use sienna_network.Rewards.Gov.Frame.{increase_votes-GovOnly}
use sienna_network.Rewards.Staking.{commit_deposit}

module _ {H C D : Type 0} ⦃ec : Eq C⦄ where
  commit_elapsed-config :
      (s : State H C D) (a : Account H C) → (commit_elapsed s a).0.config ≡ s.config
  unfolding commit_elapsed commit_total_elapsed reset
  commit_elapsed-config s a = elim (Bool-cases (a.staked == 0)) [
    | inl q ↦ rw q refl
    | inr q ↦ rw q refl
  ]

  pub commit_withdrawal-config :
      ⦃u : Uint128⦄ (s s' : State H C D) (a a' : Account H C) (amount : ℕ)
      → commit_withdrawal s a amount ≡ ok (s', a')
      → s'.config ≡ s.config
  unfolding commit_withdrawal set_staked
  commit_withdrawal-config ⦃u⦄ s s' a a' amount h =
      let t = commit_elapsed s a in
      >>=-elim (u.sub t.1.staked amount) _ h λ staked q0 h0.
        >>=-elim (u.sub t.1.total.staked amount) _ h0
          λ pool q1 h1. sym (ap (λ p. p.0.config) (ok-injective h1)) ∙ commit_elapsed-config s a

  commit_stake-config :
      ⦃u : Uint128⦄ (s s' : State H C D) (a a' : Account H C) (amount : ℕ)
      → commit_stake s a amount ≡ ok (s', a')
      → s'.config ≡ s.config
  unfolding commit_stake set_staked
  commit_stake-config ⦃u⦄ s s' a a' amount h =
      let t = commit_elapsed s a in
      >>=-elim (u.add t.1.staked amount) _ h λ staked q0 h0.
        >>=-elim (u.add t.1.total.staked amount) _ h0
          λ pool q1 h1. sym (ap (λ p. p.0.config) (ok-injective h1)) ∙ commit_elapsed-config s a

module _ {H C D : Type 0} ⦃e : Eq H⦄ ⦃ec : Eq C⦄ ⦃u : Uint128⦄ ⦃w : Uint256⦄ ⦃dec : Decimal D⦄
    (d : Deps H C) where
  pub commit_deposit-config :
      (s s' : State H C D) (a a' : Account H C) (amount : ℕ)
      → commit_deposit d s a amount ≡ ok (s', a')
      → s'.config ≡ s.config
  unfolding commit_deposit
  commit_deposit-config s s' a a' amount h =
      let now = a.total.clock.now in
      >>=-elim (d.canonize a.address) _ h λ user q0 h0.
        >>=-elim (active_polls s user now) _ h0 λ polls q1 h1.
          >>=-elim (created_polls s user now) _ h1 λ created q2 h2.
            >>=-elim (increase_votes d s polls user amount now) _ h2 λ t q3 h3.
              let (g, same) = increase_votes-GovOnly d s t polls user amount now q3 in
              commit_stake-config t s' a a' amount h3 ∙ ap (λ x. x.config) same

  pub commit_claim-config :
      (s s' : State H C D) (a a' : Account H C)
      → commit_claim d s a ≡ ok (s', a')
      → s'.config ≡ s.config
  unfolding commit_claim commit_total_claim reset
  commit_claim-config s s' a a' h = elim (Bool-cases (ltb 0 a.earned)) [
    | inl q ↦
        let t = reset s a in
        >>=-elim (commit_total_claim d t.0 t.1.total t.1.earned) _ (rw q at h) λ r q0 rest.
          >>=-elim (u.add t.1.total.distributed t.1.earned) _ q0 λ distributed q1 last.
            sym (ap (λ p. p.0.config) (ok-injective rest))
            ∙ sym (ap (λ p. p.0.config) (ok-injective last))
    | inr q ↦ sym (ap (λ p. p.0.config) (ok-injective (rw q at h)))
  ]
