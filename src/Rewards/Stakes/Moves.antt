-- ===== src/Rewards/Stakes/Moves.antt =====
-- How deposits, withdrawals, claims, exits and migrations move the stakes.
use mathlib.Core.Path.{subst}
use Prim.Native.String.{String}
use sienna_network.Base.{
  ℕ, ◌≡◌, refl, sym, ◌∙◌, ap, true, not, Bool-cases, inl, inr, ◌⊎◌, Option, some, none, List, [],
  ◌∷◌, ◌++◌, Result, ok, >>=-elim, ok-injective, guard, guard-eq-ok, ◌<◌, or_fail, if◌then◌else◌,
  ltb, ◌==◌, ◌&&◌, generic, rewards, panic, unwrap_none, withdraw_refused, withdraw_fatal,
  claim_bonding, claim_pool_empty, claim_zero_claimable, unstake_disallowed, arith, Eq, Uint128,
  Uint256, Decimal, ContractLink,
}
use sienna_network.Rewards.Storage.{
  State, Deps, Msg, transfer, send, load_lp_token, load_reward_token,
}
use sienna_network.Rewards.Users.{Account, reset, commit_withdrawal, commit_claim}
use sienna_network.Rewards.Gov.{active_polls, created_polls, increase_votes}
use sienna_network.Rewards.Gov.Frame.{GovOnly, increase_votes-GovOnly}
use sienna_network.Rewards.Staking.{
  ClaimRecipient, to_human, to_contract, can_unstake, reward_message, commit_deposit, force_exit,
  leave, withdraw_open, claim_open,
}
use sienna_network.Rewards.Stakes.{Moved, Moved-refl, Moved-trans, Moved-GovOnly, reset-Moved}
use sienna_network.Rewards.Stakes.Settings.{commit_withdrawal-config, commit_claim-config}
use sienna_network.Rewards.Stakes.Commits.{
  Loaded, commit_withdrawal-Staked, commit_stake-Staked, commit_claim-Moved,
}

not_zero : (n : ℕ) → not (n == 0) ≡ true → 0 < n
not_zero n h = ground arith

not_positive : (n : ℕ) → not (ltb 0 n) ≡ true → n ≡ 0
not_positive n h = ground arith

reward_message_same :
    {H : Type 0} {a b : H} {m n : ℕ} (token : ContractLink H)
    → a ≡ b
    → m ≡ n
    → ◌≡◌ {A = List (Msg H)} (transfer a m token ∷ []) (transfer b n token ∷ [])
reward_message_same token p q = rw (p, q) refl

module _ {H : Type 0} where
  -- The one message of a claim: a transfer to the user or to the named human, or the named contract is sent
  -- the reward with the given text.
  abbrev pub ClaimSends :
      (user : H) (earned : ℕ) (token : ContractLink H) (to : Option (ClaimRecipient H))
      (messages : List (Msg H))
      → Type 0
  ClaimSends user earned token to messages =
      ((to ≡ none) × (messages ≡ transfer user earned token ∷ []))
      ⊎ ((recipient : H) × (to ≡ some (to_human recipient))
          × (messages ≡ transfer recipient earned token ∷ []))
      ⊎ ((contract : ContractLink H) × (msg : Option String) × (to
            ≡ some (to_contract contract msg))
          × (messages ≡ send contract earned msg token ∷ []))

  reward_message-ClaimSends :
      {a b : H} {m n : ℕ} (token : ContractLink H) (to : Option (ClaimRecipient H))
      → a ≡ b
      → m ≡ n
      → ClaimSends b n token to (reward_message a m token to ∷ [])
  unfolding reward_message
  reward_message-ClaimSends token none p q = inl (refl, reward_message_same token p q)
  reward_message-ClaimSends token (some (to_human recipient)) p q =
      inr (inl (recipient, refl, reward_message_same token refl q))
  reward_message-ClaimSends token (some (to_contract contract msg)) p q =
      inr (inr (contract, msg, refl, ap (λ n. send contract n msg token ∷ []) q))

module _ {H C D : Type 0} ⦃e : Eq H⦄ ⦃ec : Eq C⦄ ⦃u : Uint128⦄ ⦃w : Uint256⦄ ⦃dec : Decimal D⦄
    (d : Deps H C) where
  GovOnly-Loaded : (s t : State H C D) (a : Account H C) → GovOnly s t → Loaded s a → Loaded t a
  GovOnly-Loaded s t a (g, q) l =
      subst (λ x. Loaded x a) (sym q) (record { own = l.own; pool = l.pool })

  pub commit_deposit-Moved :
      (s s' : State H C D) (a a' : Account H C) (amount : ℕ)
      → Loaded s a
      → commit_deposit d s a amount ≡ ok (s', a')
      → Moved s s' a.id amount 0
  unfolding commit_deposit
  commit_deposit-Moved s s' a a' amount l h =
      let now = a.total.clock.now in
      >>=-elim (d.canonize a.address) _ h λ user q0 h0.
        >>=-elim (active_polls s user now) _ h0 λ polls q1 h1.
          >>=-elim (created_polls s user now) _ h1 λ created q2 h2.
            >>=-elim (increase_votes d s polls user amount now) _ h2 λ t q3 h3.
              let same = increase_votes-GovOnly d s t polls user amount now q3 in
              let later = commit_stake-Staked t s' a a' amount (GovOnly-Loaded s t a same l) h3 in
              Moved-trans s t s' a.id 0 0 amount 0 amount 0 (Moved-GovOnly s t a.id same)
                later.moved (omega arith) refl

  -- Everything that is staked leaves, and the tokens and the reward are paid.
  pub force_exit-Moved :
      (s s' : State H C D) (a : Account H C) (messages : List (Msg H))
      → Loaded s a
      → force_exit d s a ≡ ok (s', messages)
      → Moved s s' a.id 0 a.staked
        × ((lp_token reward_token : ContractLink H) × (load_lp_token d s.config ≡ ok lp_token)
            × (load_reward_token d s.config ≡ ok reward_token)
            × (messages
                ≡ transfer a.address a.staked lp_token
                  ∷ transfer a.address a.earned reward_token
                  ∷ []))
  unfolding force_exit
  force_exit-Moved s s' a messages l h = >>=-elim (load_lp_token d s.config) _ h λ lp_token q0 h0.
      >>=-elim (load_reward_token d s.config) _ h0 λ reward_token q1 h1.
        >>=-elim (commit_withdrawal s a a.staked) _ h1 λ r q2 h2.
          >>=-elim (commit_claim d r.0 r.1) _ h2 λ v q3 h3.
            let first = commit_withdrawal-Staked s r.0 a r.1 a.staked l q2 in
            let (second, _, _) = commit_claim-Moved d r.0 v.0 r.1 v.1 q3 in
            let moved =
              Moved-trans s r.0 v.0 a.id 0 a.staked 0 0 0 a.staked first.moved
                (subst (λ i. Moved r.0 v.0 i 0 0) first.id second) refl (omega arith) in
            (
              subst (λ x. Moved s x a.id 0 a.staked) (ap (λ p. p.0) (ok-injective h3)) moved,
              (lp_token, reward_token, q0, q1, sym (ap (λ p. p.1) (ok-injective h3))),
            )

  -- Nothing, or a reward of the given amount, in the reward token of the configuration.
  abbrev pub PaidReward : State H C D → (user : H) → (earned : ℕ) → List (Msg H) → Type 0
  PaidReward s user earned paid =
      (paid ≡ [])
      ⊎ ((reward_token : ContractLink H) × (load_reward_token d s.config ≡ ok reward_token)
          × (paid ≡ transfer user earned reward_token ∷ []))

  -- What leaving moves and sends.
  record Leaves (s s' : State H C D) (a : Account H C) (paid : List (Msg H)) : Type 0 where
    pub moved : Moved s s' a.id 0 0
    pub same_config : s'.config ≡ s.config
    pub rewarded : PaidReward s a.address a.earned paid

  leave-Leaves :
      (s s' : State H C D) (a : Account H C) (messages : List (Msg H))
      → leave d s a ≡ ok (s', messages)
      → Leaves s s' a messages
  unfolding leave reset
  leave-Leaves s s' a messages h = elim (Bool-cases (ltb 0 a.earned && (a.bonding == 0))) [
    | inl q ↦ >>=-elim (commit_claim d s a) _ (rw q at h) λ r q0 h0.
        >>=-elim (load_reward_token d r.0.config) _ h0 λ reward_token q1 h1.
          let (moved, address, earned) = commit_claim-Moved d s r.0 a r.1 q0 in
          let kept = commit_claim-config d s r.0 a r.1 q0 in
          subst (λ p. Leaves s p.0 a p.1) (ok-injective h1)
            (record {
              moved = moved;
              same_config = kept;
              rewarded = inr (
                reward_token,
                ap (λ c. load_reward_token d c) (sym kept) ∙ q1,
                reward_message_same reward_token address earned,
              );
            })
    | inr q ↦
        subst (λ p. Leaves s p.0 a p.1) (ok-injective (rw q at h))
          (record { moved = reset-Moved s a; same_config = refl; rewarded = inl refl })
  ]

  paid_same :
      (s t : State H C D) (a b : Account H C) (paid : List (Msg H))
      → t.config ≡ s.config
      → b.address ≡ a.address
      → b.earned ≡ a.earned
      → PaidReward t b.address b.earned paid
      → PaidReward s a.address a.earned paid
  paid_same s t a b paid kept address earned (inl p) = inl p
  paid_same s t a b paid kept address earned (inr (token, loaded, p)) = inr (
    token,
    ap (λ c. load_reward_token d c) (sym kept) ∙ loaded,
    p ∙ reward_message_same token address earned,
  )

  -- What a withdrawal sends ends with the tokens that are withdrawn.
  pub withdraw_open-Moved :
      (s s' : State H C D) (a : Account H C) (amount : ℕ) (messages : List (Msg H))
      → Loaded s a
      → withdraw_open d s a amount ≡ ok (s', messages)
      → Moved s s' a.id 0 amount
        × ((paid : List (Msg H)) × (lp_token : ContractLink H) × PaidReward s a.address a.earned
              paid
            × (load_lp_token d s.config ≡ ok lp_token)
            × (messages ≡ paid ++ transfer a.address amount lp_token ∷ []))
  unfolding withdraw_open
  withdraw_open-Moved s s' a amount messages l h =
      let now = a.total.clock.now in
      let few = generic (rewards (withdraw_refused a.staked amount)) in
      let fatal = generic (rewards (withdraw_fatal a.total.staked amount)) in
      >>=-elim (guard (not (ltb a.staked amount)) few) _ h λ unit q0 h0.
        >>=-elim (guard (not (ltb a.total.staked amount)) fatal) _ h0 λ unit_1 q1 h1.
          >>=-elim (d.canonize a.address) _ h1 λ user q2 h2.
            >>=-elim (active_polls s user now) _ h2 λ active q3 h3.
              >>=-elim (created_polls s user now) _ h3 λ created q4 h4.
                >>=-elim (or_fail s.gov.threshold (panic unwrap_none)) _ h4 λ threshold q5 h5.
                  >>=-elim (can_unstake active created a.staked threshold amount) _ h5
                    λ allowed q6 h6.
                      >>=-elim (guard allowed (generic (rewards unstake_disallowed))) _ h6
                        λ unit_2 q7 h7. >>=-elim (commit_withdrawal s a amount) _ h7 λ r q8 h8.
                          let next : Result (State H C D × List (Msg H)) =
                            if r.1.staked == 0 then leave d r.0 r.1 else ok (r.0, []) in
                          >>=-elim next _ h8 λ v q9 h9.
                            >>=-elim (load_lp_token d v.0.config) _ h9 λ lp_token q10 h10.
                              let first = commit_withdrawal-Staked s r.0 a r.1 amount l q8 in
                              let rest = left r.0 v.0 r.1 v.1 q9 in
                              let kept = commit_withdrawal-config s r.0 a r.1 amount q8 in
                              let moved =
                                Moved-trans s r.0 v.0 a.id 0 amount 0 0 0 amount first.moved
                                  (subst (λ i. Moved r.0 v.0 i 0 0) first.id rest.moved) refl
                                  (omega arith) in
                              (
                                subst (λ x. Moved s x a.id 0 amount)
                                    (ap (λ p. p.0) (ok-injective h10)) moved,
                                (
                                  v.1,
                                  lp_token,
                                  paid_same s r.0 a r.1 v.1 kept first.address first.earned
                                      rest.rewarded,
                                  ap (λ c. load_lp_token d c) (sym (rest.same_config ∙ kept)) ∙ q10,
                                  sym (ap (λ p. p.1) (ok-injective h10)),
                                ),
                              )
    where
      left :
          (s s' : State H C D) (a : Account H C) (paid : List (Msg H))
          → (if a.staked == 0 then leave d s a else ok (s, [])) ≡ ok (s', paid)
          → Leaves s s' a paid
      left s s' a paid h = elim (Bool-cases (a.staked == 0)) [
        | inl q ↦ leave-Leaves s s' a paid (rw q at h)
        | inr q ↦
            subst (λ p. Leaves s p.0 a p.1) (ok-injective (rw q at h))
              (record { moved = Moved-refl s a.id; same_config = refl; rewarded = inl refl })
      ]

  -- A claim of an open pool moves no stake, and sends the reward.
  pub claim_open-Moved :
      (s s' : State H C D) (a : Account H C) (to : Option (ClaimRecipient H))
      (messages : List (Msg H))
      → claim_open d s a to ≡ ok (s', messages)
      → Moved s s' a.id 0 0
        × (0 < a.earned)
        × (a.bonding ≡ 0)
        × ((reward_token : ContractLink H) × (load_reward_token d s.config ≡ ok reward_token)
            × ClaimSends a.address a.earned reward_token to messages)
  unfolding claim_open
  claim_open-Moved s s' a to messages h =
      let early = generic (rewards (claim_bonding a.bonding)) in
      let empty = generic (rewards claim_pool_empty) in
      let nothing = generic (rewards claim_zero_claimable) in
      >>=-elim (guard (not (ltb 0 a.bonding)) early) _ h λ unit q0 h0.
        >>=-elim (guard (not (a.total.budget == 0)) empty) _ h0 λ unit_1 q1 h1.
          >>=-elim (guard (not (a.earned == 0)) nothing) _ h1 λ unit_2 q2 h2.
            >>=-elim (commit_claim d s a) _ h2 λ r q3 h3.
              >>=-elim (load_reward_token d r.0.config) _ h3 λ reward_token q4 h4.
                let (moved, address, earned) = commit_claim-Moved d s r.0 a r.1 q3 in
                (
                  subst (λ x. Moved s x a.id 0 0) (ap (λ p. p.0) (ok-injective h4)) moved,
                  not_zero a.earned (guard-eq-ok _ _ q2),
                  not_positive a.bonding (guard-eq-ok _ _ q0),
                  (
                    reward_token,
                    ap (λ c. load_reward_token d c) (sym (commit_claim-config d s r.0 a r.1 q3))
                        ∙ q4,
                    subst (λ p. ClaimSends a.address a.earned reward_token to p.1) (ok-injective h4)
                        (reward_message-ClaimSends reward_token to address earned),
                  ),
                )
