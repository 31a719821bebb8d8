-- ===== src/Rewards/Gov/Frame.antt =====
-- Votes and polls change nothing but the part of the state that belongs to governance.
use sienna_network.Base.{
  ℕ, ◌≡◌, refl, sym, ◌∙◌, ap, not, List, [], ◌∷◌, none, some, ok, >>=-elim, ok-injective, unwrap,
  unwrap-eq-ok, or_fail, guard, generic, same_vote, Eq, Uint128, Uint256, Decimal, add64,
  Result-cases, inl, inr,
}
use sienna_network.Rewards.Storage.{State, Deps, Gov, Poll, Vote, VoteType}
use sienna_network.Rewards.Pool.{from_time}
use sienna_network.Rewards.Gov.Tally.{negate, as_i128, same_choice}
use sienna_network.Rewards.Gov.{
  set_gov, poll_of, result_of, store_result, commit_status, set_vote, get_vote, increase_vote,
  active_polls, created_polls, set_active_polls, append_active_poll, append_created_poll,
  remove_active_poll, create_id, create_poll, new_status, update_votes, update_result,
  UpdateResultReason, change_vote_power, change_vote_choice, add_vote, increase_vote_power,
  change_choice, remove_vote, increase_votes, position,
}

module _ {H C D : Type 0} where
  -- The states differ in governance only.
  abbrev pub GovOnly : State H C D → State H C D → Type 0
  GovOnly s s' = (g : Gov C D) × (s' ≡ set_gov s g)

  pub GovOnly-refl : (s : State H C D) → GovOnly s s
  GovOnly-refl s = (s.gov, refl)

  pub GovOnly-trans : (s t v : State H C D) → GovOnly s t → GovOnly t v → GovOnly s v
  GovOnly-trans s t v (g, e) (h, f) = (h, f ∙ ap (λ x. set_gov x h) e)

  -- A result with the new state, if there is one.
  GovOnly-ok : (s t v : State H C D) → GovOnly s t → ok t ≡ ok v → GovOnly s v
  GovOnly-ok s t v (g, e) h = (g, sym (ok-injective h) ∙ e)

  pub create_id-GovOnly : (s s' : State H C D) (id : ℕ) → create_id s ≡ ok (s', id) → GovOnly s s'
  unfolding create_id
  create_id-GovOnly s s' id h = >>=-elim (or_fail s.gov.poll_count _) _ h λ count q0 h0.
      >>=-elim (unwrap (add64 count 1)) _ h0
        λ next q1 h1. (_, sym (ap (λ p. p.0) (ok-injective h1)))

  module _ ⦃ec : Eq C⦄ where
    increase_vote-GovOnly :
        ⦃u : Uint128⦄ (s s' : State H C D) (id : ℕ) (user : C) (amount : ℕ)
        → increase_vote s id user amount ≡ ok s'
        → GovOnly s s'
    unfolding increase_vote set_vote
    increase_vote-GovOnly ⦃u⦄ s s' id user amount h =
        >>=-elim (get_vote s id user) _ h λ vote q0 h0.
          >>=-elim (u.add vote.power amount) _ h0 λ power q1 h1. (_, sym (ok-injective h1))

    append_active_poll-GovOnly :
        (s s' : State H C D) (user : C) (id now : ℕ)
        → append_active_poll s user id now ≡ ok s'
        → GovOnly s s'
    unfolding append_active_poll set_active_polls
    append_active_poll-GovOnly s s' user id now h =
        >>=-elim (active_polls s user now) _ h λ ids q0 h0. (_, sym (ok-injective h0))

    append_created_poll-GovOnly :
        (s s' : State H C D) (user : C) (id now : ℕ)
        → append_created_poll s user id now ≡ ok s'
        → GovOnly s s'
    unfolding append_created_poll
    append_created_poll-GovOnly s s' user id now h =
        >>=-elim (created_polls s user now) _ h λ ids q0 h0. (_, sym (ok-injective h0))

    remove_active_poll-GovOnly :
        (s s' : State H C D) (user : C) (id now : ℕ)
        → remove_active_poll s user id now ≡ ok s'
        → GovOnly s s'
    unfolding remove_active_poll set_active_polls
    remove_active_poll-GovOnly s s' user id now h =
        >>=-elim (active_polls s user now) _ h λ ids q0 h0.
          >>=-elim (or_fail (position id ids) _) _ h0 λ i q1 h1. (_, sym (ok-injective h1))

    pub create_poll-GovOnly :
        (s s' : State H C D) (user : C) (poll : Poll C D) (now : ℕ)
        → create_poll s user poll now ≡ ok s'
        → GovOnly s s'
    unfolding create_poll store_result
    create_poll-GovOnly s s' user poll now h =
        let (g, e) = append_created_poll-GovOnly _ s' user poll.id now h in (g, e)

module _ {H C D : Type 0} ⦃e : Eq H⦄ ⦃ec : Eq C⦄ ⦃u : Uint128⦄ ⦃w : Uint256⦄ ⦃dec : Decimal D⦄
    (d : Deps H C) where
  pub update_result-GovOnly :
      (s s' : State H C D) (id now : ℕ) (update : UpdateResultReason)
      → update_result d s id now update ≡ ok s'
      → GovOnly s s'
  unfolding update_result commit_status store_result
  update_result-GovOnly s s' id now update h = >>=-elim (or_fail (result_of s id) _) _ h λ r q0 h0.
      >>=-elim (update_votes r update) _ h0 λ r' q1 h1.
        >>=-elim (from_time d (store_result s r') now) _ h1 λ total q2 h2.
          >>=-elim (or_fail (poll_of (store_result s r') id) _) _ h2 λ poll q3 h3.
            >>=-elim (new_status d poll r' total.staked) _ h3
              λ status q4 h4. (_, sym (ok-injective h4))

  pub add_vote-GovOnly :
      (s s' : State H C D) (id : ℕ) (user : C) (choice : VoteType) (power now : ℕ)
      → add_vote d s id user choice power now ≡ ok s'
      → GovOnly s s'
  unfolding add_vote set_vote
  add_vote-GovOnly s s' id user choice power now h = elim (Result-cases (get_vote s id user)) [
    | inl (old, q) ↦ absurd (cc (rw (add_vote, q) at h))
    | inr (missing, q) ↦
        let new : Vote C = record { choice = choice; power = power; voter = user } in
        >>=-elim (append_active_poll (set_vote s id user (some new)) user id now) _
          (rw (add_vote, q) at h)
          λ t q0 h0.
            GovOnly-trans s t s' (append_active_poll-GovOnly _ t user id now q0)
              (update_result-GovOnly t s' id now (change_vote_power choice (as_i128 power)) h0)
  ]

  pub increase_vote_power-GovOnly :
      (s s' : State H C D) (id : ℕ) (user : C) (power_diff now : ℕ)
      → increase_vote_power d s id user power_diff now ≡ ok s'
      → GovOnly s s'
  unfolding increase_vote_power
  increase_vote_power-GovOnly s s' id user power_diff now h =
      >>=-elim (unwrap (increase_vote s id user power_diff)) _ h λ t q0 h0.
        >>=-elim (get_vote t id user) _ h0 λ vote q1 h1.
          GovOnly-trans s t s' (increase_vote-GovOnly s t id user power_diff (unwrap-eq-ok _ q0)) (
            update_result-GovOnly t s' id now (change_vote_power vote.choice (as_i128 power_diff))
              (unwrap-eq-ok _ h1))

  pub increase_votes-GovOnly :
      (s s' : State H C D) (ids : List ℕ) (user : C) (amount now : ℕ)
      → increase_votes d s ids user amount now ≡ ok s'
      → GovOnly s s'
  unfolding increase_votes
  increase_votes-GovOnly s s' [] user amount now h = (s.gov, sym (ok-injective h))
  increase_votes-GovOnly s s' (id ∷ ids) user amount now h =
      >>=-elim (unwrap (increase_vote_power d s id user amount now)) _ h λ t q0 h0.
        GovOnly-trans s t s'
          (increase_vote_power-GovOnly s t id user amount now (unwrap-eq-ok _ q0))
          (increase_votes-GovOnly t s' ids user amount now h0)

  pub change_choice-GovOnly :
      (s s' : State H C D) (id : ℕ) (user : C) (choice : VoteType) (now : ℕ)
      → change_choice d s id user choice now ≡ ok s'
      → GovOnly s s'
  unfolding change_choice set_vote
  change_choice-GovOnly s s' id user choice now h = >>=-elim (get_vote s id user) _ h λ vote q0 h0.
      >>=-elim (guard (not (same_choice vote.choice choice)) (generic same_vote)) _ h0 λ unit q1 h1.
        >>=-elim (unwrap (update_result d s id now (change_vote_choice choice vote.power))) _ h1
          λ t q2 h2.
            GovOnly-trans s t s'
              (update_result-GovOnly s t id now (change_vote_choice choice vote.power)
                (unwrap-eq-ok _ q2))
              (_, sym (ok-injective h2))

  pub remove_vote-GovOnly :
      (s s' : State H C D) (id : ℕ) (user : C) (now : ℕ)
      → remove_vote d s id user now ≡ ok s'
      → GovOnly s s'
  unfolding remove_vote set_vote
  remove_vote-GovOnly s s' id user now h = >>=-elim (get_vote s id user) _ h λ vote q0 h0.
      >>=-elim (remove_active_poll (set_vote s id user none) user id now) _ h0 λ t q1 h1.
        >>=-elim (negate (as_i128 vote.power)) _ h1 λ power_diff q2 h2.
          GovOnly-trans s t s' (remove_active_poll-GovOnly _ t user id now q1) (
            update_result-GovOnly t s' id now (change_vote_power vote.choice power_diff)
              (unwrap-eq-ok _ h2))
