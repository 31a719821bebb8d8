-- ===== src/Mgmt/Claiming.antt =====
-- When a claim goes through, and that it cannot be repeated.
use sienna_network.Base.{
  ContractLink, ℕ, ◌+◌, ◌-◌, ◌≤◌, ◌<◌, ◌≡◌, ◌≢◌, refl, ◌∙◌, not, some, List, [], ◌∷◌, ◌++◌, Result,
  ok, err, guard, arith, ◌==◌, Eq, Uint128, generic, nothing, u128_mod,
}
use sienna_network.Schedule
use sienna_network.Schedule.{Schedule}
use sienna_network.Schedule.Entitled
use sienna_network.Schedule.Entitled.{entitled, allotted, unlocked-entitled}
use sienna_network.Schedule.Conservation.{entitled-le-allotted, allotted_sum-le-total}
use sienna_network.Mgmt.Storage.{
  State, Participant, assert_launched, total_claimed, set_claimed, new_claim, new_participant, push,
  increment_total, claimed_by, save_claimed,
}
use sienna_network.Mgmt.Claimed.{keys, paid-save, paid-le-grants, save-Books, claimed_by-save_self}
use sienna_network.Mgmt.Invariant.{Inv}
use sienna_network.Mgmt.Sent.{handle_claim-pays}
use sienna_network.Mgmt.{Deps, Env, TokenMsg, transfer, get_elapsed, portion, handle_claim}

nonzero_passes : (m : ℕ) → m ≢ 0 → guard (not (m == 0)) (generic nothing) ≡ ok tt
nonzero_passes m h = ground arith

module _ {C : Type 0} where
  assert_launched_lem : (s : State C) {t : ℕ} → s.launched ≡ some t → assert_launched s ≡ ok t
  unfolding assert_launched
  assert_launched_lem s h = ground arith

  new_participant_lem :
      ⦃e : Eq C⦄ {H : Type 0} (canonize : H → Result C) (s : State C) (human : H) (x : C)
      → canonize human ≡ ok x
      → new_participant canonize s human
        ≡ ok (record { address = x; claimed = claimed_by x s.claimed })
  unfolding new_participant
  new_participant_lem canonize s human x h = rw h refl

module _ {H C : Type 0} ⦃e : Eq C⦄ ⦃u : Uint128⦄ (d : Deps H C) where
  -- What the state is after a claim.
  abbrev pub after_claim : State C → C → ℕ → ℕ → State C
  after_claim s x n time = record s {
    claimed = save_claimed x n s.claimed;
    history =
        s.history
        ++ record { claimant = x; amount = n - claimed_by x s.claimed; timestamp = time } ∷ [];
    current_total = some (total_claimed s + (n - claimed_by x s.claimed));
  }

  -- The total after any claim within the grants still fits its machine type.
  total_fits :
      (s : State C) (x : C) (n : ℕ)
      → Inv s
      → n ≤ allotted s.schedule x
      → claimed_by x s.claimed ≤ n
      → total_claimed s + (n - claimed_by x s.claimed) < u128_mod
  total_fits s x n v bound more =
      let b = save-Books (allotted s.schedule) x n s.claimed bound v.books in
      omega (
        arith,
        v.total,
        v.in_range.total_fits,
        paid-save x n s.claimed,
        paid-le-grants (allotted s.schedule) (save_claimed x n s.claimed) b.within,
        allotted_sum-le-total s.schedule (keys (save_claimed x n s.claimed)) b.distinct v.valid,
      )

  portion_lem :
      (sch : Schedule C) (p : Participant C) (t n : ℕ)
      → Schedule.unlocked sch t p.address ≡ ok n
      → p.claimed < n
      → portion sch p t ≡ ok (n, n - p.claimed)
  unfolding portion
  portion_lem sch p t n asked more = ground (arith, asked)

  push_lem :
      (s : State C) (x : C) (n time : ℕ) (p : Participant C)
      → p ≡ record { address = x; claimed = claimed_by x s.claimed }
      → total_claimed s + (n - claimed_by x s.claimed) < u128_mod
      → push
          (set_claimed s p n).0
          (new_claim (set_claimed s p n).1 time (n - claimed_by x s.claimed))
        ≡ ok (after_claim s x n time)
  unfolding push increment_total set_claimed new_claim total_claimed
  push_lem s x n time p same fits =
      rw (same, u.add_fits (total_claimed s) (n - claimed_by x s.claimed) fits) refl

  -- Once the vesting has begun, on a schedule whose accounts all run, whoever has less claimed than
  -- the schedule owes can claim: one transfer pays the difference, and the books say so.
  pub handle_claim-succeeds :
      (env : Env H) (s : State C) (x : C) (launched : ℕ) (token : ContractLink H)
      → Inv s
      → Entitled.IsRunnable s.schedule
      → s.launched ≡ some launched
      → d.canonize.address env.sender ≡ ok x
      → d.humanize_link s.token ≡ ok token
      → claimed_by x s.claimed < entitled s.schedule (get_elapsed env.time launched) x
      → let owed = entitled s.schedule (get_elapsed env.time launched) x in
        handle_claim d env s
        ≡ ok (
          after_claim s x owed env.time,
          transfer env.sender (owed - claimed_by x s.claimed) token ∷ [],
        )
  unfolding handle_claim
  handle_claim-succeeds env s x launched token v runs started known linked more =
      let owed = entitled s.schedule (get_elapsed env.time launched) x in
      let asked =
        unlocked-entitled s.schedule (get_elapsed env.time launched) x v.valid v.in_range runs in
      let bound = entitled-le-allotted s.schedule (get_elapsed env.time launched) x v.valid in
      let fits = total_fits s x owed v bound (omega arith) in
      let p : Participant C = record { address = x; claimed = claimed_by x s.claimed } in
      rw (assert_launched_lem s started) (
        rw (new_participant_lem d.canonize.address s env.sender x known) (
          rw (portion_lem s.schedule p (get_elapsed env.time launched) owed asked more) (
            rw (nonzero_passes (owed - claimed_by x s.claimed) (omega arith))
              (rw (push_lem s x owed env.time p refl fits) (rw linked refl)))))

  nothing_left :
      (sch : Schedule C) (p : Participant C) (t : ℕ)
      → Schedule.unlocked sch t p.address ≡ ok p.claimed
      → portion sch p t ≡ ok (p.claimed, 0)
  unfolding portion
  nothing_left sch p t asked = ground (arith, asked)

  claim-launched :
      (env : Env H) (s s' : State C) (ms : List (TokenMsg H))
      → handle_claim d env s ≡ ok (s', ms)
      → s'.launched ≡ s.launched
  unfolding handle_claim push increment_total set_claimed
  claim-launched env s s' ms h = ground (arith, h)

  address_known :
      (env : Env H) (s : State C) (p : Participant C)
      → new_participant d.canonize.address s env.sender ≡ ok p
      → d.canonize.address env.sender ≡ ok p.address
  unfolding new_participant
  address_known env s p h = ground (arith, h)

  -- Who has claimed cannot claim again at the same moment: nothing is left.
  pub handle_claim_twice :
      (env : Env H) (s s' : State C) (ms : List (TokenMsg H))
      → handle_claim d env s ≡ ok (s', ms)
      → handle_claim d env s' ≡ err (generic nothing)
  unfolding handle_claim
  handle_claim_twice env s s' ms h =
      let (launched, p, n, token, l, known, q, asked, more, pays, books, same) =
        handle_claim-pays d env s s' ms h in
      let now : claimed_by p.address s'.claimed ≡ n =
        rw books (claimed_by-save_self p.address n s.claimed) in
      let again : Participant C = record {
        address = p.address;
        claimed = claimed_by p.address s'.claimed;
      } in
      let answer : Schedule.unlocked s'.schedule (get_elapsed env.time launched) p.address
          ≡ ok (claimed_by p.address s'.claimed) =
        rw (now, same) asked in
      rw (assert_launched_lem s' (claim-launched env s s' ms h ∙ l)) (
        rw
          (new_participant_lem d.canonize.address s' env.sender p.address (address_known env s p q))
          (rw (nothing_left s'.schedule again (get_elapsed env.time launched) answer) refl))
