-- ===== src/Mgmt/Invariant.antt =====
-- The invariant of the vesting contract, kept by every handler.
use Prim.Native.String.{String}
use sienna_network.Base.{
  ContractLink, ℕ, ◌-◌, ◌≤◌, ◌≡◌, ◌≢◌, refl, sym, ap, ◌∙◌, Bool, not, none, some, List, [], ◌∷◌,
  Result, ok, guard, >>=-eq-ok, ok-injective, arith, ◌==◌, Eq, Uint128, sum_by, sum_by-append,
  generic, nothing,
}
use sienna_network.Schedule
use sienna_network.Schedule.{Schedule}
use sienna_network.Schedule.Account
use sienna_network.Schedule.Account.{Account}
use sienna_network.Schedule.Valid.{IsValid, InRange, schedule_validate_iff}
use sienna_network.Schedule.Entitled.{allotted}
use sienna_network.Schedule.Bounds.{unlocked-le-allotted}
use sienna_network.Schedule.Adding.{add_account-allotted}
use sienna_network.Schedule.Canon.{convert, convert_account}
use sienna_network.Schedule.Canon.RoundTrip.{Undoes, convert_back}
use sienna_network.Schedule.Canon.Kept.{convert-IsValid, convert_account-InRange}
use sienna_network.Mgmt.Storage.{
  State, Claim, Participant, assert_launched, assert_not_launched, total_claimed, increment_total,
  push, new_claim, set_claimed, new_participant, claimed_by,
}
use sienna_network.Mgmt.Claimed.{paid, Books, save-Books, Books-mono, paid-save}
use sienna_network.Mgmt.{
  Deps, Env, TokenMsg, get_elapsed, portion, save_schedule, init, handle_configure,
  handle_add_account, handle_claim,
}

pub nonzero : (m : ℕ) → guard (not (m == 0)) (generic nothing) ≡ ok tt → m ≢ 0
nonzero m h = ground arith

module _ {C : Type 0} ⦃e : Eq C⦄ where
  -- Nobody has claimed more than the schedule grants, the books agree with each other, and before
  -- the launch nothing is claimed.
  pub record Inv (s : State C) : Type 0 where
    pub valid : IsValid s.schedule
    pub in_range : InRange s.schedule
    pub books : Books (allotted s.schedule) s.claimed
    pub total : total_claimed s ≡ paid s.claimed
    pub logged : sum_by (λ c. c.amount) s.history ≡ paid s.claimed
    pub early : s.launched ≡ none → s.claimed ≡ []

  pub launched-ne-none : (s : State C) {t : ℕ} → assert_launched s ≡ ok t → s.launched ≢ none
  unfolding assert_launched
  launched-ne-none s h = ground arith

  pub launched-eq-some : (s : State C) {t : ℕ} → assert_launched s ≡ ok t → s.launched ≡ some t
  unfolding assert_launched
  launched-eq-some s h = ground arith

  pub not_launched : (s : State C) → assert_not_launched s ≡ ok tt → s.launched ≡ none
  unfolding assert_not_launched
  not_launched s h = ground arith

  pub new_participant-claimed :
      {H : Type 0} (canonize : H → Result C) (s : State C) (x : H) (p : Participant C)
      → new_participant canonize s x ≡ ok p
      → p.claimed ≡ claimed_by p.address s.claimed
  unfolding new_participant
  new_participant-claimed canonize s x p h =
      let (address, q, same) = >>=-eq-ok (canonize x) _ h in rw (← ok-injective same) refl

  pub portion-eq-ok :
      (sch : Schedule C) (p : Participant C) (t : ℕ) {n m : ℕ}
      → portion sch p t ≡ ok (n, m)
      → (Schedule.unlocked sch t p.address ≡ ok n) × (m ≡ n - p.claimed)
  unfolding portion
  portion-eq-ok sch p t h =
      let (unlocked, q, same) = >>=-eq-ok (Schedule.unlocked sch t p.address) _ h in
      (ground (arith, q, same), ground (arith, same))

  -- What a claim does to the state.
  claimed-Inv :
      ⦃u : Uint128⦄ (s s' : State C) (p : Participant C) (n m time : ℕ)
      → Inv s
      → s.launched ≢ none
      → n ≤ allotted s.schedule p.address
      → p.claimed ≡ claimed_by p.address s.claimed
      → m ≡ n - p.claimed
      → m ≢ 0
      → push (set_claimed s p n).0 (new_claim (set_claimed s p n).1 time m) ≡ ok s'
      → Inv s'
  unfolding push increment_total set_claimed new_claim total_claimed
  claimed-Inv ⦃u⦄ s s' p n m time v late bound known diff some_left h =
      let (total, q, same) = >>=-eq-ok (u.add (total_claimed s) m) _ h in
      let raised = paid-save p.address n s.claimed in
      let added = u.add-eq-ok (total_claimed s) m total q in
      rw (← ok-injective same) (record {
        valid = v.valid;
        in_range = v.in_range;
        books = save-Books (allotted s.schedule) p.address n s.claimed bound v.books;
        total = omega (arith, raised, added.0, v.total, known);
        logged = omega (
          arith,
          raised,
          known,
          v.logged,
          sum_by-append (λ (c : Claim C). c.amount) s.history (new_claim p time m ∷ []),
        );
        early = λ never. absurd (late never);
      })

module _ {H C : Type 0} ⦃e : Eq C⦄ ⦃u : Uint128⦄ (d : Deps H C) where
  pub handle_claim-Inv :
      (env : Env H) (s s' : State C) (ms : List (TokenMsg H))
      → Inv s
      → handle_claim d env s ≡ ok (s', ms)
      → Inv s'
  unfolding handle_claim
  handle_claim-Inv env s s' ms v h =
      let (launched, q0, h0) = >>=-eq-ok (assert_launched s) _ h in
      let (p, q1, h1) = >>=-eq-ok (new_participant d.canonize.address s env.sender) _ h0 in
      let (nm, q2, h2) = >>=-eq-ok (portion s.schedule p (get_elapsed env.time launched)) _ h1 in
      let (t, q3, h3) = >>=-eq-ok (guard (not (nm.1 == 0)) (generic nothing)) _ h2 in
      let (s'', q4, h4) =
        >>=-eq-ok (push (set_claimed s p nm.0).0 (new_claim (set_claimed s p nm.0).1 env.time nm.1))
          _ h3 in
      let (token, q5, same) = >>=-eq-ok (d.humanize_link s''.token) _ h4 in
      let (asked, diff) = portion-eq-ok s.schedule p (get_elapsed env.time launched) q2 in
      let final : s'' ≡ s' = ap (λ r. r.0) (ok-injective same) in
      claimed-Inv s s' p nm.0 nm.1 env.time v (launched-ne-none s q0)
        (unlocked-le-allotted (get_elapsed env.time launched) p.address s.schedule nm.0 asked)
        (new_participant-claimed d.canonize.address s env.sender p q1) diff (nonzero nm.1 q3)
        (q4 ∙ ap ok final)

  pub init-Inv :
      (admin : Result (Unit {0})) (schedule : Schedule H) (token : ContractLink H) (prefund : Bool)
      (s : State C) (ms : List (TokenMsg H))
      → InRange schedule
      → init d admin schedule token prefund ≡ ok (s, ms)
      → Inv s
  unfolding init total_claimed
  init-Inv admin schedule token prefund s ms r h =
      let (t, q0, h0) = >>=-eq-ok (Schedule.validate schedule) _ h in
      let (canonical, q1, h1) = >>=-eq-ok (convert d.canonize schedule) _ h0 in
      let (link, q2, h2) = >>=-eq-ok (d.canonize_link token) _ h1 in
      let (t', q3, same) = >>=-eq-ok admin _ h2 in
      let (valid, fits, total) =
        convert-IsValid d.canonize schedule canonical q1 ((schedule_validate_iff schedule r).0 q0)
          r in
      rw (← ap (λ p. p.0) (ok-injective same)) (record {
        valid = valid;
        in_range = fits;
        books = record { distinct = tt; within = tt };
        total = refl;
        logged = refl;
        early = λ never. refl;
      })

  -- A new schedule under which every address is granted at least as much.
  pub replaced-Inv :
      (s : State C) (schedule : Schedule C)
      → Inv s
      → IsValid schedule
      → InRange schedule
      → ((x : C) → allotted s.schedule x ≤ allotted schedule x)
      → Inv (record s { schedule = schedule })
  unfolding total_claimed
  replaced-Inv s schedule v valid fits more = record {
    valid = valid;
    in_range = fits;
    books = Books-mono (allotted s.schedule) (allotted schedule) s.claimed more v.books;
    total = v.total;
    logged = v.logged;
    early = v.early;
  }

  pub handle_configure-Inv :
      (env : Env H) (s s' : State C) (schedule : Schedule H) (ms : List (TokenMsg H))
      → Inv s
      → InRange schedule
      → handle_configure d env s schedule ≡ ok (s', ms)
      → Inv s'
  unfolding handle_configure save_schedule total_claimed
  handle_configure-Inv env s s' schedule ms v r h =
      let (t, q0, h0) = >>=-eq-ok (d.assert_admin env.sender) _ h in
      let (t', q1, h1) = >>=-eq-ok (assert_not_launched s) _ h0 in
      let (t'', q2, h2) = >>=-eq-ok (Schedule.validate schedule) _ h1 in
      let (s'', q3, same) = >>=-eq-ok (save_schedule d s schedule) _ h2 in
      let (canonical, q4, same') = >>=-eq-ok (convert d.canonize schedule) _ q3 in
      let (valid, fits, total) =
        convert-IsValid d.canonize schedule canonical q4 ((schedule_validate_iff schedule r).0 q2)
          r in
      let none_claimed = v.early (not_launched s q1) in
      rw (← ap (λ p. p.0) (ok-injective same), ← ok-injective same')
        (record {
          valid = valid;
          in_range = fits;
          books = rw none_claimed (record { distinct = tt; within = tt });
          total = v.total;
          logged = v.logged;
          early = v.early;
        })

  -- `add_account` and `increase_allocation` save what they have humanized.
  pub saved :
      Undoes d.humanize.address d.canonize.address
      → (s s' : State C) (grown : Schedule C) (human : Schedule H)
      → convert d.humanize grown ≡ ok human
      → save_schedule d s human ≡ ok s'
      → s' ≡ record s { schedule = grown }
  unfolding save_schedule
  saved back s s' grown human there h =
      let (canonical, q, same) = >>=-eq-ok (convert d.canonize human) _ h in
      let round = convert_back d.humanize d.canonize back grown human there in
      sym (ok-injective same) ∙ ap (λ g. record s { schedule = g }) (ok-injective (sym q ∙ round))

  pub handle_add_account-Inv :
      Undoes d.humanize.address d.canonize.address
      → (env : Env H) (s s' : State C) (name : String) (a : Account H) (ms : List (TokenMsg H))
      → Inv s
      → Account.InRange a
      → handle_add_account d env s name a ≡ ok (s', ms)
      → Inv s'
  unfolding handle_add_account
  handle_add_account-Inv back env s s' name a ms v r h =
      let (t, q0, h0) = >>=-eq-ok (d.assert_admin env.sender) _ h in
      let (canonical, q1, h1) = >>=-eq-ok (convert_account d.canonize a) _ h0 in
      let (grown, q2, h2) = >>=-eq-ok (Schedule.add_account s.schedule name canonical) _ h1 in
      let (human, q3, h3) = >>=-eq-ok (convert d.humanize grown) _ h2 in
      let (s'', q4, same) = >>=-eq-ok (save_schedule d s human) _ h3 in
      let fits = convert_account-InRange d.canonize a canonical q1 r in
      let after = λ (x : C).
        add_account-allotted s.schedule grown name canonical x v.valid v.in_range fits q2 in
      let first = after canonical.address in
      rw (← ap (λ p. p.0) (ok-injective same), saved back s s'' grown human q3 q4)
        (replaced-Inv s grown v first.0 first.1 (λ x. omega (arith, (after x).3)))
