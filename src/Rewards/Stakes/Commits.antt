-- ===== src/Rewards/Stakes/Commits.antt =====
-- How the steps of an account, loaded from the state, move its stake and that of the pool.
use mathlib.Core.Path.{subst}
use sienna_network.Base.{
  guard, generic, rewards, no_time_travel, not, ◌-◌, ℕ, ◌+◌, ◌≡◌, refl, sym, ◌∙◌, ap, Bool-cases,
  inl, inr, some, unwrap_or, ok, >>=-elim, ok-injective, ltb, ◌==◌, arith, Eq, Uint128, Uint256,
}
use sienna_network.Base.Dict.{get-put}
use sienna_network.Rewards.Storage.{State, nothing_stored, Deps}
use sienna_network.Rewards.Pool.{
  Total, from_time, get_total, accumulate, get_budget, commit_total_elapsed, commit_total_claim,
  Clock, get_clock,
}
use sienna_network.Rewards.Users.{
  Account, stored_of, reset, commit_elapsed, set_staked, commit_withdrawal, commit_stake,
  commit_claim, get_account, from_addr, get_earned,
}
use sienna_network.Rewards.Stakes.{
  stake_in, pool_stake, user_stake, Moved, Moved-refl, Moved-trans, Moved-store, reset-Moved,
}

-- What the steps that only move the clock leave of the account at hand.
pub record SameAccount {H C : Type 0} (a a' : Account H C) : Type 0 where
  pub id : a'.id ≡ a.id
  pub address : a'.address ≡ a.address
  pub staked : a'.staked ≡ a.staked
  pub pool : a'.total.staked ≡ a.total.staked
  pub earned : a'.earned ≡ a.earned

module _ {H C D : Type 0} ⦃ec : Eq C⦄ where
  commit_elapsed-Moved :
      (s : State H C D) (a : Account H C) → Moved s (commit_elapsed s a).0 a.id 0 0
  unfolding commit_elapsed commit_total_elapsed reset
  commit_elapsed-Moved s a = elim (Bool-cases (a.staked == 0)) [
    | inl q ↦ rw q (Moved-store s _ a.id _ 0 0 refl refl refl)
    | inr q ↦ rw q (Moved-store s _ a.id _ 0 0 refl refl refl)
  ]

  -- The account at hand has the stakes of the state.
  pub record Loaded (s : State H C D) (a : Account H C) : Type 0 where
    pub own : a.staked ≡ user_stake s a.id
    pub pool : a.total.staked ≡ pool_stake s

  commit_elapsed-SameAccount :
      (s : State H C D) (a : Account H C) → SameAccount a (commit_elapsed s a).1
  unfolding commit_elapsed reset
  commit_elapsed-SameAccount s a = elim (Bool-cases (a.staked == 0)) [
    | inl q ↦ rw q (record { id = refl; address = refl; staked = refl; pool = refl; earned = refl })
    | inr q ↦ rw q (record { id = refl; address = refl; staked = refl; pool = refl; earned = refl })
  ]

  set_staked-Moved :
      (s : State H C D) (a : Account H C) (staked pool added taken : ℕ)
      → Loaded s a
      → staked + taken ≡ a.staked + added
      → pool + taken ≡ a.total.staked + added
      → Moved s (set_staked s a staked pool).0 a.id added taken
  unfolding set_staked
  set_staked-Moved s a staked pool added taken l h k =
      Moved-store s _ a.id (record (stored_of s a.id) { staked = some staked }) added taken refl
        (k ∙ ap (λ n. n + added) l.pool) (h ∙ ap (λ n. n + added) l.own)

  set_staked-Loaded :
      (s : State H C D) (a : Account H C) (staked pool : ℕ)
      → Loaded (set_staked s a staked pool).0 (set_staked s a staked pool).1
  unfolding set_staked
  set_staked-Loaded s a staked pool = record {
    own =
        rw
          (
            get-put nothing_stored a.id a.id (record (stored_of s a.id) { staked = some staked })
                s.accounts,
            (ec.beq_iff a.id a.id).1 refl,
          )
          refl;
    pool = refl;
  }

  commit_elapsed-Loaded :
      (s : State H C D) (a : Account H C)
      → Loaded s a
      → Loaded (commit_elapsed s a).0 (commit_elapsed s a).1
  commit_elapsed-Loaded s a l =
      let m = commit_elapsed-Moved s a in
      let k = commit_elapsed-SameAccount s a in
      record {
        own =
            k.staked
            ∙ l.own
            ∙ omega (arith, m.own)
            ∙ ap (user_stake (commit_elapsed s a).0) (sym k.id);
        pool = k.pool ∙ l.pool ∙ omega (arith, m.pool);
      }

  -- What a deposit or a withdrawal leaves.
  pub record Staked (s : State H C D) (a : Account H C) (added taken : ℕ) (s' : State H C D)
      (a' : Account H C) : Type 0 where
    pub moved : Moved s s' a.id added taken
    pub loaded : Loaded s' a'
    pub id : a'.id ≡ a.id
    pub address : a'.address ≡ a.address
    pub earned : a'.earned ≡ a.earned
    pub staked : a'.staked + taken ≡ a.staked + added

  set_staked-Staked :
      (s : State H C D) (a : Account H C) (staked pool added taken : ℕ)
      → Loaded s a
      → staked + taken ≡ (commit_elapsed s a).1.staked + added
      → pool + taken ≡ (commit_elapsed s a).1.total.staked + added
      → let r = set_staked (commit_elapsed s a).0 (commit_elapsed s a).1 staked pool in
        Staked s a added taken r.0 r.1
  unfolding set_staked
  set_staked-Staked s a staked pool added taken l h k =
      let t = commit_elapsed s a in
      let same = commit_elapsed-SameAccount s a in
      let later =
        set_staked-Moved t.0 t.1 staked pool added taken (commit_elapsed-Loaded s a l) h k in
      record {
        moved =
            Moved-trans s t.0 _ a.id 0 0 added taken added taken (commit_elapsed-Moved s a)
              (subst (λ i. Moved t.0 (set_staked t.0 t.1 staked pool).0 i added taken) same.id
                later)
              (omega arith) (omega arith);
        loaded = set_staked-Loaded t.0 t.1 staked pool;
        id = same.id;
        address = same.address;
        earned = same.earned;
        staked = h ∙ ap (λ n. n + added) same.staked;
      }

  staked_lem :
      (s : State H C D) (a : Account H C) (staked pool added taken : ℕ) (s' : State H C D)
      (a' : Account H C)
      → Loaded s a
      → staked + taken ≡ (commit_elapsed s a).1.staked + added
      → pool + taken ≡ (commit_elapsed s a).1.total.staked + added
      → ok (set_staked (commit_elapsed s a).0 (commit_elapsed s a).1 staked pool) ≡ ok (s', a')
      → Staked s a added taken s' a'
  staked_lem s a staked pool added taken s' a' l h k same =
      subst (λ p. Staked s a added taken p.0 p.1) (ok-injective same)
        (set_staked-Staked s a staked pool added taken l h k)

  pub commit_withdrawal-Staked :
      ⦃u : Uint128⦄ (s s' : State H C D) (a a' : Account H C) (amount : ℕ)
      → Loaded s a
      → commit_withdrawal s a amount ≡ ok (s', a')
      → Staked s a 0 amount s' a'
  unfolding commit_withdrawal
  commit_withdrawal-Staked ⦃u⦄ s s' a a' amount l h =
      let t = (commit_elapsed s a).1 in
      >>=-elim (u.sub t.staked amount) _ h λ staked q0 h0.
        >>=-elim (u.sub t.total.staked amount) _ h0 λ pool q1 h1.
          staked_lem s a staked pool 0 amount s' a' l
            (omega (arith, (u.sub-eq-ok t.staked amount staked q0).1))
            (omega (arith, (u.sub-eq-ok t.total.staked amount pool q1).1)) h1

  pub commit_stake-Staked :
      ⦃u : Uint128⦄ (s s' : State H C D) (a a' : Account H C) (amount : ℕ)
      → Loaded s a
      → commit_stake s a amount ≡ ok (s', a')
      → Staked s a amount 0 s' a'
  unfolding commit_stake
  commit_stake-Staked ⦃u⦄ s s' a a' amount l h =
      let t = (commit_elapsed s a).1 in
      >>=-elim (u.add t.staked amount) _ h λ staked q0 h0.
        >>=-elim (u.add t.total.staked amount) _ h0 λ pool q1 h1.
          staked_lem s a staked pool amount 0 s' a' l
            (omega (arith, (u.add-eq-ok t.staked amount staked q0).0))
            (omega (arith, (u.add-eq-ok t.total.staked amount pool q1).0)) h1

module _ {H C D : Type 0} ⦃e : Eq H⦄ ⦃ec : Eq C⦄ ⦃u : Uint128⦄ ⦃w : Uint256⦄ (d : Deps H C) where
  -- The total has the stake of the pool, and its seal.
  total_loaded :
      (s : State H C D) (clock : Clock) (total : Total)
      → get_total d s clock ≡ ok total
      → (total.staked ≡ pool_stake s) × (total.closed ≡ s.config.closed)
  unfolding get_total
  total_loaded s clock total h =
      let updated = unwrap_or s.totals.updated clock.now in
      let late = generic (rewards (no_time_travel 2)) in
      >>=-elim (guard (not (ltb clock.now updated)) late) _ h λ unit q0 h0.
        >>=-elim (accumulate (unwrap_or s.totals.volume 0) (clock.now - updated) (pool_stake s)) _
          h0
          λ volume q1 h1. >>=-elim (get_budget d s.config (pool_stake s)) _ h1 λ budget q2 h2.
            >>=-elim (u.add (unwrap_or s.totals.claimed 0) budget) _ h2 λ unlocked q3 h3.
              (ap Total.staked (sym (ok-injective h3)), ap Total.closed (sym (ok-injective h3)))

  -- An account that was loaded for an address.
  pub record LoadedFor (s : State H C D) (user : H) (a : Account H C) : Type 0 where
    pub loaded : Loaded s a
    pub address : a.address ≡ user
    pub id : d.canonize user ≡ ok a.id
    pub closed : a.total.closed ≡ s.config.closed

  get_account-LoadedFor :
      (s : State H C D) (total : Total) (address : H) (a : Account H C)
      → (total.staked ≡ pool_stake s) × (total.closed ≡ s.config.closed)
      → get_account d s total address ≡ ok a
      → LoadedFor s address a
  unfolding get_account
  get_account-LoadedFor s total address a (p, k) h = >>=-elim (d.canonize address) _ h λ id q0 h0.
      let keys = stored_of s id in
      let updated = unwrap_or keys.updated total.clock.now in
      let entry = unwrap_or keys.entry_vol total.clock.volume in
      let entry_rew = unwrap_or keys.entry_rew total.unlocked in
      let late = λ (n : ℕ). generic (rewards (no_time_travel n)) in
      >>=-elim (guard (not (ltb total.clock.now updated)) (late 3)) _ h0 λ unit q1 h1.
        >>=-elim (accumulate (unwrap_or keys.volume 0) (total.clock.now - updated) (stake_in keys))
          _ h1
          λ volume q2 h2.
            >>=-elim (guard (not (ltb total.volume entry)) (late 4)) _ h2 λ unit_1 q3 h3.
              >>=-elim (w.sub total.volume entry) _ h3 λ pool_volume q4 h4.
                >>=-elim (guard (not (ltb total.unlocked entry_rew)) (late 5)) _ h4 λ unit_2 q5 h5.
                  >>=-elim (u.sub total.unlocked entry_rew) _ h5 λ pool_rewards q6 h6.
                    >>=-elim (get_earned total.budget pool_rewards volume pool_volume) _ h6
                      λ earned q7 h7.
                        subst (λ x. LoadedFor s address x) (ok-injective h7)
                          (record {
                            loaded = record { own = refl; pool = p };
                            address = refl;
                            id = q0;
                            closed = k;
                          })

  pub from_addr-LoadedFor :
      (s : State H C D) (address : H) (time : ℕ) (a : Account H C)
      → from_addr d s address time ≡ ok a
      → LoadedFor s address a
  unfolding from_addr from_time
  from_addr-LoadedFor s address time a h =
      >>=-elim (get_total d s (get_clock s time)) _ h λ total q0 h0.
        get_account-LoadedFor s total address a (total_loaded s (get_clock s time) total q0) h0

  commit_total_claim-Moved :
      (s : State H C D) (total : Total) (earned : ℕ) (id : C) (r : State H C D × Total)
      → commit_total_claim d s total earned ≡ ok r
      → Moved s r.0 id 0 0
  unfolding commit_total_claim
  commit_total_claim-Moved s total earned id r h =
      >>=-elim (u.add total.distributed earned) _ h λ distributed q0 h0.
        subst (λ p. Moved s p.0 id 0 0) (ok-injective h0)
          (record { pool = refl; sum = refl; own = refl; others = λ j n. refl })

  -- A claim leaves the stakes alone.
  pub commit_claim-Moved :
      (s s' : State H C D) (a a' : Account H C)
      → commit_claim d s a ≡ ok (s', a')
      → Moved s s' a.id 0 0 × (a'.address ≡ a.address) × (a'.earned ≡ a.earned)
  unfolding commit_claim reset
  commit_claim-Moved s s' a a' h = elim (Bool-cases (ltb 0 a.earned)) [
    | inl q ↦
        let t = reset s a in
        >>=-elim (commit_total_claim d t.0 t.1.total t.1.earned) _ (rw q at h) λ r q0 rest.
          subst (λ p. Moved s p.0 a.id 0 0 × (p.1.address ≡ a.address) × (p.1.earned ≡ a.earned))
            (ok-injective rest)
            (
              Moved-trans s t.0 r.0 a.id 0 0 0 0 0 0 (reset-Moved s a)
                  (commit_total_claim-Moved t.0 t.1.total t.1.earned a.id r q0) refl refl,
              refl,
              refl,
            )
    | inr q ↦
        subst (λ p. Moved s p.0 a.id 0 0 × (p.1.address ≡ a.address) × (p.1.earned ≡ a.earned))
          (ok-injective (rw q at h)) (Moved-refl s a.id, refl, refl)
  ]
