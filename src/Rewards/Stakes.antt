-- ===== src/Rewards/Stakes.antt =====
-- The stakes of the users and of the pool, and how a step of a handler may move them.
pub mod Commits
pub mod Settings
pub mod Moves
use mathlib.Core.Path.{subst}
use sienna_network.Base.{
  guard, generic, rewards, no_time_travel, not, ◌-◌, >>=-eq-ok, ℕ, ◌+◌, ◌≤◌, ◌≡◌, refl, sym, ◌∙◌,
  ap, Bool, true, false, Bool-cases, inl, inr, Option, some, none, unwrap_or, Result, ok, err,
  ◌>>=◌, >>=-elim, ok-injective, if◌then◌else◌, ltb, ◌==◌, arith, Eq, Uint128, Uint256, Decimal,
}
use sienna_network.Base.Dict
use sienna_network.Base.Dict.{Dict, get-put, total-put}
use sienna_network.Rewards.Storage.{State, Stored, nothing_stored, Deps, Gov}
use sienna_network.Rewards.Pool.{
  Total, from_time, get_total, accumulate, get_budget, commit_total_elapsed, commit_total_claim,
  Clock, get_clock,
}
use sienna_network.Rewards.Users.{
  Account, stored_of, store_account, reset, entry_volume, commit_elapsed, set_staked,
  commit_withdrawal, commit_stake, commit_claim, get_account, from_addr, get_earned,
}
use sienna_network.Rewards.Gov.{set_gov}
use sienna_network.Rewards.Gov.Frame.{GovOnly}

abbrev pub stake_in : Stored → ℕ
stake_in keys = unwrap_or keys.staked 0

module _ {H C D : Type 0} where
  -- What the pool says is staked, and the sum over all accounts.
  abbrev pub pool_stake : State H C D → ℕ
  pool_stake s = unwrap_or s.totals.staked 0

  abbrev pub all_stakes : State H C D → ℕ
  all_stakes s = Dict.total stake_in s.accounts

  -- The pool's stake is the sum of the accounts'.
  abbrev pub Backed : State H C D → Type 0
  Backed s = pool_stake s ≡ all_stakes s

  module _ ⦃ec : Eq C⦄ where
    abbrev pub user_stake : State H C D → C → ℕ
    user_stake s id = stake_in (stored_of s id)

    -- From one state to the next, `added` has come to the stake of one user and `taken` has gone, in that
    -- account, in the sum and in the pool's stake; no other account's stake changes.
    pub record Moved (s s' : State H C D) (id : C) (added taken : ℕ) : Type 0 where
      pub pool : pool_stake s' + taken ≡ pool_stake s + added
      pub sum : all_stakes s' + taken ≡ all_stakes s + added
      pub own : user_stake s' id + taken ≡ user_stake s id + added
      pub others : (j : C) → ec.beq id j ≡ false → user_stake s' j ≡ user_stake s j

    pub Moved-refl : (s : State H C D) (id : C) → Moved s s id 0 0
    Moved-refl s id = record { pool = refl; sum = refl; own = refl; others = λ j n. refl }

    pub Moved-trans :
        (s t v : State H C D) (id : C) (a b a' b' added taken : ℕ)
        → Moved s t id a b
        → Moved t v id a' b'
        → added ≡ a + a'
        → taken ≡ b + b'
        → Moved s v id added taken
    Moved-trans s t v id a b a' b' added taken m n p q = record {
      pool = omega (arith, m.pool, n.pool);
      sum = omega (arith, m.sum, n.sum);
      own = omega (arith, m.own, n.own);
      others = λ j no. n.others j no ∙ m.others j no;
    }

    pub Moved-Backed :
        (s s' : State H C D) (id : C) (added taken : ℕ)
        → Moved s s' id added taken
        → Backed s
        → Backed s'
    Moved-Backed s s' id added taken m b = omega (arith, m.pool, m.sum)

    -- Neither the accounts nor the totals differ.
    pub Moved-same :
        (s s' : State H C D) (id : C)
        → s'.accounts ≡ s.accounts
        → s'.totals ≡ s.totals
        → Moved s s' id 0 0
    Moved-same s s' id a t = record {
      pool = rw t refl;
      sum = rw a refl;
      own = rw a refl;
      others = λ j n. rw a refl;
    }

    pub Moved-GovOnly : (s s' : State H C D) (id : C) → GovOnly s s' → Moved s s' id 0 0
    Moved-GovOnly s s' id (g, e) =
        Moved-same s s' id (ap (λ x. x.accounts) e) (ap (λ x. x.totals) e)

    -- One account is written.
    pub Moved-store :
        (s s' : State H C D) (id : C) (keys : Stored) (added taken : ℕ)
        → s'.accounts ≡ Dict.put id keys s.accounts
        → pool_stake s' + taken ≡ pool_stake s + added
        → stake_in keys + taken ≡ user_stake s id + added
        → Moved s s' id added taken
    Moved-store s s' id keys added taken e p k = record {
      pool = p;
      sum = rw e (omega (arith, total-put stake_in nothing_stored id keys s.accounts refl, k));
      own = rw (e, get-put nothing_stored id id keys s.accounts, (ec.beq_iff id id).1 refl) k;
      others = λ j no. rw (e, get-put nothing_stored j id keys s.accounts, no) refl;
    }

    pub reset-Moved : (s : State H C D) (a : Account H C) → Moved s (reset s a).0 a.id 0 0
    unfolding reset
    reset-Moved s a = Moved-store s (reset s a).0 a.id _ 0 0 refl refl refl
