-- ===== src/Rewards/Ledger.antt =====
-- The stakes as a ledger: what the messages of handle.rs about a stake book, and for whom, in an open pool
-- and in a closed one.
use mathlib.Core.Path.{subst}
use Prim.Native.String.{String}
use sienna_network.Base.{
  ℕ, ◌+◌, ◌<◌, ◌≡◌, refl, sym, ◌∙◌, ap, Bool, true, false, inl, inr, Option, some, none,
  Result-cases, List, [], ◌∷◌, ◌++◌, ok, err, >>=-elim, ok-injective, guard, guard-eq-ok, arith,
  Error, Eq, Uint128, Uint256, Decimal, ContractLink, unauthorized,
}
use sienna_network.Rewards.{
  RewardsHandle, make_deposit, deposit_receiver, make_withdrawal, make_claim, begin_epoch,
  configure, close, handle_rewards,
}
use sienna_network.Rewards.Storage.{
  State, Deps, Env, Msg, transfer, transfer_from, load_lp_token, load_reward_token, load_self_link,
}
use sienna_network.Rewards.Users.{Account, from_addr}
use sienna_network.Rewards.Staking.{
  ClaimRecipient, when_closed, commit_deposit, force_exit, deposit_messages, deposit, withdraw,
  claim,
}
use sienna_network.Rewards.Stakes.{user_stake, Moved}
use sienna_network.Rewards.Stakes.Commits.{LoadedFor, from_addr-LoadedFor}
use sienna_network.Rewards.Stakes.Settings.{commit_deposit-config}
use sienna_network.Rewards.Stakes.Moves.{
  PaidReward, ClaimSends, commit_deposit-Moved, force_exit-Moved, withdraw_open-Moved,
  claim_open-Moved,
}

pub branch_none :
    {A : Type 0} {o : Option (ℕ × String)} (x y : A) {z : A}
    → o ≡ none
    → when_closed o x y ≡ z
    → y ≡ z
branch_none x y p h = sym (ap (λ v. when_closed v x y) p) ∙ h

pub branch_some :
    {A : Type 0} {o : Option (ℕ × String)} {seal : ℕ × String} (x y : A) {z : A}
    → o ≡ some seal
    → when_closed o x y ≡ z
    → x ≡ z
branch_some x y p h = sym (ap (λ v. when_closed v x y) p) ∙ h

exit_messages :
    {H : Type 0} {a b : H} {m n k : ℕ} (lp_token reward_token : ContractLink H)
    → a ≡ b
    → m ≡ n
    → transfer a m lp_token ∷ transfer a k reward_token ∷ []
      ≡ transfer b n lp_token ∷ transfer b k reward_token ∷ []
exit_messages lp_token reward_token p q = rw (p, q) refl

-- What a user sends about the own stake.
unfoldable pub is_own : {H : Type 0} → RewardsHandle H → Bool
is_own (make_deposit amount) = true
is_own (make_withdrawal amount) = true
is_own (make_claim to) = true
is_own (deposit_receiver from amount) = false
is_own (begin_epoch next_epoch) = false
is_own (configure config) = false
is_own (close message) = false

module _ {H C D : Type 0} ⦃e : Eq H⦄ ⦃ec : Eq C⦄ ⦃u : Uint128⦄ ⦃w : Uint256⦄ ⦃dec : Decimal D⦄
    (d : Deps H C) where
  -- A user's stake, the sum of all stakes and the pool's stake go up by `added` and down by `taken`, and
  -- no other user's stake changes.
  pub record Booked (s s' : State H C D) (user : H) (added taken : ℕ) : Type 0 where
    pub id : C
    pub canonical : d.canonize user ≡ ok id
    pub moved : Moved s s' id added taken

  -- A user has left a closed pool at a time: the stake is gone, and the messages pay it in the staked token,
  -- and what the user had earned then in the reward token.
  pub record Exited (s s' : State H C D) (user : H) (time : ℕ) (messages : List (Msg H))
      : Type 0 where
    pub id : C
    pub canonical : d.canonize user ≡ ok id
    pub moved : Moved s s' id 0 (user_stake s id)
    pub gone : user_stake s' id ≡ 0
    pub account : Account H C
    pub loaded : from_addr d s user time ≡ ok account
    pub lp_token : ContractLink H
    pub reward_token : ContractLink H
    pub staked_in : load_lp_token d s.config ≡ ok lp_token
    pub rewarded_in : load_reward_token d s.config ≡ ok reward_token
    pub paid :
        messages
        ≡ transfer user (user_stake s id) lp_token ∷ transfer user account.earned reward_token ∷ []

  booked :
      (s s' : State H C D) (user : H) (a : Account H C) (added taken : ℕ)
      → LoadedFor d s user a
      → Moved s s' a.id added taken
      → Booked s s' user added taken
  booked s s' user a added taken f m = record { id = a.id; canonical = f.id; moved = m }

  force_exit-Exited :
      (s s' : State H C D) (user : H) (time : ℕ) (a : Account H C) (messages : List (Msg H))
      → from_addr d s user time ≡ ok a
      → force_exit d s a ≡ ok (s', messages)
      → Exited s s' user time messages
  force_exit-Exited s s' user time a messages from h =
      let f = from_addr-LoadedFor d s user time a from in
      let (m, (lp_token, reward_token, q0, q1, paid)) =
        force_exit-Moved d s s' a messages f.loaded h in
      record {
        id = a.id;
        canonical = f.id;
        moved = subst (λ n. Moved s s' a.id 0 n) f.loaded.own m;
        gone = omega (arith, m.own, f.loaded.own);
        account = a;
        loaded = from;
        lp_token = lp_token;
        reward_token = reward_token;
        staked_in = q0;
        rewarded_in = q1;
        paid = paid ∙ exit_messages lp_token reward_token f.address f.loaded.own;
      }

  pub deposit_open_parts :
      (s s' : State H C D) (a : Account H C) (amount : ℕ) (take : Bool) (messages : List (Msg H))
      → a.total.closed ≡ none
      → deposit d s a amount take ≡ ok (s', messages)
      → (r : State H C D × Account H C) × (commit_deposit d s a amount ≡ ok r)
        × (r.0 ≡ s')
        × (deposit_messages d r.0.config a amount take ≡ ok messages)
  unfolding deposit
  deposit_open_parts s s' a amount take messages unclosed h =
      >>=-elim (commit_deposit d s a amount) _ (branch_none _ _ unclosed h) λ r q0 h0.
        >>=-elim (deposit_messages d r.0.config a amount take) _ h0 λ sent q1 h1.
          (r, q0, ap (λ p. p.0) (ok-injective h1), q1 ∙ ap (λ p. ok (p.1)) (ok-injective h1))

  deposit_messages-taken :
      (s : State H C D) (a : Account H C) (amount : ℕ) (messages : List (Msg H))
      → deposit_messages d s.config a amount true ≡ ok messages
      → (lp_token self_link : ContractLink H) × (load_lp_token d s.config ≡ ok lp_token)
        × (load_self_link d s.config ≡ ok self_link)
        × (messages ≡ transfer_from a.address self_link.address amount lp_token ∷ [])
  unfolding deposit_messages
  deposit_messages-taken s a amount messages h =
      >>=-elim (load_lp_token d s.config) _ h λ lp_token q0 h0.
        >>=-elim (load_self_link d s.config) _ h0
          λ self_link q1 h1. (lp_token, self_link, q0, q1, sym (ok-injective h1))

  -- An accepted deposit in an open pool books the amount for the sender, and one message takes that much of
  -- the staked token of the configuration from the sender, to the pool's own address.
  pub make_deposit-books :
      (env : Env H) (s s' : State H C D) (amount : ℕ) (messages : List (Msg H))
      → s.config.closed ≡ none
      → handle_rewards d env s (make_deposit amount) ≡ ok (s', messages)
      → Booked s s' env.sender amount 0
        × ((lp_token self_link : ContractLink H) × (load_lp_token d s.config ≡ ok lp_token)
            × (load_self_link d s.config ≡ ok self_link)
            × (messages ≡ transfer_from env.sender self_link.address amount lp_token ∷ []))
  unfolding handle_rewards
  make_deposit-books env s s' amount messages unclosed h =
      >>=-elim (from_addr d s env.sender env.time) _ h λ a q0 h0.
        let f = from_addr-LoadedFor d s env.sender env.time a q0 in
        let (r, q1, same, q2) =
          deposit_open_parts s s' a amount true messages (f.closed ∙ unclosed) h0 in
        let (lp_token, self_link, q3, q4, sent) = deposit_messages-taken r.0 a amount messages q2 in
        let kept = commit_deposit-config d s r.0 a r.1 amount q1 in
        (
          booked s s' env.sender a amount 0 f (
              subst (λ x. Moved s x a.id amount 0) same
                (commit_deposit-Moved d s r.0 a r.1 amount f.loaded q1)),
          (
            lp_token,
            self_link,
            ap (λ c. load_lp_token d c) (sym kept) ∙ q3,
            ap (λ c. load_self_link d c) (sym kept) ∙ q4,
            subst (λ x. messages ≡ transfer_from x self_link.address amount lp_token ∷ []) f.address
                sent,
          ),
        )

  -- Tokens that come by the receiver interface are booked, for the one they come from, only if the
  -- sender of the message is the contract of the staked token. Nothing is sent.
  pub deposit_receiver-books :
      (env : Env H) (s s' : State H C D) (from : H) (amount : ℕ) (messages : List (Msg H))
      → s.config.closed ≡ none
      → handle_rewards d env s (deposit_receiver from amount) ≡ ok (s', messages)
      → Booked s s' from amount 0
        × (messages ≡ [])
        × ((lp_token : ContractLink H) × (load_lp_token d s.config ≡ ok lp_token)
            × (lp_token.address ≡ env.sender))
  unfolding handle_rewards deposit_messages
  deposit_receiver-books env s s' from amount messages unclosed h =
      >>=-elim (load_lp_token d s.config) _ h λ lp_token q0 h0.
        >>=-elim (guard (e.beq lp_token.address env.sender) unauthorized) _ h0 λ unit q1 h1.
          >>=-elim (from_addr d s from env.time) _ h1 λ a q2 h2.
            let f = from_addr-LoadedFor d s from env.time a q2 in
            let (r, q3, same, q4) =
              deposit_open_parts s s' a amount false messages (f.closed ∙ unclosed) h2 in
            (
              booked s s' from a amount 0 f (
                  subst (λ x. Moved s x a.id amount 0) same
                    (commit_deposit-Moved d s r.0 a r.1 amount f.loaded q3)),
              sym (ok-injective q4),
              (lp_token, q0, (e.beq_iff lp_token.address env.sender).0 (guard-eq-ok _ _ q1)),
            )

  -- An accepted withdrawal from an open pool takes the amount off the stake of the sender, and the last
  -- message pays it to the sender in the staked token of the configuration. Before it there is no message, or
  -- one that pays the sender what the account had earned, in the reward token.
  pub make_withdrawal-books :
      (env : Env H) (s s' : State H C D) (amount : ℕ) (messages : List (Msg H))
      → s.config.closed ≡ none
      → handle_rewards d env s (make_withdrawal amount) ≡ ok (s', messages)
      → Booked s s' env.sender 0 amount
        × ((a : Account H C) × (paid : List (Msg H)) × (lp_token : ContractLink H) × (from_addr d s
                env.sender env.time
              ≡ ok a)
            × PaidReward d s env.sender a.earned paid
            × (load_lp_token d s.config ≡ ok lp_token)
            × (messages ≡ paid ++ transfer env.sender amount lp_token ∷ []))
  unfolding handle_rewards withdraw
  make_withdrawal-books env s s' amount messages unclosed h =
      >>=-elim (from_addr d s env.sender env.time) _ h λ a q0 h0.
        let f = from_addr-LoadedFor d s env.sender env.time a q0 in
        let (m, (paid, lp_token, rewarded, loaded, sent)) =
          withdraw_open-Moved d s s' a amount messages f.loaded
            (branch_none _ _ (f.closed ∙ unclosed) h0) in
        (
          booked s s' env.sender a 0 amount f m,
          (
            a,
            paid,
            lp_token,
            q0,
            subst (λ x. PaidReward d s x a.earned paid) f.address rewarded,
            loaded,
            subst (λ x. messages ≡ paid ++ transfer x amount lp_token ∷ []) f.address sent,
          ),
        )

  -- An accepted claim in an open pool leaves every stake as it is, and its one message pays what the account
  -- had earned, which is not zero, in the reward token of the configuration: to the sender, where the claim
  -- names no recipient, else to the human or, with the text, to the contract that it names.
  pub make_claim-pays :
      (env : Env H) (s s' : State H C D) (to : Option (ClaimRecipient H)) (messages : List (Msg H))
      → s.config.closed ≡ none
      → handle_rewards d env s (make_claim to) ≡ ok (s', messages)
      → Booked s s' env.sender 0 0
        × ((a : Account H C) × (reward_token : ContractLink H) × (from_addr d s env.sender env.time
              ≡ ok a)
            × (0 < a.earned)
            × (load_reward_token d s.config ≡ ok reward_token)
            × ClaimSends env.sender a.earned reward_token to messages)
  unfolding handle_rewards claim
  make_claim-pays env s s' to messages unclosed h =
      >>=-elim (from_addr d s env.sender env.time) _ h λ a q0 h0.
        let f = from_addr-LoadedFor d s env.sender env.time a q0 in
        let (m, positive, over, (reward_token, loaded, sent)) =
          claim_open-Moved d s s' a to messages (branch_none _ _ (f.closed ∙ unclosed) h0) in
        (
          booked s s' env.sender a 0 0 f m,
          (
            a,
            reward_token,
            q0,
            positive,
            loaded,
            subst (λ x. ClaimSends x a.earned reward_token to messages) f.address sent,
          ),
        )

  -- In a closed pool, an accepted deposit, withdrawal or claim of any amount makes the sender leave: the
  -- whole stake goes, out of the account, the sum and the pool, and two messages pay the sender: the stake in
  -- the staked token of the configuration, and what the account had earned in its reward token.
  pub handle_rewards-exits :
      (env : Env H) (s s' : State H C D) (msg : RewardsHandle H) (seal : ℕ × String)
      (messages : List (Msg H))
      → is_own msg ≡ true
      → s.config.closed ≡ some seal
      → handle_rewards d env s msg ≡ ok (s', messages)
      → Exited s s' env.sender env.time messages
  unfolding handle_rewards deposit withdraw claim is_own
  handle_rewards-exits env s s' (make_deposit amount) seal messages own closed h =
      >>=-elim (from_addr d s env.sender env.time) _ h λ a q0 h0.
        let f = from_addr-LoadedFor d s env.sender env.time a q0 in
        force_exit-Exited s s' env.sender env.time a messages q0
          (branch_some _ _ (f.closed ∙ closed) h0)
  handle_rewards-exits env s s' (make_withdrawal amount) seal messages own closed h =
      >>=-elim (from_addr d s env.sender env.time) _ h λ a q0 h0.
        let f = from_addr-LoadedFor d s env.sender env.time a q0 in
        force_exit-Exited s s' env.sender env.time a messages q0
          (branch_some _ _ (f.closed ∙ closed) h0)
  handle_rewards-exits env s s' (make_claim to) seal messages own closed h =
      >>=-elim (from_addr d s env.sender env.time) _ h λ a q0 h0.
        let f = from_addr-LoadedFor d s env.sender env.time a q0 in
        force_exit-Exited s s' env.sender env.time a messages q0
          (branch_some _ _ (f.closed ∙ closed) h0)
  handle_rewards-exits env s s' (deposit_receiver from amount) seal messages own closed h =
      absurd (cc own)
  handle_rewards-exits env s s' (begin_epoch next_epoch) seal messages own closed h =
      absurd (cc own)
  handle_rewards-exits env s s' (configure config) seal messages own closed h = absurd (cc own)
  handle_rewards-exits env s s' (close message) seal messages own closed h = absurd (cc own)

  -- In an open pool, a withdrawal of more than the sender's stake fails.
  pub make_withdrawal-refused :
      (env : Env H) (s : State H C D) (id : C) (amount : ℕ)
      → s.config.closed ≡ none
      → d.canonize env.sender ≡ ok id
      → user_stake s id < amount
      → (problem : Error) × (handle_rewards d env s (make_withdrawal amount) ≡ err problem)
  make_withdrawal-refused env s id amount unclosed same less =
      elim (Result-cases (handle_rewards d env s (make_withdrawal amount))) [
        | inr refused ↦ refused
        | inl ((s', messages), h) ↦
            let b = (make_withdrawal-books env s s' amount messages unclosed h).0 in
            let own =
              subst (λ i. user_stake s' i + amount ≡ user_stake s i + 0)
                (ok-injective (sym b.canonical ∙ same)) b.moved.own in
            absurd (omega (arith, own, less))
      ]
