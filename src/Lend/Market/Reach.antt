-- ===== src/Lend/Market/Reach.antt =====
-- contracts/lend/market/src/contract.rs: the histories of a market, and what all of them keep.
use mathlib.Core.Path.{subst}
use Prim.Native.String.{String}
use sienna_network.Base.{
  ℕ, ◌≡◌, refl, sym, ◌∙◌, ap, some, none, Option-cases, inl, inr, ok, List, [], >>=-elim,
  ok-injective, Eq, Uint128, Uint256, Decimals, Iterable,
}
use sienna_network.Base.Dict
use sienna_network.Base.Dict.{total}
use sienna_network.Lend.Market.{HandleMsg, InitMsg, guard_msg, dispatch, new}
use sienna_network.Lend.Market.Storage.{State, BorrowSnapshot, Deps, Env, Msg, validate}
use sienna_network.Lend.Market.Accounts.{set_prng_seed}
use sienna_network.Lend.Market.Sound.{itself, Same, Sound, Same-Sound}
use sienna_network.Lend.Market.Invariant.{handle-Sound}

module _ {C S : Type 0} ⦃ec : Eq C⦄ ⦃it : Iterable S (BorrowSnapshot C)⦄ where
  -- The storage of a contract that was just created.
  pub record Fresh (s : State C S) : Type 0 where
    pub balances : s.balances ≡ []
    pub supply : s.total_supply ≡ 0
    pub info : s.borrow_info ≡ []
    pub borrowers : (i : ℕ) → it.get_at s.borrowers i ≡ none

  Fresh-Sound : (s : State C S) → Fresh s → Sound s
  unfolding total Dict.get
  Fresh-Sound s f = record {
    supplied = f.supply ∙ sym (ap (total itself) f.balances);
    listed = record {
      listed = λ a i h. absurd (cc (subst (λ x. Dict.get none a x ≡ some i) f.info h));
      indexed = λ i b h. absurd (cc (sym (f.borrowers i) ∙ h));
    };
  }

  set_prng_seed-Same : (s s' : State C S) (seed : String) → set_prng_seed s seed ≡ ok s' → Same s s'
  unfolding set_prng_seed
  set_prng_seed-Same s s' seed h = elim (Option-cases s.prng_seed) [
    | inl p ↦
        subst (λ x. Same s x) (ok-injective (rw p at h))
          (record { balances = refl; supply = refl; borrowers = refl; info = refl })
    | inr (old, p) ↦ absurd (cc (rw p at h))
  ]

  new-Sound :
      {H : Type 0} (d : Deps H C) (env : Env H) (s : State C S) (msg : InitMsg H)
      (r : State C S × List (Msg H))
      → Fresh s
      → new d env s msg ≡ ok r
      → Sound r.0
  unfolding new
  new-Sound d env s msg r f h =
      let configured : State C S = record s {
        master_key = some msg.key;
        config = some msg.config;
      } in
      >>=-elim (validate msg.config) _ h λ _ _ h1.
        >>=-elim (set_prng_seed configured msg.prng_seed) _ h1 λ seeded p h2.
          >>=-elim (d.canonize_link msg.callback_contract) _ h2 λ overseer _ h3.
            >>=-elim (d.canonize_link msg.interest_model_contract) _ h3 λ model _ h4.
              >>=-elim (d.canonize_link msg.underlying_asset) _ h4 λ underlying _ h5.
                >>=-elim (d.canonize_link env.contract) _ h5 λ self_ref _ rest.
                  let m = set_prng_seed-Same configured seeded msg.prng_seed p in
                  subst (λ x. Sound x.0) (ok-injective rest)
                    (Same-Sound s _
                      (record {
                        balances = m.balances;
                        supply = m.supply;
                        borrowers = m.borrowers;
                        info = m.info;
                      })
                      (Fresh-Sound s f))

-- The states that the market comes to: set up in fresh storage, then any messages that succeed. The chain and
-- the other contracts may answer differently at each message.
pub data Reach (H C S : Type 0) ⦃e : Eq H⦄ ⦃ec : Eq C⦄ ⦃u : Uint128⦄ ⦃w : Uint256⦄ ⦃dec : Decimals⦄
    ⦃it : Iterable S (BorrowSnapshot C)⦄ : State C S → Type 0 where
  start :
      (d : Deps H C) (env : Env H) (s : State C S) (msg : InitMsg H) (r : State C S × List (Msg H))
      → Fresh s
      → new d env s msg ≡ ok r
      → Reach H C S r.0
  step :
      (d : Deps H C) (env : Env H) (s : State C S) (msg : HandleMsg H)
      (r : State C S × List (Msg H))
      → Reach H C S s
      → dispatch d env s msg ≡ ok r
      → Reach H C S r.0

module _ {H C S : Type 0} ⦃e : Eq H⦄ ⦃ec : Eq C⦄ ⦃u : Uint128⦄ ⦃w : Uint256⦄ ⦃dec : Decimals⦄
    ⦃it : Iterable S (BorrowSnapshot C)⦄ where
  -- In every state the market comes to, by any history of messages from a set-up in fresh storage, whatever
  -- the chain and the other contracts answer on the way, the supply of its tokens is the sum of the
  -- balances, an account's index leads to an entry about it, and every entry is at the index of the account
  -- it is about.
  pub Reach-Sound : (s : State C S) → Reach H C S s → Sound s
  unfolding dispatch
  Reach-Sound s (start d env before msg r f h) = new-Sound d env before msg r f h
  Reach-Sound s (step d env before msg r known h) =
      >>=-elim (guard_msg d msg) _ h
        λ _ _ rest. handle-Sound d env before msg r (Reach-Sound before known) rest
