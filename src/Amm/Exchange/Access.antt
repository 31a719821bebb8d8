-- ===== src/Amm/Exchange/Access.antt =====
-- Who may call an exchange, and what it stores.
use sienna_network.Base.{
  ◌≡◌, ◌≢◌, ◌⊎◌, inl, inr, refl, sym, ◌∙◌, ap, Option, some, false, List, [], ok, err, >>=-elim,
  ok-injective, guard, guard-eq-ok, or_fail, unauthorized, Eq, Uint128, Uint256, ContractLink,
  Bool-cases, Option-cases, arith, ℕ,
}
use Prim.Native.String.{String}
use sienna_network.Amm.Tokens.{TokenType, custom_token, native_token, TokenPair, Msg, link}
use sienna_network.Amm.Exchange.{
  Env, Deps, ReceiverMsg, receive_swap, remove_liquidity, sent_token, find_sent, receive_msg,
  receiver_callback, register_lp_token, do_change_factory,
}
use sienna_network.Amm.Exchange.Storage.RoundTrip.{Undoes, load_config-store_config}
use sienna_network.Amm.Exchange.Storage.{Config, State, store_config, load_config}

-- A token is the contract at an address.
unfoldable pub IsTokenAt : {H : Type 0} → TokenType H → H → Type 0
IsTokenAt (custom_token a h) address = a ≡ address
IsTokenAt (native_token d) address = ⊥

beq_no : {H : Type 0} ⦃e : Eq H⦄ (a b : H) → a ≢ b → e.beq a b ≡ false
beq_no ⦃e⦄ a b n = elim (Bool-cases (e.beq a b)) [
  | inl q ↦ absurd (n ((e.beq_iff a b).0 q))
  | inr q ↦ q
]

module _ {H C : Type 0} (d : Deps H C) (env : Env H) where
  -- The sender is the token of the liquidity shares or a contract that is a token of the pair.
  abbrev pub FromToken : (s : State C) → Type 0
  FromToken s =
      (config : Config H) × (load_config d.humanize s ≡ ok config)
      × ((env.sender ≡ config.lp_token_info.address)
          ⊎ (IsTokenAt config.pair.token_0 env.sender ⊎ IsTokenAt config.pair.token_1 env.sender))

  -- The sender is the factory; the new state has the new factory, and else what the old one had.
  abbrev pub FactoryChanged :
      (s s' : State C) (factory : ContractLink H) (messages : List (Msg H)) → Type 0
  FactoryChanged s s' factory messages =
      (config : Config H) × (load_config d.humanize s ≡ ok config)
      × (env.sender ≡ config.factory_info.address)
      × (load_config d.humanize s' ≡ ok (record config { factory_info = factory }))
      × (messages ≡ [])

module _ {H C : Type 0} ⦃e : Eq H⦄ ⦃u : Uint128⦄ ⦃w : Uint256⦄ where
  sent_token-IsTokenAt :
      (d : Deps H C) (token found : TokenType H) (sender : H)
      → sent_token d token sender ≡ some found
      → IsTokenAt token sender
  unfolding sent_token IsTokenAt
  sent_token-IsTokenAt d (custom_token a h) found sender s = ground (arith, e.beq_iff a sender)
  sent_token-IsTokenAt d (native_token n) found sender s = cc

  find_sent-IsTokenAt :
      (d : Deps H C) (pair : TokenPair H) (found : TokenType H) (sender : H)
      → find_sent d pair sender ≡ some found
      → IsTokenAt pair.token_0 sender ⊎ IsTokenAt pair.token_1 sender
  unfolding find_sent
  find_sent-IsTokenAt d pair found sender s =
      elim (Option-cases (sent_token d pair.token_0 sender)) [
        | inr (token, first) ↦ inl (sent_token-IsTokenAt d pair.token_0 token sender first)
        | inl missed ↦
            inr (sent_token-IsTokenAt d pair.token_1 found sender (rw (find_sent, missed) at s))
      ]

  receive_msg-sender :
      (d : Deps H C) (env : Env H) (s : State C) (from : H) (amount : ℕ) (config : Config H)
      (parsed : ReceiverMsg H) (messages : List (Msg H))
      → receive_msg d env s from amount config parsed ≡ ok messages
      → (env.sender ≡ config.lp_token_info.address)
        ⊎ (IsTokenAt config.pair.token_0 env.sender ⊎ IsTokenAt config.pair.token_1 env.sender)
  unfolding receive_msg
  receive_msg-sender d env s from amount config (receive_swap expected to) messages h =
      elim (Option-cases (find_sent d config.pair env.sender)) [
        | inr (token, found) ↦ inr (find_sent-IsTokenAt d config.pair token env.sender found)
        | inl missed ↦ absurd (cc (rw (receive_msg, missed) at h))
      ]
  receive_msg-sender d env s from amount config (remove_liquidity recipient) messages h =
      >>=-elim (guard (e.beq config.lp_token_info.address env.sender) unauthorized) _ h
        λ unit q rest.
          inl (sym ((e.beq_iff config.lp_token_info.address env.sender).0 (guard-eq-ok _ _ q)))

  -- A token's message is taken only from the token of the liquidity shares or from a contract that is a
  -- token of the pair.
  pub receiver_callback-sender :
      (d : Deps H C) (env : Env H) (s : State C) (from : H) (amount : ℕ) (msg : Option String)
      (messages : List (Msg H))
      → receiver_callback d env s from amount msg ≡ ok messages
      → FromToken d env s
  unfolding receiver_callback
  receiver_callback-sender d env s from amount msg messages h =
      >>=-elim (or_fail msg _) _ h λ binary q0 h0.
        >>=-elim (load_config d.humanize s) _ h0 λ config q1 h1.
          >>=-elim (d.parse binary) _ h1 λ parsed q2 h2.
            (config, q1, receive_msg-sender d env s from amount config parsed messages h2)

  register_lp_token-eq-ok :
      (d : Deps H C) (env : Env H) (s s' : State C) (messages : List (Msg H))
      → register_lp_token d env s ≡ ok (s', messages)
      → (config : Config H) × (load_config d.humanize s ≡ ok config)
        × (config.lp_token_info.address ≡ d.no_address)
        × (store_config d.canonize
              (record config { lp_token_info = link env.sender config.lp_token_info.code_hash })
            ≡ ok s')
  unfolding register_lp_token
  register_lp_token-eq-ok d env s s' messages h =
      >>=-elim (load_config d.humanize s) _ h λ config q0 h0.
        >>=-elim (guard (e.beq config.lp_token_info.address d.no_address) unauthorized) _ h0
          λ unit q1 h1.
            >>=-elim
              (store_config d.canonize
                (record config { lp_token_info = link env.sender config.lp_token_info.code_hash }))
              _ h1
              λ stored q2 h2. (
                config,
                q0,
                (e.beq_iff config.lp_token_info.address d.no_address).0 (guard-eq-ok _ _ q1),
                q2 ∙ ap ok (ap (λ p. p.0) (ok-injective h2)),
              )

  -- Where addresses convert back, the contract that first reports itself as the token of the liquidity
  -- shares is that token afterwards, if it is not the
  -- empty address, and no other can register after it.
  pub register_lp_token_once :
      (d : Deps H C) (env again : Env H) (s s' : State C) (messages : List (Msg H))
      → Undoes d.canonize d.humanize
      → env.sender ≢ d.no_address
      → register_lp_token d env s ≡ ok (s', messages)
      → ((config : Config H) × (load_config d.humanize s' ≡ ok config)
          × (config.lp_token_info.address ≡ env.sender))
        × (register_lp_token d again s' ≡ err unauthorized)
  unfolding register_lp_token
  register_lp_token_once d env again s s' messages back n h =
      let (config, q, free, stored) = register_lp_token-eq-ok d env s s' messages h in
      let loaded = load_config-store_config d.canonize d.humanize back _ s' stored in
      let closed = beq_no env.sender d.no_address n in ((_, loaded, refl), rw (loaded, closed) refl)

  -- Only the factory of an exchange changes its factory; where addresses convert back, the exchange then
  -- has the new one, the rest of its configuration as it was, and nothing is sent.
  pub do_change_factory_lem :
      (d : Deps H C) (env : Env H) (s s' : State C) (factory : ContractLink H)
      (messages : List (Msg H))
      → Undoes d.canonize d.humanize
      → do_change_factory d env s factory ≡ ok (s', messages)
      → FactoryChanged d env s s' factory messages
  unfolding do_change_factory
  do_change_factory_lem d env s s' factory messages back h =
      >>=-elim (load_config d.humanize s) _ h λ config q0 h0.
        >>=-elim (guard (e.beq env.sender config.factory_info.address) unauthorized) _ h0
          λ unit q1 h1.
            >>=-elim (store_config d.canonize (record config { factory_info = factory })) _ h1
              λ stored q2 h2.
                let same = ok-injective h2 in
                (
                  config,
                  q0,
                  (e.beq_iff env.sender config.factory_info.address).0 (guard-eq-ok _ _ q1),
                  load_config-store_config d.canonize d.humanize back _ s'
                      (q2 ∙ ap ok (ap (λ p. p.0) same)),
                  sym (ap (λ p. p.1) same),
                )
