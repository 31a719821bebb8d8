-- ===== src/Amm/Exchange/Trading.antt =====
-- What a swap and a withdrawal of an exchange send, and what a simulation says of a swap.
use Prim.Native.Nat.{bit_xor}
use mathlib.Core.Path.{subst}
use sienna_network.Base.{
  ◌-◌, ◌<◌, Bool-cases, Option-cases, ltb, ltb→lt, ltb→ge, guard, generic, unmanaged_token, ℕ, zero,
  suc, ◌+◌, ◌*◌, ◌≤◌, ◌≡◌, ◌⊎◌, inl, inr, refl, sym, ◌∙◌, ap, Option, none, some, true, false, List,
  [], ◌∷◌, ◌++◌, ok, >>=-elim, ok-injective, or_fail, or_fail-eq-ok, panic, unwrap_none, Eq,
  Uint128, Uint256, arith,
}
use sienna_network.Amm.Tokens.{
  TokenType, TokenPair, TokenTypeAmount, ExchangeSettings, Msg, burn, create_send_msg,
  query_balances, get_token, get_token_index, same_token, contains, custom_token, native_token,
  transfer, bank_send, link, at,
}
use sienna_network.Amm.Exchange.{
  Env, Deps, burner_messages, expects, or_else, query_exchange_settings, query_liquidity,
  burner_commission, do_swap, do_swap_messages, do_remove_liquidity,
}
use sienna_network.Amm.Exchange.Pricing.{withdrawn, SwapResult, compute_swap, percentage_decrease}
use sienna_network.Amm.Exchange.Shares.{withdrawn-le}
use sienna_network.Amm.Exchange.Storage.{Config, State, load_config}

-- Where an expected return is named, `n` is at least that.
pub AtLeast : Option ℕ → ℕ → Type 0
AtLeast none n = Unit
AtLeast (some expected) n = expected ≤ n

-- The balances of a pair after `amount` of the token at an index has come in.
unfoldable pub raise : ℕ × ℕ → ℕ → ℕ → ℕ × ℕ
raise (a, b) zero amount = (a + amount, b)
raise (a, b) (suc i) amount = (a, b + amount)

expects-AtLeast : (expected : Option ℕ) (n : ℕ) → expects expected n ≡ ok tt → AtLeast expected n
unfolding AtLeast
expects-AtLeast none n h = tt
expects-AtLeast (some expected) n h = ground arith

index_cases :
    {H : Type 0} ⦃e : Eq H⦄ (pair : TokenPair H) (token : TokenType H) (i : ℕ)
    → get_token_index pair token ≡ some i
    → (i ≡ 0) ⊎ (i ≡ 1)
unfolding get_token_index
index_cases pair token i h = ground arith

sub_back : ⦃u : Uint128⦄ (a b : ℕ) → u.sub (a + b) b ≡ ok a
sub_back ⦃u⦄ a b = u.sub_fits (a + b) b (omega arith) ∙ ap ok (omega arith)

-- The messages of a withdrawal: an amount of each token of the pair, in its order, to the recipient, and
-- the burning of the shares; each amount, times the supply, is at most the pool times the shares.
abbrev pub Withdraws :
    {H : Type 0} (env : Env H) (shares : ℕ) (recipient : H) (config : Config H)
    (supply pool_0 pool_1 : ℕ) (messages : List (Msg H))
    → Type 0
Withdraws env shares recipient config supply pool_0 pool_1 messages =
    (paid_0 paid_1 : ℕ) × (messages
      ≡ create_send_msg config.pair.token_0 env.contract.address recipient paid_0
        ∷ create_send_msg config.pair.token_1 env.contract.address recipient paid_1
        ∷ burn shares config.lp_token_info
        ∷ [])
    × (paid_0 * supply ≤ pool_0 * shares)
    × (paid_1 * supply ≤ pool_1 * shares)

-- Which side of the pair is offered, with its balance and that of the other, which is returned.
abbrev pub Sides :
    {H : Type 0} ⦃e : Eq H⦄ (pair : TokenPair H) (offered : TokenType H) (balances : ℕ × ℕ)
    (returned : TokenType H) (balance other_balance : ℕ)
    → Type 0
Sides pair offered balances returned balance other_balance =
    ((same_token pair.token_0 offered ≡ true)
      × (returned ≡ pair.token_1)
      × (balance ≡ balances.0)
      × (other_balance ≡ balances.1))
    ⊎ ((same_token pair.token_0 offered ≡ false)
        × (same_token pair.token_1 offered ≡ true)
        × (returned ≡ pair.token_0)
        × (balance ≡ balances.1)
        × (other_balance ≡ balances.0))

index-Sides :
    {H : Type 0} ⦃e : Eq H⦄ (pair : TokenPair H) (offered : TokenType H) (balances : ℕ × ℕ)
    (returned : TokenType H) (i : ℕ)
    → get_token_index pair offered ≡ some i
    → get_token pair (bit_xor i 1) ≡ some returned
    → Sides pair offered balances returned (at balances i) (at balances (bit_xor i 1))
unfolding get_token_index get_token
index-Sides pair offered balances returned i h k =
    elim (Bool-cases (same_token pair.token_0 offered)) [
      | inl q ↦
          let z : 0 ≡ i = cc (rw q at h) in
          subst
            (λ n. Sides pair offered balances returned (at balances n) (at balances (bit_xor n 1)))
            z
            (inl (
              q,
              cc (subst (λ n. get_token pair (bit_xor n 1) ≡ some returned) (sym z) k),
              refl,
              refl,
            ))
      | inr q ↦ elim (Bool-cases (same_token pair.token_1 offered)) [
        | inl r ↦
            let z : 1 ≡ i = cc (rw (q, r) at h) in
            subst
              (λ n.
                Sides pair offered balances returned (at balances n) (at balances (bit_xor n 1)))
              z
              (inr (
                q,
                r,
                cc (subst (λ n. get_token pair (bit_xor n 1) ≡ some returned) (sym z) k),
                refl,
                refl,
              ))
        | inr r ↦ absurd (cc (rw (q, r) at h))
      ]
    ]

-- The message that pays the burner.
abbrev pub payment : {H : Type 0} → (contract burner : H) → TokenType H → ℕ → Msg H
payment contract burner (custom_token a h) amount = transfer burner amount (link a h)
payment contract burner (native_token denom) amount =
    bank_send contract burner (record { denom = denom; amount = amount })

-- What the burner, if there is one, gets of an offer, unless that is 0.
abbrev pub BurnerPaid :
    {H : Type 0} ⦃w : Uint256⦄ (contract : H) (settings : ExchangeSettings H) (token : TokenType H)
    (amount commission : ℕ) (burned : List (Msg H))
    → Type 0
BurnerPaid {H} contract settings token amount commission burned =
    ((settings.sienna_burner ≡ none) × (commission ≡ 0) × (burned ≡ []))
    ⊎ ((burner : H) × (settings.sienna_burner ≡ some burner)
        × (percentage_decrease amount settings.sienna_fee ≡ ok commission)
        × (((commission ≡ 0) × (burned ≡ []))
            ⊎ ((0 < commission) × (burned ≡ payment contract burner token commission ∷ []))))

burner_messages_cases :
    {H : Type 0} (contract burner : H) (token : TokenType H) (commission : ℕ)
    → ((commission ≡ 0) × (burner_messages contract (some burner) token commission ≡ []))
      ⊎ ((0 < commission)
          × (burner_messages contract (some burner) token commission
              ≡ payment contract burner token commission ∷ []))
unfolding burner_messages
burner_messages_cases contract burner (custom_token a h) commission =
    elim (Bool-cases (ltb 0 commission)) [
      | inl q ↦ inr (ltb→lt 0 commission q, rw q refl)
      | inr q ↦ inl (omega (arith, ltb→ge 0 commission q), rw q refl)
    ]
burner_messages_cases contract burner (native_token denom) commission =
    elim (Bool-cases (ltb 0 commission)) [
      | inl q ↦ inr (ltb→lt 0 commission q, rw q refl)
      | inr q ↦ inl (omega (arith, ltb→ge 0 commission q), rw q refl)
    ]

or_else_cases :
    {A : Type 0} (o : Option A) (x : A)
    → ((o ≡ none) × (or_else o x ≡ x)) ⊎ (o ≡ some (or_else o x))
or_else_cases none x = inl (refl, refl)
or_else_cases (some y) x = inr refl

pair_same : {A B : Type 0} {a a' : A} {b b' : B} → a ≡ a' → b ≡ b' → ◌≡◌ {A = A × B} (a, b) (a', b')
pair_same p q = rw (p, q) refl

module _ {H C : Type 0} ⦃e : Eq H⦄ ⦃u : Uint128⦄ ⦃w : Uint256⦄ where
  burner-BurnerPaid :
      (d : Deps H C) (contract : H) (settings : ExchangeSettings H) (token : TokenType H)
      (amount commission : ℕ)
      → burner_commission d settings amount ≡ ok commission
      → BurnerPaid contract settings token amount commission
          (burner_messages contract settings.sienna_burner token commission)
  unfolding burner_commission burner_messages
  burner-BurnerPaid d contract settings token amount commission h =
      elim (Option-cases settings.sienna_burner) [
        | inl q ↦ inl (q, sym (ok-injective (rw q at h)), rw q refl)
        | inr (burner, q) ↦ inr (
          burner,
          q,
          rw q at h,
          subst
              (λ o.
                ((commission ≡ 0) × (burner_messages contract o token commission ≡ []))
                ⊎ ((0 < commission)
                    × (burner_messages contract o token commission
                        ≡ payment contract burner token commission ∷ [])))
              (sym q) (burner_messages_cases contract burner token commission),
        )
      ]

  -- What a swap sends: the token on the other side of the pair, in the amount that the pools before the offer
  -- and the offer without the commissions give, after what the burner gets.
  pub record SwapSends (d : Deps H C) (env : Env H) (config : Config H) (sender : H) (to : Option H)
      (offer : TokenTypeAmount H) (expected : Option ℕ) (messages : List (Msg H)) : Type 0 where
    pub settings : ExchangeSettings H
    pub balances : ℕ × ℕ
    pub swap_commission : ℕ
    pub sienna_commission : ℕ
    pub token : TokenType H
    pub pool : ℕ
    pub other_pool : ℕ
    pub result : SwapResult
    pub recipient : H
    pub burned : List (Msg H)
    pub settled_by : query_exchange_settings d config.factory_info ≡ ok settings
    pub held :
        query_balances d.querier config.pair config.contract_addr config.viewing_key ≡ ok balances
    pub sides : Sides config.pair offer.token balances token (pool + offer.amount) other_pool
    pub commission : percentage_decrease offer.amount settings.swap_fee ≡ ok swap_commission
    pub burner :
        BurnerPaid env.contract.address settings offer.token offer.amount sienna_commission burned
    pub kept : swap_commission + sienna_commission ≤ offer.amount
    pub priced :
        compute_swap pool other_pool (offer.amount - (swap_commission + sienna_commission))
        ≡ ok result
    pub enough : AtLeast expected result.return_amount
    pub goes_to : ((to ≡ none) × (recipient ≡ sender)) ⊎ (to ≡ some recipient)
    pub sent :
        messages
        ≡ burned ++ create_send_msg token env.contract.address recipient result.return_amount ∷ []

  -- A swap that succeeds sends one message, after the burner's, to the named recipient, or the sender where
  -- none is named. It carries the token of the pair that is not the offered one, in the amount that
  -- `compute_swap` returns for the offer less both commissions, on the pool of the offered token before the
  -- offer came in and the pool of the other token; that is at least the expected return. The burner, where
  -- there is one, gets its commission in the offered token, unless that is 0.
  pub do_swap_messages-sends :
      (d : Deps H C) (env : Env H) (config : Config H) (sender : H) (to : Option H)
      (offer : TokenTypeAmount H) (expected : Option ℕ) (messages : List (Msg H))
      → do_swap_messages d env config sender to offer expected ≡ ok messages
      → SwapSends d env config sender to offer expected messages
  unfolding do_swap_messages do_swap
  do_swap_messages-sends d env config sender to offer expected messages h =
      let index_of = or_fail (get_token_index config.pair offer.token) (panic unwrap_none) in
      let found = λ (i : ℕ). or_fail (get_token config.pair (bit_xor i 1)) (panic unwrap_none) in
      >>=-elim (query_exchange_settings d config.factory_info) _ h λ settings q0 h0.
        >>=-elim (do_swap d config settings offer false) _ h0 λ info q1 h1.
          >>=-elim (expects expected info.result.return_amount) _ h1 λ unit q2 h2.
            >>=-elim index_of _ h2 λ i q3 h3. >>=-elim (found i) _ h3 λ token q4 h4.
              >>=-elim (guard (contains config.pair offer.token) (generic unmanaged_token)) _ q1
                λ unit_1 p0 k0.
                  >>=-elim (percentage_decrease offer.amount settings.swap_fee) _ k0 λ fee p1 k1.
                    >>=-elim (burner_commission d settings offer.amount) _ k1 λ burn p2 k2.
                      >>=-elim
                        (query_balances d.querier config.pair config.contract_addr
                          config.viewing_key)
                        _ k2
                        λ balances p3 k3. >>=-elim index_of _ k3 λ j p4 k4.
                          >>=-elim (u.sub (at balances j) offer.amount) _ k4 λ pool p5 k5.
                            >>=-elim (u.add fee burn) _ k5 λ both p6 k6.
                              >>=-elim (u.sub offer.amount both) _ k6 λ left p7 k7.
                                >>=-elim (compute_swap pool (at balances (bit_xor j 1)) left) _ k7
                                  λ result p8 k8.
                                    let same : i ≡ j = ok-injective (sym q3 ∙ p4) in
                                    let priced_so = ap (λ x. x.result) (ok-injective k8) in
                                    let burned_so =
                                      ap (λ x. x.sienna_commission) (ok-injective k8) in
                                    let total : both ≡ fee + burn =
                                      (u.add-eq-ok fee burn both p6).0 in
                                    let rest = u.sub-eq-ok offer.amount both left p7 in
                                    record {
                                      settings = settings;
                                      balances = balances;
                                      swap_commission = fee;
                                      sienna_commission = burn;
                                      token = token;
                                      pool = pool;
                                      other_pool = at balances (bit_xor j 1);
                                      result = result;
                                      recipient = or_else to sender;
                                      burned =
                                          burner_messages env.contract.address
                                            settings.sienna_burner offer.token burn;
                                      settled_by = q0;
                                      held = p3;
                                      sides =
                                          subst
                                            (λ n.
                                              Sides config.pair offer.token balances token n
                                                (at balances (bit_xor j 1)))
                                            (sym
                                              (u.sub-eq-ok (at balances j) offer.amount pool p5).1)
                                            (index-Sides config.pair offer.token balances token j
                                              (or_fail-eq-ok _ _ p4)
                                              (or_fail-eq-ok _ _ (rw same at q4)));
                                      commission = p1;
                                      burner =
                                          burner-BurnerPaid d env.contract.address settings
                                            offer.token offer.amount burn p2;
                                      kept = omega (arith, rest.1, total);
                                      priced =
                                          ap (λ n. compute_swap pool (at balances (bit_xor j 1)) n)
                                            (omega (arith, rest.1, total))
                                          ∙ p8;
                                      enough =
                                          subst (λ x. AtLeast expected x.return_amount)
                                            (sym priced_so)
                                            (expects-AtLeast expected info.result.return_amount q2);
                                      goes_to = or_else_cases to sender;
                                      sent =
                                          subst
                                            (λ x.
                                              messages
                                              ≡ burner_messages env.contract.address
                                                  settings.sienna_burner offer.token x.0
                                                ++ create_send_msg token env.contract.address
                                                    (or_else to sender) x.1.return_amount
                                                  ∷ [])
                                            (pair_same (sym burned_so) (sym priced_so))
                                            (sym (ok-injective h4));
                                    }

  -- A withdrawal that succeeds sends an amount of each token of the pair, in its order, to the recipient
  -- and burns the shares; each amount, times the supply, is at most the pool of the token times the shares.
  pub do_remove_liquidity-sends :
      (d : Deps H C) (env : Env H) (s : State C) (shares : ℕ) (recipient : H) (config : Config H)
      (supply pool_0 pool_1 : ℕ) (messages : List (Msg H))
      → load_config d.humanize s ≡ ok config
      → query_liquidity d config.lp_token_info ≡ ok supply
      → query_balances d.querier config.pair config.contract_addr config.viewing_key
        ≡ ok (pool_0, pool_1)
      → do_remove_liquidity d env s shares recipient ≡ ok messages
      → Withdraws env shares recipient config supply pool_0 pool_1 messages
  unfolding do_remove_liquidity
  do_remove_liquidity-sends d env s shares recipient config supply pool_0 pool_1 messages c q b h =
      >>=-elim (withdrawn pool_0 shares supply) _ (rw (c, q, b) at h) λ paid_0 q0 h0.
        >>=-elim (withdrawn pool_1 shares supply) _ h0 λ paid_1 q1 h1. (
          paid_0,
          paid_1,
          sym (ok-injective h1),
          (withdrawn-le pool_0 shares supply paid_0 q0).1,
          (withdrawn-le pool_1 shares supply paid_1 q1).1,
        )

  -- A simulation before an offer has arrived returns what the swap returns after it: where the balances
  -- then are those before, with the offer added to the offered token's.
  pub do_swap_simulated :
      (d d' : Deps H C) (config : Config H) (settings : ExchangeSettings H)
      (offer : TokenTypeAmount H) (i : ℕ) (balances : ℕ × ℕ)
      → get_token_index config.pair offer.token ≡ some i
      → query_balances d.querier config.pair config.contract_addr config.viewing_key ≡ ok balances
      → query_balances d'.querier config.pair config.contract_addr config.viewing_key
        ≡ ok (raise balances i offer.amount)
      → do_swap d config settings offer true ≡ do_swap d' config settings offer false
  unfolding do_swap burner_commission raise
  do_swap_simulated d d' config settings offer i (a, b) found before after =
      elim (index_cases config.pair offer.token i found) [
        | inl z ↦
            let found_0 : get_token_index config.pair offer.token ≡ some 0 = rw z at found in
            let after_0 = rw z at after in
            rw (before, after_0, found_0, sub_back a offer.amount) refl
        | inr z ↦
            let found_1 : get_token_index config.pair offer.token ≡ some 1 = rw z at found in
            let after_1 = rw z at after in
            rw (before, after_1, found_1, sub_back b offer.amount) refl
      ]
