-- ===== src/Amm/Exchange/Depositing.antt =====
-- What an exchange takes and mints for a deposit of liquidity.
use Prim.Native.String.{String}
use sienna_network.Base.{
  ◌+◌, ◌∙◌, ap, some, Option-cases, Bool-cases, ==_iff, inl, inr, ◌⊎◌, ℕ, ◌*◌, ◌≤◌, ◌≡◌, ◌≢◌, sym,
  true, not, Option, List, [], ◌∷◌, ◌++◌, ok, ◌==◌, ◌||◌, >>=-elim, ok-injective, guard,
  guard-eq-ok, generic, zero_liquidity, wrong_pair, Eq, Uint128, Uint256, Decimal256, arith,
}
use sienna_network.Amm.Tokens.{
  TokenType, Coin, custom_token, native_token, transfer_from, link, find_coin,
  assert_sent_native_token_balance, TokenPairAmount, Msg, mint, query_balances, same_pair,
}
use sienna_network.Amm.Exchange.{Env, Deps, take_deposit, query_liquidity, do_add_liquidity}
use sienna_network.Amm.Exchange.Pricing.{lp_tokens, assert_slippage_tolerance}
use sienna_network.Amm.Exchange.Shares.{lp_tokens-le, lp_tokens-first}
use sienna_network.Amm.Exchange.Storage.{Config, State, load_config}

positive : (a b : ℕ) → not (a == 0 || b == 0) ≡ true → (a ≢ 0) × (b ≢ 0)
positive a b h = ground arith

-- Without a supply, the square of what is minted is at most the product of the amounts; with one, what
-- is minted, times the pool of either token, is at most the amount of the token times the supply.
abbrev pub Fair : (supply minted : ℕ) (amounts pools : ℕ × ℕ) → Type 0
Fair supply minted amounts pools =
    ((supply ≡ 0) × (minted * minted ≤ amounts.0 * amounts.1))
    ⊎ ((supply ≢ 0)
        × (minted * pools.0 ≤ amounts.0 * supply)
        × (minted * pools.1 ≤ amounts.1 * supply))

-- A deposit of one token, where the contract has a balance: a contract is asked to transfer it from the
-- sender, and the pool before it is the balance; a native token has to be among the funds that came with the
-- message, in that amount, and the pool before it is the balance without it.
abbrev pub Takes :
    {H : Type 0} (env : Env H) (token : TokenType H) (amount balance : ℕ) (messages : List (Msg H))
    (before : ℕ)
    → Type 0
Takes env (custom_token a h) amount balance messages before =
    (messages ≡ transfer_from env.sender env.contract.address amount (link a h) ∷ [])
    × (before ≡ balance)
Takes env (native_token denom) amount balance messages before =
    (messages ≡ [])
    × (before + amount ≡ balance)
    × ((coin : Coin) × (find_coin denom env.sent_funds ≡ some coin) × (coin.amount ≡ amount))

sent_coin :
    (H : Type 0) (denom : String) (funds : List Coin) (amount : ℕ)
    → amount ≢ 0
    → assert_sent_native_token_balance {A = H} (native_token denom) funds amount ≡ ok tt
    → (coin : Coin) × (find_coin denom funds ≡ some coin) × (coin.amount ≡ amount)
unfolding assert_sent_native_token_balance
sent_coin H denom funds amount not_none h = elim (Option-cases (find_coin denom funds)) [
  | inl q ↦ absurd (ground (arith, rw (assert_sent_native_token_balance, q) at h))
  | inr (coin, q) ↦ (coin, q, ground (arith, rw (assert_sent_native_token_balance, q) at h))
]

take_deposit-Takes :
    {H : Type 0} ⦃u : Uint128⦄ (env : Env H) (token : TokenType H) (amount balance : ℕ)
    (r : List (Msg H) × ℕ)
    → amount ≢ 0
    → take_deposit env token amount balance ≡ ok r
    → Takes env token amount balance r.0 r.1
unfolding take_deposit
take_deposit-Takes env (custom_token a h) amount balance r not_none k =
    (ap (λ x. x.0) (sym (ok-injective k)), ap (λ x. x.1) (sym (ok-injective k)))
take_deposit-Takes {H = H} ⦃u = u⦄ env (native_token denom) amount balance r not_none k =
    >>=-elim (assert_sent_native_token_balance {A = H} (native_token denom) env.sent_funds amount) _
      k
      λ unit q0 k0. >>=-elim (u.sub balance amount) _ k0 λ before q1 k1. (
        ap (λ x. x.0) (sym (ok-injective k1)),
        ap (λ x. x.1 + amount) (sym (ok-injective k1)) ∙ (u.sub-eq-ok balance amount before q1).1,
        sent_coin H denom env.sent_funds amount not_none q0,
      )

module _ ⦃w : Uint256⦄ where
  lp_tokens-Fair :
      (supply minted : ℕ) (amounts pools : ℕ × ℕ)
      → lp_tokens supply amounts pools ≡ ok minted
      → Fair supply minted amounts pools
  lp_tokens-Fair supply minted amounts pools h = elim (Bool-cases (supply == 0)) [
    | inl q ↦
        let e : supply ≡ 0 = (==_iff supply 0).0 q in
        inl (e, lp_tokens-first amounts pools minted (rw e at h))
    | inr q ↦
        let n : supply ≢ 0 = ground arith in
        let (le_0, le_1) = lp_tokens-le supply amounts.0 amounts.1 pools.0 pools.1 minted n h in
        inr (n, le_0, le_1)
  ]

module _ {H C : Type 0} ⦃e : Eq H⦄ ⦃u : Uint128⦄ ⦃w : Uint256⦄ where
  -- Both amounts are positive and the pair is that of the exchange; the messages take the two deposits, and
  -- one mints shares for the sender. The shares are
  -- fair, by the pools before the deposit.
  abbrev pub Deposited :
      (d : Deps H C) (env : Env H) (s : State C) (deposit : TokenPairAmount H)
      (messages : List (Msg H))
      → Type 0
  Deposited d env s deposit messages =
      (config : Config H) × (balances : ℕ × ℕ) × (taken_0 taken_1 : List (Msg H) × ℕ) × (supply
        minted : ℕ)
      × (deposit.amount_0 ≢ 0)
      × (deposit.amount_1 ≢ 0)
      × (load_config d.humanize s ≡ ok config)
      × (same_pair config.pair deposit.pair ≡ true)
      × (query_balances d.querier deposit.pair config.contract_addr config.viewing_key
          ≡ ok balances)
      × Takes env deposit.pair.token_0 deposit.amount_0 balances.0 taken_0.0 taken_0.1
      × Takes env deposit.pair.token_1 deposit.amount_1 balances.1 taken_1.0 taken_1.1
      × (query_liquidity d config.lp_token_info ≡ ok supply)
      × (messages ≡ taken_0.0 ++ taken_1.0 ++ mint env.sender minted config.lp_token_info ∷ [])
      × Fair supply minted (deposit.amount_0, deposit.amount_1) (taken_0.1, taken_1.1)

  -- A deposit that succeeds is of two positive amounts of the tokens of the exchange's pair. Its messages
  -- transfer the amount of each token that is a contract from the sender to the exchange, and mint shares for
  -- the sender; a native token came with the message in that amount. The shares are, where there is a
  -- supply, no more than the deposit's part of either pool before the deposit, and else no more than the
  -- root of the product of the amounts.
  pub do_add_liquidity-mints :
      {D : Type 0} ⦃dec : Decimal256 D⦄ (d : Deps H C) (env : Env H) (s : State C)
      (deposit : TokenPairAmount H) (slippage : Option D) (messages : List (Msg H))
      → do_add_liquidity d env s deposit slippage ≡ ok messages
      → Deposited d env s deposit messages
  unfolding do_add_liquidity
  do_add_liquidity-mints d env s deposit slippage messages h =
      let amounts : ℕ × ℕ = (deposit.amount_0, deposit.amount_1) in
      let test = not (deposit.amount_0 == 0 || deposit.amount_1 == 0) in
      >>=-elim (guard test (generic zero_liquidity)) _ h λ unit q0 h0.
        >>=-elim (load_config d.humanize s) _ h0 λ config q1 h1.
          >>=-elim (guard (same_pair config.pair deposit.pair) (generic wrong_pair)) _ h1
            λ unit_1 q2 h2.
              >>=-elim
                (query_balances d.querier deposit.pair config.contract_addr config.viewing_key) _ h2
                λ balances q3 h3.
                  >>=-elim (take_deposit env deposit.pair.token_0 deposit.amount_0 balances.0) _ h3
                    λ taken_0 q4 h4.
                      >>=-elim (take_deposit env deposit.pair.token_1 deposit.amount_1 balances.1) _
                        h4
                        λ taken_1 q5 h5.
                          >>=-elim
                            (assert_slippage_tolerance slippage amounts (taken_0.1, taken_1.1)) _ h5
                            λ unit_2 q6 h6.
                              >>=-elim (query_liquidity d config.lp_token_info) _ h6 λ supply q7 h7.
                                >>=-elim (lp_tokens supply amounts (taken_0.1, taken_1.1)) _ h7
                                  λ minted q8 h8.
                                    let (some_0, some_1) =
                                      positive deposit.amount_0 deposit.amount_1
                                        (guard-eq-ok _ _ q0) in
                                    (
                                      config,
                                      balances,
                                      taken_0,
                                      taken_1,
                                      supply,
                                      minted,
                                      some_0,
                                      some_1,
                                      q1,
                                      guard-eq-ok _ _ q2,
                                      q3,
                                      take_deposit-Takes env deposit.pair.token_0 deposit.amount_0
                                          balances.0 taken_0 some_0 q4,
                                      take_deposit-Takes env deposit.pair.token_1 deposit.amount_1
                                          balances.1 taken_1 some_1 q5,
                                      q7,
                                      sym (ok-injective h8),
                                      lp_tokens-Fair supply minted amounts (taken_0.1, taken_1.1)
                                          q8,
                                    )
