-- ===== src/Amm/Exchange/Storage/RoundTrip.antt =====
-- The configuration of an exchange comes back from storage as it went in.
use sienna_network.Base.{◌≡◌, refl, Result, ok, >>=-elim, ok-injective, ContractLink}
use sienna_network.Amm.Tokens.{
  TokenType, custom_token, native_token, TokenPair, convert_token, convert_pair,
}
use sienna_network.Amm.Exchange.Storage.{
  Config, Convert, State, convert_config, store_config, load_config,
}

module _ {A B : Type 0} where
  -- The second conversion takes back what the first has done.
  pub record Undoes (there : Convert A B) (back : Convert B A) : Type 0 where
    pub address_back : (a : A) (b : B) → there.address a ≡ ok b → back.address b ≡ ok a
    pub link_back :
        (a : ContractLink A) (b : ContractLink B) → there.link a ≡ ok b → back.link b ≡ ok a

  module _ (f : A → Result B) (g : B → Result A)
      (undo : (a : A) (b : B) → f a ≡ ok b → g b ≡ ok a) where
    convert_token_back :
        (s : TokenType A) (t : TokenType B) → convert_token f s ≡ ok t → convert_token g t ≡ ok s
    unfolding convert_token
    convert_token_back (custom_token a h) t e =
        >>=-elim (f a) _ e λ b q rest. rw (← ok-injective rest, undo a b q) refl
    convert_token_back (native_token denom) t e = rw (← ok-injective e) refl

    convert_pair_back :
        (p : TokenPair A) (q : TokenPair B) → convert_pair f p ≡ ok q → convert_pair g q ≡ ok p
    unfolding convert_pair
    convert_pair_back p q e = >>=-elim (convert_token f p.token_0) _ e λ t0 q0 e0.
        >>=-elim (convert_token f p.token_1) _ e0 λ t1 q1 e1.
          rw
            (
              ← ok-injective e1,
              convert_token_back p.token_0 t0 q0,
              convert_token_back p.token_1 t1 q1,
            )
            refl

  -- Where addresses convert back, what is stored is loaded.
  pub load_config-store_config :
      (canonize : Convert A B) (humanize : Convert B A)
      → Undoes canonize humanize
      → (config : Config A) (s : State B) → store_config canonize config ≡ ok s
      → load_config humanize s ≡ ok config
  unfolding store_config load_config convert_config
  load_config-store_config canonize humanize undoes config s h =
      >>=-elim (convert_config canonize config) _ h λ stored q rest.
        >>=-elim (canonize.link config.factory_info) _ q λ factory q0 h0.
          >>=-elim (canonize.link config.lp_token_info) _ h0 λ lp q1 h1.
            >>=-elim (convert_pair canonize.address config.pair) _ h1 λ pair q2 h2.
              >>=-elim (canonize.address config.contract_addr) _ h2 λ contract q3 h3.
                rw
                  (
                    ← ok-injective rest,
                    ← ok-injective h3,
                    undoes.link_back config.factory_info factory q0,
                    undoes.link_back config.lp_token_info lp q1,
                    convert_pair_back canonize.address humanize.address undoes.address_back
                        config.pair pair q2,
                    undoes.address_back config.contract_addr contract q3,
                  )
                  refl
