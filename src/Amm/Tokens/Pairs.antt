-- ===== src/Amm/Tokens/Pairs.antt =====
-- When two pairs are equal, and where a token stands in a pair.
use sienna_network.Base.{
  ℕ, ◌≡◌, inl, inr, true, false, some, none, Eq, string_eq, arith, ◌⊎◌, inl, inr, Bool-cases, refl,
}
use sienna_network.Amm.Tokens.{
  TokenType, custom_token, native_token, TokenPair, same_token, same_pair, contains,
  get_token_index, get_token,
}

module _ {A : Type 0} ⦃e : Eq A⦄ where
  -- One token stands for another: the same contract, whatever its code hash, or the same denomination.
  abbrev pub Same : TokenType A → TokenType A → Type 0
  Same s t = same_token s t ≡ true

  pub Same-refl : (t : TokenType A) → Same t t
  unfolding same_token
  Same-refl (custom_token a h) = ground (arith, (e.beq_iff a a))
  Same-refl (native_token d) = ground (arith, string_eq.beq_iff d d)

  pub Same-sym : (s t : TokenType A) → Same s t → Same t s
  unfolding same_token
  Same-sym (custom_token a h) (custom_token b k) s =
      ground (arith, e.beq_iff a b, e.beq_iff b a, e.beq_iff a a)
  Same-sym (native_token d) (native_token f) s =
      ground (arith, string_eq.beq_iff d f, string_eq.beq_iff f d, string_eq.beq_iff d d)
  Same-sym (custom_token a h) (native_token d) s = cc
  Same-sym (native_token d) (custom_token a h) s = cc

  same_token_comm : (s t : TokenType A) → same_token s t ≡ same_token t s
  same_token_comm s t = ground (arith, Same-sym s t, Same-sym t s)

  -- A pair is equal to itself and to itself with the tokens swapped, and equality of pairs goes both ways.
  same_pair_lem :
      (p q : TokenPair A)
      → (same_pair p p ≡ true)
        × (same_pair p (record { token_0 = p.token_1; token_1 = p.token_0 }) ≡ true)
        × (same_pair p q ≡ same_pair q p)
  unfolding same_pair
  same_pair_lem p q = (
    ground (arith, Same-refl p.token_0, Same-refl p.token_1),
    ground (arith, Same-refl p.token_0, Same-refl p.token_1),
    ground (
      arith,
      same_token_comm p.token_0 q.token_0,
      same_token_comm p.token_1 q.token_1,
      same_token_comm p.token_0 q.token_1,
      same_token_comm p.token_1 q.token_0,
    ),
  )

  -- What `get_token_index_lem` says.
  abbrev Indexed : (pair : TokenPair A) (token : TokenType A) → Type 0
  Indexed pair token =
      ((contains pair token ≡ true)
        × ((i : ℕ) × (found : TokenType A) × (get_token_index pair token ≡ some i)
            × (get_token pair i ≡ some found)
            × Same found token))
      ⊎ ((contains pair token ≡ false) × (get_token_index pair token ≡ none))

  -- Either the pair contains the token, and its index leads to a token of the pair equal to it, or it does
  -- not, and there is no index.
  get_token_index_lem : (pair : TokenPair A) (token : TokenType A) → Indexed pair token
  unfolding contains get_token_index get_token
  get_token_index_lem pair token = elim (Bool-cases (same_token pair.token_0 token)) [
    | inl q ↦ inl (ground arith, (0, pair.token_0, rw q refl, refl, q))
    | inr q ↦ elim (Bool-cases (same_token pair.token_1 token)) [
      | inl r ↦ inl (ground arith, (1, pair.token_1, rw (q, r) refl, refl, r))
      | inr r ↦ inr (ground arith, ground arith)
    ]
  ]
