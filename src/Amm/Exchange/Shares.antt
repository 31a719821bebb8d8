-- ===== src/Amm/Exchange/Shares.antt =====
-- What liquidity is worth: what a deposit mints and what a withdrawal pays.
use native.Mathlib.Nat.{le_refl}
use sienna_network.Base.{
  ℕ, suc, ◌+◌, ◌*◌, ◌/◌, ◌≤◌, ◌≡◌, ◌≢◌, min, ok, >>=-elim, false, ◌==◌, Uint256, arith, mul_mono,
  div-mul-le, ltb, ltb→lt, ltb→ge, Bool-cases, inl, inr,
}
use sienna_network.Amm.Exchange.Pricing.{first_shares, share_of, lp_tokens, withdrawn}

-- A quotient rounded down, and what is at most it.
scaled-le : (n d q c : ℕ) → q ≡ n / d → c ≤ q → c * d ≤ n
scaled-le n d q c e h =
    omega (arith, mul_mono c (n / d) d d (rw (← e) h) (le_refl d), div-mul-le n d)

-- What is at most the value of a share is worth no more than what was added.
back_le :
    (v m supply pool deposit : ℕ)
    → supply ≢ 0
    → m * pool ≤ deposit * supply
    → v * (supply + m) ≤ (pool + deposit) * m
    → v ≤ deposit
back_le v m supply pool deposit n h k = elim (Bool-cases (ltb deposit v)) [
  | inr e ↦ ltb→ge deposit v e
  | inl e ↦ absurd (
      n (
        omega (
          arith,
          mul_mono (suc deposit) v (supply + m) (supply + m) (ltb→lt deposit v e)
              (le_refl (supply + m)),
        )))
]

module _ ⦃w : Uint256⦄ where
  -- A withdrawal that succeeds is of a supply that is not zero, and what it pays of one token, times the
  -- supply, is at most the pool times the shares that are withdrawn.
  pub withdrawn-le :
      (pool amount supply v : ℕ)
      → withdrawn pool amount supply ≡ ok v
      → (supply ≢ 0) × (v * supply ≤ pool * amount)
  unfolding withdrawn
  withdrawn-le pool amount supply v h = >>=-elim (w.mul pool amount) _ h λ scaled q0 h0.
      >>=-elim (w.div scaled supply) _ h0 λ part q1 h1.
        let (n, e) = w.div-eq-ok scaled supply part q1 in
        (
          n,
          rw (← w.mul-eq-ok pool amount scaled q0)
              (scaled-le scaled supply part v e (w.clamp-eq-ok part v h1)),
        )

  share_of-eq-ok :
      (amount supply pool c : ℕ)
      → share_of amount supply pool ≡ ok c
      → (pool ≢ 0) × (c ≡ amount * supply / pool)
  unfolding share_of
  share_of-eq-ok amount supply pool c h = >>=-elim (w.mul amount supply) _ h λ scaled q0 h0.
      let (n, e) = w.div-eq-ok scaled pool c h0 in (n, rw (← w.mul-eq-ok amount supply scaled q0) e)

  -- Where there is liquidity, what a deposit mints, times the pool of either token, is at most the deposit
  -- of that token times the supply.
  pub lp_tokens-le :
      (supply deposit_0 deposit_1 pool_0 pool_1 m : ℕ)
      → supply ≢ 0
      → lp_tokens supply (deposit_0, deposit_1) (pool_0, pool_1) ≡ ok m
      → (m * pool_0 ≤ deposit_0 * supply) × (m * pool_1 ≤ deposit_1 * supply)
  unfolding lp_tokens
  lp_tokens-le supply deposit_0 deposit_1 pool_0 pool_1 m n h =
      let later : (supply == 0) ≡ false = ground arith in
      >>=-elim (share_of deposit_0 supply pool_0) _ (rw later at h) λ share_0 q0 h0.
        >>=-elim (share_of deposit_1 supply pool_1) _ h0 λ share_1 q1 h1.
          let e0 = (share_of-eq-ok deposit_0 supply pool_0 share_0 q0).1 in
          let e1 = (share_of-eq-ok deposit_1 supply pool_1 share_1 q1).1 in
          let small = w.clamp-eq-ok (min share_0 share_1) m h1 in
          (
            scaled-le (deposit_0 * supply) pool_0 share_0 m e0 (omega arith),
            scaled-le (deposit_1 * supply) pool_1 share_1 m e1 (omega arith),
          )

  -- The square of what the first deposit mints is at most the product of the two amounts.
  pub lp_tokens-first :
      (deposits pools : ℕ × ℕ) (m : ℕ)
      → lp_tokens 0 deposits pools ≡ ok m
      → m * m ≤ deposits.0 * deposits.1
  unfolding lp_tokens first_shares
  lp_tokens-first deposits pools m h = >>=-elim (w.mul deposits.0 deposits.1) _ h λ product q0 h0.
      >>=-elim (w.sqrt product) _ h0 λ root q1 h1.
        let (low, high) = w.sqrt-eq-ok product root q1 in
        let small = w.clamp-eq-ok root m h1 in
        let e = w.mul-eq-ok deposits.0 deposits.1 product q0 in
        rw (← e) (omega (arith, mul_mono m root m root small small))

  -- Who deposits where there is liquidity and withdraws the minted shares at once gets at most the
  -- deposit back, in either token.
  pub withdrawn-lp_tokens :
      (supply deposit_0 deposit_1 pool_0 pool_1 m v_0 v_1 : ℕ)
      → supply ≢ 0
      → lp_tokens supply (deposit_0, deposit_1) (pool_0, pool_1) ≡ ok m
      → withdrawn (pool_0 + deposit_0) m (supply + m) ≡ ok v_0
      → withdrawn (pool_1 + deposit_1) m (supply + m) ≡ ok v_1
      → (v_0 ≤ deposit_0) × (v_1 ≤ deposit_1)
  withdrawn-lp_tokens supply deposit_0 deposit_1 pool_0 pool_1 m v_0 v_1 n h k_0 k_1 =
      let (l_0, l_1) = lp_tokens-le supply deposit_0 deposit_1 pool_0 pool_1 m n h in
      (
        back_le v_0 m supply pool_0 deposit_0 n l_0
            (withdrawn-le (pool_0 + deposit_0) m (supply + m) v_0 k_0).1,
        back_le v_1 m supply pool_1 deposit_1 n l_1
            (withdrawn-le (pool_1 + deposit_1) m (supply + m) v_1 k_1).1,
      )
