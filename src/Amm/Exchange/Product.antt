-- ===== src/Amm/Exchange/Product.antt =====
-- What a swap does to the product of the two pools.
use native.Mathlib.Nat.{div-add-mod}
use sienna_network.Base.{
  ℕ, ◌+◌, ◌-◌, ◌*◌, ◌/◌, ◌≤◌, ◌<◌, ◌≡◌, refl, sym, ◌∙◌, ◌≢◌, ok, >>=-elim, ok-injective, ap,
  Uint256, arith, u128_mod,
}
use sienna_network.Amm.Exchange.Pricing.{SwapResult, compute_swap, or_zero}

-- `n / d` is the quotient rounded down.
pub div_bounds : (n d : ℕ) → d ≢ 0 → (d * (n / d) ≤ n) × (n < d * (n / d) + d)
div_bounds n d h = omega (arith, div-add-mod n d)

-- The arithmetic of the lemma below.
kept_lem :
    (x y a product grown kept gain paid lost : ℕ) (r : SwapResult)
    → product ≡ x * y
    → grown ≡ x + a
    → (grown ≢ 0) × (kept ≡ product / grown)
    → (kept ≤ y) × (gain + kept ≡ y)
    → paid ≡ gain
    → ok (record { return_amount = paid; spread_amount = lost }) ≡ ok r
    → (x + a ≢ 0) × (r.return_amount + x * y / (x + a) ≡ y)
kept_lem x y a product grown kept gain paid lost r p g (n, k) (le, split) same_gain same =
    let e = ap SwapResult.return_amount (ok-injective same) in
    let q : kept ≡ x * y / (x + a) = rw (k, p, g) refl in
    ((λ z. n (g ∙ z)), rw (← e, ← q) (rw same_gain split))

kept_is : (y paid kept : ℕ) → paid + kept ≡ y → y - paid ≡ kept
kept_is y paid kept h = omega arith

product_lem :
    (n d kept y paid : ℕ)
    → d * kept ≤ n
    → n < d * kept + d
    → paid + kept ≡ y
    → (paid ≤ y) × (n < d * (y - paid) + d) × (d * (y - paid) ≤ n)
product_lem n d kept y paid low high exact = rw (kept_is y paid kept exact) (omega arith, high, low)

below : (kept gain y : ℕ) → gain + kept ≡ y → y < u128_mod → gain < u128_mod
below kept gain y split bound = omega arith

module _ ⦃w : Uint256⦄ where
  -- What fits is not changed by the clamp.
  clamp_same : (n c : ℕ) → w.clamp_u128 n ≡ ok c → n < u128_mod → c ≡ n
  clamp_same n c h bound = ok-injective (sym h ∙ w.clamp_fits n bound)

  -- What the pool that pays keeps.
  compute_swap-kept :
      (x y a : ℕ) (r : SwapResult)
      → y < u128_mod
      → compute_swap x y a ≡ ok r
      → (x + a ≢ 0) × (r.return_amount + x * y / (x + a) ≡ y)
  unfolding compute_swap
  compute_swap-kept x y a r bound h = >>=-elim (w.mul x y) _ h λ product q0 h0.
      >>=-elim (w.add x a) _ h0 λ grown q1 h1. >>=-elim (w.div product grown) _ h1 λ kept q2 h2.
        >>=-elim (w.sub y kept) _ h2 λ gain q3 h3. >>=-elim (w.mul a y) _ h3 λ gross q4 h4.
          >>=-elim (w.div gross x) _ h4 λ spread q5 h5.
            >>=-elim (w.clamp_u128 gain) _ h5 λ paid q6 h6.
              >>=-elim (w.clamp_u128 (or_zero (w.sub spread gain))) _ h6 λ lost q7 same.
                let (le, split) = w.sub-eq-ok y kept gain q3 in
                kept_lem x y a product grown kept gain paid lost r (w.mul-eq-ok x y product q0)
                  (w.add-eq-ok x a grown q1) (w.div-eq-ok product grown kept q2) (le, split)
                  (clamp_same gain paid q6 (below kept gain y split bound)) same

  -- Where a u128 holds the paying pool: the returned amount is at most that pool, and what is left of it,
  -- times the other pool with the offer, is at most the product before, and falls short of it by less
  -- than the other pool with the offer. So the product is kept up to the rounding of one division.
  pub compute_swap-product :
      (offer_pool ask_pool offer_amount : ℕ) (r : SwapResult)
      → ask_pool < u128_mod
      → compute_swap offer_pool ask_pool offer_amount ≡ ok r
      → (r.return_amount ≤ ask_pool)
        × (offer_pool * ask_pool
            < (offer_pool + offer_amount) * (ask_pool - r.return_amount)
              + (offer_pool + offer_amount))
        × ((offer_pool + offer_amount) * (ask_pool - r.return_amount) ≤ offer_pool * ask_pool)
  compute_swap-product x y a r bound h =
      let (n, exact) = compute_swap-kept x y a r bound h in
      let (low, high) = div_bounds (x * y) (x + a) n in
      product_lem (x * y) (x + a) (x * y / (x + a)) y r.return_amount low high exact
