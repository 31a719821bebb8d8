-- ===== src/Schedule/Canon/RoundTrip.antt =====
-- Converting a schedule there and back.
use sienna_network.Base.{◌≡◌, refl, sym, Result, ok, >>=-eq-ok, ok-injective, ◌∙◌, traverse_back}
use sienna_network.Schedule.{Schedule}
use sienna_network.Schedule.Canon.{Conversion, convert_account, convert_pool, convert}

module _ {X Y : Type 0} (f : X → Result Y) (g : Y → Result X) where
  -- The second function undoes the first where that succeeds.
  abbrev pub Undoes : Type 0
  Undoes = (x : X) (y : Y) → f x ≡ ok y → g y ≡ ok x

module _ {A B : Type 0} (c : Conversion A B) (d : Conversion B A)
    (back : Undoes c.address d.address) where
  account_back : Undoes (convert_account c) (convert_account d)
  unfolding convert_account
  account_back a b h =
      let (address, e, same) = >>=-eq-ok (c.address a.address) _ h in
      rw (← ok-injective same) (rw (back a.address address e) refl)

  pool_back : Undoes (convert_pool c) (convert_pool d)
  unfolding convert_pool
  pool_back p q h =
      let (accounts, e, same) = >>=-eq-ok (c.each_account (convert_account c) p.accounts) _ h in
      let there = sym (c.each_account_lem (convert_account c) p.accounts) ∙ e in
      rw (← ok-injective same) (
        rw (d.each_account_lem (convert_account d) accounts)
          (rw (traverse_back _ _ account_back p.accounts accounts there) refl))

  -- If the conversion of addresses can be undone, a schedule that was converted converts back to
  -- itself.
  pub convert_back : (s : Schedule A) (t : Schedule B) → convert c s ≡ ok t → convert d t ≡ ok s
  unfolding convert
  convert_back s t h =
      let (pools, e, same) = >>=-eq-ok (c.each_pool (convert_pool c) s.pools) _ h in
      let there = sym (c.each_pool_lem (convert_pool c) s.pools) ∙ e in
      rw (← ok-injective same) (
        rw (d.each_pool_lem (convert_pool d) pools)
          (rw (traverse_back _ _ pool_back s.pools pools there) refl))
