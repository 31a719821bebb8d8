-- ===== src/Schedule/Account/Validity.antt =====
-- What `validate` of an account decides.
use sienna_network.Base.{
  ◌+◌, ◌-◌, ◌*◌, ◌≤◌, ◌<◌, ◌≡◌, ◌↔◌, ok, arith, u128_mod, add128_fits, mul128_fits, sub_fits,
}
use sienna_network.Schedule.Account.{Account, portion_count, remainder, validate}
use sienna_network.Schedule.Account.Vested.{
  IsValid, size, portions-le, amount_after_cliff_lem, portion_size_lem,
}

module _ {A : Type 0} where
  remainder_lem :
      (a : Account A)
      → a.cliff ≤ a.amount
      → a.amount < u128_mod
      → remainder a ≡ ok (a.amount - a.cliff - size a * portion_count a)
  unfolding remainder
  remainder_lem a h fits = ground (
    arith,
    amount_after_cliff_lem a h,
    portion_size_lem a h,
    portions-le a (portion_count a),
    mul128_fits (size a) (portion_count a),
    sub_fits (a.amount - a.cliff) (size a * portion_count a),
  )

  adds_up : (a : Account A) → IsValid a → a.amount < u128_mod → validate a ≡ ok tt
  unfolding validate
  adds_up a v fits = ground (
    arith,
    portion_size_lem a v.cliff_le,
    remainder_lem a v.cliff_le fits,
    portions-le a (portion_count a),
    mul128_fits (size a) (portion_count a),
    add128_fits a.cliff (size a * portion_count a),
    add128_fits (a.cliff + size a * portion_count a)
        (a.amount - a.cliff - size a * portion_count a),
  )

  pub validate-IsValid : (a : Account A) → validate a ≡ ok tt → IsValid a
  unfolding validate
  validate-IsValid a h = ground arith

  -- `validate` accepts an account exactly if its amount is positive and covers the cliff. So the
  -- last check, that cliff, portions and remainder add up, never fails.
  pub account_validate_iff :
      (a : Account A) → a.amount < u128_mod → (validate a ≡ ok tt) ↔ IsValid a
  account_validate_iff a fits = (validate-IsValid a, λ v. adds_up a v fits)
