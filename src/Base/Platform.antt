-- ===== src/Base/Platform.antt =====
-- `Uint128` of cosmwasm_std, which the repository does not hold: its operators are a parameter of
-- what uses them, with their documented behaviour. `+` and `+=` abort on overflow, and `-` returns
-- `StdError::Underflow`. Comparisons and `u128()` are those of the number that it wraps.
use Prim.Native.String.{String}
use Prim.Native.Nat.{ℕ, ◌+◌, ◌-◌, ◌<◌, ◌≤◌}
use mathlib.Core.Path.{◌≡◌}
use sienna_network.Base.Outcome.{Result, ok}
use sienna_network.Base.Checked.{
  u128_mod, add128, sub_checked, add128_fits, sub_fits, add128-eq-ok, sub-eq-ok,
}

pub record Uint128 : Type 0 where
  pub add : ℕ → ℕ → Result ℕ
  pub sub : ℕ → ℕ → Result ℕ
  pub add_fits : (a b : ℕ) → a + b < u128_mod → add a b ≡ ok (a + b)
  pub add-eq-ok : (a b c : ℕ) → add a b ≡ ok c → (c ≡ a + b) × (c < u128_mod)
  pub sub_fits : (a b : ℕ) → b ≤ a → sub a b ≡ ok (a - b)
  pub sub-eq-ok : (a b c : ℕ) → sub a b ≡ ok c → (b ≤ a) × (c + b ≡ a)

-- The behaviour can be met.
abbrev pub checked_uint128 : Uint128
checked_uint128 = record {
  add = add128;
  sub = sub_checked;
  add_fits = add128_fits;
  add-eq-ok = λ a b c h. add128-eq-ok a b h;
  sub_fits = sub_fits;
  sub-eq-ok = λ a b c h. sub-eq-ok a b h;
}

-- `ContractLink` of fadroma.
pub record ContractLink (A : Type 0) : Type 0 where
  pub address : A
  pub code_hash : String
