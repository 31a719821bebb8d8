-- ===== src/Rewards/Gov/Tally.antt =====
-- contracts/amm/rewards/gov/poll_result.rs: the votes for and against, moved by signed amounts.
use sienna_network.Base.{
  ℕ, ◌-◌, ◌^◌, Bool, true, false, Result, ok, err, ◌>>=◌, unwrap, panic, overflow, ltb, ◌==◌,
  if◌then◌else◌, add128, sub_checked, u128_mod,
}
use sienna_network.Rewards.Storage.{PollResult, VoteType, vote_yes, vote_no}

-- `i128` by sign and magnitude. The magnitude of a negative number is at most 2 ^ 127.
pub data Signed : Type 0 where
  plus minus : ℕ → Signed

unfoldable pub i128_mod : ℕ
i128_mod = 2 ^ 127

-- `as i128`, of a u128.
unfoldable pub as_i128 : ℕ → Signed
as_i128 n = if ltb n i128_mod then plus n else minus (u128_mod - n)

-- The least number has no opposite.
unfoldable pub negate : Signed → Result Signed
negate (plus n) = ok (minus n)
negate (minus n) = if n == i128_mod then err (panic overflow) else ok (plus n)

unfoldable pub same_choice : VoteType → VoteType → Bool
same_choice vote_yes vote_yes = true
same_choice vote_yes vote_no = false
same_choice vote_no vote_yes = false
same_choice vote_no vote_no = true

-- `try_add`, on one of the two counts.
unfoldable pub try_add : (votes : ℕ) → Signed → Result ℕ
try_add votes (plus n) = if ltb 0 n then add128 votes n else unwrap (sub_checked votes n)
try_add votes (minus n) =
    if n == i128_mod then err (panic overflow) else unwrap (sub_checked votes n)

unfoldable pub append_votes : PollResult → Signed → VoteType → Result PollResult
unfolding try_add
append_votes r amount vote_yes = do
  votes ← try_add r.yes_votes amount
  ok (record r { yes_votes = votes })
append_votes r amount vote_no = do
  votes ← try_add r.no_votes amount
  ok (record r { no_votes = votes })

unfoldable pub transfer_vote : PollResult → VoteType → (power : ℕ) → Result PollResult
transfer_vote r vote_yes power = do
  r' ← append_votes r (as_i128 power) vote_yes
  opposite ← negate (as_i128 power)
  append_votes r' opposite vote_no
transfer_vote r vote_no power = do
  opposite ← negate (as_i128 power)
  r' ← append_votes r opposite vote_yes
  append_votes r' (as_i128 power) vote_no
