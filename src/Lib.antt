-- ===== src/Lib.antt =====
-- Sienna Network: a model of the contracts of the repository, and proofs about it.
--
-- The contracts are handlers that the chain calls one at a time: a handler reads the storage of its
-- contract, asks other contracts, and answers with the changed storage and a list of messages, or
-- with an error, upon which the chain undoes what it wrote. So a handler is a function here from the
-- state and the message to a result: the next state and the messages, or an error. A panic aborts
-- the transaction too, and is an error as well.
--
-- Parts and files:
--   Base          shared names, lists, results with errors (Base/Outcome), the checked u64 and u128
--                 arithmetic of the release profile (Base/Checked, Cargo.toml), and the contract
--                 libraries' Uint128 and Uint256 as interfaces (Base/Platform, Base/Wide). Base/Dict is
--                 a part of storage under a key prefix.
--   Schedule      libraries/schedule: accounts, pools and the schedule (lib.rs), what is unlocked
--                 (vesting.rs), validation (validate.rs), adding accounts (mutate.rs), conversion of
--                 addresses (canon.rs). Its names are those of the source.
--   LinearMap     libraries/linear-map: a list of pairs used as a map.
--   Mgmt          contracts/tge/mgmt: the vesting contract; Mgmt/Storage is its state.rs. `init` is
--                 `new`, `handle_x` is the handler `x`, `query_x` the query `x`.
--   Rpt           contracts/tge/rpt: the contract that claims from the vesting contract and splits
--                 what it gets.
--   Amm/Tokens    libraries/amm-shared: tokens, pairs and their messages (token_type.rs, token_pair.rs).
--   Amm/Exchange  contracts/amm/exchange: the exchange between the two tokens of a pair (contract.rs);
--                 Amm/Exchange/Storage is its state.rs, Amm/Exchange/Pricing its arithmetic. `do_swap`
--                 and `compute_swap` are the functions of those names, `do_swap_messages` is `swap`,
--                 `do_x` is `x`, and `query_x` a query.
--   Rewards       contracts/amm/rewards: the staking pool and its governance. Rewards/Storage is what is
--                 stored, with config.rs; Rewards/Pool is time_utils.rs and total.rs, Rewards/Users and
--                 Rewards/Staking account.rs, drain.rs and the migration of lib.rs and migration.rs,
--                 Rewards/Gov the polls and votes of gov, Rewards/Polls its handlers, Rewards/Auth
--                 auth.rs. The root dispatches the messages. Rewards/Stakes and Rewards/Steps say how
--                 a stake moves, Rewards/Ledger and Rewards/Backed what follows for the books.
--   Lend/Rates    libraries/lend-shared/src/core/interest.rs and contracts/lend/interest_model: the rates.
--   Lend/Market   contracts/lend/market: Market/Storage and Market/Accounts are state.rs, Market/Interest
--                 ops.rs, Market/Token token.rs and checks.rs, Market/Debts and the root contract.rs, with
--                 the configuration of libraries/lend-shared/src/interfaces/market.rs. `do_x` is the
--                 function or the handler `x`; `seize` between accounts is `do_seize`, the handler
--                 `handle_seize`. Accounts/Map reads the stored vector of borrowers as a map, Sound,
--                 Owing, Backing, Invariant and Reach go from the steps to all histories.
--   Tests         runs on small inputs, and each theorem at an input that meets its hypotheses.
--
-- Loops over collections are recursions on lists, so nothing here runs on fuel. Numbers are
-- unbounded naturals, with the test for overflow written out in each operation; that the fields of a
-- value fit their machine types is the predicate `InRange` of that value.
--
-- Taken as parameters, with what the code relies on: the chain's address conversion, storage and
-- queries, the admin and killswitch components of fadroma, the token contracts, the operators of
-- Uint128, Uint256, Decimal and Decimal256 (Base/Platform, Base/Wide and Base/Fixed), the vector in
-- storage of fadroma (Base/Vectors), and what makes and checks a
-- viewing key. Encoding, padding, log attributes and code hashes of messages are left out, except
-- where a message carries them as data.
--
-- Not modelled: the permits and the governance queries of the rewards pool; the paginated list of the
-- borrowers, the token info and the getters of the lending market, with the overseer and the oracle it
-- asks, whose answers are parameters; the factory, the router, the launchpad and the IDO, which can be
-- modelled in the same way; the SIENNA token, a copy of the reference implementation of its standard; and scripts and front ends.
pub mod Base
pub mod Schedule
pub mod Mgmt
pub mod Rpt
pub mod LinearMap
pub mod Amm
pub mod Rewards
pub mod Lend
mod Tests
