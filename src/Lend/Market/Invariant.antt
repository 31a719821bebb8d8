-- ===== src/Lend/Market/Invariant.antt =====
-- contracts/lend/market/src/contract.rs: what every message to the market keeps, and every history of it.
use mathlib.Core.Path.{subst}
use Prim.Native.String.{String}
use sienna_network.Base.{
  ℕ, ◌≡◌, refl, ◌∙◌, Option, some, none, Result, ok, List, >>=-elim, ok-injective, ltb, Eq, Uint128,
  Uint256, Decimals, Iterable, generic, lend, guard, not, or_fail, unauthorized, empty_msg,
  low_balance, low_reserve, ContractLink,
}
use sienna_network.Base.Dict
use sienna_network.Lend.Market.{
  HandleMsg, receive_tokens, redeem_token, redeem_underlying, borrow, transfer_tokens, send,
  register, accrue, seize_tokens, update_config, reduce_reserves, or_kept, or_kept_factor,
  or_kept_cap, borrower_of, dispatch_received, do_receive, do_send, do_accrue, do_update_config,
  do_reduce_reserves, silent, handle,
}
use sienna_network.Lend.Market.Storage.{
  State, BorrowSnapshot, Deps, Env, Msg, set_reserve_factor, ReceiverMsg, deposit, repay, liquidate,
  load_config, load_underlying, load_overseer, underlying_balance,
}
use sienna_network.Lend.Market.Interest.{LatestInterest, latest_reserves, accrue_interest}
use sienna_network.Lend.Market.Accounts.{from_id, set_receiver, get_receiver}
use sienna_network.Lend.Market.Token
use sienna_network.Lend.Market.Debts.{handle_seize, do_transfer}
use sienna_network.Lend.Market.Sound.{Same, Sound, Same-Sound, Same-refl, accrue_interest-Same}
use sienna_network.Lend.Market.Owing.{do_seize-Sound}
use sienna_network.Lend.Market.Backing.{
  accrue_interest-Sound, deposit-Sound, redeem-Sound, do_transfer-Sound, do_borrow-Sound,
  do_repay-Sound, do_liquidate-Sound,
}

module _ {H C S : Type 0} ⦃e : Eq H⦄ ⦃ec : Eq C⦄ ⦃u : Uint128⦄ ⦃w : Uint256⦄ ⦃dec : Decimals⦄
    ⦃it : Iterable S (BorrowSnapshot C)⦄ (d : Deps H C) where
  handle_seize-Sound :
      (env : Env H) (s s' : State C S) (liquidator borrower : H) (amount : ℕ)
      → Sound s
      → handle_seize d env s liquidator borrower amount ≡ ok s'
      → Sound s'
  unfolding handle_seize
  handle_seize-Sound env s s' liquidator borrower amount i h =
      >>=-elim (load_overseer d s) _ h λ overseer _ h1.
        >>=-elim (d.market overseer env.sender) _ h1 λ market _ h2.
          >>=-elim (underlying_balance d s env.contract.address) _ h2 λ balance _ h3.
            >>=-elim (accrue_interest d s env.block balance) _ h3 λ l p h4.
              >>=-elim (d.canonize liquidator) _ h4 λ to _ h5.
                >>=-elim (d.canonize borrower) _ h5 λ from _ rest.
                  do_seize-Sound l.0 s' l.1 balance to from amount
                    (accrue_interest-Sound d s env.block balance l i p) rest

  dispatch_received-Sound :
      (env : Env H) (s : State C S) (interest : LatestInterest) (balance : ℕ) (from : H)
      (amount : ℕ) (msg : ReceiverMsg H) (r : State C S × List (Msg H))
      → Sound s
      → dispatch_received d env s interest balance from amount msg ≡ ok r
      → Sound r.0
  unfolding dispatch_received
  dispatch_received-Sound env s interest balance from amount deposit r i h =
      >>=-elim (Token.deposit d s interest balance from amount) _ h λ s' p rest.
        subst (λ x. Sound x.0) (ok-injective rest)
          (deposit-Sound d s s' interest balance from amount i p)
  dispatch_received-Sound env s interest balance from amount (repay id) r i h =
      >>=-elim (borrower_of d s id from) _ h
        λ borrower _ rest. do_repay-Sound d s interest borrower from amount r i rest
  dispatch_received-Sound env s interest balance from amount (liquidate id collateral) r i h =
      >>=-elim (from_id s id) _ h λ borrower _ rest.
        do_liquidate-Sound d env s interest balance from borrower collateral amount r i rest

  do_receive-Sound :
      (env : Env H) (s : State C S) (from : H) (msg : Option String) (amount : ℕ)
      (r : State C S × List (Msg H))
      → Sound s
      → do_receive d env s from msg amount ≡ ok r
      → Sound r.0
  unfolding do_receive
  do_receive-Sound env s from msg amount r i h =
      >>=-elim (or_fail msg (generic (lend empty_msg))) _ h λ text _ h1.
        >>=-elim (load_underlying d s) _ h1 λ underlying _ h2.
          >>=-elim (guard (e.beq env.sender underlying.address) unauthorized) _ h2 λ _ _ h3.
            >>=-elim (underlying_balance d s env.contract.address) _ h3 λ increased _ h4.
              >>=-elim (u.sub increased amount) _ h4 λ balance _ h5.
                >>=-elim (accrue_interest d s env.block balance) _ h5 λ l p h6.
                  >>=-elim (d.from_binary text) _ h6 λ received _ rest.
                    dispatch_received-Sound env l.0 l.1 balance from amount received r
                      (accrue_interest-Sound d s env.block balance l i p) rest

  do_send-Sound :
      (env : Env H) (s : State C S) (recipient : H) (code_hash : Option String) (amount : ℕ)
      (msg memo : Option String) (r : State C S × List (Msg H))
      → Sound s
      → do_send d env s recipient code_hash amount msg memo ≡ ok r
      → Sound r.0
  unfolding do_send
  do_send-Sound env s recipient code_hash amount msg memo r i h =
      >>=-elim (do_transfer d env s recipient amount) _ h λ s' p h1.
        >>=-elim
          (elim code_hash as (λ _. Result (Option String)) [
            | some hash ↦ ok (some hash)
            | none ↦ get_receiver d s' recipient
          ])
          _ h1
          λ known _ rest.
            subst (λ x. Sound x.0) (ok-injective rest)
              (do_transfer-Sound d env s s' recipient amount i p)

  do_accrue-Same : (env : Env H) (s s' : State C S) → do_accrue d env s ≡ ok s' → Same s s'
  unfolding do_accrue
  do_accrue-Same env s s' h =
      >>=-elim (underlying_balance d s env.contract.address) _ h λ balance _ h1.
        >>=-elim (accrue_interest d s env.block balance) _ h1 λ l p rest.
          subst (λ x. Same s x) (ok-injective rest) (accrue_interest-Same d s env.block balance l p)

  or_kept_factor-Same :
      (s s' : State C S) (factor : Option ℕ) → or_kept_factor factor s ≡ ok s' → Same s s'
  unfolding or_kept_factor
  or_kept_factor-Same s s' none h = subst (λ x. Same s x) (ok-injective h) (Same-refl s)
  or_kept_factor-Same s s' (some factor) h = >>=-elim (load_config s) _ h λ config _ h1.
      >>=-elim (set_reserve_factor config factor) _ h1 λ changed _ rest.
        subst (λ x. Same s x) (ok-injective rest)
          (record { balances = refl; supply = refl; borrowers = refl; info = refl })

  do_update_config-Sound :
      (env : Env H) (s s' : State C S) (interest_model : Option (ContractLink H))
      (factor cap : Option ℕ)
      → Sound s
      → do_update_config d env s interest_model factor cap ≡ ok s'
      → Sound s'
  unfolding do_update_config
  do_update_config-Sound env s s' interest_model factor cap i h =
      >>=-elim (d.assert_admin env) _ h λ _ _ h1. >>=-elim (do_accrue d env s) _ h1 λ accrued p h2.
        >>=-elim (or_kept d interest_model accrued.interest_model) _ h2 λ model _ h3.
          >>=-elim (or_kept_factor factor (record accrued { interest_model = model })) _ h3
            λ t q rest.
              let m = do_accrue-Same env s accrued p in
              let n = or_kept_factor-Same (record accrued { interest_model = model }) t factor q in
              subst (λ x. Sound x) (ok-injective rest)
                (Same-Sound s (record t { borrow_cap = or_kept_cap cap t.borrow_cap })
                  (record {
                    balances = n.balances ∙ m.balances;
                    supply = n.supply ∙ m.supply;
                    borrowers = n.borrowers ∙ m.borrowers;
                    info = n.info ∙ m.info;
                  })
                  i)

  do_reduce_reserves-Sound :
      (env : Env H) (s : State C S) (amount : ℕ) (to : Option H) (r : State C S × List (Msg H))
      → Sound s
      → do_reduce_reserves d env s amount to ≡ ok r
      → Sound r.0
  unfolding do_reduce_reserves
  do_reduce_reserves-Sound env s amount to r i h = >>=-elim (d.assert_admin env) _ h λ _ _ h1.
      >>=-elim (load_underlying d s) _ h1 λ underlying _ h2.
        >>=-elim (underlying_balance d s env.contract.address) _ h2 λ balance _ h3.
          >>=-elim (guard (not (ltb balance amount)) (generic (lend (low_balance balance amount))))
            _ h3
            λ _ _ h4. >>=-elim (accrue_interest d s env.block balance) _ h4 λ l p h5.
              let reserve = latest_reserves l.1 l.0 in
              >>=-elim
                (guard (not (ltb reserve amount)) (generic (lend (low_reserve reserve amount)))) _
                h5
                λ _ _ h6. >>=-elim (w.sub reserve amount) _ h6 λ left _ rest.
                  let m = accrue_interest-Same d s env.block balance l p in
                  subst (λ x. Sound x.0) (ok-injective rest)
                    (Same-Sound s (record l.0 { interest_reserve = left })
                      (record {
                        balances = m.balances;
                        supply = m.supply;
                        borrowers = m.borrowers;
                        info = m.info;
                      })
                      i)

  set_receiver-Sound :
      (s s' : State C S) (receiver : H) (code_hash : String)
      → Sound s
      → set_receiver d s receiver code_hash ≡ ok s'
      → Sound s'
  unfolding set_receiver
  set_receiver-Sound s s' receiver code_hash i h = >>=-elim (d.canonize receiver) _ h λ a _ rest.
      subst (λ x. Sound x) (ok-injective rest)
        (Same-Sound s (record s { receivers = Dict.put a (some code_hash) s.receivers })
          (record { balances = refl; supply = refl; borrowers = refl; info = refl }) i)

  silent-Sound :
      (before : Result (State C S)) (r : State C S × List (Msg H))
      → ((s : State C S) → before ≡ ok s → Sound s)
      → silent d before ≡ ok r
      → Sound r.0
  silent-Sound before r keep h =
      >>=-elim before _ h λ s p rest. subst (λ x. Sound x.0) (ok-injective rest) (keep s p)

  -- A message that succeeds keeps the supply of the tokens the sum of the balances, and the indices of the
  -- borrowers fit the vector of them.
  pub handle-Sound :
      (env : Env H) (s : State C S) (msg : HandleMsg H) (r : State C S × List (Msg H))
      → Sound s
      → handle d env s msg ≡ ok r
      → Sound r.0
  unfolding handle
  handle-Sound env s (receive_tokens from msg amount) r i h =
      do_receive-Sound env s from msg amount r i h
  handle-Sound env s (redeem_token burn_amount) r i h = redeem-Sound d env s burn_amount 0 r i h
  handle-Sound env s (redeem_underlying receive_amount) r i h =
      redeem-Sound d env s 0 receive_amount r i h
  handle-Sound env s (borrow amount) r i h = do_borrow-Sound d env s amount r i h
  handle-Sound env s (transfer_tokens recipient amount) r i h =
      silent-Sound (do_transfer d env s recipient amount) r
        (λ s'. do_transfer-Sound d env s s' recipient amount i) h
  handle-Sound env s (send recipient code_hash amount msg memo) r i h =
      do_send-Sound env s recipient code_hash amount msg memo r i h
  handle-Sound env s (register code_hash) r i h =
      silent-Sound (set_receiver d s env.sender code_hash) r
        (λ s'. set_receiver-Sound s s' env.sender code_hash i) h
  handle-Sound env s accrue r i h =
      silent-Sound (do_accrue d env s) r (λ s' p. Same-Sound s s' (do_accrue-Same env s s' p) i) h
  handle-Sound env s (seize_tokens liquidator borrower amount) r i h =
      silent-Sound (handle_seize d env s liquidator borrower amount) r
        (λ s'. handle_seize-Sound env s s' liquidator borrower amount i) h
  handle-Sound env s (update_config interest_model factor cap) r i h =
      silent-Sound (do_update_config d env s interest_model factor cap) r
        (λ s'. do_update_config-Sound env s s' interest_model factor cap i) h
  handle-Sound env s (reduce_reserves amount to) r i h =
      do_reduce_reserves-Sound env s amount to r i h
