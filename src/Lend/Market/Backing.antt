-- ===== src/Lend/Market/Backing.antt =====
-- contracts/lend/market/src/contract.rs and token.rs: the handlers of the market that move tokens or debts
-- keep the supply the sum of the balances, and the indices fit the borrowers.
use mathlib.Core.Path.{subst}
use sienna_network.Base.{
  ℕ, ◌-◌, ◌≡◌, refl, sym, ◌∙◌, ap, Bool-cases, inl, inr, Option-cases, ok, List, >>=-elim,
  ok-injective, ltb, arith, Eq, Uint256, Decimals, Iterable, generic, lend, guard, not,
  transfer_refused, redeem_refused, same_account, ContractLink,
}
use sienna_network.Base.Dict.{total}
use sienna_network.Lend.Market.Storage.{
  State, BorrowSnapshot, Deps, Env, Msg, load_underlying, load_overseer, load_master_key,
  underlying_balance,
}
use sienna_network.Lend.Market.Interest.{
  LatestInterest, latest_borrows, latest_reserves, latest_index, accrue_interest, current_balance,
  subtract_balance,
}
use sienna_network.Lend.Market.Accounts.{
  subtract_from, get_borrow_snapshot, save_borrow_snapshot, new_account, load_id, new_id,
}
use sienna_network.Lend.Market.Token
use sienna_network.Lend.Market.Token.{
  assert_can_withdraw, calc_exchange_rate, decrease_supply, increase_supply, redeem_amounts, redeem,
  increase_borrows, decrease_borrows, assert_borrow_allowed, assert_liquidate_allowed,
}
use sienna_network.Lend.Market.Debts.{
  add_debt, subtract_debt, do_seize, do_borrow, do_repay, check_liquidation, do_liquidate,
  do_transfer,
}
use sienna_network.Lend.Market.Sound.{
  itself, Same, Sound, Listed-same, Same-Sound, Same-refl, add_to-Tokens, subtract_from-Tokens,
  decrease_supply-Supply, increase_supply-Supply, increase_borrows-Same, decrease_borrows-Same,
  accrue_interest-Same,
}
use sienna_network.Lend.Market.Owing.{
  save_borrow_snapshot-Sound, get_borrow_snapshot-address, subtract_balance-address, add_debt-Sound,
  subtract_debt-Sound, do_seize-Sound,
}

module _ {H C S : Type 0} ⦃e : Eq H⦄ ⦃ec : Eq C⦄ ⦃w : Uint256⦄ ⦃dec : Decimals⦄
    ⦃it : Iterable S (BorrowSnapshot C)⦄ (d : Deps H C) where
  pub accrue_interest-Sound :
      (s : State C S) (block balance : ℕ) (r : State C S × LatestInterest)
      → Sound s
      → accrue_interest d s block balance ≡ ok r
      → Sound r.0
  accrue_interest-Sound s block balance r i h =
      Same-Sound s r.0 (accrue_interest-Same d s block balance r h) i

  pub deposit-Sound :
      (s s' : State C S) (latest : LatestInterest) (balance : ℕ) (from : H) (amount : ℕ)
      → Sound s
      → Token.deposit d s latest balance from amount ≡ ok s'
      → Sound s'
  unfolding Token.deposit
  deposit-Sound s s' latest balance from amount i h =
      >>=-elim (calc_exchange_rate s balance (latest_borrows latest s) (latest_reserves latest s)) _
        h
        λ rate _ h1. >>=-elim (dec.decimal_div amount rate) _ h1 λ minted _ h2.
          >>=-elim (increase_supply s minted) _ h2 λ more p h3.
            >>=-elim (d.canonize from) _ h3 λ a _ h4.
              let made = increase_supply-Supply s more minted p in
              let to = add_to-Tokens more s' a minted h4 in
              record {
                supplied = omega (
                  arith,
                  made.supply,
                  ap (total itself) made.balances,
                  to.sum,
                  to.supply,
                  i.supplied,
                );
                listed =
                    Listed-same s s' (to.borrowers ∙ made.borrowers) (to.info ∙ made.info) i.listed;
              }

  pub redeem-Sound :
      (env : Env H) (s : State C S) (tokens underlying : ℕ) (r : State C S × List (Msg H))
      → Sound s
      → redeem d env s tokens underlying ≡ ok r
      → Sound r.0
  unfolding redeem
  redeem-Sound env s tokens underlying r i h = >>=-elim (load_underlying d s) _ h λ link _ h1.
      >>=-elim (underlying_balance d s env.contract.address) _ h1 λ balance _ h2.
        >>=-elim (accrue_interest d s env.block balance) _ h2 λ l p h3.
          >>=-elim
            (calc_exchange_rate l.0 balance (latest_borrows l.1 l.0) (latest_reserves l.1 l.0)) _ h3
            λ rate _ h4. >>=-elim (redeem_amounts rate tokens underlying) _ h4 λ a _ h5.
              >>=-elim (assert_can_withdraw balance a.0) _ h5 λ _ _ h6.
                >>=-elim (load_overseer d l.0) _ h6 λ overseer _ h7.
                  >>=-elim (load_master_key l.0) _ h7 λ key _ h8.
                    >>=-elim (w.clamp_u128 a.1) _ h8 λ clamped _ h9.
                      >>=-elim
                        (d.can_transfer overseer key env.sender env.contract.address env.block
                          clamped)
                        _ h9
                        λ allowed _ h10.
                          >>=-elim (guard allowed (generic (lend redeem_refused))) _ h10 λ _ _ h11.
                            >>=-elim (decrease_supply l.0 a.1) _ h11 λ less q h12.
                              >>=-elim (d.canonize env.sender) _ h12 λ sender _ h13.
                                >>=-elim (subtract_from less sender a.1) _ h13 λ s' t h14.
                                  >>=-elim (w.clamp_u128 a.0) _ h14 λ paid _ rest.
                                    let j = accrue_interest-Sound s env.block balance l i p in
                                    let burned = decrease_supply-Supply l.0 less a.1 q in
                                    let from = subtract_from-Tokens less s' sender a.1 t in
                                    subst (λ x. Sound x.0) (ok-injective rest)
                                      (record {
                                        supplied = omega (
                                          arith,
                                          burned.supply,
                                          ap (total itself) burned.balances,
                                          from.sum,
                                          from.supply,
                                          j.supplied,
                                        );
                                        listed =
                                            Listed-same l.0 s' (from.borrowers ∙ burned.borrowers)
                                              (from.info ∙ burned.info) j.listed;
                                      })

  pub do_transfer-Sound :
      (env : Env H) (s s' : State C S) (recipient : H) (amount : ℕ)
      → Sound s
      → do_transfer d env s recipient amount ≡ ok s'
      → Sound s'
  unfolding do_transfer
  do_transfer-Sound env s s' recipient amount i h =
      >>=-elim (d.canonize env.sender) _ h λ from _ h1.
        >>=-elim (d.canonize recipient) _ h1 λ to _ h2.
          >>=-elim (load_overseer d s) _ h2 λ overseer _ h3.
            >>=-elim (load_master_key s) _ h3 λ key _ h4.
              >>=-elim
                (d.can_transfer overseer key env.sender env.contract.address env.block amount) _ h4
                λ allowed _ h5.
                  >>=-elim (guard allowed (generic (lend transfer_refused))) _ h5 λ _ _ h6.
                    >>=-elim (subtract_from s from amount) _ h6 λ less p h7.
                      let t = subtract_from-Tokens s less from amount p in
                      let u = add_to-Tokens less s' to amount h7 in
                      record {
                        supplied = omega (arith, t.sum, t.supply, u.sum, u.supply, i.supplied);
                        listed =
                            Listed-same s s' (u.borrowers ∙ t.borrowers) (u.info ∙ t.info) i.listed;
                      }

  new_account-Same :
      (s : State C S) (address : H) (r : State C S × C)
      → new_account d s address ≡ ok r
      → Same s r.0
  unfolding new_account
  new_account-Same s address r h = >>=-elim (d.canonize address) _ h λ a _ rest.
      elim (Option-cases (load_id s a)) [
        | inl p ↦ >>=-elim (new_id d s a) _ (rw p at rest) λ id _ known.
            subst (λ x. Same s x.0) (ok-injective known)
              (record { balances = refl; supply = refl; borrowers = refl; info = refl })
        | inr (id, p) ↦ subst (λ x. Same s x.0) (ok-injective (rw p at rest)) (Same-refl s)
      ]

  pub do_borrow-Sound :
      (env : Env H) (s : State C S) (amount : ℕ) (r : State C S × List (Msg H))
      → Sound s
      → do_borrow d env s amount ≡ ok r
      → Sound r.0
  unfolding do_borrow
  do_borrow-Sound env s amount r i h = >>=-elim (load_underlying d s) _ h λ link _ h1.
      >>=-elim (underlying_balance d s env.contract.address) _ h1 λ balance _ h2.
        >>=-elim (assert_can_withdraw balance amount) _ h2 λ _ _ h3.
          >>=-elim (accrue_interest d s env.block balance) _ h3 λ l p h4.
            >>=-elim (assert_borrow_allowed d l.0 env.sender env.block env.contract.address amount)
              _ h4
              λ _ _ h5. >>=-elim (new_account d l.0 env.sender) _ h5 λ known q h6.
                >>=-elim (add_debt known.0 known.1 (latest_index l.1 known.0) amount) _ h6
                  λ owing t h7. >>=-elim (increase_borrows owing amount) _ h7 λ s' u h8.
                    >>=-elim (w.clamp_u128 amount) _ h8 λ paid _ rest.
                      subst (λ x. Sound x.0) (ok-injective rest)
                        (Same-Sound owing s' (increase_borrows-Same owing s' amount u) (
                          add_debt-Sound known.0 owing known.1 (latest_index l.1 known.0) amount
                            (Same-Sound l.0 known.0 (new_account-Same l.0 env.sender known q)
                              (accrue_interest-Sound s env.block balance l i p))
                            t))

  pub do_repay-Sound :
      (s : State C S) (interest : LatestInterest) (borrower : C) (sender : H) (amount : ℕ)
      (r : State C S × List (Msg H))
      → Sound s
      → do_repay d s interest borrower sender amount ≡ ok r
      → Sound r.0
  unfolding do_repay
  do_repay-Sound s interest borrower sender amount r i h =
      >>=-elim (subtract_debt s borrower (latest_index interest s) amount) _ h λ l p h1.
        >>=-elim (decrease_borrows l.0 (amount - l.1)) _ h1 λ s' q h2.
          let j =
            Same-Sound l.0 s' (decrease_borrows-Same l.0 s' (amount - l.1) q)
              (subtract_debt-Sound s borrower (latest_index interest s) amount l i p) in
          elim (Bool-cases (ltb 0 l.1)) [
            | inl t ↦
                >>=-elim (load_underlying d s') _ (rw t at h2)
                  λ link _ rest. subst (λ x. Sound x.0) (ok-injective rest) j
            | inr t ↦ subst (λ x. Sound x.0) (ok-injective (rw t at h2)) j
          ]

  check_liquidation-address :
      (env : Env H) (s : State C S) (liquidator borrower : C) (index amount : ℕ)
      (r : BorrowSnapshot C × H × ContractLink H)
      → Sound s
      → check_liquidation d env s liquidator borrower index amount ≡ ok r
      → (r.0).address ≡ borrower
  unfolding check_liquidation
  check_liquidation-address env s liquidator borrower index amount r i h =
      >>=-elim (guard (not (ec.beq liquidator borrower)) (generic (lend same_account))) _ h
        λ _ _ h1. >>=-elim (get_borrow_snapshot s borrower) _ h1 λ b p h2.
          >>=-elim (d.humanize borrower) _ h2 λ address _ h3.
            >>=-elim (load_overseer d s) _ h3 λ overseer _ h4.
              >>=-elim (current_balance b index) _ h4 λ balance _ h5.
                >>=-elim (assert_liquidate_allowed d s overseer address balance env.block amount) _
                  h5
                  λ _ _ rest.
                    ap (λ x. (x.0).address) (sym (ok-injective rest))
                    ∙ get_borrow_snapshot-address s borrower b i.listed p

  pub do_liquidate-Sound :
      (env : Env H) (s : State C S) (interest : LatestInterest) (balance : ℕ) (from : H)
      (borrower : C) (collateral : H) (amount : ℕ) (r : State C S × List (Msg H))
      → Sound s
      → do_liquidate d env s interest balance from borrower collateral amount ≡ ok r
      → Sound r.0
  unfolding do_liquidate
  do_liquidate-Sound env s interest balance from borrower collateral amount r i h =
      >>=-elim (d.canonize from) _ h λ to _ h1.
        let index = latest_index interest s in
        >>=-elim (check_liquidation d env s to borrower index amount) _ h1 λ c p h2.
          >>=-elim (subtract_balance c.0 index amount) _ h2 λ n q h3.
            >>=-elim (save_borrow_snapshot s borrower n.0) _ h3 λ repaid t h4.
              >>=-elim (decrease_borrows repaid amount) _ h4 λ s' u h5.
                >>=-elim (d.seize_amount c.2 env.contract.address collateral amount) _ h5
                  λ seized _ h6.
                    let j = Same-Sound repaid s' (decrease_borrows-Same repaid s' amount u) (
                      save_borrow_snapshot-Sound s repaid borrower n.0 i
                        (subtract_balance-address c.0 index amount n q
                          ∙ check_liquidation-address env s to borrower index amount c i p)
                        t) in
                    elim (Bool-cases (e.beq env.contract.address collateral)) [
                      | inl v ↦
                          >>=-elim (do_seize s' interest balance to borrower seized) _ (rw v at h6)
                            λ s'' x rest.
                              subst (λ x. Sound x.0) (ok-injective rest)
                                (do_seize-Sound s' s'' interest balance to borrower seized j x)
                      | inr v ↦
                          >>=-elim (d.market c.2 collateral) _ (rw v at h6)
                            λ market _ rest. subst (λ x. Sound x.0) (ok-injective rest) j
                    ]
