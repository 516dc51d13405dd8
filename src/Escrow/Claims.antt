-- ===== src/Escrow/Claims.antt =====
-- When payments and claims go through: the guards of `payEntryFee` and `claimRefund`, and the members'
-- money in every state that the contract can reach.
use wagr.Common.{ℕ, true, ◌↔◌, ◌+◌, ◌-◌, ◌≤◌, ◌<◌, ◌≡◌, ◌≢◌, [], ◌∷◌, List, ap, ◌∙◌, arith}
use wagr.Evm.{done, uint256_limit, set, set_in}
use wagr.Escrow.{
  Escrow, Chain, claim_refund, run_claim_refund, pay_entry_fee, distribute_payout,
  run_pay_entry_fee, execute,
}
use wagr.Escrow.Reached.{Reached, Reached-IsBacked, Reached-IsSolvent}
use wagr.Escrow.Solvency.{IsSolvent, execute-IsSolvent}
use wagr.Escrow.Accounting.{pay_out-Pays}
use wagr.Escrow.Calls.{sum, run_claim_refund_done, run_distribute_payout_done}
use wagr.Escrow.Events.{distributed, refund_claimed, entry_fee_paid}
use wagr.Escrow.Token.{Erc20, IsErc20}

module _ {T : Type 0} (erc20 : Erc20 T) (escrow : Escrow) where
  -- A claim goes through exactly if the member has paid, the league’s total still has the payment and
  -- the token transfers it.
  run_claim_refund_iff :
      (sender league : ℕ) (c : Chain T)
      → ((c' : Chain T) × (execute erc20 escrow sender (claim_refund league) c ≡ done c')) ↔ (
          (0 < c.payments league sender)
          × (c.payments league sender ≤ c.league_totals league)
          × ((tokens : T) × (erc20.transfer escrow.usdc escrow.self sender
                  (c.payments league sender)
                  c.tokens
                ≡ done (true, tokens))))
  unfolding execute run_claim_refund
  run_claim_refund_iff sender league c = (
    λ (c', e). (ground arith, ground arith, (c'.tokens, ground arith)),
    λ (paid, enough, (tokens, moved)). (
      record {
        payments = set_in league sender 0 c.payments;
        league_totals =
            set league (c.league_totals league - c.payments league sender) c.league_totals;
        events = refund_claimed league sender (c.payments league sender) ∷ c.events;
        tokens = tokens;
      },
      ground (arith, moved),
    ),
  )

  -- A payment goes through exactly if the amount is positive, neither sum passes the largest
  -- `uint256` and the token transfers the amount.
  pub run_pay_entry_fee_iff :
      (sender league amount : ℕ) (c : Chain T)
      → ((c' : Chain T) × (execute erc20 escrow sender (pay_entry_fee league amount) c ≡ done c'))
        ↔ ((0 < amount)
            × (c.payments league sender + amount < uint256_limit)
            × (c.league_totals league + amount < uint256_limit)
            × ((tokens : T) × (erc20.transfer_from escrow.usdc escrow.self sender escrow.self amount
                    c.tokens
                  ≡ done (true, tokens))))
  unfolding execute run_pay_entry_fee
  run_pay_entry_fee_iff sender league amount c = (
    λ (c', e). (ground arith, ground arith, ground arith, (c'.tokens, ground arith)),
    λ (positive, payment_fits, total_fits, (tokens, moved)). (
      record {
        payments = set_in league sender (c.payments league sender + amount) c.payments;
        league_totals = set league (c.league_totals league + amount) c.league_totals;
        events = entry_fee_paid league sender amount ∷ c.events;
        tokens = tokens;
      },
      ground (arith, moved),
    ),
  )

  solvent_claim :
      (laws : IsErc20 erc20) (sender league : ℕ) (c : Chain T)
      → IsSolvent erc20 escrow c
      → sender ≢ escrow.self
      → 0 < c.payments league sender
      → c.payments league sender ≤ c.league_totals league
      → erc20.receives escrow.usdc sender c.tokens ≡ true
      → erc20.balance_of escrow.usdc sender c.tokens + c.payments league sender < uint256_limit
      → (c' : Chain T) × (execute erc20 escrow sender (claim_refund league) c ≡ done c')
        × (c'.payments league sender ≡ 0)
        × (erc20.balance_of escrow.usdc sender c'.tokens
            ≡ erc20.balance_of escrow.usdc sender c.tokens + c.payments league sender)
  unfolding execute
  solvent_claim laws sender league c solvent other paid left known room =
      let covered = solvent (league ∷ []) (tt, tt) in
      let (tokens, moved) =
        laws.transfer-done escrow.usdc escrow.self sender (c.payments league sender) c.tokens known
          (omega arith) room in
      let (c', e) = (run_claim_refund_iff sender league c).1 (paid, left, (tokens, moved)) in
      let back = run_claim_refund_done erc20 escrow sender league c c' e in
      let moves = laws.transfer-Moves _ _ _ _ _ _ back.called in
      (c', e, rw (back.payments) (ground arith), ground (arith, moves.moved sender))

  -- In every reached state a member of a league that has paid nothing out can claim the whole payment
  -- back: the claim goes through, the contract owes the member nothing more, and the member’s balance
  -- has grown by the payment. The token keeps the standard, the member is not the contract and is
  -- still associated with the token, and the balance stays in range.
  pub claim_refund_done :
      (laws : IsErc20 erc20) (sender league : ℕ) (c : Chain T)
      → Reached erc20 escrow c
      → distributed league c.events ≡ 0
      → sender ≢ escrow.self
      → 0 < c.payments league sender
      → erc20.receives escrow.usdc sender c.tokens ≡ true
      → erc20.balance_of escrow.usdc sender c.tokens + c.payments league sender < uint256_limit
      → (c' : Chain T) × (execute erc20 escrow sender (claim_refund league) c ≡ done c')
        × (c'.payments league sender ≡ 0)
        × (erc20.balance_of escrow.usdc sender c'.tokens
            ≡ erc20.balance_of escrow.usdc sender c.tokens + c.payments league sender)
  claim_refund_done laws sender league c r kept other paid known room =
      let backed = Reached-IsBacked erc20 escrow c r league (sender ∷ []) (tt, tt) in
      solvent_claim laws sender league c (Reached-IsSolvent erc20 escrow laws c r) other paid
        (omega arith) known room

  distribute_payout_left :
      (owner member league : ℕ) (recipients amounts : List ℕ) (c c' : Chain T)
      → execute erc20 escrow owner (distribute_payout league recipients amounts) c ≡ done c'
      → (c'.payments league member ≡ c.payments league member)
        × (c'.league_totals league ≡ c.league_totals league - sum amounts)
  unfolding execute
  distribute_payout_left owner member league recipients amounts c c' e =
      let paid = run_distribute_payout_done erc20 escrow owner league recipients amounts c c' e in
      let pays =
        pay_out-Pays erc20 escrow league recipients amounts _ c' paid.same_length paid.loop in
      (
        ap (λ f. f league member) pays.payments,
        ap (λ f. f league) pays.league_totals ∙ ground arith,
      )

  -- After a payout, whether it paid the member or not, a member whose payment the league’s total still
  -- covers, beside the amounts that were paid out, can claim the whole payment back. The token keeps the
  -- standard, the state is one that the contract can reach, the member is not the contract and is
  -- associated with the token after the payout, and the balance stays in range. A member whose payment
  -- the rest of the total does not cover is not spoken of.
  pub distribute_payout-claim_refund :
      (laws : IsErc20 erc20) (owner member league : ℕ) (recipients amounts : List ℕ)
      (c c' : Chain T)
      → Reached erc20 escrow c
      → execute erc20 escrow owner (distribute_payout league recipients amounts) c ≡ done c'
      → owner ≢ escrow.self
      → member ≢ escrow.self
      → 0 < c.payments league member
      → c.payments league member + sum amounts ≤ c.league_totals league
      → erc20.receives escrow.usdc member c'.tokens ≡ true
      → erc20.balance_of escrow.usdc member c'.tokens + c.payments league member < uint256_limit
      → (c'' : Chain T) × (execute erc20 escrow member (claim_refund league) c' ≡ done c'')
        × (erc20.balance_of escrow.usdc member c''.tokens
            ≡ erc20.balance_of escrow.usdc member c'.tokens + c.payments league member)
  distribute_payout-claim_refund laws owner member league recipients amounts c c' r e by_other other
        paid left known room =
      let (same, total) = distribute_payout_left owner member league recipients amounts c c' e in
      let solvent =
        execute-IsSolvent erc20 escrow laws owner (distribute_payout league recipients amounts) c c'
          by_other (λ amount e. cc) e (Reached-IsSolvent erc20 escrow laws c r) in
      let (c'', claimed, _, more) =
        solvent_claim laws member league c' solvent other (omega (arith, same))
          (omega (arith, same, total)) known (omega (arith, same)) in
      (c'', claimed, omega (arith, more, same))
