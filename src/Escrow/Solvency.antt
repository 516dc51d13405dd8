-- ===== src/Escrow/Solvency.antt =====
-- What the contract holds covers what it owes to the leagues, and what a league collected covers what
-- its members can claim.
use wagr.Common.{ℕ, true, ◌+◌, ◌-◌, ◌≤◌, List, [], ◌∷◌, ◌≡◌, ◌≢◌, ap, sym, subst, length, arith}
use wagr.Evm.{done, answers_true}
use wagr.Evm.Sums.{IsCovered, raise-IsCovered, lower-IsCovered}
use wagr.Escrow.{
  Escrow, Chain, Call, pay_entry_fee, claim_refund, distribute_payout, emergency_withdraw, pay_out,
  run_emergency_withdraw, execute, transact,
}
use wagr.Escrow.Calls.{
  sum, run_pay_entry_fee_done, run_claim_refund_done, run_distribute_payout_done, transact-keeps,
}
use wagr.Escrow.Events.{payout_distributed}
use wagr.Escrow.Token.{Erc20, IsErc20}

module _ {T : Type 0} (erc20 : Erc20 T) (escrow : Escrow) where
  -- What the contract holds of the token.
  abbrev pub held : T → ℕ
  held tokens = erc20.balance_of escrow.usdc escrow.self tokens

  -- The totals of any distinct leagues are held together.
  abbrev pub IsSolvent : Chain T → Type 0
  IsSolvent c = IsCovered c.league_totals (held c.tokens)

  module _ (laws : IsErc20 erc20) where
    run_pay_entry_fee-IsSolvent :
        (sender league amount : ℕ) (c c' : Chain T)
        → sender ≢ escrow.self
        → execute erc20 escrow sender (pay_entry_fee league amount) c ≡ done c'
        → IsSolvent c
        → IsSolvent c'
    unfolding execute
    run_pay_entry_fee-IsSolvent sender league amount c c' other e h =
        let paid = run_pay_entry_fee_done erc20 escrow sender league amount c c' e in
        let moves = laws.transfer_from-Moves _ _ _ _ _ _ _ paid.called in
        let more : held c.tokens + amount ≡ held c'.tokens =
          ground (arith, moves.moved escrow.self) in
        subst (IsCovered c'.league_totals) more
          (rw paid.league_totals (raise-IsCovered c.league_totals (held c.tokens) league amount h))

    run_claim_refund-IsSolvent :
        (sender league : ℕ) (c c' : Chain T)
        → sender ≢ escrow.self
        → execute erc20 escrow sender (claim_refund league) c ≡ done c'
        → IsSolvent c
        → IsSolvent c'
    unfolding execute
    run_claim_refund-IsSolvent sender league c c' other e h =
        let back = run_claim_refund_done erc20 escrow sender league c c' e in
        let moves = laws.transfer-Moves _ _ _ _ _ _ back.called in
        let less : held c.tokens - c.payments league sender ≡ held c'.tokens =
          ground (arith, moves.moved escrow.self) in
        subst (IsCovered c'.league_totals) less (
          rw back.league_totals (
            lower-IsCovered c.league_totals (held c.tokens) league (c.payments league sender)
              back.in_total h))

    -- The loop of a payout takes from the contract at most what it is to pay.
    pay_out-held :
        (league : ℕ) (recipients amounts : List ℕ) (c c' : Chain T)
        → length recipients ≡ length amounts
        → pay_out erc20 escrow league recipients amounts c ≡ done c'
        → (held c.tokens ≤ held c'.tokens + sum amounts) × (c'.league_totals ≡ c.league_totals)
    unfolding pay_out
    pay_out-held league [] [] c c' len e = ground arith
    pay_out-held league [] (amount ∷ amounts) c c' len e = absurd (omega arith)
    pay_out-held league (recipient ∷ recipients) [] c c' len e = cc
    pay_out-held league (recipient ∷ recipients) (amount ∷ amounts) c c' len e =
        let (tokens, called, paid) =
          answers_true (erc20.transfer escrow.usdc escrow.self recipient amount c.tokens)
            "payout transfer failed"
            (λ tokens. pay_out erc20 escrow league recipients amounts (record c {
              events = payout_distributed league recipient amount ∷ c.events;
              tokens = tokens;
            }))
            c' e in
        let moves = laws.transfer-Moves _ _ _ _ _ _ called in
        ground (
          arith,
          moves.moved escrow.self,
          pay_out-held league recipients amounts
              (record c {
                events = payout_distributed league recipient amount ∷ c.events;
                tokens = tokens;
              })
              c' (omega arith) paid,
        )

    run_distribute_payout-IsSolvent :
        (sender league : ℕ) (recipients amounts : List ℕ) (c c' : Chain T)
        → execute erc20 escrow sender (distribute_payout league recipients amounts) c ≡ done c'
        → IsSolvent c
        → IsSolvent c'
    unfolding execute
    run_distribute_payout-IsSolvent sender league recipients amounts c c' e h =
        let paid =
          run_distribute_payout_done erc20 escrow sender league recipients amounts c c' e in
        let (left, same) = pay_out-held league recipients amounts _ c' paid.same_length paid.loop in
        let lowered =
          lower-IsCovered c.league_totals (held c.tokens) league (sum amounts) paid.in_total h in
        λ keys distinct. rw same (omega (arith, lowered keys distinct))

    run_emergency_withdraw-IsSolvent :
        (sender token amount : ℕ) (c c' : Chain T)
        → token ≢ escrow.usdc
        → execute erc20 escrow sender (emergency_withdraw token amount) c ≡ done c'
        → IsSolvent c
        → IsSolvent c'
    unfolding execute run_emergency_withdraw
    run_emergency_withdraw-IsSolvent sender token amount c c' other e h =
        let called : erc20.transfer token escrow.self escrow.owner amount c.tokens
            ≡ done (true, c'.tokens) =
          ground arith in
        let moves = laws.transfer-Moves _ _ _ _ _ _ called in
        λ keys distinct.
          ground (
            arith,
            h keys distinct,
            moves.others escrow.usdc escrow.self (λ same. other (sym same)),
          )

    pub execute-IsSolvent :
        (sender : ℕ) (call : Call) (c c' : Chain T)
        → sender ≢ escrow.self
        → ((amount : ℕ) → call ≢ emergency_withdraw escrow.usdc amount)
        → execute erc20 escrow sender call c ≡ done c'
        → IsSolvent c
        → IsSolvent c'
    execute-IsSolvent sender (pay_entry_fee league amount) c c' other keeps e h =
        run_pay_entry_fee-IsSolvent sender league amount c c' other e h
    execute-IsSolvent sender (claim_refund league) c c' other keeps e h =
        run_claim_refund-IsSolvent sender league c c' other e h
    execute-IsSolvent sender (distribute_payout league recipients amounts) c c' other keeps e h =
        run_distribute_payout-IsSolvent sender league recipients amounts c c' e h
    execute-IsSolvent sender (emergency_withdraw token amount) c c' other keeps e h =
        run_emergency_withdraw-IsSolvent sender token amount c c'
          (λ same. keeps amount (ap (λ t. emergency_withdraw t amount) same)) e h

    -- Any call that does not take the fees themselves out by `emergencyWithdraw`.
    pub transact-IsSolvent :
        (sender : ℕ) (call : Call) (c : Chain T)
        → sender ≢ escrow.self
        → ((amount : ℕ) → call ≢ emergency_withdraw escrow.usdc amount)
        → IsSolvent c
        → IsSolvent (transact erc20 escrow sender call c)
    transact-IsSolvent sender call c other keeps h =
        transact-keeps erc20 escrow IsSolvent sender call c h
          (λ c' e. execute-IsSolvent sender call c c' other keeps e h)
