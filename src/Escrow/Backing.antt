-- ===== src/Escrow/Backing.antt =====
-- What a league collected covers what its members can claim, as far as it has not been paid out.
use wagr.Common.{ℕ, ◌+◌, List, ◌≡◌, arith}
use wagr.Evm.{done}
use wagr.Evm.Sums.{IsCovered, raise-IsCovered, lower-IsCovered}
use wagr.Escrow.{
  Escrow, Chain, Call, pay_entry_fee, claim_refund, distribute_payout, emergency_withdraw,
  run_emergency_withdraw, execute, transact,
}
use wagr.Escrow.Calls.{
  run_pay_entry_fee_done, run_claim_refund_done, run_distribute_payout_done, transact-keeps,
}
use wagr.Escrow.Accounting.{pay_out-Pays}
use wagr.Escrow.Events.{distributed}
use wagr.Escrow.Token.{Erc20}

module _ {T : Type 0} (erc20 : Erc20 T) (escrow : Escrow) where
  -- The payments of any distinct members are in the league's total or have been paid out.
  abbrev pub IsBacked : Chain T → Type 0
  IsBacked c = (l : ℕ) → IsCovered (c.payments l) (c.league_totals l + distributed l c.events)

  run_pay_entry_fee-IsBacked :
      (sender league amount : ℕ) (c c' : Chain T)
      → execute erc20 escrow sender (pay_entry_fee league amount) c ≡ done c'
      → IsBacked c
      → IsBacked c'
  unfolding execute distributed
  run_pay_entry_fee-IsBacked sender league amount c c' e h l keys distinct =
      let paid = run_pay_entry_fee_done erc20 escrow sender league amount c c' e in
      let raised =
        raise-IsCovered (c.payments league) (c.league_totals league + distributed league c.events)
          sender amount (h league) keys distinct in
      rw (paid.payments, paid.league_totals, paid.events) (ground (arith, h l keys distinct))

  run_claim_refund-IsBacked :
      (sender league : ℕ) (c c' : Chain T)
      → execute erc20 escrow sender (claim_refund league) c ≡ done c'
      → IsBacked c
      → IsBacked c'
  unfolding execute distributed
  run_claim_refund-IsBacked sender league c c' e h l keys distinct =
      let back = run_claim_refund_done erc20 escrow sender league c c' e in
      let lowered =
        lower-IsCovered (c.payments league) (c.league_totals league + distributed league c.events)
          sender (c.payments league sender) (omega arith) (h league) keys distinct in
      rw (back.payments, back.league_totals, back.events)
        (ground (arith, h l keys distinct, back.in_total))

  run_distribute_payout-IsBacked :
      (sender league : ℕ) (recipients amounts : List ℕ) (c c' : Chain T)
      → execute erc20 escrow sender (distribute_payout league recipients amounts) c ≡ done c'
      → IsBacked c
      → IsBacked c'
  unfolding execute
  run_distribute_payout-IsBacked sender league recipients amounts c c' e h l keys distinct =
      let paid = run_distribute_payout_done erc20 escrow sender league recipients amounts c c' e in
      let pays =
        pay_out-Pays erc20 escrow league recipients amounts _ c' paid.same_length paid.loop in
      rw (pays.payments, pays.league_totals)
        (ground (arith, h l keys distinct, paid.in_total, pays.distributed_more l))

  run_emergency_withdraw-IsBacked :
      (sender token amount : ℕ) (c c' : Chain T)
      → execute erc20 escrow sender (emergency_withdraw token amount) c ≡ done c'
      → IsBacked c
      → IsBacked c'
  unfolding execute run_emergency_withdraw
  run_emergency_withdraw-IsBacked sender token amount c c' e h l keys distinct =
      ground (arith, h l keys distinct)

  execute-IsBacked :
      (sender : ℕ) (call : Call) (c c' : Chain T)
      → execute erc20 escrow sender call c ≡ done c'
      → IsBacked c
      → IsBacked c'
  execute-IsBacked sender (pay_entry_fee league amount) c c' e h =
      run_pay_entry_fee-IsBacked sender league amount c c' e h
  execute-IsBacked sender (claim_refund league) c c' e h =
      run_claim_refund-IsBacked sender league c c' e h
  execute-IsBacked sender (distribute_payout league recipients amounts) c c' e h =
      run_distribute_payout-IsBacked sender league recipients amounts c c' e h
  execute-IsBacked sender (emergency_withdraw token amount) c c' e h =
      run_emergency_withdraw-IsBacked sender token amount c c' e h

  pub transact-IsBacked :
      (sender : ℕ) (call : Call) (c : Chain T)
      → IsBacked c
      → IsBacked (transact erc20 escrow sender call c)
  transact-IsBacked sender call c h =
      transact-keeps erc20 escrow IsBacked sender call c h
        (λ c' e. execute-IsBacked sender call c c' e h)
