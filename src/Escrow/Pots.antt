-- ===== src/Escrow/Pots.antt =====
-- The escrow as one pot for each league: a specification that forgets tokens, events and the other
-- leagues, and how the contract implements it.
use wagr.Common.{
  ℕ, ◌+◌, ◌-◌, ◌≤◌, ◌<◌, ◌≡◌, ◌⊎◌, inl, inr, Option, none, some, refl, arith, ==_cases, ap, sym,
}
use wagr.Evm.{done, set}
use wagr.Escrow.{
  Escrow, Chain, Call, pay_entry_fee, claim_refund, distribute_payout, emergency_withdraw,
  run_emergency_withdraw, execute, transact,
}
use wagr.Escrow.Calls.{
  sum, run_pay_entry_fee_done, run_claim_refund_done, run_distribute_payout_done, transact-keeps,
}
use wagr.Escrow.Accounting.{pay_out-Pays}
use wagr.Escrow.Token.{Erc20}

-- What each member put in, and what the pot has.
pub record Pot : Type 0 where
  pub members : ℕ → ℕ
  pub total : ℕ

-- When a call may move the pot of its league, as far as the pot can tell.
abbrev pub Allowed : ℕ → Call → Pot → Type 0
Allowed sender (pay_entry_fee league amount) p = 0 < amount
Allowed sender (claim_refund league) p = (0 < p.members sender) × (p.members sender ≤ p.total)
Allowed sender (distribute_payout league recipients amounts) p = sum amounts ≤ p.total
Allowed sender (emergency_withdraw token amount) p = ⊥

-- What it then makes of the pot.
abbrev pub moved : ℕ → Call → Pot → Pot
moved sender (pay_entry_fee league amount) p = record {
  members = set sender (p.members sender + amount) p.members;
  total = p.total + amount;
}
moved sender (claim_refund league) p = record {
  members = set sender 0 p.members;
  total = p.total - p.members sender;
}
moved sender (distribute_payout league recipients amounts) p = record p {
  total = p.total - sum amounts;
}
moved sender (emergency_withdraw token amount) p = p

-- The league that a call is for.
abbrev pub league_of_call : Call → Option ℕ
league_of_call (pay_entry_fee league amount) = some league
league_of_call (claim_refund league) = some league
league_of_call (distribute_payout league recipients amounts) = some league
league_of_call (emergency_withdraw token amount) = none

module _ {T : Type 0} (erc20 : Erc20 T) (escrow : Escrow) where
  abbrev pub pot : ℕ → Chain T → Pot
  pot l c = record { members = c.payments l; total = c.league_totals l }

  -- A transaction leaves the pot of a league as it was, or is for that league and makes the move of
  -- its call.
  abbrev pub Refines : ℕ → ℕ → Call → Chain T → Chain T → Type 0
  Refines l sender call c c' =
      (pot l c' ≡ pot l c)
      ⊎ ((league_of_call call ≡ some l)
          × Allowed sender call (pot l c)
          × (pot l c' ≡ moved sender call (pot l c)))

  execute-Refines :
      (l sender : ℕ) (call : Call) (c c' : Chain T)
      → execute erc20 escrow sender call c ≡ done c'
      → Refines l sender call c c'
  unfolding execute run_emergency_withdraw
  execute-Refines l sender (pay_entry_fee league amount) c c' e =
      let paid = run_pay_entry_fee_done erc20 escrow sender league amount c c' e in
      elim (==_cases l league) [
        | inl (same, is_same) ↦ inr (
          ap some (sym same),
          paid.positive,
          rw (paid.payments, paid.league_totals, is_same, same) refl,
        )
        | inr (_, differs) ↦ inl (rw (paid.payments, paid.league_totals, differs) refl)
      ]
  execute-Refines l sender (claim_refund league) c c' e =
      let back = run_claim_refund_done erc20 escrow sender league c c' e in
      elim (==_cases l league) [
        | inl (same, is_same) ↦ inr (
          ap some (sym same),
          rw same (back.positive, back.in_total),
          rw (back.payments, back.league_totals, is_same, same) refl,
        )
        | inr (_, differs) ↦ inl (rw (back.payments, back.league_totals, differs) refl)
      ]
  execute-Refines l sender (distribute_payout league recipients amounts) c c' e =
      let paid = run_distribute_payout_done erc20 escrow sender league recipients amounts c c' e in
      let pays =
        pay_out-Pays erc20 escrow league recipients amounts _ c' paid.same_length paid.loop in
      elim (==_cases l league) [
        | inl (same, is_same) ↦ inr (
          ap some (sym same),
          rw same paid.in_total,
          rw (pays.payments, pays.league_totals, is_same, same) refl,
        )
        | inr (_, differs) ↦ inl (rw (pays.payments, pays.league_totals, differs) refl)
      ]
  execute-Refines l sender (emergency_withdraw token amount) c c' e = inl (
      let kept : c'.payments ≡ c.payments = ground arith in
      let totals : c'.league_totals ≡ c.league_totals = ground arith in rw (kept, totals) refl)

  -- Any transaction, seen at the pot of any league: either the pot stays as it was, or the call is for
  -- that league, the pot allows it, and the pot is as its move makes it. So no call for one league, no
  -- call that reverts and no withdrawal of the owner changes what another league or its members have.
  pub transact-Refines :
      (l sender : ℕ) (call : Call) (c : Chain T)
      → Refines l sender call c (transact erc20 escrow sender call c)
  transact-Refines l sender call c =
      transact-keeps erc20 escrow (Refines l sender call c) sender call c (inl refl)
        (λ c' e. execute-Refines l sender call c c' e)
