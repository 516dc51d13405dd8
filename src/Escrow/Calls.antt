-- ===== src/Escrow/Calls.antt =====
-- Transactions of src/contracts/src/LeagueEscrow.sol that do not revert, `distributePayout` above all.
use wagr.Common.{ℕ, true, ◌+◌, ◌-◌, ◌≤◌, ◌<◌, List, [], ◌∷◌, ◌≡◌, length, sym, inl, inr, arith}
use wagr.Evm.{done, Outcome-cases, set, set_in}
use wagr.Escrow.{
  Escrow, Chain, Call, add_amounts, pay_out, run_distribute_payout, execute, transact,
  run_pay_entry_fee, run_claim_refund,
}
use wagr.Escrow.Events.{entry_fee_paid, refund_claimed}
use wagr.Escrow.Token.{Erc20}

abbrev pub sum : List ℕ → ℕ
sum [] = 0
sum (n ∷ ns) = n + sum ns

pub add_amounts_lem :
    (total : ℕ) (amounts : List ℕ) (all : ℕ)
    → add_amounts total amounts ≡ done all
    → all ≡ total + sum amounts
unfolding add_amounts
add_amounts_lem total [] all e = ground arith
add_amounts_lem total (amount ∷ amounts) all e =
    ground (arith, add_amounts_lem (total + amount) amounts all)

module _ {T : Type 0} (erc20 : Erc20 T) (escrow : Escrow) where
  -- The checks that it has passed, and the loop that it has run.
  pub record IsDistributed (sender league : ℕ) (recipients amounts : List ℕ) (c c' : Chain T)
      : Type 0 where
    pub by_owner : sender ≡ escrow.owner
    pub same_length : length recipients ≡ length amounts
    pub in_total : sum amounts ≤ c.league_totals league
    pub loop :
        pay_out erc20 escrow league recipients amounts (record c {
          league_totals = set league (c.league_totals league - sum amounts) c.league_totals;
        })
        ≡ done c'

  pub run_distribute_payout_done :
      (sender league : ℕ) (recipients amounts : List ℕ) (c c' : Chain T)
      → run_distribute_payout erc20 escrow sender league recipients amounts c ≡ done c'
      → IsDistributed sender league recipients amounts c c'
  unfolding run_distribute_payout
  run_distribute_payout_done sender league recipients amounts c c' e =
      elim (Outcome-cases (add_amounts 0 amounts)) [
        | inl (reason, panics) ↦ absurd (ground (arith, panics))
        | inr (total, added) ↦
            let all : total ≡ sum amounts = omega (arith, add_amounts_lem 0 amounts total added) in
            record {
              by_owner = ground (arith, added);
              same_length = ground (arith, added);
              in_total = ground (arith, added, all);
              loop = rw (sym all) (ground (arith, added));
            }
      ]

  -- What holds before a call and after the call if it does not revert holds after the transaction.
  pub transact-keeps {κ} :
      (P : Chain T → Type κ) (sender : ℕ) (call : Call) (c : Chain T)
      → P c
      → ((c' : Chain T) → execute erc20 escrow sender call c ≡ done c' → P c')
      → P (transact erc20 escrow sender call c)
  unfolding transact
  transact-keeps P sender call c h next =
      elim (Outcome-cases (execute erc20 escrow sender call c)) [
        | inl (reason, e) ↦ rw (e, transact) h
        | inr (c', e) ↦ rw (e, transact) (next c' e)
      ]

  pub record IsPaid (sender league amount : ℕ) (c c' : Chain T) : Type 0 where
    pub called :
        erc20.transfer_from escrow.usdc escrow.self sender escrow.self amount c.tokens
        ≡ done (true, c'.tokens)
    pub positive : 0 < amount
    pub payments : c'.payments ≡ set_in league sender (c.payments league sender + amount) c.payments
    pub league_totals :
        c'.league_totals ≡ set league (c.league_totals league + amount) c.league_totals
    pub events : c'.events ≡ entry_fee_paid league sender amount ∷ c.events

  pub run_pay_entry_fee_done :
      (sender league amount : ℕ) (c c' : Chain T)
      → run_pay_entry_fee erc20 escrow sender league amount c ≡ done c'
      → IsPaid sender league amount c c'
  unfolding run_pay_entry_fee
  run_pay_entry_fee_done sender league amount c c' e = record {
    called = ground arith;
    positive = ground arith;
    payments = ground arith;
    league_totals = ground arith;
    events = ground arith;
  }

  pub record IsRefunded (sender league : ℕ) (c c' : Chain T) : Type 0 where
    pub called :
        erc20.transfer escrow.usdc escrow.self sender (c.payments league sender) c.tokens
        ≡ done (true, c'.tokens)
    pub positive : 0 < c.payments league sender
    pub in_total : c.payments league sender ≤ c.league_totals league
    pub payments : c'.payments ≡ set_in league sender 0 c.payments
    pub league_totals :
        c'.league_totals
        ≡ set league (c.league_totals league - c.payments league sender) c.league_totals
    pub events : c'.events ≡ refund_claimed league sender (c.payments league sender) ∷ c.events

  pub run_claim_refund_done :
      (sender league : ℕ) (c c' : Chain T)
      → run_claim_refund erc20 escrow sender league c ≡ done c'
      → IsRefunded sender league c c'
  unfolding run_claim_refund
  run_claim_refund_done sender league c c' e = record {
    called = ground arith;
    positive = ground arith;
    in_total = ground arith;
    payments = ground arith;
    league_totals = ground arith;
    events = ground arith;
  }
