-- ===== src/Escrow/Accounting.antt =====
-- What the events account for, whatever the token does: the storage of the contract is what an
-- observer of its events adds up.
use wagr.Common.{ℕ, ◌+◌, List, [], ◌∷◌, ◌≡◌, ◌==◌, length, refl, arith}
use wagr.Evm.{done, answers_true}
use wagr.Escrow.{
  Escrow, Chain, Call, pay_entry_fee, claim_refund, distribute_payout, emergency_withdraw,
  run_pay_entry_fee, run_claim_refund, pay_out, run_distribute_payout, run_emergency_withdraw,
  execute, transact, run_all, fresh,
}
use wagr.Escrow.Calls.{sum, transact-keeps, run_distribute_payout_done}
use wagr.Escrow.Token.{Erc20}
use wagr.Escrow.Events.{
  received, refunded, distributed, received_from, refunded_to, payout_distributed, when,
}

module _ {T : Type 0} (erc20 : Erc20 T) (escrow : Escrow) where
  -- What came in for a league is there, paid out or given back; what a member paid is there or given
  -- back.
  pub record IsAccounted (c : Chain T) : Type 0 where
    pub leagues :
        (l : ℕ)
        → received l c.events ≡ c.league_totals l + (distributed l c.events + refunded l c.events)
    pub members : (l m : ℕ) → received_from l m c.events ≡ c.payments l m + refunded_to l m c.events

  run_pay_entry_fee-IsAccounted :
      (sender league amount : ℕ) (c c' : Chain T)
      → run_pay_entry_fee erc20 escrow sender league amount c ≡ done c'
      → IsAccounted c
      → IsAccounted c'
  unfolding run_pay_entry_fee received refunded distributed received_from refunded_to
  run_pay_entry_fee-IsAccounted sender league amount c c' e h = record {
    leagues = λ l. ground (arith, h.leagues l);
    members = λ l m. ground (arith, h.members l m);
  }

  run_claim_refund-IsAccounted :
      (sender league : ℕ) (c c' : Chain T)
      → run_claim_refund erc20 escrow sender league c ≡ done c'
      → IsAccounted c
      → IsAccounted c'
  unfolding run_claim_refund received refunded distributed received_from refunded_to
  run_claim_refund-IsAccounted sender league c c' e h = record {
    leagues = λ l. ground (arith, h.leagues l);
    members = λ l m. ground (arith, h.members l m);
  }

  -- What the loop of a payout leaves as it was, and what it adds to the events.
  pub record Pays (league total : ℕ) (c c' : Chain T) : Type 0 where
    pub payments : c'.payments ≡ c.payments
    pub league_totals : c'.league_totals ≡ c.league_totals
    pub received_same : (l : ℕ) → received l c'.events ≡ received l c.events
    pub refunded_same : (l : ℕ) → refunded l c'.events ≡ refunded l c.events
    pub received_from_same : (l m : ℕ) → received_from l m c'.events ≡ received_from l m c.events
    pub refunded_to_same : (l m : ℕ) → refunded_to l m c'.events ≡ refunded_to l m c.events
    pub distributed_more :
        (l : ℕ) → distributed l c'.events ≡ distributed l c.events + when (league == l) total

  pub pay_out-Pays :
      (league : ℕ) (recipients amounts : List ℕ) (c c' : Chain T)
      → length recipients ≡ length amounts
      → pay_out erc20 escrow league recipients amounts c ≡ done c'
      → Pays league (sum amounts) c c'
  unfolding pay_out received refunded distributed received_from refunded_to
  pay_out-Pays league [] [] c c' len e = record {
    payments = cc;
    league_totals = cc;
    received_same = λ l. cc;
    refunded_same = λ l. cc;
    received_from_same = λ l m. cc;
    refunded_to_same = λ l m. cc;
    distributed_more = λ l. ground arith;
  }
  pay_out-Pays league [] (amount ∷ amounts) c c' len e = absurd (omega arith)
  pay_out-Pays league (recipient ∷ recipients) [] c c' len e = cc
  pay_out-Pays league (recipient ∷ recipients) (amount ∷ amounts) c c' len e =
      let (tokens, called, paid) =
        answers_true (erc20.transfer escrow.usdc escrow.self recipient amount c.tokens)
          "payout transfer failed"
          (λ tokens. pay_out erc20 escrow league recipients amounts (record c {
            events = payout_distributed league recipient amount ∷ c.events;
            tokens = tokens;
          }))
          c' e in
      let rest =
        pay_out-Pays league recipients amounts
          (record c {
            events = payout_distributed league recipient amount ∷ c.events;
            tokens = tokens;
          })
          c' (omega arith) paid in
      record {
        payments = rest.payments;
        league_totals = rest.league_totals;
        received_same = rest.received_same;
        refunded_same = rest.refunded_same;
        received_from_same = rest.received_from_same;
        refunded_to_same = rest.refunded_to_same;
        distributed_more = λ l. ground (arith, rest.distributed_more l);
      }

  run_distribute_payout-IsAccounted :
      (sender league : ℕ) (recipients amounts : List ℕ) (c c' : Chain T)
      → run_distribute_payout erc20 escrow sender league recipients amounts c ≡ done c'
      → IsAccounted c
      → IsAccounted c'
  unfolding run_distribute_payout
  run_distribute_payout-IsAccounted sender league recipients amounts c c' e h =
      let paid = run_distribute_payout_done erc20 escrow sender league recipients amounts c c' e in
      let pays = pay_out-Pays league recipients amounts _ c' paid.same_length paid.loop in
      record {
        leagues = λ l. rw (pays.league_totals) (
            ground (
              arith,
              h.leagues l,
              paid.in_total,
              pays.received_same l,
              pays.refunded_same l,
              pays.distributed_more l,
            ));
        members = λ l m.
            rw (pays.payments) (
              omega (arith, h.members l m, pays.received_from_same l m, pays.refunded_to_same l m));
      }

  execute-IsAccounted :
      (sender : ℕ) (call : Call) (c c' : Chain T)
      → execute erc20 escrow sender call c ≡ done c'
      → IsAccounted c
      → IsAccounted c'
  unfolding execute run_emergency_withdraw
  execute-IsAccounted sender (pay_entry_fee league amount) c c' e h =
      run_pay_entry_fee-IsAccounted sender league amount c c' e h
  execute-IsAccounted sender (claim_refund league) c c' e h =
      run_claim_refund-IsAccounted sender league c c' e h
  execute-IsAccounted sender (distribute_payout league recipients amounts) c c' e h =
      run_distribute_payout-IsAccounted sender league recipients amounts c c' e h
  execute-IsAccounted sender (emergency_withdraw token amount) c c' e h = record {
    leagues = λ l. ground (arith, h.leagues l);
    members = λ l m. ground (arith, h.members l m);
  }

  -- After any call, also one that reverts.
  transact-IsAccounted :
      (sender : ℕ) (call : Call) (c : Chain T)
      → IsAccounted c
      → IsAccounted (transact erc20 escrow sender call c)
  transact-IsAccounted sender call c h =
      transact-keeps erc20 escrow IsAccounted sender call c h
        (λ c' e. execute-IsAccounted sender call c c' e h)

  run_all-IsAccounted :
      (calls : List (ℕ × Call)) (c : Chain T)
      → IsAccounted c
      → IsAccounted (run_all erc20 escrow calls c)
  unfolding run_all
  run_all-IsAccounted [] c h = h
  run_all-IsAccounted ((sender, call) ∷ calls) c h =
      run_all-IsAccounted calls (transact erc20 escrow sender call c)
        (transact-IsAccounted sender call c h)

  -- Whatever the token does, from the contract's creation on, after any calls by anyone, reverting
  -- ones included, the storage is what the events say: the total of a league is what was paid for it
  -- less what it paid out and gave back, and a member's payment is what the member paid for it less
  -- what the member got back.
  pub fresh-run_all :
      (calls : List (ℕ × Call)) (tokens : T)
      → IsAccounted (run_all erc20 escrow calls (fresh tokens))
  unfolding received refunded distributed received_from refunded_to
  fresh-run_all calls tokens =
      run_all-IsAccounted calls (fresh tokens)
        (record { leagues = λ l. refl; members = λ l m. refl })
