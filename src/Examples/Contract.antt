-- ===== src/Examples/Contract.antt =====
-- The contract, its token and its deployment at concrete values.
use wagr.Common.{ℕ, ◌+◌, ◌<◌, ◌≡◌, ◌≢◌, refl, [], ◌∷◌, arith}
use wagr.Evm.{done, revert, set, set_in, uint256_limit}
use wagr.Escrow.{
  Escrow, Chain, pay_entry_fee, claim_refund, distribute_payout, fresh, transact, run_all, execute,
  pay_out, run_pay_entry_fee, run_claim_refund, run_distribute_payout, add_amounts,
}
use wagr.Escrow.MockUsdc.{MockUsdc, mock_erc20, mock_erc20-IsErc20, transfer, transfer_from, move}
use wagr.Escrow.Accounting.{IsAccounted, fresh-run_all}
use wagr.Escrow.Solvency.{IsSolvent}
use wagr.Escrow.Reached.{Reached, created, called, Reached-IsSolvent}
use wagr.Escrow.Claims.{claim_refund_done, distribute_payout-claim_refund}
use wagr.Escrow.Pots.{Refines, transact-Refines}
use wagr.Escrow.Events.{distributed}
use wagr.Escrow.Payouts.{share, balance, distribute_payout_done}

abbrev pub escrow : Escrow
escrow = record { usdc = 429274; owner = 1; self = 77 }

-- The member 5 has 100 USDC and lets the contract take 50 of them.
abbrev pub tokens : ℕ → MockUsdc
tokens token = record {
  balance_of = set 5 100_000_000 (λ holder. 0);
  allowance = set_in 5 77 50_000_000 (λ holder spender. 0);
}

abbrev paid_chain : Chain (ℕ → MockUsdc)
paid_chain = transact mock_erc20 escrow 5 (pay_entry_fee 7 50_000_000) (fresh tokens)

-- The payment goes through, and the claim after it gives it back.
paid_chain-payments : paid_chain.payments 7 5 ≡ 50_000_000
unfolding transact execute run_pay_entry_fee transfer_from move uint256_limit
paid_chain-payments = refl

paid_chain-distributed : distributed 7 paid_chain.events ≡ 0
unfolding transact execute run_pay_entry_fee transfer_from move distributed uint256_limit
paid_chain-distributed = refl

paid_chain-balance : mock_erc20.balance_of 429274 5 paid_chain.tokens ≡ 50_000_000
unfolding transact execute run_pay_entry_fee transfer_from move uint256_limit
paid_chain-balance = refl

paid_chain-Reached : Reached mock_erc20 escrow paid_chain
paid_chain-Reached =
    called 5 (pay_entry_fee 7 50_000_000) (fresh tokens) (λ e. absurd (omega arith))
      (λ amount e. cc) (created tokens)

in_range : 50_000_000 + 50_000_000 < uint256_limit
unfolding uint256_limit
in_range = omega arith

fresh-run_all_example : IsAccounted mock_erc20 escrow (
    run_all mock_erc20 escrow
      ((5, pay_entry_fee 7 50_000_000)
        ∷ (1, distribute_payout 7 (5 ∷ []) (20_000_000 ∷ []))
        ∷ (5, claim_refund 7)
        ∷ [])
      (fresh tokens))
fresh-run_all_example =
    fresh-run_all mock_erc20 escrow
      ((5, pay_entry_fee 7 50_000_000)
        ∷ (1, distribute_payout 7 (5 ∷ []) (20_000_000 ∷ []))
        ∷ (5, claim_refund 7)
        ∷ [])
      tokens

Reached-IsSolvent_example : IsSolvent mock_erc20 escrow paid_chain
Reached-IsSolvent_example =
    Reached-IsSolvent mock_erc20 escrow mock_erc20-IsErc20 paid_chain paid_chain-Reached

claim_refund_done_example :
    (c' : Chain (ℕ → MockUsdc)) × (execute mock_erc20 escrow 5 (claim_refund 7) paid_chain
      ≡ done c')
    × (c'.payments 7 5 ≡ 0)
    × (mock_erc20.balance_of 429274 5 c'.tokens
        ≡ mock_erc20.balance_of 429274 5 paid_chain.tokens + paid_chain.payments 7 5)
claim_refund_done_example =
    claim_refund_done mock_erc20 escrow mock_erc20-IsErc20 5 7 paid_chain paid_chain-Reached
      paid_chain-distributed (λ e. absurd (omega arith)) (omega (arith, paid_chain-payments)) refl
      (omega (arith, in_range, paid_chain-payments, paid_chain-balance))

transact-Refines_example :
    Refines mock_erc20 escrow 7 5
      (claim_refund 7)
      paid_chain
      (transact mock_erc20 escrow 5 (claim_refund 7) paid_chain)
transact-Refines_example = transact-Refines mock_erc20 escrow 7 5 (claim_refund 7) paid_chain

-- A member to whom a part of the pot was paid out can still claim the whole entry fee, from what the
-- others paid in.
abbrev shared_tokens : ℕ → MockUsdc
shared_tokens token = record {
  balance_of = set 5 50_000_000 (set 6 50_000_000 (λ holder. 0));
  allowance = set_in 5 77 50_000_000 (set_in 6 77 50_000_000 (λ holder spender. 0));
}

abbrev paid_twice : Chain (ℕ → MockUsdc)
paid_twice =
    run_all mock_erc20 escrow
      ((5, pay_entry_fee 7 50_000_000)
        ∷ (6, pay_entry_fee 7 50_000_000)
        ∷ (1, distribute_payout 7 (5 ∷ []) (50_000_000 ∷ []))
        ∷ (5, claim_refund 7)
        ∷ [])
      (fresh shared_tokens)

paid_twice-balance : mock_erc20.balance_of 429274 5 paid_twice.tokens ≡ 100_000_000
unfolding run_all transact execute run_pay_entry_fee run_claim_refund run_distribute_payout pay_out
    add_amounts transfer transfer_from move uint256_limit
paid_twice-balance = refl

paid_twice-claim : execute mock_erc20 escrow 6 (claim_refund 7) paid_twice ≡ revert "Panic(0x11)"
unfolding run_all transact execute run_pay_entry_fee run_claim_refund run_distribute_payout pay_out
    add_amounts transfer transfer_from move uint256_limit
paid_twice-claim = refl

abbrev both_paid : Chain (ℕ → MockUsdc)
both_paid =
    transact mock_erc20 escrow 6 (pay_entry_fee 7 50_000_000)
      (transact mock_erc20 escrow 5 (pay_entry_fee 7 50_000_000) (fresh shared_tokens))

both_paid-Reached : Reached mock_erc20 escrow both_paid
both_paid-Reached =
    called 6 (pay_entry_fee 7 50_000_000) _ (λ e. absurd (omega arith)) (λ amount e. cc)
      (called 5 (pay_entry_fee 7 50_000_000) _ (λ e. absurd (omega arith)) (λ amount e. cc)
        (created shared_tokens))

-- What the owner’s payout to the member 5 leaves.
abbrev paid_out : Chain (ℕ → MockUsdc)
paid_out = transact mock_erc20 escrow 1 (distribute_payout 7 (5 ∷ []) (50_000_000 ∷ [])) both_paid

paid_out-done :
    execute mock_erc20 escrow 1 (distribute_payout 7 (5 ∷ []) (50_000_000 ∷ [])) both_paid
    ≡ done paid_out
unfolding transact execute run_pay_entry_fee run_distribute_payout pay_out add_amounts transfer
    transfer_from move uint256_limit
paid_out-done = refl

both_paid-payments : both_paid.payments 7 5 ≡ 50_000_000
unfolding transact execute run_pay_entry_fee transfer_from move uint256_limit
both_paid-payments = refl

both_paid-total : both_paid.league_totals 7 ≡ 100_000_000
unfolding transact execute run_pay_entry_fee transfer_from move uint256_limit
both_paid-total = refl

paid_out-balance : mock_erc20.balance_of 429274 5 paid_out.tokens ≡ 50_000_000
unfolding transact execute run_pay_entry_fee run_distribute_payout pay_out add_amounts transfer
    transfer_from move uint256_limit
paid_out-balance = refl

distribute_payout-claim_refund_example :
    (c'' : Chain (ℕ → MockUsdc)) × (execute mock_erc20 escrow 5 (claim_refund 7) paid_out
      ≡ done c'')
    × (mock_erc20.balance_of 429274 5 c''.tokens
        ≡ mock_erc20.balance_of 429274 5 paid_out.tokens + both_paid.payments 7 5)
distribute_payout-claim_refund_example =
    distribute_payout-claim_refund mock_erc20 escrow mock_erc20-IsErc20 1 5 7 (5 ∷ [])
      (50_000_000 ∷ []) both_paid paid_out both_paid-Reached paid_out-done
      (λ e. absurd (omega arith)) (λ e. absurd (omega arith)) (omega (arith, both_paid-payments))
      (omega (arith, both_paid-payments, both_paid-total)) refl
      (omega (arith, in_range, both_paid-payments, paid_out-balance))

-- The member 5 is named twice.
both_paid-room :
    (holder : ℕ)
    → balance mock_erc20 escrow holder both_paid + both_paid.league_totals 7 < uint256_limit
unfolding transact execute run_pay_entry_fee transfer_from move uint256_limit
both_paid-room holder = ground arith

distribute_payout_done_example :
    (c' : Chain (ℕ → MockUsdc)) × (execute mock_erc20 escrow 1
        (distribute_payout 7 (5 ∷ 6 ∷ 5 ∷ []) (30_000_000 ∷ 40_000_000 ∷ 20_000_000 ∷ []))
        both_paid
      ≡ done c')
    × (c'.league_totals 7 + 90_000_000 ≡ both_paid.league_totals 7)
    × ((holder : ℕ)
        → holder ≢ 77
        → balance mock_erc20 escrow holder c'
          ≡ balance mock_erc20 escrow holder both_paid
            + share holder (5 ∷ 6 ∷ 5 ∷ []) (30_000_000 ∷ 40_000_000 ∷ 20_000_000 ∷ []))
distribute_payout_done_example =
    distribute_payout_done mock_erc20 escrow mock_erc20-IsErc20 7 (5 ∷ 6 ∷ 5 ∷ [])
      (30_000_000 ∷ 40_000_000 ∷ 20_000_000 ∷ []) both_paid both_paid-Reached refl
      (omega (arith, both_paid-total)) (refl, (refl, (refl, tt))) both_paid-room
