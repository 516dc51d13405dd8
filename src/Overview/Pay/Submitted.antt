-- ===== src/Overview/Pay/Submitted.antt =====
-- The transactions that a payment has put into the page's trace.
use wagr.Common.{String, some, true, ◌≡◌, List, ◌∷◌, arith, inl, inr}
use wagr.Js.Effects.{ok, Response}
use wagr.Js.Keeps.{Keeps}
use wagr.Types.League.{PaymentInstructions}
use wagr.Types.Wallet.{WalletState}
use wagr.Hedera.{HederaStrategy, Transaction, PayParams, payment}
use wagr.Hedera.Transactions.{first_step, pay_entry_fee_usdc_lem}
use wagr.Overview.{Page, Context, hedera_strategy, has_session, league_of}
use wagr.Overview.Submitted.{submitted, Sent, confirm_with_retry-Sent}
use wagr.Overview.Confirm.{Poll}
use wagr.Overview.Pay.{World, keep_pending, send, confirm, pay_steps, handle_pay}
use wagr.Overview.Pay.Laws.{begun}

-- What the page sends to the wallet, from the instructions of the server.
abbrev pub params_of : Context → WalletState → PaymentInstructions → PayParams
params_of ctx wallet_state instructions = record {
  league_id = league_of ctx;
  amount_usdc = instructions.amount_usdc;
  contract_id = instructions.contract_id;
  usdc_token_id = instructions.usdc_token_id;
  wallet_state = wallet_state;
}

module _ (ctx : Context) (w : World) where
  confirm-Sent :
      (sent : List Transaction) (tx_id : String) → Keeps (Sent sent) (confirm ctx w tx_id)
  unfolding confirm
  confirm-Sent sent tx_id p h =
      ground
        (arith, confirm_with_retry-Sent sent Poll.payment (league_of ctx) tx_id w.confirmation p h)

  send-submitted :
      (strategy : HederaStrategy) (wallet_state : WalletState) (res : Response PaymentInstructions)
      (instructions : PaymentInstructions) (tx_id : String) (p : Page)
      → w.instructions ≡ ok res
      → res.json ≡ ok instructions
      → (send ctx strategy wallet_state w p).0 ≡ ok tx_id
      → let params = params_of ctx wallet_state instructions in
        Sent
          (payment params ∷ first_step params ∷ submitted p.trace)
          (send ctx strategy wallet_state w p).1
  unfolding send submitted
  send-submitted strategy wallet_state res instructions tx_id p answered read accepted =
      elim (pay_entry_fee_usdc_lem strategy w.sdk (params_of ctx wallet_state instructions)) [
        | inl (sent, _) ↦ ground (arith, answered, read, accepted, sent)
        | inr (thrown, _) ↦ absurd (ground (arith, answered, read, accepted, thrown))
      ]

  -- A payment that the wallet has accepted has submitted the approval and the payment of what the server
  -- has asked for, and nothing else, whatever becomes of its confirmation.
  pub handle_pay-submitted :
      (strategy : HederaStrategy) (wallet_state : WalletState) (res : Response PaymentInstructions)
      (instructions : PaymentInstructions) (tx_id : String) (p : Page)
      → has_session ctx ≡ true
      → ctx.wallet_state ≡ some wallet_state
      → ctx.active_strategy ≡ some (hedera_strategy strategy)
      → w.instructions ≡ ok res
      → res.json ≡ ok instructions
      → (send ctx strategy wallet_state w (begun ctx w p)).0 ≡ ok tx_id
      → let params = params_of ctx wallet_state instructions in
        submitted (handle_pay ctx w p).trace
        ≡ payment params ∷ first_step params ∷ submitted p.trace
  unfolding handle_pay pay_steps keep_pending
  handle_pay-submitted strategy wallet_state res instructions tx_id p session wallet hedera answered
        read accepted =
      let q = (send ctx strategy wallet_state w (begun ctx w p)).1 in
      let sent =
        send-submitted strategy wallet_state res instructions tx_id (begun ctx w p) answered read
          accepted in
      let kept = confirm-Sent _ tx_id (keep_pending ctx tx_id q) sent in
      ground (arith, session, wallet, hedera, accepted, kept)
