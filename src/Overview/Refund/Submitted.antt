-- ===== src/Overview/Refund/Submitted.antt =====
-- The transaction that a claim of a refund has put into the page's trace.
use wagr.Common.{String, some, true, ◌≡◌, List, ◌∷◌, arith, inl, inr, truthy}
use wagr.Js.Effects.{ok}
use wagr.Js.Keeps.{Keeps}
use wagr.Types.Wallet.{WalletState}
use wagr.Hedera.{HederaStrategy, Transaction, refund_claim}
use wagr.Hedera.Transactions.{claim_refund_usdc_lem}
use wagr.Overview.{Context, Page, hedera_strategy, has_session, league_of}
use wagr.Overview.Submitted.{submitted, Sent, confirm_with_retry-Sent}
use wagr.Overview.Confirm.{Poll}
use wagr.Overview.Refund.{World, keep_pending, send, confirm, refund_steps, handle_claim_refund}
use wagr.Overview.Refund.Laws.{begun}

module _ (ctx : Context) (w : World) where
  confirm-Sent :
      (sent : List Transaction) (tx_id : String) → Keeps (Sent sent) (confirm ctx w tx_id)
  unfolding confirm
  confirm-Sent sent tx_id p h =
      ground
        (arith, confirm_with_retry-Sent sent Poll.refund (league_of ctx) tx_id w.confirmation p h)

  send-submitted :
      (strategy : HederaStrategy) (wallet_state : WalletState) (contract_id tx_id : String)
      (p : Page)
      → (send ctx strategy wallet_state contract_id w p).0 ≡ ok tx_id
      → Sent
          (refund_claim (league_of ctx) contract_id ∷ submitted p.trace)
          (send ctx strategy wallet_state contract_id w p).1
  unfolding send submitted
  send-submitted strategy wallet_state contract_id tx_id p accepted =
      elim (claim_refund_usdc_lem strategy w.sdk (league_of ctx) contract_id wallet_state) [
        | inl (sent, _) ↦ ground (arith, accepted, sent)
        | inr (thrown, _) ↦ absurd (ground (arith, accepted, thrown))
      ]

  -- A claim that the wallet has accepted has submitted one transaction, whatever becomes of its
  -- confirmation.
  pub handle_claim_refund-submitted :
      (strategy : HederaStrategy) (wallet_state : WalletState) (contract_id tx_id : String)
      (p : Page)
      → has_session ctx ≡ true
      → ctx.wallet_state ≡ some wallet_state
      → ctx.active_strategy ≡ some (hedera_strategy strategy)
      → w.contract_id ≡ some contract_id
      → truthy (some contract_id) ≡ true
      → (send ctx strategy wallet_state contract_id w (begun ctx w p)).0 ≡ ok tx_id
      → submitted (handle_claim_refund ctx w p).trace
        ≡ refund_claim (league_of ctx) contract_id ∷ submitted p.trace
  unfolding handle_claim_refund refund_steps keep_pending
  handle_claim_refund-submitted strategy wallet_state contract_id tx_id p session wallet hedera
        known real accepted =
      let q = (send ctx strategy wallet_state contract_id w (begun ctx w p)).1 in
      let sent = send-submitted strategy wallet_state contract_id tx_id (begun ctx w p) accepted in
      let kept = confirm-Sent _ tx_id (keep_pending ctx tx_id q) sent in
      ground (arith, session, wallet, hedera, known, accepted, kept)
