-- ===== src/Overview/Refund/Laws.antt =====
-- How a refund ends: no transaction that the wallet has accepted is lost.
use wagr.Common.{
  String, none, some, true, false, ◌≡◌, ◌⊎◌, inl, inr, arith, truthy, is_some, eq_refl,
}
use wagr.Js.Effects.{Result, Result-cases, ok, throw, is_throw}
use wagr.Types.League.{refunded}
use wagr.Types.Wallet.{WalletState}
use wagr.Hedera.{HederaStrategy}
use wagr.Overview.{
  Page, Context, hedera_strategy, has_session, league_of, pending_refund_tx_key, mark_detail,
}
use wagr.Overview.Confirm.{refund, confirm_with_retry}
use wagr.Overview.Confirm.Laws.{SameBut, confirm_with_retry-Confirmed, tally, is_transaction}
use wagr.Overview.Refund.{
  World, keep_pending, send, confirm, refund_steps, handle_claim_refund,
  handle_retry_refund_confirm,
}

module _ (ctx : Context) (w : World) where
  -- No transaction was accepted: what is stored and shown is as before, with an error.
  pub record Unsent (p q : Page) : Type 0 where
    pub told : is_some q.refund_error ≡ true
    pub ready : q.refund_loading ≡ false
    pub pending : q.pending_refund_tx_id ≡ p.pending_refund_tx_id
    pub storage : q.storage ≡ p.storage
    pub detail : q.detail ≡ p.detail

  -- The transaction is kept, on the page and in local storage, and the error is shown.
  pub record Unconfirmed (tx_id : String) (p q : Page) : Type 0 where
    pub told : is_some q.refund_error ≡ true
    pub ready : q.refund_loading ≡ false
    pub pending : q.pending_refund_tx_id ≡ some tx_id
    pub stored : q.storage (pending_refund_tx_key (league_of ctx)) ≡ some tx_id
    pub detail : q.detail ≡ p.detail

  -- The member is marked as refunded by the transaction, which is no longer pending.
  pub record Settled (tx_id : String) (p q : Page) : Type 0 where
    pub no_error : q.refund_error ≡ none
    pub ready : q.refund_loading ≡ false
    pub pending : q.pending_refund_tx_id ≡ none
    pub stored : q.storage (pending_refund_tx_key (league_of ctx)) ≡ none
    pub detail : q.detail ≡ mark_detail refunded ctx.user_id tx_id p.detail

  pub send-SameBut :
      (strategy : HederaStrategy) (wallet_state : WalletState) (contract_id : String) (p : Page)
      → SameBut p (send ctx strategy wallet_state contract_id w p).1
  unfolding send
  send-SameBut strategy wallet_state contract_id p = ground arith

  -- What the last step does, where it resolves and where it throws.
  abbrev ConfirmEnds : String → Page → Result (Unit {0}) → Page → Type 0
  ConfirmEnds tx_id p (ok _) q =
      (q.refund_error ≡ p.refund_error)
      × (q.pending_refund_tx_id ≡ none)
      × (q.storage (pending_refund_tx_key (league_of ctx)) ≡ none)
      × (q.detail ≡ mark_detail refunded ctx.user_id tx_id p.detail)
  ConfirmEnds tx_id p (throw e) q = SameBut p q

  confirm-ConfirmEnds :
      (tx_id : String) (p : Page)
      → truthy ctx.league_id ≡ true
      → ConfirmEnds tx_id p (confirm ctx w tx_id p).0 (confirm ctx w tx_id p).1
  unfolding confirm
  confirm-ConfirmEnds tx_id p h = ground (
    arith,
    confirm_with_retry-Confirmed refund (league_of ctx) tx_id w.confirmation p,
    eq_refl (pending_refund_tx_key (league_of ctx)),
  )

  -- The page as `handleClaimRefund` and `handleRetryRefundConfirm` begin their steps.
  abbrev pub begun : Page → Page
  begun p = record p { refund_loading = true; refund_stage = none; refund_error = none }

  -- With a session, a Hedera wallet and a contract that is set, a claim ends in one of three ways.
  -- Where the wallet accepts
  -- no transaction, an error is shown, and the pending transaction, local storage and the league that
  -- is shown are as before. Where it accepts one, the
  -- transaction is either kept as pending, on the page and in local storage, with an error; or the
  -- member is marked as refunded by it, and nothing is pending. Either way the button works again.
  pub handle_claim_refund_lem :
      (strategy : HederaStrategy) (wallet_state : WalletState) (contract_id : String) (p : Page)
      → has_session ctx ≡ true
      → ctx.wallet_state ≡ some wallet_state
      → ctx.active_strategy ≡ some (hedera_strategy strategy)
      → w.contract_id ≡ some contract_id
      → truthy (some contract_id) ≡ true
      → let result = (send ctx strategy wallet_state contract_id w (begun p)).0 in
        let q = handle_claim_refund ctx w p in
        ((is_throw result ≡ true) × Unsent p q)
        ⊎ ((tx_id : String) × (result ≡ ok tx_id) × (Unconfirmed tx_id p q ⊎ Settled tx_id p q))
  unfolding handle_claim_refund refund_steps
  handle_claim_refund_lem strategy wallet_state contract_id p session wallet hedera known real =
      let (result, q) = send ctx strategy wallet_state contract_id w (begun p) in
      let same = send-SameBut strategy wallet_state contract_id (begun p) in
      elim (Result-cases (send ctx strategy wallet_state contract_id w (begun p)).0) [
        | inl (e, failed) ↦ inl (ground arith, ground (arith, same))
        | inr (tx_id, sent) ↦
            let ends = confirm-ConfirmEnds tx_id (keep_pending ctx tx_id q) in
            inr (
              tx_id,
              sent,
              elim (Result-cases (confirm ctx w tx_id (keep_pending ctx tx_id q)).0) [
                | inl (e, failed) ↦
                    inl
                      (ground (arith, same, ends, eq_refl (pending_refund_tx_key (league_of ctx))))
                | inr (u, done) ↦ inr (ground (arith, same, ends))
              ],
            )
      ]

  confirm_asks_nothing :
      (tx_id : String) (p : Page)
      → tally is_transaction (confirm ctx w tx_id p).1.trace ≡ tally is_transaction p.trace
  unfolding confirm
  confirm_asks_nothing tx_id p =
      ground (arith, confirm_with_retry-Confirmed refund (league_of ctx) tx_id w.confirmation p)

  -- With a session and a refund that is pending, on the page and in local storage: confirming it again
  -- never submits a transaction, connected wallet or not; and it stays pending, with an error, or it
  -- settles.
  pub handle_retry_refund_confirm_lem :
      (tx_id : String) (p : Page)
      → has_session ctx ≡ true
      → truthy (some tx_id) ≡ true
      → p.pending_refund_tx_id ≡ some tx_id
      → p.storage (pending_refund_tx_key (league_of ctx)) ≡ some tx_id
      → let q = handle_retry_refund_confirm ctx w p in
        (Unconfirmed tx_id p q ⊎ Settled tx_id p q)
        × (tally is_transaction q.trace ≡ tally is_transaction p.trace)
  unfolding handle_retry_refund_confirm
  handle_retry_refund_confirm_lem tx_id p session real pending stored =
      let ends = confirm-ConfirmEnds tx_id (begun p) in
      let asks = confirm_asks_nothing tx_id (begun p) in
      elim (Result-cases (confirm ctx w tx_id (begun p)).0) [
        | inl (e, failed) ↦ (inl (ground (arith, ends)), ground (arith, asks))
        | inr (u, done) ↦ (inr (ground (arith, ends)), ground (arith, asks))
      ]

  -- If the confirmation of a pending transaction resolves, the page is settled.
  pub handle_retry_refund_confirm-Settled :
      (tx_id : String) (p : Page)
      → has_session ctx ≡ true
      → truthy (some tx_id) ≡ true
      → p.pending_refund_tx_id ≡ some tx_id
      → (confirm_with_retry refund (league_of ctx) tx_id w.confirmation (begun p)).0 ≡ ok tt
      → Settled tx_id p (handle_retry_refund_confirm ctx w p)
  unfolding handle_retry_refund_confirm confirm
  handle_retry_refund_confirm-Settled tx_id p session real pending resolved =
      let ends = confirm-ConfirmEnds tx_id (begun p) in ground (arith, ends, resolved)
