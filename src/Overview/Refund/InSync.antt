-- ===== src/Overview/Refund/InSync.antt =====
-- Claiming and confirming a refund, and dismissing it, keep the page and local storage in step.
use wagr.Common.{
  String, Option, some, none, true, ◌≡◌, inl, inr, arith, truthy, or_default, eq_refl, ◌&&◌,
  Bool-cases,
}
use wagr.Js.Effects.{Action, modify, ◌>>◌}
use wagr.Js.Keeps.{Keeps, chain-Keeps}
use wagr.Types.Wallet.{WalletState}
use wagr.Hedera.{HederaStrategy}
use wagr.Overview.{
  Page, Context, ActiveStrategy, hedera_strategy, other_strategy, league_of, pending_refund_tx_key,
  has_session,
}
use wagr.Overview.Sync.{InSync, InSync-same, keys_differ}
use wagr.Overview.Confirm.{refund, confirm_with_retry}
use wagr.Overview.Confirm.Laws.{confirm_with_retry-Confirmed}
use wagr.Overview.Refund.{
  World, mark_local_refunded, keep_pending, send, confirm, refund_steps, guarded, claim_with,
  handle_claim_refund, handle_retry_refund_confirm, handle_dismiss_pending_refund,
}
use wagr.Overview.Refund.Laws.{send-SameBut}

module _ (ctx : Context) (w : World) (league : truthy ctx.league_id ≡ true) where
  mark_local_refunded-InSync :
      (tx_id : String) (p : Page) → InSync ctx p → InSync ctx (mark_local_refunded ctx tx_id p)
  unfolding mark_local_refunded
  mark_local_refunded-InSync tx_id p h = record {
    refund = ground (arith, eq_refl (pending_refund_tx_key (league_of ctx)));
    payment = ground (arith, h.payment, keys_differ (league_of ctx));
  }

  keep_pending-InSync :
      (tx_id : String) (p : Page) → InSync ctx p → InSync ctx (keep_pending ctx tx_id p)
  unfolding keep_pending
  keep_pending-InSync tx_id p h = record {
    refund = ground (arith, eq_refl (pending_refund_tx_key (league_of ctx)));
    payment = ground (arith, h.payment, keys_differ (league_of ctx));
  }

  confirm-InSync : (tx_id : String) → Keeps (InSync ctx) (confirm ctx w tx_id)
  unfolding confirm
  confirm-InSync tx_id =
      chain-Keeps (InSync ctx) (confirm_with_retry refund (league_of ctx) tx_id w.confirmation)
        (λ _.
          modify (mark_local_refunded ctx tx_id) >> modify (λ p. record p { refund_stage = none }))
        (λ p h.
          InSync-same ctx
            (confirm_with_retry-Confirmed refund (league_of ctx) tx_id w.confirmation p).frame h)
        (λ _ p h.
          let marked = mark_local_refunded-InSync tx_id p h in
          record { payment = marked.payment; refund = marked.refund })

  refund_steps-InSync :
      (strategy : HederaStrategy) (wallet_state : WalletState) (contract_id : String)
      → Keeps (InSync ctx) (refund_steps ctx strategy wallet_state contract_id w)
  unfolding refund_steps
  refund_steps-InSync strategy wallet_state contract_id =
      chain-Keeps (InSync ctx) (send ctx strategy wallet_state contract_id w)
        (λ tx_id. modify (keep_pending ctx tx_id) >> confirm ctx w tx_id)
        (λ p h. InSync-same ctx (send-SameBut ctx w strategy wallet_state contract_id p) h)
        (λ tx_id.
          chain-Keeps (InSync ctx) (modify (keep_pending ctx tx_id)) (λ _. confirm ctx w tx_id)
            (keep_pending-InSync tx_id) (λ _. confirm-InSync tx_id))

  guarded-InSync :
      (fallback : String) (steps : Action Page (Unit {0})) (p : Page)
      → Keeps (InSync ctx) steps
      → InSync ctx p
      → InSync ctx (guarded fallback steps p)
  unfolding guarded
  guarded-InSync fallback steps p keeps h =
      ground (
        arith,
        keeps (record p { refund_loading = true; refund_stage = none; refund_error = none }),
      )

  claim_with-InSync :
      (wallet_state : Option WalletState) (strategy : Option ActiveStrategy) (p : Page)
      → InSync ctx p
      → InSync ctx (claim_with ctx wallet_state strategy w p)
  unfolding claim_with
  claim_with-InSync (some v) (some (hedera_strategy s)) p h =
      elim (Bool-cases (truthy w.contract_id)) [
        | inl known ↦
            rw (known, claim_with)
              (guarded-InSync "Refund failed" (refund_steps ctx s v (or_default w.contract_id "") w)
                p (refund_steps-InSync s v (or_default w.contract_id "")) h)
        | inr unknown ↦ rw (unknown, claim_with) (ground arith)
      ]
  claim_with-InSync (some v) (some other_strategy) p h = ground arith
  claim_with-InSync _ _ p h = ground arith

  pub handle_claim_refund-InSync :
      (p : Page) → InSync ctx p → InSync ctx (handle_claim_refund ctx w p)
  unfolding handle_claim_refund
  handle_claim_refund-InSync p h = elim (Bool-cases (has_session ctx)) [
    | inl session ↦
        rw (session, handle_claim_refund)
          (claim_with-InSync ctx.wallet_state ctx.active_strategy p h)
    | inr no_session ↦ rw (no_session, handle_claim_refund) h
  ]

  pub handle_retry_refund_confirm-InSync :
      (p : Page) → InSync ctx p → InSync ctx (handle_retry_refund_confirm ctx w p)
  unfolding handle_retry_refund_confirm
  handle_retry_refund_confirm-InSync p h =
      elim (Bool-cases (has_session ctx && truthy p.pending_refund_tx_id)) [
        | inl ready ↦
            rw (ready, handle_retry_refund_confirm)
              (guarded-InSync "Confirmation failed"
                (confirm ctx w (or_default p.pending_refund_tx_id "")) p
                (confirm-InSync (or_default p.pending_refund_tx_id "")) h)
        | inr not_ready ↦ rw (not_ready, handle_retry_refund_confirm) h
      ]

module _ (ctx : Context) (league : truthy ctx.league_id ≡ true) where
  pub handle_dismiss_pending_refund-InSync :
      (p : Page) → InSync ctx p → InSync ctx (handle_dismiss_pending_refund ctx p)
  unfolding handle_dismiss_pending_refund
  handle_dismiss_pending_refund-InSync p h = record {
    payment = ground (arith, h.payment, keys_differ (league_of ctx));
    refund = ground (arith, eq_refl (pending_refund_tx_key (league_of ctx)));
  }
