-- ===== src/Overview/Pay/InSync.antt =====
-- Paying and confirming a payment keep the page and local storage in step.
use wagr.Common.{
  String, Option, some, none, true, ◌≡◌, inl, inr, arith, truthy, or_default, eq_refl, ◌&&◌,
  Bool-cases,
}
use wagr.Js.Effects.{Action, modify, ◌>>◌}
use wagr.Js.Keeps.{Keeps, chain-Keeps}
use wagr.Types.Wallet.{WalletState}
use wagr.Hedera.{HederaStrategy}
use wagr.Overview.{
  Page, Context, ActiveStrategy, hedera_strategy, other_strategy, league_of, pending_tx_key,
  has_session,
}
use wagr.Overview.Sync.{InSync, InSync-same, keys_differ_back}
use wagr.Overview.Confirm.{payment, confirm_with_retry}
use wagr.Overview.Confirm.Laws.{confirm_with_retry-Confirmed}
use wagr.Overview.Pay.{
  World, mark_local_paid, keep_pending, send, confirm, pay_steps, guarded, pay_with, handle_pay,
  handle_retry_confirm,
}
use wagr.Overview.Pay.Laws.{send-SameBut}

module _ (ctx : Context) (w : World) (league : truthy ctx.league_id ≡ true) where
  mark_local_paid-InSync :
      (tx_id : String) (p : Page) → InSync ctx p → InSync ctx (mark_local_paid ctx tx_id p)
  unfolding mark_local_paid
  mark_local_paid-InSync tx_id p h = record {
    payment = ground (arith, eq_refl (pending_tx_key (league_of ctx)));
    refund = ground (arith, h.refund, keys_differ_back (league_of ctx));
  }

  keep_pending-InSync :
      (tx_id : String) (p : Page) → InSync ctx p → InSync ctx (keep_pending ctx tx_id p)
  unfolding keep_pending
  keep_pending-InSync tx_id p h = record {
    payment = ground (arith, eq_refl (pending_tx_key (league_of ctx)));
    refund = ground (arith, h.refund, keys_differ_back (league_of ctx));
  }

  confirm-InSync : (tx_id : String) → Keeps (InSync ctx) (confirm ctx w tx_id)
  unfolding confirm
  confirm-InSync tx_id =
      chain-Keeps (InSync ctx) (confirm_with_retry payment (league_of ctx) tx_id w.confirmation)
        (λ _. modify (mark_local_paid ctx tx_id) >> modify (λ p. record p { pay_stage = none }))
        (λ p h.
          InSync-same ctx
            (confirm_with_retry-Confirmed payment (league_of ctx) tx_id w.confirmation p).frame h)
        (λ _ p h.
          let marked = mark_local_paid-InSync tx_id p h in
          record { payment = marked.payment; refund = marked.refund })

  pay_steps-InSync :
      (strategy : HederaStrategy) (wallet_state : WalletState)
      → Keeps (InSync ctx) (pay_steps ctx strategy wallet_state w)
  unfolding pay_steps
  pay_steps-InSync strategy wallet_state =
      chain-Keeps (InSync ctx) (send ctx strategy wallet_state w)
        (λ tx_id. modify (keep_pending ctx tx_id) >> confirm ctx w tx_id)
        (λ p h. InSync-same ctx (send-SameBut ctx w strategy wallet_state p) h)
        (λ tx_id.
          chain-Keeps (InSync ctx) (modify (keep_pending ctx tx_id)) (λ _. confirm ctx w tx_id)
            (keep_pending-InSync tx_id) (λ _. confirm-InSync tx_id))

  guarded-InSync :
      (fallback : String) (steps : Action Page (Unit {0})) (p : Page)
      → Keeps (InSync ctx) steps
      → InSync ctx p
      → InSync ctx (guarded fallback steps p)
  unfolding guarded
  guarded-InSync fallback steps p keeps h =
      ground (arith, keeps (record p { pay_loading = true; pay_stage = none; pay_error = none }))

  pay_with-InSync :
      (wallet_state : Option WalletState) (strategy : Option ActiveStrategy) (p : Page)
      → InSync ctx p
      → InSync ctx (pay_with ctx wallet_state strategy w p)
  unfolding pay_with
  pay_with-InSync (some v) (some (hedera_strategy s)) p h =
      guarded-InSync "Payment failed" (pay_steps ctx s v w) p (pay_steps-InSync s v) h
  pay_with-InSync (some v) (some other_strategy) p h = ground arith
  pay_with-InSync _ _ p h = ground arith

  pub handle_pay-InSync : (p : Page) → InSync ctx p → InSync ctx (handle_pay ctx w p)
  unfolding handle_pay
  handle_pay-InSync p h = elim (Bool-cases (has_session ctx)) [
    | inl session ↦
        rw (session, handle_pay) (pay_with-InSync ctx.wallet_state ctx.active_strategy p h)
    | inr no_session ↦ rw (no_session, handle_pay) h
  ]

  pub handle_retry_confirm-InSync :
      (p : Page) → InSync ctx p → InSync ctx (handle_retry_confirm ctx w p)
  unfolding handle_retry_confirm
  handle_retry_confirm-InSync p h = elim (Bool-cases (has_session ctx && truthy p.pending_tx_id)) [
    | inl ready ↦
        rw (ready, handle_retry_confirm)
          (guarded-InSync "Confirmation failed" (confirm ctx w (or_default p.pending_tx_id "")) p
            (confirm-InSync (or_default p.pending_tx_id "")) h)
    | inr not_ready ↦ rw (not_ready, handle_retry_confirm) h
  ]
