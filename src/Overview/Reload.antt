-- ===== src/Overview/Reload.antt =====
-- Whatever happens on the page, a reload finds the transactions that were pending.
use wagr.Common.{String, Bool, true, ◌≡◌, List, [], ◌∷◌, truthy, arith}
use wagr.Js.Effects.{Result, Response}
use wagr.Js.Storage.{Storage}
use wagr.Overview.{Page, Context, league_of, pending_tx_key, pending_refund_tx_key, initial}
use wagr.Overview.Sync.{InSync}
use wagr.Overview.Load.{Answers, fetch_all}
use wagr.Overview.Cancel.{handle_cancel_league, handle_reactivate_league}
use wagr.Overview.Pay.{handle_pay, handle_retry_confirm}
use wagr.Overview.Pay.InSync.{handle_pay-InSync, handle_retry_confirm-InSync}
use wagr.Overview.Refund.{
  handle_claim_refund, handle_retry_refund_confirm, handle_dismiss_pending_refund,
}
use wagr.Overview.Refund.InSync.{
  handle_claim_refund-InSync, handle_retry_refund_confirm-InSync,
  handle_dismiss_pending_refund-InSync,
}

-- What happens on the page: loading, and the handlers, with what the outside answers to each.
pub data Event : Type 0 where
  loads : Answers → Event
  pays : wagr.Overview.Pay.World → Event
  retries_payment : wagr.Overview.Pay.World → Event
  claims : wagr.Overview.Refund.World → Event
  retries_refund : wagr.Overview.Refund.World → Event
  dismisses : Event
  cancels : (confirmed : Bool) (answer : Result (Response (Unit {0}))) (now : String) → Event
  reactivates : (confirmed : Bool) (answer : Result (Response (Unit {0}))) → Event

abbrev pub run : Context → Event → Page → Page
run ctx (loads answers) p = fetch_all ctx answers p
run ctx (pays w) p = handle_pay ctx w p
run ctx (retries_payment w) p = handle_retry_confirm ctx w p
run ctx (claims w) p = handle_claim_refund ctx w p
run ctx (retries_refund w) p = handle_retry_refund_confirm ctx w p
run ctx dismisses p = handle_dismiss_pending_refund ctx p
run ctx (cancels confirmed answer now) p = handle_cancel_league ctx confirmed answer now p
run ctx (reactivates confirmed answer) p = handle_reactivate_league ctx confirmed answer p

abbrev pub run_all : Context → List Event → Page → Page
run_all ctx [] p = p
run_all ctx (e ∷ events) p = run_all ctx events (run ctx e p)

module _ (ctx : Context) (league : truthy ctx.league_id ≡ true) where
  fetch_all-InSync :
      (answers : Answers) (p : Page) → InSync ctx p → InSync ctx (fetch_all ctx answers p)
  unfolding fetch_all
  fetch_all-InSync answers p h = ground arith

  handle_cancel_league-InSync :
      (confirmed : Bool) (answer : Result (Response (Unit {0}))) (now : String) (p : Page)
      → InSync ctx p
      → InSync ctx (handle_cancel_league ctx confirmed answer now p)
  unfolding handle_cancel_league
  handle_cancel_league-InSync confirmed answer now p h = ground arith

  handle_reactivate_league-InSync :
      (confirmed : Bool) (answer : Result (Response (Unit {0}))) (p : Page)
      → InSync ctx p
      → InSync ctx (handle_reactivate_league ctx confirmed answer p)
  unfolding handle_reactivate_league
  handle_reactivate_league-InSync confirmed answer p h = ground arith

  run-InSync : (e : Event) (p : Page) → InSync ctx p → InSync ctx (run ctx e p)
  run-InSync (loads answers) p h = fetch_all-InSync answers p h
  run-InSync (pays w) p h = handle_pay-InSync ctx w league p h
  run-InSync (retries_payment w) p h = handle_retry_confirm-InSync ctx w league p h
  run-InSync (claims w) p h = handle_claim_refund-InSync ctx w league p h
  run-InSync (retries_refund w) p h = handle_retry_refund_confirm-InSync ctx w league p h
  run-InSync dismisses p h = handle_dismiss_pending_refund-InSync ctx league p h
  run-InSync (cancels confirmed answer now) p h =
      handle_cancel_league-InSync confirmed answer now p h
  run-InSync (reactivates confirmed answer) p h =
      handle_reactivate_league-InSync confirmed answer p h

  run_all-InSync :
      (events : List Event) (p : Page) → InSync ctx p → InSync ctx (run_all ctx events p)
  run_all-InSync [] p h = h
  run_all-InSync (e ∷ events) p h = run_all-InSync events (run ctx e p) (run-InSync e p h)

  initial-InSync : (store : Storage) → InSync ctx (initial ctx store)
  unfolding initial
  initial-InSync store = ground arith

  reload-InSync :
      (p : Page)
      → InSync ctx p
      → let q = initial ctx p.storage in
        (q.pending_tx_id ≡ p.pending_tx_id) × (q.pending_refund_tx_id ≡ p.pending_refund_tx_id)
  unfolding initial
  reload-InSync p h = rw league (h.payment, h.refund)

  -- From the first render of a league's page on, whatever its handlers do and whatever the server and
  -- the wallet answer: a reload, which starts from what local storage then holds, shows the same
  -- pending payment and the same pending refund as the page showed.
  pub reload-run_all :
      (store : Storage) (events : List Event)
      → let p = run_all ctx events (initial ctx store) in
        ((initial ctx p.storage).pending_tx_id ≡ p.pending_tx_id)
        × ((initial ctx p.storage).pending_refund_tx_id ≡ p.pending_refund_tx_id)
  reload-run_all store events =
      reload-InSync (run_all ctx events (initial ctx store))
        (run_all-InSync events (initial ctx store) (initial-InSync store))
