-- ===== src/Examples/Payment.antt =====
-- Payments and refunds on the league's page at concrete values.
use wagr.Common.{◌≡◌, refl, ◌⊎◌, List, [], ◌∷◌, some, none, String, true}
use wagr.Js.Effects.{ok, is_throw}
use wagr.Js.Storage.{Storage}
use wagr.Overview.{
  Page, Context, initial, has_session, league_of, pending_tx_key, pending_refund_tx_key,
}
use wagr.Overview.Confirm.{confirm_with_retry}
use wagr.Overview.Confirm.Laws.{Confirmed, confirm_with_retry-Confirmed, tally, is_transaction}
use wagr.Overview.Pay.{handle_pay, handle_retry_confirm}
use wagr.Overview.Pay.Laws.{handle_pay_lem, handle_retry_confirm_lem}
use wagr.Overview.Refund.{handle_claim_refund, handle_retry_refund_confirm}
use wagr.Overview.Refund.Laws.{handle_claim_refund_lem, handle_retry_refund_confirm_lem}
use wagr.Overview.Refund.Revert.{mirror_tx_id}
use wagr.Js.Text.{codes, begins}
use wagr.Overview.Reload.{Event, pays, retries_payment, claims, dismisses, run_all, reload-run_all}
use wagr.Examples.{answer, wallet, strategy, sdk, context, page, instructions, third_time}

abbrev pub paying : wagr.Overview.Pay.World
paying = record { instructions = answer 200 instructions; sdk = sdk; confirmation = third_time }

abbrev pub claiming : wagr.Overview.Refund.World
claiming = record {
  contract_id = some "0.0.77";
  sdk = sdk;
  contract_result = λ id. answer 404 none;
  confirmation = third_time;
}

handle_pay_example :
    let result =
      (wagr.Overview.Pay.send context strategy wallet paying
        (wagr.Overview.Pay.Laws.begun context paying page)).0 in
    let q = handle_pay context paying page in
    ((is_throw result ≡ true) × wagr.Overview.Pay.Laws.Unsent context paying page q)
    ⊎ ((tx_id : String) × (result ≡ ok tx_id)
        × (wagr.Overview.Pay.Laws.Unconfirmed context paying tx_id page q
            ⊎ wagr.Overview.Pay.Laws.Settled context paying tx_id page q))
handle_pay_example = handle_pay_lem context paying strategy wallet page refl refl refl

handle_claim_refund_example :
    let result =
      (wagr.Overview.Refund.send context strategy wallet "0.0.77" claiming
        (wagr.Overview.Refund.Laws.begun context claiming page)).0 in
    let q = handle_claim_refund context claiming page in
    ((is_throw result ≡ true) × wagr.Overview.Refund.Laws.Unsent context claiming page q)
    ⊎ ((tx_id : String) × (result ≡ ok tx_id)
        × (wagr.Overview.Refund.Laws.Unconfirmed context claiming tx_id page q
            ⊎ wagr.Overview.Refund.Laws.Settled context claiming tx_id page q))
handle_claim_refund_example =
    handle_claim_refund_lem context claiming strategy wallet "0.0.77" page refl refl refl refl refl

-- Local storage with one transaction under every key.
abbrev stored : Storage
stored key = some "0.0.5@1"

abbrev waiting : Page
waiting = initial context stored

waiting_tx : waiting.pending_tx_id ≡ some "0.0.5@1"
unfolding initial
waiting_tx = refl

waiting_refund : waiting.pending_refund_tx_id ≡ some "0.0.5@1"
unfolding initial
waiting_refund = refl

waiting-storage : (key : String) → waiting.storage key ≡ some "0.0.5@1"
unfolding initial
waiting-storage key = refl

handle_retry_confirm_example :
    let q = handle_retry_confirm context paying waiting in
    (wagr.Overview.Pay.Laws.Unconfirmed context paying "0.0.5@1" waiting q
      ⊎ wagr.Overview.Pay.Laws.Settled context paying "0.0.5@1" waiting q)
    × (tally is_transaction q.trace ≡ tally is_transaction waiting.trace)
handle_retry_confirm_example =
    handle_retry_confirm_lem context paying "0.0.5@1" waiting refl refl waiting_tx
      (waiting-storage (pending_tx_key (league_of context)))

confirm_with_retry_example :
    let (result, q) =
      confirm_with_retry wagr.Overview.Confirm.payment "7" "0.0.5@1" third_time page in
    Confirmed wagr.Overview.Confirm.payment "7" "0.0.5@1" third_time page result q
confirm_with_retry_example =
    confirm_with_retry-Confirmed wagr.Overview.Confirm.payment "7" "0.0.5@1" third_time page

abbrev happens : List Event
happens = retries_payment paying ∷ pays paying ∷ dismisses ∷ claims claiming ∷ []

reload-run_all_example :
    let p = run_all context happens (initial context stored) in
    ((initial context p.storage).pending_tx_id ≡ p.pending_tx_id)
    × ((initial context p.storage).pending_refund_tx_id ≡ p.pending_refund_tx_id)
reload-run_all_example = reload-run_all context refl stored happens

-- The example of the source's comment.
mirror_tx_id-comment :
    mirror_tx_id (codes "… transaction 0.0.12345@1234567890.123456789 failed")
    ≡ some (codes "0.0.12345-1234567890-123456789")
unfolding mirror_tx_id begins
mirror_tx_id-comment = refl
