-- ===== src/Service/Payments/Handlers.antt =====
-- The routes of src/internal/league/handlers.go for payments: what each error becomes for the client.
-- The request has the claims of a session, or is refused; a body that does not decode is `none`. The
-- words that the service puts in front of another error's text are left out.
use Prim.Native.String.{◌++◌}
use wagr.Common.{ℕ, String, Option, none, some, truthy_text, if◌then◌else◌}
use wagr.Js.Effects.{Response, ok, throw, error}
use wagr.Go.{
  Error, Returned, returns, fails, other, not_commissioner, not_league_member, already_paid,
  payment_insufficient, league_already_cancelled, league_not_cancelled, missing_operator_key,
  insufficient_escrow,
}
use wagr.Database.{Database}
use wagr.Service.Payments.{
  World, PaymentInstructions, confirm_payment, confirm_refund, initiate_payment,
}
use wagr.Service.Payments.Commissioner.{cancel_league, reactivate_league}

-- `http.Error`, which ends the text with a line feed, and `w.WriteHeader(http.StatusNoContent)`.
abbrev pub http_error : ℕ → String → Response (Unit {0})
http_error status text = record { status = status; text = ok (text ++ "\n"); json = ok tt }

-- The same where the client would have read a body, which is no JSON.
abbrev pub refused {ℓ} : {A : Type ℓ} → ℕ → String → Response A
refused status text = record {
  status = status;
  text = ok (text ++ "\n");
  json = throw (error "Unexpected token in JSON");
}

abbrev pub no_content : Response (Unit {0})
no_content = record { status = 204; text = ok ""; json = ok tt }

-- `err.Error()`
abbrev pub error_text : Error → String
error_text not_commissioner = "user is not commissioner of this league"
error_text not_league_member = "user is not a member of this league"
error_text already_paid = "entry fee already paid"
error_text payment_insufficient = "on-chain payment amount is less than required entry fee"
error_text league_already_cancelled = "league is already cancelled"
error_text league_not_cancelled = "league is not cancelled"
error_text missing_operator_key = "operator key not configured for payout execution"
error_text insufficient_escrow = "total payouts exceed escrow balance"
error_text (other text) = text

abbrev pub payment_answer : Returned (Unit {0}) → Response (Unit {0})
payment_answer (returns _) = no_content
payment_answer (fails not_league_member) = http_error 404 "not a member of this league"
payment_answer (fails already_paid) = http_error 409 "already paid"
payment_answer (fails payment_insufficient) =
    http_error 402 "on-chain payment not found or insufficient"
payment_answer (fails e) = http_error 500 (error_text e)

abbrev pub refund_answer : Returned (Unit {0}) → Response (Unit {0})
refund_answer (returns _) = no_content
refund_answer (fails not_league_member) = http_error 404 "not a member of this league"
refund_answer (fails league_not_cancelled) = http_error 409 "league is not cancelled"
refund_answer (fails payment_insufficient) =
    http_error 402 "on-chain refund not confirmed -- it may still be propagating"
refund_answer (fails e) = http_error 500 (error_text e)

-- The checks of a request before the service is asked.
abbrev pub with_transaction :
    (claims transaction_id : Option String)
    → ((user_id transaction_id : String) → Response (Unit {0}) × Database)
    → Database
    → Response (Unit {0}) × Database
with_transaction none tx f db = (http_error 401 "unauthorized", db)
with_transaction (some user_id) none f db = (http_error 400 "invalid request body", db)
with_transaction (some user_id) (some tx) f db =
    if truthy_text tx then f user_id tx else (http_error 400 "transaction_id is required", db)

-- `ConfirmPayment` of the handler.
unfoldable pub handle_confirm_payment :
    World
    → String
    → (claims transaction_id : Option String) → Database
    → Response (Unit {0}) × Database
handle_confirm_payment w league_id claims transaction_id db =
    with_transaction claims transaction_id
      (λ user_id tx.
        let (r, db') = confirm_payment w league_id user_id tx db in (payment_answer r, db'))
      db

-- `ConfirmRefund` of the handler.
unfoldable pub handle_confirm_refund :
    World
    → String
    → (claims transaction_id : Option String) → Database
    → Response (Unit {0}) × Database
handle_confirm_refund w league_id claims transaction_id db =
    with_transaction claims transaction_id
      (λ user_id tx.
        let (r, db') = confirm_refund w league_id user_id tx db in (refund_answer r, db'))
      db

abbrev pub instructions_answer : Returned PaymentInstructions → Response PaymentInstructions
instructions_answer (returns instructions) = record {
  status = 200;
  text = ok "";
  json = ok instructions;
}
instructions_answer (fails not_league_member) = refused 404 "not a member of this league"
instructions_answer (fails already_paid) = refused 409 "already paid"
instructions_answer (fails e) = refused 400 (error_text e)

-- `InitiatePayment` of the handler.
unfoldable pub handle_initiate_payment :
    World → String → (claims : Option String) → Database → Response PaymentInstructions
handle_initiate_payment w league_id none db = refused 401 "unauthorized"
handle_initiate_payment w league_id (some user_id) db =
    instructions_answer (initiate_payment w db league_id user_id)

abbrev pub cancel_answer : Returned (Unit {0}) → Response (Unit {0})
cancel_answer (returns _) = no_content
cancel_answer (fails not_commissioner) = http_error 403 "forbidden: you are not the commissioner"
cancel_answer (fails league_already_cancelled) = http_error 409 "league is already cancelled"
cancel_answer (fails e) = http_error 500 (error_text e)

abbrev pub reactivate_answer : Returned (Unit {0}) → Response (Unit {0})
reactivate_answer (returns _) = no_content
reactivate_answer (fails not_commissioner) =
    http_error 403 "forbidden: you are not the commissioner"
reactivate_answer (fails league_not_cancelled) = http_error 409 "league is not cancelled"
reactivate_answer (fails e) = http_error 500 (error_text e)

-- `CancelLeague` and `ReactivateLeague` of the handler.
unfoldable pub handle_cancel_league :
    World → String → (claims : Option String) → Database → Response (Unit {0}) × Database
handle_cancel_league w league_id none db = (http_error 401 "unauthorized", db)
handle_cancel_league w league_id (some user_id) db =
    let (r, db') = cancel_league w league_id user_id db in (cancel_answer r, db')

unfoldable pub handle_reactivate_league :
    World → String → (claims : Option String) → Database → Response (Unit {0}) × Database
handle_reactivate_league w league_id none db = (http_error 401 "unauthorized", db)
handle_reactivate_league w league_id (some user_id) db =
    let (r, db') = reactivate_league w league_id user_id db in (reactivate_answer r, db')
