-- ===== src/Overview/Confirm.antt =====
-- `confirmPaymentWithRetry` and `confirmRefundWithRetry`: the two loops differ in their texts and in
-- the state that shows the stage; `Poll` says which of them runs.
pub mod Laws
use Prim.Native.String.{◌++◌}
use wagr.Common.{ℕ, zero, suc, ◌+◌, String, Option, none, some, ◌∷◌, ◌==◌, ltb, push, if◌then◌else◌}
use wagr.Js.Effects.{
  Thrown, error, Result, ok, throw, Response, is_ok, Action, pure, await, raise_if, modify,
  refuse_with_text, ◌>>=◌, ◌>>◌,
}
use wagr.Js.Number.{show}
use wagr.Overview.{Effect, pause, Page, fetch}

pub data Poll : Type 0 where
  payment refund : Poll

abbrev pub endpoint : Poll → String
endpoint payment = "/confirm-payment"
endpoint refund = "/confirm-refund"

abbrev pub set_stage : Poll → Option String → Page → Page
set_stage payment stage p = record p { pay_stage = stage }
set_stage refund stage p = record p { refund_stage = stage }

abbrev pub later_stage : Poll → String
later_stage payment = "Confirming on-chain… ("
later_stage refund = "Confirming refund… ("

abbrev pub not_found : Poll → String
not_found payment =
    "On-chain payment not found — it may still be propagating. Use \"Confirm Existing Payment\" to retry."
not_found refund =
    "On-chain refund not confirmed — it may still be propagating. Use \"Confirm Existing Refund\" to retry."

abbrev pub failed : Poll → String
failed payment = "Confirmation failed ("
failed refund = "Refund confirmation failed ("

abbrev pub max_attempts : ℕ
max_attempts = 8

abbrev pub retry_ms : ℕ
retry_ms = 5000

pub stage_text : Poll → ℕ → String
stage_text poll attempt =
    if attempt == 1
    then "Waiting for on-chain confirmation…"
    else later_stage poll ++ (show attempt ++ ("/" ++ (show max_attempts ++ ")")))

-- What follows the loop.
unfoldable pub settle : Poll → Option (Response (Unit {0})) → Result (Unit {0})
settle poll none = throw (error "Confirmation failed")
settle poll (some res) =
    if res.status == 402
    then throw (error (not_found poll))
    else if res.status == 409
    then ok tt
    else refuse_with_text (failed poll ++ (show res.status ++ ")")) res

module _ (poll : Poll) (league_id tx_id : String) (answer : ℕ → Result (Response (Unit {0}))) where
  -- The part of a round before the test of the status.
  unfoldable pub round : ℕ → Action Page (Response (Unit {0}))
  unfolding stage_text
  round attempt = do
    modify (set_stage poll (some (stage_text poll attempt)))
    modify (λ p. record p { trace = if ltb 1 attempt then pause retry_ms ∷ p.trace else p.trace })
    fetch "POST" ("/api/leagues/" ++ (league_id ++ endpoint poll)) (some tx_id) (answer attempt)

  -- The rounds that are left, from `attempt` on; `last` is the `res` of the source.
  unfoldable pub rounds :
      ℕ → ℕ → Option (Response (Unit {0})) → Action Page (Option (Response (Unit {0})))
  rounds zero attempt last p = (ok last, p)
  rounds (suc left) attempt last p =
      let (result, p') = round attempt p in
      elim result [
        | throw e ↦ (throw e, p')
        | ok res ↦
            let again = rounds left (attempt + 1) (some res) p' in
            if res.status == 402 then again else (ok (some res), p')
      ]

  unfoldable pub confirm_with_retry : Action Page (Unit {0})
  unfolding settle
  confirm_with_retry = do last ← rounds max_attempts 1 none; await (settle poll last)
