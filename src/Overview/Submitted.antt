-- ===== src/Overview/Submitted.antt =====
-- The transactions that the page has submitted, as its trace has them.
use wagr.Common.{ℕ, zero, suc, ◌+◌, String, Option, some, none, ◌≡◌, List, [], ◌∷◌, arith, inl, inr}
use wagr.Js.Effects.{Result, Result-cases, Response}
use wagr.Js.Keeps.{Keeps}
use wagr.Hedera.{Transaction}
use wagr.Overview.{Effect, transaction, Page}
use wagr.Overview.Confirm.{Poll, round, rounds, confirm_with_retry, max_attempts}

-- The transactions of a trace, the latest first as in the trace.
unfoldable pub submitted : List Effect → List Transaction
submitted [] = []
submitted (transaction tx ∷ trace) = tx ∷ submitted trace
submitted (_ ∷ trace) = submitted trace

-- The transactions are these.
abbrev pub Sent : List Transaction → Page → Type 0
Sent sent p = submitted p.trace ≡ sent

rounds-Sent :
    (sent : List Transaction) (poll : Poll) (league_id tx_id : String)
    (answer : ℕ → Result (Response (Unit {0}))) (left attempt : ℕ)
    (last : Option (Response (Unit {0})))
    → Keeps (Sent sent) (rounds poll league_id tx_id answer left attempt last)
unfolding rounds round submitted
rounds-Sent sent poll league_id tx_id answer zero attempt last p h = h
rounds-Sent sent poll league_id tx_id answer (suc left) attempt last p h =
    elim (Result-cases (answer attempt)) [
      | inl (e, failed) ↦ ground (arith, failed)
      | inr (res, answered) ↦ ground (
        arith,
        answered,
        rounds-Sent sent poll league_id tx_id answer left (attempt + 1) (some res)
            (round poll league_id tx_id answer attempt p).1,
      )
    ]

-- A confirmation submits nothing.
pub confirm_with_retry-Sent :
    (sent : List Transaction) (poll : Poll) (league_id tx_id : String)
    (answer : ℕ → Result (Response (Unit {0})))
    → Keeps (Sent sent) (confirm_with_retry poll league_id tx_id answer)
unfolding confirm_with_retry
confirm_with_retry-Sent sent poll league_id tx_id answer p h =
    ground (arith, rounds-Sent sent poll league_id tx_id answer max_attempts 1 none p h)
