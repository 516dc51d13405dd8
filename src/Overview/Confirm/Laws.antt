-- ===== src/Overview/Confirm/Laws.antt =====
-- What the confirmation loop asks for, and how it ends.

use native.Mathlib.Nat.{add-zero}
use wagr.Common.{
  ℕ, zero, suc, ◌+◌, ◌<◌, ◌≡◌, refl, ap, ◌∙◌, sym, ◌⊎◌, inl, inr, String, Option, none, some, Bool,
  true, false, List, [], ◌∷◌, arith, ◌==◌, ==_iff, Bool-cases, if◌then◌else◌, ◌≤◌, ◌≢◌, subst,
}
use wagr.Js.Effects.{Thrown, Result, Result-cases, is_throw, ok, throw, Response, await}
use wagr.Overview.{Effect, request, transaction, Page}
use wagr.Overview.Confirm.{Poll, max_attempts, round, rounds, settle, confirm_with_retry}

-- How often an effect of one kind was recorded.
abbrev pub tally : (Effect → Bool) → List Effect → ℕ
tally kind [] = 0
tally kind (e ∷ trace) = if kind e then suc (tally kind trace) else tally kind trace

abbrev pub is_request : Effect → Bool
is_request (request method path body) = true
is_request _ = false

abbrev pub is_transaction : Effect → Bool
is_transaction (transaction tx) = true
is_transaction _ = false

-- All that the loop leaves alone: everything but the stages that are shown and the trace.
pub record SameBut (p q : Page) : Type 0 where
  pub detail : q.detail ≡ p.detail
  pub settings : q.settings ≡ p.settings
  pub loading : q.loading ≡ p.loading
  pub not_member : q.not_member ≡ p.not_member
  pub pay_loading : q.pay_loading ≡ p.pay_loading
  pub refund_loading : q.refund_loading ≡ p.refund_loading
  pub cancel_loading : q.cancel_loading ≡ p.cancel_loading
  pub reactivate_loading : q.reactivate_loading ≡ p.reactivate_loading
  pub error : q.error ≡ p.error
  pub pay_error : q.pay_error ≡ p.pay_error
  pub refund_error : q.refund_error ≡ p.refund_error
  pub pending_tx_id : q.pending_tx_id ≡ p.pending_tx_id
  pub pending_refund_tx_id : q.pending_refund_tx_id ≡ p.pending_refund_tx_id
  pub storage : q.storage ≡ p.storage

SameBut-trans : {p q s : Page} → SameBut p q → SameBut q s → SameBut p s
SameBut-trans f g = ground arith

module _ (poll : Poll) (league_id tx_id : String) (answer : ℕ → Result (Response (Unit {0}))) where
  -- The answer says that the transaction is not there yet.
  abbrev pub Pending : Result (Response (Unit {0})) → Type 0
  Pending r = (res : Response (Unit {0})) × (r ≡ ok res) × (res.status ≡ 402)

  -- The `k` answers from the one to `attempt` on are all of that kind.
  abbrev pub AllPending : ℕ → ℕ → Type 0
  AllPending attempt zero = Unit
  AllPending attempt (suc k) = Pending (answer attempt) × AllPending (attempt + 1) k

  abbrev pub latest : Result (Response (Unit {0})) → Result (Option (Response (Unit {0})))
  latest (ok res) = ok (some res)
  latest (throw e) = throw e

  -- The loop, begun at `attempt` with `left` rounds, ends after `k` answers that were pending and one
  -- more, which is not pending unless it is the last.
  record Ends (left attempt : ℕ) (p : Page) (result : Result (Option (Response (Unit {0}))))
      (q : Page) : Type 0 where
    k : ℕ
    within : k < left
    before : AllPending attempt k
    stop : (suc k ≡ left) ⊎ (¬ Pending (answer (attempt + k)))
    outcome : result ≡ latest (answer (attempt + k))
    requests : tally is_request q.trace ≡ tally is_request p.trace + suc k
    transactions : tally is_transaction q.trace ≡ tally is_transaction p.trace
    frame : SameBut p q

  -- What one round does to the page.
  abbrev Asked : Page → Page → Type 0
  Asked p q =
      (tally is_request q.trace ≡ tally is_request p.trace + 1)
      × (tally is_transaction q.trace ≡ tally is_transaction p.trace)
      × SameBut p q

  Ends-here :
      {left attempt : ℕ} {p q : Page} {result : Result (Option (Response (Unit {0})))}
      → 0 < left
      → (1 ≡ left) ⊎ (¬ Pending (answer attempt))
      → result ≡ latest (answer attempt)
      → Asked p q
      → Ends left attempt p result q
  Ends-here {attempt} h stop outcome (r, t, f) = record {
    k = 0;
    within = h;
    before = tt;
    stop = rw (add-zero attempt) stop;
    outcome = rw (add-zero attempt) outcome;
    requests = r;
    transactions = t;
    frame = f;
  }

  Ends-later :
      {left attempt : ℕ} {p q s : Page} {result : Result (Option (Response (Unit {0})))}
      → Pending (answer attempt)
      → Asked p q
      → Ends left (attempt + 1) q result s
      → Ends (suc left) attempt p result s
  Ends-later {attempt} pending (r, t, f) e =
      let shift : attempt + 1 + e.k ≡ attempt + suc e.k = omega arith in
      record {
        k = suc e.k;
        within = omega (arith, e.within);
        before = (pending, e.before);
        stop = elim e.stop [ inl x ↦ inl (ap suc x) | inr f ↦ inr (rw shift at f) ];
        outcome = rw shift at e.outcome;
        requests = omega (arith, e.requests);
        transactions = omega (arith, e.transactions);
        frame = SameBut-trans f e.frame;
      }

  round-answer :
      (attempt : ℕ) (p : Page) → (round poll league_id tx_id answer attempt p).0 ≡ answer attempt
  unfolding round
  round-answer attempt p = refl

  round-Asked : (attempt : ℕ) (p : Page) → Asked p (round poll league_id tx_id answer attempt p).1
  unfolding round
  round-Asked attempt p = (ground arith, ground arith, ground arith)

  thrown-not-Pending : {r : Result (Response (Unit {0}))} {e : Thrown} → r ≡ throw e → ¬ Pending r
  thrown-not-Pending bad (res, good, _) = cc

  other-not-Pending :
      {r : Result (Response (Unit {0}))} {res : Response (Unit {0})}
      → r ≡ ok res
      → (res.status == 402) ≡ false
      → ¬ Pending r
  other-not-Pending {res} good other (res', good', found) =
      let same : res ≡ res' = cc in ground (arith, ap (λ (x : Response (Unit {0})). x.status) same)

  -- After a pending answer the loop goes on, or it was the last round.
  again-Ends :
      (left attempt : ℕ) (p : Page) {res : Response (Unit {0})}
      → answer attempt ≡ ok res
      → res.status ≡ 402
      → let q = (round poll league_id tx_id answer attempt p).1 in
        let (result, s) = rounds poll league_id tx_id answer left (attempt + 1) (some res) q in
        (0 < left → Ends left (attempt + 1) q result s) → Ends (suc left) attempt p result s
  unfolding rounds
  again-Ends zero attempt p good found ih =
      Ends-here (omega arith) (inl refl) (sym (ap latest good)) (round-Asked attempt p)
  again-Ends (suc left) attempt p {res} good found ih =
      Ends-later (res, good, found) (round-Asked attempt p) (ih (omega arith))

  rounds-Ends :
      (left attempt : ℕ) (last : Option (Response (Unit {0}))) (p : Page)
      → 0 < left
      → let (result, q) = rounds poll league_id tx_id answer left attempt last p in
        Ends left attempt p result q
  unfolding rounds round
  rounds-Ends zero attempt last p h = absurd (omega arith)
  rounds-Ends (suc left) attempt last p h = elim (Result-cases (answer attempt)) [
    | inl (e, bad) ↦ rw (round-answer attempt p ∙ bad) (
        Ends-here (omega arith) (inr (thrown-not-Pending bad)) (sym (ap latest bad))
          (round-Asked attempt p))
    | inr (res, good) ↦ rw (round-answer attempt p ∙ good) (elim (Bool-cases (res.status == 402)) [
      | inl again ↦ rw again (
          again-Ends left attempt p good ((==_iff _ _).0 again) (
            rounds-Ends left (attempt + 1) (some res)
              (round poll league_id tx_id answer attempt p).1))
      | inr done ↦ rw done (
          Ends-here (omega arith) (inr (other-not-Pending good done)) (sym (ap latest good))
            (round-Asked attempt p))
    ])
  ]

  abbrev pub settled : Result (Response (Unit {0})) → Result (Unit {0})
  settled (ok res) = settle poll (some res)
  settled (throw e) = throw e

  finish : Result (Option (Response (Unit {0}))) → Page → Result (Unit {0}) × Page
  finish r q = elim r [ ok last ↦ await (settle poll last) q | throw e ↦ (throw e, q) ]

  -- How a confirmation ends by its last answer: an exception is thrown on, the status 409 and those
  -- from 200 to 299 confirm, and every other status throws.
  abbrev pub Concludes : Result (Response (Unit {0})) → Result (Unit {0}) → Type 0
  Concludes (throw e) result = result ≡ throw e
  Concludes (ok res) result =
      (res.status ≡ 409 → result ≡ ok tt)
      × (200 ≤ res.status → res.status ≤ 299 → result ≡ ok tt)
      × (res.status ≢ 409 → ¬ ((200 ≤ res.status) × (res.status ≤ 299)) → is_throw result ≡ true)

  -- The code after the loop concludes so.
  settled-Concludes : (r : Result (Response (Unit {0}))) → Concludes r (settled r)
  unfolding settle
  settled-Concludes (throw e) = refl
  settled-Concludes (ok res) =
      (λ h. ground (arith, h), λ h k. ground (arith, h, k), λ h k. ground (arith, h, k))

  -- What a confirmation does: it sends one request after another, up to eight. All answers but the
  -- last say 402. The last does not, unless it is the eighth, and it alone decides how the
  -- confirmation ends. No transaction is submitted, and of the page only the stage and the trace
  -- change.
  pub record Confirmed (p : Page) (result : Result (Unit {0})) (q : Page) : Type 0 where
    pub k : ℕ
    pub within : k < 8
    pub before : AllPending 1 k
    pub stop : (suc k ≡ 8) ⊎ (¬ Pending (answer (1 + k)))
    pub outcome : result ≡ settled (answer (1 + k))
    pub ends : Concludes (answer (1 + k)) result
    pub requests : tally is_request q.trace ≡ tally is_request p.trace + suc k
    pub transactions : tally is_transaction q.trace ≡ tally is_transaction p.trace
    pub frame : SameBut p q

  concludes :
      (k : ℕ) {result : Result (Unit {0})}
      → result ≡ settled (answer (1 + k))
      → Concludes (answer (1 + k)) result
  concludes k e = subst (Concludes (answer (1 + k))) (sym e) (settled-Concludes (answer (1 + k)))

  Confirmed-of_Ends :
      (p q : Page) (r : Result (Option (Response (Unit {0}))))
      → Ends max_attempts 1 p r q
      → let (result, s) = (finish r q) in Confirmed p result s
  unfolding finish
  Confirmed-of_Ends p q (ok last) e = record {
    k = e.k;
    within = e.within;
    before = e.before;
    stop = e.stop;
    outcome = ground (arith, e.outcome);
    ends = concludes (e.k) (ground (arith, e.outcome));
    requests = e.requests;
    transactions = e.transactions;
    frame = e.frame;
  }
  Confirmed-of_Ends p q (throw x) e = record {
    k = e.k;
    within = e.within;
    before = e.before;
    stop = e.stop;
    outcome = ground (arith, e.outcome);
    ends = concludes (e.k) (ground (arith, e.outcome));
    requests = e.requests;
    transactions = e.transactions;
    frame = e.frame;
  }

  -- A confirmation asks the server between one and eight times. Every answer before the last is a
  -- response with status 402, and the last is not, unless it is the eighth. The last answer decides:
  -- what is thrown is thrown on, the status 409 and those from 200 to 299 confirm, every other status
  -- throws. The loop submits no transaction, and changes nothing but the stage that is shown.
  pub confirm_with_retry-Confirmed :
      (p : Page)
      → let (result, q) = confirm_with_retry poll league_id tx_id answer p in Confirmed p result q
  unfolding confirm_with_retry finish
  confirm_with_retry-Confirmed p =
      let (r, q) = rounds poll league_id tx_id answer max_attempts 1 none p in
      Confirmed-of_Ends p q r (rounds-Ends max_attempts 1 none p (omega arith))
