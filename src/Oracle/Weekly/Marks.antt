-- ===== src/Oracle/Weekly/Marks.antt =====
-- After a payment that the database takes, no event of the week is left to pay.
use wagr.Common.{
  ℕ, String, Bool, true, false, not, ◌||◌, List, [], ◌∷◌, any, map, All, keep_if, ◌==◌, ◌≡◌, inl,
  inr, refl, sym, ap, subst, ◌∙◌, arith, Bool-cases, if◌then◌else◌,
}
use wagr.Go.{insufficient_escrow, Returned, Returned-cases, returns, fails}
use wagr.Service.Encoding.{uuid_to_bytes32}
use wagr.Common.Int.{ℤ, pos, ltb_ℤ}
use wagr.Service.Mirror.{encode_league_totals_call, hedera_account_to_evm, read_contract_payment}
use wagr.Oracle.SeasonEnd.{OracleLeague, total_of}
use wagr.Oracle.Weekly.Insertion.{Keeps}
use wagr.Oracle.Weekly.Wallets.{EventsReachable}
use wagr.Oracle.Weekly.{
  Event, Table, World, ResolvedEvent, is_key, is_due, resolve_event, resolve_events, mark_event,
  mark_events, pay_events, pay_resolved, check_escrow, execute, marked, add_call,
}

-- A mark changes no key.
any-mark_event :
    (w : World) (tx_hash : String) (id week roster_id : ℕ) (payout_type : String)
    (events : List Event)
    → any (is_key week roster_id payout_type) (map (mark_event w tx_hash id) events)
      ≡ any (is_key week roster_id payout_type) events
any-mark_event w tx_hash id week roster_id payout_type [] = refl
any-mark_event w tx_hash id week roster_id payout_type (ev ∷ events) =
    ground (arith, any-mark_event w tx_hash id week roster_id payout_type events)

mark_events-Keeps :
    (w : World) (tx_hash : String) (resolved : List ResolvedEvent) (events : List Event)
    → Keeps events (mark_events w tx_hash resolved events)
unfolding mark_events Keeps
mark_events-Keeps w tx_hash [] events k r p h = h
mark_events-Keeps w tx_hash (x ∷ resolved) events k r p h =
    mark_events-Keeps w tx_hash resolved (map (mark_event w tx_hash x.event_id) events) k r p
      (any-mark_event w tx_hash x.event_id k r p events ∙ h)

module _ (week : ℕ) where
  -- An event that is paid, or of another week, or among those that are being paid.
  abbrev pub is_covered : List ResolvedEvent → Event → Bool
  is_covered resolved ev = not (is_due week ev) || any (λ r. ev.id == r.event_id) resolved

  abbrev pub AllCovered : List ResolvedEvent → List Event → Type 0
  AllCovered resolved events = All (λ ev. is_covered resolved ev ≡ true) events

  -- After marks that the database takes, the events that they are for are paid.
  AllCovered-mark_event :
      (w : World) (tx_hash : String) (r : ResolvedEvent) (resolved : List ResolvedEvent)
      (events : List Event)
      → ((id : ℕ) → w.mark_fails id ≡ false)
      → AllCovered (r ∷ resolved) events
      → AllCovered resolved (map (mark_event w tx_hash r.event_id) events)
  AllCovered-mark_event w tx_hash r resolved [] takes h = tt
  AllCovered-mark_event w tx_hash r resolved (ev ∷ events) takes (p, h) = (
    ground (arith, takes r.event_id, p),
    AllCovered-mark_event w tx_hash r resolved events takes h,
  )

  none_due : (events : List Event) → AllCovered [] events → keep_if (is_due week) events ≡ []
  none_due [] h = refl
  none_due (ev ∷ events) (p, h) = ground (arith, p, none_due events h)

  mark_events-none_due :
      (w : World) (tx_hash : String) (resolved : List ResolvedEvent) (events : List Event)
      → ((id : ℕ) → w.mark_fails id ≡ false)
      → AllCovered resolved events
      → keep_if (is_due week) (mark_events w tx_hash resolved events) ≡ []
  unfolding mark_events
  mark_events-none_due w tx_hash [] events takes h = none_due events h
  mark_events-none_due w tx_hash (r ∷ resolved) events takes h =
      mark_events-none_due w tx_hash resolved (map (mark_event w tx_hash r.event_id) events) takes
        (AllCovered-mark_event w tx_hash r resolved events takes h)

  -- Where every wallet has an address, all events that are loaded are resolved.
  AllCovered-resolve :
      (w : World) (ev : Event) (resolved : List ResolvedEvent) (events : List Event)
      → AllCovered resolved events
      → AllCovered (resolve_event w ev resolved) events
  AllCovered-resolve w ev resolved [] h = tt
  AllCovered-resolve w ev resolved (x ∷ events) (p, h) =
      (ground (arith, p), AllCovered-resolve w ev resolved events h)

  pub resolve_events-AllCovered :
      (w : World) (events : List Event)
      → EventsReachable w events
      → AllCovered (resolve_events w (keep_if (is_due week) events)) events
  unfolding resolve_events
  resolve_events-AllCovered w [] known = tt
  resolve_events-AllCovered w (ev ∷ events) (here, known) =
      let rest = keep_if (is_due week) events in
      let ih = resolve_events-AllCovered w events known in
      elim (Bool-cases (is_due week ev)) [
        | inl due ↦
            let (addr, e) = here in
            let kept : keep_if (is_due week) (ev ∷ events) ≡ ev ∷ rest = ground (arith, due) in
            subst (λ ds. AllCovered (resolve_events w ds) (ev ∷ events)) (sym kept)
              (ground (arith, due, e), AllCovered-resolve w ev (resolve_events w rest) events ih)
        | inr other ↦
            let kept : keep_if (is_due week) (ev ∷ events) ≡ rest = ground (arith, other) in
            subst (λ ds. AllCovered (resolve_events w ds) (ev ∷ events)) (sym kept)
              (ground (arith, other), ih)
      ]

  -- What a payment that returned no error has done to the table.
  abbrev pub Paid : Table → Table → Type 0
  Paid t t' = Keeps t.events t'.events × (keep_if (is_due week) t'.events ≡ [])

  marked-Paid :
      (w : World) (resolved : List ResolvedEvent) (answer : Returned String) (t t' : Table)
      → ((id : ℕ) → w.mark_fails id ≡ false)
      → t'.events ≡ t.events
      → AllCovered resolved t.events
      → (marked w resolved answer t').0 ≡ returns tt
      → Paid t (marked w resolved answer t').1
  unfolding Keeps
  marked-Paid w resolved (fails e) t t' takes same covered done = cc
  marked-Paid w resolved (returns tx_hash) t t' takes same covered done = rw same (
    mark_events-Keeps w tx_hash resolved t.events,
    mark_events-none_due w tx_hash resolved t.events takes covered,
  )

  check_escrow-Paid :
      (w : World) (id : List ℕ) (resolved : List ResolvedEvent) (balance : Returned ℤ) (t : Table)
      → ((id : ℕ) → w.mark_fails id ≡ false)
      → AllCovered resolved t.events
      → (check_escrow w id resolved balance t).0 ≡ returns tt
      → Paid t (check_escrow w id resolved balance t).1
  check_escrow-Paid w id resolved (fails e) t takes covered done = cc
  check_escrow-Paid w id resolved (returns balance) t takes covered done =
      elim (Bool-cases
        (ltb_ℤ balance (total_of (pos 0) (map (λ (r : ResolvedEvent). r.amount) resolved)))) [
          | inl short ↦ absurd (ground (arith, short, done))
          | inr enough ↦
              let went =
                ap (λ b. if b then (fails insufficient_escrow, t) else execute w id resolved t)
                  enough in
              subst (λ x. Paid t x.1) (sym went)
                (marked-Paid w resolved _ t (add_call resolved t) takes refl covered
                  (ap (λ x. x.0) (sym went) ∙ done))
        ]

  pay_resolved-Paid :
      (w : World) (id contract : List ℕ) (resolved : List ResolvedEvent) (t : Table)
      → ((id : ℕ) → w.mark_fails id ≡ false)
      → AllCovered resolved t.events
      → (pay_resolved w id contract resolved t).0 ≡ returns tt
      → Paid t (pay_resolved w id contract resolved t).1
  unfolding Keeps
  pay_resolved-Paid w id contract [] t takes covered done =
      (λ k r p h. h, none_due t.events covered)
  pay_resolved-Paid w id contract (r ∷ resolved) t takes covered done =
      check_escrow-Paid w id (r ∷ resolved)
        (read_contract_payment w.mirror contract (encode_league_totals_call w.mirror id)) t takes
        covered done

  pub pay_events-Paid :
      (w : World) (league : OracleLeague) (due : List Event) (t : Table)
      → ((id : ℕ) → w.mark_fails id ≡ false)
      → keep_if (is_due week) t.events ≡ due
      → AllCovered (resolve_events w due) t.events
      → (pay_events w league due t).0 ≡ returns tt
      → Paid t (pay_events w league due t).1
  unfolding pay_events Keeps
  pay_events-Paid w league [] t takes same covered done = (λ k r p h. h, same)
  pay_events-Paid w league (ev ∷ events) t takes same covered done =
      elim (Returned-cases (uuid_to_bytes32 league.id)) [
        | inl (e, bad) ↦ absurd (ground (arith, bad, done))
        | inr (id, read) ↦ elim (Returned-cases (hedera_account_to_evm w.escrow_contract_id)) [
          | inl (e, bad) ↦ absurd (ground (arith, read, bad, done))
          | inr (contract, known) ↦
              let went : pay_events w league (ev ∷ events) t
                  ≡ pay_resolved w id contract (resolve_events w (ev ∷ events)) t =
                ground (arith, read, known) in
              subst (λ x. Paid t x.1) (sym went)
                (pay_resolved-Paid w id contract (resolve_events w (ev ∷ events)) t takes covered
                  (ap (λ x. x.0) (sym went) ∙ done))
        ]
      ]
