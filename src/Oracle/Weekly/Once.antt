-- ===== src/Oracle/Weekly/Once.antt =====
-- A week that was paid is not paid again.
use wagr.Common.{
  ℕ, false, List, [], keep_if, ◌≡◌, inl, inr, refl, sym, ap, subst, ◌∙◌, arith, Option-cases,
}
use wagr.Go.{Returned-cases, returns}
use wagr.Oracle.SeasonEnd.{PayoutEntry, OracleLeague, Member}
use wagr.Oracle.Weekly.Qualifiers.{Matchup, active}
use wagr.Oracle.Weekly.Insertion.{and_then-idle, and_then-done}
use wagr.Oracle.Weekly.Recording.{
  EntriesRecorded-Keeps, record_entries-EntriesRecorded, record_entries-idle,
}
use wagr.Oracle.Weekly.Wallets.{EventsReachable, MembersReachable, record_entries-EventsReachable}
use wagr.Oracle.Weekly.Marks.{Paid, pay_events-Paid, resolve_events-AllCovered}
use wagr.Oracle.Weekly.{
  Table, World, and_then, record_entries, is_due, pay_events, pay_due, process_weekly_payouts,
}

module _ (week : ℕ) (entries : List PayoutEntry) where
  pay_due-Paid :
      (w : World) (league : OracleLeague) (t : Table)
      → ((id : ℕ) → w.mark_fails id ≡ false)
      → EventsReachable w t.events
      → (pay_due w league week t).0 ≡ returns tt
      → Paid week t (pay_due w league week t).1
  unfolding pay_due
  pay_due-Paid w league t takes known done = elim (Option-cases w.load_fails) [
    | inr (e, bad) ↦ absurd (ground (arith, bad, done))
    | inl loads ↦
        let due = keep_if (is_due week) t.events in
        let went : pay_due w league week t ≡ pay_events w league due t = ground (arith, loads) in
        subst (λ x. Paid week t x.1) (sym went)
          (pay_events-Paid week w league due t takes refl
            (resolve_events-AllCovered week w t.events known) (ap (λ x. x.0) (sym went) ∙ done))
  ]

  pay_due-idle :
      (w : World) (league : OracleLeague) (t : Table)
      → keep_if (is_due week) t.events ≡ []
      → (pay_due w league week t).1 ≡ t
  unfolding pay_due pay_events
  pay_due-idle w league t nothing = elim (Option-cases w.load_fails) [
    | inr (e, bad) ↦ ground (arith, bad)
    | inl loads ↦ ground (arith, loads, nothing)
  ]

  -- What a run comes to once the platform and the database have answered.
  went_on :
      (w : World) (league : OracleLeague) (matchups : List Matchup) (members : List Member)
      (t : Table)
      → w.matchups ≡ returns matchups
      → w.members ≡ returns members
      → process_weekly_payouts w league entries week t
        ≡ and_then
            (record_entries w members week (active matchups) entries t)
            (pay_due w league week)
  unfolding process_weekly_payouts
  went_on w league matchups members t played loaded = ground (arith, played, loaded)

  -- After a run for a week that returned no error, in which every mark was written, and the wallets of
  -- the events in the table, and those that members have, have addresses, another run for the week, for which the platform and the database answer with the
  -- same matchups and members, changes nothing: it records no event, and does not call the contract.
  -- Whatever else answers it may answer otherwise.
  pub process_weekly_payouts-once :
      (w w' : World) (league : OracleLeague) (t : Table)
      → (process_weekly_payouts w league entries week t).0 ≡ returns tt
      → ((id : ℕ) → w.mark_fails id ≡ false)
      → EventsReachable w t.events
      → ((members : List Member) → w.members ≡ returns members → MembersReachable w members)
      → w'.matchups ≡ w.matchups
      → w'.members ≡ w.members
      → let t' = (process_weekly_payouts w league entries week t).1 in
        (process_weekly_payouts w' league entries week t').1 ≡ t'
  unfolding process_weekly_payouts
  process_weekly_payouts-once w w' league t done takes known reach played' loaded' =
      elim (Returned-cases w.matchups) [
        | inl (e, bad) ↦ absurd (ground (arith, bad, done))
        | inr (matchups, played) ↦ elim (Returned-cases w.members) [
          | inl (e, bad) ↦ absurd (ground (arith, played, bad, done))
          | inr (members, loaded) ↦
              let playing = active matchups in
              let went = went_on w league matchups members t played loaded in
              let (recorded, same) =
                and_then-done (record_entries w members week playing entries t)
                  (pay_due w league week) (ap (λ x. x.0) (sym went) ∙ done) in
              let t1 = (record_entries w members week playing entries t).1 in
              let t' = (pay_due w league week t1).1 in
              let (keeps, nothing) =
                pay_due-Paid w league t1 takes
                  (record_entries-EventsReachable w w members week (reach members loaded) playing
                    entries t known)
                  (ap (λ x. x.0) (sym (went ∙ same)) ∙ done) in
              let entered =
                EntriesRecorded-Keeps members week playing entries t1.events t'.events keeps
                  (record_entries-EntriesRecorded members week w playing entries t recorded) in
              subst (λ x. (process_weekly_payouts w' league entries week x.1).1 ≡ x.1)
                (sym (went ∙ same))
                (ap (λ x. x.1)
                    (went_on w' league matchups members t' (played' ∙ played) (loaded' ∙ loaded))
                  ∙ and_then-idle (record_entries w' members week playing entries t')
                      (pay_due w' league week) t'
                      (record_entries-idle members week w' playing entries t' entered)
                      (pay_due-idle w' league t' nothing))
        ]
      ]
