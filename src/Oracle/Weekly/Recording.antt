-- ===== src/Oracle/Weekly/Recording.antt =====
-- What a run records of a week, and that a later run does not record it again.
use wagr.Common.{
  ℕ, true, List, [], ◌∷◌, All, ◌==◌, ◌≡◌, inl, inr, refl, sym, ap, subst, ◌∙◌, arith, Option-cases,
}
use wagr.Go.{returns}
use wagr.Oracle.SeasonEnd.{PayoutEntry, Member, find_last}
use wagr.Oracle.Weekly.Qualifiers.{Matchup, weekly_qualifiers}
use wagr.Oracle.Weekly.{Event, Table, World, record_one, record_qualifiers, record_entries}
use wagr.Oracle.Weekly.Insertion.{
  Keeps, record_one-Keeps, is_recorded, record_one-is_recorded, record_one-idle, Keeps-refl,
  and_then-Keeps, and_then-done, and_then-idle,
}

module _ (members : List Member) (week : ℕ) where
  abbrev pub AllRecorded : PayoutEntry → List Event → List Matchup → Type 0
  AllRecorded entry events matchups =
      All (λ m. is_recorded members week entry events m ≡ true) matchups

  is_recorded-Keeps :
      (entry : PayoutEntry) (m : Matchup) (events events' : List Event)
      → Keeps events events'
      → is_recorded members week entry events m ≡ true
      → is_recorded members week entry events' m ≡ true
  unfolding Keeps
  is_recorded-Keeps entry m events events' keeps h =
      elim (Option-cases (find_last (λ mb. mb.roster_id == m.roster_id) members)) [
        | inl nobody ↦ ground (arith, nobody)
        | inr (member, found) ↦ ground (arith, found, h, keeps week m.roster_id entry.bonus_type)
      ]

  AllRecorded-Keeps :
      (entry : PayoutEntry) (matchups : List Matchup) (events events' : List Event)
      → Keeps events events'
      → AllRecorded entry events matchups
      → AllRecorded entry events' matchups
  AllRecorded-Keeps entry [] events events' keeps h = tt
  AllRecorded-Keeps entry (m ∷ matchups) events events' keeps (p, h) = (
    is_recorded-Keeps entry m events events' keeps p,
    AllRecorded-Keeps entry matchups events events' keeps h,
  )

  record_qualifiers-Keeps :
      (w : World) (entry : PayoutEntry) (qualifiers : List Matchup) (t : Table)
      → Keeps t.events (record_qualifiers w members week entry qualifiers t).1.events
  unfolding record_qualifiers
  record_qualifiers-Keeps w entry [] t = Keeps-refl t.events
  record_qualifiers-Keeps w entry (m ∷ qualifiers) t =
      and_then-Keeps (record_one w members week entry m t)
        (record_qualifiers w members week entry qualifiers) t.events
        (record_one-Keeps w members week entry m t) (record_qualifiers-Keeps w entry qualifiers)

  record_qualifiers-AllRecorded :
      (w : World) (entry : PayoutEntry) (qualifiers : List Matchup) (t : Table)
      → (record_qualifiers w members week entry qualifiers t).0 ≡ returns tt
      → AllRecorded entry (record_qualifiers w members week entry qualifiers t).1.events qualifiers
  unfolding record_qualifiers
  record_qualifiers-AllRecorded w entry [] t done = tt
  record_qualifiers-AllRecorded w entry (m ∷ qualifiers) t done =
      let (first, same) =
        and_then-done (record_one w members week entry m t)
          (record_qualifiers w members week entry qualifiers) done in
      let t' = (record_one w members week entry m t).1 in
      subst (λ x. AllRecorded entry x.1.events (m ∷ qualifiers)) (sym same)
        (
          is_recorded-Keeps entry m t'.events _ (record_qualifiers-Keeps w entry qualifiers t')
              (record_one-is_recorded w members week entry m t first),
          record_qualifiers-AllRecorded w entry qualifiers t' (ap (λ x. x.0) (sym same) ∙ done),
        )

  record_qualifiers-idle :
      (w : World) (entry : PayoutEntry) (qualifiers : List Matchup) (t : Table)
      → AllRecorded entry t.events qualifiers
      → (record_qualifiers w members week entry qualifiers t).1 ≡ t
  unfolding record_qualifiers
  record_qualifiers-idle w entry [] t h = refl
  record_qualifiers-idle w entry (m ∷ qualifiers) t (p, h) =
      and_then-idle (record_one w members week entry m t)
        (record_qualifiers w members week entry qualifiers) t
        (record_one-idle w members week entry m t p) (record_qualifiers-idle w entry qualifiers t h)

  abbrev pub EntriesRecorded : List Matchup → List Event → List PayoutEntry → Type 0
  EntriesRecorded matchups events entries =
      All (λ entry. AllRecorded entry events (weekly_qualifiers matchups entry)) entries

  record_entries-Keeps :
      (w : World) (matchups : List Matchup) (entries : List PayoutEntry) (t : Table)
      → Keeps t.events (record_entries w members week matchups entries t).1.events
  unfolding record_entries
  record_entries-Keeps w matchups [] t = Keeps-refl t.events
  record_entries-Keeps w matchups (entry ∷ entries) t =
      and_then-Keeps (record_qualifiers w members week entry (weekly_qualifiers matchups entry) t)
        (record_entries w members week matchups entries) t.events
        (record_qualifiers-Keeps w entry (weekly_qualifiers matchups entry) t)
        (record_entries-Keeps w matchups entries)

  pub record_entries-EntriesRecorded :
      (w : World) (matchups : List Matchup) (entries : List PayoutEntry) (t : Table)
      → (record_entries w members week matchups entries t).0 ≡ returns tt
      → EntriesRecorded matchups (record_entries w members week matchups entries t).1.events entries
  unfolding record_entries
  record_entries-EntriesRecorded w matchups [] t done = tt
  record_entries-EntriesRecorded w matchups (entry ∷ entries) t done =
      let qualifiers = weekly_qualifiers matchups entry in
      let (first, same) =
        and_then-done (record_qualifiers w members week entry qualifiers t)
          (record_entries w members week matchups entries) done in
      let t' = (record_qualifiers w members week entry qualifiers t).1 in
      subst (λ x. EntriesRecorded matchups x.1.events (entry ∷ entries)) (sym same)
        (
          AllRecorded-Keeps entry qualifiers t'.events _
              (record_entries-Keeps w matchups entries t')
              (record_qualifiers-AllRecorded w entry qualifiers t first),
          record_entries-EntriesRecorded w matchups entries t' (ap (λ x. x.0) (sym same) ∙ done),
        )

  pub record_entries-idle :
      (w : World) (matchups : List Matchup) (entries : List PayoutEntry) (t : Table)
      → EntriesRecorded matchups t.events entries
      → (record_entries w members week matchups entries t).1 ≡ t
  unfolding record_entries
  record_entries-idle w matchups [] t h = refl
  record_entries-idle w matchups (entry ∷ entries) t (p, h) =
      and_then-idle (record_qualifiers w members week entry (weekly_qualifiers matchups entry) t)
        (record_entries w members week matchups entries) t
        (record_qualifiers-idle w entry (weekly_qualifiers matchups entry) t p)
        (record_entries-idle w matchups entries t h)

  pub EntriesRecorded-Keeps :
      (matchups : List Matchup) (entries : List PayoutEntry) (events events' : List Event)
      → Keeps events events'
      → EntriesRecorded matchups events entries
      → EntriesRecorded matchups events' entries
  EntriesRecorded-Keeps matchups [] events events' keeps h = tt
  EntriesRecorded-Keeps matchups (entry ∷ entries) events events' keeps (p, h) = (
    AllRecorded-Keeps entry (weekly_qualifiers matchups entry) events events' keeps p,
    EntriesRecorded-Keeps matchups entries events events' keeps h,
  )
