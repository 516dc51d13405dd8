-- ===== src/Oracle/Weekly/Insertion.antt =====
-- What one qualifier adds to the table, and that it is not added again.
use wagr.Common.{
  ℕ, String, none, some, Bool, true, ◌||◌, List, [], ◌∷◌, ◌++◌, any, ◌==◌, truthy_text, ◌≡◌, inl,
  inr, refl, ap, ◌∙◌, arith, Bool-cases, Option-cases, eq_refl, if◌then◌else◌,
}
use wagr.Go.{Returned, returns, fails}
use wagr.Oracle.SeasonEnd.{PayoutEntry, Member, find_last}
use wagr.Oracle.Weekly.Qualifiers.{Matchup}
use wagr.Oracle.Weekly.{
  Event, Table, World, Run, and_then, is_key, fresh_event, insert_event, record_one,
}

any-append {ℓ} :
    {A : Type ℓ} (p : A → Bool) (xs ys : List A) → any p (xs ++ ys) ≡ (any p xs || any p ys)
any-append p [] ys = refl
any-append p (x ∷ xs) ys = ground (arith, any-append p xs ys)

-- Every key that the first table has, the second has too.
unfoldable pub Keeps : List Event → List Event → Type 0
Keeps events events' =
    (week roster_id : ℕ) (payout_type : String)
    → any (is_key week roster_id payout_type) events ≡ true
    → any (is_key week roster_id payout_type) events' ≡ true

insert_event-Keeps :
    (w : World) (week : ℕ) (entry : PayoutEntry) (m : Matchup) (wallet : String) (t : Table)
    → Keeps t.events (insert_event w week entry m wallet t).1.events
unfolding insert_event Keeps
insert_event-Keeps w week entry m wallet t k r p h =
    elim (Option-cases (w.insert_fails m.roster_id entry.bonus_type)) [
      | inr (e, bad) ↦ ground (arith, bad, h)
      | inl fine ↦ ground (
        arith,
        fine,
        h,
        any-append (is_key k r p) t.events (fresh_event week entry m wallet t ∷ []),
      )
    ]

pub record_one-Keeps :
    (w : World) (members : List Member) (week : ℕ) (entry : PayoutEntry) (m : Matchup) (t : Table)
    → Keeps t.events (record_one w members week entry m t).1.events
unfolding record_one Keeps
record_one-Keeps w members week entry m t k r p h =
    elim (Option-cases (find_last (λ mb. mb.roster_id == m.roster_id) members)) [
      | inl nobody ↦ ground (arith, nobody, h)
      | inr (member, found) ↦
          ground
            (arith, found, h, insert_event-Keeps w week entry m member.wallet_address t k r p h)
    ]

-- The event of a qualifier is there, unless it has no member or no wallet.
abbrev pub is_recorded : List Member → (week : ℕ) → PayoutEntry → List Event → Matchup → Bool
is_recorded members week entry events m =
    elim (find_last (λ mb. mb.roster_id == m.roster_id) members) [
      | none ↦ true
      | some member ↦
          if truthy_text member.wallet_address
          then any (is_key week m.roster_id entry.bonus_type) events
          else true
    ]

insert_event-records :
    (w : World) (week : ℕ) (entry : PayoutEntry) (m : Matchup) (wallet : String) (t : Table)
    → (insert_event w week entry m wallet t).0 ≡ returns tt
    → any (is_key week m.roster_id entry.bonus_type) (insert_event w week entry m wallet t).1.events
      ≡ true
unfolding insert_event
insert_event-records w week entry m wallet t done =
    elim (Option-cases (w.insert_fails m.roster_id entry.bonus_type)) [
      | inr (e, bad) ↦ absurd (ground (arith, bad, done))
      | inl fine ↦ ground (
        arith,
        fine,
        any-append (is_key week m.roster_id entry.bonus_type) t.events
            (fresh_event week entry m wallet t ∷ []),
        eq_refl entry.bonus_type,
      )
    ]

pub record_one-is_recorded :
    (w : World) (members : List Member) (week : ℕ) (entry : PayoutEntry) (m : Matchup) (t : Table)
    → (record_one w members week entry m t).0 ≡ returns tt
    → is_recorded members week entry (record_one w members week entry m t).1.events m ≡ true
unfolding record_one
record_one-is_recorded w members week entry m t done =
    elim (Option-cases (find_last (λ mb. mb.roster_id == m.roster_id) members)) [
      | inl nobody ↦ ground (arith, nobody)
      | inr (member, found) ↦ elim (Bool-cases (truthy_text member.wallet_address)) [
        | inl real ↦ ground (
          arith,
          found,
          real,
          insert_event-records w week entry m member.wallet_address t
              (ground (arith, done, found, real)),
        )
        | inr empty ↦ ground (arith, found, empty)
      ]
    ]

-- What is recorded is not recorded again, whatever the database answers.
pub record_one-idle :
    (w : World) (members : List Member) (week : ℕ) (entry : PayoutEntry) (m : Matchup) (t : Table)
    → is_recorded members week entry t.events m ≡ true
    → (record_one w members week entry m t).1 ≡ t
unfolding record_one insert_event
record_one-idle w members week entry m t there =
    elim (Option-cases (find_last (λ mb. mb.roster_id == m.roster_id) members)) [
      | inl nobody ↦ ground (arith, nobody)
      | inr (member, found) ↦ ground (arith, found, there)
    ]

pub Keeps-refl : (events : List Event) → Keeps events events
unfolding Keeps
Keeps-refl events k r p h = h

Keeps-trans : (xs ys zs : List Event) → Keeps xs ys → Keeps ys zs → Keeps xs zs
unfolding Keeps
Keeps-trans xs ys zs f g k r p h = g k r p (f k r p h)

pub and_then-Keeps :
    (x : Returned (Unit {0}) × Table) (f : Run) (events : List Event)
    → Keeps events x.1.events
    → ((t : Table) → Keeps t.events (f t).1.events)
    → Keeps events (and_then x f).1.events
and_then-Keeps (fails e, t) f events h k = h
and_then-Keeps (returns u, t) f events h k = Keeps-trans events t.events _ h (k t)

pub and_then-done :
    (x : Returned (Unit {0}) × Table) (f : Run)
    → (and_then x f).0 ≡ returns tt
    → (x.0 ≡ returns tt) × (and_then x f ≡ f x.1)
and_then-done (fails e, t) f h = cc
and_then-done (returns u, t) f h = (refl, refl)

pub and_then-idle :
    (x : Returned (Unit {0}) × Table) (f : Run) (t : Table)
    → x.1 ≡ t
    → (f t).1 ≡ t
    → (and_then x f).1 ≡ t
and_then-idle (fails e, t') f t h k = h
and_then-idle (returns u, t') f t h k = ap (λ z. (f z).1) h ∙ k
