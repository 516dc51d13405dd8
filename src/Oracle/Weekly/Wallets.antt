-- ===== src/Oracle/Weekly/Wallets.antt =====
-- The wallets of a week: those that its events name, in the table that a run leaves too.
use wagr.Common.{
  ℕ, String, some, Bool, false, ◌⊎◌, inl, inr, List, [], ◌∷◌, All, All-append, any, ◌==◌, ◌≡◌, ◌++◌,
  subst, sym, arith, truthy_text, Bool-cases, Option-cases,
}
use wagr.Go.{Returned, returns, fails}
use wagr.Service.Mirror.{get_account_evm_address}
use wagr.Oracle.SeasonEnd.{PayoutEntry, Member, find_last}
use wagr.Oracle.Weekly.Qualifiers.{Matchup, weekly_qualifiers}
use wagr.Oracle.Weekly.{
  Event, Table, World, Run, and_then, is_key, fresh_event, insert_event, record_one,
  record_qualifiers, record_entries,
}

-- The account has an address.
abbrev pub HasAddress : World → String → Type 0
HasAddress w wallet = (addr : List ℕ) × (get_account_evm_address w.mirror wallet ≡ returns addr)

-- The wallet of every event of the table has an address.
abbrev pub EventsReachable : World → List Event → Type 0
EventsReachable w events = All (λ ev. HasAddress w ev.wallet_address) events

-- Every member has no wallet, or one that has an address.
abbrev pub MembersReachable : World → List Member → Type 0
MembersReachable w members =
    All (λ m. (truthy_text m.wallet_address ≡ false) ⊎ HasAddress w m.wallet_address) members

find_last-All {ℓ κ} :
    {A : Type ℓ} (P : A → Type κ) (p : A → Bool) (xs : List A) (y : A)
    → All P xs
    → find_last p xs ≡ some y
    → P y
unfolding find_last
find_last-All P p [] y h found = absurd (ground (arith, found))
find_last-All P p (x ∷ xs) y (px, h) found = elim (Option-cases (find_last p xs)) [
  | inr (z, later) ↦ find_last-All P p xs y h (ground (arith, found, later))
  | inl none_later ↦ elim (Bool-cases (p x)) [
    | inl here ↦ let same : x ≡ y = ground (arith, found, none_later, here) in subst P same px
    | inr other ↦ absurd (ground (arith, found, none_later, other))
  ]
]

and_then-EventsReachable :
    (v : World) (x : Returned (Unit {0}) × Table) (f : Run)
    → EventsReachable v x.1.events
    → ((t : Table) → EventsReachable v t.events → EventsReachable v (f t).1.events)
    → EventsReachable v (and_then x f).1.events
and_then-EventsReachable v (fails e, t) f h k = h
and_then-EventsReachable v (returns u, t) f h k = k t h

module _ (v w : World) (members : List Member) (week : ℕ) (reach : MembersReachable v members) where
  insert_event-EventsReachable :
      (entry : PayoutEntry) (m : Matchup) (wallet : String) (t : Table)
      → HasAddress v wallet
      → EventsReachable v t.events
      → EventsReachable v (insert_event w week entry m wallet t).1.events
  unfolding insert_event
  insert_event-EventsReachable entry m wallet t known h =
      elim (Option-cases (w.insert_fails m.roster_id entry.bonus_type)) [
        | inr (e, bad) ↦
            let same : insert_event w week entry m wallet t ≡ (fails e, t) = ground (arith, bad) in
            subst (λ x. EventsReachable v x.1.events) (sym same) h
        | inl fine ↦ elim (Bool-cases (any (is_key week m.roster_id entry.bonus_type) t.events)) [
          | inl there ↦
              let same : insert_event w week entry m wallet t ≡ (returns tt, t) =
                ground (arith, fine, there) in
              subst (λ x. EventsReachable v x.1.events) (sym same) h
          | inr fresh ↦
              let same : (insert_event w week entry m wallet t).1.events
                  ≡ t.events ++ (fresh_event week entry m wallet t ∷ []) =
                ground (arith, fine, fresh) in
              subst (EventsReachable v) (sym same)
                (All-append _ t.events (fresh_event week entry m wallet t ∷ []) h (known, tt))
        ]
      ]

  member_recorded :
      (entry : PayoutEntry) (m : Matchup) (member : Member) (t : Table)
      → find_last (λ mb. mb.roster_id == m.roster_id) members ≡ some member
      → HasAddress v member.wallet_address
      → EventsReachable v t.events
      → EventsReachable v (record_one w members week entry m t).1.events
  unfolding record_one
  member_recorded entry m member t found known h =
      elim (Bool-cases (truthy_text member.wallet_address)) [
        | inr empty ↦
            let same : record_one w members week entry m t ≡ (returns tt, t) =
              ground (arith, found, empty) in
            subst (λ x. EventsReachable v x.1.events) (sym same) h
        | inl real ↦
            let same : record_one w members week entry m t
                ≡ insert_event w week entry m member.wallet_address t =
              ground (arith, found, real) in
            subst (λ x. EventsReachable v x.1.events) (sym same)
              (insert_event-EventsReachable entry m member.wallet_address t known h)
      ]

  record_one-EventsReachable :
      (entry : PayoutEntry) (m : Matchup) (t : Table)
      → EventsReachable v t.events
      → EventsReachable v (record_one w members week entry m t).1.events
  unfolding record_one
  record_one-EventsReachable entry m t h =
      elim (Option-cases (find_last (λ mb. mb.roster_id == m.roster_id) members)) [
        | inl nobody ↦
            let same : record_one w members week entry m t ≡ (returns tt, t) =
              ground (arith, nobody) in
            subst (λ x. EventsReachable v x.1.events) (sym same) h
        | inr (member, found) ↦
            elim (find_last-All _ (λ mb. mb.roster_id == m.roster_id) members member reach found) [
              | inl empty ↦
                  let same : record_one w members week entry m t ≡ (returns tt, t) =
                    ground (arith, found, empty) in
                  subst (λ x. EventsReachable v x.1.events) (sym same) h
              | inr known ↦ member_recorded entry m member t found known h
            ]
      ]

  record_qualifiers-EventsReachable :
      (entry : PayoutEntry) (qualifiers : List Matchup) (t : Table)
      → EventsReachable v t.events
      → EventsReachable v (record_qualifiers w members week entry qualifiers t).1.events
  unfolding record_qualifiers
  record_qualifiers-EventsReachable entry [] t h = h
  record_qualifiers-EventsReachable entry (m ∷ qualifiers) t h =
      and_then-EventsReachable v (record_one w members week entry m t)
        (record_qualifiers w members week entry qualifiers) (record_one-EventsReachable entry m t h)
        (record_qualifiers-EventsReachable entry qualifiers)

  pub record_entries-EventsReachable :
      (matchups : List Matchup) (entries : List PayoutEntry) (t : Table)
      → EventsReachable v t.events
      → EventsReachable v (record_entries w members week matchups entries t).1.events
  unfolding record_entries
  record_entries-EventsReachable matchups [] t h = h
  record_entries-EventsReachable matchups (entry ∷ entries) t h =
      and_then-EventsReachable v
        (record_qualifiers w members week entry (weekly_qualifiers matchups entry) t)
        (record_entries w members week matchups entries)
        (record_qualifiers-EventsReachable entry (weekly_qualifiers matchups entry) t h)
        (record_entries-EventsReachable matchups entries)
