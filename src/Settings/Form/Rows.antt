-- ===== src/Settings/Form/Rows.antt =====
-- The rows stay normalised whatever the user edits, and adding a row keeps the places apart.
use wagr.Common.{
  ℕ, ◌+◌, ◌≤◌, ◌<◌, max, ◌≡◌, refl, ◌⊎◌, inl, inr, some, true, false, List, [], ◌∷◌, arith, All,
  All-append, All-modify_at, All-remove_at, length, any, leb, ◌==◌, push, or_default, Bool-cases,
  get_elem?,
}
use wagr.Types.League.{BonusType, is_weekly, PayoutEntry, LeagueSettings}
use wagr.Payouts.{placements, half_up, place_options, total_payout}
use wagr.Payouts.Labels.{place_options_iff}
use wagr.Payouts.Totals.{total_payout-push}
use wagr.Payouts.Normalize.{
  IsNormal, truthy-ordinal_label, truthy-default_label, normalize_entries-IsNormal,
}
use wagr.Settings.{Page, accept}
use wagr.Settings.Form.{
  update_row, max_place, new_placement, handle_add_placement, Edit, offered, edit, act, act_all,
  retype, max_allowed,
}

RowsNormal : Page → Type 0
RowsNormal p = All IsNormal p.payout_rows

update_row-RowsNormal :
    (i : ℕ) (f : PayoutEntry → PayoutEntry) (p : Page)
    → ((r : PayoutEntry) → get_elem? p.payout_rows i ≡ some r → IsNormal r → IsNormal (f r))
    → RowsNormal p
    → RowsNormal (update_row i f p)
unfolding RowsNormal update_row
update_row-RowsNormal i f p k h = All-modify_at IsNormal i f p.payout_rows k h

new_placement-IsNormal : (n : ℕ) → IsNormal (new_placement n)
new_placement-IsNormal n = ground (arith, truthy-ordinal_label n)

retype-IsNormal :
    (bt : BonusType) (r : PayoutEntry)
    → is_weekly r.entry_type ≡ true
    → IsNormal r
    → IsNormal (retype bt r)
unfolding retype
retype-IsNormal bt r w h = ground (arith, truthy-default_label bt)

edit-RowsNormal : (e : Edit) (p : Page) → offered e p ≡ true → RowsNormal p → RowsNormal (edit e p)
unfolding edit offered RowsNormal
edit-RowsNormal (Edit.fee text) p o h = h
edit-RowsNormal Edit.add_placement p o h =
    elim (Bool-cases (leb (max_allowed p) (length (placements p.payout_rows)))) [
      | inl full ↦ rw (full, handle_add_placement) h
      | inr room ↦
          rw (room, handle_add_placement)
            (All-append IsNormal p.payout_rows _ h (new_placement-IsNormal _, tt))
    ]
edit-RowsNormal Edit.add_weekly p o h = All-append IsNormal p.payout_rows _ h (ground arith, tt)
edit-RowsNormal (Edit.remove i) p o h = All-remove_at IsNormal i p.payout_rows h
edit-RowsNormal (Edit.choose i n) p o h =
    All-modify_at IsNormal i _ p.payout_rows (λ r e k. ground (arith, truthy-ordinal_label n)) h
edit-RowsNormal (Edit.amount i text) p o h =
    All-modify_at IsNormal i _ p.payout_rows (λ r e k. ground arith) h
edit-RowsNormal (Edit.bonus i bt) p o h =
    All-modify_at IsNormal i (retype bt) p.payout_rows
      (λ r e k. retype-IsNormal bt r (ground arith) k) h
edit-RowsNormal (Edit.threshold i n) p o h =
    All-modify_at IsNormal i _ p.payout_rows (λ r e k. ground arith) h
edit-RowsNormal (Edit.weeks i text) p o h =
    All-modify_at IsNormal i _ p.payout_rows (λ r e k. ground arith) h

act-RowsNormal : (e : Edit) (p : Page) → RowsNormal p → RowsNormal (act e p)
unfolding act
act-RowsNormal e p h = elim (Bool-cases (offered e p)) [
  | inl o ↦ rw o (edit-RowsNormal e p o h)
  | inr o ↦ rw o h
]

act_all-RowsNormal : (es : List Edit) (p : Page) → RowsNormal p → RowsNormal (act_all es p)
unfolding act_all
act_all-RowsNormal [] p h = h
act_all-RowsNormal (e ∷ es) p h = act_all-RowsNormal es (act e p) (act-RowsNormal e p h)

-- Whatever the server replied and whatever the user then does to the form, every row has a type and
-- a label that is not empty, and has a bonus type exactly when it is a weekly one.
pub act_all-IsNormal :
    (reply : LeagueSettings) (es : List Edit) (p : Page)
    → All IsNormal (act_all es (accept reply p)).payout_rows
unfolding accept RowsNormal
act_all-IsNormal reply es p =
    act_all-RowsNormal es (accept reply p)
      (normalize_entries-IsNormal (or_default reply.payout_structure []))

le-max_place : (m : ℕ) (rows : List PayoutEntry) → m ≤ max_place m rows
unfolding max_place
le-max_place m [] = omega arith
le-max_place m (r ∷ rows) = omega (arith, le-max_place (max m (or_default r.place 0)) rows)

abbrev pub PlacedBelow : ℕ → PayoutEntry → Type 0
PlacedBelow n r = or_default r.place 0 < n

max_place-bound :
    (m : ℕ) (rows : List PayoutEntry) (n : ℕ) → max_place m rows < n → All (PlacedBelow n) rows
unfolding max_place
max_place-bound m [] n h = tt
max_place-bound m (r ∷ rows) n h = (
  omega (arith, le-max_place (max m (or_default r.place 0)) rows),
  max_place-bound (max m (or_default r.place 0)) rows n h,
)

-- Adding a season payout does nothing when half of the rosters (rounded up) or more have one.
-- Otherwise it appends one row of no cost, whose place is above the place of every other one, and
-- the total stays as it was.
pub handle_add_placement_lem :
    (p : Page)
    → ((max_allowed p ≤ length (placements p.payout_rows)) × (handle_add_placement p ≡ p))
      ⊎ ((length (placements p.payout_rows) < max_allowed p)
          × ((n : ℕ) × (handle_add_placement p
                ≡ record p { payout_rows = push p.payout_rows (new_placement n) })
              × All (PlacedBelow n) (placements p.payout_rows)
              × (total_payout (handle_add_placement p).payout_rows ≡ total_payout p.payout_rows)))
unfolding handle_add_placement
handle_add_placement_lem p =
    elim (Bool-cases (leb (max_allowed p) (length (placements p.payout_rows)))) [
      | inl full ↦ inl (ground arith, rw full)
      | inr room ↦ inr (
        ground arith,
        (
          max_place 0 (placements p.payout_rows) + 1,
          rw room,
          max_place-bound 0 (placements p.payout_rows) _ (omega arith),
          rw room (total_payout-push p.payout_rows _ refl),
        ),
      )
    ]

-- The place of an added row is not bounded by the places on offer: with settings, while rows can be
-- added, and once a row has the last of these places or a higher one, the row that is added has a
-- place that the drop-down does not list.
pub handle_add_placement_past_options :
    (p : Page) (s : LeagueSettings)
    → p.settings ≡ some s
    → length (placements p.payout_rows) < half_up s.total_rosters
    → half_up s.total_rosters ≤ max_place 0 (placements p.payout_rows)
    → (n : ℕ) × (handle_add_placement p
        ≡ record p { payout_rows = push p.payout_rows (new_placement n) })
      × (any (λ k. k == n) (place_options s.total_rosters) ≡ false)
unfolding handle_add_placement
handle_add_placement_past_options p s e room high = (
  max_place 0 (placements p.payout_rows) + 1,
  ground arith,
  elim (Bool-cases (
      any (λ k. k == max_place 0 (placements p.payout_rows) + 1) (place_options s.total_rosters))) [
        | inl listed ↦ absurd (omega (arith, (place_options_iff s.total_rosters _).0 listed))
        | inr missing ↦ missing
      ],
)
