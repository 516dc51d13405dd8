-- ===== src/Settings/View/Laws.antt =====
-- The rows that the form shows are those that its controls change.
use wagr.Common.{
  ℕ, zero, suc, ◌+◌, ◌<◌, ◌==◌, ◌≡◌, refl, Option, none, some, Bool, false, List, [], ◌∷◌, any,
  get_elem?, arith,
}
use wagr.Types.League.{BonusType, EntryType, PayoutEntry, is_placement, is_weekly, LeagueSettings}
use wagr.Settings.{Page}
use wagr.Settings.Form.{Edit, offered}
use wagr.Settings.View.{PlaceRow, place_rows, BonusRow, bonus_rows, form}

abbrev pub shows_place : ℕ → List PlaceRow → Bool
shows_place j = any (λ shown. shown.index == j)

abbrev pub shows_bonus : ℕ → List BonusRow → Bool
shows_bonus j = any (λ shown. shown.index == j)

abbrev type_at : ℕ → List PayoutEntry → Option EntryType
type_at k rows = elim (get_elem? rows k) [ none ↦ none | some r ↦ r.entry_type ]

place_rows_above :
    (n i j : ℕ) (rows : List PayoutEntry) → j < i → shows_place j (place_rows n i rows) ≡ false
unfolding place_rows
place_rows_above n i j [] above = refl
place_rows_above n i j (r ∷ rows) above =
    ground (arith, place_rows_above n (suc i) j rows (omega arith))

place_rows_at :
    (n i j k : ℕ) (rows : List PayoutEntry)
    → j ≡ i + k
    → shows_place j (place_rows n i rows) ≡ is_placement (type_at k rows)
unfolding place_rows
place_rows_at n i j k [] e = refl
place_rows_at n i j zero (r ∷ rows) e =
    ground (arith, place_rows_above n (suc i) j rows (omega arith))
place_rows_at n i j (suc k) (r ∷ rows) e =
    ground (arith, place_rows_at n (suc i) j k rows (omega arith))

bonus_rows_above :
    (i j : ℕ) (rows : List PayoutEntry) → j < i → shows_bonus j (bonus_rows i rows) ≡ false
unfolding bonus_rows
bonus_rows_above i j [] above = refl
bonus_rows_above i j (r ∷ rows) above =
    ground (arith, bonus_rows_above (suc i) j rows (omega arith))

bonus_rows_at :
    (i j k : ℕ) (rows : List PayoutEntry)
    → j ≡ i + k
    → shows_bonus j (bonus_rows i rows) ≡ is_weekly (type_at k rows)
unfolding bonus_rows
bonus_rows_at i j k [] e = refl
bonus_rows_at i j zero (r ∷ rows) e = ground (arith, bonus_rows_above (suc i) j rows (omega arith))
bonus_rows_at i j (suc k) (r ∷ rows) e =
    ground (arith, bonus_rows_at (suc i) j k rows (omega arith))

-- The form has a row with the list of places of an entry exactly where a place can be chosen for that
-- entry, and a row with the list of bonus types exactly where a type can be: the index that a row’s
-- controls pass on is the index of the entry that it shows.
pub form-offered :
    (p : Page) (s : LeagueSettings) (i place : ℕ) (bt : BonusType)
    → (shows_place i (form p s).places ≡ offered (Edit.choose i place) p)
      × (shows_bonus i (form p s).bonuses ≡ offered (Edit.bonus i bt) p)
unfolding form offered
form-offered p s i place bt = (
  place_rows_at s.total_rosters 0 i i p.payout_rows (omega arith),
  bonus_rows_at 0 i i p.payout_rows (omega arith),
)
