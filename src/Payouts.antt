-- ===== src/Payouts.antt =====
-- The payout arithmetic and the labels of src/web/src/pages/LeagueSettings.tsx (lines 9 to 58).
pub mod Labels
pub mod Totals
pub mod Normalize
use Prim.Native.String.{◌++◌}
use wagr.Common.{
  ℕ, zero, suc, ◌+◌, ◌-◌, ◌/◌, ◌%◌, String, Option, none, some, Bool, true, false, ◌&&◌, List, [],
  ◌∷◌, leb, ◌==◌, if◌then◌else◌, or_default, truthy_text, find_first, any, keep_if,
}
use wagr.Common.Int.{ℤ, pos, negsuc, ◌+ℤ◌, ◌*ℤ◌}
use wagr.Js.Number.{show, show_ℤ}
use wagr.Types.League.{
  BonusType, weekly_high_score, score_threshold, highest_weekly_score, same_bonus, EntryType,
  placement, weekly, is_weekly, is_placement, PayoutEntry,
}

-- `BONUS_TYPE_OPTIONS`
abbrev pub bonus_type_options : List (BonusType × String)
bonus_type_options =
    (weekly_high_score, "Weekly High Score")
    ∷ (highest_weekly_score, "Highest Weekly Score")
    ∷ (score_threshold, "Score Threshold")
    ∷ []

-- The text of a tag of `BonusType`.
abbrev pub bonus_text : BonusType → String
bonus_text weekly_high_score = "weekly_high_score"
bonus_text score_threshold = "score_threshold"
bonus_text highest_weekly_score = "highest_weekly_score"

unfoldable pub default_label_for_bonus_type : BonusType → String
default_label_for_bonus_type bt = elim (find_first (λ o. same_bonus o.0 bt) bonus_type_options) [
  | none ↦ bonus_text bt
  | some o ↦ o.1
]

-- The end of an ordinal, by the last two digits and the last one.
pub ordinal_suffix : ℕ → String
ordinal_suffix n =
    let s = n % 100 in
    if leb 11 s && leb s 13
    then "th Place"
    else if n % 10 == 1
    then "st Place"
    else if n % 10 == 2
    then "nd Place"
    else if n % 10 == 3
    then "rd Place"
    else "th Place"

unfoldable pub ordinal_label : ℕ → String
unfolding ordinal_suffix
ordinal_label n = show n ++ ordinal_suffix n

-- `Math.ceil(n / 2)`
abbrev pub half_up : ℕ → ℕ
half_up n = (n + 1) / 2

-- `Array.from({ length }, (_, i) => i + 1)`, begun at `i`.
unfoldable pub count_up : ℕ → ℕ → List ℕ
count_up i zero = []
count_up i (suc length) = (i + 1) ∷ count_up (i + 1) length

unfoldable pub place_options : ℕ → List ℕ
unfolding count_up
place_options total_rosters = count_up 0 (half_up total_rosters)

-- The body of the `map` in `normalizeEntries`.
pub normalize_entry : PayoutEntry → ℕ → PayoutEntry
normalize_entry e i = record {
  entry_type = some (or_default e.entry_type placement);
  bonus_type =
      if is_weekly e.entry_type then some (or_default e.bonus_type weekly_high_score) else none;
  label =
      if truthy_text e.label
      then e.label
      else if is_weekly e.entry_type
      then default_label_for_bonus_type (or_default e.bonus_type weekly_high_score)
      else ordinal_label (or_default e.place (i + 1));
  place = e.place;
  amount_cents = e.amount_cents;
  weeks = e.weeks;
  criteria = e.criteria;
}

pub normalize_from : ℕ → List PayoutEntry → List PayoutEntry
normalize_from i [] = []
normalize_from i (e ∷ entries) = normalize_entry e i ∷ normalize_from (i + 1) entries

unfoldable pub normalize_entries : List PayoutEntry → List PayoutEntry
unfolding normalize_from normalize_entry
normalize_entries entries = normalize_from 0 entries

-- The `placements` and the `weekly` of the page: the rows of its two tables.
abbrev pub placements : List PayoutEntry → List PayoutEntry
placements = keep_if (λ r. is_placement r.entry_type)

abbrev pub bonuses : List PayoutEntry → List PayoutEntry
bonuses = keep_if (λ r. is_weekly r.entry_type)

-- `WEEKLY_BONUS_TYPES`
abbrev pub weekly_bonus_types : List BonusType
weekly_bonus_types = weekly_high_score ∷ score_threshold ∷ []

unfoldable pub is_weekly_bonus : Option BonusType → Bool
is_weekly_bonus bt = any (same_bonus (or_default bt weekly_high_score)) weekly_bonus_types

-- One round of the `reduce` in `totalPayout`.
pub add_row : ℤ → PayoutEntry → ℤ
unfolding is_weekly_bonus
add_row s r =
    if is_weekly r.entry_type && is_weekly_bonus r.bonus_type
    then s +ℤ r.amount_cents *ℤ or_default r.weeks (pos 0)
    else s +ℤ r.amount_cents

pub add_rows : ℤ → List PayoutEntry → ℤ
add_rows s [] = s
add_rows s (r ∷ rows) = add_rows (add_row s r) rows

unfoldable pub total_payout : List PayoutEntry → ℤ
unfolding add_rows add_row
total_payout rows = add_rows (pos 0) rows

-- `rowTotal` of a row of the bonus table.
unfoldable pub row_total : PayoutEntry → ℤ
unfolding is_weekly_bonus
row_total r =
    if is_weekly_bonus r.bonus_type
    then r.amount_cents *ℤ or_default r.weeks (pos 0)
    else r.amount_cents

-- `Math.round(cents / 100)`: to the nearest whole, a half going up.
unfoldable pub round_hundredths : ℤ → ℤ
round_hundredths (pos n) = pos ((n + 50) / 100)
round_hundredths (negsuc n) =
    let q = (suc n + 49) / 100 in elim q [ zero ↦ pos 0 | suc k ↦ negsuc k ]

unfoldable pub format_dollars : ℤ → String
unfolding round_hundredths
format_dollars cents = "$" ++ show_ℤ (round_hundredths cents)
