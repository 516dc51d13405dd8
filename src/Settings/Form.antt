-- ===== src/Settings/Form.antt =====
-- The form of src/web/src/pages/LeagueSettings.tsx: the handlers of its controls.
pub mod Rows
pub mod Places
pub mod Money
use Prim.Native.String.{◌++◌}
use wagr.Common.{
  ℕ, ◌+◌, max, String, Option, none, some, Bool, true, false, not, ◌&&◌, List, [], ◌∷◌, leb,
  if◌then◌else◌, or_default, truthy, truthy_text, length, get_elem?, push, modify_at, remove_at,
}
use wagr.Common.Int.{ℤ, pos, ◌*ℤ◌}
use wagr.Js.Effects.{
  Thrown, message_or, Result, ok, throw, Response, is_ok, Action, pure, await, raise, raise_if,
  try_catch, finally, modify, refuse_with_text, ◌>>=◌, ◌>>◌,
}
use wagr.Js.Number.{show, parse_int}
use wagr.Types.League.{
  BonusType, weekly_high_score, score_threshold, same_bonus, EntryType, placement, weekly,
  is_placement, is_weekly, PayoutEntry, BonusCriteria, LeagueSettings,
}
use wagr.Payouts.{
  placements, default_label_for_bonus_type, ordinal_label, half_up, normalize_entries,
  is_weekly_bonus,
}
use wagr.Settings.{Page}

pub update_row : ℕ → (PayoutEntry → PayoutEntry) → Page → Page
update_row index patch p = record p { payout_rows = modify_at index patch p.payout_rows }

pub remove_row : ℕ → Page → Page
remove_row index p = record p { payout_rows = remove_at index p.payout_rows }

abbrev pub max_allowed : Page → ℕ
max_allowed p = elim p.settings [ none ↦ half_up 0 | some s ↦ half_up s.total_rosters ]

-- `placements.reduce((m, r) => Math.max(m, r.place ?? 0), 0)`
unfoldable pub max_place : ℕ → List PayoutEntry → ℕ
max_place m [] = m
max_place m (r ∷ rows) = max_place (max m (or_default r.place 0)) rows

abbrev pub new_placement : ℕ → PayoutEntry
new_placement next_place = record {
  entry_type = some placement;
  bonus_type = none;
  label = ordinal_label next_place;
  place = some next_place;
  amount_cents = pos 0;
  weeks = none;
  criteria = none;
}

pub handle_add_placement : Page → Page
handle_add_placement p =
    if leb (max_allowed p) (length (placements p.payout_rows)) then p else record p {
      payout_rows = push p.payout_rows (new_placement (max_place 0 (placements p.payout_rows) + 1));
    }

abbrev pub new_weekly : PayoutEntry
new_weekly = record {
  entry_type = some weekly;
  bonus_type = some weekly_high_score;
  label = "Weekly High Score";
  place = none;
  amount_cents = pos 0;
  weeks = some (pos 14);
  criteria = none;
}

pub handle_add_weekly : Page → Page
handle_add_weekly p = record p { payout_rows = push p.payout_rows new_weekly }

-- `parseInt(e.target.value || '0', 10) || 0`
unfoldable pub whole_input : String → ℤ
whole_input text = or_default (parse_int 10 (if truthy_text text then text else "0")) (pos 0)

unfoldable pub money_input : String → ℤ
unfolding whole_input
money_input text = whole_input text *ℤ pos 100

pub set_entry_fee : String → Page → Page
unfolding money_input
set_entry_fee text p = record p { entry_fee_cents = money_input text }

pub choose_place : ℕ → ℕ → Page → Page
unfolding update_row
choose_place i chosen =
    update_row i (λ r. record r { place = some chosen; label = ordinal_label chosen })

pub set_amount : ℕ → String → Page → Page
unfolding update_row money_input
set_amount i text = update_row i (λ r. record r { amount_cents = money_input text })

abbrev pub threshold_of : Option BonusCriteria → Option ℤ
threshold_of none = none
threshold_of (some c) = c.threshold

-- The `onChange` of the bonus type; `row` is the row that is shown, so the one that is patched.
pub retype : BonusType → PayoutEntry → PayoutEntry
retype bt row = record row {
  bonus_type = some bt;
  label = default_label_for_bonus_type bt;
  weeks = if is_weekly_bonus (some bt) then some (or_default row.weeks (pos 14)) else none;
  criteria =
      if same_bonus bt score_threshold
      then some (record { threshold = some (or_default (threshold_of row.criteria) (pos 100)) })
      else none;
}

pub choose_bonus_type : ℕ → BonusType → Page → Page
unfolding update_row retype
choose_bonus_type i bt = update_row i (retype bt)

-- `n` is what `Number(e.target.value)` gives.
pub set_threshold : ℕ → ℤ → Page → Page
unfolding update_row
set_threshold i n = update_row i (λ r. record r { criteria = some (record { threshold = some n }) })

pub set_weeks : ℕ → String → Page → Page
unfolding update_row whole_input
set_weeks i text = update_row i (λ r. record r { weeks = some (whole_input text) })

-- What the user can do to the form.
pub data Edit : Type 0 where
  fee : String → Edit
  add_placement add_weekly : Edit
  remove : ℕ → Edit
  choose : ℕ → ℕ → Edit
  amount : ℕ → String → Edit
  bonus : ℕ → BonusType → Edit
  threshold : ℕ → ℤ → Edit
  weeks : ℕ → String → Edit

abbrev pub row_type : ℕ → Page → Option EntryType
row_type i p = elim (get_elem? p.payout_rows i) [ none ↦ none | some r ↦ r.entry_type ]

-- The tables have a control only where they show the row: the one of season payouts a row of type
-- `placement`, the one of bonuses a row of type `weekly`.
unfoldable pub offered : Edit → Page → Bool
offered (choose i n) p = is_placement (row_type i p)
offered (bonus i bt) p = is_weekly (row_type i p)
offered (threshold i n) p = is_weekly (row_type i p)
offered (weeks i text) p = is_weekly (row_type i p)
offered _ p = true

unfoldable pub edit : Edit → Page → Page
unfolding set_entry_fee handle_add_placement handle_add_weekly remove_row choose_place set_amount
    choose_bonus_type set_threshold set_weeks
edit (fee text) = set_entry_fee text
edit add_placement = handle_add_placement
edit add_weekly = handle_add_weekly
edit (remove i) = remove_row i
edit (choose i n) = choose_place i n
edit (amount i text) = set_amount i text
edit (bonus i bt) = choose_bonus_type i bt
edit (threshold i n) = set_threshold i n
edit (weeks i text) = set_weeks i text

pub act : Edit → Page → Page
unfolding offered
act e p = if offered e p then edit e p else p

pub act_all : List Edit → Page → Page
act_all [] p = p
act_all (e ∷ edits) p = act_all edits (act e p)
