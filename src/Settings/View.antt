-- ===== src/Settings/View.antt =====
-- What src/web/src/pages/LeagueSettings.tsx shows of its state: the form of the commissioner, with the
-- rows of its two tables, and the page of any other member.
pub mod Laws
use Prim.Native.String.{◌++◌}
use wagr.Common.{
  ℕ, zero, suc, String, Option, none, some, Bool, true, false, not, ◌&&◌, List, [], ◌∷◌, map,
  length, leb, or_default, truthy, if◌then◌else◌,
}
use wagr.Common.Int.{ℤ, pos, ◌*ℤ◌}
use wagr.Js.Number.{show_ℤ}
use wagr.Types.League.{
  BonusType, score_threshold, weekly_high_score, BonusCriteria, EntryType, is_placement, is_weekly,
  PayoutEntry, LeagueSettings, same_bonus,
}
use wagr.Payouts.{
  normalize_entries, placements, bonuses, is_weekly_bonus, row_total, total_payout, format_dollars,
  half_up, place_options, ordinal_label,
}
use wagr.Settings.{Page}
use wagr.Select.{selected_place_label, shown_places}

-- A row of the table of season payouts: its index in the state, which its controls pass on, and what
-- its list of places and its amount show.
pub record PlaceRow : Type 0 where
  pub index : ℕ
  pub place_label : String
  pub places : List (String × Bool)
  pub amount_cents : ℤ

abbrev pub place_row : ℕ → ℕ → PayoutEntry → PlaceRow
place_row total_rosters i r = record {
  index = i;
  place_label = selected_place_label ordinal_label r.place;
  places = shown_places ordinal_label r.place (place_options total_rosters);
  amount_cents = r.amount_cents;
}

-- `payoutRows.map((row, i) => row.type !== 'placement' ? null : …)`
unfoldable pub place_rows : ℕ → ℕ → List PayoutEntry → List PlaceRow
place_rows total_rosters i [] = []
place_rows total_rosters i (r ∷ rows) =
    let rest = place_rows total_rosters (suc i) rows in
    if is_placement r.entry_type then place_row total_rosters i r ∷ rest else rest

-- A row of the table of bonuses. The threshold is shown for its type only, the weeks for a weekly one.
pub record BonusRow : Type 0 where
  pub index : ℕ
  pub bonus_type : BonusType
  pub threshold : Option (Option ℤ)
  pub amount_cents : ℤ
  pub weeks : Option ℤ
  pub total : String

abbrev pub has_threshold : Option BonusType → Bool
has_threshold none = false
has_threshold (some bt) = same_bonus bt score_threshold

abbrev pub threshold_in : Option BonusCriteria → Option ℤ
threshold_in none = none
threshold_in (some c) = c.threshold

abbrev pub bonus_row : ℕ → PayoutEntry → BonusRow
bonus_row i r = record {
  index = i;
  bonus_type = or_default r.bonus_type weekly_high_score;
  threshold = if has_threshold r.bonus_type then some (threshold_in r.criteria) else none;
  amount_cents = r.amount_cents;
  weeks = if is_weekly_bonus r.bonus_type then some (or_default r.weeks (pos 0)) else none;
  total = format_dollars (row_total r);
}

unfoldable pub bonus_rows : ℕ → List PayoutEntry → List BonusRow
bonus_rows i [] = []
bonus_rows i (r ∷ rows) =
    let rest = bonus_rows (suc i) rows in
    if is_weekly r.entry_type then bonus_row i r ∷ rest else rest

-- The form.
pub record Form : Type 0 where
  pub entry_fee_cents : ℤ
  pub places : List PlaceRow
  pub can_add_place : Bool
  pub bonuses : List BonusRow
  pub total : String
  pub pool : String
  pub save_error : Option String
  pub saved : Bool
  pub save_label : String
  pub can_save : Bool

unfoldable pub form : Page → LeagueSettings → Form
unfolding place_rows bonus_rows
form p s = record {
  entry_fee_cents = p.entry_fee_cents;
  places = place_rows s.total_rosters 0 p.payout_rows;
  can_add_place = not (leb (half_up s.total_rosters) (length (placements p.payout_rows)));
  bonuses = bonus_rows 0 p.payout_rows;
  total = format_dollars (total_payout p.payout_rows);
  pool = format_dollars (p.entry_fee_cents *ℤ pos s.total_rosters);
  save_error = if truthy p.save_error then p.save_error else none;
  saved = p.save_success;
  save_label = if p.saving then "Saving…" else "Save Settings";
  can_save = not p.saving;
}

-- The page of a member: labels and amounts.
pub record ReadBonus : Type 0 where
  pub label : String
  pub amount : String
  pub weeks : Option ℤ
  pub total : String

abbrev pub threshold_text : PayoutEntry → String
threshold_text r =
    if has_threshold r.bonus_type
    then elim (threshold_in r.criteria) [
      | none ↦ ""
      | some points ↦ " (≥ " ++ (show_ℤ points ++ " pts)")
    ]
    else ""

abbrev pub read_bonus : PayoutEntry → ReadBonus
read_bonus r = record {
  label = r.label ++ threshold_text r;
  amount = format_dollars r.amount_cents;
  weeks = if is_weekly_bonus r.bonus_type then some (or_default r.weeks (pos 0)) else none;
  total = format_dollars (row_total r);
}

pub record ReadOnly : Type 0 where
  pub entry_fee : String
  pub places : List (String × String)
  pub bonuses : List ReadBonus
  pub total : String
  pub pool : String

unfoldable pub read_only : LeagueSettings → ReadOnly
read_only s =
    let rows = normalize_entries (or_default s.payout_structure []) in
    record {
      entry_fee = format_dollars s.entry_fee_cents ++ " per team";
      places = map (λ r. (r.label, format_dollars r.amount_cents)) (placements rows);
      bonuses = map read_bonus (bonuses rows);
      total = format_dollars (total_payout rows);
      pool = format_dollars (s.entry_fee_cents *ℤ pos s.total_rosters);
    }

pub data Body : Type 0 where
  no_body : Body
  editable : Form → Body
  readable : ReadOnly → Body

pub record View : Type 0 where
  pub loading_line : Bool
  pub error_line : Option String
  pub body : Body

abbrev pub body_of : Page → LeagueSettings → Body
body_of p s = if s.is_commissioner then editable (form p s) else readable (read_only s)

unfoldable pub view : Bool → Page → Option View
unfolding form read_only
view authenticated p =
    if not authenticated
    then none
    else some (record {
      loading_line = p.loading;
      error_line = if truthy p.error then p.error else none;
      body =
          if not p.loading && not (truthy p.error)
          then elim p.settings [ none ↦ no_body | some s ↦ body_of p s ]
          else no_body;
    })
