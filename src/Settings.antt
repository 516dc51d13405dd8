-- ===== src/Settings.antt =====
-- The page src/web/src/pages/LeagueSettings.tsx: its state, the loading and the saving of the
-- settings; the handlers of its form are in Form. A handler runs from its call to its end, so the values
-- that its closure holds are those of the state it starts in.
pub mod Saving
pub mod Form
pub mod View
use Prim.Native.String.{◌++◌}
use wagr.Common.{
  ℕ, ◌+◌, max, String, Option, none, some, Bool, true, false, not, ◌&&◌, List, [], ◌∷◌, leb,
  if◌then◌else◌, or_default, truthy, truthy_text, length, get_elem?, push, modify_at, remove_at,
}
use wagr.Common.Int.{ℤ, pos, ◌*ℤ◌}
use wagr.Js.Effects.{
  Thrown, message_or, Result, ok, throw, Response, is_ok, Action, pure, await, raise, raise_if,
  try_catch, finally, modify, refuse_with_text, ◌>>=◌, ◌>>◌,
}
use wagr.Js.Number.{show, parse_int}
use wagr.Types.League.{
  BonusType, weekly_high_score, score_threshold, same_bonus, EntryType, placement, weekly,
  is_placement, is_weekly, PayoutEntry, BonusCriteria, LeagueSettings,
}
use wagr.Payouts.{
  placements, default_label_for_bonus_type, ordinal_label, half_up, normalize_entries,
  is_weekly_bonus,
}

pub record Page : Type 0 where
  pub settings : Option LeagueSettings
  pub loading : Bool
  pub error : Option String
  pub saving : Bool
  pub save_error : Option String
  pub save_success : Bool
  pub entry_fee_cents : ℤ
  pub payout_rows : List PayoutEntry

unfoldable pub initial : Page
initial = record {
  settings = none;
  loading = true;
  error = none;
  saving = false;
  save_error = none;
  save_success = false;
  entry_fee_cents = pos 0;
  payout_rows = [];
}

-- The three setters that a reply of the server goes to.
pub accept : LeagueSettings → Page → Page
accept reply p = record p {
  settings = some reply;
  entry_fee_cents = reply.entry_fee_cents;
  payout_rows = normalize_entries (or_default reply.payout_structure []);
}

-- The `try` block of `fetchSettings`.
load : Result (Response LeagueSettings) → Action Page (Unit {0})
unfolding accept
load fetched = do
  res ← await fetched
  raise_if (not (is_ok res))
      (Thrown.error ("Failed to load settings (" ++ (show res.status ++ ")")))
  reply ← await res.json
  modify (accept reply)

pub fetch_settings : Option String → Option String → Result (Response LeagueSettings) → Page → Page
unfolding load
fetch_settings token league_id fetched p =
    if truthy token && truthy league_id
    then (finally
        (try_catch (load fetched)
          (λ e. modify (λ q. record q { error = some (message_or "Something went wrong" e) })))
        (λ q. record q { loading = false }) p).1
    else p

-- The body of the request that saves.
pub record SaveRequest : Type 0 where
  pub entry_fee_cents : ℤ
  pub payout_structure : List PayoutEntry

-- The `try` block of `handleSave`.
save : (SaveRequest → Result (Response LeagueSettings)) → Page → Action Page (Unit {0})
unfolding accept
save server shown = do
  res ← await (
      server
        (record { entry_fee_cents = shown.entry_fee_cents; payout_structure = shown.payout_rows }))
  await (refuse_with_text ("Error " ++ show res.status) res)
  updated ← await res.json
  modify (λ q. record (accept updated q) { save_success = true })

pub handle_save :
    Option String → Option String → (SaveRequest → Result (Response LeagueSettings)) → Page → Page
unfolding save
handle_save token league_id server p =
    if truthy token && truthy league_id
    then (finally
        (try_catch (save server p)
          (λ e. modify (λ q. record q { save_error = some (message_or "Save failed" e) })))
        (λ q. record q { saving = false })
        (record p { saving = true; save_error = none; save_success = false })).1
    else p
