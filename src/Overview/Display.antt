-- ===== src/Overview/Display.antt =====
-- The texts of src/web/src/pages/LeagueOverview.tsx: money, the header with its buttons, the copied
-- link and the rows of the teams. The initials of an avatar are left out.
pub mod Laws
use Prim.Native.String.{[], ◌∷◌, ◌++◌}
use wagr.Common.{
  ℕ, suc, ◌+◌, ◌/◌, ◌%◌, String, Option, none, some, Bool, true, false, not, ◌&&◌, ◌==◌, ltb, List,
  is_some, is_none, truthy, truthy_text, or_default, if◌then◌else◌,
}
use wagr.Common.Int.{ℤ, pos, negsuc, ◌*ℤ◌}
use wagr.Js.Number.{show, show_ℤ, digit_char}
use wagr.Types.League.{
  LeagueDetail, LeagueMember, LeagueSettings, PaymentStatus, unpaid, paid, refunded, PaymentToken,
  hbar, usdc,
}
use wagr.Overview.{Page, Context, league_of}
use wagr.Overview.Panel.{is_cancelled, sorted_members}

-- The cents of an amount, as `toFixed(2).replace(/\.00$/, '')` leaves them.
unfoldable pub cents_text : ℕ → String
cents_text cents =
    if cents == 0 then [] else "." ∷ digit_char (cents / 10) ∷ digit_char (cents % 10) ∷ []

unfoldable pub amount_text : ℕ → String
unfolding cents_text
amount_text n = show (n / 100) ++ cents_text (n % 100)

-- `formatDollars`
unfoldable pub format_dollars : ℤ → String
unfolding amount_text
format_dollars (pos n) = "$" ∷ amount_text n
format_dollars (negsuc n) = "$" ∷ "-" ∷ amount_text (suc n)

-- `Avatar`: the picture, where there is one and it could be loaded.
abbrev pub avatar_picture : Bool → LeagueMember → Option String
avatar_picture img_error m =
    if truthy_text m.avatar_url && not img_error then some m.avatar_url else none

-- `TokenBadge`
abbrev pub token_badge : Option PaymentToken → String
token_badge none = "—"
token_badge (some hbar) = "HBAR"
token_badge (some usdc) = "USDC"

-- The payment status with a capital.
abbrev pub status_label : PaymentStatus → String
status_label unpaid = "Unpaid"
status_label paid = "Paid"
status_label refunded = "Refunded"

abbrev pub record_text : LeagueMember → String
record_text m =
    show m.wins ++ ("–" ++ (show m.losses ++ (if m.ties == 0 then "" else "–" ++ show m.ties)))

-- A row of the list, its points and its avatar apart.
pub record Row : Type 0 where
  pub rank : ℕ
  pub name : String
  pub status : String
  pub subname : Option String
  pub wins : String
  pub token : String
  pub connected : Bool

abbrev pub row : ℕ → LeagueMember → Row
row rank m = record {
  rank = rank;
  name = if truthy_text m.team_name then m.team_name else m.display_name;
  status = status_label m.payment_status;
  subname = if truthy_text m.team_name then some m.display_name else none;
  wins = record_text m;
  token = token_badge m.payment_token;
  connected = is_some m.user_id && truthy_text m.wallet_address;
}

unfoldable pub rows_from : ℕ → List LeagueMember → List Row
rows_from rank List.[] = List.[]
rows_from rank (List.◌∷◌ m members) = List.◌∷◌ (row (suc rank) m) (rows_from (suc rank) members)

-- The rows, by falling points.
abbrev pub rows : LeagueDetail → List Row
rows d = rows_from 0 (sorted_members d.members)

-- A button: its label, and whether it can be pressed.
abbrev pub Button : Type 0
Button = String × Bool

-- The header and the banner below it.
pub record Header : Type 0 where
  pub copy_label : String
  pub settings_link : Option String
  pub cancel : Option Button
  pub teams : String
  pub entry_fee : String
  pub prize_pool : String
  pub banner : Bool
  pub reactivate : Option Button

abbrev pub cancel_button : Page → Button
cancel_button p = (if p.cancel_loading then "Cancelling…" else "Cancel", not p.cancel_loading)

abbrev pub reactivate_button : Page → Button
reactivate_button p = (
  if p.reactivate_loading then "Reactivating…" else "Reactivate League",
  not p.reactivate_loading,
)

unfoldable pub header : Context → Bool → Page → LeagueDetail → LeagueSettings → Header
unfolding format_dollars
header ctx copied p d s = record {
  copy_label = if copied then "✓ Copied!" else "Copy Link";
  settings_link =
      if s.is_commissioner then some ("/leagues/" ++ (league_of ctx ++ "/settings")) else none;
  cancel = if s.is_commissioner && not (is_cancelled d) then some (cancel_button p) else none;
  teams = show s.total_rosters;
  entry_fee = format_dollars s.entry_fee_cents;
  prize_pool = format_dollars (s.entry_fee_cents *ℤ pos s.total_rosters);
  banner = is_cancelled d;
  reactivate = if is_cancelled d && s.is_commissioner then some (reactivate_button p) else none;
}

-- The text that `handleCopyLink` copies.
abbrev pub copied_link : (origin : String) → Context → String
copied_link origin ctx = origin ++ ("/leagues/" ++ league_of ctx)
