-- ===== src/Home.antt =====
-- src/web/src/pages/Home.tsx: the page of a user who is signed in, with the numbers of its dashboard,
-- and the page of one who is not.
pub mod Laws
use Prim.Native.String.{◌++◌}
use wagr.Common.{
  ℕ, ◌+◌, ◌*◌, ◌/◌, String, Option, none, some, Bool, true, false, not, ◌||◌, ◌&&◌, List, [], ◌∷◌,
  map, length, keep_if, truthy, or_default, is_none, ltb, ◌===◌, if◌then◌else◌,
}
use wagr.Common.Int.{ℤ, pos, negsuc}
use wagr.Js.Effects.{Result, ok, throw, Response}
use wagr.Js.Number.{show}
use wagr.Types.League.{League}
use wagr.Types.Wallet.{AvailableWallet}
use wagr.Session.{Session, World, connect}
use wagr.ConnectWallet.{is_authenticated}

pub record Home : Type 0 where
  pub leagues : List League
  pub leagues_loading : Bool
  pub show_import : Bool

unfoldable pub initial : Home
initial = record { leagues = []; leagues_loading = false; show_import = false }

-- What `fetch` and `json()` give: `none` is a body that is no array. The status is not read.
abbrev pub Answer : Type 0
Answer = Result (Response (Option (List League)))

abbrev pub leagues_in : Response (Option (List League)) → Result (List League)
leagues_in response = elim response.json [ ok body ↦ ok (or_default body []) | throw e ↦ throw e ]

abbrev pub read_leagues : Answer → Result (List League)
read_leagues answer = elim answer [ ok response ↦ leagues_in response | throw e ↦ throw e ]

-- The effect that loads the leagues.
unfoldable pub load : Session → Answer → Home → Home
load s answer h =
    if not (is_authenticated s) || not (truthy s.token) then h else elim (read_leagues answer) [
      | ok leagues ↦ record h { leagues = leagues; leagues_loading = false }
      | throw e ↦ record h { leagues = []; leagues_loading = false }
    ]

-- `handleImported`
unfoldable pub handle_imported : Session → Answer → Home → Home
handle_imported s answer h =
    if not (truthy s.token) then record h { show_import = false } else elim (read_leagues answer) [
      | ok leagues ↦ record h { leagues = leagues; show_import = false }
      | throw e ↦ record h { show_import = false }
    ]

-- `handleConnect`: the first wallet. The promise is not awaited.
abbrev pub connect_first : World → List AvailableWallet → Session → Session
connect_first w [] s = s
connect_first w (wallet ∷ wallets) s = (connect w wallet.wallet_type wallet.name none s).1

unfoldable pub handle_connect : World → Session → Session
handle_connect w s = connect_first w s.available_wallets s

-- The numbers of the dashboard.
abbrev pub prize : ℤ → ℕ → ℕ
prize (pos fee) rosters = if ltb 0 fee then fee * rosters else 0
prize (negsuc n) rosters = 0

unfoldable pub total_prize_pool : List League → ℕ
total_prize_pool [] = 0
total_prize_pool (l ∷ leagues) = prize l.entry_fee_cents l.total_rosters + total_prize_pool leagues

unfoldable pub total_teams : List League → ℕ
total_teams [] = 0
total_teams (l ∷ leagues) = l.total_rosters + total_teams leagues

abbrev pub is_zero : ℤ → Bool
is_zero (pos fee) = not (ltb 0 fee)
is_zero (negsuc n) = false

-- A league of the commissioner that has no fee yet and is not cancelled.
abbrev pub wants_fee : League → Bool
wants_fee l = l.is_commissioner && (is_zero l.entry_fee_cents && not (truthy l.cancelled_at))

unfoldable pub action_items : List League → List League
action_items leagues = keep_if wants_fee leagues

pub record Stats : Type 0 where
  pub leagues : String
  pub prize_pool : String
  pub teams : String
  pub commissioner : String

abbrev pub dash_or : Bool → String → String
dash_or test text = if test then text else "—"

-- The four tiles; `locale` is the `toLocaleString` of a number of cents over 100.
unfoldable pub stats : (ℕ → String) → Home → Stats
unfolding total_prize_pool total_teams
stats locale h =
    let commissioner = length (keep_if (λ l. l.is_commissioner) h.leagues) in
    record {
      leagues = dash_or (not h.leagues_loading) (show (length h.leagues));
      prize_pool =
          dash_or (not h.leagues_loading && ltb 0 (total_prize_pool h.leagues))
            ("$" ++ locale (total_prize_pool h.leagues));
      teams =
          dash_or (not h.leagues_loading && ltb 0 (total_teams h.leagues))
            (show (total_teams h.leagues));
      commissioner = dash_or (not h.leagues_loading && ltb 0 commissioner) (show commissioner);
    }

-- `LeagueStatusBadge`
unfoldable pub status_badge : League → Option String
status_badge l =
    if truthy l.cancelled_at
    then some "Cancelled"
    else if l.status === "in_season"
    then some "In Season"
    else if l.status === "pre_draft"
    then some "Pre-Draft"
    else if l.status === "post_season"
    then some "Post Season"
    else if l.status === "complete"
    then some "Complete"
    else none

-- The entry fee of a card, `(cents / 100).toFixed(0)`: to the nearest dollar, a half upwards.
abbrev pub fee_label : ℤ → String
fee_label (pos fee) =
    if ltb 0 fee then "$" ++ (show ((fee + 50) / 100) ++ " entry") else "No fee set"
fee_label (negsuc n) = "No fee set"

-- What a card says, its details apart.
pub record Card : Type 0 where
  pub name : String
  pub badge : Option String
  pub fee : String
  pub is_commissioner : Bool

abbrev pub card : League → Card
card l = record {
  name = l.name;
  badge = status_badge l;
  fee = fee_label l.entry_fee_cents;
  is_commissioner = l.is_commissioner;
}

-- The list of the dashboard, and the whole page, its welcome and its marketing apart.
pub data Listing : Type 0 where
  skeletons : Listing
  no_leagues_yet : Listing
  cards : List Card → Listing

unfoldable pub listing : Home → Listing
unfolding status_badge
listing h =
    if h.leagues_loading
    then skeletons
    else elim h.leagues [ [] ↦ no_leagues_yet | l ∷ leagues ↦ cards (map card (l ∷ leagues)) ]

pub data View : Type 0 where
  marketing_connect : (label : String) (enabled : Bool) (error : Option String) → View
  marketing_retry : (label : String) (enabled : Bool) (error : Option String) → View
  dashboard : (to_configure : List League) → Listing → View

unfoldable pub view : Session → Home → View
unfolding listing action_items
view s h =
    if is_authenticated s
    then dashboard (if h.leagues_loading then [] else action_items h.leagues) (listing h)
    else if not s.is_connected
    then marketing_connect
        (if s.is_connecting
          then "Connecting…"
          else if s.is_authenticating
          then "Waiting for signature…"
          else "Connect Wallet")
        (not (s.is_connecting || s.is_authenticating)) s.error
    else marketing_retry (if s.is_authenticating then "Signing…" else "Retry Sign In")
        (not s.is_authenticating) s.error
