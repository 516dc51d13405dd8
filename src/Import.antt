-- ===== src/Import.antt =====
-- The dialog of src/web/src/components/ImportLeagueModal.tsx, which imports a league in three steps.
-- It is shown while it is open. The leagues that the page has already are `existing`, and the first
-- season on offer is `first_season`. The requests are recorded in `trace`, the latest first.
pub mod Laws
use Prim.Native.String.{◌++◌}
use wagr.Common.{
  ℕ, ◌-◌, String, Option, none, some, Bool, true, false, not, ◌&&◌, List, [], ◌∷◌, map, any,
  or_default, truthy_text, get_elem?, ◌===◌, if◌then◌else◌,
}
use wagr.Js.Effects.{
  Thrown, message_or, Result, ok, throw, Response, is_ok, Action, await, raise_if, try_catch,
  finally, modify, ◌>>=◌, ◌>>◌,
}
use wagr.Js.Number.{show, trim}
use wagr.Types.League.{League, PlatformLeague, PlatformProfile}

-- The three seasons on offer, from the current year on.
abbrev pub season_options : ℕ → List String
season_options current_year =
    show current_year ∷ show (current_year - 1) ∷ show (current_year - 2) ∷ []

pub data Step : Type 0 where
  enter_username pick_league confirm_import : Step

pub data Effect : Type 0 where
  asked_link : (platform_username : String) → Effect
  asked_leagues : (platform_user_id season : String) → Effect
  asked_import : (platform_league_id : String) → Effect

pub record Dialog : Type 0 where
  pub is_open : Bool
  pub step : Step
  pub username : String
  pub season : String
  pub profile : Option PlatformProfile
  pub available_leagues : List PlatformLeague
  pub selected_league : Option PlatformLeague
  pub loading : Bool
  pub error : Option String
  pub trace : List Effect

-- The first render, closed.
unfoldable pub initial : String → Dialog
initial first_season = record {
  is_open = false;
  step = enter_username;
  username = "";
  season = first_season;
  profile = none;
  available_leagues = [];
  selected_league = none;
  loading = false;
  error = none;
  trace = [];
}

abbrev pub ask {ℓ} : {A : Type ℓ} → Effect → Result A → Action Dialog A
ask e answer d = (answer, record d { trace = e ∷ d.trace })

-- The body of an answer: what is read on success, and the `error` of a refusal.
pub record Body {ℓ} (A : Type ℓ) : Type ℓ where
  pub error : Option String
  pub content : A

-- `throw new Error(body.error ?? fallback)`, where a body that is no JSON has no `error`.
abbrev pub refuse_with_error {ℓ} : {A : Type ℓ} → String → Response (Body A) → Result (Unit {0})
refuse_with_error fallback res = if is_ok res then ok tt else elim res.json [
  | throw e ↦ throw (Thrown.error fallback)
  | ok body ↦ throw (Thrown.error (or_default body.error fallback))
]

-- The effect that resets the dialog when it opens.
unfoldable pub open_dialog : String → Dialog → Dialog
open_dialog first_season d = record d {
  is_open = true;
  step = enter_username;
  username = "";
  season = first_season;
  profile = none;
  available_leagues = [];
  selected_league = none;
  error = none;
}

-- What the server answers to the first step.
pub record World : Type 0 where
  pub link : Result (Response (Body PlatformProfile))
  pub leagues : Result (Response (Option (List PlatformLeague)))

link_steps : World → String → String → Action Dialog (Unit {0})
link_steps w username season = do
  res ← ask (asked_link (trim username)) w.link
  await (refuse_with_error ("Request failed (" ++ (show res.status ++ ")")) res)
  body ← await res.json
  modify (λ d. record d { profile = some body.content })
  leagues_res ← ask (asked_leagues body.content.platform_user_id season) w.leagues
  raise_if (not (is_ok leagues_res))
      (Thrown.error ("Failed to load leagues (" ++ (show leagues_res.status ++ ")")))
  leagues ← await leagues_res.json
  modify (λ d. record d { available_leagues = or_default leagues []; step = pick_league })

-- The frame of the two requests: the flags before, `catch` and `finally`.
guarded : Action Dialog (Unit {0}) → Dialog → Dialog
guarded steps d =
    (finally
      (try_catch steps
        (λ e. modify (λ d. record d { error = some (message_or "Something went wrong" e) })))
      (λ d. record d { loading = false }) (record d { loading = true; error = none })).1

unfoldable pub handle_link_platform : World → Dialog → Dialog
unfolding link_steps guarded
handle_link_platform w d =
    if truthy_text (trim d.username) then guarded (link_steps w d.username d.season) d else d

-- `importedIds.has(…)`
abbrev pub is_imported : List League → PlatformLeague → Bool
is_imported existing league = any (λ l. l.platform_league_id === league.platform_league_id) existing

unfoldable pub handle_select_league : List League → PlatformLeague → Dialog → Dialog
handle_select_league existing league d =
    if is_imported existing league
    then d
    else record d { selected_league = some league; step = confirm_import }

-- `onImported` asks the page to load its list again; `onClose` hides the dialog.
import_steps : Result (Response (Body (Unit {0}))) → PlatformLeague → Action Dialog (Unit {0})
import_steps answer league = do
  res ← ask (asked_import league.platform_league_id) answer
  await (refuse_with_error ("Import failed (" ++ (show res.status ++ ")")) res)
  modify (λ d. record d { is_open = false })

unfoldable pub handle_import : Result (Response (Body (Unit {0}))) → Dialog → Dialog
unfolding import_steps guarded
handle_import answer d = elim d.selected_league [
  | none ↦ d
  | some league ↦ guarded (import_steps answer league) d
]

-- What the user can do; a league is picked by its place in the list.
pub data Event : Type 0 where
  opens closes : Event
  types : String → Event
  chooses_season : String → Event
  links : World → Event
  picks : ℕ → Event
  goes_back : Event
  imports : Result (Response (Body (Unit {0}))) → Event

-- Whether a step is the one that is shown.
abbrev pub shows : Step → Step → Bool
shows enter_username enter_username = true
shows pick_league pick_league = true
shows confirm_import confirm_import = true
shows _ _ = false

abbrev pub go_back : Dialog → Dialog
go_back d = elim d.step [
  | enter_username ↦ d
  | pick_league ↦ record d { step = enter_username }
  | confirm_import ↦ record d { step = pick_league }
]

-- The control of an event, where the dialog shows it.
unfoldable pub act : List League → String → Event → Dialog → Dialog
act existing first_season opens d = if d.is_open then d else open_dialog first_season d
act existing first_season closes d = record d { is_open = false }
act existing first_season (types text) d =
    if d.is_open && shows enter_username d.step then record d { username = text } else d
act existing first_season (chooses_season year) d =
    if d.is_open && shows enter_username d.step then record d { season = year } else d
act existing first_season (links w) d =
    if d.is_open && shows enter_username d.step then handle_link_platform w d else d
act existing first_season (picks i) d =
    if d.is_open && shows pick_league d.step
    then elim (get_elem? d.available_leagues i) [
      | none ↦ d
      | some league ↦ handle_select_league existing league d
    ]
    else d
act existing first_season goes_back d = if d.is_open then go_back d else d
act existing first_season (imports answer) d =
    if d.is_open && shows confirm_import d.step then handle_import answer d else d

abbrev pub act_all : List League → String → List Event → Dialog → Dialog
act_all existing first_season [] d = d
act_all existing first_season (e ∷ events) d =
    act_all existing first_season events (act existing first_season e d)
