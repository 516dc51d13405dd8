-- ===== src/Leagues.antt =====
-- The list of leagues of src/web/src/pages/Leagues.tsx: loading it, and removing a league, which
-- takes two clicks. The requests are recorded in `trace`, the latest first.
pub mod Laws
pub mod View
use Prim.Native.String.{◌++◌}
use wagr.Common.{
  String, Option, none, some, Bool, true, false, not, List, [], ◌∷◌, keep_if, or_default, truthy,
  ◌===◌, if◌then◌else◌,
}
use wagr.Js.Effects.{
  Thrown, message_or, Result, ok, throw, Response, is_ok, Action, await, raise_if, try_catch,
  finally, modify, ◌>>=◌, ◌>>◌,
}
use wagr.Js.Number.{show}
use wagr.Types.League.{League}

pub data Effect : Type 0 where
  asked_leagues : Effect
  asked_removal : (league_id : String) → Effect

pub record Page : Type 0 where
  pub leagues : List League
  pub loading : Bool
  pub error : Option String
  pub deleting_id : Option String
  pub confirm_id : Option String
  pub trace : List Effect

unfoldable pub initial : Page
initial = record {
  leagues = [];
  loading = true;
  error = none;
  deleting_id = none;
  confirm_id = none;
  trace = [];
}

abbrev pub ask {ℓ} : {A : Type ℓ} → Effect → Result A → Action Page A
ask e answer p = (answer, record p { trace = e ∷ p.trace })

-- `confirmId === leagueId`
abbrev pub is_confirmed : Option String → String → Bool
is_confirmed none league_id = false
is_confirmed (some id) league_id = id === league_id

remove_steps : String → Result (Response (Unit {0})) → Action Page (Unit {0})
remove_steps league_id answer = do
  res ← ask (asked_removal league_id) answer
  raise_if (not (is_ok res))
      (Thrown.error ("Failed to remove league (" ++ (show res.status ++ ")")))
  modify (λ p. record p { leagues = keep_if (λ l. not (l.id === league_id)) p.leagues })

unfoldable pub handle_delete : String → Result (Response (Unit {0})) → Page → Page
unfolding remove_steps
handle_delete league_id answer p =
    if is_confirmed p.confirm_id league_id
    then (finally
        (try_catch (remove_steps league_id answer)
          (λ e. modify (λ q. record q { error = some (message_or "Failed to remove league" e) })))
        (λ q. record q { deleting_id = none })
        (record p { deleting_id = some league_id; confirm_id = none })).1
    else record p { confirm_id = some league_id }

load_steps : Result (Response (Option (List League))) → Action Page (Unit {0})
load_steps answer = do
  res ← ask asked_leagues answer
  raise_if (not (is_ok res)) (Thrown.error ("Failed to load leagues (" ++ (show res.status ++ ")")))
  body ← await res.json
  modify (λ p. record p { leagues = or_default body [] })

unfoldable pub fetch_leagues :
    Option String → Result (Response (Option (List League))) → Page → Page
unfolding load_steps
fetch_leagues token answer p =
    if truthy token
    then (finally
        (try_catch (load_steps answer)
          (λ e. modify (λ q. record q { error = some (message_or "Something went wrong" e) })))
        (λ q. record q { loading = false }) p).1
    else p
