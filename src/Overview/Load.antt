-- ===== src/Overview/Load.antt =====
-- `fetchAll`: the league and its settings, asked for together.
pub mod Laws
use Prim.Native.String.{◌++◌}
use wagr.Common.{ℕ, String, Option, none, some, Bool, true, false, not, ◌==◌, ◌∷◌, if◌then◌else◌}
use wagr.Js.Effects.{
  Thrown, message_or, Result, ok, throw, Response, is_ok, Action, await, raise_if, try_catch,
  finally, modify, ◌>>=◌, ◌>>◌,
}
use wagr.Js.Number.{show}
use wagr.Types.League.{LeagueDetail, LeagueSettings}
use wagr.Overview.{Page, Context, has_session, league_of, request}

-- `Promise.all` of two promises. Where both reject, the one that does so first decides.
pub all_of {ℓ κ} : {A : Type ℓ} {B : Type κ} → Bool → Result A → Result B → Result (A × B)
all_of left_first (ok a) (ok b) = ok (a, b)
all_of left_first (throw e) (ok b) = throw e
all_of left_first (ok a) (throw e) = throw e
all_of left_first (throw d) (throw e) = throw (if left_first then d else e)

-- What the server answers, and which request rejects first if both do (and so for their bodies).
pub record Answers : Type 0 where
  pub detail : Result (Response LeagueDetail)
  pub settings : Result (Response LeagueSettings)
  pub detail_first : Bool
  pub detail_body_first : Bool

-- Both requests are sent before either answers.
abbrev pub ask_both : Context → Page → Page
ask_both ctx p = record p {
  trace =
      request "GET" ("/api/leagues/" ++ (league_of ctx ++ "/settings")) none
      ∷ request "GET" ("/api/leagues/" ++ league_of ctx) none
      ∷ p.trace;
}

-- The `try` block after the test for 403.
read_both : Answers → Response LeagueDetail → Response LeagueSettings → Action Page (Unit {0})
read_both answers detail_res settings_res = do
  raise_if (not (is_ok detail_res))
      (Thrown.error ("Failed to load league (" ++ (show detail_res.status ++ ")")))
  raise_if (not (is_ok settings_res))
      (Thrown.error ("Failed to load settings (" ++ (show settings_res.status ++ ")")))
  bodies ← await (all_of answers.detail_body_first detail_res.json settings_res.json)
  modify (λ p. record p { detail = some bodies.0; settings = some bodies.1 })

load_steps : Context → Answers → Action Page (Unit {0})
unfolding all_of read_both
load_steps ctx answers p = elim (all_of answers.detail_first answers.detail answers.settings) [
  | throw e ↦ (throw e, ask_both ctx p)
  | ok both ↦
      if both.0.status == 403
      then (ok tt, record (ask_both ctx p) { not_member = true; loading = false })
      else read_both answers both.0 both.1 (ask_both ctx p)
]

unfoldable pub fetch_all : Context → Answers → Page → Page
unfolding load_steps
fetch_all ctx answers p =
    if has_session ctx
    then (finally
        (try_catch (load_steps ctx answers)
          (λ e. modify (λ q. record q { error = some (message_or "Something went wrong" e) })))
        (λ q. record q { loading = false }) p).1
    else p
