-- ===== src/Leagues/View.antt =====
-- What src/web/src/pages/Leagues.tsx shows of its state, and what an import asks of it.
use Prim.Native.String.{◌++◌}
use text.Mathlib.TextLemmas.{cons-append}
use wagr.Common.{
  ℕ, String, Option, none, some, Bool, true, false, not, ◌&&◌, List, [], ◌∷◌, map, truthy,
  truthy_text, ◌≡◌, ◌∙◌, ap, refl, if◌then◌else◌, arith,
}
use wagr.Js.Effects.{Result, ok, Response, is_ok}
use wagr.Js.Number.{show}
use wagr.Types.League.{League}
use wagr.Leagues.{Page, is_confirmed, handle_delete, remove_steps, fetch_leagues, load_steps}

-- A card of the list, its sport apart: its button comes with whether it can be pressed.
pub record Card : Type 0 where
  pub name : String
  pub platform : String
  pub cancelled : Bool
  pub is_commissioner : Bool
  pub season : String
  pub teams : ℕ
  pub scoring : Option String
  pub status : String
  pub remove_label : String
  pub can_remove : Bool

abbrev pub is_deleting : Page → League → Bool
is_deleting p l = is_confirmed p.deleting_id l.id

abbrev pub card : Page → League → Card
card p l = record {
  name = l.name;
  platform = l.platform;
  cancelled = truthy l.cancelled_at;
  is_commissioner = l.is_commissioner;
  season = l.season;
  teams = l.total_rosters;
  scoring = if truthy l.scoring_type then l.scoring_type else none;
  status = l.status;
  remove_label =
      if is_deleting p l
      then "Removing…"
      else if is_confirmed p.confirm_id l.id
      then "Confirm Remove"
      else "Remove";
  can_remove = not (is_deleting p l);
}

pub data Listing : Type 0 where
  nothing_listed : Listing
  no_leagues_imported : Listing
  cards : List Card → Listing

abbrev pub listed : Page → List League → Listing
listed p [] = no_leagues_imported
listed p (l ∷ leagues) = cards (map (card p) (l ∷ leagues))

pub record View : Type 0 where
  pub loading_line : Bool
  pub error_line : Option String
  pub listing : Listing

unfoldable pub view : Bool → Page → Option View
view authenticated p =
    if not authenticated
    then none
    else some (record {
      loading_line = p.loading;
      error_line = if truthy p.error then p.error else none;
      listing =
          if not p.loading && not (truthy p.error) then listed p p.leagues else nothing_listed;
    })

-- What an import asks of the page: `setLoading(true)` and `fetchLeagues()`.
unfoldable pub handle_imported :
    Option String → Result (Response (Option (List League))) → Page → Page
handle_imported token answer p = fetch_leagues token answer (record p { loading = true })

abbrev pub refusal_text : Response (Unit {0}) → String
refusal_text refusal = "Failed to remove league (" ++ (show refusal.status ++ ")")

truthy-refusal_text : (refusal : Response (Unit {0})) → truthy_text (refusal_text refusal) ≡ true
truthy-refusal_text refusal =
    ap truthy_text (cons-append "F" "ailed to remove league (" (show refusal.status ++ ")"))

refused_removal-error :
    (league_id : String) (refusal : Response (Unit {0})) (p : Page)
    → is_confirmed p.confirm_id league_id ≡ true
    → is_ok refusal ≡ false
    → (handle_delete league_id (ok refusal) p).error ≡ some (refusal_text refusal)
unfolding handle_delete remove_steps
refused_removal-error league_id refusal p confirmed refused = ground (arith, confirmed, refused)

accepted_import-error :
    (token : String) (answer : Response (Option (List League))) (body : Option (List League))
    (p : Page)
    → is_ok answer ≡ true
    → answer.json ≡ ok body
    → (handle_imported (some token) (ok answer) p).error ≡ p.error
unfolding handle_imported fetch_leagues load_steps
accepted_import-error token answer body p accepted read = ground (arith, accepted, read)

error-view :
    (p : Page) (message : String)
    → p.error ≡ some message
    → truthy_text message ≡ true
    → (v : View) × (view true p ≡ some v)
      × (v.listing ≡ nothing_listed)
      × (v.error_line ≡ some message)
unfolding view
error-view p message failed shown = (_, refl, ground (arith, failed), ground (arith, failed))

-- A removal that the server refuses hides every league of the page, and an import that then loads the
-- list again, whatever the server answers with success, does not bring them back.
pub view-refused_removal :
    (league_id token : String) (refusal : Response (Unit {0}))
    (answer : Response (Option (List League))) (body : Option (List League)) (p : Page)
    → is_confirmed p.confirm_id league_id ≡ true
    → is_ok refusal ≡ false
    → is_ok answer ≡ true
    → answer.json ≡ ok body
    → let q = handle_delete league_id (ok refusal) p in
      let r = handle_imported (some token) (ok answer) q in
      (v : View) × (view true r ≡ some v)
      × (v.listing ≡ nothing_listed)
      × (v.error_line ≡ some (refusal_text refusal))
view-refused_removal league_id token refusal answer body p confirmed refused accepted read =
    let q = handle_delete league_id (ok refusal) p in
    error-view (handle_imported (some token) (ok answer) q) (refusal_text refusal)
      (accepted_import-error token answer body q accepted read
        ∙ refused_removal-error league_id refusal p confirmed refused)
      (truthy-refusal_text refusal)
