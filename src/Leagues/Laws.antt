-- ===== src/Leagues/Laws.antt =====
-- Removing a league: the two clicks, and what remains.
use wagr.Common.{
  String, none, some, Bool, true, false, not, ◌≡◌, ◌⊎◌, arith, List, ◌∷◌, keep_if, is_some, ◌===◌,
}
use wagr.Js.Effects.{Result, ok, throw, Response, is_ok}
use wagr.Types.League.{League}
use wagr.Leagues.{asked_removal, Page, is_confirmed, handle_delete}

abbrev pub accepts : Result (Response (Unit {0})) → Bool
accepts (ok res) = is_ok res
accepts (throw e) = false

abbrev pub others : String → List League → List League
others league_id leagues = keep_if (λ l. not (l.id === league_id)) leagues

-- A click on a league that is not waiting for its confirmation sends nothing and waits for it. A
-- second click on that league sends one request; the league is taken off the list exactly when the
-- server accepts, and an error is shown when it does not.
handle_delete_lem :
    (league_id : String) (answer : Result (Response (Unit {0}))) (p : Page)
    → let q = handle_delete league_id answer p in
      ((is_confirmed p.confirm_id league_id ≡ false)
        × (q ≡ record p { confirm_id = some league_id }))
      ⊎ ((is_confirmed p.confirm_id league_id ≡ true)
          × (q.confirm_id ≡ none)
          × (q.deleting_id ≡ none)
          × (q.trace ≡ asked_removal league_id ∷ p.trace)
          × (((accepts answer ≡ true)
                × (q.leagues ≡ others league_id p.leagues)
                × (q.error ≡ p.error))
              ⊎ ((accepts answer ≡ false) × (q.leagues ≡ p.leagues) × (is_some q.error ≡ true))))
unfolding handle_delete
handle_delete_lem league_id answer p = ground arith
