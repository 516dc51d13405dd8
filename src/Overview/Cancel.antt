-- ===== src/Overview/Cancel.antt =====
-- `handleCancelLeague` and `handleReactivateLeague`. Whether the user confirms is an argument, as is
-- the time.
pub mod Laws
use Prim.Native.String.{◌++◌}
use wagr.Common.{ℕ, String, Option, none, some, Bool, true, false, ◌&&◌, map, if◌then◌else◌}
use wagr.Js.Effects.{
  Thrown, message_or, Result, ok, throw, Response, Action, await, try_catch, finally, modify,
  refuse_with_text, ◌>>=◌, ◌>>◌,
}
use wagr.Js.Number.{show}
use wagr.Types.League.{League, LeagueDetail, LeagueMember, unpaid, is_refunded}
use wagr.Overview.{Page, Context, has_session, league_of, fetch}

abbrev pub set_cancelled : Option String → LeagueDetail → LeagueDetail
set_cancelled at d = record d { league = record (d.league) { cancelled_at = at } }

abbrev pub on_detail : (LeagueDetail → LeagueDetail) → Page → Page
on_detail f p = record p { detail = elim p.detail [ none ↦ none | some d ↦ some (f d) ] }

cancel_steps : Context → Result (Response (Unit {0})) → String → Action Page (Unit {0})
cancel_steps ctx answer now = do
  res ← fetch "POST" ("/api/leagues/" ++ (league_of ctx ++ "/cancel")) none answer
  await (refuse_with_text ("Failed to cancel league (" ++ (show res.status ++ ")")) res)
  modify (on_detail (set_cancelled (some now)))

unfoldable pub handle_cancel_league :
    Context → Bool → Result (Response (Unit {0})) → String → Page → Page
unfolding cancel_steps
handle_cancel_league ctx confirmed answer now p =
    if has_session ctx && confirmed
    then (finally
        (try_catch (cancel_steps ctx answer now)
          (λ e. modify (λ q. record q { error = some (message_or "Failed to cancel league" e) })))
        (λ q. record q { cancel_loading = false }) (record p { cancel_loading = true })).1
    else p

-- A member who has a refund has to pay again.
abbrev pub reset_refunded : LeagueMember → LeagueMember
reset_refunded m =
    if is_refunded m.payment_status
    then record m { payment_status = unpaid; transaction_hash = none }
    else m

abbrev pub reactivated : LeagueDetail → LeagueDetail
reactivated d = record d {
  league = record (d.league) { cancelled_at = none };
  members = map reset_refunded d.members;
}

reactivate_steps : Context → Result (Response (Unit {0})) → Action Page (Unit {0})
reactivate_steps ctx answer = do
  res ← fetch "POST" ("/api/leagues/" ++ (league_of ctx ++ "/reactivate")) none answer
  await (refuse_with_text ("Failed to reactivate league (" ++ (show res.status ++ ")")) res)
  modify (on_detail reactivated)

unfoldable pub handle_reactivate_league :
    Context → Bool → Result (Response (Unit {0})) → Page → Page
unfolding reactivate_steps
handle_reactivate_league ctx confirmed answer p =
    if has_session ctx && confirmed
    then (finally
        (try_catch (reactivate_steps ctx answer) (λ e.
          modify (λ q. record q { error = some (message_or "Failed to reactivate league" e) })))
        (λ q. record q { reactivate_loading = false }) (record p { reactivate_loading = true })).1
    else p
