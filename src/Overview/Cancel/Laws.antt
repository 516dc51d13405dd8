-- ===== src/Overview/Cancel/Laws.antt =====
-- Cancelling and reactivating a league.
use wagr.Common.{
  String, Option, none, some, Bool, true, false, ◌&&◌, ◌≡◌, ◌⊎◌, refl, arith, List, [], ◌∷◌, map,
  All, is_some, keep_if, not,
}
use wagr.Js.Effects.{Result, ok, throw, Response, is_ok}
use wagr.Types.League.{LeagueDetail, LeagueMember, is_paid, is_refunded}
use wagr.Overview.{Page, Context, has_session}
use wagr.Overview.Cancel.{
  set_cancelled, reactivated, reset_refunded, handle_cancel_league, handle_reactivate_league,
}

-- The server accepted the request.
abbrev pub accepted : Result (Response (Unit {0})) → Bool
accepted (ok res) = is_ok res
accepted (throw e) = false

abbrev pub on_some : (LeagueDetail → LeagueDetail) → Option LeagueDetail → Option LeagueDetail
on_some f none = none
on_some f (some d) = some (f d)

-- With a session and while no cancelling runs, a league that is shown is marked as cancelled exactly when the user confirms and
-- the server accepts; a confirmed request that fails leaves it as it was, with an error. Nothing
-- happens without the confirmation, and the button works again.
pub handle_cancel_league_lem :
    (ctx : Context) (confirmed : Bool) (answer : Result (Response (Unit {0}))) (now : String)
    (p : Page)
    → has_session ctx ≡ true
    → p.cancel_loading ≡ false
    → let q = handle_cancel_league ctx confirmed answer now p in
      (q.cancel_loading ≡ false)
      × (((confirmed && accepted answer ≡ true)
            × (q.detail ≡ on_some (set_cancelled (some now)) p.detail)
            × (q.error ≡ p.error))
          ⊎ ((confirmed && not (accepted answer) ≡ true)
              × (q.detail ≡ p.detail)
              × (is_some q.error ≡ true))
          ⊎ ((confirmed ≡ false) × (q ≡ p)))
unfolding handle_cancel_league
handle_cancel_league_lem ctx confirmed answer now p session idle = ground arith

-- With a session and while no reactivating runs, a league that is shown is marked as running again,
-- and its refunded members are reset, exactly when the user confirms and the server accepts; a
-- confirmed request that fails leaves it as it was, with an error. Nothing happens without the
-- confirmation, and the button works again.
pub handle_reactivate_league_lem :
    (ctx : Context) (confirmed : Bool) (answer : Result (Response (Unit {0}))) (p : Page)
    → has_session ctx ≡ true
    → p.reactivate_loading ≡ false
    → let q = handle_reactivate_league ctx confirmed answer p in
      (q.reactivate_loading ≡ false)
      × (((confirmed && accepted answer ≡ true)
            × (q.detail ≡ on_some reactivated p.detail)
            × (q.error ≡ p.error))
          ⊎ ((confirmed && not (accepted answer) ≡ true)
              × (q.detail ≡ p.detail)
              × (is_some q.error ≡ true))
          ⊎ ((confirmed ≡ false) × (q ≡ p)))
unfolding handle_reactivate_league
handle_reactivate_league_lem ctx confirmed answer p session idle = ground arith

map-reset_refunded :
    (members : List LeagueMember)
    → All (λ m. is_refunded m.payment_status ≡ false) (map reset_refunded members)
      × (keep_if (λ m. is_paid m.payment_status) (map reset_refunded members)
          ≡ keep_if (λ m. is_paid m.payment_status) members)
map-reset_refunded [] = (tt, refl)
map-reset_refunded (m ∷ members) =
    let (none_left, same) = map-reset_refunded members in
    ((ground arith, none_left), ground (arith, same))

-- In a reactivated league no member is refunded, and the members who have paid, in their order and
-- with all their data, are those of before: the refunds are taken back and no payment is.
pub reactivated_lem :
    (d : LeagueDetail)
    → ((reactivated d).league.cancelled_at ≡ none)
      × All (λ m. is_refunded m.payment_status ≡ false) (reactivated d).members
      × (keep_if (λ m. is_paid m.payment_status) (reactivated d).members
          ≡ keep_if (λ m. is_paid m.payment_status) d.members)
reactivated_lem d = let (none_left, same) = map-reset_refunded d.members in (refl, none_left, same)
