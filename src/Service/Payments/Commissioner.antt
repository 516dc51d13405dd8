-- ===== src/Service/Payments/Commissioner.antt =====
-- src/internal/league/service.go: cancelling and reactivating a league, which its commissioner may do.
use wagr.Common.{
  String, Option, none, some, Bool, ◌&&◌, map, any, is_none, is_some, ◌===◌, if◌then◌else◌,
}
use wagr.Go.{
  Error, Returned, returns, fails, not_commissioner, league_already_cancelled, league_not_cancelled,
}
use wagr.Database.{Database, LeagueRow, MemberRow}
use wagr.Service.Payments.{World, is_membership, after, update}

-- Whether the user owns one of the league's members that it is; also a failed query says no.
unfoldable pub is_commissioner : World → Database → (league_id user_id : String) → Bool
is_commissioner w db league_id user_id =
    is_none w.query_fails
    && any (λ m. is_membership db league_id user_id m && m.is_owner) db.members

abbrev pub check_commissioner :
    World → Database → (league_id user_id : String) → Returned (Unit {0})
check_commissioner w db league_id user_id =
    if is_commissioner w db league_id user_id then returns tt else fails not_commissioner

-- The rows that the two updates of `cancelled_at` find, and what they write.
abbrev pub cancels_row : String → LeagueRow → Bool
cancels_row league_id l = l.id === league_id && is_none l.cancelled_at

abbrev pub reactivates_row : String → LeagueRow → Bool
reactivates_row league_id l = l.id === league_id && is_some l.cancelled_at

abbrev pub cancel : World → String → LeagueRow → LeagueRow
cancel w league_id l = if cancels_row league_id l then record l { cancelled_at = some w.now } else l

abbrev pub reactivate : String → LeagueRow → LeagueRow
reactivate league_id l = if reactivates_row league_id l then record l { cancelled_at = none } else l

-- An update of the leagues that must find a row.
abbrev pub update_leagues :
    Option Error
    → (LeagueRow → Bool)
    → (LeagueRow → LeagueRow)
    → Error
    → Database
    → Returned (Unit {0}) × Database
update_leagues (some e) finds f missing db = (fails e, db)
update_leagues none finds f missing db =
    if any finds db.leagues
    then (returns tt, record db { leagues = map f db.leagues })
    else (fails missing, db)

-- `CancelLeague`
unfoldable pub cancel_league :
    World → (league_id user_id : String) → Database → Returned (Unit {0}) × Database
cancel_league w league_id user_id db =
    after (check_commissioner w db league_id user_id)
      (λ _.
        update_leagues w.update_fails (cancels_row league_id) (cancel w league_id)
          league_already_cancelled)
      db

-- The members that were refunded are unpaid again.
abbrev pub reset_member : String → MemberRow → MemberRow
reset_member league_id m =
    if m.league_id === league_id && m.payment_status === "refunded"
    then record m { payment_status = "unpaid"; transaction_hash = none }
    else m

abbrev pub then_update :
    Returned (Unit {0}) × Database
    → Option Error
    → (Database → Database)
    → Returned (Unit {0}) × Database
then_update (fails e, db) fault f = (fails e, db)
then_update (returns _, db) fault f = update fault f db

-- `ReactivateLeague`: two writes, which are no transaction.
unfoldable pub reactivate_league :
    World → (league_id user_id : String) → Database → Returned (Unit {0}) × Database
reactivate_league w league_id user_id db =
    after (check_commissioner w db league_id user_id)
      (λ _ db'.
        then_update
          (update_leagues w.update_fails (reactivates_row league_id) (reactivate league_id)
            league_not_cancelled db')
          w.reset_fails (λ d. record d { members = map (reset_member league_id) d.members }))
      db
