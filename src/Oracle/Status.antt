-- ===== src/Oracle/Status.antt =====
-- The refresh of the leagues' statuses in src/internal/league/service_oracle.go.
pub mod Laws
pub mod Rows
use wagr.Common.{
  ℕ, ◌+◌, String, Option, none, some, Bool, true, false, not, ◌&&◌, ◌||◌, leb, List, [], ◌∷◌,
  keep_if, is_none, or_default, ◌===◌, if◌then◌else◌,
}
use wagr.Go.{Returned, returns, fails}
use wagr.Database.{LeagueRow}

-- `leagueStatusRank`
unfoldable pub league_status_rank : String → Option ℕ
league_status_rank status =
    if status === "pre_draft"
    then some 0
    else if status === "drafting"
    then some 1
    else if status === "in_season"
    then some 2
    else if status === "post_season"
    then some 2
    else if status === "complete"
    then some 3
    else none

-- `canonicalLeagueStatus`
unfoldable pub canonical_league_status : String → String
canonical_league_status status =
    if status === "post_season" || status === "complete" then "in_season" else status

abbrev pub effective_status : String → String
effective_status stored = if stored === "" then "pre_draft" else stored

-- The rest of `nextLeagueStatus`, where `effective` is what it takes the stored status for.
abbrev pub next_after : (stored effective platform : String) → String × Bool
unfolding league_status_rank canonical_league_status
next_after stored effective platform = elim (league_status_rank effective) [
  | none ↦ (stored, false)
  | some stored_rank ↦
      if effective === "post_season"
      then elim (league_status_rank platform) [
        | none ↦ (stored, false)
        | some platform_rank ↦
            if leb stored_rank platform_rank then ("in_season", true) else (stored, false)
      ]
      else elim (league_status_rank (canonical_league_status platform)) [
        | none ↦ (stored, false)
        | some target_rank ↦
            if leb target_rank stored_rank
            then (stored, false)
            else (canonical_league_status platform, true)
      ]
]

-- `nextLeagueStatus`
unfoldable pub next_league_status : (stored platform : String) → String × Bool
unfolding league_status_rank canonical_league_status
next_league_status stored platform = next_after stored (effective_status stored) platform

-- `COALESCE(status, '')`
abbrev pub stored_status : LeagueRow → String
stored_status l = or_default l.status ""

-- The query of `RefreshLeagueStatuses`.
abbrev pub wants_refresh : LeagueRow → Bool
wants_refresh l =
    is_none l.cancelled_at
    && (is_none l.status
        || (stored_status l === "pre_draft"
            || (stored_status l === "drafting" || stored_status l === "post_season")))

-- `filterCurrentSeasonLeagues`: a platform whose season could not be read has none.
abbrev pub is_current : (String → Returned String) → LeagueRow → Bool
is_current current_season l = elim (current_season l.platform) [
  | returns season ↦ l.season === season
  | fails e ↦ false
]

unfoldable pub filter_current_season_leagues :
    (String → Returned String) → List LeagueRow → List LeagueRow
filter_current_season_leagues current_season leagues = keep_if (is_current current_season) leagues

-- `UPDATE leagues SET status = $2 WHERE id = $1 AND COALESCE(status, '') = $3`
abbrev pub set_status : (league_id old_status new_status : String) → LeagueRow → LeagueRow
set_status league_id old_status new_status l =
    if l.id === league_id && stored_status l === old_status
    then record l { status = some new_status }
    else l

unfoldable pub update_status :
    (league_id old_status new_status : String) → List LeagueRow → List LeagueRow
update_status league_id old_status new_status [] = []
update_status league_id old_status new_status (l ∷ rows) =
    set_status league_id old_status new_status l
    ∷ update_status league_id old_status new_status rows

-- What the platform answers for a league, and whether an update of its row fails.
pub record World : Type 0 where
  pub current_season : String → Returned String
  pub platform_status : (platform platform_league_id : String) → Returned String
  pub update_fails : (league_id : String) → Bool

abbrev pub write_next : World → LeagueRow → String × Bool → List LeagueRow → List LeagueRow
write_next w l (next, is_new) rows =
    if is_new && not (w.update_fails l.id)
    then update_status l.id (stored_status l) next rows
    else rows

-- One round of `refreshLeagueStatuses`.
unfoldable pub refresh_one : World → LeagueRow → List LeagueRow → List LeagueRow
refresh_one w l rows = elim (w.platform_status l.platform l.platform_league_id) [
  | fails e ↦ rows
  | returns platform ↦
      if is_none (league_status_rank platform)
      then rows
      else write_next w l (next_league_status (stored_status l) platform) rows
]

-- `refreshLeagueStatuses`: `leagues` are the rows as they were read, and `rows` those of the table.
unfoldable pub refresh_league_statuses :
    World → (leagues : List LeagueRow) → List LeagueRow → List LeagueRow
refresh_league_statuses w [] rows = rows
refresh_league_statuses w (l ∷ leagues) rows =
    refresh_league_statuses w leagues (refresh_one w l rows)

-- `RefreshLeagueStatuses`
unfoldable pub refresh : World → List LeagueRow → List LeagueRow
refresh w rows =
    refresh_league_statuses w
      (filter_current_season_leagues w.current_season (keep_if wants_refresh rows)) rows
