-- ===== src/Examples/Lists.antt =====
-- The list of leagues and the import dialog at concrete values.
use wagr.Common.{String, none, some, false, List, [], ◌∷◌}
use wagr.Types.League.{PlatformLeague, PlatformProfile}
use wagr.Leagues.{Page}
use wagr.Import.{Event, World, opens, types, links, picks, goes_back, imports}
use wagr.Examples.{answer, league}

abbrev clicked : Page
clicked = record {
  leagues = league ∷ [];
  loading = false;
  error = none;
  deleting_id = none;
  confirm_id = some "7";
  trace = [];
}

abbrev profile : PlatformProfile
profile = record {
  id = "p";
  user_id = "u1";
  platform = "sleeper";
  platform_user_id = "s1";
  platform_username = "ada";
  display_name = "Ada";
  avatar_url = "";
  linked_at = "";
  updated_at = "";
}

abbrev listed : String → PlatformLeague
listed id = record {
  platform_league_id = id;
  name = "Monday";
  sport = "nfl";
  season = "2025";
  status = "in_season";
  total_rosters = 10;
  scoring_type = "ppr";
}

abbrev outside : World
outside = record {
  link = answer 200 (record { error = none; content = profile });
  leagues = answer 200 (some (listed "9" ∷ listed "10" ∷ []));
}

-- The first league of the list is on the page already, so the first pick does nothing.
abbrev clicks : List Event
clicks =
    opens
    ∷ types " ada "
    ∷ links outside
    ∷ picks 0
    ∷ picks 1
    ∷ goes_back
    ∷ picks 1
    ∷ imports (answer 200 (record { error = none; content = tt }))
    ∷ []
