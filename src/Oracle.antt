-- ===== src/Oracle.antt =====
-- The background jobs of src/internal/league/service_oracle.go: the refresh of the leagues' statuses
-- the weekly bonuses and the payouts at a season’s end.
pub mod Status
pub mod SeasonEnd
pub mod Weekly
