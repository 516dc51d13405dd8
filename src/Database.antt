-- ===== src/Database.antt =====
-- The tables of src/internal/database/migrations, as far as the services under src/internal/league
-- read and write them. A table is the list of its rows, and an identifier is a text.
use wagr.Common.{ℕ, String, Option, Bool, List}
use wagr.Common.Int.{ℤ}

-- The column `payout_status`, whose values a constraint limits.
pub data PayoutStatus : Type 0 where
  pending executing executed failed : PayoutStatus

-- `leagues`
pub record LeagueRow : Type 0 where
  pub id : String
  pub platform : String
  pub platform_league_id : String
  pub season : String
  pub status : Option String
  pub entry_fee_cents : ℤ
  pub cancelled_at : Option String
  pub payout_status : PayoutStatus
  pub payout_tx_hash : Option String

-- `league_members`
pub record MemberRow : Type 0 where
  pub league_id : String
  pub platform : String
  pub platform_user_id : String
  pub is_owner : Bool
  pub roster_id : ℕ
  pub wallet_address : Option String
  pub payment_status : String
  pub transaction_hash : Option String

-- `platform_profiles` and `users`
pub record ProfileRow : Type 0 where
  pub user_id : String
  pub platform : String
  pub platform_user_id : String

pub record UserRow : Type 0 where
  pub id : String
  pub wallet_address : String

pub record Database : Type 0 where
  pub leagues : List LeagueRow
  pub members : List MemberRow
  pub profiles : List ProfileRow
  pub users : List UserRow
