-- ===== src/Types/League.antt =====
-- src/web/src/types/league.ts. Optional and nullable fields are `Option`; all numbers are integers.
use wagr.Common.{ℕ, String, Option, Bool, true, false, List}
use wagr.Common.Int.{ℤ}

pub record League : Type 0 where
  pub id : String
  pub platform : String
  pub platform_league_id : String
  pub name : String
  pub season : String
  pub sport : String
  pub status : String
  pub total_rosters : ℕ
  pub scoring_type : Option String
  pub entry_fee_cents : ℤ
  pub is_commissioner : Bool
  pub imported_by : String
  pub imported_at : String
  pub last_synced_at : Option String
  pub cancelled_at : Option String

pub data BonusType : Type 0 where
  weekly_high_score score_threshold highest_weekly_score : BonusType

pub record BonusCriteria : Type 0 where
  pub threshold : Option ℤ

pub data EntryType : Type 0 where
  placement weekly : EntryType

-- The field `type`; `none` is a stored entry that lacks it.
pub record PayoutEntry : Type 0 where
  pub entry_type : Option EntryType
  pub bonus_type : Option BonusType
  pub label : String
  pub place : Option ℕ
  pub amount_cents : ℤ
  pub weeks : Option ℤ
  pub criteria : Option BonusCriteria

-- `payout_structure` may be absent or `null` in a reply.
pub record LeagueSettings : Type 0 where
  pub entry_fee_cents : ℤ
  pub total_rosters : ℕ
  pub payout_structure : Option (List PayoutEntry)
  pub is_commissioner : Bool
  pub cancelled_at : Option String

pub record PlatformLeague : Type 0 where
  pub platform_league_id : String
  pub name : String
  pub sport : String
  pub season : String
  pub status : String
  pub total_rosters : ℕ
  pub scoring_type : String

pub data PaymentToken : Type 0 where
  hbar usdc : PaymentToken

pub data PaymentStatus : Type 0 where
  unpaid paid refunded : PaymentStatus

pub record LeagueMember : Type 0 where
  pub id : String
  pub league_id : String
  pub user_id : Option String
  pub platform : String
  pub platform_user_id : String
  pub platform_username : String
  pub team_name : String
  pub display_name : String
  pub avatar_url : String
  pub is_owner : Bool
  pub roster_id : ℕ
  pub wins : ℕ
  pub losses : ℕ
  pub ties : ℕ
  pub total_points : ℤ
  pub wallet_address : String
  pub payment_status : PaymentStatus
  pub payment_token : Option PaymentToken
  pub transaction_hash : Option String
  pub paid_at : Option String
  pub joined_at : String

pub record PaymentInstructions : Type 0 where
  pub contract_id : String
  pub usdc_token_id : String
  pub amount_usdc : ℕ
  pub amount_formatted : String

pub record LeagueDetail : Type 0 where
  pub league : League
  pub members : List LeagueMember

pub record PlatformProfile : Type 0 where
  pub id : String
  pub user_id : String
  pub platform : String
  pub platform_user_id : String
  pub platform_username : String
  pub display_name : String
  pub avatar_url : String
  pub linked_at : String
  pub updated_at : String

-- `===` on the tags of the unions above.
abbrev pub same_bonus : BonusType → BonusType → Bool
same_bonus weekly_high_score weekly_high_score = true
same_bonus score_threshold score_threshold = true
same_bonus highest_weekly_score highest_weekly_score = true
same_bonus _ _ = false

abbrev pub is_weekly : Option EntryType → Bool
is_weekly (Option.some weekly) = true
is_weekly _ = false

abbrev pub is_placement : Option EntryType → Bool
is_placement (Option.some placement) = true
is_placement _ = false

abbrev pub is_paid : PaymentStatus → Bool
is_paid paid = true
is_paid _ = false

abbrev pub is_refunded : PaymentStatus → Bool
is_refunded refunded = true
is_refunded _ = false
