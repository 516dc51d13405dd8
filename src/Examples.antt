-- ===== src/Examples.antt =====
-- A league, its members, a wallet and the answers of a server, for the examples.
pub mod Form
pub mod Wallet
pub mod Payment
pub mod Display
pub mod Login
pub mod Lists
pub mod Contract
pub mod Network
pub mod Controls
pub mod Server
pub mod SeasonEnd
pub mod Weekly
use wagr.Common.{
  ℕ, String, Option, none, some, Bool, true, false, List, [], ◌∷◌, ltb, ◌==◌, if◌then◌else◌,
}
use wagr.Common.Int.{ℤ, pos}
use wagr.Js.Effects.{Thrown, Result, ok, throw, Response}
use wagr.Types.League.{
  League, LeagueMember, LeagueDetail, LeagueSettings, PayoutEntry, PaymentInstructions,
  PaymentStatus, unpaid, paid, refunded, placement, weekly, weekly_high_score, score_threshold,
}
use wagr.Types.Wallet.{WalletType, WalletState}
use wagr.Hedera.{Signer, Connector, HederaStrategy, Sdk}
use wagr.Overview.{Page, Context, hedera_strategy, initial}

abbrev pub nothing_stored : String → Option String
nothing_stored key = none

abbrev pub answer {ℓ} : {A : Type ℓ} → ℕ → A → Result (Response A)
answer status body = ok (record { status = status; text = ok ""; json = ok body })

abbrev pub first_place : PayoutEntry
first_place = record {
  entry_type = some placement;
  bonus_type = none;
  label = "1st Place";
  place = some 1;
  amount_cents = pos 50_000;
  weeks = none;
  criteria = none;
}

abbrev pub high_score : PayoutEntry
high_score = record {
  entry_type = some weekly;
  bonus_type = some weekly_high_score;
  label = "Weekly High Score";
  place = none;
  amount_cents = pos 1000;
  weeks = some (pos 14);
  criteria = none;
}

-- An entry as older settings stored it: no type and no label.
abbrev pub untyped : PayoutEntry
untyped = record first_place { entry_type = none; label = ""; place = none }

abbrev pub two_rows : List PayoutEntry
two_rows = first_place ∷ high_score ∷ []

abbrev pub settings : LeagueSettings
settings = record {
  entry_fee_cents = pos 5000;
  total_rosters = 12;
  payout_structure = some two_rows;
  is_commissioner = true;
  cancelled_at = none;
}

abbrev pub league : League
league = record {
  id = "7";
  platform = "sleeper";
  platform_league_id = "9";
  name = "Sunday";
  season = "2025";
  sport = "nfl";
  status = "in_season";
  total_rosters = 12;
  scoring_type = none;
  entry_fee_cents = pos 5000;
  is_commissioner = false;
  imported_by = "u2";
  imported_at = "";
  last_synced_at = none;
  cancelled_at = none;
}

abbrev pub member : LeagueMember
member = record {
  id = "m1";
  league_id = "7";
  user_id = some "u1";
  platform = "sleeper";
  platform_user_id = "p1";
  platform_username = "ada";
  team_name = "";
  display_name = "Ada";
  avatar_url = "";
  is_owner = true;
  roster_id = 1;
  wins = 3;
  losses = 1;
  ties = 0;
  total_points = pos 400;
  wallet_address = "0.0.5";
  payment_status = unpaid;
  payment_token = none;
  transaction_hash = none;
  paid_at = none;
  joined_at = "";
}

abbrev pub detail : LeagueDetail
detail = record { league = league; members = member ∷ [] }

abbrev pub cancelled : LeagueDetail
cancelled = record {
  league = record league { cancelled_at = some "2025-11-01" };
  members = record member { payment_status = refunded; transaction_hash = some "0.0.5@9" } ∷ [];
}

abbrev pub wallet : WalletState
wallet = record {
  wallet_type = WalletType.hedera;
  address = "0.0.5";
  account_id = some "0.0.5";
  balance = none;
  network = some "testnet";
  public_key = none;
  key_type = none;
}

abbrev pub signer : Signer
signer = record { get_account_id = some "0.0.5"; account_id = none }

abbrev pub connector : Connector
connector = record { signers = some (signer ∷ []) }

abbrev pub strategy : HederaStrategy
strategy = record { connector = some connector; project_id = "wagr"; connection_timeout = none }

-- A wallet that signs everything.
abbrev pub sdk : Sdk
sdk = record {
  load = ok tt;
  freeze = λ tx. ok tt;
  execute = λ tx. ok (record { transaction_id = some "0.0.5@1700000000.000000001"; text = "" });
}

-- A server that finds the transaction when it is asked for the third time.
abbrev pub third_time : ℕ → Result (Response (Unit {0}))
third_time attempt = answer (if ltb attempt 3 then 402 else 200) tt

abbrev pub context : Context
context = record {
  league_id = some "7";
  token = some "t";
  user_id = some "u1";
  wallet_state = some wallet;
  active_strategy = some (hedera_strategy strategy);
}

abbrev pub page : Page
page = record (initial context nothing_stored) { detail = some detail; loading = false }

abbrev pub instructions : PaymentInstructions
instructions = record {
  contract_id = "0.0.77";
  usdc_token_id = "0.0.429274";
  amount_usdc = 50_000_000;
  amount_formatted = "$50.00";
}
