-- ===== src/Examples/Weekly.antt =====
-- The weekly bonuses of a league at concrete values.
use wagr.Common.{
  ℕ, String, none, some, false, List, [], ◌∷◌, ◌++◌, replicate, All, ◌≡◌, ◌⊎◌, inr, subst, refl,
}
use wagr.Common.Int.{pos}
use wagr.Go.{returns, fails}
use wagr.Oracle.SeasonEnd.{PayoutEntry, OracleLeague, find_last, Member}
use wagr.Oracle.Weekly.{Table, World, process_weekly_payouts}
use wagr.Oracle.Weekly.Wallets.{MembersReachable}
use wagr.Oracle.Weekly.Once.{process_weekly_payouts-once}
use wagr.Oracle.Weekly.Qualifiers.{Matchup, high_scorer, weekly_qualifiers}
use wagr.Oracle.Weekly.Qualifiers.Laws.{IsHighest, scores, high_scorer-IsHighest}
use wagr.Service.Encoding.{uuid_to_bytes32}
use wagr.Service.Mirror.{put_uint, get_account_evm_address, hedera_account_to_evm}
use wagr.Service.Mirror.Laws.{word_text}
use wagr.Examples.Server.{uuid}

-- Points in hundredths.
abbrev played : List Matchup
played =
    record { matchup_id = 1; roster_id = 1; points = pos 9540 }
    ∷ record { matchup_id = 1; roster_id = 2; points = pos 12_010 }
    ∷ record { matchup_id = 2; roster_id = 3; points = pos 12_010 }
    ∷ record { matchup_id = 0; roster_id = 4; points = pos 0 }
    ∷ []

high_scorer-IsHighest_example :
    ((high_scorer played ≡ []) × All (λ m. scores m ≡ false) played)
    ⊎ ((best : Matchup) × (high_scorer played ≡ best ∷ []) × IsHighest played best)
high_scorer-IsHighest_example = high_scorer-IsHighest played

-- The first of the two rosters with the most points.
high_scorer-played :
    high_scorer played ≡ record { matchup_id = 1; roster_id = 2; points = pos 12_010 } ∷ []
unfolding high_scorer
high_scorer-played = refl

abbrev roster : List Member
roster =
    record { roster_id = 1; wallet_address = "0.0.5" }
    ∷ record { roster_id = 2; wallet_address = "0.0.6" }
    ∷ []

abbrev world : World
world = record {
  matchups = returns played;
  members = returns roster;
  insert_fails = λ roster payout_type. none;
  load_fails = none;
  mirror = record {
    evm_address = λ account. none;
    call_contract = λ contract call_data. returns (word_text 50_000_000);
    selector = λ signature. [];
  };
  escrow_contract_id = "0.0.77";
  distribute = λ league recipients amounts. returns "0.0.9@7";
  mark_fails = λ id. false;
}

abbrev league : OracleLeague
league = record { id = uuid; platform = "sleeper"; platform_league_id = "9"; payout_structure = [] }

abbrev entries : List PayoutEntry
entries =
    record {
      entry_type = "weekly";
      bonus_type = "weekly_high_score";
      place = 0;
      amount_cents = pos 1000;
      threshold = none;
    }
    ∷ record {
      entry_type = "weekly";
      bonus_type = "score_threshold";
      place = 0;
      amount_cents = pos 500;
      threshold = some (pos 9000);
    }
    ∷ []

abbrev empty : Table
empty = record { events = []; next_id = 0; sent = [] }

returned : (process_weekly_payouts world league entries 3 empty).0 ≡ returns tt
unfolding process_weekly_payouts weekly_qualifiers find_last uuid_to_bytes32
    wagr.Hedera.Encoding.strip_dashes wagr.Js.Number.digit_in wagr.Go.int64 wagr.Common.Int.◌+ℤ◌
    wagr.Common.Int.◌*ℤ◌ hedera_account_to_evm get_account_evm_address
    wagr.Service.Mirror.read_contract_payment wagr.Service.Mirror.trim_prefix
    wagr.Hedera.Encoding.uint8_array_to_hex
returned = refl

reachable :
    (members : List Member) → world.members ≡ returns members → MembersReachable world members
unfolding get_account_evm_address hedera_account_to_evm wagr.Js.Number.digit_in
reachable members e =
    let same : roster ≡ members = cc in
    subst (MembersReachable world) same
      (inr (replicate 12 0 ++ put_uint 8 5, refl), (inr (replicate 12 0 ++ put_uint 8 6, refl), tt))

process_weekly_payouts-once_example :
    let t' = (process_weekly_payouts world league entries 3 empty).1 in
    (process_weekly_payouts world league entries 3 t').1 ≡ t'
process_weekly_payouts-once_example =
    process_weekly_payouts-once 3 entries world world league empty returned (λ id. refl) tt
      reachable refl refl
