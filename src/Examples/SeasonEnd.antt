-- ===== src/Examples/SeasonEnd.antt =====
-- Payouts at a season's end, and statuses of leagues, at concrete values.
use wagr.Common.{
  ℕ, ◌+◌, ◌≤◌, ◌<◌, String, Option, none, some, Bool, true, false, List, [], ◌∷◌, ◌++◌, map,
  replicate, ◌≡◌, ◌≢◌, refl, arith,
}
use wagr.Common.Int.{ℤ, pos}
use wagr.Go.{Error, Returned, returns, fails}
use wagr.Database.{pending}
use wagr.Evm.{done, set, uint256_limit}
use wagr.Escrow.{
  Chain, pay_entry_fee, distribute_payout, fresh, transact, execute, run_pay_entry_fee,
}
use wagr.Escrow.MockUsdc.{MockUsdc, mock_erc20, mock_erc20-IsErc20, transfer_from, move}
use wagr.Escrow.Payouts.{share, balance}
use wagr.Escrow.Reached.{created, called}
use wagr.Hedera.Encoding.Words.{word_from}
use wagr.Service.Encoding.{uuid_to_bytes32}
use wagr.Oracle.SeasonEnd.{
  World, OracleLeague, ResolvedPayout, plan, claims, amount_of, starts, ended,
}
use wagr.Oracle.SeasonEnd.Wiring.{season_end_deps, season_end_deps-performed}
use wagr.Service.Mirror.{Mirror, put_uint, hedera_account_to_evm, get_account_evm_address}
use wagr.Service.Mirror.Laws.{word_text}
use wagr.Oracle.SeasonEnd.Laws.{Ends, settle_season_end-Ends}
use wagr.Oracle.SeasonEnd.Once.{AtMostOnce, Reached-AtMostOnce}
use wagr.Oracle.SeasonEnd.Runs.{
  Ledger, System, goes_on, begins, later, advance, opened, settle_season_end,
}
use wagr.Oracle.Status.{refresh_league_statuses}
use wagr.Oracle.Status.Rows.{RowsAdvance, refresh_league_statuses-RowsAdvance}
use wagr.Examples.Contract.{escrow, tokens}
use wagr.Examples.Server.{uuid, uuid_bytes, league_row}

abbrev pot : ℕ
pot = word_from 0 uuid_bytes

-- The member 5 has paid 50 USDC.
abbrev paid_in : Chain (ℕ → MockUsdc)
paid_in = transact mock_erc20 escrow 5 (pay_entry_fee pot 50_000_000) (fresh tokens)

paid_in-total : paid_in.league_totals pot ≡ 50_000_000
unfolding transact execute run_pay_entry_fee transfer_from move uint256_limit
paid_in-total = refl

abbrev league : OracleLeague
league = record {
  id = uuid;
  platform = "sleeper";
  platform_league_id = "9";
  payout_structure =
      record {
        entry_type = "placement";
        bonus_type = "";
        place = 1;
        amount_cents = pos 5000;
        threshold = none;
      }
      ∷ [];
}

abbrev world : World
world = record {
  platform_status = returns "complete";
  final_standings = returns (record { roster_id = 1; place = 1 } ∷ []);
  members = returns (record { roster_id = 1; wallet_address = "0.0.5" } ∷ []);
  resolve_evm = λ wallet. returns 5;
  escrow_balance = λ id. returns (pos 50_000_000);
  distribute = λ id recipients amounts. returns "0.0.9@7";
  write_fails = none;
}

abbrev first : ResolvedPayout
first = record { roster_id = 1; place = 1; amount_cents = pos 5000; evm_addr = 5 }

-- The contract has 50 USDC, and no account has an alias.
abbrev mirror : Mirror
mirror = record {
  evm_address = λ account. none;
  call_contract = λ contract call_data. returns (word_text 50_000_000);
  selector = λ signature. [];
}

planned : plan (season_end_deps mirror "0.0.77" world) league ≡ claims uuid_bytes (first ∷ [])
unfolding plan season_end_deps hedera_account_to_evm get_account_evm_address
    wagr.Service.Mirror.read_contract_payment wagr.Service.Mirror.trim_prefix
    wagr.Hedera.Encoding.uint8_array_to_hex uuid_to_bytes32 wagr.Oracle.SeasonEnd.find_last
    wagr.Hedera.Encoding.strip_dashes wagr.Js.Number.digit_in wagr.Go.int64 wagr.Common.Int.◌+ℤ◌
    wagr.Common.Int.◌*ℤ◌
planned = refl

first-amount_of : amount_of first ≡ pos 50_000_000
unfolding wagr.Go.int64 wagr.Common.Int.◌*ℤ◌
first-amount_of = refl

paid_in-room :
    (holder : ℕ)
    → balance mock_erc20 escrow holder paid_in + paid_in.league_totals pot < uint256_limit
unfolding transact execute run_pay_entry_fee transfer_from move uint256_limit
paid_in-room holder = ground arith

known : hedera_account_to_evm "0.0.77" ≡ returns (replicate 12 0 ++ put_uint 8 77)
unfolding hedera_account_to_evm wagr.Js.Number.digit_in
known = refl

season_end_deps-performed_example :
    (c' : Chain (ℕ → MockUsdc)) × (execute mock_erc20 escrow 1
        (distribute_payout pot (5 ∷ []) (50_000_000 ∷ []))
        paid_in
      ≡ done c')
    × (c'.league_totals pot + 50_000_000 ≡ paid_in.league_totals pot)
    × ((holder : ℕ)
        → holder ≢ 77
        → balance mock_erc20 escrow holder c'
          ≡ balance mock_erc20 escrow holder paid_in + share holder (5 ∷ []) (50_000_000 ∷ []))
season_end_deps-performed_example =
    season_end_deps-performed mock_erc20 escrow mock_erc20-IsErc20 mirror "0.0.77" world league
      uuid_bytes (replicate 12 0 ++ put_uint 8 77) (first ∷ []) (5000 ∷ []) paid_in planned refl
      (omega arith) known (rw paid_in-total refl) (omega (arith, paid_in-total))
      (called 5 (pay_entry_fee pot 50_000_000) (fresh tokens) (λ e. absurd (omega arith))
        (λ amount e. cc) (created tokens))
      (refl, tt) paid_in-room

abbrev ledger : Ledger
ledger = record {
  status = some "in_season";
  payout_status = pending;
  payout_tx_hash = none;
  sent = [];
  recorded = [];
}

settle_season_end-Ends_example :
    let (last, l') = settle_season_end world league ledger in
    (r : Returned (Unit {0})) × (last ≡ ended r) × Ends world league ledger (plan world league) r l'
settle_season_end-Ends_example = settle_season_end-Ends world league ledger refl refl

-- A run that goes on at its place.
abbrev moved : ℕ → System → System
moved i s = record {
  ledger = (advance world league (s.runs i) s.ledger).1;
  runs = set i (advance world league (s.runs i) s.ledger).0 s.runs;
}

-- Two runs read the row before either has claimed it; then both go on to their ends.
abbrev raced : System
raced = moved 1 (moved 0 (moved 1 (moved 0 (moved 1 (moved 0 (opened none))))))

Reached-AtMostOnce_example : AtMostOnce raced
Reached-AtMostOnce_example = Reached-AtMostOnce (
    later
      (later
        (later
          (later
            (later (later (begins none) (goes_on 0 world league refl))
              (goes_on 1 world league refl))
            (goes_on 0 world league refl))
          (goes_on 1 world league refl))
        (goes_on 0 world league refl))
      (goes_on 1 world league refl))

abbrev statuses : wagr.Oracle.Status.World
statuses = record {
  current_season = λ platform. returns "2025";
  platform_status = λ platform id. returns "complete";
  update_fails = λ id. false;
}

refresh_league_statuses-RowsAdvance_example :
    RowsAdvance (league_row ∷ []) (
      refresh_league_statuses statuses (record league_row { status = none } ∷ []) (league_row ∷ []))
refresh_league_statuses-RowsAdvance_example =
    refresh_league_statuses-RowsAdvance statuses (record league_row { status = none } ∷ [])
      (league_row ∷ [])
