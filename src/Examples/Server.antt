-- ===== src/Examples/Server.antt =====
-- The service's payments, and the page that it answers, at concrete values.
use wagr.Common.{
  ℕ, String, Option, none, some, Bool, true, false, List, [], ◌∷◌, ◌++◌, replicate, ◌≡◌, ◌⊎◌, refl,
  arith,
}
use wagr.Common.Int.{pos, ltb_ℤ}
use wagr.Js.Effects.{ok}
use wagr.Js.Storage.{Storage}
use wagr.Go.{Error, Returned, returns, fails, other, already_paid}
use wagr.Database.{Database, LeagueRow, MemberRow, pending}
use wagr.Hedera.Encoding.{league_id_bytes32}
use wagr.Overview.{Page, Context, initial}
use wagr.Overview.Pay.{handle_retry_confirm}
use wagr.Overview.Pay.Laws.{Settled}
use wagr.Overview.Refund.{handle_retry_refund_confirm}
use wagr.Overview.Refund.Laws
use wagr.Service.Encoding.{uuid_to_bytes32, decode_string}
use wagr.Service.Encoding.Laws.{uuid_to_bytes32-league_id_bytes32}
use wagr.Service.Mirror.{Mirror, put_uint, hedera_account_to_evm, get_account_evm_address}
use wagr.Service.Mirror.Laws.{word_text}
use wagr.Service.Payments.{
  World, find_member, check_payment, confirm_payment, initiate_payment, on_chain, mark_members,
}
use wagr.Service.Payments.Client.{
  HasPaid, handle_retry_confirm-Paid, handle_retry_refund_confirm-Refused,
}
use wagr.Service.Payments.Handlers.{handle_confirm_payment, handle_confirm_refund}
use wagr.Service.Payments.Laws.{HasFee, Writes, confirm_payment-Writes}
use wagr.Service.Payments.Once.{confirm_payment-once}
use wagr.Examples.{context, instructions, sdk, third_time}

abbrev pub uuid : String
uuid = "00000000-0000-0000-0000-0000000000Af"

abbrev pub uuid_bytes : List ℕ
uuid_bytes = replicate 15 0 ++ (175 ∷ replicate 16 0)

pub uuid-uuid_bytes : uuid_to_bytes32 uuid ≡ returns uuid_bytes
unfolding uuid_to_bytes32 decode_string wagr.Hedera.Encoding.strip_dashes wagr.Js.Number.digit_in
uuid-uuid_bytes = refl

uuid_to_bytes32-league_id_bytes32_example : league_id_bytes32 uuid ≡ uuid_bytes
uuid_to_bytes32-league_id_bytes32_example =
    uuid_to_bytes32-league_id_bytes32 uuid uuid_bytes uuid-uuid_bytes

-- The contract has 50 USDC for the account 0.0.5.
abbrev mirror : Mirror
mirror = record {
  evm_address = λ account. none;
  call_contract = λ contract call_data. returns (word_text 50_000_000);
  selector = λ signature. 1 ∷ 2 ∷ 3 ∷ 4 ∷ [];
}

abbrev server : World
server = record {
  escrow_contract_id = "0.0.77";
  usdc_token_id = "0.0.429274";
  mirror = mirror;
  now = "2025-09-01";
  query_fails = none;
  update_fails = none;
  reset_fails = none;
  format_dollars = λ cents. "$50.00";
}

abbrev pub league_row : LeagueRow
league_row = record {
  id = uuid;
  platform = "sleeper";
  platform_league_id = "9";
  season = "2025";
  status = some "in_season";
  entry_fee_cents = pos 5000;
  cancelled_at = none;
  payout_status = pending;
  payout_tx_hash = none;
}

abbrev unpaid_row : MemberRow
unpaid_row = record {
  league_id = uuid;
  platform = "sleeper";
  platform_user_id = "p5";
  is_owner = true;
  roster_id = 1;
  wallet_address = none;
  payment_status = "unpaid";
  transaction_hash = none;
}

abbrev paid_row : MemberRow
paid_row = record unpaid_row { payment_status = "paid"; transaction_hash = some "0.0.5@1" }

abbrev tables : MemberRow → Database
tables row = record {
  leagues = league_row ∷ [];
  members = row ∷ [];
  profiles = record { user_id = "5"; platform = "sleeper"; platform_user_id = "p5" } ∷ [];
  users = record { id = "5"; wallet_address = "0.0.5" } ∷ [];
}

unpaid_row-found :
    find_member server (tables unpaid_row) uuid "5" ≡ returns (unpaid_row, league_row)
unfolding find_member
unpaid_row-found = refl

paid_row-found : find_member server (tables paid_row) uuid "5" ≡ returns (paid_row, league_row)
unfolding find_member
paid_row-found = refl

-- What is not of three parts, and what is no number, have no address; what follows a number is not read.
texts_as_accounts :
    (hedera_account_to_evm "0.0.300x" ≡ returns (replicate 18 0 ++ (1 ∷ 44 ∷ [])))
    × (hedera_account_to_evm "300" ≡ fails (other "expected format 0.0.NNNNN"))
    × (hedera_account_to_evm "0.0.x" ≡ fails (other "invalid account number"))
    × (hedera_account_to_evm "0.0.18446744073709551616" ≡ fails (other "invalid account number"))
unfolding hedera_account_to_evm wagr.Js.Number.digit_in
texts_as_accounts = (refl, refl, refl, refl)

has_paid : HasPaid server (tables unpaid_row) uuid "5" unpaid_row league_row 50_000_000
unfolding get_account_evm_address hedera_account_to_evm wagr.Js.Number.digit_in
has_paid = record {
  member = replicate 12 0 ++ put_uint 8 5;
  league = uuid_bytes;
  contract = replicate 12 0 ++ put_uint 8 77;
  member_known = refl;
  league_known = uuid-uuid_bytes;
  contract_known = refl;
  answered = refl;
}

confirm_payment-Writes_example :
    Writes
      (tables unpaid_row)
      (confirm_payment server uuid "5" "0.0.5@1" (tables unpaid_row))
      (tables paid_row)
      ((m : MemberRow) × (paid : ℕ) × HasFee server uuid "5" "0.0.5@1"
          (tables unpaid_row)
          m
          league_row
          5000
          paid)
confirm_payment-Writes_example =
    confirm_payment-Writes server uuid "5" "0.0.5@1" (tables unpaid_row) league_row 5000 refl refl
      (omega arith)

-- The requirement of a fee that in millionths of a dollar is above 2 ^ 63 wraps around.
abbrev dear : LeagueRow
dear = record league_row { entry_fee_cents = pos 922_337_203_685_478 }

dear-wraps : ltb_ℤ (pos 0) (wagr.Service.Payments.required_usdc dear) ≡ false
unfolding wagr.Go.int64 wagr.Common.Int.◌*ℤ◌
dear-wraps = refl

-- The page of the league, with a transaction in local storage.
abbrev session : Context
session = record context { league_id = some uuid }

abbrev stored : Storage
stored key = some "0.0.5@1"

abbrev waiting : Page
waiting = initial session stored

waiting_tx : waiting.pending_tx_id ≡ some "0.0.5@1"
unfolding initial
waiting_tx = refl

waiting_refund : waiting.pending_refund_tx_id ≡ some "0.0.5@1"
unfolding initial
waiting_refund = refl

abbrev paying : wagr.Overview.Pay.World
paying = record {
  instructions = wagr.Examples.answer 200 instructions;
  sdk = sdk;
  confirmation = λ attempt.
      ok (handle_confirm_payment server uuid (some "5") (some "0.0.5@1") (tables unpaid_row)).0;
}

abbrev claiming : wagr.Overview.Refund.World
claiming = record {
  contract_id = some "0.0.77";
  sdk = sdk;
  contract_result = λ id. wagr.Examples.answer 404 none;
  confirmation = λ attempt.
      ok (handle_confirm_refund server uuid (some "5") (some "0.0.5@1") (tables paid_row)).0;
}

handle_retry_confirm-Paid_example :
    Settled session paying "0.0.5@1" waiting (handle_retry_confirm session paying waiting)
    × ((handle_confirm_payment server uuid (some "5") (some "0.0.5@1") (tables unpaid_row)).1
        ≡ mark_members uuid "5" "paid" (some "0.0.5@1") (tables unpaid_row))
handle_retry_confirm-Paid_example =
    handle_retry_confirm-Paid session server (tables unpaid_row) "5" "0.0.5@1" waiting paying
      unpaid_row league_row 5000 50_000_000 refl refl waiting_tx refl refl unpaid_row-found refl
      refl has_paid (omega arith) (omega arith)

handle_retry_refund_confirm-Refused_example :
    wagr.Overview.Refund.Laws.Settled session claiming "0.0.5@1" waiting
      (handle_retry_refund_confirm session claiming waiting)
    × ((handle_confirm_refund server uuid (some "5") (some "0.0.5@1") (tables paid_row)).1
        ≡ tables paid_row)
handle_retry_refund_confirm-Refused_example =
    handle_retry_refund_confirm-Refused session server (tables paid_row) "5" "0.0.5@1" waiting
      claiming paid_row league_row refl refl waiting_refund refl paid_row-found refl refl

confirmed : (confirm_payment server uuid "5" "0.0.5@1" (tables unpaid_row)).0 ≡ returns tt
unfolding confirm_payment check_payment on_chain get_account_evm_address uuid_to_bytes32
    wagr.Hedera.Encoding.strip_dashes wagr.Js.Number.digit_in
    wagr.Service.Mirror.read_contract_payment wagr.Service.Mirror.trim_prefix
    wagr.Hedera.Encoding.uint8_array_to_hex wagr.Go.int64 wagr.Common.Int.◌*ℤ◌
confirmed = refl

confirm_payment-once_example :
    let db = (confirm_payment server uuid "5" "0.0.5@1" (tables unpaid_row)).1 in
    (confirm_payment server uuid "5" "0.0.5@2" db ≡ (fails already_paid, db))
    × (initiate_payment server db uuid "5" ≡ fails already_paid)
confirm_payment-once_example =
    confirm_payment-once server server uuid "5" "0.0.5@1" "0.0.5@2" (tables unpaid_row) confirmed
      refl
