-- ===== src/Examples/Wallet.antt =====
-- The wallet at concrete values: its transactions, its signatures and its connection.
use wagr.Common.{
  ℕ, zero, suc, ◌≡◌, ◌≢◌, refl, eq_iff, ◌⊎◌, arith, List, [], ◌∷◌, All, some, none, Option, String,
  true, replicate,
}
use wagr.Js.Effects.{Result, ok, throw, error, is_throw}
use wagr.Hedera.{Connector, HederaStrategy, PayParams, pay_entry_fee_usdc, payment}
use wagr.Hedera.Transactions.{identify, first_step, pay_entry_fee_usdc_lem}
use wagr.Hedera.Encoding.{uint8_array_to_hex, league_id_bytes32, strip_dashes, pad_end}
use wagr.Hedera.Encoding.RoundTrip.{
  uint8_array_to_hex-league_id_bytes32, IsHex, size, pad_end-IsHex,
}
use wagr.Hedera.Encoding.Words.{league_word, league_word-inj}
use wagr.Types.Wallet.{HederaNetworkId}
use wagr.Hedera.Signing.{Wallet, encoded}
use wagr.Hedera.Signing.Laws.{IsByte}
use wagr.Hedera.Connection.{
  World, Event, timed_out, session_connected, polled, begun, wait, connect,
}
use wagr.Hedera.Connection.Laws.{
  first_decision, Ends, wait-first_decision, connect-Ends, connect-init_throws,
}
use wagr.Examples.{wallet, connector, strategy, sdk, signer}

abbrev params : PayParams
params = record {
  league_id = "0a1b2c3d-0000-4000-8000-00000000ffff";
  amount_usdc = 50_000_000;
  contract_id = "0.0.77";
  usdc_token_id = "0.0.429274";
  wallet_state = wallet;
}

pay_entry_fee_usdc_example :
    let (result, sent) = pay_entry_fee_usdc strategy sdk params [] in
    ((sent ≡ first_step params ∷ payment params ∷ [])
      × (result ≡ identify (sdk.execute (payment params))))
    ⊎ ((is_throw result ≡ true) × ((sent ≡ []) ⊎ (sent ≡ first_step params ∷ [])))
pay_entry_fee_usdc_example = pay_entry_fee_usdc_lem strategy sdk params

abbrev uuid : String
uuid = "0a1b-ff"

uuid-IsHex : IsHex (strip_dashes uuid)
unfolding strip_dashes wagr.Js.Number.digit_char
uuid-IsHex = (
  (0, omega arith, refl),
  (
    (10, omega arith, refl),
    (
      (1, omega arith, refl),
      ((11, omega arith, refl), ((15, omega arith, refl), ((15, omega arith, refl), tt))),
    ),
  ),
)

size-uuid : size (strip_dashes uuid) ≡ 6
unfolding strip_dashes
size-uuid = refl

uint8_array_to_hex-league_id_bytes32_example :
    uint8_array_to_hex (league_id_bytes32 uuid) ≡ pad_end 64 (strip_dashes uuid)
uint8_array_to_hex-league_id_bytes32_example =
    uint8_array_to_hex-league_id_bytes32 uuid uuid-IsHex (omega (arith, size-uuid))

abbrev one : String
one = pad_end 32 "1"

abbrev two : String
two = pad_end 32 "2"

one-IsHex : IsHex (strip_dashes one)
unfolding strip_dashes pad_end wagr.Js.Number.digit_char
one-IsHex = pad_end-IsHex 32 "1" ((1, omega arith, refl), tt)

two-IsHex : IsHex (strip_dashes two)
unfolding strip_dashes pad_end wagr.Js.Number.digit_char
two-IsHex = pad_end-IsHex 32 "2" ((2, omega arith, refl), tt)

sizes : (size (strip_dashes one) ≡ 32) × (size (strip_dashes two) ≡ 32)
unfolding strip_dashes pad_end
sizes = (refl, refl)

differ : strip_dashes one ≢ strip_dashes two
unfolding strip_dashes pad_end
differ e = ground (arith, (eq_iff _ _).1 e)

league_word-inj_example : league_word one ≢ league_word two
league_word-inj_example = league_word-inj one two one-IsHex two-IsHex sizes.0 sizes.1 differ

-- A wallet that answers in base64, with 64 equal bytes.
abbrev signature : List ℕ
signature = replicate 64 7

abbrev hashpack : Wallet
hashpack = record {
  sign_message = λ account message. ok (some (encoded "CgA="));
  decode = λ text. ok (record { ecdsa_secp256k1 = none; ed25519 = some signature } ∷ []);
}

replicate-IsByte : (n : ℕ) → All IsByte (replicate n 7)
replicate-IsByte zero = tt
replicate-IsByte (suc n) = (omega arith, replicate-IsByte n)

-- The signer shows at the second poll, before the session's own event and the timer.
abbrev events : List Event
events = polled [] ∷ polled (signer ∷ []) ∷ session_connected none ∷ timed_out ∷ []

wait-first_decision_example : (wait events begun).outcome ≡ first_decision events
wait-first_decision_example = wait-first_decision events

abbrev make_connector : HederaNetworkId → String → Result (Option Connector)
make_connector network project_id = ok (some connector)

abbrev outside : World
outside = record {
  load_wallet_connect = ok tt;
  load_sdk = ok tt;
  create = some make_connector;
  init = ok tt;
  open_modal = ok tt;
  opening = [];
  events = events;
  timer_id = 1;
  mirror = λ url. ok (
    record {
      status = 200;
      text = ok "";
      json = ok (some (record { key = some "ab"; key_type = none }));
    },
    "OK",
  );
  text_of = λ e. "Error";
}

abbrev begins_alone : HederaStrategy
begins_alone = record strategy { connector = none }

connect-Ends_example :
    Ends outside "testnet"
      (connect outside none begins_alone).0
      (connect outside none begins_alone).1
connect-Ends_example = connect-Ends outside none begins_alone refl

-- The outside where the relay cannot be reached.
abbrev unreachable : World
unreachable = record outside { init = throw (error "relay"); opening = polled [] ∷ [] }

connect-init_throws_example :
    let (result, s) = connect unreachable none begins_alone in
    (result ≡ throw (error "relay")) × (s.strategy.connection_timeout ≡ none) × (s.polling ≡ true)
connect-init_throws_example =
    connect-init_throws unreachable none begins_alone make_connector connector (error "relay") refl
      refl refl refl refl refl refl
