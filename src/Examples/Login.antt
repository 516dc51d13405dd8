-- ===== src/Examples/Login.antt =====
-- Connecting a wallet and signing in, at concrete values.
use wagr.Common.{refl, ◌≡◌, List, [], ◌∷◌, none, some}
use wagr.Js.Effects.{ok}
use wagr.Types.Wallet.{WalletType}
use wagr.Session.{VerifyBody, asked_nonce, token_key, User, World, initial, connect}
use wagr.Session.Login.{ConnectEnds, connect_lem}
use wagr.Session.Reload.{
  Event, restores, connects, disconnects, authenticates, run_all, initial-run_all,
}
use wagr.Session.Overlap
use wagr.Session.Overlap.{
  idle, awaits_verification, verification_arrives, begin, step, verification-disconnect,
}
use wagr.Session.Wallets.{detect_wallets}
use wagr.Examples.{answer, wallet, nothing_stored}

abbrev pub user : User
user = record {
  id = "u1";
  wallet_address = "0.0.5";
  wallet_type = "hedera";
  created_at = "";
  updated_at = "";
}

abbrev pub outside : World
outside = record {
  current_user = answer 200 user;
  connection = λ name network. ok wallet;
  nonce = answer 200 (record { message = "Sign in" });
  sign = λ message state. ok (record { signature = "ab"; key_type = none });
  verify =
      λ address message signature. answer 200 (record { message = ""; token = "t"; user = user });
}

connect_example :
    ConnectEnds outside WalletType.hedera "hashpack" none
      (initial nothing_stored)
      (connect outside WalletType.hedera "hashpack" none (initial nothing_stored)).0
      (connect outside WalletType.hedera "hashpack" none (initial nothing_stored)).1
connect_example = connect_lem outside WalletType.hedera "hashpack" none (initial nothing_stored)

abbrev happens : List Event
happens =
    connects outside WalletType.hedera "hashpack" none
    ∷ disconnects
    ∷ authenticates outside
    ∷ connects outside WalletType.hedera "hashpack" none
    ∷ restores outside
    ∷ []

initial-run_all_example :
    let s = run_all happens (initial nothing_stored) in (initial s.storage).token ≡ s.token
initial-run_all_example = initial-run_all nothing_stored happens

abbrev verified : VerifyBody
verified = record { message = ""; token = "t"; user = user }

-- An authentication first asks the server.
begin-asks : begin wallet (initial nothing_stored) ≡ (
  Overlap.awaits_nonce wallet,
  record (initial nothing_stored) { trace = asked_nonce wallet.address wallet.wallet_type ∷ [] },
)
unfolding initial
begin-asks = refl

verification-disconnect_example :
    let (phase, t) =
      step Overlap.disconnects
        (awaits_verification wallet "Sign in" "ab")
        (initial nothing_stored) in
    let q = (step (verification_arrives (answer 200 verified)) phase t).1 in
    (q.wallet_state ≡ none)
    × (q.token ≡ some "t")
    × (q.user ≡ some user)
    × (q.storage token_key ≡ some "t")
verification-disconnect_example =
    verification-disconnect wallet "Sign in" "ab"
      (record { status = 200; text = ok ""; json = ok verified }) verified (initial nothing_stored)
      refl refl

-- HashPack is found, under its name.
detect_wallets-hashpack :
    (detect_wallets (initial nothing_stored)).available_wallets
    ≡ record {
      wallet_type = WalletType.hedera;
      name = "hashpack";
      display_name = "HashPack";
      icon = none;
    }
      ∷ []
unfolding detect_wallets
detect_wallets-hashpack = refl
