-- ===== src/Session.antt =====
-- src/web/src/providers/WalletProvider.tsx: the session of the user. What the server and the wallet
-- answer is given to each operation, and what it asks of them is recorded in `trace`, the latest
-- first. An operation runs from its call to its end.
pub mod Login
pub mod Reload
pub mod Overlap
pub mod Wallets
pub mod Shown
use wagr.Common.{
  ℕ, String, Option, none, some, List, [], ◌∷◌, Bool, true, false, truthy, truthy_text, or_default,
  if◌then◌else◌,
}
use wagr.Js.Effects.{
  Thrown, error, message_or, Result, ok, throw, Response, is_ok, Action, pure, raise, await,
  try_catch, finally, modify, ◌>>=◌, ◌>>◌,
}
use wagr.Js.Storage.{Storage, set_item, remove_item}
use wagr.Types.Wallet.{WalletType, WalletState, SignatureResult, AvailableWallet}

pub record User : Type 0 where
  pub id : String
  pub wallet_address : String
  pub wallet_type : String
  pub created_at : String
  pub updated_at : String

-- What is asked of the server (with the values that the request carries) and of the wallet.
pub data Effect : Type 0 where
  asked_user : (token : String) → Effect
  asked_nonce : (wallet_address : String) (wallet_type : WalletType) → Effect
  asked_signature : (message : String) → Effect
  asked_verification : (wallet_address message signature : String) → Effect

-- `activeStrategy` is known by its type, under which it stands in `strategies`.
pub record Session : Type 0 where
  pub is_connected : Bool
  pub is_connecting : Bool
  pub is_authenticating : Bool
  pub wallet_state : Option WalletState
  pub active_strategy : Option WalletType
  pub user : Option User
  pub token : Option String
  pub available_wallets : List AvailableWallet
  pub error : Option String
  pub storage : Storage
  pub trace : List Effect

-- The bodies of the two answers. A `message` that is missing is read as the empty text, which is
-- falsy as well.
pub record NonceBody : Type 0 where
  pub message : String

pub record VerifyBody : Type 0 where
  pub message : String
  pub token : String
  pub user : User

-- What the outside answers. The strategy's `connect` and `signMessage` are those of the wallet.
pub record World : Type 0 where
  pub current_user : Result (Response User)
  pub connection : (wallet_name network : String) → Result WalletState
  pub nonce : Result (Response NonceBody)
  pub sign : String → WalletState → Result SignatureResult
  pub verify : (wallet_address message signature : String) → Result (Response VerifyBody)

abbrev pub token_key : String
token_key = "wagr_token"

-- The first render.
unfoldable pub initial : Storage → Session
initial store = record {
  is_connected = false;
  is_connecting = false;
  is_authenticating = false;
  wallet_state = none;
  active_strategy = none;
  user = none;
  token = store token_key;
  available_wallets = [];
  error = none;
  storage = store;
  trace = [];
}

abbrev pub forget_token : Session → Session
forget_token s = record s { token = none; storage = remove_item token_key s.storage }

-- A question to the outside: it is recorded, and it is answered.
abbrev pub ask {ℓ} : {A : Type ℓ} → Effect → Result A → Action Session A
ask e answer s = (answer, record s { trace = e ∷ s.trace })

-- `if (!res.ok) { … throw new Error(errorData.message || fallback) }`, where a body that is no JSON
-- has the message 'Unknown error'.
abbrev pub refuse_with_message {ℓ} :
    {A : Type ℓ} → (A → String) → String → Response A → Result (Unit {0})
refuse_with_message message fallback res = if is_ok res then ok tt else elim res.json [
  | throw e ↦ throw (Thrown.error "Unknown error")
  | ok body ↦ throw (Thrown.error (if truthy_text (message body) then message body else fallback))
]

fetch_user_steps : World → String → Action Session (Unit {0})
fetch_user_steps w auth_token = do
  response ← ask (asked_user auth_token) w.current_user
  body ← await (
      if is_ok response
      then elim response.json [ ok user ↦ ok (some user) | throw e ↦ throw e ]
      else ok none)
  modify (λ s. elim body [
    | some user_data ↦ record s { user = some user_data; is_connected = true }
    | none ↦ forget_token s
  ])

unfoldable pub fetch_current_user : World → String → Session → Session
unfolding fetch_user_steps
fetch_current_user w auth_token s =
    (try_catch (fetch_user_steps w auth_token) (λ e. modify forget_token) s).1

-- The effect that restores the session on mount.
unfoldable pub restore : World → Session → Session
unfolding fetch_current_user
restore w s = if truthy s.token then fetch_current_user w (or_default s.token "") s else s

authenticate_with : World → WalletState → Action Session (Unit {0})
authenticate_with w state = do
  nonce_response ← ask (asked_nonce state.address state.wallet_type) w.nonce
  await (refuse_with_message (λ b. b.message) "Failed to get authentication nonce" nonce_response)
  nonce ← await nonce_response.json
  signed ← ask (asked_signature nonce.message) (w.sign nonce.message state)
  verify_response ←
      ask (asked_verification state.address nonce.message signed.signature)
        (w.verify state.address nonce.message signed.signature)
  await (refuse_with_message (λ b. b.message) "Authentication failed" verify_response)
  verified ← await verify_response.json
  modify (λ s. record s {
    storage = set_item token_key verified.token s.storage;
    token = some verified.token;
    user = some verified.user;
  })

-- How an authentication ends: the error, and `finally`.
abbrev pub show_error : String → Thrown → Session → Session
show_error fallback e s = record s { error = some (message_or fallback e) }

abbrev pub stop_authenticating : Session → Session
stop_authenticating s = record s { is_authenticating = false }

pub log_in : World → WalletState → Action Session (Unit {0})
unfolding authenticate_with
log_in w state =
    finally
      (try_catch (authenticate_with w state) (λ e. modify (show_error "Authentication failed" e)))
      stop_authenticating

-- The wallet is connected, and its authentication begins.
abbrev pub connected_session : WalletType → WalletState → Session → Session
connected_session wallet_type state s = record s {
  is_connecting = false;
  error = none;
  wallet_state = some state;
  active_strategy = some wallet_type;
  is_connected = true;
  is_authenticating = true;
}

-- `networkId || config.defaultNetwork?.[walletType]`, where the configuration has the default network
-- of Hedera.
abbrev pub network_of : Option String → String
network_of network_id = if truthy network_id then or_default network_id "" else "testnet"

-- `connect`: an error of the connection is thrown again, one of the authentication is only shown.
unfoldable pub connect : World → WalletType → String → Option String → Action Session (Unit {0})
unfolding log_in
connect w wallet_type wallet_name network_id s =
    elim (w.connection wallet_name (network_of network_id)) [
      | throw e ↦ (
        throw e,
        record s { is_connecting = false; error = some (message_or "Failed to connect wallet" e) },
      )
      | ok state ↦ log_in w state (connected_session wallet_type state s)
    ]

authenticate_as : World → Option WalletType → Option WalletState → Action Session (Unit {0})
unfolding authenticate_with
authenticate_as w (some strategy) (some state) s =
    finally
      (try_catch (authenticate_with w state)
        (λ e s. (throw e, show_error "Authentication failed" e s)))
      stop_authenticating (record s { error = none; is_authenticating = true })
authenticate_as w _ _ s = (throw (Thrown.error "Wallet not connected"), s)

unfoldable pub authenticate : World → Action Session (Unit {0})
unfolding authenticate_as
authenticate w s = authenticate_as w s.active_strategy s.wallet_state s

-- An error of the strategy's own `disconnect` is only logged.
unfoldable pub disconnect : Session → Session
disconnect s = record s {
  storage = remove_item token_key s.storage;
  is_connected = false;
  wallet_state = none;
  active_strategy = none;
  user = none;
  token = none;
  error = none;
}
