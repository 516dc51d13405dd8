-- ===== src/Hedera/Connection.antt =====
-- `connect`, `disconnect` and `fetchPublicKeyFromMirrorNode` of
-- src/web/src/strategies/HederaStrategy.ts. The wallet connection library, the network and the clock
-- are the parameter `World`.
pub mod Keys
pub mod Laws
use Prim.Native.String.{◌++◌}
use wagr.Common.{
  ℕ, String, Option, none, some, List, [], ◌∷◌, ◌++◌ as append, truthy, or_default, is_some,
  if◌then◌else◌, Bool, true, false, ◌===◌,
}
use wagr.Js.Effects.{
  Thrown, error, Result, ok, throw, Response, is_ok, Action, pure, raise, await, try_catch, modify,
  raise_if, ◌>>=◌, ◌>>◌,
}
use wagr.Js.Number.{show}
use wagr.Types.Wallet.{WalletState, HederaNetworkId, WalletType}
use wagr.Hedera.{Signer, Connector, HederaStrategy}

-- What happens while `connect` waits: the timer of 90 seconds rings, the session is connected (with
-- its first account), or the signers are polled.
pub data Event : Type 0 where
  timed_out : Event
  session_connected : Option String → Event
  polled : List Signer → Event

-- The promise: whether the timer and the polling run, and how it was settled first.
pub record Waiting : Type 0 where
  pub timer : Bool
  pub polling : Bool
  pub outcome : Option (Result String)

abbrev pub begun : Waiting
begun = record { timer = true; polling = true; outcome = none }

abbrev pub timeout_error : Thrown
timeout_error = error "Connection timeout. Please approve the connection in HashPack."

-- A promise is settled once.
abbrev pub settle : Result String → Waiting → Waiting
settle r w = elim w.outcome [ none ↦ record w { outcome = some r } | some first ↦ w ]

abbrev pub stop : Waiting → Waiting
stop w = record w { timer = false; polling = false }

-- The account of a signer, by its method if it has one.
abbrev pub account_of : Signer → Option String
account_of signer = elim signer.get_account_id [ some id ↦ some id | none ↦ signer.account_id ]

unfoldable pub poll : List Signer → Waiting → Waiting
poll [] w = w
poll (signer ∷ rest) w =
    if truthy (account_of signer)
    then settle (ok (or_default (account_of signer) "")) (stop w)
    else w

-- The callbacks. A timer or an interval that is cleared does not call.
unfoldable pub step : Event → Waiting → Waiting
unfolding poll
step timed_out w =
    if w.timer then settle (throw timeout_error) (record w { polling = false }) else w
step (session_connected id) w =
    settle (if truthy id then ok (or_default id "") else throw (error "No account ID in session"))
      (stop w)
step (polled signers) w = if w.polling then poll signers w else w

unfoldable pub wait : List Event → Waiting → Waiting
unfolding step
wait [] w = w
wait (e ∷ events) w = wait events (step e w)

-- What the mirror node says of an account: its key, and the type of the key.
pub record MirrorKey : Type 0 where
  pub key : Option String
  pub key_type : Option String

-- The outside: `opening` are the events until the modal has opened, `events` those that follow.
-- `create` is the constructor of the connector, where the library has it. `text_of` is
-- `${err}`; an answer of the mirror node comes with its status text.
pub record World : Type 0 where
  pub load_wallet_connect : Result (Unit {0})
  pub load_sdk : Result (Unit {0})
  pub create : Option (HederaNetworkId → String → Result (Option Connector))
  pub init : Result (Unit {0})
  pub open_modal : Result (Unit {0})
  pub opening : List Event
  pub events : List Event
  pub timer_id : ℕ
  pub mirror : String → Result (Response (Option MirrorKey) × String)
  pub text_of : Thrown → String

abbrev pub default_network : String
default_network = "testnet"

-- Every other network is the test network.
abbrev pub ledger_of : String → HederaNetworkId
ledger_of network =
    if network === "mainnet"
    then HederaNetworkId.mainnet
    else if network === "previewnet"
    then HederaNetworkId.previewnet
    else HederaNetworkId.testnet

abbrev pub mirror_url : String → String
mirror_url network =
    if network === "mainnet"
    then "https://mainnet.mirrornode.hedera.com"
    else if network === "previewnet"
    then "https://previewnet.mirrornode.hedera.com"
    else "https://testnet.mirrornode.hedera.com"

-- The key in the body: there, and not empty. Its type is Ed25519 unless it is said.
abbrev pub key_in : Option MirrorKey → Result (String × String)
key_in none = throw (error "No public key found in mirror node response")
key_in (some k) =
    if truthy k.key
    then ok (or_default k.key "", if truthy k.key_type then or_default k.key_type "" else "ED25519")
    else throw (error "No public key found in mirror node response")

read_mirror : Result (Response (Option MirrorKey) × String) → Result (String × String)
read_mirror (throw e) = throw e
read_mirror (ok (res, status_text)) =
    if is_ok res
    then elim res.json [ ok body ↦ key_in body | throw e ↦ throw e ]
    else throw (error ("Mirror node returned " ++ (show res.status ++ (": " ++ status_text))))

unfoldable pub fetch_public_key_from_mirror_node :
    World → String → String → Result (String × String)
unfolding read_mirror
fetch_public_key_from_mirror_node w account network =
    elim (read_mirror (w.mirror (mirror_url network ++ ("/api/v1/accounts/" ++ account)))) [
      | ok found ↦ ok found
      | throw e ↦ throw (error ("Failed to fetch public key from mirror node: " ++ w.text_of e))
    ]

-- The strategy during a call of `connect`, and whether the interval that the call started runs.
pub record Connecting : Type 0 where
  pub strategy : HederaStrategy
  pub polling : Bool

-- `new DAppConnector(…)`: it is kept also where it is null. With the promise the timer and the interval
-- start.
create_connector : World → String → Action Connecting (Unit {0})
create_connector w network s = elim w.create [
  | none ↦ (throw (error "DAppConnector not found in @hashgraph/hedera-wallet-connect"), s)
  | some make ↦ elim (make (ledger_of network) s.strategy.project_id) [
    | throw e ↦ (throw e, s)
    | ok none ↦ (
      throw (error "Failed to create DApp connector"),
      record s { strategy = record s.strategy { connector = none } },
    )
    | ok (some c) ↦ (
      ok tt,
      record {
        strategy = record s.strategy { connector = some c; connection_timeout = some w.timer_id };
        polling = true;
      },
    )
  ]
]

-- The events up to the end of `init` and `openModal`: the interval runs on unless one of them stops it.
open_events : World → Connecting → Connecting
unfolding wait
open_events w s = record s { polling = (wait w.opening begun).polling }

-- `await connectionPromise`. While nothing settles it, the timer runs, and in the end it rings.
await_connection : World → Action Connecting String
unfolding wait step
await_connection w s =
    let done = step timed_out (wait (append w.opening w.events) begun) in
    (
      or_default done.outcome (throw timeout_error),
      record {
        strategy =
            if done.timer then s.strategy else record s.strategy { connection_timeout = none };
        polling = done.polling;
      },
    )

abbrev pub connected_state : String → String → String × String → WalletState
connected_state account network (public_key, key_type) = record {
  wallet_type = WalletType.hedera;
  address = account;
  account_id = some account;
  balance = none;
  network = some network;
  public_key = some public_key;
  key_type = some key_type;
}

-- The `try` block. Closing the modal is left out: its errors are only logged.
attempt : World → String → Action Connecting WalletState
unfolding create_connector open_events await_connection
attempt w network = do
  create_connector w network
  modify (open_events w)
  await w.init
  await w.open_modal
  account ← await_connection w
  found ← await (fetch_public_key_from_mirror_node w account network)
  pure (connected_state account network found)

abbrev pub network_or_default : Option String → String
network_or_default network_id =
    if truthy network_id then or_default network_id "" else default_network

-- The `catch` block clears the timer, and not the interval.
clear_timer : Connecting → Connecting
clear_timer s = record s { strategy = record s.strategy { connection_timeout = none } }

unfoldable pub connect : World → Option String → HederaStrategy → Result WalletState × Connecting
unfolding attempt clear_timer
connect w network_id self =
    (do
      raise_if (if truthy (some self.project_id) then false else true) (
          error
            "WalletConnect Project ID not configured. Please set VITE_WALLETCONNECT_PROJECT_ID.")
      await w.load_wallet_connect
      await w.load_sdk
      try_catch (attempt w (network_or_default network_id)) (λ e s. (throw e, clear_timer s)))
      (record { strategy = self; polling = false })

-- The error of the connector's own `disconnect` is only logged.
unfoldable pub disconnect : HederaStrategy → HederaStrategy
disconnect self = record self { connector = none; connection_timeout = none }
