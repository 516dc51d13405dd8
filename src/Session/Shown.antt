-- ===== src/Session/Shown.antt =====
-- What a session shows after connecting: its flags, its wallet and its error.
use wagr.Common.{String, Option, some, true, false, ◌≡◌, refl, arith}
use wagr.Js.Effects.{ok, throw, Thrown, message_or}
use wagr.Js.Keeps.{Keeps}
use wagr.Types.Wallet.{WalletType, WalletState}
use wagr.Session.{Session, World, connect, log_in, network_of, connected_session, authenticate_with}

pub record HasWallet (state : WalletState) (t : Session) : Type 0 where
  pub is_connected : t.is_connected ≡ true
  pub is_connecting : t.is_connecting ≡ false
  pub wallet_state : t.wallet_state ≡ some state

authenticate_with-HasWallet :
    (w : World) (state : WalletState) → Keeps (HasWallet state) (authenticate_with w state)
unfolding authenticate_with
authenticate_with-HasWallet w state s h = record {
  is_connected = ground (arith, h.is_connected);
  is_connecting = ground (arith, h.is_connecting);
  wallet_state = ground (arith, h.wallet_state);
}

pub connect_failed :
    (w : World) (wallet_type : WalletType) (wallet_name : String) (network_id : Option String)
    (s : Session) (e : Thrown)
    → w.connection wallet_name (network_of network_id) ≡ throw e
    → connect w wallet_type wallet_name network_id s ≡ (
      throw e,
      record s { is_connecting = false; error = some (message_or "Failed to connect wallet" e) },
    )
unfolding connect
connect_failed w wallet_type wallet_name network_id s e failed = rw (failed, connect) refl

pub connect_done :
    (w : World) (wallet_type : WalletType) (wallet_name : String) (network_id : Option String)
    (s : Session) (state : WalletState)
    → w.connection wallet_name (network_of network_id) ≡ ok state
    → let (result, t) = connect w wallet_type wallet_name network_id s in
      (result ≡ ok tt) × (t.is_authenticating ≡ false) × HasWallet state t
unfolding connect log_in
connect_done w wallet_type wallet_name network_id s state connected =
    let kept =
      authenticate_with-HasWallet w state (connected_session wallet_type state s)
        (record { is_connected = refl; is_connecting = refl; wallet_state = refl }) in
    rw (connected, connect)
      (
        ground arith,
        ground arith,
        record {
          is_connected = ground (arith, kept.is_connected);
          is_connecting = ground (arith, kept.is_connecting);
          wallet_state = ground (arith, kept.wallet_state);
        },
      )
