-- ===== src/Session/Reload.antt =====
-- The token of the session and the one in local storage are the same, so a reload keeps the session.
use wagr.Common.{
  String, ◌≡◌, refl, Option, none, some, List, [], ◌∷◌, true, arith, eq_refl, inl, inr,
}
use wagr.Js.Effects.{Result-cases}
use wagr.Js.Keeps.{Keeps}
use wagr.Js.Storage.{Storage}
use wagr.Types.Wallet.{WalletType, WalletState}
use wagr.Session.{
  Session, World, connected_session, network_of, token_key, initial, fetch_user_steps,
  fetch_current_user, restore, authenticate_with, log_in, connect, authenticate_as, authenticate,
  disconnect,
}

-- What happens to the session.
pub data Event : Type 0 where
  restores : World → Event
  connects : World → WalletType → (wallet_name : String) → (network_id : Option String) → Event
  authenticates : World → Event
  disconnects : Event

abbrev pub run : Event → Session → Session
run (restores w) s = restore w s
run (connects w wallet_type wallet_name network_id) s =
    (connect w wallet_type wallet_name network_id s).1
run (authenticates w) s = (authenticate w s).1
run disconnects s = disconnect s

abbrev pub run_all : List Event → Session → Session
run_all [] s = s
run_all (e ∷ events) s = run_all events (run e s)

abbrev pub TokenInSync : Session → Type 0
TokenInSync s = s.storage token_key ≡ s.token

restore-TokenInSync : (w : World) (s : Session) → TokenInSync s → TokenInSync (restore w s)
unfolding restore fetch_current_user fetch_user_steps
restore-TokenInSync w s h = ground (arith, h, eq_refl token_key)

authenticate_with-TokenInSync :
    (w : World) (state : WalletState) → Keeps TokenInSync (authenticate_with w state)
unfolding authenticate_with
authenticate_with-TokenInSync w state s h = ground (arith, h, eq_refl token_key)

connect-TokenInSync :
    (w : World) (wallet_type : WalletType) (wallet_name : String) (network_id : Option String)
    (s : Session)
    → TokenInSync s
    → TokenInSync (connect w wallet_type wallet_name network_id s).1
unfolding connect log_in
connect-TokenInSync w wallet_type wallet_name network_id s h =
    elim (Result-cases (w.connection wallet_name (network_of network_id))) [
      | inl (e, failed) ↦ ground (arith, failed, h)
      | inr (state, connected) ↦ ground (
        arith,
        connected,
        authenticate_with-TokenInSync w state (connected_session wallet_type state s) h,
      )
    ]

authenticate_as-TokenInSync :
    (w : World) (strategy : Option WalletType) (state : Option WalletState)
    → Keeps TokenInSync (authenticate_as w strategy state)
unfolding authenticate_as
authenticate_as-TokenInSync w (some strategy) (some state) s h = ground (
  arith,
  authenticate_with-TokenInSync w state (record s { error = none; is_authenticating = true }) h,
)
authenticate_as-TokenInSync w (some strategy) none s h = h
authenticate_as-TokenInSync w none state s h = h

authenticate-TokenInSync :
    (w : World) (s : Session) → TokenInSync s → TokenInSync (authenticate w s).1
unfolding authenticate
authenticate-TokenInSync w s h = authenticate_as-TokenInSync w s.active_strategy s.wallet_state s h

disconnect-TokenInSync : (s : Session) → TokenInSync s → TokenInSync (disconnect s)
unfolding disconnect
disconnect-TokenInSync s h = ground (arith, eq_refl token_key)

run_all-TokenInSync :
    (events : List Event) (s : Session) → TokenInSync s → TokenInSync (run_all events s)
run_all-TokenInSync [] s h = h
run_all-TokenInSync (restores w ∷ events) s h =
    run_all-TokenInSync events (restore w s) (restore-TokenInSync w s h)
run_all-TokenInSync (connects w wallet_type wallet_name network_id ∷ events) s h =
    run_all-TokenInSync events (connect w wallet_type wallet_name network_id s).1
      (connect-TokenInSync w wallet_type wallet_name network_id s h)
run_all-TokenInSync (authenticates w ∷ events) s h =
    run_all-TokenInSync events (authenticate w s).1 (authenticate-TokenInSync w s h)
run_all-TokenInSync (disconnects ∷ events) s h =
    run_all-TokenInSync events (disconnect s) (disconnect-TokenInSync s h)

-- From the first render on, whatever the operations do and whatever the server and the wallet answer:
-- a reload, which starts from what local storage then holds, has the token that the session had.
pub initial-run_all :
    (store : Storage) (events : List Event)
    → let s = run_all events (initial store) in (initial s.storage).token ≡ s.token
unfolding initial
initial-run_all store events = run_all-TokenInSync events (initial store) refl
