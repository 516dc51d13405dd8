-- ===== src/Hedera/Connection/Laws.antt =====
-- How waiting for the wallet ends, and what `connect` leaves behind.
use wagr.Common.{
  ◌≡◌, refl, sym, ◌∙◌, ap, subst, ◌⊎◌, ◌++◌, inl, inr, String, Option, none, some, List, [], ◌∷◌,
  true, false, truthy, or_default, is_some, arith, if◌then◌else◌, Option-cases,
}
use wagr.Js.Effects.{Thrown, error, Result, ok, throw, is_throw, Result-cases}
use wagr.Types.Wallet.{WalletState, HederaNetworkId}
use wagr.Hedera.{HederaStrategy, Connector}
use wagr.Hedera.Connection.Keys.{KeyGiven, fetch-KeyGiven}
use wagr.Hedera.Connection.{
  Event, timed_out, session_connected, polled, Waiting, begun, timeout_error, account_of, poll,
  step, wait, World, connect, attempt, create_connector, await_connection, open_events, clear_timer,
  Connecting, ledger_of, network_or_default, fetch_public_key_from_mirror_node,
}

-- What one event on its own decides.
abbrev pub decision : Event → Option (Result String)
decision timed_out = some (throw timeout_error)
decision (session_connected id) =
    some (if truthy id then ok (or_default id "") else throw (error "No account ID in session"))
decision (polled []) = none
decision (polled (signer ∷ rest)) =
    if truthy (account_of signer) then some (ok (or_default (account_of signer) "")) else none

abbrev pub first_decision : List Event → Option (Result String)
first_decision [] = none
first_decision (e ∷ events) = elim (decision e) [ some r ↦ some r | none ↦ first_decision events ]

step-undecided : (e : Event) → decision e ≡ none → step e begun ≡ begun
unfolding step poll
step-undecided timed_out none_yet = ground arith
step-undecided (session_connected id) none_yet = ground arith
step-undecided (polled []) none_yet = refl
step-undecided (polled (signer ∷ rest)) none_yet = ground arith

-- Settled: the outcome stands, the polling has stopped, and with an account so has the timer.
record Settled (r : Result String) (w : Waiting) : Type 0 where
  outcome : w.outcome ≡ some r
  still : w.polling ≡ false
  quiet : (account : String) → r ≡ ok account → w.timer ≡ false

step-decided : (e : Event) (r : Result String) → decision e ≡ some r → Settled r (step e begun)
unfolding step poll
step-decided timed_out r first = record {
  outcome = ground (arith, first);
  still = refl;
  quiet = λ account same. ground (arith, first, same);
}
step-decided (session_connected id) r first = record {
  outcome = first;
  still = refl;
  quiet = λ account same. refl;
}
step-decided (polled []) r first = ground (arith, first)
step-decided (polled (signer ∷ rest)) r first = record {
  outcome = ground (arith, first);
  still = ground (arith, first);
  quiet = λ account same. ground (arith, first);
}

step-Settled : (e : Event) (r : Result String) (w : Waiting) → Settled r w → Settled r (step e w)
unfolding step poll
step-Settled timed_out r w h = record {
  outcome = ground (arith, h.outcome);
  still = ground (arith, h.outcome, h.still);
  quiet = λ account same. ground (arith, h.outcome, h.quiet account same);
}
step-Settled (session_connected id) r w h = record {
  outcome = ground (arith, h.outcome);
  still = ground (arith, h.outcome);
  quiet = λ account same. ground (arith, h.outcome);
}
step-Settled (polled signers) r w h = record {
  outcome = ground (arith, h.outcome, h.still);
  still = ground (arith, h.outcome, h.still);
  quiet = λ account same. ground (arith, h.outcome, h.still, h.quiet account same);
}

wait-Settled :
    (events : List Event) (r : Result String) (w : Waiting)
    → Settled r w
    → Settled r (wait events w)
unfolding wait
wait-Settled [] r w h = h
wait-Settled (e ∷ events) r w h = wait-Settled events r (step e w) (step-Settled e r w h)

wait-Settled-first :
    (events : List Event) (r : Result String)
    → first_decision events ≡ some r
    → Settled r (wait events begun)
unfolding wait
wait-Settled-first [] r first = ground (arith, first)
wait-Settled-first (e ∷ events) r first = elim (Option-cases (decision e)) [
  | inl undecided ↦
      rw (step-undecided e undecided)
        (wait-Settled-first events r (ground (arith, first, undecided)))
  | inr (s, decided) ↦
      wait-Settled events r (step e begun) (step-decided e r (ground (arith, first, decided)))
]

wait-undecided : (events : List Event) → first_decision events ≡ none → wait events begun ≡ begun
unfolding wait
wait-undecided [] h = refl
wait-undecided (e ∷ events) h = elim (Option-cases (decision e)) [
  | inl undecided ↦
      ap (wait events) (step-undecided e undecided)
      ∙ wait-undecided events (ground (arith, h, undecided))
  | inr (r, decided) ↦ absurd (ground (arith, h, decided))
]

-- However many events there are, and in whichever order: the promise is settled as the first event
-- says that decides anything, and not at all if none does.
pub wait-first_decision :
    (events : List Event) → (wait events begun).outcome ≡ first_decision events
unfolding wait
wait-first_decision [] = refl
wait-first_decision (e ∷ events) = elim (Option-cases (decision e)) [
  | inl undecided ↦
      let later : first_decision (e ∷ events) ≡ first_decision events = ground (arith, undecided) in
      ap (λ w. (wait events w).outcome) (step-undecided e undecided)
      ∙ wait-first_decision events
      ∙ sym later
  | inr (r, decided) ↦
      let now : first_decision (e ∷ events) ≡ some r = ground (arith, decided) in
      (wait-Settled events r (step e begun) (step-decided e r decided)).outcome ∙ sym now
]

-- What the timer finds when it rings at the end: nothing runs any more, or it ends the waiting.
ring-still :
    (events : List Event)
    → let done = step timed_out (wait events begun) in
      (done.polling ≡ false)
      × ((account : String)
          → done.outcome ≡ some (ok account)
          → (first_decision events ≡ some (ok account)) × (done.timer ≡ false))
unfolding step
ring-still events = elim (Option-cases (first_decision events)) [
  | inl undecided ↦
      let idle : wait events begun ≡ begun = wait-undecided events undecided in
      rw idle (refl, λ account e. cc)
  | inr (r, decided) ↦
      let s = step-Settled timed_out r (wait events begun) (wait-Settled-first events r decided) in
      (
        s.still,
        λ account e.
            let same : r ≡ ok account = ground (arith, s.outcome, e) in
            (decided ∙ ap some same, s.quiet account same),
      )
]

-- The wallet state that `connect` returns: that of the account which was connected.
pub record Connected (w : World) (network : String) (state : WalletState) (self : HederaStrategy)
    : Type 0 where
  pub account : String
  pub key : String × String
  pub decided : first_decision (w.opening ++ w.events) ≡ some (ok account)
  pub given : KeyGiven w account network key
  pub address : state.address ≡ account
  pub account_id : state.account_id ≡ some account
  pub on_network : state.network ≡ some network
  pub public_key : state.public_key ≡ some (key.0)
  pub key_type : state.key_type ≡ some (key.1)
  pub connector : is_some self.connector ≡ true

-- The interval is stopped, or `init` or `openModal` has thrown before any event decided anything.
abbrev pub Polls : World → Connecting → Type 0
Polls w s =
    (s.polling ≡ false)
    ⊎ (((is_throw w.init ≡ true) ⊎ (is_throw w.open_modal ≡ true))
        × (first_decision w.opening ≡ none))

-- How `connect` ends.
abbrev pub Ends : World → String → Result WalletState → Connecting → Type 0
Ends w network (throw e) s = (s.strategy.connection_timeout ≡ none) × Polls w s
Ends w network (ok state) s =
    (s.strategy.connection_timeout ≡ none)
    × (s.polling ≡ false)
    × Connected w network state s.strategy

await_connection-still : (w : World) (s : Connecting) → (await_connection w s).1.polling ≡ false
unfolding await_connection
await_connection-still w s = (ring-still (w.opening ++ w.events)).0

await_connection-ok :
    (w : World) (s : Connecting) (account : String)
    → (await_connection w s).0 ≡ ok account
    → (first_decision (w.opening ++ w.events) ≡ some (ok account))
      × ((await_connection w s).1
          ≡ record { strategy = record s.strategy { connection_timeout = none }; polling = false })
unfolding await_connection
await_connection-ok w s account e =
    let (still, quiet) = ring-still (w.opening ++ w.events) in
    elim (Option-cases (step timed_out (wait (w.opening ++ w.events) begun)).outcome) [
      | inl waits ↦ absurd (ground (arith, e, waits))
      | inr (r, settled) ↦
          let same : r ≡ ok account = ground (arith, e, settled) in
          let (decided, silent) = quiet account (settled ∙ ap some same) in
          (decided, ground (arith, still, silent))
    ]

attempt-Ends :
    (w : World) (network : String) (s : Connecting) (state : WalletState)
    → (attempt w network s).0 ≡ ok state
    → Ends w network (ok state) (attempt w network s).1
unfolding attempt create_connector
attempt-Ends w network s state e =
    let s1 = open_events w (create_connector w network s).1 in
    elim (Result-cases (create_connector w network s).0) [
      | inl (failure, failed) ↦ ground (arith, failed)
      | inr (made, created) ↦ elim (Result-cases (await_connection w s1).0) [
        | inl (failure, failed) ↦ ground (arith, failed, created)
        | inr (account, connected) ↦
            let (decided, after) = await_connection-ok w s1 account connected in
            elim (Result-cases (fetch_public_key_from_mirror_node w account network)) [
              | inl (failure, failed) ↦ ground (arith, failed, connected, created)
              | inr (key, found) ↦ (
                ground (arith, connected, created, found, after),
                ground (arith, connected, created, found, after),
                record {
                  account = account;
                  key = key;
                  decided = decided;
                  given = fetch-KeyGiven w account network key found;
                  address = ground (arith, connected, created, found);
                  account_id = ground (arith, connected, created, found);
                  on_network = ground (arith, connected, created, found);
                  public_key = ground (arith, connected, created, found);
                  key_type = ground (arith, connected, created, found);
                  connector = ground (arith, connected, created, found, after);
                },
              )
            ]
      ]
    ]

-- Opening the modal leaves the interval as the events so far have left it.
open_events-Polls :
    (w : World) (s : Connecting)
    → (is_throw w.init ≡ true) ⊎ (is_throw w.open_modal ≡ true)
    → Polls w (open_events w s)
unfolding open_events
open_events-Polls w s failed = elim (Option-cases (first_decision w.opening)) [
  | inl undecided ↦ inr (failed, undecided)
  | inr (r, decided) ↦ inl (wait-Settled-first w.opening r decided).still
]

attempt-Polls :
    (w : World) (network : String) (s : Connecting)
    → s.polling ≡ false
    → Polls w (attempt w network s).1
unfolding attempt create_connector
attempt-Polls w network s idle =
    let s1 = open_events w (create_connector w network s).1 in
    elim (Result-cases (create_connector w network s).0) [
      | inl (failure, failed) ↦ inl (ground (arith, failed, idle))
      | inr (made, created) ↦ elim (Result-cases w.init) [
        | inl (e, init_fails) ↦
            let same : s1 ≡ (attempt w network s).1 = ground (arith, created, init_fails) in
            subst (Polls w) same
              (open_events-Polls w (create_connector w network s).1 (inl (ap is_throw init_fails)))
        | inr (u, inits) ↦ elim (Result-cases w.open_modal) [
          | inl (e, open_fails) ↦
              let same : s1 ≡ (attempt w network s).1 =
                ground (arith, created, inits, open_fails) in
              subst (Polls w) same (
                open_events-Polls w (create_connector w network s).1 (inr (ap is_throw open_fails)))
          | inr (v, opens) ↦
              inl (ground (arith, created, inits, opens, await_connection-still w s1))
        ]
      ]
    ]

-- Where no timer runs before `connect`, none runs after it, whether it throws or returns; but the
-- interval that it starts is stopped when it returns, and also when it throws, unless `init` or
-- `openModal` threw before any event decided anything. What it returns is the account that the first
-- deciding event names, on the network that was asked for, with the key that the mirror node gives;
-- the strategy then has its connector.
pub connect-Ends :
    (w : World) (network_id : Option String) (self : HederaStrategy)
    → self.connection_timeout ≡ none
    → Ends w
        (network_or_default network_id)
        (connect w network_id self).0
        (connect w network_id self).1
unfolding connect clear_timer
connect-Ends w network_id self idle =
    let s : Connecting = record { strategy = self; polling = false } in
    let network = network_or_default network_id in
    let polls = attempt-Polls w network s refl in
    elim (Result-cases (attempt w network s).0) [
      | inl (failure, failed) ↦ ground (arith, failed, polls)
      | inr (state, returned) ↦ ground (arith, returned, attempt-Ends w network s state returned)
    ]

-- Where the connector is made and its `init` throws, and no event before that decides anything,
-- `connect` throws the same and stops its timer, and the interval runs on.
pub connect-init_throws :
    (w : World) (network_id : Option String) (self : HederaStrategy)
    (make : HederaNetworkId → String → Result (Option Connector)) (c : Connector) (e : Thrown)
    → truthy (some self.project_id) ≡ true
    → w.load_wallet_connect ≡ ok tt
    → w.load_sdk ≡ ok tt
    → w.create ≡ some make
    → make (ledger_of (network_or_default network_id)) self.project_id ≡ ok (some c)
    → w.init ≡ throw e
    → first_decision w.opening ≡ none
    → let (result, s) = connect w network_id self in
      (result ≡ throw e) × (s.strategy.connection_timeout ≡ none) × (s.polling ≡ true)
unfolding connect attempt create_connector open_events clear_timer
connect-init_throws w network_id self make c e real loads loads_sdk there made throws undecided =
    let waits : wait w.opening begun ≡ begun = wait-undecided w.opening undecided in
    (
      ground (arith, real, loads, loads_sdk, there, made, throws),
      ground (arith, real, loads, loads_sdk, there, made, throws),
      ground (arith, real, loads, loads_sdk, there, made, throws, waits),
    )
