-- ===== src/ConnectWallet/Laws.antt =====
-- What the wallet control offers after a press.
use wagr.Common.{
  String, Option, none, some, Bool, true, false, List, [], ◌∷◌, ◌≡◌, ◌⊎◌, inl, inr, refl, ap, ◌∙◌,
  get_elem?, if◌then◌else◌, arith,
}
use wagr.Js.Effects.{Result-cases, ok, throw, Thrown, message_or}
use wagr.Types.Wallet.{WalletType, hedera, WalletState, AvailableWallet}
use wagr.Session.{Session, World, connect, authenticate, disconnect}
use wagr.Session.Shown.{HasWallet, connect_failed, connect_done}
use wagr.Session.Reload.{Event, run, run_all, connects, authenticates, disconnects}
use wagr.ConnectWallet.{
  Control, Press, connect_button, retry_button, signed_in, shown, handle_connect, press_connect,
  address_of, wallet_display_name, act, act_all, pick, is_authenticated, press_with, picks, cancels,
  retries,
}

wallet_display_name_eq : (t : WalletType) → wallet_display_name t ≡ "Hedera"
wallet_display_name_eq hedera = refl

connected-shown :
    (state : WalletState) (t : Session)
    → t.is_authenticating ≡ false
    → HasWallet state t
    → let c : Control = record { session = t; show_wallet_select = false } in
      ((is_authenticated t ≡ true) × (shown c ≡ signed_in (some "Hedera") (address_of state)))
      ⊎ ((is_authenticated t ≡ false)
          × (shown c ≡ retry_button (some "Hedera") (address_of state) "Retry Sign In" true))
unfolding shown
connected-shown state t idle has = ground (
  arith,
  has.is_connected,
  has.is_connecting,
  has.wallet_state,
  wallet_display_name_eq state.wallet_type,
)

-- After the button of a single wallet: either the wallet did not connect, the button is there again
-- and the session has its error; or it did, and the control shows its account: signed in if the
-- session has a user, and otherwise with the button that tries again.
pub press_connect-shown :
    (w : World) (only : AvailableWallet) (c : Control)
    → c.session.available_wallets ≡ only ∷ []
    → shown c ≡ connect_button "Connect Wallet" true
    → let t = press_connect w c in
      ((e : Thrown) × (w.connection only.name "testnet" ≡ throw e)
        × (shown t ≡ connect_button "Connect Wallet" true)
        × (t.session.error ≡ some (message_or "Failed to connect wallet" e)))
      ⊎ ((state : WalletState) × (w.connection only.name "testnet" ≡ ok state)
          × (((is_authenticated t.session ≡ true)
                × (shown t ≡ signed_in (some "Hedera") (address_of state)))
              ⊎ ((is_authenticated t.session ≡ false)
                  × (shown t
                      ≡ retry_button (some "Hedera") (address_of state) "Retry Sign In" true))))
unfolding press_with handle_connect shown
press_connect-shown w only c one offered = elim (Result-cases (w.connection only.name "testnet")) [
  | inl (e, failed) ↦
      let ended = connect_failed w only.wallet_type only.name none c.session e failed in
      let pressed : press_connect w c ≡ record c {
        session = record c.session {
          is_connecting = false;
          error = some (message_or "Failed to connect wallet" e);
        };
      } =
        rw (one, press_with) (ground (arith, ended)) in
      inl (e, failed, rw pressed (ground arith), rw pressed refl)
  | inr (state, connected) ↦
      let (passed, idle, has) =
        connect_done w only.wallet_type only.name none c.session state connected in
      let t = (connect w only.wallet_type only.name none c.session).1 in
      let pressed : press_connect w c ≡ record { session = t; show_wallet_select = false } =
        rw (one, press_with) (ground (arith, passed)) in
      inr (state, connected, rw pressed (connected-shown state t idle has))
]

-- One press is at most one operation of the session.
abbrev pub Operates : Session → Session → Type 0
Operates s t = (t ≡ s) ⊎ ((e : Event) × (t ≡ run e s))

-- Pressing a wallet connects it.
pub handle_connect-session :
    (w : World) (wallet_type : WalletType) (wallet_name : String) (c : Control)
    → (handle_connect w wallet_type wallet_name c).session
      ≡ run (connects w wallet_type wallet_name none) c.session
unfolding handle_connect
handle_connect-session w wallet_type wallet_name c =
    elim (Result-cases (connect w wallet_type wallet_name none c.session).0) [
      | inl (e, failed) ↦ ground (arith, failed)
      | inr (passed, done) ↦ ground (arith, done)
    ]

press_with-Operates :
    (w : World) (wallets : List AvailableWallet) (c : Control)
    → Operates c.session (press_with w wallets c).session
unfolding press_with
press_with-Operates w [] c = inl refl
press_with-Operates w (only ∷ []) c = inr (
  connects w only.wallet_type only.name none,
  handle_connect-session w only.wallet_type only.name c,
)
press_with-Operates w (a ∷ b ∷ wallets) c = inl refl

pick-Operates :
    (w : World) (o : Option AvailableWallet) (c : Control) → Operates c.session (pick w o c).session
pick-Operates w none c = inl refl
pick-Operates w (some wallet) c = inr (
  connects w wallet.wallet_type wallet.name none,
  handle_connect-session w wallet.wallet_type wallet.name c,
)

if-Operates :
    (b : Bool) (c t : Control)
    → Operates c.session t.session
    → Operates c.session (if b then t else c).session
if-Operates true c t h = h
if-Operates false c t h = inl refl

pub act-Operates : (p : Press) (c : Control) → Operates c.session (act p c).session
unfolding act
act-Operates (Press.connects w) c =
    if-Operates _ c (press_connect w c) (press_with-Operates w c.session.available_wallets c)
act-Operates (picks i w) c =
    if-Operates _ c (pick w (get_elem? c.session.available_wallets i) c)
      (pick-Operates w (get_elem? c.session.available_wallets i) c)
act-Operates cancels c = if-Operates _ c (record c { show_wallet_select = false }) (inl refl)
act-Operates (retries w) c =
    if-Operates _ c (record c { session = (authenticate w c.session).1 })
      (inr (authenticates w, refl))
act-Operates Press.disconnects c =
    if-Operates _ c (record c { session = disconnect c.session }) (inr (disconnects, refl))

-- Any presses of the control are a sequence of operations of the session, so what holds after every
-- such sequence holds whatever the user presses.
pub act_all-run_all :
    (presses : List Press) (c : Control)
    → (events : List Event) × ((act_all presses c).session ≡ run_all events c.session)
unfolding act_all
act_all-run_all [] c = ([], refl)
act_all-run_all (p ∷ presses) c =
    let (events, same) = act_all-run_all presses (act p c) in
    elim (act-Operates p c) [
      | inl kept ↦ (events, same ∙ ap (run_all events) kept)
      | inr (e, moved) ↦ (e ∷ events, same ∙ ap (run_all events) moved)
    ]
