-- ===== src/ConnectWallet.antt =====
-- The wallet control of src/web/src/components/ConnectWallet.tsx over the session, with the values that
-- src/web/src/hooks/useWallet.ts derives from it and the names of src/web/src/utils/walletConstants.ts.
pub mod Laws
use wagr.Common.{
  ℕ, String, Option, none, some, Bool, true, false, not, ◌||◌, ◌&&◌, List, [], ◌∷◌, map, get_elem?,
  truthy, truthy_text, or_default, is_some, if◌then◌else◌,
}
use wagr.Js.Effects.{Result, ok, throw}
use wagr.Js.Text.{equals_lower}
use wagr.Types.Wallet.{WalletType, hedera, WalletState, AvailableWallet}
use wagr.Session.{Session, World, connect, authenticate, disconnect}

-- `WALLET_DISPLAY_NAMES`
abbrev pub wallet_display_name : WalletType → String
wallet_display_name hedera = "Hedera"

unfoldable pub get_wallet_install_link : String → Option String
unfolding equals_lower
get_wallet_install_link wallet_name =
    if equals_lower wallet_name "hashpack" then some "https://www.hashpack.app/" else none

-- `formatAddress`
abbrev pub format_address : String → WalletType → String
format_address address wallet_type = address

-- `useWallet`: what it derives from the session.
abbrev pub is_authenticated : Session → Bool
is_authenticated s = is_some s.user

abbrev pub has_wallet : Session → Bool
has_wallet s = elim s.available_wallets [ [] ↦ false | w ∷ wallets ↦ true ]

abbrev pub wallet_type_of : Session → Option WalletType
wallet_type_of s = elim s.wallet_state [ none ↦ none | some w ↦ some w.wallet_type ]

-- The session, and whether the list of wallets is open.
pub record Control : Type 0 where
  pub session : Session
  pub show_wallet_select : Bool

-- `getDisplayAddress`
abbrev pub address_of : WalletState → String
address_of w =
    if truthy_text w.address
    then (if truthy w.account_id
        then or_default w.account_id ""
        else format_address w.address w.wallet_type)
    else ""

abbrev pub get_display_address : Session → String
get_display_address s = elim s.wallet_state [ none ↦ "" | some w ↦ address_of w ]

abbrev pub badge : Session → Option String
badge s = elim (wallet_type_of s) [ none ↦ none | some t ↦ some (wallet_display_name t) ]

-- What is shown in front of the error.
pub data Shown : Type 0 where
  no_wallet : (link : String) → Shown
  wallet_select : (names badges : List String) (enabled : Bool) → Shown
  connect_button : (label : String) (enabled : Bool) → Shown
  retry_button : (type_badge : Option String) (address label : String) (enabled : Bool) → Shown
  signed_in : (type_badge : Option String) (address : String) → Shown

abbrev pub connect_label : Session → String
connect_label s =
    if s.is_connecting
    then "Connecting..."
    else if s.is_authenticating
    then "Waiting for signature..."
    else "Connect Wallet"

abbrev pub retry_label : Session → String
retry_label s = if s.is_authenticating then "Signing..." else "Retry Sign In"

unfoldable pub shown : Control → Shown
unfolding get_wallet_install_link
shown c =
    if not c.session.is_connected
    then (if not (has_wallet c.session)
        then no_wallet (or_default (get_wallet_install_link "hashpack") "#")
        else if c.show_wallet_select
        then wallet_select (map (λ w. w.display_name) c.session.available_wallets)
            (map (λ w. wallet_display_name w.wallet_type) c.session.available_wallets)
            (not c.session.is_connecting)
        else connect_button (connect_label c.session)
            (not (c.session.is_connecting || c.session.is_authenticating)))
    else if not (is_authenticated c.session)
    then retry_button (badge c.session) (get_display_address c.session) (retry_label c.session)
        (not c.session.is_authenticating)
    else signed_in (badge c.session) (get_display_address c.session)

-- The line below it: none for a user who is signed in.
unfoldable pub shown_error : Control → Option String
shown_error c =
    if c.session.is_connected && is_authenticated c.session
    then none
    else if truthy c.session.error
    then c.session.error
    else none

-- `handleConnect`: an error is left to the session.
unfoldable pub handle_connect : World → WalletType → String → Control → Control
handle_connect w wallet_type wallet_name c =
    let (result, s) = connect w wallet_type wallet_name none c.session in
    elim result [
      | ok done ↦ record { session = s; show_wallet_select = false }
      | throw e ↦ record c { session = s }
    ]

-- The button: a single wallet is connected at once.
unfoldable pub press_with : World → List AvailableWallet → Control → Control
press_with w (only ∷ []) c = handle_connect w only.wallet_type only.name c
press_with w _ c = record c { show_wallet_select = true }

abbrev pub press_connect : World → Control → Control
press_connect w c = press_with w c.session.available_wallets c

-- What the user can press; a wallet of the list is picked by its place.
pub data Press : Type 0 where
  connects : World → Press
  picks : ℕ → World → Press
  cancels : Press
  retries : World → Press
  disconnects : Press

abbrev pub pick : World → Option AvailableWallet → Control → Control
pick w none c = c
pick w (some wallet) c = handle_connect w wallet.wallet_type wallet.name c

-- Whether a button is shown and enabled.
abbrev pub can_connect : Shown → Bool
can_connect (connect_button label enabled) = enabled
can_connect _ = false

abbrev pub can_pick : Shown → Bool
can_pick (wallet_select names badges enabled) = enabled
can_pick _ = false

abbrev pub can_cancel : Shown → Bool
can_cancel (wallet_select names badges enabled) = true
can_cancel _ = false

abbrev pub can_retry : Shown → Bool
can_retry (retry_button type_badge address label enabled) = enabled
can_retry _ = false

abbrev pub can_disconnect : Shown → Bool
can_disconnect (retry_button type_badge address label enabled) = true
can_disconnect (signed_in type_badge address) = true
can_disconnect _ = false

unfoldable pub act : Press → Control → Control
unfolding shown
act (connects w) c = if can_connect (shown c) then press_connect w c else c
act (picks i w) c =
    if can_pick (shown c) then pick w (get_elem? c.session.available_wallets i) c else c
act cancels c = if can_cancel (shown c) then record c { show_wallet_select = false } else c
act (retries w) c =
    if can_retry (shown c) then record c { session = (authenticate w c.session).1 } else c
act disconnects c =
    if can_disconnect (shown c) then record c { session = disconnect c.session } else c

unfoldable pub act_all : List Press → Control → Control
act_all [] c = c
act_all (p ∷ presses) c = act_all presses (act p c)
