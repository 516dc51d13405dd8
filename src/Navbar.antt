-- ===== src/Navbar.antt =====
-- src/web/src/components/Navbar.tsx: the bar above every page, with a wallet control at its right and,
-- on a narrow screen, another in a menu. Both controls are of one session; each has its own list of
-- wallets, open or closed. The one in the menu is made anew whenever the menu opens.
pub mod Laws
use wagr.Common.{Option, none, some, Bool, true, false, not, ◌&&◌, List, [], ◌∷◌, if◌then◌else◌}
use wagr.Session.{Session}
use wagr.ConnectWallet
use wagr.ConnectWallet.{Control, Press, Shown, shown, is_authenticated}

pub record Navbar : Type 0 where
  pub session : Session
  pub menu_open : Bool
  pub right_select : Bool
  pub menu_select : Bool

unfoldable pub initial : Session → Navbar
initial s = record { session = s; menu_open = false; right_select = false; menu_select = false }

-- The two controls, each with the state of its own.
abbrev pub right_control : Navbar → Control
right_control n = record { session = n.session; show_wallet_select = n.right_select }

abbrev pub menu_control : Navbar → Control
menu_control n = record { session = n.session; show_wallet_select = n.menu_select }

-- One of the two places: whether the link to the leagues is there, and the control.
pub record Place : Type 0 where
  pub has_link : Bool
  pub control : Shown

-- The right of the bar, and the menu if it is open.
unfoldable pub right : Navbar → Place
right n = record { has_link = is_authenticated n.session; control = shown (right_control n) }

unfoldable pub menu : Navbar → Option Place
menu n =
    if n.menu_open
    then some (record { has_link = is_authenticated n.session; control = shown (menu_control n) })
    else none

-- What the user can press.
pub data Click : Type 0 where
  toggles_menu : Click
  follows_menu_link : Click
  presses_right : Press → Click
  presses_menu : Press → Click

abbrev pub set_right : Navbar → Control → Navbar
set_right n c = record n { session = c.session; right_select = c.show_wallet_select }

abbrev pub set_menu : Navbar → Control → Navbar
set_menu n c = record n { session = c.session; menu_select = c.show_wallet_select }

-- The menu that opens, or closes.
abbrev pub with_menu : Bool → Navbar → Navbar
with_menu is_open n = record n { menu_open = is_open; menu_select = false }

unfoldable pub act : Click → Navbar → Navbar
act toggles_menu n = with_menu (not n.menu_open) n
act follows_menu_link n = if n.menu_open && is_authenticated n.session then with_menu false n else n
act (presses_right p) n = set_right n (ConnectWallet.act p (right_control n))
act (presses_menu p) n =
    if n.menu_open then set_menu n (ConnectWallet.act p (menu_control n)) else n

unfoldable pub act_all : List Click → Navbar → Navbar
act_all [] n = n
act_all (c ∷ clicks) n = act_all clicks (act c n)
