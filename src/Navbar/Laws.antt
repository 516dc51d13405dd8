-- ===== src/Navbar/Laws.antt =====
-- What the bar shows, whatever is pressed in it.
use wagr.Common.{◌≡◌, inl, inr, refl, ap, ◌∙◌, some, true, false, List, [], ◌∷◌, Bool-cases, arith}
use wagr.Js.Storage.{Storage}
use wagr.Session
use wagr.Session.{disconnect}
use wagr.Session.Reload.{Event, run_all, initial-run_all}
use wagr.ConnectWallet
use wagr.ConnectWallet.{Press, shown, can_disconnect}
use wagr.ConnectWallet.Laws.{Operates, act-Operates}
use wagr.Navbar.{
  Navbar, Place, Click, toggles_menu, follows_menu_link, presses_right, presses_menu, initial,
  right, menu, right_control, menu_control, act, act_all,
}

-- A click is at most one operation of the session.
act-session : (c : Click) (n : Navbar) → Operates n.session (act c n).session
unfolding act
act-session toggles_menu n = inl refl
act-session follows_menu_link n = inl (ground arith)
act-session (presses_right p) n = act-Operates p (right_control n)
act-session (presses_menu p) n = elim (Bool-cases n.menu_open) [
  | inl is_open ↦ rw (is_open, act) (act-Operates p (menu_control n))
  | inr closed ↦ inl (ground (arith, closed))
]

act_all-run_all :
    (clicks : List Click) (n : Navbar)
    → (events : List Event) × ((act_all clicks n).session ≡ run_all events n.session)
unfolding act_all
act_all-run_all [] n = ([], refl)
act_all-run_all (c ∷ clicks) n =
    let (events, same) = act_all-run_all clicks (act c n) in
    elim (act-session c n) [
      | inl kept ↦ (events, same ∙ ap (run_all events) kept)
      | inr (e, moved) ↦ (e ∷ events, same ∙ ap (run_all events) moved)
    ]

-- Whatever has been pressed in either place, in any order, a reload finds the token that the session
-- has.
pub act_all-reload :
    (store : Storage) (clicks : List Click)
    → let s = (act_all clicks (initial (Session.initial store))).session in
      (Session.initial s.storage).token ≡ s.token
unfolding initial
act_all-reload store clicks =
    let (events, same) = act_all-run_all clicks (initial (Session.initial store)) in
    rw same (initial-run_all store events)

-- Disconnecting in the menu, where the wallet is connected: neither place has the link to the leagues any
-- more, and neither control has a wallet to disconnect.
pub presses_menu-disconnects :
    (n : Navbar)
    → n.menu_open ≡ true
    → n.session.is_connected ≡ true
    → let t = act (presses_menu Press.disconnects) n in
      ((right t).has_link ≡ false)
      × (can_disconnect (right t).control ≡ false)
      × ((p : Place) × (menu t ≡ some p)
          × (p.has_link ≡ false)
          × (can_disconnect p.control ≡ false))
unfolding act ConnectWallet.act shown right menu disconnect
presses_menu-disconnects n opened connected =
    let t = act (presses_menu Press.disconnects) n in
    (
      ground arith,
      ground arith,
      (
        record { has_link = false; control = shown (menu_control t) },
        ground arith,
        refl,
        ground arith,
      ),
    )
