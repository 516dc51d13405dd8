-- ===== src/Home/Laws.antt =====
-- What the page shows after loading, after an import and after connecting, and its dashboard.
use wagr.Common.{
  Bool, is_some, map, keep_if, Option, some, true, false, List, [], ◌∷◌, ◌≡◌, ◌⊎◌, inl, inr, refl,
  truthy, arith, Bool-cases, Option-cases, ap, ◌∙◌, sym,
}
use wagr.Js.Effects.{Result-cases, ok, throw, Response}
use wagr.Types.League.{League}
use wagr.Types.Wallet.{AvailableWallet}
use wagr.Session.{Session, World}
use wagr.ConnectWallet
use wagr.ConnectWallet.{Control, is_authenticated}
use wagr.ConnectWallet.Laws.{handle_connect-session}
use wagr.Home.{
  Home, Answer, load, handle_imported, handle_connect, connect_first, total_prize_pool,
  action_items, no_leagues_yet, Listing, cards, card, wants_fee, listing, dashboard, view,
}

-- The leagues that an answer lists, if it is an array of leagues.
pub data Lists : Answer → List League → Type 0 where
  lists :
      (response : Response (Option (List League))) (leagues : List League)
      → response.json ≡ ok (some leagues)
      → Lists (ok response) leagues

abbrev pub is_array : Answer → Bool
is_array (throw e) = false
is_array (ok response) = elim response.json [ throw e ↦ false | ok body ↦ is_some body ]

-- What the dashboard lists of some leagues.
abbrev pub shown : List League → Listing
shown [] = no_leagues_yet
shown (l ∷ leagues) = cards (card l ∷ map card leagues)

-- For a user who is signed in, with a token: where the answer is an array of leagues, loading shows
-- these leagues, and those of them that want a fee. Where it is none, an error of the server or of the
-- network included, the page shows that there are no leagues yet.
pub load-view :
    (s : Session) (answer : Answer) (h : Home)
    → is_authenticated s ≡ true
    → truthy s.token ≡ true
    → let q = load s answer h in
      ((leagues : List League) × Lists answer leagues
        × (q.leagues ≡ leagues)
        × (view s q ≡ dashboard (keep_if wants_fee leagues) (shown leagues)))
      ⊎ ((is_array answer ≡ false) × (view s q ≡ dashboard [] no_leagues_yet))
unfolding load view listing action_items
load-view s (throw e) h signed held = inr (refl, ground arith)
load-view s (ok response) h signed held = elim (Result-cases response.json) [
  | inl (e, failed) ↦ inr (ground (arith, failed), ground (arith, failed))
  | inr (body, read) ↦ elim (Option-cases body) [
    | inl missing ↦ inr (ground (arith, read, missing), ground (arith, read, missing))
    | inr ([], given) ↦ inl (
      [],
      lists response [] (read ∙ ap ok given),
      ground (arith, read, given),
      ground (arith, read, given),
    )
    | inr (l ∷ leagues, given) ↦ inl (
      l ∷ leagues,
      lists response (l ∷ leagues) (read ∙ ap ok given),
      ground (arith, read, given),
      ground (arith, read, given),
    )
  ]
]

-- After an import the dialog is closed, and the list is what the new answer lists, empty if it is the
-- server’s error, or as before if the network failed or there is no token.
pub handle_imported_lem :
    (s : Session) (answer : Answer) (h : Home)
    → let q = handle_imported s answer h in
      (q.show_import ≡ false)
      × (((leagues : List League) × Lists answer leagues × (q.leagues ≡ leagues))
          ⊎ (q.leagues ≡ [])
          ⊎ (q.leagues ≡ h.leagues))
unfolding handle_imported
handle_imported_lem s (throw e) h = ground arith
handle_imported_lem s (ok response) h = elim (Result-cases response.json) [
  | inl (e, failed) ↦ ground (arith, failed)
  | inr (body, read) ↦ elim (Option-cases body) [
    | inl missing ↦ ground (arith, read, missing)
    | inr (leagues, given) ↦ elim (Bool-cases (truthy s.token)) [
      | inr absent ↦ ground (arith, absent)
      | inl held ↦ (
        ground (arith, read, given, held),
        inl (
          leagues,
          lists response leagues (read ∙ ap ok given),
          ground (arith, read, given, held),
        ),
      )
    ]
  ]
]

-- With one wallet, the button of this page and the wallet control of the navigation bar do the same.
handle_connect-press_connect :
    (w : World) (only : AvailableWallet) (c : Control)
    → c.session.available_wallets ≡ only ∷ []
    → handle_connect w c.session ≡ (ConnectWallet.press_connect w c).session
unfolding handle_connect ConnectWallet.press_with
handle_connect-press_connect w only c one =
    ap (λ wallets. connect_first w wallets c.session) one
    ∙ sym (handle_connect-session w only.wallet_type only.name c)
    ∙ sym (ap (λ wallets. (ConnectWallet.press_with w wallets c).session) one)

-- No league that still wants a fee adds to the estimated prize pool.
pub total_prize_pool-action_items :
    (leagues : List League) → total_prize_pool (action_items leagues) ≡ 0
unfolding total_prize_pool action_items
total_prize_pool-action_items [] = refl
total_prize_pool-action_items (l ∷ leagues) = ground (arith, total_prize_pool-action_items leagues)
