-- ===== src/Examples/Controls.antt =====
-- The wallet control, the pages of leagues and the drop-down lists at concrete values.
use wagr.Common.{keep_if, ◌≡◌, ◌⊎◌, refl, Option, some, none, true, false, List, [], ◌∷◌}
use wagr.Js.Effects.{ok, Response}
use wagr.Types.Wallet.{AvailableWallet, hedera}
use wagr.Types.League.{League}
use wagr.Session.{Session, initial}
use wagr.ConnectWallet.{Control, shown, connect_button}
use wagr.Home
use wagr.Home.{wants_fee, Answer, load, view, dashboard, no_leagues_yet}
use wagr.Home.Laws.{is_array, shown as shown_leagues, Lists, load-view}
use wagr.Leagues
use wagr.Leagues.{handle_delete}
use wagr.Leagues.View.{View, nothing_listed, handle_imported, refusal_text, view-refused_removal}
use wagr.Settings
use wagr.Examples.{nothing_stored, league, first_place}
use wagr.Examples.Login.{user}

abbrev hashpack : AvailableWallet
hashpack = record {
  wallet_type = hedera;
  name = "hashpack";
  display_name = "HashPack";
  icon = none;
}

abbrev control : Control
control = record {
  session = record (initial nothing_stored) { available_wallets = hashpack ∷ [] };
  show_wallet_select = false;
}

control-shown : shown control ≡ connect_button "Connect Wallet" true
unfolding shown initial
control-shown = refl

control-wallets : control.session.available_wallets ≡ hashpack ∷ []
control-wallets = refl

abbrev signed : Session
signed = record (initial nothing_stored) { user = some user; token = some "t" }

abbrev unauthorized : Answer
unauthorized = ok (record { status = 401; text = ok ""; json = ok none })

load-view_example :
    let q = load signed unauthorized Home.initial in
    ((leagues : List League) × Lists unauthorized leagues
      × (q.leagues ≡ leagues)
      × (view signed q ≡ dashboard (keep_if wants_fee leagues) (shown_leagues leagues)))
    ⊎ ((is_array unauthorized ≡ false) × (view signed q ≡ dashboard [] no_leagues_yet))
load-view_example = load-view signed unauthorized Home.initial refl refl

-- The removal was clicked once, and is refused on the second click.
abbrev clicked : Leagues.Page
clicked = record Leagues.initial { confirm_id = some "7"; leagues = league ∷ [] }

clicked-confirmed : Leagues.is_confirmed clicked.confirm_id "7" ≡ true
unfolding Leagues.initial
clicked-confirmed = refl

abbrev refusal : Response (Unit {0})
refusal = record { status = 500; text = ok ""; json = ok tt }

abbrev listing : Response (Option (List League))
listing = record { status = 200; text = ok ""; json = ok (some (league ∷ [])) }

view-refused_removal_example :
    let r = handle_imported (some "t") (ok listing) (handle_delete "7" (ok refusal) clicked) in
    (v : View) × (wagr.Leagues.View.view true r ≡ some v)
    × (v.listing ≡ nothing_listed)
    × (v.error_line ≡ some (refusal_text refusal))
view-refused_removal_example =
    view-refused_removal "7" "t" refusal listing (some (league ∷ [])) clicked clicked-confirmed refl
      refl refl

abbrev form : Settings.Page
form = record Settings.initial { payout_rows = first_place ∷ [] }
