-- ===== src/Examples/Display.antt =====
-- What the league's page shows, loads, cancels and reactivates, at concrete values.

use wagr.Common.{◌≡◌, refl, List, [], ◌∷◌, some, none, true, false}
use wagr.Common.Int.{pos}
use wagr.Types.League.{LeagueMember, paid}
use wagr.Overview.{Page, initial, mark_detail}
use wagr.Overview.Load.{Answers}
use wagr.Overview.Pay.{World}
use wagr.Overview.Pay.Laws.{Unconfirmed, Settled}
use wagr.Examples.{
  answer, context, page, detail, cancelled, member, settings, instructions, sdk, third_time,
}

abbrev answers : Answers
answers = record {
  detail = answer 200 detail;
  settings = answer 200 settings;
  detail_first = true;
  detail_body_first = true;
}

idle_cancel : page.cancel_loading ≡ false
unfolding initial
idle_cancel = refl

idle_reactivate : page.reactivate_loading ≡ false
unfolding initial
idle_reactivate = refl

abbrev shown : Page
shown = record page { detail = some cancelled }

abbrev payer : LeagueMember
payer = record member { payment_status = paid }

abbrev world : World
world = record { instructions = answer 200 instructions; sdk = sdk; confirmation = third_time }

abbrev unconfirmed : Page
unconfirmed = record page {
  pay_error = some "Confirmation failed";
  pay_loading = false;
  pending_tx_id = some "0.0.5@1";
  storage = λ key. some "0.0.5@1";
}

unconfirmed-Unconfirmed : Unconfirmed context world "0.0.5@1" page unconfirmed
unconfirmed-Unconfirmed = record {
  told = refl;
  ready = refl;
  pending = refl;
  stored = refl;
  detail = refl;
}

abbrev settled : Page
settled = record page {
  pay_error = none;
  pay_loading = false;
  pending_tx_id = none;
  storage = λ key. none;
  detail = mark_detail paid (some "u1") "0.0.5@1" (some detail);
}

settled-Settled : Settled context world "0.0.5@1" page settled
settled-Settled = record {
  no_error = refl;
  ready = refl;
  pending = refl;
  stored = refl;
  detail = refl;
}

abbrev teams : List LeagueMember
teams = record member { total_points = pos 300 } ∷ member ∷ []
