-- ===== src/Examples/Form.antt =====
-- The form of the settings at concrete values.

use wagr.Common.{
  ℕ, ◌≤◌, ◌≡◌, refl, inl, inr, arith, List, [], ◌∷◌, some, true, false, any, ◌==◌, push,
}
use wagr.Common.Int.{pos}
use wagr.Js.Effects.{Result, Response}
use wagr.Types.League.{LeagueSettings, score_threshold}
use wagr.Payouts.{half_up, place_options, placements}
use wagr.Settings.{Page, initial, handle_save, SaveRequest}
use wagr.Settings.Saving.{handle_save-echo}
use wagr.Settings.Form.{
  Edit, add_placement, add_weekly, bonus, amount, remove, handle_add_placement, max_place,
  new_placement,
}
use wagr.Settings.Form.Rows.{handle_add_placement_past_options}
use wagr.Examples.{answer, first_place, two_rows, settings}

abbrev shown : Page
shown = record initial {
  settings = some settings;
  entry_fee_cents = pos 5000;
  payout_rows = two_rows;
}

-- A server that stores what it is sent.
abbrev storing : SaveRequest → Result (Response LeagueSettings)
storing request = answer 200 (record settings {
  entry_fee_cents = request.entry_fee_cents;
  payout_structure = some request.payout_structure;
})

handle_save-echo_example :
    let after = handle_save (some "t") (some "7") storing shown in
    (after.payout_rows ≡ two_rows)
    × (after.entry_fee_cents ≡ pos 5000)
    × (after.save_success ≡ true)
handle_save-echo_example =
    handle_save-echo (some "t") (some "7") storing shown settings refl
      (
        record { typed = inl refl; labelled = refl; bonus_iff = refl },
        (record { typed = inr refl; labelled = refl; bonus_iff = refl }, tt),
      )
      (record { status = 200; text = Result.ok ""; json = Result.ok settings }, refl, refl, refl)
      refl refl

abbrev edits : List Edit
edits = add_placement ∷ add_weekly ∷ bonus 3 score_threshold ∷ amount 0 "25" ∷ remove 1 ∷ []

-- One row, with the last of the six places of twelve rosters.
abbrev last_place : Page
last_place = record shown {
  payout_rows = record first_place { place = some 6; label = "6th Place" } ∷ [];
}

most : half_up 12 ≤ max_place 0 (placements last_place.payout_rows)
unfolding max_place
most = omega arith

handle_add_placement_past_options_example :
    (n : ℕ) × (handle_add_placement last_place
      ≡ record last_place { payout_rows = push last_place.payout_rows (new_placement n) })
    × (any (λ k. k == n) (place_options 12) ≡ false)
handle_add_placement_past_options_example =
    handle_add_placement_past_options last_place settings refl (omega arith) most
