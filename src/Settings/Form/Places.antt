-- ===== src/Settings/Form/Places.antt =====
-- The drop-down list of a row's place (src/web/src/components/PlaceSelect.tsx) in the form of
-- src/web/src/pages/LeagueSettings.tsx.
use wagr.Common.{
  ℕ, zero, suc, ◌≤◌, ◌≡◌, some, Bool, true, false, List, [], ◌∷◌, get_elem?, modify_at, any, ◌==◌,
  refl, arith,
}
use wagr.Types.League.{PayoutEntry}
use wagr.Payouts.{ordinal_label, half_up, place_options}
use wagr.Payouts.Labels.{place_options_iff}
use wagr.Settings.{Page}
use wagr.Settings.Form.{update_row, choose_place}
use wagr.Select
use wagr.Select.{chooses, selected_place_label}

get_elem?-modify_at :
    (i : ℕ) (f : PayoutEntry → PayoutEntry) (rows : List PayoutEntry) (row : PayoutEntry)
    → get_elem? rows i ≡ some row
    → get_elem? (modify_at i f rows) i ≡ some (f row)
get_elem?-modify_at i f [] row e = cc
get_elem?-modify_at zero f (r ∷ rows) row e = cc
get_elem?-modify_at (suc i) f (r ∷ rows) row e = get_elem?-modify_at i f rows row e

any-get_elem? : (xs : List ℕ) (j n : ℕ) → get_elem? xs j ≡ some n → any (λ p. p == n) xs ≡ true
any-get_elem? [] j n e = cc
any-get_elem? (x ∷ xs) zero n e = ground arith
any-get_elem? (x ∷ xs) (suc j) n e = ground (arith, any-get_elem? xs j n e)

-- Choosing an option in the list of a row closes the list, gives the row the place of the option, which
-- is between 1 and half of the rosters, rounded up, and makes the row’s label the one that the list
-- then shows.
choose_place-act :
    (rosters i j n : ℕ) (row : PayoutEntry) (is_open : Bool) (p : Page)
    → get_elem? p.payout_rows i ≡ some row
    → get_elem? (place_options rosters) j ≡ some n
    → let (is_open', q) =
        Select.act (choose_place i) (place_options rosters) (chooses j) (is_open, p) in
      (row' : PayoutEntry) × (is_open' ≡ false)
      × (get_elem? q.payout_rows i ≡ some row')
      × (row'.place ≡ some n)
      × (row'.label ≡ selected_place_label ordinal_label row'.place)
      × (1 ≤ n)
      × (n ≤ half_up rosters)
unfolding Select.act choose_place update_row
choose_place-act rosters i j n row is_open p found chosen =
    let (low, high) =
      (place_options_iff rosters n).0 (any-get_elem? (place_options rosters) j n chosen) in
    rw chosen (
      record row { place = some n; label = ordinal_label n },
      refl,
      get_elem?-modify_at i _ p.payout_rows row found,
      refl,
      refl,
      low,
      high,
    )
