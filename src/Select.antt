-- ===== src/Select.antt =====
-- The drop-down lists of src/web/src/components/PlaceSelect.tsx over the state of the page that shows
-- them: `CustomSelect` with options of text, `PlaceSelect` with options of numbers. The options are
-- there whether the list is open or not.
pub mod Laws
use wagr.Common.{
  ℕ, String, Option, none, some, Bool, true, false, not, List, [], ◌∷◌, map, get_elem?, find_first,
  ◌==◌, ◌===◌,
}

pub record SelectOption : Type 0 where
  pub value : String
  pub label : String

-- `options.find((o) => o.value === value)?.label ?? 'Select…'`
abbrev pub label_of : Option SelectOption → String
label_of none = "Select…"
label_of (some o) = o.label

unfoldable pub selected_label : String → List SelectOption → String
selected_label value options = label_of (find_first (λ o. o.value === value) options)

-- The same of `PlaceSelect`, whose value may be the empty text.
abbrev pub selected_place_label : (ℕ → String) → Option ℕ → String
selected_place_label get_label none = "Select place…"
selected_place_label get_label (some place) = get_label place

-- An option as it is shown: its label, and whether it is the selected one.
abbrev pub shown_options : String → List SelectOption → List (String × Bool)
shown_options value options = map (λ o. (o.label, o.value === value)) options

abbrev pub is_place : Option ℕ → ℕ → Bool
is_place none n = false
is_place (some place) n = place == n

abbrev pub shown_places : (ℕ → String) → Option ℕ → List ℕ → List (String × Bool)
shown_places get_label value options = map (λ n. (get_label n, is_place value n)) options

-- What happens to a list: its button, a mouse button that goes down inside or outside it, and an
-- option, picked by its place.
pub data Event : Type 0 where
  toggles : Event
  presses_inside : Event
  presses_outside : Event
  chooses : ℕ → Event

module _ {ℓ κ} {A : Type ℓ} {S : Type κ} (on_change : A → S → S) where
  abbrev pub choose : Option A → Bool × S → Bool × S
  choose none (is_open, s) = (is_open, s)
  choose (some value) (is_open, s) = (false, on_change value s)

  unfoldable pub act : List A → Event → Bool × S → Bool × S
  act options toggles (is_open, s) = (not is_open, s)
  act options presses_inside (is_open, s) = (is_open, s)
  act options presses_outside (is_open, s) = (false, s)
  act options (chooses i) c = choose (get_elem? options i) c

  unfoldable pub act_all : List A → List Event → Bool × S → Bool × S
  act_all options [] c = c
  act_all options (e ∷ events) c = act_all options events (act options e c)
