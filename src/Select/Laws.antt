-- ===== src/Select/Laws.antt =====
-- What a drop-down list shows after a choice, and what it can set.
use wagr.Common.{
  ℕ, zero, suc, Option, none, some, Bool, List, [], ◌∷◌, All, get_elem?, ◌≡◌, ◌≢◌, refl, eq_refl,
  eq_iff, arith,
}
use wagr.Select.{
  SelectOption, selected_label, Event, toggles, presses_inside, presses_outside, chooses, choose,
  act, act_all,
}

-- No two options have one value.
abbrev pub AreDistinct : List SelectOption → Type 0
AreDistinct [] = Unit
AreDistinct (o ∷ options) = All (λ p. p.value ≢ o.value) options × AreDistinct options

All-get_elem? :
    (o p : SelectOption) (options : List SelectOption) (i : ℕ)
    → All (λ p. p.value ≢ o.value) options
    → get_elem? options i ≡ some p
    → p.value ≢ o.value
All-get_elem? o p [] i h e = cc
All-get_elem? o p (q ∷ options) zero (d, h) e = λ same. ground (arith, d)
All-get_elem? o p (q ∷ options) (suc i) (d, h) e = All-get_elem? o p options i h e

-- Once an option has been chosen and the page has taken its value, the button shows its label, if no
-- two options have one value.
selected_label-choose :
    (options : List SelectOption) (i : ℕ) (o : SelectOption)
    → AreDistinct options
    → get_elem? options i ≡ some o
    → selected_label o.value options ≡ o.label
unfolding selected_label
selected_label-choose [] i o h e = cc
selected_label-choose (p ∷ options) zero o (d, h) e = ground (arith, eq_refl p.value)
selected_label-choose (p ∷ options) (suc i) o (d, h) e = ground (
  arith,
  eq_iff p.value o.value,
  All-get_elem? p o options i d e,
  selected_label-choose options i o h e,
)

module _ {ℓ κ μ} {A : Type ℓ} {S : Type κ} (on_change : A → S → S) (P : S → Type μ) where
  choose-keeps :
      (o : Option A) (c : Bool × S)
      → ((a : A) → o ≡ some a → P (on_change a c.1))
      → P c.1
      → P (choose on_change o c).1
  choose-keeps none c keeps h = h
  choose-keeps (some a) c keeps h = keeps a refl

  -- Whatever happens to the list, the page keeps what every option that is offered keeps.
  pub act_all-keeps :
      (options : List A) (events : List Event) (c : Bool × S)
      → ((i : ℕ) (a : A) (s : S) → get_elem? options i ≡ some a → P s → P (on_change a s))
      → P c.1
      → P (act_all on_change options events c).1
  unfolding act_all act
  act_all-keeps options [] c keeps h = h
  act_all-keeps options (toggles ∷ events) c keeps h = act_all-keeps options events _ keeps h
  act_all-keeps options (presses_inside ∷ events) c keeps h = act_all-keeps options events _ keeps h
  act_all-keeps options (presses_outside ∷ events) c keeps h =
      act_all-keeps options events _ keeps h
  act_all-keeps options (chooses i ∷ events) c keeps h =
      act_all-keeps options events _ keeps
        (choose-keeps (get_elem? options i) c (λ a e. keeps i a c.1 e h) h)
