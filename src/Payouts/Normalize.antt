-- ===== src/Payouts/Normalize.antt =====
-- Normalising stored entries.

use text.Mathlib.TextLemmas.{append-ne-nil_of_right_ne-nil, cons-ne-nil}
use wagr.Common.{
  ℕ, ◌+◌, String, ◌≡◌, ◌≢◌, refl, sym, ◌∙◌, ◌⊎◌, inl, inr, List, [], ◌∷◌, arith, true, truthy_text,
  or_default, some, is_some, All,
}
use wagr.Types.League.{
  PayoutEntry, placement, weekly, is_weekly, BonusType, weekly_high_score, score_threshold,
  highest_weekly_score,
}
use wagr.Payouts.Labels.{ordinal_suffix-cases}
use wagr.Payouts.{
  default_label_for_bonus_type, ordinal_suffix, ordinal_label, normalize_entry, normalize_from,
  normalize_entries,
}

pub record IsNormal (e : PayoutEntry) : Type 0 where
  pub typed : (e.entry_type ≡ some placement) ⊎ (e.entry_type ≡ some weekly)
  pub labelled : truthy_text e.label ≡ true
  pub bonus_iff : is_some e.bonus_type ≡ is_weekly e.entry_type

truthy_text-of_ne : (s : String) → s ≢ "" → truthy_text s ≡ true
truthy_text-of_ne String.[] h = absurd (h refl)
truthy_text-of_ne (String.◌∷◌ c s) h = refl

ordinal_suffix-ne-nil : (n : ℕ) → ordinal_suffix n ≢ ""
ordinal_suffix-ne-nil n e = elim (ordinal_suffix-cases n) [
  | inl h ↦ cons-ne-nil _ _ (sym h ∙ e)
  | inr (inl h) ↦ cons-ne-nil _ _ (sym h ∙ e)
  | inr (inr (inl h)) ↦ cons-ne-nil _ _ (sym h ∙ e)
  | inr (inr (inr h)) ↦ cons-ne-nil _ _ (sym h ∙ e)
]

pub truthy-ordinal_label : (n : ℕ) → truthy_text (ordinal_label n) ≡ true
unfolding ordinal_label
truthy-ordinal_label n =
    truthy_text-of_ne _ (append-ne-nil_of_right_ne-nil _ (ordinal_suffix-ne-nil n))

pub truthy-default_label : (bt : BonusType) → truthy_text (default_label_for_bonus_type bt) ≡ true
unfolding default_label_for_bonus_type
truthy-default_label weekly_high_score = refl
truthy-default_label score_threshold = refl
truthy-default_label highest_weekly_score = refl

IsNormal-normalize_entry : (e : PayoutEntry) (i : ℕ) → IsNormal (normalize_entry e i)
unfolding normalize_entry
IsNormal-normalize_entry e i = ground (
  arith,
  truthy-default_label (or_default e.bonus_type weekly_high_score),
  truthy-ordinal_label (or_default e.place (i + 1)),
)

normalize_from-IsNormal : (i : ℕ) (es : List PayoutEntry) → All IsNormal (normalize_from i es)
unfolding normalize_from
normalize_from-IsNormal i [] = tt
normalize_from-IsNormal i (e ∷ es) =
    (IsNormal-normalize_entry e i, normalize_from-IsNormal (i + 1) es)

-- After normalising, every entry has a type and a label that is not empty, and an entry has a
-- bonus type exactly when it is a weekly one.
pub normalize_entries-IsNormal : (es : List PayoutEntry) → All IsNormal (normalize_entries es)
unfolding normalize_entries
normalize_entries-IsNormal es = normalize_from-IsNormal 0 es

normalize_entry_id : (e : PayoutEntry) (i : ℕ) → IsNormal e → normalize_entry e i ≡ e
unfolding normalize_entry
normalize_entry_id e i h = ground arith

normalize_from_id : (i : ℕ) (es : List PayoutEntry) → All IsNormal es → normalize_from i es ≡ es
unfolding normalize_from
normalize_from_id i [] h = refl
normalize_from_id i (e ∷ es) (p, h) = rw (normalize_entry_id e i p, normalize_from_id (i + 1) es h)

-- Entries that are normal are left alone.
pub normalize_entries_id : (es : List PayoutEntry) → All IsNormal es → normalize_entries es ≡ es
unfolding normalize_entries
normalize_entries_id es h = normalize_from_id 0 es h
