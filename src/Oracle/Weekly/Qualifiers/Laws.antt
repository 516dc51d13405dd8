-- ===== src/Oracle/Weekly/Qualifiers/Laws.antt =====
-- Who has the highest score of a week.
use wagr.Common.{
  Option, none, some, Bool, true, false, List, [], ◌∷◌, ◌++◌, All, ◌≡◌, ◌⊎◌, inl, inr, refl, ap,
  arith, Bool-cases,
}
use wagr.Common.Int.{pos, ltb_ℤ}
use wagr.Oracle.Weekly.Qualifiers.{Matchup, better, best_of, high_scorer}

abbrev pub is_below : Matchup → Matchup → Bool
is_below m n = ltb_ℤ m.points n.points

abbrev pub scores : Matchup → Bool
scores m = ltb_ℤ (pos 0) m.points

-- The first of those with the most points, which are some.
pub record IsHighest (matchups : List Matchup) (best : Matchup) : Type 0 where
  pub before : List Matchup
  pub after : List Matchup
  pub split : matchups ≡ before ++ (best ∷ after)
  pub earlier : All (λ m. is_below m best ≡ true) before
  pub later : All (λ m. is_below best m ≡ false) after
  pub positive : scores best ≡ true

IsHighest-cons :
    (m best : Matchup) (matchups : List Matchup)
    → is_below m best ≡ true
    → IsHighest matchups best
    → IsHighest (m ∷ matchups) best
IsHighest-cons m best matchups lower h = record {
  before = m ∷ h.before;
  after = h.after;
  split = ap (λ xs. m ∷ xs) h.split;
  earlier = (lower, h.earlier);
  later = h.later;
  positive = h.positive;
}

is_below_trans :
    (a b c : Matchup) → is_below b a ≡ false → is_below b c ≡ true → is_below a c ≡ true
is_below_trans a b c h k = ground (arith, h, k)

-- The loop from a roster on that is the best so far.
FromSome : Matchup → List Matchup → Option Matchup → Type 0
FromSome b matchups r =
    ((r ≡ some b) × All (λ m. is_below b m ≡ false) matchups)
    ⊎ ((c : Matchup) × (r ≡ some c) × (is_below b c ≡ true) × IsHighest matchups c)

best_of-some :
    (b : Matchup) (matchups : List Matchup)
    → scores b ≡ true
    → FromSome b matchups (best_of (some b) matchups)
unfolding best_of FromSome
best_of-some b [] positive = inl (refl, tt)
best_of-some b (m ∷ matchups) positive = elim (Bool-cases (is_below b m)) [
  | inl higher ↦
      let gains : scores m ≡ true = ground (arith, higher, positive) in
      let step : better (some b) m ≡ some m = ground (arith, higher, gains) in
      rw step (elim (best_of-some m matchups gains) [
        | inl (same, rest) ↦ inr (
          m,
          same,
          higher,
          record {
            before = [];
            after = matchups;
            split = refl;
            earlier = tt;
            later = rest;
            positive = gains;
          },
        )
        | inr (c, found, above, h) ↦
            inr (c, found, ground (arith, higher, above), IsHighest-cons m c matchups above h)
      ])
  | inr lower ↦
      let step : better (some b) m ≡ some b = ground (arith, lower) in
      rw step (elim (best_of-some b matchups positive) [
        | inl (same, rest) ↦ inl (same, (lower, rest))
        | inr (c, found, above, h) ↦
            inr (c, found, above, IsHighest-cons m c matchups (is_below_trans m b c lower above) h)
      ])
]

FromNone : List Matchup → Option Matchup → Type 0
FromNone matchups r =
    ((r ≡ none) × All (λ m. scores m ≡ false) matchups)
    ⊎ ((c : Matchup) × (r ≡ some c) × IsHighest matchups c)

best_of-none : (matchups : List Matchup) → FromNone matchups (best_of none matchups)
unfolding best_of FromNone FromSome
best_of-none [] = inl (refl, tt)
best_of-none (m ∷ matchups) = elim (Bool-cases (scores m)) [
  | inl gains ↦
      let step : better none m ≡ some m = ground (arith, gains) in
      rw step (elim (best_of-some m matchups gains) [
        | inl (same, rest) ↦ inr (
          m,
          same,
          record {
            before = [];
            after = matchups;
            split = refl;
            earlier = tt;
            later = rest;
            positive = gains;
          },
        )
        | inr (c, found, above, h) ↦ inr (c, found, IsHighest-cons m c matchups above h)
      ])
  | inr empty ↦
      let step : better none m ≡ none = ground (arith, empty) in
      rw step (elim (best_of-none matchups) [
        | inl (same, rest) ↦ inl (same, (empty, rest))
        | inr (c, found, h) ↦
            inr (c, found, IsHighest-cons m c matchups (ground (arith, empty, h.positive)) h)
      ])
]

-- The highest scorer of a week is nobody exactly where nobody has points; or it is one roster, the first
-- of those with the most points.
pub high_scorer-IsHighest :
    (matchups : List Matchup)
    → ((high_scorer matchups ≡ []) × All (λ m. scores m ≡ false) matchups)
      ⊎ ((best : Matchup) × (high_scorer matchups ≡ best ∷ []) × IsHighest matchups best)
unfolding high_scorer FromNone
high_scorer-IsHighest matchups = elim (best_of-none matchups) [
  | inl (nobody, rest) ↦ inl (ground (arith, nobody), rest)
  | inr (best, found, h) ↦ inr (best, ground (arith, found), h)
]
