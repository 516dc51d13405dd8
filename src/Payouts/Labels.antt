-- ===== src/Payouts/Labels.antt =====
-- The labels of places, and the places on offer.

use wagr.Common.{
  ℕ, zero, suc, ◌+◌, ◌≤◌, ◌≡◌, ◌≢◌, ◌↔◌, ◌⊎◌, inl, inr, refl, some, true, any, length, ◌==◌, arith,
}
use wagr.Common.Int.{pos}
use wagr.Js.Number.{parse_int, digit_in}
use wagr.Js.Number.RoundTrip.{parse_int-show-append}
use wagr.Payouts.{ordinal_suffix, ordinal_label, half_up, count_up, place_options}

pub ordinal_suffix-cases :
    (n : ℕ)
    → (ordinal_suffix n ≡ "th Place")
      ⊎ ((ordinal_suffix n ≡ "st Place")
          ⊎ ((ordinal_suffix n ≡ "nd Place") ⊎ (ordinal_suffix n ≡ "rd Place")))
unfolding ordinal_suffix
ordinal_suffix-cases n = ground arith

-- The number of a place can be read off its label.
pub parse_int-ordinal_label : (n : ℕ) → parse_int 10 (ordinal_label n) ≡ some (pos n)
unfolding ordinal_label digit_in
parse_int-ordinal_label n = elim (ordinal_suffix-cases n) [
  | inl e ↦ rw e (parse_int-show-append n "t" "h Place" refl)
  | inr (inl e) ↦ rw e (parse_int-show-append n "s" "t Place" refl)
  | inr (inr (inl e)) ↦ rw e (parse_int-show-append n "n" "d Place" refl)
  | inr (inr (inr e)) ↦ rw e (parse_int-show-append n "r" "d Place" refl)
]

-- Two different places have different labels.
pub ordinal_label-inj : (m n : ℕ) → m ≢ n → ordinal_label m ≢ ordinal_label n
ordinal_label-inj m n d e =
    let same : m ≡ n = cc (parse_int-ordinal_label m, parse_int-ordinal_label n) in d same

length-count_up : (i n : ℕ) → length (count_up i n) ≡ n
unfolding count_up
length-count_up i zero = refl
length-count_up i (suc n) = omega (arith, length-count_up (i + 1) n)

any-count_up : (i n k : ℕ) → (any (λ p. p == k) (count_up i n) ≡ true) ↔ ((i + 1 ≤ k) × (k ≤ i + n))
unfolding count_up
any-count_up i zero k = ground arith
any-count_up i (suc n) k = ground (arith, any-count_up (i + 1) n k)

-- With R rosters, the places on offer are the numbers from 1 to half of R, rounded up.
pub place_options_iff :
    (r k : ℕ) → (any (λ p. p == k) (place_options r) ≡ true) ↔ ((1 ≤ k) × (k ≤ half_up r))
unfolding place_options
place_options_iff r k = ground (arith, any-count_up 0 (half_up r) k)
