-- ===== src/Js/Number/Pairs.antt =====
-- `parseInt` of two hexadecimal digits, in either case.
use Prim.Native.Char.{Char, code}
use Prim.Native.String.{[], ◌∷◌}
use wagr.Common.{ℕ, ◌+◌, ◌*◌, ◌≤◌, ◌<◌, String, some, false, ◌==◌, ◌||◌, ◌≡◌, ◌⊎◌, arith}
use wagr.Common.Int.{pos}
use wagr.Js.Number.{
  digit_value, digit_in, read_digits, parse_digits, is_space, trim_start, drop_prefix, parse_signed,
  parse_int,
}

abbrev InDigits : ℕ → Type 0
InDigits n = ((48 ≤ n) × (n ≤ 57)) ⊎ (((65 ≤ n) × (n ≤ 70)) ⊎ ((97 ≤ n) × (n ≤ 102)))

pub digit_in_range : (n a : ℕ) → digit_in 16 n ≡ some a → InDigits n × (a < 16)
unfolding digit_in digit_value
digit_in_range n a h = ground arith

not_space : (n : ℕ) → InDigits n → is_space n ≡ false
unfolding is_space
not_space n h = ground arith

not_sign : (n : ℕ) → InDigits n → ((n == b'-') ≡ false) × ((n == b'+') ≡ false)
not_sign n h = (ground arith, ground arith)

not_x : (n : ℕ) → InDigits n → (n == b'x' || n == b'X') ≡ false
not_x n h = ground arith

drop_prefix_pair : (c d : Char) → InDigits (code d) → drop_prefix 16 (c ∷ d ∷ []) ≡ c ∷ d ∷ []
unfolding drop_prefix
drop_prefix_pair c d h = ground (arith, not_x (code d) h)

parse_digits_pair :
    (c d : Char) (a b : ℕ)
    → digit_in 16 (code c) ≡ some a
    → digit_in 16 (code d) ≡ some b
    → parse_digits 16 (c ∷ d ∷ []) ≡ some (a * 16 + b)
unfolding parse_digits read_digits
parse_digits_pair c d a b ha hb = ground (arith, ha, hb)

trim_start_pair : (c : Char) (s : String) → InDigits (code c) → trim_start (c ∷ s) ≡ c ∷ s
unfolding trim_start
trim_start_pair c s h = ground (arith, not_space (code c) h)

parse_signed_pair :
    (c d : Char) (n : ℕ)
    → InDigits (code c)
    → InDigits (code d)
    → parse_digits 16 (c ∷ d ∷ []) ≡ some n
    → parse_signed 16 (c ∷ d ∷ []) ≡ some (pos n)
unfolding parse_signed
parse_signed_pair c d n hc hd h =
    let (minus, plus) = not_sign (code c) hc in rw (minus, plus, drop_prefix_pair c d hd, h)

-- Two digits are read as the number that they spell.
pub parse_int_pair :
    (c d : Char) (a b : ℕ)
    → digit_in 16 (code c) ≡ some a
    → digit_in 16 (code d) ≡ some b
    → parse_int 16 (c ∷ d ∷ []) ≡ some (pos (a * 16 + b))
unfolding parse_int
parse_int_pair c d a b ha hb =
    let (hc, _) = digit_in_range (code c) a ha in
    let (hd, _) = digit_in_range (code d) b hb in
    rw (trim_start_pair c (d ∷ []) hc)
      (parse_signed_pair c d (a * 16 + b) hc hd (parse_digits_pair c d a b ha hb))
