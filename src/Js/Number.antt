-- ===== src/Js/Number.antt =====
-- Numbers as text: `String(n)`, `toString(16)` of a byte, and `parseInt(s, radix)`.
pub mod RoundTrip
pub mod Pairs
use Prim.Native.Char.{Char, code}
use Prim.Native.String.{[], ◌∷◌}
use mathlib.Core.Logic.{dite}
use mathlib.Core.WellFounded.{Acc, WellFounded}
use wagr.Common.{
  ℕ, zero, suc, ◌+◌, ◌-◌, ◌*◌, ◌/◌, ◌%◌, ◌<◌, ◌≤◌, String, Option, none, some, Bool, true, false,
  ◌&&◌, ◌||◌, ◌≢◌, arith, ltb, leb, ◌==◌, if◌then◌else◌, dec_lt, not, truthy_text, or_default,
}
use wagr.Common.Int.{ℤ, pos, negsuc}

acc_below : (k n : ℕ) → n < k → Acc ◌<◌ n
acc_below zero n h = absurd (omega arith)
acc_below (suc k) n h = Acc.intro n (λ m lt. acc_below k m (omega arith))

lt_wf : WellFounded ◌<◌
unfolding acc_below
lt_wf = record { apply = λ n. acc_below (suc n) n (omega arith) }

pub tenth_lt : {n : ℕ} → ¬ (n < 10) → n / 10 < n
tenth_lt h = omega arith

nth_char : ℕ → String → Char
nth_char i [] = "?"
nth_char zero (c ∷ s) = c
nth_char (suc i) (c ∷ s) = nth_char i s

unfoldable pub digit_char : ℕ → Char
unfolding nth_char
digit_char d = nth_char d "0123456789abcdef"

-- The digits of `n` in base ten, in front of `out`.
emit : (n : ℕ) → Acc ◌<◌ n → String → String
emit n (Acc.intro _ smaller) out =
    dite (dec_lt n 10) (λ _. digit_char n ∷ out)
      (λ h. emit (n / 10) (smaller (n / 10) (tenth_lt h)) (digit_char (n % 10) ∷ out))

-- `String(n)`
unfoldable pub show : ℕ → String
unfolding emit lt_wf digit_char dec_lt
show n = emit n (lt_wf.apply n) []

unfoldable pub show_ℤ : ℤ → String
unfolding show
show_ℤ (pos n) = show n
show_ℤ (negsuc n) = "-" ∷ show (suc n)

-- The value of a digit or letter, by its code.
pub digit_value : ℕ → Option ℕ
digit_value c =
    if leb b'0' c && leb c b'9'
    then some (c - b'0')
    else if leb b'a' c && leb c b'z'
    then some (c - b'a' + 10)
    else if leb b'A' c && leb c b'Z'
    then some (c - b'A' + 10)
    else none

-- A digit below the radix.
unfoldable pub digit_in : ℕ → ℕ → Option ℕ
unfolding digit_value
digit_in radix c = elim (digit_value c) [
  | none ↦ none
  | some d ↦ if ltb d radix then some d else none
]

-- The longest prefix of digits, read behind `acc`.
unfoldable pub read_digits : ℕ → ℕ → String → ℕ
read_digits radix acc [] = acc
read_digits radix acc (c ∷ s) = elim (digit_in radix (code c)) [
  | none ↦ acc
  | some d ↦ read_digits radix (acc * radix + d) s
]

-- With no digit at all the result is `NaN`.
unfoldable pub parse_digits : ℕ → String → Option ℕ
unfolding read_digits
parse_digits radix [] = none
parse_digits radix (c ∷ s) = elim (digit_in radix (code c)) [
  | none ↦ none
  | some d ↦ some (read_digits radix d s)
]

-- The white space and line ends that `trim` and `parseInt` skip.
pub is_space : ℕ → Bool
is_space c =
    leb 9 c && leb c 13
    || c == 32
    || c == 160
    || c == 0x1680
    || leb 0x2000 c && leb c 0x200a
    || c == 0x2028
    || c == 0x2029
    || c == 0x202f
    || c == 0x205f
    || c == 0x3000
    || c == 0xfeff

unfoldable pub trim_start : String → String
unfolding is_space
trim_start [] = []
trim_start (c ∷ s) = if is_space (code c) then trim_start s else c ∷ s

-- `0x` or `0X` is dropped when the radix is 16.
pub drop_prefix : ℕ → String → String
drop_prefix radix (c ∷ d ∷ s) =
    if radix == 16 && code c == b'0' && (code d == b'x' || code d == b'X') then s else c ∷ d ∷ s
drop_prefix radix s = s

pub negate : ℕ → ℤ
negate zero = pos 0
negate (suc n) = negsuc n

pub parse_signed : ℕ → String → Option ℤ
unfolding parse_digits drop_prefix negate
parse_signed radix [] = none
parse_signed radix (c ∷ s) =
    if code c == b'-'
    then elim (parse_digits radix (drop_prefix radix s)) [ none ↦ none | some n ↦ some (negate n) ]
    else elim (parse_digits radix (drop_prefix radix (if code c == b'+' then s else c ∷ s))) [
      | none ↦ none
      | some n ↦ some (pos n)
    ]

-- `parseInt(s, radix)`; `none` is `NaN`.
unfoldable pub parse_int : ℕ → String → Option ℤ
unfolding parse_signed trim_start
parse_int radix s = parse_signed radix (trim_start s)

-- `s.trim()`
pub trim_end : String → String
unfolding is_space
trim_end [] = []
trim_end (c ∷ s) =
    let rest = trim_end s in if is_space (code c) && not (truthy_text rest) then [] else c ∷ rest

unfoldable pub trim : String → String
unfolding trim_end
trim s = trim_end (trim_start s)
