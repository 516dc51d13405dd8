-- ===== src/Js/Number/RoundTrip.antt =====
-- A printed integer is read back by `parseInt`.
use Prim.Native.Char.{Char, code}
use Prim.Native.String.{[], ◌∷◌, ◌++◌}
use mathlib.Core.Logic.{dif_pos, dif_neg}
use mathlib.Core.WellFounded.{Acc}
use native.Mathlib.Bridge.{le_prop}
use text.Mathlib.TextLemmas.{nil-append, cons-append}
use wagr.Common.{
  truthy_text, passes_up_to, passes_up_to-elim, ℕ, suc, ◌+◌, ◌*◌, ◌/◌, ◌%◌, ◌<◌, String, none, some,
  true, ◌≡◌, refl, sym, ap, ◌∙◌, ◌==◌, ==_iff, arith, dec_lt,
}
use wagr.Common.Int.{ℤ, pos, negsuc}
use wagr.Js.Number.{
  lt_wf, tenth_lt, digit_char, emit, show, show_ℤ, digit_in, read_digits, parse_digits, trim_start,
  drop_prefix, parse_int,
}

decimal_codes : passes_up_to (λ d. code (digit_char d) == b'0' + d) 10 ≡ true
unfolding passes_up_to digit_char
decimal_codes = refl

pub code-digit_char : (d : ℕ) → d < 10 → code (digit_char d) ≡ b'0' + d
code-digit_char d h = (==_iff _ _).0 (passes_up_to-elim _ 10 d decimal_codes h)

digit_in-digit_char : (d : ℕ) → d < 10 → digit_in 10 (code (digit_char d)) ≡ some d
unfolding digit_in
digit_in-digit_char d h = rw (code-digit_char d h) (ground arith)

read_digits-cons :
    (acc d : ℕ) (s : String)
    → d < 10
    → read_digits 10 acc (digit_char d ∷ s) ≡ read_digits 10 (acc * 10 + d) s
unfolding read_digits
read_digits-cons acc d s h = rw (digit_in-digit_char d h, read_digits)

read_digits-emit :
    (n : ℕ) (w : Acc ◌<◌ n) (out : String) → read_digits 10 0 (emit n w out) ≡ read_digits 10 n out
unfolding emit
read_digits-emit n (Acc.intro _ smaller) out = elim (dec_lt n 10) [
  | yes p ↦
      rw (dif_pos _ le_prop p)
        (read_digits-cons 0 n out p ∙ ap (λ m. read_digits 10 m out) (omega arith))
  | no p ↦ rw (dif_neg _ p) (
      read_digits-emit (n / 10) (smaller (n / 10) (tenth_lt p)) (digit_char (n % 10) ∷ out)
      ∙ read_digits-cons (n / 10) (n % 10) out (omega arith)
      ∙ ap (λ m. read_digits 10 m out) (omega arith))
]

-- What is printed begins with a digit.
emit_head :
    (n : ℕ) (w : Acc ◌<◌ n) (out : String)
    → (d : ℕ) × (s : String) × (d < 10) × (emit n w out ≡ digit_char d ∷ s)
unfolding emit
emit_head n (Acc.intro _ smaller) out = elim (dec_lt n 10) [
  | yes p ↦ (n, out, p, rw (dif_pos _ le_prop p))
  | no p ↦
      let (d, s, h, e) =
        emit_head (n / 10) (smaller (n / 10) (tenth_lt p)) (digit_char (n % 10) ∷ out) in
      (d, s, h, rw (dif_neg _ p) e)
]

parse_digits-head :
    (d : ℕ) (s : String)
    → d < 10
    → parse_digits 10 (digit_char d ∷ s) ≡ some (read_digits 10 0 (digit_char d ∷ s))
unfolding parse_digits
parse_digits-head d s h = ground (arith, digit_in-digit_char d h, read_digits-cons 0 d s h)

trim_start-digit : (d : ℕ) (s : String) → d < 10 → trim_start (digit_char d ∷ s) ≡ digit_char d ∷ s
unfolding trim_start
trim_start-digit d s h = ground (arith, code-digit_char d h)

drop_prefix-ten : (s : String) → drop_prefix 10 s ≡ s
unfolding drop_prefix
drop_prefix-ten [] = refl
drop_prefix-ten (c ∷ []) = refl
drop_prefix-ten (c ∷ d ∷ s) = refl

parse_int-head :
    (d : ℕ) (s : String)
    → d < 10
    → parse_int 10 (digit_char d ∷ s) ≡ some (pos (read_digits 10 0 (digit_char d ∷ s)))
unfolding parse_int
parse_int-head d s h = ground (
  arith,
  trim_start-digit d s h,
  code-digit_char d h,
  drop_prefix-ten (digit_char d ∷ s),
  parse_digits-head d s h,
)

read_digits-stop :
    (n : ℕ) (c : Char) (t : String) → digit_in 10 (code c) ≡ none → read_digits 10 n (c ∷ t) ≡ n
unfolding read_digits
read_digits-stop n c t h = rw (h, read_digits)

emit-append : (n : ℕ) (w : Acc ◌<◌ n) (out t : String) → emit n w out ++ t ≡ emit n w (out ++ t)
unfolding emit
emit-append n (Acc.intro _ smaller) out t = elim (dec_lt n 10) [
  | yes p ↦ rw (dif_pos _ le_prop p) (rw (dif_pos _ le_prop p) (cons-append _ out t))
  | no p ↦ rw (dif_neg _ p) (
      rw (dif_neg _ p) (
        emit-append (n / 10) (smaller (n / 10) (tenth_lt p)) (digit_char (n % 10) ∷ out) t
        ∙ ap (emit (n / 10) (smaller (n / 10) (tenth_lt p))) (cons-append _ out t)))
]

-- What follows the digits is not read.
pub parse_int-show-append :
    (n : ℕ) (c : Char) (t : String)
    → digit_in 10 (code c) ≡ none
    → parse_int 10 (show n ++ (c ∷ t)) ≡ some (pos n)
unfolding show
parse_int-show-append n c t stop =
    let (d, s, h, e) = emit_head n (lt_wf.apply n) (c ∷ t) in
    rw (emit-append n (lt_wf.apply n) [] (c ∷ t), nil-append (c ∷ t), e)
      (parse_int-head d s h
        ∙ ap (λ t. some (pos (read_digits 10 0 t))) (sym e)
        ∙ ap (λ m. some (pos m))
            (read_digits-emit n (lt_wf.apply n) (c ∷ t) ∙ read_digits-stop n c t stop))

parse_digits-show : (n : ℕ) → parse_digits 10 (show n) ≡ some n
unfolding show read_digits
parse_digits-show n =
    let (d, s, h, e) = emit_head n (lt_wf.apply n) [] in
    rw e (
      parse_digits-head d s h
      ∙ ap (λ t. some (read_digits 10 0 t)) (sym e)
      ∙ ap some (read_digits-emit n (lt_wf.apply n) []))

pub parse_int-show : (n : ℕ) → parse_int 10 (show n) ≡ some (pos n)
unfolding show read_digits
parse_int-show n =
    let (d, s, h, e) = emit_head n (lt_wf.apply n) [] in
    rw e (
      parse_int-head d s h
      ∙ ap (λ t. some (pos (read_digits 10 0 t))) (sym e)
      ∙ ap (λ m. some (pos m)) (read_digits-emit n (lt_wf.apply n) []))

-- Printing an integer and reading it back gives the integer.
pub parse_int-show_ℤ : (z : ℤ) → parse_int 10 (show_ℤ z) ≡ some z
unfolding show_ℤ parse_int
parse_int-show_ℤ (pos n) = parse_int-show n
parse_int-show_ℤ (negsuc n) =
    ground (arith, drop_prefix-ten (show (suc n)), parse_digits-show (suc n))

-- Two different numbers are printed differently.
pub show-inj : (m n : ℕ) → show m ≡ show n → m ≡ n
show-inj m n e = cc (parse_int-show m, parse_int-show n)

-- What is printed is not empty.
pub truthy-show_ℤ : (z : ℤ) → truthy_text (show_ℤ z) ≡ true
unfolding show_ℤ
truthy-show_ℤ (pos n) = let (d, s, h, e) = emit_head n (lt_wf.apply n) [] in rw e
truthy-show_ℤ (negsuc n) = refl
