-- ===== src/Hedera/Encoding/RoundTrip.antt =====
-- The bytes of a league's UUID spell the UUID.
use Prim.Native.Char.{Char}
use Prim.Native.String.{[], ◌∷◌}
use text.Mathlib.TextLemmas.{cons-eq-cons}
use wagr.Common.{
  ℕ, zero, suc, ◌+◌, ◌*◌, ◌/◌, ◌%◌, ◌<◌, ◌≤◌, String, ◌≡◌, ◌≢◌, refl, sym, ap, ◌∙◌, true, ◌==◌,
  ==_iff, arith, passes_up_to, passes_up_to-elim,
}
use wagr.Js.Number.{digit_char, digit_in, parse_int}
use wagr.Hedera.Encoding.{
  hex_byte, uint8_array_to_hex, strip_dashes, pad_end, to_uint8, read_bytes, league_id_bytes32,
}

-- A lower-case hexadecimal digit.
abbrev pub IsHexDigit : Char → Type 0
IsHexDigit c = (d : ℕ) × (d < 16) × (c ≡ digit_char d)

abbrev pub IsHex : String → Type 0
IsHex [] = Unit
IsHex (c ∷ s) = IsHexDigit c × IsHex s

-- `s.length`
abbrev pub size : String → ℕ
size [] = 0
size (c ∷ s) = suc (size s)

byte_table : passes_up_to (λ n. to_uint8 (parse_int 16 (hex_byte n "")) == n) 256 ≡ true
unfolding passes_up_to to_uint8 parse_int hex_byte digit_char digit_in
byte_table = refl

read_byte : (n : ℕ) → n < 256 → to_uint8 (parse_int 16 (hex_byte n "")) ≡ n
read_byte n h = (==_iff _ _).0 (passes_up_to-elim _ 256 n byte_table h)

read_pair :
    (a b : ℕ)
    → a < 16
    → b < 16
    → to_uint8 (parse_int 16 (digit_char a ∷ digit_char b ∷ [])) ≡ a * 16 + b
unfolding hex_byte
read_pair a b ha hb =
    let high : (a * 16 + b) / 16 ≡ a = omega arith in
    let low : (a * 16 + b) % 16 ≡ b = omega arith in
    rw (high, low) at (read_byte (a * 16 + b) (omega arith))

hex_byte-pair :
    (a b : ℕ) (s : String)
    → a < 16
    → b < 16
    → hex_byte (a * 16 + b) s ≡ digit_char a ∷ digit_char b ∷ s
unfolding hex_byte
hex_byte-pair a b s ha hb =
    let high : (a * 16 + b) / 16 ≡ a = omega arith in
    let low : (a * 16 + b) % 16 ≡ b = omega arith in rw (high, low)

zero_digit : digit_char 0 ≡ "0"
unfolding digit_char
zero_digit = refl

pub pad_end-IsHex : (n : ℕ) (s : String) → IsHex s → IsHex (pad_end n s)
unfolding pad_end
pad_end-IsHex zero s h = h
pad_end-IsHex (suc n) [] h = ((0, omega arith, sym zero_digit), pad_end-IsHex n [] tt)
pad_end-IsHex (suc n) (c ∷ s) (p, h) = (p, pad_end-IsHex n s h)

size-pad_end : (n : ℕ) (s : String) → size s ≤ n → size (pad_end n s) ≡ n
unfolding pad_end
size-pad_end zero [] h = refl
size-pad_end zero (c ∷ s) h = absurd (omega arith)
size-pad_end (suc n) [] h = omega (arith, size-pad_end n [])
size-pad_end (suc n) (c ∷ s) h = omega (arith, size-pad_end n s)

hex-read_bytes :
    (n : ℕ) (s : String) → IsHex s → size s ≡ n + n → uint8_array_to_hex (read_bytes n s) ≡ s
unfolding uint8_array_to_hex read_bytes
hex-read_bytes zero [] h e = refl
hex-read_bytes zero (c ∷ s) h e = absurd (omega arith)
hex-read_bytes (suc n) [] h e = absurd (omega arith)
hex-read_bytes (suc n) (c ∷ []) h e = absurd (omega arith)
hex-read_bytes (suc n) (c ∷ d ∷ s) ((a, ha, ca), ((b, hb, db), h)) e =
    rw (ca, db, read_pair a b ha hb, hex-read_bytes n s h (omega arith)) (hex_byte-pair a b s ha hb)

-- Where the identifier without its dashes is at most 64 hexadecimal digits in lower case, as that of
-- a UUID is, its bytes spell those digits, with zeros behind them.
pub uint8_array_to_hex-league_id_bytes32 :
    (league_id : String)
    → IsHex (strip_dashes league_id)
    → size (strip_dashes league_id) ≤ 64
    → uint8_array_to_hex (league_id_bytes32 league_id) ≡ pad_end 64 (strip_dashes league_id)
unfolding league_id_bytes32
uint8_array_to_hex-league_id_bytes32 league_id h fits =
    hex-read_bytes 32 _ (pad_end-IsHex 64 _ h) (size-pad_end 64 _ fits)

pub pad_end-inj :
    (n : ℕ) (s t : String) → size s ≡ size t → size s ≤ n → pad_end n s ≡ pad_end n t → s ≡ t
unfolding pad_end
pad_end-inj n [] [] same fits e = refl
pad_end-inj n [] (d ∷ t) same fits e = absurd (omega arith)
pad_end-inj n (c ∷ s) [] same fits e = absurd (omega arith)
pad_end-inj zero (c ∷ s) (d ∷ t) same fits e = absurd (omega arith)
pad_end-inj (suc n) (c ∷ s) (d ∷ t) same fits e =
    let (first, rest) = cons-eq-cons.0 e in
    rw (first, pad_end-inj n s t (omega arith) (omega arith) rest)

-- Two UUIDs, of 32 hexadecimal digits in lower case, that differ in more than their dashes are two
-- different leagues for the contract.
pub league_id_bytes32-inj :
    (a b : String)
    → IsHex (strip_dashes a)
    → IsHex (strip_dashes b)
    → size (strip_dashes a) ≡ 32
    → size (strip_dashes b) ≡ 32
    → strip_dashes a ≢ strip_dashes b
    → league_id_bytes32 a ≢ league_id_bytes32 b
league_id_bytes32-inj a b ha hb na nb differ e = differ (
    pad_end-inj 64 (strip_dashes a) (strip_dashes b) (omega arith) (omega arith) (
      sym (uint8_array_to_hex-league_id_bytes32 a ha (omega arith))
      ∙ ap uint8_array_to_hex e
      ∙ uint8_array_to_hex-league_id_bytes32 b hb (omega arith)))
