-- ===== src/Service/Mirror/Laws.antt =====
-- A word of the contract is read as the `int64` of its last 64 bits.
use Prim.Native.Char.{Char, code}
use Prim.Native.String.{◌∷◌}
use wagr.Common.{
  ℕ, zero, suc, ◌+◌, ◌*◌, ◌/◌, ◌%◌, ◌<◌, ◌≤◌, ◌^◌, String, some, List, ◌++◌, drop, length,
  length-append, All, All-append, Bool, true, false, none, ◌==◌, passes_up_to, passes_up_to-elim,
  ◌≡◌, refl, ap, ◌∙◌, arith,
}
use wagr.Js.Number.{digit_char, digit_in}
use wagr.Hedera.Encoding.{uint8_array_to_hex}
use wagr.Hedera.Encoding.RoundTrip.{size}
use wagr.Hedera.Encoding.Words.{word_from}
use wagr.Go.{returns, of_word}
use wagr.Service.Encoding.{decode_string}
use wagr.Service.Mirror.{put_uint, read_amount, trim_prefix, slice_from}

-- How the mirror node writes a `uint256`.
abbrev pub word_text : ℕ → String
word_text n = "0" ∷ "x" ∷ uint8_array_to_hex (put_uint 32 n)

length-put_uint : (k n : ℕ) → length (put_uint k n) ≡ k
unfolding put_uint
length-put_uint zero n = refl
length-put_uint (suc k) n = omega (
  arith,
  length-append {0} (put_uint k (n / 256)) (List.◌∷◌ (n % 256) List.[]),
  length-put_uint k (n / 256),
)

AreBytes-put_uint : (k n : ℕ) → All (λ b. b < 256) (put_uint k n)
unfolding put_uint
AreBytes-put_uint zero n = tt
AreBytes-put_uint (suc k) n =
    All-append (λ b. b < 256) (put_uint k (n / 256)) _ (AreBytes-put_uint k (n / 256))
      (omega arith, tt)

drop-push {ℓ} :
    {A : Type ℓ} (k : ℕ) (xs : List A) (x : A)
    → k ≤ length xs
    → drop k (xs ++ List.◌∷◌ x List.[]) ≡ drop k xs ++ List.◌∷◌ x List.[]
drop-push zero xs x h = refl
drop-push (suc k) List.[] x h = absurd (omega arith)
drop-push (suc k) (List.◌∷◌ y ys) x h = drop-push k ys x (omega arith)

drop-nil {ℓ} : {A : Type ℓ} (k : ℕ) (xs : List A) → length xs ≤ k → drop k xs ≡ List.[]
drop-nil zero List.[] h = refl
drop-nil zero (List.◌∷◌ x xs) h = absurd (omega arith)
drop-nil (suc k) List.[] h = refl
drop-nil (suc k) (List.◌∷◌ x xs) h = drop-nil k xs (omega arith)

drop-put_uint : (a k n : ℕ) → drop a (put_uint (k + a) n) ≡ put_uint k n
unfolding put_uint
drop-put_uint a zero n = drop-nil a (put_uint (0 + a) n) (omega (arith, length-put_uint (0 + a) n))
drop-put_uint a (suc k) n =
    let e : suc k + a ≡ suc (k + a) = omega arith in
    ap (λ m. drop a (put_uint m n)) e
    ∙ drop-push a (put_uint (k + a) (n / 256)) (n % 256)
        (omega (arith, length-put_uint (k + a) (n / 256)))
    ∙ ap (λ xs. xs ++ List.◌∷◌ (n % 256) List.[]) (drop-put_uint a k (n / 256))

abbrev is_read : ℕ → Bool
is_read d = elim (digit_in 16 (code (digit_char d))) [ none ↦ false | some e ↦ e == d ]

digit_table : passes_up_to is_read 16 ≡ true
unfolding passes_up_to digit_in digit_char
digit_table = refl

digit_in-digit_char : (d : ℕ) → d < 16 → digit_in 16 (code (digit_char d)) ≡ some d
digit_in-digit_char d h =
    let read = passes_up_to-elim is_read 16 d digit_table h in ground (arith, read)

decode_pair :
    (c d : Char) (s : String) (a b : ℕ) (bytes : List ℕ)
    → digit_in 16 (code c) ≡ some a
    → digit_in 16 (code d) ≡ some b
    → decode_string s ≡ some bytes
    → decode_string (c ∷ d ∷ s) ≡ some (List.◌∷◌ (a * 16 + b) bytes)
unfolding decode_string
decode_pair c d s a b bytes ha hb rest = ground (arith, ha, hb, rest)

decode_string-uint8_array_to_hex :
    (bytes : List ℕ)
    → All (λ b. b < 256) bytes
    → decode_string (uint8_array_to_hex bytes) ≡ some bytes
unfolding uint8_array_to_hex decode_string
decode_string-uint8_array_to_hex List.[] h = refl
decode_string-uint8_array_to_hex (List.◌∷◌ b bytes) (small, h) =
    decode_pair (digit_char (b / 16)) (digit_char (b % 16)) (uint8_array_to_hex bytes) (b / 16)
      (b % 16) bytes (digit_in-digit_char (b / 16) (omega arith))
      (digit_in-digit_char (b % 16) (omega arith)) (decode_string-uint8_array_to_hex bytes h)
    ∙ ap (λ n. some (List.◌∷◌ n bytes)) (omega arith)

size-uint8_array_to_hex : (bytes : List ℕ) → size (uint8_array_to_hex bytes) ≡ 2 * length bytes
unfolding uint8_array_to_hex
size-uint8_array_to_hex List.[] = refl
size-uint8_array_to_hex (List.◌∷◌ b bytes) = omega (arith, size-uint8_array_to_hex bytes)

word_from-push :
    (m b : ℕ) (bytes : List ℕ)
    → word_from m (bytes ++ List.◌∷◌ b List.[]) ≡ word_from m bytes * 256 + b
word_from-push m b List.[] = refl
word_from-push m b (List.◌∷◌ c bytes) = word_from-push (m * 256 + c) b bytes

word_from-put_uint :
    (k n : ℕ)
    → word_from 0 (put_uint (suc k) n) ≡ word_from 0 (put_uint k (n / 256)) * 256 + n % 256
unfolding put_uint
word_from-put_uint k n = word_from-push 0 (n % 256) (put_uint k (n / 256))

low_word : (n : ℕ) → word_from 0 (put_uint 8 n) ≡ n % 2 ^ 64
unfolding put_uint
low_word n = omega (
  arith,
  word_from-put_uint 7 n,
  word_from-put_uint 6 (n / 256),
  word_from-put_uint 5 (n / 256 / 256),
  word_from-put_uint 4 (n / 256 / 256 / 256),
  word_from-put_uint 3 (n / 256 / 256 / 256 / 256),
  word_from-put_uint 2 (n / 256 / 256 / 256 / 256 / 256),
  word_from-put_uint 1 (n / 256 / 256 / 256 / 256 / 256 / 256),
  word_from-put_uint 0 (n / 256 / 256 / 256 / 256 / 256 / 256 / 256),
)

-- What the service reads of a word of the contract: the integer that its last 64 bits stand for.
pub read_amount-word_text : (n : ℕ) → read_amount (word_text n) ≡ returns (of_word (n % 2 ^ 64))
unfolding read_amount trim_prefix slice_from
read_amount-word_text n =
    let long : size (uint8_array_to_hex (put_uint 32 n)) ≡ 64 =
      omega (arith, size-uint8_array_to_hex (put_uint 32 n), length-put_uint 32 n) in
    rw (
      long,
      decode_string-uint8_array_to_hex (put_uint 32 n) (AreBytes-put_uint 32 n),
      drop-put_uint 24 8 n,
      low_word n,
    )
