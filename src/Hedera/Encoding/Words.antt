-- ===== src/Hedera/Encoding/Words.antt =====
-- The word under which the contract keeps a league, and the UUID that the client knows it by
-- (src/web/src/strategies/HederaStrategy.ts).
use Prim.Native.String.{[], ◌∷◌}
use wagr.Common.{
  ℕ, zero, suc, ◌+◌, ◌*◌, ◌<◌, String, List, All, length, ◌≡◌, ◌≢◌, Option, none, some, refl, sym,
  ap, ◌∙◌, arith,
}
use wagr.Common.Int.{ℤ, pos, negsuc}
use wagr.Hedera.Encoding.{
  strip_dashes, to_uint8, read_bytes, league_id_bytes32, uint8_array_to_hex, pad_end,
}
use wagr.Hedera.Encoding.RoundTrip.{IsHex, size, uint8_array_to_hex-league_id_bytes32, pad_end-inj}

-- The bytes of a `bytes32` argument as the word that they spell, behind the word before them.
abbrev pub word_from : ℕ → List ℕ → ℕ
word_from before List.[] = before
word_from before (List.◌∷◌ byte bytes) = word_from (before * 256 + byte) bytes

-- The word under which the contract keeps a league.
abbrev pub league_word : String → ℕ
league_word league_id = word_from 0 (league_id_bytes32 league_id)

word_from-inj :
    (m n : ℕ) (xs ys : List ℕ)
    → All (λ b. b < 256) xs
    → All (λ b. b < 256) ys
    → length xs ≡ length ys
    → word_from m xs ≡ word_from n ys
    → (m ≡ n) × (xs ≡ ys)
word_from-inj m n List.[] List.[] h k len e = (e, refl)
word_from-inj m n List.[] (List.◌∷◌ y ys) h k len e = absurd (omega arith)
word_from-inj m n (List.◌∷◌ x xs) List.[] h k len e = absurd (omega arith)
word_from-inj m n (List.◌∷◌ x xs) (List.◌∷◌ y ys) (b, h) (d, k) len e =
    let (heads, tails) = word_from-inj (m * 256 + x) (n * 256 + y) xs ys h k (omega arith) e in
    let same : x ≡ y = omega arith in (omega arith, cc)

to_uint8_lt : (o : Option ℤ) → to_uint8 o < 256
unfolding to_uint8
to_uint8_lt none = omega arith
to_uint8_lt (some (pos n)) = omega arith
to_uint8_lt (some (negsuc n)) = omega arith

read_bytes-AreBytes :
    (n : ℕ) (s : String) → All (λ b. b < 256) (read_bytes n s) × (length (read_bytes n s) ≡ n)
unfolding read_bytes
read_bytes-AreBytes zero s = (tt, refl)
read_bytes-AreBytes (suc n) [] =
    let (small, long) = read_bytes-AreBytes n [] in ((to_uint8_lt _, small), ap suc long)
read_bytes-AreBytes (suc n) (c ∷ []) =
    let (small, long) = read_bytes-AreBytes n [] in ((to_uint8_lt _, small), ap suc long)
read_bytes-AreBytes (suc n) (c ∷ d ∷ s) =
    let (small, long) = read_bytes-AreBytes n s in ((to_uint8_lt _, small), ap suc long)

same_word :
    (a b : String)
    → IsHex (strip_dashes a)
    → IsHex (strip_dashes b)
    → size (strip_dashes a) ≡ 32
    → size (strip_dashes b) ≡ 32
    → league_word a ≡ league_word b
    → strip_dashes a ≡ strip_dashes b
unfolding league_id_bytes32
same_word a b ha hb na nb e =
    let (small_a, long_a) = read_bytes-AreBytes 32 (pad_end 64 (strip_dashes a)) in
    let (small_b, long_b) = read_bytes-AreBytes 32 (pad_end 64 (strip_dashes b)) in
    let (_, bytes) = word_from-inj 0 0 _ _ small_a small_b (long_a ∙ sym long_b) e in
    pad_end-inj 64 (strip_dashes a) (strip_dashes b) (omega arith) (omega arith) (
      sym (uint8_array_to_hex-league_id_bytes32 a ha (omega arith))
      ∙ ap uint8_array_to_hex bytes
      ∙ uint8_array_to_hex-league_id_bytes32 b hb (omega arith))

-- The contract keeps two leagues under different words, if their UUIDs, of 32 hexadecimal digits in
-- lower case, differ in more than their dashes.
pub league_word-inj :
    (a b : String)
    → IsHex (strip_dashes a)
    → IsHex (strip_dashes b)
    → size (strip_dashes a) ≡ 32
    → size (strip_dashes b) ≡ 32
    → strip_dashes a ≢ strip_dashes b
    → league_word a ≢ league_word b
league_word-inj a b ha hb na nb differ e = differ (same_word a b ha hb na nb e)
