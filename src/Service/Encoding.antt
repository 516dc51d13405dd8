-- ===== src/Service/Encoding.antt =====
-- The encodings of src/internal/league/service.go: UUIDs as 32 bytes, and the answer of the mirror
-- node as an amount. A text is counted in characters; where it has others than ASCII ones, the source
-- fails as well, since they are no hexadecimal digits.
pub mod Laws
use Prim.Native.Char.{code}
use Prim.Native.String.{[], ◌∷◌}
use wagr.Common.{
  ℕ, zero, suc, ◌+◌, ◌-◌, ◌*◌, ◌%◌, ◌^◌, String, Option, none, some, List, ◌++◌, replicate, drop,
  ◌==◌, ltb, if◌then◌else◌,
}
use wagr.Common.Int.{ℤ}
use wagr.Js.Number.{digit_in}
use wagr.Hedera.Encoding.{strip_dashes}
use wagr.Hedera.Encoding.RoundTrip.{size}
use wagr.Hedera.Encoding.Words.{word_from}
use wagr.Go.{Returned, returns, fails, other, of_word}

-- `hex.DecodeString`: digits in either case, an even number of them.
unfoldable pub decode_string : String → Option (List ℕ)
decode_string [] = some List.[]
decode_string (c ∷ []) = none
decode_string (c ∷ d ∷ s) = elim (digit_in 16 (code c)) [
  | none ↦ none
  | some high ↦ elim (digit_in 16 (code d)) [
    | none ↦ none
    | some low ↦ elim (decode_string s) [
      | none ↦ none
      | some bytes ↦ some (List.◌∷◌ (high * 16 + low) bytes)
    ]
  ]
]

abbrev pub copy_left : Option (List ℕ) → Returned (List ℕ)
copy_left none = fails (other "failed to decode UUID hex")
copy_left (some bytes) = returns (bytes ++ replicate 16 0)

-- `uuidToBytes32`
unfoldable pub uuid_to_bytes32 : String → Returned (List ℕ)
unfolding decode_string
uuid_to_bytes32 uuid =
    if size (strip_dashes uuid) == 32
    then copy_left (decode_string (strip_dashes uuid))
    else fails (other "expected 32-char UUID hex")
