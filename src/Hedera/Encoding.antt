-- ===== src/Hedera/Encoding.antt =====
-- The encodings of src/web/src/strategies/HederaStrategy.ts: bytes in hexadecimal, and the UUID of a
-- league as 32 bytes.
pub mod RoundTrip
pub mod Words
use Prim.Native.Char.{code}
use Prim.Native.String.{[], ◌∷◌, ◌++◌}
use wagr.Common.{
  ℕ, zero, suc, ◌+◌, ◌-◌, ◌/◌, ◌%◌, String, Option, none, some, List, leb, ltb, ◌==◌, if◌then◌else◌,
}
use wagr.Common.Int.{ℤ, pos, negsuc}
use wagr.Js.Number.{digit_char, parse_int}

-- `b.toString(16).padStart(2, '0')` of a byte, in front of `rest`.
pub hex_byte : ℕ → String → String
hex_byte b rest = digit_char (b / 16) ∷ digit_char (b % 16) ∷ rest

-- `uint8ArrayToHex`
unfoldable pub uint8_array_to_hex : List ℕ → String
unfolding hex_byte digit_char
uint8_array_to_hex List.[] = ""
uint8_array_to_hex (List.◌∷◌ b bytes) = hex_byte b (uint8_array_to_hex bytes)

-- `leagueId.replace(/-/g, '')`
unfoldable pub strip_dashes : String → String
strip_dashes [] = []
strip_dashes (c ∷ s) = if code c == b'-' then strip_dashes s else c ∷ strip_dashes s

-- `s.padEnd(n, '0')`
unfoldable pub pad_end : ℕ → String → String
pad_end zero s = s
pad_end (suc n) [] = "0" ∷ pad_end n []
pad_end (suc n) (c ∷ s) = c ∷ pad_end n s

-- A write into a `Uint8Array`: modulo 256, and `NaN` becomes 0.
unfoldable pub to_uint8 : Option ℤ → ℕ
to_uint8 none = 0
to_uint8 (some (pos n)) = n % 256
to_uint8 (some (negsuc n)) = 255 - n % 256

-- The loop over `i < 32`: `parseInt` of two characters at a time. `substring` past the end is short.
unfoldable pub read_bytes : ℕ → String → List ℕ
unfolding to_uint8
read_bytes zero s = List.[]
read_bytes (suc n) [] = List.◌∷◌ (to_uint8 (parse_int 16 [])) (read_bytes n [])
read_bytes (suc n) (c ∷ []) = List.◌∷◌ (to_uint8 (parse_int 16 (c ∷ []))) (read_bytes n [])
read_bytes (suc n) (c ∷ d ∷ s) = List.◌∷◌ (to_uint8 (parse_int 16 (c ∷ d ∷ []))) (read_bytes n s)

unfoldable pub league_id_bytes32 : String → List ℕ
unfolding read_bytes pad_end strip_dashes
league_id_bytes32 league_id = read_bytes 32 (pad_end 64 (strip_dashes league_id))
