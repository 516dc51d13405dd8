-- ===== src/Service/Encoding/Laws.antt =====
-- The service and the client give a league the same 32 bytes.
use Prim.Native.Char.{Char, code}
use Prim.Native.String.{[], ◌∷◌}
use wagr.Common.{
  ℕ, zero, suc, ◌+◌, ◌*◌, String, Option, none, some, List, ◌++◌, replicate, ◌≡◌, refl, sym, ◌∙◌,
  Option-cases, Bool-cases, ◌==◌, inl, inr, arith,
}
use wagr.Js.Number.{digit_in, parse_int}
use wagr.Js.Number.Pairs.{digit_in_range, parse_int_pair}
use wagr.Hedera.Encoding.{strip_dashes, pad_end, to_uint8, read_bytes, league_id_bytes32}
use wagr.Hedera.Encoding.RoundTrip.{size}
use wagr.Go.{returns}
use wagr.Service.Encoding.{decode_string, copy_left, uuid_to_bytes32}

read_pair :
    (c d : Char) (a b : ℕ)
    → digit_in 16 (code c) ≡ some a
    → digit_in 16 (code d) ≡ some b
    → to_uint8 (parse_int 16 (c ∷ d ∷ [])) ≡ a * 16 + b
unfolding to_uint8
read_pair c d a b ha hb =
    let (_, small_a) = digit_in_range (code c) a ha in
    let (_, small_b) = digit_in_range (code d) b hb in
    rw (parse_int_pair c d a b ha hb) (omega arith)

-- The padding of 16 bytes.
zeros : read_bytes 16 (pad_end 32 []) ≡ replicate 16 0
unfolding read_bytes pad_end to_uint8 parse_int digit_in
zeros = refl

decode_string-cons :
    (c d : Char) (s : String) (bytes : List ℕ)
    → decode_string (c ∷ d ∷ s) ≡ some bytes
    → (a : ℕ) × (b : ℕ) × (rest : List ℕ) × (digit_in 16 (code c) ≡ some a)
      × (digit_in 16 (code d) ≡ some b)
      × (decode_string s ≡ some rest)
      × (bytes ≡ List.◌∷◌ (a * 16 + b) rest)
unfolding decode_string
decode_string-cons c d s bytes e = elim (Option-cases (digit_in 16 (code c))) [
  | inl bad ↦ absurd (ground (arith, e, bad))
  | inr (a, ha) ↦ elim (Option-cases (digit_in 16 (code d))) [
    | inl bad ↦ absurd (ground (arith, e, ha, bad))
    | inr (b, hb) ↦ elim (Option-cases (decode_string s)) [
      | inl bad ↦ absurd (ground (arith, e, ha, hb, bad))
      | inr (rest, hs) ↦ (a, b, rest, ha, hb, hs, ground (arith, e, ha, hb, hs))
    ]
  ]
]

read_step :
    (n m : ℕ) (c d : Char) (s : String)
    → read_bytes (suc n) (pad_end (suc (suc m)) (c ∷ d ∷ s))
      ≡ List.◌∷◌ (to_uint8 (parse_int 16 (c ∷ d ∷ []))) (read_bytes n (pad_end m s))
unfolding read_bytes pad_end
read_step n m c d s = refl

-- What decodes is read as the same bytes, with zeros behind them.
read_bytes-decode_string :
    (k : ℕ) (s : String) (bytes : List ℕ)
    → size s ≡ k + k
    → decode_string s ≡ some bytes
    → read_bytes (k + 16) (pad_end (k + k + 32) s) ≡ bytes ++ replicate 16 0
unfolding decode_string
read_bytes-decode_string zero [] bytes long e =
    let empty : bytes ≡ List.[] = ground arith in rw empty zeros
read_bytes-decode_string zero (c ∷ s) bytes long e = absurd (omega arith)
read_bytes-decode_string (suc k) [] bytes long e = absurd (omega arith)
read_bytes-decode_string (suc k) (c ∷ []) bytes long e = absurd (omega arith)
read_bytes-decode_string (suc k) (c ∷ d ∷ s) bytes long e =
    let (a, b, rest, ha, hb, hs, same) = decode_string-cons c d s bytes e in
    let more : suc k + 16 ≡ suc (k + 16) = omega arith in
    let longer : suc k + suc k + 32 ≡ suc (suc (k + k + 32)) = omega arith in
    rw (
      more,
      longer,
      read_step (k + 16) (k + k + 32) c d s,
      same,
      read_pair c d a b ha hb,
      read_bytes-decode_string k s rest (omega arith) hs,
    )

copy_left-returns :
    (o : Option (List ℕ)) (bytes : List ℕ)
    → copy_left o ≡ returns bytes
    → (decoded : List ℕ) × (o ≡ some decoded) × (bytes ≡ decoded ++ replicate 16 0)
copy_left-returns none bytes h = cc
copy_left-returns (some decoded) bytes h = (decoded, refl, ground arith)

-- Where the service can read a league’s UUID, in either case, it has the 32 bytes that the client sends
-- for the league to the contract.
pub uuid_to_bytes32-league_id_bytes32 :
    (uuid : String) (bytes : List ℕ)
    → uuid_to_bytes32 uuid ≡ returns bytes
    → league_id_bytes32 uuid ≡ bytes
unfolding uuid_to_bytes32 league_id_bytes32
uuid_to_bytes32-league_id_bytes32 uuid bytes h =
    elim (Bool-cases (size (strip_dashes uuid) == 32)) [
      | inr other ↦ absurd (ground (arith, h, other))
      | inl long ↦
          let (decoded, e, same) =
            copy_left-returns (decode_string (strip_dashes uuid)) bytes (ground (arith, h, long)) in
          read_bytes-decode_string 16 (strip_dashes uuid) decoded (ground (arith, long)) e
          ∙ sym same
    ]
