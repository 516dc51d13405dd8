-- ===== src/Service/Mirror.antt =====
-- What src/internal/league/service.go asks of the mirror node: the EVM address of an account, and a
-- `uint256` of the contract. Addresses are their 20 bytes.
pub mod Laws
use Prim.Native.Char.{Char, code}
use Prim.Native.String.{[], ◌∷◌}
use wagr.Common.{
  ℕ, zero, suc, ◌+◌, ◌-◌, ◌/◌, ◌%◌, String, Option, none, some, List, ◌++◌, replicate, drop, length,
  push, ◌==◌, ltb, ◌&&◌, ◌||◌, ◌^◌, leb, Bool, if◌then◌else◌,
}
use wagr.Js.Number.{parse_digits}
use wagr.Common.Int.{ℤ}
use wagr.Hedera.Encoding.RoundTrip.{size}
use wagr.Hedera.Encoding.Words.{word_from}
use wagr.Go.{Returned, returns, fails, other, of_word, ◌>>=◌}
use wagr.Service.Encoding.{decode_string}

-- The last bytes of a number, the highest first (`binary.BigEndian`).
unfoldable pub put_uint : ℕ → ℕ → List ℕ
put_uint zero n = List.[]
put_uint (suc k) n = push (put_uint k (n / 256)) (n % 256)

-- `strings.TrimPrefix(s, "0x")`
unfoldable pub trim_prefix : String → String
trim_prefix (c ∷ d ∷ s) = if code c == b'0' && code d == b'x' then s else c ∷ d ∷ s
trim_prefix s = s

-- `s[n:]`
unfoldable pub slice_from : ℕ → String → String
slice_from zero s = s
slice_from (suc n) [] = []
slice_from (suc n) (c ∷ s) = slice_from n s

-- What the mirror node answers: the `evm_address` of an account, where the answer has the status 200
-- and a body, and the `result` of a call. With it the selectors, which are hashes.
pub record Mirror : Type 0 where
  pub evm_address : String → Option String
  pub call_contract : (contract : List ℕ) (call_data : List ℕ) → Returned String
  pub selector : String → List ℕ

-- A character in front of the first of the parts.
prepend : Char → List String → List String
prepend c List.[] = List.[]
prepend c (List.◌∷◌ part parts) = List.◌∷◌ (c ∷ part) parts

-- `strings.Split(s, ".")`
unfoldable pub split_dots : String → List String
unfolding prepend
split_dots [] = List.◌∷◌ [] List.[]
split_dots (c ∷ s) =
    let parts = split_dots s in if code c == b'.' then List.◌∷◌ [] parts else prepend c parts

-- The blanks that `fmt.Sscanf` skips in front of a number. A line end is none of them.
abbrev is_blank : ℕ → Bool
is_blank c =
    c == 9
    || (leb 11 c && leb c 13)
    || c == 32
    || c == 0x85
    || c == 160
    || c == 0x1680
    || (leb 0x2000 c && leb c 0x200a)
    || c == 0x2028
    || c == 0x2029
    || c == 0x202f
    || c == 0x205f
    || c == 0x3000

skip_blanks : String → String
skip_blanks [] = []
skip_blanks (c ∷ s) = if is_blank (code c) then skip_blanks s else c ∷ s

-- `fmt.Sscanf(s, "%d", &num)` with a `uint64`: decimal digits, at least one; what follows is not read.
unfoldable pub scan_uint64 : String → Returned ℕ
unfolding skip_blanks parse_digits
scan_uint64 s = elim (parse_digits 10 (skip_blanks s)) [
  | none ↦ fails (other "invalid account number")
  | some num ↦ if ltb num (2 ^ 64) then returns num else fails (other "invalid account number")
]

account_number : List String → Returned ℕ
unfolding scan_uint64
account_number (List.◌∷◌ shard (List.◌∷◌ realm (List.◌∷◌ num List.[]))) = scan_uint64 num
account_number _ = fails (other "expected format 0.0.NNNNN")

-- `hederaAccountToEVM`
unfoldable pub hedera_account_to_evm : String → Returned (List ℕ)
unfolding put_uint account_number split_dots
hedera_account_to_evm account_id =
    account_number (split_dots account_id) >>= λ num. returns (replicate 12 0 ++ put_uint 8 num)

abbrev pub decode_address : String → Option (List ℕ)
decode_address hex = if size hex == 40 then decode_string hex else none

abbrev pub account_alias : Mirror → String → Option (List ℕ)
account_alias m account_id = elim (m.evm_address account_id) [
  | none ↦ none
  | some text ↦ decode_address (trim_prefix text)
]

-- `getAccountEVMAddress`
unfoldable pub get_account_evm_address : Mirror → String → Returned (List ℕ)
unfolding hedera_account_to_evm
get_account_evm_address m account_id = elim (account_alias m account_id) [
  | some addr ↦ returns addr
  | none ↦ hedera_account_to_evm account_id
]

-- `encodePaymentsCall`
abbrev pub encode_payments_call : Mirror → (league_id member : List ℕ) → List ℕ
encode_payments_call m league_id member =
    m.selector "payments(bytes32,address)" ++ (league_id ++ (replicate 12 0 ++ member))

-- `encodeLeagueTotalsCall` of service_oracle.go.
abbrev pub encode_league_totals_call : Mirror → (league_id : List ℕ) → List ℕ
encode_league_totals_call m league_id = m.selector "leagueTotals(bytes32)" ++ league_id

-- The amount in the result of a call: the last eight of its last 32 bytes, as an `int64`.
abbrev pub amount_in : Option (List ℕ) → Returned ℤ
amount_in none = fails (other "failed to decode result hex")
amount_in (some bytes) = returns (of_word (word_from 0 (drop 24 bytes)))

unfoldable pub read_amount : String → Returned ℤ
unfolding slice_from
read_amount result =
    if ltb (size (trim_prefix result)) 64
    then fails (other "unexpected result length from mirror node")
    else amount_in
        (decode_string (slice_from (size (trim_prefix result) - 64) (trim_prefix result)))

-- `readContractPayment`
unfoldable pub read_contract_payment : Mirror → (contract call_data : List ℕ) → Returned ℤ
unfolding read_amount
read_contract_payment m contract call_data =
    m.call_contract contract call_data >>= λ result. read_amount result
