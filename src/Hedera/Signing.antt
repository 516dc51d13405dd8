-- ===== src/Hedera/Signing.antt =====
-- `signMessage` of src/web/src/strategies/HederaStrategy.ts. The wallet's answer, and the decoding of
-- a signature map in base64, are parameters.
pub mod Laws
use Prim.Native.String.{◌++◌}
use wagr.Common.{
  ℕ, zero, suc, ◌%◌, String, Option, none, some, List, [], ◌∷◌, map, truthy, truthy_text,
  or_default, is_some, ◌&&◌, if◌then◌else◌, Bool, true, false,
}
use wagr.Js.Effects.{Thrown, error, Result, ok, throw}
use wagr.Types.Wallet.{WalletState, SignatureResult}
use wagr.Hedera.{HederaStrategy, Connector, require_connector, require_account}
use wagr.Hedera.Encoding.{uint8_array_to_hex}

-- The bytes of a signature in the wallet's answer: a `Uint8Array`, or an object with their values.
pub data Bytes : Type 0 where
  typed : List ℕ → Bytes
  object : List ℕ → Bytes

abbrev pub bytes_of : Bytes → List ℕ
bytes_of (typed bs) = bs
bytes_of (object vs) = map (λ v. v % 256) vs

pub record SigPair : Type 0 where
  pub ecdsa_secp256k1 : Option Bytes
  pub ed25519 : Option Bytes

-- A pair of a decoded map, with the values that each field's keys list.
pub record DecodedSigPair : Type 0 where
  pub ecdsa_secp256k1 : Option (List ℕ)
  pub ed25519 : Option (List ℕ)

-- `result.signatureMap`: in base64, or an object, whose `sigPair` is missing, an array or one pair.
pub data SignatureMap : Type 0 where
  encoded : String → SignatureMap
  no_pairs : SignatureMap
  array : List SigPair → SignatureMap
  single : SigPair → SignatureMap

-- The wallet: what it answers to the account and the message, and `proto.SignatureMap.decode` of
-- `atob` of a text, which gives the `sigPair`.
pub record Wallet : Type 0 where
  pub sign_message : (signer_account_id message : String) → Result (Option SignatureMap)
  pub decode : String → Result (List DecodedSigPair)

-- `new Uint8Array(n)` filled from an object: a missing value is written as 0.
unfoldable pub copy_bytes : ℕ → List ℕ → List ℕ
copy_bytes zero vs = []
copy_bytes (suc n) [] = 0 ∷ copy_bytes n []
copy_bytes (suc n) (v ∷ vs) = v % 256 ∷ copy_bytes n vs

-- Whether a field is there and has keys.
abbrev pub has_keys : Option (List ℕ) → Bool
has_keys none = false
has_keys (some []) = false
has_keys (some (v ∷ vs)) = true

abbrev pub first_decoded : List DecodedSigPair → Result DecodedSigPair
first_decoded [] = throw (error "No signature pair found in signature map")
first_decoded (pair ∷ rest) = ok pair

abbrev pub decoded_signature : DecodedSigPair → Result String
decoded_signature pair =
    if has_keys pair.ecdsa_secp256k1
    then ok (uint8_array_to_hex (copy_bytes 64 (or_default pair.ecdsa_secp256k1 [])))
    else if has_keys pair.ed25519
    then ok (uint8_array_to_hex (copy_bytes 64 (or_default pair.ed25519 [])))
    else throw (error "No supported signature type found in sigPair")

-- A missing pair is `undefined`, whose field cannot be read.
abbrev pub pair_signature : Option SigPair → Result String
pair_signature none = throw (error "Cannot read properties of undefined (reading 'ECDSASecp256k1')")
pair_signature (some pair) = elim pair.ecdsa_secp256k1 [
  | some bs ↦ ok (uint8_array_to_hex (bytes_of bs))
  | none ↦ elim pair.ed25519 [
    | some bs ↦ ok (uint8_array_to_hex (bytes_of bs))
    | none ↦ throw (error "Unsupported signature type in signatureMap")
  ]
]

abbrev pub then_with {ℓ κ} : {A : Type ℓ} {B : Type κ} → Result A → (A → Result B) → Result B
then_with (ok a) f = f a
then_with (throw e) f = throw e

abbrev pub first_pair : List SigPair → Option SigPair
first_pair [] = none
first_pair (pair ∷ rest) = some pair

-- The signature of the wallet's answer.
unfoldable pub read_signature : Wallet → Option SignatureMap → Result String
read_signature wallet none = throw (error "No signature received from wallet")
read_signature wallet (some (encoded text)) =
    if truthy_text text
    then then_with (then_with (wallet.decode text) first_decoded) decoded_signature
    else throw (error "No signature received from wallet")
read_signature wallet (some no_pairs) = throw (error "Unrecognized signatureMap format")
read_signature wallet (some (array pairs)) = pair_signature (first_pair pairs)
read_signature wallet (some (single pair)) = pair_signature (some pair)

-- `hedera:${network}:${walletState.accountId}`
abbrev pub signer_account_id : WalletState → String → String
signer_account_id state account =
    "hedera:"
    ++ ((if truthy state.network then or_default state.network "" else "testnet")
        ++ (":" ++ account))

unfoldable pub sign_message :
    HederaStrategy → Wallet → String → WalletState → Result SignatureResult
unfolding require_connector require_account
sign_message self wallet message state = then_with (require_connector self) (λ connector.
    then_with (require_account state) (λ account.
      then_with (wallet.sign_message (signer_account_id state account) message) (λ answer.
        then_with (read_signature wallet answer)
          (λ hex. ok (record { signature = hex; key_type = none })))))
