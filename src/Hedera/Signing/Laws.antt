-- ===== src/Hedera/Signing/Laws.antt =====
-- What a signature of the wallet becomes, in whichever form it comes.
use wagr.Common.{
  ℕ, zero, suc, ◌%◌, ◌<◌, ◌≡◌, refl, String, none, some, List, [], ◌∷◌, map, length, All, arith,
  is_some, truthy_text, true,
}
use wagr.Js.Effects.{ok}
use wagr.Types.Wallet.{WalletState}
use wagr.Hedera.{HederaStrategy}
use wagr.Hedera.Encoding.{uint8_array_to_hex}
use wagr.Hedera.Signing.{
  typed, object, SignatureMap, encoded, array, single, Wallet, copy_bytes, read_signature,
  sign_message, signer_account_id,
}

abbrev pub IsByte : ℕ → Type 0
IsByte n = n < 256

copy_bytes-whole : (n : ℕ) (bs : List ℕ) → length bs ≡ n → All IsByte bs → copy_bytes n bs ≡ bs
unfolding copy_bytes
copy_bytes-whole zero [] e h = refl
copy_bytes-whole zero (b ∷ bs) e h = absurd (omega arith)
copy_bytes-whole (suc n) [] e h = absurd (omega arith)
copy_bytes-whole (suc n) (b ∷ bs) e (p, h) =
    let same : b % 256 ≡ b = omega arith in rw (same, copy_bytes-whole n bs (omega arith) h)

map-bytes : (bs : List ℕ) → All IsByte bs → map (λ v. v % 256) bs ≡ bs
map-bytes [] h = refl
map-bytes (b ∷ bs) (p, h) = let same : b % 256 ≡ b = omega arith in rw (same, map-bytes bs h)

-- The forms in which a wallet may answer with one Ed25519 signature.
pub data Ed25519Form (wallet : Wallet) (bs : List ℕ) : SignatureMap → Type 0 where
  in_base64 :
      {text : String}
      → (truthy_text text ≡ true)
      → (wallet.decode text ≡ ok (record { ecdsa_secp256k1 = none; ed25519 = some bs } ∷ []))
      → Ed25519Form wallet bs (encoded text)
  as_array :
      Ed25519Form wallet bs
        (array (record { ecdsa_secp256k1 = none; ed25519 = some (typed bs) } ∷ []))
  as_pair :
      Ed25519Form wallet bs (single (record { ecdsa_secp256k1 = none; ed25519 = some (object bs) }))

read_signature-form :
    (wallet : Wallet) (bs : List ℕ) (answer : SignatureMap)
    → length bs ≡ 64
    → All IsByte bs
    → Ed25519Form wallet bs answer
    → read_signature wallet (some answer) ≡ ok (uint8_array_to_hex bs)
unfolding read_signature
read_signature-form wallet [] answer size h form = absurd (omega arith)
read_signature-form wallet (b ∷ bs) _ size h (in_base64 some_text decoded) =
    rw (some_text, decoded, copy_bytes-whole 64 (b ∷ bs) size h)
read_signature-form wallet (b ∷ bs) _ size h as_array = refl
read_signature-form wallet (b ∷ bs) _ size h as_pair = rw (map-bytes (b ∷ bs) h)

-- With a connector and an account, a message that the wallet answers with an Ed25519 signature of 64
-- bytes gets the hexadecimal form of these bytes, whether the answer is in base64, an array of pairs
-- or a single pair. The wallet is asked for the account of the wallet's state on its network.
sign_message_lem :
    (self : HederaStrategy) (wallet : Wallet) (message account : String) (state : WalletState)
    → (bs : List ℕ) (answer : SignatureMap) → is_some self.connector ≡ true
    → state.account_id ≡ some account
    → truthy_text account ≡ true
    → wallet.sign_message (signer_account_id state account) message ≡ ok (some answer)
    → length bs ≡ 64
    → All IsByte bs
    → Ed25519Form wallet bs answer
    → sign_message self wallet message state
      ≡ ok (record { signature = uint8_array_to_hex bs; key_type = none })
unfolding sign_message
sign_message_lem self wallet message account state bs answer connected e t asked size h form =
    ground (arith, read_signature-form wallet bs answer size h form)
