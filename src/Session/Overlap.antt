-- ===== src/Session/Overlap.antt =====
-- The authentication of src/web/src/providers/WalletProvider.tsx cut at its `await`s, so that
-- `disconnect`, whose button works all the time, may run between them.
use wagr.Common.{String, none, some, ◌≡◌, ◌∷◌, arith, true, eq_refl}
use wagr.Js.Effects.{Thrown, Result, ok, throw, Response, is_ok}
use wagr.Js.Storage.{set_item}
use wagr.Types.Wallet.{WalletState, SignatureResult}
use wagr.Session.{
  Session, NonceBody, VerifyBody, asked_nonce, asked_signature, asked_verification, token_key,
  refuse_with_message, show_error, stop_authenticating, disconnect,
}

-- What the authentication waits for.
pub data Phase : Type 0 where
  idle : Phase
  awaits_nonce : WalletState → Phase
  awaits_signature : WalletState → (message : String) → Phase
  awaits_verification : WalletState → (message signature : String) → Phase

pub data Event : Type 0 where
  nonce_arrives : Result (Response NonceBody) → Event
  signature_arrives : Result SignatureResult → Event
  verification_arrives : Result (Response VerifyBody) → Event
  disconnects : Event

-- The `catch` and the `finally` of the authentication.
abbrev give_up : Thrown → Session → Phase × Session
give_up e s = (idle, stop_authenticating (show_error "Authentication failed" e s))

-- The body of an answer, or what is thrown for it.
abbrev body_of {ℓ} : {A : Type ℓ} → (A → String) → String → Result (Response A) → Result A
body_of message fallback (throw e) = throw e
body_of message fallback (ok res) = elim (refuse_with_message message fallback res) [
  | ok _ ↦ res.json
  | throw e ↦ throw e
]

abbrev pub begin : WalletState → Session → Phase × Session
begin state s =
    (awaits_nonce state, record s { trace = asked_nonce state.address state.wallet_type ∷ s.trace })

abbrev after_nonce : WalletState → Result NonceBody → Session → Phase × Session
after_nonce state (throw e) s = give_up e s
after_nonce state (ok body) s = (
  awaits_signature state body.message,
  record s { trace = asked_signature body.message ∷ s.trace },
)

abbrev after_signature : WalletState → String → Result SignatureResult → Session → Phase × Session
after_signature state message (throw e) s = give_up e s
after_signature state message (ok signed) s = (
  awaits_verification state message signed.signature,
  record s { trace = asked_verification state.address message signed.signature ∷ s.trace },
)

abbrev after_verification : Result VerifyBody → Session → Phase × Session
after_verification (throw e) s = give_up e s
after_verification (ok verified) s = (
  idle,
  stop_authenticating (record s {
    storage = set_item token_key verified.token s.storage;
    token = some verified.token;
    user = some verified.user;
  }),
)

-- An answer resumes the code that waits for it.
unfoldable pub step : Event → Phase → Session → Phase × Session
step (nonce_arrives r) (awaits_nonce state) s =
    after_nonce state (body_of (λ b. b.message) "Failed to get authentication nonce" r) s
step (signature_arrives r) (awaits_signature state message) s = after_signature state message r s
step (verification_arrives r) (awaits_verification state message signature) s =
    after_verification (body_of (λ b. b.message) "Authentication failed" r) s
step disconnects phase s = (phase, disconnect s)
step _ phase s = (phase, s)

-- A disconnect while the server verifies is undone when it accepts: the wallet is no longer connected,
-- and yet the session holds the new token and user, and local storage holds the token.
pub verification-disconnect :
    (state : WalletState) (message signature : String) (res : Response VerifyBody)
    (verified : VerifyBody) (s : Session)
    → is_ok res ≡ true
    → res.json ≡ ok verified
    → let (phase, t) = step disconnects (awaits_verification state message signature) s in
      let q = (step (verification_arrives (ok res)) phase t).1 in
      (q.wallet_state ≡ none)
      × (q.token ≡ some verified.token)
      × (q.user ≡ some verified.user)
      × (q.storage token_key ≡ some verified.token)
unfolding step disconnect
verification-disconnect state message signature res verified s fine read =
    ground (arith, eq_refl token_key)
