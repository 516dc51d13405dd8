-- ===== src/Session/Login.antt =====
-- How connecting a wallet ends.
use wagr.Common.{
  Option, ◌≡◌, refl, sym, subst, eq_refl, inl, inr, String, none, some, ◌∷◌, true, false, is_some,
  arith, Bool-cases,
}
use wagr.Js.Effects.{Thrown, message_or, Result, ok, throw, Response, is_ok, Result-cases}
use wagr.Js.Storage.{set_item}
use wagr.Types.Wallet.{WalletType, WalletState, SignatureResult}
use wagr.Session.{
  asked_nonce, asked_signature, asked_verification, connected_session, network_of, Session, World,
  NonceBody, VerifyBody, User, token_key, authenticate_with, log_in, connect,
}

-- The server has accepted the signature that the wallet made under the message that the server gave.
pub record Verified (w : World) (state : WalletState) (token : String) (user : User) : Type 0 where
  pub nonce : Response NonceBody
  pub body : NonceBody
  pub signed : SignatureResult
  pub response : Response VerifyBody
  pub verified : VerifyBody
  pub asked : w.nonce ≡ ok nonce
  pub given : (is_ok nonce ≡ true) × (nonce.json ≡ ok body)
  pub signature : w.sign body.message state ≡ ok signed
  pub answered : w.verify state.address body.message signed.signature ≡ ok response
  pub accepted : (is_ok response ≡ true) × (response.json ≡ ok verified)
  pub token_of : token ≡ verified.token
  pub user_of : user ≡ verified.user

-- All that an authentication leaves alone when it throws.
pub record SameLogin (s t : Session) : Type 0 where
  pub token : t.token ≡ s.token
  pub user : t.user ≡ s.user
  pub storage : t.storage ≡ s.storage
  pub is_connected : t.is_connected ≡ s.is_connected
  pub wallet_state : t.wallet_state ≡ s.wallet_state
  pub active_strategy : t.active_strategy ≡ s.active_strategy

module _ (w : World) (state : WalletState) where
  pub record LoggedIn (s t : Session) : Type 0 where
    pub token : String
    pub user : User
    pub verified : Verified w state token user
    pub held : (t.token ≡ some token) × (t.user ≡ some user) × (t.storage token_key ≡ some token)
    pub is_connected : t.is_connected ≡ s.is_connected
    pub wallet_state : t.wallet_state ≡ s.wallet_state
    pub active_strategy : t.active_strategy ≡ s.active_strategy
    pub no_error : t.error ≡ s.error

  abbrev LoginEnds : Session → Result (Unit {0}) → Session → Type 0
  LoginEnds s (throw e) t = SameLogin s t
  LoginEnds s (ok _) t = LoggedIn s t

  -- The session after a verification.
  abbrev verified_session : NonceBody → SignatureResult → VerifyBody → Session → Session
  verified_session body signed verified s = record s {
    storage = set_item token_key verified.token s.storage;
    token = some verified.token;
    user = some verified.user;
    trace =
        asked_verification state.address body.message signed.signature
        ∷ asked_signature body.message
        ∷ asked_nonce state.address state.wallet_type
        ∷ s.trace;
  }

  verification-LoginEnds :
      (s : Session) (nonce : Response NonceBody) (body : NonceBody) (signed : SignatureResult)
      → w.nonce ≡ ok nonce
      → is_ok nonce ≡ true
      → nonce.json ≡ ok body
      → w.sign body.message state ≡ ok signed
      → LoginEnds s (authenticate_with w state s).0 (authenticate_with w state s).1
  unfolding authenticate_with
  verification-LoginEnds s nonce body signed asked accepted given signature =
      elim (Result-cases (w.verify state.address body.message signed.signature)) [
        | inl (e, failed) ↦ ground (arith, failed)
        | inr (response, answered) ↦ elim (Bool-cases (is_ok response)) [
          | inr refused ↦ ground (arith, answered, refused)
          | inl fine ↦ elim (Result-cases response.json) [
            | inl (e, failed) ↦ ground (arith, answered, fine, failed)
            | inr (verified, read) ↦
                let t = verified_session body signed verified s in
                let done : authenticate_with w state s ≡ (ok tt, t) =
                  ground (arith, answered, fine, read) in
                subst (λ r. LoginEnds s r.0 r.1) (sym done)
                  (record {
                    token = verified.token;
                    user = verified.user;
                    verified = record {
                      nonce = nonce;
                      body = body;
                      signed = signed;
                      response = response;
                      verified = verified;
                      asked = asked;
                      given = (accepted, given);
                      signature = signature;
                      answered = answered;
                      accepted = (fine, read);
                      token_of = refl;
                      user_of = refl;
                    };
                    held = (refl, refl, ground (arith, eq_refl token_key));
                    is_connected = refl;
                    wallet_state = refl;
                    active_strategy = refl;
                    no_error = refl;
                  })
          ]
        ]
      ]

  authenticate_with-LoginEnds :
      (s : Session) → LoginEnds s (authenticate_with w state s).0 (authenticate_with w state s).1
  unfolding authenticate_with
  authenticate_with-LoginEnds s = elim (Result-cases w.nonce) [
    | inl (e, failed) ↦ ground (arith, failed)
    | inr (nonce, asked) ↦ elim (Bool-cases (is_ok nonce)) [
      | inr refused ↦ ground (arith, asked, refused)
      | inl accepted ↦ elim (Result-cases nonce.json) [
        | inl (e, failed) ↦ ground (arith, asked, accepted, failed)
        | inr (body, given) ↦ elim (Result-cases (w.sign body.message state)) [
          | inl (e, failed) ↦ ground (arith, asked, accepted, given, failed)
          | inr (signed, signature) ↦
              verification-LoginEnds s nonce body signed asked accepted given signature
        ]
      ]
    ]
  ]

  -- An authentication that throws was not verified.
  throws-not-Verified :
      (s : Session) (e : Thrown)
      → (authenticate_with w state s).0 ≡ throw e
      → (token : String) (user : User) → ¬ Verified w state token user
  unfolding authenticate_with
  throws-not-Verified s e failed token user v =
      ground (arith, failed, v.asked, v.given, v.signature, v.answered, v.accepted)

  -- The wallet is connected, and the session has its state.
  pub record WalletShown (wallet_type : WalletType) (t : Session) : Type 0 where
    pub is_connected : t.is_connected ≡ true
    pub wallet_state : t.wallet_state ≡ some state
    pub active_strategy : t.active_strategy ≡ some wallet_type

-- How connecting to the wallet with a name ends, on the network that is asked for: no connection, the
-- wallet's own error thrown on, and shown; or a connection without an authentication, an
-- error and the token of before; or a connection with a token that the server has given.
pub data ConnectEnds (w : World) (wallet_type : WalletType) (wallet_name : String)
    (network_id : Option String) (s : Session) : Result (Unit {0}) → Session → Type 0 where
  not_connected :
      {e : Thrown} {t : Session}
      → w.connection wallet_name (network_of network_id) ≡ throw e
      → (is_some t.error ≡ true)
      → SameLogin s t
      → ConnectEnds w wallet_type wallet_name network_id s (throw e) t
  not_authenticated :
      {state : WalletState} {t : Session}
      → w.connection wallet_name (network_of network_id) ≡ ok state
      → ((token : String) (user : User) → ¬ Verified w state token user)
      → (is_some t.error ≡ true)
      → WalletShown w state wallet_type t
      → (t.token ≡ s.token) × (t.user ≡ s.user) × (t.storage ≡ s.storage)
      → ConnectEnds w wallet_type wallet_name network_id s (ok tt) t
  authenticated :
      {state : WalletState} {token : String} {user : User} {t : Session}
      → w.connection wallet_name (network_of network_id) ≡ ok state
      → (t.error ≡ none)
      → WalletShown w state wallet_type t
      → Verified w state token user
      → (t.token ≡ some token) × (t.user ≡ some user) × (t.storage token_key ≡ some token)
      → ConnectEnds w wallet_type wallet_name network_id s (ok tt) t

-- Connecting throws exactly where the wallet itself did not connect, and then throws its error. Where
-- it did, the session keeps it whatever becomes of the authentication. If the server has verified the
-- wallet's signature under the message that the server gave, its token is held, on the page and in local
-- storage, and no error is shown; if not, an error is shown, and the token is that of before.
pub connect_lem :
    (w : World) (wallet_type : WalletType) (wallet_name : String) (network_id : Option String)
    (s : Session)
    → ConnectEnds w wallet_type wallet_name network_id s
        (connect w wallet_type wallet_name network_id s).0
        (connect w wallet_type wallet_name network_id s).1
unfolding connect log_in
connect_lem w wallet_type wallet_name network_id s =
    elim (Result-cases (w.connection wallet_name (network_of network_id))) [
      | inl (e, failed) ↦
          rw (failed, connect)
            (not_connected failed refl (record {
              token = refl;
              user = refl;
              storage = refl;
              is_connected = refl;
              wallet_state = refl;
              active_strategy = refl;
            }))
      | inr (state, connected) ↦
          let begun = connected_session wallet_type state s in
          let (r, q) = authenticate_with w state begun in
          let ends = authenticate_with-LoginEnds w state begun in
          elim (Result-cases r) [
            | inl (e, failed) ↦
                let same : SameLogin begun q =
                  subst (λ r. LoginEnds w state begun r q) failed ends in
                let t = record q {
                  error = some (message_or "Authentication failed" e);
                  is_authenticating = false;
                } in
                let done : connect w wallet_type wallet_name network_id s ≡ (ok tt, t) =
                  ground (arith, connected, failed) in
                subst (λ x. ConnectEnds w wallet_type wallet_name network_id s x.0 x.1) (sym done)
                  (not_authenticated connected (throws-not-Verified w state begun e failed) refl
                    (record {
                      is_connected = same.is_connected;
                      wallet_state = same.wallet_state;
                      active_strategy = same.active_strategy;
                    })
                    (same.token, same.user, same.storage))
            | inr (v, passed) ↦
                let login : LoggedIn w state begun q =
                  subst (λ r. LoginEnds w state begun r q) passed ends in
                let t = record q { is_authenticating = false } in
                let done : connect w wallet_type wallet_name network_id s ≡ (ok tt, t) =
                  ground (arith, connected, passed) in
                subst (λ x. ConnectEnds w wallet_type wallet_name network_id s x.0 x.1) (sym done)
                  (authenticated connected login.no_error
                    (record {
                      is_connected = login.is_connected;
                      wallet_state = login.wallet_state;
                      active_strategy = login.active_strategy;
                    })
                    login.verified login.held)
          ]
    ]
