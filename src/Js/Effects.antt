-- ===== src/Js/Effects.antt =====
-- Async functions that read and write a state and may throw, and the responses of `fetch`.
use wagr.Common.{
  ◌≡◌, refl, ◌⊎◌, inl, inr, ℕ, String, Bool, true, false, ◌&&◌, leb, truthy_text, if◌then◌else◌,
}

-- A thrown value: an `Error` with its message, or any other value with its `String(…)`.
pub data Thrown : Type 0 where
  error : String → Thrown
  value : String → Thrown

pub data Result {ℓ} (A : Type ℓ) : Type ℓ where
  ok : A → Result A
  throw : Thrown → Result A

abbrev pub is_throw {ℓ} : {A : Type ℓ} → Result A → Bool
is_throw (ok a) = false
is_throw (throw e) = true

pub Result-cases {ℓ} :
    {A : Type ℓ} (r : Result A) → ((e : Thrown) × (r ≡ throw e)) ⊎ ((a : A) × (r ≡ ok a))
Result-cases (ok a) = inr (a, refl)
Result-cases (throw e) = inl (e, refl)

-- `err instanceof Error ? err.message : fallback`
abbrev pub message_or : String → Thrown → String
message_or fallback (error m) = m
message_or fallback (value s) = fallback

-- `err instanceof Error ? err.message : String(err)`
abbrev pub message_of : Thrown → String
message_of (error m) = m
message_of (value s) = s

-- What `fetch` resolves to: the status, and what `text()` and `json()` give.
pub record Response {ℓ} (A : Type ℓ) : Type ℓ where
  pub status : ℕ
  pub text : Result String
  pub json : Result A

-- `res.ok`
abbrev pub is_ok {ℓ} : {A : Type ℓ} → Response A → Bool
is_ok r = leb 200 r.status && leb r.status 299

-- `if (!res.ok) { const msg = await res.text(); throw new Error(msg || fallback) }`
abbrev pub refuse_with_text {ℓ} : {A : Type ℓ} → String → Response A → Result (Unit {0})
refuse_with_text fallback res = if is_ok res then ok tt else elim res.text [
  | ok text ↦ throw (error (if truthy_text text then text else fallback))
  | throw e ↦ throw e
]

-- An async function over a state. What was written before a throw stays written.
abbrev pub Action {ℓ κ} : Type ℓ → Type κ → Type (ℓ ⊔ κ)
Action S A = S → Result A × S

module _ {ℓ κ} {S : Type ℓ} {A : Type κ} where
  abbrev pub pure : A → Action S A
  pure a s = (ok a, s)

  abbrev pub raise : Thrown → Action S A
  raise e s = (throw e, s)

  abbrev pub await : Result A → Action S A
  await r s = (r, s)

  abbrev pub try_catch : Action S A → (Thrown → Action S A) → Action S A
  try_catch m handler s = let (r, s') = m s in elim r [ ok a ↦ (ok a, s') | throw e ↦ handler e s' ]

  -- `try { m } finally { f }`, where `f` only sets state.
  abbrev pub finally : Action S A → (S → S) → Action S A
  finally m f s = let (r, s') = m s in (r, f s')

module _ {ℓ} {S : Type ℓ} where
  abbrev pub modify : (S → S) → Action S (Unit {0})
  modify f s = (ok tt, f s)

  abbrev pub raise_if : Bool → Thrown → Action S (Unit {0})
  raise_if test e s = (if test then throw e else ok tt, s)

infixl 5 ◌>>=◌ ◌>>◌
abbrev pub ◌>>=◌ {ℓ κ μ} :
    {S : Type ℓ} {A : Type κ} {B : Type μ} → Action S A → (A → Action S B) → Action S B
◌>>=◌ m f s = let (r, s') = m s in elim r [ ok a ↦ f a s' | throw e ↦ (throw e, s') ]

abbrev pub ◌>>◌ {ℓ κ μ} :
    {S : Type ℓ} {A : Type κ} {B : Type μ} → Action S A → Action S B → Action S B
m >> k = m >>= λ _. k
