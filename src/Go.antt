-- ===== src/Go.antt =====
-- What the services under src/internal take from the language: functions that return a value or an
-- error, and the arithmetic of `int64`, which wraps around.
use wagr.Common.{ℕ, ◌-◌, ◌%◌, ◌^◌, ◌<◌, ◌≡◌, ◌⊎◌, inl, inr, refl, String, ltb, if◌then◌else◌, arith}
use wagr.Common.Int.{ℤ, pos, negsuc, ◌+ℤ◌, ◌*ℤ◌}

-- The errors of src/internal/league/models.go, and any other with its text.
pub data Error : Type 0 where
  not_commissioner not_league_member already_paid payment_insufficient : Error
  league_already_cancelled league_not_cancelled : Error
  missing_operator_key insufficient_escrow : Error
  other : String → Error

-- `(A, error)`
pub data Returned {ℓ} (A : Type ℓ) : Type ℓ where
  returns : A → Returned A
  fails : Error → Returned A

pub Returned-cases {ℓ} :
    {A : Type ℓ} (r : Returned A) → ((e : Error) × (r ≡ fails e)) ⊎ ((a : A) × (r ≡ returns a))
Returned-cases (returns a) = inr (a, refl)
Returned-cases (fails e) = inl (e, refl)

infixl 5 ◌>>=◌
abbrev pub ◌>>=◌ {ℓ κ} : {A : Type ℓ} {B : Type κ} → Returned A → (A → Returned B) → Returned B
returns a >>= f = f a
fails e >>= f = fails e

-- The `int64` of a word of 64 bits, and the word of an integer.
abbrev pub of_word : ℕ → ℤ
of_word w = if ltb w (2 ^ 63) then pos w else negsuc (2 ^ 64 - 1 - w)

abbrev pub to_word : ℤ → ℕ
to_word (pos n) = n % 2 ^ 64
to_word (negsuc n) = 2 ^ 64 - 1 - n % 2 ^ 64

unfoldable pub int64 : ℤ → ℤ
int64 z = of_word (to_word z)

-- `a + b` and `a * b`
abbrev pub add64 : ℤ → ℤ → ℤ
add64 a b = int64 (a +ℤ b)

abbrev pub mul64 : ℤ → ℤ → ℤ
mul64 a b = int64 (a *ℤ b)

pub int64-pos : (n : ℕ) → n < 2 ^ 63 → int64 (pos n) ≡ pos n
unfolding int64
int64-pos n h = ground arith
