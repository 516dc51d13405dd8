-- ===== src/Evm.antt =====
-- What src/contracts/src/LeagueEscrow.sol takes from the language: calls that end or revert,
-- `require`, the checked arithmetic of `uint256`, and mappings.
pub mod Sums
use wagr.Common.{
  ℕ, String, Bool, true, false, ◌+◌, ◌-◌, ◌^◌, ◌==◌, ltb, leb, if◌then◌else◌, ◌≡◌, ◌⊎◌, inl, inr,
  refl,
}

-- How a call ends. A call that reverts leaves nothing of what it has done.
pub data Outcome {ℓ} (A : Type ℓ) : Type ℓ where
  done : A → Outcome A
  revert : String → Outcome A

pub Outcome-cases {ℓ} :
    {A : Type ℓ} (o : Outcome A) → ((s : String) × (o ≡ revert s)) ⊎ ((a : A) × (o ≡ done a))
Outcome-cases (done a) = inr (a, refl)
Outcome-cases (revert reason) = inl (reason, refl)

infixl 5 ◌>>=◌ ◌>>◌
abbrev pub ◌>>=◌ {ℓ κ} : {A : Type ℓ} {B : Type κ} → Outcome A → (A → Outcome B) → Outcome B
done a >>= f = f a
revert reason >>= f = revert reason

abbrev pub ◌>>◌ {ℓ κ} : {A : Type ℓ} {B : Type κ} → Outcome A → Outcome B → Outcome B
m >> k = m >>= λ _. k

-- `require(test, reason)`
abbrev pub require : Bool → String → Outcome (Unit {0})
require true reason = done tt
require false reason = revert reason

-- One more than the largest `uint256`.
unfoldable pub uint256_limit : ℕ
uint256_limit = 2 ^ 256

-- `a + b`, which panics past the largest `uint256`.
abbrev pub checked_add : ℕ → ℕ → Outcome ℕ
checked_add a b = if ltb (a + b) uint256_limit then done (a + b) else revert "Panic(0x11)"

-- `a - b`, which panics below zero.
abbrev pub checked_sub : ℕ → ℕ → Outcome ℕ
checked_sub a b = if leb b a then done (a - b) else revert "Panic(0x11)"

-- A mapping is a function, and a key that was never set has zero.
abbrev pub set {ℓ} : {A : Type ℓ} → ℕ → A → (ℕ → A) → ℕ → A
set key a f k = if k == key then a else f k

abbrev pub set_in : ℕ → ℕ → ℕ → (ℕ → ℕ → ℕ) → ℕ → ℕ → ℕ
set_in key inner n f = set key (set inner n (f key)) f

-- A call that must answer true, and what follows it.
pub answers_true {ℓ κ} :
    {A : Type ℓ} {B : Type κ} (called : Outcome (Bool × A)) (reason : String) (f : A → Outcome B)
    (b : B)
    → (called >>= λ r. require r.0 reason >>= λ _. f r.1) ≡ done b
    → (a : A) × (called ≡ done (true, a)) × (f a ≡ done b)
answers_true (done (true, a)) reason f b e = (a, refl, e)
answers_true (done (false, a)) reason f b e = cc
answers_true (revert other) reason f b e = cc
