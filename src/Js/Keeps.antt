-- ===== src/Js/Keeps.antt =====
-- What a chain of actions keeps, whether it resolves or throws.
use wagr.Js.Effects.{Result, ok, throw, Action, ◌>>=◌}

module _ {ℓ κ} {S : Type ℓ} (I : S → Type κ) where
  abbrev pub Keeps {μ} : {A : Type μ} → Action S A → Type (ℓ ⊔ κ)
  Keeps m = (s : S) → I s → I (m s).1

  resume-Keeps {μ ν} :
      {A : Type μ} {B : Type ν} (r : Result A) (f : A → Action S B)
      → ((a : A) → Keeps (f a))
      → Keeps ((λ s. (r, s)) >>= f)
  resume-Keeps (ok a) f keeps s h = keeps a s h
  resume-Keeps (throw e) f keeps s h = h

  pub chain-Keeps {μ ν} :
      {A : Type μ} {B : Type ν} (m : Action S A) (f : A → Action S B)
      → Keeps m
      → ((a : A) → Keeps (f a))
      → Keeps (m >>= f)
  chain-Keeps m f first next s h = resume-Keeps (m s).0 f next (m s).1 (first s h)
