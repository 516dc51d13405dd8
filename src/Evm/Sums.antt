-- ===== src/Evm/Sums.antt =====
-- The sum of a mapping over distinct keys, when one of its values changes.
use wagr.Common.{ℕ, List, [], ◌∷◌, All, ◌≡◌, ◌≢◌, ◌⊎◌, inl, inr, ◌+◌, ◌-◌, ◌≤◌, refl, arith}
use wagr.Evm.{set}

abbrev pub sum_of : (ℕ → ℕ) → List ℕ → ℕ
sum_of f [] = 0
sum_of f (k ∷ keys) = f k + sum_of f keys

abbrev pub IsDistinct : List ℕ → Type 0
IsDistinct [] = Unit
IsDistinct (k ∷ keys) = All (λ other. other ≢ k) keys × IsDistinct keys

sum_of-set_absent :
    (f : ℕ → ℕ) (key n : ℕ) (keys : List ℕ)
    → All (λ k. k ≢ key) keys
    → sum_of (set key n f) keys ≡ sum_of f keys
sum_of-set_absent f key n [] h = refl
sum_of-set_absent f key n (k ∷ keys) (p, h) = ground (arith, sum_of-set_absent f key n keys h)

-- Either the key is not among those that are summed, or its new value takes the place of the old.
pub sum_of-set :
    (f : ℕ → ℕ) (key n : ℕ) (keys : List ℕ)
    → IsDistinct keys
    → (All (λ k. k ≢ key) keys × (sum_of (set key n f) keys ≡ sum_of f keys))
      ⊎ (sum_of (set key n f) keys + f key ≡ sum_of f keys + n)
sum_of-set f key n [] h = inl (tt, refl)
sum_of-set f key n (k ∷ keys) (fresh, h) =
    ground (arith, sum_of-set f key n keys h, sum_of-set_absent f k n keys fresh)

-- No sum over distinct keys is above the bound.
abbrev pub IsCovered : (ℕ → ℕ) → ℕ → Type 0
IsCovered f bound = (keys : List ℕ) → IsDistinct keys → sum_of f keys ≤ bound

pub raise-IsCovered :
    (f : ℕ → ℕ) (bound key n : ℕ)
    → IsCovered f bound
    → IsCovered (set key (f key + n) f) (bound + n)
raise-IsCovered f bound key n h keys distinct =
    ground (arith, h keys distinct, sum_of-set f key (f key + n) keys distinct)

-- What a key gives up is covered by what the others leave.
pub lower-IsCovered :
    (f : ℕ → ℕ) (bound key n : ℕ)
    → n ≤ f key
    → IsCovered f bound
    → IsCovered (set key (f key - n) f) (bound - n)
lower-IsCovered f bound key n le h keys distinct =
    elim (sum_of-set f key (f key - n) keys distinct) [
      | inl (absent, same) ↦ ground (arith, h (key ∷ keys) (absent, distinct))
      | inr moved ↦ ground (arith, h keys distinct)
    ]
