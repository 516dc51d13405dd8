-- ===== src/Js/Text.antt =====
-- Searching in text, by its code points: `toLowerCase`, `includes` and `startsWith`. Lower case is
-- that of ASCII and of the Kelvin sign (U+212A), which becomes `k`; no other character than İ (U+0130)
-- has an ASCII letter in its lower case, and no text that the client searches for has an `i`.
use Prim.Native.Char.{code}
use Prim.Native.String.{String, [], ◌∷◌}
use wagr.Common.{ℕ, ◌+◌, Bool, true, false, List, ◌&&◌, ◌||◌, ◌==◌, leb, if◌then◌else◌, map}

abbrev pub codes : String → List ℕ
codes [] = List.[]
codes (c ∷ s) = List.◌∷◌ (code c) (codes s)

pub lower : ℕ → ℕ
lower c = if leb b'A' c && leb c b'Z' then c + 32 else if c == 0x212a then b'k' else c

-- `text.startsWith(start)`
unfoldable pub begins : List ℕ → List ℕ → Bool
begins List.[] text = true
begins (List.◌∷◌ c start) List.[] = false
begins (List.◌∷◌ c start) (List.◌∷◌ d text) = c == d && begins start text

-- `text.includes(part)`
unfoldable pub includes : List ℕ → List ℕ → Bool
unfolding begins
includes part List.[] = begins part List.[]
includes part (List.◌∷◌ d text) = begins part (List.◌∷◌ d text) || includes part text

-- `text.toLowerCase().includes(part)`
unfoldable pub includes_lower : String → String → Bool
unfolding includes lower
includes_lower part text = includes (codes part) (map lower (codes text))

pub same_codes : List ℕ → List ℕ → Bool
same_codes List.[] List.[] = true
same_codes (List.◌∷◌ c s) (List.◌∷◌ d t) = c == d && same_codes s t
same_codes _ _ = false

-- `text.toLowerCase() === other`
unfoldable pub equals_lower : String → String → Bool
unfolding lower same_codes
equals_lower text other = same_codes (map lower (codes text)) (codes other)
