-- ===== src/Overview/Refund/Revert.antt =====
-- The identifier of a reverted transaction, in the message of the wallet: the match of
-- `/transaction ([\d.@]+)/`, in the form that the mirror node wants.
use wagr.Common.{
  ℕ, Option, none, some, Bool, true, List, [], ◌∷◌, ◌&&◌, ◌||◌, ◌==◌, leb, if◌then◌else◌,
}
use wagr.Js.Text.{codes, begins}

pub is_digit : ℕ → Bool
is_digit c = leb b'0' c && leb c b'9'

-- The longest run of `[\d.@]`.
pub run_of_id : List ℕ → List ℕ
unfolding is_digit
run_of_id [] = []
run_of_id (c ∷ text) = if is_digit c || c == b'.' || c == b'@' then c ∷ run_of_id text else []

abbrev pub marker : List ℕ
marker = codes "transaction "

pub skip : List ℕ → List ℕ → List ℕ
skip [] text = text
skip (c ∷ start) [] = []
skip (c ∷ start) (d ∷ text) = skip start text

-- The group of the leftmost match.
pub match_tx : List ℕ → Option (List ℕ)
unfolding run_of_id skip
match_tx [] = none
match_tx (c ∷ text) =
    let later = match_tx text in
    if begins marker (c ∷ text)
    then elim (run_of_id (skip marker (c ∷ text))) [ [] ↦ later | d ∷ id ↦ some (d ∷ id) ]
    else later

-- `.replace('@', '-')`: the first one.
pub replace_at : List ℕ → List ℕ
replace_at [] = []
replace_at (c ∷ text) = if c == b'@' then b'-' ∷ text else c ∷ replace_at text

pub all_digits : List ℕ → Bool
unfolding is_digit
all_digits [] = true
all_digits (c ∷ text) = is_digit c && all_digits text

-- `.replace(/\.(\d+)$/, '-$1')`
pub replace_dot : List ℕ → List ℕ
unfolding all_digits
replace_dot [] = []
replace_dot (c ∷ []) = c ∷ []
replace_dot (c ∷ d ∷ text) =
    if c == b'.' && all_digits (d ∷ text) then b'-' ∷ d ∷ text else c ∷ replace_dot (d ∷ text)

unfoldable pub mirror_tx_id : List ℕ → Option (List ℕ)
unfolding match_tx replace_at replace_dot
mirror_tx_id message = elim (match_tx message) [
  | none ↦ none
  | some id ↦ some (replace_dot (replace_at id))
]
