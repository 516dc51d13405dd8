-- ===== src/Payouts/Totals.antt =====
-- What the total of the payout rows adds up.
use wagr.Common.{
  ℕ, zero, suc, ◌+◌, ◌≡◌, refl, ◌∙◌, ap, some, List, [], ◌∷◌, ◌++◌, get_elem?, remove_at, push,
  arith, All, ◌⊎◌, inl, inr, if◌then◌else◌,
}
use wagr.Common.Int.{ℤ, pos, ◌+ℤ◌, int_laws}
use wagr.Types.League.{PayoutEntry, placement, weekly, is_weekly}
use wagr.Payouts.{
  placements, bonuses, add_row, add_rows, total_payout, row_total, normalize_entry, normalize_from,
  normalize_entries,
}

-- What one row costs.
abbrev pub cost : PayoutEntry → ℤ
cost r = if is_weekly r.entry_type then row_total r else r.amount_cents

abbrev pub sum_of : (PayoutEntry → ℤ) → List PayoutEntry → ℤ
sum_of f [] = pos 0
sum_of f (r ∷ rows) = f r +ℤ sum_of f rows

add_row-cost : (s : ℤ) (r : PayoutEntry) → add_row s r ≡ s +ℤ cost r
unfolding add_row row_total
add_row-cost s r = ground arith

add_rows-sum : (s : ℤ) (rows : List PayoutEntry) → add_rows s rows ≡ s +ℤ sum_of cost rows
unfolding add_rows
add_rows-sum s [] = omega int_laws
add_rows-sum s (r ∷ rows) =
    add_rows-sum (add_row s r) rows
    ∙ ap (λ t. t +ℤ sum_of cost rows) (add_row-cost s r)
    ∙ omega int_laws

pub total_payout-sum : (rows : List PayoutEntry) → total_payout rows ≡ sum_of cost rows
unfolding total_payout
total_payout-sum rows = add_rows-sum (pos 0) rows ∙ omega int_laws

sum_of-append :
    (f : PayoutEntry → ℤ) (xs ys : List PayoutEntry)
    → sum_of f (xs ++ ys) ≡ sum_of f xs +ℤ sum_of f ys
sum_of-append f [] ys = omega int_laws
sum_of-append f (x ∷ xs) ys = ap (λ t. f x +ℤ t) (sum_of-append f xs ys) ∙ omega int_laws

pub total_payout-append :
    (xs ys : List PayoutEntry) → total_payout (xs ++ ys) ≡ total_payout xs +ℤ total_payout ys
total_payout-append xs ys =
    rw (total_payout-sum (xs ++ ys), total_payout-sum xs, total_payout-sum ys)
      (sum_of-append cost xs ys)

-- A row that costs nothing leaves the total as it was.
pub total_payout-push :
    (rows : List PayoutEntry) (r : PayoutEntry)
    → cost r ≡ pos 0
    → total_payout (push rows r) ≡ total_payout rows
total_payout-push rows r free =
    rw (total_payout-append rows (r ∷ []), total_payout-sum (r ∷ []), free) (omega int_laws)

sum_of-remove_at :
    (rows : List PayoutEntry) (i : ℕ) (r : PayoutEntry)
    → get_elem? rows i ≡ some r
    → sum_of cost (remove_at i rows) +ℤ cost r ≡ sum_of cost rows
sum_of-remove_at [] i r h = cc
sum_of-remove_at (x ∷ rows) zero r h = let same : x ≡ r = cc in rw same (omega int_laws)
sum_of-remove_at (x ∷ rows) (suc i) r h =
    let ih = sum_of-remove_at rows i r h in rw (← ih) (omega int_laws)

-- Removing the row at an index lowers the total by what that row costs.
pub total_payout-remove_at :
    (rows : List PayoutEntry) (i : ℕ) (r : PayoutEntry)
    → get_elem? rows i ≡ some r
    → total_payout (remove_at i rows) +ℤ cost r ≡ total_payout rows
total_payout-remove_at rows i r h =
    rw (total_payout-sum (remove_at i rows), total_payout-sum rows) (sum_of-remove_at rows i r h)

cost-normalize_entry : (e : PayoutEntry) (i : ℕ) → cost (normalize_entry e i) ≡ cost e
unfolding normalize_entry row_total
cost-normalize_entry e i = ground arith

sum_of-normalize_from :
    (i : ℕ) (es : List PayoutEntry) → sum_of cost (normalize_from i es) ≡ sum_of cost es
unfolding normalize_from
sum_of-normalize_from i [] = refl
sum_of-normalize_from i (e ∷ es) = rw (cost-normalize_entry e i, sum_of-normalize_from (i + 1) es)

-- Normalising the stored entries leaves their total as it was.
pub total_payout-normalize :
    (es : List PayoutEntry) → total_payout (normalize_entries es) ≡ total_payout es
unfolding normalize_entries
total_payout-normalize es =
    rw (total_payout-sum (normalize_from 0 es), total_payout-sum es) (sum_of-normalize_from 0 es)

abbrev pub HasType : PayoutEntry → Type 0
HasType e = (e.entry_type ≡ some placement) ⊎ (e.entry_type ≡ some weekly)

pub normalize_from-HasType : (i : ℕ) (es : List PayoutEntry) → All HasType (normalize_from i es)
unfolding normalize_from normalize_entry
normalize_from-HasType i [] = tt
normalize_from-HasType i (e ∷ es) = (ground arith, normalize_from-HasType (i + 1) es)

sum_of-split :
    (rows : List PayoutEntry)
    → All HasType rows
    → sum_of cost rows
      ≡ sum_of (λ r. r.amount_cents) (placements rows) +ℤ sum_of row_total (bonuses rows)
sum_of-split [] h = omega int_laws
sum_of-split (r ∷ rows) (inl p, h) = rw (p, sum_of-split rows h) (omega int_laws)
sum_of-split (r ∷ rows) (inr w, h) = rw (w, sum_of-split rows h) (omega int_laws)

-- Where every row has a type, the total is the sum of the amounts in the table of season payouts
-- and of the row totals in the table of bonuses.
pub total_payout-split :
    (rows : List PayoutEntry)
    → All HasType rows
    → total_payout rows
      ≡ sum_of (λ r. r.amount_cents) (placements rows) +ℤ sum_of row_total (bonuses rows)
total_payout-split rows h = rw (total_payout-sum rows) (sum_of-split rows h)
