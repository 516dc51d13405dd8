-- ===== src/Settings/Form/Money.antt =====
-- Amounts are typed in whole dollars.
use Prim.Native.String.{◌++◌}
use wagr.Common.{◌≡◌, ap, ◌∙◌, arith}
use wagr.Common.Int.{ℤ, pos, negsuc, ◌*ℤ◌}
use wagr.Js.Number.{show_ℤ}
use wagr.Js.Number.RoundTrip.{parse_int-show_ℤ, truthy-show_ℤ}
use wagr.Payouts.{round_hundredths, format_dollars}
use wagr.Settings.Form.{whole_input, money_input}

whole_input-show_ℤ : (z : ℤ) → whole_input (show_ℤ z) ≡ z
unfolding whole_input
whole_input-show_ℤ z = rw (truthy-show_ℤ z, parse_int-show_ℤ z)

round_hundredths-whole : (z : ℤ) → round_hundredths (z *ℤ pos 100) ≡ z
unfolding round_hundredths ◌*ℤ◌
round_hundredths-whole (pos n) = ground arith
round_hundredths-whole (negsuc n) = ground arith

-- The text of an integer, typed into a money field, stores a hundred times the integer, and the
-- page then shows a dollar sign and that same text.
pub money_input-show_ℤ :
    (z : ℤ)
    → (money_input (show_ℤ z) ≡ z *ℤ pos 100)
      × (format_dollars (money_input (show_ℤ z)) ≡ "$" ++ show_ℤ z)
unfolding money_input format_dollars
money_input-show_ℤ z = (
  ap (λ y. y *ℤ pos 100) (whole_input-show_ℤ z),
  ap (λ y. "$" ++ show_ℤ (round_hundredths (y *ℤ pos 100))) (whole_input-show_ℤ z)
      ∙ ap (λ y. "$" ++ show_ℤ y) (round_hundredths-whole z),
)
