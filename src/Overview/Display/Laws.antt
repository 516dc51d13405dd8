-- ===== src/Overview/Display/Laws.antt =====
-- What can be read off the texts of the league's page.
use Prim.Native.Char.{code}
use Prim.Native.String.{[], ◌∷◌, ◌++◌}
use text.Mathlib.TextLemmas.{append_cancel_left, cons-eq-cons, append-nil}
use wagr.Common.{
  ℕ, ◌/◌, ◌%◌, ◌<◌, ◌≡◌, ◌≢◌, inl, inr, refl, ap, sym, ◌∙◌, none, some, true, false, Bool-cases,
  ◌==◌, is_some, Bool, ◌||◌, ◌&&◌, arith,
}
use wagr.Common.Int.{pos}
use wagr.Js.Number.{show, parse_int, digit_char, digit_in}
use wagr.Js.Number.RoundTrip.{parse_int-show, parse_int-show-append, code-digit_char}
use wagr.Types.League.{LeagueDetail, LeagueSettings}
use wagr.Overview.{Page, Context}
use wagr.Overview.Display.{cents_text, amount_text, format_dollars, header}

-- The whole dollars can be read off the amount.
parse_int-amount_text : (n : ℕ) → parse_int 10 (amount_text n) ≡ some (pos (n / 100))
unfolding amount_text cents_text digit_in
parse_int-amount_text n = elim (Bool-cases (n % 100 == 0)) [
  | inl whole ↦ rw (whole, amount_text, cents_text) (rw append-nil (parse_int-show (n / 100)))
  | inr part ↦
      rw (part, amount_text, cents_text)
        (parse_int-show-append (n / 100) "."
          (digit_char (n % 100 / 10) ∷ digit_char (n % 100 % 10) ∷ []) refl)
]

cents_text-none : (c : ℕ) → (c == 0) ≡ true → cents_text c ≡ []
unfolding cents_text
cents_text-none c e = rw (e, cents_text) refl

cents_text-some :
    (c : ℕ) → (c == 0) ≡ false → cents_text c ≡ "." ∷ digit_char (c / 10) ∷ digit_char (c % 10) ∷ []
unfolding cents_text
cents_text-some c e = rw (e, cents_text) refl

digit_char-inj : (a b : ℕ) → a < 10 → b < 10 → digit_char a ≡ digit_char b → a ≡ b
digit_char-inj a b ha hb e = omega (arith, code-digit_char a ha, code-digit_char b hb, ap code e)

cents_text-inj : (c d : ℕ) → c < 100 → d < 100 → cents_text c ≡ cents_text d → c ≡ d
cents_text-inj c d hc hd e = elim (Bool-cases (c == 0)) [
  | inl nothing ↦ elim (Bool-cases (d == 0)) [
    | inl neither ↦ ground arith
    | inr other ↦ cc (e, cents_text-none c nothing, cents_text-some d other)
  ]
  | inr something ↦ elim (Bool-cases (d == 0)) [
    | inl nothing ↦ cc (e, cents_text-some c something, cents_text-none d nothing)
    | inr other ↦
        let (_, digits) =
          cons-eq-cons.0 (sym (cents_text-some c something) ∙ e ∙ cents_text-some d other) in
        let (tens, ones) = cons-eq-cons.0 digits in
        let high = digit_char-inj (c / 10) (d / 10) (omega arith) (omega arith) tens in
        let low =
          digit_char-inj (c % 10) (d % 10) (omega arith) (omega arith) (cons-eq-cons.0 ones).0 in
        omega arith
  ]
]

same_amount : (m n : ℕ) → format_dollars (pos m) ≡ format_dollars (pos n) → m ≡ n
unfolding format_dollars amount_text
same_amount m n e =
    let same : amount_text m ≡ amount_text n = (cons-eq-cons.0 e).1 in
    let dollars : m / 100 ≡ n / 100 = cc (parse_int-amount_text m, parse_int-amount_text n, same) in
    let cents : m % 100 ≡ n % 100 = cents_text-inj (m % 100) (n % 100) (omega arith) (omega arith) (
      append_cancel_left (show (m / 100)) (cents_text (m % 100)) (cents_text (n % 100))
        (same ∙ ap (λ k. show k ++ cents_text (n % 100)) (sym dollars))) in
    omega arith

-- No two amounts are shown as the same text.
format_dollars-inj : (m n : ℕ) → m ≢ n → format_dollars (pos m) ≢ format_dollars (pos n)
format_dollars-inj m n differ e = differ (same_amount m n e)

-- Only the commissioner sees buttons in the header and the banner, and always exactly one of the two
-- that cancel and reactivate the league.
pub header_lem :
    (ctx : Context) (copied : Bool) (p : Page) (d : LeagueDetail) (s : LeagueSettings)
    → let h = header ctx copied p d s in
      (is_some h.settings_link ≡ s.is_commissioner)
      × ((is_some h.cancel || is_some h.reactivate) ≡ s.is_commissioner)
      × ((is_some h.cancel && is_some h.reactivate) ≡ false)
      × (h.banner ≡ false → h.reactivate ≡ none)
unfolding header
header_lem ctx copied p d s = ground arith
