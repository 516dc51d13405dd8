-- ===== src/Overview/Sync.antt =====
-- The pending transactions of the page and those of local storage are the same.
use Prim.Native.Char.{code}
use Prim.Native.String.{◌++◌, ◌∷◌}
use text.Mathlib.TextLemmas.{append_cancel_left, append_assoc, cons-append, head-eq_of_cons-eq}
use wagr.Common.{
  String, false, ◌≡◌, ◌≢◌, sym, ap, ◌∙◌, ◌===◌, eq_iff, Bool-cases, inl, inr, arith, ℕ,
}
use wagr.Overview.Confirm.Laws.{SameBut}
use wagr.Overview.{Page, Context, league_of, pending_tx_key, pending_refund_tx_key}

letters_apart : ¬ (◌≡◌ {A = ℕ} (code "t") (code "r"))
letters_apart same = omega (arith, same)

keys_apart : (l : String) → pending_tx_key l ≢ pending_refund_tx_key l
unfolding pending_tx_key pending_refund_tx_key
keys_apart l e =
    let rest : "tx_" ++ l ≡ "refund_" ++ l =
      append_cancel_left "wagr_pending_" _ _ (
        sym (append_assoc "wagr_pending_" "tx_" l)
        ∙ e
        ∙ append_assoc "wagr_pending_" "refund_" l) in
    let first : "t" ∷ ("x_" ++ l) ≡ "r" ∷ ("efund_" ++ l) =
      sym (cons-append "t" "x_" l) ∙ rest ∙ cons-append "r" "efund_" l in
    letters_apart (ap code (head-eq_of_cons-eq first))

pub keys_differ : (l : String) → (pending_tx_key l === pending_refund_tx_key l) ≡ false
keys_differ l = elim (Bool-cases (pending_tx_key l === pending_refund_tx_key l)) [
  | inl same ↦ absurd (keys_apart l ((eq_iff _ _).0 same))
  | inr apart ↦ apart
]

pub keys_differ_back : (l : String) → (pending_refund_tx_key l === pending_tx_key l) ≡ false
keys_differ_back l = elim (Bool-cases (pending_refund_tx_key l === pending_tx_key l)) [
  | inl same ↦ absurd (keys_apart l (sym ((eq_iff _ _).0 same)))
  | inr apart ↦ apart
]

pub record InSync (ctx : Context) (p : Page) : Type 0 where
  pub payment : p.storage (pending_tx_key (league_of ctx)) ≡ p.pending_tx_id
  pub refund : p.storage (pending_refund_tx_key (league_of ctx)) ≡ p.pending_refund_tx_id

module _ (ctx : Context) where
  -- What leaves the two transactions and local storage alone keeps them in step.
  pub InSync-same : {p q : Page} → SameBut p q → InSync ctx p → InSync ctx q
  InSync-same {p} {q} same h = record {
    payment =
        ap (λ s. s (pending_tx_key (league_of ctx))) same.storage
        ∙ h.payment
        ∙ sym same.pending_tx_id;
    refund =
        ap (λ s. s (pending_refund_tx_key (league_of ctx))) same.storage
        ∙ h.refund
        ∙ sym same.pending_refund_tx_id;
  }
