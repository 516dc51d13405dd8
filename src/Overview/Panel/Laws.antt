-- ===== src/Overview/Panel/Laws.antt =====
-- What the panel offers, and what it offers after a payment.
use wagr.Common.{
  String, some, true, false, ◌≡◌, ◌↔◌, inl, inr, arith, truthy, truthy_text, is_some, List, [], ◌∷◌,
  map, find_first, Bool-cases,
}
use wagr.Types.League.{LeagueDetail, LeagueMember, PaymentStatus, unpaid, paid}
use wagr.Overview.{Page, Context, is_mine, mark}
use wagr.Overview.Pay.{World}
use wagr.Overview.Pay.Laws.{Unconfirmed, Settled}
use wagr.Overview.Panel.{
  confirm_payment, pay_entry_fee, claim_refund, paid_panel, is_cancelled, panel, my_member,
}

-- The button that pays can be pressed exactly when the user's member has not paid and has a wallet
-- address, the league is not cancelled, no payment is pending or running, and a wallet is connected.
pub panel-pay_entry_fee_iff :
    (ctx : Context) (p : Page) (d : LeagueDetail) (me : LeagueMember)
    → (panel ctx p d me ≡ pay_entry_fee true) ↔ (
        (me.payment_status ≡ unpaid)
        × (truthy_text me.wallet_address ≡ true)
        × (is_cancelled d ≡ false)
        × (truthy p.pending_tx_id ≡ false)
        × (p.pay_loading ≡ false)
        × (is_some ctx.wallet_state ≡ true))
unfolding panel
panel-pay_entry_fee_iff ctx p d me = ground arith

-- The button that claims a refund can be pressed exactly when the user's member has paid, the league is
-- cancelled, no refund is pending or running, and a wallet is connected.
pub panel-claim_refund_iff :
    (ctx : Context) (p : Page) (d : LeagueDetail) (me : LeagueMember)
    → (panel ctx p d me ≡ claim_refund true) ↔ (
        (me.payment_status ≡ paid)
        × (is_cancelled d ≡ true)
        × (truthy p.pending_refund_tx_id ≡ false)
        × (p.refund_loading ≡ false)
        × (is_some ctx.wallet_state ≡ true))
unfolding panel
panel-claim_refund_iff ctx p d me = ground arith

-- After a payment whose confirmation failed, a member who has not paid is offered to confirm it, and
-- not to pay again, whether or not a wallet is connected by then.
pub panel-Unconfirmed :
    (ctx later : Context) (w : World) (tx_id : String) (p q : Page) (d : LeagueDetail)
    (me : LeagueMember)
    → Unconfirmed ctx w tx_id p q
    → truthy (some tx_id) ≡ true
    → me.payment_status ≡ unpaid
    → is_cancelled d ≡ false
    → panel later q d me ≡ confirm_payment true
unfolding panel
panel-Unconfirmed ctx later w tx_id p q d me u real owes running = ground arith

find-mark :
    (id tx_id : String) (status : PaymentStatus) (members : List LeagueMember) (me : LeagueMember)
    → find_first (is_mine (some id)) members ≡ some me
    → find_first (is_mine (some id)) (map (mark status (some id) tx_id) members)
      ≡ some (record me { payment_status = status; transaction_hash = some tx_id })
find-mark id tx_id status [] me h = cc
find-mark id tx_id status (m ∷ members) me h = elim (Bool-cases (is_mine (some id) m)) [
  | inl mine ↦ ground arith
  | inr other ↦ ground (arith, find-mark id tx_id status members me)
]

-- After a payment that went through in a league that is not cancelled, the user's own member is found
-- among the members, and the panel shows it as paid.
pub panel-Settled :
    (ctx : Context) (w : World) (id tx_id : String) (p q : Page) (d : LeagueDetail)
    (me : LeagueMember)
    → Settled ctx w tx_id p q
    → ctx.user_id ≡ some id
    → p.detail ≡ some d
    → my_member ctx d ≡ some me
    → is_cancelled d ≡ false
    → (d' : LeagueDetail) × (me' : LeagueMember) × (q.detail ≡ some d')
      × (my_member ctx d' ≡ some me')
      × (panel ctx q d' me' ≡ paid_panel)
unfolding panel
panel-Settled ctx w id tx_id p q d me s user shown mine running = (
  record d { members = map (mark paid ctx.user_id tx_id) d.members },
  record me { payment_status = paid; transaction_hash = some tx_id },
  ground arith,
  rw user (find-mark id tx_id paid d.members me (rw user at mine)),
  ground arith,
)
