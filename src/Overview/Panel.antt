-- ===== src/Overview/Panel.antt =====
-- What the page shows: the tests of its `return` statements, and the panel of the user's own payment.
pub mod Laws
pub mod Ranking
use wagr.Common.{
  ℕ, String, Option, none, some, Bool, true, false, not, ◌&&◌, ◌||◌, List, [], ◌∷◌, truthy,
  truthy_text, is_some, is_none, find_first, if◌then◌else◌,
}
use wagr.Common.Int.{ℤ, ◌*ℤ◌, pos, ltb_ℤ}
use wagr.Types.League.{
  LeagueDetail, LeagueSettings, LeagueMember, PaymentStatus, unpaid, paid, refunded, is_paid,
  is_refunded,
}
use wagr.Types.Wallet.{WalletState}
use wagr.Overview.{Page, Context, is_mine}

-- The panel. A button comes with whether it can be pressed.
pub data Panel : Type 0 where
  refunded_panel : Panel
  confirm_refund : (enabled : Bool) → Panel
  claim_refund : (enabled : Bool) → Panel
  paid_panel : Panel
  cancelled_panel : Panel
  confirm_payment : (enabled : Bool) → Panel
  pay_entry_fee : (enabled : Bool) → Panel

-- `isCancelled`
abbrev pub is_cancelled : LeagueDetail → Bool
is_cancelled d = truthy d.league.cancelled_at

unfoldable pub panel : Context → Page → LeagueDetail → LeagueMember → Panel
panel ctx p d me =
    if is_refunded me.payment_status
    then refunded_panel
    else if is_paid me.payment_status && is_cancelled d
    then if truthy p.pending_refund_tx_id
      then confirm_refund (not p.refund_loading)
      else claim_refund (not (p.refund_loading || is_none ctx.wallet_state))
    else if is_paid me.payment_status
    then paid_panel
    else if is_cancelled d
    then cancelled_panel
    else if truthy p.pending_tx_id
    then confirm_payment (not p.pay_loading)
    else pay_entry_fee
        (not (p.pay_loading || not (truthy_text me.wallet_address) || is_none ctx.wallet_state))

-- `members.find((m) => m.user_id === user?.id) ?? null`
abbrev pub my_member : Context → LeagueDetail → Option LeagueMember
my_member ctx d = find_first (is_mine ctx.user_id) d.members

pub data View : Type 0 where
  nothing : View
  loading_view : View
  not_member_view : View
  error_view : String → View
  league_view : (commissioner cancelled : Bool) → (pool : ℤ) → Option Panel → View

-- The page, with its early returns.
unfoldable pub view : Context → Bool → Page → View
unfolding panel
view ctx authenticated p =
    if not authenticated
    then nothing
    else if p.loading
    then loading_view
    else if p.not_member
    then not_member_view
    else if truthy p.error
    then error_view (elim p.error [ none ↦ "" | some e ↦ e ])
    else elim p.detail [
      | none ↦ nothing
      | some d ↦ elim p.settings [
        | none ↦ nothing
        | some s ↦
            league_view s.is_commissioner (is_cancelled d)
              (s.entry_fee_cents *ℤ pos s.total_rosters)
              (elim (my_member ctx d) [ none ↦ none | some me ↦ some (panel ctx p d me) ])
      ]
    ]

-- `sort((a, b) => b.total_points - a.total_points)`: a stable sort, by falling points.
pub insert_member : LeagueMember → List LeagueMember → List LeagueMember
insert_member m [] = m ∷ []
insert_member m (n ∷ members) =
    if ltb_ℤ m.total_points n.total_points then n ∷ insert_member m members else m ∷ n ∷ members

unfoldable pub sorted_members : List LeagueMember → List LeagueMember
unfolding insert_member
sorted_members [] = []
sorted_members (m ∷ members) = insert_member m (sorted_members members)
