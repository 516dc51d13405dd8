-- ===== src/Service/Payments/Client.antt =====
-- The page of LeagueOverview.tsx and the service that answers it.
use wagr.Common.{
  ℕ, zero, suc, ◌+◌, ◌*◌, ◌<◌, ◌≤◌, ◌^◌, String, List, none, some, true, false, ◌≡◌, ◌==◌, ◌===◌,
  truthy, arith, refl,
}
use wagr.Common.Int.{pos}
use wagr.Js.Effects.{Result, ok, Response}
use wagr.Overview.{Page, Context, has_session, league_of}
use wagr.Overview.Confirm.{Poll, payment, refund, settle, confirm_with_retry}
use wagr.Overview.Confirm.Laws.{AllPending, settled, confirm_with_retry-Confirmed}
use wagr.Overview.Pay
use wagr.Overview.Pay.{handle_retry_confirm}
use wagr.Overview.Pay.Laws.{Settled, handle_retry_confirm-Settled}
use wagr.Overview.Refund
use wagr.Overview.Refund.{handle_retry_refund_confirm}
use wagr.Overview.Refund.Laws as Refunds
use wagr.Overview.Refund.Laws.{handle_retry_refund_confirm-Settled}
use wagr.Go.{returns}
use wagr.Database.{Database, LeagueRow, MemberRow}
use wagr.Service.Encoding.{uuid_to_bytes32}
use wagr.Service.Mirror.{
  get_account_evm_address, hedera_account_to_evm, encode_payments_call, read_contract_payment,
}
use wagr.Service.Mirror.Laws.{word_text, read_amount-word_text}
use wagr.Service.Payments.{
  World, find_member, wallet_of, required_usdc, on_chain, mark_members, check_payment,
  confirm_payment, check_refund, confirm_refund,
}
use wagr.Service.Payments.Laws.{required_usdc-pos}
use wagr.Service.Payments.Handlers.{
  handle_confirm_payment, handle_confirm_refund, http_error, no_content,
}

module _ (poll : Poll) (league_id tx_id : String) (answer : ℕ → Result (Response (Unit {0}))) where
  first_ends :
      (k : ℕ) (res : Response (Unit {0})) (result : Result (Unit {0}))
      → answer 1 ≡ ok res
      → (res.status == 402) ≡ false
      → AllPending poll league_id tx_id answer 1 k
      → result ≡ settled poll league_id tx_id answer (answer (1 + k))
      → result ≡ settle poll (some res)
  first_ends zero res result first done before e = ground (arith, e, first)
  first_ends (suc k) res result first done ((r, ended, found), before) e =
      let same : res ≡ r = cc in absurd (ground (arith, done, found, same))

  -- A first answer that is not 402 ends the loop.
  confirm_with_retry-first :
      (p : Page) (res : Response (Unit {0}))
      → answer 1 ≡ ok res
      → (res.status == 402) ≡ false
      → (confirm_with_retry poll league_id tx_id answer p).0 ≡ settle poll (some res)
  confirm_with_retry-first p res first done =
      let c = confirm_with_retry-Confirmed poll league_id tx_id answer p in
      first_ends c.k res _ first done c.before c.outcome

module _ (server : World) (db : Database) (league_id user_id : String) where
  -- What a user has paid, as the service can find it: the wallet, the league and the contract have their
  -- addresses, and the contract’s word for them is `paid`, which the mirror node answers in full.
  pub record HasPaid (m : MemberRow) (l : LeagueRow) (paid : ℕ) : Type 0 where
    pub member : List ℕ
    pub league : List ℕ
    pub contract : List ℕ
    pub member_known :
        get_account_evm_address server.mirror (wallet_of db user_id m) ≡ returns member
    pub league_known : uuid_to_bytes32 league_id ≡ returns league
    pub contract_known : hedera_account_to_evm server.escrow_contract_id ≡ returns contract
    pub answered :
        server.mirror.call_contract contract (encode_payments_call server.mirror league member)
        ≡ returns (word_text paid)

  on_chain-HasPaid :
      (m : MemberRow) (l : LeagueRow) (paid : ℕ)
      → HasPaid m l paid
      → paid < 2 ^ 63
      → on_chain server league_id (wallet_of db user_id m) ≡ returns (pos paid)
  unfolding on_chain read_contract_payment
  on_chain-HasPaid m l paid h small = ground (
    arith,
    h.member_known,
    h.league_known,
    h.contract_known,
    h.answered,
    read_amount-word_text paid,
  )

module _ (ctx : Context) (server : World) (db : Database) (user_id tx_id : String) (p : Page) where
  -- A member of the league has a payment pending, of which the first request reaches the service, in
  -- the member's session. It is not paid yet, the contract's word for it is at least the fee in
  -- millionths of a dollar, and below 2 ^ 63, and the database works. Then confirming the payment
  -- settles the page: the member is shown as paid, nothing is pending, and no error is shown. The
  -- service has marked the member as paid by the transaction.
  pub handle_retry_confirm-Paid :
      (page : Pay.World) (m : MemberRow) (l : LeagueRow) (fee paid : ℕ)
      → has_session ctx ≡ true
      → truthy (some tx_id) ≡ true
      → p.pending_tx_id ≡ some tx_id
      → page.confirmation 1
        ≡ ok (handle_confirm_payment server (league_of ctx) (some user_id) (some tx_id) db).0
      → server.update_fails ≡ none
      → find_member server db (league_of ctx) user_id ≡ returns (m, l)
      → (m.payment_status === "paid") ≡ false
      → l.entry_fee_cents ≡ pos fee
      → HasPaid server db (league_of ctx) user_id m l paid
      → fee * 10_000 ≤ paid
      → paid < 2 ^ 63
      → Settled ctx page tx_id p (handle_retry_confirm ctx page p)
        × ((handle_confirm_payment server (league_of ctx) (some user_id) (some tx_id) db).1
            ≡ mark_members (league_of ctx) user_id "paid" (some tx_id) db)
  unfolding handle_confirm_payment confirm_payment check_payment settle
  handle_retry_confirm-Paid page m l fee paid session real pending reached works found unpaid costs
        has enough small =
      let known = on_chain-HasPaid server db (league_of ctx) user_id m l paid has small in
      let due : required_usdc l ≡ pos (fee * 10_000) =
        required_usdc-pos l fee costs (omega (arith, enough, small)) in
      let good : check_payment server db (league_of ctx) user_id ≡ returns tt =
        ground (arith, found, unpaid, known, due, enough) in
      let answer : (handle_confirm_payment server (league_of ctx) (some user_id) (some tx_id) db).0
          ≡ no_content =
        ground (arith, good, works, real) in
      (
        handle_retry_confirm-Settled ctx page tx_id p session real pending (
            confirm_with_retry-first payment (league_of ctx) tx_id page.confirmation _ no_content
              (cc) refl),
        ground (arith, good, works, real),
      )

  -- A member that is paid, of a league that is not cancelled, has a refund pending, of which the first
  -- request reaches the service, in the member's session. The service refuses it and writes nothing, so
  -- that the member stays paid; but the page takes the answer, 409, for a confirmation: it shows the
  -- member as refunded, and forgets the transaction.
  pub handle_retry_refund_confirm-Refused :
      (page : Refund.World) (m : MemberRow) (l : LeagueRow)
      → has_session ctx ≡ true
      → truthy (some tx_id) ≡ true
      → p.pending_refund_tx_id ≡ some tx_id
      → page.confirmation 1
        ≡ ok (handle_confirm_refund server (league_of ctx) (some user_id) (some tx_id) db).0
      → find_member server db (league_of ctx) user_id ≡ returns (m, l)
      → (m.payment_status === "paid") ≡ true
      → l.cancelled_at ≡ none
      → Refunds.Settled ctx page tx_id p (handle_retry_refund_confirm ctx page p)
        × ((handle_confirm_refund server (league_of ctx) (some user_id) (some tx_id) db).1 ≡ db)
  unfolding handle_confirm_refund confirm_refund check_refund settle
  handle_retry_refund_confirm-Refused page m l session real pending reached found was_paid active =
      let answer : (handle_confirm_refund server (league_of ctx) (some user_id) (some tx_id) db).0
          ≡ http_error 409 "league is not cancelled" =
        ground (arith, found, was_paid, active, real) in
      (
        handle_retry_refund_confirm-Settled ctx page tx_id p session real pending (
            confirm_with_retry-first refund (league_of ctx) tx_id page.confirmation _
              (http_error 409 "league is not cancelled") (cc) refl),
        ground (arith, found, was_paid, active, real),
      )
