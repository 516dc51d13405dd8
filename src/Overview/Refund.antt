-- ===== src/Overview/Refund.antt =====
-- The refund of a cancelled league: `handleClaimRefund`, `handleRetryRefundConfirm` and
-- `handleDismissPendingRefund`.
pub mod Laws
pub mod InSync
pub mod Submitted
pub mod Revert
use Prim.Native.String.{◌++◌}
use wagr.Common.{
  ℕ, String, Option, none, some, Bool, true, false, ◌||◌, ◌&&◌, List, ◌∷◌, if◌then◌else◌,
  or_default, truthy,
}
use wagr.Js.Effects.{
  Thrown, message_or, message_of, Result, ok, throw, Response, is_ok, Action, pure, raise, await,
  try_catch, finally, modify, ◌>>=◌, ◌>>◌,
}
use wagr.Js.Storage.{set_item, remove_item}
use wagr.Js.Text.{codes, begins, includes}
use wagr.Types.League.{refunded}
use wagr.Types.Wallet.{WalletState}
use wagr.Hedera.{HederaStrategy, Sdk, claim_refund_usdc}
use wagr.Overview.{
  Effect, Page, Context, ActiveStrategy, hedera_strategy, other_strategy, has_session, league_of,
  pending_refund_tx_key, call_wallet, mark_detail,
}
use wagr.Overview.Confirm.{refund, confirm_with_retry}
use wagr.Overview.Pay.{is_rejection, wallet_error}
use wagr.Overview.Refund.Revert.{mirror_tx_id}

-- What the outside answers while a refund runs. `contract_id` is the setting of the build, and the
-- mirror node answers with the `error_message` of a contract result.
pub record World : Type 0 where
  pub contract_id : Option String
  pub sdk : Sdk
  pub contract_result : List ℕ → Result (Response (Option String))
  pub confirmation : ℕ → Result (Response (Unit {0}))

abbrev pub revert_error : String → Thrown
revert_error reason = Thrown.error ("Contract reverted: \"" ++ (reason ++ "\""))

-- The inner `try` of the `catch`: the reason of the revert, where the mirror node gives one. Its own
-- `catch` drops every other error, unless the message begins like that of a revert.
pub revert_reason : Result (Response (Option String)) → Option Thrown
revert_reason (throw (Thrown.error m)) =
    if begins (codes "Contract reverted") (codes m) then some (Thrown.error m) else none
revert_reason (throw (Thrown.value s)) = none
revert_reason (ok res) =
    if is_ok res
    then elim res.json [
      | throw (Thrown.error m) ↦
          if begins (codes "Contract reverted") (codes m) then some (Thrown.error m) else none
      | throw (Thrown.value s) ↦ none
      | ok reason ↦ if truthy reason then some (revert_error (or_default reason "")) else none
    ]
    else none

-- What a failed wallet call is reported as: rejected, reverted with its reason, or as it is.
pub refund_failure : World → Thrown → Action Page String
unfolding revert_reason
refund_failure w e p =
    if is_rejection e
    then (throw (Thrown.error "Transaction rejected in HashPack"), p)
    else if includes (codes "CONTRACT_REVERT_EXECUTED") (codes (message_of e))
    then elim (mirror_tx_id (codes (message_of e))) [
      | none ↦ (throw (wallet_error e), p)
      | some id ↦ (
        throw (or_default (revert_reason (w.contract_result id)) (wallet_error e)),
        record p { trace = Effect.contract_result id ∷ p.trace },
      )
    ]
    else (throw (wallet_error e), p)

-- `markLocalRefunded`
pub mark_local_refunded : Context → String → Page → Page
mark_local_refunded ctx tx_id p = record p {
  storage =
      if truthy ctx.league_id
      then remove_item (pending_refund_tx_key (league_of ctx)) p.storage
      else p.storage;
  pending_refund_tx_id = none;
  detail = mark_detail refunded ctx.user_id tx_id p.detail;
}

pub keep_pending : Context → String → Page → Page
keep_pending ctx tx_id p = record p {
  storage =
      if truthy ctx.league_id
      then set_item (pending_refund_tx_key (league_of ctx)) tx_id p.storage
      else p.storage;
  pending_refund_tx_id = some tx_id;
}

-- The transaction in the wallet.
unfoldable pub send : Context → HederaStrategy → WalletState → String → World → Action Page String
unfolding refund_failure
send ctx strategy wallet_state contract_id w = do
  modify (λ p. record p { refund_stage = some "Sending refund transaction in HashPack…" })
  try_catch
      (call_wallet (claim_refund_usdc strategy w.sdk (league_of ctx) contract_id wallet_state))
      (refund_failure w)

pub confirm : Context → World → String → Action Page (Unit {0})
unfolding mark_local_refunded
confirm ctx w tx_id = do
  confirm_with_retry refund (league_of ctx) tx_id w.confirmation
  modify (mark_local_refunded ctx tx_id)
  modify (λ p. record p { refund_stage = none })

pub refund_steps : Context → HederaStrategy → WalletState → String → World → Action Page (Unit {0})
unfolding keep_pending
refund_steps ctx strategy wallet_state contract_id w = do
  tx_id ← send ctx strategy wallet_state contract_id w
  modify (keep_pending ctx tx_id)
  confirm ctx w tx_id

pub guarded : String → Action Page (Unit {0}) → Page → Page
guarded fallback steps p =
    (finally
      (try_catch steps (λ e.
        modify
          (λ q. record q { refund_error = some (message_or fallback e); refund_stage = none })))
      (λ q. record q { refund_loading = false })
      (record p { refund_loading = true; refund_stage = none; refund_error = none })).1

-- With a session: the wallet must be connected and be one of Hedera, and the contract be known.
pub claim_with : Context → Option WalletState → Option ActiveStrategy → World → Page → Page
unfolding guarded
claim_with ctx (some wallet_state) (some (hedera_strategy strategy)) w p =
    if truthy w.contract_id
    then guarded "Refund failed"
        (refund_steps ctx strategy wallet_state (or_default w.contract_id "") w) p
    else record p { refund_error = some "Contract ID not configured" }
claim_with ctx (some wallet_state) (some other_strategy) w p = record p {
  refund_error = some "Only Hedera wallets are supported for USDC refunds";
}
claim_with ctx _ _ w p = record p {
  refund_error = some "Wallet not connected. Please reconnect your wallet.";
}

unfoldable pub handle_claim_refund : Context → World → Page → Page
unfolding claim_with
handle_claim_refund ctx w p =
    if has_session ctx then claim_with ctx ctx.wallet_state ctx.active_strategy w p else p

unfoldable pub handle_retry_refund_confirm : Context → World → Page → Page
unfolding guarded
handle_retry_refund_confirm ctx w p =
    if has_session ctx && truthy p.pending_refund_tx_id
    then guarded "Confirmation failed" (confirm ctx w (or_default p.pending_refund_tx_id "")) p
    else p

unfoldable pub handle_dismiss_pending_refund : Context → Page → Page
handle_dismiss_pending_refund ctx p = record p {
  storage =
      if truthy ctx.league_id
      then remove_item (pending_refund_tx_key (league_of ctx)) p.storage
      else p.storage;
  pending_refund_tx_id = none;
  refund_error = none;
}
