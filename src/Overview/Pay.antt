-- ===== src/Overview/Pay.antt =====
-- The payment of the entry fee: `handlePay` and `handleRetryConfirm`.
pub mod Laws
pub mod InSync
pub mod Submitted
use Prim.Native.String.{◌++◌}
use wagr.Common.{
  ℕ, String, Option, none, some, Bool, true, false, ◌||◌, ◌&&◌, ◌==◌, if◌then◌else◌, or_default,
  truthy,
}
use wagr.Js.Effects.{
  Thrown, message_or, message_of, Result, ok, throw, Response, Action, pure, raise, await, raise_if,
  try_catch, finally, modify, refuse_with_text, ◌>>=◌, ◌>>◌,
}
use wagr.Js.Number.{show}
use wagr.Js.Storage.{set_item, remove_item}
use wagr.Js.Text.{includes_lower}
use wagr.Types.League.{PaymentInstructions, paid}
use wagr.Types.Wallet.{WalletState}
use wagr.Hedera.{HederaStrategy, Sdk, PayParams, pay_entry_fee_usdc}
use wagr.Overview.{
  Page, Context, ActiveStrategy, hedera_strategy, other_strategy, has_session, league_of,
  pending_tx_key, fetch, call_wallet, mark_detail,
}
use wagr.Overview.Confirm.{Poll, payment, confirm_with_retry}

-- What the outside answers while a payment runs.
pub record World : Type 0 where
  pub instructions : Result (Response PaymentInstructions)
  pub sdk : Sdk
  pub confirmation : ℕ → Result (Response (Unit {0}))

-- Whether the user has turned the transaction down in the wallet.
unfoldable pub is_rejection : Thrown → Bool
is_rejection e = includes_lower "reject" (message_of e) || includes_lower "cancel" (message_of e)

abbrev pub wallet_error : Thrown → Thrown
wallet_error e = Thrown.error ("HashPack transaction failed: " ++ message_of e)

-- What a failed wallet call is reported as.
unfoldable pub wallet_failure : Thrown → Thrown
unfolding is_rejection
wallet_failure e =
    if is_rejection e then Thrown.error "Transaction rejected in HashPack" else wallet_error e

-- `markLocalPaid`
pub mark_local_paid : Context → String → Page → Page
mark_local_paid ctx tx_id p = record p {
  storage =
      if truthy ctx.league_id
      then remove_item (pending_tx_key (league_of ctx)) p.storage
      else p.storage;
  pending_tx_id = none;
  detail = mark_detail paid ctx.user_id tx_id p.detail;
}

-- `localStorage.setItem(pendingTxKey, transactionId)` and `setPendingTxId(transactionId)`.
pub keep_pending : Context → String → Page → Page
keep_pending ctx tx_id p = record p {
  storage =
      if truthy ctx.league_id
      then set_item (pending_tx_key (league_of ctx)) tx_id p.storage
      else p.storage;
  pending_tx_id = some tx_id;
}

-- The first two steps: the instructions, and the transaction in the wallet.
unfoldable pub send : Context → HederaStrategy → WalletState → World → Action Page String
unfolding wallet_failure
send ctx strategy wallet_state w = do
  modify (λ p. record p { pay_stage = some "Fetching payment details…" })
  res ← fetch "POST" ("/api/leagues/" ++ (league_of ctx ++ "/pay")) none w.instructions
  raise_if (res.status == 409) (Thrown.error "Entry fee already paid")
  await (refuse_with_text ("Failed to initiate payment (" ++ (show res.status ++ ")")) res)
  instructions ← await res.json
  modify (λ p. record p {
    pay_stage = some ("Approving " ++ (instructions.amount_formatted ++ " in HashPack…"));
  })
  try_catch
      (call_wallet (
        pay_entry_fee_usdc strategy w.sdk (record {
          league_id = league_of ctx;
          amount_usdc = instructions.amount_usdc;
          contract_id = instructions.contract_id;
          usdc_token_id = instructions.usdc_token_id;
          wallet_state = wallet_state;
        })))
      (λ e. raise (wallet_failure e))

-- The third step, which `handleRetryConfirm` runs alone.
pub confirm : Context → World → String → Action Page (Unit {0})
unfolding mark_local_paid
confirm ctx w tx_id = do
  confirm_with_retry payment (league_of ctx) tx_id w.confirmation
  modify (mark_local_paid ctx tx_id)
  modify (λ p. record p { pay_stage = none })

pub pay_steps : Context → HederaStrategy → WalletState → World → Action Page (Unit {0})
unfolding keep_pending
pay_steps ctx strategy wallet_state w = do
  tx_id ← send ctx strategy wallet_state w
  modify (keep_pending ctx tx_id)
  confirm ctx w tx_id

-- The frame of both handlers: the flags before, `catch` and `finally`.
pub guarded : String → Action Page (Unit {0}) → Page → Page
guarded fallback steps p =
    (finally
      (try_catch steps (λ e.
        modify (λ q. record q { pay_error = some (message_or fallback e); pay_stage = none })))
      (λ q. record q { pay_loading = false })
      (record p { pay_loading = true; pay_stage = none; pay_error = none })).1

-- With a session: the wallet must be connected, and be one of Hedera.
pub pay_with : Context → Option WalletState → Option ActiveStrategy → World → Page → Page
unfolding guarded
pay_with ctx (some wallet_state) (some (hedera_strategy strategy)) w p =
    guarded "Payment failed" (pay_steps ctx strategy wallet_state w) p
pay_with ctx (some wallet_state) (some other_strategy) w p = record p {
  pay_error = some "Only Hedera wallets are supported for USDC payments";
}
pay_with ctx _ _ w p = record p {
  pay_error = some "Wallet not connected. Please reconnect your wallet.";
}

unfoldable pub handle_pay : Context → World → Page → Page
unfolding pay_with
handle_pay ctx w p =
    if has_session ctx then pay_with ctx ctx.wallet_state ctx.active_strategy w p else p

unfoldable pub handle_retry_confirm : Context → World → Page → Page
unfolding guarded
handle_retry_confirm ctx w p =
    if has_session ctx && truthy p.pending_tx_id
    then guarded "Confirmation failed" (confirm ctx w (or_default p.pending_tx_id "")) p
    else p
