-- ===== src/Overview.antt =====
-- The page src/web/src/pages/LeagueOverview.tsx: its state, and what its handlers share. A handler
-- runs from its call to its end: its buttons are disabled while it runs, and the values that its
-- closure holds are those of the state it starts in. What the server and the wallet answer is given
-- to each handler, and what it asks of them is recorded in `trace`, the latest first.
pub mod Confirm
pub mod Pay
pub mod Refund
pub mod Load
pub mod Cancel
pub mod Panel
pub mod Display
pub mod Sync
pub mod Submitted
pub mod Reload
use Prim.Native.String.{◌++◌}
use wagr.Common.{
  ℕ, String, Option, none, some, Bool, true, false, List, [], ◌∷◌, map, ◌===◌, ◌&&◌, if◌then◌else◌,
  push, truthy, or_default,
}
use wagr.Js.Effects.{Thrown, Result, ok, throw, Action, pure, modify, ◌>>=◌, ◌>>◌}
use wagr.Js.Storage.{Storage, set_item, remove_item}
use wagr.Types.League.{LeagueDetail, LeagueSettings, LeagueMember, PaymentStatus}
use wagr.Types.Wallet.{WalletState}
use wagr.Hedera.{HederaStrategy, Transaction}

-- What the page asks of the outside: a request (its method, its path, and the transaction that its
-- body names), a transaction, a pause, a look-up of a transaction at the mirror node.
pub data Effect : Type 0 where
  request : (method path : String) (transaction_id : Option String) → Effect
  transaction : Transaction → Effect
  pause : ℕ → Effect
  contract_result : List ℕ → Effect

pub record Page : Type 0 where
  pub detail : Option LeagueDetail
  pub settings : Option LeagueSettings
  pub loading : Bool
  pub error : Option String
  pub not_member : Bool
  pub pay_stage : Option String
  pub pay_error : Option String
  pub pay_loading : Bool
  pub pending_tx_id : Option String
  pub refund_stage : Option String
  pub refund_error : Option String
  pub refund_loading : Bool
  pub pending_refund_tx_id : Option String
  pub cancel_loading : Bool
  pub reactivate_loading : Bool
  pub storage : Storage
  pub trace : List Effect

-- `activeStrategy`: a Hedera strategy, or one of another class.
pub data ActiveStrategy : Type 0 where
  hedera_strategy : HederaStrategy → ActiveStrategy
  other_strategy : ActiveStrategy

-- What the page takes from its address and from the wallet's context.
pub record Context : Type 0 where
  pub league_id : Option String
  pub token : Option String
  pub user_id : Option String
  pub wallet_state : Option WalletState
  pub active_strategy : Option ActiveStrategy

-- `token && leagueId`
abbrev pub has_session : Context → Bool
has_session ctx = truthy ctx.token && truthy ctx.league_id

abbrev pub league_of : Context → String
league_of ctx = or_default ctx.league_id ""

-- `pendingTxKey` and `pendingRefundTxKey`, where there is a league.
unfoldable pub pending_tx_key : String → String
pending_tx_key league_id = "wagr_pending_tx_" ++ league_id

unfoldable pub pending_refund_tx_key : String → String
pending_refund_tx_key league_id = "wagr_pending_refund_" ++ league_id

-- The first render, with what local storage holds.
unfoldable pub initial : Context → Storage → Page
initial ctx store = record {
  detail = none;
  settings = none;
  loading = true;
  error = none;
  not_member = false;
  pay_stage = none;
  pay_error = none;
  pay_loading = false;
  pending_tx_id = if truthy ctx.league_id then store (pending_tx_key (league_of ctx)) else none;
  refund_stage = none;
  refund_error = none;
  refund_loading = false;
  pending_refund_tx_id =
      if truthy ctx.league_id then store (pending_refund_tx_key (league_of ctx)) else none;
  cancel_loading = false;
  reactivate_loading = false;
  storage = store;
  trace = [];
}

-- A request: it is recorded, and it answers.
abbrev pub fetch {ℓ} : {A : Type ℓ} → String → String → Option String → Result A → Action Page A
fetch method path transaction_id answer p =
    (answer, record p { trace = request method path transaction_id ∷ p.trace })

abbrev pub record_all : List Transaction → List Effect → List Effect
record_all [] trace = trace
record_all (tx ∷ sent) trace = record_all sent (transaction tx ∷ trace)

-- A call of the strategy: the transactions that it submits are recorded.
abbrev pub call_wallet : Action (List Transaction) String → Action Page String
call_wallet call p =
    let (result, sent) = call [] in (result, record p { trace = record_all sent p.trace })

-- `m.user_id === user?.id`, where a missing user is `undefined` and a missing owner `null`.
abbrev pub is_mine : Option String → LeagueMember → Bool
is_mine none m = false
is_mine (some id) m = elim m.user_id [ none ↦ false | some owner ↦ owner === id ]

-- The body of the `map` in `markLocalPaid` and in `markLocalRefunded`.
abbrev pub mark : PaymentStatus → Option String → String → LeagueMember → LeagueMember
mark status user_id tx_id m =
    if is_mine user_id m
    then record m { payment_status = status; transaction_hash = some tx_id }
    else m

abbrev pub mark_detail :
    PaymentStatus → Option String → String → Option LeagueDetail → Option LeagueDetail
mark_detail status user_id tx_id none = none
mark_detail status user_id tx_id (some d) =
    some (record d { members = map (mark status user_id tx_id) d.members })
