-- ===== src/Oracle/Weekly.antt =====
-- The weekly bonuses of src/internal/league/service_oracle.go: `processWeeklyPayoutsForLeague`, for one
-- league. Of an event, the columns that are read are kept; its identifier is drawn from a counter.
pub mod Qualifiers
pub mod Insertion
pub mod Recording
pub mod Wallets
pub mod Marks
pub mod Once
use wagr.Common.{
  ◌++◌, ℕ, zero, suc, ◌+◌, String, Option, none, some, Bool, true, false, not, ◌&&◌, List, [], ◌∷◌,
  map, push, any, keep_if, ◌===◌, ◌==◌, truthy_text, if◌then◌else◌,
}
use wagr.Common.Int.{ℤ, pos, ltb_ℤ}
use wagr.Go.{Error, insufficient_escrow, Returned, returns, fails, mul64}
use wagr.Hedera.Encoding.Words.{word_from}
use wagr.Service.Encoding.{uuid_to_bytes32}
use wagr.Service.Mirror.{
  encode_league_totals_call, Mirror, get_account_evm_address, hedera_account_to_evm,
  read_contract_payment,
}
use wagr.Oracle.SeasonEnd.{PayoutEntry, OracleLeague, Member, find_last, total_of}
use wagr.Oracle.SeasonEnd.Runs.{Sent}
use wagr.Oracle.Weekly.Qualifiers.{Matchup, active, weekly_qualifiers}

-- `weekly_payout_events`, of one league.
pub record Event : Type 0 where
  pub id : ℕ
  pub week : ℕ
  pub roster_id : ℕ
  pub payout_type : String
  pub amount_cents : ℤ
  pub wallet_address : String
  pub tx_hash : Option String
  pub is_executed : Bool

-- The table, the next identifier, and the calls of the contract, newest first.
pub record Table : Type 0 where
  pub events : List Event
  pub next_id : ℕ
  pub sent : List Sent

-- What the platform, the mirror node, the contract and the database answer to one run.
pub record World : Type 0 where
  pub matchups : Returned (List Matchup)
  pub members : Returned (List Member)
  pub insert_fails : (roster_id : ℕ) → (payout_type : String) → Option Error
  pub load_fails : Option Error
  pub mirror : Mirror
  pub escrow_contract_id : String
  pub distribute : (league : List ℕ) (recipients : List ℕ) (amounts : List ℤ) → Returned String
  pub mark_fails : ℕ → Bool

-- A run over the table: its result, and the table after it.
abbrev pub Run : Type 0
Run = Table → Returned (Unit {0}) × Table

abbrev pub and_then : Returned (Unit {0}) × Table → Run → Returned (Unit {0}) × Table
and_then (fails e, t) f = (fails e, t)
and_then (returns _, t) f = f t

-- The key of an event in the table, which is unique.
abbrev pub is_key : (week roster_id : ℕ) → String → Event → Bool
is_key week roster_id payout_type ev =
    ev.week == week && (ev.roster_id == roster_id && ev.payout_type === payout_type)

-- The row that is inserted.
abbrev pub fresh_event :
    (week : ℕ) → PayoutEntry → Matchup → (wallet_address : String) → Table → Event
fresh_event week entry m wallet_address t = record {
  id = t.next_id;
  week = week;
  roster_id = m.roster_id;
  payout_type = entry.bonus_type;
  amount_cents = entry.amount_cents;
  wallet_address = wallet_address;
  tx_hash = none;
  is_executed = false;
}

-- `INSERT … ON CONFLICT … DO NOTHING`
unfoldable pub insert_event :
    World → (week : ℕ) → PayoutEntry → Matchup → (wallet_address : String) → Run
insert_event w week entry m wallet_address t = elim (w.insert_fails m.roster_id entry.bonus_type) [
  | some e ↦ (fails e, t)
  | none ↦ if any (is_key week m.roster_id entry.bonus_type) t.events then (returns tt, t) else (
    returns tt,
    record t {
      events = push t.events (fresh_event week entry m wallet_address t);
      next_id = t.next_id + 1;
    },
  )
]

-- One round of the inner loop over the qualifiers.
unfoldable pub record_one : World → List Member → (week : ℕ) → PayoutEntry → Matchup → Run
unfolding insert_event
record_one w members week entry m t = elim (find_last (λ mb. mb.roster_id == m.roster_id) members) [
  | none ↦ (returns tt, t)
  | some member ↦
      if truthy_text member.wallet_address
      then insert_event w week entry m member.wallet_address t
      else (returns tt, t)
]

unfoldable pub record_qualifiers :
    World → List Member → (week : ℕ) → PayoutEntry → List Matchup → Run
unfolding record_one
record_qualifiers w members week entry [] t = (returns tt, t)
record_qualifiers w members week entry (m ∷ qualifiers) t =
    and_then (record_one w members week entry m t)
      (record_qualifiers w members week entry qualifiers)

-- The loop over the league's weekly rules.
unfoldable pub record_entries :
    World → List Member → (week : ℕ) → List Matchup → List PayoutEntry → Run
unfolding record_qualifiers
record_entries w members week matchups [] t = (returns tt, t)
record_entries w members week matchups (entry ∷ entries) t =
    and_then (record_qualifiers w members week entry (weekly_qualifiers matchups entry) t)
      (record_entries w members week matchups entries)

-- The events that are loaded, and those of them whose wallet has an address.
abbrev pub is_due : ℕ → Event → Bool
is_due week ev = ev.week == week && not ev.is_executed

pub record ResolvedEvent : Type 0 where
  pub event_id : ℕ
  pub evm_addr : ℕ
  pub amount : ℤ

abbrev pub resolve_event : World → Event → List ResolvedEvent → List ResolvedEvent
resolve_event w ev rest = elim (get_account_evm_address w.mirror ev.wallet_address) [
  | fails e ↦ rest
  | returns addr ↦
      record {
        event_id = ev.id;
        evm_addr = word_from 0 addr;
        amount = mul64 ev.amount_cents (pos 10_000);
      }
      ∷ rest
]

unfoldable pub resolve_events : World → List Event → List ResolvedEvent
resolve_events w [] = []
resolve_events w (ev ∷ events) = resolve_event w ev (resolve_events w events)

-- The last loop: a mark that fails is only logged.
abbrev pub mark_event : World → (tx_hash : String) → (id : ℕ) → Event → Event
mark_event w tx_hash id ev =
    if ev.id == id && not (w.mark_fails id)
    then record ev { tx_hash = some tx_hash; is_executed = true }
    else ev

unfoldable pub mark_events :
    World → (tx_hash : String) → List ResolvedEvent → List Event → List Event
mark_events w tx_hash [] events = events
mark_events w tx_hash (r ∷ resolved) events =
    mark_events w tx_hash resolved (map (mark_event w tx_hash r.event_id) events)

abbrev pub add_call : List ResolvedEvent → Table → Table
add_call resolved t = record t {
  sent =
      record { recipients = map (λ r. r.evm_addr) resolved; amounts = map (λ r. r.amount) resolved }
      ∷ t.sent;
}

abbrev pub marked : World → List ResolvedEvent → Returned String → Run
marked w resolved (fails e) t = (fails e, t)
marked w resolved (returns tx_hash) t =
    (returns tt, record t { events = mark_events w tx_hash resolved t.events })

abbrev pub execute : World → (league : List ℕ) → List ResolvedEvent → Run
execute w league resolved t =
    marked w resolved
      (w.distribute league (map (λ r. r.evm_addr) resolved) (map (λ r. r.amount) resolved))
      (add_call resolved t)

-- From the events with an address on.
abbrev pub check_escrow : World → (league : List ℕ) → List ResolvedEvent → Returned ℤ → Run
check_escrow w league resolved (fails e) t = (fails e, t)
check_escrow w league resolved (returns balance) t =
    if ltb_ℤ balance (total_of (pos 0) (map (λ r. r.amount) resolved))
    then (fails insufficient_escrow, t)
    else execute w league resolved t

abbrev pub pay_resolved : World → (league contract : List ℕ) → List ResolvedEvent → Run
pay_resolved w league contract [] t = (returns tt, t)
pay_resolved w league contract (r ∷ resolved) t =
    check_escrow w league (r ∷ resolved)
      (read_contract_payment w.mirror contract (encode_league_totals_call w.mirror league)) t

unfoldable pub pay_events : World → OracleLeague → List Event → Run
unfolding resolve_events mark_events
pay_events w league [] t = (returns tt, t)
pay_events w league (ev ∷ events) t = elim (uuid_to_bytes32 league.id) [
  | fails e ↦ (fails e, t)
  | returns id ↦ elim (hedera_account_to_evm w.escrow_contract_id) [
    | fails e ↦ (fails e, t)
    | returns contract ↦ pay_resolved w id contract (resolve_events w (ev ∷ events)) t
  ]
]

unfoldable pub pay_due : World → OracleLeague → (week : ℕ) → Run
unfolding pay_events
pay_due w league week t = elim w.load_fails [
  | some e ↦ (fails e, t)
  | none ↦ pay_events w league (keep_if (is_due week) t.events) t
]

-- `processWeeklyPayoutsForLeague`
unfoldable pub process_weekly_payouts : World → OracleLeague → List PayoutEntry → (week : ℕ) → Run
unfolding record_entries pay_due
process_weekly_payouts w league entries week t = elim w.matchups [
  | fails e ↦ (fails e, t)
  | returns matchups ↦ elim w.members [
    | fails e ↦ (fails e, t)
    | returns members ↦
        and_then (record_entries w members week (active matchups) entries t) (pay_due w league week)
  ]
]
