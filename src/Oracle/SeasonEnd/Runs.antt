-- ===== src/Oracle/SeasonEnd/Runs.antt =====
-- Runs of `settleSeasonEnd` for one league over its row, one after the other or at the same time.
use wagr.Common.{
  ℕ, zero, suc, String, Option, none, some, Bool, true, false, List, [], ◌∷◌, map, ◌≡◌, ◌++◌,
  if◌then◌else◌,
}
use wagr.Common.Int.{ℤ}
use wagr.Go.{other, Returned, returns, fails}
use wagr.Evm.{set}
use wagr.Database.{PayoutStatus, pending, executing, executed, failed}
use wagr.Oracle.SeasonEnd.{
  OracleLeague, World, ResolvedPayout, amount_of, Stage, starts, settles_unpaid, claims, sends,
  marks_failed, marks_executed, ended, plan,
}

-- One call of `distribute`.
pub record Sent : Type 0 where
  pub recipients : List ℕ
  pub amounts : List ℤ

-- The columns of the league's row that a run writes, the calls of the contract, newest first, and what
-- was recorded with the members.
pub record Ledger : Type 0 where
  pub status : Option String
  pub payout_status : PayoutStatus
  pub payout_tx_hash : Option String
  pub sent : List Sent
  pub recorded : List ResolvedPayout

abbrev pub is_pending : PayoutStatus → Bool
is_pending pending = true
is_pending _ = false

abbrev pub is_executing : PayoutStatus → Bool
is_executing executing = true
is_executing _ = false

-- `markSettledWithoutPayout`, `claimPayout`, `markPayoutFailed` and `markPayoutExecuted`: each writes
-- where the row has the status that its condition names.
abbrev pub mark_settled_without_payout : Ledger → Ledger
mark_settled_without_payout l =
    if is_pending l.payout_status
    then record l { status = some "complete"; payout_status = executed }
    else l

abbrev pub mark_payout_failed : Ledger → Ledger
mark_payout_failed l =
    if is_executing l.payout_status then record l { payout_status = failed } else l

-- What follows the claim, if it was won.
abbrev pub claim_payout : List ℕ → List ResolvedPayout → Ledger → Stage × Ledger
claim_payout league resolved l =
    if is_pending l.payout_status
    then (sends league resolved, record l { payout_status = executing })
    else (ended (returns tt), l)

-- Each member's record is a write of its own, whose failure is only logged.
abbrev pub mark_payout_executed : List ResolvedPayout → String → Ledger → Stage × Ledger
mark_payout_executed resolved tx_hash l =
    if is_executing l.payout_status
    then (
      ended (returns tt),
      record l {
        status = some "complete";
        payout_status = executed;
        payout_tx_hash = some tx_hash;
        recorded = resolved ++ l.recorded;
      },
    )
    else (ended (fails (other "league was not in 'executing'")), l)

abbrev pub distribute : World → List ℕ → List ResolvedPayout → Ledger → Stage × Ledger
distribute w league resolved l =
    let recipients = map (λ r. r.evm_addr) resolved in
    let amounts = map amount_of resolved in
    (
      elim (w.distribute league recipients amounts) [
        | fails e ↦ marks_failed e
        | returns tx_hash ↦ marks_executed resolved tx_hash
      ],
      record l { sent = record { recipients = recipients; amounts = amounts } ∷ l.sent },
    )

-- A write that the database refuses leaves the row as it was. After a failed call of the contract the
-- run ends with the call's error, whether or not the row could be marked.
unfoldable pub advance : World → OracleLeague → Stage → Ledger → Stage × Ledger
advance w league starts l = (plan w league, l)
advance w league settles_unpaid l = elim w.write_fails [
  | some e ↦ (ended (fails e), l)
  | none ↦ (ended (returns tt), mark_settled_without_payout l)
]
advance w league (claims id resolved) l = elim w.write_fails [
  | some e ↦ (ended (fails e), l)
  | none ↦ claim_payout id resolved l
]
advance w league (sends id resolved) l = distribute w id resolved l
advance w league (marks_failed e) l = elim w.write_fails [
  | some _ ↦ (ended (fails e), l)
  | none ↦ (ended (fails e), mark_payout_failed l)
]
advance w league (marks_executed resolved tx_hash) l = elim w.write_fails [
  | some e ↦ (ended (fails e), l)
  | none ↦ mark_payout_executed resolved tx_hash l
]
advance w league (ended r) l = (ended r, l)

-- A run with nothing in between: the reads, the claim, the call and the mark.
abbrev pub rounds : ℕ → World → OracleLeague → Stage × Ledger → Stage × Ledger
rounds zero w league (stage, l) = (stage, l)
rounds (suc n) w league (stage, l) = rounds n w league (advance w league stage l)

unfoldable pub settle_season_end : World → OracleLeague → Ledger → Stage × Ledger
unfolding advance
settle_season_end w league l = rounds 4 w league (starts, l)

-- Any number of runs over one row.
pub record System : Type 0 where
  pub ledger : Ledger
  pub runs : ℕ → Stage

-- A run goes on, or it dies; and the other jobs and imports write the status.
pub data Step (s t : System) : Type 0 where
  goes_on :
      (i : ℕ) (w : World) (league : OracleLeague)
      → t ≡ record {
        ledger = (advance w league (s.runs i) s.ledger).1;
        runs = set i (advance w league (s.runs i) s.ledger).0 s.runs;
      }
      → Step s t
  dies :
      (i : ℕ) (r : Returned (Unit {0})) → t ≡ record s { runs = set i (ended r) s.runs } → Step s t
  is_rewritten :
      (status : Option String)
      → t ≡ record s { ledger = record s.ledger { status = status } }
      → Step s t

abbrev pub opened : Option String → System
opened status = record {
  ledger = record {
    status = status;
    payout_status = pending;
    payout_tx_hash = none;
    sent = [];
    recorded = [];
  };
  runs = λ i. starts;
}

pub data Reached : System → Type 0 where
  begins : (status : Option String) → Reached (opened status)
  later : {s t : System} → Reached s → Step s t → Reached t
