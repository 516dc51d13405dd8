-- ===== src/Oracle/SeasonEnd/Laws.antt =====
-- How a run of `settleSeasonEnd` ends where nothing comes between its steps.
use wagr.Common.{
  ℕ, String, none, some, Bool, true, false, List, ◌∷◌, ◌++◌, map, ◌≡◌, inl, inr, refl, arith,
}
use wagr.Go.{Error, Returned, Returned-cases, returns, fails}
use wagr.Database.{pending, executed, failed}
use wagr.Oracle.SeasonEnd.{
  World, OracleLeague, ResolvedPayout, Stage, starts, settles_unpaid, claims, sends, marks_failed,
  marks_executed, ended, plan, amount_of,
}
use wagr.Oracle.SeasonEnd.Runs.{Sent, Ledger, advance, rounds, settle_season_end}

-- What a run can come to by its reads.
abbrev is_planned : Stage → Bool
is_planned settles_unpaid = true
is_planned (claims league resolved) = true
is_planned (ended r) = true
is_planned _ = false

plan-is_planned : (w : World) (league : OracleLeague) → is_planned (plan w league) ≡ true
unfolding plan
plan-is_planned w league = ground arith

abbrev pub sent_of : List ResolvedPayout → Sent
sent_of resolved = record {
  recipients = map (λ r. r.evm_addr) resolved;
  amounts = map amount_of resolved;
}

module _ (w : World) (league : OracleLeague) (l : Ledger) where
  -- The ways in which a run ends: its result, and the row after it.
  pub data Ends (stage : Stage) (r : Returned (Unit {0})) (l' : Ledger) : Type 0 where
    unwritten : stage ≡ ended r → l' ≡ l → Ends stage r l'
    without_payout :
        stage ≡ settles_unpaid
        → r ≡ returns tt
        → l' ≡ record l { status = some "complete"; payout_status = executed }
        → Ends stage r l'
    refused :
        (id : List ℕ) (resolved : List ResolvedPayout) (e : Error)
        → stage ≡ claims id resolved
        → w.distribute id (sent_of resolved).recipients (sent_of resolved).amounts ≡ fails e
        → r ≡ fails e
        → l' ≡ record l { payout_status = failed; sent = sent_of resolved ∷ l.sent }
        → Ends stage r l'
    paid_out :
        (id : List ℕ) (resolved : List ResolvedPayout) (tx_hash : String)
        → stage ≡ claims id resolved
        → w.distribute id (sent_of resolved).recipients (sent_of resolved).amounts ≡ returns tx_hash
        → r ≡ returns tt
        → l' ≡ record l {
          status = some "complete";
          payout_status = executed;
          payout_tx_hash = some tx_hash;
          sent = sent_of resolved ∷ l.sent;
          recorded = resolved ++ l.recorded;
        }
        → Ends stage r l'

  rounds-Ends :
      (stage : Stage)
      → is_planned stage ≡ true
      → w.write_fails ≡ none
      → l.payout_status ≡ pending
      → let (last, l') = rounds 3 w league (stage, l) in
        (r : Returned (Unit {0})) × (last ≡ ended r) × Ends stage r l'
  unfolding advance
  rounds-Ends starts p wrote free = cc
  rounds-Ends (sends id resolved) p wrote free = cc
  rounds-Ends (marks_failed e) p wrote free = cc
  rounds-Ends (marks_executed resolved tx_hash) p wrote free = cc
  rounds-Ends (ended r) p wrote free = (r, refl, unwritten refl refl)
  rounds-Ends settles_unpaid p wrote free =
      (returns tt, rw wrote refl, rw wrote (without_payout refl refl (rw free refl)))
  rounds-Ends (claims id resolved) p wrote free =
      elim (Returned-cases
        (w.distribute id (sent_of resolved).recipients (sent_of resolved).amounts)) [
          | inl (e, refused') ↦ (
            fails e,
            ground (arith, wrote, free, refused'),
            refused id resolved e refl refused' refl (ground (arith, wrote, free, refused')),
          )
          | inr (tx_hash, answered) ↦ (
            returns tt,
            ground (arith, wrote, free, answered),
            paid_out id resolved tx_hash refl answered refl (ground (arith, wrote, free, answered)),
          )
        ]

  -- A run for a league that is pending, where the database takes its writes, ends. By its reads it has
  -- either nothing to do, or fails, and leaves the row as it was; or it has nobody to pay, and marks the
  -- league as complete and executed; or it has payouts to send. Then either the contract’s call fails,
  -- and the league is marked as failed and keeps its status; or it goes through, and the league is
  -- complete and executed with the call’s transaction.
  pub settle_season_end-Ends :
      w.write_fails ≡ none
      → l.payout_status ≡ pending
      → let (last, l') = settle_season_end w league l in
        (r : Returned (Unit {0})) × (last ≡ ended r) × Ends (plan w league) r l'
  unfolding settle_season_end advance
  settle_season_end-Ends wrote free =
      rounds-Ends (plan w league) (plan-is_planned w league) wrote free
