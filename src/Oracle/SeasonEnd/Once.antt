-- ===== src/Oracle/SeasonEnd/Once.antt =====
-- No league is paid out twice.
use wagr.Common.{
  ℕ, suc, ◌≤◌, String, Option, Bool, true, false, [], length, ◌≡◌, refl, sym, ◌∙◌, Bool-cases,
  Option-cases, inl, inr, arith,
}
use wagr.Evm.{set}
use wagr.Oracle.SeasonEnd.{
  World, OracleLeague, Stage, starts, settles_unpaid, claims, sends, marks_failed, marks_executed,
  ended, plan,
}
use wagr.Oracle.SeasonEnd.Runs.{
  Ledger, System, Step, goes_on, dies, is_rewritten, Reached, begins, later, advance, opened,
  is_pending,
}

-- A run that has won the claim, and one that has not sent yet.
abbrev pub holds : Stage → Bool
holds (sends league resolved) = true
holds (marks_failed e) = true
holds (marks_executed resolved tx_hash) = true
holds _ = false

abbrev pub is_sending : Stage → Bool
is_sending (sends league resolved) = true
is_sending _ = false

pub record AtMostOnce (s : System) : Type 0 where
  pub once : length s.ledger.sent ≤ 1
  pub unsent : is_pending s.ledger.payout_status ≡ true → s.ledger.sent ≡ []
  pub unclaimed : is_pending s.ledger.payout_status ≡ true → (i : ℕ) → holds (s.runs i) ≡ false
  pub alone : (i j : ℕ) → holds (s.runs i) ≡ true → holds (s.runs j) ≡ true → i ≡ j
  pub sending : (i : ℕ) → is_sending (s.runs i) ≡ true → s.ledger.sent ≡ []

-- What a run's step does to the claim.
data Moves (stage : Stage) (l : Ledger) (stage' : Stage) (l' : Ledger) : Type 0 where
  quiet :
      l'.sent ≡ l.sent
      → (is_pending l'.payout_status ≡ true → is_pending l.payout_status ≡ true)
      → (holds stage' ≡ true → holds stage ≡ true)
      → is_sending stage' ≡ false
      → Moves stage l stage' l'
  wins :
      is_pending l.payout_status ≡ true
      → is_pending l'.payout_status ≡ false
      → l'.sent ≡ l.sent
      → Moves stage l stage' l'
  pays :
      is_sending stage ≡ true
      → is_pending l'.payout_status ≡ is_pending l.payout_status
      → length l'.sent ≡ suc (length l.sent)
      → is_sending stage' ≡ false
      → Moves stage l stage' l'

plan-holds : (w : World) (league : OracleLeague) → holds (plan w league) ≡ false
unfolding plan
plan-holds w league = ground arith

plan-is_sending : (w : World) (league : OracleLeague) → is_sending (plan w league) ≡ false
unfolding plan
plan-is_sending w league = ground arith

advance-Moves :
    (w : World) (league : OracleLeague) (stage : Stage) (l : Ledger)
    → Moves stage l (advance w league stage l).0 (advance w league stage l).1
unfolding advance
advance-Moves w league starts l =
    quiet refl (λ p. p) (λ h. absurd (ground (arith, plan-holds w league, h)))
      (plan-is_sending w league)
advance-Moves w league settles_unpaid l =
    quiet (ground arith) (λ p. ground (arith, p)) (λ h. ground (arith, h)) (ground arith)
advance-Moves w league (claims id resolved) l = elim (Option-cases w.write_fails) [
  | inr (e, failed) ↦ rw failed (quiet refl (λ p. p) (λ h. cc) refl)
  | inl wrote ↦ elim (Bool-cases (is_pending l.payout_status)) [
    | inl free ↦ rw (wrote, free) (wins free refl refl)
    | inr taken ↦ rw (wrote, taken) (quiet refl (λ p. p) (λ h. cc) refl)
  ]
]
advance-Moves w league (sends id resolved) l = pays refl refl refl (ground arith)
advance-Moves w league (marks_failed e) l =
    quiet (ground arith) (λ p. ground (arith, p)) (λ h. refl) (ground arith)
advance-Moves w league (marks_executed resolved tx_hash) l =
    quiet (ground arith) (λ p. ground (arith, p)) (λ h. refl) (ground arith)
advance-Moves w league (ended r) l = quiet refl (λ p. p) (λ h. h) refl

holding : (stage : Stage) → is_sending stage ≡ true → holds stage ≡ true
holding stage h = ground arith

-- A run that is changed at its place.
changed :
    (s : System) (i : ℕ) (stage' : Stage) (l' : Ledger)
    → AtMostOnce s
    → Moves (s.runs i) s.ledger stage' l'
    → AtMostOnce (record { ledger = l'; runs = set i stage' s.runs })
changed s i stage' l' h (quiet same still held idle) = record {
  once = ground (arith, h.once, same);
  unsent = λ p. same ∙ h.unsent (still p);
  unclaimed = λ p j. ground (arith, h.unclaimed (still p) i, h.unclaimed (still p) j, held);
  alone = λ j k hj hk. ground (arith, h.alone j k, h.alone i k, h.alone j i, held, hj, hk);
  sending = λ j hj. ground (arith, h.sending j, hj, same, idle);
}
changed s i stage' l' h (wins free taken same) = record {
  once = ground (arith, h.once, same);
  unsent = λ p. cc;
  unclaimed = λ p j. cc;
  alone = λ j k hj hk. ground (arith, h.unclaimed free j, h.unclaimed free k, hj, hk);
  sending = λ j hj. same ∙ h.unsent free;
}
changed s i stage' l' h (pays sent still more idle) =
    let mine : holds (s.runs i) ≡ true = holding (s.runs i) sent in
    let taken : is_pending l'.payout_status ≡ true → ⊥ =
      λ p. let free = h.unclaimed (sym still ∙ p) i in cc in
    record {
      once = ground (arith, h.sending i sent, more);
      unsent = λ p. absurd (taken p);
      unclaimed = λ p j. absurd (taken p);
      alone = λ j k hj hk. ground (arith, h.alone j k, h.alone i k, h.alone j i, hj, hk, mine);
      sending = λ j hj. absurd (ground (arith, holding (s.runs j), h.alone j i, hj, mine, idle));
    }

Step-AtMostOnce : {s t : System} → AtMostOnce s → Step s t → AtMostOnce t
Step-AtMostOnce {s} h (goes_on i w league e) =
    rw e (changed s i _ _ h (advance-Moves w league (s.runs i) s.ledger))
Step-AtMostOnce {s} h (dies i r e) =
    rw e (changed s i (ended r) s.ledger h (quiet refl (λ p. p) (λ k. cc) refl))
Step-AtMostOnce {s} h (is_rewritten status e) = rw e (record {
  once = h.once;
  unsent = h.unsent;
  unclaimed = h.unclaimed;
  alone = h.alone;
  sending = h.sending;
})

opened-AtMostOnce : (status : Option String) → AtMostOnce (opened status)
opened-AtMostOnce status = record {
  once = omega arith;
  unsent = λ p. refl;
  unclaimed = λ p i. refl;
  alone = λ i j hi hj. cc;
  sending = λ i hi. cc;
}

-- However many runs there are for a league that is pending, however their steps interleave, whichever
-- of them die on the way, whatever the outside answers and whatever else writes the league’s status: the
-- contract is called at most once, at most one run holds the claim, and no call has been made as long
-- as the row is pending.
pub Reached-AtMostOnce : {s : System} → Reached s → AtMostOnce s
Reached-AtMostOnce (begins status) = opened-AtMostOnce status
Reached-AtMostOnce (later r step) = Step-AtMostOnce (Reached-AtMostOnce r) step
