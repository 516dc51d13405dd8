-- ===== src/Oracle/SeasonEnd/Funded.antt =====
-- That the contract performs the payouts that a run has claimed.
use wagr.Common.{
  All, All-map, true, ℕ, ◌+◌, ◌<◌, ◌^◌, false, inl, inr, List, [], ◌∷◌, map, length, length-map,
  ◌≡◌, ◌≢◌, refl, sym, ◌∙◌, ap, arith,
}
use wagr.Common.Int.{ℤ, pos, ltb_ℤ, ◌+ℤ◌}
use wagr.Go.{Returned, Returned-cases, returns, fails, int64-pos, add64}
use wagr.Evm.{done, uint256_limit}
use wagr.Escrow.{Escrow, Chain, distribute_payout, execute}
use wagr.Escrow.Calls.{sum}
use wagr.Escrow.Payouts.{share, balance, distribute_payout_done}
use wagr.Escrow.Reached.{Reached}
use wagr.Escrow.Token.{Erc20, IsErc20}
use wagr.Hedera.Encoding.Words.{word_from}
use wagr.Service.Encoding.{uuid_to_bytes32}
use wagr.Oracle.SeasonEnd.{
  World, OracleLeague, PayoutEntry, ResolvedPayout, claims, plan, plan_with, placements, resolve,
  check_resolved, check_league, check_balance, amount_of, total_of,
}

-- What has been checked of payouts that a run claims.
pub record IsCovered (w : World) (id : List ℕ) (resolved : List ResolvedPayout) : Type 0 where
  pub balance : ℤ
  pub answered : w.escrow_balance id ≡ returns balance
  pub enough : ltb_ℤ balance (total_of (pos 0) (map amount_of resolved)) ≡ false

check_balance-IsCovered :
    (w : World) (league id : List ℕ) (rs resolved : List ResolvedPayout) (answer : Returned ℤ)
    → w.escrow_balance league ≡ answer
    → check_balance league rs answer ≡ claims id resolved
    → IsCovered w id resolved
check_balance-IsCovered w league id rs resolved (fails e) a h = cc
check_balance-IsCovered w league id rs resolved (returns b) a h =
    let same_league : league ≡ id = ground (arith, h) in
    let same : rs ≡ resolved = ground (arith, h) in
    record {
      balance = b;
      answered = rw (← same_league) a;
      enough = rw (← same) (ground (arith, h));
    }

check_league-IsCovered :
    (w : World) (rs resolved : List ResolvedPayout) (id : List ℕ) (bytes : Returned (List ℕ))
    → check_league w rs bytes ≡ claims id resolved
    → IsCovered w id resolved
check_league-IsCovered w rs resolved id (fails e) h = cc
check_league-IsCovered w rs resolved id (returns league) h =
    check_balance-IsCovered w league id rs resolved (w.escrow_balance league) refl h

check_resolved-IsCovered :
    (w : World) (league : OracleLeague) (rs resolved : List ResolvedPayout) (id : List ℕ)
    → check_resolved w league rs ≡ claims id resolved
    → IsCovered w id resolved
check_resolved-IsCovered w league [] resolved id h = cc
check_resolved-IsCovered w league (r ∷ rs) resolved id h =
    check_league-IsCovered w (r ∷ rs) resolved id (uuid_to_bytes32 league.id) h

plan_with-IsCovered :
    (w : World) (league : OracleLeague) (entries : List PayoutEntry)
    (resolved : List ResolvedPayout) (id : List ℕ)
    → plan_with w league entries ≡ claims id resolved
    → IsCovered w id resolved
plan_with-IsCovered w league [] resolved id h = cc
plan_with-IsCovered w league (e ∷ entries) resolved id h = elim (Returned-cases w.final_standings) [
  | inl (err, failed) ↦ absurd (ground (arith, h, failed))
  | inr (standings, ranked) ↦ elim (Returned-cases w.members) [
    | inl (err, failed) ↦ absurd (ground (arith, h, ranked, failed))
    | inr (members, loaded) ↦
        check_resolved-IsCovered w league (resolve w (e ∷ entries) members standings) resolved id
          (ground (arith, h, ranked, loaded))
  ]
]

plan-IsCovered :
    (w : World) (league : OracleLeague) (resolved : List ResolvedPayout) (id : List ℕ)
    → plan w league ≡ claims id resolved
    → IsCovered w id resolved
unfolding plan
plan-IsCovered w league resolved id h =
    plan_with-IsCovered w league (placements league.payout_structure) resolved id
      (ground (arith, h))

-- With amounts in range, the total that is checked is the sum.
total_of-sum :
    (before : ℕ) (ns : List ℕ)
    → before + sum ns < 2 ^ 63
    → total_of (pos before) (map pos ns) ≡ pos (before + sum ns)
unfolding ◌+ℤ◌
total_of-sum before [] h = ground arith
total_of-sum before (n ∷ ns) h =
    let step : add64 (pos before) (pos n) ≡ pos (before + n) =
      ground (arith, int64-pos (before + n) (omega arith)) in
    ap (λ t. total_of t (map pos ns)) step
    ∙ total_of-sum (before + n) ns (omega arith)
    ∙ ap pos (omega arith)

module _ {T : Type 0} (erc20 : Erc20 T) (escrow : Escrow) where
  -- The payouts that a run has claimed for a league go through at the contract, if the balance that the
  -- run has read is the contract’s total for the league. The total is lowered by the amounts, and each
  -- recipient has received all the amounts meant for it. The amounts are not negative and their sum is in the
  -- range of `int64`; the token keeps the standard, each recipient is associated with it, the state is
  -- one that the contract can reach, and
  -- the balances stay in range.
  pub plan-performed :
      (laws : IsErc20 erc20) (w : World) (league : OracleLeague) (id : List ℕ)
      (resolved : List ResolvedPayout) (amounts : List ℕ) (c : Chain T)
      → plan w league ≡ claims id resolved
      → map amount_of resolved ≡ map pos amounts
      → sum amounts < 2 ^ 63
      → w.escrow_balance id ≡ returns (pos (c.league_totals (word_from 0 id)))
      → Reached erc20 escrow c
      → All (λ r. erc20.receives escrow.usdc r.evm_addr c.tokens ≡ true) resolved
      → ((holder : ℕ)
          → balance erc20 escrow holder c + c.league_totals (word_from 0 id) < uint256_limit)
      → let recipients = map (λ r. r.evm_addr) resolved in
        (c' : Chain T) × (execute erc20 escrow escrow.owner
            (distribute_payout (word_from 0 id) recipients amounts)
            c
          ≡ done c')
        × (c'.league_totals (word_from 0 id) + sum amounts ≡ c.league_totals (word_from 0 id))
        × ((holder : ℕ)
            → holder ≢ escrow.self
            → balance erc20 escrow holder c'
              ≡ balance erc20 escrow holder c + share holder recipients amounts)
  plan-performed laws w league id resolved amounts c planned paid small read r known room =
      let covered = plan-IsCovered w league resolved id planned in
      let balance' : covered.balance ≡ pos (c.league_totals (word_from 0 id)) =
        ground (arith, covered.answered, read) in
      let enough = rw (balance', paid, total_of-sum 0 amounts (omega arith)) at covered.enough in
      let same : length (map (λ (p : ResolvedPayout). p.evm_addr) resolved) ≡ length amounts =
        length-map _ resolved
        ∙ sym (length-map amount_of resolved)
        ∙ ap length paid
        ∙ length-map pos amounts in
      distribute_payout_done erc20 escrow laws (word_from 0 id) (map (λ p. p.evm_addr) resolved)
        amounts c r same (ground (arith, enough))
        (All-map _ (λ (p : ResolvedPayout). p.evm_addr) resolved known) room
