-- ===== src/Oracle/SeasonEnd/Wiring.antt =====
-- The production wiring of `settleSeasonEnd` (`seasonEndDeps` of service_oracle.go) to the mirror node:
-- the season's payouts, from the contract's own total to the contract's payouts.
use wagr.Common.{
  All, true, ℕ, ◌+◌, ◌*◌, ◌<◌, ◌^◌, String, List, [], ◌∷◌, map, ◌≡◌, ◌≢◌, refl, arith,
}
use wagr.Common.Int.{pos}
use wagr.Evm.{done, uint256_limit}
use wagr.Escrow.{Escrow, Chain, distribute_payout, execute}
use wagr.Escrow.Calls.{sum}
use wagr.Escrow.Payouts.{share, balance}
use wagr.Escrow.Reached.{Reached}
use wagr.Escrow.Token.{Erc20, IsErc20}
use wagr.Go.{returns, int64-pos, ◌>>=◌}
use wagr.Service.Payments.Laws.{times_pos}
use wagr.Hedera.Encoding.Words.{word_from}
use wagr.Oracle.SeasonEnd.{World, OracleLeague, ResolvedPayout, claims, plan, amount_of}
use wagr.Oracle.SeasonEnd.Funded.{plan-performed}
use wagr.Service.Mirror.{
  Mirror, encode_league_totals_call, get_account_evm_address, hedera_account_to_evm,
  read_contract_payment,
}
use wagr.Service.Mirror.Laws.{word_text, read_amount-word_text}

-- `seasonEndDeps`: addresses and the balance are read through the mirror node.
unfoldable pub season_end_deps : Mirror → (escrow_contract_id : String) → World → World
season_end_deps m escrow_contract_id w = record w {
  resolve_evm = λ wallet. get_account_evm_address m wallet >>= λ addr. returns (word_from 0 addr);
  escrow_balance = λ league. hedera_account_to_evm escrow_contract_id >>= λ contract.
      read_contract_payment m contract (encode_league_totals_call m league);
}

-- What the service reads is the contract's total, where that is in the range of `int64`.
escrow_balance-word_text :
    (m : Mirror) (escrow_contract_id : String) (w : World) (id contract : List ℕ) (total : ℕ)
    → hedera_account_to_evm escrow_contract_id ≡ returns contract
    → m.call_contract contract (encode_league_totals_call m id) ≡ returns (word_text total)
    → total < 2 ^ 63
    → (season_end_deps m escrow_contract_id w).escrow_balance id ≡ returns (pos total)
unfolding season_end_deps read_contract_payment
escrow_balance-word_text m escrow_contract_id w id contract total known answered small =
    ground (arith, known, answered, read_amount-word_text total)

-- Amounts in cents that are not negative, in millionths of a dollar.
map-amount_of :
    (resolved : List ResolvedPayout) (cents : List ℕ)
    → map (λ (r : ResolvedPayout). r.amount_cents) resolved ≡ map pos cents
    → sum (map (λ n. n * 10_000) cents) < 2 ^ 63
    → map amount_of resolved ≡ map pos (map (λ n. n * 10_000) cents)
map-amount_of [] [] same small = refl
map-amount_of [] (n ∷ cents) same small = cc
map-amount_of (r ∷ resolved) [] same small = cc
map-amount_of (r ∷ resolved) (n ∷ cents) same small =
    let first : r.amount_cents ≡ pos n = cc in
    let rest : map (λ (r : ResolvedPayout). r.amount_cents) resolved ≡ map pos cents = cc in
    let here : amount_of r ≡ pos (n * 10_000) =
      rw (first, times_pos n 10_000) (int64-pos (n * 10_000) (omega (arith, small))) in
    rw (here, map-amount_of resolved cents rest (omega (arith, small))) refl

module _ {T : Type 0} (erc20 : Erc20 T) (escrow : Escrow) where
  -- The payouts that a run has claimed for a league go through at the contract, where the service reads
  -- the contract's total for the league through the mirror node, which answers with its word. The total
  -- is lowered by the amounts, and each recipient has received 10,000 millionths of a dollar for each cent
  -- meant for it. The cents are not negative, the sum of the amounts and the total are in the range of `int64`; the token keeps the standard,
  -- each recipient is associated with it, the state is one that the contract can reach, and the balances
  -- stay in range.
  pub season_end_deps-performed :
      (laws : IsErc20 erc20) (m : Mirror) (escrow_contract_id : String) (w : World)
      (league : OracleLeague) (id contract : List ℕ) (resolved : List ResolvedPayout)
      (cents : List ℕ) (c : Chain T)
      → plan (season_end_deps m escrow_contract_id w) league ≡ claims id resolved
      → map (λ (r : ResolvedPayout). r.amount_cents) resolved ≡ map pos cents
      → sum (map (λ n. n * 10_000) cents) < 2 ^ 63
      → hedera_account_to_evm escrow_contract_id ≡ returns contract
      → m.call_contract contract (encode_league_totals_call m id)
        ≡ returns (word_text (c.league_totals (word_from 0 id)))
      → c.league_totals (word_from 0 id) < 2 ^ 63
      → Reached erc20 escrow c
      → All (λ r. erc20.receives escrow.usdc r.evm_addr c.tokens ≡ true) resolved
      → ((holder : ℕ)
          → balance erc20 escrow holder c + c.league_totals (word_from 0 id) < uint256_limit)
      → let recipients = map (λ r. r.evm_addr) resolved in
        let amounts = map (λ n. n * 10_000) cents in
        (c' : Chain T) × (execute erc20 escrow escrow.owner
            (distribute_payout (word_from 0 id) recipients amounts)
            c
          ≡ done c')
        × (c'.league_totals (word_from 0 id) + sum amounts ≡ c.league_totals (word_from 0 id))
        × ((holder : ℕ)
            → holder ≢ escrow.self
            → balance erc20 escrow holder c'
              ≡ balance erc20 escrow holder c + share holder recipients amounts)
  season_end_deps-performed laws m escrow_contract_id w league id contract resolved cents c planned
        paid small known answered in_range r associated room =
      plan-performed erc20 escrow laws (season_end_deps m escrow_contract_id w) league id resolved
        (map (λ n. n * 10_000) cents) c planned (map-amount_of resolved cents paid small) small
        (escrow_balance-word_text m escrow_contract_id w id contract
          (c.league_totals (word_from 0 id)) known answered in_range)
        r associated room
