-- ===== src/Escrow/Payouts.antt =====
-- That a payout of the owner goes through, and what each recipient has after it.
use wagr.Common.{
  ℕ, ◌+◌, ◌-◌, ◌≤◌, ◌<◌, List, [], ◌∷◌, ◌≡◌, ◌≢◌, ◌==◌, length, All, true, refl, arith,
}
use wagr.Evm.{done, uint256_limit, set}
use wagr.Escrow.{
  Escrow, Chain, distribute_payout, add_amounts, pay_out, run_distribute_payout, execute,
}
use wagr.Escrow.Calls.{sum}
use wagr.Escrow.Accounting.{pay_out-Pays}
use wagr.Escrow.Events.{payout_distributed, when}
use wagr.Escrow.Reached.{Reached, Reached-IsSolvent}
use wagr.Escrow.Token.{Erc20, IsErc20}

-- What the payout means one holder to have: all the amounts at the places where the holder stands.
unfoldable pub share : (holder : ℕ) (recipients amounts : List ℕ) → ℕ
share holder (recipient ∷ recipients) (amount ∷ amounts) =
    when (holder == recipient) amount + share holder recipients amounts
share holder _ _ = 0

add_amounts_done :
    (total : ℕ) (amounts : List ℕ)
    → total + sum amounts < uint256_limit
    → add_amounts total amounts ≡ done (total + sum amounts)
unfolding add_amounts
add_amounts_done total [] fits = ground arith
add_amounts_done total (amount ∷ amounts) fits =
    ground (arith, add_amounts_done (total + amount) amounts (omega arith))

module _ {T : Type 0} (erc20 : Erc20 T) (escrow : Escrow) where
  -- The balance of a holder of the contract’s token.
  abbrev pub balance : ℕ → Chain T → ℕ
  balance holder c = erc20.balance_of escrow.usdc holder c.tokens

  -- How a loop that pays ends.
  record IsPaidOut (league : ℕ) (recipients amounts : List ℕ) (c : Chain T) : Type 0 where
    pub end : Chain T
    pub loop : pay_out erc20 escrow league recipients amounts c ≡ done end
    pub shares :
        (holder : ℕ)
        → holder ≢ escrow.self
        → balance holder end ≡ balance holder c + share holder recipients amounts

  still_received :
      (t t' : T) (recipients : List ℕ)
      → ((other holder : ℕ)
          → erc20.receives other holder t ≡ true
          → erc20.receives other holder t' ≡ true)
      → All (λ recipient. erc20.receives escrow.usdc recipient t ≡ true) recipients
      → All (λ recipient. erc20.receives escrow.usdc recipient t' ≡ true) recipients
  still_received t t' [] keeps known = tt
  still_received t t' (recipient ∷ recipients) keeps (known, all) =
      (keeps escrow.usdc recipient known, still_received t t' recipients keeps all)

  pay_out-IsPaidOut :
      (laws : IsErc20 erc20) (league : ℕ) (recipients amounts : List ℕ) (c : Chain T)
      → length recipients ≡ length amounts
      → sum amounts ≤ balance escrow.self c
      → All (λ recipient. erc20.receives escrow.usdc recipient c.tokens ≡ true) recipients
      → ((holder : ℕ) → balance holder c + sum amounts < uint256_limit)
      → IsPaidOut league recipients amounts c
  unfolding pay_out share
  pay_out-IsPaidOut laws league [] amounts c len enough known room = record {
    end = c;
    loop = refl;
    shares = λ holder other. omega arith;
  }
  pay_out-IsPaidOut laws league (recipient ∷ recipients) [] c len enough known room =
      absurd (omega arith)
  pay_out-IsPaidOut laws league (recipient ∷ recipients) (amount ∷ amounts) c len enough
        (known, all) room =
      let (tokens, moved) =
        laws.transfer-done escrow.usdc escrow.self recipient amount c.tokens known (omega arith)
          (omega (arith, room recipient)) in
      let moves = laws.transfer-Moves _ _ _ _ _ _ moved in
      let rest =
        pay_out-IsPaidOut laws league recipients amounts
          (record c {
            events = payout_distributed league recipient amount ∷ c.events;
            tokens = tokens;
          })
          (omega arith) (ground (arith, moves.moved escrow.self))
          (still_received c.tokens tokens recipients moves.receivers all)
          (λ holder. ground (arith, moves.moved holder, room holder)) in
      record {
        end = rest.end;
        loop = rw moved rest.loop;
        shares = λ holder other. ground (arith, moves.moved holder, rest.shares holder other);
      }

  -- In every reached state a payout of the owner goes through if there is one amount for each recipient,
  -- each recipient can be sent the token (is associated with it), and the amounts together are at most
  -- the league’s total. The total is then lowered by them, and each holder but the contract has received
  -- all the amounts meant for it, also where it is named more than once. The token keeps the standard, and the balances stay in range.
  pub distribute_payout_done :
      (laws : IsErc20 erc20) (league : ℕ) (recipients amounts : List ℕ) (c : Chain T)
      → Reached erc20 escrow c
      → length recipients ≡ length amounts
      → sum amounts ≤ c.league_totals league
      → All (λ recipient. erc20.receives escrow.usdc recipient c.tokens ≡ true) recipients
      → ((holder : ℕ) → balance holder c + c.league_totals league < uint256_limit)
      → (c' : Chain T) × (execute erc20 escrow escrow.owner
            (distribute_payout league recipients amounts)
            c
          ≡ done c')
        × (c'.league_totals league + sum amounts ≡ c.league_totals league)
        × ((holder : ℕ)
            → holder ≢ escrow.self
            → balance holder c' ≡ balance holder c + share holder recipients amounts)
  unfolding execute run_distribute_payout
  distribute_payout_done laws league recipients amounts c r len within known room =
      let solvent = Reached-IsSolvent erc20 escrow laws c r (league ∷ []) (tt, tt) in
      let lowered : Chain T = record c {
        league_totals = set league (c.league_totals league - sum amounts) c.league_totals;
      } in
      let paid =
        pay_out-IsPaidOut laws league recipients amounts lowered len (omega arith) known
          (λ holder. omega (arith, room holder)) in
      let pays =
        pay_out-Pays erc20 escrow league recipients amounts lowered paid.end len paid.loop in
      (
        paid.end,
        ground (arith, len, add_amounts_done 0 amounts (omega (arith, room 0)), paid.loop),
        rw (pays.league_totals) (ground arith),
        paid.shares,
      )
