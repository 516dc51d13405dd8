-- ===== src/Escrow/Client/Refund.antt =====
-- A claim of a refund from the button of src/web/src/pages/LeagueOverview.tsx through
-- src/web/src/strategies/HederaStrategy.ts to src/contracts/src/LeagueEscrow.sol.
use wagr.Common.{ℕ, String, ◌+◌, ◌<◌, true, some, ◌≡◌, ◌≢◌, ◌⊎◌, inl, inr, truthy, arith}
use wagr.Js.Effects.{ok}
use wagr.Evm.{Outcome, done, uint256_limit}
use wagr.Types.Wallet.{WalletState}
use wagr.Hedera.{HederaStrategy, Transaction}
use wagr.Hedera.Encoding.Words.{league_word}
use wagr.Overview.{Page, Context, hedera_strategy, has_session, league_of}
use wagr.Overview.Refund.{World, send, handle_claim_refund}
use wagr.Overview.Refund.Laws.{begun, Unconfirmed, Settled, handle_claim_refund_lem}
use wagr.Overview.Submitted.{submitted}
use wagr.Overview.Refund.Submitted.{handle_claim_refund-submitted}
use wagr.Escrow.{Escrow, Chain}
use wagr.Escrow.Token.{Erc20, IsErc20}
use wagr.Escrow.Claims.{claim_refund_done}
use wagr.Escrow.Events.{distributed}
use wagr.Escrow.Reached.{Reached}
use wagr.Escrow.Client.{perform}
use wagr.Escrow.Client.Page.{replay}

module _ {T : Type 0} (erc20 : Erc20 T) (escrow : Escrow) (address : String → ℕ) where
  -- A press of the button that claims a refund, where the wallet accepts the claim: once the network has
  -- performed what the page has submitted, the contract owes the member nothing for the league of the
  -- page, and the whole payment is in the member’s balance; and the page has the transaction as pending,
  -- with an error, or shows the member as refunded by it. The token keeps the standard, the transactions
  -- submitted before went through to a state that the contract can reach, the league has paid nothing
  -- out, the member is not the contract and is still associated with the
  -- token, and the balance stays in range.
  pub handle_claim_refund-performed :
      (laws : IsErc20 erc20) (other : Transaction → Outcome (Chain T)) (ctx : Context) (w : World)
      (strategy : HederaStrategy) (wallet_state : WalletState) (contract_id tx_id : String)
      (p : Page) (member : ℕ) (before c : Chain T)
      → has_session ctx ≡ true
      → ctx.wallet_state ≡ some wallet_state
      → ctx.active_strategy ≡ some (hedera_strategy strategy)
      → w.contract_id ≡ some contract_id
      → truthy (some contract_id) ≡ true
      → (send ctx strategy wallet_state contract_id w (begun ctx w p)).0 ≡ ok tx_id
      → address contract_id ≡ escrow.self
      → replay erc20 escrow address other member (submitted p.trace) before ≡ done c
      → Reached erc20 escrow c
      → distributed (league_word (league_of ctx)) c.events ≡ 0
      → member ≢ escrow.self
      → 0 < c.payments (league_word (league_of ctx)) member
      → erc20.receives escrow.usdc member c.tokens ≡ true
      → erc20.balance_of escrow.usdc member c.tokens
          + c.payments (league_word (league_of ctx)) member
        < uint256_limit
      → let q = handle_claim_refund ctx w p in
        (c' : Chain T) × (replay erc20 escrow address other member (submitted q.trace) before
          ≡ done c')
        × (c'.payments (league_word (league_of ctx)) member ≡ 0)
        × (erc20.balance_of escrow.usdc member c'.tokens
            ≡ erc20.balance_of escrow.usdc member c.tokens
              + c.payments (league_word (league_of ctx)) member)
        × (Unconfirmed ctx w tx_id p q ⊎ Settled ctx w tx_id p q)
  unfolding replay perform
  handle_claim_refund-performed laws other ctx w strategy wallet_state contract_id tx_id p member
        before c session wallet hedera known real accepted ours went r kept strange paid associated
        room =
      let (c', e, cleared, more) =
        claim_refund_done erc20 escrow laws member (league_word (league_of ctx)) c r kept strange
          paid associated room in
      let sent =
        handle_claim_refund-submitted ctx w strategy wallet_state contract_id tx_id p session wallet
          hedera known real accepted in
      (
        c',
        rw sent (ground (arith, went, ours, e)),
        cleared,
        more,
        elim (handle_claim_refund_lem ctx w strategy wallet_state contract_id p session wallet
            hedera known real) [
              | inl (thrown, _) ↦ absurd (ground (arith, thrown, accepted))
              | inr (tx_id', sent', ends) ↦ let same : tx_id ≡ tx_id' = cc in rw same ends
            ],
      )
