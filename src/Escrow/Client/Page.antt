-- ===== src/Escrow/Client/Page.antt =====
-- A payment from the button of src/web/src/pages/LeagueOverview.tsx through
-- src/web/src/strategies/HederaStrategy.ts to src/contracts/src/LeagueEscrow.sol.
use wagr.Common.{ℕ, String, ◌+◌, true, some, ◌≡◌, ◌⊎◌, inl, inr, List, [], ◌∷◌, or_default, arith}
use wagr.Js.Effects.{ok, Response}
use wagr.Evm.{Outcome, done, ◌>>=◌}
use wagr.Types.League.{PaymentInstructions}
use wagr.Types.Wallet.{WalletState}
use wagr.Hedera.{HederaStrategy, Transaction}
use wagr.Hedera.Encoding.Words.{league_word}
use wagr.Overview
use wagr.Overview.{Context, hedera_strategy, has_session, league_of}
use wagr.Overview.Pay.{World, send, handle_pay}
use wagr.Overview.Pay.Laws.{begun, Unconfirmed, Settled, handle_pay_lem}
use wagr.Overview.Submitted.{submitted}
use wagr.Overview.Pay.Submitted.{handle_pay-submitted}
use wagr.Escrow.{Escrow, Chain}
use wagr.Escrow.Token.{Erc20, IsErc20}
use wagr.Escrow.Client.{CanPay, approved-paid, perform}

module _ {T : Type 0} (erc20 : Erc20 T) (escrow : Escrow) (address : String → ℕ) where
  -- The chain after the transactions of an account, of which the latest comes first.
  unfoldable pub replay :
      (Transaction → Outcome (Chain T))
      → (sender : ℕ) → List Transaction
      → Chain T
      → Outcome (Chain T)
  replay other sender [] c = done c
  replay other sender (tx ∷ older) c =
      replay other sender older c >>= λ c'. perform erc20 escrow address other sender tx c'

  -- A press of the button, where the server answers with instructions for this contract and its token
  -- and the wallet accepts the payment: once the network has performed what the page has submitted, the
  -- contract has the amount of the instructions as the member’s payment for the league of the page, more
  -- than before, and it has left the member’s balance; and the page has the transaction as pending, with
  -- an error, or shows the member as paid by it. The token keeps the standard, the transactions submitted
  -- before went through, the member is not the contract and has the amount, and every sum has room.
  pub handle_pay-performed :
      (laws : IsErc20 erc20) (other : Transaction → Outcome (Chain T)) (ctx : Context) (w : World)
      (strategy : HederaStrategy) (wallet_state : WalletState) (res : Response PaymentInstructions)
      (instructions : PaymentInstructions) (tx_id : String) (p : Overview.Page) (member : ℕ)
      (before c : Chain T)
      → has_session ctx ≡ true
      → ctx.wallet_state ≡ some wallet_state
      → ctx.active_strategy ≡ some (hedera_strategy strategy)
      → w.instructions ≡ ok res
      → res.json ≡ ok instructions
      → (send ctx strategy wallet_state w (begun ctx w p)).0 ≡ ok tx_id
      → address (or_default wallet_state.account_id "") ≡ member
      → address instructions.contract_id ≡ escrow.self
      → address instructions.usdc_token_id ≡ escrow.usdc
      → replay other member (submitted p.trace) before ≡ done c
      → CanPay erc20 escrow member (league_word (league_of ctx)) instructions.amount_usdc c
      → let q = handle_pay ctx w p in
        (c' : Chain T) × (replay other member (submitted q.trace) before ≡ done c')
        × (c'.payments (league_word (league_of ctx)) member
            ≡ c.payments (league_word (league_of ctx)) member + instructions.amount_usdc)
        × (erc20.balance_of escrow.usdc member c'.tokens + instructions.amount_usdc
            ≡ erc20.balance_of escrow.usdc member c.tokens)
        × (Unconfirmed ctx w tx_id p q ⊎ Settled ctx w tx_id p q)
  unfolding replay perform
  handle_pay-performed laws other ctx w strategy wallet_state res instructions tx_id p member before
        c session wallet hedera answered read accepted owned ours token went can =
      let (tokens, c', approved, e, more, less) =
        approved-paid erc20 escrow laws member (league_word (league_of ctx))
          instructions.amount_usdc c can in
      let sent =
        handle_pay-submitted ctx w strategy wallet_state res instructions tx_id p session wallet
          hedera answered read accepted in
      (
        c',
        rw sent (ground (arith, went, owned, ours, token, approved, e)),
        more,
        less,
        elim (handle_pay_lem ctx w strategy wallet_state p session wallet hedera) [
          | inl (thrown, _) ↦ absurd (ground (arith, thrown, accepted))
          | inr (tx_id', sent', ends) ↦ let same : tx_id ≡ tx_id' = cc in rw same ends
        ],
      )
