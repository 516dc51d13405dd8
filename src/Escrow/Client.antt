-- ===== src/Escrow/Client.antt =====
-- The transactions of src/web/src/strategies/HederaStrategy.ts, as the token and the contract of
-- src/contracts/src/LeagueEscrow.sol carry them out in the order in which the wallet submits them.
pub mod Page
pub mod Refund
use wagr.Common.{
  ℕ, String, ◌+◌, ◌≤◌, ◌<◌, true, false, ◌≡◌, ◌≢◌, ◌==◌, List, [], ◌∷◌, or_default, if◌then◌else◌,
  arith, inl, inr,
}
use wagr.Js.Effects.{is_throw}
use wagr.Evm.{Outcome, done, uint256_limit, require, ◌>>=◌, ◌>>◌}
use wagr.Escrow.{Escrow, Chain, pay_entry_fee, claim_refund, execute}
use wagr.Escrow.Token.{Erc20, IsErc20}
use wagr.Escrow.Reached.{Reached}
use wagr.Escrow.Claims.{run_pay_entry_fee_iff, claim_refund_done}
use wagr.Escrow.Events.{distributed}
use wagr.Types.Wallet.{WalletState}
use wagr.Escrow.Calls.{run_pay_entry_fee_done}
use wagr.Hedera.{
  HederaStrategy, Sdk, Transaction, PayParams, approve_token_allowance, pay_entry_fee_usdc,
  claim_refund_usdc,
}
use wagr.Hedera.Encoding.Words.{word_from, league_word}
use wagr.Hedera.Transactions.{pay_entry_fee_usdc_lem, claim_refund_usdc_lem}

module _ {T : Type 0} (erc20 : Erc20 T) (escrow : Escrow) where
  -- What a payment needs: a contract that is associated with its token, a member other than the contract with the
  -- amount, and room in every sum.
  pub record CanPay (member league amount : ℕ) (c : Chain T) : Type 0 where
    pub member_other : member ≢ escrow.self
    pub contract_known : erc20.receives escrow.usdc escrow.self c.tokens ≡ true
    pub positive : 0 < amount
    pub enough : amount ≤ erc20.balance_of escrow.usdc member c.tokens
    pub held_fits : erc20.balance_of escrow.usdc escrow.self c.tokens + amount < uint256_limit
    pub payment_fits : c.payments league member + amount < uint256_limit
    pub total_fits : c.league_totals league + amount < uint256_limit

  approved-paid :
      (laws : IsErc20 erc20) (member league amount : ℕ) (c : Chain T)
      → CanPay member league amount c
      → (tokens : T) × (c' : Chain T) × (erc20.approve escrow.usdc member escrow.self amount
            c.tokens
          ≡ done (true, tokens))
        × (execute erc20 escrow member (pay_entry_fee league amount) (record c { tokens = tokens })
            ≡ done c')
        × (c'.payments league member ≡ c.payments league member + amount)
        × (erc20.balance_of escrow.usdc member c'.tokens + amount
            ≡ erc20.balance_of escrow.usdc member c.tokens)
  unfolding execute
  approved-paid laws member league amount c can =
      let (tokens, approved, allowed, same, known) =
        laws.approve-done escrow.usdc member escrow.self amount c.tokens in
      let (_, moved) =
        laws.transfer_from-done escrow.usdc escrow.self member escrow.self amount tokens
          (known escrow.usdc escrow.self can.contract_known) (omega (arith, allowed))
          (omega (arith, can.enough, same escrow.usdc member))
          (omega (arith, can.held_fits, same escrow.usdc escrow.self)) in
      let (c', e) =
        (run_pay_entry_fee_iff erc20 escrow member league amount (record c { tokens = tokens })).1
          (can.positive, can.payment_fits, can.total_fits, (_, moved)) in
      let paid = run_pay_entry_fee_done erc20 escrow member league amount _ c' e in
      let moves = laws.transfer_from-Moves _ _ _ _ _ _ _ paid.called in
      (
        tokens,
        c',
        approved,
        e,
        rw paid.payments (ground arith),
        ground (arith, moves.moved member, same escrow.usdc member, can.member_other),
      )

  module _ (address : String → ℕ) where
    -- One transaction of the account: an allowance of the token, or a call of this contract. What a
    -- call of another contract does is `other`.
    unfoldable pub perform :
        (Transaction → Outcome (Chain T)) → (sender : ℕ) → Transaction → Chain T → Outcome (Chain T)
    perform other sender (approve_token_allowance token owner spender amount) c = do
      (is_ok, tokens) ←
          erc20.approve (address token) (address owner) (address spender) amount c.tokens
      require is_ok "approval failed"
      done (record c { tokens = tokens })
    perform other sender (Transaction.pay_entry_fee contract gas league amount) c =
        if address contract == escrow.self
        then execute erc20 escrow sender (pay_entry_fee (word_from 0 league) amount) c
        else other (Transaction.pay_entry_fee contract gas league amount)
    perform other sender (Transaction.claim_refund contract gas league) c =
        if address contract == escrow.self
        then execute erc20 escrow sender (claim_refund (word_from 0 league)) c
        else other (Transaction.claim_refund contract gas league)

    unfoldable pub perform_all :
        (Transaction → Outcome (Chain T))
        → (sender : ℕ) → List Transaction
        → Chain T
        → Outcome (Chain T)
    perform_all other sender [] c = done c
    perform_all other sender (tx ∷ sent) c =
        perform other sender tx c >>= λ c'. perform_all other sender sent c'

    -- If the wallet submits a whole payment, and the network performs what it submits, then the contract
    -- has the amount as the member’s payment for the league, more than before, and the amount has left
    -- the member’s balance. The token keeps the standard, the payment is for this contract in its token,
    -- the member is not the contract and has the amount, and every sum has room.
    pub pay_entry_fee_usdc-performed :
        (laws : IsErc20 erc20) (other : Transaction → Outcome (Chain T)) (self : HederaStrategy)
        (sdk : Sdk) (params : PayParams) (c : Chain T) (member : ℕ)
        → address (or_default params.wallet_state.account_id "") ≡ member
        → is_throw (pay_entry_fee_usdc self sdk params []).0 ≡ false
        → address params.contract_id ≡ escrow.self
        → address params.usdc_token_id ≡ escrow.usdc
        → CanPay member (league_word params.league_id) params.amount_usdc c
        → (c' : Chain T) × (perform_all other member (pay_entry_fee_usdc self sdk params []).1 c
            ≡ done c')
          × (c'.payments (league_word params.league_id) member
              ≡ c.payments (league_word params.league_id) member + params.amount_usdc)
          × (erc20.balance_of escrow.usdc member c'.tokens + params.amount_usdc
              ≡ erc20.balance_of escrow.usdc member c.tokens)
    unfolding perform_all perform
    pay_entry_fee_usdc-performed laws other self sdk params c member owned resolved ours token can =
        let (tokens, c', approved, e, more, less) =
          approved-paid laws member (league_word params.league_id) params.amount_usdc c can in
        (
          c',
          elim (pay_entry_fee_usdc_lem self sdk params) [
            | inl (sent, _) ↦ rw sent (ground (arith, approved, e))
            | inr (thrown, _) ↦ cc
          ],
          more,
          less,
        )

    -- The same of a refund: if the wallet submits the claim, the network performs it and the league has
    -- paid nothing out, then the member has the whole payment back, in every state that the contract can
    -- reach.
    pub claim_refund_usdc-performed :
        (laws : IsErc20 erc20) (other : Transaction → Outcome (Chain T)) (self : HederaStrategy)
        (sdk : Sdk) (league_id contract_id : String) (wallet_state : WalletState) (c : Chain T)
        (member : ℕ)
        → is_throw (claim_refund_usdc self sdk league_id contract_id wallet_state []).0 ≡ false
        → address contract_id ≡ escrow.self
        → Reached erc20 escrow c
        → distributed (league_word league_id) c.events ≡ 0
        → member ≢ escrow.self
        → 0 < c.payments (league_word league_id) member
        → erc20.receives escrow.usdc member c.tokens ≡ true
        → erc20.balance_of escrow.usdc member c.tokens + c.payments (league_word league_id) member
          < uint256_limit
        → (c' : Chain T) × (perform_all other member
              (claim_refund_usdc self sdk league_id contract_id wallet_state []).1
              c
            ≡ done c')
          × (c'.payments (league_word league_id) member ≡ 0)
          × (erc20.balance_of escrow.usdc member c'.tokens
              ≡ erc20.balance_of escrow.usdc member c.tokens
                + c.payments (league_word league_id) member)
    unfolding perform_all perform
    claim_refund_usdc-performed laws other self sdk league_id contract_id wallet_state c member
          resolved ours r kept strange paid associated room =
        let (c', e, cleared, more) =
          claim_refund_done erc20 escrow laws member (league_word league_id) c r kept strange paid
            associated room in
        (
          c',
          elim (claim_refund_usdc_lem self sdk league_id contract_id wallet_state) [
            | inl (sent, _) ↦ rw sent (ground (arith, e))
            | inr (thrown, _) ↦ cc
          ],
          cleared,
          more,
        )
