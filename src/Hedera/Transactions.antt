-- ===== src/Hedera/Transactions.antt =====
-- What the wallet has been asked to sign when a payment resolves or throws.
use wagr.Common.{String, ◌≡◌, [], ◌∷◌, ◌⊎◌, arith, true, or_default, true}
use wagr.Js.Effects.{Result, is_throw, ok, throw}
use wagr.Types.Wallet.{WalletState}
use wagr.Hedera.Encoding.{league_id_bytes32}
use wagr.Hedera.{
  HederaStrategy, Transaction, Sdk, TransactionResponse, PayParams, approve_token_allowance,
  pay_entry_fee, refund_claim, pay_entry_fee_usdc, claim_refund_usdc,
}

-- The identifier that a response carries.
abbrev pub identify : Result TransactionResponse → Result String
identify (ok response) = ok (or_default response.transaction_id response.text)
identify (throw e) = throw e

-- The approval that the payment needs: for the contract it calls, of the amount it pays.
abbrev pub first_step : PayParams → Transaction
first_step params =
    approve_token_allowance params.usdc_token_id (or_default params.wallet_state.account_id "")
      params.contract_id params.amount_usdc

-- A payment asks the wallet for the approval that lets the contract take the amount in the fees' token,
-- and then for the call that pays the contract the same amount for the league, and ends as the call
-- does; or it throws before, having asked for nothing or for the approval alone.
pub pay_entry_fee_usdc_lem :
    (self : HederaStrategy) (sdk : Sdk) (params : PayParams)
    → let first =
        approve_token_allowance params.usdc_token_id
          (or_default params.wallet_state.account_id "")
          params.contract_id
          params.amount_usdc in
      let second =
        pay_entry_fee params.contract_id 150_000
          (league_id_bytes32 params.league_id)
          params.amount_usdc in
      let (result, sent) = pay_entry_fee_usdc self sdk params [] in
      ((sent ≡ first ∷ second ∷ []) × (result ≡ identify (sdk.execute second)))
      ⊎ ((is_throw result ≡ true) × ((sent ≡ []) ⊎ (sent ≡ first ∷ [])))
unfolding pay_entry_fee_usdc
pay_entry_fee_usdc_lem self sdk params = ground arith

-- A refund claim asks the wallet for one transaction and ends as it does, or it throws before.
pub claim_refund_usdc_lem :
    (self : HederaStrategy) (sdk : Sdk) (league_id contract_id : String)
    (wallet_state : WalletState)
    → let (result, sent) = claim_refund_usdc self sdk league_id contract_id wallet_state [] in
      ((sent ≡ refund_claim league_id contract_id ∷ [])
        × (result ≡ identify (sdk.execute (refund_claim league_id contract_id))))
      ⊎ ((is_throw result ≡ true) × (sent ≡ []))
unfolding claim_refund_usdc
claim_refund_usdc_lem self sdk league_id contract_id wallet_state = ground arith
