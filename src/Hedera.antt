-- ===== src/Hedera.antt =====
-- src/web/src/strategies/HederaStrategy.ts: the strategy object, the two payments that it sends
-- through the wallet, and (in the modules below) the encodings and the signing of messages.
-- The Hedera SDK and the wallet are the parameter `Sdk`.
pub mod Encoding
pub mod Signing
pub mod Connection
pub mod Transactions
use wagr.Common.{
  ℕ, String, Option, none, some, List, [], ◌∷◌, push, truthy, or_default, if◌then◌else◌,
}
use wagr.Js.Effects.{Thrown, error, Result, ok, throw, Action, pure, raise, await, ◌>>=◌, ◌>>◌}
use wagr.Types.Wallet.{WalletState}
use wagr.Hedera.Encoding.{league_id_bytes32}

-- What the polling of `connect` reads of a signer: `getAccountId()` or `accountId`, as text.
pub record Signer : Type 0 where
  pub get_account_id : Option String
  pub account_id : Option String

-- `DAppConnector`, as far as the strategy reads it.
pub record Connector : Type 0 where
  pub signers : Option (List Signer)

pub record HederaStrategy : Type 0 where
  pub connector : Option Connector
  pub project_id : String
  pub connection_timeout : Option ℕ

-- The transactions that the wallet is asked to sign, with the values they are built from.
pub data Transaction : Type 0 where
  approve_token_allowance : (token owner spender : String) (amount : ℕ) → Transaction
  pay_entry_fee : (contract : String) (gas : ℕ) (league : List ℕ) (amount : ℕ) → Transaction
  claim_refund : (contract : String) (gas : ℕ) (league : List ℕ) → Transaction

-- `response.transactionId?.toString()` and `String(response)`.
pub record TransactionResponse : Type 0 where
  pub transaction_id : Option String
  pub text : String

-- The SDK: its dynamic import, the building and freezing of a transaction, and its execution with
-- the signer. Each may throw.
pub record Sdk : Type 0 where
  pub load : Result (Unit {0})
  pub freeze : Transaction → Result (Unit {0})
  pub execute : Transaction → Result TransactionResponse

-- Executing a transaction, after which it counts as submitted.
pub submit : Sdk → Transaction → Action (List Transaction) TransactionResponse
submit sdk tx sent = (sdk.execute tx, push sent tx)

-- The guards of the two payments: a connector, an account, the SDK, a signer. The account is given.
require_connector : HederaStrategy → Result Connector
require_connector self = elim self.connector [
  | none ↦ throw (error "Wallet not connected. Call connect() first.")
  | some c ↦ ok c
]

require_account : WalletState → Result String
require_account w =
    if truthy w.account_id
    then ok (or_default w.account_id "")
    else throw (error "Account ID not found in wallet state")

require_signer : Connector → Result Signer
require_signer c = elim c.signers [
  | none ↦ throw (error "No WalletConnect signer available. Is HashPack connected?")
  | some [] ↦ throw (error "No WalletConnect signer available. Is HashPack connected?")
  | some (signer ∷ rest) ↦ ok signer
]

pub record PayParams : Type 0 where
  pub league_id : String
  pub amount_usdc : ℕ
  pub contract_id : String
  pub usdc_token_id : String
  pub wallet_state : WalletState

abbrev pub approval : PayParams → String → Transaction
approval params account =
    approve_token_allowance params.usdc_token_id account params.contract_id params.amount_usdc

abbrev pub payment : PayParams → Transaction
payment params =
    pay_entry_fee params.contract_id 150_000 (league_id_bytes32 params.league_id) params.amount_usdc

unfoldable pub pay_entry_fee_usdc :
    HederaStrategy → Sdk → PayParams → Action (List Transaction) String
unfolding require_connector require_account require_signer submit
pay_entry_fee_usdc self sdk params = do
  connector ← await (require_connector self)
  account ← await (require_account params.wallet_state)
  await sdk.load
  signer ← await (require_signer connector)
  await (sdk.freeze (approval params account))
  approved ← submit sdk (approval params account)
  await (sdk.freeze (payment params))
  response ← submit sdk (payment params)
  pure (or_default response.transaction_id response.text)

abbrev pub refund_claim : String → String → Transaction
refund_claim league_id contract_id = claim_refund contract_id 800_000 (league_id_bytes32 league_id)

-- `claimRefund`: the league, the contract and the wallet state are its `params`.
unfoldable pub claim_refund_usdc :
    HederaStrategy → Sdk → String → String → WalletState → Action (List Transaction) String
unfolding require_connector require_account require_signer submit
claim_refund_usdc self sdk league_id contract_id wallet_state = do
  connector ← await (require_connector self)
  account ← await (require_account wallet_state)
  await sdk.load
  signer ← await (require_signer connector)
  await (sdk.freeze (refund_claim league_id contract_id))
  response ← submit sdk (refund_claim league_id contract_id)
  pure (or_default response.transaction_id response.text)
