-- ===== src/Types/Wallet.antt =====
-- src/web/src/types/wallet.d.ts and the network names of src/web/src/types/hedera.d.ts.
use wagr.Common.{String, Option}

pub data WalletType : Type 0 where
  hedera : WalletType

pub data HederaNetworkId : Type 0 where
  mainnet testnet previewnet : HederaNetworkId

pub record WalletState : Type 0 where
  pub wallet_type : WalletType
  pub address : String
  pub account_id : Option String
  pub balance : Option String
  pub network : Option String
  pub public_key : Option String
  pub key_type : Option String

pub record SignatureResult : Type 0 where
  pub signature : String
  pub key_type : Option String

pub record AvailableWallet : Type 0 where
  pub wallet_type : WalletType
  pub name : String
  pub display_name : String
  pub icon : Option String

pub record PaymentResult : Type 0 where
  pub transaction_id : String
  pub status : String
