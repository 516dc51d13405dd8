-- ===== src/Session/Wallets.antt =====
-- `detectWallets` of src/web/src/providers/WalletProvider.tsx with the two answers of
-- src/web/src/strategies/HederaStrategy.ts and the names of src/web/src/utils/walletConstants.ts.
use wagr.Common.{String, none, List, [], ◌∷◌, map, Bool, true, if◌then◌else◌}
use wagr.Js.Effects.{Result, ok, throw}
use wagr.Js.Text.{equals_lower}
use wagr.Types.Wallet.{WalletType, AvailableWallet}
use wagr.Session.{Session}

unfoldable pub get_wallet_display_name : String → String
unfolding equals_lower
get_wallet_display_name wallet_name =
    if equals_lower wallet_name "hashpack" then "HashPack" else wallet_name

-- The strategy's `isAvailable` and `getAvailableWallets`.
abbrev pub is_available : Result Bool
is_available = ok true

abbrev pub get_available_wallets : Result (List String)
get_available_wallets = ok ("hashpack" ∷ [])

abbrev pub available_wallet : WalletType → String → AvailableWallet
available_wallet wallet_type wallet_name = record {
  wallet_type = wallet_type;
  name = wallet_name;
  display_name = get_wallet_display_name wallet_name;
  icon = none;
}

-- What one strategy adds: an error of either answer is only logged.
abbrev pub detected : WalletType → Result Bool → Result (List String) → List AvailableWallet
detected wallet_type (throw e) wallets = []
detected wallet_type (ok available) (throw e) = []
detected wallet_type (ok available) (ok names) =
    if available then map (available_wallet wallet_type) names else []

-- The only strategy is that of Hedera.
unfoldable pub detect_wallets : Session → Session
unfolding get_wallet_display_name
detect_wallets s = record s {
  available_wallets = detected WalletType.hedera is_available get_available_wallets;
}
