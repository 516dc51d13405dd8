-- ===== src/Escrow/Reached.antt =====
-- The states that the contract can be in, and what holds in each.
use wagr.Common.{ℕ, ◌≤◌, ◌≡◌, ◌≢◌, [], ◌∷◌, List, refl, arith}
use wagr.Evm.Sums.{sum_of}
use wagr.Escrow.{Escrow, Chain, Call, emergency_withdraw, transact, fresh}
use wagr.Escrow.Solvency.{IsSolvent, held, transact-IsSolvent}
use wagr.Escrow.Backing.{IsBacked, transact-IsBacked}
use wagr.Escrow.Token.{Erc20, IsErc20}

module _ {T : Type 0} (erc20 : Erc20 T) (escrow : Escrow) where
  -- From the creation on: calls by others than the contract, none of which takes the fees out by
  -- `emergencyWithdraw`, and whatever the tokens do elsewhere that takes nothing from the contract.
  pub data Reached : Chain T → Type 0 where
    created : (tokens : T) → Reached (fresh tokens)
    called :
        (sender : ℕ) (call : Call) (c : Chain T)
        → sender ≢ escrow.self
        → ((amount : ℕ) → call ≢ emergency_withdraw escrow.usdc amount)
        → Reached c
        → Reached (transact erc20 escrow sender call c)
    elsewhere :
        (tokens : T) (c : Chain T)
        → held erc20 escrow c.tokens ≤ held erc20 escrow tokens
        → Reached c
        → Reached (record c { tokens = tokens })

  sum_of-zero : (keys : List ℕ) → sum_of (λ k. 0) keys ≡ 0
  sum_of-zero [] = refl
  sum_of-zero (k ∷ keys) = omega (arith, sum_of-zero keys)

  pub Reached-IsBacked : (c : Chain T) → Reached c → IsBacked erc20 escrow c
  Reached-IsBacked _ (created tokens) = λ l keys distinct. omega (arith, sum_of-zero keys)
  Reached-IsBacked _ (called sender call c other keeps r) =
      transact-IsBacked erc20 escrow sender call c (Reached-IsBacked c r)
  Reached-IsBacked _ (elsewhere tokens c more r) = Reached-IsBacked c r

  -- The token keeps the standard. Then in every state that comes from the contract’s creation by calls
  -- of others than itself, of which none is the owner’s emergency withdrawal of the fees’ own token, and
  -- by whatever tokens do elsewhere without taking from the contract, the contract holds at least the
  -- totals of any distinct leagues together.
  pub Reached-IsSolvent : IsErc20 erc20 → (c : Chain T) → Reached c → IsSolvent erc20 escrow c
  Reached-IsSolvent laws _ (created tokens) = λ keys distinct. omega (arith, sum_of-zero keys)
  Reached-IsSolvent laws _ (called sender call c other keeps r) =
      transact-IsSolvent erc20 escrow laws sender call c other keeps (Reached-IsSolvent laws c r)
  Reached-IsSolvent laws _ (elsewhere tokens c more r) =
      λ keys distinct. omega (arith, Reached-IsSolvent laws c r keys distinct)
