-- ===== src/Escrow/Token.antt =====
-- The token that the contract calls (`IERC20`, and the `approve` by which a payer allows it to
-- take an amount), and what the ERC-20 standard documents of it.
use wagr.Common.{ℕ, ◌+◌, ◌≤◌, ◌<◌, Bool, true, ◌≡◌, ◌≢◌, ◌==◌}
use wagr.Evm.{Outcome, done, uint256_limit}
use wagr.Escrow.Events.{when}

-- The tokens of a chain, each under its address. An operation says who calls it. `receives` says that the
-- holder can be sent the token: a token of Hedera's token service wants the account to be associated with
-- it.
pub record Erc20 (T : Type 0) : Type 0 where
  pub balance_of : (token holder : ℕ) → T → ℕ
  pub allowance : (token holder spender : ℕ) → T → ℕ
  pub receives : (token holder : ℕ) → T → Bool
  pub approve : (token caller spender amount : ℕ) → T → Outcome (Bool × T)
  pub transfer : (token caller recipient amount : ℕ) → T → Outcome (Bool × T)
  pub transfer_from : (token caller holder recipient amount : ℕ) → T → Outcome (Bool × T)

module _ {T : Type 0} (erc20 : Erc20 T) where
  -- The amount has left the one balance for the other, which may be the same, and no other balance
  -- of any token has changed. Who can be sent a token still can.
  pub record Moves (token source target amount : ℕ) (t t' : T) : Type 0 where
    pub moved :
        (holder : ℕ)
        → erc20.balance_of token holder t' + when (holder == source) amount
          ≡ erc20.balance_of token holder t + when (holder == target) amount
    pub others :
        (other holder : ℕ)
        → other ≢ token
        → erc20.balance_of other holder t' ≡ erc20.balance_of other holder t
    pub receivers :
        (other holder : ℕ)
        → erc20.receives other holder t ≡ true
        → erc20.receives other holder t' ≡ true

  -- A call that returns true has moved the amount; it returns true where the balance and the
  -- allowance are enough, the receiver can be sent the token and its balance stays in range.
  pub record IsErc20 : Type 0 where
    pub transfer-Moves :
        (token caller recipient amount : ℕ) (t t' : T)
        → erc20.transfer token caller recipient amount t ≡ done (true, t')
        → Moves token caller recipient amount t t'
    pub transfer_from-Moves :
        (token caller holder recipient amount : ℕ) (t t' : T)
        → erc20.transfer_from token caller holder recipient amount t ≡ done (true, t')
        → Moves token holder recipient amount t t'
    pub transfer-done :
        (token caller recipient amount : ℕ) (t : T)
        → erc20.receives token recipient t ≡ true
        → amount ≤ erc20.balance_of token caller t
        → erc20.balance_of token recipient t + amount < uint256_limit
        → (t' : T) × (erc20.transfer token caller recipient amount t ≡ done (true, t'))
    pub transfer_from-done :
        (token caller holder recipient amount : ℕ) (t : T)
        → erc20.receives token recipient t ≡ true
        → amount ≤ erc20.allowance token holder caller t
        → amount ≤ erc20.balance_of token holder t
        → erc20.balance_of token recipient t + amount < uint256_limit
        → (t' : T) × (erc20.transfer_from token caller holder recipient amount t ≡ done (true, t'))
    pub approve-done :
        (token caller spender amount : ℕ) (t : T)
        → (t' : T) × (erc20.approve token caller spender amount t ≡ done (true, t'))
          × (erc20.allowance token caller spender t' ≡ amount)
          × ((other holder : ℕ)
              → erc20.balance_of other holder t' ≡ erc20.balance_of other holder t)
          × ((other holder : ℕ)
              → erc20.receives other holder t ≡ true
              → erc20.receives other holder t' ≡ true)
