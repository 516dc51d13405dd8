-- ===== src/Escrow/MockUsdc.antt =====
-- src/contracts/src/mocks/MockUSDC.sol: the token of the contract's tests, an `Erc20` that moves
-- what it says. Its names, `totalSupply` and events are left out.
use wagr.Common.{ℕ, ◌+◌, subst, String, Bool, true, false, ◌≢◌, ◌≡◌, ◌==◌, leb, arith, refl}
use wagr.Escrow.Events.{when}
use wagr.Evm.{Outcome, done, revert, require, checked_add, checked_sub, set, set_in, ◌>>=◌, ◌>>◌}
use wagr.Escrow.Token.{Erc20, IsErc20, Moves}

pub record MockUsdc : Type 0 where
  pub balance_of : ℕ → ℕ
  pub allowance : ℕ → ℕ → ℕ

abbrev pub mint : (recipient amount : ℕ) → MockUsdc → Outcome MockUsdc
mint recipient amount t = do
  balance ← checked_add (t.balance_of recipient) amount
  done (record t { balance_of = set recipient balance t.balance_of })

abbrev pub approve : (caller spender amount : ℕ) → MockUsdc → Outcome (Bool × MockUsdc)
approve caller spender amount t =
    done (true, record t { allowance = set_in caller spender amount t.allowance })

-- `balanceOf[from] -= amount` and `balanceOf[to] += amount`
unfoldable pub move : (source target amount : ℕ) → MockUsdc → Outcome MockUsdc
move source target amount t = do
  left ← checked_sub (t.balance_of source) amount
  let balances = set source left t.balance_of
  got ← checked_add (balances target) amount
  done (record t { balance_of = set target got balances })

unfoldable pub transfer : (caller recipient amount : ℕ) → MockUsdc → Outcome (Bool × MockUsdc)
unfolding move
transfer caller recipient amount t = do
  require (leb amount (t.balance_of caller)) "insufficient balance"
  t' ← move caller recipient amount t
  done (true, t')

unfoldable pub transfer_from :
    (caller holder recipient amount : ℕ) → MockUsdc → Outcome (Bool × MockUsdc)
unfolding move
transfer_from caller holder recipient amount t = do
  require (leb amount (t.allowance holder caller)) "insufficient allowance"
  require (leb amount (t.balance_of holder)) "insufficient balance"
  allowed ← checked_sub (t.allowance holder caller) amount
  t' ←
      move holder recipient amount
        (record t { allowance = set_in holder caller allowed t.allowance })
  done (true, t')

-- A mock under each address of a token.
abbrev at : ℕ → Outcome (Bool × MockUsdc) → (ℕ → MockUsdc) → Outcome (Bool × (ℕ → MockUsdc))
at token called mocks = called >>= λ r. done (r.0, set token r.1 mocks)

abbrev pub mock_erc20 : Erc20 (ℕ → MockUsdc)
mock_erc20 = record {
  balance_of = λ token holder t. (t token).balance_of holder;
  allowance = λ token holder spender t. (t token).allowance holder spender;
  receives = λ token holder t. true;
  approve = λ token caller spender amount t. at token (approve caller spender amount (t token)) t;
  transfer =
      λ token caller recipient amount t. at token (transfer caller recipient amount (t token)) t;
  transfer_from = λ token caller holder recipient amount t.
      at token (transfer_from caller holder recipient amount (t token)) t;
}

move-moved :
    (source target amount : ℕ) (t t' : MockUsdc)
    → move source target amount t ≡ done t'
    → (holder : ℕ)
    → t'.balance_of holder + when (holder == source) amount
      ≡ t.balance_of holder + when (holder == target) amount
unfolding move
move-moved source target amount t t' e holder = ground arith

transfer-moved :
    (source target amount : ℕ) (t t' : MockUsdc)
    → transfer source target amount t ≡ done (true, t')
    → (holder : ℕ)
    → t'.balance_of holder + when (holder == source) amount
      ≡ t.balance_of holder + when (holder == target) amount
unfolding transfer move
transfer-moved source target amount t t' e holder = ground arith

transfer_from-moved :
    (caller source target amount : ℕ) (t t' : MockUsdc)
    → transfer_from caller source target amount t ≡ done (true, t')
    → (holder : ℕ)
    → t'.balance_of holder + when (holder == source) amount
      ≡ t.balance_of holder + when (holder == target) amount
unfolding transfer_from move
transfer_from-moved caller source target amount t t' e holder = ground arith

at-Moves :
    (token source target amount : ℕ) (called : Outcome (Bool × MockUsdc)) (t t' : ℕ → MockUsdc)
    → at token called t ≡ done (true, t')
    → ((u : MockUsdc)
        → called ≡ done (true, u)
        → (holder : ℕ)
        → u.balance_of holder + when (holder == source) amount
          ≡ (t token).balance_of holder + when (holder == target) amount)
    → Moves mock_erc20 token source target amount t t'
at-Moves token source target amount (done (b, u)) t t' e moves =
    let same : set token u t ≡ t' = cc in
    subst (Moves mock_erc20 token source target amount t) same (record {
      moved = λ holder. ground (arith, moves u (cc) holder);
      others = λ other holder ne. ground arith;
      receivers = λ other holder r. refl;
    })
at-Moves token source target amount (revert reason) t t' e moves = cc

-- A call that is not refused has an answer, which is true.
at-done :
    (token : ℕ) (called : Outcome (Bool × MockUsdc)) (t : ℕ → MockUsdc)
    → ((reason : String) → called ≢ revert reason)
    → ((u : MockUsdc) → called ≢ done (false, u))
    → (t' : ℕ → MockUsdc) × (at token called t ≡ done (true, t'))
at-done token (done (true, u)) t lives agrees = (set token u t, refl)
at-done token (done (false, u)) t lives agrees = absurd (agrees u refl)
at-done token (revert reason) t lives agrees = absurd (lives reason refl)

-- The mock keeps what the standard documents.
pub mock_erc20-IsErc20 : IsErc20 mock_erc20
unfolding transfer transfer_from move
mock_erc20-IsErc20 = record {
  transfer-Moves = λ token caller recipient amount t t' e.
      at-Moves token caller recipient amount (transfer caller recipient amount (t token)) t t' e
        (transfer-moved caller recipient amount (t token));
  transfer_from-Moves = λ token caller holder recipient amount t t' e.
      at-Moves token holder recipient amount
        (transfer_from caller holder recipient amount (t token)) t t' e
        (transfer_from-moved caller holder recipient amount (t token));
  transfer-done = λ token caller recipient amount t known enough room.
      at-done token (transfer caller recipient amount (t token)) t (λ reason e. ground arith)
        (λ u e. ground arith);
  transfer_from-done = λ token caller holder recipient amount t known allowed enough room.
      at-done token (transfer_from caller holder recipient amount (t token)) t
        (λ reason e. ground arith) (λ u e. ground arith);
  approve-done = λ token caller spender amount t.
      (_, refl, ground arith, λ other holder. ground arith, λ other holder r. refl);
}
