-- ===== src/Escrow.antt =====
-- src/contracts/src/LeagueEscrow.sol: the contract that holds the entry fees. The token is the
-- interface `Erc20`; a call is a function from the chain to the chain or to a reason of reverting.
pub mod Token
pub mod MockUsdc
pub mod Events
pub mod Accounting
pub mod Calls
pub mod Solvency
pub mod Backing
pub mod Reached
pub mod Claims
pub mod Client
pub mod Pots
pub mod Payouts
use wagr.Common.{
  ℕ, String, Bool, true, false, ◌||◌, List, [], ◌∷◌, ◌==◌, ltb, leb, length, if◌then◌else◌,
}
use wagr.Common.Int.{ℤ, pos, negsuc}
use wagr.Evm.{Outcome, done, revert, require, checked_add, checked_sub, set, set_in, ◌>>=◌, ◌>>◌}
use wagr.Escrow.Token.{Erc20}
use wagr.Escrow.Events.{Event, entry_fee_paid, payout_distributed, refund_claimed}

-- The immutable values of the contract, and `address(this)`.
pub record Escrow : Type 0 where
  pub usdc : ℕ
  pub owner : ℕ
  pub self : ℕ

-- The storage of the contract, its events with the newest first, and what the tokens hold.
pub record Chain (T : Type 0) : Type 0 where
  pub payments : ℕ → ℕ → ℕ
  pub league_totals : ℕ → ℕ
  pub events : List Event
  pub tokens : T

-- The calls that the contract answers.
pub data Call : Type 0 where
  pay_entry_fee : (league amount : ℕ) → Call
  claim_refund : (league : ℕ) → Call
  distribute_payout : (league : ℕ) (recipients amounts : List ℕ) → Call
  emergency_withdraw : (token amount : ℕ) → Call

-- Whether a response code is that of success or of a token that is associated already.
abbrev pub is_associated_code : ℤ → Bool
is_associated_code (pos code) = code == 22 || code == 194
is_associated_code (negsuc code) = false

-- The constructor: `associate` is the precompile's `associateToken(address(this), _usdc)`.
unfoldable pub construct : (ℕ → ℕ → Outcome ℤ) → (sender self usdc : ℕ) → Outcome Escrow
construct associate sender self usdc = do
  code ← associate self usdc
  require (is_associated_code code) "USDC association failed"
  done (record { usdc = usdc; owner = sender; self = self })

-- `total += amounts[i]`, from the first amount to the last.
unfoldable pub add_amounts : ℕ → List ℕ → Outcome ℕ
add_amounts total [] = done total
add_amounts total (amount ∷ amounts) = checked_add total amount >>= λ sum. add_amounts sum amounts

module _ {T : Type 0} (erc20 : Erc20 T) (escrow : Escrow) where
  abbrev pub only_owner : ℕ → Outcome (Unit {0})
  only_owner sender = require (sender == escrow.owner) "not owner"

  unfoldable pub run_pay_entry_fee : (sender league amount : ℕ) → Chain T → Outcome (Chain T)
  run_pay_entry_fee sender league amount c = do
    require (ltb 0 amount) "amount must be > 0"
    paid ← checked_add (c.payments league sender) amount
    total ← checked_add (c.league_totals league) amount
    (is_ok, tokens) ← erc20.transfer_from escrow.usdc escrow.self sender escrow.self amount c.tokens
    require is_ok "USDC transfer failed"
    done (record {
      payments = set_in league sender paid c.payments;
      league_totals = set league total c.league_totals;
      events = entry_fee_paid league sender amount ∷ c.events;
      tokens = tokens;
    })

  unfoldable pub run_claim_refund : (sender league : ℕ) → Chain T → Outcome (Chain T)
  run_claim_refund sender league c = do
    let amount = c.payments league sender
    require (ltb 0 amount) "nothing to refund"
    total ← checked_sub (c.league_totals league) amount
    (is_ok, tokens) ← erc20.transfer escrow.usdc escrow.self sender amount c.tokens
    require is_ok "refund transfer failed"
    done (record {
      payments = set_in league sender 0 c.payments;
      league_totals = set league total c.league_totals;
      events = refund_claimed league sender amount ∷ c.events;
      tokens = tokens;
    })

  -- The loop that pays. `amounts[i]` past the end panics.
  unfoldable pub pay_out : (league : ℕ) (recipients amounts : List ℕ) → Chain T → Outcome (Chain T)
  pay_out league [] amounts c = done c
  pay_out league (recipient ∷ recipients) [] c = revert "Panic(0x32)"
  pay_out league (recipient ∷ recipients) (amount ∷ amounts) c = do
    (is_ok, tokens) ← erc20.transfer escrow.usdc escrow.self recipient amount c.tokens
    require is_ok "payout transfer failed"
    pay_out league recipients amounts (record c {
      events = payout_distributed league recipient amount ∷ c.events;
      tokens = tokens;
    })

  unfoldable pub run_distribute_payout :
      (sender league : ℕ) (recipients amounts : List ℕ) → Chain T → Outcome (Chain T)
  run_distribute_payout sender league recipients amounts c = do
    only_owner sender
    require (length recipients == length amounts) "length mismatch"
    total ← add_amounts 0 amounts
    require (leb total (c.league_totals league)) "payout exceeds league escrow"
    rest ← checked_sub (c.league_totals league) total
    pay_out league recipients amounts (record c { league_totals = set league rest c.league_totals })

  unfoldable pub run_emergency_withdraw : (sender token amount : ℕ) → Chain T → Outcome (Chain T)
  run_emergency_withdraw sender token amount c = do
    only_owner sender
    (is_ok, tokens) ← erc20.transfer token escrow.self escrow.owner amount c.tokens
    require is_ok "emergency withdrawal failed"
    done (record c { tokens = tokens })

  unfoldable pub execute : (sender : ℕ) → Call → Chain T → Outcome (Chain T)
  execute sender (pay_entry_fee league amount) c = run_pay_entry_fee sender league amount c
  execute sender (claim_refund league) c = run_claim_refund sender league c
  execute sender (distribute_payout league recipients amounts) c =
      run_distribute_payout sender league recipients amounts c
  execute sender (emergency_withdraw token amount) c = run_emergency_withdraw sender token amount c

  -- A transaction that reverts changes nothing.
  unfoldable pub transact : (sender : ℕ) → Call → Chain T → Chain T
  unfolding execute
  transact sender call c = elim (execute sender call c) [ done c' ↦ c' | revert reason ↦ c ]

  -- Calls with their senders, one after the other.
  unfoldable pub run_all : List (ℕ × Call) → Chain T → Chain T
  run_all [] c = c
  run_all ((sender, call) ∷ calls) c = run_all calls (transact sender call c)

-- The storage after the constructor.
abbrev pub fresh : {T : Type 0} → T → Chain T
fresh tokens = record {
  payments = λ league member. 0;
  league_totals = λ league. 0;
  events = [];
  tokens = tokens;
}
