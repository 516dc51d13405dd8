-- ===== src/Escrow/Events.antt =====
-- The events of src/contracts/src/LeagueEscrow.sol, and what an observer adds up from them.
use wagr.Common.{ℕ, ◌+◌, Bool, ◌&&◌, List, [], ◌∷◌, ◌==◌, if◌then◌else◌}

pub data Event : Type 0 where
  entry_fee_paid : (league member amount : ℕ) → Event
  payout_distributed : (league recipient amount : ℕ) → Event
  refund_claimed : (league member amount : ℕ) → Event

abbrev pub when : Bool → ℕ → ℕ
when test amount = if test then amount else 0

-- What was paid for a league, what its members got back, and what it paid out.
unfoldable pub received : ℕ → List Event → ℕ
received l [] = 0
received l (entry_fee_paid league member amount ∷ events) =
    when (league == l) amount + received l events
received l (_ ∷ events) = received l events

unfoldable pub refunded : ℕ → List Event → ℕ
refunded l [] = 0
refunded l (refund_claimed league member amount ∷ events) =
    when (league == l) amount + refunded l events
refunded l (_ ∷ events) = refunded l events

unfoldable pub distributed : ℕ → List Event → ℕ
distributed l [] = 0
distributed l (payout_distributed league recipient amount ∷ events) =
    when (league == l) amount + distributed l events
distributed l (_ ∷ events) = distributed l events

-- What one member paid for a league, and got back.
unfoldable pub received_from : ℕ → ℕ → List Event → ℕ
received_from l m [] = 0
received_from l m (entry_fee_paid league member amount ∷ events) =
    when (league == l && member == m) amount + received_from l m events
received_from l m (_ ∷ events) = received_from l m events

unfoldable pub refunded_to : ℕ → ℕ → List Event → ℕ
refunded_to l m [] = 0
refunded_to l m (refund_claimed league member amount ∷ events) =
    when (league == l && member == m) amount + refunded_to l m events
refunded_to l m (_ ∷ events) = refunded_to l m events
