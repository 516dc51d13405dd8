-- ===== src/Oracle/SeasonEnd.antt =====
-- The payouts at a season's end in src/internal/league/service_oracle.go: `settleSeasonEnd`, cut at
-- its writes to the database and its call of the contract. Places and rosters are natural numbers.
pub mod Runs
pub mod Once
pub mod Laws
pub mod Funded
pub mod Wiring
use wagr.Common.{
  ℕ, zero, suc, String, Option, none, some, Bool, true, false, not, ◌&&◌, List, [], ◌∷◌, map,
  keep_if, ◌===◌, ◌==◌, truthy_text, if◌then◌else◌,
}
use wagr.Common.Int.{ℤ, pos, negsuc, ltb_ℤ}
use wagr.Go.{Error, other, insufficient_escrow, Returned, returns, fails, add64, mul64}
use wagr.Database.{PayoutStatus, pending, executing, executed, failed}
use wagr.Service.Encoding.{uuid_to_bytes32}

-- `PayoutEntry` of src/internal/league/models.go. The threshold is that of its criteria, where it has some.
pub record PayoutEntry : Type 0 where
  pub entry_type : String
  pub bonus_type : String
  pub place : ℕ
  pub amount_cents : ℤ
  pub threshold : Option ℤ

-- `oracleLeague`
pub record OracleLeague : Type 0 where
  pub id : String
  pub platform : String
  pub platform_league_id : String
  pub payout_structure : List PayoutEntry

-- What the job reads of a member, and of a place in the final standings.
pub record Member : Type 0 where
  pub roster_id : ℕ
  pub wallet_address : String

pub record Standing : Type 0 where
  pub roster_id : ℕ
  pub place : ℕ

-- `resolvedPayout`
pub record ResolvedPayout : Type 0 where
  pub roster_id : ℕ
  pub place : ℕ
  pub amount_cents : ℤ
  pub evm_addr : ℕ

-- What the platform, the mirror node, the contract and the database answer to one run.
pub record World : Type 0 where
  pub platform_status : Returned String
  pub final_standings : Returned (List Standing)
  pub members : Returned (List Member)
  pub resolve_evm : String → Returned ℕ
  pub escrow_balance : List ℕ → Returned ℤ
  pub distribute : (league : List ℕ) (recipients : List ℕ) (amounts : List ℤ) → Returned String
  pub write_fails : Option Error

-- A map that is filled in a loop: the last element with the key.
unfoldable pub find_last {ℓ} : {A : Type ℓ} → (A → Bool) → List A → Option A
find_last p [] = none
find_last p (x ∷ xs) = elim (find_last p xs) [
  | some y ↦ some y
  | none ↦ if p x then some x else none
]

abbrev pub placements : List PayoutEntry → List PayoutEntry
placements entries = keep_if (λ e. e.entry_type === "placement") entries

-- One round of the loop over the standings.
unfoldable pub resolve_one :
    World → List PayoutEntry → List Member → Standing → Option ResolvedPayout
resolve_one w entries members s = elim (find_last (λ e. e.place == s.place) entries) [
  | none ↦ none
  | some entry ↦ elim (find_last (λ m. m.roster_id == s.roster_id) members) [
    | none ↦ none
    | some member ↦
        if not (truthy_text member.wallet_address)
        then none
        else elim (w.resolve_evm member.wallet_address) [
          | fails e ↦ none
          | returns addr ↦ some (record {
            roster_id = member.roster_id;
            place = s.place;
            amount_cents = entry.amount_cents;
            evm_addr = addr;
          })
        ]
  ]
]

unfoldable pub resolve :
    World → List PayoutEntry → List Member → List Standing → List ResolvedPayout
unfolding resolve_one
resolve w entries members [] = []
resolve w entries members (s ∷ standings) =
    let rest = resolve w entries members standings in
    elim (resolve_one w entries members s) [ none ↦ rest | some payout ↦ payout ∷ rest ]

-- Cents as units of USDC, of which a dollar has a million.
abbrev pub amount_of : ResolvedPayout → ℤ
amount_of r = mul64 r.amount_cents (pos 10_000)

abbrev pub total_of : ℤ → List ℤ → ℤ
total_of total [] = total
total_of total (amount ∷ amounts) = total_of (add64 total amount) amounts

-- The writes and the call by which a run goes on, and its end.
pub data Stage : Type 0 where
  starts : Stage
  settles_unpaid : Stage
  claims sends : (league : List ℕ) → List ResolvedPayout → Stage
  marks_failed : Error → Stage
  marks_executed : List ResolvedPayout → (tx_hash : String) → Stage
  ended : Returned (Unit {0}) → Stage

-- From the answer for the escrow's balance on.
abbrev pub check_balance : List ℕ → List ResolvedPayout → Returned ℤ → Stage
check_balance league resolved (fails e) = ended (fails e)
check_balance league resolved (returns balance) =
    if ltb_ℤ balance (total_of (pos 0) (map amount_of resolved))
    then ended (fails insufficient_escrow)
    else claims league resolved

abbrev pub check_league : World → List ResolvedPayout → Returned (List ℕ) → Stage
check_league w resolved (fails e) = ended (fails e)
check_league w resolved (returns league) = check_balance league resolved (w.escrow_balance league)

abbrev pub check_resolved : World → OracleLeague → List ResolvedPayout → Stage
check_resolved w league [] = settles_unpaid
check_resolved w league (r ∷ resolved) = check_league w (r ∷ resolved) (uuid_to_bytes32 league.id)

abbrev pub plan_with : World → OracleLeague → List PayoutEntry → Stage
plan_with w league [] = settles_unpaid
plan_with w league (e ∷ entries) = elim w.final_standings [
  | fails err ↦ ended (fails err)
  | returns standings ↦ elim w.members [
    | fails err ↦ ended (fails err)
    | returns members ↦ check_resolved w league (resolve w (e ∷ entries) members standings)
  ]
]

-- The reads of `settleSeasonEnd`, up to its first write.
unfoldable pub plan : World → OracleLeague → Stage
unfolding resolve
plan w league = elim w.platform_status [
  | fails e ↦ ended (fails e)
  | returns status ↦
      if status === "complete"
      then plan_with w league (placements league.payout_structure)
      else ended (returns tt)
]
