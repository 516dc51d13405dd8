-- ===== src/Service/Payments.antt =====
-- src/internal/league/service.go: paying and refunding. The tables are
-- those of Database; `QueryRow` takes the first row. An amount is an `int64`.
pub mod Laws
pub mod Once
pub mod Client
pub mod Commissioner
pub mod Handlers
use wagr.Common.{
  ℕ, String, Option, none, some, Bool, true, false, not, ◌&&◌, List, [], ◌∷◌, map, any, find_first,
  is_none, is_some, or_default, truthy_text, ◌===◌, if◌then◌else◌,
}
use wagr.Common.Int.{ℤ, pos, negsuc, ltb_ℤ}
use wagr.Go.{
  Error, Returned, returns, fails, other, not_commissioner, not_league_member, already_paid,
  payment_insufficient, league_already_cancelled, league_not_cancelled, mul64, ◌>>=◌,
}
use wagr.Database.{Database, LeagueRow, MemberRow, ProfileRow, UserRow}
use wagr.Service.Encoding.{uuid_to_bytes32}
use wagr.Service.Mirror.{
  Mirror, hedera_account_to_evm, get_account_evm_address, encode_payments_call,
  read_contract_payment,
}

-- The service's configuration, and what answers it while an operation runs: the mirror node, the clock,
-- and the database, whose queries may fail.
pub record World : Type 0 where
  pub escrow_contract_id : String
  pub usdc_token_id : String
  pub mirror : Mirror
  pub now : String
  pub query_fails : Option Error
  pub update_fails : Option Error
  pub reset_fails : Option Error
  pub format_dollars : ℤ → String

-- The profiles by which a user is a member: `pp.user_id = $2`, joined with the row.
abbrev pub is_of : String → MemberRow → ProfileRow → Bool
is_of user_id m p =
    p.user_id === user_id
    && (p.platform === m.platform && p.platform_user_id === m.platform_user_id)

abbrev pub is_membership : Database → (league_id user_id : String) → MemberRow → Bool
is_membership db league_id user_id m =
    m.league_id === league_id && any (is_of user_id m) db.profiles

abbrev pub league_row : Database → String → Option LeagueRow
league_row db league_id = find_first (λ l. l.id === league_id) db.leagues

abbrev pub member_row : Database → (league_id user_id : String) → Option MemberRow
member_row db league_id user_id = find_first (is_membership db league_id user_id) db.members

-- The query of a member with its league, and `pgx.ErrNoRows`.
abbrev pub joined : Option MemberRow → Option LeagueRow → Returned (MemberRow × LeagueRow)
joined (some m) (some l) = returns (m, l)
joined _ _ = fails not_league_member

abbrev pub query {ℓ} : {A : Type ℓ} → Option Error → Returned A → Returned A
query (some e) rows = fails e
query none rows = rows

unfoldable pub find_member :
    World → Database → (league_id user_id : String) → Returned (MemberRow × LeagueRow)
find_member w db league_id user_id =
    query w.query_fails (joined (member_row db league_id user_id) (league_row db league_id))

-- `COALESCE(u.wallet_address, lm.wallet_address, '')`
abbrev pub wallet_of : Database → String → MemberRow → String
wallet_of db user_id m = elim (find_first (λ u. u.id === user_id) db.users) [
  | some user ↦ user.wallet_address
  | none ↦ or_default m.wallet_address ""
]

-- Cents as units of USDC, of which a dollar has a million.
abbrev pub required_usdc : LeagueRow → ℤ
required_usdc l = mul64 l.entry_fee_cents (pos 10_000)

-- `PaymentInstructions`
pub record PaymentInstructions : Type 0 where
  pub contract_id : String
  pub usdc_token_id : String
  pub amount_usdc : ℤ
  pub amount_formatted : String

-- `InitiatePayment`
unfoldable pub initiate_payment :
    World → Database → (league_id user_id : String) → Returned PaymentInstructions
unfolding find_member
initiate_payment w db league_id user_id = find_member w db league_id user_id >>= λ (m, l).
    if m.payment_status === "paid"
    then fails already_paid
    else returns (record {
      contract_id = w.escrow_contract_id;
      usdc_token_id = w.usdc_token_id;
      amount_usdc = required_usdc l;
      amount_formatted = w.format_dollars l.entry_fee_cents;
    })

-- What the contract has as the payment of an account for a league.
unfoldable pub on_chain : World → (league_id wallet : String) → Returned ℤ
on_chain w league_id wallet = get_account_evm_address w.mirror wallet >>= λ member.
    (uuid_to_bytes32 league_id >>= λ league.
    (hedera_account_to_evm w.escrow_contract_id >>= λ contract.
    read_contract_payment w.mirror contract (encode_payments_call w.mirror league member)))

-- `SET payment_status = …, transaction_hash = …` of the member's rows.
abbrev pub mark_member :
    Database → (league_id user_id status : String) → Option String → MemberRow → MemberRow
mark_member db league_id user_id status tx m =
    if is_membership db league_id user_id m
    then record m { payment_status = status; transaction_hash = tx }
    else m

abbrev pub mark_members : (league_id user_id status : String) → Option String → Database → Database
mark_members league_id user_id status tx db = record db {
  members = map (mark_member db league_id user_id status tx) db.members;
}

-- A write that the database may refuse, after which nothing has changed.
abbrev pub update : Option Error → (Database → Database) → Database → Returned (Unit {0}) × Database
update (some e) f db = (fails e, db)
update none f db = (returns tt, f db)

-- A check, then what the operation writes.
abbrev pub after {ℓ} :
    {A : Type ℓ}
    → Returned A
    → (A → Database → Returned (Unit {0}) × Database)
    → Database
    → Returned (Unit {0}) × Database
after (fails e) f db = (fails e, db)
after (returns a) f db = f a db

-- The checks of `ConfirmPayment` before its write.
unfoldable pub check_payment : World → Database → (league_id user_id : String) → Returned (Unit {0})
unfolding find_member
check_payment w db league_id user_id = find_member w db league_id user_id >>= λ (m, l).
    if m.payment_status === "paid"
    then fails already_paid
    else on_chain w league_id (wallet_of db user_id m) >>= λ paid.
        if ltb_ℤ paid (required_usdc l) then fails payment_insufficient else returns tt

-- `ConfirmPayment`
unfoldable pub confirm_payment :
    World → (league_id user_id transaction_id : String) → Database → Returned (Unit {0}) × Database
confirm_payment w league_id user_id transaction_id db =
    after (check_payment w db league_id user_id)
      (λ _. update w.update_fails (mark_members league_id user_id "paid" (some transaction_id))) db

abbrev pub is_zero : ℤ → Bool
is_zero z = not (ltb_ℤ z (pos 0)) && not (ltb_ℤ (pos 0) z)

-- The checks of `ConfirmRefund` before its write.
unfoldable pub check_refund : World → Database → (league_id user_id : String) → Returned (Unit {0})
unfolding find_member
check_refund w db league_id user_id = find_member w db league_id user_id >>= λ (m, l).
    if not (m.payment_status === "paid")
    then fails payment_insufficient
    else if is_none l.cancelled_at
    then fails league_not_cancelled
    else on_chain w league_id (wallet_of db user_id m) >>= λ left.
        if not (is_zero left) then fails payment_insufficient else returns tt

-- `ConfirmRefund`
unfoldable pub confirm_refund :
    World → (league_id user_id transaction_id : String) → Database → Returned (Unit {0}) × Database
confirm_refund w league_id user_id transaction_id db =
    after (check_refund w db league_id user_id)
      (λ _. update w.update_fails (mark_members league_id user_id "refunded" (some transaction_id)))
      db
