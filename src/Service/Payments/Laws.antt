-- ===== src/Service/Payments/Laws.antt =====
-- What the service has checked when it marks a member.
use native.Mathlib.Nat.{mul-zero, zero-mul}
use wagr.Common.{
  any, map, ◌&&◌, if◌then◌else◌, ℕ, ◌*◌, ◌<◌, ◌≤◌, ◌^◌, String, some, true, false, ◌≡◌, ◌⊎◌, inl,
  inr, ◌===◌, arith, is_none, Option-cases, subst,
}
use wagr.Common.Int.{ℤ, pos, negsuc, ltb_ℤ, ◌*ℤ◌}
use wagr.Go.{Error, Returned, Returned-cases, returns, fails, int64-pos}
use wagr.Database.{Database, LeagueRow, MemberRow, ProfileRow}
use wagr.Service.Payments.{
  World, find_member, member_row, league_row, wallet_of, required_usdc, on_chain, mark_members,
  check_payment, confirm_payment, check_refund, confirm_refund, is_zero,
}

-- An operation that refuses, or writes once what it was to write.
abbrev pub Writes : Database → Returned (Unit {0}) × Database → Database → Type 0 → Type 0
Writes db (r, db') written P =
    ((e : Error) × (r ≡ fails e) × (db' ≡ db)) ⊎ ((r ≡ returns tt) × (db' ≡ written) × P)

pub times_pos : (a b : ℕ) → pos a *ℤ pos b ≡ pos (a * b)
unfolding ◌*ℤ◌
times_pos a b = ground (arith, zero-mul b, mul-zero a)

pub required_usdc-pos :
    (l : LeagueRow) (fee : ℕ)
    → l.entry_fee_cents ≡ pos fee
    → fee * 10_000 < 2 ^ 63
    → required_usdc l ≡ pos (fee * 10_000)
required_usdc-pos l fee costs small =
    rw (costs, times_pos fee 10_000) (int64-pos (fee * 10_000) small)

module _ (w : World) (league_id user_id transaction_id : String) (db : Database) where
  -- The member of the league that the user is, and what the contract has for its account.
  pub record IsPaid (m : MemberRow) (l : LeagueRow) (paid : ℤ) : Type 0 where
    pub found : find_member w db league_id user_id ≡ returns (m, l)
    pub unpaid : (m.payment_status === "paid") ≡ false
    pub read : on_chain w league_id (wallet_of db user_id m) ≡ returns paid
    pub enough : ltb_ℤ paid (required_usdc l) ≡ false

  check_payment-IsPaid :
      check_payment w db league_id user_id ≡ returns tt
      → (m : MemberRow) × (l : LeagueRow) × (paid : ℤ) × IsPaid m l paid
  unfolding check_payment
  check_payment-IsPaid h = elim (Returned-cases (find_member w db league_id user_id)) [
    | inl (e, missing) ↦ absurd (ground (arith, h, missing))
    | inr ((m, l), found) ↦ elim (Returned-cases (on_chain w league_id (wallet_of db user_id m))) [
      | inl (e, unread) ↦ absurd (ground (arith, h, found, unread))
      | inr (paid, read) ↦ (
        m,
        l,
        paid,
        record {
          found = found;
          unpaid = ground (arith, h, found);
          read = read;
          enough = ground (arith, h, found, read);
        },
      )
    ]
  ]

  -- The refund of a member that has paid, in a league that is cancelled, and that the contract has
  -- nothing of.
  pub record IsRefunded (m : MemberRow) (l : LeagueRow) (left : ℤ) : Type 0 where
    pub found : find_member w db league_id user_id ≡ returns (m, l)
    pub was_paid : (m.payment_status === "paid") ≡ true
    pub cancelled : is_none l.cancelled_at ≡ false
    pub read : on_chain w league_id (wallet_of db user_id m) ≡ returns left
    pub nothing : left ≡ pos 0

  is_zero-pos : (z : ℤ) → is_zero z ≡ true → z ≡ pos 0
  is_zero-pos z h = ground (arith, h)

  check_refund-IsRefunded :
      check_refund w db league_id user_id ≡ returns tt
      → (m : MemberRow) × (l : LeagueRow) × (left : ℤ) × IsRefunded m l left
  unfolding check_refund
  check_refund-IsRefunded h = elim (Returned-cases (find_member w db league_id user_id)) [
    | inl (e, missing) ↦ absurd (ground (arith, h, missing))
    | inr ((m, l), found) ↦ elim (Returned-cases (on_chain w league_id (wallet_of db user_id m))) [
      | inl (e, unread) ↦ absurd (ground (arith, h, found, unread))
      | inr (left, read) ↦ (
        m,
        l,
        left,
        record {
          found = found;
          was_paid = ground (arith, h, found);
          cancelled = ground (arith, h, found);
          read = read;
          nothing = is_zero-pos left (ground (arith, h, found, read));
        },
      )
    ]
  ]

  -- Either an error is returned and the database is as it was, or the user's rows of the league have
  -- the status `paid` and the transaction, and nothing else has changed. Then the user is a member
  -- that was not paid, and what the contract had for its wallet passed the comparison with the fee.
  pub confirm_payment-IsPaid :
      Writes db
        (confirm_payment w league_id user_id transaction_id db)
        (mark_members league_id user_id "paid" (some transaction_id) db)
        ((m : MemberRow) × (l : LeagueRow) × (paid : ℤ) × IsPaid m l paid)
  unfolding confirm_payment
  confirm_payment-IsPaid = elim (Returned-cases (check_payment w db league_id user_id)) [
    | inl (e, bad) ↦ inl (e, ground (arith, bad), ground (arith, bad))
    | inr (u, good) ↦ elim (Option-cases w.update_fails) [
      | inl writes ↦
          inr
            (ground (arith, good, writes), ground (arith, good, writes), check_payment-IsPaid good)
      | inr (e, broken) ↦ inl (e, ground (arith, good, broken), ground (arith, good, broken))
    ]
  ]

  -- Either an error is returned and the database is as it was, or the user's rows of the league have
  -- the status `refunded` and the transaction, and nothing else has changed. Then the user is a member
  -- that was paid, the league is cancelled, and the contract had nothing for its wallet.
  pub confirm_refund-Writes :
      Writes db
        (confirm_refund w league_id user_id transaction_id db)
        (mark_members league_id user_id "refunded" (some transaction_id) db)
        ((m : MemberRow) × (l : LeagueRow) × (left : ℤ) × IsRefunded m l left)
  unfolding confirm_refund
  confirm_refund-Writes = elim (Returned-cases (check_refund w db league_id user_id)) [
    | inl (e, bad) ↦ inl (e, ground (arith, bad), ground (arith, bad))
    | inr (u, good) ↦ elim (Option-cases w.update_fails) [
      | inl writes ↦
          inr (
            ground (arith, good, writes),
            ground (arith, good, writes),
            check_refund-IsRefunded good,
          )
      | inr (e, broken) ↦ inl (e, ground (arith, good, broken), ground (arith, good, broken))
    ]
  ]

  -- The league of the row that the query finds.
  find_member-league :
      (m : MemberRow) (l : LeagueRow)
      → find_member w db league_id user_id ≡ returns (m, l)
      → (league : LeagueRow) → league_row db league_id ≡ some league
      → l ≡ league
  unfolding find_member
  find_member-league m l found league there = elim (Option-cases w.query_fails) [
    | inr (e, broken) ↦ absurd (ground (arith, found, broken))
    | inl works ↦ elim (Option-cases (member_row db league_id user_id)) [
      | inl missing ↦ absurd (ground (arith, found, works, missing))
      | inr (m', here) ↦ ground (arith, found, works, here, there)
    ]
  ]

  -- The contract’s word for the user, a member of the league that was not paid, is no less than the
  -- fee of `fee` cents in millionths of a dollar.
  pub record HasFee (m : MemberRow) (l : LeagueRow) (fee paid : ℕ) : Type 0 where
    pub found : find_member w db league_id user_id ≡ returns (m, l)
    pub unpaid : (m.payment_status === "paid") ≡ false
    pub read : on_chain w league_id (wallet_of db user_id m) ≡ returns (pos paid)
    pub enough : fee * 10_000 ≤ paid

  HasFee-of_IsPaid :
      (m : MemberRow) (l : LeagueRow) (fee : ℕ) (paid : ℤ)
      → l.entry_fee_cents ≡ pos fee
      → fee * 10_000 < 2 ^ 63
      → IsPaid m l paid
      → (n : ℕ) × HasFee m l fee n
  HasFee-of_IsPaid m l fee (pos n) costs small h = (
    n,
    record {
      found = h.found;
      unpaid = h.unpaid;
      read = h.read;
      enough = ground (arith, h.enough, required_usdc-pos l fee costs small);
    },
  )
  HasFee-of_IsPaid m l fee (negsuc n) costs small h =
      absurd (ground (arith, h.enough, required_usdc-pos l fee costs small))

  -- In a league whose fee, of `fee` cents, is not negative, and in millionths of a dollar below 2 ^ 63,
  -- a confirmation either returns an error and leaves the database as it was, or the rows of
  -- the league that a profile of the user joins have the status `paid` and the transaction, and nothing
  -- else has changed. Then the user is a
  -- member that was not paid, and the contract had at least 10,000 millionths of a dollar for its wallet
  -- for each cent of the fee.
  pub confirm_payment-Writes :
      (league : LeagueRow) (fee : ℕ)
      → league_row db league_id ≡ some league
      → league.entry_fee_cents ≡ pos fee
      → fee * 10_000 < 2 ^ 63
      → let paid_by_them = λ (m : MemberRow).
        if (m.league_id === league_id
          && any
              (λ (p : ProfileRow).
                p.user_id === user_id
                && (p.platform === m.platform && p.platform_user_id === m.platform_user_id))
              db.profiles)
        then record m { payment_status = "paid"; transaction_hash = some transaction_id }
        else m in
        Writes db
          (confirm_payment w league_id user_id transaction_id db)
          (record db { members = map paid_by_them db.members })
          ((m : MemberRow) × (paid : ℕ) × HasFee m league fee paid)
  confirm_payment-Writes league fee there costs small = elim confirm_payment-IsPaid [
    | inl failed ↦ inl failed
    | inr (ended, written, (m, l, paid, h)) ↦
        let same : l ≡ league = find_member-league m l h.found league there in
        let (n, has) =
          HasFee-of_IsPaid m league fee paid costs small (subst (λ x. IsPaid m x paid) same h) in
        inr (ended, written, (m, n, has))
  ]
