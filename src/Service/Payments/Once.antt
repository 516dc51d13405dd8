-- ===== src/Service/Payments/Once.antt =====
-- A payment that was confirmed is not confirmed again.
use wagr.Common.{
  String, Option, none, some, find_first, List, [], ◌∷◌, map, ◌≡◌, refl, Bool-cases, arith, inl,
  inr, Option-cases,
}
use wagr.Go.{already_paid, returns, fails}
use wagr.Database.{Database, LeagueRow, MemberRow}
use wagr.Service.Payments.{
  World, find_member, joined, league_row, member_row, is_membership, mark_member, mark_members,
  check_payment, confirm_payment, initiate_payment,
}
use wagr.Service.Payments.Laws.{confirm_payment-IsPaid}

module _ (league_id user_id status : String) (tx : Option String) (db : Database) where
  -- Marking rows does not change which of them are the user's.
  find_marked :
      (members : List MemberRow)
      → find_first
          (is_membership db league_id user_id)
          (map (mark_member db league_id user_id status tx) members)
        ≡ elim (find_first (is_membership db league_id user_id) members) [
          | none ↦ none
          | some m ↦ some (record m { payment_status = status; transaction_hash = tx })
        ]
  find_marked [] = refl
  find_marked (m ∷ members) = elim (Bool-cases (is_membership db league_id user_id m)) [
    | inl found ↦ ground (arith, found)
    | inr other ↦ ground (arith, other, find_marked members)
  ]

-- The query of a member that was marked finds the row as it was written.
find_member-mark_members :
    (w : World) (league_id user_id status : String) (tx : Option String) (db : Database)
    (m : MemberRow) (l : LeagueRow)
    → w.query_fails ≡ none
    → joined (member_row db league_id user_id) (league_row db league_id) ≡ returns (m, l)
    → find_member w (mark_members league_id user_id status tx db) league_id user_id
      ≡ returns (record m { payment_status = status; transaction_hash = tx }, l)
unfolding find_member
find_member-mark_members w league_id user_id status tx db m l works found =
    elim (Option-cases (member_row db league_id user_id)) [
      | inl missing ↦ absurd (ground (arith, found, missing))
      | inr (m', there) ↦ elim (Option-cases (league_row db league_id)) [
        | inl missing ↦ absurd (ground (arith, found, there, missing))
        | inr (l', here) ↦ ground (
          arith,
          found,
          there,
          here,
          works,
          find_marked league_id user_id status tx db db.members,
        )
      ]
    ]

joined-of_find_member :
    (w : World) (league_id user_id : String) (db : Database) (row : MemberRow × LeagueRow)
    → find_member w db league_id user_id ≡ returns row
    → joined (member_row db league_id user_id) (league_row db league_id) ≡ returns row
unfolding find_member
joined-of_find_member w league_id user_id db row found = elim (Option-cases w.query_fails) [
  | inl works ↦ ground (arith, found, works)
  | inr (e, broken) ↦ absurd (ground (arith, found, broken))
]

module _ (w w' : World) (league_id user_id transaction_id again : String) (db : Database) where
  -- Where a confirmation of a payment returned no error, and while queries work, starting the payment
  -- and confirming it again, with any transaction, are refused as already paid, and the database stays
  -- as the first confirmation left it.
  pub confirm_payment-once :
      let (r, db') = confirm_payment w league_id user_id transaction_id db in
      r ≡ returns tt
      → w'.query_fails ≡ none
      → (confirm_payment w' league_id user_id again db' ≡ (fails already_paid, db'))
        × (initiate_payment w' db' league_id user_id ≡ fails already_paid)
  unfolding confirm_payment check_payment initiate_payment
  confirm_payment-once done works =
      elim (confirm_payment-IsPaid w league_id user_id transaction_id db) [
        | inl (e, failed, same) ↦ cc
        | inr (ended, written, (m, l, paid, was)) ↦
            let there =
              find_member-mark_members w' league_id user_id "paid" (some transaction_id) db m l
                works (joined-of_find_member w league_id user_id db (m, l) was.found) in
            rw written (ground (arith, there), ground (arith, there))
      ]
