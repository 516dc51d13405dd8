-- ===== src/Overview/Panel/Ranking.antt =====
-- The list of teams that the page shows.
use mathlib.Core.List.{Perm}
use mathlib.Core.List.Perm
use wagr.Common.{List, [], ◌∷◌, arith, All, Bool-cases, inl, inr}
use wagr.Common.Int.{ℤ, ◌≤ℤ◌, ltb_ℤ}
use wagr.Types.League.{LeagueMember}
use wagr.Overview.Panel.{insert_member, sorted_members}

-- Every member has at least the points of all that come later.
abbrev pub IsRanked : List LeagueMember → Type 0
IsRanked [] = Unit
IsRanked (m ∷ members) = All (λ n. n.total_points ≤ℤ m.total_points) members × IsRanked members

insert_member-All :
    (z : ℤ) (m : LeagueMember) (members : List LeagueMember)
    → m.total_points ≤ℤ z
    → All (λ n. n.total_points ≤ℤ z) members
    → All (λ n. n.total_points ≤ℤ z) (insert_member m members)
unfolding insert_member
insert_member-All z m [] h k = (h, tt)
insert_member-All z m (n ∷ members) h (p, k) = ground (arith, insert_member-All z m members h k)

All-weaken :
    (y z : ℤ) (members : List LeagueMember)
    → y ≤ℤ z
    → All (λ n. n.total_points ≤ℤ y) members
    → All (λ n. n.total_points ≤ℤ z) members
All-weaken y z [] h k = tt
All-weaken y z (n ∷ members) h (p, k) = (omega arith, All-weaken y z members h k)

insert_member-IsRanked :
    (m : LeagueMember) (members : List LeagueMember)
    → IsRanked members
    → IsRanked (insert_member m members)
unfolding insert_member
insert_member-IsRanked m [] h = (tt, tt)
insert_member-IsRanked m (n ∷ members) (p, h) =
    elim (Bool-cases (ltb_ℤ m.total_points n.total_points)) [
      | inl lower ↦ rw lower (
        insert_member-All n.total_points m members (ground arith) p,
        insert_member-IsRanked m members h,
      )
      | inr upper ↦
          let above : n.total_points ≤ℤ m.total_points = ground arith in
          rw upper ((above, All-weaken n.total_points m.total_points members above p), (p, h))
    ]

insert_member-perm :
    (m : LeagueMember) (members : List LeagueMember) → Perm (insert_member m members) (m ∷ members)
unfolding insert_member
insert_member-perm m [] = Perm.refl (m ∷ [])
insert_member-perm m (n ∷ members) = elim (Bool-cases (ltb_ℤ m.total_points n.total_points)) [
  | inl lower ↦
      rw lower (Perm.trans (Perm.cons n (insert_member-perm m members)) (Perm.swap m n members))
  | inr upper ↦ rw upper (Perm.refl _)
]

-- The page lists every member once, by falling points.
pub sorted_members-IsRanked :
    (members : List LeagueMember)
    → IsRanked (sorted_members members) × Perm (sorted_members members) members
unfolding sorted_members
sorted_members-IsRanked [] = (tt, Perm.refl [])
sorted_members-IsRanked (m ∷ members) =
    let (ranked, same) = sorted_members-IsRanked members in
    (
      insert_member-IsRanked m (sorted_members members) ranked,
      Perm.trans (insert_member-perm m (sorted_members members)) (Perm.cons m same),
    )
