-- ===== src/Oracle/Status/Rows.antt =====
-- Where a refresh can take the rows of the leagues.
use wagr.Common.{
  ℕ, ◌≤◌, String, some, Bool, true, false, List, [], ◌∷◌, ◌≡◌, ◌⊎◌, inl, inr, refl, eq_iff,
  or_default, is_none, ◌===◌, Bool-cases, arith, subst, ◌∙◌, sym, ap,
}
use wagr.Go.{Returned-cases}
use wagr.Database.{LeagueRow}
use wagr.Oracle.Status.{
  World, league_status_rank, effective_status, next_after, next_league_status, stored_status,
  set_status, update_status, write_next, refresh_one, refresh_league_statuses,
}
use wagr.Oracle.Status.Laws.{Writes, next_after-Writes}

-- A row after a refresh: only its status may differ, and then it is a later one, or `in_season` in place
-- of `post_season`, but never `complete`.
abbrev pub Reaches : (effective next : String) → Type 0
Reaches effective next =
    (a : ℕ) × (b : ℕ) × (league_status_rank effective ≡ some a)
    × (league_status_rank next ≡ some b)
    × (a ≤ b)
    × (b ≤ 2)

Reaches_of_Writes : (effective next : String) → Writes effective next → Reaches effective next
unfolding league_status_rank
Reaches_of_Writes effective next (a, b, ra, rb, small, inl lt) = (a, b, ra, rb, omega arith, small)
Reaches_of_Writes effective next (a, b, ra, rb, small, inr (playoffs, season)) =
    (2, 2, rw playoffs refl, rw season refl, omega arith, omega arith)

pub record Advances (l l' : LeagueRow) : Type 0 where
  pub kept : l' ≡ record l { status = l'.status }
  pub moved :
      (l'.status ≡ l.status)
      ⊎ ((s : String) × (l'.status ≡ some s) × Reaches (effective_status (stored_status l)) s)

Advances-refl : (l : LeagueRow) → Advances l l
Advances-refl l = record { kept = refl; moved = inl refl }

ranked-effective : (s : String) (b : ℕ) → league_status_rank s ≡ some b → effective_status s ≡ s
unfolding league_status_rank
ranked-effective s b h = elim (Bool-cases (s === "")) [
  | inl empty ↦ let e = (eq_iff s "").0 empty in let h' = rw e at h in ground (arith, h')
  | inr other ↦ rw other refl
]

Reaches-trans : (e s t : String) → Reaches e s → Reaches (effective_status s) t → Reaches e t
Reaches-trans e s t (a, b, ra, rb, le, small) (a', b', ra', rb', le', small') =
    let same : b ≡ a' =
      let e' = ranked-effective s b rb in let r = rw e' at ra' in ground (arith, r) in
    (a, b', ra, rb', omega arith, small')

Advances-trans : (l m n : LeagueRow) → Advances l m → Advances m n → Advances l n
Advances-trans l m n f g = record {
  kept = ground (arith, f.kept, g.kept);
  moved = elim g.moved [
    | inl same ↦ elim f.moved [
      | inl still ↦ inl (same ∙ still)
      | inr (s, e, r) ↦ inr (s, same ∙ e, r)
    ]
    | inr (t, e, r) ↦ elim f.moved [
      | inl still ↦ inr (t, e, rw (← still) r)
      | inr (s, e', r') ↦ inr (
        t,
        e,
        Reaches-trans _ s t r' (subst (λ o. Reaches (effective_status (or_default o "")) t) e' r),
      )
    ]
  ];
}

-- The rows of the table, each against what it was.
abbrev pub RowsAdvance : List LeagueRow → List LeagueRow → Type 0
RowsAdvance [] [] = Unit
RowsAdvance (l ∷ rows) (l' ∷ rows') = Advances l l' × RowsAdvance rows rows'
RowsAdvance _ _ = ⊥

RowsAdvance-refl : (rows : List LeagueRow) → RowsAdvance rows rows
RowsAdvance-refl [] = tt
RowsAdvance-refl (l ∷ rows) = (Advances-refl l, RowsAdvance-refl rows)

RowsAdvance-trans :
    (xs ys zs : List LeagueRow) → RowsAdvance xs ys → RowsAdvance ys zs → RowsAdvance xs zs
RowsAdvance-trans [] [] [] f g = tt
RowsAdvance-trans (x ∷ xs) (y ∷ ys) (z ∷ zs) (f, fs) (g, gs) =
    (Advances-trans x y z f g, RowsAdvance-trans xs ys zs fs gs)
RowsAdvance-trans [] (y ∷ ys) zs f g = absurd f
RowsAdvance-trans (x ∷ xs) [] zs f g = absurd f
RowsAdvance-trans [] [] (z ∷ zs) f g = absurd g
RowsAdvance-trans (x ∷ xs) (y ∷ ys) [] f g = absurd g

set_status-Advances :
    (league_id old new : String) (l : LeagueRow)
    → Reaches (effective_status old) new
    → Advances l (set_status league_id old new l)
set_status-Advances league_id old new l r = elim (Bool-cases (l.id === league_id)) [
  | inl here ↦ elim (Bool-cases (stored_status l === old)) [
    | inl same ↦
        rw (here, same)
          (record {
            kept = refl;
            moved = inr (
              new,
              refl,
              subst (λ s. Reaches (effective_status s) new) (sym ((eq_iff _ _).0 same)) r,
            );
          })
    | inr other ↦ rw (here, other) (Advances-refl l)
  ]
  | inr elsewhere ↦ rw elsewhere (Advances-refl l)
]

update_status-Advances :
    (league_id old new : String) (rows : List LeagueRow)
    → Reaches (effective_status old) new
    → RowsAdvance rows (update_status league_id old new rows)
unfolding update_status
update_status-Advances league_id old new [] r = tt
update_status-Advances league_id old new (l ∷ rows) r =
    (set_status-Advances league_id old new l r, update_status-Advances league_id old new rows r)

write_next-RowsAdvance :
    (w : World) (l : LeagueRow) (next : String) (is_new : Bool) (rows : List LeagueRow)
    → (is_new ≡ true → Reaches (effective_status (stored_status l)) next)
    → RowsAdvance rows (write_next w l (next, is_new) rows)
write_next-RowsAdvance w l next false rows r = RowsAdvance-refl rows
write_next-RowsAdvance w l next true rows r = elim (Bool-cases (w.update_fails l.id)) [
  | inl failed ↦ rw failed (RowsAdvance-refl rows)
  | inr wrote ↦ rw wrote (update_status-Advances l.id (stored_status l) next rows (r refl))
]

refresh_one-RowsAdvance :
    (w : World) (l : LeagueRow) (rows : List LeagueRow) → RowsAdvance rows (refresh_one w l rows)
unfolding refresh_one next_league_status
refresh_one-RowsAdvance w l rows =
    elim (Returned-cases (w.platform_status l.platform l.platform_league_id)) [
      | inl (e, failed) ↦ rw (failed, refresh_one) (RowsAdvance-refl rows)
      | inr (platform, answered) ↦ elim (Bool-cases (is_none (league_status_rank platform))) [
        | inl strange ↦ rw (answered, refresh_one) (rw strange (RowsAdvance-refl rows))
        | inr known ↦
            let r = next_after (stored_status l) (effective_status (stored_status l)) platform in
            rw (answered, refresh_one)
              (rw known (
                write_next-RowsAdvance w l r.0 r.1 rows (λ is_new. Reaches_of_Writes _ _ (
                  next_after-Writes (stored_status l) (effective_status (stored_status l)) platform
                    r.0 (ap (λ b. (r.0, b)) is_new)))))
      ]
    ]

-- A refresh, whatever the platforms answer, whichever updates fail and however old the rows are that it
-- has read: of each row of the table only the status may differ after it, and then the new status is
-- one that does not come before the old one and is not `complete`.
pub refresh_league_statuses-RowsAdvance :
    (w : World) (leagues rows : List LeagueRow)
    → RowsAdvance rows (refresh_league_statuses w leagues rows)
unfolding refresh_league_statuses
refresh_league_statuses-RowsAdvance w [] rows = RowsAdvance-refl rows
refresh_league_statuses-RowsAdvance w (l ∷ leagues) rows =
    RowsAdvance-trans rows (refresh_one w l rows) _ (refresh_one-RowsAdvance w l rows)
      (refresh_league_statuses-RowsAdvance w leagues (refresh_one w l rows))
