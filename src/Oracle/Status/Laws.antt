-- ===== src/Oracle/Status/Laws.antt =====
-- Which status an update writes.
use wagr.Common.{
  ℕ, ◌≤◌, ◌<◌, String, none, some, true, ◌≡◌, ◌⊎◌, inl, inr, refl, eq_iff, ◌===◌, Bool-cases,
  Option-cases, arith,
}
use wagr.Oracle.Status.{league_status_rank, canonical_league_status, next_after}

-- A text is one of the five statuses or has no rank.
data Status (s : String) : Type 0 where
  pre_draft : s ≡ "pre_draft" → Status s
  drafting : s ≡ "drafting" → Status s
  in_season : s ≡ "in_season" → Status s
  post_season : s ≡ "post_season" → Status s
  complete : s ≡ "complete" → Status s
  unknown : league_status_rank s ≡ none → canonical_league_status s ≡ s → Status s

status_of : (s : String) → Status s
unfolding league_status_rank canonical_league_status
status_of s = elim (Bool-cases (s === "pre_draft")) [
  | inl e ↦ pre_draft ((eq_iff s "pre_draft").0 e)
  | inr e1 ↦ elim (Bool-cases (s === "drafting")) [
    | inl e ↦ drafting ((eq_iff s "drafting").0 e)
    | inr e2 ↦ elim (Bool-cases (s === "in_season")) [
      | inl e ↦ in_season ((eq_iff s "in_season").0 e)
      | inr e3 ↦ elim (Bool-cases (s === "post_season")) [
        | inl e ↦ post_season ((eq_iff s "post_season").0 e)
        | inr e4 ↦ elim (Bool-cases (s === "complete")) [
          | inl e ↦ complete ((eq_iff s "complete").0 e)
          | inr e5 ↦ unknown (ground (arith, e1, e2, e3, e4, e5)) (ground (arith, e4, e5))
        ]
      ]
    ]
  ]
]

-- What an update writes: never `complete`, and never a status that comes before the one it replaces.
abbrev pub Writes : (effective next : String) → Type 0
Writes effective next =
    (a : ℕ) × (b : ℕ) × (league_status_rank effective ≡ some a)
    × (league_status_rank next ≡ some b)
    × (b ≤ 2)
    × ((a < b) ⊎ ((effective ≡ "post_season") × (next ≡ "in_season")))

canonical_rank_le :
    (s : String) (b : ℕ) → league_status_rank (canonical_league_status s) ≡ some b → b ≤ 2
unfolding league_status_rank canonical_league_status
canonical_rank_le s b h = elim (status_of s) [
  | pre_draft e ↦ let h' = rw e at h in ground (arith, h')
  | drafting e ↦ let h' = rw e at h in ground (arith, h')
  | in_season e ↦ let h' = rw e at h in ground (arith, h')
  | post_season e ↦ let h' = rw e at h in ground (arith, h')
  | complete e ↦ let h' = rw e at h in ground (arith, h')
  | unknown e same ↦ cc
]

pub next_after-Writes :
    (stored effective platform next : String)
    → next_after stored effective platform ≡ (next, true)
    → Writes effective next
unfolding next_after
next_after-Writes stored effective platform next h =
    elim (Option-cases (league_status_rank effective)) [
      | inl none_known ↦ absurd (ground (arith, none_known))
      | inr (a, rank) ↦ elim (Bool-cases (effective === "post_season")) [
        | inl playoffs ↦
            let e = (eq_iff effective "post_season").0 playoffs in
            let written : next ≡ "in_season" = ground (arith, rank, playoffs) in
            (2, 2, rw e refl, rw written refl, omega arith, inr (e, written))
        | inr other ↦ elim (Option-cases (league_status_rank (canonical_league_status platform))) [
          | inl none_known ↦ absurd (ground (arith, rank, other, none_known))
          | inr (b, target) ↦
              let written : next ≡ canonical_league_status platform =
                ground (arith, rank, other, target) in
              (
                a,
                b,
                rank,
                rw written target,
                canonical_rank_le platform b target,
                inl (ground (arith, rank, other, target)),
              )
        ]
      ]
    ]
