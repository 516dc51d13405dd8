-- ===== src/Oracle/Weekly/Qualifiers.antt =====
-- `weeklyQualifiers` of src/internal/league/service_oracle.go: who has earned a bonus of a week. Points
-- are only compared, and are integers here.
pub mod Laws
use wagr.Common.{
  ℕ, String, Option, none, some, Bool, true, false, not, List, [], ◌∷◌, keep_if, ltb, ◌===◌,
  if◌then◌else◌,
}
use wagr.Common.Int.{ℤ, pos, ltb_ℤ}
use wagr.Oracle.SeasonEnd.{PayoutEntry}

-- `PlatformMatchup`, of one week.
pub record Matchup : Type 0 where
  pub matchup_id : ℕ
  pub roster_id : ℕ
  pub points : ℤ

-- The rosters that play, and have no bye.
abbrev pub active : List Matchup → List Matchup
active matchups = keep_if (λ m. ltb 0 m.matchup_id) matchups

-- One round of the loop of `highScorer`.
abbrev pub better : Option Matchup → Matchup → Option Matchup
better best m =
    if not (ltb_ℤ (pos 0) m.points)
    then best
    else elim best [ none ↦ some m | some b ↦ if ltb_ℤ b.points m.points then some m else some b ]

unfoldable pub best_of : Option Matchup → List Matchup → Option Matchup
best_of best [] = best
best_of best (m ∷ matchups) = best_of (better best m) matchups

-- `highScorer`
unfoldable pub high_scorer : List Matchup → List Matchup
unfolding best_of
high_scorer matchups = elim (best_of none matchups) [ none ↦ [] | some best ↦ best ∷ [] ]

-- `thresholdScorers`
abbrev pub threshold_scorers : List Matchup → ℤ → List Matchup
threshold_scorers matchups threshold = keep_if (λ m. not (ltb_ℤ m.points threshold)) matchups

-- `weeklyQualifiers`
unfoldable pub weekly_qualifiers : List Matchup → PayoutEntry → List Matchup
unfolding high_scorer
weekly_qualifiers matchups entry =
    if entry.bonus_type === "weekly_high_score"
    then high_scorer matchups
    else if entry.bonus_type === "score_threshold"
    then elim entry.threshold [ none ↦ [] | some threshold ↦ threshold_scorers matchups threshold ]
    else []
