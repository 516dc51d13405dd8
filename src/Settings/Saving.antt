-- ===== src/Settings/Saving.antt =====
-- Saving the settings: what each answer of the server leaves on the page.
use wagr.Common.{
  String, Option, none, some, true, false, ◌≡◌, ◌⊎◌, inl, inr, [], arith, All, or_default, truthy,
  is_some, Bool-cases, ◌&&◌,
}
use wagr.Js.Effects.{Result-cases, Result, ok, Response, is_ok}
use wagr.Types.League.{LeagueSettings}
use wagr.Payouts.{normalize_entries}
use wagr.Payouts.Normalize.{IsNormal, normalize_entries_id}
use wagr.Settings.{Page, accept, SaveRequest, handle_save}

abbrev pub request_of : Page → SaveRequest
request_of p = record { entry_fee_cents = p.entry_fee_cents; payout_structure = p.payout_rows }

-- The server's answer is a success with settings that can be read.
abbrev pub Accepts : Result (Response LeagueSettings) → LeagueSettings → Type 0
Accepts answer updated =
    (res : Response LeagueSettings) × (answer ≡ ok res)
    × (is_ok res ≡ true)
    × (res.json ≡ ok updated)

-- What the page is after a save that failed.
pub record Kept (before after : Page) : Type 0 where
  pub rows : after.payout_rows ≡ before.payout_rows
  pub fee : after.entry_fee_cents ≡ before.entry_fee_cents
  pub settings : after.settings ≡ before.settings
  pub told : is_some after.save_error ≡ true
  pub no_success : after.save_success ≡ false
  pub ready : after.saving ≡ false

-- What it is after one that succeeded.
pub record Replaced (updated : LeagueSettings) (after : Page) : Type 0 where
  pub rows : after.payout_rows ≡ normalize_entries (or_default updated.payout_structure [])
  pub fee : after.entry_fee_cents ≡ updated.entry_fee_cents
  pub settings : after.settings ≡ some updated
  pub no_error : after.save_error ≡ none
  pub success : after.save_success ≡ true
  pub ready : after.saving ≡ false

-- With a session and a league, a save sends the fee and the rows that the page holds. Where the
-- server accepts them, the page takes over what it returned, normalised, and reports success; on any
-- other answer the page keeps its rows, its fee and its settings, and reports an error. Either way
-- it can save again.
pub handle_save_lem :
    (token league_id : Option String) (server : SaveRequest → Result (Response LeagueSettings))
    (p : Page)
    → (truthy token && truthy league_id) ≡ true
    → let after = handle_save token league_id server p in
      ((updated : LeagueSettings) × Accepts (server (request_of p)) updated
        × Replaced updated after)
      ⊎ Kept p after
unfolding handle_save accept
handle_save_lem token league_id server p session = elim (Result-cases (server (request_of p))) [
  | inl (e, failed) ↦ inr (ground arith)
  | inr (res, answered) ↦ elim (Bool-cases (is_ok res)) [
    | inl good ↦ elim (Result-cases res.json) [
      | inl (e, bad) ↦ inr (ground arith)
      | inr (updated, read) ↦ inl (updated, (res, answered, good, read), ground arith)
    ]
    | inr refused ↦ elim (Result-cases res.text) [
      | inl (e, bad) ↦ inr (ground arith)
      | inr (text, read) ↦ inr (ground arith)
    ]
  ]
]

-- Where the page's rows are normal and the server returns just what it was sent, a save leaves the
-- rows and the fee as they were, and reports success.
pub handle_save-echo :
    (token league_id : Option String) (server : SaveRequest → Result (Response LeagueSettings))
    (p : Page) (updated : LeagueSettings)
    → (truthy token && truthy league_id) ≡ true
    → All IsNormal p.payout_rows
    → Accepts (server (request_of p)) updated
    → updated.payout_structure ≡ some p.payout_rows
    → updated.entry_fee_cents ≡ p.entry_fee_cents
    → let after = handle_save token league_id server p in
      (after.payout_rows ≡ p.payout_rows)
      × (after.entry_fee_cents ≡ p.entry_fee_cents)
      × (after.save_success ≡ true)
unfolding handle_save accept
handle_save-echo token league_id server p updated session normal (res, answered, good, read) rows
      fee =
    ground (arith, normalize_entries_id p.payout_rows normal)
