-- ===== src/Import/Laws.antt =====
-- Which leagues the dialog imports.
use wagr.Common.{ℕ, Option, none, some, false, ◌≡◌, arith, List, All, get_elem?, any, ◌===◌}
use wagr.Types.League.{League, PlatformLeague}
use wagr.Import.{Effect, asked_import, Step, confirm_import, Dialog, go_back, is_imported}

module _ (existing : List League) where
  -- No request imports a league that is there already.
  abbrev pub Fresh : Effect → Type 0
  Fresh (asked_import id) = any (λ l. l.platform_league_id === id) existing ≡ false
  Fresh _ = Unit

  -- A league that the server listed and that is not there already.
  pub record Chosen (available : List PlatformLeague) (league : PlatformLeague) : Type 0 where
    pub index : ℕ
    pub listed : get_elem? available index ≡ some league
    pub new : is_imported existing league ≡ false

  -- At the last step such a league is selected.
  abbrev pub ReadyAt : Step → List PlatformLeague → Option PlatformLeague → Type 0
  ReadyAt confirm_import available (some league) = Chosen available league
  ReadyAt confirm_import available none = ⊥
  ReadyAt _ available selected = Unit

  pub record Sound (d : Dialog) : Type 0 where
    pub ready : ReadyAt d.step d.available_leagues d.selected_league
    pub fresh : All Fresh d.trace

  go_back-Sound : (d : Dialog) → Sound d → Sound (go_back d)
  go_back-Sound d h = ground (arith, h.fresh, h.ready)
