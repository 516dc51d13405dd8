-- ===== src/Overview/Load/Laws.antt =====
-- What the page is after loading.
use wagr.Common.{true, false, ◌≡◌, ◌⊎◌, arith, is_some, ◌&&◌}
use wagr.Overview.{Page, Context, has_session}
use wagr.Overview.Load.{Answers, fetch_all}

-- After loading with a session the page is no longer loading, and one of three things holds: the
-- server answered 403, and the user is shown as no member; both answers could be read, and are shown;
-- or an error is shown, and what was there before is kept.
pub fetch_all_lem :
    (ctx : Context) (answers : Answers) (p : Page)
    → has_session ctx ≡ true
    → let q = fetch_all ctx answers p in
      (q.loading ≡ false)
      × (((q.not_member ≡ true) × (q.detail ≡ p.detail) × (q.settings ≡ p.settings))
          ⊎ ((is_some q.detail && is_some q.settings ≡ true)
              × (q.error ≡ p.error)
              × (q.not_member ≡ p.not_member))
          ⊎ ((is_some q.error ≡ true)
              × (q.detail ≡ p.detail)
              × (q.settings ≡ p.settings)
              × (q.not_member ≡ p.not_member)))
unfolding fetch_all
fetch_all_lem ctx answers p session = ground arith
