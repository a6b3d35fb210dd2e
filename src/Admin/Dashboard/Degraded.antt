-- ===== src/Admin/Dashboard/Degraded.antt =====
-- A section of the dashboard is degraded exactly when its source failed.
use kiosk_screen.Prelude.{
  ℕ, String, ◌≡◌, refl, not, ◌&&◌, ◌||◌, Option, none, some, [], ◌∷◌, ◌++◌, arith, eq_iff,
  if◌then◌else◌, str_eq, is_some, set_has, set_has-append, set_has-set_delete,
}
use kiosk_screen.Admin.RemoteControl.{RemoteState}
use kiosk_screen.Admin.Dashboard.{
  DashboardState, section_readiness, section_live, section_live_kiosks, section_queue,
  section_activity,
}
use kiosk_screen.Admin.Dashboard.Fold.{Sources, failed_section, load_dashboard, reload_live}

set_has-failed_section :
    {A : Type 0} (name : String) (o : Option A) (k : String)
    → set_has (failed_section name o) k ≡ (str_eq name k && not (is_some o))
set_has-failed_section name none k = ground arith
set_has-failed_section name (some a) k = ground arith

-- A section is degraded, and its part of the dashboard missing, exactly when its source failed,
-- whichever sources do.
abbrev pub Degrades : {A B : Type 0} → String → Option A → Option B → DashboardState → Type 0
Degrades name source part d =
    (set_has d.degraded_sections name ≡ not (is_some source)) × (is_some part ≡ is_some source)

module _ {I : Type 0} (time : String → ℕ) (s : Sources I) where
  degraded :
      (k : String)
      → set_has (load_dashboard time s).degraded_sections k ≡ (
          (str_eq section_readiness k && not (is_some s.readiness))
          || (str_eq section_queue k && not (is_some s.content))
          || (str_eq section_live k && not (is_some s.live))
          || (str_eq section_live_kiosks k && not (is_some s.live_kiosks))
          || (str_eq section_activity k && not (is_some s.events)))
  unfolding load_dashboard
  degraded k =
      let a = failed_section section_readiness s.readiness in
      let b = failed_section section_queue s.content in
      let c = failed_section section_live s.live in
      let d = failed_section section_live_kiosks s.live_kiosks in
      let e = failed_section section_activity s.events in
      ground (
        arith,
        set_has-append (a ++ b ++ c ++ d) e k,
        set_has-append (a ++ b ++ c) d k,
        set_has-append (a ++ b) c k,
        set_has-append a b k,
        set_has-failed_section section_readiness s.readiness k,
        set_has-failed_section section_queue s.content k,
        set_has-failed_section section_live s.live k,
        set_has-failed_section section_live_kiosks s.live_kiosks k,
        set_has-failed_section section_activity s.events k,
      )

  -- Whichever sources fail, the dashboard is loaded; a section is reported as degraded, and its
  -- part is missing, exactly when its source failed.
  pub load_dashboard-Degrades :
      let d = load_dashboard time s in
      Degrades section_readiness s.readiness d.readiness d
      × Degrades section_live s.live d.live d
      × Degrades section_live_kiosks s.live_kiosks d.live_kiosks d
      × Degrades section_queue s.content d.queue d
      × Degrades section_activity s.events d.activity d
  unfolding load_dashboard
  load_dashboard-Degrades = (
    (ground (arith, degraded section_readiness), ground arith),
    (ground (arith, degraded section_live), ground arith),
    (ground (arith, degraded section_live_kiosks), refl),
    (ground (arith, degraded section_queue), ground arith),
    (ground (arith, degraded section_activity), ground arith),
  )

-- After the live status is loaded again it is degraded exactly when that failed, and the other
-- sections are as before.
pub reload_live-Degrades :
    {I : Type 0} (answer : Option (RemoteState I)) (d : DashboardState) (k : String)
    → set_has (reload_live answer d).degraded_sections k
      ≡ (if str_eq section_live k then not (is_some answer) else set_has d.degraded_sections k)
unfolding reload_live
reload_live-Degrades none d k =
    ground (arith, set_has-append d.degraded_sections (section_live ∷ []) k, eq_iff section_live k)
reload_live-Degrades (some state) d k =
    rw (reload_live, set_has-set_delete d.degraded_sections section_live k) (ground arith)
