-- ===== src/Registry/Monitor.antt =====
-- hub/src/goffy_hub/tool_health.py: `ToolHealthMonitor`, which refreshes the health of the registry's
-- tools and tells clients of changes. What runs under the lock is one step, and sleeping between
-- checks is left out.
use goffy_os.Prelude.{
  String, ◌≡◌, ◌≢◌, ◌↔◌, ap, ◌∙◌, string_eq, refl, Bool, true, false, not, ◌&&◌, Option, none, some,
  arith, if◌then◌else◌,
}
use goffy_os.Prelude.Dict.{get}
use goffy_os.Registry.{
  ToolDefinition, Models, ToolRegistry, ToolHealthReport, ProbeOutcome, answered, timed_out,
  refresh_health, mark_all_unavailable, is_healthy, available_tool_names,
}
use goffy_os.Registry.Invariant.{IsValid}
use goffy_os.Registry.Health.{
  is_healthy-refresh_health, mark_all_unavailable_lem, refresh_health-changed,
  mark_all_unavailable-changed,
}

-- What a call of `refresh_health` did: its probes answered, or it raised.
pub data Refresh : Type 0 where
  probed : (ToolDefinition → ProbeOutcome) → Refresh
  broken : Refresh

-- `listens` says that there is an `on_change`.
pub record ToolHealthMonitor : Type 0 where
  pub registry : ToolRegistry
  pub is_initialized : Bool
  pub listens : Bool

-- `initialize`, where `none` is an exception
unfoldable pub initialize :
    Refresh → ToolHealthMonitor → ToolHealthMonitor × Option ToolHealthReport
initialize (probed probe) m =
    let (r, report) = refresh_health probe m.registry in
    (record m { registry = r; is_initialized = true }, some report)
initialize broken m = (m, none)

-- The `try` of `check_now`
unfoldable pub check_known : Refresh → ToolRegistry → ToolRegistry × ToolHealthReport
check_known (probed probe) r = refresh_health probe r
check_known broken r = mark_all_unavailable r

-- `_publish_change`: whether `on_change` is called; what it raises is only logged.
unfoldable pub publishes_change : ToolHealthMonitor → ToolHealthReport → Bool
publishes_change m report = report.changed && m.listens

-- `check_now` with its report and whether clients are told
unfoldable pub check_now :
    Refresh → ToolHealthMonitor → ToolHealthMonitor × Option ToolHealthReport × Bool
check_now refresh m =
    let (m', first) = initialize refresh m in
    let (r, report) = check_known refresh m.registry in
    if not m.is_initialized
    then (m', first, false)
    else (record m { registry = r }, some report, publishes_change m report)

-- What a check leaves: it returns a report, a tool is healthy exactly when its probe answered `True`,
-- and clients are told exactly when there is a listener and the list of available tools changed.
pub record IsChecked (refresh : Refresh) (m m' : ToolHealthMonitor) (out : Option ToolHealthReport)
    (told : Bool) (name : String) : Type 0 where
  pub report : ToolHealthReport
  pub returned : out ≡ some report
  pub healthy : (is_healthy m'.registry name ≡ true) ↔ (
      (probe : ToolDefinition → ProbeOutcome) × (d : ToolDefinition) × (refresh ≡ probed probe)
      × (get m.registry.tools name ≡ some d)
      × (probe d ≡ answered true))
  pub told_of : (told ≡ true) ↔ (
      (m.listens ≡ true) × ¬ (available_tool_names m.registry ≡ available_tool_names m'.registry))

probe_of : Refresh → ToolDefinition → ProbeOutcome
probe_of (probed probe) d = probe d
probe_of broken d = timed_out

broken≢probed : {probe : ToolDefinition → ProbeOutcome} → broken ≢ probed probe
broken≢probed h = cc

told_iff :
    (changed listens : Bool) (Same : Type 0)
    → (changed ≡ false) ↔ Same
    → ((changed && listens) ≡ true) ↔ ((listens ≡ true) × ¬ Same)
told_iff true listens Same iff =
    (λ h. (h, λ same. absurd (ground (arith, iff.1 same))), λ (h, _). h)
told_iff false listens Same iff =
    (λ h. absurd (ground arith), λ (_, differ). absurd (differ (iff.0 refl)))

-- A check of an initialized monitor on a valid registry returns a report even if the refresh raised.
-- Then no tool is healthy, and else a tool is healthy exactly when its probe answered `True` in time.
-- Clients are told exactly when there is a listener and the list of available tools changed.
pub check_now-IsChecked :
    (models : Models) (refresh : Refresh) (m : ToolHealthMonitor) (name : String)
    → IsValid models m.registry
    → m.is_initialized ≡ true
    → let (m', out, told) = check_now refresh m in IsChecked refresh m m' out told name
unfolding check_now check_known publishes_change probe_of
check_now-IsChecked models (probed probe) m name v ready =
    let (r, report) = refresh_health probe m.registry in
    rw ready (record {
      report = report;
      returned = refl;
      healthy = (
        λ h.
            let (d, found, passed) =
              (is_healthy-refresh_health models probe m.registry v name).0 h in
            (probe, d, refl, found, passed),
        λ (probe', d, same, found, passed).
            (is_healthy-refresh_health models probe m.registry v name).1
              (d, found, ap (λ x. probe_of x d) same ∙ passed),
      );
      told_of = told_iff report.changed m.listens _ (refresh_health-changed probe m.registry);
    })
check_now-IsChecked models broken m name v ready =
    let (r, report) = mark_all_unavailable m.registry in
    rw ready (record {
      report = report;
      returned = refl;
      healthy = (
        λ h. absurd (ground (arith, mark_all_unavailable_lem m.registry name)),
        λ (probe, d, same, _, _). absurd (broken≢probed same),
      );
      told_of = told_iff report.changed m.listens _ (mark_all_unavailable-changed m.registry);
    })
