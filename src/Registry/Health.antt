-- ===== src/Registry/Health.antt =====
-- The health of the tools of registry.py: what a refresh makes of the probes, when the revision
-- moves, and the invariant over any sequence of calls.
use goffy_os.Prelude.{
  ℕ, ◌+◌, String, ◌≡◌, ◌↔◌, refl, inl, inr, Bool, true, false, not, none, some, List, [], ◌∷◌,
  arith, contains, string_eq, eq_iff, if◌then◌else◌, Option-cases,
}
use goffy_os.Prelude.Result.{Result, ok, raise, Result-cases}
use goffy_os.Prelude.Dict.{
  Dict, get, put, has, keys, from_keys, get-put, contains-keys, get-from_keys,
}
use goffy_os.Prelude.Sorting.{sorted, contains-sorted}
use goffy_os.Registry.{
  ToolDefinition, Models, ToolRegistry, new_registry, RegistryError, register, seal, ProbeOutcome,
  answered, answered_other, timed_out, crashed, probe_passed, build_health_report, update_health,
  refresh_health, mark_all_unavailable, publish_health, is_healthy, same_names,
  available_tool_names,
}
use goffy_os.Registry.Invariant.{
  IsValid, register-Registered, add_tool-IsValid, with_health, has-from_keys, seal-IsValid,
  total_bytes,
}

-- The health after the probes of a list of tools.
pub get-update_health :
    (probe : ToolDefinition → ProbeOutcome) (tools : Dict String ToolDefinition)
    (names : List String) (healthy : Dict String Bool) (j : String)
    → ((n : String) (d : ToolDefinition) → get tools n ≡ some d → d.name ≡ n)
    → get (update_health probe tools names healthy) j ≡ (
        if contains names j
        then elim (get tools j) [ none ↦ get healthy j | some d ↦ some (probe_passed (probe d)) ]
        else get healthy j)
unfolding update_health
get-update_health probe tools [] healthy j named = refl
get-update_health probe tools (n ∷ names) healthy j named = elim (Option-cases (get tools n)) [
  | inl missing ↦
      rw missing (ground (arith, eq_iff n j, get-update_health probe tools names healthy j named))
  | inr (d, found) ↦ rw found (
      ground (
        arith,
        eq_iff n j,
        eq_iff d.name j,
        named n d found,
        get-put healthy d.name j (probe_passed (probe d)),
        get-update_health probe tools names (put healthy d.name (probe_passed (probe d))) j named,
      ))
]

answered_true : (o : ProbeOutcome) → probe_passed o ≡ true → o ≡ answered true
unfolding probe_passed
answered_true (answered b) h = ground arith
answered_true answered_other h = cc
answered_true timed_out h = cc
answered_true crashed h = cc

module _ (m : Models) (probe : ToolDefinition → ProbeOutcome) (r : ToolRegistry)
    (v : IsValid m r) where
  abbrev probed_health : Dict String Bool
  probed_health = update_health probe r.tools (sorted (keys r.tools)) r.healthy

  get-probed_health :
      (n : String)
      → get probed_health n
        ≡ elim (get r.tools n) [ none ↦ none | some d ↦ some (probe_passed (probe d)) ]
  get-probed_health n = elim (Option-cases (get r.tools n)) [
    | inl missing ↦ rw missing (
        ground (
          arith,
          get-update_health probe r.tools (sorted (keys r.tools)) r.healthy n v.named,
          v.probed n,
        ))
    | inr (d, found) ↦ rw found (
        ground (
          arith,
          get-update_health probe r.tools (sorted (keys r.tools)) r.healthy n v.named,
          contains-sorted (keys r.tools) n,
          contains-keys r.tools n,
        ))
  ]

  has-probed_health : (n : String) → has probed_health n ≡ has r.tools n
  has-probed_health n = ground (arith, get-probed_health n)

  refresh_health-IsValid : IsValid m (refresh_health probe r).0
  unfolding refresh_health
  refresh_health-IsValid = with_health m r probed_health v has-probed_health

  -- After a refresh of a valid registry a tool is healthy exactly when it is registered and its
  -- probe answered `True` in time; any other answer, a timeout or an exception makes it unhealthy.
  pub is_healthy-refresh_health :
      (n : String)
      → (is_healthy (refresh_health probe r).0 n ≡ true)
        ↔ ((d : ToolDefinition) × (get r.tools n ≡ some d) × (probe d ≡ answered true))
  unfolding refresh_health publish_health is_healthy
  is_healthy-refresh_health n = (
    λ h. elim (Option-cases (get r.tools n)) [
      | inl missing ↦ absurd (ground (arith, get-probed_health n))
      | inr (d, found) ↦ (d, found, answered_true (probe d) (ground (arith, get-probed_health n)))
    ],
    λ (d, found, passed).
        let passes : probe_passed (probe d) ≡ true = rw passed (unfold probe_passed in refl) in
        ground (arith, get-probed_health n),
  )

same_names_iff : (xs ys : List String) → (same_names xs ys ≡ true) ↔ (xs ≡ ys)
unfolding same_names
same_names_iff [] [] = (λ _. refl, λ _. refl)
same_names_iff [] (y ∷ ys) = (λ h. cc, λ h. cc)
same_names_iff (x ∷ xs) [] = (λ h. cc, λ h. cc)
same_names_iff (x ∷ xs) (y ∷ ys) = (
  λ h. ground (arith, eq_iff x y, same_names_iff xs ys),
  λ h. ground (arith, eq_iff x y, same_names_iff xs ys),
)

not-same_names : (xs ys : List String) → (not (same_names xs ys) ≡ false) ↔ (xs ≡ ys)
not-same_names xs ys =
    (λ h. (same_names_iff xs ys).0 (ground arith), λ h. ground (arith, (same_names_iff xs ys).1 h))

changed_iff :
    (r r' : ToolRegistry) (n : ℕ)
    → (not (same_names (available_tool_names r) (available_tool_names r')) ≡ false)
      ↔ (available_tool_names r ≡ available_tool_names (record r' { health_revision = n }))
unfolding available_tool_names is_healthy
changed_iff r r' n = not-same_names (available_tool_names r) (available_tool_names r')

-- Whatever new health is published, the report says `changed` exactly when the list of available
-- tools differs from the one before, and the revision counts exactly these changes. The report
-- shows the new list.
pub publish_health_lem :
    (r : ToolRegistry) (healthy : Dict String Bool)
    → let (r', report) = publish_health r healthy in
      ((report.changed ≡ false) ↔ (available_tool_names r ≡ available_tool_names r'))
      × (r'.health_revision ≡ (if report.changed then r.health_revision + 1 else r.health_revision))
      × (report.revision ≡ r'.health_revision)
      × (report.available ≡ available_tool_names r')
unfolding publish_health build_health_report
publish_health_lem r healthy = (changed_iff r (record r { healthy = healthy }) _, refl, refl, refl)

-- After `mark_all_unavailable` no tool is healthy.
pub mark_all_unavailable_lem :
    (r : ToolRegistry) (n : String) → is_healthy (mark_all_unavailable r).0 n ≡ false
unfolding mark_all_unavailable publish_health is_healthy
mark_all_unavailable_lem r n = ground (arith, get-from_keys r.tools false n)

pub refresh_health-changed :
    (probe : ToolDefinition → ProbeOutcome) (r : ToolRegistry)
    → let (r', report) = refresh_health probe r in
      (report.changed ≡ false) ↔ (available_tool_names r ≡ available_tool_names r')
unfolding refresh_health
refresh_health-changed probe r =
    (publish_health_lem r (update_health probe r.tools (sorted (keys r.tools)) r.healthy)).0

pub mark_all_unavailable-changed :
    (r : ToolRegistry)
    → let (r', report) = mark_all_unavailable r in
      (report.changed ≡ false) ↔ (available_tool_names r ≡ available_tool_names r')
unfolding mark_all_unavailable
mark_all_unavailable-changed r = (publish_health_lem r (from_keys r.tools false)).0

pub data Call : Type 0 where
  registers : ToolDefinition → Call
  seals : Call
  refreshes : (ToolDefinition → ProbeOutcome) → Call
  marks : Call

after : Result RegistryError ToolRegistry → ToolRegistry → ToolRegistry
after (ok r') r = r'
after (raise e) r = r

unfoldable pub step : Models → ToolRegistry → Call → ToolRegistry
unfolding after
step m r (registers d) = after (register m d r) r
step m r seals = seal r
step m r (refreshes probe) = (refresh_health probe r).0
step m r marks = (mark_all_unavailable r).0

unfoldable pub run_calls : Models → ToolRegistry → List Call → ToolRegistry
run_calls m r [] = r
run_calls m r (call ∷ calls) = run_calls m (step m r call) calls

module _ (m : Models) where
  step-IsValid : (r : ToolRegistry) (call : Call) → IsValid m r → IsValid m (step m r call)
  unfolding step
  step-IsValid r (registers d) v = elim (Result-cases (register m d r)) [
    | inl (r', h) ↦ rw h (add_tool-IsValid m d r r' (register-Registered m d r r' h) v)
    | inr (e, h) ↦ rw h v
  ]
  step-IsValid r seals v = seal-IsValid m r v
  step-IsValid r (refreshes probe) v = refresh_health-IsValid m probe r v
  step-IsValid r marks v =
      unfold mark_all_unavailable in with_health m r (from_keys r.tools false) v (has-from_keys m r)

  new-IsValid : (names : List String) → IsValid m (new_registry names)
  unfolding get total_bytes
  new-IsValid names = record {
    distinct = tt;
    bounded = omega arith;
    counted = refl;
    sized = omega arith;
    described = λ n. refl;
    probed = λ n. refl;
    named = λ n d h. absurd (ground arith);
    allowed = λ n d h. absurd (ground arith);
    faithful = λ n d c h k. absurd (ground arith);
  }

  run_from-IsValid :
      (r : ToolRegistry) (calls : List Call) → IsValid m r → IsValid m (run_calls m r calls)
  unfolding run_calls
  run_from-IsValid r [] v = v
  run_from-IsValid r (call ∷ calls) v =
      run_from-IsValid (step m r call) calls (step-IsValid r call v)

  -- Whatever is registered, sealed, refreshed and marked, in any order, the registry stays valid:
  -- at most 32 tools of at most 24,576 bytes of metadata in all, each under its own name, with its
  -- own capability and a health entry, and each a SAFE or an authorized CONFIRM tool with the
  -- hints of its kind.
  pub run_calls-IsValid :
      (names : List String) (calls : List Call) → IsValid m (run_calls m (new_registry names) calls)
  run_calls-IsValid names calls = run_from-IsValid (new_registry names) calls (new-IsValid names)
