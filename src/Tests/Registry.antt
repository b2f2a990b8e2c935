-- ===== src/Tests/Registry.antt =====
-- A registry of a clock and of an app opener.
use goffy_os.Prelude.{
  ◌≡◌, refl, true, false, some, List, [], ◌∷◌, arith, inl, ◌==◌, string_eq, if◌then◌else◌,
}
use goffy_os.Prelude.Result.{ok}
use goffy_os.Prelude.Dict.{get, put, keys, from_keys}
use goffy_os.Prelude.Sorting.{sorted}
use goffy_os.Protocol.{mac, safe, confirm, permission_eq, ToolAnnotations}
use goffy_os.Protocol.Values.{null, object, text}
use goffy_os.Protocol.Schema.{
  normalize_json_schema, field_put, normalize_fields, sort_fields, enforce_schema_root, field_get,
  contains_title,
}
use goffy_os.Protocol.Capability.{ToolCapability, enforce_schema_roots, validate_capability}
use goffy_os.Registry.{
  ToolDefinition, Models, ToolRegistry, new_registry, register, seal, discover, is_healthy,
  refresh_health, ProbeOutcome, answered, timed_out, publish_health, update_health,
  describe_definition, validate_permission, validate_safe_definition, validate_confirm_definition,
  add_tool, returned, invoke, probe_passed, available_tool_names, same_names, build_health_report,
}
use goffy_os.Registry.Invariant.{IsValid, safe_hints, confirm_hints}
use goffy_os.Registry.Health.{Call, registers, seals, refreshes, run_calls, step, run_calls-IsValid}
use goffy_os.Registry.Discovery.{IsVisible, discover_iff}
use goffy_os.Registry.Invocation.{invoke_iff}
use goffy_os.Registry.Monitor.{ToolHealthMonitor, broken, check_now, IsChecked, check_now-IsChecked}
use goffy_os.Tests.Protocol.{raw_fields, normal_schema}

abbrev pub clock : ToolDefinition
clock = record {
  identity = 1;
  name = "mac.clock";
  title = "Clock";
  description = "Reads the clock";
  tool_version = "1.0.0";
  permission = safe;
  execution_target = mac;
  timeout_millis = 1000;
  health_timeout_millis = 500;
  annotations = some safe_hints;
}

abbrev pub opener : ToolDefinition
opener = record {
  identity = 2;
  name = "mac.apps.open";
  title = "Open an app";
  description = "Opens an app";
  tool_version = "1.0.0";
  permission = confirm;
  execution_target = mac;
  timeout_millis = 1000;
  health_timeout_millis = 500;
  annotations = some confirm_hints;
}

-- Models that take any input and any output.
abbrev pub models : Models
models = record {
  input_schema = λ _. object raw_fields;
  output_schema = λ _. object raw_fields;
  fields_valid = λ _. true;
  capability_bytes = λ _. 900;
  validate_input = λ _ arguments. some arguments;
  validate_output = λ _ raw. some raw;
  json_bytes = λ _. 40;
}

-- The opener does not answer its probe in time.
abbrev pub probe : ToolDefinition → ProbeOutcome
probe d = if d.name == "mac.clock" then answered true else timed_out

abbrev pub capability_of : ToolDefinition → ToolAnnotations → ToolCapability
capability_of d hints = record {
  name = d.name;
  title = d.title;
  description = d.description;
  input_schema = normal_schema;
  output_schema = normal_schema;
  annotations = hints;
  tool_version = d.tool_version;
  execution_target = d.execution_target;
  permission = d.permission;
  timeout_ms = d.timeout_millis;
}

abbrev calls : List Call
calls = registers clock ∷ registers opener ∷ seals ∷ refreshes probe ∷ []

-- The registry after these calls.
abbrev pub registry : ToolRegistry
registry = record {
  tools = ("mac.clock", clock) ∷ ("mac.apps.open", opener) ∷ [];
  capabilities =
      ("mac.clock", capability_of clock safe_hints)
      ∷ ("mac.apps.open", capability_of opener confirm_hints)
      ∷ [];
  healthy = ("mac.clock", true) ∷ ("mac.apps.open", false) ∷ [];
  confirm_tool_names = "mac.apps.open" ∷ [];
  capability_total = 1800;
  health_revision = 1;
  is_sealed = true;
}

calls_run : run_calls models (new_registry ("mac.apps.open" ∷ [])) calls ≡ registry
unfolding run_calls step register validate_permission validate_safe_definition
    validate_confirm_definition describe_definition validate_capability enforce_schema_roots
    enforce_schema_root contains_title field_get add_tool seal from_keys refresh_health
    publish_health update_health probe_passed available_tool_names same_names build_health_report
    is_healthy get put keys sorted normalize_json_schema field_put normalize_fields sort_fields
calls_run = refl

pub is_valid : IsValid models registry
is_valid = rw (← calls_run) (run_calls-IsValid models ("mac.apps.open" ∷ []) calls)

run_calls-IsValid_example :
    IsValid models (run_calls models (new_registry ("mac.apps.open" ∷ [])) calls)
run_calls-IsValid_example = run_calls-IsValid models ("mac.apps.open" ∷ []) calls

clock-IsVisible : IsVisible models registry "mac.clock" (safe ∷ []) (capability_of clock safe_hints)
clock-IsVisible = record {
  definition = clock;
  registered = unfold get in refl;
  capability =
      is_valid.faithful "mac.clock" clock (capability_of clock safe_hints) (unfold get in refl)
        (unfold get in refl);
  is_name = refl;
  allowed = inl (refl, refl);
  healthy = unfold is_healthy get in refl;
  permitted = refl;
}

discover_iff_example :
    discover registry "mac.clock" (some (safe ∷ [])) ≡ capability_of clock safe_hints ∷ []
discover_iff_example =
    (discover_iff models registry is_valid "mac.clock" (safe ∷ [])
        (capability_of clock safe_hints)).1
      clock-IsVisible

invoke_iff_example :
    invoke models (λ _ _. returned (text "noon")) registry "mac.clock" null
    ≡ ok (record { definition = clock; structured_content = text "noon" })
unfolding get is_healthy
invoke_iff_example =
    (invoke_iff models registry is_valid (λ _ _. returned (text "noon")) "mac.clock" null
        (record { definition = clock; structured_content = text "noon" })).1
      (
        null,
        refl,
        refl,
        refl,
        record { raw = text "noon"; is_raw = refl; valid = refl; small = omega arith },
      )

abbrev monitor : ToolHealthMonitor
monitor = record { registry = registry; is_initialized = true; listens = true }

check_now-IsChecked_example :
    let (m', out, told) = check_now broken monitor in
    IsChecked broken monitor m' out told "mac.clock"
check_now-IsChecked_example = check_now-IsChecked models broken monitor "mac.clock" is_valid refl
