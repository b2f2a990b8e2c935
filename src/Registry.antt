-- ===== src/Registry.antt =====
-- hub/src/goffy_hub/registry.py: the allowlist of tools, their health, and their invocation. A
-- call that awaits runs under its lock or reads only what it is given, so each is one step. What
-- pydantic and the handlers answer comes in through `Models` and through arguments.
pub mod Invariant
pub mod Discovery
pub mod Health
pub mod Invocation
pub mod Monitor
use goffy_os.Prelude.{
  ℕ, ◌+◌, String, Bool, true, false, not, ◌&&◌, Option, none, some, List, [], ◌∷◌, ltb, leb, length,
  contains, keep_if, is_some, ◌==◌, ◌!=◌, nat_eq, string_eq, if◌then◌else◌, map,
}
use goffy_os.Prelude.Result.{Result, ok, raise, ◌>>=◌, ◌>>◌, guard}
use goffy_os.Prelude.Dict.{Dict, get, put, keys, has, from_keys}
use goffy_os.Prelude.Sorting.{sorted}
use goffy_os.Protocol.{
  ExecutionTarget, PermissionLevel, safe, confirm, sensitive, blocked, permission_eq,
  ToolAnnotations,
}
use goffy_os.Protocol.Values.{Json}
use goffy_os.Protocol.Schema.{normalize_json_schema}
use goffy_os.Protocol.Capability.{ToolCapability, validate_capability}

abbrev pub max_registered_tools : ℕ
max_registered_tools = 32

abbrev pub max_tool_capability_bytes : ℕ
max_tool_capability_bytes = 8192

abbrev pub max_registry_capability_bytes : ℕ
max_registry_capability_bytes = 24576

abbrev pub max_tool_output_bytes : ℕ
max_tool_output_bytes = 8192

abbrev pub max_tool_health_timeout_millis : ℕ
max_tool_health_timeout_millis = 5000

-- The exceptions of the module, and the two built-in ones that it raises.
pub data RegistryError : Type 0 where
  runtime_error : String → RegistryError
  value_error : String → RegistryError
  not_found : RegistryError
  unavailable : RegistryError
  bad_arguments : RegistryError
  execution_failed : String → RegistryError

-- `identity` is the object's own, which `is` compares. Seconds are whole milliseconds here. An
-- `annotations` object that lacks the hints is `none`.
pub record ToolDefinition : Type 0 where
  pub identity : ℕ
  pub name : String
  pub title : String
  pub description : String
  pub tool_version : String
  pub permission : PermissionLevel
  pub execution_target : ExecutionTarget
  pub timeout_millis : ℕ
  pub health_timeout_millis : ℕ
  pub annotations : Option ToolAnnotations

-- What pydantic makes of a definition's models, and the sizes of JSON texts.
pub record Models : Type 0 where
  pub input_schema : ToolDefinition → Json
  pub output_schema : ToolDefinition → Json
  pub fields_valid : ToolCapability → Bool
  pub capability_bytes : ToolCapability → ℕ
  pub validate_input : ToolDefinition → Json → Option Json
  pub validate_output : ToolDefinition → Json → Option Json
  pub json_bytes : Json → ℕ

pub record ToolRegistry : Type 0 where
  pub tools : Dict String ToolDefinition
  pub capabilities : Dict String ToolCapability
  pub healthy : Dict String Bool
  pub confirm_tool_names : List String
  pub capability_total : ℕ
  pub health_revision : ℕ
  pub is_sealed : Bool

abbrev pub new_registry : List String → ToolRegistry
new_registry names = record {
  tools = [];
  capabilities = [];
  healthy = [];
  confirm_tool_names = names;
  capability_total = 0;
  health_revision = 0;
  is_sealed = false;
}

abbrev ensure : Bool → String → Result RegistryError (Unit {0})
ensure b message = guard b (value_error message)

-- `_validate_safe_definition`
unfoldable pub validate_safe_definition : ToolDefinition → Result RegistryError (Unit {0})
validate_safe_definition d = elim d.annotations [
  | none ↦ raise (value_error "tool metadata is invalid")
  | some a ↦ do
    ensure a.read_only_hint "SAFE tools must declare readOnlyHint=true"
    ensure (not a.destructive_hint) "SAFE tools must declare destructiveHint=false"
    ensure a.idempotent_hint "SAFE tools must declare idempotentHint=true"
    ensure (not a.open_world_hint) "SAFE tools must declare openWorldHint=false"
]

-- `_validate_confirm_definition`
unfoldable pub validate_confirm_definition :
    List String → ToolDefinition → Result RegistryError (Unit {0})
validate_confirm_definition names d = do
  ensure (contains names d.name) "CONFIRM tools require an explicit authorization policy"
  elim d.annotations [
    | none ↦ raise (value_error "tool metadata is invalid")
    | some a ↦ do
      ensure (not a.read_only_hint) "CONFIRM tools must declare readOnlyHint=false"
      ensure (not a.destructive_hint) "CONFIRM tools must declare destructiveHint=false"
      ensure (not a.idempotent_hint) "CONFIRM tools must declare idempotentHint=false"
      ensure (not a.open_world_hint) "CONFIRM tools must declare openWorldHint=false"
  ]

-- The dispatch of `register` on the permission.
unfoldable pub validate_permission : List String → ToolDefinition → Result RegistryError (Unit {0})
validate_permission names d = elim d.permission [
  | safe ↦ validate_safe_definition d
  | confirm ↦ validate_confirm_definition names d
  | sensitive ↦ raise (value_error "sensitive tools cannot be registered")
  | blocked ↦ raise (value_error "blocked tools cannot be registered")
]

-- A `ValidationError` or `ValueError` of `describe` is raised again as one message.
as_metadata_error {ℓ} : {A : Type ℓ} → Result String A → Result RegistryError A
as_metadata_error (ok a) = ok a
as_metadata_error (raise e) = raise (value_error "tool metadata is invalid")

module _ (m : Models) where
  describe_with : ToolDefinition → ToolAnnotations → Json → Json → Result String ToolCapability
  describe_with d a input output = validate_capability m.fields_valid (record {
    name = d.name;
    title = d.title;
    description = d.description;
    input_schema = input;
    output_schema = output;
    annotations = a;
    tool_version = d.tool_version;
    execution_target = d.execution_target;
    permission = d.permission;
    timeout_ms = d.timeout_millis;
  })

  -- `ToolDefinition.describe`
  unfoldable pub describe_definition : ToolDefinition → Result String ToolCapability
  unfolding describe_with
  describe_definition d = do
    input ← normalize_json_schema (m.input_schema d)
    output ← normalize_json_schema (m.output_schema d)
    elim d.annotations [
      | none ↦ raise "annotations are invalid"
      | some a ↦ describe_with d a input output
    ]

  -- The entries that `register` adds once every check has passed.
  unfoldable pub add_tool : ToolRegistry → ToolDefinition → ToolCapability → ToolRegistry
  add_tool r d c = record r {
    tools = put r.tools d.name d;
    capabilities = put r.capabilities d.name c;
    healthy = put r.healthy d.name true;
    capability_total = r.capability_total + m.capability_bytes c;
  }

  unfoldable pub register : ToolDefinition → ToolRegistry → Result RegistryError ToolRegistry
  unfolding as_metadata_error
  register d r = do
    guard (not r.is_sealed) (runtime_error "tool registry is sealed")
    ensure (not (has r.tools d.name)) "tool already registered"
    ensure (ltb (length r.tools) max_registered_tools) "tool registry cannot exceed 32 tools"
    validate_permission r.confirm_tool_names d
    ensure
        (ltb 0 d.health_timeout_millis
          && leb d.health_timeout_millis max_tool_health_timeout_millis)
        "tool health timeout must be at most 5 seconds"
    c ← as_metadata_error (describe_definition d)
    ensure (leb (m.capability_bytes c) max_tool_capability_bytes)
        "tool capability exceeds the metadata size limit"
    ensure (leb (r.capability_total + m.capability_bytes c) max_registry_capability_bytes)
        "tool registry exceeds the metadata size limit"
    ok (add_tool r d c)

unfoldable pub seal : ToolRegistry → ToolRegistry
seal r = if r.is_sealed then r else record r { healthy = from_keys r.tools false; is_sealed = true }

-- `self._healthy[name]`; the invariant gives every tool an entry
unfoldable pub is_healthy : ToolRegistry → String → Bool
is_healthy r name = elim (get r.healthy name) [ none ↦ false | some b ↦ b ]

-- `permissions is None or self._tools[name].permission in permissions`
unfoldable pub is_permitted : ToolRegistry → Option (List PermissionLevel) → String → Bool
is_permitted r none name = true
is_permitted r (some permissions) name = elim (get r.tools name) [
  | none ↦ false
  | some d ↦ contains permissions d.permission
]

unfoldable pub discover :
    ToolRegistry → String → Option (List PermissionLevel) → List ToolCapability
discover r name permissions = elim (get r.capabilities name) [
  | none ↦ []
  | some c ↦ if is_healthy r name && is_permitted r permissions name then c ∷ [] else []
]

-- The comprehension of `describe`, over the sorted names.
unfoldable pub described :
    ToolRegistry → Option (List PermissionLevel) → List String → List ToolCapability
described r permissions [] = []
described r permissions (name ∷ names) =
    let rest = described r permissions names in
    if is_healthy r name && is_permitted r permissions name
    then elim (get r.capabilities name) [ none ↦ rest | some c ↦ c ∷ rest ]
    else rest

unfoldable pub describe : ToolRegistry → Option (List PermissionLevel) → List ToolCapability
describe r permissions = described r permissions (sorted (keys r.capabilities))

unfoldable pub available_tool_names : ToolRegistry → List String
available_tool_names r = keep_if (is_healthy r) (sorted (keys r.tools))

pub record ToolHealthReport : Type 0 where
  pub revision : ℕ
  pub changed : Bool
  pub available : List String
  pub tools : List (String × Bool)

unfoldable pub build_health_report : Bool → ToolRegistry → ToolHealthReport
build_health_report changed r = record {
  revision = r.health_revision;
  changed = changed;
  available = available_tool_names r;
  tools = map (λ name. (name, is_healthy r name)) (sorted (keys r.tools));
}

unfoldable pub health_report : ToolRegistry → ToolHealthReport
health_report r = build_health_report false r

-- What a health probe did within its timeout.
pub data ProbeOutcome : Type 0 where
  answered : Bool → ProbeOutcome
  answered_other timed_out crashed : ProbeOutcome

-- `healthy is True`
unfoldable pub probe_passed : ProbeOutcome → Bool
probe_passed (answered b) = b
probe_passed answered_other = false
probe_passed timed_out = false
probe_passed crashed = false

-- `self._healthy.update(results)`
unfoldable pub update_health :
    (ToolDefinition → ProbeOutcome)
    → Dict String ToolDefinition
    → List String
    → Dict String Bool
    → Dict String Bool
update_health probe tools [] healthy = healthy
update_health probe tools (name ∷ names) healthy =
    update_health probe tools names (elim (get tools name) [
      | none ↦ healthy
      | some d ↦ put healthy d.name (probe_passed (probe d))
    ])

unfoldable pub same_names : List String → List String → Bool
same_names [] [] = true
same_names (x ∷ xs) (y ∷ ys) = x == y && same_names xs ys
same_names _ _ = false

-- The end of `refresh_health` and of `mark_all_unavailable`: the new health beside the old names.
unfoldable pub publish_health : ToolRegistry → Dict String Bool → ToolRegistry × ToolHealthReport
publish_health r healthy =
    let r' : ToolRegistry = record r { healthy = healthy } in
    let changed = not (same_names (available_tool_names r) (available_tool_names r')) in
    let r'' : ToolRegistry = record r' {
      health_revision = if changed then r.health_revision + 1 else r.health_revision;
    } in
    (r'', build_health_report changed r'')

unfoldable pub refresh_health :
    (ToolDefinition → ProbeOutcome) → ToolRegistry → ToolRegistry × ToolHealthReport
refresh_health probe r =
    publish_health r (update_health probe r.tools (sorted (keys r.tools)) r.healthy)

unfoldable pub mark_all_unavailable : ToolRegistry → ToolRegistry × ToolHealthReport
mark_all_unavailable r = publish_health r (from_keys r.tools false)

pub record PreparedToolInvocation : Type 0 where
  pub definition : ToolDefinition
  pub parsed_input : Json

pub record ToolInvocationResult : Type 0 where
  pub definition : ToolDefinition
  pub structured_content : Json

-- What a handler did within its timeout. It may raise an error of pydantic, or another exception.
pub data HandlerOutcome : Type 0 where
  returned : Json → HandlerOutcome
  ran_out raised_validation failed : HandlerOutcome

module _ (m : Models) where
  unfoldable pub preflight :
      ToolRegistry → String → Json → Result RegistryError PreparedToolInvocation
  preflight r name arguments = elim (get r.tools name) [
    | none ↦ raise not_found
    | some d ↦
        if not (is_healthy r name) then raise unavailable else elim (m.validate_input d arguments) [
          | none ↦ raise bad_arguments
          | some parsed ↦ ok (record { definition = d; parsed_input = parsed })
        ]
  ]

  checked_output : ToolDefinition → HandlerOutcome → Result RegistryError Json
  checked_output d ran_out = raise (execution_failed "timeout")
  checked_output d raised_validation = raise (execution_failed "invalid_output")
  checked_output d failed = raise (execution_failed "handler_failure")
  checked_output d (returned raw) = elim (m.validate_output d raw) [
    | none ↦ raise (execution_failed "invalid_output")
    | some output ↦ ok output
  ]

  unfoldable pub is_registered : ToolRegistry → ToolDefinition → Bool
  is_registered r d = elim (get r.tools d.name) [
    | none ↦ false
    | some d' ↦ d'.identity == d.identity
  ]

  unfoldable pub invoke_prepared :
      ToolRegistry
      → PreparedToolInvocation
      → HandlerOutcome
      → Result RegistryError ToolInvocationResult
  unfolding checked_output is_registered
  invoke_prepared r prepared outcome = do
    guard (is_registered r prepared.definition) not_found
    output ← checked_output prepared.definition outcome
    guard (leb (m.json_bytes output) max_tool_output_bytes) (execution_failed "output_too_large")
    ok (record { definition = prepared.definition; structured_content = output })

  -- `handle` runs the handler of the definition on the parsed input.
  unfoldable pub invoke :
      (ToolDefinition → Json → HandlerOutcome)
      → ToolRegistry
      → String
      → Json
      → Result RegistryError ToolInvocationResult
  invoke handle r name arguments = do
    prepared ← preflight r name arguments
    invoke_prepared r prepared (handle prepared.definition prepared.parsed_input)
