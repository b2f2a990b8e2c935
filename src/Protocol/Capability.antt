-- ===== src/Protocol/Capability.antt =====
-- `ToolCapability` of protocol/python/goffy_protocol/models.py with its validators. The constraints
-- of single fields that pydantic checks (lengths, patterns) are one test, a parameter.
use goffy_os.Prelude.{
  ℕ, String, Bool, true, false, not, ◌&&◌, Option, none, some, List, [], ◌∷◌, leb, length, contains,
  ◌==◌, string_eq, if◌then◌else◌,
}
use goffy_os.Prelude.Result.{Result, ok, raise, ◌>>◌, guard}
use goffy_os.Protocol.{
  ExecutionTarget, mac, phone, cloud, PermissionLevel, safe, permission_beq, ToolAnnotations,
}
use goffy_os.Protocol.Values.{Json, text, array, object, Items, nil, cons, Fields, end, field}
use goffy_os.Protocol.Schema.{field_get, field_keys, enforce_schema_root}

pub record ToolCapability : Type 0 where
  pub name : String
  pub title : String
  pub description : String
  pub input_schema : Json
  pub output_schema : Json
  pub annotations : ToolAnnotations
  pub tool_version : String
  pub execution_target : ExecutionTarget
  pub permission : PermissionLevel
  pub timeout_ms : ℕ

abbrev pub mac_system_info_tool_name : String
mac_system_info_tool_name = "mac.system_info"

abbrev mac_system_info_fields : List String
mac_system_info_fields = "status" ∷ "operatingSystem" ∷ "architecture" ∷ []

abbrev input_keys : List String
input_keys = "$schema" ∷ "additionalProperties" ∷ "properties" ∷ "type" ∷ []

contains_all : List String → List String → Bool
contains_all xs [] = true
contains_all xs (y ∷ ys) = contains xs y && contains_all xs ys

-- Equality of the sets of two lists.
same_set : List String → List String → Bool
unfolding contains_all
same_set xs ys = contains_all xs ys && contains_all ys xs

is_empty_object : Option Json → Bool
is_empty_object (some (object end)) = true
is_empty_object _ = false

-- `value == {"type": "string"}`
is_plain_string : Json → Bool
is_plain_string (object (field k (text t) end)) = k == "type" && t == "string"
is_plain_string _ = false

all_plain_strings : Fields → Bool
unfolding is_plain_string
all_plain_strings end = true
all_plain_strings (field k v fs) = is_plain_string v && all_plain_strings fs

-- The texts of a list, if all of its items are texts.
texts : Items → Option (List String)
texts nil = some []
texts (cons (text t) xs) = elim (texts xs) [ none ↦ none | some ts ↦ some (t ∷ ts) ]
texts (cons _ xs) = none

requires_fields : Option Json → Bool
unfolding texts same_set
requires_fields (some (array xs)) = elim (texts xs) [
  | none ↦ false
  | some ts ↦ (leb 3 (length ts) && leb (length ts) 3) && same_set ts mac_system_info_fields
]
requires_fields _ = false

properties_match : Option Json → Result String (Unit {0})
unfolding all_plain_strings same_set
properties_match (some (object fs)) = do
  guard (same_set (field_keys fs) mac_system_info_fields)
      "mac.system_info output properties do not match the contract"
  guard (all_plain_strings fs) "mac.system_info output fields must be plain strings"
properties_match _ = raise "mac.system_info output properties do not match the contract"

-- `_enforce_mac_system_info_schemas`
unfoldable pub enforce_mac_system_info_schemas : Json → Json → Result String (Unit {0})
unfolding same_set is_empty_object properties_match requires_fields
enforce_mac_system_info_schemas (object input) (object output) = do
  guard (same_set (field_keys input) input_keys && is_empty_object (field_get input "properties"))
      "mac.system_info input schema does not match the contract"
  guard (same_set (field_keys output) ("required" ∷ input_keys))
      "mac.system_info output schema contains unsupported fields"
  properties_match (field_get output "properties")
  guard (requires_fields (field_get output "required"))
      "mac.system_info required fields do not match the contract"
enforce_mac_system_info_schemas _ _ =
    raise "mac.system_info input schema does not match the contract"

is_mac : ExecutionTarget → Bool
is_mac mac = true
is_mac phone = false
is_mac cloud = false

-- `_enforce_mac_system_info_contract`
unfoldable pub enforce_mac_system_info_contract : ToolCapability → Result String (Unit {0})
unfolding is_mac enforce_mac_system_info_schemas
enforce_mac_system_info_contract c = do
  guard (c.tool_version == "1.0.0") "mac.system_info has an unsupported tool version"
  guard (is_mac c.execution_target) "mac.system_info must target MAC"
  guard (permission_beq c.permission safe) "mac.system_info must use SAFE permission"
  guard
      ((c.annotations.read_only_hint && not c.annotations.destructive_hint)
        && (c.annotations.idempotent_hint && not c.annotations.open_world_hint))
      "mac.system_info safety annotations are incompatible"
  enforce_mac_system_info_schemas c.input_schema c.output_schema

-- `enforce_schema_roots`
unfoldable pub enforce_schema_roots : ToolCapability → Result String (Unit {0})
unfolding enforce_mac_system_info_contract
enforce_schema_roots c = do
  enforce_schema_root c.input_schema
  enforce_schema_root c.output_schema
  if c.name == mac_system_info_tool_name then enforce_mac_system_info_contract c else ok tt

-- The construction of a `ToolCapability`, which raises if a validator does.
unfoldable pub validate_capability :
    (ToolCapability → Bool) → ToolCapability → Result String ToolCapability
validate_capability fields_valid c = do
  guard (fields_valid c) "a field is out of its range"
  guard (leb 1 c.timeout_ms && leb c.timeout_ms 30000) "timeoutMs is out of its range"
  guard (not (c.annotations.read_only_hint && c.annotations.destructive_hint))
      "read-only tools cannot be marked destructive"
  enforce_schema_roots c
  ok c
