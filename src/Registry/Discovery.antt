-- ===== src/Registry/Discovery.antt =====
-- What clients are told of the tools of registry.py.
use mathlib.Core.List.{flat_map}
use goffy_os.Prelude.{
  String, ◌≡◌, ◌↔◌, refl, inl, inr, true, false, Option, some, List, [], ◌∷◌, arith, contains,
  string_eq, Option-cases,
}
use goffy_os.Prelude.Result.{ok, raise}
use goffy_os.Prelude.Dict.{get, keys, get-from_keys}
use goffy_os.Prelude.Sorting.{sorted}
use goffy_os.Protocol.{PermissionLevel, permission_eq}
use goffy_os.Protocol.Capability.{ToolCapability}
use goffy_os.Registry.{
  ToolDefinition, Models, ToolRegistry, register, runtime_error, seal, discover, describe,
  described, is_healthy, is_permitted, describe_definition,
}
use goffy_os.Registry.Invariant.{IsValid, IsAllowed}

described-discover :
    (r : ToolRegistry) (permissions : Option (List PermissionLevel)) (names : List String)
    → described r permissions names ≡ flat_map (λ name. discover r name permissions) names
unfolding described discover flat_map
described-discover r permissions [] = refl
described-discover r permissions (name ∷ names) =
    ground (arith, described-discover r permissions names)

-- What may be told of a tool under the given permissions.
pub record IsVisible (m : Models) (r : ToolRegistry) (name : String)
    (permissions : List PermissionLevel) (c : ToolCapability) : Type 0 where
  pub definition : ToolDefinition
  pub registered : get r.tools name ≡ some definition
  pub capability : describe_definition m definition ≡ ok c
  pub is_name : definition.name ≡ name
  pub allowed : IsAllowed r.confirm_tool_names definition
  pub healthy : is_healthy r name ≡ true
  pub permitted : contains permissions definition.permission ≡ true

module _ (m : Models) (r : ToolRegistry) (v : IsValid m r) (name : String)
    (permissions : List PermissionLevel) (c : ToolCapability) where
  discover-IsVisible :
      discover r name (some permissions) ≡ c ∷ [] → IsVisible m r name permissions c
  unfolding discover is_permitted
  discover-IsVisible h = elim (Option-cases (get r.tools name)) [
    | inl missing ↦ absurd (ground (arith, v.described name))
    | inr (d, found) ↦ record {
      definition = d;
      registered = found;
      capability = v.faithful name d c found (ground arith);
      is_name = v.named name d found;
      allowed = v.allowed name d found;
      healthy = ground arith;
      permitted = ground arith;
    }
  ]

  IsVisible-discover :
      IsVisible m r name permissions c → discover r name (some permissions) ≡ c ∷ []
  unfolding discover is_permitted
  IsVisible-discover h = elim (Option-cases (get r.capabilities name)) [
    | inl missing ↦ absurd (ground (arith, v.described name, h.registered))
    | inr (c', found) ↦ ground (
      arith,
      v.faithful name h.definition c' h.registered found,
      h.capability,
      h.registered,
      h.healthy,
      h.permitted,
    )
  ]

  -- Discovery under a set of permissions answers with a capability exactly when the tool is
  -- registered under that name, is healthy, has one of these permissions, and describes itself by
  -- that capability; a tool that it shows is always a SAFE or an authorized CONFIRM tool.
  pub discover_iff :
      (discover r name (some permissions) ≡ c ∷ []) ↔ IsVisible m r name permissions c
  discover_iff = (discover-IsVisible, IsVisible-discover)

-- `describe` lists what `discover` answers for each registered name, in the order of the names.
pub describe-discover :
    (r : ToolRegistry) (permissions : Option (List PermissionLevel))
    → describe r permissions
      ≡ flat_map (λ name. discover r name permissions) (sorted (keys r.capabilities))
unfolding describe
describe-discover r permissions = described-discover r permissions _

-- From the moment an open registry is sealed until the first refresh no tool can be discovered,
-- and from then on nothing can be registered.
pub seal_closes :
    (m : Models) (r : ToolRegistry) (name : String) (permissions : Option (List PermissionLevel))
    (d : ToolDefinition)
    → r.is_sealed ≡ false
    → (discover (seal r) name permissions ≡ [])
      × (register m d (seal r) ≡ raise (runtime_error "tool registry is sealed"))
unfolding seal discover register is_healthy
seal_closes m r name permissions d h =
    (ground (arith, get-from_keys r.tools false name), ground arith)
