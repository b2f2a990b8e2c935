-- ===== src/Registry/Invariant.antt =====
-- The invariant of the registry of registry.py, and registration, sealing and new health under it.
use goffy_os.Prelude.{
  ℕ, ◌+◌, ◌≤◌, String, ◌≡◌, refl, ◌⊎◌, inl, inr, Bool, true, false, none, some, List, [], ◌∷◌,
  arith, length, contains, ◌==◌, string_eq, eq_iff, Option-cases, Bool-cases,
}
use goffy_os.Prelude.Result.{ok, Result-cases}
use goffy_os.Prelude.Dict.{
  Dict, get, put, has, from_keys, IsDistinct, get-put, put-IsDistinct, length-put, get-from_keys,
}
use goffy_os.Protocol.{safe, confirm, sensitive, blocked, PermissionLevel, ToolAnnotations}
use goffy_os.Protocol.Capability.{ToolCapability}
use goffy_os.Registry.{
  ToolDefinition, Models, ToolRegistry, register, seal, publish_health, validate_permission,
  validate_safe_definition, validate_confirm_definition, describe_definition, add_tool,
  max_registered_tools, max_registry_capability_bytes,
}

abbrev pub safe_hints : ToolAnnotations
safe_hints = record {
  read_only_hint = true;
  destructive_hint = false;
  idempotent_hint = true;
  open_world_hint = false;
}

abbrev pub confirm_hints : ToolAnnotations
confirm_hints = record {
  read_only_hint = false;
  destructive_hint = false;
  idempotent_hint = false;
  open_world_hint = false;
}

-- A SAFE tool declares itself read-only, and a CONFIRM tool is on the list of the authorization
-- policy and declares itself neither read-only nor destructive. There is no other kind of tool.
abbrev pub IsAllowed : List String → ToolDefinition → Type 0
IsAllowed names d =
    ((d.permission ≡ safe) × (d.annotations ≡ some safe_hints))
    ⊎ ((d.permission ≡ confirm)
        × (contains names d.name ≡ true)
        × (d.annotations ≡ some confirm_hints))

validate_permission-IsAllowed :
    (names : List String) (d : ToolDefinition) (p : PermissionLevel)
    → d.permission ≡ p
    → validate_permission names d ≡ ok tt
    → IsAllowed names d
unfolding validate_permission validate_safe_definition validate_confirm_definition
validate_permission-IsAllowed names d safe e h = elim (Option-cases d.annotations) [
  | inl missing ↦ absurd (ground arith)
  | inr (a, given) ↦ inl (e, ground arith)
]
validate_permission-IsAllowed names d confirm e h = elim (Option-cases d.annotations) [
  | inl missing ↦ absurd (ground arith)
  | inr (a, given) ↦ inr (e, ground arith, ground arith)
]
validate_permission-IsAllowed names d sensitive e h = absurd (ground arith)
validate_permission-IsAllowed names d blocked e h = absurd (ground arith)

module _ (m : Models) where
  -- The bytes of all capabilities together
  unfoldable pub total_bytes : Dict String ToolCapability → ℕ
  total_bytes [] = 0
  total_bytes ((name, c) ∷ d) = m.capability_bytes c + total_bytes d

  total_bytes-put :
      (d : Dict String ToolCapability) (name : String) (c : ToolCapability)
      → get d name ≡ none
      → total_bytes (put d name c) ≡ total_bytes d + m.capability_bytes c
  unfolding total_bytes put get
  total_bytes-put [] name c h = omega arith
  total_bytes-put ((i, x) ∷ d) name c h = ground (arith, total_bytes-put d name c)

  pub record IsValid (r : ToolRegistry) : Type 0 where
    pub counted : r.capability_total ≡ total_bytes r.capabilities
    pub distinct : IsDistinct r.tools
    pub bounded : length r.tools ≤ max_registered_tools
    pub sized : total_bytes r.capabilities ≤ max_registry_capability_bytes
    pub described : (n : String) → has r.capabilities n ≡ has r.tools n
    pub probed : (n : String) → has r.healthy n ≡ has r.tools n
    pub named : (n : String) (d : ToolDefinition) → get r.tools n ≡ some d → d.name ≡ n
    pub allowed :
        (n : String) (d : ToolDefinition)
        → get r.tools n ≡ some d
        → IsAllowed r.confirm_tool_names d
    pub faithful :
        (n : String) (d : ToolDefinition) (c : ToolCapability)
        → get r.tools n ≡ some d
        → get r.capabilities n ≡ some c
        → describe_definition m d ≡ ok c

  -- What a registration that returns has checked, and what it adds.
  pub record Registered (d : ToolDefinition) (r r' : ToolRegistry) : Type 0 where
    pub open_registry : r.is_sealed ≡ false
    pub is_new : get r.tools d.name ≡ none
    pub room : length r.tools + 1 ≤ max_registered_tools
    pub is_allowed : IsAllowed r.confirm_tool_names d
    pub capability : ToolCapability
    pub is_capability : describe_definition m d ≡ ok capability
    pub fits : r.capability_total + m.capability_bytes capability ≤ max_registry_capability_bytes
    pub added : r' ≡ add_tool m r d capability

  pub register-Registered :
      (d : ToolDefinition) (r r' : ToolRegistry) → register m d r ≡ ok r' → Registered d r r'
  unfolding register
  register-Registered d r r' h = elim (Result-cases (describe_definition m d)) [
    | inr (e, bad) ↦ absurd (ground arith)
    | inl (capability, is_capability) ↦
        let permitted : validate_permission r.confirm_tool_names d ≡ ok tt = ground arith in
        record {
          open_registry = ground arith;
          is_new = ground arith;
          room = ground arith;
          is_allowed =
              validate_permission-IsAllowed r.confirm_tool_names d d.permission refl permitted;
          capability = capability;
          is_capability = is_capability;
          fits = ground arith;
          added = ground arith;
        }
  ]

  pub add_tool-IsValid :
      (d : ToolDefinition) (r r' : ToolRegistry) → Registered d r r' → IsValid r → IsValid r'
  unfolding add_tool
  add_tool-IsValid d r r' reg v = rw reg.added (record {
    counted = omega (
      arith,
      v.counted,
      total_bytes-put r.capabilities d.name reg.capability
          (ground (arith, v.described d.name, reg.is_new)),
    );
    distinct = put-IsDistinct r.tools d.name d v.distinct;
    bounded = ground (arith, length-put r.tools d.name d, reg.room);
    sized = omega (
      arith,
      reg.fits,
      v.counted,
      total_bytes-put r.capabilities d.name reg.capability
          (ground (arith, v.described d.name, reg.is_new)),
    );
    described = λ n. ground (
      arith,
      get-put r.tools d.name n d,
      get-put r.capabilities d.name n reg.capability,
      v.described n,
    );
    probed = λ n.
        ground (arith, get-put r.tools d.name n d, get-put r.healthy d.name n true, v.probed n);
    named = λ n d' h. ground (arith, get-put r.tools d.name n d, eq_iff d.name n, v.named n d');
    allowed = λ n d' h. elim (Bool-cases (d.name == n)) [
      | inl hit ↦
          let same : d' ≡ d = ground (arith, get-put r.tools d.name n d) in rw same reg.is_allowed
      | inr miss ↦ v.allowed n d' (ground (arith, get-put r.tools d.name n d))
    ];
    faithful = λ n d' c h k. ground (
      arith,
      get-put r.tools d.name n d,
      get-put r.capabilities d.name n reg.capability,
      v.faithful n d' c,
      reg.is_capability,
    );
  })

  -- Any health that has an entry for exactly the registered tools keeps the rest of the invariant.
  pub with_health :
      (r : ToolRegistry) (healthy : Dict String Bool)
      → IsValid r
      → ((n : String) → has healthy n ≡ has r.tools n)
      → IsValid (publish_health r healthy).0
  unfolding publish_health
  with_health r healthy v h = record {
    distinct = v.distinct;
    bounded = v.bounded;
    counted = v.counted;
    sized = v.sized;
    described = v.described;
    probed = h;
    named = v.named;
    allowed = v.allowed;
    faithful = v.faithful;
  }

  pub has-from_keys :
      (r : ToolRegistry) (n : String) → has (from_keys r.tools false) n ≡ has r.tools n
  has-from_keys r n = ground (arith, get-from_keys r.tools false n)

  pub seal-IsValid : (r : ToolRegistry) → IsValid r → IsValid (seal r)
  unfolding seal
  seal-IsValid r v = elim (Bool-cases r.is_sealed) [
    | inl done ↦ simp done v
    | inr open_one ↦ simp open_one (record {
      distinct = v.distinct;
      bounded = v.bounded;
      counted = v.counted;
      sized = v.sized;
      described = v.described;
      probed = has-from_keys r;
      named = v.named;
      allowed = v.allowed;
      faithful = v.faithful;
    })
  ]
