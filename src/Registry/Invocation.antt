-- ===== src/Registry/Invocation.antt =====
-- When a call of a tool of registry.py goes through.
use goffy_os.Prelude.{
  ◌≤◌, String, ◌≡◌, ◌↔◌, refl, ap, ◌∙◌, inl, inr, true, some, arith, string_eq, nat_eq,
  Option-cases,
}
use goffy_os.Prelude.Result.{ok, Result-cases}
use goffy_os.Prelude.Dict.{get}
use goffy_os.Protocol.Values.{Json}
use goffy_os.Registry.{
  ToolDefinition, Models, ToolRegistry, PreparedToolInvocation, ToolInvocationResult,
  HandlerOutcome, returned, ran_out, raised_validation, failed, preflight, invoke_prepared, invoke,
  is_healthy, max_tool_output_bytes,
}
use goffy_os.Registry.Invariant.{IsValid}

module _ (m : Models) (r : ToolRegistry) where
  -- `preflight` passes a call exactly when the tool is registered, is healthy, and its input model
  -- accepts the arguments; what it passes on is that definition and the parsed input.
  pub preflight_iff :
      (name : String) (arguments : Json) (p : PreparedToolInvocation)
      → (preflight m r name arguments ≡ ok p) ↔ (
          (get r.tools name ≡ some p.definition)
          × (is_healthy r name ≡ true)
          × (m.validate_input p.definition arguments ≡ some p.parsed_input))
  unfolding preflight
  preflight_iff name arguments p = (
    λ h. elim (Option-cases (get r.tools name)) [
      | inl missing ↦ absurd (ground arith)
      | inr (d, found) ↦ elim (Option-cases (m.validate_input d arguments)) [
        | inl bad ↦ absurd (ground arith)
        | inr (parsed, good) ↦ ground arith
      ]
    ],
    λ (found, healthy, good). ground arith,
  )

  -- The output of a handler that the registry hands on.
  pub record IsDelivered (d : ToolDefinition) (outcome : HandlerOutcome) (content : Json)
      : Type 0 where
    pub raw : Json
    pub is_raw : outcome ≡ returned raw
    pub valid : m.validate_output d raw ≡ some content
    pub small : m.json_bytes content ≤ max_tool_output_bytes

  invoke_prepared-IsDelivered :
      (p : PreparedToolInvocation) (outcome : HandlerOutcome) (res : ToolInvocationResult)
      → invoke_prepared m r p outcome ≡ ok res
      → (res.definition ≡ p.definition) × IsDelivered p.definition outcome res.structured_content
  unfolding invoke_prepared
  invoke_prepared-IsDelivered p ran_out res h = absurd (ground arith)
  invoke_prepared-IsDelivered p raised_validation res h = absurd (ground arith)
  invoke_prepared-IsDelivered p failed res h = absurd (ground arith)
  invoke_prepared-IsDelivered p (returned raw) res h =
      elim (Option-cases (m.validate_output p.definition raw)) [
        | inl bad ↦ absurd (ground arith)
        | inr (content, good) ↦ (
          ground arith,
          record { raw = raw; is_raw = refl; valid = ground arith; small = ground arith },
        )
      ]

  module _ (v : IsValid m r) where
    pub IsDelivered-invoke_prepared :
        (p : PreparedToolInvocation) (name : String) (outcome : HandlerOutcome) (content : Json)
        → get r.tools name ≡ some p.definition
        → IsDelivered p.definition outcome content
        → invoke_prepared m r p outcome
          ≡ ok (record { definition = p.definition; structured_content = content })
    unfolding invoke_prepared
    IsDelivered-invoke_prepared p name outcome content found d =
        let here : get r.tools p.definition.name ≡ some p.definition =
          ap (get r.tools) (v.named name p.definition found) ∙ found in
        rw (d.is_raw) (ground (arith, d.valid, d.small))

    -- A call of a valid registry returns exactly when the tool is registered and healthy, its
    -- input model accepts the arguments, and the handler, run on the parsed input, returned in
    -- time something that the output model accepts and that is at most 8,192 bytes of JSON; the
    -- result is that output.
    pub invoke_iff :
        (handle : ToolDefinition → Json → HandlerOutcome) (name : String) (arguments : Json)
        (res : ToolInvocationResult)
        → (invoke m handle r name arguments ≡ ok res) ↔ (
            (input : Json) × (get r.tools name ≡ some res.definition)
            × (is_healthy r name ≡ true)
            × (m.validate_input res.definition arguments ≡ some input)
            × IsDelivered res.definition (handle res.definition input) res.structured_content)
    unfolding invoke
    invoke_iff handle name arguments res = (
      λ h. elim (Result-cases (preflight m r name arguments)) [
        | inr (e, bad) ↦ absurd (ground arith)
        | inl (p, good) ↦
            let (same, d) =
              invoke_prepared-IsDelivered p (handle p.definition p.parsed_input) res
                (ground arith) in
            let (found, healthy, valid) = (preflight_iff name arguments p).0 good in
            (p.parsed_input, rw same found, healthy, rw same valid, rw same d)
      ],
      λ (input, found, healthy, valid, d).
          let p : PreparedToolInvocation = record {
            definition = res.definition;
            parsed_input = input;
          } in
          rw ((preflight_iff name arguments p).1 (found, healthy, valid)) (
            IsDelivered-invoke_prepared p name (handle res.definition input) res.structured_content
              found d),
    )
