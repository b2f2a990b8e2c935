-- ===== src/Mcp/Adapter.antt =====
-- `RegistryMcpAdapter` of hub/src/goffy_hub/mcp_server.py, which offers the SAFE tools of the registry
-- to MCP clients. Whether the semaphore gave a slot in time comes as an argument.
use goffy_os.Prelude.{
  String, ◌≡◌, ◌≢◌, ◌↔◌, refl, ap, sym, ◌∙◌, inl, inr, Bool, true, false, some, List, [], ◌∷◌,
  arith, string_eq, if◌then◌else◌, Bool-cases,
}
use goffy_os.Prelude.Result.{Result, ok, raise, ◌>>=◌, Result-cases}
use goffy_os.Prelude.Dict.{get}
use goffy_os.Protocol.{safe, permission_beq, permission_beq_iff}
use goffy_os.Protocol.Values.{Json}
use goffy_os.Protocol.Capability.{ToolCapability}
use goffy_os.Registry.{
  RegistryError, not_found, unavailable, bad_arguments, execution_failed, runtime_error,
  value_error, ToolDefinition, Models, ToolRegistry, PreparedToolInvocation, ToolInvocationResult,
  HandlerOutcome, preflight, invoke, invoke_prepared, describe, is_healthy,
}
use goffy_os.Registry.Invariant.{IsValid}
use goffy_os.Registry.Invocation.{
  IsDelivered, preflight_iff, invoke_iff, IsDelivered-invoke_prepared,
}

-- The codes of JSON-RPC that the adapter answers with
pub data ErrorCode : Type 0 where
  internal_error invalid_params : ErrorCode

-- What `call_tool` returns or raises: a structured result, a result with `isError`, an `McpError`, or
-- an exception that it does not expect
pub data CallOutcome : Type 0 where
  structured : Json → CallOutcome
  tool_error : String → CallOutcome
  protocol_error : ErrorCode → String → CallOutcome
  escaped : CallOutcome

-- `list_tools`, before the fields are copied to MCP's own type
unfoldable pub list_tools : ToolRegistry → List ToolCapability
list_tools r = describe r (some (safe ∷ []))

-- The `except` clauses; `ToolUnavailableError` is a `ToolNotFoundError`.
unfoldable pub from_registry : Result RegistryError ToolInvocationResult → CallOutcome
from_registry (ok result) = structured result.structured_content
from_registry (raise not_found) = protocol_error invalid_params "Unknown or unauthorized tool."
from_registry (raise unavailable) = protocol_error invalid_params "Unknown or unauthorized tool."
from_registry (raise bad_arguments) = protocol_error invalid_params "Invalid tool arguments."
from_registry (raise (execution_failed reason)) =
    tool_error "The tool failed without a verified result."
from_registry (raise (runtime_error message)) = escaped
from_registry (raise (value_error message)) = escaped

module _ (m : Models) (handle : ToolDefinition → Json → HandlerOutcome) (r : ToolRegistry) where
  invoke_safe : PreparedToolInvocation → Result RegistryError ToolInvocationResult
  invoke_safe prepared =
      let definition = prepared.definition in
      if permission_beq definition.permission safe
      then invoke_prepared m r prepared (handle definition prepared.parsed_input)
      else raise not_found

  unfoldable pub call_tool : Bool → String → Json → CallOutcome
  unfolding invoke_safe
  call_tool has_slot name arguments =
      if has_slot
      then from_registry (preflight m r name arguments >>= invoke_safe)
      else protocol_error internal_error "The Hub is busy."

  -- A tool that may run for an MCP client
  pub record IsCallable (name : String) (arguments : Json) (d : ToolDefinition) (input : Json)
      : Type 0 where
    pub registered : get r.tools name ≡ some d
    pub healthy : is_healthy r name ≡ true
    pub is_safe : d.permission ≡ safe
    pub accepted : m.validate_input d arguments ≡ some input

  refused : (e : RegistryError) {content : Json} → from_registry (raise e) ≢ structured content
  unfolding from_registry
  refused not_found h = cc
  refused unavailable h = cc
  refused bad_arguments h = cc
  refused (execution_failed reason) h = cc
  refused (runtime_error message) h = cc
  refused (value_error message) h = cc

  module _ (v : IsValid m r) where
    call_tool-structured :
        (has_slot : Bool) (name : String) (arguments content : Json)
        → call_tool has_slot name arguments ≡ structured content
        → (d : ToolDefinition) × (input : Json) × (has_slot ≡ true)
          × IsCallable name arguments d input
          × IsDelivered m r d (handle d input) content
    unfolding call_tool from_registry
    call_tool-structured false name arguments content h = absurd (ground arith)
    call_tool-structured true name arguments content h =
        elim (Result-cases (preflight m r name arguments)) [
          | inr (e, bad) ↦ absurd (refused e (rw bad at h))
          | inl (p, good) ↦ elim (Bool-cases (permission_beq p.definition.permission safe)) [
            | inr other ↦ absurd (ground arith)
            | inl is_safe ↦
                elim (Result-cases (invoke_prepared m r p (handle p.definition p.parsed_input))) [
                  | inr (e, bad) ↦ absurd (refused e (rw (good, is_safe, bad) at h))
                  | inl (res, done) ↦
                      let (input, found, healthy, valid, delivered) =
                        (invoke_iff m r v handle name arguments res).0
                          (unfold invoke in rw (good) done) in
                      let (found', _, _) = (preflight_iff m r name arguments p).0 good in
                      let same : p.definition ≡ res.definition = ground arith in
                      let is_content : res.structured_content ≡ content = ground arith in
                      (
                        res.definition,
                        input,
                        refl,
                        record {
                          registered = found;
                          healthy = healthy;
                          is_safe =
                              ap (λ (d : ToolDefinition). d.permission) (sym same)
                              ∙ (permission_beq_iff p.definition.permission safe).0 is_safe;
                          accepted = valid;
                        },
                        rw (← is_content) delivered,
                      )
                ]
          ]
        ]

    -- An MCP client gets a structured result exactly when its call got a slot in time, the tool is
    -- registered, healthy and SAFE, its input model accepts the arguments, and its handler, run on the
    -- parsed input, returned in time something that the output model accepts and that is at most 8,192
    -- bytes of JSON; the result is that output.
    pub call_tool_iff :
        (has_slot : Bool) (name : String) (arguments content : Json)
        → (call_tool has_slot name arguments ≡ structured content) ↔ (
            (d : ToolDefinition) × (input : Json) × (has_slot ≡ true)
            × IsCallable name arguments d input
            × IsDelivered m r d (handle d input) content)
    unfolding call_tool from_registry
    call_tool_iff has_slot name arguments content = (
      call_tool-structured has_slot name arguments content,
      λ (d, input, slot, callable, delivered).
          let p : PreparedToolInvocation = record { definition = d; parsed_input = input } in
          let passed =
            (preflight_iff m r name arguments p).1
              (callable.registered, callable.healthy, callable.accepted) in
          let done =
            IsDelivered-invoke_prepared m r v p name (handle d input) content callable.registered
              delivered in
          let is_safe = (permission_beq_iff d.permission safe).1 callable.is_safe in
          rw (slot, passed, is_safe, done) refl,
    )
