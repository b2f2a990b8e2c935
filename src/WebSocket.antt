-- ===== src/WebSocket.antt =====
-- The WebSocket endpoint of hub/src/goffy_hub/app.py: one connection of one principal, message by
-- message. The registry is only read. What a handler does to the world is the list `runs` of the
-- prepared calls whose handlers were started. `Wire` holds what pydantic parses and how large an
-- encoded event is, and a `Tick` the clock readings and the fresh UUID of one message.
pub mod Frame
pub mod Runs
pub mod Answers
pub mod Connection
pub mod Bounds
pub mod Replay
pub mod Tracking
pub mod Waiting
pub mod Closing
use Prim.Native.String.{len}
use goffy_os.Prelude.{
  ℕ, String, Bool, true, false, not, ◌||◌, Option, none, some, List, [], ◌∷◌, ◌++◌, ltb, leb,
  length, contains, is_some, nat_eq, string_eq, ◌==◌, ◌!=◌, if◌then◌else◌,
}
use goffy_os.Prelude.Result.{Result, ok, raise}
use goffy_os.Prelude.Dict.{Dict, get, put, remove, keys}
use goffy_os.Protocol.{
  Uuid, MessageType, approval_response, capability_discovery_request, tool_invocation,
  ExecutionTarget, PermissionLevel, safe, confirm, sensitive, blocked, permission_eq, ErrorCode,
  invalid_message, duplicate_message, connection_message_limit, approval_unavailable,
  invalid_approval_response, invalid_capability_discovery, unsupported_message_type,
  invalid_tool_arguments, capability_discovery_required, tool_not_found, approval_unexpected,
  approval_invalid, is_denied, tool_execution_failed, message_too_large, ApprovalRequestPayload,
  ApprovalResponsePayload, ToolInvocationPayload,
}
use goffy_os.Protocol.Values.{Json}
use goffy_os.Protocol.Capability.{ToolCapability}
use goffy_os.Registry.{
  ToolDefinition, Models, ToolRegistry, PreparedToolInvocation, ToolInvocationResult,
  HandlerOutcome, RegistryError, not_found, unavailable, bad_arguments, execution_failed, discover,
  preflight, invoke_prepared, is_registered,
}
use goffy_os.Approval.{
  Bytes, Crypto, ApprovalError, ApprovalArtifactStore, IssuedApprovalRecord, issue, consume,
  discard, to_payload,
}
use goffy_os.Auth.Principal.{
  AuthenticatedPrincipal, can_approve, principal_key_of, tool_permissions_of,
}

abbrev pub max_messages_per_connection : ℕ
max_messages_per_connection = 64

-- A `MessageEnvelope` that passed its validators.
pub record Envelope : Type 0 where
  pub message_id : Uuid
  pub message_type : MessageType
  pub payload : Json

-- The events that the Hub sends, each with its correlation ID.
pub data Event : Type 0 where
  tool_error : ErrorCode → String → Option Uuid → Event
  discovery_response : List ToolCapability → Uuid → Event
  approval_request : ApprovalRequestPayload → Uuid → Event
  progress : String → ExecutionTarget → String → ℕ → Uuid → Event
  result : String → ExecutionTarget → Json → Uuid → Event
  verified : String → Uuid → Event

pub record PendingConfirmInvocation : Type 0 where
  pub original_message_id : Uuid
  pub invocation : ToolInvocationPayload
  pub prepared : PreparedToolInvocation
  pub principal_key : String
  pub credential_id : Uuid
  pub approval_public_key : Bytes

-- What the endpoint keeps for its connection, the store that all connections share, and what went
-- out: the events and the handler runs. `crashed` is set when an exception leaves a handler.
pub record Session : Type 0 where
  pub discovered_tools : List String
  pub seen_message_ids : List Uuid
  pub pending : Dict Uuid PendingConfirmInvocation
  pub outbound_closed : Bool
  pub crashed : Bool
  pub store : ApprovalArtifactStore
  pub sent : List Event
  pub runs : List PreparedToolInvocation

pub record Wire : Type 0 where
  pub parse_envelope : String → Option Envelope
  pub parse_approval_response : Json → Option ApprovalResponsePayload
  pub parse_discovery : Json → Option String
  pub parse_invocation : Json → Option ToolInvocationPayload
  pub event_bytes : Event → ℕ
  pub max_message_bytes : ℕ
  pub handle : ToolDefinition → Json → HandlerOutcome

pub record Tick : Type 0 where
  pub consume_now : ℕ
  pub prune_now : ℕ
  pub issued_at : ℕ
  pub approval_id : Uuid

abbrev pub clear_discovered : Session → Session
clear_discovered s = record s { discovered_tools = [] }

module _ (w : Wire) where
  -- `send_event`: an event that is too large closes the connection and is not sent
  unfoldable pub send_event : Event → Session → Session × Bool
  send_event e s =
      if ltb w.max_message_bytes (w.event_bytes e)
      then (record s { outbound_closed = true }, false)
      else (record s { sent = s.sent ++ e ∷ [] }, true)

  -- `_send_error`
  unfoldable pub send_error : ErrorCode → String → Option Uuid → Session → Session
  send_error code message correlation_id s =
      (send_event (tool_error code message correlation_id) s).0

  -- The events after a run that returned.
  unfoldable pub send_completion :
      ToolInvocationPayload → Uuid → ToolInvocationResult → Session → Session
  send_completion invocation correlation_id res s =
      let target = res.definition.execution_target in
      let (s1, sent1) =
        send_event (progress invocation.tool_name target "completed" 1 correlation_id) s in
      let (s2, sent2) =
        send_event (result invocation.tool_name target res.structured_content correlation_id) s1 in
      if not sent1
      then s1
      else if not sent2
      then s2
      else (send_event (verified res.definition.name correlation_id) s2).0

  unfoldable pub fail_run : RegistryError → Uuid → Session → Session
  fail_run (execution_failed reason) correlation_id s =
      send_error tool_execution_failed "The tool failed without a verified state change."
        (some correlation_id) s
  fail_run _ correlation_id s = record s { crashed = true }

module _ (m : Models) (registry : ToolRegistry) where
  -- The handler runs if the definition is still the registered one.
  unfoldable pub start_run : PreparedToolInvocation → Session → Session
  start_run prepared s =
      if is_registered m registry prepared.definition
      then record s { runs = s.runs ++ prepared ∷ [] }
      else s

unfoldable discard_all : List Uuid → ApprovalArtifactStore → ApprovalArtifactStore
discard_all [] store = store
discard_all (id ∷ ids) store = discard_all ids (discard id store)

module _ (c : Crypto) (m : Models) (w : Wire) (registry : ToolRegistry)
    (principal : AuthenticatedPrincipal) where
  -- `_execute_prepared_invocation` catches `ToolExecutionError` alone.
  unfoldable pub execute_prepared :
      ToolInvocationPayload → PreparedToolInvocation → Uuid → Session → Session
  execute_prepared invocation prepared correlation_id s =
      let (s1, accepted) =
        send_event w
          (progress invocation.tool_name prepared.definition.execution_target "accepted" 0
            correlation_id)
          s in
      let s2 = start_run m registry prepared s1 in
      if not accepted
      then s1
      else elim (invoke_prepared m registry prepared
          (w.handle prepared.definition prepared.parsed_input)) [
            | ok res ↦ send_completion w invocation correlation_id res s2
            | raise e ↦ fail_run w e correlation_id s2
          ]

  -- `_handle_approval_response`, once the request is known to be pending here.
  unfoldable pub answer_pending :
      Tick → String → ApprovalResponsePayload → PendingConfirmInvocation → Session → Session
  answer_pending tick principal_key response pending s =
      let (store', outcome) =
        consume c tick.consume_now principal_key response pending.invocation
          (some pending.credential_id) (some pending.approval_public_key) s.store in
      let s1 : Session = record s { store = store' } in
      let s2 : Session = record s1 { pending = remove s1.pending response.approval_id } in
      elim outcome [
        | ok r ↦ execute_prepared pending.invocation pending.prepared pending.original_message_id s2
        | raise e ↦
            send_error w e.code e.message (some pending.original_message_id)
              (if is_denied e.code then s2 else s1)
      ]

  unfoldable pub handle_approval_response :
      Tick → String → ApprovalResponsePayload → Uuid → Session → Session
  handle_approval_response tick principal_key response fallback s =
      elim (get s.pending response.approval_id) [
        | none ↦
            send_error w approval_invalid "Approval request is unknown or already consumed."
              (some fallback) s
        | some pending ↦
            if pending.principal_key != principal_key
            then send_error w approval_invalid "Approval request does not match this principal."
                (some pending.original_message_id) s
            else answer_pending tick principal_key response pending s
      ]

  -- An `APPROVAL_RESPONSE`
  unfoldable pub on_approval_response : Tick → String → Envelope → Session → Session
  on_approval_response tick principal_key e s =
      if not (can_approve principal)
      then send_error w approval_unavailable
          "CONFIRM WebSocket approvals require device-bound proof and are not enabled."
          (some e.message_id) s
      else elim (w.parse_approval_response e.payload) [
        | none ↦
            send_error w invalid_approval_response "Approval response payload is invalid."
              (some e.message_id) s
        | some response ↦ handle_approval_response tick principal_key response e.message_id s
      ]

  abbrev note_discovery : List ToolCapability → Session → Session
  note_discovery [] s = s
  note_discovery (tool ∷ tools) s = record s { discovered_tools = tool.name ∷ s.discovered_tools }

  -- A `CAPABILITY_DISCOVERY_REQUEST`, after `discovered_tools.clear()`
  unfoldable pub on_discovery : List PermissionLevel → Envelope → Session → Session
  on_discovery permissions e s = elim (w.parse_discovery e.payload) [
    | none ↦
        send_error w invalid_capability_discovery "Capability discovery payload is invalid."
          (some e.message_id) s
    | some name ↦
        let tools = discover registry name (some permissions) in
        (send_event w (discovery_response tools e.message_id) (note_discovery tools s)).0
  ]

  -- A prepared CONFIRM call waits for an approval.
  unfoldable pub request_approval :
      Tick → String → Envelope → ToolInvocationPayload → PreparedToolInvocation → Session → Session
  request_approval tick principal_key e invocation prepared s =
      let give_up =
        send_error w tool_not_found "The requested tool is unavailable or unauthorized."
          (some e.message_id) s in
      elim principal.credential_id [
        | none ↦ give_up
        | some credential_id ↦ elim principal.approval_public_key [
          | none ↦ give_up
          | some key ↦
              let (store', issued) =
                issue c tick.prune_now tick.issued_at tick.approval_id principal_key invocation
                  s.store in
              let s1 : Session = record s { store = store' } in
              elim issued [
                | raise error ↦ send_error w error.code error.message (some e.message_id) s1
                | ok approval ↦
                    let waiting : PendingConfirmInvocation = record {
                      original_message_id = e.message_id;
                      invocation = invocation;
                      prepared = prepared;
                      principal_key = principal_key;
                      credential_id = credential_id;
                      approval_public_key = key;
                    } in
                    let s2 : Session = record s1 {
                      pending = put s1.pending approval.approval_id waiting;
                    } in
                    let (s3, delivered) =
                      send_event w (approval_request (to_payload approval) e.message_id) s2 in
                    if delivered then s3 else record s3 {
                      pending = remove s3.pending approval.approval_id;
                      store = discard approval.approval_id s3.store;
                    }
              ]
        ]
      ]

  -- The end of a `TOOL_INVOCATION`: a call whose arguments fit its tool.
  unfoldable pub dispatch_prepared :
      Tick
      → String
      → List PermissionLevel
      → Envelope
      → ToolInvocationPayload
      → PreparedToolInvocation
      → Session
      → Session
  dispatch_prepared tick principal_key permissions e invocation prepared s =
      if not (contains permissions prepared.definition.permission)
      then send_error w tool_not_found "The requested tool is unavailable or unauthorized."
          (some e.message_id) s
      else if prepared.definition.permission == confirm
      then request_approval tick principal_key e invocation prepared s
      else if is_some invocation.task_id
      then send_error w approval_unexpected "Approval task IDs are accepted only for CONFIRM tools."
          (some e.message_id) s
      else execute_prepared invocation prepared e.message_id s

  -- The answer to an error of `preflight`, which raises no other.
  unfoldable pub refuse_preflight : RegistryError → Envelope → Session → Session
  refuse_preflight bad_arguments e s =
      send_error w invalid_tool_arguments "Arguments do not match the tool schema."
        (some e.message_id) s
  refuse_preflight _ e s =
      send_error w tool_not_found "The requested tool is unavailable or unauthorized."
        (some e.message_id) s

  -- A `TOOL_INVOCATION`, with the tools that were discovered just before
  unfoldable pub on_invocation :
      Tick → String → List PermissionLevel → Envelope → List String → Session → Session
  on_invocation tick principal_key permissions e capabilities s =
      elim (w.parse_invocation e.payload) [
        | none ↦
            send_error w invalid_tool_arguments "Tool invocation payload is invalid."
              (some e.message_id) s
        | some invocation ↦
            if not (contains capabilities invocation.tool_name)
            then send_error w capability_discovery_required
                "Capability discovery must succeed before invoking this tool." (some e.message_id) s
            else elim (preflight m registry invocation.tool_name invocation.arguments) [
              | raise error ↦ refuse_preflight error e s
              | ok prepared ↦
                  dispatch_prepared tick principal_key permissions e invocation prepared s
            ]
      ]

  -- The dispatch on the type of a message that is new on this connection.
  unfoldable pub dispatch : MessageType → Tick → Envelope → Session → Session
  dispatch approval_response tick e s =
      on_approval_response tick (principal_key_of c.uuid_text principal) e (clear_discovered s)
  dispatch capability_discovery_request tick e s =
      on_discovery (tool_permissions_of principal) e (clear_discovered s)
  dispatch tool_invocation tick e s =
      on_invocation tick (principal_key_of c.uuid_text principal) (tool_permissions_of principal) e
        s.discovered_tools (clear_discovered s)
  dispatch _ tick e s =
      send_error w unsupported_message_type
        "This Hub endpoint accepts capability discovery, approval response, and tool invocation messages only."
        (some e.message_id) (clear_discovered s)

  -- `_handle_message`
  unfoldable pub handle_message : Tick → String → Session → Session
  handle_message tick raw s = elim (w.parse_envelope raw) [
    | none ↦
        send_error w invalid_message "Message does not match the supported protocol." none
          (clear_discovered s)
    | some e ↦
        if contains s.seen_message_ids e.message_id
        then send_error w duplicate_message "Message ID has already been used on this connection."
            (some e.message_id) (clear_discovered s)
        else if leb max_messages_per_connection (length s.seen_message_ids)
        then send_error w connection_message_limit "Connection message limit reached."
            (some e.message_id) (clear_discovered s)
        else dispatch e.message_type tick e
            (record s { seen_message_ids = s.seen_message_ids ++ e.message_id ∷ [] })
  ]

  -- `_discard_pending_confirm_invocations`
  unfoldable pub close_session : Session → Session
  unfolding discard_all
  close_session s = record s { store = discard_all (keys s.pending) s.store; pending = [] }

  -- The receive loop over the messages that arrive before the peer disconnects.
  unfoldable pub serve : List (Tick × String) → Session → Session
  serve [] s = close_session s
  serve ((tick, raw) ∷ messages) s =
      if ltb w.max_message_bytes (len raw)
      then close_session
          (send_error w message_too_large "Message exceeds the configured size limit." none s)
      else let s' = handle_message tick raw s in
        let rest = serve messages s' in
        if s'.outbound_closed || s'.crashed then close_session s' else rest

abbrev pub new_session : ApprovalArtifactStore → Session
new_session store = record {
  discovered_tools = [];
  seen_message_ids = [];
  pending = [];
  outbound_closed = false;
  crashed = false;
  store = store;
  sent = [];
  runs = [];
}
