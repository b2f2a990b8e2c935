-- ===== src/WebSocket/Bounds.antt =====
-- What one connection of the endpoint of app.py keeps: the message IDs it has seen and the one
-- tool that the last message discovered.
use goffy_os.Prelude.{
  ◌≤◌, String, ◌≡◌, refl, some, List, [], ◌∷◌, ◌++◌, arith, inl, inr, Option-cases, nat_eq, length,
  length-append,
}
use goffy_os.Prelude.Result.{Result-cases}
use goffy_os.Protocol.{
  Uuid, MessageType, PermissionLevel, ApprovalResponsePayload, ToolInvocationPayload,
  approval_response, capability_discovery_request, tool_invocation,
}
use goffy_os.Registry.{
  Models, ToolRegistry, PreparedToolInvocation, RegistryError, bad_arguments, preflight,
}
use goffy_os.Prelude.Dict.{get, remove}
use goffy_os.Approval.{Crypto, consume}
use goffy_os.Auth.Principal.{AuthenticatedPrincipal, tool_permissions_of, principal_key_of}
use goffy_os.WebSocket.{
  Envelope, Wire, Tick, Session, PendingConfirmInvocation, send_event, send_error, request_approval,
  dispatch_prepared, refuse_preflight, on_invocation, on_discovery, answer_pending,
  handle_approval_response, on_approval_response, execute_prepared, dispatch, handle_message,
  clear_discovered, max_messages_per_connection,
}
use goffy_os.WebSocket.Frame.{execute_prepared-runs}

-- The seen IDs are the same, and no tool was discovered on the way.
abbrev Settled : Session → Session → Type 0
Settled s s' =
    (s'.seen_message_ids ≡ s.seen_message_ids) × (s'.discovered_tools ≡ s.discovered_tools)

module _ (c : Crypto) (m : Models) (w : Wire) (registry : ToolRegistry)
    (principal : AuthenticatedPrincipal) (tick : Tick) where
  request_approval-Settled :
      (key : String) (e : Envelope) (invocation : ToolInvocationPayload)
      (p : PreparedToolInvocation) (s : Session)
      → Settled s (request_approval c m w registry principal tick key e invocation p s)
  unfolding request_approval send_error send_event
  request_approval-Settled key e invocation p s = ground arith

  execute_prepared-Settled :
      (invocation : ToolInvocationPayload) (p : PreparedToolInvocation) (id : Uuid) (s : Session)
      → Settled s (execute_prepared c m w registry principal invocation p id s)
  execute_prepared-Settled invocation p id s =
      let same = (execute_prepared-runs c m w registry principal invocation p id s).0 in
      (same.seen, same.discovered)

  dispatch_prepared-Settled :
      (key : String) (permissions : List PermissionLevel) (e : Envelope)
      (invocation : ToolInvocationPayload) (p : PreparedToolInvocation) (s : Session)
      → Settled s (dispatch_prepared c m w registry principal tick key permissions e invocation p s)
  unfolding dispatch_prepared send_error send_event
  dispatch_prepared-Settled key permissions e invocation p s = ground (
    arith,
    request_approval-Settled key e invocation p s,
    execute_prepared-Settled invocation p e.message_id s,
  )

  refuse_preflight-Settled :
      (error : RegistryError) (e : Envelope) (s : Session)
      → Settled s (refuse_preflight c m w registry principal error e s)
  unfolding refuse_preflight send_error send_event
  refuse_preflight-Settled bad_arguments e s = ground arith
  refuse_preflight-Settled _ e s = ground arith

  on_invocation-Settled :
      (key : String) (permissions : List PermissionLevel) (e : Envelope)
      (capabilities : List String) (s : Session)
      → Settled s (on_invocation c m w registry principal tick key permissions e capabilities s)
  unfolding on_invocation send_error send_event
  on_invocation-Settled key permissions e capabilities s =
      elim (Option-cases (w.parse_invocation e.payload)) [
        | inl bad ↦ ground arith
        | inr (invocation, parsed) ↦
            elim (Result-cases (preflight m registry invocation.tool_name invocation.arguments)) [
              | inl (p, good) ↦
                  ground (arith, dispatch_prepared-Settled key permissions e invocation p s)
              | inr (error, refused) ↦ ground (arith, refuse_preflight-Settled error e s)
            ]
      ]

  answer_pending-Settled :
      (key : String) (response : ApprovalResponsePayload) (pending : PendingConfirmInvocation)
      (s : Session)
      → Settled s (answer_pending c m w registry principal tick key response pending s)
  unfolding answer_pending send_error send_event
  answer_pending-Settled key response pending s =
      let attempt =
        consume c tick.consume_now key response pending.invocation (some pending.credential_id)
          (some pending.approval_public_key) s.store in
      let s2 : Session = record s {
        store = attempt.0;
        pending = remove s.pending response.approval_id;
      } in
      elim (Result-cases attempt.1) [
        | inl (r, consumed) ↦ ground (
          arith,
          execute_prepared-Settled pending.invocation pending.prepared pending.original_message_id
              s2,
        )
        | inr (error, refused) ↦ ground arith
      ]

  on_approval_response-Settled :
      (key : String) (e : Envelope) (s : Session)
      → Settled s (on_approval_response c m w registry principal tick key e s)
  unfolding on_approval_response handle_approval_response send_error send_event
  on_approval_response-Settled key e s = elim (Option-cases (w.parse_approval_response e.payload)) [
    | inl bad ↦ ground arith
    | inr (response, parsed) ↦ elim (Option-cases (get s.pending response.approval_id)) [
      | inl missing ↦ ground arith
      | inr (pending, found) ↦ ground (arith, answer_pending-Settled key response pending s)
    ]
  ]

  on_discovery-bound :
      (permissions : List PermissionLevel) (e : Envelope) (s : Session)
      → s.discovered_tools ≡ []
      → ((on_discovery c m w registry principal permissions e s).seen_message_ids
          ≡ s.seen_message_ids)
        × (length (on_discovery c m w registry principal permissions e s).discovered_tools ≤ 1)
  unfolding on_discovery send_error send_event
  on_discovery-bound permissions e s none_yet = ground arith

  pub dispatch-bound :
      (t : MessageType) (e : Envelope) (s : Session)
      → ((dispatch c m w registry principal t tick e s).seen_message_ids ≡ s.seen_message_ids)
        × (length (dispatch c m w registry principal t tick e s).discovered_tools ≤ 1)
  unfolding dispatch
  dispatch-bound approval_response e s = ground (
    arith,
    on_approval_response-Settled (principal_key_of c.uuid_text principal) e (clear_discovered s),
  )
  dispatch-bound capability_discovery_request e s =
      on_discovery-bound (tool_permissions_of principal) e (clear_discovered s) refl
  dispatch-bound tool_invocation e s = ground (
    arith,
    on_invocation-Settled (principal_key_of c.uuid_text principal) (tool_permissions_of principal) e
        s.discovered_tools (clear_discovered s),
  )
  dispatch-bound _ e s = unfold send_error send_event in ground arith

  -- A message leaves at most one discovered tool, whatever it found.
  pub handle_message-bounds :
      (raw : String) (s : Session)
      → length s.seen_message_ids ≤ max_messages_per_connection
      → (length (handle_message c m w registry principal tick raw s).seen_message_ids
          ≤ max_messages_per_connection)
        × (length (handle_message c m w registry principal tick raw s).discovered_tools ≤ 1)
  unfolding handle_message send_error send_event
  handle_message-bounds raw s bound = elim (Option-cases (w.parse_envelope raw)) [
    | inl bad ↦ ground arith
    | inr (e, parsed) ↦ ground (
      arith,
      length-append s.seen_message_ids (e.message_id ∷ []),
      dispatch-bound e.message_type e
          (record s { seen_message_ids = s.seen_message_ids ++ e.message_id ∷ [] }),
    )
  ]
