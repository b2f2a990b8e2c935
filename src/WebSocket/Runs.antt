-- ===== src/WebSocket/Runs.antt =====
-- Which tool handlers one message of the endpoint of app.py can start.
use goffy_os.Prelude.{
  String, ◌≡◌, ◌⊎◌, inl, inr, true, false, some, List, [], ◌∷◌, ◌++◌, arith, Bool-cases,
  Option-cases, contains, string_eq, ◌==◌, is_some, nat_eq,
}
use goffy_os.Prelude.Result.{ok, Result-cases}
use goffy_os.Prelude.Dict.{get}
use goffy_os.Protocol.{
  tool_not_found, approval_unexpected, invalid_tool_arguments, capability_discovery_required,
  PermissionLevel, confirm, permission_eq, ToolInvocationPayload, ApprovalResponsePayload,
}
use goffy_os.Protocol.Values.{Json}
use goffy_os.Registry.{
  Models, ToolRegistry, PreparedToolInvocation, preflight, RegistryError, bad_arguments, not_found,
}
use goffy_os.Approval.{Crypto, IssuedApprovalRecord}
use goffy_os.Approval.Consuming.{IsAuthorized}
use goffy_os.Auth.Principal.{
  AuthenticatedPrincipal, can_approve, tool_permissions_of, principal_key_of,
}
use goffy_os.WebSocket.{
  Envelope, Wire, Tick, Session, PendingConfirmInvocation, send_event, send_error, on_discovery,
  request_approval, dispatch_prepared, refuse_preflight, on_invocation,
}
use goffy_os.WebSocket.Frame.{runs-send_error, execute_prepared-runs}

module _ (c : Crypto) (m : Models) (w : Wire) (registry : ToolRegistry)
    (principal : AuthenticatedPrincipal) where
  -- The call is of a tool that the message before discovered, that this principal may use, and
  -- that needs no confirmation.
  pub record SafeRun (capabilities : List String) (p : PreparedToolInvocation) : Type 0 where
    pub name : String
    pub arguments : Json
    pub discovered : contains capabilities name ≡ true
    pub prepared : preflight m registry name arguments ≡ ok p
    pub permitted : contains (tool_permissions_of principal) p.definition.permission ≡ true
    pub unconfirmed : (p.definition.permission == confirm) ≡ false

  -- The call was pending on this connection, and an authorized answer of its device approves it.
  pub record ApprovedRun (tick : Tick) (s : Session) (p : PreparedToolInvocation) : Type 0 where
    pub able : can_approve principal ≡ true
    pub response : ApprovalResponsePayload
    pub pending : PendingConfirmInvocation
    pub is_pending : get s.pending response.approval_id ≡ some pending
    pub is_prepared : pending.prepared ≡ p
    pub request : IssuedApprovalRecord
    pub issued : get s.store.pending_approvals response.approval_id ≡ some request
    pub approved : response.approved ≡ true
    pub authorized :
        IsAuthorized c tick.consume_now request
          (principal_key_of c.uuid_text principal)
          response
          pending.invocation
          (some pending.credential_id)
          (some pending.approval_public_key)

  -- A step that starts at most one handler, and that one with a reason.
  abbrev pub RunsAtMostOne : (PreparedToolInvocation → Type 0) → Session → Session → Type 0
  RunsAtMostOne P s s' =
      (s'.runs ≡ s.runs) ⊎ ((p : PreparedToolInvocation) × (s'.runs ≡ s.runs ++ p ∷ []) × P p)

  module _ (tick : Tick) (e : Envelope) where
    runs-request_approval :
        (principal_key : String) (invocation : ToolInvocationPayload)
        (prepared : PreparedToolInvocation) (s : Session)
        → (request_approval c m w registry principal tick principal_key e invocation prepared
            s).runs
          ≡ s.runs
    unfolding request_approval send_error send_event
    runs-request_approval principal_key invocation prepared s = ground arith

    runs-refuse_preflight :
        (error : RegistryError) (s : Session)
        → (refuse_preflight c m w registry principal error e s).runs ≡ s.runs
    unfolding refuse_preflight
    runs-refuse_preflight bad_arguments s = runs-send_error w _ _ _ s
    runs-refuse_preflight not_found s = runs-send_error w _ _ _ s
    runs-refuse_preflight _ s = runs-send_error w _ _ _ s

    pub runs-on_discovery :
        (permissions : List PermissionLevel) (s : Session)
        → (on_discovery c m w registry principal permissions e s).runs ≡ s.runs
    unfolding on_discovery send_error send_event
    runs-on_discovery permissions s = ground arith

    dispatch_prepared-runs :
        (principal_key : String) (invocation : ToolInvocationPayload) (p : PreparedToolInvocation)
        (capabilities : List String) (s : Session)
        → contains capabilities invocation.tool_name ≡ true
        → preflight m registry invocation.tool_name invocation.arguments ≡ ok p
        → RunsAtMostOne (SafeRun capabilities) s (
            dispatch_prepared c m w registry principal tick principal_key
              (tool_permissions_of principal)
              e
              invocation
              p
              s)
    unfolding dispatch_prepared
    dispatch_prepared-runs principal_key invocation p capabilities s known good =
        elim (Bool-cases (contains (tool_permissions_of principal) p.definition.permission)) [
          | inr denied ↦ inl (
              ground (
                arith,
                runs-send_error w tool_not_found
                    "The requested tool is unavailable or unauthorized." (some e.message_id) s,
              ))
          | inl permitted ↦ elim (Bool-cases (p.definition.permission == confirm)) [
            | inl asks ↦ inl (ground (arith, runs-request_approval principal_key invocation p s))
            | inr unconfirmed ↦
                let safe_run : SafeRun capabilities p = record {
                  name = invocation.tool_name;
                  arguments = invocation.arguments;
                  discovered = known;
                  prepared = good;
                  permitted = permitted;
                  unconfirmed = unconfirmed;
                } in
                elim (Bool-cases (is_some invocation.task_id)) [
                  | inl extra ↦ inl (
                      ground (
                        arith,
                        runs-send_error w approval_unexpected
                            "Approval task IDs are accepted only for CONFIRM tools."
                            (some e.message_id) s,
                      ))
                  | inr plain ↦
                      elim (execute_prepared-runs c m w registry principal invocation p e.message_id
                        s).1 [
                          | inl none_started ↦ inl (ground arith)
                          | inr started ↦ inr (p, ground arith, safe_run)
                        ]
                ]
          ]
        ]

    pub on_invocation-runs :
        (principal_key : String) (capabilities : List String) (s : Session)
        → RunsAtMostOne (SafeRun capabilities) s (
            on_invocation c m w registry principal tick principal_key
              (tool_permissions_of principal)
              e
              capabilities
              s)
    unfolding on_invocation
    on_invocation-runs principal_key capabilities s =
        elim (Option-cases (w.parse_invocation e.payload)) [
          | inl bad ↦ inl (
              ground (
                arith,
                runs-send_error w invalid_tool_arguments "Tool invocation payload is invalid."
                    (some e.message_id) s,
              ))
          | inr (invocation, parsed) ↦
              elim (Bool-cases (contains capabilities invocation.tool_name)) [
                | inr unknown ↦ inl (
                    ground (
                      arith,
                      runs-send_error w capability_discovery_required
                          "Capability discovery must succeed before invoking this tool."
                          (some e.message_id) s,
                    ))
                | inl known ↦
                    elim (Result-cases
                      (preflight m registry invocation.tool_name invocation.arguments)) [
                        | inr (error, refused) ↦ inl (ground (arith, runs-refuse_preflight error s))
                        | inl (p, good) ↦
                            rw (on_invocation, parsed, known, good)
                              (dispatch_prepared-runs principal_key invocation p capabilities s
                                known good)
                      ]
              ]
        ]
