-- ===== src/WebSocket/Waiting.antt =====
-- The calls that wait for an approval on a connection of app.py: each is the connection's own.
use mathlib.Core.Path.{subst}
use goffy_os.Prelude.{
  String, ◌≡◌, refl, ap, sym, ◌∙◌, ◌==◌, some, List, [], ◌∷◌, ◌++◌, arith, inl, inr, Bool-cases,
  Option-cases, nat_eq, string_eq,
}
use goffy_os.Prelude.Result.{ok, Result-cases}
use goffy_os.Prelude.Dict.{get, put, remove, get-put, get-remove}
use goffy_os.Protocol.{
  Uuid, MessageType, is_denied, PermissionLevel, ApprovalResponsePayload, ToolInvocationPayload,
  approval_response, capability_discovery_request, tool_invocation,
}
use goffy_os.Registry.{
  Models, ToolRegistry, PreparedToolInvocation, RegistryError, bad_arguments, preflight,
}
use goffy_os.Approval.{Crypto, issue, consume}
use goffy_os.Auth.Principal.{AuthenticatedPrincipal, tool_permissions_of, principal_key_of}
use goffy_os.WebSocket.{
  Envelope, Wire, Tick, Session, PendingConfirmInvocation, send_event, send_error, request_approval,
  dispatch_prepared, refuse_preflight, on_invocation, on_discovery, answer_pending,
  handle_approval_response, on_approval_response, execute_prepared, dispatch, handle_message,
  clear_discovered,
}
use goffy_os.WebSocket.Frame.{SameState, send_error-SameState, execute_prepared-runs}

module _ (m : Models) (registry : ToolRegistry) (principal : AuthenticatedPrincipal) where
  -- What waits is prepared from the call that was asked for, under the credential and with the key
  -- of the principal.
  abbrev pub IsOwnCall : PendingConfirmInvocation → Type 0
  IsOwnCall x =
      (preflight m registry x.invocation.tool_name x.invocation.arguments ≡ ok x.prepared)
      × (principal.credential_id ≡ some x.credential_id)
      × (principal.approval_public_key ≡ some x.approval_public_key)

  abbrev pub KeepsOwn : Session → Type 0
  KeepsOwn s = (id : Uuid) (x : PendingConfirmInvocation) → get s.pending id ≡ some x → IsOwnCall x

  KeepsOwn-same : (s s' : Session) → SameState s s' → KeepsOwn s → KeepsOwn s'
  KeepsOwn-same s s' same k id x h = k id x (ap (λ d. get d id) (sym same.pending) ∙ h)

  KeepsOwn-remove :
      (s s' : Session) (id : Uuid) → s'.pending ≡ remove s.pending id → KeepsOwn s → KeepsOwn s'
  KeepsOwn-remove s s' id gone k j x h =
      k j x (ground (arith, ap (λ d. get d j) gone, get-remove s.pending id j))

  KeepsOwn-put :
      (s s' : Session) (id : Uuid) (new : PendingConfirmInvocation)
      → s'.pending ≡ put s.pending id new
      → IsOwnCall new
      → KeepsOwn s
      → KeepsOwn s'
  KeepsOwn-put s s' id new added own k j x h = elim (Bool-cases (id == j)) [
    | inl same ↦
        let is_new : new ≡ x =
          ground (arith, ap (λ d. get d j) added, get-put s.pending id j new) in
        subst IsOwnCall is_new own
    | inr other ↦ k j x (ground (arith, ap (λ d. get d j) added, get-put s.pending id j new))
  ]

module _ (c : Crypto) (m : Models) (w : Wire) (registry : ToolRegistry)
    (principal : AuthenticatedPrincipal) where
  abbrev Own : Session → Type 0
  Own s = KeepsOwn m registry principal s

  module _ (tick : Tick) where
    request_approval-pending :
        (key : String) (e : Envelope) (invocation : ToolInvocationPayload)
        (p : PreparedToolInvocation) (s : Session) (id : Uuid) (x : PendingConfirmInvocation)
        → preflight m registry invocation.tool_name invocation.arguments ≡ ok p
        → Own s
        → get (request_approval c m w registry principal tick key e invocation p s).pending id
          ≡ some x
        → IsOwnCall m registry principal x
    unfolding request_approval send_error send_event
    request_approval-pending key e invocation p s id x good k h =
        elim (Option-cases principal.credential_id) [
          | inl missing ↦ k id x (ground arith)
          | inr (credential_id, given) ↦ elim (Option-cases principal.approval_public_key) [
            | inl missing ↦ k id x (ground arith)
            | inr (public_key, given_key) ↦
                let attempt =
                  issue c tick.prune_now tick.issued_at tick.approval_id key invocation s.store in
                elim (Result-cases attempt.1) [
                  | inr (error, refused) ↦ k id x (ground arith)
                  | inl (r, issued) ↦
                      let waiting : PendingConfirmInvocation = record {
                        original_message_id = e.message_id;
                        invocation = invocation;
                        prepared = p;
                        principal_key = key;
                        credential_id = credential_id;
                        approval_public_key = public_key;
                      } in
                      let s1 : Session = record s {
                        pending = put s.pending r.approval_id waiting;
                      } in
                      let k1 : Own s1 =
                        KeepsOwn-put m registry principal s s1 r.approval_id waiting refl
                          (good, given, given_key) k in
                      k1 id x (
                        ground (
                          arith,
                          get-remove (put s.pending r.approval_id waiting) r.approval_id id,
                        ))
                ]
          ]
        ]

    answer_pending-Own :
        (key : String) (response : ApprovalResponsePayload) (pending : PendingConfirmInvocation)
        (s : Session)
        → Own s
        → Own (answer_pending c m w registry principal tick key response pending s)
    unfolding answer_pending
    answer_pending-Own key response pending s k =
        let attempt =
          consume c tick.consume_now key response pending.invocation (some pending.credential_id)
            (some pending.approval_public_key) s.store in
        let s1 : Session = record s { store = attempt.0 } in
        let s2 : Session = record s1 { pending = remove s.pending response.approval_id } in
        let k2 : Own s2 = KeepsOwn-remove m registry principal s s2 response.approval_id refl k in
        elim (Result-cases attempt.1) [
          | inl (r, consumed) ↦
              let id = pending.original_message_id in
              rw (answer_pending, consumed)
                (KeepsOwn-same m registry principal s2
                  (execute_prepared c m w registry principal pending.invocation pending.prepared id
                    s2)
                  (execute_prepared-runs c m w registry principal pending.invocation
                    pending.prepared id s2).0
                  k2)
          | inr (e, refused) ↦
              let id = some pending.original_message_id in
              elim (Bool-cases (is_denied e.code)) [
                | inl denied ↦
                    rw (answer_pending, refused, denied)
                      (KeepsOwn-same m registry principal s2 (send_error w e.code e.message id s2)
                        (send_error-SameState w e.code e.message id s2) k2)
                | inr other ↦
                    rw (answer_pending, refused, other)
                      (KeepsOwn-same m registry principal s1 (send_error w e.code e.message id s1)
                        (send_error-SameState w e.code e.message id s1) k)
              ]
        ]

    dispatch_prepared-Own :
        (key : String) (permissions : List PermissionLevel) (e : Envelope)
        (invocation : ToolInvocationPayload) (p : PreparedToolInvocation) (s : Session) (id : Uuid)
        (x : PendingConfirmInvocation)
        → preflight m registry invocation.tool_name invocation.arguments ≡ ok p
        → Own s
        → get
            (dispatch_prepared c m w registry principal tick key permissions e invocation p
              s).pending
            id
          ≡ some x
        → IsOwnCall m registry principal x
    unfolding dispatch_prepared send_error send_event
    dispatch_prepared-Own key permissions e invocation p s id x good k h =
        let same = (execute_prepared-runs c m w registry principal invocation p e.message_id s).0 in
        ground (
          arith,
          k id x,
          request_approval-pending key e invocation p s id x good k,
          KeepsOwn-same m registry principal s
              (execute_prepared c m w registry principal invocation p e.message_id s) same k id x,
        )

    refuse_preflight-Own :
        (error : RegistryError) (e : Envelope) (s : Session)
        → Own s
        → Own (refuse_preflight c m w registry principal error e s)
    unfolding refuse_preflight send_error send_event
    refuse_preflight-Own bad_arguments e s k id x h = k id x (ground arith)
    refuse_preflight-Own _ e s k id x h = k id x (ground arith)

    on_invocation-Own :
        (key : String) (permissions : List PermissionLevel) (e : Envelope)
        (capabilities : List String) (s : Session)
        → Own s
        → Own (on_invocation c m w registry principal tick key permissions e capabilities s)
    unfolding on_invocation send_error send_event
    on_invocation-Own key permissions e capabilities s k id x h =
        elim (Option-cases (w.parse_invocation e.payload)) [
          | inl bad ↦ ground (arith, k id x)
          | inr (invocation, parsed) ↦
              elim (Result-cases (preflight m registry invocation.tool_name invocation.arguments)) [
                | inl (p, good) ↦ ground (
                  arith,
                  k id x,
                  dispatch_prepared-Own key permissions e invocation p s id x good k,
                )
                | inr (error, refused) ↦
                    ground (arith, k id x, refuse_preflight-Own error e s k id x)
              ]
        ]

    on_approval_response-Own :
        (key : String) (e : Envelope) (s : Session)
        → Own s
        → Own (on_approval_response c m w registry principal tick key e s)
    unfolding on_approval_response handle_approval_response send_error send_event
    on_approval_response-Own key e s k id x h =
        elim (Option-cases (w.parse_approval_response e.payload)) [
          | inl bad ↦ ground (arith, k id x)
          | inr (response, parsed) ↦ elim (Option-cases (get s.pending response.approval_id)) [
            | inl missing ↦ ground (arith, k id x)
            | inr (pending, found) ↦
                ground (arith, k id x, answer_pending-Own key response pending s k id x)
          ]
        ]

    on_discovery-Own :
        (permissions : List PermissionLevel) (e : Envelope) (s : Session)
        → Own s
        → Own (on_discovery c m w registry principal permissions e s)
    unfolding on_discovery send_error send_event
    on_discovery-Own permissions e s k id x h = ground (arith, k id x)

    dispatch-Own :
        (type : MessageType) (e : Envelope) (s : Session)
        → Own s
        → Own (dispatch c m w registry principal type tick e s)
    unfolding dispatch
    dispatch-Own approval_response e s k =
        on_approval_response-Own (principal_key_of c.uuid_text principal) e (clear_discovered s) k
    dispatch-Own capability_discovery_request e s k =
        on_discovery-Own (tool_permissions_of principal) e (clear_discovered s) k
    dispatch-Own tool_invocation e s k =
        on_invocation-Own (principal_key_of c.uuid_text principal) (tool_permissions_of principal) e
          s.discovered_tools (clear_discovered s) k
    dispatch-Own _ e s k =
        KeepsOwn-same m registry principal (clear_discovered s) _
          (send_error-SameState w _ _ _ (clear_discovered s)) k

    -- A message keeps the calls that wait the connection's own.
    pub handle_message-KeepsOwn :
        (raw : String) (s : Session)
        → KeepsOwn m registry principal s
        → KeepsOwn m registry principal (handle_message c m w registry principal tick raw s)
    unfolding handle_message send_error send_event
    handle_message-KeepsOwn raw s k id x h = elim (Option-cases (w.parse_envelope raw)) [
      | inl bad ↦ ground (arith, k id x)
      | inr (e, parsed) ↦
          let s' : Session = record s {
            seen_message_ids = s.seen_message_ids ++ e.message_id ∷ [];
          } in
          ground (arith, k id x, dispatch-Own e.message_type e s' k id x)
    ]
