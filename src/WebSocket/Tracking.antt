-- ===== src/WebSocket/Tracking.antt =====
-- The approval store and the pending calls of a connection of app.py, over one message.
use goffy_os.Prelude.{
  String, ◌≡◌, ◌⊎◌, refl, true, some, List, [], ◌∷◌, ◌++◌, arith, inl, inr, Bool-cases,
  Option-cases, nat_eq, nat_beq_iff, string_eq,
}
use goffy_os.Prelude.Result.{ok, raise, Result-cases}
use goffy_os.Prelude.Dict.{get, put, remove, has, get-put, get-remove}
use goffy_os.Protocol.{
  Uuid, MessageType, is_denied, PermissionLevel, ApprovalResponsePayload, ToolInvocationPayload,
  approval_response, capability_discovery_request, tool_invocation,
}
use goffy_os.Registry.{
  Models, ToolRegistry, PreparedToolInvocation, RegistryError, bad_arguments, preflight,
}
use goffy_os.Approval.Membership.{has-issue, has-consume, consume-gone}
use goffy_os.Approval.{Crypto, ApprovalArtifactStore, issue, consume, discard}
use goffy_os.Auth.Principal.{AuthenticatedPrincipal, tool_permissions_of, principal_key_of}
use goffy_os.WebSocket.{
  Envelope, Wire, Tick, Session, PendingConfirmInvocation, send_event, send_error, request_approval,
  dispatch_prepared, refuse_preflight, on_invocation, on_discovery, answer_pending,
  handle_approval_response, on_approval_response, execute_prepared, dispatch, handle_message,
  clear_discovered,
}
use goffy_os.WebSocket.Frame.{SameState, send_error-SameState, execute_prepared-runs}

-- An approval request of the store is one that this connection waits for, or was there before.
abbrev pub Tracks : ApprovalArtifactStore → Session → Type 0
Tracks before s =
    (id : Uuid)
    → has s.store.pending_approvals id ≡ true
    → (has s.pending id ≡ true) ⊎ (has before.pending_approvals id ≡ true)

pub Tracks-same :
    (before : ApprovalArtifactStore) (s s' : Session)
    → SameState s s'
    → Tracks before s
    → Tracks before s'
Tracks-same before s s' same t id h =
    ground (arith, same.pending, same.store, t id (rw (← same.store) h))

module _ (c : Crypto) (m : Models) (w : Wire) (registry : ToolRegistry)
    (principal : AuthenticatedPrincipal) (before : ApprovalArtifactStore) where
  module _ (tick : Tick) where
    request_approval-Tracks :
        (key : String) (e : Envelope) (invocation : ToolInvocationPayload)
        (p : PreparedToolInvocation) (s : Session)
        → Tracks before s
        → Tracks before (request_approval c m w registry principal tick key e invocation p s)
    unfolding request_approval send_error send_event discard
    request_approval-Tracks key e invocation p s t id h =
        elim (Option-cases principal.credential_id) [
          | inl missing ↦ ground (arith, t id)
          | inr (credential_id, given) ↦ elim (Option-cases principal.approval_public_key) [
            | inl missing ↦ ground (arith, t id)
            | inr (public_key, given_key) ↦
                let attempt =
                  issue c tick.prune_now tick.issued_at tick.approval_id key invocation s.store in
                elim (Result-cases attempt.1) [
                  | inr (error, refused) ↦ ground (
                    arith,
                    t id,
                    has-issue c tick.prune_now tick.issued_at tick.approval_id key invocation
                        s.store id,
                  )
                  | inl (r, issued) ↦
                      let waiting : PendingConfirmInvocation = record {
                        original_message_id = e.message_id;
                        invocation = invocation;
                        prepared = p;
                        principal_key = key;
                        credential_id = credential_id;
                        approval_public_key = public_key;
                      } in
                      ground (
                        arith,
                        t id,
                        has-issue c tick.prune_now tick.issued_at tick.approval_id key invocation
                            s.store id,
                        get-remove attempt.0.pending_approvals r.approval_id id,
                        nat_beq_iff r.approval_id id,
                        get-put s.pending r.approval_id id waiting,
                        get-remove (put s.pending r.approval_id waiting) r.approval_id id,
                      )
                ]
          ]
        ]

    answer_pending-Tracks :
        (key : String) (response : ApprovalResponsePayload) (pending : PendingConfirmInvocation)
        (s : Session)
        → Tracks before s
        → Tracks before (answer_pending c m w registry principal tick key response pending s)
    unfolding answer_pending
    answer_pending-Tracks key response pending s t =
        let attempt =
          consume c tick.consume_now key response pending.invocation (some pending.credential_id)
            (some pending.approval_public_key) s.store in
        let s1 : Session = record s { store = attempt.0 } in
        let s2 : Session = record s1 { pending = remove s.pending response.approval_id } in
        let t1 : Tracks before s1 = λ id h. t id (
          has-consume c tick.consume_now key response pending.invocation
            (some pending.credential_id) (some pending.approval_public_key) s.store id h) in
        let t2 : elim attempt.1 [ ok r ↦ true | raise e ↦ is_denied e.code ] ≡ true
            → Tracks before s2 =
          λ over id h. ground (
            arith,
            t1 id h,
            get-remove s.pending response.approval_id id,
            consume-gone c tick.consume_now key response pending.invocation
                (some pending.credential_id) (some pending.approval_public_key) s.store id over h,
          ) in
        elim (Result-cases attempt.1) [
          | inl (r, consumed) ↦
              let id = pending.original_message_id in
              rw (answer_pending, consumed)
                (Tracks-same before s2
                  (execute_prepared c m w registry principal pending.invocation pending.prepared id
                    s2)
                  (execute_prepared-runs c m w registry principal pending.invocation
                    pending.prepared id s2).0
                  (t2 (rw consumed refl)))
          | inr (e, refused) ↦
              let id = some pending.original_message_id in
              elim (Bool-cases (is_denied e.code)) [
                | inl denied ↦
                    rw (answer_pending, refused, denied)
                      (Tracks-same before s2 (send_error w e.code e.message id s2)
                        (send_error-SameState w e.code e.message id s2)
                        (t2 (rw (refused, denied) refl)))
                | inr other ↦
                    rw (answer_pending, refused, other)
                      (Tracks-same before s1 (send_error w e.code e.message id s1)
                        (send_error-SameState w e.code e.message id s1) t1)
              ]
        ]

    dispatch_prepared-Tracks :
        (key : String) (permissions : List PermissionLevel) (e : Envelope)
        (invocation : ToolInvocationPayload) (p : PreparedToolInvocation) (s : Session)
        → Tracks before s
        → Tracks before
            (dispatch_prepared c m w registry principal tick key permissions e invocation p s)
    unfolding dispatch_prepared send_error send_event
    dispatch_prepared-Tracks key permissions e invocation p s t id h =
        let same = (execute_prepared-runs c m w registry principal invocation p e.message_id s).0 in
        ground (
          arith,
          t id,
          request_approval-Tracks key e invocation p s t id,
          Tracks-same before s
              (execute_prepared c m w registry principal invocation p e.message_id s) same t id,
        )

    refuse_preflight-Tracks :
        (error : RegistryError) (e : Envelope) (s : Session)
        → Tracks before s
        → Tracks before (refuse_preflight c m w registry principal error e s)
    unfolding refuse_preflight send_error send_event
    refuse_preflight-Tracks bad_arguments e s t id h = ground (arith, t id)
    refuse_preflight-Tracks _ e s t id h = ground (arith, t id)

    on_invocation-Tracks :
        (key : String) (permissions : List PermissionLevel) (e : Envelope)
        (capabilities : List String) (s : Session)
        → Tracks before s
        → Tracks before
            (on_invocation c m w registry principal tick key permissions e capabilities s)
    unfolding on_invocation send_error send_event
    on_invocation-Tracks key permissions e capabilities s t id h =
        elim (Option-cases (w.parse_invocation e.payload)) [
          | inl bad ↦ ground (arith, t id)
          | inr (invocation, parsed) ↦
              elim (Result-cases (preflight m registry invocation.tool_name invocation.arguments)) [
                | inl (p, good) ↦
                    ground
                      (arith, t id, dispatch_prepared-Tracks key permissions e invocation p s t id)
                | inr (error, refused) ↦
                    ground (arith, t id, refuse_preflight-Tracks error e s t id)
              ]
        ]

    on_approval_response-Tracks :
        (key : String) (e : Envelope) (s : Session)
        → Tracks before s
        → Tracks before (on_approval_response c m w registry principal tick key e s)
    unfolding on_approval_response handle_approval_response send_error send_event
    on_approval_response-Tracks key e s t id h =
        elim (Option-cases (w.parse_approval_response e.payload)) [
          | inl bad ↦ ground (arith, t id)
          | inr (response, parsed) ↦ elim (Option-cases (get s.pending response.approval_id)) [
            | inl missing ↦ ground (arith, t id)
            | inr (pending, found) ↦
                ground (arith, t id, answer_pending-Tracks key response pending s t id)
          ]
        ]

    on_discovery-Tracks :
        (permissions : List PermissionLevel) (e : Envelope) (s : Session)
        → Tracks before s
        → Tracks before (on_discovery c m w registry principal permissions e s)
    unfolding on_discovery send_error send_event
    on_discovery-Tracks permissions e s t id h = ground (arith, t id)

    dispatch-Tracks :
        (type : MessageType) (e : Envelope) (s : Session)
        → Tracks before s
        → Tracks before (dispatch c m w registry principal type tick e s)
    unfolding dispatch
    dispatch-Tracks approval_response e s t =
        on_approval_response-Tracks (principal_key_of c.uuid_text principal) e (clear_discovered s)
          t
    dispatch-Tracks capability_discovery_request e s t =
        on_discovery-Tracks (tool_permissions_of principal) e (clear_discovered s) t
    dispatch-Tracks tool_invocation e s t =
        on_invocation-Tracks (principal_key_of c.uuid_text principal)
          (tool_permissions_of principal) e s.discovered_tools (clear_discovered s) t
    dispatch-Tracks _ e s t =
        Tracks-same before (clear_discovered s) _
          (send_error-SameState w _ _ _ (clear_discovered s)) t

    pub handle_message-Tracks :
        (raw : String) (s : Session)
        → Tracks before s
        → Tracks before (handle_message c m w registry principal tick raw s)
    unfolding handle_message send_error send_event
    handle_message-Tracks raw s t id h = elim (Option-cases (w.parse_envelope raw)) [
      | inl bad ↦ ground (arith, t id)
      | inr (e, parsed) ↦
          let s' : Session = record s {
            seen_message_ids = s.seen_message_ids ++ e.message_id ∷ [];
          } in
          ground (arith, t id, dispatch-Tracks e.message_type e s' t id)
    ]
