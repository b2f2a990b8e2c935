-- ===== src/WebSocket/Answers.antt =====
-- Which tool handlers an answer to an approval request can start at the endpoint of app.py.
use goffy_os.Prelude.{
  String, ◌≡◌, refl, inl, inr, true, some, arith, Bool-cases, Option-cases, string_eq, ◌==◌, nat_eq,
}
use goffy_os.Prelude.Result.{Result-cases}
use goffy_os.Prelude.Dict.{get, remove}
use goffy_os.Protocol.{
  Uuid, approval_invalid, approval_unavailable, invalid_approval_response, permission_eq,
  ApprovalResponsePayload,
}
use goffy_os.Registry.{Models, ToolRegistry}
use goffy_os.Approval.{Crypto, consume}
use goffy_os.Approval.Pending.{consume_iff}
use goffy_os.Auth.Principal.{AuthenticatedPrincipal, can_approve, principal_key_of}
use goffy_os.WebSocket.{
  Envelope, Wire, Tick, Session, PendingConfirmInvocation, answer_pending, handle_approval_response,
  on_approval_response,
}
use goffy_os.WebSocket.Runs.{ApprovedRun, RunsAtMostOne}
use goffy_os.WebSocket.Frame.{runs-send_error, execute_prepared-runs}

module _ (c : Crypto) (m : Models) (w : Wire) (registry : ToolRegistry)
    (principal : AuthenticatedPrincipal) where
  module _ (tick : Tick) where
    abbrev pub own_key : String
    own_key = principal_key_of c.uuid_text principal

    answer_pending-runs :
        (response : ApprovalResponsePayload) (pending : PendingConfirmInvocation) (s : Session)
        → can_approve principal ≡ true
        → get s.pending response.approval_id ≡ some pending
        → RunsAtMostOne c m w registry principal
            (ApprovedRun c m w registry principal tick s)
            s
            (answer_pending c m w registry principal tick own_key response pending s)
    unfolding answer_pending
    answer_pending-runs response pending s able is_pending =
        let attempt =
          consume c tick.consume_now own_key response pending.invocation
            (some pending.credential_id) (some pending.approval_public_key) s.store in
        let s1 : Session = record s { store = attempt.0 } in
        let s2 : Session = record s1 { pending = remove s1.pending response.approval_id } in
        elim (Result-cases attempt.1) [
          | inr (error, refused) ↦ inl (
              ground (
                arith,
                runs-send_error w error.code error.message (some pending.original_message_id) s1,
                runs-send_error w error.code error.message (some pending.original_message_id) s2,
              ))
          | inl (r, consumed) ↦
              let (issued, approved, authorized, _) =
                (consume_iff c own_key (some pending.credential_id)
                    (some pending.approval_public_key) tick.consume_now response pending.invocation
                    s.store attempt.0 r).0
                  (ground arith) in
              elim (execute_prepared-runs c m w registry principal pending.invocation
                pending.prepared pending.original_message_id s2).1 [
                  | inl none_started ↦ inl (ground arith)
                  | inr started ↦ inr (
                    pending.prepared,
                    ground arith,
                    record {
                      able = able;
                      response = response;
                      pending = pending;
                      is_pending = is_pending;
                      is_prepared = refl;
                      request = r;
                      issued = issued;
                      approved = approved;
                      authorized = authorized;
                    },
                  )
                ]
        ]

    handle_approval_response-runs :
        (response : ApprovalResponsePayload) (fallback : Uuid) (s : Session)
        → can_approve principal ≡ true
        → RunsAtMostOne c m w registry principal
            (ApprovedRun c m w registry principal tick s)
            s
            (handle_approval_response c m w registry principal tick own_key response fallback s)
    unfolding handle_approval_response
    handle_approval_response-runs response fallback s able =
        elim (Option-cases (get s.pending response.approval_id)) [
          | inl missing ↦ inl (
              ground (
                arith,
                runs-send_error w approval_invalid
                    "Approval request is unknown or already consumed." (some fallback) s,
              ))
          | inr (pending, is_pending) ↦ elim (Bool-cases (pending.principal_key == own_key)) [
            | inr other ↦ inl (
                ground (
                  arith,
                  runs-send_error w approval_invalid
                      "Approval request does not match this principal."
                      (some pending.original_message_id) s,
                ))
            | inl own ↦
                rw (handle_approval_response, is_pending, own)
                  (answer_pending-runs response pending s able is_pending)
          ]
        ]

    pub on_approval_response-runs :
        (e : Envelope) (s : Session)
        → RunsAtMostOne c m w registry principal
            (ApprovedRun c m w registry principal tick s)
            s
            (on_approval_response c m w registry principal tick own_key e s)
    unfolding on_approval_response
    on_approval_response-runs e s = elim (Bool-cases (can_approve principal)) [
      | inr unable ↦ inl (
          ground (
            arith,
            runs-send_error w approval_unavailable
                "CONFIRM WebSocket approvals require device-bound proof and are not enabled."
                (some e.message_id) s,
          ))
      | inl able ↦ elim (Option-cases (w.parse_approval_response e.payload)) [
        | inl bad ↦ inl (
            ground (
              arith,
              runs-send_error w invalid_approval_response "Approval response payload is invalid."
                  (some e.message_id) s,
            ))
        | inr (response, parsed) ↦
            rw (on_approval_response, able, parsed)
              (handle_approval_response-runs response e.message_id s able)
      ]
    ]
