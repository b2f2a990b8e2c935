-- ===== src/Http/Handshake.antt =====
-- The handshake of the endpoint /ws/v1 in hub/src/goffy_hub/app.py: from the request to the message
-- loop. Other tasks may revoke credentials while it waits; each gap lists what they do, in order. A
-- revocation is two steps, since `revoke_paired_credential` of pairing_api.py awaits between the
-- change of the database and the callback that ends live access. That `unregister` waits for its lock
-- is left out.
pub mod Tracking
use goffy_os.Prelude.{
  ℕ, String, Bool, true, false, not, Option, none, some, List, [], ◌∷◌, if◌then◌else◌,
}
use goffy_os.Prelude.Result.{Result, ok, raise}
use goffy_os.Protocol.{Uuid}
use goffy_os.Approval.{Crypto}
use goffy_os.Credentials.{Platform, revoke}
use goffy_os.Audit.{AuditEvent}
use goffy_os.Audit.Window.{AuditEntry, LogError, record_event}
use goffy_os.Auth.Principal.{AuthenticatedPrincipal, has_scope, kind_value, safe_tool_scope}
use goffy_os.Auth.Authenticator.{is_principal_active}
use goffy_os.Connections.{Socket, register_socket, unregister_socket}
use goffy_os.Http.{
  Hub, ApiRequest, Net, ApiFailure, AuditTick, authenticate_request, authenticator_of,
  revoke_live_access,
}

-- How the handshake ends: the message loop begins, the socket is closed, or an exception leaves it.
pub data Admission : Type 0 where
  connected : AuthenticatedPrincipal → Admission
  refused_with : ℕ → String → Admission
  crashed : Admission

-- A step of a revocation by another task: the change of the database, or the end of live access
pub data RevocationStep : Type 0 where
  revokes cuts : Uuid → RevocationStep

-- What happens while the handshake accepts the socket, waits to register it, reads whether the
-- credential is active, and waits to go on after that
pub record Gaps : Type 0 where
  pub accepting : List RevocationStep
  pub registering : List RevocationStep
  pub checking : List RevocationStep
  pub resuming : List RevocationStep

pub record Ticks : Type 0 where
  pub first : AuditTick
  pub last : AuditTick
  pub known_reachable : Bool
  pub check_reachable : Bool
  pub revoked_at : ℕ

-- What the handshake records
unfoldable pub connect_entry : String → Option AuthenticatedPrincipal → Option String → AuditEntry
connect_entry outcome principal detail_code = record {
  source = "websocket";
  action = "connect";
  outcome = outcome;
  principal_kind = elim principal [ none ↦ "none" | some x ↦ kind_value x.kind ];
  credential_id = elim principal [ none ↦ none | some x ↦ x.credential_id ];
  detail_code = detail_code;
}

module _ (c : Crypto) (p : Platform) (net : Net) (t : Ticks) where
  -- What a step changes, but for the audit log
  unfoldable pub happen : RevocationStep → Hub → Hub
  happen (revokes id) h = record h { table = (revoke p true t.revoked_at id h.table).0 }
  happen (cuts id) h = (revoke_live_access c p net id h).0

  unfoldable pub meanwhile : List RevocationStep → Hub → Hub
  meanwhile [] h = h
  meanwhile (e ∷ es) h = meanwhile es (happen e h)

  module _ (gaps : Gaps) (w : Socket) where
    go_on : (Hub → Hub × Admission) → Hub → Result LogError AuditEvent → Hub × Admission
    go_on k h (ok e) = k h
    go_on k h (raise e) = (h, crashed)

    -- `operator_audit_log.record` and what follows it
    unfoldable pub recorded :
        AuditTick → AuditEntry → (Hub → Hub × Admission) → Hub → Hub × Admission
    unfolding go_on
    recorded (now, reachable) x k h =
        let (log, outcome) =
          record_event p net.strip_lower net.decimal now reachable x h.audit_log in
        go_on k (record h { audit_log = log }) outcome

    unfoldable pub close_with : ℕ → String → Hub → Hub × Admission
    close_with code reason h = (h, refused_with code reason)

    -- The end of the branch for a credential that was revoked meanwhile
    unfoldable pub unregister_and_close : Uuid → Hub → Hub × Admission
    unregister_and_close id h = (
      record h { connections = unregister_socket id w h.connections },
      refused_with 4403 "credential revoked",
    )

    unfoldable pub check_active : AuthenticatedPrincipal → Uuid → Hub → Hub × Admission
    check_active principal id h =
        let h1 = meanwhile gaps.checking h in
        let h2 = meanwhile gaps.resuming h1 in
        if is_principal_active c p (authenticator_of t.check_reachable h1) principal
        then (h2, connected principal)
        else recorded t.last (connect_entry "rejected" (some principal) (some "revoked"))
            (unregister_and_close id) h2

    unfoldable pub join_as : AuthenticatedPrincipal → Option Uuid → Hub → Hub × Admission
    join_as principal none h = (h, connected principal)
    join_as principal (some id) h =
        let h1 = meanwhile gaps.registering h in
        check_active principal id (record h1 { connections = register_socket id w h1.connections })

    unfoldable pub join : AuthenticatedPrincipal → Hub → Hub × Admission
    join principal h = join_as principal principal.credential_id h

    unfoldable pub greet : Option AuthenticatedPrincipal → Hub → Hub × Admission
    greet none h =
        recorded t.first (connect_entry "rejected" none (some "auth"))
          (close_with 4401 "authentication required") h
    greet (some principal) h =
        if not (has_scope principal safe_tool_scope)
        then recorded t.first (connect_entry "rejected" (some principal) (some "scope"))
            (close_with 4403 "insufficient scope") h
        else recorded t.first (connect_entry "succeeded" (some principal) none) (join principal)
            (meanwhile gaps.accepting h)

    greeted : Hub → Result ApiFailure (Option AuthenticatedPrincipal) → Hub × Admission
    greeted h (ok found) = greet found h
    greeted h (raise e) = (h, crashed)

    unfoldable pub handshake : ApiRequest → Hub → Hub × Admission
    unfolding greeted
    handshake r h = greeted h (authenticate_request c p net t.known_reachable r h).1
