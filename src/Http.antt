-- ===== src/Http.antt =====
-- What the HTTP routes of hub/src/goffy_hub/pairing_api.py and operator_audit_api.py share: the state
-- of a Hub in paired mode, requests, errors, and who may call. A route runs to its end before the
-- next one starts. Clock readings, drawn tokens and IDs, and whether a database can be reached come
-- as arguments.
pub mod PairingRequests
pub mod PairingRoutes
pub mod Changed
pub mod Warrants
pub mod Mutations
pub mod Revoking
pub mod AuditRoutes
pub mod Handshake
use Prim.Native.String as Text
use goffy_os.Prelude.{
  ℕ, String, Bool, true, false, not, Option, none, some, List, [], ◌∷◌, ◌++◌, string_eq, ◌==◌,
  if◌then◌else◌,
}
use goffy_os.Prelude.Result.{Result, ok, raise}
use goffy_os.Protocol.{Uuid}
use goffy_os.Approval.{Bytes, Crypto}
use goffy_os.Credentials.{Platform, Table}
use goffy_os.Pairing.{Pending}
use goffy_os.Audit.{AuditEvent}
use goffy_os.Audit.Window.{
  AuditLog, AuditEntry, LogError, value_error, store_failure, record_event, check_log,
}
use goffy_os.Auth.Principal.{
  AuthenticatedPrincipal, bootstrap, paired, kind_value, has_scope, pairing_admin_scope,
}
use goffy_os.Auth.Authenticator.{Authenticator, AuthError, authenticate_header}
use goffy_os.Connections.{Connections, Socket, revoke_sockets}
use goffy_os.Mcp.Manager.{Manager, terminate_client}
use goffy_os.Mcp.Slots.{Slots, remove_sessions}

-- `closed` collects the sockets that revocations close.
pub record Hub : Type 0 where
  pub auth_token : Option String
  pub table : Table
  pub pending : Pending
  pub audit_log : AuditLog
  pub connections : Connections
  pub closed : List Socket
  pub manager : Manager
  pub slots : Slots

pub record ApiRequest : Type 0 where
  pub client_host : Option String
  pub authorization : Option String
  pub hostname : Option String
  pub content_type : Option String
  pub chunks : List Bytes

-- Python's `ip_address(…).is_loopback`, where `none` is a `ValueError`, `str.lower`, the media type
-- of a header, and the code that the MCP and audit modules take as parameters.
pub record Net : Type 0 where
  pub is_loopback : String → Option Bool
  pub lower : String → String
  pub strip_lower : String → String
  pub media_type : String → String
  pub decimal : ℕ → String

-- `HTTPException` with its status, code and message, or an exception that no route expects.
pub data ApiFailure : Type 0 where
  http_error : ℕ → String → String → ApiFailure
  unhandled : ApiFailure

-- A time, and whether the database of the audit log can be reached then.
abbrev pub AuditTick : Type 0
AuditTick = ℕ × Bool

-- A route reads and writes the Hub, and returns or raises.
abbrev pub Handler {ℓ} : Type ℓ → Type ℓ
Handler A = Hub → Hub × Result ApiFailure A

abbrev pub continue {ℓ κ} :
    {A : Type ℓ} {B : Type κ}
    → (A → Handler B)
    → Hub × Result ApiFailure A
    → Hub × Result ApiFailure B
continue f (h, ok a) = f a h
continue f (h, raise e) = (h, raise e)

infixl 5 ◌>>=◌ ◌>>◌
abbrev pub ◌>>=◌ {ℓ κ} : {A : Type ℓ} {B : Type κ} → Handler A → (A → Handler B) → Handler B
◌>>=◌ m f h = continue f (m h)

abbrev pub ◌>>◌ {ℓ} : {B : Type ℓ} → Handler (Unit {0}) → Handler B → Handler B
◌>>◌ m k = m >>= λ _. k

abbrev pub answer {ℓ} : {A : Type ℓ} → A → Handler A
answer a h = (h, ok a)

abbrev pub fail {ℓ} : {A : Type ℓ} → ℕ → String → String → Handler A
fail status code message h = (h, raise (http_error status code message))

abbrev pub refuse_unless : Bool → ℕ → String → String → Handler (Unit {0})
refuse_unless true status code message h = (h, ok tt)
refuse_unless false status code message h = (h, raise (http_error status code message))

-- The tests of `_require_loopback`; an address that does not parse is not a loopback.
unfoldable pub is_loopback_client : Net → ApiRequest → Bool
is_loopback_client net r = elim r.client_host [
  | none ↦ false
  | some host ↦ elim (net.is_loopback host) [ none ↦ false | some b ↦ b ]
]

unfoldable pub require_loopback : Net → ApiRequest → Handler (Unit {0})
require_loopback net r =
    refuse_unless (is_loopback_client net r) 403 "loopback_required"
      "Pairing is available on loopback only."

-- The authenticator on the tables of the Hub
unfoldable pub authenticator_of : Bool → Hub → Authenticator
authenticator_of reachable h = record {
  auth_token = h.auth_token;
  store = some h.table;
  reachable = reachable;
}

module _ (c : Crypto) (p : Platform) (net : Net) where
  from_auth {ℓ} : {A : Type ℓ} → Result AuthError A → Result ApiFailure A
  from_auth (ok a) = ok a
  from_auth (raise e) = raise unhandled

  -- `authenticator.authenticate_header(request.headers.get("authorization"))`
  unfoldable pub authenticate_request : Bool → ApiRequest → Handler (Option AuthenticatedPrincipal)
  unfolding from_auth
  authenticate_request reachable r h =
      (h, from_auth (authenticate_header c p (authenticator_of reachable h) r.authorization))

  unfoldable pub require_admin : Option AuthenticatedPrincipal → Handler AuthenticatedPrincipal
  require_admin none = fail 401 "authentication_required" "Bootstrap authentication required."
  require_admin (some principal) =
      if has_scope principal pairing_admin_scope
      then answer principal
      else fail 403 "insufficient_scope" "Bootstrap administrator scope required."

  unfoldable pub require_loopback_admin : Bool → ApiRequest → Handler AuthenticatedPrincipal
  unfolding require_admin
  require_loopback_admin reachable r = do
    require_loopback net r
    found ← authenticate_request reachable r
    require_admin found

  unfoldable pub require_paired :
      Option AuthenticatedPrincipal → Handler (AuthenticatedPrincipal × Uuid)
  require_paired none = fail 401 "authentication_required" "Paired authentication required."
  require_paired (some principal) = elim principal.kind [
    | bootstrap ↦ fail 403 "paired_principal_required" "Paired authentication required."
    | paired ↦ elim principal.credential_id [
      | none ↦ fail 403 "paired_principal_required" "Paired authentication required."
      | some id ↦ answer (principal, id)
    ]
  ]

  -- `_require_paired_principal`, with the ID that its callers read
  unfoldable pub require_paired_principal :
      Bool → ApiRequest → Handler (AuthenticatedPrincipal × Uuid)
  unfolding require_paired
  require_paired_principal reachable r = do
    found ← authenticate_request reachable r
    require_paired found

  unavailable_audit : ApiFailure
  unavailable_audit =
      http_error 503 "operator_audit_unavailable"
        "Operator audit storage is temporarily unavailable."

  audit_outcome : Bool → Result LogError AuditEvent → Result ApiFailure (Unit {0})
  audit_outcome fail_closed (ok e) = ok tt
  audit_outcome fail_closed (raise (value_error message)) = raise unhandled
  audit_outcome fail_closed (raise (store_failure problem)) =
      if fail_closed then raise unavailable_audit else ok tt

  kind_of : Option AuthenticatedPrincipal → String
  kind_of none = "none"
  kind_of (some principal) = kind_value principal.kind

  -- `credential_id or (principal.credential_id if principal else None)`
  credential_of : Option AuthenticatedPrincipal → Option Uuid → Option Uuid
  credential_of principal (some id) = some id
  credential_of none none = none
  credential_of (some principal) none = principal.credential_id

  -- What `_audit` records
  unfoldable pub entry_of :
      String → Option AuthenticatedPrincipal → Option Uuid → Option String → AuditEntry
  unfolding kind_of credential_of
  entry_of action principal credential_id detail_code = record {
    source = "pairing";
    action = action;
    outcome = "succeeded";
    principal_kind = kind_of principal;
    credential_id = credential_of principal credential_id;
    detail_code = detail_code;
  }

  -- `_audit`
  unfoldable pub audit : AuditTick → Bool → AuditEntry → Handler (Unit {0})
  unfolding audit_outcome unavailable_audit
  audit (now, reachable) fail_closed x h =
      let (log, outcome) = record_event p net.strip_lower net.decimal now reachable x h.audit_log in
      (record h { audit_log = log }, audit_outcome fail_closed outcome)

  check_outcome : Result LogError (Unit {0}) → Result ApiFailure (Unit {0})
  check_outcome (ok _) = ok tt
  check_outcome (raise e) = raise unavailable_audit

  -- `_require_audit_ready_for_credential_mutation`
  unfoldable pub require_audit_ready : Bool → Handler (Unit {0})
  unfolding check_outcome unavailable_audit
  require_audit_ready reachable h =
      let (log, outcome) = check_log p net.strip_lower net.decimal reachable h.audit_log in
      (record h { audit_log = log }, check_outcome outcome)

  -- `paired_client_id` of auth.py
  unfoldable pub paired_client_id : Uuid → String
  paired_client_id id = Text.◌++◌ "goffy-paired:" (p.uuid_text id)

  -- `revoke_live_access` of app.py: the sockets of a credential are closed, and its MCP sessions
  -- end, in the session manager and, by its callback, in the bounds on sessions.
  unfoldable pub revoke_live_access : Uuid → Handler (Unit {0})
  revoke_live_access id h =
      let (connections, sockets) = revoke_sockets id h.connections in
      let (manager, ids) = terminate_client (paired_client_id id) h.manager in
      (
        record h {
          connections = connections;
          closed = h.closed ++ sockets;
          manager = manager;
          slots = remove_sessions ids h.slots;
        },
        ok tt,
      )
