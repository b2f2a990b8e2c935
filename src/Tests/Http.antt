-- ===== src/Tests/Http.antt =====
-- A Hub with one phone, which has a socket and an MCP session.
use goffy_os.Prelude.Dict.{get}
use goffy_os.Prelude.{
  ℕ, ◌≡◌, ◌≢◌, refl, Bool, true, false, none, some, [], ◌∷◌, nat_eq, string_eq, take, keep_if, not,
  ap, is_some, ◌&&◌,
}
use mathlib.Core.List.{reverse}
use goffy_os.Prelude.Result.{ok}
use goffy_os.Credentials.{
  Table, is_bad_token, revoke, row_to_credential, authenticate, token_digest, set_revoked,
  is_active,
}
use goffy_os.Audit.{AuditEvent}
use goffy_os.Audit.Window.{
  memory_log, AuditSnapshot, check_log, are_token_chars, audit_token, base_event, is_token,
  is_token_char, keep_event, optional_token, record_base, record_event, trim_events, snapshot,
}
use goffy_os.Mcp.Slots.{no_slots}
use goffy_os.Mcp.Manager.{Manager}
use goffy_os.Auth.Principal.{AuthenticatedPrincipal, has_scope}
use goffy_os.Auth.Authenticator.{
  paired_principal, authenticate_header, authenticate_token, compare_digest, bootstrap_principal,
  pairing_enabled, authenticate_paired, kept_key, is_principal_active,
}
use goffy_os.Http.{
  Hub, ApiRequest, Net, authenticator_of, require_loopback_admin, require_loopback,
  is_loopback_client, authenticate_request, require_audit_ready, audit, entry_of, require_admin,
  revoke_live_access,
}
use goffy_os.Http.PairingRequests.{Redemptions, Env, RevocationResponse, from_store}
use goffy_os.Http.PairingRoutes.{
  revoke_paired_credential, revoke_by_admin, revoke_audited, found_or, perform_revocation,
  revoke_stored,
}
use goffy_os.Http.Mutations.{admin_revokes, after_call, IsWarranted, after_call-IsWarranted}
use goffy_os.Http.Revoking.{LosesAccess, revoke_paired_credential-LosesAccess}
use goffy_os.Http.AuditRoutes.{
  IsScopedDevice, is_own_event, list_paired_operator_audit_events,
  list_paired_operator_audit_events-own, require_loopback_paired, require_loopback_here,
  read_snapshot, require_paired_scope,
}
use goffy_os.Http.Handshake.{
  Gaps, Ticks, connected, handshake, greet, join, join_as, check_active, recorded, connect_entry,
  meanwhile, happen, revokes, cuts,
}
use goffy_os.Http.Handshake.Tracking.{IsTracked, handshake-IsTracked}
use goffy_os.Tests.Approval.{crypto}
use goffy_os.Tests.Credentials.{platform, table, table-IsValid, phone_credential}

abbrev net : Net
net = record {
  is_loopback = λ _. some true;
  lower = λ s. s;
  strip_lower = λ s. s;
  media_type = λ s. s;
  decimal = λ _. "0";
}

abbrev redemptions : Redemptions
redemptions = record {
  parse = λ _. none;
  challenge_ttl = 60000;
  uses_tls = false;
  port_text = "8787";
}

abbrev env : Env
env = record {
  now = 9;
  issued_at = 9;
  store_reachable = true;
  audit_ready = true;
  first = (9, true);
  last = (10, true);
  drawn_id = 8;
  drawn_token = "new";
}

abbrev manager : Manager
manager = record {
  server_instances = ("s", 1) ∷ [];
  session_owners = ("s", record { client_id = "goffy-paired:id"; context = "" }) ∷ [];
  get_request_counts = [];
  transports = (1, record { is_terminated = false; idle_scope = none }) ∷ [];
  notified_sessions = [];
  session_idle_timeout = none;
}

abbrev phone_event : AuditEvent
phone_event = record {
  sequence = 1;
  recorded_at = 5;
  source = "websocket";
  action = "connect";
  outcome = "succeeded";
  principal_kind = "paired";
  credential_id = some 7;
  detail_code = none;
}

abbrev other_event : AuditEvent
other_event = record phone_event { sequence = 2; credential_id = some 6 }

abbrev live : Hub
live = record {
  auth_token = some "bootstrap-token-0123456789";
  table = table;
  pending = [];
  audit_log = record (memory_log 8) { events = phone_event ∷ other_event ∷ []; next_sequence = 3 };
  connections = (7, 3 ∷ []) ∷ [];
  closed = [];
  manager = manager;
  slots = record no_slots { active_sessions = ("s", 4) ∷ [] };
}

abbrev by_admin : ApiRequest
by_admin = record {
  client_host = some "127.0.0.1";
  authorization = some "Bearer bootstrap-token-0123456789";
  hostname = none;
  content_type = none;
  chunks = [];
}

abbrev by_phone : ApiRequest
by_phone = record by_admin { authorization = some "Bearer 0123456789abcdef0123456789abcdef" }

abbrev revoked : Hub
revoked = (revoke_paired_credential crypto platform net redemptions env 7 by_admin live).0

abbrev response : RevocationResponse
response = record { credential_id = 7; revoked = true }

revoke_run :
    revoke_paired_credential crypto platform net redemptions env 7 by_admin live
    ≡ (revoked, ok response)
unfolding revoke_paired_credential require_loopback_admin require_loopback is_loopback_client
    authenticate_request authenticate_header authenticate_token is_bad_token authenticator_of
    compare_digest has_scope bootstrap_principal pairing_enabled revoke_by_admin revoke_audited
    require_audit_ready check_log are_token_chars audit_token base_event is_token is_token_char
    keep_event optional_token record_base record_event trim_events revoke row_to_credential
    from_store found_or perform_revocation revoke_stored audit entry_of require_admin
    revoke_live_access
revoke_run = refl

revoke_paired_credential-LosesAccess_example : LosesAccess crypto platform net 7 live revoked
unfolding get
revoke_paired_credential-LosesAccess_example =
    revoke_paired_credential-LosesAccess crypto platform net redemptions env 7 by_admin live revoked
      response table-IsValid (refl, tt) revoke_run

abbrev all_active : Table → Bool
all_active [] = true
all_active (r ∷ t) = not (is_some r.revoked_at) && all_active t

all_active-differ : false ≢ true
all_active-differ h = cc

table_changes :
    (after_call crypto platform net redemptions env (admin_revokes 7) by_admin live).table ≢ table
unfolding after_call set_revoked revoke_paired_credential require_loopback_admin require_loopback
    is_loopback_client authenticate_request authenticate_header authenticate_token is_bad_token
    authenticator_of compare_digest has_scope bootstrap_principal pairing_enabled revoke_by_admin
    revoke_audited require_audit_ready check_log are_token_chars audit_token base_event is_token
    is_token_char keep_event optional_token record_base record_event trim_events revoke
    row_to_credential from_store found_or perform_revocation revoke_stored audit entry_of
    require_admin revoke_live_access
table_changes h = all_active-differ (ap all_active h)

after_call-IsWarranted_example :
    IsWarranted crypto platform net redemptions env (admin_revokes 7) by_admin live
after_call-IsWarranted_example =
    after_call-IsWarranted crypto platform net redemptions env (admin_revokes 7) by_admin live
      table_changes

abbrev shown : AuditSnapshot
shown = record { events = phone_event ∷ []; is_stored = false; integrity = none }

list_run :
    list_paired_operator_audit_events crypto platform net true 5 by_phone live ≡ (live, ok shown)
unfolding list_paired_operator_audit_events require_loopback_paired require_loopback_here
    is_loopback_client authenticate_request authenticate_header authenticate_token is_bad_token
    authenticator_of compare_digest authenticate_paired authenticate token_digest paired_principal
    has_scope read_snapshot snapshot kept_key row_to_credential is_own_event require_paired_scope
list_run = refl

list_paired_operator_audit_events-own_example :
    (principal : AuthenticatedPrincipal) × (id : ℕ) × IsScopedDevice crypto platform net true
      by_phone live principal id
    × (live ≡ live)
    × (shown.events ≡ take 5 (keep_if (is_own_event (some id)) (reverse live.audit_log.events)))
    × (keep_if (λ e. not (is_own_event (some id) e)) shown.events ≡ [])
list_paired_operator_audit_events-own_example =
    list_paired_operator_audit_events-own crypto platform net true 5 by_phone live live shown
      list_run

abbrev ticks : Ticks
ticks = record {
  first = (5, true);
  last = (6, true);
  known_reachable = true;
  check_reachable = true;
  revoked_at = 6;
}

-- The row of the phone is revoked right after the check that it is active, and other devices are
-- revoked before.
abbrev gaps : Gaps
gaps = record {
  accepting = revokes 6 ∷ cuts 6 ∷ [];
  registering = [];
  checking = cuts 9 ∷ [];
  resuming = revokes 7 ∷ [];
}

abbrev phone : AuthenticatedPrincipal
phone = paired_principal crypto platform (authenticator_of true live) phone_credential

abbrev joined : Hub
joined = (handshake crypto platform net ticks gaps 4 by_phone live).0

phone-own : phone.credential_id ≡ some 7
unfolding paired_principal
phone-own = refl

handshake_run : handshake crypto platform net ticks gaps 4 by_phone live ≡ (joined, connected phone)
unfolding handshake greet join join_as check_active recorded connect_entry meanwhile happen
    is_principal_active has_scope authenticate_request authenticate_header authenticate_token
    is_bad_token authenticator_of compare_digest authenticate_paired authenticate token_digest
    paired_principal kept_key row_to_credential record_event record_base base_event audit_token
    optional_token is_token are_token_chars is_token_char is_active revoke revoke_live_access
handshake_run = refl

handshake-IsTracked_example : IsTracked crypto platform net ticks 7 4 gaps joined
handshake-IsTracked_example =
    handshake-IsTracked crypto platform net ticks 7 4 gaps by_phone phone live joined phone-own
      handshake_run
