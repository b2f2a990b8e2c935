-- ===== src/Tests/WebSocket.antt =====
-- A connection of a paired phone.
use goffy_os.Prelude.{
  ◌≤◌, String, ◌≡◌, refl, Option, true, none, some, List, [], ◌∷◌, arith, length, ◌==◌, string_eq,
  nat_eq, if◌then◌else◌,
}
use goffy_os.Prelude.Dict.{get, put, remove, remove_all, keys_where}
use goffy_os.Protocol.{
  approval_response, capability_discovery_request, tool_invocation, permission_eq,
  ToolInvocationPayload,
}
use goffy_os.Protocol.Values.{null, text}
use goffy_os.Approval.{
  empty_store, issue, prune_expired, canonical_arguments_sha256, consume, validate,
  verify_approval_response_proof, check_proof, discard,
}
use goffy_os.Auth.Principal.{AuthenticatedPrincipal, paired, tool_permissions_of, principal_key_of}
use goffy_os.Registry.{
  ToolRegistry, returned, preflight, is_healthy, discover, is_permitted, invoke_prepared,
  is_registered,
}
use goffy_os.WebSocket.{
  Envelope, Wire, Tick, Session, handle_message, serve, new_session, close_session,
  PendingConfirmInvocation, dispatch, on_discovery, send_event, on_invocation, dispatch_prepared,
  execute_prepared, send_completion, start_run, max_messages_per_connection, request_approval,
  on_approval_response, handle_approval_response, answer_pending, send_error,
}
use goffy_os.WebSocket.Bounds.{handle_message-bounds}
use goffy_os.WebSocket.Closing.{serve-leaves_nothing}
use goffy_os.Tests.Approval.{crypto, phone_key, yes_answer, open_app, one_pending}
use goffy_os.Tests.Registry.{models, registry, opener}

abbrev phone : AuthenticatedPrincipal
phone = record {
  kind = paired;
  client_id = "phone";
  subject = "phone";
  scopes = "goffy.tools.safe" ∷ [];
  credential_id = some 7;
  approval_public_key = some phone_key;
}

abbrev read_clock : ToolInvocationPayload
read_clock = record { tool_name = "mac.clock"; arguments = null; task_id = none }

-- The texts "d" and "i" stand for a discovery and for an invocation, "y" for an answer.
abbrev envelope : String → Option Envelope
envelope raw =
    if raw == "d"
    then some
        (record { message_id = 1; message_type = capability_discovery_request; payload = null })
    else if raw == "i"
    then some (record { message_id = 2; message_type = tool_invocation; payload = null })
    else if raw == "y"
    then some (record { message_id = 3; message_type = approval_response; payload = null })
    else none

abbrev wire : Wire
wire = record {
  parse_envelope = envelope;
  parse_approval_response = λ _. some yes_answer;
  parse_discovery = λ _. some "mac.clock";
  parse_invocation = λ _. some read_clock;
  event_bytes = λ _. 100;
  max_message_bytes = 1000;
  handle = λ _ _. returned (text "noon");
}

abbrev tick : Tick
tick = record { consume_now = 2000; prune_now = 1000; issued_at = 1000; approval_id = 3 }

abbrev started : Session
started = new_session empty_store

abbrev discovered : Session
discovered = handle_message crypto models wire registry phone tick "d" started

serve_run :
    length (serve crypto models wire registry phone ((tick, "d") ∷ (tick, "i") ∷ []) started).runs
    ≡ 1
unfolding serve handle_message dispatch on_discovery send_event discover get is_healthy is_permitted
    tool_permissions_of on_invocation preflight dispatch_prepared execute_prepared invoke_prepared
    send_completion start_run close_session
serve_run = refl

-- A connection that discovers the opener, asks for it, and approves the request.
abbrev approving : Wire
approving = record wire {
  parse_discovery = λ _. some "mac.apps.open";
  parse_invocation = λ _. some open_app;
}

abbrev all_healthy : ToolRegistry
all_healthy = record registry { healthy = ("mac.clock", true) ∷ ("mac.apps.open", true) ∷ [] }

abbrev conversation : List (Tick × String)
conversation = (tick, "d") ∷ (tick, "i") ∷ (tick, "y") ∷ []

approved_run :
    (serve crypto models approving all_healthy phone conversation started).runs
    ≡ record { definition = opener; parsed_input = null } ∷ []
unfolding serve handle_message dispatch on_discovery send_event discover get is_healthy is_permitted
    tool_permissions_of on_invocation preflight dispatch_prepared request_approval
    on_approval_response handle_approval_response answer_pending issue prune_expired
    canonical_arguments_sha256 consume validate verify_approval_response_proof check_proof discard
    put remove remove_all keys_where execute_prepared invoke_prepared send_completion start_run
    close_session is_registered principal_key_of send_error
approved_run = refl

handle_message-bounds_example :
    (length (handle_message crypto models wire registry phone tick "d" started).seen_message_ids
      ≤ max_messages_per_connection)
    × (length (handle_message crypto models wire registry phone tick "d" started).discovered_tools
        ≤ 1)
handle_message-bounds_example =
    handle_message-bounds crypto models wire registry phone tick "d" started (omega arith)

abbrev waiting : PendingConfirmInvocation
waiting = record {
  original_message_id = 2;
  invocation = open_app;
  prepared = record { definition = opener; parsed_input = null };
  principal_key = "paired:id";
  credential_id = 7;
  approval_public_key = phone_key;
}

abbrev asked : Session
asked = record started { pending = (3, waiting) ∷ []; store = one_pending }

serve-leaves_nothing_example :
    get
      (serve crypto models wire registry phone
        ((tick, "d") ∷ (tick, "i") ∷ [])
        started).store.pending_approvals
      3
    ≡ none
unfolding get
serve-leaves_nothing_example =
    serve-leaves_nothing crypto models wire registry phone empty_store
      ((tick, "d") ∷ (tick, "i") ∷ []) 3 refl
