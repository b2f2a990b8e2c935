-- ===== src/Tests/Mcp.antt =====
-- MCP calls on the registry of a clock and an app opener, bodies, events and requests.
use goffy_os.Mcp.Manager.{route_known, route_owned, begin_get_request}
use goffy_os.Mcp.Manager.{owns_session, has_get_request}
use goffy_os.Protocol.Schema.{field_get}
use goffy_os.Registry.{is_healthy}
use goffy_os.Prelude.Dict.{get}
use goffy_os.Prelude.{
  ◌≡◌, ◌≢◌, refl, true, false, none, some, List, [], ◌∷◌, arith, nat_eq, string_eq,
}
use goffy_os.Prelude.Result.{ok}
use goffy_os.Protocol.Values.{null, text, object, Fields, field, end}
use goffy_os.Registry.{returned}
use goffy_os.Mcp.Adapter.{structured, call_tool, call_tool_iff}
use goffy_os.Mcp.Body.{
  HttpCodec, natural, ReceiveMessage, http_request, complete, read_request_body,
  validate_lifecycle_request,
}
use goffy_os.Mcp.Body.Reading.{last, more, read_request_body_iff}
use goffy_os.Mcp.Body.Lifecycle.{validate_lifecycle_request_iff}
use goffy_os.Mcp.EventStore.{Codec, EventStore, StoredMcpEvent, replay_events_after}
use goffy_os.Mcp.EventStore.Log.{
  Call, stores, replays, run, log_run, Represents, empty_log, started,
}
use goffy_os.Mcp.EventStore.Refinement.{run_refines}
use goffy_os.Mcp.EventStore.Replay.{Answers, replay_events_after-Answers}
use goffy_os.Mcp.Slots.{Limits, no_slots}
use goffy_os.Mcp.Requests.{
  HttpRequest, Tick, answered, response_start, Action, arrives, moves, act_all,
}
use goffy_os.Mcp.Requests.Bounded.{IsBounded, act_all-IsBounded}
use goffy_os.Mcp.Manager.{Requestor, Manager, route_request, streamed}
use goffy_os.Mcp.Manager.Opening.{Request}
use goffy_os.Mcp.Manager.Streams.{SessionEvent, asks, finishes, terminates, removes, one_stream}
use goffy_os.Mcp.Manager.Streams.{run as run_sessions}
use goffy_os.Tests.Registry.{models, registry, is_valid, clock}

call_tool_iff_example :
    call_tool models (λ _ _. returned (text "noon")) registry true "mac.clock" null
    ≡ structured (text "noon")
unfolding get is_healthy
call_tool_iff_example =
    (call_tool_iff models (λ _ _. returned (text "noon")) registry is_valid true "mac.clock" null
        (text "noon")).1
      (
        clock,
        null,
        refl,
        record { registered = refl; healthy = refl; is_safe = refl; accepted = refl },
        record { raw = text "noon"; is_raw = refl; valid = refl; small = omega arith },
      )

abbrev fields : Fields
fields = field "method" (text "initialize") end

abbrev http : HttpCodec
http = record { parse_int = λ _. natural 3; loads = λ _. some (object fields) }

abbrev messages : List ReceiveMessage
messages = http_request (1 ∷ 2 ∷ []) true ∷ http_request (3 ∷ []) false ∷ []

read_request_body_iff_example :
    read_request_body 8 http (some "3") messages ≡ complete (1 ∷ 2 ∷ 3 ∷ [])
read_request_body_iff_example =
    (read_request_body_iff 8 http (some "3") messages (1 ∷ 2 ∷ 3 ∷ [])).1
      ((3, refl, omega arith), more (1 ∷ 2 ∷ []) (last (3 ∷ []) []), omega arith)

validate_lifecycle_request_iff_example :
    validate_lifecycle_request http none (1 ∷ []) ≡ (some "initialize", none)
unfolding field_get
validate_lifecycle_request_iff_example =
    (validate_lifecycle_request_iff http none (1 ∷ []) (some "initialize")).1
      (record { fields = fields; parsed = refl; says = refl }, refl)

abbrev codec : Codec
codec = record { get_stream_key = "_GET"; decimal = λ _. "n"; message_bytes = λ _. 40 }

abbrev event_calls : List Call
event_calls = stores "_GET" none ∷ stores "_GET" none ∷ replays "old" ∷ []

run_refines_example :
    (s : EventStore) × (run codec (started 2 100 "p") event_calls ≡ ok s)
    × Represents codec 2 100 "p" s (log_run codec 2 100 "p" empty_log event_calls)
run_refines_example = run_refines codec 2 100 "p" event_calls

replay_events_after-Answers_example :
    (s' : EventStore) × (sent : List StoredMcpEvent) × (replay_events_after codec "old"
        (started 2 100 "p")
      ≡ ok (s', sent, "_GET"))
    × Answers codec (started 2 100 "p") "old" sent
unfolding run
replay_events_after-Answers_example =
    replay_events_after-Answers codec 2 100 "p" [] "old" (started 2 100 "p") refl

abbrev limits : Limits
limits = record { max_message_bytes = 8; max_active_sessions = 1; session_idle_timeout = 60 }

abbrev post : HttpRequest
post = record {
  method = "POST";
  session_id = none;
  content_length = none;
  incoming = http_request (1 ∷ []) false ∷ [];
}

abbrev tick : Tick
tick = record {
  now = 5;
  outcome = answered (response_start 200 (("mcp-session-id", "s") ∷ []) ∷ []);
  cleaned = true;
}

abbrev eight : List Action
eight =
    moves 0 tick
    ∷ moves 0 tick
    ∷ moves 0 tick
    ∷ moves 0 tick
    ∷ moves 0 tick
    ∷ moves 0 tick
    ∷ moves 0 tick
    ∷ moves 0 tick
    ∷ []

act_all-IsBounded_example : IsBounded limits (
    act_all limits http
      (λ s. s)
      (arrives post ∷ arrives post ∷ moves 0 tick ∷ eight)
      (record { slots = no_slots; requests = [] }))
act_all-IsBounded_example =
    act_all-IsBounded limits http (λ s. s) (arrives post ∷ arrives post ∷ moves 0 tick ∷ eight)

abbrev phone : Requestor
phone = record { client_id = "goffy-paired:id"; context = "" }

abbrev manager : Manager
manager = record {
  server_instances = ("s", 1) ∷ [];
  session_owners = ("s", phone) ∷ [];
  get_request_counts = [];
  transports = (1, record { is_terminated = false; idle_scope = none }) ∷ [];
  notified_sessions = [];
  session_idle_timeout = none;
}

abbrev get_s : Request
get_s = record { now = 3; requestor = some phone; method = "GET"; session_id = some "s" }

route_run : (route_request 3 (some phone) "GET" (some "s") manager).1 ≡ streamed 1
unfolding route_request route_known get owns_session route_owned begin_get_request has_get_request
route_run = refl

-- Meanwhile the owner asks again, the stream of another session ends, another client is terminated,
-- and the session is to be removed while its transport is alive.
abbrev meanwhile : List SessionEvent
meanwhile = asks get_s ∷ finishes 4 "t" 1 ∷ terminates "goffy-paired:other" ∷ removes "s" ∷ []

one_stream_example :
    (route_request 3
      (some phone)
      "GET"
      (some "s")
      (run_sessions (asks get_s ∷ meanwhile) manager)).1
    ≢ streamed 1
one_stream_example = one_stream get_s get_s meanwhile manager 1 1 "s" refl route_run refl refl
