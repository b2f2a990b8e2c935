-- ===== src/Mcp/Manager.antt =====
-- `GoffyStreamableHTTPSessionManager` and `McpToolListNotifier` of
-- hub/src/goffy_hub/mcp_server.py: which transports are live, who owns a session, which session has
-- an open stream, and which are told of tool-list changes. A transport is an object that several
-- places share, so the sessions name it and its fields stand in a table of their own. The base class
-- of the manager is the MCP library's: it alone adds sessions and owners. Times are milliseconds.
pub mod Termination
pub mod Opening
pub mod Streams
use goffy_os.Prelude.{
  ℕ, ◌+◌, String, Bool, true, false, not, ◌&&◌, Option, none, some, List, [], ◌∷◌, ltb, nat_eq,
  string_eq, ◌==◌, if◌then◌else◌, contains, is_some,
}
use goffy_os.Prelude.Dict.{Dict, get, put, remove, remove_all, has, keys, keys_where}

-- `idle_scope.deadline`
pub data Deadline : Type 0 where
  unlimited : Deadline
  due : ℕ → Deadline

-- What the manager reads and writes of a transport; there may be no idle scope.
pub record Transport : Type 0 where
  pub is_terminated : Bool
  pub idle_scope : Option Deadline

-- What `authorization_context` gives for a user: the client, and all else as a text.
pub record Requestor : Type 0 where
  pub client_id : String
  pub context : String

abbrev pub TransportId : Type 0
TransportId = ℕ

pub record Manager : Type 0 where
  pub server_instances : Dict String TransportId
  pub session_owners : Dict String Requestor
  pub get_request_counts : Dict String ℕ
  pub transports : Dict TransportId Transport
  pub notified_sessions : Dict String ℕ
  pub session_idle_timeout : Option ℕ

-- Changing a transport that exists
unfoldable pub set_transport : TransportId → (Transport → Transport) → Manager → Manager
set_transport tr change m = record m {
  transports = elim (get m.transports tr) [
    | none ↦ m.transports
    | some t ↦ put m.transports tr (change t)
  ];
}

-- `if transport.idle_scope is not None: transport.idle_scope.deadline = …`
unfoldable pub set_deadline : Deadline → Transport → Transport
set_deadline d t = record t { idle_scope = elim t.idle_scope [ none ↦ none | some old ↦ some d ] }

-- self._get_request_counts.get(session_id, 0) > 0
unfoldable pub has_get_request : Manager → String → Bool
has_get_request m session_id = elim (get m.get_request_counts session_id) [
  | none ↦ false
  | some n ↦ ltb 0 n
]

unfoldable pub begin_get_request : String → TransportId → Manager → Manager × Bool
begin_get_request session_id tr m = if has_get_request m session_id then (m, false) else (
  set_transport tr (set_deadline unlimited)
      (record m { get_request_counts = put m.get_request_counts session_id 1 }),
  true,
)

-- `self._server_instances.get(session_id) is transport and not transport.is_terminated`
unfoldable pub is_live_transport : Manager → String → TransportId → Bool
is_live_transport m session_id tr =
    elim (get m.server_instances session_id) [ none ↦ false | some i ↦ i == tr ]
    && elim (get m.transports tr) [ none ↦ false | some t ↦ not t.is_terminated ]

unfoldable pub finish_get_request : ℕ → String → TransportId → Manager → Manager
finish_get_request now session_id tr m =
    let m' : Manager = record m { get_request_counts = remove m.get_request_counts session_id } in
    elim m.session_idle_timeout [
      | none ↦ m'
      | some timeout ↦
          if is_live_transport m' session_id tr
          then set_transport tr (set_deadline (due (now + timeout))) m'
          else m'
    ]

unfoldable pub extend_idle_deadline_if_not_streaming : ℕ → String → TransportId → Manager → Manager
extend_idle_deadline_if_not_streaming now session_id tr m = elim m.session_idle_timeout [
  | none ↦ m
  | some timeout ↦
      set_transport tr
        (set_deadline (if has_get_request m session_id then unlimited else due (now + timeout))) m
]

-- The removal of a session from every table
unfoldable pub forget_sessions : List String → Manager → Manager
forget_sessions ids m = record m {
  server_instances = remove_all m.server_instances ids;
  session_owners = remove_all m.session_owners ids;
  get_request_counts = remove_all m.get_request_counts ids;
  notified_sessions = remove_all m.notified_sessions ids;
}

unfoldable pub remove_terminated_session : String → Manager → Manager × Bool
remove_terminated_session session_id m = elim (get m.server_instances session_id) [
  | none ↦ (forget_sessions (session_id ∷ []) m, true)
  | some tr ↦
      if elim (get m.transports tr) [ none ↦ false | some t ↦ not t.is_terminated ]
      then (m, false)
      else (forget_sessions (session_id ∷ []) m, true)
]

-- `owner["client_id"] == client_id`
abbrev pub is_owned_by : String → Requestor → Bool
is_owned_by client_id owner = owner.client_id == client_id

-- The sessions of a client
unfoldable pub sessions_of : String → Manager → List String
sessions_of client_id m = keys_where (is_owned_by client_id) m.session_owners

unfoldable pub add_transport : Option TransportId → List TransportId → List TransportId
add_transport none rest = rest
add_transport (some tr) rest = tr ∷ rest

-- The transports of sessions that have one
unfoldable pub transports_of : Manager → List String → List TransportId
transports_of m [] = []
transports_of m (id ∷ ids) = add_transport (get m.server_instances id) (transports_of m ids)

-- `transport.terminate()` for each
unfoldable pub terminate_transports : List TransportId → Manager → Manager
terminate_transports [] m = m
terminate_transports (tr ∷ trs) m =
    terminate_transports trs (set_transport tr (λ t. record t { is_terminated = true }) m)

-- `terminate_client`, with the sessions that the callback is told of
unfoldable pub terminate_client : String → Manager → Manager × List String
terminate_client client_id m =
    let ids = sessions_of client_id m in
    (terminate_transports (transports_of m ids) (forget_sessions ids m), ids)

-- `register` and `unregister` of the notifier; the server calls the first on `tools/list`.
unfoldable pub register_session : String → ℕ → Manager → Manager
register_session session_id session m = record m {
  notified_sessions = put m.notified_sessions session_id session;
}

unfoldable pub unregister_session : String → Manager → Manager
unregister_session session_id m = record m {
  notified_sessions = remove m.notified_sessions session_id;
}

-- The sessions that `notify` drops first: those that are not active.
unfoldable pub inactive_sessions : List String → Dict String ℕ → List String
inactive_sessions active [] = []
inactive_sessions active ((session_id, session) ∷ d) =
    let rest = inactive_sessions active d in
    if contains active session_id then rest else session_id ∷ rest

-- The sessions whose notification raised, which then are unregistered
unfoldable pub failing_sessions : (ℕ → Bool) → Dict String ℕ → List String
failing_sessions delivers [] = []
failing_sessions delivers ((session_id, session) ∷ d) =
    let rest = failing_sessions delivers d in if delivers session then rest else session_id ∷ rest

-- `notify` with the active sessions of the manager: the sessions that are told, and the new state.
-- `delivers` says whether a session took the notification in time.
unfoldable pub notify : (ℕ → Bool) → Manager → Manager × Dict String ℕ
notify delivers m =
    let told =
      remove_all m.notified_sessions
        (inactive_sessions (keys m.server_instances) m.notified_sessions) in
    (record m { notified_sessions = remove_all told (failing_sessions delivers told) }, told)

-- `handle_request` up to the handling by a transport or by the base class
pub data Route : Type 0 where
  new_session base_class stream_conflict : Route
  handled streamed : TransportId → Route

-- `requestor is not None and requestor == self._session_owners.get(session_id)`
unfoldable pub owns_session : Manager → Option Requestor → String → Bool
owns_session m none session_id = false
owns_session m (some r) session_id = elim (get m.session_owners session_id) [
  | none ↦ false
  | some o ↦ r.client_id == o.client_id && r.context == o.context
]

-- A request of a session that its owner makes
unfoldable pub route_owned : ℕ → String → String → TransportId → Manager → Manager × Route
route_owned now method session_id tr m =
    if not (method == "GET")
    then (extend_idle_deadline_if_not_streaming now session_id tr m, handled tr)
    else let (m', begun) = begin_get_request session_id tr m in
      (m', if begun then streamed tr else stream_conflict)

-- A request with a session ID, and the transport that is found for it
unfoldable pub route_known :
    ℕ → Option Requestor → String → String → Option TransportId → Manager → Manager × Route
route_known now requestor method id none m = (m, base_class)
route_known now requestor method id (some tr) m =
    if owns_session m requestor id then route_owned now method id tr m else (m, base_class)

unfoldable pub route_request :
    ℕ → Option Requestor → String → Option String → Manager → Manager × Route
route_request now requestor method none m = (m, new_session)
route_request now requestor method (some id) m =
    route_known now requestor method id (get m.server_instances id) m

-- The test after a new session: its credential was revoked meanwhile.
unfoldable pub after_new_session :
    Option Requestor → Option String → Manager → Manager × List String
after_new_session none current m = (m, [])
after_new_session (some r) current m =
    if elim current [ none ↦ false | some client_id ↦ client_id == r.client_id ]
    then (m, [])
    else terminate_client r.client_id m
