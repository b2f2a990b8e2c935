-- ===== src/Mcp/EventStore.antt =====
-- `BoundedMcpEventStore` of hub/src/goffy_hub/mcp_server.py: the tool-list changes that a client
-- may replay when it reconnects. Both methods run under the lock of the store, and replayed events
-- go out after it is released, in the order of the list that `replay_events_after` returns here.
pub mod Window
pub mod Log
pub mod Refinement
pub mod Changes
pub mod Replay
use Prim.Native.String as Text
use goffy_os.Prelude.{
  ℕ, ◌+◌, ◌-◌, String, Bool, true, false, not, ◌&&◌, ◌||◌, Option, none, some, List, [], ◌∷◌, ◌++◌,
  ltb, length, is_some, nat_eq, string_eq, ◌==◌, ◌!=◌, if◌then◌else◌, keep_if,
}
use goffy_os.Prelude.Result.{Result, ok, raise, ◌>>=◌}

-- `types.JSONRPCMessage`: a notification with its method and the rest of its text, or a request, a
-- response or an error, known by its text.
pub data JsonRpcMessage : Type 0 where
  notification : String → String → JsonRpcMessage
  other : String → JsonRpcMessage

-- The key of the standalone stream, the text of a number, and the length of a message as JSON,
-- which come from the MCP library, Python and pydantic.
pub record Codec : Type 0 where
  pub get_stream_key : String
  pub decimal : ℕ → String
  pub message_bytes : JsonRpcMessage → ℕ

-- `_StoredMcpEvent`
pub record StoredMcpEvent : Type 0 where
  pub event_id : String
  pub stream_id : String
  pub message : Option JsonRpcMessage
  pub size_bytes : ℕ

pub record EventStore : Type 0 where
  pub max_events : ℕ
  pub max_bytes : ℕ
  pub event_prefix : String
  pub next_sequence : ℕ
  pub events : List StoredMcpEvent
  pub stored_bytes : ℕ

-- `popleft` of an empty deque, and the refusals of the constructor
pub data EventError : Type 0 where
  index_error : EventError
  value_error : String → EventError

-- `token_urlsafe(18)` is drawn outside.
unfoldable pub new_event_store : ℕ → ℕ → String → Result EventError EventStore
new_event_store max_events max_bytes drawn =
    if max_events == 0
    then raise (value_error "max_events must be positive")
    else if max_bytes == 0
    then raise (value_error "max_bytes must be positive")
    else ok (record {
      max_events = max_events;
      max_bytes = max_bytes;
      event_prefix = drawn;
      next_sequence = 0;
      events = [];
      stored_bytes = 0;
    })

-- The method of tool-list changes
abbrev pub list_changed : String
list_changed = "notifications/tools/list_changed"

-- `_tool_list_changed_message`
abbrev pub tool_list_changed_message : JsonRpcMessage
tool_list_changed_message = notification list_changed ""

-- The part of `_is_replayable_tool_list_event` about the message
unfoldable pub is_list_change : Option JsonRpcMessage → Bool
is_list_change none = true
is_list_change (some (notification method rest)) = method == list_changed
is_list_change (some (other body)) = false

-- The `while` loop of `_retain_event`. An empty deque with bytes left raises; the difference stops
-- at 0, and `stored` is the sum of the sizes.
unfoldable pub evict : ℕ → ℕ → List StoredMcpEvent → ℕ → Result EventError (List StoredMcpEvent × ℕ)
evict max_events max_bytes [] stored =
    if ltb max_bytes stored then raise index_error else ok ([], stored)
evict max_events max_bytes (e ∷ es) stored =
    let rest = evict max_events max_bytes es (stored - e.size_bytes) in
    if ltb max_events (length (e ∷ es)) || ltb max_bytes stored then rest else ok (e ∷ es, stored)

-- The event under an ID, and the events after it.
unfoldable pub find_cursor :
    String → List StoredMcpEvent → Option (StoredMcpEvent × List StoredMcpEvent)
find_cursor last_event_id [] = none
find_cursor last_event_id (e ∷ es) =
    if e.event_id == last_event_id then some (e, es) else find_cursor last_event_id es

-- What the replay loop sends of an event: it goes to `stream_id`, and has a message.
unfoldable pub is_sent : String → StoredMcpEvent → Bool
is_sent stream_id e = is_some e.message && e.stream_id == stream_id

unfoldable pub is_empty : List StoredMcpEvent → Bool
is_empty [] = true
is_empty (e ∷ es) = false

module _ (c : Codec) where
  -- f"{event_prefix}.{sequence}"
  unfoldable pub event_id_of : String → ℕ → String
  event_id_of event_prefix sequence = Text.◌++◌ event_prefix (Text.◌++◌ "." (c.decimal sequence))

  -- `_next_event_id`
  unfoldable pub next_event_id : EventStore → EventStore × String
  next_event_id s =
      let s' : EventStore = record s { next_sequence = s.next_sequence + 1 } in
      (s', event_id_of s.event_prefix s'.next_sequence)

  -- `_is_replayable_tool_list_event`
  unfoldable pub is_replayable : String → Option JsonRpcMessage → Bool
  is_replayable stream_id message = stream_id == c.get_stream_key && is_list_change message

  message_size : Option JsonRpcMessage → ℕ
  message_size none = 0
  message_size (some message) = c.message_bytes message

  -- `_event_size_bytes`
  unfoldable pub event_size_bytes : String → String → Option JsonRpcMessage → ℕ
  unfolding message_size
  event_size_bytes event_id stream_id message =
      Text.len event_id + Text.len stream_id + message_size message

  unfoldable pub new_event : String → String → Option JsonRpcMessage → StoredMcpEvent
  new_event event_id stream_id message = record {
    event_id = event_id;
    stream_id = stream_id;
    message = message;
    size_bytes = event_size_bytes event_id stream_id message;
  }

  -- `_retain_event` past the test for events that are too large
  unfoldable pub append_event : EventStore → StoredMcpEvent → Result EventError EventStore
  append_event s e = do
    (events, stored) ←
        evict s.max_events s.max_bytes (s.events ++ e ∷ []) (s.stored_bytes + e.size_bytes)
    ok (record s { events = events; stored_bytes = stored })

  unfoldable pub retain_event :
      String
      → String
      → Option JsonRpcMessage
      → EventStore
      → Result EventError (EventStore × Option StoredMcpEvent)
  retain_event event_id stream_id message s =
      let e = new_event event_id stream_id message in
      if ltb s.max_bytes e.size_bytes
      then ok (s, none)
      else append_event s e >>= λ s'. ok (s', some e)

  unfoldable pub store_event :
      String → Option JsonRpcMessage → EventStore → Result EventError (EventStore × String)
  store_event stream_id message s =
      let (s', event_id) = next_event_id s in
      if not (is_replayable stream_id message)
      then ok (s', event_id)
      else retain_event event_id stream_id message s' >>= λ (s'', kept). ok (s'', event_id)

  -- The signal to read the tool list again: retained if it fits, sent in any case.
  unfoldable pub resync : EventStore → Result EventError (EventStore × StoredMcpEvent)
  resync s =
      let (s', event_id) = next_event_id s in
      retain_event event_id c.get_stream_key (some tool_list_changed_message) s' >>= λ (s'', kept).
      ok (
        s'',
        elim kept [
          | some e ↦ e
          | none ↦ record {
            event_id = event_id;
            stream_id = c.get_stream_key;
            message = some tool_list_changed_message;
            size_bytes = 0;
          }
        ],
      )

  -- The end of `replay_events_after`: the events to send, on which stream.
  unfoldable pub finish_replay :
      String
      → List StoredMcpEvent
      → Bool
      → EventStore
      → Result EventError (EventStore × List StoredMcpEvent × String)
  finish_replay stream_id replay requires_resync s =
      if requires_resync
      then (resync s >>= λ (s', e).
          ok (s', keep_if (is_sent stream_id) (replay ++ e ∷ []), stream_id))
      else ok (s, keep_if (is_sent stream_id) replay, stream_id)

  -- The new store, the events that are sent, and the stream.
  unfoldable pub replay_events_after :
      String → EventStore → Result EventError (EventStore × List StoredMcpEvent × String)
  unfolding is_empty
  replay_events_after last_event_id s = elim (find_cursor last_event_id s.events) [
    | none ↦ finish_replay c.get_stream_key [] true s
    | some (cursor, later) ↦
        finish_replay cursor.stream_id later (is_some cursor.message || not (is_empty later)) s
  ]
