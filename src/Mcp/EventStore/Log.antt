-- ===== src/Mcp/EventStore/Log.antt =====
-- Calls on the event store of mcp_server.py, beside a log of the same calls that forgets nothing.
use goffy_os.Prelude.{
  ℕ, ◌+◌, String, ◌≡◌, Bool, false, not, ◌&&◌, Option, none, some, List, [], ◌∷◌, ◌++◌, leb,
  is_some, if◌then◌else◌, string_eq,
}
use goffy_os.Prelude.Result.{Result, ok, ◌>>=◌}
use goffy_os.Mcp.EventStore.{
  Codec, EventStore, EventError, StoredMcpEvent, JsonRpcMessage, tool_list_changed_message,
  store_event, replay_events_after, event_id_of, is_replayable, new_event, find_cursor, is_empty,
}
use goffy_os.Mcp.EventStore.Window.{total_bytes, newest}

pub data Call : Type 0 where
  stores : String → Option JsonRpcMessage → Call
  replays : String → Call

-- All events that were ever retained, and how many IDs were given out.
pub record EventLog : Type 0 where
  pub issued : ℕ
  pub entries : List StoredMcpEvent

module _ (c : Codec) where
  unfoldable pub step : EventStore → Call → Result EventError EventStore
  step s (stores stream_id message) = store_event c stream_id message s >>= λ (s', id). ok s'
  step s (replays id) = replay_events_after c id s >>= λ (s', sent, stream_id). ok s'

  unfoldable pub run : EventStore → List Call → Result EventError EventStore
  run s [] = ok s
  run s (call ∷ calls) = step s call >>= λ s'. run s' calls

  -- An event gets the next ID and is logged unless it alone is too large.
  unfoldable pub log_event : ℕ → String → String → Option JsonRpcMessage → EventLog → EventLog
  log_event max_bytes event_prefix stream_id message l =
      let e = new_event c (event_id_of c event_prefix (l.issued + 1)) stream_id message in
      record {
        issued = l.issued + 1;
        entries = if leb e.size_bytes max_bytes then l.entries ++ e ∷ [] else l.entries;
      }

  -- Nothing is signalled only to a client whose cursor is the newest event and carries no change.
  unfoldable pub is_current : String → List StoredMcpEvent → Bool
  unfolding is_empty
  is_current id window = elim (find_cursor id window) [
    | none ↦ false
    | some (cursor, later) ↦ not (is_some cursor.message) && is_empty later
  ]

  unfoldable pub log_step : (max_events max_bytes : ℕ) → String → EventLog → Call → EventLog
  log_step max_events max_bytes event_prefix l (stores stream_id message) =
      if is_replayable c stream_id message
      then log_event max_bytes event_prefix stream_id message l
      else record l { issued = l.issued + 1 }
  log_step max_events max_bytes event_prefix l (replays id) =
      if is_current id (newest max_events max_bytes l.entries)
      then l
      else log_event max_bytes event_prefix c.get_stream_key (some tool_list_changed_message) l

  unfoldable pub log_run : (max_events max_bytes : ℕ) → String → EventLog → List Call → EventLog
  log_run max_events max_bytes event_prefix l [] = l
  log_run max_events max_bytes event_prefix l (call ∷ calls) =
      log_run max_events max_bytes event_prefix (log_step max_events max_bytes event_prefix l call)
        calls

  -- The store holds the newest entries of the log that fit.
  pub record Represents (max_events max_bytes : ℕ) (event_prefix : String) (s : EventStore)
      (l : EventLog) : Type 0 where
    pub count_limit : s.max_events ≡ max_events
    pub byte_limit : s.max_bytes ≡ max_bytes
    pub prefix : s.event_prefix ≡ event_prefix
    pub numbered : s.next_sequence ≡ l.issued
    pub window : s.events ≡ newest max_events max_bytes l.entries
    pub counted : s.stored_bytes ≡ total_bytes s.events

abbrev pub empty_log : EventLog
empty_log = record { issued = 0; entries = [] }

abbrev pub started : ℕ → ℕ → String → EventStore
started max_events max_bytes drawn = record {
  max_events = max_events;
  max_bytes = max_bytes;
  event_prefix = drawn;
  next_sequence = 0;
  events = [];
  stored_bytes = 0;
}
