-- ===== src/Mcp/EventStore/Refinement.antt =====
-- The event store of mcp_server.py holds the newest events of the log that fit.
use goffy_os.Prelude.{
  ℕ, ◌+◌, String, ◌≡◌, refl, Bool, true, false, not, ◌||◌, Option, none, some, List, [], ◌∷◌, ◌++◌,
  arith, leb, is_some, if◌then◌else◌, keep_if, Bool-cases, Option-cases, inl, inr, string_eq,
}
use goffy_os.Prelude.Result.{ok}
use goffy_os.Mcp.EventStore.{
  Codec, EventStore, StoredMcpEvent, JsonRpcMessage, tool_list_changed_message, store_event,
  replay_events_after, event_id_of, next_event_id, is_replayable, new_event, retain_event,
  append_event, resync, finish_replay, find_cursor, is_empty, is_sent,
}
use goffy_os.Mcp.EventStore.Window.{total_bytes, newest, evict_lem, newest-append, total-append}
use goffy_os.Mcp.EventStore.Log.{
  Call, stores, replays, EventLog, step, run, log_event, is_current, log_step, log_run, Represents,
  empty_log, started,
}

module _ (c : Codec) where
  append_event_lem :
      (s : EventStore) (e : StoredMcpEvent)
      → s.stored_bytes ≡ total_bytes s.events
      → append_event c s e
        ≡ ok (record s {
          events = newest s.max_events s.max_bytes (s.events ++ e ∷ []);
          stored_bytes = total_bytes (newest s.max_events s.max_bytes (s.events ++ e ∷ []));
        })
  unfolding append_event
  append_event_lem s e counted =
      let sum : s.stored_bytes + e.size_bytes ≡ total_bytes (s.events ++ e ∷ []) =
        omega (arith, counted, total-append s.events (e ∷ [])) in
      rw (sum, evict_lem s.max_events s.max_bytes (s.events ++ e ∷ [])) refl

  -- What `_retain_event` leaves
  unfoldable pub retained : StoredMcpEvent → EventStore → EventStore
  retained e s =
      if leb e.size_bytes s.max_bytes
      then record s {
        events = newest s.max_events s.max_bytes (s.events ++ e ∷ []);
        stored_bytes = total_bytes (newest s.max_events s.max_bytes (s.events ++ e ∷ []));
      }
      else s

  pub retain_event_lem :
      (id stream_id : String) (message : Option JsonRpcMessage) (s : EventStore)
      → s.stored_bytes ≡ total_bytes s.events
      → let e = new_event c id stream_id message in
        retain_event c id stream_id message s
        ≡ ok (retained e s, if leb e.size_bytes s.max_bytes then some e else none)
  unfolding retain_event retained
  retain_event_lem id stream_id message s counted =
      let e = new_event c id stream_id message in ground (arith, append_event_lem s e counted)

  module _ (max_events max_bytes : ℕ) (event_prefix : String) where
    retained-Represents :
        (stream_id : String) (message : Option JsonRpcMessage) (s : EventStore) (l : EventLog)
        → Represents c max_events max_bytes event_prefix s l
        → let id = event_id_of c event_prefix (l.issued + 1) in
          Represents c max_events max_bytes event_prefix
            (retained (new_event c id stream_id message) (next_event_id c s).0)
            (log_event c max_bytes event_prefix stream_id message l)
    unfolding retained log_event next_event_id
    retained-Represents stream_id message s l r =
        let e = new_event c (event_id_of c event_prefix (l.issued + 1)) stream_id message in
        ground (arith, newest-append max_events max_bytes l.entries e)

    numbered-Represents :
        (s : EventStore) (l : EventLog)
        → Represents c max_events max_bytes event_prefix s l
        → Represents c max_events max_bytes event_prefix
            (next_event_id c s).0
            (record l { issued = l.issued + 1 })
    unfolding next_event_id
    numbered-Represents s l r = ground arith

    next_event_id_lem :
        (s : EventStore) (l : EventLog)
        → Represents c max_events max_bytes event_prefix s l
        → (next_event_id c s).1 ≡ event_id_of c event_prefix (l.issued + 1)
    unfolding next_event_id
    next_event_id_lem s l r = ground arith

    -- The state after a call, and that the call does not raise.
    abbrev Follows : EventStore → Call → EventLog → Type 0
    Follows s call l =
        (s' : EventStore) × (step c s call ≡ ok s')
        × Represents c max_events max_bytes event_prefix s'
            (log_step c max_events max_bytes event_prefix l call)

    store_event-Follows :
        (stream_id : String) (message : Option JsonRpcMessage) (s : EventStore) (l : EventLog)
        → Represents c max_events max_bytes event_prefix s l
        → Follows s (stores stream_id message) l
    unfolding step store_event log_step
    store_event-Follows stream_id message s l r =
        elim (Bool-cases (is_replayable c stream_id message)) [
          | inr no_change ↦
              ((next_event_id c s).0, rw no_change refl, rw no_change (numbered-Represents s l r))
          | inl change ↦
              let id = event_id_of c event_prefix (l.issued + 1) in
              let s1 = (next_event_id c s).0 in
              (
                retained (new_event c id stream_id message) s1,
                rw
                    (
                      change,
                      next_event_id_lem s l r,
                      retain_event_lem id stream_id message s1 (numbered-Represents s l r).counted,
                    )
                    refl,
                rw change (retained-Represents stream_id message s l r),
              )
        ]

    pub resync_lem :
        (s : EventStore) (l : EventLog)
        → Represents c max_events max_bytes event_prefix s l
        → let e =
            new_event c
              (event_id_of c event_prefix (l.issued + 1))
              c.get_stream_key
              (some tool_list_changed_message) in
          resync c s
          ≡ ok (
            retained e (next_event_id c s).0,
            if leb e.size_bytes max_bytes then e else record e { size_bytes = 0 },
          )
    unfolding resync
    resync_lem s l r =
        let id = event_id_of c event_prefix (l.issued + 1) in
        let s1 = (next_event_id c s).0 in
        let e = new_event c id c.get_stream_key (some tool_list_changed_message) in
        let r1 = numbered-Represents s l r in
        rw
          (
            next_event_id_lem s l r,
            retain_event_lem id c.get_stream_key (some tool_list_changed_message) s1 r1.counted,
            r1.byte_limit,
          )
          (elim (Bool-cases (leb e.size_bytes max_bytes)) [
            | inl small ↦ rw small refl
            | inr large ↦ rw (large, next_event_id_lem s l r) (unfold new_event in refl)
          ])

    finish_replay-Follows :
        (stream_id : String) (replay : List StoredMcpEvent) (required : Bool) (s : EventStore)
        (l : EventLog)
        → Represents c max_events max_bytes event_prefix s l
        → (s' : EventStore) × (sent : List StoredMcpEvent) × (finish_replay c stream_id replay
              required s
            ≡ ok (s', sent, stream_id))
          × Represents c max_events max_bytes event_prefix s' (
              if required
              then log_event c max_bytes event_prefix c.get_stream_key
                  (some tool_list_changed_message)
                  l
              else l)
    unfolding finish_replay
    finish_replay-Follows stream_id replay false s l r =
        (s, keep_if (is_sent stream_id) replay, refl, r)
    finish_replay-Follows stream_id replay true s l r =
        let e =
          new_event c (event_id_of c event_prefix (l.issued + 1)) c.get_stream_key
            (some tool_list_changed_message) in
        let signal = if leb e.size_bytes max_bytes then e else record e { size_bytes = 0 } in
        (
          retained e (next_event_id c s).0,
          keep_if (is_sent stream_id) (replay ++ signal ∷ []),
          rw (resync_lem s l r) refl,
          retained-Represents c.get_stream_key (some tool_list_changed_message) s l r,
        )

    replay_events_after-Follows :
        (id : String) (s : EventStore) (l : EventLog)
        → Represents c max_events max_bytes event_prefix s l
        → Follows s (replays id) l
    unfolding step replay_events_after log_step is_current
    replay_events_after-Follows id s l r = elim (Option-cases (find_cursor id s.events)) [
      | inl gone ↦
          let (s', sent, done, follows) = finish_replay-Follows c.get_stream_key [] true s l r in
          (
            s',
            rw (step, replay_events_after, gone, done) refl,
            rw (log_step, is_current, ← r.window, gone) follows,
          )
      | inr ((cursor, later), found) ↦
          let required = is_some cursor.message || not (is_empty later) in
          let (s', sent, done, follows) =
            finish_replay-Follows cursor.stream_id later required s l r in
          (
            s',
            rw (step, replay_events_after, found, done) refl,
            rw (log_step, is_current, ← r.window, found) (ground arith),
          )
    ]

    step-Follows :
        (s : EventStore) (call : Call) (l : EventLog)
        → Represents c max_events max_bytes event_prefix s l
        → Follows s call l
    step-Follows s (stores stream_id message) l r = store_event-Follows stream_id message s l r
    step-Follows s (replays id) l r = replay_events_after-Follows id s l r

    run-Represents :
        (calls : List Call) (s : EventStore) (l : EventLog)
        → Represents c max_events max_bytes event_prefix s l
        → (s' : EventStore) × (run c s calls ≡ ok s')
          × Represents c max_events max_bytes event_prefix s'
              (log_run c max_events max_bytes event_prefix l calls)
    unfolding run log_run
    run-Represents [] s l r = (s, refl, r)
    run-Represents (call ∷ calls) s l r =
        let (s1, stepped, r1) = step-Follows s call l r in
        let (s2, ran, r2) =
          run-Represents calls s1 (log_step c max_events max_bytes event_prefix l call) r1 in
        (s2, rw (stepped, ran) refl, r2)

-- Whatever is stored and replayed on a new store, no call raises: its eviction loop ends, and never
-- at an empty deque with bytes left. The deque is then the longest end of the log of all retained
-- events that keeps both limits, the byte count is its size, and as many IDs were given out as the
-- log counts.
pub run_refines :
    (c : Codec) (max_events max_bytes : ℕ) (drawn : String) (calls : List Call)
    → (s : EventStore) × (run c (started max_events max_bytes drawn) calls ≡ ok s)
      × Represents c max_events max_bytes drawn s
          (log_run c max_events max_bytes drawn empty_log calls)
run_refines c max_events max_bytes drawn calls =
    run-Represents c max_events max_bytes drawn calls (started max_events max_bytes drawn) empty_log
      (record {
        count_limit = refl;
        byte_limit = refl;
        prefix = refl;
        numbered = refl;
        window = unfold newest in refl;
        counted = refl;
      })
