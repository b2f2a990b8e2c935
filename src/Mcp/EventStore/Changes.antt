-- ===== src/Mcp/EventStore/Changes.antt =====
-- The events of the store of mcp_server.py are tool-list changes on the standalone stream.
use goffy_os.Prelude.{
  ℕ, ◌+◌, String, ◌≡◌, refl, true, Option, some, List, [], ◌∷◌, arith, leb, keep_if, is_some,
  Bool-cases, Option-cases, inl, inr, string_eq, ◌==◌, eq_iff, All, All-append,
}
use goffy_os.Mcp.EventStore.{
  Codec, StoredMcpEvent, JsonRpcMessage, notification, other, list_changed,
  tool_list_changed_message, is_list_change, is_replayable, event_id_of, new_event, find_cursor,
  is_empty, is_sent,
}
use goffy_os.Mcp.EventStore.Window.{newest}
use goffy_os.Mcp.EventStore.Log.{
  Call, stores, replays, EventLog, is_current, log_event, log_step, log_run,
}

pub is_empty-nil : (es : List StoredMcpEvent) → is_empty es ≡ true → es ≡ []
unfolding is_empty
is_empty-nil [] h = refl
is_empty-nil (e ∷ es) h = cc

module _ (c : Codec) where
  -- An event on the standalone stream, empty or a change of the tool list.
  abbrev pub IsChange : StoredMcpEvent → Type 0
  IsChange e = (e.stream_id ≡ c.get_stream_key) × (is_list_change e.message ≡ true)

  -- An event that says, on the standalone stream, that the tool list changed, and no more.
  abbrev pub IsSignal : StoredMcpEvent → Type 0
  IsSignal e =
      (e.stream_id ≡ c.get_stream_key)
      × ((rest : String) × (e.message ≡ some (notification list_changed rest)))

  IsChange-IsSignal : (e : StoredMcpEvent) → IsChange e → is_some e.message ≡ true → IsSignal e
  unfolding is_list_change
  IsChange-IsSignal e h some_message = elim (Option-cases e.message) [
    | inl missing ↦ absurd (ground arith)
    | inr (other body, found) ↦ absurd (ground arith)
    | inr (notification method rest, found) ↦
        (h.0, (rest, ground (arith, eq_iff method list_changed)))
  ]

  pub sent-IsSignal :
      (stream_id : String) (es : List StoredMcpEvent)
      → All IsChange es
      → All IsSignal (keep_if (is_sent stream_id) es)
  unfolding is_sent
  sent-IsSignal stream_id [] h = tt
  sent-IsSignal stream_id (e ∷ es) h = elim (Bool-cases (is_sent stream_id e)) [
    | inr kept_back ↦ rw kept_back (sent-IsSignal stream_id es h.1)
    | inl goes ↦ rw goes (IsChange-IsSignal e h.0 (ground arith), sent-IsSignal stream_id es h.1)
  ]

  pub find_cursor-IsChange :
      (id : String) (es : List StoredMcpEvent) (cursor : StoredMcpEvent)
      (later : List StoredMcpEvent)
      → All IsChange es
      → find_cursor id es ≡ some (cursor, later)
      → IsChange cursor × All IsChange later
  unfolding find_cursor
  find_cursor-IsChange id [] cursor later h found = cc
  find_cursor-IsChange id (e ∷ es) cursor later h found = elim (Bool-cases (e.event_id == id)) [
    | inl hit ↦
        let at : e ≡ cursor = ground arith in
        let rest : es ≡ later = ground arith in (rw (← at) h.0, rw (← rest) h.1)
    | inr miss ↦ find_cursor-IsChange id es cursor later h.1 (ground arith)
  ]

  module _ (max_events max_bytes : ℕ) (event_prefix : String) where
    log_event-IsChange :
        (message : Option JsonRpcMessage) (l : EventLog)
        → is_list_change message ≡ true
        → All IsChange l.entries
        → All IsChange (log_event c max_bytes event_prefix c.get_stream_key message l).entries
    unfolding log_event new_event
    log_event-IsChange message l change h =
        let e = new_event c (event_id_of c event_prefix (l.issued + 1)) c.get_stream_key message in
        elim (Bool-cases (leb e.size_bytes max_bytes)) [
          | inl small ↦ rw small (All-append IsChange l.entries (e ∷ []) h ((refl, change), tt))
          | inr large ↦ rw large h
        ]

    log_step-IsChange :
        (l : EventLog) (call : Call)
        → All IsChange l.entries
        → All IsChange (log_step c max_events max_bytes event_prefix l call).entries
    unfolding log_step is_replayable
    log_step-IsChange l (stores stream_id message) h =
        elim (Bool-cases (is_replayable c stream_id message)) [
          | inr foreign ↦ rw foreign h
          | inl change ↦
              let same : stream_id ≡ c.get_stream_key =
                ground (arith, eq_iff stream_id c.get_stream_key) in
              rw (change, same) (log_event-IsChange message l (ground arith) h)
        ]
    log_step-IsChange l (replays id) h =
        elim (Bool-cases (is_current c id (newest max_events max_bytes l.entries))) [
          | inl current ↦ rw current h
          | inr behind ↦ rw behind (
              log_event-IsChange (some tool_list_changed_message) l (unfold is_list_change in refl)
                h)
        ]

    pub log_run-IsChange :
        (calls : List Call) (l : EventLog)
        → All IsChange l.entries
        → All IsChange (log_run c max_events max_bytes event_prefix l calls).entries
    unfolding log_run
    log_run-IsChange [] l h = h
    log_run-IsChange (call ∷ calls) l h =
        log_run-IsChange calls (log_step c max_events max_bytes event_prefix l call)
          (log_step-IsChange l call h)
