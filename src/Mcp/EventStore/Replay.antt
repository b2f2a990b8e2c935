-- ===== src/Mcp/EventStore/Replay.antt =====
-- What `replay_events_after` of mcp_server.py sends to a client that reconnects.
use goffy_os.Prelude.{
  ℕ, ◌+◌, String, ◌≡◌, ◌⊎◌, refl, ◌∙◌, Bool, true, false, not, ◌&&◌, ◌||◌, some, List, [], ◌∷◌,
  ◌++◌, arith, leb, keep_if, is_some, if◌then◌else◌, Bool-cases, Option-cases, inl, inr, string_eq,
  ==_refl, All, All-append,
}
use goffy_os.Prelude.Result.{ok}
use goffy_os.Mcp.EventStore.{
  Codec, EventStore, StoredMcpEvent, tool_list_changed_message, replay_events_after, finish_replay,
  event_id_of, new_event, find_cursor, is_empty, is_sent, resync,
}
use goffy_os.Mcp.EventStore.Window.{All-newest}
use goffy_os.Mcp.EventStore.Refinement.{run_refines, resync_lem}
use goffy_os.Mcp.EventStore.Log.{
  Call, EventLog, run, is_current, log_run, Represents, empty_log, started,
}
use goffy_os.Mcp.EventStore.Changes.{
  IsChange, IsSignal, is_empty-nil, sent-IsSignal, find_cursor-IsChange, log_run-IsChange,
}

module _ (c : Codec) where
  -- The last event has the next ID.
  pub record EndsFresh (s : EventStore) (sent : List StoredMcpEvent) : Type 0 where
    pub earlier : List StoredMcpEvent
    pub signal : StoredMcpEvent
    pub ends : sent ≡ earlier ++ signal ∷ []
    pub numbered : signal.event_id ≡ event_id_of c s.event_prefix (s.next_sequence + 1)

  -- What a client whose cursor is `id` gets.
  pub record Answers (s : EventStore) (id : String) (sent : List StoredMcpEvent) : Type 0 where
    pub signals : All (IsSignal c) sent
    pub sends :
        ((is_current c id s.events ≡ true) × (sent ≡ []))
        ⊎ ((is_current c id s.events ≡ false) × EndsFresh s sent)

  module _ (max_events max_bytes : ℕ) (event_prefix : String) where
    keep-append :
        (p : StoredMcpEvent → Bool) (es : List StoredMcpEvent) (e : StoredMcpEvent)
        → p e ≡ true
        → keep_if p (es ++ e ∷ []) ≡ keep_if p es ++ e ∷ []
    keep-append p [] e h = rw h refl
    keep-append p (x ∷ xs) e h = ground (arith, keep-append p xs e)

    signal_fields :
        (l : EventLog)
        → let id = event_id_of c event_prefix (l.issued + 1) in
          let e = new_event c id c.get_stream_key (some tool_list_changed_message) in
          let signal = if leb e.size_bytes max_bytes then e else record e { size_bytes = 0 } in
          (signal.event_id ≡ id)
          × (signal.stream_id ≡ c.get_stream_key)
          × (signal.message ≡ some tool_list_changed_message)
    unfolding new_event
    signal_fields l = ground arith

    resync-returns :
        (s : EventStore) (l : EventLog)
        → Represents c max_events max_bytes event_prefix s l
        → let e =
            new_event c
              (event_id_of c event_prefix (l.issued + 1))
              c.get_stream_key
              (some tool_list_changed_message) in
          (s' : EventStore) × (resync c s
            ≡ ok (s', if leb e.size_bytes max_bytes then e else record e { size_bytes = 0 }))
    resync-returns s l r = (_, resync_lem c max_events max_bytes event_prefix s l r)

    finish_replay-sends :
        (replay : List StoredMcpEvent) (s : EventStore) (l : EventLog)
        → Represents c max_events max_bytes event_prefix s l
        → All (IsChange c) replay
        → (s' : EventStore) × (earlier : List StoredMcpEvent) × (signal : StoredMcpEvent)
          × (finish_replay c c.get_stream_key replay true s
              ≡ ok (s', earlier ++ signal ∷ [], c.get_stream_key))
          × All (IsSignal c) (earlier ++ signal ∷ [])
          × (signal.event_id ≡ event_id_of c s.event_prefix (s.next_sequence + 1))
    unfolding finish_replay
    finish_replay-sends replay s l r changes =
        let e =
          new_event c (event_id_of c event_prefix (l.issued + 1)) c.get_stream_key
            (some tool_list_changed_message) in
        let signal = if leb e.size_bytes max_bytes then e else record e { size_bytes = 0 } in
        let (s', resynced) = resync-returns s l r in
        let (at, to, of) = signal_fields l in
        let goes : is_sent c.get_stream_key signal ≡ true =
          unfold is_sent in rw (to, of) (==_refl c.get_stream_key) in
        let sent_lem = keep-append (is_sent c.get_stream_key) replay signal goes in
        (
          s',
          keep_if (is_sent c.get_stream_key) replay,
          signal,
          rw (finish_replay, resynced, sent_lem) refl,
          All-append (IsSignal c) (keep_if (is_sent c.get_stream_key) replay) (signal ∷ [])
              (sent-IsSignal c c.get_stream_key replay changes) ((to, ("", of)), tt),
          rw (at, r.prefix, r.numbered) refl,
        )

    -- The replay returns on the standalone stream with such an answer.
    abbrev IsAnswered : String → EventStore → Type 0
    IsAnswered id s =
        (s' : EventStore) × (sent : List StoredMcpEvent) × (replay_events_after c id s
          ≡ ok (s', sent, c.get_stream_key))
        × Answers s id sent

    behind-IsAnswered :
        (id : String) (later : List StoredMcpEvent) (s : EventStore) (l : EventLog)
        → Represents c max_events max_bytes event_prefix s l
        → All (IsChange c) later
        → replay_events_after c id s ≡ finish_replay c c.get_stream_key later true s
        → is_current c id s.events ≡ false
        → IsAnswered id s
    behind-IsAnswered id later s l r changes step behind =
        let (s', earlier, signal, done, signals, at) = finish_replay-sends later s l r changes in
        (
          s',
          earlier ++ signal ∷ [],
          step ∙ done,
          record {
            signals = signals;
            sends =
                inr (
                  behind,
                  record { earlier = earlier; signal = signal; ends = refl; numbered = at },
                );
          },
        )

    current-IsAnswered :
        (id : String) (s : EventStore)
        → replay_events_after c id s ≡ finish_replay c c.get_stream_key [] false s
        → is_current c id s.events ≡ true
        → IsAnswered id s
    current-IsAnswered id s step current = (
      s,
      [],
      step ∙ unfold finish_replay in refl,
      record { signals = tt; sends = inl (current, refl) },
    )

    known-IsAnswered :
        (id : String) (cursor : StoredMcpEvent) (later : List StoredMcpEvent) (s : EventStore)
        (l : EventLog)
        → Represents c max_events max_bytes event_prefix s l
        → All (IsChange c) s.events
        → find_cursor id s.events ≡ some (cursor, later)
        → IsAnswered id s
    unfolding is_current replay_events_after
    known-IsAnswered id cursor later s l r changes found =
        let (of_cursor, of_later) = find_cursor-IsChange c id s.events cursor later changes found in
        let known : is_current c id s.events ≡ (not (is_some cursor.message) && is_empty later) =
          rw (is_current, found) refl in
        elim (Bool-cases (is_some cursor.message || not (is_empty later))) [
          | inl required ↦
              behind-IsAnswered id later s l r of_later
                (rw (replay_events_after, found, required, of_cursor.0) refl)
                (ground (arith, known))
          | inr up_to_date ↦
              let none_later : later ≡ [] = is_empty-nil later (ground arith) in
              current-IsAnswered id s
                (rw (replay_events_after, found, up_to_date, of_cursor.0, none_later) refl)
                (ground (arith, known))
        ]

  -- However many events were stored and replayed before, and whatever cursor a client presents, the
  -- replay returns, on the standalone stream. It sends nothing exactly when the cursor is the newest
  -- event that the store holds and carries no change; else the last event that it sends has a fresh
  -- ID. Each event that it sends says that the tool list changed, and nothing else.
  pub replay_events_after-Answers :
      (max_events max_bytes : ℕ) (drawn : String) (calls : List Call) (id : String) (s : EventStore)
      → run c (started max_events max_bytes drawn) calls ≡ ok s
      → (s' : EventStore) × (sent : List StoredMcpEvent) × (replay_events_after c id s
          ≡ ok (s', sent, c.get_stream_key))
        × Answers s id sent
  unfolding is_current replay_events_after
  replay_events_after-Answers max_events max_bytes drawn calls id s ran =
      let (t, ran', r') = run_refines c max_events max_bytes drawn calls in
      let same : t ≡ s = cc in
      let l = log_run c max_events max_bytes drawn empty_log calls in
      let r : Represents c max_events max_bytes drawn s l = rw (← same) r' in
      let changes : All (IsChange c) s.events = rw r.window (
        All-newest max_events max_bytes (IsChange c) l.entries
          (log_run-IsChange c max_events max_bytes drawn calls empty_log tt)) in
      elim (Option-cases (find_cursor id s.events)) [
        | inl gone ↦
            behind-IsAnswered max_events max_bytes drawn id [] s l r tt
              (rw (replay_events_after, gone) refl) (rw (is_current, gone) refl)
        | inr ((cursor, later), found) ↦
            known-IsAnswered max_events max_bytes drawn id cursor later s l r changes found
      ]
