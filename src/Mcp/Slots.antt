-- ===== src/Mcp/Slots.antt =====
-- The session slots of `_BoundedHttpMessageMiddleware` in hub/src/goffy_hub/mcp_server.py: active
-- sessions with the time of their last activity, open streams, and reservations for sessions that
-- are being set up. Each method is one step under the lock. Times are whole milliseconds; a count
-- of streams that would fall to 0 or below is removed.
pub mod Invariant
pub mod Pruning
use goffy_os.Prelude.{
  ℕ, ◌+◌, ◌-◌, String, Bool, true, false, not, ◌&&◌, Option, none, some, List, [], ◌∷◌, ltb, leb,
  length, string_eq, ◌==◌, if◌then◌else◌,
}
use goffy_os.Prelude.Dict.{Dict, get, put, remove, remove_all, has}

pub record Limits : Type 0 where
  pub max_message_bytes : ℕ
  pub max_active_sessions : ℕ
  pub session_idle_timeout : ℕ

pub record Slots : Type 0 where
  pub active_sessions : Dict String ℕ
  pub streaming_session_counts : Dict String ℕ
  pub pending_sessions : ℕ

abbrev pub no_slots : Slots
no_slots = record { active_sessions = []; streaming_session_counts = []; pending_sessions = 0 }

-- `last_activity <= cutoff and session_id not in self._streaming_session_counts`
unfoldable pub is_idle : Limits → ℕ → Dict String ℕ → String → ℕ → Bool
is_idle limits now streaming session_id last_activity =
    leb (last_activity + limits.session_idle_timeout) now && not (has streaming session_id)

-- The list `expired` of `_prune_idle_sessions`
unfoldable pub expired : Limits → ℕ → Dict String ℕ → Dict String ℕ → List String
expired limits now streaming [] = []
expired limits now streaming ((session_id, last_activity) ∷ active) =
    let rest = expired limits now streaming active in
    if is_idle limits now streaming session_id last_activity then session_id ∷ rest else rest

unfoldable pub prune_idle_sessions : Limits → ℕ → Slots → Slots
prune_idle_sessions limits now s = record s {
  active_sessions =
      remove_all s.active_sessions
        (expired limits now s.streaming_session_counts s.active_sessions);
}

unfoldable pub reserve_session_slot : Limits → ℕ → Slots → Slots × Bool
reserve_session_slot limits now s =
    let s' = prune_idle_sessions limits now s in
    if leb limits.max_active_sessions (length s'.active_sessions + s'.pending_sessions)
    then (s', false)
    else (record s' { pending_sessions = s'.pending_sessions + 1 }, true)

unfoldable pub release_session_reservation : Slots → Slots
release_session_reservation s = record s { pending_sessions = s.pending_sessions - 1 }

unfoldable pub complete_session_reservation : ℕ → Option String → Slots → Slots
complete_session_reservation now session_id s = elim session_id [
  | none ↦ release_session_reservation s
  | some id ↦ record s {
    active_sessions = put s.active_sessions id now;
    pending_sessions = s.pending_sessions - 1;
  }
]

unfoldable pub touch_session : ℕ → String → Slots → Slots
touch_session now session_id s =
    if has s.active_sessions session_id
    then record s { active_sessions = put s.active_sessions session_id now }
    else s

unfoldable pub remove_session : String → Slots → Slots
remove_session session_id s = record s {
  active_sessions = remove s.active_sessions session_id;
  streaming_session_counts = remove s.streaming_session_counts session_id;
}

unfoldable pub remove_sessions : List String → Slots → Slots
remove_sessions session_ids s = record s {
  active_sessions = remove_all s.active_sessions session_ids;
  streaming_session_counts = remove_all s.streaming_session_counts session_ids;
}

-- self._streaming_session_counts.get(session_id, 0)
unfoldable pub stream_count : Slots → String → ℕ
stream_count s session_id = elim (get s.streaming_session_counts session_id) [
  | none ↦ 0
  | some n ↦ n
]

-- `_mark_session_streaming` with the increment 1
unfoldable pub open_stream : String → Slots → Slots
open_stream session_id s = record s {
  streaming_session_counts =
      put s.streaming_session_counts session_id (stream_count s session_id + 1);
}

-- `_mark_session_streaming` with the increment -1
unfoldable pub close_stream : String → Slots → Slots
close_stream session_id s = record s {
  streaming_session_counts =
      if ltb 1 (stream_count s session_id)
      then put s.streaming_session_counts session_id (stream_count s session_id - 1)
      else remove s.streaming_session_counts session_id;
}
