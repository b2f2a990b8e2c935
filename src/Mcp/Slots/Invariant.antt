-- ===== src/Mcp/Slots/Invariant.antt =====
-- What each step of the session slots of mcp_server.py does to the number of slots that are taken.
use goffy_os.Prelude.{
  ℕ, ◌+◌, ◌≤◌, String, ◌≡◌, refl, true, Option, none, some, List, arith, length, string_eq,
  if◌then◌else◌,
}
use goffy_os.Prelude.Dict.{length-put, length-remove-le, length-remove_all-le}
use goffy_os.Mcp.Slots.{
  Limits, Slots, expired, prune_idle_sessions, reserve_session_slot, release_session_reservation,
  complete_session_reservation, touch_session, remove_session, remove_sessions, open_stream,
  close_stream,
}

-- The slots that are taken
abbrev pub taken : Slots → ℕ
taken s = length s.active_sessions + s.pending_sessions

-- From `s` to `s'` no slot is added and the reservations stay.
abbrev pub Frees : Slots → Slots → Type 0
Frees s s' =
    (length s'.active_sessions ≤ length s.active_sessions)
    × (s'.pending_sessions ≡ s.pending_sessions)

pub prune_idle_sessions-Frees :
    (limits : Limits) (now : ℕ) (s : Slots) → Frees s (prune_idle_sessions limits now s)
unfolding prune_idle_sessions
prune_idle_sessions-Frees limits now s = (
  length-remove_all-le s.active_sessions
      (expired limits now s.streaming_session_counts s.active_sessions),
  refl,
)

pub touch_session-Frees : (now : ℕ) (id : String) (s : Slots) → Frees s (touch_session now id s)
unfolding touch_session
touch_session-Frees now id s = ground (arith, length-put s.active_sessions id now)

pub remove_session-Frees : (id : String) (s : Slots) → Frees s (remove_session id s)
unfolding remove_session
remove_session-Frees id s = (length-remove-le s.active_sessions id, refl)

pub remove_sessions-Frees : (ids : List String) (s : Slots) → Frees s (remove_sessions ids s)
unfolding remove_sessions
remove_sessions-Frees ids s = (length-remove_all-le s.active_sessions ids, refl)

pub open_stream-Frees : (id : String) (s : Slots) → Frees s (open_stream id s)
unfolding open_stream
open_stream-Frees id s = omega arith

pub close_stream-Frees : (id : String) (s : Slots) → Frees s (close_stream id s)
unfolding close_stream
close_stream-Frees id s = omega arith

-- A granted reservation takes one slot, within the limit; a refused one takes none.
pub reserve_session_slot_lem :
    (limits : Limits) (now : ℕ) (s : Slots)
    → let (s', granted) = reserve_session_slot limits now s in
      (length s'.active_sessions ≤ length s.active_sessions)
      × (s'.pending_sessions ≡ (if granted then s.pending_sessions + 1 else s.pending_sessions))
      × (granted ≡ true → taken s' ≤ limits.max_active_sessions)
unfolding reserve_session_slot
reserve_session_slot_lem limits now s = ground (arith, prune_idle_sessions-Frees limits now s)

-- The end of a reservation gives its slot back or passes it on.
pub complete_session_reservation_lem :
    (now : ℕ) (id : Option String) (s : Slots)
    → 1 ≤ s.pending_sessions
    → let s' = complete_session_reservation now id s in
      (taken s' ≤ taken s) × (s'.pending_sessions + 1 ≡ s.pending_sessions)
unfolding complete_session_reservation release_session_reservation
complete_session_reservation_lem now none s held = ground arith
complete_session_reservation_lem now (some id) s held =
    ground (arith, length-put s.active_sessions id now)

pub release_session_reservation_lem :
    (s : Slots)
    → 1 ≤ s.pending_sessions
    → let s' = release_session_reservation s in
      (taken s' ≤ taken s) × (s'.pending_sessions + 1 ≡ s.pending_sessions)
unfolding release_session_reservation
release_session_reservation_lem s held = ground arith
