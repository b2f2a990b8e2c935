-- ===== src/Mcp/Requests.antt =====
-- `_BoundedHttpMessageMiddleware.__call__` of hub/src/goffy_hub/mcp_server.py as a machine that
-- moves between awaits: one request is a phase, and a system has many of them in turn on the same
-- session slots. What the wrapped application answers, the clock and whether the session manager
-- has let go of a session come with each move. The application acts on the slots only through
-- `remove_sessions`, which is an action of its own.

pub mod Moving
pub mod Bounded
use goffy_os.Prelude.{
  ℕ, ◌+◌, String, Bool, true, false, not, ◌&&◌, ◌||◌, Option, none, some, List, [], ◌∷◌, ◌++◌, zero,
  suc, ltb, length, is_some, is_none, nat_eq, string_eq, ◌==◌, ◌!=◌, if◌then◌else◌,
}
use goffy_os.Approval.{Bytes}
use goffy_os.Mcp.Body.{
  HttpCodec, ReceiveMessage, ErrorResponse, error_response, complete, refused, disconnected,
  waiting, is_initialize, read_request_body, validate_lifecycle_request,
}
use goffy_os.Mcp.Slots.{
  Limits, Slots, reserve_session_slot, release_session_reservation, complete_session_reservation,
  touch_session, remove_session, remove_sessions, open_stream, close_stream,
}

-- An ASGI message of a response. Names and values of headers are ASCII, and stand as texts.
pub data AsgiMessage : Type 0 where
  response_start : ℕ → List (String × String) → AsgiMessage
  response_body : Bytes → AsgiMessage
  other_event : AsgiMessage

-- What the wrapped application did: it sent these messages, or raised.
pub data AppOutcome : Type 0 where
  answered : List AsgiMessage → AppOutcome
  crashed : AppOutcome

pub record HttpRequest : Type 0 where
  pub method : String
  pub session_id : Option String
  pub content_length : Option String
  pub incoming : List ReceiveMessage

-- How a request ends: with the messages of the application, with a response of the middleware,
-- with an exception, with a client that has gone, or never, for want of a body.
pub data Reply : Type 0 where
  passed_on : List AsgiMessage → Reply
  rejected : ErrorResponse → Reply
  raised client_gone never : Reply

pub data Phase : Type 0 where
  entered reserving touching : HttpRequest → Phase
  opening : HttpRequest → String → Phase
  running : HttpRequest → Bool → Phase
  closing retouching : HttpRequest → String → AppOutcome → Phase
  releasing : HttpRequest → Phase
  completing cleaning : HttpRequest → List AsgiMessage → Phase
  removing : HttpRequest → String → List AsgiMessage → Phase
  done : HttpRequest → Reply → Phase

-- What a move may need from outside
pub record Tick : Type 0 where
  pub now : ℕ
  pub outcome : AppOutcome
  pub cleaned : Bool

-- `_response_status`
unfoldable pub response_status : List AsgiMessage → Option ℕ
response_status [] = none
response_status (response_start status headers ∷ messages) = some status
response_status (response_body body ∷ messages) = response_status messages
response_status (other_event ∷ messages) = response_status messages

-- `lower` is `bytes.lower`.
unfoldable pub find_header : (String → String) → String → List (String × String) → Option String
find_header lower name [] = none
find_header lower name ((header_name, value) ∷ headers) =
    if lower header_name == name then some value else find_header lower name headers

-- `_response_header`
unfoldable pub response_header : (String → String) → String → List AsgiMessage → Option String
response_header lower name [] = none
response_header lower name (response_start status headers ∷ messages) =
    let rest = response_header lower name messages in
    elim (find_header lower name headers) [ none ↦ rest | some value ↦ some value ]
response_header lower name (response_body body ∷ messages) = response_header lower name messages
response_header lower name (other_event ∷ messages) = response_header lower name messages

-- The bytes that `capture_send` counts
unfoldable pub response_bytes : List AsgiMessage → ℕ
response_bytes [] = 0
response_bytes (response_body body ∷ messages) = length body + response_bytes messages
response_bytes (response_start status headers ∷ messages) = response_bytes messages
response_bytes (other_event ∷ messages) = response_bytes messages

abbrev has_status : ℕ → List AsgiMessage → Bool
has_status status messages = elim (response_status messages) [ none ↦ false | some s ↦ s == status ]

-- The session that the end of a request may free: a DELETE that succeeded, or a session that is
-- not found. The two tests exclude each other, and an empty ID counts as none.
unfoldable pub session_to_clean : HttpRequest → List AsgiMessage → Option String
session_to_clean r messages = elim r.session_id [
  | none ↦ none
  | some id ↦
      if id != ""
        && ((r.method == "DELETE" && (has_status 200 messages || has_status 204 messages))
            || has_status 404 messages)
      then some id
      else none
]

unfoldable pub stream_to_clean : String → List AsgiMessage → Bool
stream_to_clean id messages = id != "" && has_status 404 messages

pub record System : Type 0 where
  pub slots : Slots
  pub requests : List Phase

-- One request that moves on, a request that arrives, or sessions that a revocation ends.
pub data Action : Type 0 where
  arrives : HttpRequest → Action
  moves : ℕ → Tick → Action
  terminates : List String → Action

module _ (limits : Limits) (h : HttpCodec) (lower : String → String) where
  -- Past the checks of the body
  unfoldable pub admit : HttpRequest → Phase
  admit r = if is_some r.session_id then touching r else running r false

  unfoldable pub check_body : HttpRequest → Phase
  unfolding admit
  check_body r = elim (read_request_body limits.max_message_bytes h r.content_length r.incoming) [
    | refused e ↦ done r (rejected e)
    | disconnected ↦ done r client_gone
    | waiting ↦ done r never
    | complete body ↦
        let (method, problem) = validate_lifecycle_request h r.session_id body in
        elim problem [
          | some e ↦ done r (rejected e)
          | none ↦ if is_initialize method && is_none r.session_id then reserving r else admit r
        ]
  ]

  -- The first checks of `__call__`
  unfoldable pub enter : HttpRequest → Phase
  unfolding admit
  enter r =
      if (r.method == "GET" || r.method == "DELETE") && is_none r.session_id
      then done r (rejected (error_response 400 "mcp_session_required"))
      else if r.method == "POST"
      then check_body r
      else admit r

  -- The accepted session of a response, for `_complete_session_reservation`
  unfoldable pub accepted_session_id : List AsgiMessage → Option String
  accepted_session_id messages =
      if has_status 200 messages then response_header lower "mcp-session-id" messages else none

  -- The response that goes out, now that all of it is there
  unfoldable pub finish : HttpRequest → List AsgiMessage → Phase
  finish r messages =
      if r.method != "GET" && ltb limits.max_message_bytes (response_bytes messages)
      then done r (rejected (error_response 500 "response_too_large"))
      else done r (passed_on messages)

  -- What follows once it is known which session may be freed, and whether it is
  unfoldable pub clean_up : HttpRequest → List AsgiMessage → Bool → Option String → Phase
  clean_up r messages cleaned none = finish r messages
  clean_up r messages cleaned (some id) =
      if cleaned then removing r id messages else finish r messages

  -- After the application
  unfoldable pub after_app : HttpRequest → Bool → AppOutcome → Phase
  after_app r reserved outcome =
      if r.method == "GET"
      then elim r.session_id [ some id ↦ closing r id outcome | none ↦ done r raised ]
      else elim outcome [
        | crashed ↦ if reserved then releasing r else done r raised
        | answered messages ↦ if reserved then completing r messages else cleaning r messages
      ]

  unfoldable pub advance : Tick → Slots → Phase → Slots × Phase
  advance tick s (entered r) = (s, enter r)
  advance tick s (reserving r) =
      let (s', granted) = reserve_session_slot limits tick.now s in
      (
        s',
        if granted
            then running r true
            else done r (rejected (error_response 503 "mcp_session_capacity_reached")),
      )
  advance tick s (touching r) = elim r.session_id [
    | none ↦ (s, running r false)
    | some id ↦
        (touch_session tick.now id s, if r.method == "GET" then opening r id else running r false)
  ]
  advance tick s (opening r id) = (open_stream id s, running r false)
  advance tick s (running r reserved) = (s, after_app r reserved tick.outcome)
  advance tick s (closing r id outcome) = (close_stream id s, retouching r id outcome)
  advance tick s (retouching r id outcome) = (
    touch_session tick.now id s,
    elim outcome [
      | crashed ↦ done r raised
      | answered messages ↦
          if stream_to_clean id messages && tick.cleaned
          then removing r id messages
          else finish r messages
    ],
  )
  advance tick s (releasing r) = (release_session_reservation s, done r raised)
  advance tick s (completing r messages) =
      (complete_session_reservation tick.now (accepted_session_id messages) s, cleaning r messages)
  advance tick s (cleaning r messages) =
      (s, clean_up r messages tick.cleaned (session_to_clean r messages))
  advance tick s (removing r id messages) = (remove_session id s, finish r messages)
  advance tick s (done r reply) = (s, done r reply)

  unfoldable pub advance_at : ℕ → Tick → Slots → List Phase → Slots × List Phase
  advance_at i tick s [] = (s, [])
  advance_at zero tick s (p ∷ ps) = let (s', p') = advance tick s p in (s', p' ∷ ps)
  advance_at (suc i) tick s (p ∷ ps) = let (s', ps') = advance_at i tick s ps in (s', p ∷ ps')

  unfoldable pub act : Action → System → System
  act (arrives r) y = record y { requests = y.requests ++ entered r ∷ [] }
  act (moves i tick) y =
      let (s', ps') = advance_at i tick y.slots y.requests in record { slots = s'; requests = ps' }
  act (terminates ids) y = record y { slots = remove_sessions ids y.slots }

  unfoldable pub act_all : List Action → System → System
  act_all [] y = y
  act_all (a ∷ rest) y = act_all rest (act a y)
