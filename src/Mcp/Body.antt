-- ===== src/Mcp/Body.antt =====
-- How `_BoundedHttpMessageMiddleware` of hub/src/goffy_hub/mcp_server.py reads the body of a POST
-- (`_read_request_body`) and checks it against the life cycle of a session
-- (`_validate_lifecycle_request`). The messages of the server come as the list that `receive` will
-- return; where the list ends, the request is still waiting.
pub mod Reading
pub mod Lifecycle
use goffy_os.Prelude.{
  ℕ, String, Bool, true, false, not, ◌&&◌, Option, none, some, List, [], ◌∷◌, ◌++◌, ltb, length,
  is_some, is_none, string_eq, ◌==◌, if◌then◌else◌,
}
use goffy_os.Approval.{Bytes}
use goffy_os.Protocol.Values.{Json, null, bool, nat, number, text, array, object}
use goffy_os.Protocol.Schema.{field_get}

-- `int(content_length)`: a `ValueError`, a number below 0, or a number
pub data ParsedInt : Type 0 where
  not_an_int negative : ParsedInt
  natural : ℕ → ParsedInt

-- Python's `int` and `json.loads`; `none` is a `UnicodeDecodeError` or a `JSONDecodeError`.
pub record HttpCodec : Type 0 where
  pub parse_int : String → ParsedInt
  pub loads : Bytes → Option Json

-- What `receive` returns: a piece of the body and whether there is more, or another message.
pub data ReceiveMessage : Type 0 where
  http_request : Bytes → Bool → ReceiveMessage
  http_disconnect other_message : ReceiveMessage

-- A response of the middleware itself: a status and a code.
pub record ErrorResponse : Type 0 where
  pub status : ℕ
  pub error : String

abbrev pub error_response : ℕ → String → ErrorResponse
error_response status error = record { status = status; error = error }

pub data BodyResult : Type 0 where
  complete : Bytes → BodyResult
  refused : ErrorResponse → BodyResult
  disconnected waiting : BodyResult

module _ (max_message_bytes : ℕ) where
  -- The checks of the header Content-Length: `none` lets the request pass.
  unfoldable pub check_content_length : HttpCodec → Option String → Option ErrorResponse
  check_content_length h none = none
  check_content_length h (some content_length) = elim (h.parse_int content_length) [
    | not_an_int ↦ some (error_response 400 "invalid_content_length")
    | negative ↦ some (error_response 400 "invalid_content_length")
    | natural declared_length ↦
        if ltb max_message_bytes declared_length
        then some (error_response 413 "request_too_large")
        else none
  ]

  -- The loop over `receive`, with the bytes that it has
  unfoldable pub read_chunks : Bytes → List ReceiveMessage → BodyResult
  read_chunks body [] = waiting
  read_chunks body (http_disconnect ∷ messages) = disconnected
  read_chunks body (other_message ∷ messages) = refused (error_response 400 "invalid_http_body")
  read_chunks body (http_request chunk more_body ∷ messages) =
      let body' = body ++ chunk in
      let rest = read_chunks body' messages in
      if ltb max_message_bytes (length body')
      then refused (error_response 413 "request_too_large")
      else if not more_body
      then complete body'
      else rest

  -- `_read_request_body`
  unfoldable pub read_request_body : HttpCodec → Option String → List ReceiveMessage → BodyResult
  read_request_body h content_length messages = elim (check_content_length h content_length) [
    | some e ↦ refused e
    | none ↦ read_chunks [] messages
  ]

abbrev pub is_initialize : Option String → Bool
is_initialize none = false
is_initialize (some method) = method == "initialize"

-- What `_validate_lifecycle_request` goes on with once it has the method
unfoldable pub check_lifecycle :
    Option String → Option String → Option String × Option ErrorResponse
check_lifecycle session_id method =
    if is_initialize method && is_some session_id
    then (method, some (error_response 400 "session_already_initialized"))
    else if is_none session_id && not (is_initialize method)
    then (method, some (error_response 400 "mcp_session_required"))
    else (method, none)

abbrev invalid_request : Option String × Option ErrorResponse
invalid_request = (none, some (error_response 400 "invalid_request"))

-- payload.get("method")
unfoldable pub check_method : Option String → Option Json → Option String × Option ErrorResponse
check_method session_id none = check_lifecycle session_id none
check_method session_id (some null) = check_lifecycle session_id none
check_method session_id (some (text method)) = check_lifecycle session_id (some method)
check_method session_id (some _) = invalid_request

-- `isinstance(payload, dict)`
unfoldable pub check_payload : Option String → Json → Option String × Option ErrorResponse
check_payload session_id (object fields) = check_method session_id (field_get fields "method")
check_payload session_id _ = invalid_request

-- `_validate_lifecycle_request`: the method, and the response that refuses the request.
unfoldable pub validate_lifecycle_request :
    HttpCodec → Option String → Bytes → Option String × Option ErrorResponse
validate_lifecycle_request h session_id body = elim (h.loads body) [
  | none ↦ invalid_request
  | some payload ↦ check_payload session_id payload
]
