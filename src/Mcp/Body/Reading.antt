-- ===== src/Mcp/Body/Reading.antt =====
-- When `_read_request_body` of mcp_server.py returns a body.
use goffy_os.Prelude.{
  ℕ, ◌+◌, ◌≤◌, String, ◌≡◌, ◌↔◌, ◌∙◌, refl, true, false, Option, none, some, List, [], ◌∷◌, ◌++◌,
  arith, length, length-append, Option-cases, inl, inr,
}
use mathlib.Core.List.{append_assoc}
use goffy_os.Approval.{Bytes}
use goffy_os.Mcp.Body.{
  HttpCodec, ParsedInt, natural, negative, not_an_int, ReceiveMessage, http_request,
  http_disconnect, other_message, complete, check_content_length, read_chunks, read_request_body,
}

-- The messages begin with the pieces of a body, all of which but the last announce more.
pub data Delivers : List ReceiveMessage → Bytes → Type 0 where
  last :
      (chunk : Bytes) (rest : List ReceiveMessage)
      → Delivers (http_request chunk false ∷ rest) chunk
  more :
      (chunk : Bytes) {body : Bytes} {rest : List ReceiveMessage}
      → Delivers rest body
      → Delivers (http_request chunk true ∷ rest) (chunk ++ body)

-- There is no Content-Length, or it is a number within the limit.
abbrev pub DeclaresAtMost : ℕ → HttpCodec → Option String → Type 0
DeclaresAtMost limit h none = Unit
DeclaresAtMost limit h (some content_length) =
    (n : ℕ) × (h.parse_int content_length ≡ natural n) × (n ≤ limit)

module _ (limit : ℕ) where
  declared_iff :
      (h : HttpCodec) (declared : String) (parsed : ParsedInt)
      → h.parse_int declared ≡ parsed
      → (check_content_length limit h (some declared) ≡ none)
        ↔ DeclaresAtMost limit h (some declared)
  unfolding check_content_length
  declared_iff h declared not_an_int at =
      (λ passed. absurd (ground arith), λ (n, is_n, small). absurd (ground arith))
  declared_iff h declared negative at =
      (λ passed. absurd (ground arith), λ (n, is_n, small). absurd (ground arith))
  declared_iff h declared (natural n) at =
      (λ passed. (n, at, ground arith), λ (k, is_k, small). ground arith)

  check_content_length_iff :
      (h : HttpCodec) (content_length : Option String)
      → (check_content_length limit h content_length ≡ none) ↔ DeclaresAtMost limit h content_length
  unfolding check_content_length
  check_content_length_iff h none = (λ _. tt, λ _. refl)
  check_content_length_iff h (some declared) = declared_iff h declared (h.parse_int declared) refl

  read_chunks-Delivers :
      (sofar : Bytes) (messages : List ReceiveMessage) (result : Bytes)
      → read_chunks limit sofar messages ≡ complete result
      → (body : Bytes) × Delivers messages body × (result ≡ sofar ++ body) × (length result ≤ limit)
  unfolding read_chunks
  read_chunks-Delivers sofar [] result h = cc
  read_chunks-Delivers sofar (http_disconnect ∷ messages) result h = cc
  read_chunks-Delivers sofar (other_message ∷ messages) result h = cc
  read_chunks-Delivers sofar (http_request chunk false ∷ messages) result h =
      (chunk, last chunk messages, ground arith, ground arith)
  read_chunks-Delivers sofar (http_request chunk true ∷ messages) result h =
      let (body, d, same, small) =
        read_chunks-Delivers (sofar ++ chunk) messages result (ground arith) in
      (chunk ++ body, more chunk d, same ∙ append_assoc sofar chunk body, small)

  Delivers-read_chunks :
      (sofar : Bytes) {messages : List ReceiveMessage} {body : Bytes}
      → Delivers messages body
      → length sofar + length body ≤ limit
      → read_chunks limit sofar messages ≡ complete (sofar ++ body)
  unfolding read_chunks
  Delivers-read_chunks sofar (last chunk rest) small = ground (arith, length-append sofar chunk)
  Delivers-read_chunks sofar (more chunk {body} {rest} d) small = ground (
    arith,
    length-append sofar chunk,
    length-append chunk body,
    Delivers-read_chunks (sofar ++ chunk) d,
    append_assoc sofar chunk body,
  )

  -- A body is returned exactly when the header Content-Length is missing or a number within the
  -- limit, the messages deliver this body, and it is itself within the limit.
  pub read_request_body_iff :
      (h : HttpCodec) (content_length : Option String) (messages : List ReceiveMessage)
      (body : Bytes)
      → (read_request_body limit h content_length messages ≡ complete body)
        ↔ (DeclaresAtMost limit h content_length × Delivers messages body × (length body ≤ limit))
  unfolding read_request_body
  read_request_body_iff h content_length messages body = (
    λ returned. elim (Option-cases (check_content_length limit h content_length)) [
      | inr (e, bad) ↦ absurd (ground arith)
      | inl good ↦
          let (delivered, d, same, small) = read_chunks-Delivers [] messages body (ground arith) in
          ((check_content_length_iff h content_length).0 good, rw same d, small)
    ],
    λ (declared, d, small).
        rw (read_request_body, (check_content_length_iff h content_length).1 declared)
          (Delivers-read_chunks [] d (omega arith)),
  )
