-- ===== src/Mcp/Body/Lifecycle.antt =====
-- Which requests pass `_validate_lifecycle_request` of mcp_server.py.
use goffy_os.Prelude.{
  String, ◌≡◌, ◌↔◌, refl, ap, Option, none, some, arith, is_none, Option-cases, inl, inr, string_eq,
}
use goffy_os.Approval.{Bytes}
use goffy_os.Protocol.Values.{Json, Fields, null, bool, nat, number, text, array, object}
use goffy_os.Protocol.Schema.{field_get}
use goffy_os.Mcp.Body.{
  HttpCodec, is_initialize, check_lifecycle, check_method, check_payload,
  validate_lifecycle_request,
}

-- What a JSON value says as a method: a text, or nothing for `null` and a missing field.
abbrev SaysMethod : Option Json → Option String → Type 0
SaysMethod none method = method ≡ none
SaysMethod (some null) method = method ≡ none
SaysMethod (some (text name)) method = method ≡ some name
SaysMethod (some _) method = ⊥

-- The body is an object with this method.
pub record IsCall (h : HttpCodec) (body : Bytes) (method : Option String) : Type 0 where
  pub fields : Fields
  pub parsed : h.loads body ≡ some (object fields)
  pub says : SaysMethod (field_get fields "method") method

module _ (session_id method : Option String) where
  check_method_iff :
      (given : Option Json)
      → check_method session_id given ≡ (method, none)
      → SaysMethod given method × (is_initialize method ≡ is_none session_id)
  unfolding check_method check_lifecycle
  check_method_iff none passed = ground arith
  check_method_iff (some null) passed = ground arith
  check_method_iff (some (text name)) passed = ground arith
  check_method_iff (some (bool b)) passed = absurd (ground arith)
  check_method_iff (some (nat n)) passed = absurd (ground arith)
  check_method_iff (some (number n)) passed = absurd (ground arith)
  check_method_iff (some (array items)) passed = absurd (ground arith)
  check_method_iff (some (object fields)) passed = absurd (ground arith)

  check_method-passes :
      (given : Option Json)
      → SaysMethod given method
      → is_initialize method ≡ is_none session_id
      → check_method session_id given ≡ (method, none)
  unfolding check_method check_lifecycle
  check_method-passes none says fitting = ground arith
  check_method-passes (some null) says fitting = ground arith
  check_method-passes (some (text name)) says fitting = ground arith
  check_method-passes (some (bool b)) says fitting = absurd says
  check_method-passes (some (nat n)) says fitting = absurd says
  check_method-passes (some (number n)) says fitting = absurd says
  check_method-passes (some (array items)) says fitting = absurd says
  check_method-passes (some (object fields)) says fitting = absurd says

  check_payload_iff :
      (payload : Json)
      → check_payload session_id payload ≡ (method, none)
      → (fields : Fields) × (payload ≡ object fields)
        × SaysMethod (field_get fields "method") method
        × (is_initialize method ≡ is_none session_id)
  unfolding check_payload
  check_payload_iff (object fields) passed =
      let (says, fitting) = check_method_iff (field_get fields "method") passed in
      (fields, refl, says, fitting)
  check_payload_iff null passed = absurd (ground arith)
  check_payload_iff (bool b) passed = absurd (ground arith)
  check_payload_iff (nat n) passed = absurd (ground arith)
  check_payload_iff (number n) passed = absurd (ground arith)
  check_payload_iff (text t) passed = absurd (ground arith)
  check_payload_iff (array items) passed = absurd (ground arith)

module _ (h : HttpCodec) (session_id : Option String) (body : Bytes) (method : Option String) where
  -- A request passes with a method exactly when its body is an object that says this method, and it
  -- either begins a session, being `initialize` without a session ID, or belongs to one, being
  -- anything else with a session ID.
  pub validate_lifecycle_request_iff :
      (validate_lifecycle_request h session_id body ≡ (method, none))
      ↔ (IsCall h body method × (is_initialize method ≡ is_none session_id))
  unfolding validate_lifecycle_request
  validate_lifecycle_request_iff = (
    λ passed. elim (Option-cases (h.loads body)) [
      | inl bad ↦ absurd (ground arith)
      | inr (payload, parsed) ↦
          let (fields, is_object, says, fitting) =
            check_payload_iff session_id method payload (ground arith) in
          (record { fields = fields; parsed = rw parsed (ap some is_object); says = says }, fitting)
    ],
    λ (call, fitting).
        rw (validate_lifecycle_request, call.parsed)
          (unfold check_payload in
            check_method-passes session_id method (field_get call.fields "method") call.says
              fitting),
  )
