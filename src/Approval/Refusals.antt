-- ===== src/Approval/Refusals.antt =====
-- The error codes of `consume` of approval.py, which the endpoint reads to tell a refusal by the
-- user from a bad answer.
use goffy_os.Prelude.{
  ℕ, String, ◌≡◌, Bool, false, Option, none, some, arith, Option-cases, inl, inr, string_eq, nat_eq,
}
use goffy_os.Prelude.Result.{raise, Result-cases}
use goffy_os.Protocol.{
  Uuid, is_denied, ApprovalProofPayload, ApprovalResponsePayload, ToolInvocationPayload,
}
use goffy_os.Approval.{
  Bytes, Crypto, ApprovalError, IssuedApprovalRecord, validate, check_proof,
  verify_approval_response_proof,
}
use goffy_os.Approval.Consuming.{accepts}

module _ (c : Crypto) (r : IssuedApprovalRecord) where
  check_proof-not_denied :
      (approved : Bool) (credential_id : Uuid) (der : Bytes) (proof : ApprovalProofPayload)
      (e : ApprovalError)
      → check_proof c r approved credential_id der proof ≡ raise e
      → is_denied e.code ≡ false
  unfolding check_proof is_denied
  check_proof-not_denied approved credential_id der proof e h =
      elim (Option-cases (c.load_der_public_key der)) [
        | inl bad ↦ ground arith
        | inr (key, loaded) ↦ elim (Option-cases (c.b64decode proof.signature_base64)) [
          | inl bad ↦ ground arith
          | inr (signature, decoded) ↦ ground arith
        ]
      ]

  verify-not_denied :
      (response : ApprovalResponsePayload) (credential_id : Option Uuid) (der : Option Bytes)
      (e : ApprovalError)
      → verify_approval_response_proof c r response credential_id der ≡ raise e
      → is_denied e.code ≡ false
  unfolding verify_approval_response_proof is_denied
  verify-not_denied response (some id) (some der) e h = elim (Option-cases response.proof) [
    | inl missing ↦ ground arith
    | inr (proof, given) ↦ check_proof-not_denied response.approved id der proof e (ground arith)
  ]
  verify-not_denied response (some id) none e h = ground arith
  verify-not_denied response none der e h = ground arith

  -- No check of an answer fails with the code of a refusal.
  pub accepts-not_denied :
      (now : ℕ) (key : String) (response : ApprovalResponsePayload)
      (invocation : ToolInvocationPayload) (credential_id : Option Uuid) (der : Option Bytes)
      (e : ApprovalError)
      → accepts c now r key response invocation credential_id der ≡ raise e
      → is_denied e.code ≡ false
  unfolding validate is_denied
  accepts-not_denied now key response invocation credential_id der e h =
      elim (Result-cases (verify_approval_response_proof c r response credential_id der)) [
        | inl (x, fine) ↦ ground arith
        | inr (f, bad) ↦ ground (arith, verify-not_denied response credential_id der f bad)
      ]
