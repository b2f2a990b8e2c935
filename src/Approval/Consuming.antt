-- ===== src/Approval/Consuming.antt =====
-- When `consume` of approval.py lets an action through, and what it leaves pending.
use goffy_os.Prelude.{
  ℕ, ◌<◌, ◌≤◌, String, ◌≡◌, refl, Bool, true, Option, none, some, arith, eq_iff, length,
  Option-cases, inl, inr, string_eq, nat_eq,
}
use goffy_os.Prelude.Result.{Result, ok, ◌>>◌}
use goffy_os.Protocol.{
  Uuid, ApprovalProofPayload, ApprovalResponsePayload, ToolInvocationPayload,
  approval_proof_schema_version, approval_proof_algorithm,
}
use goffy_os.Approval.{
  Bytes, Crypto, PublicKey, secp256r1, ApprovalError, IssuedApprovalRecord, validate,
  canonical_arguments_sha256, check_proof, verify_approval_response_proof, approval_signing_payload,
  max_approval_signature_bytes, min_approval_public_key_der_bytes,
  max_approval_public_key_der_bytes,
}

module _ (c : Crypto) where
  -- The proof is a signature of exactly this record and this answer, by the P-256 key of the
  -- paired device.
  pub record IsSigned (r : IssuedApprovalRecord) (approved : Bool) (credential_id : Uuid)
      (der : Bytes) (proof : ApprovalProofPayload) : Type 0 where
    pub schema : proof.schema_version ≡ approval_proof_schema_version
    pub algorithm : proof.algorithm ≡ approval_proof_algorithm
    pub short_key : length der ≤ max_approval_public_key_der_bytes
    pub long_key : min_approval_public_key_der_bytes ≤ length der
    pub key : PublicKey
    pub loaded : c.load_der_public_key der ≡ some key
    pub curve : key.kind ≡ secp256r1
    pub key_hash : proof.public_key_sha256 ≡ c.sha256_hex der
    pub signature : Bytes
    pub decoded : c.b64decode proof.signature_base64 ≡ some signature
    pub nonempty : 1 ≤ length signature
    pub short : length signature ≤ max_approval_signature_bytes
    pub verified :
        c.verify key signature (approval_signing_payload c r credential_id approved) ≡ true

  check_proof-IsSigned :
      (r : IssuedApprovalRecord) (approved : Bool) (credential_id : Uuid) (der : Bytes)
      (proof : ApprovalProofPayload)
      → check_proof c r approved credential_id der proof ≡ ok tt
      → IsSigned r approved credential_id der proof
  unfolding check_proof
  check_proof-IsSigned r approved credential_id der proof h =
      elim (Option-cases (c.load_der_public_key der)) [
        | inl bad ↦ absurd (ground (arith))
        | inr (key, loaded) ↦ elim (Option-cases (c.b64decode proof.signature_base64)) [
          | inl bad ↦ absurd (ground (arith))
          | inr (signature, decoded) ↦ record {
            schema = ground (arith, eq_iff proof.schema_version approval_proof_schema_version);
            algorithm = ground (arith, eq_iff proof.algorithm approval_proof_algorithm);
            short_key = ground arith;
            long_key = ground arith;
            key = key;
            loaded = loaded;
            curve = ground arith;
            key_hash = ground (arith, eq_iff proof.public_key_sha256 (c.sha256_hex der));
            signature = signature;
            decoded = decoded;
            nonempty = ground arith;
            short = ground arith;
            verified = ground arith;
          }
        ]
      ]

  IsSigned-check_proof :
      (r : IssuedApprovalRecord) (approved : Bool) (credential_id : Uuid) (der : Bytes)
      (proof : ApprovalProofPayload)
      → IsSigned r approved credential_id der proof
      → check_proof c r approved credential_id der proof ≡ ok tt
  unfolding check_proof
  IsSigned-check_proof r approved credential_id der proof h = ground (
    arith,
    eq_iff proof.schema_version approval_proof_schema_version,
    eq_iff proof.algorithm approval_proof_algorithm,
    eq_iff proof.public_key_sha256 (c.sha256_hex der),
  )

  -- The answer is about this very request, and comes in time from the principal that asked, with
  -- the signature of its device.
  pub record IsAuthorized (now : ℕ) (r : IssuedApprovalRecord) (principal_key : String)
      (response : ApprovalResponsePayload) (invocation : ToolInvocationPayload)
      (credential_id : Option Uuid) (der : Option Bytes) : Type 0 where
    pub principal : r.principal_key ≡ principal_key
    pub answered : r.task_id ≡ response.task_id
    pub task : invocation.task_id ≡ some r.task_id
    pub tool : r.tool_name ≡ invocation.tool_name
    pub arguments : r.arguments_sha256 ≡ canonical_arguments_sha256 c invocation.arguments
    pub fresh : now < r.expires_at_epoch_millis
    pub credential : Uuid
    pub is_credential : credential_id ≡ some credential
    pub key_bytes : Bytes
    pub is_key : der ≡ some key_bytes
    pub proof : ApprovalProofPayload
    pub is_proof : response.proof ≡ some proof
    pub signed : IsSigned r response.approved credential key_bytes proof

  -- Both checks that `consume` makes of a pending record.
  abbrev pub accepts :
      ℕ
      → IssuedApprovalRecord
      → String
      → ApprovalResponsePayload
      → ToolInvocationPayload
      → Option Uuid
      → Option Bytes
      → Result ApprovalError (Unit {0})
  accepts now r principal_key response invocation credential_id der =
      validate c now r principal_key response invocation
      >> verify_approval_response_proof c r response credential_id der

  module _ (now : ℕ) (r : IssuedApprovalRecord) (principal_key : String)
      (response : ApprovalResponsePayload) (invocation : ToolInvocationPayload) where
    pub accepts-IsAuthorized :
        (credential_id : Option Uuid) (der : Option Bytes)
        → accepts now r principal_key response invocation credential_id der ≡ ok tt
        → IsAuthorized now r principal_key response invocation credential_id der
    unfolding validate verify_approval_response_proof
    accepts-IsAuthorized (some credential) (some key_bytes) h = elim (Option-cases response.proof) [
      | inl missing ↦ absurd (ground arith)
      | inr (proof, is_proof) ↦ record {
        principal = ground (arith, eq_iff r.principal_key principal_key);
        answered = ground arith;
        task = ground arith;
        tool = ground (arith, eq_iff r.tool_name invocation.tool_name);
        arguments =
            ground (
              arith,
              eq_iff r.arguments_sha256 (canonical_arguments_sha256 c invocation.arguments),
            );
        fresh = ground arith;
        credential = credential;
        is_credential = refl;
        key_bytes = key_bytes;
        is_key = refl;
        proof = proof;
        is_proof = is_proof;
        signed = check_proof-IsSigned r response.approved credential key_bytes proof (ground arith);
      }
    ]
    accepts-IsAuthorized (some credential) none h = absurd (ground arith)
    accepts-IsAuthorized none der h = absurd (ground arith)

    pub IsAuthorized-accepts :
        (credential_id : Option Uuid) (der : Option Bytes)
        → IsAuthorized now r principal_key response invocation credential_id der
        → accepts now r principal_key response invocation credential_id der ≡ ok tt
    unfolding validate verify_approval_response_proof
    IsAuthorized-accepts credential_id der h =
        rw (h.is_credential, h.is_key)
          (ground (
            arith,
            eq_iff r.principal_key principal_key,
            eq_iff r.tool_name invocation.tool_name,
            eq_iff r.arguments_sha256 (canonical_arguments_sha256 c invocation.arguments),
            IsSigned-check_proof r response.approved h.credential h.key_bytes h.proof h.signed,
          ))
