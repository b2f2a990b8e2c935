-- ===== src/Approval.antt =====
-- hub/src/goffy_hub/approval.py: the approval requests that the Hub issues for CONFIRM tools, and
-- the signed answers that consume them. A dictionary of pending records is the whole state; each
-- reading of the clock and each `uuid4()` is an argument.
pub mod Consuming
pub mod Invariant
pub mod Lifecycle
pub mod Refusals
pub mod Pending
pub mod Membership
pub mod Consumed
use goffy_os.Prelude.{
  ℕ, ◌+◌, String, Bool, true, false, not, ◌&&◌, Option, none, some, List, [], leb, length,
  if◌then◌else◌, ◌==◌, nat_eq, string_eq,
}
use goffy_os.Prelude.Result.{Result, ok, raise, ◌>>=◌, ◌>>◌, guard}
use goffy_os.Prelude.Dict.{Dict, get, put, remove, remove_all, keys_where}
use goffy_os.Protocol.{
  Uuid, ErrorCode, approval_required, approval_capacity_exceeded, approval_invalid, approval_denied,
  approval_expired, approval_proof_required, approval_proof_invalid, approval_public_key_invalid,
  ApprovalProofPayload, ApprovalResponsePayload, ApprovalRequestPayload, ToolInvocationPayload,
  approval_proof_schema_version, approval_proof_algorithm,
}
use goffy_os.Protocol.Values.{Json, bool, nat, text, object, end, field}

abbrev pub hub_approval_ttl_millis : ℕ
hub_approval_ttl_millis = 60000

abbrev pub max_pending_approvals : ℕ
max_pending_approvals = 1024

abbrev pub min_approval_public_key_der_bytes : ℕ
min_approval_public_key_der_bytes = 64

abbrev pub max_approval_public_key_der_bytes : ℕ
max_approval_public_key_der_bytes = 256

abbrev pub max_approval_signature_bytes : ℕ
max_approval_signature_bytes = 256

abbrev pub Bytes : Type 0
Bytes = List ℕ

-- `ApprovalValidationError`
pub record ApprovalError : Type 0 where
  pub code : ErrorCode
  pub message : String

-- What `isinstance` tells of a key that `load_der_public_key` returned.
pub data KeyKind : Type 0 where
  secp256r1 other_curve not_elliptic : KeyKind

pub record PublicKey : Type 0 where
  pub kind : KeyKind
  pub handle : ℕ

-- The standard library and `cryptography`, which the module calls: `none` is a `ValueError` or an
-- `UnsupportedAlgorithm`, and `verify` is false where `InvalidSignature` is raised.
pub record Crypto : Type 0 where
  pub uuid_text : Uuid → String
  pub dumps : Json → Bytes
  pub sha256_hex : Bytes → String
  pub load_der_public_key : Bytes → Option PublicKey
  pub b64decode : String → Option Bytes
  pub verify : PublicKey → Bytes → Bytes → Bool

pub record IssuedApprovalRecord : Type 0 where
  pub approval_id : Uuid
  pub principal_key : String
  pub task_id : Uuid
  pub tool_name : String
  pub arguments_sha256 : String
  pub issued_at_epoch_millis : ℕ
  pub expires_at_epoch_millis : ℕ

unfoldable pub to_payload : IssuedApprovalRecord → ApprovalRequestPayload
to_payload r = record {
  approval_id = r.approval_id;
  task_id = r.task_id;
  tool_name = r.tool_name;
  arguments_sha256 = r.arguments_sha256;
  issued_at_epoch_millis = r.issued_at_epoch_millis;
  expires_at_epoch_millis = r.expires_at_epoch_millis;
}

pub record ApprovalArtifactStore : Type 0 where
  pub pending_approvals : Dict Uuid IssuedApprovalRecord

abbrev pub empty_store : ApprovalArtifactStore
empty_store = record { pending_approvals = [] }

abbrev pub failing {ℓ} : {A : Type ℓ} → ErrorCode → String → Result ApprovalError A
failing code message = raise (record { code = code; message = message })

abbrev pub require : Bool → ErrorCode → String → Result ApprovalError (Unit {0})
require b code message = guard b (record { code = code; message = message })

-- `now >= record.expires_at_epoch_millis`
abbrev pub is_expired : ℕ → IssuedApprovalRecord → Bool
is_expired now r = leb r.expires_at_epoch_millis now

unfoldable pub prune_expired : ℕ → ApprovalArtifactStore → ApprovalArtifactStore
prune_expired now s = record {
  pending_approvals =
      remove_all s.pending_approvals (keys_where (is_expired now) s.pending_approvals);
}

unfoldable pub discard : Uuid → ApprovalArtifactStore → ApprovalArtifactStore
discard approval_id s = record { pending_approvals = remove s.pending_approvals approval_id }

module _ (c : Crypto) where
  unfoldable pub canonical_arguments_sha256 : Json → String
  canonical_arguments_sha256 arguments = c.sha256_hex (c.dumps arguments)

  is_p256 : PublicKey → Bool
  is_p256 key = elim key.kind [ secp256r1 ↦ true | other_curve ↦ false | not_elliptic ↦ false ]

  is_elliptic : PublicKey → Bool
  is_elliptic key = elim key.kind [ secp256r1 ↦ true | other_curve ↦ true | not_elliptic ↦ false ]

  unfoldable pub validate_approval_public_key_spki_der : Bytes → Result ApprovalError (Unit {0})
  unfolding is_p256
  validate_approval_public_key_spki_der der = do
    require
        (leb min_approval_public_key_der_bytes (length der)
          && leb (length der) max_approval_public_key_der_bytes)
        approval_public_key_invalid "Approval public key is outside the supported size range."
    elim (c.load_der_public_key der) [
      | none ↦ failing approval_public_key_invalid "Approval public key could not be decoded."
      | some key ↦
          require (is_p256 key) approval_public_key_invalid
            "Approval public key must be an ECDSA P-256 key."
    ]

  unfoldable pub approval_public_key_sha256 : Bytes → Result ApprovalError String
  unfolding validate_approval_public_key_spki_der
  approval_public_key_sha256 der = do
    validate_approval_public_key_spki_der der
    ok (c.sha256_hex der)

  unfoldable pub approval_signing_payload : IssuedApprovalRecord → Uuid → Bool → Bytes
  approval_signing_payload r credential_id approved = c.dumps (
      object (
        field "schemaVersion" (text "goffy.approval.signed-payload.v1") (
          field "approvalId" (text (c.uuid_text r.approval_id)) (
            field "taskId" (text (c.uuid_text r.task_id)) (
              field "credentialId" (text (c.uuid_text credential_id)) (
                field "toolName" (text r.tool_name) (
                  field "argumentsSha256" (text r.arguments_sha256) (
                    field "issuedAtEpochMillis" (nat r.issued_at_epoch_millis) (
                      field "expiresAtEpochMillis" (nat r.expires_at_epoch_millis)
                        (field "approved" (bool approved) end))))))))))

  -- The checks of a proof once both the key and the proof are there.
  unfoldable pub check_proof :
      IssuedApprovalRecord
      → Bool
      → Uuid
      → Bytes
      → ApprovalProofPayload
      → Result ApprovalError (Unit {0})
  unfolding approval_public_key_sha256 is_elliptic
  check_proof r approved credential_id der proof = do
    require
        (proof.schema_version == approval_proof_schema_version
          && proof.algorithm == approval_proof_algorithm)
        approval_proof_invalid "Approval proof metadata is invalid."
    expected_key_hash ← approval_public_key_sha256 der
    require (proof.public_key_sha256 == expected_key_hash) approval_proof_invalid
        "Approval proof key does not match this paired credential."
    signature ← elim (c.b64decode proof.signature_base64) [
      | none ↦ failing approval_proof_invalid "Approval proof signature is invalid."
      | some signature ↦ ok signature
    ]
    require (leb 1 (length signature) && leb (length signature) max_approval_signature_bytes)
        approval_proof_invalid "Approval proof signature is outside the supported size range."
    elim (c.load_der_public_key der) [
      | none ↦ failing approval_public_key_invalid "Approval public key could not be decoded."
      | some key ↦ do
        require (is_elliptic key) approval_public_key_invalid
            "Approval public key must be an ECDSA key."
        require (c.verify key signature (approval_signing_payload r credential_id approved))
            approval_proof_invalid "Approval proof signature did not verify."
    ]

  unfoldable pub verify_approval_response_proof :
      IssuedApprovalRecord
      → ApprovalResponsePayload
      → Option Uuid
      → Option Bytes
      → Result ApprovalError (Unit {0})
  verify_approval_response_proof r response (some credential_id) (some der) = elim response.proof [
    | none ↦
        failing approval_proof_required
          "A device-bound Android approval proof is required for this action."
    | some proof ↦ check_proof r response.approved credential_id der proof
  ]
  verify_approval_response_proof r response _ _ =
      failing approval_proof_required
        "A paired Android approval public key is required for this action."

  -- `_validate`
  unfoldable pub validate :
      ℕ
      → IssuedApprovalRecord
      → String
      → ApprovalResponsePayload
      → ToolInvocationPayload
      → Result ApprovalError (Unit {0})
  unfolding canonical_arguments_sha256
  validate now r principal_key response invocation = do
    require (r.principal_key == principal_key) approval_invalid
        "Approval request does not match this principal."
    require
        (r.task_id == response.task_id
          && elim invocation.task_id [ none ↦ false | some task_id ↦ r.task_id == task_id ])
        approval_invalid "Approval request does not match this task."
    require (r.tool_name == invocation.tool_name) approval_invalid
        "Approval request does not match this tool."
    require (r.arguments_sha256 == canonical_arguments_sha256 invocation.arguments) approval_invalid
        "Approval request does not match these arguments."
    require (not (is_expired now r)) approval_expired "Approval request has expired."

  -- `prune_now` and `issued_at` are the two readings of the clock.
  unfoldable pub issue :
      (prune_now issued_at : ℕ) (approval_id : Uuid)
      → String
      → ToolInvocationPayload
      → ApprovalArtifactStore
      → ApprovalArtifactStore × Result ApprovalError IssuedApprovalRecord
  issue prune_now issued_at approval_id principal_key invocation s = elim invocation.task_id [
    | none ↦ (s, failing approval_required "A Hub-issued approval request requires a task ID.")
    | some task_id ↦
        let s' = prune_expired prune_now s in
        if leb max_pending_approvals (length s'.pending_approvals)
        then (s', failing approval_capacity_exceeded "Too many approval requests are pending.")
        else let r : IssuedApprovalRecord = record {
          approval_id = approval_id;
          principal_key = principal_key;
          task_id = task_id;
          tool_name = invocation.tool_name;
          arguments_sha256 = canonical_arguments_sha256 invocation.arguments;
          issued_at_epoch_millis = issued_at;
          expires_at_epoch_millis = issued_at + hub_approval_ttl_millis;
        } in
          (record { pending_approvals = put s'.pending_approvals approval_id r }, ok r)
  ]

  unfoldable pub consume :
      (now : ℕ)
      → String
      → ApprovalResponsePayload
      → ToolInvocationPayload
      → Option Uuid
      → Option Bytes
      → ApprovalArtifactStore
      → ApprovalArtifactStore × Result ApprovalError IssuedApprovalRecord
  unfolding discard
  consume now principal_key response invocation credential_id der s =
      elim (get s.pending_approvals response.approval_id) [
        | none ↦ (s, failing approval_invalid "Approval request is unknown or already consumed.")
        | some r ↦
            if not response.approved
            then (
              discard response.approval_id s,
              failing approval_denied "Approval was denied; no tool was invoked.",
            )
            else elim (validate now r principal_key response invocation
                >> verify_approval_response_proof r response credential_id der) [
                  | ok _ ↦ (discard response.approval_id s, ok r)
                  | raise e ↦ (s, raise e)
                ]
      ]
