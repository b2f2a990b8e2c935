-- ===== src/Protocol.antt =====
-- protocol/python/goffy_protocol/models.py: the message types, the permission levels and the
-- payloads that the Hub reads and writes. The validators of single fields (lengths, patterns) are
-- pydantic's and are not modelled. JSON values stand in `Protocol.Values`.
pub mod Values
pub mod Capability
pub mod Schema
use goffy_os.Prelude.{ℕ, String, ◌≡◌, ◌↔◌, Bool, true, false, Option, arith, Eq}
use Values.{Json}

-- `UUID`, by its 128-bit value
abbrev pub Uuid : Type 0
Uuid = ℕ

pub data MessageType : Type 0 where
  pairing_request pairing_challenge pairing_response pairing_success device_status : MessageType
  capability_discovery_request capability_discovery_response user_intent execution_plan :
      MessageType
  approval_request approval_response tool_invocation tool_progress tool_result : MessageType
  tool_error verification_result cancellation_request heartbeat audit_event : MessageType

pub data ExecutionTarget : Type 0 where
  phone mac cloud : ExecutionTarget

pub data PermissionLevel : Type 0 where
  safe confirm sensitive blocked : PermissionLevel

abbrev pub permission_beq : PermissionLevel → PermissionLevel → Bool
permission_beq safe safe = true
permission_beq confirm confirm = true
permission_beq sensitive sensitive = true
permission_beq blocked blocked = true
permission_beq _ _ = false

pub permission_beq_iff : (a b : PermissionLevel) → (permission_beq a b ≡ true) ↔ (a ≡ b)
permission_beq_iff a b = ground arith

instance abbrev pub permission_eq : Eq PermissionLevel
permission_eq = record { beq = permission_beq; beq_iff = permission_beq_iff }

-- The codes of `TOOL_ERROR` events and of `ApprovalValidationError`.
pub data ErrorCode : Type 0 where
  approval_required approval_capacity_exceeded approval_invalid approval_denied : ErrorCode
  approval_expired approval_proof_required approval_proof_invalid : ErrorCode
  approval_public_key_invalid approval_unavailable approval_unexpected : ErrorCode
  invalid_message duplicate_message connection_message_limit invalid_approval_response : ErrorCode
  invalid_capability_discovery unsupported_message_type invalid_tool_arguments : ErrorCode
  capability_discovery_required tool_not_found tool_execution_failed message_too_large : ErrorCode

-- `error.code == "approval_denied"`
unfoldable pub is_denied : ErrorCode → Bool
is_denied approval_denied = true
is_denied _ = false

pub record ApprovalProofPayload : Type 0 where
  pub schema_version : String
  pub algorithm : String
  pub public_key_sha256 : String
  pub signature_base64 : String

pub record ApprovalResponsePayload : Type 0 where
  pub approval_id : Uuid
  pub task_id : Uuid
  pub approved : Bool
  pub proof : Option ApprovalProofPayload

pub record ApprovalRequestPayload : Type 0 where
  pub approval_id : Uuid
  pub task_id : Uuid
  pub tool_name : String
  pub arguments_sha256 : String
  pub issued_at_epoch_millis : ℕ
  pub expires_at_epoch_millis : ℕ

pub record ToolInvocationPayload : Type 0 where
  pub tool_name : String
  pub arguments : Json
  pub task_id : Option Uuid

pub record ToolAnnotations : Type 0 where
  pub read_only_hint : Bool
  pub destructive_hint : Bool
  pub idempotent_hint : Bool
  pub open_world_hint : Bool

abbrev pub approval_proof_schema_version : String
approval_proof_schema_version = "goffy.approval.proof.v1"

abbrev pub approval_proof_algorithm : String
approval_proof_algorithm = "ECDSA_P256_SHA256"
