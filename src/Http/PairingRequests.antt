-- ===== src/Http/PairingRequests.antt =====
-- Requests of hub/src/goffy_hub/pairing_api.py: what they hold, how their bodies are read, and how
-- errors of the pairing service become responses. What a client sends for a redemption is parsed by
-- pydantic, which comes in as `Redemptions`.
use Prim.Native.String as Text
use text.Mathlib.Text.{starts_with}
use goffy_os.Prelude.{
  ℕ, String, Bool, true, false, Option, none, some, List, [], ◌∷◌, ◌++◌, ltb, length, nat_eq,
  string_eq, ◌==◌, if◌then◌else◌,
}
use goffy_os.Prelude.Result.{Result, ok, raise}
use goffy_os.Protocol.{Uuid}
use goffy_os.Approval.{Bytes}
use goffy_os.Credentials.{
  IssuedCredential, CredentialError, unavailable, capacity, invalid_metadata, store_error,
}
use goffy_os.Pairing.{
  PairingChallenge, PairingError, pairing_error, busy, invalid_challenge, attempt_limit,
  store_failed,
}
use goffy_os.Http.{ApiRequest, Net, ApiFailure, http_error, unhandled, AuditTick}

abbrev pub max_pairing_request_bytes : ℕ
max_pairing_request_bytes = 4096

-- `ApprovalPublicKeyRequest` and `PairingRedemptionRequest`
pub record ApprovalPublicKeyRequest : Type 0 where
  pub spki_der_base64 : String
  pub spki_sha256 : String

pub record PairingRedemptionRequest : Type 0 where
  pub challenge_id : Uuid
  pub pairing_token : String
  pub device_id : String
  pub display_name : String
  pub approval_public_key : ApprovalPublicKeyRequest

-- `model_validate_json`, where `none` is a `ValidationError`, the lifetime of challenges, and what
-- the settings say of TLS and of the port
pub record Redemptions : Type 0 where
  pub parse : Bytes → Option PairingRedemptionRequest
  pub challenge_ttl : ℕ
  pub uses_tls : Bool
  pub port_text : String

-- What a route draws, reads from clocks, and finds of its databases
pub record Env : Type 0 where
  pub now : ℕ
  pub issued_at : ℕ
  pub store_reachable : Bool
  pub audit_ready : Bool
  pub first : AuditTick
  pub last : AuditTick
  pub drawn_id : Uuid
  pub drawn_token : String

pub record RevocationResponse : Type 0 where
  pub credential_id : Uuid
  pub revoked : Bool

pub record PairingBundle : Type 0 where
  pub hub_endpoint : String
  pub challenge : PairingChallenge

store_unavailable : ApiFailure
store_unavailable =
    http_error 503 "credential_store_unavailable" "Credential storage is temporarily unavailable."

-- Only a `CredentialStoreError` is expected.
unfoldable pub from_store {ℓ} : {A : Type ℓ} → Result CredentialError A → Result ApiFailure A
unfolding store_unavailable
from_store (ok a) = ok a
from_store (raise e) = raise store_unavailable

-- The `except` clauses of the redemption, the more special classes first
unfoldable pub from_completion :
    Result PairingError IssuedCredential → Result ApiFailure IssuedCredential
unfolding store_unavailable
from_completion (ok issued) = ok issued
from_completion (raise invalid_challenge) =
    raise (http_error 400 "invalid_pairing_challenge" "Pairing challenge is invalid or expired.")
from_completion (raise attempt_limit) =
    raise (http_error 429 "pairing_attempt_limit" "Pairing attempt limit reached.")
from_completion (raise (store_failed capacity)) =
    raise (http_error 409 "credential_capacity" "Paired device limit reached.")
from_completion (raise (store_failed (invalid_metadata message))) =
    raise (http_error 400 "invalid_device_metadata" "Device metadata is invalid.")
from_completion (raise (store_failed unavailable)) = raise store_unavailable
from_completion (raise (store_failed (store_error message))) = raise store_unavailable
from_completion (raise busy) = raise unhandled
from_completion (raise (pairing_error message)) = raise unhandled

-- `PairingBusyError`, and other errors of `begin`
unfoldable pub from_begin :
    Result PairingError PairingChallenge → Result ApiFailure PairingChallenge
unfolding store_unavailable
from_begin (ok challenge) = ok challenge
from_begin (raise busy) =
    raise (http_error 429 "pairing_busy" "Pairing is temporarily unavailable.")
from_begin (raise (store_failed e)) = raise store_unavailable
from_begin (raise invalid_challenge) = raise unhandled
from_begin (raise attempt_limit) = raise unhandled
from_begin (raise (pairing_error message)) = raise unhandled

-- The loop over `request.stream()` with the bytes so far: `none` once they are too many.
unfoldable pub join_chunks : Bytes → List Bytes → Option Bytes
join_chunks sofar [] = some sofar
join_chunks sofar (chunk ∷ chunks) =
    let rest = join_chunks (sofar ++ chunk) chunks in
    if ltb max_pairing_request_bytes (length (sofar ++ chunk)) then none else rest

-- `_is_loopback_host`, once the host is in lower case and without brackets
unfoldable pub is_loopback_host : Net → (String → String) → String → Bool
is_loopback_host net strip_brackets host =
    let normalized = strip_brackets (net.lower host) in
    if normalized == "localhost"
    then true
    else elim (net.is_loopback normalized) [ none ↦ false | some b ↦ b ]

-- `_bearer_token_from_request`
unfoldable pub bearer_token : ApiRequest → Option String
bearer_token r = elim r.authorization [
  | none ↦ none
  | some header ↦
      if starts_with header "Bearer " then some (Text.slice header 7 (Text.len header)) else none
]
