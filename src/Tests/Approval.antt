-- ===== src/Tests/Approval.antt =====
-- The approval store on concrete requests.
use goffy_os.Prelude.{
  ◌≡◌, ◌≢◌, refl, true, false, none, some, List, [], ◌∷◌, arith, replicate, ◌==◌, nat_eq, string_eq,
}
use goffy_os.Prelude.Result.{ok}
use goffy_os.Prelude.Dict.{get, put, remove, remove_all, keys_where}
use goffy_os.Protocol.{
  ApprovalProofPayload, ApprovalResponsePayload, ToolInvocationPayload, approval_invalid,
  approval_expired, approval_proof_required,
}
use goffy_os.Protocol.Values.{null}
use goffy_os.Approval.{
  Bytes, Crypto, secp256r1, IssuedApprovalRecord, ApprovalArtifactStore, empty_store, failing,
  issue, consume, discard, validate, check_proof, verify_approval_response_proof,
  canonical_arguments_sha256, prune_expired,
}
use goffy_os.Approval.Consuming.{IsAuthorized, IsSigned}
use goffy_os.Approval.Pending.{consume_iff}
use goffy_os.Approval.Consumed.{consume_once}
use goffy_os.Approval.Lifecycle.{issue-consume, issue-expires}
use goffy_os.Approval.Invariant.{Call, issues, discards, run, IsValid, run-IsValid}

-- A toy signature: the bytes of the signature name the key.
abbrev pub crypto : Crypto
crypto = record {
  uuid_text = λ _. "id";
  dumps = λ _. 1 ∷ [];
  sha256_hex = λ _. "digest";
  load_der_public_key = λ _. some (record { kind = secp256r1; handle = 9 });
  b64decode = λ _. some (9 ∷ []);
  verify = λ key signature _. elim signature [ [] ↦ false | b ∷ _ ↦ b == key.handle ];
}

abbrev pub phone_key : Bytes
phone_key = replicate 64 5

abbrev pub open_app : ToolInvocationPayload
open_app = record { tool_name = "mac.apps.open"; arguments = null; task_id = some 11 }

abbrev pub signed : ApprovalProofPayload
signed = record {
  schema_version = "goffy.approval.proof.v1";
  algorithm = "ECDSA_P256_SHA256";
  public_key_sha256 = "digest";
  signature_base64 = "CQ==";
}

abbrev pub yes_answer : ApprovalResponsePayload
yes_answer = record { approval_id = 3; task_id = 11; approved = true; proof = some signed }

abbrev no_answer : ApprovalResponsePayload
no_answer = record yes_answer { approved = false }

abbrev unsigned : ApprovalResponsePayload
unsigned = record yes_answer { proof = none }

abbrev request : IssuedApprovalRecord
request = record {
  approval_id = 3;
  principal_key = "paired:7";
  task_id = 11;
  tool_name = "mac.apps.open";
  arguments_sha256 = "digest";
  issued_at_epoch_millis = 1000;
  expires_at_epoch_millis = 61000;
}

abbrev pub one_pending : ApprovalArtifactStore
one_pending = record { pending_approvals = (3, request) ∷ [] }

issue_run : issue crypto 1000 1000 3 "paired:7" open_app empty_store ≡ (one_pending, ok request)
unfolding issue prune_expired canonical_arguments_sha256 put remove_all keys_where
issue_run = refl

consume_run :
    consume crypto 2000 "paired:7" yes_answer open_app (some 7) (some phone_key) one_pending
    ≡ (empty_store, ok request)
unfolding consume validate verify_approval_response_proof check_proof get remove
consume_run = refl

consume_late :
    (consume crypto 61000 "paired:7" yes_answer open_app (some 7) (some phone_key) one_pending).1
    ≡ failing approval_expired "Approval request has expired."
unfolding consume validate get
consume_late = refl

consume-unsigned :
    (consume crypto 2000 "paired:7" unsigned open_app (some 7) (some phone_key) one_pending).1
    ≡ failing approval_proof_required
        "A device-bound Android approval proof is required for this action."
unfolding consume validate verify_approval_response_proof get
consume-unsigned = refl

is_signed : IsSigned crypto request true 7 phone_key signed
is_signed = record {
  schema = refl;
  algorithm = refl;
  short_key = omega arith;
  long_key = omega arith;
  key = record { kind = secp256r1; handle = 9 };
  loaded = refl;
  curve = refl;
  key_hash = refl;
  signature = 9 ∷ [];
  decoded = refl;
  nonempty = omega arith;
  short = omega arith;
  verified = refl;
}

is_authorized :
    IsAuthorized crypto 2000 request "paired:7" yes_answer open_app (some 7) (some phone_key)
unfolding canonical_arguments_sha256
is_authorized = record {
  principal = refl;
  answered = refl;
  task = refl;
  tool = refl;
  arguments = refl;
  fresh = omega arith;
  credential = 7;
  is_credential = refl;
  key_bytes = phone_key;
  is_key = refl;
  proof = signed;
  is_proof = refl;
  signed = is_signed;
}

consume_iff_example :
    consume crypto 2000 "paired:7" yes_answer open_app (some 7) (some phone_key) one_pending
    ≡ (discard 3 one_pending, ok request)
unfolding get
consume_iff_example =
    (consume_iff crypto "paired:7" (some 7) (some phone_key) 2000 yes_answer open_app one_pending
        (discard 3 one_pending) request).1
      (refl, refl, is_authorized, refl)

-- Another request is issued, and two are discarded, one of them under the ID of the consumed one.
abbrev calls_after : List Call
calls_after = issues 2500 2500 4 "paired:7" open_app ∷ discards 3 ∷ discards 9 ∷ []

consume_once_example :
    consume crypto 3000 "paired:8" yes_answer open_app
      (some 8)
      none
      (run crypto empty_store calls_after)
    ≡ (
      run crypto empty_store calls_after,
      failing approval_invalid "Approval request is unknown or already consumed.",
    )
consume_once_example =
    consume_once crypto "paired:7" "paired:8" (some 7) (some 8) (some phone_key) none 2000 3000
      yes_answer yes_answer open_app open_app one_pending empty_store request calls_after
      consume_run refl refl

issue-consume_example :
    consume crypto 2000 "paired:7" yes_answer open_app (some 7) (some phone_key) one_pending
    ≡ (discard 3 one_pending, ok request)
issue-consume_example =
    issue-consume crypto 1000 1000 3 "paired:7" open_app empty_store one_pending request issue_run
      2000 yes_answer 7 phone_key signed (omega arith) refl refl refl refl is_signed

issue-expires_example :
    consume crypto 61000 "paired:7" yes_answer open_app (some 7) (some phone_key) one_pending
    ≢ (empty_store, ok request)
issue-expires_example =
    issue-expires crypto 1000 1000 3 "paired:7" open_app empty_store one_pending request issue_run
      61000 "paired:7" yes_answer open_app (some 7) (some phone_key) empty_store request
      (omega arith) refl

run-IsValid_example :
    IsValid (run crypto empty_store (issues 1000 1000 3 "paired:7" open_app ∷ discards 3 ∷ []))
run-IsValid_example = run-IsValid crypto (issues 1000 1000 3 "paired:7" open_app ∷ discards 3 ∷ [])
