-- ===== src/Approval/Lifecycle.antt =====
-- The life of an approval request of approval.py: what `issue` makes pending, and for how long it
-- can be consumed.
use goffy_os.Prelude.{
  ℕ, ◌<◌, ◌≤◌, ◌+◌, String, ◌≡◌, ◌≢◌, refl, ap, true, Option, some, arith, Option-cases, inl, inr,
  nat_eq, ==_refl,
}
use goffy_os.Prelude.Result.{ok}
use goffy_os.Prelude.Dict.{get, put, get-put}
use goffy_os.Protocol.{Uuid, ApprovalProofPayload, ApprovalResponsePayload, ToolInvocationPayload}
use goffy_os.Approval.{
  Bytes, Crypto, IssuedApprovalRecord, ApprovalArtifactStore, prune_expired, issue, consume,
  discard, hub_approval_ttl_millis, canonical_arguments_sha256,
}
use goffy_os.Approval.Consuming.{IsSigned}
use goffy_os.Approval.Pending.{consume_iff}

module _ (c : Crypto) (prune_now issued_at : ℕ) (id : Uuid) (principal_key : String)
    (invocation : ToolInvocationPayload) (s s' : ApprovalArtifactStore) (r : IssuedApprovalRecord)
    (issued : issue c prune_now issued_at id principal_key invocation s ≡ (s', ok r)) where
  record Issued : Type 0 where
    approval_id : r.approval_id ≡ id
    principal : r.principal_key ≡ principal_key
    task : invocation.task_id ≡ some r.task_id
    tool : r.tool_name ≡ invocation.tool_name
    arguments : r.arguments_sha256 ≡ canonical_arguments_sha256 c invocation.arguments
    expires : r.expires_at_epoch_millis ≡ issued_at + hub_approval_ttl_millis
    pending : get s'.pending_approvals id ≡ some r

  issue-Issued : Issued
  unfolding issue
  issue-Issued = elim (Option-cases invocation.task_id) [
    | inl missing ↦ absurd (ground arith)
    | inr (task_id, given) ↦
        let is_record : r ≡ record {
          approval_id = id;
          principal_key = principal_key;
          task_id = task_id;
          tool_name = invocation.tool_name;
          arguments_sha256 = canonical_arguments_sha256 c invocation.arguments;
          issued_at_epoch_millis = issued_at;
          expires_at_epoch_millis = issued_at + hub_approval_ttl_millis;
        } =
          ground arith in
        let stored : s' ≡ record {
          pending_approvals = put (prune_expired prune_now s).pending_approvals id r;
        } =
          ground arith in
        record {
          approval_id = ap (λ x. x.approval_id) is_record;
          principal = ap (λ x. x.principal_key) is_record;
          task = ground arith;
          tool = ap (λ x. x.tool_name) is_record;
          arguments = ap (λ x. x.arguments_sha256) is_record;
          expires = ap (λ x. x.expires_at_epoch_millis) is_record;
          pending = rw (stored, get-put, ==_refl {A = ℕ} id);
        }
  ]

  -- Until the deadline, the approving answer of the same principal about the same task and
  -- invocation, signed by the key of its device, consumes what was issued.
  pub issue-consume :
      (now : ℕ) (response : ApprovalResponsePayload) (credential : Uuid) (der : Bytes)
      (proof : ApprovalProofPayload)
      → now < issued_at + hub_approval_ttl_millis
      → response.approval_id ≡ id
      → invocation.task_id ≡ some response.task_id
      → response.approved ≡ true
      → response.proof ≡ some proof
      → IsSigned c r true credential der proof
      → consume c now principal_key response invocation (some credential) (some der) s'
        ≡ (discard id s', ok r)
  issue-consume now response credential der proof in_time about task approved proved signed =
      let i = issue-Issued in
      rw (← about) (
        (consume_iff c principal_key (some credential) (some der) now response invocation s'
            (discard response.approval_id s') r).1
          (
            rw about i.pending,
            approved,
            record {
              principal = i.principal;
              answered = ground (arith, i.task);
              task = i.task;
              tool = i.tool;
              arguments = i.arguments;
              fresh = rw i.expires in_time;
              credential = credential;
              is_credential = refl;
              key_bytes = der;
              is_key = refl;
              proof = proof;
              is_proof = proved;
              signed = rw approved signed;
            },
            refl,
          ))

  -- From the deadline on, nothing consumes it.
  pub issue-expires :
      (now : ℕ) (other_key : String) (response : ApprovalResponsePayload)
      (another : ToolInvocationPayload) (credential_id : Option Uuid) (der : Option Bytes)
      (t : ApprovalArtifactStore) (r' : IssuedApprovalRecord)
      → issued_at + hub_approval_ttl_millis ≤ now
      → response.approval_id ≡ id
      → consume c now other_key response another credential_id der s' ≢ (t, ok r')
  issue-expires now other_key response another credential_id der t r' late about h =
      let i = issue-Issued in
      let (found, _, a, _) =
        (consume_iff c other_key credential_id der now response another s' t r').0 h in
      let same : r' ≡ r = ground (arith, i.pending) in
      absurd (omega (arith, a.fresh, i.expires, ap (λ x. x.expires_at_epoch_millis) same))
