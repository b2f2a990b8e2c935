-- ===== src/Approval/Invariant.antt =====
-- The invariant of the store of approval.py, over any sequence of calls.
use goffy_os.Prelude.{
  ℕ, ◌≤◌, ◌+◌, String, ◌≡◌, Option, some, List, [], ◌∷◌, arith, length, Option-cases, inl, inr,
  nat_eq,
}
use goffy_os.Prelude.Dict.{
  get, put, IsDistinct, get-put, get-remove, get-remove_where, put-IsDistinct, remove-IsDistinct,
  remove_all-IsDistinct, length-put, length-remove-le, length-remove_all-le, keys_where,
}
use goffy_os.Protocol.{Uuid, ApprovalResponsePayload, ToolInvocationPayload}
use goffy_os.Approval.{
  Bytes, Crypto, IssuedApprovalRecord, ApprovalArtifactStore, empty_store, is_expired,
  prune_expired, issue, consume, discard, max_pending_approvals, hub_approval_ttl_millis,
  canonical_arguments_sha256,
}

pub data Call : Type 0 where
  issues : ℕ → ℕ → Uuid → String → ToolInvocationPayload → Call
  consumes :
      ℕ
      → String
      → ApprovalResponsePayload
      → ToolInvocationPayload
      → Option Uuid
      → Option Bytes
      → Call
  discards : Uuid → Call

unfoldable pub step : Crypto → ApprovalArtifactStore → Call → ApprovalArtifactStore
step c s (issues prune_now issued_at id principal_key invocation) =
    (issue c prune_now issued_at id principal_key invocation s).0
step c s (consumes now principal_key response invocation credential_id der) =
    (consume c now principal_key response invocation credential_id der s).0
step c s (discards id) = discard id s

unfoldable pub run : Crypto → ApprovalArtifactStore → List Call → ApprovalArtifactStore
run c s [] = s
run c s (call ∷ calls) = run c (step c s call) calls

pub record IsValid (s : ApprovalArtifactStore) : Type 0 where
  pub distinct : IsDistinct s.pending_approvals
  pub bounded : length s.pending_approvals ≤ max_pending_approvals
  pub keyed :
      (id : Uuid) (r : IssuedApprovalRecord)
      → get s.pending_approvals id ≡ some r
      → r.approval_id ≡ id

discard-IsValid : (id : Uuid) (s : ApprovalArtifactStore) → IsValid s → IsValid (discard id s)
unfolding discard
discard-IsValid id s v = record {
  distinct = remove-IsDistinct s.pending_approvals id v.distinct;
  bounded = omega (arith, length-remove-le s.pending_approvals id, v.bounded);
  keyed = λ j r h. ground (arith, get-remove s.pending_approvals id j, v.keyed j r);
}

prune_expired-IsValid :
    (now : ℕ) (s : ApprovalArtifactStore) → IsValid s → IsValid (prune_expired now s)
unfolding prune_expired
prune_expired-IsValid now s v = record {
  distinct = remove_all-IsDistinct s.pending_approvals _ v.distinct;
  bounded = omega (
    arith,
    length-remove_all-le s.pending_approvals (keys_where (is_expired now) s.pending_approvals),
    v.bounded,
  );
  keyed = λ j r h.
      ground
        (arith, get-remove_where (is_expired now) s.pending_approvals j v.distinct, v.keyed j r);
}

module _ (c : Crypto) where
  put-IsValid :
      (r : IssuedApprovalRecord) (s : ApprovalArtifactStore)
      → IsValid s
      → length s.pending_approvals + 1 ≤ max_pending_approvals
      → IsValid (record { pending_approvals = put s.pending_approvals r.approval_id r })
  put-IsValid r s v room = record {
    distinct = put-IsDistinct s.pending_approvals r.approval_id r v.distinct;
    bounded = ground (arith, length-put s.pending_approvals r.approval_id r);
    keyed = λ j r' h. ground (arith, get-put s.pending_approvals r.approval_id j r, v.keyed j r');
  }

  issue-IsValid :
      (prune_now issued_at : ℕ) (id : Uuid) (principal_key : String)
      (invocation : ToolInvocationPayload) (s : ApprovalArtifactStore)
      → IsValid s
      → IsValid (issue c prune_now issued_at id principal_key invocation s).0
  unfolding issue
  issue-IsValid prune_now issued_at id principal_key invocation s v =
      elim (Option-cases invocation.task_id) [
        | inl missing ↦ ground arith
        | inr (task_id, given) ↦
            let s' = prune_expired prune_now s in
            let r : IssuedApprovalRecord = record {
              approval_id = id;
              principal_key = principal_key;
              task_id = task_id;
              tool_name = invocation.tool_name;
              arguments_sha256 = canonical_arguments_sha256 c invocation.arguments;
              issued_at_epoch_millis = issued_at;
              expires_at_epoch_millis = issued_at + hub_approval_ttl_millis;
            } in
            let v' = prune_expired-IsValid prune_now s v in ground (arith, v', put-IsValid r s' v')
      ]

  consume-IsValid :
      (now : ℕ) (principal_key : String) (response : ApprovalResponsePayload)
      (invocation : ToolInvocationPayload) (credential_id : Option Uuid) (der : Option Bytes)
      (s : ApprovalArtifactStore)
      → IsValid s
      → IsValid (consume c now principal_key response invocation credential_id der s).0
  unfolding consume
  consume-IsValid now principal_key response invocation credential_id der s v =
      ground (arith, discard-IsValid response.approval_id s v)

  step-IsValid : (s : ApprovalArtifactStore) (call : Call) → IsValid s → IsValid (step c s call)
  unfolding step
  step-IsValid s (issues prune_now issued_at id principal_key invocation) v =
      issue-IsValid prune_now issued_at id principal_key invocation s v
  step-IsValid s (consumes now principal_key response invocation credential_id der) v =
      consume-IsValid now principal_key response invocation credential_id der s v
  step-IsValid s (discards id) v = discard-IsValid id s v

  run_from-IsValid :
      (s : ApprovalArtifactStore) (calls : List Call) → IsValid s → IsValid (run c s calls)
  unfolding run
  run_from-IsValid s [] v = v
  run_from-IsValid s (call ∷ calls) v =
      run_from-IsValid (step c s call) calls (step-IsValid s call v)

  empty-IsValid : IsValid empty_store
  unfolding get
  empty-IsValid = record {
    distinct = tt;
    bounded = omega arith;
    keyed = λ id r h. absurd (ground arith);
  }

  -- After any calls on a new store, at most `MAX_PENDING_APPROVALS` requests are pending, each
  -- under one ID, which is its own.
  pub run-IsValid : (calls : List Call) → IsValid (run c empty_store calls)
  run-IsValid calls = run_from-IsValid empty_store calls empty-IsValid
