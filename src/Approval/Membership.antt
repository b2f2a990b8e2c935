-- ===== src/Approval/Membership.antt =====
-- Which requests the operations of the store of approval.py can add and which they drop.
use goffy_os.Prelude.{
  ℕ, ◌+◌, String, ◌≡◌, ◌⊎◌, refl, true, false, Option, arith, inl, inr, if◌then◌else◌, Bool-cases,
  Option-cases, nat_eq, nat_beq_iff, string_eq, ◌==◌, leb, length,
}
use goffy_os.Prelude.Result.{Result, ok, raise, Result-cases}
use goffy_os.Prelude.Dict.{get, has, keys_where, get-put, get-remove, get-remove_all}
use goffy_os.Protocol.{Uuid, is_denied, ApprovalResponsePayload, ToolInvocationPayload}
use goffy_os.Approval.Refusals.{accepts-not_denied}
use goffy_os.Approval.Consuming.{accepts}
use goffy_os.Approval.{
  Bytes, Crypto, IssuedApprovalRecord, ApprovalError, ApprovalArtifactStore, issue, consume,
  discard, prune_expired, is_expired, canonical_arguments_sha256, hub_approval_ttl_millis,
  max_pending_approvals,
}

module _ (c : Crypto) where
  has-prune_expired :
      (now : ℕ) (s : ApprovalArtifactStore) (id : Uuid)
      → has (prune_expired now s).pending_approvals id ≡ true
      → has s.pending_approvals id ≡ true
  unfolding prune_expired
  has-prune_expired now s id h = ground (
    arith,
    get-remove_all s.pending_approvals (keys_where (is_expired now) s.pending_approvals) id,
  )

  -- What `issue` adds is what it returns.
  pub has-issue :
      (prune_now issued_at : ℕ) (approval_id : Uuid) (key : String)
      (invocation : ToolInvocationPayload) (s : ApprovalArtifactStore) (id : Uuid)
      → has (issue c prune_now issued_at approval_id key invocation s).0.pending_approvals id ≡ true
      → ((r : IssuedApprovalRecord) × ((issue c prune_now issued_at approval_id key invocation s).1
            ≡ ok r)
          × (r.approval_id ≡ id))
        ⊎ (has s.pending_approvals id ≡ true)
  unfolding issue
  has-issue prune_now issued_at approval_id key invocation s id h =
      elim (Option-cases invocation.task_id) [
        | inl missing ↦ inr (ground arith)
        | inr (task_id, given) ↦
            let s' = prune_expired prune_now s in
            elim (Bool-cases (leb max_pending_approvals (length s'.pending_approvals))) [
              | inl full ↦ inr (has-prune_expired prune_now s id (ground arith))
              | inr room ↦
                  let r : IssuedApprovalRecord = record {
                    approval_id = approval_id;
                    principal_key = key;
                    task_id = task_id;
                    tool_name = invocation.tool_name;
                    arguments_sha256 = canonical_arguments_sha256 c invocation.arguments;
                    issued_at_epoch_millis = issued_at;
                    expires_at_epoch_millis = issued_at + hub_approval_ttl_millis;
                  } in
                  elim (Bool-cases (approval_id == id)) [
                    | inl hit ↦
                        inl (r, rw (given, room) refl, ground (arith, nat_beq_iff approval_id id))
                    | inr miss ↦ inr (
                        has-prune_expired prune_now s id
                          (ground (arith, get-put s'.pending_approvals approval_id id r)))
                  ]
            ]
      ]

  module _ (now : ℕ) (key : String) (response : ApprovalResponsePayload)
      (invocation : ToolInvocationPayload) (credential_id : Option Uuid) (der : Option Bytes)
      (s : ApprovalArtifactStore) where
    abbrev attempt : ApprovalArtifactStore × Result ApprovalError IssuedApprovalRecord
    attempt = consume c now key response invocation credential_id der s

    has-discard :
        (id : Uuid)
        → has (discard response.approval_id s).pending_approvals id
          ≡ (if response.approval_id == id then false else has s.pending_approvals id)
    unfolding discard
    has-discard id = ground (arith, get-remove s.pending_approvals response.approval_id id)

    pub has-consume :
        (id : Uuid) → has attempt.0.pending_approvals id ≡ true → has s.pending_approvals id ≡ true
    unfolding consume
    has-consume id h = ground (arith, has-discard id)

    -- The request of a consumed or refused answer is gone.
    pub consume-gone :
        (id : Uuid)
        → elim attempt.1 [ ok r ↦ true | raise e ↦ is_denied e.code ] ≡ true
        → has attempt.0.pending_approvals id ≡ true
        → (response.approval_id == id) ≡ false
    unfolding consume
    consume-gone id over h = elim (Option-cases (get s.pending_approvals response.approval_id)) [
      | inl missing ↦ unfold is_denied in absurd (ground arith)
      | inr (r, found) ↦
          elim (Result-cases (accepts c now r key response invocation credential_id der)) [
            | inl (x, fine) ↦ ground (arith, has-discard id)
            | inr (e, bad) ↦ ground (
              arith,
              has-discard id,
              accepts-not_denied c r now key response invocation credential_id der e bad,
            )
          ]
    ]
