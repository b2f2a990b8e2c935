-- ===== src/Approval/Consumed.antt =====
-- A request of the store of approval.py that was consumed, over the calls that follow.
use goffy_os.Prelude.{
  ℕ, String, ◌≡◌, inl, inr, false, Option, List, [], ◌∷◌, arith, contains, nat_eq, nat_beq_iff,
  ◌==◌, Bool-cases,
}
use goffy_os.Prelude.Result.{ok}
use goffy_os.Prelude.Dict.{has}
use goffy_os.Protocol.{Uuid, approval_invalid, ApprovalResponsePayload, ToolInvocationPayload}
use goffy_os.Approval.{
  Bytes, Crypto, issue, IssuedApprovalRecord, ApprovalArtifactStore, consume, discard, failing,
}
use goffy_os.Approval.Pending.{consume_iff, consume_unknown, get-discard}
use goffy_os.Approval.Membership.{has-issue, has-consume}
use goffy_os.Approval.Invariant.{Call, issues, consumes, discards, step, run}

-- The IDs that the calls of `issue` draw
abbrev pub drawn_ids : List Call → List Uuid
drawn_ids [] = []
drawn_ids (issues prune_now issued_at id key invocation ∷ calls) = id ∷ drawn_ids calls
drawn_ids (consumes now key response invocation credential_id der ∷ calls) = drawn_ids calls
drawn_ids (discards id ∷ calls) = drawn_ids calls

module _ (c : Crypto) (id : Uuid) where
  Lacks : ApprovalArtifactStore → Type 0
  Lacks s = has s.pending_approvals id ≡ false

  issued-drawn :
      (prune_now issued_at : ℕ) (drawn : Uuid) (key : String) (invocation : ToolInvocationPayload)
      (s : ApprovalArtifactStore) (r : IssuedApprovalRecord)
      → (issue c prune_now issued_at drawn key invocation s).1 ≡ ok r
      → r.approval_id ≡ drawn
  unfolding issue
  issued-drawn prune_now issued_at drawn key invocation s r issued = ground arith

  issue-Lacks :
      (prune_now issued_at : ℕ) (drawn : Uuid) (key : String) (invocation : ToolInvocationPayload)
      (s : ApprovalArtifactStore)
      → (drawn == id) ≡ false
      → Lacks s
      → Lacks (issue c prune_now issued_at drawn key invocation s).0
  unfolding Lacks
  issue-Lacks prune_now issued_at drawn key invocation s other gone =
      let s' = (issue c prune_now issued_at drawn key invocation s).0 in
      elim (Bool-cases (has s'.pending_approvals id)) [
        | inr lacks ↦ lacks
        | inl there ↦ elim (has-issue c prune_now issued_at drawn key invocation s id there) [
          | inr before ↦ absurd (ground arith)
          | inl (r, issued, is_id) ↦
              let is_drawn = issued-drawn prune_now issued_at drawn key invocation s r issued in
              absurd (ground (arith, nat_beq_iff drawn id))
        ]
      ]

  run-Lacks :
      (calls : List Call) (s : ApprovalArtifactStore)
      → contains (drawn_ids calls) id ≡ false
      → Lacks s
      → Lacks (run c s calls)
  unfolding run step Lacks
  run-Lacks [] s fresh gone = gone
  run-Lacks (issues prune_now issued_at drawn key invocation ∷ calls) s fresh gone =
      run-Lacks calls (step c s (issues prune_now issued_at drawn key invocation)) (ground arith)
        (issue-Lacks prune_now issued_at drawn key invocation s (ground arith) gone)
  run-Lacks (consumes now key response invocation credential_id der ∷ calls) s fresh gone =
      run-Lacks calls (step c s (consumes now key response invocation credential_id der)) fresh
        (ground (arith, has-consume c now key response invocation credential_id der s id))
  run-Lacks (discards other ∷ calls) s fresh gone =
      run-Lacks calls (discard other s) fresh (ground (arith, get-discard other id s))

-- Once a request was consumed, and whatever is issued, consumed and discarded after it, as long as
-- no new request draws its ID, a call of `consume` under this ID raises `approval_invalid` and
-- leaves the store as it is, whoever makes it and whatever else it says.
pub consume_once :
    (c : Crypto) (principal_key other_key : String) (credential_id other_id : Option Uuid)
    (der other_der : Option Bytes) (now later : ℕ) (response again : ApprovalResponsePayload)
    (invocation another : ToolInvocationPayload) (s s' : ApprovalArtifactStore)
    (r : IssuedApprovalRecord) (calls : List Call)
    → consume c now principal_key response invocation credential_id der s ≡ (s', ok r)
    → contains (drawn_ids calls) response.approval_id ≡ false
    → again.approval_id ≡ response.approval_id
    → consume c later other_key again another other_id other_der (run c s' calls) ≡ (
      run c s' calls,
      failing approval_invalid "Approval request is unknown or already consumed.",
    )
unfolding Lacks
consume_once c principal_key other_key credential_id other_id der other_der now later response again
      invocation another s s' r calls h fresh same =
    let left =
      ((consume_iff c principal_key credential_id der now response invocation s s' r).0 h).3 in
    let gone : has s'.pending_approvals response.approval_id ≡ false = rw left (
      ground (
        arith,
        get-discard response.approval_id response.approval_id s,
        nat_beq_iff response.approval_id response.approval_id,
      )) in
    let still = run-Lacks c response.approval_id calls s' fresh gone in
    consume_unknown c other_key other_id other_der later again another (run c s' calls)
      (rw same (unfold Lacks in ground (arith, still)))
