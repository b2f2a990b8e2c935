-- ===== src/Approval/Pending.antt =====
-- What `consume` of approval.py does to the pending requests.
use goffy_os.Prelude.{
  ℕ, String, ◌≡◌, ◌≢◌, ◌↔◌, sym, ap, ◌∙◌, true, false, Option, none, some, arith, Option-cases, inl,
  inr, nat_eq, ◌==◌, if◌then◌else◌,
}
use goffy_os.Prelude.Result.{Result, ok, raise}
use goffy_os.Prelude.Dict.{get, get-remove}
use goffy_os.Protocol.{
  Uuid, ApprovalResponsePayload, ToolInvocationPayload, approval_denied, approval_invalid,
}
use goffy_os.Approval.{
  Bytes, Crypto, ApprovalError, IssuedApprovalRecord, ApprovalArtifactStore, failing, consume,
  discard,
}
use goffy_os.Approval.Consuming.{IsAuthorized, accepts-IsAuthorized, IsAuthorized-accepts}

pub get-discard :
    (id j : Uuid) (s : ApprovalArtifactStore)
    → get (discard id s).pending_approvals j ≡ (if id == j then none else get s.pending_approvals j)
unfolding discard
get-discard id j s = get-remove s.pending_approvals id j

module _ (c : Crypto) (principal_key : String) (credential_id : Option Uuid)
    (der : Option Bytes) where
  module _ (now : ℕ) (response : ApprovalResponsePayload) (invocation : ToolInvocationPayload)
      (s : ApprovalArtifactStore) where
    abbrev attempt : ApprovalArtifactStore × Result ApprovalError IssuedApprovalRecord
    attempt = consume c now principal_key response invocation credential_id der s

    ok-IsAuthorized :
        (r : IssuedApprovalRecord)
        → attempt.1 ≡ ok r
        → (get s.pending_approvals response.approval_id ≡ some r)
          × (response.approved ≡ true)
          × IsAuthorized c now r principal_key response invocation credential_id der
    unfolding consume
    ok-IsAuthorized r h = elim (Option-cases (get s.pending_approvals response.approval_id)) [
      | inl missing ↦ absurd (ground arith)
      | inr (r', found) ↦
          let same : r' ≡ r = ground arith in
          (
            ground arith,
            ground arith,
            rw (← same) (
                accepts-IsAuthorized c now r' principal_key response invocation credential_id der
                  (ground arith)),
          )
    ]

    IsAuthorized-ok :
        (r : IssuedApprovalRecord)
        → (get s.pending_approvals response.approval_id ≡ some r)
        → (response.approved ≡ true)
        → IsAuthorized c now r principal_key response invocation credential_id der
        → attempt ≡ (discard response.approval_id s, ok r)
    unfolding consume
    IsAuthorized-ok r found approved a =
        ground (
          arith,
          IsAuthorized-accepts c now r principal_key response invocation credential_id der a,
        )

    -- `consume` returns a record exactly when that record is pending under the answered ID, the
    -- answer approves, and the answer is authorized; the request is then pending no longer, and
    -- nothing else changes.
    pub consume_iff :
        (s' : ApprovalArtifactStore) (r : IssuedApprovalRecord)
        → (attempt ≡ (s', ok r)) ↔ (
            (get s.pending_approvals response.approval_id ≡ some r)
            × (response.approved ≡ true)
            × IsAuthorized c now r principal_key response invocation credential_id der
            × (s' ≡ discard response.approval_id s))
    consume_iff s' r = (
      λ h.
          let (found, approved, a) = ok-IsAuthorized r (ap (λ o. o.1) h) in
          (
            found,
            approved,
            a,
            sym (ap (λ o. o.0) h) ∙ ap (λ o. o.0) (IsAuthorized-ok r found approved a),
          ),
      λ h. IsAuthorized-ok r h.0 h.1 h.2 ∙ ap (λ t. (t, ok r)) (sym h.3),
    )

    -- An attempt that fails, for any reason but the user's refusal, leaves every pending request
    -- as it was.
    pub consume_error_keeps :
        (e : ApprovalError) → attempt.1 ≡ raise e → e.code ≢ approval_denied → attempt.0 ≡ s
    unfolding consume
    consume_error_keeps e h ne = ground arith

    -- A refusal by the user drops the pending request, whatever else the answer holds.
    pub consume_denied :
        (r : IssuedApprovalRecord)
        → get s.pending_approvals response.approval_id ≡ some r
        → response.approved ≡ false
        → attempt ≡ (
          discard response.approval_id s,
          failing approval_denied "Approval was denied; no tool was invoked.",
        )
    unfolding consume
    consume_denied r found refused = ground arith

pub consume_unknown :
    (c : Crypto) (principal_key : String) (credential_id : Option Uuid) (der : Option Bytes)
    (now : ℕ) (response : ApprovalResponsePayload) (invocation : ToolInvocationPayload)
    (s : ApprovalArtifactStore)
    → get s.pending_approvals response.approval_id ≡ none
    → consume c now principal_key response invocation credential_id der s
      ≡ (s, failing approval_invalid "Approval request is unknown or already consumed.")
unfolding consume
consume_unknown c principal_key credential_id der now response invocation s h = ground arith
