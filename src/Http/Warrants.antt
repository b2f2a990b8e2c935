-- ===== src/Http/Warrants.antt =====
-- When a route of pairing_api.py changes the credential table: who called it, and what was written
-- to the audit log before.
use mathlib.Core.Path.{subst}
use goffy_os.Prelude.{
  ℕ, String, ◌≡◌, ◌≢◌, refl, sym, ap, ◌∙◌, ◌⊎◌, inl, inr, Bool, true, false, Option, none, some,
  arith,
}
use goffy_os.Prelude.Result.{Result, ok, raise}
use goffy_os.Protocol.{Uuid}
use goffy_os.Approval.{Crypto}
use goffy_os.Credentials.{Platform, is_active}
use goffy_os.Audit.Window.{AuditEntry}
use goffy_os.Auth.Principal.{AuthenticatedPrincipal, paired, has_scope, pairing_admin_scope}
use goffy_os.Http.{
  Hub, ApiRequest, Net, ApiFailure, AuditTick, Handler, ◌>>=◌, ◌>>◌, continue, refuse_unless,
  is_loopback_client, require_loopback, require_loopback_admin, require_paired_principal,
  authenticate_request, entry_of, audit, require_audit_ready, require_admin, require_paired,
}
use goffy_os.Http.Changed.{DiffersOnlyAt, revoke_audited-DiffersOnlyAt}
use goffy_os.Http.PairingRequests.{Redemptions, Env}
use goffy_os.Http.PairingRoutes.{
  revoke_audited, revoke_paired_credential, perform_revocation, revoke_by_admin,
}

-- A step that returned, with the Hub that it left.
abbrev pub Returns {ℓ} : {A : Type ℓ} → Handler A → Hub → Hub → A → Type ℓ
Returns m h h' a = m h ≡ (h', ok a)

-- The table differs after the step.
abbrev pub Changes {ℓ} : {A : Type ℓ} → Handler A → Hub → Type 0
Changes m h = (m h).0.table ≢ h.table

outcome_cases {ℓ} :
    {A : Type ℓ} (r : Hub × Result ApiFailure A)
    → ((h' : Hub) × (a : A) × (r ≡ (h', ok a)))
      ⊎ ((h' : Hub) × (e : ApiFailure) × (r ≡ (h', raise e)))
outcome_cases (h', ok a) = inl (h', a, refl)
outcome_cases (h', raise e) = inr (h', e, refl)

-- If a first step leaves the table alone, it must have returned before a change.
pub Changes-later {ℓ κ} :
    {A : Type ℓ} {B : Type κ} (m : Handler A) (k : A → Handler B) (h : Hub)
    → (m h).0.table ≡ h.table
    → Changes (m >>= k) h
    → (h' : Hub) × (a : A) × Returns m h h' a × Changes (k a) h'
Changes-later m k h same changed = elim (outcome_cases (m h)) [
  | inr (h', e, stopped) ↦ absurd (changed (rw stopped (ap (λ r. r.0.table) (sym stopped) ∙ same)))
  | inl (h', a, returned) ↦ (
    h',
    a,
    returned,
    λ unchanged. changed (rw returned (unchanged ∙ (ap (λ r. r.0.table) (sym returned) ∙ same))),
  )
]

raise≢ok {ℓ} : {A : Type ℓ} {e : ApiFailure} {a : A} → raise e ≢ ok a
raise≢ok h = cc

-- If both steps returned, the first one did, and the second one from there.
pub Returns-later {ℓ κ} :
    {A : Type ℓ} {B : Type κ} (m : Handler A) (k : A → Handler B) (h h' : Hub) (b : B)
    → Returns (m >>= k) h h' b
    → (h1 : Hub) × (a : A) × Returns m h h1 a × Returns (k a) h1 h' b
Returns-later {B = B} m k h h' b returned = elim (outcome_cases (m h)) [
  | inr (h1, e, stopped) ↦ absurd (failed h1 e (ap (continue k) (sym stopped) ∙ returned))
  | inl (h1, a, first) ↦ (h1, a, first, ap (continue k) (sym first) ∙ returned)
]
  where
    failed :
        (h1 : Hub) (e : ApiFailure)
        → ◌≡◌ {A = Hub × Result ApiFailure B} (h1, raise e) (h', ok b)
        → ⊥
    failed h1 e same = raise≢ok (ap (λ x. x.1) same)

pub refuse_unless-Returns :
    (b : Bool) (status : ℕ) (code message : String) (h h' : Hub)
    → Returns (refuse_unless b status code message) h h' tt
    → (b ≡ true) × (h' ≡ h)
refuse_unless-Returns true status code message h h' r = ground arith
refuse_unless-Returns false status code message h h' r = absurd (ground arith)

pub refuse_unless-same :
    (b : Bool) (status : ℕ) (code message : String) (h : Hub)
    → (refuse_unless b status code message h).0.table ≡ h.table
refuse_unless-same true status code message h = refl
refuse_unless-same false status code message h = refl

module _ (c : Crypto) (p : Platform) (net : Net) where
  require_admin-same :
      (found : Option AuthenticatedPrincipal) (h : Hub) → (require_admin c p net found h).0 ≡ h
  unfolding require_admin
  require_admin-same none h = refl
  require_admin-same (some principal) h = ground arith

  -- A call from a loopback address by an administrator.
  pub record IsAdminCall (reachable : Bool) (r : ApiRequest) (h : Hub)
      (principal : AuthenticatedPrincipal) : Type 0 where
    pub loopback : is_loopback_client net r ≡ true
    pub known : (authenticate_request c p net reachable r h).1 ≡ ok (some principal)
    pub is_admin : has_scope principal pairing_admin_scope ≡ true

  -- A call from a loopback address by the paired device of this credential.
  pub record IsDeviceCall (reachable : Bool) (r : ApiRequest) (h : Hub)
      (principal : AuthenticatedPrincipal) (id : Uuid) : Type 0 where
    pub loopback : is_loopback_client net r ≡ true
    pub known : (authenticate_request c p net reachable r h).1 ≡ ok (some principal)
    pub is_paired : principal.kind ≡ paired
    pub is_own : principal.credential_id ≡ some id

  pub require_loopback_admin-same :
      (reachable : Bool) (r : ApiRequest) (h : Hub)
      → (require_loopback_admin c p net reachable r h).0 ≡ h
  unfolding require_loopback_admin require_loopback authenticate_request require_admin
  require_loopback_admin-same reachable r h = ground arith

  pub require_loopback_admin-Returns :
      (reachable : Bool) (r : ApiRequest) (h h' : Hub) (principal : AuthenticatedPrincipal)
      → Returns (require_loopback_admin c p net reachable r) h h' principal
      → (h' ≡ h) × IsAdminCall reachable r h principal
  unfolding require_loopback_admin require_loopback authenticate_request require_admin
  require_loopback_admin-Returns reachable r h h' principal returned = ground arith

  require_paired_principal-same :
      (reachable : Bool) (r : ApiRequest) (h : Hub)
      → (require_paired_principal c p net reachable r h).0 ≡ h
  unfolding require_paired_principal authenticate_request require_paired
  require_paired_principal-same reachable r h = ground arith

  require_paired_principal-Returns :
      (reachable : Bool) (r : ApiRequest) (h h' : Hub) (principal : AuthenticatedPrincipal)
      (id : Uuid)
      → Returns (require_paired_principal c p net reachable r) h h' (principal, id)
      → (h' ≡ h)
        × ((authenticate_request c p net reachable r h).1 ≡ ok (some principal))
        × (principal.kind ≡ paired)
        × (principal.credential_id ≡ some id)
  unfolding require_paired_principal authenticate_request require_paired
  require_paired_principal-Returns reachable r h h' principal id returned = ground arith

  pub audit-same :
      (tick : AuditTick) (fail_closed : Bool) (x : AuditEntry) (h : Hub)
      → (audit c p net tick fail_closed x h).0.table ≡ h.table
  unfolding audit
  audit-same (now, reachable) fail_closed x h = refl

  pub require_audit_ready-same :
      (reachable : Bool) (h : Hub) → (require_audit_ready c p net reachable h).0.table ≡ h.table
  unfolding require_audit_ready
  require_audit_ready-same reachable h = refl

  -- The audit log verified, and took the entry of a request, before anything else happened.
  pub record IsAudited (env : Env) (x : AuditEntry) (h : Hub) : Type 0 where
    pub checked : Hub
    pub ready : Returns (require_audit_ready c p net env.audit_ready) h checked tt
    pub written : Hub
    pub recorded : Returns (audit c p net env.first true x) checked written tt

  module _ (env : Env) (x : AuditEntry) where
    pub Changes-IsAudited :
        {A : Type 0} (k : Handler A) (h : Hub)
        → Changes
            (require_audit_ready c p net env.audit_ready >> (audit c p net env.first true x >> k))
            h
        → IsAudited env x h
    Changes-IsAudited k h changed =
        let (h1, u, ready, changed1) =
          Changes-later (require_audit_ready c p net env.audit_ready)
            (λ _. audit c p net env.first true x >> k) h
            (require_audit_ready-same env.audit_ready h) changed in
        let (h2, u', recorded, changed2) =
          Changes-later (audit c p net env.first true x) (λ _. k) h1
            (audit-same env.first true x h1) changed1 in
        record { checked = h1; ready = ready; written = h2; recorded = recorded }

  module _ (rs : Redemptions) (env : Env) where
    pub revoke_audited-IsAudited :
        (requested performed : String) (principal : AuthenticatedPrincipal) (id : Uuid)
        (otherwise : ℕ × String × String) (h : Hub)
        → Changes (revoke_audited c p net rs env requested performed principal id otherwise) h
        → IsAudited env (entry_of c p net requested (some principal) (some id) none) h
    unfolding revoke_audited
    revoke_audited-IsAudited requested performed principal id otherwise h changed =
        Changes-IsAudited env (entry_of c p net requested (some principal) (some id) none)
          (perform_revocation c p net rs env performed principal id otherwise) h changed

    -- Where a revocation by an administrator changes the credential table, its caller is an
    -- administrator on a loopback address, and the request was in the audit log before.
    pub revoke_paired_credential-IsWarranted :
        (id : Uuid) (r : ApiRequest) (h : Hub)
        → Changes (revoke_paired_credential c p net rs env id r) h
        → (principal : AuthenticatedPrincipal) × IsAdminCall env.store_reachable r h principal
          × IsAudited env
              (entry_of c p net "credential.admin_revoke_requested" (some principal) (some id) none)
              h
          × DiffersOnlyAt id h.table (revoke_paired_credential c p net rs env id r h).0.table
          × (is_active true id (revoke_paired_credential c p net rs env id r h).0.table ≡ ok false)
    unfolding revoke_paired_credential revoke_by_admin
    revoke_paired_credential-IsWarranted id r h changed =
        let (h1, principal, returned, changed1) =
          Changes-later (require_loopback_admin c p net env.store_reachable r)
            (revoke_by_admin c p net rs env id) h
            (ap (λ x. x.table) (require_loopback_admin-same env.store_reachable r h)) changed in
        let (same, call) =
          require_loopback_admin-Returns env.store_reachable r h h1 principal returned in
        let x =
          entry_of c p net "credential.admin_revoke_requested" (some principal) (some id) none in
        let otherwise : ℕ × String × String =
          (404, "credential_not_found", "Active credential was not found.") in
        let performed =
          revoke_audited c p net rs env "credential.admin_revoke_requested"
            "credential.admin_revoke" principal id otherwise in
        let after = (performed h1).0.table in
        let at : (revoke_paired_credential c p net rs env id r h).0.table ≡ after =
          ap (λ x. x.0.table) (ap (continue (revoke_by_admin c p net rs env id)) returned) in
        let (only, inactive) =
          revoke_audited-DiffersOnlyAt c p net rs env "credential.admin_revoke_requested"
            "credential.admin_revoke" principal id otherwise h1 changed1 in
        (
          principal,
          call,
          subst (IsAudited env x) same (
              revoke_audited-IsAudited "credential.admin_revoke_requested" "credential.admin_revoke"
                principal id otherwise h1 changed1),
          rw at (subst (λ g. DiffersOnlyAt id g.table after) same only),
          rw at inactive,
        )

    -- What precedes a change by the device itself
    pub device-later :
        {A : Type 0} (k : AuthenticatedPrincipal × Uuid → Handler A) (r : ApiRequest) (h : Hub)
        → Changes
            (require_loopback net r
              >> (require_paired_principal c p net env.store_reachable r >>= k))
            h
        → (principal : AuthenticatedPrincipal) × (id : Uuid) × IsDeviceCall env.store_reachable r h
            principal id
          × Changes (k (principal, id)) h
          × ((require_loopback net r
                >> (require_paired_principal c p net env.store_reachable r >>= k))
              h).0.table
            ≡ (k (principal, id) h).0.table
    unfolding require_loopback
    device-later k r h changed =
        let (h0, u, local, changed0) =
          Changes-later (require_loopback net r)
            (λ _. require_paired_principal c p net env.store_reachable r >>= k) h
            (refuse_unless-same (is_loopback_client net r) 403 _ _ h) changed in
        let (here, same0) = refuse_unless-Returns (is_loopback_client net r) 403 _ _ h h0 local in
        let (h1, (principal, id), returned, changed1) =
          Changes-later (require_paired_principal c p net env.store_reachable r) k h0
            (ap (λ x. x.table) (require_paired_principal-same env.store_reachable r h0)) changed0 in
        let (same1, known, is_paired, is_own) =
          require_paired_principal-Returns env.store_reachable r h0 h1 principal id returned in
        (
          principal,
          id,
          record {
            loopback = here;
            known = rw (← same0) known;
            is_paired = is_paired;
            is_own = is_own;
          },
          subst (Changes (k (principal, id))) (same1 ∙ same0) changed1,
          ap (λ x. x.0.table)
                (ap (continue (λ _. require_paired_principal c p net env.store_reachable r >>= k))
                    local
                  ∙ ap (continue k) returned)
              ∙ ap (λ g. (k (principal, id) g).0.table) (same1 ∙ same0),
        )
