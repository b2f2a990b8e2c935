-- ===== src/Http/AuditRoutes.antt =====
-- The routes of hub/src/goffy_hub/operator_audit_api.py.
use mathlib.Core.List.{reverse}
use goffy_os.Prelude.{
  ℕ, zero, suc, ◌≡◌, refl, ◌∙◌, Bool, true, false, not, Option, none, some, List, [], ◌∷◌, arith,
  keep_if, take, nat_eq, string_eq, ◌==◌, if◌then◌else◌,
}
use goffy_os.Prelude.Result.{Result, ok, raise}
use goffy_os.Protocol.{Uuid}
use goffy_os.Approval.{Crypto}
use goffy_os.Credentials.{Platform}
use goffy_os.Audit.{AuditEvent}
use goffy_os.Audit.Window.{AuditSnapshot, LogError, snapshot}
use goffy_os.Auth.Principal.{AuthenticatedPrincipal, has_scope, safe_tool_scope}
use goffy_os.Http.{
  Hub, ApiRequest, Net, ApiFailure, unhandled, Handler, ◌>>=◌, ◌>>◌, answer, fail, refuse_unless,
  is_loopback_client, authenticate_request, require_admin,
}
use goffy_os.Http.Warrants.{Returns, Returns-later}

unfoldable pub require_loopback_here : Net → ApiRequest → Handler (Unit {0})
require_loopback_here net r =
    refuse_unless (is_loopback_client net r) 403 "loopback_required"
      "Audit retrieval is available on loopback only."

-- `event.credential_id is not None and event.credential_id == principal.credential_id`
unfoldable pub is_own_event : Option Uuid → AuditEvent → Bool
is_own_event (some mine) e = elim e.credential_id [ none ↦ false | some id ↦ id == mine ]
is_own_event none e = false

module _ (c : Crypto) (p : Platform) (net : Net) (reachable : Bool) where
  unfoldable pub require_paired_scope :
      Option AuthenticatedPrincipal → Handler (AuthenticatedPrincipal × Uuid)
  require_paired_scope none = fail 401 "authentication_required" "Paired authentication required."
  require_paired_scope (some principal) = elim principal.credential_id [
    | none ↦ fail 403 "insufficient_scope" "Paired device scope required."
    | some id ↦
        if has_scope principal safe_tool_scope
        then answer (principal, id)
        else fail 403 "insufficient_scope" "Paired device scope required."
  ]

  -- `_require_loopback_paired`, with the ID that the principal then has
  unfoldable pub require_loopback_paired : ApiRequest → Handler (AuthenticatedPrincipal × Uuid)
  unfolding require_paired_scope
  require_loopback_paired r = do
    require_loopback_here net r
    found ← authenticate_request c p net reachable r
    require_paired_scope found

  -- `_require_loopback_admin` of this module
  unfoldable pub require_audit_admin : ApiRequest → Handler AuthenticatedPrincipal
  require_audit_admin r = do
    require_loopback_here net r
    found ← authenticate_request c p net reachable r
    require_admin c p net found

  from_log : Result LogError AuditSnapshot → Result ApiFailure AuditSnapshot
  from_log (ok s) = ok s
  from_log (raise e) = raise unhandled

  -- `audit_log.snapshot`
  unfoldable pub read_snapshot : Option ℕ → Handler AuditSnapshot
  unfolding from_log
  read_snapshot limit h = (h, from_log (snapshot limit h.audit_log))

  -- GET /admin/v1/audit/events
  unfoldable pub list_operator_audit_events : ℕ → ApiRequest → Handler AuditSnapshot
  list_operator_audit_events limit r = do
    principal ← require_audit_admin r
    read_snapshot (some limit)

  own_events : ℕ → Uuid → AuditSnapshot → Handler AuditSnapshot
  own_events limit id s =
      answer (record s { events = take limit (keep_if (is_own_event (some id)) s.events) })

  list_own : ℕ → AuthenticatedPrincipal × Uuid → Handler AuditSnapshot
  list_own limit (principal, id) = read_snapshot none >>= own_events limit id

  -- GET /paired/v1/audit/events
  unfoldable pub list_paired_operator_audit_events : ℕ → ApiRequest → Handler AuditSnapshot
  unfolding own_events list_own
  list_paired_operator_audit_events limit r = do
    caller ← require_loopback_paired r
    list_own limit caller

  -- The caller is a paired device at a loopback address with the scope for SAFE tools.
  pub record IsScopedDevice (r : ApiRequest) (h : Hub) (principal : AuthenticatedPrincipal)
      (id : Uuid) : Type 0 where
    pub loopback : is_loopback_client net r ≡ true
    pub known : (authenticate_request c p net reachable r h).1 ≡ ok (some principal)
    pub is_own : principal.credential_id ≡ some id
    pub scoped : has_scope principal safe_tool_scope ≡ true

  require_loopback_paired-Returns :
      (r : ApiRequest) (h h' : Hub) (principal : AuthenticatedPrincipal) (id : Uuid)
      → Returns (require_loopback_paired r) h h' (principal, id)
      → (h' ≡ h) × IsScopedDevice r h principal id
  unfolding require_loopback_paired require_loopback_here authenticate_request require_paired_scope
  require_loopback_paired-Returns r h h' principal id returned = ground arith

  list_own-Returns :
      (limit : ℕ) (caller : AuthenticatedPrincipal × Uuid) (h h' : Hub) (s : AuditSnapshot)
      → Returns (list_own limit caller) h h' s
      → (h' ≡ h)
        × (s.events
            ≡ take limit (keep_if (is_own_event (some caller.1)) (reverse h.audit_log.events)))
  unfolding list_own own_events read_snapshot snapshot
  list_own-Returns limit caller h h' s returned = ground arith

  no_foreign :
      (id : Uuid) (limit : ℕ) (es : List AuditEvent)
      → keep_if
          (λ e. not (is_own_event (some id) e))
          (take limit (keep_if (is_own_event (some id)) es))
        ≡ []
  no_foreign id zero es = refl
  no_foreign id (suc limit) [] = refl
  no_foreign id (suc limit) (e ∷ es) =
      ground (arith, no_foreign id limit es, no_foreign id (suc limit) es)

  -- What a paired device is shown of the audit log: the call came from a loopback address with the
  -- token of a credential that has the scope for SAFE tools, the Hub stays as it was, and the events
  -- are the newest ones of this credential, at most `limit`, with none of another credential.
  pub list_paired_operator_audit_events-own :
      (limit : ℕ) (r : ApiRequest) (h h' : Hub) (s : AuditSnapshot)
      → list_paired_operator_audit_events limit r h ≡ (h', ok s)
      → (principal : AuthenticatedPrincipal) × (id : Uuid) × IsScopedDevice r h principal id
        × (h' ≡ h)
        × (s.events ≡ take limit (keep_if (is_own_event (some id)) (reverse h.audit_log.events)))
        × (keep_if (λ e. not (is_own_event (some id) e)) s.events ≡ [])
  unfolding list_paired_operator_audit_events
  list_paired_operator_audit_events-own limit r h h' s returned =
      let (h1, (principal, id), paired, rest) =
        Returns-later (require_loopback_paired r) (list_own limit) h h' s returned in
      let (same, device) = require_loopback_paired-Returns r h h1 principal id paired in
      let (same', shown) = list_own-Returns limit (principal, id) h1 h' s rest in
      (
        principal,
        id,
        device,
        same' ∙ same,
        rw (← same) shown,
        rw (shown) (no_foreign id limit (reverse h1.audit_log.events)),
      )
