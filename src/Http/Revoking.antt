-- ===== src/Http/Revoking.antt =====
-- What a revocation through pairing_api.py does to the live access of a device: its token, its
-- sockets and its MCP sessions.
use mathlib.Core.Path.{subst}
use goffy_os.Prelude.{
  ℕ, String, ◌≡◌, refl, inl, inr, true, false, none, some, ◌++◌, arith, Bool-cases, if◌then◌else◌,
  nat_eq, string_eq, nat_beq_iff,
}
use goffy_os.Prelude.Result.{ok}
use goffy_os.Prelude.Dict.{get, IsDistinct, get-remove, get-remove_all}
use goffy_os.Protocol.{Uuid}
use goffy_os.Approval.{Crypto}
use goffy_os.Credentials.{Platform, PairedCredential, authenticate, is_active, revoke}
use goffy_os.Credentials.Invariant.{IsValid}
use goffy_os.Credentials.Revocation.{revoke-authenticate, is_active-revoke}
use goffy_os.Auth.Principal.{AuthenticatedPrincipal}
use goffy_os.Connections.{revoke_sockets, sockets_of}
use goffy_os.Mcp.Manager.{terminate_client}
use goffy_os.Mcp.Manager.Termination.{is_session_of, terminate_client-EndsSessions}
use goffy_os.Mcp.Slots.{remove_sessions}
use goffy_os.Http.{
  Hub, ApiRequest, Net, ◌>>◌, require_loopback_admin, entry_of, audit, require_audit_ready,
  revoke_live_access, paired_client_id,
}
use goffy_os.Http.PairingRequests.{Redemptions, Env, RevocationResponse, from_store}
use goffy_os.Http.PairingRoutes.{
  revoke_stored, perform_revocation, revoke_audited, revoke_by_admin, revoke_paired_credential,
  found_or,
}
use goffy_os.Audit.Window.{AuditEntry}
use goffy_os.Http.Warrants.{Returns, Returns-later, require_loopback_admin-Returns}

module _ (c : Crypto) (p : Platform) (net : Net) where
  -- The Hub after a revocation, but for the audit log
  record Revoked (env : Env) (id : Uuid) (h h' : Hub) : Type 0 where
    reachable : env.store_reachable ≡ true
    table : h'.table ≡ (revoke p true env.now id h.table).0
    connections : h'.connections ≡ (revoke_sockets id h.connections).0
    closed : h'.closed ≡ h.closed ++ (revoke_sockets id h.connections).1
    manager : h'.manager ≡ (terminate_client (paired_client_id c p net id) h.manager).0
    slots :
        h'.slots
        ≡ remove_sessions (terminate_client (paired_client_id c p net id) h.manager).1 h.slots

  module _ (rs : Redemptions) (env : Env) (id : Uuid) where
    perform_revocation-Revoked :
        (performed : String) (principal : AuthenticatedPrincipal) (otherwise : ℕ × String × String)
        (h h' : Hub) (response : RevocationResponse)
        → Returns (perform_revocation c p net rs env performed principal id otherwise) h h' response
        → Revoked env id h h'
    unfolding perform_revocation revoke_stored revoke_live_access audit from_store found_or revoke
    perform_revocation-Revoked performed principal (status, code, message) h h' response returned =
        elim (Bool-cases env.store_reachable) [
          | inr down ↦ absurd (ground arith)
          | inl up ↦ ground arith
        ]

    -- What the readiness check and the entry of the request leave of the Hub
    record SameButLog (h h1 : Hub) : Type 0 where
      table : h1.table ≡ h.table
      connections : h1.connections ≡ h.connections
      closed : h1.closed ≡ h.closed
      manager : h1.manager ≡ h.manager
      slots : h1.slots ≡ h.slots

    require_audit_ready-SameButLog :
        (h h1 : Hub)
        → Returns (require_audit_ready c p net env.audit_ready) h h1 tt
        → SameButLog h h1
    unfolding require_audit_ready
    require_audit_ready-SameButLog h h1 returned = ground arith

    audit-SameButLog :
        (x : AuditEntry) (h h1 : Hub)
        → Returns (audit c p net env.first true x) h h1 tt
        → SameButLog h h1
    unfolding audit
    audit-SameButLog x h h1 returned = ground arith

    earlier : (h h1 h' : Hub) → SameButLog h h1 → Revoked env id h1 h' → Revoked env id h h'
    earlier h h1 h' same after = record {
      reachable = after.reachable;
      table = rw (← same.table) after.table;
      connections = rw (← same.connections) after.connections;
      closed = rw (← same.connections, ← same.closed) after.closed;
      manager = rw (← same.manager) after.manager;
      slots = rw (← same.manager, ← same.slots) after.slots;
    }

    revoke_audited-Revoked :
        (requested performed : String) (principal : AuthenticatedPrincipal)
        (otherwise : ℕ × String × String) (h h' : Hub) (response : RevocationResponse)
        → Returns
            (revoke_audited c p net rs env requested performed principal id otherwise)
            h
            h'
            response
        → Revoked env id h h'
    unfolding revoke_audited
    revoke_audited-Revoked requested performed principal otherwise h h' response returned =
        let x = entry_of c p net requested (some principal) (some id) none in
        let k = perform_revocation c p net rs env performed principal id otherwise in
        let (h1, u, ready, rest) =
          Returns-later (require_audit_ready c p net env.audit_ready)
            (λ _. audit c p net env.first true x >> k) h h' response returned in
        let (h2, v, kept, last) =
          Returns-later (audit c p net env.first true x) (λ _. k) h1 h' response rest in
        earlier h h1 h' (require_audit_ready-SameButLog h h1 ready) (
          earlier h1 h2 h' (audit-SameButLog x h1 h2 kept)
            (perform_revocation-Revoked performed principal otherwise h2 h' response last))

    revoke_paired_credential-Revoked :
        (r : ApiRequest) (h h' : Hub) (response : RevocationResponse)
        → Returns (revoke_paired_credential c p net rs env id r) h h' response
        → Revoked env id h h'
    unfolding revoke_paired_credential revoke_by_admin
    revoke_paired_credential-Revoked r h h' response returned =
        let (h1, principal, admin, rest) =
          Returns-later (require_loopback_admin c p net env.store_reachable r)
            (revoke_by_admin c p net rs env id) h h' response returned in
        let same =
          (require_loopback_admin-Returns c p net env.store_reachable r h h1 principal admin).0 in
        subst (λ x. Revoked env id x h') same
          (revoke_audited-Revoked _ _ principal _ h1 h' response rest)

  -- The access of a credential after `h'`, where the Hub was `h` before
  pub record LosesAccess (id : Uuid) (h h' : Hub) : Type 0 where
    pub inactive : is_active true id h'.table ≡ ok false
    pub no_token : ¬ (
        (token : String) × (credential : PairedCredential) × (authenticate p true token h'.table
          ≡ ok (some credential))
        × (credential.credential_id ≡ id))
    pub no_socket : get h'.connections id ≡ none
    pub sockets_closed : h'.closed ≡ h.closed ++ sockets_of h.connections id
    pub owner :
        (s : String)
        → get h'.manager.session_owners s ≡ (
            if is_session_of (paired_client_id c p net id) h.manager s
            then none
            else get h.manager.session_owners s)
    pub transport :
        (s : String)
        → get h'.manager.server_instances s ≡ (
            if is_session_of (paired_client_id c p net id) h.manager s
            then none
            else get h.manager.server_instances s)
    pub slot :
        (s : String)
        → get h'.slots.active_sessions s ≡ (
            if is_session_of (paired_client_id c p net id) h.manager s
            then none
            else get h.slots.active_sessions s)

  -- After an administrator's revocation that returned, in a Hub with a valid table and one owner
  -- for each MCP session, the credential is not active, no token opens it, its sockets are no longer
  -- registered and were all added to the closed ones, and its MCP sessions have no owner, no
  -- transport and no slot, while other sessions keep theirs.
  pub revoke_paired_credential-LosesAccess :
      (rs : Redemptions) (env : Env) (id : Uuid) (r : ApiRequest) (h h' : Hub)
      (response : RevocationResponse)
      → IsValid h.table
      → IsDistinct h.manager.session_owners
      → revoke_paired_credential c p net rs env id r h ≡ (h', ok response)
      → LosesAccess id h h'
  unfolding revoke_sockets remove_sessions
  revoke_paired_credential-LosesAccess rs env id r h h' response v u returned =
      let after = revoke_paired_credential-Revoked rs env id r h h' response returned in
      let client = paired_client_id c p net id in
      let ids = (terminate_client client h.manager).1 in
      let ends = λ (s : String). terminate_client-EndsSessions client h.manager s u in
      record {
        inactive = rw (after.table) (is_active-revoke p env.now id h.table);
        no_token = λ (token, credential, opened, same).
            (revoke-authenticate p env.now id h.table token credential v).1
              (rw (after.table) at opened, same);
        no_socket =
            rw (after.connections, get-remove h.connections id id)
              (ground (arith, nat_beq_iff id id));
        sockets_closed = after.closed;
        owner = λ s. rw (after.manager, (ends s).owner) refl;
        transport = λ s. rw (after.manager, (ends s).instance_gone) refl;
        slot =
            λ s. rw (after.slots, get-remove_all h.slots.active_sessions ids s, (ends s).told) refl;
      }
