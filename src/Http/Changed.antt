-- ===== src/Http/Changed.antt =====
-- Which rows of the credential table the routes of pairing_api.py change, and whose token they take.
use Prim.Native.String as Text
use goffy_os.Prelude.{
  ℕ, String, ◌≡◌, ◌≢◌, ◌⊎◌, refl, ◌∙◌, inl, inr, Bool, true, false, Option, none, some, [], ◌∷◌,
  map, arith, Bool-cases, Option-cases, nat_eq, nat_beq_iff,
}
use goffy_os.Prelude.Result.{ok, Result-cases}
use goffy_os.Protocol.{Uuid}
use goffy_os.Approval.{Bytes, Crypto}
use goffy_os.Credentials.{
  Platform, Table, PairedCredential, has_id, set_revoked, revoke, set_digest, token_digest,
  replace_digest, rotate, is_active, authenticate, token_digest,
}
use goffy_os.Credentials.Revocation.{is_active-revoke}
use goffy_os.Auth.Principal.{AuthenticatedPrincipal}
use goffy_os.Auth.Authenticator.{
  authenticate_header, authenticate_token, authenticate_paired, paired_principal,
  bootstrap_principal,
}
use goffy_os.Http.{
  Hub, ApiRequest, Net, authenticate_request, authenticator_of, require_audit_ready, audit,
  revoke_live_access,
}
use goffy_os.Http.PairingRequests.{Redemptions, Env, bearer_token}
use goffy_os.Http.PairingRoutes.{
  revoke_audited, perform_revocation, revoke_stored, rotate_audited, perform_rotation,
  rotate_stored, found_or,
}

-- Both tables have the same IDs in the same order, and all rows but those of `id` are the same.
abbrev pub DiffersOnlyAt : Uuid → Table → Table → Type 0
DiffersOnlyAt id [] [] = Unit
DiffersOnlyAt id (r ∷ t) [] = ⊥
DiffersOnlyAt id [] (r ∷ t) = ⊥
DiffersOnlyAt id (r ∷ t) (r' ∷ t') =
    (r'.credential_id ≡ r.credential_id)
    × ((r' ≡ r) ⊎ (r.credential_id ≡ id))
    × DiffersOnlyAt id t t'

same-DiffersOnlyAt : (id : Uuid) (t : Table) → DiffersOnlyAt id t t
same-DiffersOnlyAt id [] = tt
same-DiffersOnlyAt id (r ∷ t) = (refl, inl refl, same-DiffersOnlyAt id t)

module _ (p : Platform) where
  set_revoked-DiffersOnlyAt :
      (id : Uuid) (stamp : String) (t : Table) → DiffersOnlyAt id t (map (set_revoked p id stamp) t)
  unfolding set_revoked
  set_revoked-DiffersOnlyAt id stamp [] = tt
  set_revoked-DiffersOnlyAt id stamp (r ∷ t) = elim (Bool-cases (has_id id r)) [
    | inl own ↦ (
      ground arith,
      inr (ground (arith, nat_beq_iff r.credential_id id)),
      set_revoked-DiffersOnlyAt id stamp t,
    )
    | inr other ↦ (ground arith, inl (ground arith), set_revoked-DiffersOnlyAt id stamp t)
  ]

  set_digest-DiffersOnlyAt :
      (id : Uuid) (old new : Bytes) (t : Table)
      → DiffersOnlyAt id t (map (set_digest p id old new) t)
  unfolding set_digest
  set_digest-DiffersOnlyAt id old new [] = tt
  set_digest-DiffersOnlyAt id old new (r ∷ t) = elim (Bool-cases (has_id id r)) [
    | inl own ↦ (
      ground arith,
      inr (ground (arith, nat_beq_iff r.credential_id id)),
      set_digest-DiffersOnlyAt id old new t,
    )
    | inr other ↦ (ground arith, inl (ground arith), set_digest-DiffersOnlyAt id old new t)
  ]

  revoke-DiffersOnlyAt :
      (reachable : Bool) (now : ℕ) (id : Uuid) (t : Table)
      → DiffersOnlyAt id t (revoke p reachable now id t).0
  unfolding revoke
  revoke-DiffersOnlyAt reachable now id t =
      ground (arith, same-DiffersOnlyAt id t, set_revoked-DiffersOnlyAt id (p.iso now) t)

  -- A revocation that changes the table leaves the credential inactive.
  revoke-inactive :
      (reachable : Bool) (now : ℕ) (id : Uuid) (t : Table)
      → (revoke p reachable now id t).0 ≢ t
      → is_active true id (revoke p reachable now id t).0 ≡ ok false
  revoke-inactive true now id t changed = is_active-revoke p now id t
  revoke-inactive false now id t changed = absurd (changed (unfold revoke in refl))

  rotate-DiffersOnlyAt :
      (reachable : Bool) (now : ℕ) (new_token : String) (id : Uuid) (token : String) (t : Table)
      → DiffersOnlyAt id t (rotate p reachable now new_token id token t).0
  unfolding rotate replace_digest
  rotate-DiffersOnlyAt reachable now new_token id token t = ground (
    arith,
    same-DiffersOnlyAt id t,
    set_digest-DiffersOnlyAt id (token_digest p token) (token_digest p new_token) t,
  )

module _ (c : Crypto) (p : Platform) (net : Net) where
  -- The bearer token of a request opens the row of a credential.
  pub record HasTokenOf (reachable : Bool) (r : ApiRequest) (h : Hub) (id : Uuid) : Type 0 where
    pub token : String
    pub given : bearer_token r ≡ some token
    pub credential : PairedCredential
    pub opens : authenticate p reachable token h.table ≡ ok (some credential)
    pub is_own : credential.credential_id ≡ id

  pub known-HasTokenOf :
      (reachable : Bool) (r : ApiRequest) (h : Hub) (principal : AuthenticatedPrincipal) (id : Uuid)
      → (authenticate_request c p net reachable r h).1 ≡ ok (some principal)
      → principal.credential_id ≡ some id
      → HasTokenOf reachable r h id
  unfolding authenticate_request authenticate_header authenticate_token authenticate_paired
      paired_principal bootstrap_principal authenticator_of bearer_token
  known-HasTokenOf reachable r h principal id known own = elim (Option-cases r.authorization) [
    | inl missing ↦ absurd (ground arith)
    | inr (header, given) ↦
        let token = Text.slice header 7 (Text.len header) in
        elim (Result-cases (authenticate p reachable token h.table)) [
          | inr (e, bad) ↦ absurd (ground arith)
          | inl (found, good) ↦ opened header given found good
        ]
  ]
    where
      opened :
          (header : String)
          → r.authorization ≡ some header
          → (found : Option PairedCredential)
          → authenticate p reachable (Text.slice header 7 (Text.len header)) h.table ≡ ok found
          → HasTokenOf reachable r h id
      opened header given none good = absurd (ground arith)
      opened header given (some credential) good = record {
        token = Text.slice header 7 (Text.len header);
        given = ground arith;
        credential = credential;
        opens = good;
        is_own = ground arith;
      }

  module _ (rs : Redemptions) (env : Env) where
    revoke_audited-table :
        (requested performed : String) (principal : AuthenticatedPrincipal) (id : Uuid)
        (otherwise : ℕ × String × String) (h : Hub)
        → let t' =
            (revoke_audited c p net rs env requested performed principal id otherwise h).0.table in
          t' ≢ h.table → t' ≡ (revoke p env.store_reachable env.now id h.table).0
    unfolding revoke_audited perform_revocation revoke_stored found_or revoke_live_access
        require_audit_ready audit
    revoke_audited-table requested performed principal id otherwise h changed = ground arith

    rotate_audited-table :
        (r : ApiRequest) (principal : AuthenticatedPrincipal) (id : Uuid) (token : String) (h : Hub)
        → bearer_token r ≡ some token
        → let t' = (rotate_audited c p net rs env r (principal, id) h).0.table in
          t' ≢ h.table
          → t' ≡ (rotate p env.store_reachable env.now env.drawn_token id token h.table).0
    unfolding rotate_audited perform_rotation rotate_stored found_or revoke_live_access
        require_audit_ready audit
    rotate_audited-table r principal id token h given changed = ground arith

    -- What a revocation that changes the table does to it
    pub revoke_audited-DiffersOnlyAt :
        (requested performed : String) (principal : AuthenticatedPrincipal) (id : Uuid)
        (otherwise : ℕ × String × String) (h : Hub)
        → let t' =
            (revoke_audited c p net rs env requested performed principal id otherwise h).0.table in
          t' ≢ h.table → DiffersOnlyAt id h.table t' × (is_active true id t' ≡ ok false)
    revoke_audited-DiffersOnlyAt requested performed principal id otherwise h changed =
        let same = revoke_audited-table requested performed principal id otherwise h changed in
        (
          rw same (revoke-DiffersOnlyAt p env.store_reachable env.now id h.table),
          rw same
              (revoke-inactive p env.store_reachable env.now id h.table (λ e. changed (same ∙ e))),
        )

    pub rotate_audited-DiffersOnlyAt :
        (r : ApiRequest) (principal : AuthenticatedPrincipal) (id : Uuid) (h : Hub)
        → HasTokenOf env.store_reachable r h id
        → let t' = (rotate_audited c p net rs env r (principal, id) h).0.table in
          t' ≢ h.table → DiffersOnlyAt id h.table t'
    rotate_audited-DiffersOnlyAt r principal id h known changed =
        rw (rotate_audited-table r principal id known.token h known.given changed) (
          rotate-DiffersOnlyAt p env.store_reachable env.now env.drawn_token id known.token h.table)
