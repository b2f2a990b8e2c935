-- ===== src/Http/Mutations.antt =====
-- All routes of pairing_api.py, and which of them may change the credential table.
use mathlib.Core.Path.{subst}
use goffy_os.Prelude.{
  String, ◌≡◌, ◌≢◌, refl, ◌∙◌, true, false, Option, none, some, arith, string_eq,
}
use goffy_os.Protocol.{Uuid}
use goffy_os.Approval.{Crypto}
use goffy_os.Prelude.Result.{ok}
use goffy_os.Credentials.{Platform, is_active}
use goffy_os.Auth.Principal.{AuthenticatedPrincipal}
use goffy_os.Http.{
  Hub, ApiRequest, Net, Handler, ◌>>=◌, is_loopback_client, require_loopback,
  require_loopback_admin, require_admin, authenticate_request, entry_of, audit,
}
use goffy_os.Http.PairingRequests.{Redemptions, Env, PairingRedemptionRequest, bearer_token}
use goffy_os.Http.PairingRoutes.{
  read_hub_identity, create_pairing_challenge, create_pairing_bundle, begin_pairing_challenge,
  websocket_endpoint, list_paired_credentials, read_redemption, redeem_pairing_challenge,
  redeem_audited, perform_redemption, revoke_own_paired_credential, revoke_own,
  revoke_paired_credential, rotate_own_paired_credential, rotate_audited, perform_rotation,
  found_or,
}
use goffy_os.Http.Changed.{
  DiffersOnlyAt, HasTokenOf, known-HasTokenOf, revoke_audited-DiffersOnlyAt,
  rotate_audited-DiffersOnlyAt,
}
use goffy_os.Http.Warrants.{
  Changes, Returns, Changes-later, refuse_unless-Returns, refuse_unless-same, IsAdminCall,
  IsDeviceCall, IsAudited, Changes-IsAudited, revoke_audited-IsAudited,
  revoke_paired_credential-IsWarranted, device-later,
}

pub data RouteCall : Type 0 where
  reads_identity creates_challenge lists_credentials redeems self_revokes rotates : RouteCall
  creates_bundle : (String → String) → RouteCall
  admin_revokes : Uuid → RouteCall

module _ (c : Crypto) (p : Platform) (net : Net) (rs : Redemptions) (env : Env) where
  -- The Hub after a call
  unfoldable pub after_call : RouteCall → ApiRequest → Hub → Hub
  after_call reads_identity r h = (read_hub_identity c p net rs env (tt {0}) r h).0
  after_call creates_challenge r h = (create_pairing_challenge c p net rs env r h).0
  after_call (creates_bundle strip_brackets) r h =
      (create_pairing_bundle c p net rs env strip_brackets r h).0
  after_call lists_credentials r h = (list_paired_credentials c p net rs env r h).0
  after_call redeems r h = (redeem_pairing_challenge c p net rs env r h).0
  after_call self_revokes r h = (revoke_own_paired_credential c p net rs env r h).0
  after_call rotates r h = (rotate_own_paired_credential c p net rs env r h).0
  after_call (admin_revokes id) r h = (revoke_paired_credential c p net rs env id r h).0

  -- What must hold of a call that changes the table.
  pub IsWarranted : RouteCall → ApiRequest → Hub → Type 0
  IsWarranted reads_identity r h = ⊥
  IsWarranted creates_challenge r h = ⊥
  IsWarranted (creates_bundle strip_brackets) r h = ⊥
  IsWarranted lists_credentials r h = ⊥
  IsWarranted redeems r h =
      (is_loopback_client net r ≡ true)
      × IsAudited c p net env (entry_of c p net "challenge.redeem_requested" none none none) h
  IsWarranted self_revokes r h =
      (principal : AuthenticatedPrincipal) × (id : Uuid) × IsDeviceCall c p net env.store_reachable
        r h principal id
      × IsAudited c p net env
          (entry_of c p net "credential.self_revoke_requested" (some principal) (some id) none) h
      × HasTokenOf c p net env.store_reachable r h id
      × DiffersOnlyAt id h.table (after_call self_revokes r h).table
      × (is_active true id (after_call self_revokes r h).table ≡ ok false)
  IsWarranted rotates r h =
      (principal : AuthenticatedPrincipal) × (id : Uuid) × IsDeviceCall c p net env.store_reachable
        r h principal id
      × IsAudited c p net env
          (entry_of c p net "credential.rotate_requested" (some principal) (some id) none) h
      × HasTokenOf c p net env.store_reachable r h id
      × DiffersOnlyAt id h.table (after_call rotates r h).table
  IsWarranted (admin_revokes id) r h =
      (principal : AuthenticatedPrincipal) × IsAdminCall c p net env.store_reachable r h principal
      × IsAudited c p net env
          (entry_of c p net "credential.admin_revoke_requested" (some principal) (some id) none) h
      × DiffersOnlyAt id h.table (after_call (admin_revokes id) r h).table
      × (is_active true id (after_call (admin_revokes id) r h).table ≡ ok false)

  -- A step that never changes the table, whatever the state.
  abbrev Keeps {ℓ} : {A : Type ℓ} → Handler A → Type 0
  Keeps m = (h : Hub) → (m h).0.table ≡ h.table

  read_redemption-Keeps : (r : ApiRequest) → Keeps (read_redemption c p net rs env r)
  unfolding read_redemption
  read_redemption-Keeps r h = ground arith

  read_redemption-Returns :
      (r : ApiRequest) (h h' : Hub) (redemption : PairingRedemptionRequest)
      → Returns (read_redemption c p net rs env r) h h' redemption
      → h' ≡ h
  unfolding read_redemption
  read_redemption-Returns r h h' redemption returned = ground arith

  read_hub_identity-Keeps : (r : ApiRequest) → Keeps (read_hub_identity c p net rs env (tt {0}) r)
  unfolding read_hub_identity require_loopback_admin require_loopback require_admin
      authenticate_request audit
  read_hub_identity-Keeps r h = ground arith

  create_pairing_challenge-Keeps :
      (r : ApiRequest) → Keeps (create_pairing_challenge c p net rs env r)
  unfolding create_pairing_challenge require_loopback_admin require_loopback require_admin
      authenticate_request begin_pairing_challenge audit
  create_pairing_challenge-Keeps r h = ground arith

  create_pairing_bundle-Keeps :
      (strip_brackets : String → String) (r : ApiRequest)
      → Keeps (create_pairing_bundle c p net rs env strip_brackets r)
  unfolding create_pairing_bundle require_loopback_admin require_loopback require_admin
      authenticate_request websocket_endpoint begin_pairing_challenge audit
  create_pairing_bundle-Keeps strip_brackets r h = ground arith

  list_paired_credentials-Keeps :
      (r : ApiRequest) → Keeps (list_paired_credentials c p net rs env r)
  unfolding list_paired_credentials require_loopback_admin require_loopback require_admin
      authenticate_request audit
  list_paired_credentials-Keeps r h = ground arith

  redeem_pairing_challenge-IsWarranted :
      (r : ApiRequest) (h : Hub)
      → Changes (redeem_pairing_challenge c p net rs env r) h
      → IsWarranted redeems r h
  unfolding redeem_pairing_challenge redeem_audited require_loopback IsWarranted
  redeem_pairing_challenge-IsWarranted r h changed =
      let x = entry_of c p net "challenge.redeem_requested" none none none in
      let (h0, u, local, changed0) =
        Changes-later (require_loopback net r)
          (λ _. read_redemption c p net rs env r >>= redeem_audited c p net rs env) h
          (refuse_unless-same (is_loopback_client net r) 403 _ _ h) changed in
      let (here, same) = refuse_unless-Returns (is_loopback_client net r) 403 _ _ h h0 local in
      let (h1, redemption, parsed, changed1) =
        Changes-later (read_redemption c p net rs env r) (redeem_audited c p net rs env) h0
          (read_redemption-Keeps r h0) changed0 in
      let same1 = read_redemption-Returns r h0 h1 redemption parsed in
      (
        here,
        subst (IsAudited c p net env x) (same1 ∙ same) (
            Changes-IsAudited c p net env x (perform_redemption c p net rs env redemption) h1
              changed1),
      )

  rotate_audited-IsAudited :
      (r : ApiRequest) (principal : AuthenticatedPrincipal) (id : Uuid) (h : Hub)
      → Changes (rotate_audited c p net rs env r (principal, id)) h
      → IsAudited c p net env
          (entry_of c p net "credential.rotate_requested" (some principal) (some id) none)
          h
  unfolding rotate_audited
  rotate_audited-IsAudited r principal id h changed = with_token (bearer_token r) refl
    where
      with_token :
          (token : Option String)
          → bearer_token r ≡ token
          → IsAudited c p net env
              (entry_of c p net "credential.rotate_requested" (some principal) (some id) none)
              h
      with_token none at = absurd (changed (rw (rotate_audited, at, found_or) refl))
      with_token (some token) at =
          Changes-IsAudited c p net env
            (entry_of c p net "credential.rotate_requested" (some principal) (some id) none)
            (perform_rotation c p net rs env principal id token) h
            (rw (rotate_audited, at, found_or) at changed)

  -- A route changes the credential table only where its caller may: a redemption comes from a
  -- loopback address, a revocation or rotation by the device from a loopback address with a bearer
  -- token that opens this credential, a revocation by an administrator from a loopback address with
  -- the scope for it. In each case the audit log had verified and had taken the entry of the request
  -- before. A revocation or rotation changes no row but those of its credential, and after a
  -- revocation the credential is not active. The other routes never change the table.
  pub after_call-IsWarranted :
      (call : RouteCall) (r : ApiRequest) (h : Hub)
      → (after_call call r h).table ≢ h.table
      → IsWarranted call r h
  unfolding after_call IsWarranted revoke_own_paired_credential rotate_own_paired_credential
      revoke_own
  after_call-IsWarranted reads_identity r h changed = changed (read_hub_identity-Keeps r h)
  after_call-IsWarranted creates_challenge r h changed =
      changed (create_pairing_challenge-Keeps r h)
  after_call-IsWarranted (creates_bundle strip_brackets) r h changed =
      changed (create_pairing_bundle-Keeps strip_brackets r h)
  after_call-IsWarranted lists_credentials r h changed = changed (list_paired_credentials-Keeps r h)
  after_call-IsWarranted redeems r h changed = redeem_pairing_challenge-IsWarranted r h changed
  after_call-IsWarranted (admin_revokes id) r h changed =
      revoke_paired_credential-IsWarranted c p net rs env id r h changed
  after_call-IsWarranted self_revokes r h changed =
      let (principal, id, call, changed1, at) =
        device-later c p net rs env (revoke_own c p net rs env) r h
          (unfold revoke_own_paired_credential in changed) in
      let (only, inactive) =
        revoke_audited-DiffersOnlyAt c p net rs env "credential.self_revoke_requested"
          "credential.self_revoke" principal id
          (409, "credential_not_active", "Paired credential is not active.") h
          (unfold revoke_own in changed1) in
      (
        principal,
        id,
        call,
        revoke_audited-IsAudited c p net rs env "credential.self_revoke_requested"
            "credential.self_revoke" principal id
            (409, "credential_not_active", "Paired credential is not active.") h
            (unfold revoke_own in changed1),
        known-HasTokenOf c p net env.store_reachable r h principal id call.known call.is_own,
        rw at only,
        rw at inactive,
      )
  after_call-IsWarranted rotates r h changed =
      let (principal, id, call, changed1, at) =
        device-later c p net rs env (rotate_audited c p net rs env r) r h
          (unfold rotate_own_paired_credential in changed) in
      let known =
        known-HasTokenOf c p net env.store_reachable r h principal id call.known call.is_own in
      (
        principal,
        id,
        call,
        rotate_audited-IsAudited r principal id h changed1,
        known,
        rw at (rotate_audited-DiffersOnlyAt c p net rs env r principal id h known changed1),
      )
