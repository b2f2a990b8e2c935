-- ===== src/Http/PairingRoutes.antt =====
-- The routes of hub/src/goffy_hub/pairing_api.py.
use Prim.Native.String as Text
use goffy_os.Prelude.{
  ℕ, String, true, false, not, Option, none, some, List, [], length, nat_eq, string_eq, ◌==◌,
  if◌then◌else◌,
}
use goffy_os.Prelude.Result.{ok, raise}
use goffy_os.Protocol.{Uuid}
use goffy_os.Approval.{Bytes, Crypto, validate_approval_public_key_spki_der}
use goffy_os.Credentials.{
  Platform, PairedCredential, IssuedCredential, RotatedCredential, active_count, list_credentials,
  revoke, rotate,
}
use goffy_os.Pairing.{PairingChallenge, begin, complete}
use goffy_os.Auth.Principal.{AuthenticatedPrincipal}
use goffy_os.Http.{
  ApiRequest, Net, Handler, ◌>>=◌, ◌>>◌, answer, fail, refuse_unless, require_loopback,
  require_loopback_admin, require_paired_principal, entry_of, audit, require_audit_ready,
  revoke_live_access,
}
use goffy_os.Http.PairingRequests.{
  ApprovalPublicKeyRequest, PairingRedemptionRequest, Redemptions, Env, RevocationResponse,
  PairingBundle, from_store, from_completion, from_begin, join_chunks, is_loopback_host,
  bearer_token,
}

module _ (c : Crypto) (p : Platform) (net : Net) (rs : Redemptions) (env : Env) where
  -- `_begin_pairing_challenge`
  unfoldable pub begin_pairing_challenge : Handler PairingChallenge
  begin_pairing_challenge h = elim (active_count env.store_reachable h.table) [
    | raise e ↦ (h, from_store (raise e))
    | ok n ↦
        let (pending, begun) =
          begin p rs.challenge_ttl env.now env.drawn_token env.drawn_id h.pending in
        (record h { pending = pending }, from_begin begun)
  ]

  -- GET /admin/v1/hub-identity, which answers with what is public of the identity
  unfoldable pub read_hub_identity {ℓ} : {A : Type ℓ} → A → ApiRequest → Handler A
  read_hub_identity hub_identity r = do
    principal ← require_loopback_admin c p net env.store_reachable r
    audit c p net env.last true (entry_of c p net "hub_identity.read" (some principal) none none)
    answer hub_identity

  -- POST /admin/v1/pairing/challenges
  unfoldable pub create_pairing_challenge : ApiRequest → Handler PairingChallenge
  create_pairing_challenge r = do
    principal ← require_loopback_admin c p net env.store_reachable r
    challenge ← begin_pairing_challenge
    audit c p net env.last true (entry_of c p net "challenge.created" (some principal) none none)
    answer challenge

  -- `_websocket_endpoint_from_request`
  unfoldable pub websocket_endpoint : (String → String) → ApiRequest → Handler String
  websocket_endpoint strip_brackets r = elim r.hostname [
    | none ↦ fail 400 "loopback_host_required" "Pairing bundles require a loopback Host header."
    | some host ↦
        if is_loopback_host net strip_brackets host
        then answer (
            Text.◌++◌ (if rs.uses_tls then "wss" else "ws")
              (Text.◌++◌ "://127.0.0.1:" (Text.◌++◌ rs.port_text "/ws/v1")))
        else fail 400 "loopback_host_required" "Pairing bundles require a loopback Host header."
  ]

  -- POST /admin/v1/pairing/bundles
  unfoldable pub create_pairing_bundle : (String → String) → ApiRequest → Handler PairingBundle
  create_pairing_bundle strip_brackets r = do
    principal ← require_loopback_admin c p net env.store_reachable r
    hub_endpoint ← websocket_endpoint strip_brackets r
    challenge ← begin_pairing_challenge
    audit c p net env.last true (entry_of c p net "bundle.created" (some principal) none none)
    answer (record { hub_endpoint = hub_endpoint; challenge = challenge })

  parse_redemption : Option Bytes → Handler PairingRedemptionRequest
  parse_redemption none = fail 413 "pairing_request_too_large" "Pairing request is too large."
  parse_redemption (some body) = elim (rs.parse body) [
    | none ↦ fail 400 "invalid_pairing_request" "Pairing request is invalid."
    | some redemption ↦ answer redemption
  ]

  -- `request.headers.get("content-type", "")`
  content_type_of : ApiRequest → String
  content_type_of r = elim r.content_type [ none ↦ "" | some header ↦ header ]

  -- `_read_redemption`
  unfoldable pub read_redemption : ApiRequest → Handler PairingRedemptionRequest
  unfolding parse_redemption content_type_of
  read_redemption r = do
    refuse_unless (net.media_type (content_type_of r) == "application/json") 415 "json_required"
        "Pairing redemption requires JSON."
    parse_redemption (join_chunks [] r.chunks)

  -- `decode_spki_der`: `none` is its `ValueError`.
  unfoldable pub decode_spki_der : ApprovalPublicKeyRequest → Option Bytes
  decode_spki_der key = elim (c.b64decode key.spki_der_base64) [
    | none ↦ none
    | some decoded ↦
        if not (c.sha256_hex decoded == key.spki_sha256)
        then none
        else elim (validate_approval_public_key_spki_der c decoded) [
          | raise e ↦ none
          | ok _ ↦ some decoded
        ]
  ]

  decoded_key : Option Bytes → Handler Bytes
  decoded_key none = fail 400 "invalid_pairing_request" "Pairing request is invalid."
  decoded_key (some key) = answer key

  -- `pairing_service.complete` with its `except` clauses
  unfoldable pub complete_pairing : PairingRedemptionRequest → Bytes → Handler IssuedCredential
  complete_pairing redemption key h =
      let ((pending, table), issued) =
        complete p env.now env.store_reachable env.drawn_id env.issued_at env.drawn_token
          redemption.challenge_id redemption.pairing_token redemption.device_id
          redemption.display_name key (h.pending, h.table) in
      (record h { pending = pending; table = table }, from_completion issued)

  -- A redemption whose request is in the audit log
  unfoldable pub perform_redemption : PairingRedemptionRequest → Handler IssuedCredential
  unfolding decoded_key
  perform_redemption redemption = do
    key ← decoded_key (decode_spki_der redemption.approval_public_key)
    issued ← complete_pairing redemption key
    audit c p net env.last false
        (entry_of c p net "challenge.redeemed" none (some issued.credential.credential_id) none)
    answer issued

  unfoldable pub redeem_audited : PairingRedemptionRequest → Handler IssuedCredential
  redeem_audited redemption = do
    require_audit_ready c p net env.audit_ready
    audit c p net env.first true (entry_of c p net "challenge.redeem_requested" none none none)
    perform_redemption redemption

  -- POST /pairing/v1/redeem
  unfoldable pub redeem_pairing_challenge : ApiRequest → Handler IssuedCredential
  redeem_pairing_challenge r = do
    require_loopback net r
    redemption ← read_redemption r
    redeem_audited redemption

  stored_list : Handler (List PairedCredential)
  stored_list h = (h, from_store (list_credentials p env.store_reachable h.table))

  -- GET /admin/v1/credentials
  unfoldable pub list_paired_credentials : ApiRequest → Handler (List PairedCredential)
  unfolding stored_list
  list_paired_credentials r = do
    principal ← require_loopback_admin c p net env.store_reachable r
    credentials ← stored_list
    audit c p net env.last true (
        entry_of c p net "credentials.list" (some principal) none
          (some (Text.◌++◌ "count:" (net.decimal (length credentials)))))
    answer credentials

  -- `pairing_service.revoke` with its `except` clause
  unfoldable pub revoke_stored : Uuid → Handler (Option PairedCredential)
  revoke_stored id h =
      let (table, revoked) = revoke p env.store_reachable env.now id h.table in
      (record h { table = table }, from_store revoked)

  unfoldable pub found_or {ℓ} : {A : Type ℓ} → ℕ → String → String → Option A → Handler A
  found_or status code message none = fail status code message
  found_or status code message (some a) = answer a

  -- A revocation whose request is in the audit log
  unfoldable pub perform_revocation :
      String → AuthenticatedPrincipal → Uuid → (ℕ × String × String) → Handler RevocationResponse
  unfolding found_or
  perform_revocation performed principal id (status, code, message) = do
    revoked ← revoke_stored id
    credential ← found_or status code message revoked
    revoke_live_access c p net id
    audit c p net env.last false (entry_of c p net performed (some principal) (some id) none)
    answer (record { credential_id = id; revoked = true })

  -- The part of both revocations from the readiness of the audit log on
  unfoldable pub revoke_audited :
      String
      → String
      → AuthenticatedPrincipal
      → Uuid
      → (ℕ × String × String)
      → Handler RevocationResponse
  revoke_audited requested performed principal id otherwise = do
    require_audit_ready c p net env.audit_ready
    audit c p net env.first true (entry_of c p net requested (some principal) (some id) none)
    perform_revocation performed principal id otherwise

  unfoldable pub revoke_own : AuthenticatedPrincipal × Uuid → Handler RevocationResponse
  revoke_own (principal, id) =
      revoke_audited "credential.self_revoke_requested" "credential.self_revoke" principal id
        (409, "credential_not_active", "Paired credential is not active.")

  -- DELETE /pairing/v1/self
  unfoldable pub revoke_own_paired_credential : ApiRequest → Handler RevocationResponse
  revoke_own_paired_credential r = do
    require_loopback net r
    caller ← require_paired_principal c p net env.store_reachable r
    revoke_own caller

  unfoldable pub revoke_by_admin : Uuid → AuthenticatedPrincipal → Handler RevocationResponse
  revoke_by_admin id principal =
      revoke_audited "credential.admin_revoke_requested" "credential.admin_revoke" principal id
        (404, "credential_not_found", "Active credential was not found.")

  -- DELETE /admin/v1/credentials/{credential_id}
  unfoldable pub revoke_paired_credential : Uuid → ApiRequest → Handler RevocationResponse
  revoke_paired_credential id r = do
    principal ← require_loopback_admin c p net env.store_reachable r
    revoke_by_admin id principal

  -- `pairing_service.rotate` with its `except` clause
  unfoldable pub rotate_stored : Uuid → String → Handler (Option RotatedCredential)
  rotate_stored id token h =
      let (table, rotated) =
        rotate p env.store_reachable env.now env.drawn_token id token h.table in
      (record h { table = table }, from_store rotated)

  -- A rotation whose request is in the audit log
  unfoldable pub perform_rotation :
      AuthenticatedPrincipal → Uuid → String → Handler RotatedCredential
  unfolding found_or
  perform_rotation principal id token = do
    rotated ← rotate_stored id token
    issued ←
        found_or 409 "credential_rotation_conflict" "Paired credential could not be rotated."
          rotated
    revoke_live_access c p net id
    audit c p net env.last false
        (entry_of c p net "credential.rotate" (some principal) (some id) none)
    answer issued

  unfoldable pub rotate_audited :
      ApiRequest → AuthenticatedPrincipal × Uuid → Handler RotatedCredential
  unfolding found_or
  rotate_audited r (principal, id) = do
    token ←
        found_or 401 "authentication_required" "Paired authentication required." (bearer_token r)
    require_audit_ready c p net env.audit_ready
    audit c p net env.first true
        (entry_of c p net "credential.rotate_requested" (some principal) (some id) none)
    perform_rotation principal id token

  -- POST /pairing/v1/rotate
  unfoldable pub rotate_own_paired_credential : ApiRequest → Handler RotatedCredential
  rotate_own_paired_credential r = do
    require_loopback net r
    caller ← require_paired_principal c p net env.store_reachable r
    rotate_audited r caller
