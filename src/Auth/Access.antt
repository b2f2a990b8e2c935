-- ===== src/Auth/Access.antt =====
-- Whom `CredentialAuthenticator` of auth.py lets in, and with which rights.
use goffy_os.Prelude.{
  ℕ, String, ◌≡◌, ◌⊎◌, inl, inr, refl, ap, ◌∙◌, Bool, true, false, not, Option, none, some, arith,
  nat_eq, string_eq, ◌==◌, Bool-cases, Option-cases, eq_iff, find,
}
use goffy_os.Prelude.Result.{ok, Result-cases}
use goffy_os.Protocol.{Uuid}
use goffy_os.Approval.{Bytes, Crypto, validate_approval_public_key_spki_der}
use goffy_os.Credentials.{
  Platform, PairedCredential, Table, Row, authenticate, is_active, row_to_credential, token_digest,
  revoke,
}
use goffy_os.Credentials.Invariant.{IsValid}
use goffy_os.Credentials.Lookup.{opens, authenticate_iff}
use goffy_os.Credentials.Revocation.{is_active-revoke}
use goffy_os.Auth.Principal.{
  AuthenticatedPrincipal, paired, safe_tool_scope, pairing_admin_scope, has_scope,
}
use goffy_os.Auth.Authenticator.{
  Authenticator, compare_digest, pairing_enabled, kept_key, paired_principal, bootstrap_principal,
  authenticate_paired, authenticate_token, is_principal_active,
}

module _ (c : Crypto) (p : Platform) (a : Authenticator) where
  -- The token is the configured one.
  pub record IsBootstrap (token : String) (principal : AuthenticatedPrincipal) : Type 0 where
    pub secret : String
    pub configured : a.auth_token ≡ some secret
    pub presented : token ≡ secret
    pub is_bootstrap : principal ≡ bootstrap_principal c p a

  -- The digest of the token is that of an active credential.
  pub record IsPaired (token : String) (principal : AuthenticatedPrincipal) : Type 0 where
    pub table : Table
    pub enabled : a.store ≡ some table
    pub row : Row
    pub opened : find (opens (token_digest p token)) table ≡ some row
    pub is_paired : principal ≡ paired_principal c p a (row_to_credential p row)

  authenticate-reachable :
      (reachable : Bool) (token : String) (t : Table) (credential : PairedCredential)
      → authenticate p reachable token t ≡ ok (some credential)
      → authenticate p true token t ≡ ok (some credential)
  unfolding authenticate
  authenticate-reachable reachable token t credential h = ground arith

  -- A principal uses tools or administers pairing, never both, and its key for approvals, if it has
  -- one, passed the validation of P-256 keys.
  abbrev pub HasRights : AuthenticatedPrincipal → Type 0
  HasRights principal =
      (has_scope principal safe_tool_scope ≡ not (has_scope principal pairing_admin_scope))
      × ((key : Bytes)
          → principal.approval_public_key ≡ some key
          → validate_approval_public_key_spki_der c key ≡ ok tt)

  bootstrap_principal-HasRights : HasRights (bootstrap_principal c p a)
  unfolding bootstrap_principal has_scope
  bootstrap_principal-HasRights = elim (Bool-cases (pairing_enabled a)) [
    | inl enabled ↦ (rw enabled refl, λ key h. absurd (ground arith))
    | inr disabled ↦ (rw disabled refl, λ key h. absurd (ground arith))
  ]

  kept_key-valid :
      (given : Option Bytes) (key : Bytes)
      → kept_key c p a given ≡ some key
      → validate_approval_public_key_spki_der c key ≡ ok tt
  unfolding kept_key
  kept_key-valid none key h = absurd (ground arith)
  kept_key-valid (some k) key h = elim (Result-cases (validate_approval_public_key_spki_der c k)) [
    | inl (x, fine) ↦ let same : k ≡ key = ground arith in rw (← same) fine
    | inr (e, bad) ↦ absurd (ground arith)
  ]

  paired_principal-HasRights :
      (credential : PairedCredential) → HasRights (paired_principal c p a credential)
  unfolding paired_principal has_scope
  paired_principal-HasRights credential =
      (refl, λ key h. kept_key-valid credential.approval_public_key key h)

  module _ (v : (t : Table) → a.store ≡ some t → IsValid t) (token : String)
      (principal : AuthenticatedPrincipal) where
    authenticate_paired-IsPaired :
        authenticate_paired c p a token ≡ some principal → IsPaired token principal
    unfolding authenticate_paired
    authenticate_paired-IsPaired h = elim (Option-cases a.store) [
      | inl missing ↦ absurd (ground arith)
      | inr (t, enabled) ↦ elim (Result-cases (authenticate p a.reachable token t)) [
        | inr (e, failed) ↦ absurd (ground arith)
        | inl (found, answered) ↦ elim (Option-cases found) [
          | inl unknown ↦ absurd (ground arith)
          | inr (credential, known) ↦
              let accepted : authenticate p true token t ≡ ok (some credential) =
                authenticate-reachable a.reachable token t credential (answered ∙ ap ok known) in
              let (good, (r, opened, same)) =
                (authenticate_iff p token t credential (v t enabled)).0 accepted in
              record {
                table = t;
                enabled = enabled;
                row = r;
                opened = opened;
                is_paired = rw same (ground arith);
              }
        ]
      ]
    ]

    -- A token that is accepted is either the configured one, and its principal the bootstrap
    -- operator, or it opens an active credential, and its principal is that of this credential.
    pub authenticate_token-known :
        authenticate_token c p a token ≡ ok (some principal)
        → IsBootstrap token principal ⊎ IsPaired token principal
    unfolding authenticate_token compare_digest
    authenticate_token-known h = elim (Option-cases a.auth_token) [
      | inl missing ↦ inr (authenticate_paired-IsPaired (ground arith))
      | inr (secret, configured) ↦ elim (Bool-cases (token == secret)) [
        | inl same ↦ inl (record {
          secret = secret;
          configured = configured;
          presented = (eq_iff token secret).0 same;
          is_bootstrap = ground arith;
        })
        | inr other ↦ inr (authenticate_paired-IsPaired (ground arith))
      ]
    ]

    -- Whoever is let in may either use tools or administer pairing, never both; and a key that can
    -- approve actions passed the validation of P-256 keys.
    pub authenticate_token-HasRights :
        authenticate_token c p a token ≡ ok (some principal) → HasRights principal
    authenticate_token-HasRights h = elim (authenticate_token-known h) [
      | inl b ↦ rw b.is_bootstrap bootstrap_principal-HasRights
      | inr q ↦ rw q.is_paired (paired_principal-HasRights (row_to_credential p q.row))
    ]

-- From the revocation of its credential on, a principal that was let in by it is not active.
pub is_principal_active-revoke :
    (c : Crypto) (p : Platform) (a : Authenticator) (t : Table) (now : ℕ)
    (principal : AuthenticatedPrincipal) (id : Uuid)
    → principal.kind ≡ paired
    → principal.credential_id ≡ some id
    → is_principal_active c p (record a { store = some (revoke p true now id t).0 }) principal
      ≡ false
unfolding is_principal_active
is_principal_active-revoke c p a t now principal id is_paired is_id =
    elim (Bool-cases a.reachable) [
      | inl up ↦ rw (is_paired, is_id, up, is_active-revoke p now id t) refl
      | inr down ↦ rw (is_paired, is_id, down) (unfold is_active in refl)
    ]
