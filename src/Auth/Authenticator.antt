-- ===== src/Auth/Authenticator.antt =====
-- `CredentialAuthenticator` of hub/src/goffy_hub/auth.py, over the credential table. A
-- `CredentialStoreError` is answered like a token that is not known. `compare_digest` of two texts
-- raises a `TypeError` if one of them is not ASCII, which nothing catches here.
use Prim.Native.String.{◌++◌, count, len, slice}
use text.Mathlib.Text.{starts_with}
use goffy_os.Prelude.{
  String, Bool, false, ◌&&◌, Option, none, some, [], ◌∷◌, ltb, is_some, nat_eq, string_eq, ◌==◌,
  if◌then◌else◌,
}
use goffy_os.Prelude.Result.{Result, ok, raise}
use goffy_os.Approval.{Bytes, Crypto, validate_approval_public_key_spki_der}
use goffy_os.Credentials.{
  Platform, PairedCredential, Table, authenticate, is_active, active_count, is_bad_token,
}
use goffy_os.Auth.Principal.{
  AuthenticatedPrincipal, bootstrap, paired, safe_tool_scope, pairing_admin_scope,
}

-- The settings that matter here and the store, which is there when pairing is enabled.
pub record Authenticator : Type 0 where
  pub auth_token : Option String
  pub store : Option Table
  pub reachable : Bool

pub data AuthError : Type 0 where
  type_error : AuthError

-- `isascii()`: as many bytes as characters
abbrev pub is_ascii : String → Bool
is_ascii s = len s == count s

-- `compare_digest` of two texts
unfoldable pub compare_digest : String → String → Result AuthError Bool
compare_digest a b = if is_ascii a && is_ascii b then ok (a == b) else raise type_error

unfoldable pub pairing_enabled : Authenticator → Bool
pairing_enabled a = is_some a.store

module _ (c : Crypto) (p : Platform) (a : Authenticator) where
  -- The key that stays once it was validated
  unfoldable pub kept_key : Option Bytes → Option Bytes
  kept_key none = none
  kept_key (some key) = elim (validate_approval_public_key_spki_der c key) [
    | ok _ ↦ some key
    | raise e ↦ none
  ]

  -- `_paired_principal`
  unfoldable pub paired_principal : PairedCredential → AuthenticatedPrincipal
  unfolding kept_key
  paired_principal credential = record {
    kind = paired;
    client_id = "goffy-paired:" ++ p.uuid_text credential.credential_id;
    subject = "goffy-paired:" ++ p.uuid_text credential.credential_id;
    scopes = safe_tool_scope ∷ [];
    credential_id = some credential.credential_id;
    approval_public_key = kept_key credential.approval_public_key;
  }

  unfoldable pub bootstrap_principal : AuthenticatedPrincipal
  bootstrap_principal = record {
    kind = bootstrap;
    client_id = "goffy-bootstrap";
    subject = "bootstrap-operator";
    scopes = (if pairing_enabled a then pairing_admin_scope else safe_tool_scope) ∷ [];
    credential_id = none;
    approval_public_key = none;
  }

  -- The part of `authenticate_token` about the store
  unfoldable pub authenticate_paired : String → Option AuthenticatedPrincipal
  authenticate_paired token = elim a.store [
    | none ↦ none
    | some t ↦ elim (authenticate p a.reachable token t) [
      | raise e ↦ none
      | ok found ↦ elim found [ none ↦ none | some credential ↦ some (paired_principal credential) ]
    ]
  ]

  unfoldable pub authenticate_token : String → Result AuthError (Option AuthenticatedPrincipal)
  authenticate_token token = if is_bad_token p token then ok none else elim a.auth_token [
    | none ↦ ok (authenticate_paired token)
    | some secret ↦ elim (compare_digest token secret) [
      | raise e ↦ raise e
      | ok same ↦ if same then ok (some bootstrap_principal) else ok (authenticate_paired token)
    ]
  ]

  unfoldable pub authenticate_header :
      Option String → Result AuthError (Option AuthenticatedPrincipal)
  authenticate_header none = ok none
  authenticate_header (some header) =
      if starts_with header "Bearer "
      then authenticate_token (slice header 7 (len header))
      else ok none

  unfoldable pub is_principal_active : AuthenticatedPrincipal → Bool
  is_principal_active principal = elim principal.kind [
    | bootstrap ↦ is_some a.auth_token
    | paired ↦ elim a.store [
      | none ↦ false
      | some t ↦ elim principal.credential_id [
        | none ↦ false
        | some id ↦ elim (is_active a.reachable id t) [ raise e ↦ false | ok b ↦ b ]
      ]
    ]
  ]

  unfoldable pub tool_access_enabled : Bool
  tool_access_enabled = elim a.store [
    | none ↦ is_some a.auth_token
    | some t ↦ elim (active_count a.reachable t) [ raise e ↦ false | ok n ↦ ltb 0 n ]
  ]
