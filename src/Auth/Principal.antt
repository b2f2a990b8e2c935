-- ===== src/Auth/Principal.antt =====
-- The principals of hub/src/goffy_hub/auth.py, and their keys and permissions in
-- hub/src/goffy_hub/app.py.
use Prim.Native.String.{◌++◌}
use goffy_os.Prelude.{
  String, Bool, ◌&&◌, Option, none, some, List, [], ◌∷◌, contains, is_some, string_eq,
  if◌then◌else◌,
}
use goffy_os.Protocol.{Uuid, PermissionLevel, safe, confirm}
use goffy_os.Approval.{Bytes}

abbrev pub safe_tool_scope : String
safe_tool_scope = "goffy.tools.safe"

abbrev pub pairing_admin_scope : String
pairing_admin_scope = "goffy.pairing.admin"

pub data PrincipalKind : Type 0 where
  bootstrap paired : PrincipalKind

abbrev pub kind_value : PrincipalKind → String
kind_value bootstrap = "bootstrap"
kind_value paired = "paired"

pub record AuthenticatedPrincipal : Type 0 where
  pub kind : PrincipalKind
  pub client_id : String
  pub subject : String
  pub scopes : List String
  pub credential_id : Option Uuid
  pub approval_public_key : Option Bytes

unfoldable pub has_scope : AuthenticatedPrincipal → String → Bool
has_scope p scope = contains p.scopes scope

-- `_principal_key`, with the text of a UUID
unfoldable pub principal_key_of : (Uuid → String) → AuthenticatedPrincipal → String
principal_key_of uuid_text p = elim p.credential_id [
  | none ↦ kind_value p.kind ++ (":" ++ p.client_id)
  | some id ↦ kind_value p.kind ++ (":" ++ uuid_text id)
]

-- The test of `_tool_permissions_for_principal`, which the handlers make again.
abbrev pub can_approve : AuthenticatedPrincipal → Bool
can_approve p = is_some p.credential_id && is_some p.approval_public_key

unfoldable pub tool_permissions_of : AuthenticatedPrincipal → List PermissionLevel
tool_permissions_of p = if can_approve p then safe ∷ confirm ∷ [] else safe ∷ []
