-- ===== src/Tests/Auth.antt =====
-- The authenticator with a bootstrap token and with one paired phone.
use goffy_os.Prelude.{◌≡◌, ◌⊎◌, refl, true, some, string_eq, nat_eq, arith}
use goffy_os.Prelude.Result.{ok}
use goffy_os.Credentials.{Table, authenticate, is_bad_token, token_digest, row_to_credential}
use goffy_os.Credentials.Invariant.{IsValid}
use goffy_os.Auth.Principal.{AuthenticatedPrincipal}
use goffy_os.Auth.Authenticator.{
  Authenticator, compare_digest, authenticate_token, authenticate_paired, paired_principal,
}
use goffy_os.Auth.Access.{
  IsBootstrap, IsPaired, HasRights, authenticate_token-known, authenticate_token-HasRights,
}
use goffy_os.Tests.Approval.{crypto}
use goffy_os.Tests.Credentials.{platform, token, table, table-IsValid, phone_credential}

abbrev hub : Authenticator
hub = record {
  auth_token = some "bootstrap-token-0123456789";
  store = some table;
  reachable = true;
}

abbrev phone : AuthenticatedPrincipal
phone = paired_principal crypto platform hub phone_credential

hub-IsValid : (t : Table) → hub.store ≡ some t → IsValid t
hub-IsValid t h = let same : table ≡ t = ground arith in rw (← same) table-IsValid

token_run : authenticate_token crypto platform hub token ≡ ok (some phone)
unfolding authenticate_token is_bad_token compare_digest authenticate_paired authenticate
    token_digest row_to_credential
token_run = refl

authenticate_token-known_example :
    IsBootstrap crypto platform hub token phone ⊎ IsPaired crypto platform hub token phone
authenticate_token-known_example =
    authenticate_token-known crypto platform hub hub-IsValid token phone token_run

authenticate_token-HasRights_example : HasRights crypto platform hub phone
authenticate_token-HasRights_example =
    authenticate_token-HasRights crypto platform hub hub-IsValid token phone token_run
