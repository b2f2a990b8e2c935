-- ===== src/Tests/Credentials.antt =====
-- A table of credentials with one phone.
use Prim.Native.String.{count}
use goffy_os.Prelude.{
  String, ◌≡◌, ◌≢◌, refl, ap, true, false, none, some, List, [], ◌∷◌, arith, length, replicate,
  nat_eq, string_eq, bytes_eq,
}
use goffy_os.Prelude.Result.{ok}
use goffy_os.Credentials.{
  Platform, Row, Table, PairedCredential, IssuedCredential, RotatedCredential, issue, authenticate,
  revoke, rotate, is_active, token_digest, check_metadata, key_fits, is_bad_token,
  row_to_credential, new_row, new_credential, store_row, prune_revoked, insert_row, set_digest,
  replace_digest,
}
use goffy_os.Credentials.Invariant.{IsValid}
use goffy_os.Credentials.Calls.{TableCall, issues, table_run, table_step, table_run-IsValid}
use goffy_os.Credentials.Lookup.{authenticate_iff}
use goffy_os.Credentials.Revocation.{revoke-authenticate, rotate-authenticate}

-- A digest of 32 bytes that tells tokens apart by their length.
abbrev pub platform : Platform
platform = record {
  sha256 = λ bytes. replicate 32 (length bytes);
  utf8 = λ s. replicate (count s) 1;
  code_points = λ s. replicate (count s) 97;
  uuid_text = λ _. "id";
  iso = λ _. "2026-01-01T00:00:00Z";
  parse_iso = λ _. 5;
}

abbrev pub token : String
token = "0123456789abcdef0123456789abcdef"

abbrev pub longer_token : String
longer_token = "0123456789abcdef0123456789abcdef0"

abbrev pub phone_row : Row
phone_row = record {
  credential_id = 7;
  device_id = "phone";
  display_name = "Phone";
  token_digest = replicate 32 59;
  created_at = "2026-01-01T00:00:00Z";
  revoked_at = none;
  approval_public_key = none;
}

abbrev pub table : Table
table = phone_row ∷ []

abbrev pub phone_credential : PairedCredential
phone_credential = record {
  credential_id = 7;
  device_id = "phone";
  display_name = "Phone";
  created_at = 5;
  revoked_at = none;
  approval_public_key = none;
}

abbrev pub phone_issued : IssuedCredential
phone_issued = record { credential = phone_credential; access_token = token }

abbrev calls : List TableCall
calls = issues true 7 5 token "phone" "Phone" none ∷ []

pub issue_run : issue platform true 7 5 token "phone" "Phone" none [] ≡ (table, ok phone_issued)
unfolding issue check_metadata key_fits store_row insert_row prune_revoked new_row token_digest
    new_credential
issue_run = refl

table_run-IsValid_example : IsValid (table_run platform [] calls)
table_run-IsValid_example = table_run-IsValid platform calls

pub table-IsValid : IsValid table
unfolding table_run table_step
table-IsValid = rw (← ap (λ x. x.0) issue_run) (table_run-IsValid platform calls)

authenticate_iff_example : authenticate platform true token table ≡ ok (some phone_credential)
unfolding is_bad_token token_digest row_to_credential
authenticate_iff_example =
    (authenticate_iff platform token table phone_credential table-IsValid).1
      (refl, (phone_row, refl, refl))

revoke-authenticate_example :
    let t' = (revoke platform true 9 7 table).0 in
    (is_active true 7 t' ≡ ok false)
    × ¬ (
        (authenticate platform true token t' ≡ ok (some phone_credential))
        × (phone_credential.credential_id ≡ 7))
revoke-authenticate_example =
    revoke-authenticate platform 9 7 table token phone_credential table-IsValid

abbrev rotated : RotatedCredential
rotated = record { credential = phone_credential; access_token = longer_token; rotated_at = 9 }

abbrev rotated_table : Table
rotated_table = record phone_row { token_digest = replicate 32 60 } ∷ []

rotate_run : rotate platform true 9 longer_token 7 token table ≡ (rotated_table, ok (some rotated))
unfolding rotate is_bad_token token_digest replace_digest set_digest row_to_credential
rotate_run = refl

rotate-authenticate_example :
    (authenticate platform true longer_token rotated_table ≡ ok (some phone_credential))
    × ((c : PairedCredential) → authenticate platform true token rotated_table ≢ ok (some c))
rotate-authenticate_example =
    rotate-authenticate platform 9 longer_token 7 token table rotated_table rotated table-IsValid
      (omega arith) rotate_run
