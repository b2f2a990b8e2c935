-- ===== src/Credentials.antt =====
-- hub/src/goffy_hub/credentials.py: the table of paired credentials. One SQL transaction is one
-- step; a violated constraint undoes it. `reachable` says whether the database file passed the
-- tests of `_connect` and could be opened. Times are microseconds, stored as ISO texts.

pub mod Invariant
pub mod Calls
pub mod Lookup
pub mod Revocation
use Prim.Native.String.{count}
use goffy_os.Prelude.{
  ℕ, ◌+◌, ◌-◌, String, Bool, true, false, not, ◌&&◌, ◌||◌, Option, none, some, List, [], ◌∷◌, ◌++◌,
  map, ltb, leb, length, take, find, keep_if, contains, is_some, nat_eq, string_eq, bytes_eq, ◌==◌,
  if◌then◌else◌,
}
use goffy_os.Prelude.Result.{Result, ok, raise, ◌>>=◌, ◌>>◌, guard}
use goffy_os.Prelude.Sorting.{str_le}
use goffy_os.Prelude.Rows.{count_if, order_by}
use goffy_os.Protocol.{Uuid}
use goffy_os.Approval.{Bytes}

abbrev pub max_active_credentials : ℕ
max_active_credentials = 32

abbrev pub max_retained_credentials : ℕ
max_retained_credentials = 64

abbrev pub min_generated_token_length : ℕ
min_generated_token_length = 32

-- `hashlib`, the encodings of texts, UUIDs and times
pub record Platform : Type 0 where
  pub sha256 : Bytes → Bytes
  pub utf8 : String → Bytes
  pub code_points : String → List ℕ
  pub uuid_text : Uuid → String
  pub iso : ℕ → String
  pub parse_iso : String → ℕ

pub data CredentialError : Type 0 where
  unavailable capacity : CredentialError
  invalid_metadata : String → CredentialError
  store_error : String → CredentialError

pub record PairedCredential : Type 0 where
  pub credential_id : Uuid
  pub device_id : String
  pub display_name : String
  pub created_at : ℕ
  pub revoked_at : Option ℕ
  pub approval_public_key : Option Bytes

pub record IssuedCredential : Type 0 where
  pub credential : PairedCredential
  pub access_token : String

pub record RotatedCredential : Type 0 where
  pub credential : PairedCredential
  pub access_token : String
  pub rotated_at : ℕ

-- A row of `paired_credentials`
pub record Row : Type 0 where
  pub credential_id : Uuid
  pub device_id : String
  pub display_name : String
  pub token_digest : Bytes
  pub created_at : String
  pub revoked_at : Option String
  pub approval_public_key : Option Bytes

abbrev pub Table : Type 0
Table = List Row

abbrev pub is_active_row : Row → Bool
is_active_row r = not (is_some r.revoked_at)

abbrev pub has_id : Uuid → Row → Bool
has_id id r = r.credential_id == id

abbrev pub has_digest : Bytes → Row → Bool
has_digest digest r = r.token_digest == digest

-- WHERE credential_id = ? AND revoked_at IS NULL
abbrev pub is_live : Uuid → Row → Bool
is_live id r = has_id id r && is_active_row r

-- A character of `[A-Za-z0-9._:-]`
abbrev is_device_char : ℕ → Bool
is_device_char c =
    (leb 65 c && leb c 90)
    || (leb 97 c && leb c 122)
    || (leb 48 c && leb c 57)
    || (c == 46 || c == 95 || c == 58 || c == 45)

every : (ℕ → Bool) → List ℕ → Bool
every p [] = true
every p (x ∷ xs) = p x && every p xs

abbrev is_key_length : ℕ → Bool
is_key_length n = leb 64 n && leb n 512

-- A key column that may be NULL
unfoldable pub key_fits : Option Bytes → Bool
key_fits none = true
key_fits (some key) = is_key_length (length key)

module _ (p : Platform) where
  -- `_token_digest`
  unfoldable pub token_digest : String → Bytes
  token_digest token = p.sha256 ((p.utf8 "goffy-paired-credential-v1" ++ 0 ∷ []) ++ p.utf8 token)

  -- DEVICE_ID_PATTERN.fullmatch
  is_device_id : String → Bool
  unfolding every
  is_device_id s =
      let cs = p.code_points s in leb 1 (length cs) && leb (length cs) 64 && every is_device_char cs

  is_display_name : String → Bool
  unfolding every
  is_display_name s =
      let cs = p.code_points s in
      (leb 1 (length cs) && leb (length cs) 80) && every (λ c. leb 32 c && not (c == 127)) cs

  parse_stamp : Option String → Option ℕ
  parse_stamp none = none
  parse_stamp (some s) = some (p.parse_iso s)

  -- `_row_to_credential`
  unfoldable pub row_to_credential : Row → PairedCredential
  unfolding parse_stamp
  row_to_credential r = record {
    credential_id = r.credential_id;
    device_id = r.device_id;
    display_name = r.display_name;
    created_at = p.parse_iso r.created_at;
    revoked_at = parse_stamp r.revoked_at;
    approval_public_key = r.approval_public_key;
  }

  -- ORDER BY stamp, credential_id
  abbrev stamp_le : (Row → String) → Row → Row → Bool
  stamp_le stamp a b =
      if stamp a == stamp b
      then str_le (p.uuid_text a.credential_id) (p.uuid_text b.credential_id)
      else str_le (stamp a) (stamp b)

  abbrev revocation_stamp : Row → String
  revocation_stamp r = elim r.revoked_at [ none ↦ "" | some s ↦ s ]

  -- The subquery of `_prune_revoked`
  abbrev pub oldest_revoked : ℕ → Table → List Uuid
  oldest_revoked n t =
      map (λ r. r.credential_id)
        (take n (order_by (stamp_le revocation_stamp) (keep_if (λ r. is_some r.revoked_at) t)))

  -- `_prune_revoked`; `delete_count` is `max(0, …)` of a difference that stops at 0 here
  unfoldable pub prune_revoked : Table → Table
  prune_revoked t =
      let delete_count = (length t + 1) - max_retained_credentials in
      if delete_count == 0
      then t
      else let ids = oldest_revoked delete_count t in
        keep_if (λ r. not (contains ids r.credential_id)) t

  -- INSERT with the constraints of the table
  unfoldable pub insert_row : Row → Table → Option Table
  insert_row r t =
      if (count_if (has_id r.credential_id) t == 0 && count_if (has_digest r.token_digest) t == 0)
        && (length r.token_digest == 32 && key_fits r.approval_public_key)
      then some (r ∷ t)
      else none

  -- The tests of `issue` before it opens the database.
  unfoldable pub check_metadata :
      String → String → Option Bytes → String → Result CredentialError (Unit {0})
  unfolding is_device_id is_display_name
  check_metadata device_id display_name key token = do
    guard (is_device_id device_id) (invalid_metadata "device observation ID is invalid")
    guard (is_display_name display_name) (invalid_metadata "device display name is invalid")
    guard (key_fits key) (invalid_metadata "approval public key is invalid")
    guard (leb min_generated_token_length (count token))
        (store_error "generated credential token is too short")

  unfoldable pub new_row : Uuid → ℕ → String → String → Option Bytes → String → Row
  new_row id now device_id display_name key token = record {
    credential_id = id;
    device_id = device_id;
    display_name = display_name;
    token_digest = token_digest token;
    created_at = p.iso now;
    revoked_at = none;
    approval_public_key = key;
  }

  unfoldable pub new_credential : Uuid → ℕ → String → String → Option Bytes → PairedCredential
  new_credential id now device_id display_name key = record {
    credential_id = id;
    device_id = device_id;
    display_name = display_name;
    created_at = now;
    revoked_at = none;
    approval_public_key = key;
  }

  -- The transaction of `issue`
  unfoldable pub store_row : Row → Table → Result CredentialError Table
  store_row r t =
      if leb max_active_credentials (count_if is_active_row t)
      then raise capacity
      else elim (insert_row r (prune_revoked t)) [ none ↦ raise unavailable | some t' ↦ ok t' ]

  unfoldable pub issue :
      (reachable : Bool) (id : Uuid) (now : ℕ) (token : String)
      → String
      → String
      → Option Bytes
      → Table
      → Table × Result CredentialError IssuedCredential
  issue reachable id now token device_id display_name key t =
      elim (check_metadata device_id display_name key token) [
        | raise e ↦ (t, raise e)
        | ok _ ↦
            if not reachable
            then (t, raise unavailable)
            else elim (store_row (new_row id now device_id display_name key token) t) [
              | raise e ↦ (t, raise e)
              | ok t' ↦ (
                t',
                ok (record {
                  credential = new_credential id now device_id display_name key;
                  access_token = token;
                }),
              )
            ]
      ]

  -- `not access_token or len(access_token) > 512`
  unfoldable pub is_bad_token : String → Bool
  is_bad_token token = token == "" || ltb 512 (count token)

  unfoldable pub authenticate :
      Bool → String → Table → Result CredentialError (Option PairedCredential)
  authenticate reachable token t =
      if is_bad_token token
      then ok none
      else if not reachable
      then raise unavailable
      else elim (find (has_digest (token_digest token))
          (order_by (stamp_le (λ r. r.created_at)) (keep_if is_active_row t))) [
            | none ↦ ok none
            | some r ↦ ok (some (row_to_credential r))
          ]

  unfoldable pub list_credentials : Bool → Table → Result CredentialError (List PairedCredential)
  list_credentials reachable t =
      if not reachable
      then raise unavailable
      else ok (
          map row_to_credential
            (take max_retained_credentials (order_by (λ a b. stamp_le (λ r. r.created_at) b a) t)))

  -- UPDATE … SET revoked_at
  unfoldable pub set_revoked : Uuid → String → Row → Row
  set_revoked id stamp r = if has_id id r then record r { revoked_at = some stamp } else r

  unfoldable pub revoke :
      Bool → ℕ → Uuid → Table → Table × Result CredentialError (Option PairedCredential)
  revoke reachable now id t =
      if not reachable then (t, raise unavailable) else elim (find (is_live id) t) [
        | none ↦ (t, ok none)
        | some r ↦ (
          map (set_revoked id (p.iso now)) t,
          ok (some (record (row_to_credential r) { revoked_at = some now })),
        )
      ]

  -- UPDATE … SET token_digest
  unfoldable pub set_digest : Uuid → Bytes → Bytes → Row → Row
  set_digest id old new r =
      if is_live id r && has_digest old r then record r { token_digest = new } else r

  -- The rest of `rotate` once the row is found and the present token is right.
  unfoldable pub replace_digest : Uuid → Bytes → Bytes → Row → Table → Result CredentialError Table
  replace_digest id old new r t =
      if old == new
      then raise (store_error "generated credential token did not rotate")
      else if not (count_if (has_digest new) t == 0 && length new == 32)
      then raise unavailable
      else ok (map (set_digest id old new) t)

  unfoldable pub rotate :
      (reachable : Bool) (now : ℕ) (new_token : String)
      → Uuid
      → String
      → Table
      → Table × Result CredentialError (Option RotatedCredential)
  rotate reachable now new_token id token t =
      if is_bad_token token
      then (t, ok none)
      else if not reachable
      then (t, raise unavailable)
      else elim (find (is_live id) t) [
        | none ↦ (t, ok none)
        | some r ↦
            if not (has_digest (token_digest token) r)
            then (t, ok none)
            else if ltb (count new_token) min_generated_token_length
            then (t, raise (store_error "generated credential token is too short"))
            else elim (replace_digest id (token_digest token) (token_digest new_token) r t) [
              | raise e ↦ (t, raise e)
              | ok t' ↦ (
                t',
                ok (
                    some (record {
                      credential = row_to_credential r;
                      access_token = new_token;
                      rotated_at = now;
                    })),
              )
            ]
      ]

unfoldable pub active_count : Bool → Table → Result CredentialError ℕ
active_count reachable t =
    if not reachable then raise unavailable else ok (count_if is_active_row t)

unfoldable pub is_active : Bool → Uuid → Table → Result CredentialError Bool
is_active reachable id t =
    if not reachable then raise unavailable else ok (is_some (find (is_live id) t))
