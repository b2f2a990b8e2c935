-- ===== src/Credentials/Lookup.antt =====
-- Which tokens the credential table of credentials.py accepts, and what issuing, revoking and
-- rotating do to that.
use Prim.Native.String.{count}
use goffy_os.Prelude.{
  ℕ, ◌≤◌, String, ◌≡◌, ◌↔◌, refl, ap, ◌∙◌, inl, inr, Bool, true, false, ◌&&◌, Option, none, some,
  ◌∷◌, arith, find, keep_if, nat_eq, string_eq, bytes_eq, ◌==◌, eq_iff, Bool-cases, Option-cases,
  bytes_beq_iff,
}
use goffy_os.Prelude.Result.{Result, ok, Result-cases}
use goffy_os.Prelude.Rows.{order_by, count-keep_if, count-and-le, find-order_by, find-keep_if}
use goffy_os.Protocol.{Uuid}
use goffy_os.Approval.{Bytes}
use goffy_os.Credentials.{
  Platform, CredentialError, Row, Table, PairedCredential, IssuedCredential, is_active_row,
  has_digest, prune_revoked, insert_row, store_row, issue, authenticate, stamp_le, new_row,
  new_credential, token_digest, check_metadata, row_to_credential, is_bad_token,
  min_generated_token_length, parse_stamp,
}
use goffy_os.Credentials.Invariant.{IsValid, issue-IsValid}

-- The row that a token opens.
abbrev pub opens : Bytes → Row → Bool
opens digest r = is_active_row r && has_digest digest r

module _ (p : Platform) where
  found_credential : Option Row → Result CredentialError (Option PairedCredential)
  found_credential none = ok none
  found_credential (some r) = ok (some (row_to_credential p r))

  find-opens :
      (digest : Bytes) (t : Table)
      → IsValid t
      → find
          (has_digest digest)
          (order_by (stamp_le p (λ r. r.created_at)) (keep_if is_active_row t))
        ≡ find (opens digest) t
  find-opens digest t v =
      let active = keep_if is_active_row t in
      find-order_by (stamp_le p (λ r. r.created_at)) (has_digest digest) active (
        omega (
          arith,
          count-keep_if is_active_row (has_digest digest) t,
          count-and-le is_active_row (has_digest digest) t,
          v.digests digest,
        ))
      ∙ find-keep_if is_active_row (has_digest digest) t

  authenticate-find :
      (token : String) (t : Table)
      → IsValid t
      → is_bad_token p token ≡ false
      → authenticate p true token t ≡ found_credential (find (opens (token_digest p token)) t)
  unfolding authenticate found_credential
  authenticate-find token t v good = rw (good, find-opens (token_digest p token) t v) (ground arith)

  -- In a valid table a token is accepted exactly when it has a proper length and its digest is
  -- that of an active row, whose credential is returned.
  pub authenticate_iff :
      (token : String) (t : Table) (c : PairedCredential)
      → IsValid t
      → (authenticate p true token t ≡ ok (some c)) ↔ (
          (is_bad_token p token ≡ false)
          × ((r : Row) × (find (opens (token_digest p token)) t ≡ some r)
              × (row_to_credential p r ≡ c)))
  unfolding found_credential
  authenticate_iff token t c v = (
    λ h. elim (Bool-cases (is_bad_token p token)) [
      | inl bad ↦ unfold authenticate in absurd (ground arith)
      | inr good ↦
          let eq = authenticate-find token t v good in
          (
            good,
            elim (Option-cases (find (opens (token_digest p token)) t)) [
              | inl missing ↦ absurd (ground arith)
              | inr (r, found) ↦ (r, found, ground arith)
            ],
          )
    ],
    λ (good, (r, found, same)). ground (arith, authenticate-find token t v good),
  )

  store_row-stored : (r : Row) (t t' : Table) → store_row p r t ≡ ok t' → t' ≡ r ∷ prune_revoked p t
  unfolding store_row insert_row
  store_row-stored r t t' h = ground arith

  long_enough :
      (device_id display_name : String) (key : Option Bytes) (token : String) (x : Unit {0})
      → check_metadata p device_id display_name key token ≡ ok x
      → min_generated_token_length ≤ count token
  unfolding check_metadata
  long_enough device_id display_name key token x h = ground arith

  pub is_bad_token-false :
      (token : String)
      → min_generated_token_length ≤ count token
      → count token ≤ 512
      → is_bad_token p token ≡ false
  unfolding is_bad_token
  is_bad_token-false token long short = elim (Bool-cases (token == "")) [
    | inl empty ↦
        let same : count token ≡ 0 = ap count ((eq_iff token "").0 empty) in absurd (ground arith)
    | inr other ↦ ground arith
  ]

  issue-stored :
      (reachable : Bool) (id : Uuid) (now : ℕ) (token device_id display_name : String)
      (key : Option Bytes) (t t' : Table) (issued : IssuedCredential)
      → issue p reachable id now token device_id display_name key t ≡ (t', ok issued)
      → (issued ≡ record {
        credential = new_credential p id now device_id display_name key;
        access_token = token;
      })
        × (t' ≡ new_row p id now device_id display_name key token ∷ prune_revoked p t)
        × (min_generated_token_length ≤ count token)
  unfolding issue
  issue-stored reachable id now token device_id display_name key t t' issued h =
      let r = new_row p id now device_id display_name key token in
      elim (Result-cases (check_metadata p device_id display_name key token)) [
        | inr (e, bad) ↦ absurd (ground arith)
        | inl (x, checked) ↦ elim (Result-cases (store_row p r t)) [
          | inr (e, refused) ↦ absurd (ground arith)
          | inl (t'', stored) ↦ (
            ground arith,
            ground (arith, store_row-stored r t t'' stored),
            long_enough device_id display_name key token x checked,
          )
        ]
      ]

  find-new_row :
      (id : Uuid) (now : ℕ) (token device_id display_name : String) (key : Option Bytes) (t : Table)
      → p.parse_iso (p.iso now) ≡ now
      → let r = new_row p id now device_id display_name key token in
        (find (opens (token_digest p token)) (r ∷ t) ≡ some r)
        × (row_to_credential p r ≡ new_credential p id now device_id display_name key)
  unfolding new_row new_credential row_to_credential parse_stamp
  find-new_row id now token device_id display_name key t round = (
    ground (arith, (bytes_beq_iff (token_digest p token) (token_digest p token)).1 refl),
    rw round refl,
  )

  -- The credential that `issue` returned is the one that its token opens, if times survive the
  -- round trip through their text and the token has at most 512 characters.
  pub issue-authenticate :
      (reachable : Bool) (id : Uuid) (now : ℕ) (token device_id display_name : String)
      (key : Option Bytes) (t t' : Table) (issued : IssuedCredential)
      → IsValid t
      → p.parse_iso (p.iso now) ≡ now
      → count token ≤ 512
      → issue p reachable id now token device_id display_name key t ≡ (t', ok issued)
      → authenticate p true issued.access_token t' ≡ ok (some issued.credential)
  issue-authenticate reachable id now token device_id display_name key t t' issued v round short h =
      let v' : IsValid t' =
        rw (← ap (λ x. x.0) h)
          (issue-IsValid p reachable id now token device_id display_name key t v) in
      let (is_issued, at, long) =
        issue-stored reachable id now token device_id display_name key t t' issued h in
      let r = new_row p id now device_id display_name key token in
      let (found, same) =
        find-new_row id now token device_id display_name key (prune_revoked p t) round in
      rw is_issued (
        (authenticate_iff token t' (new_credential p id now device_id display_name key) v').1
          (is_bad_token-false token long short, (r, rw at found, same)))
