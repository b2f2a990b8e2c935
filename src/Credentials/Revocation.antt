-- ===== src/Credentials/Revocation.antt =====
-- What revoking and rotating do to the tokens of the table of credentials.py.
use Prim.Native.String.{count}
use goffy_os.Prelude.{
  ℕ, ◌≤◌, String, ◌≡◌, ◌≢◌, refl, ap, ◌∙◌, inl, inr, Bool, true, false, none, some, [], ◌∷◌, map,
  arith, find, nat_eq, string_eq, bytes_eq, ◌==◌, Option-cases, nat_beq_iff, bytes_beq_iff,
}
use goffy_os.Prelude.Result.{ok}
use goffy_os.Prelude.Rows.{count_if}
use goffy_os.Protocol.{Uuid}
use goffy_os.Approval.{Bytes}
use goffy_os.Credentials.{
  Platform, Row, Table, PairedCredential, RotatedCredential, has_id, has_digest, is_live, revoke,
  rotate, authenticate, is_active, set_revoked, set_digest, replace_digest, new_row, token_digest,
  row_to_credential, is_bad_token, min_generated_token_length,
}
use goffy_os.Credentials.Invariant.{IsValid, revoke-IsValid, rotate-IsValid}
use goffy_os.Credentials.Lookup.{opens, authenticate_iff, is_bad_token-false}

module _ (p : Platform) where
  revoked_all :
      (id : Uuid) (stamp : String) (digest : Bytes) (t : Table) (r : Row)
      → (find (is_live id) (map (set_revoked p id stamp) t) ≡ none)
        × (find (opens digest) (map (set_revoked p id stamp) t) ≡ some r → has_id id r ≡ false)
  unfolding set_revoked
  revoked_all id stamp digest [] r = (refl, λ h. absurd (ground arith))
  revoked_all id stamp digest (x ∷ t) r = ground (arith, revoked_all id stamp digest t r)

  not_live :
      (id : Uuid) (digest : Bytes) (t : Table) (r : Row)
      → find (is_live id) t ≡ none
      → find (opens digest) t ≡ some r
      → has_id id r ≡ false
  not_live id digest [] r h k = absurd (ground arith)
  not_live id digest (x ∷ t) r h k = ground (arith, not_live id digest t r)

  revoke-gone :
      (now : ℕ) (id : Uuid) (digest : Bytes) (t : Table) (r : Row)
      → let t' = (revoke p true now id t).0 in
        (find (is_live id) t' ≡ none) × (find (opens digest) t' ≡ some r → has_id id r ≡ false)
  unfolding revoke
  revoke-gone now id digest t r = elim (Option-cases (find (is_live id) t)) [
    | inl missing ↦ ground (arith, not_live id digest t r)
    | inr (x, found) ↦ ground (arith, revoked_all id (p.iso now) digest t r)
  ]

  pub is_active-revoke :
      (now : ℕ) (id : Uuid) (t : Table) → is_active true id (revoke p true now id t).0 ≡ ok false
  unfolding is_active
  is_active-revoke now id t =
      ground (arith, (revoke-gone now id [] t (new_row p id now "" "" none "")).0)

  -- Once `revoke` was called with the ID of a credential, the credential is not active and no
  -- token opens it, as long as the table stays as it is.
  pub revoke-authenticate :
      (now : ℕ) (id : Uuid) (t : Table) (token : String) (c : PairedCredential)
      → IsValid t
      → let t' = (revoke p true now id t).0 in
        (is_active true id t' ≡ ok false)
        × ¬ ((authenticate p true token t' ≡ ok (some c)) × (c.credential_id ≡ id))
  unfolding row_to_credential
  revoke-authenticate now id t token c v =
      let t' = (revoke p true now id t).0 in
      (
        is_active-revoke now id t,
        λ (h, same).
            let (good, (r, found, is_c)) =
              (authenticate_iff p token t' c (revoke-IsValid p true now id t v)).0 h in
            let is_id : r.credential_id ≡ id = ap (λ x. x.credential_id) is_c ∙ same in
            let other = (revoke-gone now id (token_digest p token) t r).1 found in
            absurd (ground (arith, nat_beq_iff r.credential_id id)),
      )

  find-is_live :
      (id : Uuid) (old new : Bytes) (t : Table) (r : Row)
      → count_if (has_id id) t ≤ 1
      → find (is_live id) t ≡ some r
      → has_digest old r ≡ true
      → count_if (has_digest new) t ≡ 0
      → (find (opens new) (map (set_digest p id old new) t)
          ≡ some (record r { token_digest = new }))
  unfolding set_digest
  find-is_live id old new [] r one found right fresh = absurd (ground arith)
  find-is_live id old new (x ∷ t) r one found right fresh =
      ground (arith, (bytes_beq_iff new new).1 refl, find-is_live id old new t r)

  absent_digest :
      (id : Uuid) (old new : Bytes) (t : Table)
      → count_if (has_digest old) t ≡ 0
      → (new == old) ≡ false
      → find (opens old) (map (set_digest p id old new) t) ≡ none
  unfolding set_digest
  absent_digest id old new [] none_old other = refl
  absent_digest id old new (x ∷ t) none_old other = ground (arith, absent_digest id old new t)

  counts_found :
      (q : Row → Bool) (digest : Bytes) (t : Table) (r : Row)
      → find q t ≡ some r
      → has_digest digest r ≡ true
      → 1 ≤ count_if (has_digest digest) t
  counts_found q digest [] r found right = absurd (ground arith)
  counts_found q digest (x ∷ t) r found right = ground (arith, counts_found q digest t r)

  gone_digest :
      (id : Uuid) (old new : Bytes) (t : Table) (r : Row)
      → count_if (has_digest old) t ≤ 1
      → find (is_live id) t ≡ some r
      → has_digest old r ≡ true
      → (new == old) ≡ false
      → find (opens old) (map (set_digest p id old new) t) ≡ none
  unfolding set_digest
  gone_digest id old new [] r one found right other = refl
  gone_digest id old new (x ∷ t) r one found right other = ground (
    arith,
    absent_digest id old new t,
    counts_found (is_live id) old t r,
    gone_digest id old new t r,
  )

  rotate-rotated :
      (now : ℕ) (new_token : String) (id : Uuid) (token : String) (t t' : Table)
      (rotated : RotatedCredential)
      → rotate p true now new_token id token t ≡ (t', ok (some rotated))
      → let old = token_digest p token in
        let new = token_digest p new_token in
        (r : Row) × (find (is_live id) t ≡ some r)
        × (has_digest old r ≡ true)
        × (is_bad_token p token ≡ false)
        × (min_generated_token_length ≤ count new_token)
        × ((old == new) ≡ false)
        × (count_if (has_digest new) t ≡ 0)
        × (t' ≡ map (set_digest p id old new) t)
        × (rotated ≡ record {
          credential = row_to_credential p r;
          access_token = new_token;
          rotated_at = now;
        })
  unfolding rotate replace_digest
  rotate-rotated now new_token id token t t' rotated h = elim (Option-cases (find (is_live id) t)) [
    | inl missing ↦ absurd (ground arith)
    | inr (r, found) ↦ (
      r,
      found,
      ground arith,
      ground arith,
      ground arith,
      ground arith,
      ground arith,
      ground arith,
      ground arith,
    )
  ]

  -- After a rotation that returned a token of at most 512 characters, that token opens the rotated
  -- credential, and the old token opens nothing.
  pub rotate-authenticate :
      (now : ℕ) (new_token : String) (id : Uuid) (token : String) (t t' : Table)
      (rotated : RotatedCredential)
      → IsValid t
      → count new_token ≤ 512
      → rotate p true now new_token id token t ≡ (t', ok (some rotated))
      → (authenticate p true new_token t' ≡ ok (some rotated.credential))
        × ((c : PairedCredential) → authenticate p true token t' ≢ ok (some c))
  unfolding row_to_credential
  rotate-authenticate now new_token id token t t' rotated v short h =
      let old = token_digest p token in
      let new = token_digest p new_token in
      let v' : IsValid t' =
        rw (← ap (λ x. x.0) h) (rotate-IsValid p true now new_token id token t v) in
      let (r, found, right, old_good, long, changes, fresh, at, is_rotated) =
        rotate-rotated now new_token id token t t' rotated h in
      let flipped : (new == old) ≡ false =
        ground (arith, bytes_beq_iff new old, bytes_beq_iff old new) in
      let now_found = find-is_live id old new t r (v.ids id) found right fresh in
      let gone = gone_digest id old new t r (v.digests old) found right flipped in
      (
        rw is_rotated (
            (authenticate_iff p new_token t' (row_to_credential p r) v').1 (
              is_bad_token-false p new_token long short,
              (record r { token_digest = new }, rw at now_found, refl),
            )),
        λ c accepted.
            let (_, (x, opened, _)) = (authenticate_iff p token t' c v').0 accepted in
            absurd (ground (arith, gone, at)),
      )
