-- ===== src/Credentials/Invariant.antt =====
-- The invariant of the credential table of credentials.py, and each operation under it.
use goffy_os.Prelude.{
  ℕ, ◌+◌, ◌-◌, ◌≤◌, ◌<◌, String, ◌≡◌, refl, ap, inl, inr, Bool, not, Option, none, [], ◌∷◌, map,
  arith, length, take, find, keep_if, length-keep_if-le, contains, is_some, nat_eq, string_eq,
  bytes_eq, ◌==◌, leb, if◌then◌else◌, Bool-cases, Option-cases, nat_beq_iff, bytes_beq_iff,
}
use goffy_os.Prelude.Result.{ok, Result-cases}
use goffy_os.Prelude.Rows.{
  count_if, order_by, count-order_by, count-keep_if, count-and-le, length-order_by, count-map,
  length-map,
}
use goffy_os.Protocol.{Uuid}
use goffy_os.Approval.{Bytes}
use goffy_os.Credentials.{
  Platform, Row, Table, is_active_row, has_id, has_digest, is_live, oldest_revoked, prune_revoked,
  insert_row, store_row, issue, revoke, rotate, set_revoked, set_digest, stamp_le, revocation_stamp,
  replace_digest, new_row, token_digest, max_active_credentials, max_retained_credentials,
}

pub record IsValid (t : Table) : Type 0 where
  pub ids : (id : Uuid) → count_if (has_id id) t ≤ 1
  pub digests : (digest : Bytes) → count_if (has_digest digest) t ≤ 1
  pub active : count_if is_active_row t ≤ max_active_credentials
  pub retained : length t ≤ max_retained_credentials

-- A condition holds for no more rows of the one table than of the other.
abbrev Fewer : Table → Table → Type 0
Fewer t t' = (q : Row → Bool) → count_if q t' ≤ count_if q t

drops-one :
    (id : Uuid) (t : Table)
    → 1 ≤ count_if (has_id id) t
    → length (keep_if (λ r. not (contains (id ∷ []) r.credential_id)) t) + 1 ≤ length t
drops-one id [] h = absurd (omega arith)
drops-one id (r ∷ t) h =
    ground
      (arith, drops-one id t, length-keep_if-le (λ r. not (contains (id ∷ []) r.credential_id)) t)

drops-first :
    (t candidates : Table)
    → Fewer t candidates
    → 1 ≤ length candidates
    → length (
          keep_if
            (λ r. not (contains (map (λ c. c.credential_id) (take 1 candidates)) r.credential_id))
            t)
        + 1
      ≤ length t
drops-first t [] fewer h = absurd (omega arith)
drops-first t (c ∷ cs) fewer h =
    drops-one c.credential_id t
      (ground (arith, fewer (has_id c.credential_id), nat_beq_iff c.credential_id c.credential_id))

length-active :
    (t : Table)
    → length (keep_if (λ r. is_some r.revoked_at) t) + count_if is_active_row t ≡ length t
length-active [] = refl
length-active (r ∷ t) = ground (arith, length-active t)

module _ (p : Platform) where
  prune_revoked-Fewer : (t : Table) → Fewer t (prune_revoked p t)
  unfolding prune_revoked
  prune_revoked-Fewer t q =
      let ids = oldest_revoked p ((length t + 1) - max_retained_credentials) t in
      let kept : Row → Bool = λ r. not (contains ids r.credential_id) in
      ground (arith, count-keep_if kept q t, count-and-le kept q t)

  length-prune_revoked :
      (t : Table)
      → length t ≤ max_retained_credentials
      → count_if is_active_row t < max_active_credentials
      → length (prune_revoked p t) < max_retained_credentials
  unfolding prune_revoked
  length-prune_revoked t bound room = elim (Bool-cases (leb max_retained_credentials (length t))) [
    | inr below ↦ ground arith
    | inl full ↦
        let revoked : Row → Bool = λ r. is_some r.revoked_at in
        let le = stamp_le p (revocation_stamp p) in
        let candidates = order_by le (keep_if revoked t) in
        let fewer : Fewer t candidates = λ q. ground (
          arith,
          count-order_by le q (keep_if revoked t),
          count-keep_if revoked q t,
          count-and-le revoked q t,
        ) in
        let one : (length t + 1) - max_retained_credentials ≡ 1 = ground arith in
        let dropped =
          drops-first t candidates fewer
            (ground (arith, length-order_by le (keep_if revoked t), length-active t)) in
        rw (prune_revoked, one) (ground (arith, dropped))
  ]

  pub store_row-IsValid :
      (r : Row) (t t' : Table)
      → r.revoked_at ≡ none
      → IsValid t
      → store_row p r t ≡ ok t'
      → IsValid t'
  unfolding store_row insert_row
  store_row-IsValid r t t' is_new v h =
      let pruned = prune_revoked p t in
      let fewer = prune_revoked-Fewer t in
      let stored : t' ≡ r ∷ pruned = ground arith in
      rw stored (record {
        ids = λ id. ground (
          arith,
          fewer (has_id id),
          fewer (has_id r.credential_id),
          v.ids id,
          nat_beq_iff r.credential_id id,
        );
        digests =
            λ d. ground (arith, fewer (has_digest d), v.digests d, bytes_beq_iff r.token_digest d);
        active = ground (arith, fewer is_active_row);
        retained = ground (arith, length-prune_revoked t v.retained);
      })

  pub issue-IsValid :
      (reachable : Bool) (id : Uuid) (now : ℕ) (token device_id display_name : String)
      (key : Option Bytes) (t : Table)
      → IsValid t
      → IsValid (issue p reachable id now token device_id display_name key t).0
  unfolding issue
  issue-IsValid reachable id now token device_id display_name key t v =
      let r = new_row p id now device_id display_name key token in
      elim (Result-cases (store_row p r t)) [
        | inl (t', stored) ↦
            ground (arith, v, store_row-IsValid r t t' (unfold new_row in refl) v stored)
        | inr (e, refused) ↦ ground (arith, v)
      ]

  active-set_revoked :
      (id : Uuid) (stamp : String) (t : Table)
      → count_if is_active_row (map (set_revoked p id stamp) t) ≤ count_if is_active_row t
  unfolding set_revoked
  active-set_revoked id stamp [] = omega arith
  active-set_revoked id stamp (r ∷ t) = ground (arith, active-set_revoked id stamp t)

  set_revoked-IsValid :
      (id : Uuid) (stamp : String) (t : Table)
      → IsValid t
      → IsValid (map (set_revoked p id stamp) t)
  unfolding set_revoked
  set_revoked-IsValid id stamp t v = record {
    ids = λ j.
        ground
          (arith, v.ids j, count-map (set_revoked p id stamp) (has_id j) t (λ r. ground arith));
    digests = λ d. ground (
      arith,
      v.digests d,
      count-map (set_revoked p id stamp) (has_digest d) t (λ r. ground arith),
    );
    active = ground (arith, v.active, active-set_revoked id stamp t);
    retained = ground (arith, v.retained, length-map (set_revoked p id stamp) t);
  }

  pub revoke-IsValid :
      (reachable : Bool) (now : ℕ) (id : Uuid) (t : Table)
      → IsValid t
      → IsValid (revoke p reachable now id t).0
  unfolding revoke
  revoke-IsValid reachable now id t v = elim (Option-cases (find (is_live id) t)) [
    | inl missing ↦ ground (arith, v)
    | inr (r, found) ↦ ground (arith, v, set_revoked-IsValid id (p.iso now) t v)
  ]

  digests-set_digest :
      (id : Uuid) (old new d : Bytes) (t : Table)
      → count_if (has_digest d) (map (set_digest p id old new) t)
        ≤ count_if (has_digest d) t + (if new == d then count_if (has_id id) t else 0)
  unfolding set_digest
  digests-set_digest id old new d [] = ground arith
  digests-set_digest id old new d (r ∷ t) = ground (arith, digests-set_digest id old new d t)

  set_digest-IsValid :
      (id : Uuid) (old new : Bytes) (t : Table)
      → count_if (has_digest new) t ≡ 0
      → IsValid t
      → IsValid (map (set_digest p id old new) t)
  unfolding set_digest
  set_digest-IsValid id old new t fresh v = record {
    ids = λ j.
        ground
          (arith, v.ids j, count-map (set_digest p id old new) (has_id j) t (λ r. ground arith));
    digests = λ d. elim (Bool-cases (new == d)) [
      | inl same ↦
          let is_new : new ≡ d = (bytes_beq_iff new d).0 same in
          ground (
            arith,
            v.ids id,
            digests-set_digest id old new d t,
            ap (λ x. count_if (has_digest x) t) is_new,
          )
      | inr other ↦ ground (arith, v.digests d, digests-set_digest id old new d t)
    ];
    active =
        ground (
          arith,
          v.active,
          count-map (set_digest p id old new) is_active_row t (λ r. ground arith),
        );
    retained = ground (arith, v.retained, length-map (set_digest p id old new) t);
  }

  pub rotate-IsValid :
      (reachable : Bool) (now : ℕ) (new_token : String) (id : Uuid) (token : String) (t : Table)
      → IsValid t
      → IsValid (rotate p reachable now new_token id token t).0
  unfolding rotate replace_digest
  rotate-IsValid reachable now new_token id token t v = elim (Option-cases (find (is_live id) t)) [
    | inl missing ↦ ground (arith, v)
    | inr (r, found) ↦
        let old = token_digest p token in
        let new = token_digest p new_token in
        elim (Bool-cases (count_if (has_digest new) t == 0)) [
          | inl fresh ↦ ground (arith, v, set_digest-IsValid id old new t (ground arith) v)
          | inr used ↦ ground (arith, v)
        ]
  ]
