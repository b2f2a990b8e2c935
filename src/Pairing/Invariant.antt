-- ===== src/Pairing/Invariant.antt =====
-- The invariant of the pending challenges of pairing.py, over any sequence of calls.
use goffy_os.Prelude.{
  ℕ, ◌+◌, ◌≤◌, ◌<◌, String, ◌≡◌, inl, inr, some, List, [], ◌∷◌, arith, length, nat_eq, bytes_eq,
  Option-cases,
}
use goffy_os.Prelude.Dict.{
  get, remove_all, keys_where, IsDistinct, get-put, get-remove, get-remove_where, put-IsDistinct,
  remove-IsDistinct, remove_all-IsDistinct, length-put, length-remove-le, length-remove_all-le,
}
use goffy_os.Protocol.{Uuid}
use goffy_os.Credentials.{Platform}
use goffy_os.Pairing.{
  PendingChallenge, Pending, is_over, prune_challenges, challenge_digest, begin, note_failure,
  claim, max_pending_challenges, max_challenge_failures,
}

pub record IsValid (pending : Pending) : Type 0 where
  pub distinct : IsDistinct pending
  pub bounded : length pending ≤ max_pending_challenges
  pub counted :
      (id : Uuid) (c : PendingChallenge)
      → get pending id ≡ some c
      → c.failed_attempts < max_challenge_failures

pub data PairingCall : Type 0 where
  begins : ℕ → ℕ → String → Uuid → PairingCall
  claims : ℕ → Uuid → String → PairingCall

module _ (p : Platform) where
  unfoldable pub pairing_step : Pending → PairingCall → Pending
  pairing_step pending (begins ttl now token id) = (begin p ttl now token id pending).0
  pairing_step pending (claims now id token) = (claim p now id token pending).0

  unfoldable pub pairing_run : Pending → List PairingCall → Pending
  pairing_run pending [] = pending
  pairing_run pending (call ∷ calls) = pairing_run (pairing_step pending call) calls

  begin-IsValid :
      (ttl now : ℕ) (token : String) (id : Uuid) (pending : Pending)
      → IsValid pending
      → IsValid (begin p ttl now token id pending).0
  unfolding begin prune_challenges
  begin-IsValid ttl now token id pending v =
      let gone = keys_where (is_over now) pending in
      let pruned = remove_all pending gone in
      let c : PendingChallenge = record {
        token_digest = challenge_digest p token;
        expires_at = now + ttl;
        failed_attempts = 0;
      } in
      let d = remove_all-IsDistinct pending gone v.distinct in
      record {
        distinct = ground (arith, v.distinct, d, put-IsDistinct pruned id c d);
        bounded =
            ground (arith, v.bounded, length-remove_all-le pending gone, length-put pruned id c);
        counted = λ j x h. ground (
          arith,
          v.counted j x,
          get-remove_where (is_over now) pending j v.distinct,
          get-put pruned id j c,
        );
      }

  claim-IsValid :
      (now : ℕ) (id : Uuid) (token : String) (pending : Pending)
      → IsValid pending
      → IsValid (claim p now id token pending).0
  unfolding claim note_failure
  claim-IsValid now id token pending v = elim (Option-cases (get pending id)) [
    | inl missing ↦ record {
      distinct = ground (arith, remove-IsDistinct pending id v.distinct);
      bounded = ground (arith, v.bounded, length-remove-le pending id);
      counted = λ j x h. ground (arith, v.counted j x, get-remove pending id j);
    }
    | inr (c, found) ↦
        let failed : PendingChallenge = record c { failed_attempts = c.failed_attempts + 1 } in
        record {
          distinct = ground (
            arith,
            remove-IsDistinct pending id v.distinct,
            put-IsDistinct pending id failed v.distinct,
          );
          bounded =
              ground (arith, v.bounded, length-remove-le pending id, length-put pending id failed);
          counted = λ j x h.
              ground (arith, v.counted j x, get-remove pending id j, get-put pending id j failed);
        }
  ]

  pairing_step-IsValid :
      (pending : Pending) (call : PairingCall)
      → IsValid pending
      → IsValid (pairing_step pending call)
  unfolding pairing_step
  pairing_step-IsValid pending (begins ttl now token id) v =
      begin-IsValid ttl now token id pending v
  pairing_step-IsValid pending (claims now id token) v = claim-IsValid now id token pending v

  pairing_run_from-IsValid :
      (pending : Pending) (calls : List PairingCall)
      → IsValid pending
      → IsValid (pairing_run pending calls)
  unfolding pairing_run
  pairing_run_from-IsValid pending [] v = v
  pairing_run_from-IsValid pending (call ∷ calls) v =
      pairing_run_from-IsValid (pairing_step pending call) calls
        (pairing_step-IsValid pending call v)

  -- Whatever is begun and claimed, at most three challenges are pending, each under one ID and with
  -- fewer than five failed attempts.
  pub pairing_run-IsValid : (calls : List PairingCall) → IsValid (pairing_run [] calls)
  unfolding get
  pairing_run-IsValid calls =
      pairing_run_from-IsValid [] calls
        (record { distinct = tt; bounded = omega arith; counted = λ id c h. absurd (ground arith) })
