-- ===== src/Pairing.antt =====
-- `PairingService` of hub/src/goffy_hub/pairing.py: challenges that one device each can answer.
-- What runs under the lock is one step, and so is the call of the credential store after it. Times
-- are microseconds.
pub mod Challenges
pub mod Devices
pub mod Invariant
use Prim.Native.String.{count}
use goffy_os.Prelude.{
  ℕ, ◌+◌, String, Bool, true, false, not, ◌||◌, Option, none, some, List, [], ◌∷◌, ◌++◌, ltb, leb,
  length, nat_eq, bytes_eq, ◌==◌, if◌then◌else◌,
}
use goffy_os.Prelude.Result.{Result, ok, raise}
use goffy_os.Prelude.Dict.{Dict, get, put, remove, remove_all, keys_where}
use goffy_os.Protocol.{Uuid}
use goffy_os.Approval.{Bytes}
use goffy_os.Credentials.{Platform, Table, CredentialError, IssuedCredential, issue}

abbrev pub max_pending_challenges : ℕ
max_pending_challenges = 3

abbrev pub max_challenge_failures : ℕ
max_challenge_failures = 5

abbrev pub min_generated_pairing_token_length : ℕ
min_generated_pairing_token_length = 32

pub data PairingError : Type 0 where
  pairing_error : String → PairingError
  busy invalid_challenge attempt_limit : PairingError
  store_failed : CredentialError → PairingError

pub record PairingChallenge : Type 0 where
  pub challenge_id : Uuid
  pub pairing_token : String
  pub expires_at : ℕ

pub record PendingChallenge : Type 0 where
  pub token_digest : Bytes
  pub expires_at : ℕ
  pub failed_attempts : ℕ

abbrev pub Pending : Type 0
Pending = Dict Uuid PendingChallenge

-- now >= pending.expires_at
abbrev pub is_over : ℕ → PendingChallenge → Bool
is_over now c = leb c.expires_at now

-- `_prune_expired`
unfoldable pub prune_challenges : ℕ → Pending → Pending
prune_challenges now pending = remove_all pending (keys_where (is_over now) pending)

module _ (p : Platform) where
  -- `_challenge_digest`
  unfoldable pub challenge_digest : String → Bytes
  challenge_digest token =
      p.sha256 ((p.utf8 "goffy-pairing-challenge-v1" ++ 0 ∷ []) ++ p.utf8 token)

  unfoldable pub begin :
      (ttl now : ℕ) (token : String) (challenge_id : Uuid)
      → Pending
      → Pending × Result PairingError PairingChallenge
  begin ttl now token challenge_id pending =
      let pruned = prune_challenges now pending in
      if ltb (count token) min_generated_pairing_token_length
      then (pending, raise (pairing_error "generated pairing token is too short"))
      else if leb max_pending_challenges (length pruned)
      then (pruned, raise busy)
      else (
        put pruned challenge_id (record {
          token_digest = challenge_digest token;
          expires_at = now + ttl;
          failed_attempts = 0;
        }),
        ok (record { challenge_id = challenge_id; pairing_token = token; expires_at = now + ttl }),
      )

  -- A challenge that was answered with another token.
  unfoldable pub note_failure :
      Uuid → PendingChallenge → Pending → Pending × Result PairingError (Unit {0})
  note_failure challenge_id c pending =
      let failed : PendingChallenge = record c { failed_attempts = c.failed_attempts + 1 } in
      if leb max_challenge_failures failed.failed_attempts
      then (remove pending challenge_id, raise attempt_limit)
      else (put pending challenge_id failed, raise invalid_challenge)

  -- The part of `complete` under the lock
  unfoldable pub claim :
      (now : ℕ) → Uuid → String → Pending → Pending × Result PairingError (Unit {0})
  claim now challenge_id token pending = elim (get pending challenge_id) [
    | none ↦ (remove pending challenge_id, raise invalid_challenge)
    | some c ↦
        if is_over now c
        then (remove pending challenge_id, raise invalid_challenge)
        else if challenge_digest token == c.token_digest
        then (remove pending challenge_id, ok tt)
        else note_failure challenge_id c pending
  ]

  as_pairing_result : Result CredentialError IssuedCredential → Result PairingError IssuedCredential
  as_pairing_result (ok issued) = ok issued
  as_pairing_result (raise e) = raise (store_failed e)

  -- `id`, `issued_at` and `access_token` are what the credential store draws.
  unfoldable pub complete :
      (now : ℕ) (reachable : Bool) (id : Uuid) (issued_at : ℕ) (access_token : String)
      → Uuid
      → String
      → String
      → String
      → Bytes
      → Pending × Table
      → (Pending × Table) × Result PairingError IssuedCredential
  unfolding as_pairing_result
  complete now reachable id issued_at access_token challenge_id token device_id display_name key
        (pending, t) =
      let (pending', claimed) = claim now challenge_id token pending in
      elim claimed [
        | raise e ↦ ((pending', t), raise e)
        | ok _ ↦
            let (t', issued) =
              issue p reachable id issued_at access_token device_id display_name (some key) t in
            ((pending', t'), as_pairing_result issued)
      ]
