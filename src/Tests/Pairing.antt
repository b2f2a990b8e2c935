-- ===== src/Tests/Pairing.antt =====
-- Challenges that are answered and guessed.
use goffy_os.Credentials.Calls.{table_run}
use goffy_os.Credentials.{
  key_fits, store_row, insert_row, prune_revoked, new_row, token_digest, new_credential,
}
use goffy_os.Prelude.{
  ℕ, ◌<◌, String, ◌≡◌, refl, true, none, some, List, [], ◌∷◌, arith, replicate, nat_eq, bytes_eq,
}
use goffy_os.Prelude.Result.{ok, raise}
use goffy_os.Prelude.Dict.{get, put, remove, remove_all, keys_where}
use goffy_os.Credentials.{
  issue, check_metadata, authenticate, Row, IssuedCredential, PairedCredential,
}
use goffy_os.Credentials.Calls.{table_run-IsValid}
use goffy_os.Pairing.{
  PendingChallenge, Pending, PairingChallenge, invalid_challenge, begin, claim, complete,
  challenge_digest, prune_challenges,
}
use goffy_os.Pairing.Challenges.{tries, tries-exhausted}
use goffy_os.Pairing.Invariant.{IsValid, begins, claims, pairing_run, pairing_run-IsValid}
use goffy_os.Pairing.Devices.{complete-authenticate}
use goffy_os.Tests.Credentials.{platform, token, longer_token}

abbrev challenge : PendingChallenge
challenge = record { token_digest = replicate 32 59; expires_at = 130; failed_attempts = 0 }

abbrev one_pending : Pending
one_pending = (1, challenge) ∷ []

abbrev drawn : PairingChallenge
drawn = record { challenge_id = 1; pairing_token = token; expires_at = 130 }

begin_run : begin platform 120 10 token 1 [] ≡ (one_pending, ok drawn)
unfolding begin prune_challenges challenge_digest remove_all keys_where put
begin_run = refl

claim_run : claim platform 20 1 token one_pending ≡ ([], ok tt)
unfolding claim challenge_digest get remove
claim_run = refl

abbrev guesses : List (ℕ × String)
guesses =
    (11, longer_token)
    ∷ (12, longer_token)
    ∷ (13, longer_token)
    ∷ (14, longer_token)
    ∷ (15, longer_token)
    ∷ []

tries-exhausted_example :
    (claim platform 20 1 token (tries platform 1 guesses one_pending)).1 ≡ raise invalid_challenge
unfolding challenge_digest
tries-exhausted_example =
    tries-exhausted platform 120 10 token 1 [] one_pending drawn guesses 20 token begin_run
      (refl, (refl, (refl, (refl, (refl, tt))))) (omega arith)

pairing_run-IsValid_example :
    IsValid (pairing_run platform [] (begins 120 10 token 1 ∷ claims 20 1 longer_token ∷ []))
pairing_run-IsValid_example =
    pairing_run-IsValid platform (begins 120 10 token 1 ∷ claims 20 1 longer_token ∷ [])

abbrev paired_row : Row
paired_row = record {
  credential_id = 7;
  device_id = "phone";
  display_name = "Phone";
  token_digest = replicate 32 60;
  created_at = "2026-01-01T00:00:00Z";
  revoked_at = none;
  approval_public_key = some (replicate 64 5);
}

abbrev paired_credential : PairedCredential
paired_credential = record {
  credential_id = 7;
  device_id = "phone";
  display_name = "Phone";
  created_at = 5;
  revoked_at = none;
  approval_public_key = some (replicate 64 5);
}

abbrev paired_issued : IssuedCredential
paired_issued = record { credential = paired_credential; access_token = longer_token }

complete_run :
    complete platform 20 true 7 5 longer_token 1 token "phone" "Phone"
      (replicate 64 5)
      (one_pending, [])
    ≡ (([], paired_row ∷ []), ok paired_issued)
unfolding complete claim challenge_digest issue check_metadata get remove key_fits store_row
    insert_row prune_revoked new_row token_digest new_credential
complete_run = refl

complete-authenticate_example :
    ((c : PendingChallenge) × (get one_pending 1 ≡ some c)
      × (20 < c.expires_at)
      × (challenge_digest platform token ≡ c.token_digest)
      × ([] ≡ remove one_pending 1))
    × (authenticate platform true longer_token (paired_row ∷ []) ≡ ok (some paired_credential))
unfolding table_run
complete-authenticate_example =
    complete-authenticate platform 20 true 7 5 longer_token 1 token "phone" "Phone" (replicate 64 5)
      one_pending [] [] (paired_row ∷ []) paired_issued (table_run-IsValid platform []) refl
      (omega arith) complete_run
