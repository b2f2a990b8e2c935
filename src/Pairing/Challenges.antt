-- ===== src/Pairing/Challenges.antt =====
-- The challenges of pairing.py: who can claim one, how often it can be tried, and how many there
-- are.
use goffy_os.Prelude.{
  ℕ, ◌+◌, ◌≤◌, ◌<◌, String, ◌≡◌, ◌↔◌, refl, inl, inr, false, ◌||◌, none, some, List, [], ◌∷◌, arith,
  leb, length, nat_eq, bytes_eq, bytes_beq_iff, ◌==◌, if◌then◌else◌, Bool-cases, Option-cases,
  ==_refl,
}
use goffy_os.Prelude.Result.{ok, raise}
use goffy_os.Prelude.Dict.{get, put, remove, get-put, get-remove}
use goffy_os.Protocol.{Uuid}
use goffy_os.Approval.{Bytes}
use goffy_os.Credentials.{Platform}
use goffy_os.Pairing.{
  PendingChallenge, Pending, PairingChallenge, invalid_challenge, is_over, prune_challenges,
  challenge_digest, begin, note_failure, claim, max_challenge_failures,
}

module _ (p : Platform) where
  -- A claim succeeds exactly when the challenge is pending, its time is not over and the token is
  -- the one that was drawn for it; the challenge is then gone.
  pub claim_iff :
      (now : ℕ) (id : Uuid) (token : String) (pending pending' : Pending)
      → (claim p now id token pending ≡ (pending', ok tt)) ↔ (
          (c : PendingChallenge) × (get pending id ≡ some c)
          × (now < c.expires_at)
          × (challenge_digest p token ≡ c.token_digest)
          × (pending' ≡ remove pending id))
  unfolding claim note_failure
  claim_iff now id token pending pending' = (
    λ h. elim (Option-cases (get pending id)) [
      | inl missing ↦ absurd (ground arith)
      | inr (c, found) ↦ (
        c,
        found,
        ground arith,
        ground (arith, bytes_beq_iff (challenge_digest p token) c.token_digest),
        ground arith,
      )
    ],
    λ (c, found, in_time, right, at).
        ground (arith, (bytes_beq_iff (challenge_digest p token) c.token_digest).1 right),
  )

  -- A challenge that was claimed cannot be claimed again.
  pub claim_once :
      (now later : ℕ) (id : Uuid) (token again : String) (pending pending' : Pending)
      → claim p now id token pending ≡ (pending', ok tt)
      → (claim p later id again pending').1 ≡ raise invalid_challenge
  claim_once now later id token again pending pending' h =
      let (c, found, in_time, right, at) = (claim_iff now id token pending pending').0 h in
      let gone : get pending' id ≡ none = rw (at, get-remove, ==_refl {A = ℕ} id) refl in
      unfold claim in ground (arith, gone)

  -- Tries of one challenge, one after the other.
  unfoldable pub tries : Uuid → List (ℕ × String) → Pending → Pending
  tries id [] pending = pending
  tries id ((now, token) ∷ guesses) pending = tries id guesses (claim p now id token pending).0

  -- None of the guesses is the token with this digest.
  abbrev pub AllWrong : Bytes → List (ℕ × String) → Type 0
  AllWrong digest [] = Unit
  AllWrong digest ((now, token) ∷ guesses) =
      ((challenge_digest p token == digest) ≡ false) × AllWrong digest guesses

  try-gone :
      (now : ℕ) (id : Uuid) (token : String) (pending : Pending)
      → get pending id ≡ none
      → get (claim p now id token pending).0 id ≡ none
  unfolding claim note_failure
  try-gone now id token pending h = ground (arith, get-remove pending id id)

  tries-gone :
      (id : Uuid) (guesses : List (ℕ × String)) (pending : Pending)
      → get pending id ≡ none
      → get (tries id guesses pending) id ≡ none
  unfolding tries
  tries-gone id [] pending h = h
  tries-gone id ((now, token) ∷ guesses) pending h =
      tries-gone id guesses (claim p now id token pending).0 (try-gone now id token pending h)

  try-wrong :
      (now : ℕ) (id : Uuid) (token : String) (pending : Pending) (c : PendingChallenge)
      → get pending id ≡ some c
      → (challenge_digest p token == c.token_digest) ≡ false
      → let failed : PendingChallenge = record c { failed_attempts = c.failed_attempts + 1 } in
        get (claim p now id token pending).0 id ≡ (
          if is_over now c || leb max_challenge_failures (c.failed_attempts + 1)
          then none
          else some failed)
  unfolding claim note_failure
  try-wrong now id token pending c found wrong =
      let failed : PendingChallenge = record c { failed_attempts = c.failed_attempts + 1 } in
      ground (arith, get-remove pending id id, get-put pending id id failed, ==_refl {A = ℕ} id)

  tries-limit :
      (id : Uuid) (guesses : List (ℕ × String)) (pending : Pending) (c : PendingChallenge)
      → get pending id ≡ some c
      → AllWrong c.token_digest guesses
      → max_challenge_failures ≤ c.failed_attempts + length guesses
      → c.failed_attempts < max_challenge_failures
      → get (tries id guesses pending) id ≡ none
  unfolding tries
  tries-limit id [] pending c found wrong many few = absurd (omega arith)
  tries-limit id ((now, token) ∷ guesses) pending c found wrong many few =
      let failed : PendingChallenge = record c { failed_attempts = c.failed_attempts + 1 } in
      let after = (claim p now id token pending).0 in
      let next = try-wrong now id token pending c found wrong.0 in
      elim (Bool-cases (is_over now c || leb max_challenge_failures (c.failed_attempts + 1))) [
        | inl over ↦ tries-gone id guesses after (rw (next, over) refl)
        | inr open_still ↦
            tries-limit id guesses after failed (rw (next, open_still) refl) wrong.1 (ground arith)
              (ground arith)
      ]

  -- Five wrong guesses after `begin`, at whatever times, and the challenge is gone: no later token
  -- claims it, not even the right one.
  pub tries-exhausted :
      (ttl now : ℕ) (token : String) (id : Uuid) (pending pending' : Pending)
      (challenge : PairingChallenge) (guesses : List (ℕ × String)) (later : ℕ) (again : String)
      → begin p ttl now token id pending ≡ (pending', ok challenge)
      → AllWrong (challenge_digest p token) guesses
      → max_challenge_failures ≤ length guesses
      → (claim p later id again (tries id guesses pending')).1 ≡ raise invalid_challenge
  tries-exhausted ttl now token id pending pending' challenge guesses later again h wrong many =
      let c : PendingChallenge = record {
        token_digest = challenge_digest p token;
        expires_at = now + ttl;
        failed_attempts = 0;
      } in
      let at : pending' ≡ put (prune_challenges now pending) id c = unfold begin in ground arith in
      let found : get pending' id ≡ some c = rw (at, get-put, ==_refl {A = ℕ} id) refl in
      let gone = tries-limit id guesses pending' c found wrong (omega arith) (omega arith) in
      unfold claim in ground (arith, gone)
