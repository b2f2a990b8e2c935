-- ===== src/Pairing/Devices.antt =====
-- From a challenge of pairing.py to a credential that credentials.py accepts.
use Prim.Native.String.{count}
use goffy_os.Prelude.{ℕ, ◌≤◌, ◌<◌, String, ◌≡◌, inl, inr, Bool, true, some, arith, nat_eq}
use goffy_os.Prelude.Result.{ok, Result-cases}
use goffy_os.Prelude.Dict.{get, remove}
use goffy_os.Protocol.{Uuid}
use goffy_os.Approval.{Bytes}
use goffy_os.Credentials.{Platform, Table, IssuedCredential, authenticate, issue}
use goffy_os.Credentials.Invariant.{IsValid}
use goffy_os.Credentials.Lookup.{issue-authenticate}
use goffy_os.Pairing.{PendingChallenge, Pending, challenge_digest, claim, complete}
use goffy_os.Pairing.Challenges.{claim_iff}

module _ (p : Platform) (now : ℕ) (reachable : Bool) (id : Uuid) (issued_at : ℕ)
    (access_token : String) (challenge_id : Uuid) (token device_id display_name : String)
    (key : Bytes) where
  complete-claimed :
      (pending pending' : Pending) (t t' : Table) (issued : IssuedCredential)
      → complete p now reachable id issued_at access_token challenge_id token device_id display_name
          key
          (pending, t)
        ≡ ((pending', t'), ok issued)
      → (claim p now challenge_id token pending ≡ (pending', ok tt))
        × (issue p reachable id issued_at access_token device_id display_name (some key) t
            ≡ (t', ok issued))
  unfolding complete
  complete-claimed pending pending' t t' issued h =
      let claimed = claim p now challenge_id token pending in
      let stored =
        issue p reachable id issued_at access_token device_id display_name (some key) t in
      elim (Result-cases claimed.1) [
        | inr (e, refused) ↦ absurd (ground arith)
        | inl (x, granted) ↦ elim (Result-cases stored.1) [
          | inr (e, refused) ↦ absurd (ground arith)
          | inl (i, kept) ↦ (ground arith, ground arith)
        ]
      ]

  -- A completed pairing answered a challenge that was pending and in time with its token, has used
  -- it up, and hands out a token that opens the new credential, if times survive the round trip
  -- through their text and the token has at most 512 characters.
  pub complete-authenticate :
      (pending pending' : Pending) (t t' : Table) (issued : IssuedCredential)
      → IsValid t
      → p.parse_iso (p.iso issued_at) ≡ issued_at
      → count access_token ≤ 512
      → complete p now reachable id issued_at access_token challenge_id token device_id display_name
          key
          (pending, t)
        ≡ ((pending', t'), ok issued)
      → ((c : PendingChallenge) × (get pending challenge_id ≡ some c)
          × (now < c.expires_at)
          × (challenge_digest p token ≡ c.token_digest)
          × (pending' ≡ remove pending challenge_id))
        × (authenticate p true issued.access_token t' ≡ ok (some issued.credential))
  complete-authenticate pending pending' t t' issued v round short h =
      let (claimed, stored) = complete-claimed pending pending' t t' issued h in
      (
        (claim_iff p now challenge_id token pending pending').0 claimed,
        issue-authenticate p reachable id issued_at access_token device_id display_name (some key) t
            t' issued v round short stored,
      )
