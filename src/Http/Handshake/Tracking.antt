-- ===== src/Http/Handshake/Tracking.antt =====
-- A paired device that the handshake of app.py lets in is within reach of revocations.
use goffy_os.Prelude.{
  ℕ, String, ◌≡◌, ◌⊎◌, refl, ap, ◌∙◌, inl, inr, Bool, true, false, ◌||◌, Option, none, some, List,
  [], ◌∷◌, ◌++◌, arith, contains, nat_eq, ◌==◌, nat_beq_iff, find, is_some, map, Bool-cases,
}
use goffy_os.Prelude.Result.{ok, Result-cases}
use goffy_os.Prelude.Dict.{get, remove, get-remove}
use goffy_os.Protocol.{Uuid}
use goffy_os.Approval.{Crypto}
use goffy_os.Credentials.{Platform, Table, is_live, set_revoked, revoke, is_active}
use goffy_os.Audit.Window.{AuditEntry, record_event}
use goffy_os.Auth.Principal.{AuthenticatedPrincipal, paired, has_scope, safe_tool_scope}
use goffy_os.Auth.Authenticator.{
  Authenticator, is_principal_active, authenticate_header, authenticate_token, authenticate_paired,
  bootstrap_principal, paired_principal,
}
use goffy_os.Connections.{
  Socket, sockets_of, register_socket, revoke_sockets, revoke_sockets-register_socket,
}
use goffy_os.Http.{Hub, ApiRequest, Net, authenticate_request, authenticator_of, revoke_live_access}
use goffy_os.Http.Handshake.{
  RevocationStep, revokes, cuts, Gaps, Ticks, Admission, connected, happen, meanwhile, check_active,
  join, join_as, greet, recorded, unregister_and_close, handshake, connect_entry, close_with,
}

contains-append :
    (xs ys : List ℕ) (x : ℕ) → contains (xs ++ ys) x ≡ (contains xs x || contains ys x)
contains-append [] ys x = refl
contains-append (y ∷ xs) ys x = ground (arith, contains-append xs ys x)

-- The credentials whose rows some steps revoke
abbrev pub revoked_ids : List RevocationStep → List Uuid
revoked_ids [] = []
revoked_ids (revokes id ∷ es) = id ∷ revoked_ids es
revoked_ids (cuts id ∷ es) = revoked_ids es

module _ (p : Platform) where
  find-set_revoked :
      (id j : Uuid) (stamp : String) (t : Table)
      → (j == id) ≡ false
      → is_some (find (is_live id) (map (set_revoked p j stamp) t)) ≡ is_some (find (is_live id) t)
  unfolding set_revoked
  find-set_revoked id j stamp [] other = refl
  find-set_revoked id j stamp (r ∷ t) other = ground (
    arith,
    find-set_revoked id j stamp t other,
    nat_beq_iff r.credential_id id,
    nat_beq_iff r.credential_id j,
    nat_beq_iff j id,
  )

  is_active-revoke-other :
      (now : ℕ) (id j : Uuid) (t : Table)
      → (j == id) ≡ false
      → is_active true id (revoke p true now j t).0 ≡ is_active true id t
  unfolding is_active revoke
  is_active-revoke-other now id j t other =
      ground (arith, find-set_revoked id j (p.iso now) t other)

module _ (c : Crypto) (p : Platform) (net : Net) (t : Ticks) (id : Uuid) (w : Socket) where
  -- The socket is registered for the credential, or was closed.
  abbrev pub IsReachable : Hub → Type 0
  IsReachable h = (contains (sockets_of h.connections id) w || contains h.closed w) ≡ true

  abbrev pub IsActive : Hub → Type 0
  IsActive h = is_active true id h.table ≡ ok true

  happen-IsReachable :
      (e : RevocationStep) (h : Hub) → IsReachable h → IsReachable (happen c p net t e h)
  unfolding happen revoke_live_access revoke_sockets
  happen-IsReachable (revokes j) h reached = reached
  happen-IsReachable (cuts j) h reached = elim (Bool-cases (j == id)) [
    | inl same ↦
        let is_id : j ≡ id = (nat_beq_iff j id).0 same in
        rw is_id (ground (arith, contains-append h.closed (sockets_of h.connections id) w))
    | inr other ↦
        let others : get (remove h.connections j) id ≡ get h.connections id =
          get-remove h.connections j id ∙ rw other refl in
        let kept : contains (sockets_of (remove h.connections j) id) w
            ≡ contains (sockets_of h.connections id) w =
          ap (λ (o : Option (List Socket)). contains (elim o [ none ↦ [] | some ws ↦ ws ]) w)
            others in
        ground (arith, kept, contains-append h.closed (sockets_of h.connections j) w)
  ]

  meanwhile-IsReachable :
      (es : List RevocationStep) (h : Hub) → IsReachable h → IsReachable (meanwhile c p net t es h)
  unfolding meanwhile
  meanwhile-IsReachable [] h reached = reached
  meanwhile-IsReachable (e ∷ es) h reached =
      meanwhile-IsReachable es (happen c p net t e h) (happen-IsReachable e h reached)

  -- Whether the credential is active still, or was revoked among some steps
  abbrev pub IsRevokedOnlyIn : List RevocationStep → Hub → Type 0
  IsRevokedOnlyIn es h = IsActive h ⊎ (contains (revoked_ids es) id ≡ true)

  meanwhile-IsActive :
      (es : List RevocationStep) (h : Hub)
      → IsActive h
      → IsRevokedOnlyIn es (meanwhile c p net t es h)
  unfolding meanwhile happen
  meanwhile-IsActive [] h active = inl active
  meanwhile-IsActive (revokes j ∷ es) h active = elim (Bool-cases (j == id)) [
    | inl same ↦ inr (ground arith)
    | inr other ↦
        let still =
          meanwhile-IsActive es (happen c p net t (revokes j) h)
            (is_active-revoke-other p t.revoked_at id j h.table other ∙ active) in
        elim still [ inl same ↦ inl same | inr among ↦ inr (ground arith) ]
  ]
  meanwhile-IsActive (cuts j ∷ es) h active =
      meanwhile-IsActive es (happen c p net t (cuts j) h) (unfold revoke_live_access in active)

  -- The socket is within reach, and only the steps of the last gap can have revoked the credential.
  abbrev pub IsTracked : Gaps → Hub → Type 0
  IsTracked gaps h = IsReachable h × IsRevokedOnlyIn gaps.resuming h

  registered_now :
      (h : Hub) → contains (sockets_of (register_socket id w h.connections) id) w ≡ true
  registered_now h =
      unfold revoke_sockets in
      revoke_sockets-register_socket id id w w h.connections
      ∙ ground (arith, nat_beq_iff id id, nat_beq_iff w w)

  still_active :
      (reachable : Bool) (principal : AuthenticatedPrincipal) (h : Hub)
      → principal.kind ≡ paired
      → principal.credential_id ≡ some id
      → is_principal_active c p (authenticator_of reachable h) principal ≡ true
      → is_active true id h.table ≡ ok true
  unfolding is_principal_active authenticator_of is_active
  still_active reachable principal h is_paired is_own active = ground (arith, is_paired, is_own)

  module _ (gaps : Gaps) (principal q : AuthenticatedPrincipal) (h' : Hub) where
    recorded-connected :
        (now : ℕ) (reachable : Bool) (x : AuditEntry) (k : Hub → Hub × Admission) (h : Hub)
        → recorded c p net t gaps w (now, reachable) x k h ≡ (h', connected q)
        → (h1 : Hub) × (h1.table ≡ h.table)
          × (h1.connections ≡ h.connections)
          × (h1.closed ≡ h.closed)
          × (k h1 ≡ (h', connected q))
    unfolding recorded
    recorded-connected now reachable x k h ended =
        let ran = record_event p net.strip_lower net.decimal now reachable x h.audit_log in
        elim (Result-cases ran.1) [
          | inr (e, bad) ↦ absurd (ground arith)
          | inl (e, good) ↦ (record h { audit_log = ran.0 }, refl, refl, refl, ground arith)
        ]

    check_active-IsTracked :
        (h : Hub)
        → principal.kind ≡ paired
        → principal.credential_id ≡ some id
        → contains (sockets_of h.connections id) w ≡ true
        → check_active c p net t gaps w principal id h ≡ (h', connected q)
        → IsTracked gaps h'
    unfolding check_active
    check_active-IsTracked h is_paired is_own at ended =
        let h1 = meanwhile c p net t gaps.checking h in
        let h2 = meanwhile c p net t gaps.resuming h1 in
        elim (Bool-cases
          (is_principal_active c p (authenticator_of t.check_reachable h1) principal)) [
            | inl active ↦
                let before : IsReachable h = ground arith in
                let last : h2 ≡ h' = ground arith in
                rw (← last) (
                  meanwhile-IsReachable gaps.resuming h1
                      (meanwhile-IsReachable gaps.checking h before),
                  meanwhile-IsActive gaps.resuming h1
                      (still_active t.check_reachable principal h1 is_paired is_own active),
                )
            | inr gone ↦
                let (h3, _, _, _, over) =
                  recorded-connected t.last.0 t.last.1
                    (connect_entry "rejected" (some principal) (some "revoked"))
                    (unregister_and_close c p net t gaps w id) h2 (rw gone at ended) in
                absurd (unfold unregister_and_close in ground arith)
          ]

    check_active-same :
        (i : Uuid) (h : Hub)
        → check_active c p net t gaps w principal i h ≡ (h', connected q)
        → principal ≡ q
    unfolding check_active
    check_active-same i h ended =
        let h1 = meanwhile c p net t gaps.checking h in
        elim (Bool-cases
          (is_principal_active c p (authenticator_of t.check_reachable h1) principal)) [
            | inl active ↦ ground arith
            | inr gone ↦
                let (h3, _, _, _, over) =
                  recorded-connected t.last.0 t.last.1
                    (connect_entry "rejected" (some principal) (some "revoked"))
                    (unregister_and_close c p net t gaps w i) (meanwhile c p net t gaps.resuming h1)
                    (rw gone at ended) in
                absurd (unfold unregister_and_close in ground arith)
          ]

    join_as-same :
        (o : Option Uuid) (h : Hub)
        → join_as c p net t gaps w principal o h ≡ (h', connected q)
        → principal ≡ q
    unfolding join_as
    join_as-same none h ended = ground arith
    join_as-same (some i) h ended = check_active-same i _ ended

    join_as-IsTracked :
        (o : Option Uuid) (h : Hub)
        → principal.kind ≡ paired
        → principal.credential_id ≡ some id
        → o ≡ some id
        → join_as c p net t gaps w principal o h ≡ (h', connected q)
        → IsTracked gaps h'
    unfolding join_as
    join_as-IsTracked none h is_paired is_own at ended = absurd (ground arith)
    join_as-IsTracked (some i) h is_paired is_own at ended =
        let h1 = meanwhile c p net t gaps.registering h in
        let same : i ≡ id = ground arith in
        check_active-IsTracked (record h1 { connections = register_socket id w h1.connections })
          is_paired is_own (registered_now h1) (rw same at ended)

  known-paired :
      (a : Authenticator) (header : Option String) (principal : AuthenticatedPrincipal)
      → authenticate_header c p a header ≡ ok (some principal)
      → principal.credential_id ≡ some id
      → principal.kind ≡ paired
  unfolding authenticate_header authenticate_token authenticate_paired bootstrap_principal
      paired_principal
  known-paired a header principal found is_own = ground arith

  greet-IsTracked :
      (gaps : Gaps) (q : AuthenticatedPrincipal) (h h' : Hub)
      → q.credential_id ≡ some id
      → (found : Option AuthenticatedPrincipal)
      → ((x : AuthenticatedPrincipal)
          → found ≡ some x
          → x.credential_id ≡ some id
          → x.kind ≡ paired)
      → greet c p net t gaps w found h ≡ (h', connected q)
      → IsTracked gaps h'
  unfolding greet close_with
  greet-IsTracked gaps q h h' is_own none paired_if ended =
      let (h1, _, _, _, over) =
        recorded-connected gaps q q h' t.first.0 t.first.1
          (connect_entry "rejected" none (some "auth"))
          (close_with c p net t gaps w 4401 "authentication required") h ended in
      absurd (ground arith)
  greet-IsTracked gaps q h h' is_own (some x) paired_if ended =
      elim (Bool-cases (has_scope x safe_tool_scope)) [
        | inr outside ↦
            let (h1, _, _, _, over) =
              recorded-connected gaps q q h' t.first.0 t.first.1
                (connect_entry "rejected" (some x) (some "scope"))
                (close_with c p net t gaps w 4403 "insufficient scope") h (rw outside at ended) in
            absurd (ground arith)
        | inl inside ↦
            let (h1, _, _, _, over) =
              recorded-connected gaps x q h' t.first.0 t.first.1
                (connect_entry "succeeded" (some x) none) (join c p net t gaps w x)
                (meanwhile c p net t gaps.accepting h) (rw inside at ended) in
            let joined : join_as c p net t gaps w x x.credential_id h1 ≡ (h', connected q) =
              unfold join in over in
            let same = join_as-same gaps x q h' x.credential_id h1 joined in
            let own : x.credential_id ≡ some id =
              ap (λ (y : AuthenticatedPrincipal). y.credential_id) same ∙ is_own in
            join_as-IsTracked gaps x q h' x.credential_id h1 (paired_if x refl own) own own joined
      ]

  -- Whatever revocations change in the database and whichever live access they end while the
  -- handshake waits, in any order: if it lets in a paired device, then in the Hub that it leaves the
  -- socket is registered for the credential, where the end of live access will find it, or was
  -- closed, and the credential is active unless its row was revoked after the check that it is.
  pub handshake-IsTracked :
      (gaps : Gaps) (r : ApiRequest) (principal : AuthenticatedPrincipal) (h h' : Hub)
      → principal.credential_id ≡ some id
      → handshake c p net t gaps w r h ≡ (h', connected principal)
      → IsTracked gaps h'
  unfolding handshake authenticate_request
  handshake-IsTracked gaps r principal h h' is_own ended =
      let known = authenticate_header c p (authenticator_of t.known_reachable h) r.authorization in
      elim (Result-cases known) [
        | inr (e, bad) ↦ absurd (ground arith)
        | inl (found, good) ↦
            greet-IsTracked gaps principal h h' is_own found
              (λ x is_x.
                known-paired (authenticator_of t.known_reachable h) r.authorization x
                  (good ∙ ap ok is_x))
              (ground arith)
      ]
