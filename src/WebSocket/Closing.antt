-- ===== src/WebSocket/Closing.antt =====
-- What a connection of the endpoint of app.py leaves in the approval store when it ends.
use goffy_os.Prelude.{
  String, ◌≡◌, refl, true, none, List, [], ◌∷◌, arith, inl, inr, if◌then◌else◌, Bool-cases,
  contains, nat_eq, string_eq, ◌||◌, ltb,
}
use goffy_os.Prelude.Dict.{get, has, keys, get-remove, contains-keys}
use Prim.Native.String.{len}
use goffy_os.Protocol.{Uuid, message_too_large}
use goffy_os.Registry.{Models, ToolRegistry}
use goffy_os.WebSocket.Tracking.{Tracks, Tracks-same, handle_message-Tracks}
use goffy_os.Approval.{Crypto, ApprovalArtifactStore, discard}
use goffy_os.Auth.Principal.{AuthenticatedPrincipal}
use goffy_os.WebSocket.{
  Wire, Tick, Session, send_error, handle_message, close_session, serve, new_session, discard_all,
}
use goffy_os.WebSocket.Frame.{send_error-SameState}

get-discard_all :
    (ids : List Uuid) (store : ApprovalArtifactStore) (j : Uuid)
    → get (discard_all ids store).pending_approvals j
      ≡ (if contains ids j then none else get store.pending_approvals j)
unfolding discard_all discard
get-discard_all [] store j = refl
get-discard_all (id ∷ ids) store j =
    ground
      (arith, get-discard_all ids (discard id store) j, get-remove store.pending_approvals id j)

module _ (c : Crypto) (m : Models) (w : Wire) (registry : ToolRegistry)
    (principal : AuthenticatedPrincipal) (before : ApprovalArtifactStore) where
  -- The end of a connection discards exactly the requests that it waits for.
  pub close_session_lem :
      (s : Session) (id : Uuid)
      → get (close_session c m w registry principal s).store.pending_approvals id
        ≡ (if has s.pending id then none else get s.store.pending_approvals id)
  unfolding close_session
  close_session_lem s id =
      ground (arith, get-discard_all (keys s.pending) s.store id, contains-keys s.pending id)

  -- What a closed connection leaves in the store was there before.
  Leaves : Session → Type 0
  Leaves s =
      (id : Uuid) → has s.store.pending_approvals id ≡ true → has before.pending_approvals id ≡ true

  close_session-Leaves :
      (s : Session) → Tracks before s → Leaves (close_session c m w registry principal s)
  unfolding Leaves
  close_session-Leaves s t id h = ground (arith, t id, close_session_lem s id)

  serve-Leaves :
      (messages : List (Tick × String)) (s : Session)
      → Tracks before s
      → Leaves (serve c m w registry principal messages s)
  unfolding serve Leaves
  serve-Leaves [] s t = close_session-Leaves s t
  serve-Leaves ((tick, raw) ∷ messages) s t =
      let s' = handle_message c m w registry principal tick raw s in
      let here = handle_message-Tracks c m w registry principal before tick raw s t in
      let later = serve-Leaves messages s' here in
      let refused =
        send_error w message_too_large "Message exceeds the configured size limit." none s in
      elim (Bool-cases (ltb w.max_message_bytes (len raw))) [
        | inl large ↦ rw large (
            close_session-Leaves refused
              (Tracks-same before s refused (send_error-SameState w _ _ _ s) t))
        | inr fits ↦ elim (Bool-cases (s'.outbound_closed || s'.crashed)) [
          | inl over ↦ rw (fits, over) (close_session-Leaves s' here)
          | inr alive ↦ rw (fits, alive) later
        ]
      ]

  -- Whatever a connection does, when it ends the approval store holds no request that was not there
  -- when it began.
  pub serve-leaves_nothing :
      (messages : List (Tick × String)) (id : Uuid)
      → get before.pending_approvals id ≡ none
      → get
          (serve c m w registry principal messages (new_session before)).store.pending_approvals
          id
        ≡ none
  unfolding Leaves
  serve-leaves_nothing messages id absent =
      ground (arith, serve-Leaves messages (new_session before) (λ j h. inr h) id)
