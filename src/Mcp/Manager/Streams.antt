-- ===== src/Mcp/Manager/Streams.antt =====
-- Which requests mcp_server.py lets open the stream of a session.
use goffy_os.Prelude.{
  ℕ, String, ◌≡◌, ◌≢◌, ◌⊎◌, ◌==◌, contains, not, refl, ap, ◌∙◌, sym, true, false, Option, none,
  some, List, [], ◌∷◌, arith, nat_eq, string_eq, Bool-cases, inl, inr,
}
use goffy_os.Prelude.Dict.{get, get-remove, get-remove_all}
use goffy_os.Mcp.Manager.Opening.{Request, route_request_iff, route_request-keeps, opened-has}
use goffy_os.Mcp.Manager.{
  TransportId, Manager, streamed, has_get_request, begin_get_request, set_transport, route_owned,
  route_known, route_request, forget_sessions, sessions_of, transports_of, terminate_client,
  remove_terminated_session, finish_get_request, extend_idle_deadline_if_not_streaming,
}
use goffy_os.Mcp.Manager.Termination.{terminate_transports-SameTables}

-- What happens to the sessions: a request arrives, a stream ends, a client is terminated as its
-- credential is revoked, or a session whose transport has ended is removed.
pub data SessionEvent : Type 0 where
  asks : Request → SessionEvent
  finishes : ℕ → String → TransportId → SessionEvent
  terminates removes : String → SessionEvent

unfoldable pub step : SessionEvent → Manager → Manager
step (asks r) m = (route_request r.now r.requestor r.method r.session_id m).0
step (finishes now id tr) m = finish_get_request now id tr m
step (terminates client_id) m = (terminate_client client_id m).0
step (removes id) m = (remove_terminated_session id m).0

unfoldable pub run : List SessionEvent → Manager → Manager
run [] m = m
run (e ∷ es) m = run es (step e m)

-- The sessions whose stream ends
abbrev pub finished_ids : List SessionEvent → List String
finished_ids [] = []
finished_ids (finishes now id tr ∷ es) = id ∷ finished_ids es
finished_ids (asks r ∷ es) = finished_ids es
finished_ids (terminates client_id ∷ es) = finished_ids es
finished_ids (removes id ∷ es) = finished_ids es

-- A session has a stream, or is gone.
abbrev IsTaken : Manager → String → Type 0
IsTaken m id = (has_get_request m id ≡ true) ⊎ (get m.server_instances id ≡ none)

route_request-instances :
    (r : Request) (m : Manager)
    → (route_request r.now r.requestor r.method r.session_id m).0.server_instances
      ≡ m.server_instances
unfolding route_request route_known route_owned begin_get_request
    extend_idle_deadline_if_not_streaming set_transport
route_request-instances r m = ground arith

forget_sessions-IsTaken :
    (ids : List String) (m : Manager) (id : String)
    → IsTaken m id
    → IsTaken (forget_sessions ids m) id
unfolding forget_sessions has_get_request
forget_sessions-IsTaken ids m id taken =
    let instances = get-remove_all m.server_instances ids id in
    let counts = get-remove_all m.get_request_counts ids id in
    elim (Bool-cases (contains ids id)) [
      | inl gone ↦ inr (ground arith)
      | inr kept ↦ elim taken [
        | inl busy ↦ inl (ground (arith, counts))
        | inr absent ↦ inr (ground arith)
      ]
    ]

terminate_client-IsTaken :
    (client_id : String) (m : Manager) (id : String)
    → IsTaken m id
    → IsTaken (terminate_client client_id m).0 id
unfolding terminate_client
terminate_client-IsTaken client_id m id taken =
    let ids = sessions_of client_id m in
    let forgotten = forget_sessions ids m in
    let same = terminate_transports-SameTables (transports_of m ids) forgotten in
    elim (forget_sessions-IsTaken ids m id taken) [
      | inl busy ↦ inl (unfold has_get_request in rw same.counts busy)
      | inr absent ↦ inr (rw same.instances absent)
    ]

remove_terminated_session-cases :
    (other : String) (m : Manager)
    → ((remove_terminated_session other m).0 ≡ m)
      ⊎ ((remove_terminated_session other m).0 ≡ forget_sessions (other ∷ []) m)
unfolding remove_terminated_session
remove_terminated_session-cases other m = by_transport (get m.server_instances other) refl
  where
    by_transport :
        (found : Option TransportId)
        → get m.server_instances other ≡ found
        → ((remove_terminated_session other m).0 ≡ m)
          ⊎ ((remove_terminated_session other m).0 ≡ forget_sessions (other ∷ []) m)
    by_transport none at = inr (rw (remove_terminated_session, at) refl)
    by_transport (some tr) at =
        elim (Bool-cases
          (elim (get m.transports tr) [ none ↦ false | some t ↦ not t.is_terminated ])) [
            | inl live ↦ inl (rw (remove_terminated_session, at, live) refl)
            | inr ended ↦ inr (rw (remove_terminated_session, at, ended) refl)
          ]

remove_terminated_session-IsTaken :
    (other : String) (m : Manager) (id : String)
    → IsTaken m id
    → IsTaken (remove_terminated_session other m).0 id
remove_terminated_session-IsTaken other m id taken =
    elim (remove_terminated_session-cases other m) [
      | inl same ↦ rw same taken
      | inr forgotten ↦ rw forgotten (forget_sessions-IsTaken (other ∷ []) m id taken)
    ]

finish_get_request-IsTaken :
    (now : ℕ) (other : String) (tr : TransportId) (m : Manager) (id : String)
    → (other == id) ≡ false
    → IsTaken m id
    → IsTaken (finish_get_request now other tr m) id
unfolding finish_get_request set_transport has_get_request
finish_get_request-IsTaken now other tr m id differs taken = elim taken [
  | inl busy ↦ inl (ground (arith, get-remove m.get_request_counts other id))
  | inr absent ↦ inr (ground arith)
]

run-IsTaken :
    (es : List SessionEvent) (m : Manager) (id : String)
    → contains (finished_ids es) id ≡ false
    → IsTaken m id
    → IsTaken (run es m) id
unfolding run step
run-IsTaken [] m id lasting taken = taken
run-IsTaken (asks r ∷ es) m id lasting taken =
    run-IsTaken es (step (asks r) m) id lasting (elim taken [
      | inl busy ↦ inl (route_request-keeps r m id busy)
      | inr absent ↦ inr (rw (route_request-instances r m) absent)
    ])
run-IsTaken (finishes now other tr ∷ es) m id lasting taken =
    run-IsTaken es (step (finishes now other tr) m) id (ground arith)
      (finish_get_request-IsTaken now other tr m id (ground arith) taken)
run-IsTaken (terminates client_id ∷ es) m id lasting taken =
    run-IsTaken es (step (terminates client_id) m) id lasting
      (terminate_client-IsTaken client_id m id taken)
run-IsTaken (removes other ∷ es) m id lasting taken =
    run-IsTaken es (step (removes other) m) id lasting
      (remove_terminated_session-IsTaken other m id taken)

-- Once a request was given the stream of a session, no request is given a stream of this session
-- until that stream is finished, whoever asks, and whatever requests come, streams of other sessions
-- finish, clients are terminated and sessions are removed in between.
pub one_stream :
    (r later : Request) (es : List SessionEvent) (m : Manager) (tr tr' : TransportId) (id : String)
    → r.session_id ≡ some id
    → (route_request r.now r.requestor r.method r.session_id m).1 ≡ streamed tr
    → contains (finished_ids es) id ≡ false
    → later.session_id ≡ some id
    → (route_request later.now later.requestor later.method later.session_id
        (run (asks r ∷ es) m)).1
      ≢ streamed tr'
unfolding run step
one_stream r later es m tr tr' id given opened lasting given' again =
    let after = (route_request r.now r.requestor r.method r.session_id m).0 in
    let first : has_get_request after id ≡ true =
      rw given (opened-has r.now r.requestor r.method id m tr (rw given at opened)) in
    let o =
      (route_request_iff later.now later.requestor later.method later.session_id (run es after)
          tr').0
        again in
    let same : o.id ≡ id = ground (arith, o.given) in
    let idle : has_get_request (run es after) id ≡ false =
      ap (has_get_request (run es after)) (sym same) ∙ o.idle in
    let there : get (run es after).server_instances id ≡ some tr' =
      ap (get (run es after).server_instances) (sym same) ∙ o.at in
    elim (run-IsTaken es after id lasting (inl first)) [ inl busy ↦ cc | inr absent ↦ cc ]
