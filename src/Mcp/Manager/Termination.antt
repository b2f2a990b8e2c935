-- ===== src/Mcp/Manager/Termination.antt =====
-- What `terminate_client` of mcp_server.py leaves of the sessions of a client.
use goffy_os.Prelude.{
  String, ◌≡◌, refl, ap, ◌∙◌, Bool, true, false, Option, none, some, List, [], ◌∷◌, arith, contains,
  nat_eq, string_eq, ◌==◌, ◌||◌, if◌then◌else◌, Bool-cases, Option-cases, inl, inr, nat_beq_iff,
  eq_iff, sym,
}
use goffy_os.Prelude.Dict.{
  get, IsDistinct, get-put, get-remove_all, contains-keys_where, contains-keys_where-absent,
}
use goffy_os.Mcp.Manager.{
  Transport, TransportId, Manager, set_transport, forget_sessions, is_owned_by, sessions_of,
  add_transport, transports_of, terminate_transports, terminate_client,
}

-- Whether a session belongs to a client
abbrev pub is_session_of : String → Manager → String → Bool
is_session_of client_id m id = elim (get m.session_owners id) [
  | none ↦ false
  | some owner ↦ owner.client_id == client_id
]

-- The tables of sessions, which `terminate_transports` leaves alone.
pub record SameTables (m m' : Manager) : Type 0 where
  pub instances : m'.server_instances ≡ m.server_instances
  pub owners : m'.session_owners ≡ m.session_owners
  pub counts : m'.get_request_counts ≡ m.get_request_counts
  pub notified : m'.notified_sessions ≡ m.notified_sessions

pub terminate_transports-SameTables :
    (trs : List TransportId) (m : Manager) → SameTables m (terminate_transports trs m)
unfolding terminate_transports set_transport
terminate_transports-SameTables [] m = record {
  instances = refl;
  owners = refl;
  counts = refl;
  notified = refl;
}
terminate_transports-SameTables (tr ∷ trs) m =
    let same =
      terminate_transports-SameTables trs
        (set_transport tr (λ (t : Transport). record t { is_terminated = true }) m) in
    record {
      instances = same.instances;
      owners = same.owners;
      counts = same.counts;
      notified = same.notified;
    }

-- What the transport is after it was perhaps terminated
unfoldable ended : Bool → Option Transport → Option Transport
ended over none = none
ended over (some t) = some (if over then record t { is_terminated = true } else t)

ended_twice : (a b : Bool) (t : Option Transport) → ended a (ended b t) ≡ ended (b || a) t
unfolding ended
ended_twice a b none = refl
ended_twice a b (some t) = ground arith

get-set_transport :
    (x tr : TransportId) (m : Manager)
    → get (set_transport x (λ t. record t { is_terminated = true }) m).transports tr
      ≡ ended (x == tr) (get m.transports tr)
unfolding set_transport ended
get-set_transport x tr m = elim (Option-cases (get m.transports x)) [
  | inl missing ↦ elim (Bool-cases (x == tr)) [
    | inl same ↦ ground (arith, nat_beq_iff x tr)
    | inr other ↦ ground (arith, get m.transports tr)
  ]
  | inr (t, found) ↦
      let t' : Transport = record t { is_terminated = true } in
      ground (arith, nat_beq_iff x tr, get-put m.transports x tr t')
]

get-terminate_transports :
    (trs : List TransportId) (m : Manager) (tr : TransportId)
    → get (terminate_transports trs m).transports tr ≡ ended (contains trs tr) (get m.transports tr)
unfolding terminate_transports
get-terminate_transports [] m tr = ended_none (get m.transports tr)
  where
    ended_none : (t : Option Transport) → t ≡ ended false t
    ended_none none = unfold ended in refl
    ended_none (some t) = unfold ended in refl
get-terminate_transports (x ∷ trs) m tr =
    get-terminate_transports trs
      (set_transport x (λ (t : Transport). record t { is_terminated = true }) m) tr
    ∙ ap (ended (contains trs tr)) (get-set_transport x tr m)
    ∙ ended_twice (contains trs tr) (x == tr) (get m.transports tr)

contains-transports_of :
    (m : Manager) (ids : List String) (id : String) (tr : TransportId)
    → contains ids id ≡ true
    → get m.server_instances id ≡ some tr
    → contains (transports_of m ids) tr ≡ true
unfolding transports_of add_transport
contains-transports_of m [] id tr h at = cc
contains-transports_of m (x ∷ ids) id tr h at = elim (Bool-cases (x == id)) [
  | inl hit ↦
      let same : x ≡ id = (eq_iff x id).0 hit in
      let first : get m.server_instances x ≡ some tr = ap (get m.server_instances) same ∙ at in
      ap (λ (o : Option TransportId). contains (add_transport o (transports_of m ids)) tr) first
      ∙ ground (arith, nat_beq_iff tr tr)
  | inr miss ↦
      later (get m.server_instances x) (transports_of m ids)
        (contains-transports_of m ids id tr (ground arith) at)
]
  where
    later :
        (o : Option TransportId) (trs : List TransportId)
        → contains trs tr ≡ true
        → contains (add_transport o trs) tr ≡ true
    later none trs known = known
    later (some y) trs known = ground arith

contains-sessions_of :
    (client_id : String) (m : Manager) (id : String)
    → IsDistinct m.session_owners
    → contains (sessions_of client_id m) id ≡ is_session_of client_id m id
unfolding sessions_of
contains-sessions_of client_id m id u = elim (Option-cases (get m.session_owners id)) [
  | inl absent ↦
      contains-keys_where-absent (is_owned_by client_id) m.session_owners id absent
      ∙ sym (rw (is_session_of, absent) refl)
  | inr (owner, found) ↦
      contains-keys_where (is_owned_by client_id) m.session_owners id owner u found
      ∙ sym (rw (is_session_of, found) refl)
]

ended-is_terminated :
    (old : Option Transport) (t : Transport) → ended true old ≡ some t → t.is_terminated ≡ true
unfolding ended
ended-is_terminated none t h = cc
ended-is_terminated (some old) t h = ground arith

-- What the end of a client does to one session.
pub record EndsSessions (client_id : String) (m m' : Manager) (ids : List String) (id : String)
    : Type 0 where
  pub told : contains ids id ≡ is_session_of client_id m id
  pub owner :
      get m'.session_owners id
      ≡ (if is_session_of client_id m id then none else get m.session_owners id)
  pub instance_gone :
      get m'.server_instances id
      ≡ (if is_session_of client_id m id then none else get m.server_instances id)
  pub stream :
      get m'.get_request_counts id
      ≡ (if is_session_of client_id m id then none else get m.get_request_counts id)
  pub notified :
      get m'.notified_sessions id
      ≡ (if is_session_of client_id m id then none else get m.notified_sessions id)
  pub over :
      (tr : TransportId) (t : Transport)
      → is_session_of client_id m id ≡ true
      → get m.server_instances id ≡ some tr
      → get m'.transports tr ≡ some t
      → t.is_terminated ≡ true

-- With one owner for each session, `terminate_client` names exactly the sessions of the client, takes
-- exactly these out of all tables, and terminates their transports; other sessions keep their entries.
pub terminate_client-EndsSessions :
    (client_id : String) (m : Manager) (id : String)
    → IsDistinct m.session_owners
    → let (m', ids) = terminate_client client_id m in EndsSessions client_id m m' ids id
unfolding terminate_client forget_sessions
terminate_client-EndsSessions client_id m id u =
    let ids = sessions_of client_id m in
    let m1 = forget_sessions ids m in
    let trs = transports_of m ids in
    let same = terminate_transports-SameTables trs m1 in
    let of = contains-sessions_of client_id m id u in
    record {
      told = of;
      owner = rw (same.owners, get-remove_all m.session_owners ids id, of) refl;
      instance_gone = rw (same.instances, get-remove_all m.server_instances ids id, of) refl;
      stream = rw (same.counts, get-remove_all m.get_request_counts ids id, of) refl;
      notified = rw (same.notified, get-remove_all m.notified_sessions ids id, of) refl;
      over = λ tr t owned at found.
          let known = contains-transports_of m ids id tr (of ∙ owned) at in
          ended-is_terminated (get m.transports tr) t (
            sym (
              get-terminate_transports trs m1 tr
              ∙ ap (λ (b : Bool). ended b (get m.transports tr)) known)
            ∙ found);
    }
