-- ===== src/Mcp/Manager/Opening.antt =====
-- What a request of a session does to its stream in mcp_server.py.
use goffy_os.Prelude.{
  ℕ, String, ◌≡◌, ◌↔◌, refl, ap, ◌∙◌, true, false, Option, none, some, arith, nat_eq, string_eq,
  Bool-cases, Option-cases, inl, inr, eq_iff, ==_refl,
}
use goffy_os.Prelude.Dict.{get, get-put}
use goffy_os.Mcp.Manager.{
  Requestor, TransportId, Manager, streamed, has_get_request, begin_get_request, set_transport,
  owns_session, route_owned, route_known, route_request, extend_idle_deadline_if_not_streaming,
}

-- What opens a stream: the owner of a session with this transport asks by GET while none is open.
pub record OpensStream (requestor : Option Requestor) (method : String) (session_id : Option String)
    (m : Manager) (tr : TransportId) : Type 0 where
  pub id : String
  pub given : session_id ≡ some id
  pub at : get m.server_instances id ≡ some tr
  pub owned : owns_session m requestor id ≡ true
  pub by_get : method ≡ "GET"
  pub idle : has_get_request m id ≡ false

route_owned-streamed :
    (now : ℕ) (method id : String) (tr tr' : TransportId) (m : Manager)
    → ((route_owned now method id tr m).1 ≡ streamed tr')
      ↔ ((method ≡ "GET") × (has_get_request m id ≡ false) × (tr ≡ tr'))
unfolding route_owned begin_get_request
route_owned-streamed now method id tr tr' m = (
  λ h. ground (arith, eq_iff method "GET"),
  λ (by_get, idle, same). ground (arith, eq_iff method "GET"),
)

-- A request is given a stream exactly when the owner of the session asks by GET while it has none.
pub route_request_iff :
    (now : ℕ) (requestor : Option Requestor) (method : String) (session_id : Option String)
    (m : Manager) (tr : TransportId)
    → ((route_request now requestor method session_id m).1 ≡ streamed tr)
      ↔ OpensStream requestor method session_id m tr
unfolding route_request route_known
route_request_iff now requestor method none m tr = (λ h. cc, λ o. cc)
route_request_iff now requestor method (some id) m tr = (
  λ h. elim (Option-cases (get m.server_instances id)) [
    | inl missing ↦ absurd (ground arith)
    | inr (tr', found) ↦
        let (by_get, idle, same) = (route_owned-streamed now method id tr' tr m).0 (ground arith) in
        record {
          id = id;
          given = refl;
          at = found ∙ ap some same;
          owned = ground arith;
          by_get = by_get;
          idle = idle;
        }
  ],
  λ o.
      let same : id ≡ o.id = ground (arith, o.given) in
      let at : get m.server_instances id ≡ some tr = ap (get m.server_instances) same ∙ o.at in
      let owned : owns_session m requestor id ≡ true =
        ap (owns_session m requestor) same ∙ o.owned in
      let idle : has_get_request m id ≡ false = ap (has_get_request m) same ∙ o.idle in
      rw (route_request, at, route_known, owned)
        ((route_owned-streamed now method id tr tr m).1 (o.by_get, idle, refl)),
)

pub record Request : Type 0 where
  pub now : ℕ
  pub requestor : Option Requestor
  pub method : String
  pub session_id : Option String

route_owned-keeps :
    (now : ℕ) (method id : String) (tr : TransportId) (m : Manager) (j : String)
    → has_get_request m j ≡ true
    → has_get_request (route_owned now method id tr m).0 j ≡ true
unfolding route_owned begin_get_request extend_idle_deadline_if_not_streaming has_get_request
    set_transport
route_owned-keeps now method id tr m j h =
    ground (arith, get-put m.get_request_counts id j 1, eq_iff id j)

pub route_request-keeps :
    (r : Request) (m : Manager) (j : String)
    → has_get_request m j ≡ true
    → has_get_request (route_request r.now r.requestor r.method r.session_id m).0 j ≡ true
unfolding route_request route_known has_get_request
route_request-keeps r m j h = elim (Option-cases r.session_id) [
  | inl missing ↦ simp missing h
  | inr (id, given) ↦ simp given (known id (get m.server_instances id))
]
  where
    known :
        (id : String) (tr : Option TransportId)
        → has_get_request (route_known r.now r.requestor r.method id tr m).0 j ≡ true
    known id none = unfold route_known in h
    known id (some tr) = elim (Bool-cases (owns_session m r.requestor id)) [
      | inl owned ↦ rw (route_known, owned) (route_owned-keeps r.now r.method id tr m j h)
      | inr foreign ↦ rw (route_known, foreign) h
    ]

begins :
    (now : ℕ) (method id : String) (tr tr' : TransportId) (m : Manager)
    → (route_owned now method id tr m).1 ≡ streamed tr'
    → has_get_request (route_owned now method id tr m).0 id ≡ true
unfolding route_owned begin_get_request has_get_request set_transport
begins now method id tr tr' m h = ground (arith, get-put m.get_request_counts id id 1, ==_refl id)

pub opened-has :
    (now : ℕ) (requestor : Option Requestor) (method id : String) (m : Manager) (tr : TransportId)
    → (route_request now requestor method (some id) m).1 ≡ streamed tr
    → has_get_request (route_request now requestor method (some id) m).0 id ≡ true
unfolding route_request route_known
opened-has now requestor method id m tr opened = elim (Option-cases (get m.server_instances id)) [
  | inl missing ↦ absurd (ground arith)
  | inr (x, found) ↦ ground (arith, begins now method id x tr m)
]
