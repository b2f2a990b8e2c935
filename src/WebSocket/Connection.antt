-- ===== src/WebSocket/Connection.antt =====
-- What a whole connection of the endpoint of app.py can do.
use goffy_os.Prelude.{String, ◌≡◌, ◌⊎◌, some, List, [], ◌∷◌, ◌++◌, nat_eq, All}
use goffy_os.Prelude.Result.{ok}
use goffy_os.Protocol.{safe, permission_eq}
use goffy_os.Registry.{Models, ToolRegistry, PreparedToolInvocation, preflight}
use goffy_os.Approval.{Crypto}
use goffy_os.Auth.Principal.{AuthenticatedPrincipal}
use goffy_os.WebSocket.{Wire, Tick, Session, handle_message}
use goffy_os.WebSocket.Runs.{SafeRun, ApprovedRun}
use goffy_os.WebSocket.Waiting.{KeepsOwn}

module _ (c : Crypto) (m : Models) (w : Wire) (registry : ToolRegistry)
    (principal : AuthenticatedPrincipal) where
  abbrev pub Reason : Tick → Session → PreparedToolInvocation → Type 0
  Reason tick s p =
      SafeRun c m w registry principal s.discovered_tools p
      ⊎ ApprovedRun c m w registry principal tick s p

  ApprovedRun-same :
      (tick : Tick) (s s' : Session) (p : PreparedToolInvocation)
      → s'.pending ≡ s.pending
      → s'.store ≡ s.store
      → ApprovedRun c m w registry principal tick s' p
      → ApprovedRun c m w registry principal tick s p
  ApprovedRun-same tick s s' p same_pending same_store a = record {
    able = a.able;
    response = a.response;
    pending = a.pending;
    is_pending = rw (← same_pending) a.is_pending;
    is_prepared = a.is_prepared;
    request = a.request;
    issued = rw (← same_store) a.issued;
    approved = a.approved;
    authorized = a.authorized;
  }

  -- The session after some messages
  abbrev pub reach : List (Tick × String) → Session → Session
  reach [] s = s
  reach ((tick, raw) ∷ messages) s =
      reach messages (handle_message c m w registry principal tick raw s)

  -- One of the messages approved the call: in the session that the earlier messages had left, it
  -- waited there, prepared from what was asked, with the key of the principal, and its request was
  -- in the store.
  pub record WasApproved (start : Session) (messages : List (Tick × String))
      (p : PreparedToolInvocation) : Type 0 where
    pub earlier : List (Tick × String)
    pub later : List (Tick × String)
    pub tick : Tick
    pub raw : String
    pub among : messages ≡ earlier ++ (tick, raw) ∷ later
    pub run : ApprovedRun c m w registry principal tick (reach earlier start) p
    pub asked :
        preflight m registry run.pending.invocation.tool_name run.pending.invocation.arguments
        ≡ ok p
    pub own_credential : principal.credential_id ≡ some run.pending.credential_id
    pub own_public_key : principal.approval_public_key ≡ some run.pending.approval_public_key

  abbrev pub IsJustified : Session → List (Tick × String) → PreparedToolInvocation → Type 0
  IsJustified start messages p = (p.definition.permission ≡ safe) ⊎ WasApproved start messages p

  module _ (start : Session) (messages : List (Tick × String)) where
    -- The session after the earlier messages, with a reason for each run so far
    record Served (earlier rest : List (Tick × String)) (s : Session) : Type 0 where
      split : messages ≡ earlier ++ rest
      reached : s ≡ reach earlier start
      own : KeepsOwn m registry principal s
      reasons : All (IsJustified start messages) s.runs
