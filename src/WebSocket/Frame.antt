-- ===== src/WebSocket/Frame.antt =====
-- What sending an event leaves alone in the endpoint of app.py, and what running a prepared call
-- may change.
use goffy_os.Prelude.{String, ◌≡◌, refl, ◌⊎◌, inl, inr, Option, [], ◌∷◌, ◌++◌, arith, Bool-cases}
use goffy_os.Prelude.Result.{Result-cases}
use goffy_os.Protocol.{Uuid, ErrorCode, ToolInvocationPayload}
use goffy_os.Registry.{
  Models, ToolRegistry, PreparedToolInvocation, ToolInvocationResult, RegistryError,
  execution_failed, not_found, is_registered, invoke_prepared,
}
use goffy_os.Approval.{Crypto}
use goffy_os.Auth.Principal.{AuthenticatedPrincipal}
use goffy_os.WebSocket.{
  Event, progress, result, verified, Wire, Session, send_event, send_error, send_completion,
  start_run, fail_run, execute_prepared,
}

-- Everything but the events that went out, the two flags and the runs.
pub record SameState (s s' : Session) : Type 0 where
  pub discovered : s'.discovered_tools ≡ s.discovered_tools
  pub seen : s'.seen_message_ids ≡ s.seen_message_ids
  pub pending : s'.pending ≡ s.pending
  pub store : s'.store ≡ s.store

module _ (w : Wire) where
  pub send_event-SameState : (e : Event) (s : Session) → SameState s (send_event w e s).0
  unfolding send_event
  send_event-SameState e s = ground arith

  pub runs-send_event : (e : Event) (s : Session) → (send_event w e s).0.runs ≡ s.runs
  unfolding send_event
  runs-send_event e s = ground arith

  pub send_error-SameState :
      (code : ErrorCode) (message : String) (id : Option Uuid) (s : Session)
      → SameState s (send_error w code message id s)
  unfolding send_error
  send_error-SameState code message id s = send_event-SameState _ s

  pub runs-send_error :
      (code : ErrorCode) (message : String) (id : Option Uuid) (s : Session)
      → (send_error w code message id s).runs ≡ s.runs
  unfolding send_error
  runs-send_error code message id s = runs-send_event _ s

  -- Two states that differ in events, flags and runs at most, the runs being the same.
  abbrev pub Quiet : Session → Session → Type 0
  Quiet s s' = SameState s s' × (s'.runs ≡ s.runs)

  pub Quiet-trans : (s t u : Session) → Quiet s t → Quiet t u → Quiet s u
  Quiet-trans s t u p q = ground arith

  send_event-Quiet : (e : Event) (s : Session) → Quiet s (send_event w e s).0
  send_event-Quiet e s = (send_event-SameState e s, runs-send_event e s)

  send_completion-Quiet :
      (invocation : ToolInvocationPayload) (id : Uuid) (res : ToolInvocationResult) (s : Session)
      → Quiet s (send_completion w invocation id res s)
  unfolding send_completion
  send_completion-Quiet invocation id res s =
      let target = res.definition.execution_target in
      let e1 = progress invocation.tool_name target "completed" 1 id in
      let e2 = result invocation.tool_name target res.structured_content id in
      let s1 = (send_event w e1 s).0 in
      let s2 = (send_event w e2 s1).0 in
      ground (
        arith,
        send_event-Quiet e1 s,
        send_event-Quiet e2 s1,
        send_event-Quiet (verified res.definition.name id) s2,
      )

  fail_run-Quiet : (e : RegistryError) (id : Uuid) (s : Session) → Quiet s (fail_run w e id s)
  unfolding fail_run
  fail_run-Quiet (execution_failed reason) id s =
      (send_error-SameState _ _ _ s, runs-send_error _ _ _ s)
  fail_run-Quiet not_found id s = ground arith
  fail_run-Quiet _ id s = ground arith

module _ (c : Crypto) (m : Models) (w : Wire) (registry : ToolRegistry)
    (principal : AuthenticatedPrincipal) where
  start_run_lem :
      (prepared : PreparedToolInvocation) (s : Session)
      → SameState s (start_run m registry prepared s)
        × (((start_run m registry prepared s).runs ≡ s.runs)
            ⊎ ((start_run m registry prepared s).runs ≡ s.runs ++ prepared ∷ []))
  unfolding start_run
  start_run_lem prepared s = elim (Bool-cases (is_registered m registry prepared.definition)) [
    | inl known ↦
        simp known
          (record { discovered = refl; seen = refl; pending = refl; store = refl }, inr refl)
    | inr unknown ↦
        simp unknown
          (record { discovered = refl; seen = refl; pending = refl; store = refl }, inl refl)
  ]

  -- Running a prepared call starts its handler at most once and touches nothing else.
  pub execute_prepared-runs :
      (invocation : ToolInvocationPayload) (prepared : PreparedToolInvocation) (id : Uuid)
      (s : Session)
      → let s' = execute_prepared c m w registry principal invocation prepared id s in
        SameState s s' × ((s'.runs ≡ s.runs) ⊎ (s'.runs ≡ s.runs ++ prepared ∷ []))
  unfolding execute_prepared
  execute_prepared-runs invocation prepared id s =
      let e1 = progress invocation.tool_name prepared.definition.execution_target "accepted" 0 id in
      let s1 = (send_event w e1 s).0 in
      let s2 = start_run m registry prepared s1 in
      elim (Result-cases (
        invoke_prepared m registry prepared (w.handle prepared.definition prepared.parsed_input))) [
          | inl (res, good) ↦ ground (
            arith,
            send_event-Quiet w e1 s,
            start_run_lem prepared s1,
            send_completion-Quiet w invocation id res s2,
          )
          | inr (e, bad) ↦
              ground (
                arith,
                send_event-Quiet w e1 s,
                start_run_lem prepared s1,
                fail_run-Quiet w e id s2,
              )
        ]
