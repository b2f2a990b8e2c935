-- ===== src/Mcp/Requests/Bounded.antt =====
-- The limit on sessions of `_BoundedHttpMessageMiddleware` in mcp_server.py, over any interleaving
-- of requests.
use goffy_os.Prelude.{
  ℕ, ◌+◌, ◌≤◌, String, ◌≡◌, refl, false, List, [], ◌∷◌, ◌++◌, zero, suc, arith, if◌then◌else◌,
  string_eq, All, All-append,
}
use goffy_os.Mcp.Body.{HttpCodec}
use goffy_os.Mcp.Slots.{Limits, Slots, no_slots}
use goffy_os.Mcp.Slots.Invariant.{taken, remove_sessions-Frees}
use goffy_os.Mcp.Requests.{
  Phase, entered, Tick, System, Action, arrives, moves, terminates, advance, advance_at, act,
  act_all,
}
use goffy_os.Mcp.Requests.Moving.{holds, IsOrderly, holders, advance-Moved}

holders-append :
    (ps : List Phase) (p : Phase) → holds p ≡ false → holders (ps ++ p ∷ []) ≡ holders ps
holders-append [] p idle = rw idle refl
holders-append (q ∷ ps) p idle = ground (arith, holders-append ps p idle)

-- As many reservations as requests that hold one, and no more slots taken than there are.
pub record IsBounded (limits : Limits) (y : System) : Type 0 where
  pub within : taken y.slots ≤ limits.max_active_sessions
  pub balanced : y.slots.pending_sessions ≡ holders y.requests
  pub orderly : All IsOrderly y.requests

module _ (limits : Limits) (h : HttpCodec) (lower : String → String) where
  -- `others` reservations belong to requests that stand before these.
  advance_at_lem :
      (i : ℕ) (tick : Tick) (s : Slots) (ps : List Phase) (others : ℕ)
      → s.pending_sessions ≡ holders ps + others
      → taken s ≤ limits.max_active_sessions
      → All IsOrderly ps
      → let (s', ps') = advance_at limits h lower i tick s ps in
        (s'.pending_sessions ≡ holders ps' + others)
        × (taken s' ≤ limits.max_active_sessions)
        × All IsOrderly ps'
  unfolding advance_at
  advance_at_lem i tick s [] others counted within orderly = (counted, within, orderly)
  advance_at_lem zero tick s (p ∷ ps) others counted within orderly =
      let (s', p') = advance limits h lower tick s p in
      let moved = advance-Moved limits h lower tick s p orderly.0 (λ held. ground arith) in
      (ground (arith, moved.counted), moved.within within, (moved.orderly, orderly.1))
  advance_at_lem (suc i) tick s (p ∷ ps) others counted within orderly =
      let hold = if holds p then 1 else 0 in
      let (counted', within', orderly') =
        advance_at_lem i tick s ps (others + hold) (ground arith) within orderly.1 in
      (ground (arith, counted'), within', (orderly.0, orderly'))

  act-IsBounded :
      (a : Action) (y : System) → IsBounded limits y → IsBounded limits (act limits h lower a y)
  unfolding act
  act-IsBounded (arrives r) y b = record {
    within = b.within;
    balanced = ground (arith, holders-append y.requests (entered r) (unfold holds in refl));
    orderly =
        All-append IsOrderly y.requests (entered r ∷ []) b.orderly (unfold IsOrderly in (tt, tt));
  }
  act-IsBounded (moves i tick) y b =
      let (counted, within, orderly) =
        advance_at_lem i tick y.slots y.requests 0 (omega (arith, b.balanced)) b.within b.orderly in
      record { within = within; balanced = omega (arith, counted); orderly = orderly }
  act-IsBounded (terminates ids) y b =
      let frees = remove_sessions-Frees ids y.slots in
      record {
        within = omega (arith, frees.0, frees.1, b.within);
        balanced = omega (arith, frees.1, b.balanced);
        orderly = b.orderly;
      }

  act_all_from-IsBounded :
      (actions : List Action) (y : System)
      → IsBounded limits y
      → IsBounded limits (act_all limits h lower actions y)
  unfolding act_all
  act_all_from-IsBounded [] y b = b
  act_all_from-IsBounded (a ∷ rest) y b =
      act_all_from-IsBounded rest (act limits h lower a y) (act-IsBounded a y b)

  -- However requests arrive and interleave, whatever the application answers and whichever sessions
  -- are revoked meanwhile: active sessions and reservations together never exceed the limit, and the
  -- number of reservations is that of the requests that still have to end one.
  pub act_all-IsBounded :
      (actions : List Action)
      → IsBounded limits
          (act_all limits h lower actions (record { slots = no_slots; requests = [] }))
  act_all-IsBounded actions =
      act_all_from-IsBounded actions (record { slots = no_slots; requests = [] })
        (record { within = omega arith; balanced = refl; orderly = tt })
