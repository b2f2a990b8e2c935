-- ===== src/Mcp/Requests/Moving.antt =====
-- What one move of a request does to the session slots in mcp_server.py.
use goffy_os.Prelude.{
  ℕ, ◌+◌, ◌≤◌, String, ◌≡◌, refl, Bool, true, false, ◌&&◌, ◌||◌, Option, none, some, List, [], ◌∷◌,
  suc, arith, if◌then◌else◌, Bool-cases, inl, inr, string_eq, ◌==◌, ==_to_eq, is_none,
}
use goffy_os.Mcp.Body.{HttpCodec}
use goffy_os.Mcp.Slots.{
  Limits, Slots, reserve_session_slot, touch_session, remove_session, open_stream, close_stream,
}
use goffy_os.Mcp.Slots.Invariant.{
  taken, Frees, touch_session-Frees, remove_session-Frees, open_stream-Frees, close_stream-Frees,
  reserve_session_slot_lem, complete_session_reservation_lem, release_session_reservation_lem,
}
use goffy_os.Mcp.Requests.{
  HttpRequest, Phase, entered, reserving, touching, opening, running, closing, retouching,
  releasing, completing, cleaning, removing, done, raised, Tick, AppOutcome, answered, crashed,
  AsgiMessage, admit, check_body, enter, after_app, clean_up, finish, advance, session_to_clean,
  stream_to_clean, accepted_session_id,
}

-- The request has a reservation that it still has to end.
unfoldable pub holds : Phase → Bool
holds (running r reserved) = reserved
holds (releasing r) = true
holds (completing r messages) = true
holds _ = false

-- Only a POST reserves.
unfoldable pub IsOrderly : Phase → Type 0
IsOrderly (reserving r) = (r.method == "GET") ≡ false
IsOrderly (running r true) = (r.method == "GET") ≡ false
IsOrderly _ = Unit

abbrev pub holders : List Phase → ℕ
holders [] = 0
holders (p ∷ ps) = let rest = holders ps in if holds p then suc rest else rest

module _ (limits : Limits) (h : HttpCodec) (lower : String → String) where
  -- Phases that hold nothing and are orderly
  abbrev IsFree : Phase → Type 0
  IsFree p = (holds p ≡ false) × IsOrderly p

  admit-IsFree : (r : HttpRequest) → IsFree (admit limits h lower r)
  unfolding admit holds IsOrderly
  admit-IsFree r = ground arith

  check_body-IsFree :
      (r : HttpRequest) → (r.method == "GET") ≡ false → IsFree (check_body limits h lower r)
  unfolding check_body holds IsOrderly
  check_body-IsFree r post = ground (arith)

  enter-IsFree : (r : HttpRequest) → IsFree (enter limits h lower r)
  unfolding enter holds IsOrderly
  enter-IsFree r =
      elim (Bool-cases ((r.method == "GET" || r.method == "DELETE") && is_none r.session_id)) [
        | inl missing ↦ rw missing (refl, tt)
        | inr fine ↦ elim (Bool-cases (r.method == "POST")) [
          | inr other ↦ rw (fine, other) (admit-IsFree r)
          | inl post ↦
              let not_get : (r.method == "GET") ≡ false = rw (==_to_eq r.method "POST" post) refl in
              rw (fine, post) (check_body-IsFree r not_get)
        ]
      ]

  finish-IsFree :
      (r : HttpRequest) (messages : List AsgiMessage) → IsFree (finish limits h lower r messages)
  unfolding finish holds IsOrderly
  finish-IsFree r messages = ground arith

  after_app-holds :
      (r : HttpRequest) (reserved : Bool) (outcome : AppOutcome)
      → IsOrderly (running r reserved)
      → (holds (after_app limits h lower r reserved outcome) ≡ reserved)
        × IsOrderly (after_app limits h lower r reserved outcome)
  unfolding after_app holds IsOrderly
  after_app-holds r true outcome orderly = ground arith
  after_app-holds r false outcome orderly = ground arith

  if-IsFree : (b : Bool) (p q : Phase) → IsFree p → IsFree q → IsFree (if b then p else q)
  if-IsFree true p q of_p of_q = of_p
  if-IsFree false p q of_p of_q = of_q

  -- A move of an orderly request that holds what it holds keeps the limit, and changes the number
  -- of reservations as it changes its own hold.
  pub record Moved (s : Slots) (p : Phase) (s' : Slots) (p' : Phase) : Type 0 where
    pub within : taken s ≤ limits.max_active_sessions → taken s' ≤ limits.max_active_sessions
    pub counted :
        s'.pending_sessions + (if holds p then 1 else 0)
        ≡ s.pending_sessions + (if holds p' then 1 else 0)
    pub orderly : IsOrderly p'

  Frees-Moved :
      (s : Slots) (p : Phase) (s' : Slots) (p' : Phase)
      → Frees s s'
      → holds p ≡ false
      → IsFree p'
      → Moved s p s' p'
  Frees-Moved s p s' p' frees idle free = record {
    within = λ w. omega (arith, frees.0, frees.1, w);
    counted = ground (arith, frees.1);
    orderly = free.1;
  }

  reserving-Moved :
      (tick : Tick) (s : Slots) (r : HttpRequest)
      → IsOrderly (reserving r)
      → let (s', p') = advance limits h lower tick s (reserving r) in Moved s (reserving r) s' p'
  unfolding advance holds IsOrderly
  reserving-Moved tick s r orderly =
      let (s', granted) = reserve_session_slot limits tick.now s in
      let (shrinks, pending, bounded) = reserve_session_slot_lem limits tick.now s in
      elim (Bool-cases granted) [
        | inl yes_granted ↦ rw yes_granted (record {
          within = λ w. bounded yes_granted;
          counted = ground (arith, pending, yes_granted);
          orderly = orderly;
        })
        | inr not_granted ↦ rw not_granted (record {
          within = λ w. ground (arith, pending, not_granted, shrinks, w);
          counted = ground (arith, pending, not_granted);
          orderly = tt;
        })
      ]

  touching-Moved :
      (tick : Tick) (s : Slots) (r : HttpRequest) (id : Option String)
      → r.session_id ≡ id
      → let (s', p') = advance limits h lower tick s (touching r) in Moved s (touching r) s' p'
  unfolding advance holds IsOrderly
  touching-Moved tick s r none at =
      simp at (Frees-Moved s (touching r) s (running r false) (omega arith, refl) refl (refl, tt))
  touching-Moved tick s r (some id) at =
      let p' = if r.method == "GET" then opening r id else running r false in
      simp at (
        Frees-Moved s (touching r) (touch_session tick.now id s) p'
          (touch_session-Frees tick.now id s) refl
          (if-IsFree (r.method == "GET") (opening r id) (running r false) (refl, tt) (refl, tt)))

  retouching-Moved :
      (tick : Tick) (s : Slots) (r : HttpRequest) (id : String) (outcome : AppOutcome)
      → let p = retouching r id outcome in
        let (s', p') = advance limits h lower tick s p in Moved s p s' p'
  unfolding advance holds IsOrderly
  retouching-Moved tick s r id crashed =
      Frees-Moved s (retouching r id crashed) (touch_session tick.now id s) (done r raised)
        (touch_session-Frees tick.now id s) refl (refl, tt)
  retouching-Moved tick s r id (answered messages) =
      Frees-Moved s (retouching r id (answered messages)) (touch_session tick.now id s) _
        (touch_session-Frees tick.now id s) refl
        (if-IsFree (stream_to_clean id messages && tick.cleaned) (removing r id messages)
          (finish limits h lower r messages) (refl, tt) (finish-IsFree r messages))

  clean_up-IsFree :
      (r : HttpRequest) (messages : List AsgiMessage) (cleaned : Bool) (id : Option String)
      → IsFree (clean_up limits h lower r messages cleaned id)
  unfolding clean_up holds IsOrderly
  clean_up-IsFree r messages cleaned none = finish-IsFree r messages
  clean_up-IsFree r messages cleaned (some id) =
      if-IsFree cleaned (removing r id messages) (finish limits h lower r messages) (refl, tt)
        (finish-IsFree r messages)

  pub advance-Moved :
      (tick : Tick) (s : Slots) (p : Phase)
      → IsOrderly p
      → (holds p ≡ true → 1 ≤ s.pending_sessions)
      → let (s', p') = advance limits h lower tick s p in Moved s p s' p'
  unfolding advance holds IsOrderly
  advance-Moved tick s (entered r) orderly held =
      Frees-Moved s (entered r) s (enter limits h lower r) (omega arith, refl) refl (enter-IsFree r)
  advance-Moved tick s (reserving r) orderly held = reserving-Moved tick s r orderly
  advance-Moved tick s (touching r) orderly held = touching-Moved tick s r r.session_id refl
  advance-Moved tick s (opening r id) orderly held =
      Frees-Moved s (opening r id) (open_stream id s) (running r false) (open_stream-Frees id s)
        refl (refl, tt)
  advance-Moved tick s (running r reserved) orderly held =
      let (same, next) = after_app-holds r reserved tick.outcome orderly in
      record { within = λ w. w; counted = ground (arith, same); orderly = next }
  advance-Moved tick s (closing r id outcome) orderly held =
      Frees-Moved s (closing r id outcome) (close_stream id s) (retouching r id outcome)
        (close_stream-Frees id s) refl (refl, tt)
  advance-Moved tick s (retouching r id outcome) orderly held = retouching-Moved tick s r id outcome
  advance-Moved tick s (releasing r) orderly held =
      let (fewer, counted) = release_session_reservation_lem s (held refl) in
      record {
        within = λ w. omega (arith, fewer, w);
        counted = omega (arith, counted);
        orderly = tt;
      }
  advance-Moved tick s (completing r messages) orderly held =
      let (fewer, counted) =
        complete_session_reservation_lem tick.now (accepted_session_id limits h lower messages) s
          (held refl) in
      record {
        within = λ w. omega (arith, fewer, w);
        counted = omega (arith, counted);
        orderly = tt;
      }
  advance-Moved tick s (cleaning r messages) orderly held =
      Frees-Moved s (cleaning r messages) s
        (clean_up limits h lower r messages tick.cleaned (session_to_clean r messages))
        (omega arith, refl) refl
        (clean_up-IsFree r messages tick.cleaned (session_to_clean r messages))
  advance-Moved tick s (removing r id messages) orderly held =
      Frees-Moved s (removing r id messages) (remove_session id s)
        (finish limits h lower r messages) (remove_session-Frees id s) refl
        (finish-IsFree r messages)
  advance-Moved tick s (done r reply) orderly held =
      Frees-Moved s (done r reply) s (done r reply) (omega arith, refl) refl (refl, tt)
