-- ===== src/Mcp/EventStore/Window.antt =====
-- What the eviction loop of `_retain_event` in mcp_server.py leaves: the newest events that fit.
use goffy_os.Prelude.{
  ℕ, ◌+◌, ◌≤◌, ◌≡◌, refl, Bool, true, ◌&&◌, List, [], ◌∷◌, ◌++◌, arith, leb, length, length-append,
  if◌then◌else◌, Bool-cases, inl, inr, All,
}
use goffy_os.Prelude.Result.{ok}
use goffy_os.Mcp.EventStore.{StoredMcpEvent, evict}

-- The sum of the sizes
abbrev pub total_bytes : List StoredMcpEvent → ℕ
total_bytes [] = 0
total_bytes (e ∷ es) = e.size_bytes + total_bytes es

pub total-append :
    (xs ys : List StoredMcpEvent) → total_bytes (xs ++ ys) ≡ total_bytes xs + total_bytes ys
total-append [] ys = omega arith
total-append (x ∷ xs) ys = omega (arith, total-append xs ys)

module _ (max_events max_bytes : ℕ) where
  abbrev pub fits : List StoredMcpEvent → Bool
  fits es = leb (length es) max_events && leb (total_bytes es) max_bytes

  -- The longest end of a history of events that fits.
  unfoldable pub newest : List StoredMcpEvent → List StoredMcpEvent
  newest [] = []
  newest (e ∷ es) = let rest = newest es in if fits (e ∷ es) then e ∷ es else rest

  pub evict_lem :
      (es : List StoredMcpEvent)
      → evict max_events max_bytes es (total_bytes es) ≡ ok (newest es, total_bytes (newest es))
  unfolding evict newest
  evict_lem [] = ground arith
  evict_lem (e ∷ es) = ground (arith, evict_lem es)

  pub newest-fits : (es : List StoredMcpEvent) → fits (newest es) ≡ true
  unfolding newest
  newest-fits [] = ground arith
  newest-fits (e ∷ es) = ground (arith, newest-fits es)

  pub newest_self : (es : List StoredMcpEvent) → fits es ≡ true → newest es ≡ es
  unfolding newest
  newest_self [] h = refl
  newest_self (e ∷ es) h = ground arith

  -- What was evicted before does not matter later.
  pub newest-append :
      (es : List StoredMcpEvent) (e : StoredMcpEvent)
      → newest (newest es ++ e ∷ []) ≡ newest (es ++ e ∷ [])
  unfolding newest
  newest-append [] e = refl
  newest-append (x ∷ xs) e =
      ground (arith, newest-append xs e, length-append xs (e ∷ []), total-append xs (e ∷ []))

  pub newest-ne-nil :
      (es : List StoredMcpEvent) (e : StoredMcpEvent)
      → 1 ≤ max_events
      → e.size_bytes ≤ max_bytes
      → (kept : List StoredMcpEvent) × (newest (es ++ e ∷ []) ≡ kept ++ e ∷ [])
  unfolding newest
  newest-ne-nil [] e room small = ([], ground arith)
  newest-ne-nil (x ∷ xs) e room small = elim (Bool-cases (fits (x ∷ xs ++ e ∷ []))) [
    | inl good ↦ (x ∷ xs, rw good refl)
    | inr bad ↦ let (kept, same) = newest-ne-nil xs e room small in (kept, rw bad same)
  ]

  pub All-newest {κ} :
      (P : StoredMcpEvent → Type κ) (es : List StoredMcpEvent) → All P es → All P (newest es)
  unfolding newest
  All-newest P [] h = h
  All-newest P (e ∷ es) h = elim (Bool-cases (fits (e ∷ es))) [
    | inl good ↦ rw good h
    | inr bad ↦ rw bad (All-newest P es h.1)
  ]
