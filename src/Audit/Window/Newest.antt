-- ===== src/Audit/Window/Newest.antt =====
-- The events of an audit log in memory, as operator_audit.py keeps and shows them.
use goffy_os.Prelude.{
  ℕ, ◌+◌, ◌-◌, ◌≤◌, String, ◌≡◌, refl, sym, ap, ◌∙◌, true, false, Option, none, some, List, [], ◌∷◌,
  ◌++◌, arith, take, newest, newest-cons, newest-append, drop-nil, reverse-newest, inl, inr, nat_eq,
}
use mathlib.Core.List.{reverse, append_assoc, append-nil}
use goffy_os.Prelude.Result.{ok, raise, Result-cases}
use goffy_os.Credentials.{Platform}
use goffy_os.Audit.{AuditEvent, AuditStore}
use goffy_os.Audit.Window.{
  AuditLog, AuditEntry, memory_log, trim_events, base_event, keep_event, record_event, record_base,
  snapshot,
}

pub trim_events_lem : (n : ℕ) (es : List AuditEvent) → trim_events n es ≡ newest n es
unfolding trim_events
trim_events_lem n [] = sym (drop-nil (0 - n))
trim_events_lem n (e ∷ es) = ground (arith, trim_events_lem n es, newest-cons n e es)

module _ (p : Platform) (strip_lower : String → String) (decimal : ℕ → String) where
  -- Calls of `record`, each at its time
  unfoldable pub record_all : List (ℕ × AuditEntry) → AuditLog → AuditLog
  record_all [] l = l
  record_all ((now, x) ∷ xs) l = record_all xs (record_event p strip_lower decimal now true x l).0

  -- What was recorded: each entry whose fields are tokens, numbered from `n` on.
  unfoldable pub history : ℕ → List (ℕ × AuditEntry) → List AuditEvent
  history n [] = []
  history n ((now, x) ∷ xs) = elim (base_event p strip_lower decimal n now x) [
    | raise problem ↦ history n xs
    | ok e ↦ e ∷ history (n + 1) xs
  ]

  sequence-base_event :
      (n now : ℕ) (x : AuditEntry) (e : AuditEvent)
      → base_event p strip_lower decimal n now x ≡ ok e
      → e.sequence ≡ n
  unfolding base_event
  sequence-base_event n now x e h = ground arith

  record_event-memory :
      (now : ℕ) (x : AuditEntry) (l : AuditLog)
      → l.database ≡ none
      → (record_event p strip_lower decimal now true x l).0
        ≡ elim (base_event p strip_lower decimal l.next_sequence now x) [
          | raise problem ↦ l
          | ok e ↦ keep_event p strip_lower decimal e l
        ]
  unfolding record_event record_base
  record_event-memory now x l none_there =
      elim (Result-cases (base_event p strip_lower decimal l.next_sequence now x)) [
        | inl (e, good) ↦
            rw (record_event, good)
              (ap (λ (d : Option AuditStore). (record_base p strip_lower decimal true e l d).0)
                none_there)
        | inr (problem, bad) ↦ rw (record_event, bad) refl
      ]

  kept_event :
      (e : AuditEvent) (l : AuditLog) (before : List AuditEvent)
      → l.events ≡ newest l.max_events before
      → (keep_event p strip_lower decimal e l).events ≡ newest l.max_events (before ++ e ∷ [])
  unfolding keep_event
  kept_event e l before held =
      trim_events_lem l.max_events (l.events ++ e ∷ [])
      ∙ ap (λ (es : List AuditEvent). newest l.max_events (es ++ e ∷ [])) held
      ∙ newest-append l.max_events before e

  record_all-memory :
      (xs : List (ℕ × AuditEntry)) (l : AuditLog) (before : List AuditEvent)
      → l.database ≡ none
      → l.events ≡ newest l.max_events before
      → let l' = record_all xs l in
        (l'.database ≡ none)
        × (l'.max_events ≡ l.max_events)
        × (l'.events ≡ newest l.max_events (before ++ history l.next_sequence xs))
  unfolding record_all history keep_event
  record_all-memory [] l before none_there held =
      (none_there, refl, held ∙ ap (newest l.max_events) (sym (append-nil before)))
  record_all-memory ((now, x) ∷ xs) l before none_there held =
      elim (Result-cases (base_event p strip_lower decimal l.next_sequence now x)) [
        | inr (problem, bad) ↦
            let same : (record_event p strip_lower decimal now true x l).0 ≡ l =
              record_event-memory now x l none_there ∙ rw bad refl in
            rw (record_all, same, history, bad) (record_all-memory xs l before none_there held)
        | inl (e, good) ↦
            let l1 = keep_event p strip_lower decimal e l in
            let same : (record_event p strip_lower decimal now true x l).0 ≡ l1 =
              record_event-memory now x l none_there ∙ rw good refl in
            let (still_none, limit, kept) =
              record_all-memory xs l1 (before ++ e ∷ []) none_there (kept_event e l before held) in
            let number : e.sequence ≡ l.next_sequence =
              sequence-base_event l.next_sequence now x e good in
            let joined : (before ++ e ∷ []) ++ history (e.sequence + 1) xs
                ≡ before ++ (e ∷ history (l.next_sequence + 1) xs) =
              append_assoc before (e ∷ []) (history (e.sequence + 1) xs)
              ∙ ap (λ (n : ℕ). before ++ (e ∷ history (n + 1) xs)) number in
            rw (record_all, same, history, good)
              (still_none, limit, kept ∙ ap (newest l.max_events) joined)
      ]

  -- Without a database, whatever was recorded: a snapshot with a limit shows, newest first, at most so
  -- many of the last `max_events` recorded events. These are the calls whose fields are tokens, numbered
  -- from 1 without a gap.
  pub snapshot-record_all :
      (max_events limit : ℕ) (xs : List (ℕ × AuditEntry))
      → 1 ≤ limit
      → snapshot (some limit) (record_all xs (memory_log max_events))
        ≡ ok (record {
          events = take limit (take max_events (reverse (history 1 xs)));
          is_stored = false;
          integrity = none;
        })
  unfolding snapshot
  snapshot-record_all max_events limit xs positive =
      let l = record_all xs (memory_log max_events) in
      let (none_there, _, kept) =
        record_all-memory xs (memory_log max_events) [] refl (sym (drop-nil (0 - max_events))) in
      let shown : take limit (reverse l.events)
          ≡ take limit (take max_events (reverse (history 1 xs))) =
        ap (λ (es : List AuditEvent). take limit (reverse es)) kept
        ∙ ap (take limit) (reverse-newest max_events (history 1 xs)) in
      ground (arith, shown, none_there)
