-- ===== src/Audit/Window.antt =====
-- `OperatorAuditLog` of hub/src/goffy_hub/operator_audit.py as its callers see it: the events that it
-- keeps in memory, `record` and `snapshot`, with a database behind it or without. What runs under
-- the lock is one step.
pub mod Newest
use goffy_os.Prelude.{
  ℕ, ◌+◌, ◌-◌, String, Bool, true, false, not, ◌&&◌, ◌||◌, Option, none, some, List, [], ◌∷◌, ◌++◌,
  ltb, leb, length, take, drop, last?, map, nat_eq, ◌==◌, if◌then◌else◌,
}
use mathlib.Core.List.{reverse}
use goffy_os.Prelude.Result.{Result, ok, raise, ◌>>=◌, ◌>>◌, guard}
use goffy_os.Protocol.{Uuid}
use goffy_os.Credentials.{Platform}
use goffy_os.Audit.{
  AuditEvent, StoredRow, AuditStore, Integrity, verified, AuditError, is_tampered,
  verify_stored_rows, prune_oldest, persist_event, check_store,
}

-- `ValueError` of a token or a limit, or a failure of the store
pub data LogError : Type 0 where
  value_error : String → LogError
  store_failure : AuditError → LogError

-- `database` is there if a path is configured; `integrity` is the field of this name.
pub record AuditLog : Type 0 where
  pub max_events : ℕ
  pub database : Option AuditStore
  pub integrity : Integrity
  pub events : List AuditEvent
  pub next_sequence : ℕ

-- What a caller of `record` says of an event
pub record AuditEntry : Type 0 where
  pub source : String
  pub action : String
  pub outcome : String
  pub principal_kind : String
  pub credential_id : Option Uuid
  pub detail_code : Option String

pub record AuditSnapshot : Type 0 where
  pub events : List AuditEvent
  pub is_stored : Bool
  pub integrity : Option Integrity

abbrev pub max_audit_text_length : ℕ
max_audit_text_length = 80

-- [a-z0-9_.:-]
unfoldable pub is_token_char : ℕ → Bool
is_token_char c =
    (leb b'a' c && leb c b'z')
    || (leb b'0' c && leb c b'9')
    || c == b'_'
    || c == b'.'
    || c == b':'
    || c == b'-'

unfoldable pub are_token_chars : List ℕ → Bool
are_token_chars [] = true
are_token_chars (c ∷ cs) = is_token_char c && are_token_chars cs

-- The `while` loop of `record`
unfoldable pub trim_events : ℕ → List AuditEvent → List AuditEvent
trim_events max_events [] = []
trim_events max_events (e ∷ es) =
    let rest = trim_events max_events es in
    if ltb max_events (length (e ∷ es)) then rest else e ∷ es

-- `strip_lower` is `strip` and `lower` of a text, and `decimal` is `str` of an `int`.
module _ (p : Platform) (strip_lower : String → String) (decimal : ℕ → String) where
  -- `AUDIT_TOKEN_PATTERN.fullmatch`
  unfoldable pub is_token : String → Bool
  is_token s =
      let cs = p.code_points s in
      are_token_chars cs && leb 1 (length cs) && leb (length cs) max_audit_text_length

  -- `_audit_token`; a token that matches is not longer than what the slice keeps.
  unfoldable pub audit_token : String → Result LogError String
  audit_token value =
      let normalized = strip_lower value in
      if is_token normalized
      then ok normalized
      else raise (value_error "audit field is not a safe bounded token")

  unfoldable pub optional_token : Option String → Result LogError (Option String)
  optional_token none = ok none
  optional_token (some value) = audit_token value >>= λ token. ok (some token)

  -- `base_event`
  unfoldable pub base_event : ℕ → ℕ → AuditEntry → Result LogError AuditEvent
  base_event sequence now x = do
    source ← audit_token x.source
    action ← audit_token x.action
    outcome ← audit_token x.outcome
    principal_kind ← audit_token x.principal_kind
    detail_code ← optional_token x.detail_code
    ok (record {
      sequence = sequence;
      recorded_at = now;
      source = source;
      action = action;
      outcome = outcome;
      principal_kind = principal_kind;
      credential_id = x.credential_id;
      detail_code = detail_code;
    })

  -- The end of `record`
  unfoldable pub keep_event : AuditEvent → AuditLog → AuditLog
  keep_event e l = record l {
    events = trim_events l.max_events (l.events ++ e ∷ []);
    next_sequence = e.sequence + 1;
  }

  -- `record` once the event is there
  unfoldable pub record_base :
      Bool → AuditEvent → AuditLog → Option AuditStore → AuditLog × Result LogError AuditEvent
  record_base reachable e l none = (keep_event e l, ok e)
  record_base reachable e l (some store) =
      let ((store', integrity'), outcome) =
        persist_event p decimal l.max_events reachable e (store, l.integrity) in
      let l' : AuditLog = record l { database = some store'; integrity = integrity' } in
      elim outcome [
        | raise problem ↦ (l', raise (store_failure problem))
        | ok stored ↦ (keep_event stored l', ok stored)
      ]

  unfoldable pub record_event :
      (now : ℕ) (reachable : Bool) → AuditEntry → AuditLog → AuditLog × Result LogError AuditEvent
  record_event now reachable x l = elim (base_event l.next_sequence now x) [
    | raise problem ↦ (l, raise problem)
    | ok e ↦ record_base reachable e l l.database
  ]

  -- `check_store`
  unfoldable pub check_log : Bool → AuditLog → AuditLog × Result LogError (Unit {0})
  check_log reachable l = elim l.database [
    | none ↦ (l, ok tt)
    | some store ↦
        let ((store', integrity'), outcome) =
          check_store p decimal reachable (store, l.integrity) in
        (
          record l { database = some store'; integrity = integrity' },
          elim outcome [ ok _ ↦ ok tt | raise problem ↦ raise (store_failure problem) ],
        )
  ]

abbrev has_database : AuditLog → Bool
has_database l = elim l.database [ none ↦ false | some store ↦ true ]

-- The property `integrity`; `none` is "volatile".
abbrev shown_integrity : AuditLog → Option Integrity
shown_integrity l = elim l.database [ none ↦ none | some store ↦ some l.integrity ]

-- `snapshot`
unfoldable pub snapshot : Option ℕ → AuditLog → Result LogError AuditSnapshot
snapshot limit l =
    let newest_first = reverse l.events in
    elim limit [
      | none ↦ ok (record {
        events = newest_first;
        is_stored = has_database l;
        integrity = shown_integrity l;
      })
      | some n ↦
          if n == 0
          then raise (value_error "limit must be positive")
          else ok (record {
            events = take n newest_first;
            is_stored = has_database l;
            integrity = shown_integrity l;
          })
    ]

abbrev pub memory_log : ℕ → AuditLog
memory_log max_events = record {
  max_events = max_events;
  database = none;
  integrity = verified;
  events = [];
  next_sequence = 1;
}

last_sequence : Option StoredRow → ℕ
last_sequence none = 0
last_sequence (some row) = row.event.sequence

-- `_load_persistent_events` of a log that has just been opened
unfoldable pub load_events : Platform → (ℕ → String) → (max_events : ℕ) → AuditStore → AuditLog
unfolding last_sequence
load_events p decimal max_events s =
    let first = verify_stored_rows p decimal s in
    let s' = if is_tampered first then s else prune_oldest p decimal max_events s in
    record {
      max_events = max_events;
      database = some s';
      integrity = verify_stored_rows p decimal s';
      events = map (λ r. r.event) (drop (length s'.rows - max_events) s'.rows);
      next_sequence = last_sequence (last? s'.rows) + 1;
    }
