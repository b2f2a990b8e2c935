-- ===== src/Audit.antt =====
-- The stored hash chain of hub/src/goffy_hub/operator_audit.py. A row is a `_StoredAuditRow`, as
-- `_fetch_stored_rows` returns it, in the order of the sequence numbers: its hashes stand beside the
-- event, and how its columns are written and read as texts is left out. A transaction is one step,
-- and an error undoes it. Tokens are normalised before they get here and times are microseconds.
pub mod Chain
pub mod Verification
pub mod Window
use goffy_os.Prelude.{
  ℕ, ◌+◌, ◌-◌, ◌*◌, ◌/◌, String, Bool, true, false, not, ◌&&◌, ◌||◌, Option, none, some, List, [],
  ◌∷◌, ◌++◌, replicate, length, drop, last?, leb, take, nat_eq, bytes_eq, ◌==◌, ◌!=◌, if◌then◌else◌,
}
use goffy_os.Prelude.Result.{Result, ok, raise}
use goffy_os.Protocol.{Uuid}
use goffy_os.Approval.{Bytes}
use goffy_os.Credentials.{Platform}
use Prim.Native.Nat.{◌%◌}

pub record AuditEvent : Type 0 where
  pub sequence : ℕ
  pub recorded_at : ℕ
  pub source : String
  pub action : String
  pub outcome : String
  pub principal_kind : String
  pub credential_id : Option Uuid
  pub detail_code : Option String

pub record StoredRow : Type 0 where
  pub event : AuditEvent
  pub previous_hash : Bytes
  pub event_hash : Bytes

pub record ChainTip : Type 0 where
  pub sequence : ℕ
  pub event_hash : Bytes

pub data Integrity : Type 0 where
  verified retention_gap tamper_detected : Integrity

unfoldable pub is_tampered : Integrity → Bool
is_tampered tamper_detected = true
is_tampered _ = false

pub data AuditError : Type 0 where
  integrity_failed operation_failed : AuditError

-- The two tables of the database
pub record AuditStore : Type 0 where
  pub rows : List StoredRow
  pub chain_tip : Option ChainTip
  pub high_water_mark : Option ChainTip

abbrev pub genesis_hash : Bytes
genesis_hash = replicate 32 0

-- len(encoded).to_bytes(4, "big"), for lengths below 2 ^ 32
abbrev length_bytes : ℕ → Bytes
length_bytes n = (n / 16777216) % 256 ∷ (n / 65536) % 256 ∷ (n / 256) % 256 ∷ n % 256 ∷ []

-- `decimal` is `str` of an `int`.
module _ (p : Platform) (decimal : ℕ → String) where
  abbrev pub framed : String → Bytes
  framed s = let encoded = p.utf8 s in length_bytes (length encoded) ++ encoded

  abbrev pub uuid_or_empty : Option Uuid → String
  uuid_or_empty none = ""
  uuid_or_empty (some id) = p.uuid_text id

  abbrev pub text_or_empty : Option String → String
  text_or_empty none = ""
  text_or_empty (some s) = s

  -- `_audit_event_hash`
  unfoldable pub audit_event_hash : AuditEvent → Bytes → Bytes
  audit_event_hash e previous_hash = p.sha256 (
      (p.utf8 "goffy-operator-audit-v1" ++ 0 ∷ [])
      ++ previous_hash
      ++ framed (decimal e.sequence)
      ++ framed (p.iso e.recorded_at)
      ++ framed e.source
      ++ framed e.action
      ++ framed e.outcome
      ++ framed e.principal_kind
      ++ framed (uuid_or_empty e.credential_id)
      ++ framed (text_or_empty e.detail_code))

  -- The loop of `_verify_stored_rows`
  unfoldable pub is_chain : Bytes → List StoredRow → Bool
  is_chain expected_previous [] = true
  is_chain expected_previous (row ∷ rows) =
      (row.previous_hash == expected_previous
        && audit_event_hash row.event row.previous_hash == row.event_hash)
      && is_chain row.event_hash rows

  unfoldable pub is_tip : ChainTip → StoredRow → Bool
  is_tip tip row = tip.sequence == row.event.sequence && tip.event_hash == row.event_hash

  -- The part of `_verify_stored_rows` about stored rows, given the first and the last one
  unfoldable pub verify_rows :
      List StoredRow → StoredRow → StoredRow → ChainTip → ChainTip → Integrity
  verify_rows rows first last tip mark =
      let from_start = first.event.sequence == 1 in
      if not (is_chain (if from_start then genesis_hash else first.previous_hash) rows)
      then tamper_detected
      else if not (is_tip tip last)
      then tamper_detected
      else if not (mark.sequence == tip.sequence && mark.event_hash == tip.event_hash)
      then tamper_detected
      else if from_start
      then verified
      else retention_gap

  abbrev is_genesis : ChainTip → Bool
  is_genesis tip = tip.sequence == 0 && tip.event_hash == genesis_hash

  verify_with_tips : List StoredRow → ChainTip → ChainTip → Integrity
  verify_with_tips [] tip mark =
      if is_genesis tip && is_genesis mark then verified else tamper_detected
  verify_with_tips (first ∷ rows) tip mark = elim (last? (first ∷ rows)) [
    | none ↦ tamper_detected
    | some last ↦ verify_rows (first ∷ rows) first last tip mark
  ]

  -- `_verify_stored_rows`
  unfoldable pub verify_stored_rows : AuditStore → Integrity
  unfolding verify_with_tips
  verify_stored_rows s = elim s.chain_tip [
    | none ↦ tamper_detected
    | some tip ↦ elim s.high_water_mark [
      | none ↦ tamper_detected
      | some mark ↦ verify_with_tips s.rows tip mark
    ]
  ]

  -- `_prune_oldest`; the difference stops at 0
  unfoldable pub prune_oldest : ℕ → AuditStore → AuditStore
  prune_oldest max_events s = record s { rows = drop (length s.rows - max_events) s.rows }

  last_hash : Option StoredRow → Bytes
  last_hash none = genesis_hash
  last_hash (some row) = row.event_hash

  next_sequence : Option StoredRow → ℕ
  next_sequence none = 1
  next_sequence (some row) = row.event.sequence + 1

  -- The row that `_persist_event` inserts
  unfoldable pub next_row : AuditStore → AuditEvent → StoredRow
  unfolding last_hash next_sequence
  next_row s e =
      let previous_hash = last_hash (last? s.rows) in
      let event : AuditEvent = record e { sequence = next_sequence (last? s.rows) } in
      record {
        event = event;
        previous_hash = previous_hash;
        event_hash = audit_event_hash event previous_hash;
      }

  -- INSERT and the writes of both tips
  unfoldable pub append_row : StoredRow → AuditStore → AuditStore
  append_row row s =
      let tip : ChainTip = record { sequence = row.event.sequence; event_hash = row.event_hash } in
      record { rows = s.rows ++ row ∷ []; chain_tip = some tip; high_water_mark = some tip }

  -- `_persist_event`, with the integrity that it notes
  unfoldable pub persist_event :
      (max_events : ℕ) (reachable : Bool)
      → AuditEvent
      → AuditStore × Integrity
      → (AuditStore × Integrity) × Result AuditError AuditEvent
  persist_event max_events reachable e (s, integrity) =
      let row = next_row s e in
      let s' = prune_oldest max_events (append_row row s) in
      if not reachable
      then ((s, integrity), raise operation_failed)
      else if is_tampered (verify_stored_rows s)
      then ((s, tamper_detected), raise integrity_failed)
      else if not (length row.previous_hash == 32 && length row.event_hash == 32)
      then ((s, integrity), raise operation_failed)
      else ((s', verify_stored_rows s'), ok row.event)

  -- `check_store` of a log with a database
  unfoldable pub check_store :
      Bool → AuditStore × Integrity → (AuditStore × Integrity) × Result AuditError (Unit {0})
  check_store reachable (s, integrity) =
      let now = verify_stored_rows s in
      if not reachable
      then ((s, integrity), raise operation_failed)
      else ((s, now), if is_tampered now then raise integrity_failed else ok tt)
