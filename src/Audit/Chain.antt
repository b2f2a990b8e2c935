-- ===== src/Audit/Chain.antt =====
-- What an intact chain of operator_audit.py is.
use goffy_os.Prelude.{
  ℕ, String, ◌≡◌, refl, sym, ◌∙◌, ◌↔◌, true, ◌&&◌, Option, none, some, List, [], ◌∷◌, ◌++◌, arith,
  length, last?, nat_eq, bytes_eq, bytes_beq_iff, ◌==◌, if◌then◌else◌,
}
use goffy_os.Approval.{Bytes}
use goffy_os.Credentials.{Platform}
use goffy_os.Audit.{
  AuditEvent, length_bytes, uuid_or_empty, text_or_empty, StoredRow, ChainTip, AuditStore,
  genesis_hash, audit_event_hash, is_chain,
}

-- The hash before the first row, as `_verify_stored_rows` expects it
abbrev pub start : List StoredRow → Bytes
start [] = genesis_hash
start (row ∷ rows) = if row.event.sequence == 1 then genesis_hash else row.previous_hash

-- The tip that belongs to some rows
abbrev pub tip_of : Option StoredRow → ChainTip
tip_of none = record { sequence = 0; event_hash = genesis_hash }
tip_of (some row) = record { sequence = row.event.sequence; event_hash = row.event_hash }

module _ (p : Platform) (decimal : ℕ → String) where
  -- Both tips are those of the rows, and the rows are a chain.
  pub record IsIntact (s : AuditStore) : Type 0 where
    pub tip : s.chain_tip ≡ some (tip_of (last? s.rows))
    pub mark : s.high_water_mark ≡ some (tip_of (last? s.rows))
    pub chain : is_chain p decimal (start s.rows) s.rows ≡ true

  pub same_tip :
      (a b : ChainTip) → (a.sequence == b.sequence && a.event_hash == b.event_hash) ≡ true → a ≡ b
  same_tip a b h = ground (arith, bytes_beq_iff a.event_hash b.event_hash)

  pub tip_refl : (a : ChainTip) → (a.sequence == a.sequence && a.event_hash == a.event_hash) ≡ true
  tip_refl a = ground (arith, (bytes_beq_iff a.event_hash a.event_hash).1 refl)

  -- The texts of an event, in the order in which they are hashed
  abbrev pub hashed_texts : AuditEvent → List String
  hashed_texts e =
      decimal e.sequence
      ∷ p.iso e.recorded_at
      ∷ e.source
      ∷ e.action
      ∷ e.outcome
      ∷ e.principal_kind
      ∷ uuid_or_empty p decimal e.credential_id
      ∷ text_or_empty p decimal e.detail_code
      ∷ []

  -- Bytes, then each text as UTF-8 after its length in four bytes
  abbrev pub with_texts : Bytes → List String → Bytes
  with_texts bytes [] = bytes
  with_texts bytes (text ∷ texts) =
      with_texts (bytes ++ (length_bytes (length (p.utf8 text)) ++ p.utf8 text)) texts

  -- What a row must carry: the digest of the domain, the hash before it, and the texts of its event
  abbrev pub digest_of : AuditEvent → Bytes → Bytes
  digest_of e previous_hash =
      p.sha256 (
        with_texts ((p.utf8 "goffy-operator-audit-v1" ++ 0 ∷ []) ++ previous_hash) (hashed_texts e))

  audit_event_hash-digest_of :
      (e : AuditEvent) (previous_hash : Bytes)
      → audit_event_hash p decimal e previous_hash ≡ digest_of e previous_hash
  unfolding audit_event_hash
  audit_event_hash-digest_of e previous_hash = refl

  -- Each row carries the hash of the row before and the digest of its own event.
  abbrev pub IsLinked : Bytes → List StoredRow → Type 0
  IsLinked before [] = Unit
  IsLinked before (row ∷ rows) =
      (row.previous_hash ≡ before)
      × (row.event_hash ≡ digest_of row.event row.previous_hash)
      × IsLinked row.event_hash rows

  pub is_chain_iff :
      (before : Bytes) (rows : List StoredRow)
      → (is_chain p decimal before rows ≡ true) ↔ IsLinked before rows
  unfolding is_chain
  is_chain_iff before [] = (λ _. tt, λ _. refl)
  is_chain_iff before (row ∷ rows) =
      let same = audit_event_hash-digest_of row.event row.previous_hash in
      let link = bytes_beq_iff row.previous_hash before in
      let own =
        bytes_beq_iff (audit_event_hash p decimal row.event row.previous_hash) row.event_hash in
      let rest = is_chain_iff row.event_hash rows in
      (
        λ h. (link.0 (ground arith), sym (own.0 (ground arith)) ∙ same, rest.0 (ground arith)),
        λ (a, b, l). ground (arith, link.1 a, own.1 (same ∙ sym b), rest.1 l),
      )

  -- Both tips are those of the rows, and the rows are linked.
  pub record IsAuthentic (s : AuditStore) : Type 0 where
    pub tip : s.chain_tip ≡ some (tip_of (last? s.rows))
    pub mark : s.high_water_mark ≡ some (tip_of (last? s.rows))
    pub linked : IsLinked (start s.rows) s.rows
