-- ===== src/Audit/Verification.antt =====
-- What `_verify_stored_rows` of operator_audit.py accepts.
use goffy_os.Prelude.{
  ℕ, String, ◌≡◌, ◌↔◌, refl, sym, ap, ◌∙◌, inl, inr, true, false, none, some, List, [], ◌∷◌, arith,
  last?, nat_eq, bytes_eq, Option-cases,
}
use goffy_os.Credentials.{Platform}
use goffy_os.Audit.{
  StoredRow, ChainTip, AuditStore, is_tampered, is_chain, is_tip, verify_rows, verify_with_tips,
  verify_stored_rows,
}
use goffy_os.Audit.Chain.{start, tip_of, IsIntact, IsAuthentic, is_chain_iff, same_tip, tip_refl}

pub last?-cons :
    (row : StoredRow) (rows : List StoredRow)
    → (last : StoredRow) × (last? (row ∷ rows) ≡ some last)
last?-cons row [] = (row, refl)
last?-cons row (r ∷ rows) = last?-cons r rows

module _ (p : Platform) (decimal : ℕ → String) where
  Accepts : List StoredRow → ChainTip → ChainTip → Type 0
  Accepts rows tip mark =
      (tip ≡ tip_of (last? rows))
      × (mark ≡ tip_of (last? rows))
      × (is_chain p decimal (start rows) rows ≡ true)

  verify_with_tips_iff :
      (rows : List StoredRow) (tip mark : ChainTip)
      → (is_tampered (verify_with_tips p decimal rows tip mark) ≡ false) ↔ Accepts rows tip mark
  unfolding verify_with_tips verify_rows is_tip is_tampered Accepts
  verify_with_tips_iff [] tip mark = (
    λ h. (
      same_tip p decimal tip (tip_of none) (ground arith),
      same_tip p decimal mark (tip_of none) (ground arith),
      unfold is_chain in refl,
    ),
    λ (a, b, c). rw (a, b) (ground (arith, tip_refl p decimal (tip_of none))),
  )
  verify_with_tips_iff (row ∷ rows) tip mark =
      let (last, found) = last?-cons row rows in
      (
        λ h.
            let at : tip ≡ tip_of (some last) =
              same_tip p decimal tip (tip_of (some last)) (ground arith) in
            let same : mark ≡ tip = same_tip p decimal mark tip (ground arith) in
            (ground (arith, found, at), ground (arith, found, at, same), ground (arith, found)),
        λ (a, b, c).
            let at : tip ≡ tip_of (some last) = a ∙ ap tip_of found in
            let same : mark ≡ tip = b ∙ sym a in
            ground (
              arith,
              c,
              tip_refl p decimal tip,
              tip_refl p decimal (tip_of (some last)),
              ap (λ t. t.sequence) at,
              ap (λ t. t.event_hash) at,
              ap (λ t. t.sequence) same,
              ap (λ t. t.event_hash) same,
            ),
      )

  pub verify_stored_rows-IsIntact :
      (s : AuditStore)
      → (is_tampered (verify_stored_rows p decimal s) ≡ false) ↔ IsIntact p decimal s
  unfolding verify_stored_rows Accepts
  verify_stored_rows-IsIntact s = (
    λ h. elim (Option-cases s.chain_tip) [
      | inl missing ↦ unfold is_tampered in absurd (ground arith)
      | inr (tip, has_tip) ↦ elim (Option-cases s.high_water_mark) [
        | inl missing ↦ unfold is_tampered in absurd (ground arith)
        | inr (mark, has_mark) ↦
            let (a, b, c) = (verify_with_tips_iff s.rows tip mark).0 (ground arith) in
            record { tip = has_tip ∙ ap some a; mark = has_mark ∙ ap some b; chain = c }
      ]
    ],
    λ i.
        rw (i.tip, i.mark)
          ((verify_with_tips_iff s.rows (tip_of (last? s.rows)) (tip_of (last? s.rows))).1
            (refl, refl, i.chain)),
  )

  -- A store verifies, as complete or with a gap from retention, exactly when it has both tips, both
  -- are the sequence number and the hash of the last row, or 0 and the genesis hash without rows,
  -- each row carries the hash of the row before, and the hash of each row is the digest of the
  -- domain, of the hash before it, and of the eight texts of its event with their lengths.
  pub verify_stored_rows_iff :
      (s : AuditStore)
      → (is_tampered (verify_stored_rows p decimal s) ≡ false) ↔ IsAuthentic p decimal s
  verify_stored_rows_iff s =
      let linked = is_chain_iff p decimal (start s.rows) s.rows in
      (
        λ h.
            let i = (verify_stored_rows-IsIntact s).0 h in
            record { tip = i.tip; mark = i.mark; linked = linked.0 i.chain },
        λ a.
            (verify_stored_rows-IsIntact s).1
              (record { tip = a.tip; mark = a.mark; chain = linked.1 a.linked }),
      )
