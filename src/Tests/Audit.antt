-- ===== src/Tests/Audit.antt =====
-- An audit log of at most two rows.
use goffy_os.Prelude.{ℕ, String, ◌≡◌, refl, false, none, some, [], ◌∷◌, nat_eq, bytes_eq}
use goffy_os.Approval.{Bytes}
use goffy_os.Audit.{AuditEvent, AuditStore, verified, is_tampered, genesis_hash, verify_stored_rows}
use goffy_os.Audit.Chain.{digest_of}
use goffy_os.Audit.Verification.{verify_stored_rows_iff}
use goffy_os.Tests.Credentials.{platform}

abbrev pub decimal : ℕ → String
decimal _ = "0"

abbrev connect : AuditEvent
connect = record {
  sequence = 1;
  recorded_at = 5;
  source = "websocket";
  action = "connect";
  outcome = "succeeded";
  principal_kind = "paired";
  credential_id = some 7;
  detail_code = none;
}

abbrev pub empty : AuditStore
empty = record {
  rows = [];
  chain_tip = some (record { sequence = 0; event_hash = genesis_hash });
  high_water_mark = some (record { sequence = 0; event_hash = genesis_hash });
}

verify_run : verify_stored_rows platform decimal empty ≡ verified
unfolding verify_stored_rows
verify_run = refl

-- The store after one event
abbrev digest : Bytes
digest = digest_of platform decimal connect genesis_hash

abbrev one_row : AuditStore
one_row = record {
  rows = record { event = connect; previous_hash = genesis_hash; event_hash = digest } ∷ [];
  chain_tip = some (record { sequence = 1; event_hash = digest });
  high_water_mark = some (record { sequence = 1; event_hash = digest });
}

verify_stored_rows_iff_example : is_tampered (verify_stored_rows platform decimal one_row) ≡ false
verify_stored_rows_iff_example =
    (verify_stored_rows_iff platform decimal one_row).1
      (record { tip = refl; mark = refl; linked = (refl, refl, tt) })
