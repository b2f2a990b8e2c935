-- ===== src/Tests/Window.antt =====
-- An audit log of two events in memory, and one on an empty database.
use goffy_os.Prelude.{◌≡◌, false, none, some, List, [], ◌∷◌, arith, take, ℕ, string_eq}
use mathlib.Core.List.{reverse}
use goffy_os.Prelude.Result.{ok}
use goffy_os.Audit.Window.{AuditEntry, memory_log, snapshot}
use goffy_os.Audit.Window.Newest.{record_all, history, snapshot-record_all}
use goffy_os.Tests.Credentials.{platform}
use goffy_os.Tests.Audit.{decimal}

abbrev connects : AuditEntry
connects = record {
  source = "websocket";
  action = "connect";
  outcome = "succeeded";
  principal_kind = "paired";
  credential_id = some 7;
  detail_code = none;
}

abbrev entries : List (ℕ × AuditEntry)
entries = (5, connects) ∷ (6, connects) ∷ (7, connects) ∷ []

snapshot-record_all_example :
    snapshot (some 1) (record_all platform (λ s. s) decimal entries (memory_log 2))
    ≡ ok (record {
      events = take 1 (take 2 (reverse (history platform (λ s. s) decimal 1 entries)));
      is_stored = false;
      integrity = none;
    })
snapshot-record_all_example =
    snapshot-record_all platform (λ s. s) decimal 2 1 entries (omega arith)
