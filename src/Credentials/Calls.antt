-- ===== src/Credentials/Calls.antt =====
-- Any sequence of operations on the credential table of credentials.py.
use goffy_os.Prelude.{ℕ, String, Bool, Option, List, [], ◌∷◌, arith}
use goffy_os.Protocol.{Uuid}
use goffy_os.Approval.{Bytes}
use goffy_os.Credentials.{Platform, Table, issue, revoke, rotate}
use goffy_os.Credentials.Invariant.{IsValid, issue-IsValid, revoke-IsValid, rotate-IsValid}

pub data TableCall : Type 0 where
  issues : Bool → Uuid → ℕ → String → String → String → Option Bytes → TableCall
  revokes : Bool → ℕ → Uuid → TableCall
  rotates : Bool → ℕ → String → Uuid → String → TableCall

module _ (p : Platform) where
  unfoldable pub table_step : Table → TableCall → Table
  table_step t (issues reachable id now token device_id display_name key) =
      (issue p reachable id now token device_id display_name key t).0
  table_step t (revokes reachable now id) = (revoke p reachable now id t).0
  table_step t (rotates reachable now new_token id token) =
      (rotate p reachable now new_token id token t).0

  unfoldable pub table_run : Table → List TableCall → Table
  table_run t [] = t
  table_run t (call ∷ calls) = table_run (table_step t call) calls

  table_step-IsValid : (t : Table) (call : TableCall) → IsValid t → IsValid (table_step t call)
  unfolding table_step
  table_step-IsValid t (issues reachable id now token device_id display_name key) v =
      issue-IsValid p reachable id now token device_id display_name key t v
  table_step-IsValid t (revokes reachable now id) v = revoke-IsValid p reachable now id t v
  table_step-IsValid t (rotates reachable now new_token id token) v =
      rotate-IsValid p reachable now new_token id token t v

  table_run_from-IsValid :
      (t : Table) (calls : List TableCall) → IsValid t → IsValid (table_run t calls)
  unfolding table_run
  table_run_from-IsValid t [] v = v
  table_run_from-IsValid t (call ∷ calls) v =
      table_run_from-IsValid (table_step t call) calls (table_step-IsValid t call v)

  -- After any operations on an empty table, failing ones included, at most 32 credentials are
  -- active and at most 64 are retained, and no ID and no token digest stands twice.
  pub table_run-IsValid : (calls : List TableCall) → IsValid (table_run [] calls)
  table_run-IsValid calls = table_run_from-IsValid [] calls (record {
    ids = λ id. omega arith;
    digests = λ d. omega arith;
    active = omega arith;
    retained = omega arith;
  })
