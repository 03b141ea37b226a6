-- ===== src/Workflow/Executions/Outcomes.antt =====
-- src/excel_auditor/workflow/execution.py: what the operations make of a row, told by what holds of the
-- row before. Here `recover`.
pub mod Ending
pub mod Claiming
use excelflow.Prelude.{
  ℕ, ◌+◌, ◌^◌, ◌≤◌, ◌<◌, ◌≡◌, ◌≢◌, refl, sym, ap, ◌∙◌, ◌⊎◌, inl, inr, min, Bool, true, false, ◌&&◌,
  not, Option, none, some, String, arith, str_eq, eq_iff, eq_refl, ◌==◌, leb, ltb, holds, length,
  filter_by, take_chars, if_keeps, Bool-cases, if◌then◌else◌,
}
use mathlib.Core.Path.{subst}
use excelflow.Sql.Rows.{revise}
use excelflow.Workflow.{
  Execution, Object, Schema, Database, pending, running, succeeded, superseded, is_waiting,
  is_running, same_text, ExecutionStatus, is_busy, ObjectStatus,
}
use excelflow.Workflow.Capacity.{Limits}
use excelflow.Workflow.Leasing.{
  Service, Failure, recovered, lost, gives_up, failure_code, failure_message, busy_status,
  expected_status, leased_to, finished, is_current, claimed, claimable,
}
use excelflow.Workflow.Executions.{claim, finish, recover}
use excelflow.Workflow.Executions.Effects.{row, object, IsKeyed, fail_if_busy}
use excelflow.Workflow.Executions.Claims.{fits, outcome, blocked, claim-outcome, retire}
use excelflow.Workflow.Executions.Finishing.{row-finish, object-finish}
use excelflow.Workflow.Executions.Recovery.{restore, recover_lem}

-- The lease of a row, at a time.
pub data LeaseAt (now : ℕ) (lease : Option ℕ) : Type 0 where
  unleased : lease ≡ none → LeaseAt now lease
  ended : {until : ℕ} → lease ≡ some until → until ≤ now → LeaseAt now lease
  lasting : {until : ℕ} → lease ≡ some until → now < until → LeaseAt now lease

pub lease_at : (now : ℕ) (lease : Option ℕ) → LeaseAt now lease
lease_at now none = unleased refl
lease_at now (some until) = elim (Bool-cases (leb until now)) [
  | inl past ↦ ended refl (ground arith)
  | inr future ↦ lasting refl (ground arith)
]

module _ (service : Service) (now : ℕ) where
  -- What a recovery scan makes of a row: only a running execution whose lease has ended changes. It
  -- waits again, or fails where its attempts are used up, and has no worker, token or lease.
  pub data IsRecovered : Option Execution → Option Execution → Type 0 where
    absent : IsRecovered none none
    kept_idle : {e : Execution} → is_running e.status ≡ false → IsRecovered (some e) (some e)
    kept_unleased : {e : Execution} → e.lease_until ≡ none → IsRecovered (some e) (some e)
    kept_leased :
        {e : Execution} {until : ℕ}
        → e.lease_until ≡ some until
        → now < until
        → IsRecovered (some e) (some e)
    tried_again :
        {e : Execution} {until : ℕ}
        → is_running e.status ≡ true
        → e.lease_until ≡ some until
        → until ≤ now
        → e.attempts < service.max_attempts
        → IsRecovered (some e) (
            some (record e {
              status = pending;
              token = none;
              worker = none;
              lease_until = none;
              available_at = now;
              updated_at = now;
              error = some "Worker 失联，等待重试。";
            }))
    failed :
        {e : Execution} {until : ℕ}
        → is_running e.status ≡ true
        → e.lease_until ≡ some until
        → until ≤ now
        → service.max_attempts ≤ e.attempts
        → IsRecovered (some e) (
            some (record e {
              status = ExecutionStatus.failed;
              token = none;
              worker = none;
              lease_until = none;
              available_at = now;
              updated_at = now;
              error = some "Worker 失联，重试次数已用尽。";
            }))

  -- a running execution whose lease has ended
  abbrev pub has_lost_lease : Execution → Bool
  has_lost_lease e = is_running e.status && holds (λ until. leb until now) e.lease_until

  restored-IsRecovered :
      (e : Execution) {until : ℕ}
      → is_running e.status ≡ true
      → e.lease_until ≡ some until
      → until ≤ now
      → IsRecovered (some e) (some (restore service now e))
  restored-IsRecovered e runs lease past = elim (Bool-cases (leb service.max_attempts e.attempts)) [
    | inl spent ↦
        subst (λ b. IsRecovered (some e) (some (recovered service now b e))) (sym spent)
          (failed runs lease past (ground arith))
    | inr left ↦
        subst (λ b. IsRecovered (some e) (some (recovered service now b e))) (sym left)
          (tried_again runs lease past (ground arith))
  ]

  revise-IsRecovered :
      (o : Option Execution) → IsRecovered o (revise (lost service now) (restore service now) o)
  revise-IsRecovered none = absent
  revise-IsRecovered (some e) =
      if_keeps (λ r. IsRecovered (some e) (some r)) (lost service now e)
        (λ gone. elim (lease_at now e.lease_until) [
          | unleased free ↦ absurd (ground (arith, gone, free))
          | ended lease past ↦ restored-IsRecovered e (ground arith) lease past
          | lasting lease future ↦ absurd (ground (arith, gone, lease, future))
        ])
        (λ stays. elim (Bool-cases (is_running e.status)) [
          | inr idle ↦ kept_idle idle
          | inl runs ↦ elim (lease_at now e.lease_until) [
            | unleased free ↦ kept_unleased free
            | ended lease past ↦ absurd (ground (arith, stays, runs, lease, past))
            | lasting lease future ↦ kept_leased lease future
          ]
        ])

  -- With ids as primary keys: the recovery scan restores every running execution whose lease has ended,
  -- to wait again or, where its attempts are used up, as failed. Every other row stays as it is, and the
  -- result is the number of those restored.
  pub recover-IsRecovered :
      (s : Schema) (db : Database s) (j : String)
      → IsKeyed s db
      → IsRecovered (row s j db) (row s j (recover service now s db).1)
        × ((recover service now s db).0
            ≡ length (filter_by has_lost_lease (s.executions.rows db.executions)))
  recover-IsRecovered s db j key =
      let (rows, count, keyed) = recover_lem service now s db j key in
      (subst (IsRecovered (row s j db)) (sym rows) (revise-IsRecovered (row s j db)), count)
