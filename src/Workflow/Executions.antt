-- ===== src/Workflow/Executions.antt =====
-- src/excel_auditor/workflow/execution.py: `ExecutionService`, the leases of durable executions. A
-- call takes one reading of the clock, `now`, and the token that `uuid4` gives. `none` is the result
-- None of `claim`.
pub mod Effects
pub mod Claims
pub mod Outcomes
pub mod Finishing
pub mod Recovery
pub mod Histories
pub mod Steps
pub mod Invariants
pub mod Bounds
use excelflow.Prelude.{
  ℕ, suc, ◌+◌, ◌^◌, min, Bool, true, false, ◌&&◌, ◌||◌, not, List, [], ◌∷◌, Option, none, some,
  String, ltb, leb, str_eq, holds, ◌==◌, if◌then◌else◌,
}
use excelflow.Sql.{get, first, cas}
use excelflow.Workflow.{
  Execution, Object, ObjectStatus, ExecutionStatus, pending, running, succeeded, superseded,
  Payload, Operation, learn, processing, learning, Schema, Database, is_waiting, is_running,
  is_busy, later, same_text,
}
use excelflow.Workflow.Capacity.{Limits, can_run}
use excelflow.Workflow.Leasing.{
  Service, Failure, busy_status, expected_status, is_current, is_failing, failure_message,
  failure_code, claimable, claimed, postponed, leased_to, renewed, retries, final_status, next_time,
  error_text, finished, lost, recovered, failed_object, gives_up, offerable, offered, still_queued,
  prolonged,
}

module _ (s : Schema) where
  -- an UPDATE of one execution
  abbrev pub set :
      String → (Execution → Bool) → (Execution → Execution) → Database s → Database s × ℕ
  set key test f db =
      let (rows, changed) = cas Execution.id s.executions key test f db.executions in
      (record db { executions = rows }, changed)

module _ (service : Service) (now : ℕ) where
  module _ (s : Schema) where
    -- the second half of `claim`, after the guarded UPDATE
    settle : String → Database s → Option Execution × Database s
    settle id db = elim (get Execution.id s.executions id db.executions) [
      | none ↦ (none, db)
      | some row ↦
          if holds (is_current row) (
            first Object.id s.objects row.object_id (λ o. str_eq o.tenant_id row.tenant_id)
              db.objects)
          then (some row, db)
          else (
            none,
            (set s id (λ e. true) (λ e. record e { status = superseded; lease_until = none }) db).0,
          )
    ]

    take : String → String → String → Database s → Option Execution × Database s
    take id token worker db =
        let (db', changed) =
          set s id (claimable service now) (claimed service now token worker) db in
        if changed == 1 then settle id db' else (none, db')

    pub claim : Limits → String → String → String → Database s → Option Execution × Database s
    claim limits id token worker db =
        elim (first Execution.id s.executions id (λ e. is_waiting e.status) db.executions) [
          | none ↦ (none, db)
          | some candidate ↦
              if holds (λ o. not (can_run s db limits now o))
                (get Object.id s.objects candidate.object_id db.objects)
              then (none, (set s id (λ e. true) (postponed service now) db).0)
              else take id token worker db
        ]

    pub heartbeat : Execution → Database s → Bool × Database s
    heartbeat row db =
        let (db', changed) =
          set s row.id (leased_to service now row.token) (renewed service now) db in
        (changed == 1, db')

    pub fail_object : Execution → Option String → String → Database s → Database s
    fail_object row error_code message db =
        elim (first Object.id s.objects row.object_id (is_failing row) db.objects) [
          | none ↦ db
          | some obj ↦ record db {
            objects =
                (cas Object.id s.objects obj.id (λ o. o.revision == row.revision)
                  (failed_object service now obj.payload error_code message) db.objects).0;
          }
        ]

    pub finish : Execution → Option Failure → Bool → Database s → Database s
    finish row error retryable db =
        let (db', changed) =
          set s row.id (leased_to service now row.token) (finished service now row error retryable)
            db in
        if changed == 1 && gives_up service now row error retryable
        then fail_object row (failure_code error) (failure_message error) db'
        else db'

    -- The transactions of `dispatch`; `row` is the row as it was read.
    pub prolong : Execution → Database s → Database s
    prolong row db = (set s row.id (still_queued service now row) (prolonged service now) db).0

    pub offer : Execution → Database s → Bool × Database s
    offer row db =
        let (db', changed) = set s row.id (offerable service now row) (offered service now) db in
        (changed == 1, db')

    -- One round of the loop of `recover`; `row` is the row as it was read.
    pub recover_row : Execution → Database s → Bool × Database s
    recover_row row db =
        let terminal = leb service.max_attempts row.attempts in
        let (db', changed) =
          set s row.id (λ e. same_text e.token row.token && lost service now e)
            (recovered service now terminal) db in
        (
          ltb 0 changed,
          if ltb 0 changed && terminal
              then fail_object row none "Worker 失联，重试次数已用尽，请手动重试。" db'
              else db',
        )

    pub recover_rows : List Execution → ℕ → Database s → ℕ × Database s
    recover_rows [] recovered db = (recovered, db)
    recover_rows (row ∷ rows) recovered db =
        let (changed, db') = recover_row row db in
        recover_rows rows (if changed then recovered + 1 else recovered) db'

    pub recover : Database s → ℕ × Database s
    recover db = recover_rows (s.executions.select (lost service now) db.executions) 0 db
