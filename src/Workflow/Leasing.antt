-- ===== src/Workflow/Leasing.antt =====
-- src/excel_auditor/workflow/execution.py: what the operations of `ExecutionService` test of a row and
-- write to it.
use excelflow.Prelude.{
  take_chars, ℕ, ◌+◌, ◌^◌, min, Bool, true, false, ◌&&◌, ◌||◌, not, Option, none, some, String, ltb,
  leb, str_eq, holds, ◌==◌, if◌then◌else◌,
}
use excelflow.Workflow.{
  Execution, Object, ObjectStatus, ExecutionStatus, pending, queued, running, succeeded, Payload,
  Operation, learn, processing, learning, is_waiting, is_running, is_busy, later, same_text,
  same_status, is_queued,
}

pub record Service : Type 0 where
  pub lease_seconds : ℕ
  pub max_attempts : ℕ

-- `ExecutionService(...)`: limits that are not positive are refused.
unfoldable pub service : ℕ → ℕ → Option Service
service lease_seconds max_attempts =
    if leb lease_seconds 0 || leb max_attempts 0
    then none
    else some (record { lease_seconds = lease_seconds; max_attempts = max_attempts })

-- An exception as `finish` reads it.
pub record Failure : Type 0 where
  pub text : String
  pub is_workflow_error : Bool
  pub code : Option String

abbrev pub busy_status : ObjectStatus → ObjectStatus → Bool
busy_status processing processing = true
busy_status learning learning = true
busy_status _ _ = false

-- the status that the object of an operation has while the operation may run
abbrev pub expected_status : Operation → ObjectStatus
expected_status learn = learning
expected_status _ = processing

-- `obj["revision"] == row["revision"]` and `obj["status"] == expected_status`
abbrev pub is_current : Execution → Object → Bool
is_current row o =
    o.revision == row.revision && busy_status (expected_status row.operation) o.status

-- the object that a failed execution fails with it
abbrev pub is_failing : Execution → Object → Bool
is_failing row o =
    str_eq o.tenant_id row.tenant_id && (o.revision == row.revision && is_busy o.status)

abbrev pub failure_message : Option Failure → String
failure_message none = ""
failure_message (some error) = if error.is_workflow_error then error.text else "处理失败，请检查文件后重试。"

abbrev pub failure_code : Option Failure → Option String
failure_code none = none
failure_code (some error) = error.code

module _ (service : Service) (now : ℕ) where
  abbrev pub claimable : Execution → Bool
  claimable e =
      is_waiting e.status && (leb e.available_at now && ltb e.attempts service.max_attempts)

  abbrev pub claimed : String → String → Execution → Execution
  claimed token worker e = record e {
    status = running;
    token = some token;
    worker = some worker;
    attempts = e.attempts + 1;
    lease_until = some (now + service.lease_seconds);
    updated_at = now;
    started_at = some now;
  }

  abbrev pub postponed : Execution → Execution
  postponed e = record e { status = pending; lease_until = none; available_at = now + 5 }

  -- the claim of this token, under a lease that has not ended
  abbrev pub leased_to : Option String → Execution → Bool
  leased_to token e = same_text e.token token && (is_running e.status && later now e.lease_until)

  abbrev pub renewed : Execution → Execution
  renewed e = record e { lease_until = some (now + service.lease_seconds); updated_at = now }

  -- `error and retryable and row["attempts"] < self.max_attempts`
  abbrev pub retries : Execution → Bool → Bool
  retries row retryable = retryable && ltb row.attempts service.max_attempts

  abbrev pub final_status : Execution → Option Failure → Bool → ExecutionStatus
  final_status row none retryable = succeeded
  final_status row (some error) retryable =
      if retries row retryable then pending else ExecutionStatus.failed

  abbrev pub next_time : Execution → Option Failure → Bool → ℕ
  next_time row none retryable = now
  next_time row (some error) retryable = if retryable then now + min 30 (2 ^ row.attempts) else now

  abbrev pub error_text : Option Failure → Option String
  error_text none = none
  error_text (some error) =
      if error.is_workflow_error then some (take_chars 2000 error.text) else some "临时处理异常"

  abbrev pub finished : Execution → Option Failure → Bool → Execution → Execution
  finished row error retryable e = record e {
    status = final_status row error retryable;
    lease_until = none;
    available_at = next_time row error retryable;
    error = error_text error;
    updated_at = now;
    finished_at = some now;
  }

  abbrev pub lost : Execution → Bool
  lost e = is_running e.status && holds (λ u. leb u now) e.lease_until

  abbrev pub recovered : Bool → Execution → Execution
  recovered terminal e = record e {
    status = if terminal then ExecutionStatus.failed else pending;
    token = none;
    worker = none;
    lease_until = none;
    available_at = now;
    updated_at = now;
    error = some (if terminal then "Worker 失联，重试次数已用尽。" else "Worker 失联，等待重试。");
  }

  abbrev pub failed_object : Payload → Option String → String → Object → Object
  failed_object payload error_code message o = record o {
    status = ObjectStatus.failed;
    payload = record payload { error = some message; error_code = error_code };
    updated_at = now;
  }

  -- `or_(lease_until.is_(None), lease_until <= now)`
  abbrev pub unleased : Execution → Bool
  unleased e = elim e.lease_until [ none ↦ true | some u ↦ leb u now ]

  abbrev pub dispatchable : Execution → Bool
  dispatchable e = is_waiting e.status && (leb e.available_at now && unleased e)

  -- a row as it was read, which no one has leased since
  abbrev pub offerable : Execution → Execution → Bool
  offerable read e = same_status e.status read.status && (e.attempts == read.attempts && unleased e)

  abbrev pub offered : Execution → Execution
  offered e = record e { status = queued; lease_until = some (now + 30); updated_at = now }

  abbrev pub still_queued : Execution → Execution → Bool
  still_queued read e = is_queued e.status && e.attempts == read.attempts

  abbrev pub prolonged : Execution → Execution
  prolonged e = record e { lease_until = some (now + 30) }

  -- whether a finished execution takes its object down with it
  abbrev pub gives_up : Execution → Option Failure → Bool → Bool
  gives_up row none retryable = false
  gives_up row (some error) retryable = not retryable || leb service.max_attempts row.attempts
