-- ===== src/Workflow/Executions/Outcomes/Ending.antt =====
-- src/excel_auditor/workflow/execution.py: what `finish` makes of the rows and objects.
use excelflow.Prelude.{
  ℕ, ◌+◌, ◌^◌, ◌≤◌, ◌<◌, ◌≡◌, refl, sym, ap, ◌∙◌, ◌⊎◌, inl, inr, min, Bool, true, false, ◌&&◌, not,
  Option, none, some, String, arith, str_eq, eq_iff, eq_refl, ◌==◌, ltb, holds, take_chars,
  if_keeps, Bool-cases, if◌then◌else◌,
}
use mathlib.Core.Path.{subst}
use excelflow.Sql.Rows.{revise}
use excelflow.Workflow.{
  Execution, Object, Schema, Database, pending, succeeded, is_running, same_text, ExecutionStatus,
  is_busy, ObjectStatus,
}
use excelflow.Workflow.Leasing.{
  Service, Failure, gives_up, failure_code, failure_message, leased_to, finished,
}
use excelflow.Workflow.Executions.{finish}
use excelflow.Workflow.Executions.Effects.{row, object, IsKeyed, fail_if_busy}
use excelflow.Workflow.Executions.Finishing.{row-finish, object-finish}
use excelflow.Workflow.Executions.Outcomes.{unleased, ended, lasting, lease_at}

module _ (service : Service) (now : ℕ) where
  -- The lease of a token on a row: it runs under this token until a later time.
  pub record HasLease (token : Option String) (e : Execution) : Type 0 where
    pub same_token : same_text e.token token ≡ true
    pub runs : is_running e.status ≡ true
    pub until : ℕ
    pub lease : e.lease_until ≡ some until
    pub lasts : now < until

  -- no such lease
  pub data HasNoLease (token : Option String) (e : Execution) : Type 0 where
    other_token : same_text e.token token ≡ false → HasNoLease token e
    idle : is_running e.status ≡ false → HasNoLease token e
    free : e.lease_until ≡ none → HasNoLease token e
    over : {until : ℕ} → e.lease_until ≡ some until → until ≤ now → HasNoLease token e

  lease_of :
      (token : Option String) (e : Execution)
      → leased_to service now token e ≡ true
      → HasLease token e
  lease_of token e h = elim (lease_at now e.lease_until) [
    | unleased gone ↦ absurd (ground (arith, h, gone))
    | ended lease past ↦ absurd (ground (arith, h, lease, past))
    | lasting lease future ↦ record {
      same_token = ground arith;
      runs = ground arith;
      until = _;
      lease = lease;
      lasts = future;
    }
  ]

  no_lease_of :
      (token : Option String) (e : Execution)
      → leased_to service now token e ≡ false
      → HasNoLease token e
  no_lease_of token e h = elim (Bool-cases (same_text e.token token)) [
    | inr other ↦ other_token other
    | inl same ↦ elim (Bool-cases (is_running e.status)) [
      | inr stopped ↦ idle stopped
      | inl runs ↦ elim (lease_at now e.lease_until) [
        | unleased gone ↦ free gone
        | ended lease past ↦ over lease past
        | lasting lease future ↦ absurd (ground (arith, h, same, runs, lease, future))
      ]
    ]
  ]

  abbrev told : Failure → Option String
  told f = if f.is_workflow_error then some (take_chars 2000 f.text) else some "临时处理异常"

  -- What a report makes of the row of its execution: nothing without the lease; else the execution has
  -- succeeded, waits to be tried again after a while, or has failed, and has no lease in any case.
  pub data IsEnded (held : Execution) (error : Option Failure) (retryable : Bool)
      : Option Execution → Option Execution → Type 0 where
    missing : IsEnded held error retryable none none
    refused :
        {e : Execution} → HasNoLease held.token e → IsEnded held error retryable (some e) (some e)
    done :
        {e : Execution}
        → HasLease held.token e
        → error ≡ none
        → IsEnded held error retryable (some e) (
            some (record e {
              status = succeeded;
              lease_until = none;
              available_at = now;
              error = none;
              updated_at = now;
              finished_at = some now;
            }))
    tried_later :
        {e : Execution} {f : Failure}
        → HasLease held.token e
        → error ≡ some f
        → retryable ≡ true
        → held.attempts < service.max_attempts
        → IsEnded held error retryable (some e) (
            some (record e {
              status = pending;
              lease_until = none;
              available_at = now + min 30 (2 ^ held.attempts);
              error = told f;
              updated_at = now;
              finished_at = some now;
            }))
    given_up :
        {e : Execution} {f : Failure}
        → HasLease held.token e
        → error ≡ some f
        → (retryable ≡ false) ⊎ (service.max_attempts ≤ held.attempts)
        → IsEnded held error retryable (some e) (
            some (record e {
              status = ExecutionStatus.failed;
              lease_until = none;
              available_at = if retryable then now + min 30 (2 ^ held.attempts) else now;
              error = told f;
              updated_at = now;
              finished_at = some now;
            }))

  finished-IsEnded :
      (held : Execution) (error : Option Failure) (retryable : Bool) (e : Execution)
      → HasLease held.token e
      → IsEnded held error retryable (some e) (some (finished service now held error retryable e))
  finished-IsEnded held none retryable e lease = done lease refl
  finished-IsEnded held (some f) false e lease = given_up lease refl (inl refl)
  finished-IsEnded held (some f) true e lease =
      if_keeps
        (λ status. IsEnded held (some f) true (some e) (
          some (record e {
            status = status;
            lease_until = none;
            available_at = now + min 30 (2 ^ held.attempts);
            error = told f;
            updated_at = now;
            finished_at = some now;
          })))
        (ltb held.attempts service.max_attempts)
        (λ left. tried_later lease refl refl (ground arith))
        (λ spent. given_up lease refl (inr (ground arith)))

  revise-IsEnded :
      (held : Execution) (error : Option Failure) (retryable : Bool) (o : Option Execution)
      → IsEnded held error retryable o
          (revise (leased_to service now held.token) (finished service now held error retryable) o)
  revise-IsEnded held error retryable none = missing
  revise-IsEnded held error retryable (some e) =
      if_keeps (λ r. IsEnded held error retryable (some e) (some r))
        (leased_to service now held.token e)
        (λ live. finished-IsEnded held error retryable e (lease_of held.token e live))
        (λ stale. refused (no_lease_of held.token e stale))

  -- the message for the object of a failed execution
  abbrev shown : Option Failure → String
  shown none = ""
  shown (some f) = if f.is_workflow_error then f.text else "处理失败，请检查文件后重试。"

  abbrev code_of : Option Failure → Option String
  code_of none = none
  code_of (some f) = f.code

  -- an object that is busy at the revision of its execution fails, any other stays
  abbrev pub fallen : Execution → Option Failure → Option Object → Option Object
  fallen held error none = none
  fallen held error (some o) =
      if str_eq o.tenant_id held.tenant_id && (o.revision == held.revision && is_busy o.status)
      then some (record o {
        status = ObjectStatus.failed;
        payload = record o.payload { error = some (shown error); error_code = code_of error };
        updated_at = now;
      })
      else some o

  -- an error after which the execution is not tried again
  abbrev pub is_given_up : Execution → Option Failure → Bool → Bool
  is_given_up held error retryable =
      holds (λ f. not (retryable && ltb held.attempts service.max_attempts)) error

  gives_up_lem :
      (held : Execution) (error : Option Failure) (retryable : Bool)
      → gives_up service now held error retryable ≡ is_given_up held error retryable
  gives_up_lem held none retryable = refl
  gives_up_lem held (some f) retryable = ground arith

  fallen_lem :
      (s : Schema) (db : Database s) (key : IsKeyed s db) (held : Execution)
      (error : Option Failure) (o : Option Object)
      → fail_if_busy service now s db key held (failure_code error) (failure_message error) o
        ≡ fallen held error o
  fallen_lem s db key held none none = refl
  fallen_lem s db key held (some f) none = refl
  fallen_lem s db key held none (some o) = refl
  fallen_lem s db key held (some f) (some o) = refl

  -- the row runs under the token of the report, and its lease lasts
  abbrev pub is_leased : Execution → Option Execution → Bool
  is_leased held o =
      holds
        (λ e.
          same_text e.token held.token
          && (is_running e.status && holds (λ until. ltb now until) e.lease_until))
        o

  -- With ids as primary keys: what a report makes of the row of its execution is told by `IsEnded`: without
  -- a lease that lasts nothing changes; else the execution has succeeded where there is no error, waits to
  -- be tried again where the error is retryable and attempts are left, or has failed. Every other
  -- row stays. An object fails exactly if it is that of the execution, the report has the lease, its
  -- error ends the execution, and the object is busy at the revision of the execution.
  pub finish-IsEnded :
      (s : Schema) (db : Database s) (key : IsKeyed s db) (held : Execution)
      (error : Option Failure) (retryable : Bool) (i o : String)
      → let db' = finish service now s held error retryable db in
        IsEnded held error retryable (row s held.id db) (row s held.id db')
        × (row s i db' ≡ (if str_eq i held.id then row s held.id db' else row s i db))
        × (object s o db' ≡ (
            if is_leased held (row s held.id db)
              && (is_given_up held error retryable && str_eq o held.object_id)
            then fallen held error (object s o db)
            else object s o db))
  finish-IsEnded s db key held error retryable i o = (
    subst (IsEnded held error retryable (row s held.id db))
        (sym (
          row-finish service now s db key held error retryable held.id
          ∙ ground (arith, eq_refl held.id)))
        (revise-IsEnded held error retryable (row s held.id db)),
    if_keeps (λ r. row s i (finish service now s held error retryable db) ≡ r) (str_eq i held.id)
        (λ same.
          ap (λ j. row s j (finish service now s held error retryable db))
            ((eq_iff i held.id).0 same))
        (λ other. row-finish service now s db key held error retryable i ∙ rw other refl),
    object-finish service now s db key held error retryable o
        ∙ ground (
          arith,
          gives_up_lem held error retryable,
          fallen_lem s db key held error (object s o db),
        ),
  )
