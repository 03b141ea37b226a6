-- ===== src/Tests/Executions.antt =====
-- Runs of workflow/execution.py on tables with one waiting and one running execution.
use excelflow.Prelude.{
  ◌≡◌, ◌≤◌, refl, inl, true, false, List, [], ◌∷◌, Option, none, some, String, arith, filter_by,
  ◌+◌, str_eq, length, if◌then◌else◌, ◌&&◌,
}
use excelflow.Sql.{get, first}
use excelflow.Sql.Memory.{memory}
use excelflow.Workflow.{
  Execution, Object, ResourceLease, Schema, Database, parse_task, ExecutionStatus, pending, running,
  succeeded, task, processing,
}
use excelflow.Workflow.Capacity.{
  Limits, runs, can_run, active_count, is_active, leases_of, of_user, owner, active_actor,
}
use excelflow.Workflow.Leasing.{Service, Failure, claimed}
use excelflow.Workflow.Resources.{Slot, acquired, acquire, close}
use excelflow.Workflow.Resources.Slots.{swept, acquire-le_running, acquire-close}
use excelflow.Workflow.Dispatching.{Queue}
use excelflow.Workflow.Executions.{claim, heartbeat, finish, recover}
use excelflow.Workflow.Executions.Effects.{row, object, IsKeyed}
use excelflow.Workflow.Executions.Outcomes.{IsRecovered, has_lost_lease, recover-IsRecovered}
use excelflow.Workflow.Executions.Outcomes.Ending.{
  IsEnded, is_leased, is_given_up, fallen, finish-IsEnded,
}
use excelflow.Workflow.Executions.Outcomes.Claiming.{IsClaimed, claim-IsClaimed}
use excelflow.Workflow.Executions.Claims.{blocked, claim-outcome}
use excelflow.Workflow.Executions.Histories.{claims, recovers, Timed, run}
use excelflow.Workflow.Executions.Steps.{IsConsistent}
use excelflow.Workflow.Executions.Invariants.{run-IsConsistent, run-IsFinal, fenced}
use excelflow.Workflow.Executions.Bounds.{running_total, running_of, claim-le_limits}

abbrev service : Service
service = record { lease_seconds = 120; max_attempts = 3 }

abbrev limits : Limits
limits = record { max_running = 2; max_waiting = 50; user_running = 1; user_waiting = 3 }

abbrev schema : Schema
schema = record {
  executions = memory Execution;
  objects = memory Object;
  resource_leases = memory ResourceLease;
}

abbrev execution : String → ExecutionStatus → Option String → Execution
execution id status token = record {
  id = id;
  object_id = "o";
  tenant_id = "t";
  operation = parse_task;
  revision = 1;
  status = status;
  attempts = 1;
  worker = token;
  token = token;
  lease_until = some 100;
  available_at = 0;
  updated_at = 0;
  error = none;
  created_at = 0;
  started_at = none;
  finished_at = none;
}

abbrev waiting : Execution
waiting = execution "a" pending none

abbrev held : Execution
held = execution "b" running (some "k")

abbrev done : Execution
done = execution "c" succeeded (some "k")

abbrev busy : Object
busy = record {
  id = "o";
  tenant_id = "t";
  kind = task;
  status = processing;
  revision = 1;
  payload = record { actor = none; task_id = none; error = none; error_code = none; rest = "" };
  created_at = 0;
  updated_at = 0;
  creator_id = some "u";
  parent_task_id = none;
}

abbrev db : Database schema
db = record { executions = waiting ∷ held ∷ done ∷ []; objects = busy ∷ []; resource_leases = [] }

db-IsKeyed : IsKeyed schema db
db-IsKeyed = record {
  executions = ((refl, (refl, tt)), ((refl, tt), (tt, tt)));
  objects = (tt, tt);
}

abbrev failure : Failure
failure = record { text = "bad"; is_workflow_error = true; code = some "BAD" }

claim-IsClaimed_example :
    let (result, db') = claim service 101 schema limits "a" "l" "w" db in
    (e' : Execution) × IsClaimed service 101 "l" "w"
      (object schema "o" db)
      (blocked service 101 schema limits "l" "w" db db-IsKeyed waiting)
      waiting
      (result, e')
    × (row schema "a" db' ≡ (if str_eq "a" "a" then some e' else row schema "a" db))
    × (db'.objects ≡ db.objects)
claim-IsClaimed_example =
    claim-IsClaimed service 101 "l" "w" schema limits db db-IsKeyed "a" "a" refl

-- the running execution's lease has ended, so that the waiting one may run
free : blocked service 101 schema limits "l" "w" db db-IsKeyed waiting ≡ false
unfolding can_run active_count is_active leases_of of_user owner active_actor get first
free = refl

granted :
    (claim service 101 schema limits "a" "l" "w" db).0 ≡ some (claimed service 101 "l" "w" waiting)
granted =
    rw ((claim-outcome service 101 schema limits "l" "w" db db-IsKeyed "a" "a" refl).0, free) refl

claim-le_limits_example :
    let db' = (claim service 101 schema limits "a" "l" "w" db).1 in
    (o : Object) × (object schema "o" db' ≡ some o)
    × (running_total service 101 schema limits "a" "l" "w" db db-IsKeyed db' ≤ 2)
    × (running_of service 101 schema limits "a" "l" "w" db db-IsKeyed o db' ≤ 1)
claim-le_limits_example =
    claim-le_limits service 101 schema limits "a" "l" "w" db db-IsKeyed granted

finish-IsEnded_example :
    let db' = finish service 50 schema held (some failure) false db in
    IsEnded service 50 held (some failure) false (row schema "b" db) (row schema "b" db')
    × (row schema "a" db' ≡ (if str_eq "a" "b" then row schema "b" db' else row schema "a" db))
    × (object schema "o" db' ≡ (
        if is_leased service 50 held (row schema "b" db)
          && (is_given_up service 50 held (some failure) false && str_eq "o" "o")
        then fallen service 50 held (some failure) (object schema "o" db)
        else object schema "o" db))
finish-IsEnded_example =
    finish-IsEnded service 50 schema db db-IsKeyed held (some failure) false "a" "o"

recover-IsRecovered_example :
    IsRecovered service 100 (row schema "b" db) (row schema "b" (recover service 100 schema db).1)
    × ((recover service 100 schema db).0
        ≡ length (filter_by (has_lost_lease service 100) db.executions))
recover-IsRecovered_example = recover-IsRecovered service 100 schema db "b" db-IsKeyed

abbrev history : List Timed
history =
    record { now = 100; event = recovers } ∷ record { now = 101; event = claims "b" "l" "v" } ∷ []

run-IsConsistent_example :
    (e : Execution) × (row schema "b" (run service limits schema history db) ≡ some e)
    × IsConsistent service e
run-IsConsistent_example =
    run-IsConsistent service limits schema db db-IsKeyed "b" refl history
      (record { leased = λ h. refl; tokened = λ h. refl; capped = omega arith })

run-IsFinal_example : row schema "c" (run service limits schema history db) ≡ some done
run-IsFinal_example = run-IsFinal service limits schema db db-IsKeyed "c" refl history (inl refl)

-- a worker that claimed the running execution under an earlier token
abbrev stale : Execution
stale = execution "b" running (some "j")

abbrev queue : Queue
queue = record {
  State = List String;
  workflow_job_active = λ id attempt jobs. some false;
  enqueue_workflow = λ e attempt jobs. (true, e.id ∷ jobs);
}

abbrev slot : Slot
slot = record { resource = "interactive"; maximum = 1; seconds = 180; token = "r" }

abbrev with_slot : Database schema
with_slot = record db {
  resource_leases = record { token = "r"; resource = "interactive"; expires_at = 281 } ∷ [];
}

slot_granted : acquire schema limits 101 slot db ≡ acquired with_slot
unfolding acquire active_count is_active leases_of get first
slot_granted = refl

acquire-le_running_example :
    leases_of schema with_slot "interactive" (λ l. true)
      + active_count schema with_slot (runs 101) (λ o. true)
    ≤ 2
acquire-le_running_example = acquire-le_running schema limits 101 slot db slot_granted refl

acquire-close_example :
    leases_of schema (close schema slot with_slot) "interactive" (λ l. true)
    ≡ leases_of schema (swept schema 101 db) "interactive" (λ l. true)
acquire-close_example =
    acquire-close schema limits 101 slot db slot_granted "interactive" (λ l. true) refl

fenced_example :
    let later = run service limits schema history db in
    let ended = finish service 130 schema stale (some failure) false later in
    ((heartbeat service 130 schema stale later).0 ≡ false)
    × (row schema "b" ended ≡ row schema "b" later)
    × (object schema "o" ended ≡ object schema "o" later)
fenced_example =
    fenced service limits schema db db-IsKeyed "b" refl "j" history 130 stale (some failure) false
      "b" "o" refl (tt, (refl, tt)) refl refl
