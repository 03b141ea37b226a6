-- ===== src/Workflow/Dispatching/Rounds.antt =====
-- src/excel_auditor/workflow/execution.py: what one round of the loop of `dispatch` makes of a row, of its
-- queue and of the list that it returns.
use excelflow.Prelude.{
  ℕ, ◌+◌, ◌≤◌, ◌<◌, ◌≡◌, true, false, Option, none, some, String, str_eq, if◌then◌else◌,
}
use excelflow.Workflow.{Execution, Schema, Database, queued, is_queued}
use excelflow.Workflow.Leasing.{Service}
use excelflow.Workflow.Executions.Effects.{row, IsKeyed}
use excelflow.Workflow.Dispatching.{Queue}

-- the row has no lease, or one that has ended
pub data IsFree (now : ℕ) (e : Execution) : Type 0 where
  no_lease : e.lease_until ≡ none → IsFree now e
  lease_over : {until : ℕ} → e.lease_until ≡ some until → until ≤ now → IsFree now e

module _ (service : Service) (now : ℕ) (q : Queue) (e : Execution) where
  -- the execution, queued under a dispatch lease of 30 seconds
  abbrev pub handed : Execution
  handed = record e { status = queued; lease_until = some (now + 30); updated_at = now }

  -- What a round makes of an execution that is as it was read: the id where it is for the caller to run,
  -- the queue, and the row. An execution that is not due, or queued under a lease that lasts, stays; so
  -- does one of which the queue gives no answer; one that the queue works at only has its dispatch lease
  -- prolonged, where it is queued; any other is handed over, to the caller where there is no queue and
  -- with its next attempt to the queue else, but only if no lease of it lasts.
  pub data IsRound : Option q.State → Option String × Option q.State × Execution → Type 0 where
    not_due : {queue : Option q.State} → now < e.available_at → IsRound queue (none, queue, e)
    waiting_in_queue :
        {queue : Option q.State} {until : ℕ}
        → is_queued e.status ≡ true
        → e.lease_until ≡ some until
        → now < until
        → IsRound queue (none, queue, e)
    unanswered :
        {state : q.State}
        → e.available_at ≤ now
        → q.workflow_job_active e.id (e.attempts + 1) state ≡ none
        → IsRound (some state) (none, some state, e)
    at_work :
        {state : q.State}
        → e.available_at ≤ now
        → q.workflow_job_active e.id (e.attempts + 1) state ≡ some true
        → IsRound (some state) (
          none,
          some state,
          if is_queued e.status then record e { lease_until = some (now + 30) } else e,
        )
    leased :
        {queue : Option q.State} {until : ℕ}
        → e.lease_until ≡ some until
        → now < until
        → IsRound queue (none, queue, e)
    given : e.available_at ≤ now → IsFree now e → IsRound none (some e.id, none, handed)
    enqueued :
        {state : q.State}
        → e.available_at ≤ now
        → IsFree now e
        → q.workflow_job_active e.id (e.attempts + 1) state ≡ some false
        → IsRound (some state) (none, some (q.enqueue_workflow e (e.attempts + 1) state).1, handed)

  module _ (s : Schema) (db : Database s) (key : IsKeyed s db) (there : row s e.id db ≡ some e)
      (j : String) where
    -- a round with the contents that it leaves
    abbrev pub Leaves : Option q.State → Option String × Database s × Option q.State → Type 0
    Leaves queue (mine, db', queue') =
        (e' : Execution) × IsRound queue (mine, queue', e')
        × (row s j db' ≡ (if str_eq j e.id then some e' else row s j db))
