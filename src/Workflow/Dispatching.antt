-- ===== src/Workflow/Dispatching.antt =====
-- src/excel_auditor/workflow/execution.py: `dispatch`, which hands waiting executions to the queue or
-- to its caller. Each `begin()` block is a transaction of its own: `recover`, `prolong` and `offer`.
pub mod Offers
pub mod Rounds
use excelflow.Prelude.{
  ℕ, ◌+◌, Bool, true, false, ◌&&◌, ◌||◌, List, [], ◌∷◌, Option, none, some, String, ltb, leb,
  str_eq, take, if◌then◌else◌,
}
use excelflow.Sorting.{sorted}
use excelflow.Workflow.{Execution, Schema, Database, is_queued, later}
use excelflow.Workflow.Leasing.{Service, dispatchable}
use excelflow.Workflow.Executions.{recover, prolong, offer}

-- The queue that a caller passes in. A job is known by its execution and attempt, which its id is
-- the text of. An exception is `none`, or `false`; either way `dispatch` logs it and goes on.
pub record Queue : Type 1 where
  pub State : Type 0
  pub workflow_job_active : String → ℕ → State → Option Bool
  pub enqueue_workflow : Execution → ℕ → State → Bool × State

-- `if object_id: query.where(...)`
abbrev pub is_object : Option String → Execution → Bool
is_object none e = true
is_object (some id) e = str_eq id "" || str_eq e.object_id id

abbrev pub by_time : Execution → Execution → Bool
by_time a b = leb a.available_at b.available_at

abbrev pub skipped : ℕ → Execution → Bool
skipped now row = ltb now row.available_at || (is_queued row.status && later now row.lease_until)

module _ (service : Service) (now : ℕ) (s : Schema) (q : Queue) where
  abbrev pub Outcome : Type 0 → Type 0
  Outcome A = A × Database s × Option q.State

  -- what follows the transaction that marks the row as queued
  hand_over : Execution → Option q.State → Database s → Outcome (Option String)
  hand_over row queue db =
      let (changed, db') = offer service now s row db in
      if changed
      then elim queue [
        | none ↦ (some row.id, db', none)
        | some state ↦ (none, db', some (q.enqueue_workflow row (row.attempts + 1) state).1)
      ]
      else (none, db', queue)

  -- One round of the loop: the id, where it is for the caller to run.
  pub dispatch_row : Execution → Option q.State → Database s → Outcome (Option String)
  dispatch_row row queue db = if skipped now row then (none, db, queue) else elim queue [
    | none ↦ hand_over row none db
    | some state ↦ elim (q.workflow_job_active row.id (row.attempts + 1) state) [
      | none ↦ (none, db, some state)
      | some true ↦ (none, prolong service now s row db, some state)
      | some false ↦ hand_over row (some state) db
    ]
  ]

  abbrev pub listed : Option String → List String → List String
  listed none ids = ids
  listed (some id) ids = id ∷ ids

  pub dispatch_rows : List Execution → Option q.State → Database s → Outcome (List String)
  dispatch_rows [] queue db = ([], db, queue)
  dispatch_rows (row ∷ rows) queue db =
      let (mine, db', queue') = dispatch_row row queue db in
      let (ids, db'', queue'') = dispatch_rows rows queue' db' in (listed mine ids, db'', queue'')

  -- the rows that the query returns
  abbrev pub candidates : Option String → Database s → List Execution
  candidates object_id db = take 100 (
      sorted by_time (
        s.executions.select (λ e. dispatchable service now e && is_object object_id e)
          db.executions))

  pub dispatch : Option String → Option q.State → Database s → Outcome (List String)
  dispatch object_id queue db =
      let db' = (recover service now s db).1 in dispatch_rows (candidates object_id db') queue db'
