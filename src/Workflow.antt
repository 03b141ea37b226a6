-- ===== src/Workflow.antt =====
-- src/excel_auditor/workflow/repository.py: the rows of the workflow tables, the database that the
-- services share, and what they raise. Times are numbers of seconds; the source compares the texts
-- of `isoformat` in one time zone, which have the order of the times.
pub mod Capacity
pub mod Resources
pub mod Leasing
pub mod Executions
pub mod Dispatching
pub mod Store
use excelflow.Prelude.{
  ℕ, Bool, true, false, ◌||◌, Option, none, some, String, ltb, str_eq, holds, ◌==◌, if◌then◌else◌,
}
use excelflow.Sql.{SqlTable}

pub data Operation : Type 0 where
  parse_task parse_template export learn maintenance_operation : Operation

abbrev pub same_operation : Operation → Operation → Bool
same_operation parse_task parse_task = true
same_operation parse_template parse_template = true
same_operation export export = true
same_operation learn learn = true
same_operation maintenance_operation maintenance_operation = true
same_operation _ _ = false

pub data ExecutionStatus : Type 0 where
  pending queued running failed succeeded superseded : ExecutionStatus

pub record Execution : Type 0 where
  pub id : String
  pub object_id : String
  pub tenant_id : String
  pub operation : Operation
  pub revision : ℕ
  pub status : ExecutionStatus
  pub attempts : ℕ
  pub worker : Option String
  pub token : Option String
  pub lease_until : Option ℕ
  pub available_at : ℕ
  pub updated_at : ℕ
  pub error : Option String
  pub created_at : ℕ
  pub started_at : Option ℕ
  pub finished_at : Option ℕ

pub data Kind : Type 0 where
  task template exports operation : Kind
  other_kind : String → Kind

pub data ObjectStatus : Type 0 where
  draft processing learning ready failed : ObjectStatus
  other : String → ObjectStatus

-- The JSON payload: the members that these modules read or write, and the rest as a text.
pub record Payload : Type 0 where
  pub actor : Option String
  pub task_id : Option String
  pub error : Option String
  pub error_code : Option String
  pub rest : String

pub record Object : Type 0 where
  pub id : String
  pub tenant_id : String
  pub kind : Kind
  pub status : ObjectStatus
  pub revision : ℕ
  pub payload : Payload
  pub created_at : ℕ
  pub updated_at : ℕ
  pub creator_id : Option String
  pub parent_task_id : Option String

pub record ResourceLease : Type 0 where
  pub token : String
  pub resource : String
  pub expires_at : ℕ

pub record Schema : Type 1 where
  pub executions : SqlTable Execution
  pub objects : SqlTable Object
  pub resource_leases : SqlTable ResourceLease

pub record Database (s : Schema) : Type 0 where
  pub executions : s.executions.Db
  pub objects : s.objects.Db
  pub resource_leases : s.resource_leases.Db

-- `in_(["pending", "queued"])`
abbrev pub is_waiting : ExecutionStatus → Bool
is_waiting pending = true
is_waiting queued = true
is_waiting _ = false

abbrev pub is_running : ExecutionStatus → Bool
is_running running = true
is_running _ = false

abbrev pub same_status : ExecutionStatus → ExecutionStatus → Bool
same_status pending pending = true
same_status queued queued = true
same_status running running = true
same_status ExecutionStatus.failed ExecutionStatus.failed = true
same_status succeeded succeeded = true
same_status superseded superseded = true
same_status _ _ = false

abbrev pub is_queued : ExecutionStatus → Bool
is_queued queued = true
is_queued _ = false

-- `in_(["processing", "learning"])`
abbrev pub is_busy : ObjectStatus → Bool
is_busy processing = true
is_busy learning = true
is_busy _ = false

-- A comparison with NULL holds of no row.
abbrev pub later : ℕ → Option ℕ → Bool
later now time = holds (λ u. ltb now u) time

-- `column == value`, which is IS NULL where the value is None
abbrev pub same_text : Option String → Option String → Bool
same_text none none = true
same_text (some a) (some b) = str_eq a b
same_text _ _ = false

-- Python's `value or other`: an absent or empty text is false.
abbrev pub or_else : Option String → Option String → Option String
or_else none next = next
or_else (some v) next = if str_eq v "" then next else some v
