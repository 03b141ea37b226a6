-- ===== src/Workflow/Store.antt =====
-- src/excel_auditor/workflow/repository.py: `WorkflowStore`, the revisions of objects and the fence that
-- keeps a worker without its lease from writing. A call takes one reading of the clock. The summary
-- for the search, a text of the payload, is left out.
pub mod Rows
pub mod Fencing
pub mod Guarantees
use excelflow.Prelude.{
  ℕ, ◌+◌, Bool, true, false, ◌&&◌, ◌||◌, not, List, [], ◌∷◌, Option, none, some, String, str_eq,
  holds, ltb, is_some, length, ◌==◌, if◌then◌else◌,
}
use excelflow.Sql.{get, first, cas}
use excelflow.Workflow.{
  Execution, Object, Kind, task, template, exports, operation, other_kind, ObjectStatus, processing,
  learning, Payload, Operation, parse_task, parse_template, export, learn, maintenance_operation,
  pending, Schema, Database, is_running, later, same_text,
}
use excelflow.Workflow.Capacity.{
  Limits, Admission, admitted, capacity_full, user_capacity_full, admit,
}
use excelflow.Workflow.Executions.{set}

-- The codes of `WorkflowError`; `duplicate` is the IntegrityError of an INSERT.
pub data StoreError : Type 0 where
  not_found request_retired execution_expired revision_conflict capacity_exceeded
        user_capacity_exceeded duplicate :
      StoreError

-- What a call returns, or the exception that ends the transaction.
pub data Outcome (A : Type 0) : Type 0 where
  returned : A → Outcome A
  raised : StoreError → Outcome A

abbrev pub then_ : {A B : Type 0} → (A → Outcome B) → Outcome A → Outcome B
then_ next (raised error) = raised error
then_ next (returned a) = next a

abbrev pub same_kind : Kind → Kind → Bool
same_kind task task = true
same_kind template template = true
same_kind exports exports = true
same_kind operation operation = true
same_kind (other_kind a) (other_kind b) = str_eq a b
same_kind _ _ = false

abbrev pub is_empty_kind : Kind → Bool
is_empty_kind (other_kind text) = str_eq text ""
is_empty_kind _ = false

-- the first lines of `schedule`
abbrev pub operation_of : ObjectStatus → Kind → Option Operation
operation_of learning template = some learn
operation_of processing task = some parse_task
operation_of processing template = some parse_template
operation_of processing exports = some export
operation_of processing operation = some maintenance_operation
operation_of _ _ = none

-- The store of one process, which runs for an execution or for a user.
pub record Store : Type 0 where
  pub execution : Option (String × String)
  pub limits : Limits
  -- `identifier(kind)`
  pub identifier : Kind → String
  -- "exec_" and the `uuid5` of the object, its revision and the operation
  pub execution_id : String → ℕ → Operation → String

module _ (store : Store) (now : ℕ) where
  -- the row is running under this token and a lease that has not ended
  abbrev pub is_held : String → Execution → Bool
  is_held token e =
      same_text e.token (some token) && (is_running e.status && later now e.lease_until)

  abbrev pub own_id : Option String
  own_id = elim store.execution [ none ↦ none | some (id, token) ↦ some id ]

  -- `if kind:`: a kind that is None or empty selects every row
  abbrev pub of_kind : Option Kind → Object → Bool
  of_kind none o = true
  of_kind (some kind) o = is_empty_kind kind || same_kind o.kind kind

  abbrev pub saved : Object → Object → Object
  saved obj o = record o {
    payload = obj.payload;
    status = obj.status;
    updated_at = now;
    creator_id = obj.payload.actor;
    parent_task_id = obj.payload.task_id;
  }

  abbrev pub scheduled : Object → Operation → Execution
  scheduled obj op = record {
    id = store.execution_id obj.id obj.revision op;
    object_id = obj.id;
    tenant_id = obj.tenant_id;
    operation = op;
    revision = obj.revision;
    status = pending;
    attempts = 0;
    worker = none;
    token = none;
    lease_until = none;
    available_at = now;
    updated_at = now;
    error = none;
    created_at = now;
    started_at = none;
    finished_at = none;
  }

  abbrev pub created : String → Kind → Payload → ObjectStatus → String → Object
  created tenant kind payload status id = record {
    id = id;
    tenant_id = tenant;
    kind = kind;
    status = status;
    revision = 0;
    payload = payload;
    created_at = now;
    updated_at = now;
    creator_id = payload.actor;
    parent_task_id = payload.task_id;
  }

  -- `object_id or identifier(kind)`
  abbrev pub chosen_id : Option String → Kind → String
  chosen_id none kind = store.identifier kind
  chosen_id (some id) kind = if str_eq id "" then store.identifier kind else id

  abbrev pub is_given : Option String → Bool
  is_given id = holds (λ i. not (str_eq i "")) id

  module _ (s : Schema) where
    unfoldable pub get_object : String → String → Option Kind → Database s → Outcome Object
    get_object id tenant kind db =
        elim (first Object.id s.objects id (λ o. str_eq o.tenant_id tenant && of_kind kind o)
          db.objects) [ none ↦ raised not_found | some o ↦ returned o ]

    unfoldable pub fence : Database s → Outcome (Database s)
    fence db = elim store.execution [
      | none ↦ returned db
      | some (id, token) ↦
          let (db', changed) = set s id (is_held token) (λ e. record e { updated_at = now }) db in
          if changed == 1 then returned db' else raised execution_expired
    ]

    -- INSERT ... ON CONFLICT (id) DO NOTHING
    unfoldable pub insert_once : Execution → Database s → Database s
    insert_once e db =
        if is_some (get Execution.id s.executions e.id db.executions)
        then db
        else record db { executions = s.executions.insert e db.executions }

    -- the store runs for an execution of this object
    unfoldable pub is_own : Object → Database s → Bool
    is_own obj db = elim own_id [
      | none ↦ false
      | some id ↦
          holds (λ (e : Execution). str_eq e.object_id obj.id)
            (get Execution.id s.executions id db.executions)
    ]

    unfoldable pub admit_one : Admission → Object → Operation → Database s → Outcome (Database s)
    admit_one admitted obj op db = returned (insert_once (scheduled obj op) db)
    admit_one capacity_full obj op db = raised capacity_exceeded
    admit_one user_capacity_full obj op db = raised user_capacity_exceeded

    unfoldable pub schedule : Object → Database s → Outcome (Database s)
    schedule obj db = elim (operation_of obj.status obj.kind) [
      | none ↦ returned db
      | some op ↦
          if is_own obj db
          then returned db
          else admit_one (admit s db store.limits own_id obj op) obj op db
    ]

    unfoldable pub create :
        String
        → Kind
        → Payload
        → ObjectStatus
        → Option String
        → Database s
        → Outcome (Object × Database s)
    create tenant kind payload status object_id db =
        then_
          (λ db'.
            let id = chosen_id object_id kind in
            let obj = created tenant kind payload status id in
            if is_given object_id
              && ltb 0 (
                  length (
                    s.executions.select (λ e. str_eq e.tenant_id tenant && str_eq e.object_id id)
                      db'.executions))
            then raised request_retired
            else if is_some (get Object.id s.objects id db'.objects)
            then raised duplicate
            else then_ (λ db''. returned (obj, db''))
                (schedule obj (record db' { objects = s.objects.insert obj db'.objects })))
          (fence db)

    unfoldable pub claim : String → String → ℕ → Kind → Database s → Outcome (Object × Database s)
    claim id tenant base_revision kind db =
        let (rows, changed) =
          cas Object.id s.objects id
            (λ o.
              str_eq o.tenant_id tenant && (same_kind o.kind kind && o.revision == base_revision))
            (λ o. record o { revision = base_revision + 1; updated_at = now }) db.objects in
        let db' = record db { objects = rows } in
        if changed == 1
        then then_ (λ o. returned (o, db')) (get_object id tenant (some kind) db')
        else then_ (λ o. raised revision_conflict) (get_object id tenant (some kind) db')

    unfoldable pub save : Object → Database s → Outcome (Database s)
    save obj db =
        then_
          (λ db'.
            let (rows, changed) =
              cas Object.id s.objects obj.id
                (λ o. str_eq o.tenant_id obj.tenant_id && o.revision == obj.revision) (saved obj)
                db'.objects in
            if changed == 1
            then schedule obj (record db' { objects = rows })
            else raised revision_conflict)
          (fence db)
