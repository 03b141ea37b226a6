-- ===== src/Tests/Store.antt =====
-- Runs of `WorkflowStore` on two objects, of which a worker holds the first.
use excelflow.Prelude.{
  arith, ◌≡◌, refl, true, [], ◌∷◌, Option, none, some, String, str_eq, holds, if◌then◌else◌,
}
use excelflow.Sql.{get, first, cas}
use excelflow.Sql.Memory.{memory}
use excelflow.Workflow.{
  Execution, Object, ObjectStatus, Kind, Payload, ResourceLease, Schema, Database, parse_task,
  running, task, processing,
}
use excelflow.Workflow.Store.{
  Store, raised, execution_expired, revision_conflict, get_object, fence, schedule, is_own, create,
  claim, save,
}
use excelflow.Workflow.Store.Rows.{object_at, is_base}
use excelflow.Workflow.Store.Fencing.{ended, save_refused}
use excelflow.Workflow.Store.Guarantees.{is_current, saved_row, claim-once, save-writes}

abbrev schema : Schema
schema = record {
  executions = memory Execution;
  objects = memory Object;
  resource_leases = memory ResourceLease;
}

abbrev store : Store
store = record {
  execution = some ("b", "k");
  limits = record { max_running = 2; max_waiting = 50; user_running = 1; user_waiting = 3 };
  identifier = λ kind. "new";
  execution_id = λ id revision op. "exec";
}

abbrev held : Execution
held = record {
  id = "b";
  object_id = "o";
  tenant_id = "t";
  operation = parse_task;
  revision = 1;
  status = running;
  attempts = 1;
  worker = some "w";
  token = some "k";
  lease_until = some 100;
  available_at = 0;
  updated_at = 0;
  error = none;
  created_at = 0;
  started_at = none;
  finished_at = none;
}

abbrev payload : String → Payload
payload text = record {
  actor = some "u";
  task_id = none;
  error = none;
  error_code = none;
  rest = text;
}

abbrev object : String → Object
object id = record {
  id = id;
  tenant_id = "t";
  kind = task;
  status = processing;
  revision = 1;
  payload = payload "";
  created_at = 0;
  updated_at = 0;
  creator_id = some "u";
  parent_task_id = none;
}

abbrev db : Database schema
db = record { executions = held ∷ []; objects = object "o" ∷ object "p" ∷ []; resource_leases = [] }

abbrev next : Object
next = record (object "o") { revision = 2; updated_at = 50 }

claim-once_example :
    (holds (is_base store 50 schema "o" "t" 1 task) (object_at store 50 schema "o" db) ≡ true)
    × (next.revision ≡ 2)
    × (object_at store 50 schema "p" (record db { objects = next ∷ object "p" ∷ [] })
        ≡ (if str_eq "p" "o" then some next else object_at store 50 schema "p" db))
    × (claim store 60 schema "o" "t" 1 task (record db { objects = next ∷ object "p" ∷ [] })
        ≡ raised revision_conflict)
unfolding claim cas get_object first
claim-once_example =
    claim-once store schema 50 60 "o" "t" 1 task next db
      (record db { objects = next ∷ object "p" ∷ [] }) "p" ((refl, tt), (tt, tt)) refl

save_refused_example :
    ((obj : Object) → save store 101 schema obj db ≡ raised execution_expired)
    × ((tenant : String) (kind : Kind) (payload : Payload) (status : ObjectStatus)
          (object_id : Option String)
        → create store 101 schema tenant kind payload status object_id db
          ≡ raised execution_expired)
save_refused_example =
    save_refused store schema 101 "b" "k" db (tt, tt) refl (ended refl (omega arith))

abbrev changed : Object
changed = record (object "o") { payload = payload "new" }

abbrev stored : Database schema
stored = record {
  executions = record held { updated_at = 50 } ∷ [];
  objects = record changed { updated_at = 50 } ∷ object "p" ∷ [];
  resource_leases = [];
}

save-writes_example :
    (holds (is_current store schema changed) (object_at store 50 schema "o" db) ≡ true)
    × (object_at store 50 schema "o" stored ≡ saved_row store schema 50 changed "o" db.objects)
unfolding save cas fence schedule is_own get first
save-writes_example = save-writes store schema 50 changed db stored "o" ((refl, tt), (tt, tt)) refl
