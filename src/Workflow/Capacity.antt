-- ===== src/Workflow/Capacity.antt =====
-- src/excel_auditor/workflow/capacity.py: who may run and who may wait. The counts and the update
-- that follows them stand in one serialized transaction of the caller. The limits are those that
-- `limit` has read from the environment.
use mathlib.Core.Option
use excelflow.Prelude.{
  ℕ, ◌+◌, Bool, true, ◌&&◌, ◌||◌, Option, none, some, String, ltb, leb, not, str_eq, holds,
  count_by, ◌==◌, length, if◌then◌else◌,
}
use excelflow.Sql.{get, first}
use excelflow.Workflow.{
  Execution, Object, Operation, same_operation, ResourceLease, Schema, Database, is_waiting,
  is_running, is_busy, later, or_else,
}

pub record Limits : Type 0 where
  pub max_running : ℕ
  pub max_waiting : ℕ
  pub user_running : ℕ
  pub user_waiting : ℕ

-- `func.coalesce(first, second, 'service')`
abbrev pub coalesce : Option String → Option String → String
coalesce (some a) other = a
coalesce none (some b) = b
coalesce none none = "service"

-- `value or 'service'`
abbrev or_service : Option String → String
or_service none = "service"
or_service (some v) = if str_eq v "" then "service" else v

pub data Admission : Type 0 where
  admitted capacity_full user_capacity_full : Admission

-- `status == 'running'` under a lease that has not ended
abbrev pub runs : ℕ → Execution → Bool
runs now e = is_running e.status && later now e.lease_until

-- `execution[0] != e.id`, where the store runs for an execution
abbrev not_own : Option String → Execution → Bool
not_own none e = true
not_own (some own) e = not (str_eq e.id own)

abbrev pub counts : Option String → Execution → Bool
counts own e = (is_waiting e.status || is_running e.status) && not_own own e

module _ (s : Schema) (db : Database s) where
  -- the creator of the task that a payload names
  task_creator : Object → Option String → Option String
  task_creator obj none = none
  task_creator obj (some task_id) =
      if str_eq task_id ""
      then none
      else Option.bind
          (first Object.id s.objects task_id (λ o. str_eq o.tenant_id obj.tenant_id) db.objects)
          (λ o. o.creator_id)

  unfoldable pub owner : Object → String
  unfolding task_creator
  owner obj =
      or_service
        (or_else (or_else obj.creator_id obj.payload.actor) (task_creator obj obj.payload.task_id))

  -- the `actor` of `active_query`, over the outer join with the parent task
  unfoldable pub active_actor : Object → String
  active_actor o = coalesce o.creator_id (
      Option.bind
        (Option.bind o.parent_task_id (λ parent. get Object.id s.objects parent db.objects))
        (λ parent. parent.creator_id))

  -- `active_query`: the execution is that of its object's present revision, and the object is busy.
  unfoldable pub is_active : (Object → Bool) → Execution → Bool
  is_active test e =
      holds (λ o. e.revision == o.revision && (is_busy o.status && test o))
        (get Object.id s.objects e.object_id db.objects)

  -- The number of active executions under the conditions of a query.
  unfoldable pub active_count : (Execution → Bool) → (Object → Bool) → ℕ
  active_count p test = count_by (is_active test) (s.executions.select p db.executions)

  -- `tenant_id == obj['tenant_id']` and `actor == owner(con, obj)`
  unfoldable pub of_user : Object → Object → Bool
  unfolding owner active_actor
  of_user obj o = str_eq o.tenant_id obj.tenant_id && str_eq (active_actor o) (owner obj)

  unfoldable pub leases_of : String → (ResourceLease → Bool) → ℕ
  leases_of resource p =
      length (s.resource_leases.select (λ l. str_eq l.resource resource && p l) db.resource_leases)

  module _ (limits : Limits) (now : ℕ) where
    unfoldable pub can_run : Object → Bool
    unfolding active_count is_active leases_of of_user
    can_run obj =
        ltb
          (active_count (runs now) (λ o. true)
            + leases_of "interactive" (λ l. ltb now l.expires_at))
          limits.max_running
        && ltb (active_count (runs now) (of_user obj)) limits.user_running

  unfoldable pub admit : Limits → Option String → Object → Operation → Admission
  unfolding active_count is_active of_user
  admit limits own obj op =
      if ltb 0 (
        length (
          s.executions.select
            (λ e.
              str_eq e.object_id obj.id
              && (e.revision == obj.revision && same_operation e.operation op))
            db.executions))
      then admitted
      else if leb (limits.max_waiting + limits.max_running) (active_count (counts own) (λ o. true))
      then capacity_full
      else if leb (limits.user_waiting + limits.user_running)
          (active_count (counts own) (of_user obj))
      then user_capacity_full
      else admitted
