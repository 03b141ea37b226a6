-- ===== src/Workflow/Executions/Bounds.antt =====
-- A granted claim keeps the numbers of running executions within the limits.
use excelflow.Prelude.{
  ℕ, ◌+◌, ◌≤◌, ◌<◌, ◌≡◌, inl, inr, Option-cases, Bool, true, some, String, arith, ltb,
}
use excelflow.Sql.{cas}
use excelflow.Sql.Rows.{count-update-le}
use excelflow.Workflow.{Execution, Object, Schema, Database}
use excelflow.Workflow.Capacity.{Limits, can_run, active_count, is_active, runs, leases_of, of_user}
use excelflow.Workflow.Leasing.{Service, claimable, claimed}
use excelflow.Workflow.Executions.{set, settle, take, claim}
use excelflow.Workflow.Executions.Effects.{row, object, IsKeyed}
use excelflow.Workflow.Executions.Claims.{claim-outcome, claim_missing}

module _ (service : Service) (now : ℕ) (s : Schema) (limits : Limits) (id token worker : String)
    (db : Database s) (key : IsKeyed s db) where
  abbrev granted : Database s
  granted = (set s id (claimable service now) (claimed service now token worker) db).0

  settle-some :
      (d : Database s) (r : Execution)
      → (settle service now s id d).0 ≡ some r
      → (settle service now s id d).1 ≡ d
  unfolding settle
  settle-some d r h = ground arith

  claim-granted :
      {r : Execution}
      → (claim service now s limits id token worker db).0 ≡ some r
      → (claim service now s limits id token worker db).1 ≡ granted
  unfolding claim take
  claim-granted {r} h = ground (arith, settle-some granted r)

  active_count-granted :
      (p : Execution → Bool) (test : Object → Bool)
      → active_count s granted p test ≤ active_count s db p test + 1
  unfolding active_count is_active cas
  active_count-granted p test =
      rw (s.executions.select_lem, s.executions.rows-update, s.executions.select_lem)
        (count-update-le Execution.id id (claimable service now) (claimed service now token worker)
          p (is_active s db test) (s.executions.rows db.executions) key.executions)

  -- the counts that `can_run` compares, and what a grant makes of them
  abbrev pub running_total : Database s → ℕ
  running_total d =
      active_count s d (runs now) (λ o. true)
      + leases_of s d "interactive" (λ l. ltb now l.expires_at)

  abbrev pub running_of : Object → Database s → ℕ
  running_of o d = active_count s d (runs now) (of_user s d o)

  total-granted : running_total granted ≤ running_total db + 1
  unfolding leases_of
  total-granted = omega (arith, active_count-granted (runs now) (λ o. true))

  user-granted : (o : Object) → running_of o granted ≤ running_of o db + 1
  unfolding of_user
  user-granted o = active_count-granted (runs now) (of_user s db o)

  can_run-lt :
      (o : Object)
      → can_run s db limits now o ≡ true
      → (running_total db < limits.max_running) × (running_of o db < limits.user_running)
  unfolding can_run
  can_run-lt o h = ground arith

  admitted_object :
      {r : Execution}
      → (claim service now s limits id token worker db).0 ≡ some r
      → (o : Object) × (object s r.object_id db ≡ some o) × (can_run s db limits now o ≡ true)
  admitted_object {r} h = elim (Option-cases (row s id db)) [
    | inl missing ↦ cc (claim_missing service now s limits token worker db key id missing)
    | inr (e, found) ↦ elim (Option-cases (object s e.object_id db)) [
      | inl gone ↦
          ground
            (arith, gone, (claim-outcome service now s limits token worker db key id id found).0)
      | inr (o, there) ↦ (
        o,
        ground
            (arith, there, (claim-outcome service now s limits token worker db key id id found).0),
        ground
            (arith, there, (claim-outcome service now s limits token worker db key id id found).0),
      )
    ]
  ]

  -- With ids as primary keys: a granted claim keeps the limits, its own execution included: the
  -- running executions and the interactive leases together, and the running executions of the
  -- object's owner.
  pub claim-le_limits :
      {r : Execution}
      → (claim service now s limits id token worker db).0 ≡ some r
      → let db' = (claim service now s limits id token worker db).1 in
        (o : Object) × (object s r.object_id db' ≡ some o)
        × (running_total db' ≤ limits.max_running)
        × (running_of o db' ≤ limits.user_running)
  claim-le_limits {r} h =
      let (o, there, may) = admitted_object h in
      let (total, user) = can_run-lt o may in
      rw (claim-granted h) (o, there, omega (arith, total-granted), omega (arith, user-granted o))
