-- ===== src/Workflow/Executions/Claims.antt =====
-- `claim` on every branch: who gets an execution, and what the row becomes otherwise.
use excelflow.Prelude.{
  ℕ, ◌≡◌, refl, Bool, true, false, ◌&&◌, not, Option, none, some, String, arith, str_eq, eq_iff,
  eq_refl, holds, if◌then◌else◌,
}
use excelflow.Sql.{get_lem, first_lem}
use excelflow.Workflow.{Execution, Object, Schema, Database, superseded, is_waiting}
use excelflow.Workflow.Capacity.{Limits, can_run}
use excelflow.Workflow.Leasing.{Service, is_current, claimable, claimed, postponed}
use excelflow.Workflow.Executions.{set, settle, take, claim}
use excelflow.Workflow.Executions.Effects.{row, object, IsKeyed, row-set, set-IsKeyed, changed-set}

abbrev pub retire : Execution → Execution
retire e = record e { status = superseded; lease_until = none }

-- the object of the execution's tenant, at its revision and in the status of its operation
abbrev pub fits : Execution → Object → Bool
fits e o = str_eq o.tenant_id e.tenant_id && is_current e o

module _ (service : Service) (now : ℕ) (token worker : String) where
  -- the outcome of a claim of `e`, whose object is `o`: the result, and the new row
  abbrev pub outcome : Option Object → Bool → Execution → Option Execution × Execution
  outcome o blocked e =
      if not (is_waiting e.status)
      then (none, e)
      else if blocked
      then (none, postponed service now e)
      else if not (claimable service now e)
      then (none, e)
      else if holds (fits e) o
      then (some (claimed service now token worker e), claimed service now token worker e)
      else (none, retire (claimed service now token worker e))

module _ (service : Service) (now : ℕ) (s : Schema) (limits : Limits) (token worker : String)
    (db : Database s) (key : IsKeyed s db) where
  -- the object of an execution may not run now
  abbrev pub blocked : Execution → Bool
  blocked e = holds (λ o. not (can_run s db limits now o)) (object s e.object_id db)

  take-outcome :
      (id : String) (e : Execution)
      → row s id db ≡ some e
      → is_waiting e.status ≡ true
      → (take service now s id token worker db).0
        ≡ (outcome service now token worker (object s e.object_id db) false e).0
  unfolding take settle
  take-outcome id e found w = ground (
    arith,
    eq_refl id,
    changed-set service now s db key id (claimable service now) (claimed service now token worker),
    row-set service now s db key id (claimable service now) (claimed service now token worker)
        (λ x. refl) id,
    get_lem Execution.id s.executions id
        (set s id (claimable service now) (claimed service now token worker) db).0.executions,
    first_lem Object.id s.objects e.object_id (λ o. str_eq o.tenant_id e.tenant_id) db.objects
        key.objects,
  )

  take-row :
      (id : String) (e : Execution) (j : String)
      → row s id db ≡ some e
      → is_waiting e.status ≡ true
      → row s j (take service now s id token worker db).1 ≡ (
          if str_eq j id
          then some ((outcome service now token worker (object s e.object_id db) false e).1)
          else row s j db)
  unfolding take settle
  take-row id e j found w = ground (
    arith,
    eq_refl id,
    eq_iff j id,
    changed-set service now s db key id (claimable service now) (claimed service now token worker),
    row-set service now s db key id (claimable service now) (claimed service now token worker)
        (λ x. refl) id,
    row-set service now s db key id (claimable service now) (claimed service now token worker)
        (λ x. refl) j,
    row-set service now s (set s id (claimable service now) (claimed service now token worker) db).0
        (set-IsKeyed service now s db key id (claimable service now)
          (claimed service now token worker) (λ x. refl))
        id (λ x. true) retire (λ x. refl) j,
    get_lem Execution.id s.executions id
        (set s id (claimable service now) (claimed service now token worker) db).0.executions,
    first_lem Object.id s.objects e.object_id (λ o. str_eq o.tenant_id e.tenant_id) db.objects
        key.objects,
  )

  claim-result_of :
      (id : String) (e : Execution)
      → row s id db ≡ some e
      → (claim service now s limits id token worker db).0
        ≡ (outcome service now token worker (object s e.object_id db) (blocked e) e).0
  unfolding claim
  claim-result_of id e found = ground (
    arith,
    first_lem Execution.id s.executions id (λ x. is_waiting x.status) db.executions key.executions,
    get_lem Object.id s.objects e.object_id db.objects,
    take-outcome id e,
  )

  claim-row_of :
      (id : String) (e : Execution) (j : String)
      → row s id db ≡ some e
      → row s j (claim service now s limits id token worker db).1 ≡ (
          if str_eq j id
          then some ((outcome service now token worker (object s e.object_id db) (blocked e) e).1)
          else row s j db)
  unfolding claim
  claim-row_of id e j found = ground (
    arith,
    eq_iff j id,
    first_lem Execution.id s.executions id (λ x. is_waiting x.status) db.executions key.executions,
    get_lem Object.id s.objects e.object_id db.objects,
    row-set service now s db key id (λ x. true) (postponed service now) (λ x. refl) j,
    take-row id e j,
  )

  pub claim_missing :
      (id : String)
      → row s id db ≡ none
      → claim service now s limits id token worker db ≡ (none, db)
  unfolding claim
  claim_missing id missing = ground (
    arith,
    first_lem Execution.id s.executions id (λ x. is_waiting x.status) db.executions key.executions,
  )

  settle-objects :
      (id : String) (d : Database s) → (settle service now s id d).1.objects ≡ d.objects
  unfolding settle
  settle-objects id d = ground arith

  claim-objects :
      (id : String) → (claim service now s limits id token worker db).1.objects ≡ db.objects
  unfolding claim take
  claim-objects id = ground (
    arith,
    settle-objects id (set s id (claimable service now) (claimed service now token worker) db).0,
  )

  -- With ids as primary keys: on every branch of `claim`: the result, the new row of the execution
  -- and every other row are those of `outcome`, and no object changes.
  pub claim-outcome :
      (id j : String) {e : Execution}
      → row s id db ≡ some e
      → let (result, db') = claim service now s limits id token worker db in
        let (expected, e') =
          outcome service now token worker (object s e.object_id db) (blocked e) e in
        (result ≡ expected)
        × (row s j db' ≡ (if str_eq j id then some e' else row s j db))
        × (db'.objects ≡ db.objects)
  claim-outcome id j {e} found =
      (claim-result_of id e found, claim-row_of id e j found, claim-objects id)

  settle-IsKeyed :
      (id : String) (d : Database s) → IsKeyed s d → IsKeyed s (settle service now s id d).1
  unfolding settle
  settle-IsKeyed id d k =
      ground (arith, k, set-IsKeyed service now s d k id (λ x. true) retire (λ x. refl))

  pub claim-IsKeyed : (id : String) → IsKeyed s (claim service now s limits id token worker db).1
  unfolding claim take
  claim-IsKeyed id = ground (
    arith,
    key,
    set-IsKeyed service now s db key id (λ x. true) (postponed service now) (λ x. refl),
    set-IsKeyed service now s db key id (claimable service now) (claimed service now token worker)
        (λ x. refl),
    settle-IsKeyed id (set s id (claimable service now) (claimed service now token worker) db).0 (
        set-IsKeyed service now s db key id (claimable service now)
          (claimed service now token worker) (λ x. refl)),
  )
