-- ===== src/Workflow/Executions/Effects.antt =====
-- What the operations of `ExecutionService` do to the row of one execution and to the objects.
use excelflow.Prelude.{
  ℕ, ◌≡◌, refl, Bool, Option, none, some, String, arith, str_eq, eq_iff, holds, Option-cases, inl,
  inr, ◌==◌, if◌then◌else◌,
}
use excelflow.Sql
use excelflow.Sql.{
  first, HasPrimaryKey, get_lem, first_lem, lookup-cas, rowcount-cas, HasPrimaryKey-cas,
}
use excelflow.Sql.Rows.{revise, find_key-id}
use excelflow.Workflow.{Execution, Object, Schema, Database}
use excelflow.Workflow.Leasing.{
  Service, leased_to, renewed, is_failing, failed_object, still_queued, prolonged, offerable,
  offered,
}
use excelflow.Workflow.Executions.{set, heartbeat, fail_object, prolong, offer}

module _ (s : Schema) where
  abbrev pub row : String → Database s → Option Execution
  row id db = Sql.lookup Execution.id s.executions id db.executions

  abbrev pub object : String → Database s → Option Object
  object id db = Sql.lookup Object.id s.objects id db.objects

  pub record IsKeyed (db : Database s) : Type 0 where
    pub executions : HasPrimaryKey Execution.id s.executions db.executions
    pub objects : HasPrimaryKey Object.id s.objects db.objects

module _ (service : Service) (now : ℕ) (s : Schema) (db : Database s) (key : IsKeyed s db) where
  module _ (id : String) (test : Execution → Bool) (f : Execution → Execution)
      (keeps : (e : Execution) → (f e).id ≡ e.id) where
    pub row-set :
        (j : String)
        → row s j (set s id test f db).0
          ≡ (if str_eq j id then revise test f (row s j db) else row s j db)
    row-set j = lookup-cas Execution.id s.executions id test f db.executions keeps j

    pub set-IsKeyed : IsKeyed s (set s id test f db).0
    set-IsKeyed = record {
      executions =
          HasPrimaryKey-cas Execution.id s.executions id test f db.executions keeps key.executions;
      objects = key.objects;
    }

  pub changed-set :
      (id : String) (test : Execution → Bool) (f : Execution → Execution)
      → (set s id test f db).1 ≡ (if holds test (row s id db) then 1 else 0)
  changed-set id test f =
      rowcount-cas Execution.id s.executions id test f db.executions key.executions

  pub row-heartbeat :
      (held : Execution) (j : String)
      → row s j (heartbeat service now s held db).1 ≡ (
          if str_eq j held.id
          then revise (leased_to service now held.token) (renewed service now) (row s j db)
          else row s j db)
  unfolding heartbeat
  row-heartbeat held j =
      row-set held.id (leased_to service now held.token) (renewed service now) (λ e. refl) j

  pub heartbeat-result :
      (held : Execution)
      → (heartbeat service now s held db).0
        ≡ holds (leased_to service now held.token) (row s held.id db)
  unfolding heartbeat
  heartbeat-result held =
      ground (arith, changed-set held.id (leased_to service now held.token) (renewed service now))

  module _ (read : Execution) where
    pub row-prolong :
        (j : String)
        → row s j (prolong service now s read db) ≡ (
            if str_eq j read.id
            then revise (still_queued service now read) (prolonged service now) (row s j db)
            else row s j db)
    unfolding prolong
    row-prolong j =
        row-set read.id (still_queued service now read) (prolonged service now) (λ e. refl) j

    pub prolong-IsKeyed : IsKeyed s (prolong service now s read db)
    unfolding prolong
    prolong-IsKeyed =
        set-IsKeyed read.id (still_queued service now read) (prolonged service now) (λ e. refl)

    pub row-offer :
        (j : String)
        → row s j (offer service now s read db).1 ≡ (
            if str_eq j read.id
            then revise (offerable service now read) (offered service now) (row s j db)
            else row s j db)
    unfolding offer
    row-offer j = row-set read.id (offerable service now read) (offered service now) (λ e. refl) j

    pub offer-result :
        (offer service now s read db).0 ≡ holds (offerable service now read) (row s read.id db)
    unfolding offer
    offer-result =
        ground (arith, changed-set read.id (offerable service now read) (offered service now))

    pub offer-IsKeyed : IsKeyed s (offer service now s read db).1
    unfolding offer
    offer-IsKeyed =
        set-IsKeyed read.id (offerable service now read) (offered service now) (λ e. refl)

  pub executions-fail_object :
      (e : Execution) (code : Option String) (message : String)
      → (fail_object service now s e code message db).executions ≡ db.executions
  unfolding fail_object
  executions-fail_object e code message = ground arith

  -- the failure of an object: only while it is busy at the execution's revision
  abbrev pub fail_if_busy : Execution → Option String → String → Option Object → Option Object
  fail_if_busy e code message none = none
  fail_if_busy e code message (some o) =
      if is_failing e o then some (failed_object service now o.payload code message o) else some o

  pub object-fail_object :
      (e : Execution) (code : Option String) (message : String) (j : String)
      → object s j (fail_object service now s e code message db) ≡ (
          if str_eq j e.object_id
          then fail_if_busy e code message (object s j db)
          else object s j db)
  unfolding fail_object
  object-fail_object e code message j = elim (Option-cases (object s e.object_id db)) [
    | inl missing ↦ ground (
      arith,
      eq_iff j e.object_id,
      first_lem Object.id s.objects e.object_id (is_failing e) db.objects key.objects,
    )
    | inr (o, found) ↦ ground (
      arith,
      eq_iff j e.object_id,
      eq_iff o.id e.object_id,
      find_key-id Object.id e.object_id (s.objects.rows db.objects) o found,
      first_lem Object.id s.objects e.object_id (is_failing e) db.objects key.objects,
      lookup-cas Object.id s.objects o.id (λ x. x.revision == e.revision)
          (failed_object service now o.payload code message) db.objects (λ x. refl) j,
    )
  ]

  pub fail_object-IsKeyed :
      (e : Execution) (code : Option String) (message : String)
      → IsKeyed s (fail_object service now s e code message db)
  unfolding fail_object
  fail_object-IsKeyed e code message =
      elim (Option-cases (first Object.id s.objects e.object_id (is_failing e) db.objects)) [
        | inl missing ↦ rw (missing, fail_object) key
        | inr (o, found) ↦
            rw (found, fail_object)
              (record {
                executions = key.executions;
                objects =
                    HasPrimaryKey-cas Object.id s.objects o.id (λ x. x.revision == e.revision)
                      (failed_object service now o.payload code message) db.objects (λ x. refl)
                      key.objects;
              })
      ]

  pub heartbeat-IsKeyed : (held : Execution) → IsKeyed s (heartbeat service now s held db).1
  unfolding heartbeat
  heartbeat-IsKeyed held =
      set-IsKeyed held.id (leased_to service now held.token) (renewed service now) (λ e. refl)
