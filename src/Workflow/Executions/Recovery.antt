-- ===== src/Workflow/Executions/Recovery.antt =====
-- The scan of `recover`: every execution whose lease has ended is tried again, or failed when its
-- attempts are used up, and no other is touched.
use excelflow.Prelude.{
  ℕ, ◌+◌, ◌≡◌, refl, ◌∙◌, Bool, true, ◌&&◌, Option, none, some, List, [], ◌∷◌, String, arith, leb,
  str_eq, eq_iff, eq_refl, holds, All, filter_by, length, if◌then◌else◌,
}
use excelflow.Sql.Rows.{
  revise, find_key, Absent, UniqueKeys, UniqueKeys-filter, find-filter, find-Absent,
  filter-IsLocated,
}
use excelflow.Workflow.{Execution, Schema, Database, same_text}
use excelflow.Workflow.Leasing.{Service, lost, recovered}
use excelflow.Workflow.Executions.{set, recover_row, recover_rows, recover}
use excelflow.Workflow.Executions.Effects.{
  row, IsKeyed, row-set, set-IsKeyed, changed-set, executions-fail_object, fail_object-IsKeyed,
}

module _ (service : Service) (now : ℕ) where
  -- what the scan makes of an execution
  abbrev pub restore : Execution → Execution
  restore e = recovered service now (leb service.max_attempts e.attempts) e

  abbrev pub read_again : Execution → Execution → Bool
  read_again read e = same_text e.token read.token && lost service now e

  abbrev pub restored : Execution → Execution → Execution
  restored read = recovered service now (leb service.max_attempts read.attempts)

same_text_refl : (t : Option String) → same_text t t ≡ true
same_text_refl none = refl
same_text_refl (some t) = eq_refl t

module _ (service : Service) (now : ℕ) (s : Schema) where
  module _ (db : Database s) (key : IsKeyed s db) (read : Execution) where
    abbrev updated : Database s
    updated = (set s read.id (read_again service now read) (restored service now read) db).0

    updated-IsKeyed : IsKeyed s updated
    updated-IsKeyed =
        set-IsKeyed service now s db key read.id (read_again service now read)
          (restored service now read) (λ e. refl)

    row-recover_row :
        (j : String)
        → row s j (recover_row service now s read db).1 ≡ (
            if str_eq j read.id
            then revise (read_again service now read) (restored service now read) (row s j db)
            else row s j db)
    unfolding recover_row
    row-recover_row j = ground (
      arith,
      row-set service now s db key read.id (read_again service now read) (restored service now read)
          (λ e. refl) j,
      executions-fail_object service now s updated updated-IsKeyed read none
          "Worker 失联，重试次数已用尽，请手动重试。",
    )

    changed-recover_row :
        (recover_row service now s read db).0
        ≡ holds (read_again service now read) (row s read.id db)
    unfolding recover_row
    changed-recover_row = ground (
      arith,
      changed-set service now s db key read.id (read_again service now read)
          (restored service now read),
    )

    recover_row-IsKeyed : IsKeyed s (recover_row service now s read db).1
    unfolding recover_row
    recover_row-IsKeyed = ground (
      arith,
      updated-IsKeyed,
      fail_object-IsKeyed service now s updated updated-IsKeyed read none
          "Worker 失联，重试次数已用尽，请手动重试。",
    )

  -- a row as it was read, still unchanged and lost
  abbrev IsCurrent : Database s → Execution → Type 0
  IsCurrent db e = (row s e.id db ≡ some e) × (lost service now e ≡ true)

  recover_row-IsCurrent :
      (db : Database s) (key : IsKeyed s db) (read : Execution) (rs : List Execution)
      → Absent Execution.id read.id rs
      → All (IsCurrent db) rs
      → All (IsCurrent (recover_row service now s read db).1) rs
  recover_row-IsCurrent db key read [] a c = tt
  recover_row-IsCurrent db key read (e ∷ rs) a c =
      ground (arith, row-recover_row db key read e.id, recover_row-IsCurrent db key read rs a.1 c.1)

  abbrev settled : Option Execution → Option Execution → Option Execution
  settled none old = old
  settled (some read) old = some (restore service now read)

  recover_rows_lem :
      (rs : List Execution) (n : ℕ) (db : Database s) (j : String)
      → IsKeyed s db
      → UniqueKeys Execution.id rs
      → All (IsCurrent db) rs
      → (row s j (recover_rows service now s rs n db).1
          ≡ settled (find_key Execution.id j rs) (row s j db))
        × ((recover_rows service now s rs n db).0 ≡ n + length rs)
        × IsKeyed s (recover_rows service now s rs n db).1
  unfolding recover_rows
  recover_rows_lem [] n db j key u c = (refl, omega arith, key)
  recover_rows_lem (e ∷ rs) n db j key u c = ground (
    arith,
    row-recover_row db key e j,
    changed-recover_row db key e,
    same_text_refl e.token,
    eq_iff j e.id,
    eq_iff e.id j,
    find-Absent Execution.id e.id rs u.0,
    recover_rows_lem rs (n + 1) (recover_row service now s e db).1 j (recover_row-IsKeyed db key e)
        u.1 (recover_row-IsCurrent db key e rs u.0 c.1),
  )

  settled-found :
      (db : Database s) (j : String)
      → IsKeyed s db
      → settled
          (find_key Execution.id j (filter_by (lost service now) (s.executions.rows db.executions)))
          (row s j db)
        ≡ revise (lost service now) (restore service now) (row s j db)
  settled-found db j key = ground (
    arith,
    find-filter Execution.id j (lost service now) (s.executions.rows db.executions) key.executions,
  )

  -- With ids as primary keys: `recover` restores exactly the executions whose lease has ended, and
  -- counts them.
  pub recover_lem :
      (db : Database s) (j : String)
      → IsKeyed s db
      → (row s j (recover service now s db).1
          ≡ revise (lost service now) (restore service now) (row s j db))
        × ((recover service now s db).0
            ≡ length (filter_by (lost service now) (s.executions.rows db.executions)))
        × IsKeyed s (recover service now s db).1
  unfolding recover
  recover_lem db j key =
      let rs = s.executions.rows db.executions in
      let (settles, counted, keyed) =
        recover_rows_lem (filter_by (lost service now) rs) 0 db j key
          (UniqueKeys-filter Execution.id (lost service now) rs key.executions)
          (filter-IsLocated Execution.id (lost service now) rs key.executions) in
      rw (s.executions.select_lem) (settles ∙ settled-found db j key, counted ∙ omega arith, keyed)
