-- ===== src/Worker/Effects.antt =====
-- What each transition does to the row of a job, on every branch, through the primary key.
use excelflow.Prelude.{
  ℕ, ◌≡◌, refl, Option, none, some, String, arith, eq_iff, eq_refl, str_eq, holds, if◌then◌else◌,
}
use excelflow.Sql
use excelflow.Sql.{SqlTable, HasPrimaryKey, get_lem, lookup-cas, rowcount-cas, HasPrimaryKey-cas}
use excelflow.Sql.Rows.{revise}
use excelflow.Worker.{
  Status, JobRow, WorkerControl, Payload, payload, Result, ok, file_not_found, value_error, held_by,
  close, renew, runnable, take_lease, start, heartbeat, finish,
}

module _ (control : WorkerControl) (t : SqlTable JobRow) where
  -- the row of a job
  abbrev pub row : String → t.Db → Option JobRow
  row task db = Sql.lookup JobRow.id t task db

  -- job ids are the table's primary key
  abbrev pub IsKeyed : t.Db → Type 0
  IsKeyed db = HasPrimaryKey JobRow.id t db

  abbrev pub start_result : ℕ → String → Option JobRow → Result Payload
  start_result now worker none = file_not_found
  start_result now worker (some r) =
      if runnable control r then ok (payload (take_lease control now worker r)) else value_error

  module _ (now : ℕ) (task worker : String) (db : t.Db) (key : IsKeyed db) where
    pub start-result :
        (start control t now task worker db).0 ≡ start_result now worker (row task db)
    unfolding start
    start-result = ground (
      arith,
      get_lem JobRow.id t task
          (Sql.cas JobRow.id t task (runnable control) (take_lease control now worker) db).0,
      eq_refl task,
      lookup-cas JobRow.id t task (runnable control) (take_lease control now worker) db (λ r. refl)
          task,
      rowcount-cas JobRow.id t task (runnable control) (take_lease control now worker) db key,
    )

    pub row-start :
        (j : String)
        → row j (start control t now task worker db).1 ≡ (
            if str_eq j task
            then revise (runnable control) (take_lease control now worker) (row j db)
            else row j db)
    unfolding start
    row-start j = ground (
      arith,
      get_lem JobRow.id t task
          (Sql.cas JobRow.id t task (runnable control) (take_lease control now worker) db).0,
      eq_refl task,
      eq_iff j task,
      lookup-cas JobRow.id t task (runnable control) (take_lease control now worker) db (λ r. refl)
          task,
      lookup-cas JobRow.id t task (runnable control) (take_lease control now worker) db (λ r. refl)
          j,
      rowcount-cas JobRow.id t task (runnable control) (take_lease control now worker) db key,
    )

    pub start-IsKeyed : IsKeyed (start control t now task worker db).1
    unfolding start
    start-IsKeyed = ground (
      arith,
      HasPrimaryKey-cas JobRow.id t task (runnable control) (take_lease control now worker) db
          (λ r. refl) key,
      key,
    )

    pub heartbeat-result :
        (heartbeat control t now task worker db).0 ≡ holds (held_by worker now) (row task db)
    unfolding heartbeat
    heartbeat-result =
        ground
          (arith, rowcount-cas JobRow.id t task (held_by worker now) (renew control now) db key)

    pub row-heartbeat :
        (j : String)
        → row j (heartbeat control t now task worker db).1 ≡ (
            if str_eq j task
            then revise (held_by worker now) (renew control now) (row j db)
            else row j db)
    unfolding heartbeat
    row-heartbeat j =
        lookup-cas JobRow.id t task (held_by worker now) (renew control now) db (λ r. refl) j

    pub heartbeat-IsKeyed : IsKeyed (heartbeat control t now task worker db).1
    unfolding heartbeat
    heartbeat-IsKeyed =
        HasPrimaryKey-cas JobRow.id t task (held_by worker now) (renew control now) db (λ r. refl)
          key

    module _ (target : JobRow → Status) where
      pub finish-result :
          (finish control t now task worker target db).0 ≡ holds (held_by worker now) (row task db)
      unfolding finish
      finish-result =
          ground (arith, rowcount-cas JobRow.id t task (held_by worker now) (close target) db key)

      pub row-finish :
          (j : String)
          → row j (finish control t now task worker target db).1 ≡ (
              if str_eq j task
              then revise (held_by worker now) (close target) (row j db)
              else row j db)
      unfolding finish
      row-finish j =
          lookup-cas JobRow.id t task (held_by worker now) (close target) db (λ r. refl) j

      pub finish-IsKeyed : IsKeyed (finish control t now task worker target db).1
      unfolding finish
      finish-IsKeyed =
          HasPrimaryKey-cas JobRow.id t task (held_by worker now) (close target) db (λ r. refl) key
