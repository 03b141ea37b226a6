-- ===== src/Worker/Leases.antt =====
-- A running lease belongs to one worker: nobody else moves the job, and its owner loses it for good
-- when it runs out.
use excelflow.Prelude.{
  ℕ, ◌≤◌, ◌≡◌, refl, ap, ◌∙◌, Bool, false, some, List, [], ◌∷◌, String, arith, All, str_eq, eq_iff,
  eq_refl, ◌&&◌, if◌then◌else◌,
}
use excelflow.Sql.{SqlTable}
use excelflow.Worker.{
  Status, completed, failed, retry_status, running, JobRow, WorkerControl, Payload, ok, value_error,
  held_by, start, heartbeat, finish, complete, fail,
}
use excelflow.Worker.Effects.{
  row, IsKeyed, start-result, row-start, start-IsKeyed, heartbeat-result, row-heartbeat,
  finish-result, row-finish,
}
use excelflow.Worker.Machine.{
  Event, heartbeats, completes, fails, Timed, transit, history, run, run-history,
}
use mathlib.Core.Option

-- `worker` runs the job under a lease that ends at `until`
pub record IsHeld (worker : String) (until : ℕ) (r : JobRow) : Type 0 where
  pub is_running : r.status ≡ running
  pub owner : r.worker_id ≡ some worker
  pub lease : r.lease_expires_at ≡ some until

-- a report of `worker` on job `j`
abbrev reports : String → String → Event → Bool
reports j worker (heartbeats task by) = str_eq j task && str_eq worker by
reports j worker (completes task by) = str_eq j task && str_eq worker by
reports j worker (fails task by terminal) = str_eq j task && str_eq worker by
reports j worker _ = false

-- an event no later than `until` that is no report of the owner's
abbrev pub IsForeign : String → String → ℕ → Timed → Type 0
IsForeign j worker until e = (e.now ≤ until) × (reports j worker e.event ≡ false)

module _ (control : WorkerControl) (j worker : String) (until : ℕ) where
  transit-IsForeign :
      (e : Timed) (r : JobRow)
      → IsForeign j worker until e
      → IsHeld worker until r
      → transit control j e r ≡ r
  unfolding transit
  transit-IsForeign e r f h = ground arith

  history-IsForeign :
      (es : List Timed) (r : JobRow)
      → All (IsForeign j worker until) es
      → IsHeld worker until r
      → history control j es r ≡ r
  unfolding history
  history-IsForeign [] r f h = refl
  history-IsForeign (e ∷ es) r f h =
      ap (history control j es) (transit-IsForeign e r f.0 h) ∙ history-IsForeign es r f.1 h

module _ (control : WorkerControl) (t : SqlTable JobRow) (db : t.Db) (key : IsKeyed control t db)
    (j worker : String) {r : JobRow} (found : row control t j db ≡ some r) where
  -- With ids as primary keys: until its lease ends, a running job is changed by no start, by no
  -- report of another worker and by no recovery scan, in whatever order these arrive.
  pub lease_exclusive :
      (until : ℕ) (es : List Timed)
      → IsHeld worker until r
      → All (IsForeign j worker until) es
      → row control t j (run control t es db) ≡ some r
  lease_exclusive until es h f =
      (run-history control t es db j key).0
      ∙ ap (Option.map (history control j es)) found
      ∙ ap some (history-IsForeign control j worker until es r f h)

  finish_refused :
      (now : ℕ) (target : JobRow → Status) (i : String)
      → held_by worker now r ≡ false
      → ((finish control t now j worker target db).0 ≡ false)
        × (row control t i (finish control t now j worker target db).1 ≡ row control t i db)
  finish_refused now target i h = ground (
    arith,
    eq_iff i j,
    finish-result control t now j worker db key target,
    row-finish control t now j worker db key target i,
  )

  heartbeat_refused :
      (now : ℕ) (i : String)
      → held_by worker now r ≡ false
      → ((heartbeat control t now j worker db).0 ≡ false)
        × (row control t i (heartbeat control t now j worker db).1 ≡ row control t i db)
  heartbeat_refused now i h = ground (
    arith,
    eq_iff i j,
    heartbeat-result control t now j worker db key,
    row-heartbeat control t now j worker db key i,
  )

  -- With ids as primary keys: a report on a job that its sender does not hold, because the lease
  -- ended, the job was given to another worker or it is not running, is refused and changes no job.
  pub stale_refused :
      (now : ℕ) (terminal : Bool) (i : String)
      → held_by worker now r ≡ false
      → let beat = heartbeat control t now j worker db in
        let done = complete control t now j worker db in
        let failure = fail control t now j worker terminal db in
        (beat.0 ≡ false)
        × (done.0 ≡ false)
        × (failure.0 ≡ false)
        × (row control t i beat.1 ≡ row control t i db)
        × (row control t i done.1 ≡ row control t i db)
        × (row control t i failure.1 ≡ row control t i db)
  unfolding complete fail
  stale_refused now terminal i h =
      let (no_beat, beat_same) = heartbeat_refused now i h in
      let (no_end, end_same) = finish_refused now (λ s. completed) i h in
      let (no_fail, fail_same) =
        finish_refused now (if terminal then (λ s. failed) else retry_status control) i h in
      (no_beat, no_end, no_fail, beat_same, end_same, fail_same)

  -- With ids as primary keys: a job is handed out once: while one start of it succeeded and nothing
  -- else happened to it, every other start, by any worker and at any time, is refused.
  pub start_twice :
      (now later : ℕ) (other : String) (p : Payload)
      → (start control t now j worker db).0 ≡ ok p
      → (start control t later j other (start control t now j worker db).1).0 ≡ value_error
  start_twice now later other p h = ground (
    arith,
    eq_refl j,
    start-result control t now j worker db key,
    row-start control t now j worker db key j,
    start-result control t later j other (start control t now j worker db).1
        (start-IsKeyed control t now j worker db key),
  )
