-- ===== src/Worker/Machine.antt =====
-- The transitions of concurrent workers as one machine over the table, and the row of one job as a
-- machine of its own. An interleaving of workers is a list of events, each with its time.
use excelflow.Prelude.{
  ℕ, ◌≡◌, refl, ap, ◌∙◌, Bool, Option, none, some, List, [], ◌∷◌, String, arith, str_eq, ◌&&◌,
  if◌then◌else◌,
}
use excelflow.Sql.{SqlTable}
use excelflow.Worker.{
  completed, failed, JobRow, WorkerControl, held_by, expired, close, renew, runnable, take_lease,
  retry_status, start, heartbeat, complete, fail, requeue_expired,
}
use excelflow.Worker.Effects.{
  row, IsKeyed, row-start, start-IsKeyed, row-heartbeat, heartbeat-IsKeyed, row-finish,
  finish-IsKeyed,
}
use excelflow.Worker.Requeue.{requeue_expired-row, requeue_expired-IsKeyed}
use mathlib.Core.Option

pub data Event : Type 0 where
  starts heartbeats completes : String → String → Event
  fails : String → String → Bool → Event
  requeues : Event

pub record Timed : Type 0 where
  pub now : ℕ
  pub event : Event

module _ (control : WorkerControl) where
  -- What an event does to the row of job `j`.
  abbrev pub act : String → ℕ → Event → JobRow → JobRow
  act j now (starts task worker) r =
      if str_eq j task && runnable control r then take_lease control now worker r else r
  act j now (heartbeats task worker) r =
      if str_eq j task && held_by worker now r then renew control now r else r
  act j now (completes task worker) r =
      if str_eq j task && held_by worker now r then close (λ s. completed) r else r
  act j now (fails task worker terminal) r =
      if str_eq j task && held_by worker now r
      then close (if terminal then (λ s. failed) else retry_status control) r
      else r
  act j now requeues r = if expired now r then close (retry_status control) r else r

  unfoldable pub transit : String → Timed → JobRow → JobRow
  transit j e r = act j e.now e.event r

  unfoldable pub history : String → List Timed → JobRow → JobRow
  history j [] r = r
  history j (e ∷ es) r = history j es (transit j e r)

  module _ (t : SqlTable JobRow) where
    pub perform : ℕ → Event → t.Db → t.Db
    perform now (starts task worker) db = (start control t now task worker db).1
    perform now (heartbeats task worker) db = (heartbeat control t now task worker db).1
    perform now (completes task worker) db = (complete control t now task worker db).1
    perform now (fails task worker terminal) db = (fail control t now task worker terminal db).1
    perform now requeues db = (requeue_expired control t now db).1

    unfoldable pub run : List Timed → t.Db → t.Db
    run [] db = db
    run (e ∷ es) db = run es (perform e.now e.event db)

    perform-IsKeyed :
        (now : ℕ) (e : Event) (db : t.Db)
        → IsKeyed control t db
        → IsKeyed control t (perform now e db)
    unfolding perform complete fail
    perform-IsKeyed now (starts task worker) db u = start-IsKeyed control t now task worker db u
    perform-IsKeyed now (heartbeats task worker) db u =
        heartbeat-IsKeyed control t now task worker db u
    perform-IsKeyed now (completes task worker) db u =
        finish-IsKeyed control t now task worker db u _
    perform-IsKeyed now (fails task worker terminal) db u =
        finish-IsKeyed control t now task worker db u _
    perform-IsKeyed now requeues db u = requeue_expired-IsKeyed control t now db u

    row-perform :
        (now : ℕ) (e : Event) (db : t.Db) (j : String)
        → IsKeyed control t db
        → row control t j (perform now e db) ≡ Option.map (act j now e) (row control t j db)
    unfolding perform complete fail
    row-perform now (starts task worker) db j u =
        ground (arith, row-start control t now task worker db u j)
    row-perform now (heartbeats task worker) db j u =
        ground (arith, row-heartbeat control t now task worker db u j)
    row-perform now (completes task worker) db j u =
        ground (arith, row-finish control t now task worker db u (λ s. completed) j)
    row-perform now (fails task worker terminal) db j u = ground (
      arith,
      row-finish control t now task worker db u
          (if terminal then (λ s. failed) else retry_status control) j,
    )
    row-perform now requeues db j u = ground (arith, requeue_expired-row control t now db j u)

    map-map :
        (j : String) (e : Timed) (es : List Timed) (o : Option JobRow)
        → Option.map (history j es) (Option.map (act j e.now e.event) o)
          ≡ Option.map (history j (e ∷ es)) o
    unfolding history transit
    map-map j e es none = refl
    map-map j e es (some r) = refl

    map-history_nil : (j : String) (o : Option JobRow) → o ≡ Option.map (history j []) o
    unfolding history
    map-history_nil j none = refl
    map-history_nil j (some r) = refl

    -- With ids as primary keys: the table refines the machines of its jobs: whatever the
    -- interleaving of workers and recovery scans, the row of a job is what the job's own machine
    -- makes of its first row, and ids stay unique.
    pub run-history :
        (es : List Timed) (db : t.Db) (j : String)
        → IsKeyed control t db
        → (row control t j (run es db) ≡ Option.map (history j es) (row control t j db))
          × IsKeyed control t (run es db)
    unfolding run
    run-history [] db j u = (map-history_nil j _, u)
    run-history (e ∷ es) db j u =
        let (rest, keyed) =
          run-history es (perform e.now e.event db) j (perform-IsKeyed e.now e.event db u) in
        (
          rest
              ∙ ap (Option.map (history j es)) (row-perform e.now e.event db j u)
              ∙ map-map j e es (row control t j db),
          keyed,
        )
