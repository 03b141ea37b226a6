-- ===== src/Tests/Worker.antt =====
-- Runs of worker_control.py on a table with one running and one queued job.
use excelflow.Prelude.{◌≡◌, refl, List, [], ◌∷◌, none, some, arith}
use excelflow.Sql.Memory.{memory}
use excelflow.Worker.{
  queued, running, completed, JobRow, WorkerControl, Payload, payload, take_lease,
}
use excelflow.Worker.Effects.{row, IsKeyed}
use excelflow.Worker.Machine.{starts, completes, requeues, Timed, history, run, run-history}
use excelflow.Worker.Leases.{IsHeld, lease_exclusive}
use excelflow.Worker.Lifecycle.{IsSound, run-IsSound}
use mathlib.Core.Option

abbrev control : WorkerControl
control = record { lease_seconds = 60; max_attempts = 3 }

abbrev held : JobRow
held = record {
  id = "a";
  status = running;
  attempt = 1;
  worker_id = some "w";
  lease_expires_at = some 100;
}

abbrev waiting : JobRow
waiting = record {
  id = "b";
  status = queued;
  attempt = 0;
  worker_id = none;
  lease_expires_at = none;
}

abbrev done : JobRow
done = record {
  id = "c";
  status = completed;
  attempt = 1;
  worker_id = none;
  lease_expires_at = none;
}

abbrev jobs : List JobRow
jobs = held ∷ waiting ∷ done ∷ []

abbrev events : List Timed
events =
    record { now = 50; event = starts "a" "v" }
    ∷ record { now = 60; event = completes "a" "v" }
    ∷ record { now = 70; event = requeues }
    ∷ record { now = 80; event = starts "b" "v" }
    ∷ []

jobs-IsKeyed : IsKeyed control (memory JobRow) jobs
jobs-IsKeyed = ((refl, (refl, tt)), ((refl, tt), (tt, tt)))

run-history_example :
    (row control (memory JobRow) "b" (run control (memory JobRow) events jobs)
      ≡ Option.map (history control "b" events) (row control (memory JobRow) "b" jobs))
    × IsKeyed control (memory JobRow) (run control (memory JobRow) events jobs)
run-history_example = run-history control (memory JobRow) events jobs "b" jobs-IsKeyed

held-IsHeld : IsHeld "w" 100 held
held-IsHeld = record { is_running = refl; owner = refl; lease = refl }

lease_exclusive_example :
    row control (memory JobRow) "a" (run control (memory JobRow) events jobs) ≡ some held
lease_exclusive_example =
    lease_exclusive control (memory JobRow) jobs jobs-IsKeyed "a" "w" refl 100 events held-IsHeld
      ((omega arith, refl), ((omega arith, refl), ((omega arith, refl), ((omega arith, refl), tt))))

abbrev taken : Payload
taken = payload (take_lease control 50 "w" waiting)

run-IsSound_example :
    (s : JobRow) × (row control (memory JobRow) "a" (run control (memory JobRow) events jobs)
      ≡ some s)
    × IsSound control s
run-IsSound_example =
    run-IsSound control (memory JobRow) jobs jobs-IsKeyed "a" refl events
      (record { leased = refl; owned = refl; capped = omega arith })
