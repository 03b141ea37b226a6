-- ===== src/Worker.antt =====
-- src/excel_auditor/worker_control.py: the compare-and-set transitions of comparison jobs, over the
-- columns of `ComparisonJobRow` (persistence.py) that they read or write. Times are numbers of
-- seconds. An exception inside `session.begin()` rolls the transaction back: the error results
-- carry the contents from before the call.
pub mod Effects
pub mod Requeue
pub mod Machine
pub mod Lifecycle
pub mod Leases
use excelflow.Prelude.{
  ℕ, ◌+◌, max, Bool, true, false, ◌&&◌, List, [], ◌∷◌, Option, none, some, String, ltb, leb, str_eq,
  holds, ◌==◌, if◌then◌else◌,
}
use excelflow.Sql.{SqlTable, get, cas}

pub data Status : Type 0 where
  queued running completed failed : Status
  other : String → Status

abbrev pub is_queued : Status → Bool
is_queued queued = true
is_queued _ = false

abbrev pub is_running : Status → Bool
is_running running = true
is_running _ = false

pub record JobRow : Type 0 where
  pub id : String
  pub status : Status
  pub attempt : ℕ
  pub worker_id : Option String
  pub lease_expires_at : Option ℕ

pub record WorkerControl : Type 0 where
  pub lease_seconds : ℕ
  pub max_attempts : ℕ

unfoldable pub worker_control : ℕ → ℕ → WorkerControl
worker_control lease_seconds max_attempts = record {
  lease_seconds = max 5 lease_seconds;
  max_attempts = max 1 max_attempts;
}

pub record Payload : Type 0 where
  pub job_id : String
  pub status : Status
  pub attempt : ℕ
  pub worker_id : Option String
  pub lease_expires_at : Option ℕ

unfoldable pub payload : JobRow → Payload
payload r = record {
  job_id = r.id;
  status = r.status;
  attempt = r.attempt;
  worker_id = r.worker_id;
  lease_expires_at = r.lease_expires_at;
}

pub data Result {ℓ} (A : Type ℓ) : Type ℓ where
  ok : A → Result A
  file_not_found value_error : Result A

-- A comparison with NULL holds of no row.
abbrev pub after : ℕ → Option ℕ → Bool
after now lease = holds (λ t. ltb now t) lease

abbrev pub before : ℕ → Option ℕ → Bool
before now lease = holds (λ t. ltb t now) lease

abbrev pub is_worker : String → Option String → Bool
is_worker worker owner = holds (λ w. str_eq w worker) owner

-- `status == "running"`, the worker's own row, and a lease that still runs
abbrev pub held_by : String → ℕ → JobRow → Bool
held_by worker now r =
    is_running r.status && (is_worker worker r.worker_id && after now r.lease_expires_at)

abbrev pub expired : ℕ → JobRow → Bool
expired now r = is_running r.status && before now r.lease_expires_at

abbrev pub clear_lease : Status → JobRow → JobRow
clear_lease status r = record r { status = status; worker_id = none; lease_expires_at = none }

abbrev pub close : (JobRow → Status) → JobRow → JobRow
close target r = clear_lease (target r) r

module _ (control : WorkerControl) where
  abbrev pub runnable : JobRow → Bool
  runnable r = is_queued r.status && ltb r.attempt control.max_attempts

  abbrev pub take_lease : ℕ → String → JobRow → JobRow
  take_lease now worker r = record r {
    status = running;
    attempt = r.attempt + 1;
    worker_id = some worker;
    lease_expires_at = some (now + control.lease_seconds);
  }

  abbrev pub renew : ℕ → JobRow → JobRow
  renew now r = record r { lease_expires_at = some (now + control.lease_seconds) }

  -- the target of a failure, a CASE over the row's own attempts
  abbrev pub retry_status : JobRow → Status
  retry_status r = if leb control.max_attempts r.attempt then failed else queued

  module _ (t : SqlTable JobRow) where
    -- an UPDATE of one job
    abbrev pub set : String → (JobRow → Bool) → (JobRow → JobRow) → t.Db → t.Db × ℕ
    set = cas JobRow.id t

    pub start : ℕ → String → String → t.Db → Result Payload × t.Db
    start now task worker db =
        let (db', changed) = set task runnable (take_lease now worker) db in
        elim (get JobRow.id t task db') [
          | none ↦ (file_not_found, db)
          | some row ↦ if changed == 1 then (ok (payload row), db') else (value_error, db)
        ]

    pub heartbeat : ℕ → String → String → t.Db → Bool × t.Db
    heartbeat now task worker db =
        let (db', changed) = set task (held_by worker now) (renew now) db in (changed == 1, db')

    pub finish : ℕ → String → String → (JobRow → Status) → t.Db → Bool × t.Db
    finish now task worker target db =
        let (db', changed) = set task (held_by worker now) (close target) db in (changed == 1, db')

    pub complete : ℕ → String → String → t.Db → Bool × t.Db
    complete now task worker db = finish now task worker (λ r. completed) db

    pub fail : ℕ → String → String → Bool → t.Db → Bool × t.Db
    fail now task worker terminal db =
        finish now task worker (if terminal then (λ r. failed) else retry_status) db

    -- One round of the loop of `requeue_expired`; `row` is the row as it was read.
    pub requeue : ℕ → JobRow → t.Db → Bool × t.Db
    requeue now row db =
        let (db', changed) = set row.id (expired now) (clear_lease (retry_status row)) db in
        (ltb 0 changed, db')

    pub requeue_all : ℕ → List JobRow → t.Db → List String × t.Db
    requeue_all now [] db = ([], db)
    requeue_all now (row ∷ rest) db =
        let (changed, db') = requeue now row db in
        let (ids, db'') = requeue_all now rest db' in (if changed then row.id ∷ ids else ids, db'')

    pub requeue_expired : ℕ → t.Db → List String × t.Db
    requeue_expired now db = requeue_all now (t.select (expired now) db) db
