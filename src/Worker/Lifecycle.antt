-- ===== src/Worker/Lifecycle.antt =====
-- Every job's row stays well formed, ends once, and is started a bounded number of times.
use excelflow.Prelude.{
  ℕ, suc, ◌+◌, ◌≤◌, ◌≡◌, refl, ap, ◌∙◌, ◌⊎◌, Bool, false, some, List, [], ◌∷◌, String, arith,
  str_eq, ◌&&◌, is_some, if◌then◌else◌,
}
use excelflow.Sql.{SqlTable}
use excelflow.Worker.{completed, failed, JobRow, WorkerControl, is_running, runnable}
use excelflow.Worker.Effects.{row, IsKeyed}
use excelflow.Worker.Machine.{Event, starts, Timed, transit, history, run, run-history}
use mathlib.Core.Option

-- A lease and an owner exactly while the job runs, and no more attempts than allowed.
pub record IsSound (control : WorkerControl) (r : JobRow) : Type 0 where
  pub leased : is_some r.lease_expires_at ≡ is_running r.status
  pub owned : is_some r.worker_id ≡ is_running r.status
  pub capped : r.attempt ≤ control.max_attempts

abbrev pub IsTerminal : JobRow → Type 0
IsTerminal r = (r.status ≡ completed) ⊎ (r.status ≡ failed)

-- a start of job `j` that finds the job runnable
abbrev claims : WorkerControl → String → Event → JobRow → Bool
claims control j (starts task worker) r = str_eq j task && runnable control r
claims control j _ r = false

module _ (control : WorkerControl) (j : String) where
  transit-IsSound :
      (e : Timed) (r : JobRow) → IsSound control r → IsSound control (transit control j e r)
  unfolding transit
  transit-IsSound e r v = ground arith

  transit-IsTerminal : (e : Timed) (r : JobRow) → IsTerminal r → transit control j e r ≡ r
  unfolding transit
  transit-IsTerminal e r h = ground arith

  -- how many starts of the job succeed
  pub started : List Timed → JobRow → ℕ
  started [] r = 0
  started (e ∷ es) r =
      let rest = started es (transit control j e r) in
      if claims control j e.event r then suc rest else rest

  attempt-transit :
      (e : Timed) (r : JobRow)
      → (transit control j e r).attempt
        ≡ (if claims control j e.event r then suc r.attempt else r.attempt)
  unfolding transit
  attempt-transit e r = ground arith

  history-IsSound :
      (es : List Timed) (r : JobRow) → IsSound control r → IsSound control (history control j es r)
  unfolding history
  history-IsSound [] r v = v
  history-IsSound (e ∷ es) r v = history-IsSound es (transit control j e r) (transit-IsSound e r v)

  history-IsTerminal : (es : List Timed) (r : JobRow) → IsTerminal r → history control j es r ≡ r
  unfolding history
  history-IsTerminal [] r h = refl
  history-IsTerminal (e ∷ es) r h =
      ap (history control j es) (transit-IsTerminal e r h) ∙ history-IsTerminal es r h

  attempt-history :
      (es : List Timed) (r : JobRow) → (history control j es r).attempt ≡ r.attempt + started es r
  unfolding history started
  attempt-history [] r = omega arith
  attempt-history (e ∷ es) r =
      ground (arith, attempt-transit e r, attempt-history es (transit control j e r))

module _ (control : WorkerControl) (t : SqlTable JobRow) (db : t.Db) (key : IsKeyed control t db)
    (j : String) {r : JobRow} (found : row control t j db ≡ some r) where
  row-run :
      (es : List Timed) → row control t j (run control t es db) ≡ some (history control j es r)
  row-run es = (run-history control t es db j key).0 ∙ ap (Option.map (history control j es)) found

  -- With ids as primary keys: a job that has a lease and an owner exactly if it runs, and no more
  -- attempts than the limit, keeps to this through any interleaving.
  pub run-IsSound :
      (es : List Timed)
      → IsSound control r
      → (s : JobRow) × (row control t j (run control t es db) ≡ some s) × IsSound control s
  run-IsSound es v = (history control j es r, row-run es, history-IsSound control j es r v)

  -- With ids as primary keys: a job that is completed or failed is never changed again.
  pub run-IsTerminal :
      (es : List Timed) → IsTerminal r → row control t j (run control t es db) ≡ some r
  run-IsTerminal es h = row-run es ∙ ap some (history-IsTerminal control j es r h)

  -- With ids as primary keys, and from a row that is well formed: the successful starts of a job,
  -- those before included, are at most `max_attempts`.
  pub started-le :
      (es : List Timed)
      → IsSound control r
      → r.attempt + started control j es r ≤ control.max_attempts
  started-le es v =
      omega (arith, attempt-history control j es r, (history-IsSound control j es r v).capped)
