-- ===== src/Worker/Requeue.antt =====
-- The loop of `requeue_expired`: every expired job is requeued or failed, no other job is touched.
use excelflow.Prelude.{
  ℕ, ◌≡◌, refl, true, Option, none, some, List, [], ◌∷◌, String, arith, eq_iff, str_eq, All,
  filter_by, ◌∙◌, if◌then◌else◌,
}
use excelflow.Sql.{SqlTable, lookup-cas, rowcount-cas, HasPrimaryKey-cas}
use excelflow.Sql.Rows.{
  revise, find_key, Absent, UniqueKeys, UniqueKeys-filter, filter-IsLocated, find-filter,
  find-Absent,
}
use excelflow.Worker.{
  JobRow, WorkerControl, expired, clear_lease, close, retry_status, requeue, requeue_all,
  requeue_expired,
}
use excelflow.Worker.Effects.{row, IsKeyed}

module _ (control : WorkerControl) (t : SqlTable JobRow) (now : ℕ) where
  requeue-row :
      (read : JobRow) (db : t.Db) (j : String)
      → row control t j (requeue control t now read db).1 ≡ (
          if str_eq j read.id
          then revise (expired now) (clear_lease (retry_status control read)) (row control t j db)
          else row control t j db)
  unfolding requeue
  requeue-row read db j =
      lookup-cas JobRow.id t read.id (expired now) (clear_lease (retry_status control read)) db
        (λ r. refl) j

  -- What the loop has read of each job, and what it makes of it.
  abbrev settle : Option JobRow → Option JobRow → Option JobRow
  settle none old = old
  settle (some r) old = some (close (retry_status control) r)

  -- a row as it was read, still unchanged and expired
  abbrev IsCurrent : t.Db → JobRow → Type 0
  IsCurrent db r = (row control t r.id db ≡ some r) × (expired now r ≡ true)

  requeue-IsCurrent :
      (read : JobRow) (db : t.Db) (rs : List JobRow)
      → Absent JobRow.id read.id rs
      → All (IsCurrent db) rs
      → All (IsCurrent (requeue control t now read db).1) rs
  requeue-IsCurrent read db [] a c = tt
  requeue-IsCurrent read db (r ∷ rs) a c =
      ground (arith, requeue-row read db r.id, requeue-IsCurrent read db rs a.1 c.1)

  requeue_all-row :
      (rs : List JobRow) (db : t.Db) (j : String)
      → UniqueKeys JobRow.id rs
      → All (IsCurrent db) rs
      → row control t j (requeue_all control t now rs db).1
        ≡ settle (find_key JobRow.id j rs) (row control t j db)
  unfolding requeue_all
  requeue_all-row [] db j u c = refl
  requeue_all-row (r ∷ rs) db j u c = ground (
    arith,
    requeue-row r db j,
    eq_iff j r.id,
    eq_iff r.id j,
    find-Absent JobRow.id r.id rs u.0,
    requeue-IsCurrent r db rs u.0 c.1,
    requeue_all-row rs (requeue control t now r db).1 j u.1,
  )

  settle-found :
      (db : t.Db) (j : String)
      → IsKeyed control t db
      → settle (find_key JobRow.id j (filter_by (expired now) (t.rows db))) (row control t j db)
        ≡ revise (expired now) (close (retry_status control)) (row control t j db)
  settle-found db j u = ground (arith, find-filter JobRow.id j (expired now) (t.rows db) u)

  -- With ids as primary keys: an expired job is requeued, or failed once its attempts are used up;
  -- any other job stays.
  pub requeue_expired-row :
      (db : t.Db) (j : String)
      → IsKeyed control t db
      → row control t j (requeue_expired control t now db).1
        ≡ revise (expired now) (close (retry_status control)) (row control t j db)
  unfolding requeue_expired
  requeue_expired-row db j u = rw (t.select_lem) (
      requeue_all-row (filter_by (expired now) (t.rows db)) db j
        (UniqueKeys-filter JobRow.id (expired now) (t.rows db) u)
        (filter-IsLocated JobRow.id (expired now) (t.rows db) u)
      ∙ settle-found db j u)

  requeue_all-IsKeyed :
      (rs : List JobRow) (db : t.Db)
      → IsKeyed control t db
      → IsKeyed control t (requeue_all control t now rs db).1
  unfolding requeue_all requeue
  requeue_all-IsKeyed [] db u = u
  requeue_all-IsKeyed (r ∷ rs) db u = requeue_all-IsKeyed rs (requeue control t now r db).1 (
      HasPrimaryKey-cas JobRow.id t r.id (expired now) (clear_lease (retry_status control r)) db
        (λ s. refl) u)

  pub requeue_expired-IsKeyed :
      (db : t.Db) → IsKeyed control t db → IsKeyed control t (requeue_expired control t now db).1
  unfolding requeue_expired
  requeue_expired-IsKeyed db u = requeue_all-IsKeyed (t.select (expired now) db) db u

  -- The ids that the loop reports.
  abbrev pub ids_of : List JobRow → List String
  ids_of [] = []
  ids_of (r ∷ rs) = r.id ∷ ids_of rs

  requeue_all-ids :
      (rs : List JobRow) (db : t.Db)
      → IsKeyed control t db
      → UniqueKeys JobRow.id rs
      → All (IsCurrent db) rs
      → (requeue_all control t now rs db).0 ≡ ids_of rs
  unfolding requeue_all requeue
  requeue_all-ids [] db k u c = refl
  requeue_all-ids (r ∷ rs) db k u c = ground (
    arith,
    rowcount-cas JobRow.id t r.id (expired now) (clear_lease (retry_status control r)) db k,
    requeue-IsCurrent r db rs u.0 c.1,
    requeue_all-ids rs (requeue control t now r db).1
        (HasPrimaryKey-cas JobRow.id t r.id (expired now) (clear_lease (retry_status control r)) db
          (λ s. refl) k)
        u.1,
  )

  -- With ids as primary keys: the call reports exactly the jobs whose lease had run out.
  pub requeue_expired-ids :
      (db : t.Db)
      → IsKeyed control t db
      → (requeue_expired control t now db).0 ≡ ids_of (filter_by (expired now) (t.rows db))
  unfolding requeue_expired
  requeue_expired-ids db u = rw (t.select_lem) (
      requeue_all-ids (filter_by (expired now) (t.rows db)) db u
        (UniqueKeys-filter JobRow.id (expired now) (t.rows db) u)
        (filter-IsLocated JobRow.id (expired now) (t.rows db) u))
