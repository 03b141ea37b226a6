-- ===== src/Auth/Limits.antt =====
-- src/excel_auditor/auth_limits.py: `LoginLimiter`, which counts the failures of a key in a window of time.
pub mod Guarantees
use Prim.Native.String.{◌++◌ as append}
use excelflow.Prelude.{
  ℕ, ◌+◌, Bool, true, false, List, Option, none, some, String, ltb, leb, max, str_eq, if◌then◌else◌,
}
use excelflow.Sql.{SqlTable, first, get}
use excelflow.Sql.Rows.{by_key}
use excelflow.Auth.{AuthRateLimitRow, Secrets, Redis, Backend, AuthDb}

-- the primary key of a row
abbrev pub key_of_limit : AuthRateLimitRow → String
key_of_limit r = r.key

module _ (secrets : Secrets) (backend : Backend) (seconds : ℕ) where
  -- `LoginLimiter.key`
  abbrev pub limit_key : String → String
  limit_key value = append "excel-auditor:login:" (secrets.sha256 value)

  -- `max(1, seconds)`
  abbrev pub window : ℕ
  window = max 1 seconds

  abbrev pub failures_of : Option AuthRateLimitRow → ℕ
  failures_of none = 0
  failures_of (some r) = r.failures

  abbrev pub is_open : ℕ → AuthRateLimitRow → Bool
  is_open now r = ltb now r.expires_at

  -- the count in the table
  unfoldable pub count_rows : String → ℕ → backend.limits.Db → ℕ
  count_rows key now db = failures_of (first key_of_limit backend.limits key (is_open now) db)

  abbrev or_zero : Option ℕ → ℕ
  or_zero none = 0
  or_zero (some n) = n

  unfoldable pub count : String → ℕ → AuthDb backend → ℕ
  count value now db =
      if backend.redis.is_configured
      then elim (backend.redis.get (limit_key value) db.store) [
        | none ↦ count_rows (limit_key value) now db.limits
        | some n ↦ or_zero n
      ]
      else count_rows (limit_key value) now db.limits

  -- the row that a conflict updates
  abbrev pub counted_up : ℕ → AuthRateLimitRow → AuthRateLimitRow
  counted_up now r =
      if leb r.expires_at now
      then record r { failures = 1; expires_at = now + window }
      else record r { failures = r.failures + 1 }

  -- the insert, or the update of the row that is in conflict
  abbrev pub upsert_row :
      Option AuthRateLimitRow → String → ℕ → backend.limits.Db → ℕ × backend.limits.Db
  upsert_row none key now db =
      (1, backend.limits.insert (record { key = key; failures = 1; expires_at = now + window }) db)
  upsert_row (some r) key now db = (
    (counted_up now r).failures,
    (backend.limits.update (by_key key_of_limit key (λ r. true)) (counted_up now) db).0,
  )

  -- `INSERT ... ON CONFLICT (key) DO UPDATE ... RETURNING failures`
  abbrev pub upsert : String → ℕ → backend.limits.Db → ℕ × backend.limits.Db
  upsert key now db = upsert_row (get key_of_limit backend.limits key db) key now db

  -- the transaction of `increment`
  unfoldable pub increment_rows : String → ℕ → backend.limits.Db → ℕ × backend.limits.Db
  increment_rows key now db = upsert key now (backend.limits.delete (λ r. leb r.expires_at now) db)

  abbrev pub increment_table : String → ℕ → AuthDb backend → ℕ × AuthDb backend
  increment_table value now db =
      let (failures, limits) = increment_rows (limit_key value) now db.limits in
      (failures, record db { limits = limits })

  unfoldable pub increment : String → ℕ → AuthDb backend → ℕ × AuthDb backend
  increment value now db =
      if backend.redis.is_configured
      then (let (result, store) = backend.redis.count_up (limit_key value) window db.store in
          elim result [
            | none ↦ increment_table value now (record db { store = store })
            | some n ↦ (n, record db { store = store })
          ])
      else increment_table value now db

  unfoldable pub clear : String → AuthDb backend → AuthDb backend
  clear value db = record db {
    store =
        if backend.redis.is_configured
        then backend.redis.delete (limit_key value) db.store
        else db.store;
    limits = backend.limits.delete (λ r. str_eq r.key (limit_key value)) db.limits;
  }
