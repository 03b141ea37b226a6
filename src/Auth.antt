-- ===== src/Auth.antt =====
-- src/excel_auditor/persistence.py and auth_models.py: the tables of the accounts and their sessions, and
-- what the authentication takes from other libraries.
pub mod Limits
pub mod Service
pub mod Sessions
use Prim.Native.String.{count}
use excelflow.Prelude.{
  ℕ, ◌==◌, ◌||◌, Bool, true, false, List, Option, none, some, String, ltb, if◌then◌else◌,
}
use excelflow.Sql.{SqlTable}

-- A row of `auth_users`, the columns that are read or written.
pub record UserRow : Type 0 where
  pub id : String
  pub tenant_id : String
  pub username : String
  pub username_normalized : String
  pub password_hash : String
  pub role : String
  pub status : String
  pub failed_login_count : ℕ
  pub locked_until : Option ℕ
  pub last_login_at : Option ℕ

-- A row of `auth_sessions`, without `last_seen_at`, which nothing reads.
pub record AuthSessionRow : Type 0 where
  pub id : String
  pub user_id : String
  pub token_hash : String
  pub csrf_hash : String
  pub created_at : ℕ
  pub expires_at : ℕ
  pub revoked_at : Option ℕ

-- A row of `auth_rate_limits`.
pub record AuthRateLimitRow : Type 0 where
  pub key : String
  pub failures : ℕ
  pub expires_at : ℕ

-- A call of `record_auth_event`; its time and identifier are left out.
pub record AuthEvent : Type 0 where
  pub action : String
  pub tenant_id : Option String
  pub user_id : Option String
  pub detail : String

-- What the package takes from str, argon2, hashlib and hmac.
pub record Secrets : Type 0 where
  -- `" ".join(value.strip().split()).casefold()`
  pub fold_name : String → String
  -- `PASSWORD_HASHER.verify`, an exception as false
  pub verify_password : String → String → Bool
  pub sha256 : String → String
  pub hmac_csrf : String → String

-- A client of redis, if one is configured; `none` is a RedisError.
pub record Redis : Type 1 where
  pub Store : Type 0
  pub is_configured : Bool
  pub get : String → Store → Option (Option ℕ)
  -- the script that counts a key and lets it expire: its result, and the store
  pub count_up : String → ℕ → Store → Option ℕ × Store
  pub delete : String → Store → Store

-- `normalize_username`; `none` is the ValueError
unfoldable pub normalize_username : Secrets → String → Option String
normalize_username secrets value =
    let normalized = secrets.fold_name value in
    if count normalized == 0 || ltb 200 (count normalized) then none else some normalized

-- the database engine's tables, and redis
pub record Backend : Type 1 where
  pub users : SqlTable UserRow
  pub sessions : SqlTable AuthSessionRow
  pub limits : SqlTable AuthRateLimitRow
  pub redis : Redis
  -- `session.get(TenantRow, id)`: the status of a tenant
  pub tenant_status : String → Option String

pub record AuthDb (backend : Backend) : Type 0 where
  pub users : backend.users.Db
  pub sessions : backend.sessions.Db
  pub limits : backend.limits.Db
  pub store : backend.redis.Store
  pub events : List AuthEvent
