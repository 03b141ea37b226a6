-- ===== src/Auth/Service.antt =====
-- src/excel_auditor/auth_service.py, with the queries of src/excel_auditor/persistence.py that it calls: the
-- login, the sessions and the logout of accounts.
pub mod Guarantees
pub mod Shutting
pub mod Locks
use Prim.Native.String.{◌++◌ as append}
use excelflow.Prelude.{
  ℕ, ◌+◌, ◌*◌, Bool, true, false, ◌&&◌, ◌||◌, not, List, [], ◌∷◌, ◌++◌, Option, none, some, String,
  str_eq, ltb, leb, max, is_some, holds, find_by, if◌then◌else◌,
}
use excelflow.Sql.{SqlTable, first, get, cas}
use excelflow.Auth.{
  UserRow, AuthSessionRow, AuthEvent, Secrets, Backend, AuthDb, normalize_username,
}
use excelflow.Auth.Limits.{count, increment, clear}

abbrev pub id_of_user : UserRow → String
id_of_user r = r.id

abbrev pub id_of_session : AuthSessionRow → String
id_of_session r = r.id

pub record AuthIdentity : Type 0 where
  pub session_id : String
  pub user_id : String
  pub tenant_id : String
  pub username : String
  pub role : String
  pub csrf_token : String
  pub expires_at : ℕ

pub record SessionCredentials : Type 0 where
  pub session_id : String
  pub token : String
  pub csrf_token : String
  pub expires_at : ℕ

-- `AuthService.__init__`
pub record AuthService : Type 0 where
  pub session_ttl : ℕ
  pub max_failures : ℕ
  pub lock_seconds : ℕ
  pub ip_max : Option ℕ

-- `ip_max_failures or max(25, max_failures * 5)`
abbrev pub ip_max_failures : AuthService → ℕ
ip_max_failures service = elim service.ip_max [
  | none ↦ max 25 (service.max_failures * 5)
  | some ℕ.zero ↦ max 25 (service.max_failures * 5)
  | some (ℕ.suc n) ↦ ℕ.suc n
]

module _ (secrets : Secrets) (backend : Backend) (service : AuthService) where
  open secrets use {verify_password, sha256, hmac_csrf}

  abbrev pub is_active : UserRow → Bool
  is_active user = str_eq user.status "active"

  -- `user.locked_until is not None and user.locked_until > now`
  abbrev pub is_locked : ℕ → UserRow → Bool
  is_locked now user = holds (λ until. ltb now until) user.locked_until

  abbrev pub is_named : String → String → UserRow → Bool
  is_named tenant name user = str_eq user.tenant_id tenant && str_eq user.username_normalized name

  -- `get_user_by_username`, which normalises again
  abbrev pub get_user_by_username : String → String → AuthDb backend → Option UserRow
  get_user_by_username tenant username db = elim (normalize_username secrets username) [
    | none ↦ none
    | some name ↦ find_by (λ r. true) (backend.users.select (is_named tenant name) db.users)
  ]

  -- The user of a login; a ValueError means none.
  abbrev pub user_of : String → String → AuthDb backend → Option UserRow
  user_of tenant username db = elim (normalize_username secrets username) [
    | none ↦ none
    | some name ↦ get_user_by_username tenant name db
  ]

  -- `record_auth_event`
  abbrev record_event : String → String → Option String → String → AuthDb backend → AuthDb backend
  record_event action tenant user detail db = record db {
    events =
        db.events
        ++ record { action = action; tenant_id = some tenant; user_id = user; detail = detail }
          ∷ [];
  }

  abbrev pub account_key : String → UserRow → String
  account_key tenant user = append "account:" (append tenant (append ":" user.id))

  abbrev pub ip_key : String → String → String
  ip_key tenant ip =
      append "source:" (append tenant (append ":" (if str_eq ip "" then "unknown" else sha256 ip)))

  -- `update_login_failure`
  abbrev pub failed : ℕ → Option ℕ → UserRow → UserRow
  failed failures locked_until user = elim locked_until [
    | none ↦ record user { failed_login_count = failures }
    | some until ↦ record user { failed_login_count = failures; locked_until = some until }
  ]

  abbrev pub update_login_failure : String → ℕ → Option ℕ → AuthDb backend → AuthDb backend
  update_login_failure id failures locked_until db = record db {
    users = (cas id_of_user backend.users id (λ r. true) (failed failures locked_until) db.users).0;
  }

  -- `mark_login_success`
  abbrev pub logged_in : ℕ → UserRow → UserRow
  logged_in now user = record user {
    failed_login_count = 0;
    locked_until = none;
    last_login_at = some now;
  }

  abbrev mark_login_success : String → ℕ → AuthDb backend → AuthDb backend
  mark_login_success id now db = record db {
    users = (cas id_of_user backend.users id (λ r. true) (logged_in now) db.users).0;
  }

  module _ (tenant : String) (ip : String) (now : ℕ) where
    abbrev pub limiter_increment : String → AuthDb backend → ℕ × AuthDb backend
    limiter_increment value db = increment secrets backend service.lock_seconds value now db

    -- The branch of a password that does not verify.
    unfoldable pub reject_password : UserRow → AuthDb backend → AuthDb backend
    reject_password user db =
        let (by_source, db1) = limiter_increment (ip_key tenant ip) db in
        let (failures, db2) = limiter_increment (account_key tenant user) db1 in
        record_event "login_failed" tenant (some user.id) "invalid_credentials" (
          update_login_failure user.id failures
            (if leb service.max_failures failures then some (now + service.lock_seconds) else none)
            db2)

    abbrev pub identity_of : UserRow → String → String → AuthIdentity
    identity_of user session_id csrf = record {
      session_id = session_id;
      user_id = user.id;
      tenant_id = user.tenant_id;
      username = user.username;
      role = user.role;
      csrf_token = csrf;
      expires_at = now + service.session_ttl;
    }

    -- The branch of a password that verifies, with the token and the session's identifier that are drawn.
    unfoldable pub accept_password :
        String
        → String
        → UserRow
        → AuthDb backend
        → Option (AuthIdentity × SessionCredentials) × AuthDb backend
    accept_password token session_id user db =
        let db1 =
          mark_login_success user.id now
            (clear secrets backend service.lock_seconds (account_key tenant user) db) in
        let csrf = hmac_csrf token in
        let session : AuthSessionRow = record {
          id = session_id;
          user_id = user.id;
          token_hash = sha256 token;
          csrf_hash = sha256 csrf;
          created_at = now;
          expires_at = now + service.session_ttl;
          revoked_at = none;
        } in
        (
          some (
            identity_of user session_id csrf,
            record {
              session_id = session_id;
              token = token;
              csrf_token = csrf;
              expires_at = now + service.session_ttl;
            },
          ),
          record_event "login_succeeded" user.tenant_id (some user.id) session_id
              (record db1 { sessions = backend.sessions.insert session db1.sessions }),
        )

    -- A login of a user that was found and is active.
    abbrev pub try_password :
        String
        → String
        → String
        → UserRow
        → AuthDb backend
        → Option (AuthIdentity × SessionCredentials) × AuthDb backend
    try_password password token session_id user db =
        if is_locked now user
        then (none, record_event "login_failed" tenant (some user.id) "locked" db)
        else if not (verify_password password user.password_hash)
        then (none, reject_password user db)
        else accept_password token session_id user db

    abbrev reject_unknown : AuthDb backend → AuthDb backend
    reject_unknown db =
        record_event "login_failed" tenant none "invalid_credentials"
          (limiter_increment (ip_key tenant ip) db).1

    abbrev id_of_found : Option UserRow → Option String
    id_of_found none = none
    id_of_found (some user) = some user.id

    abbrev pub login_as :
        String
        → String
        → String
        → Option UserRow
        → AuthDb backend
        → Option (AuthIdentity × SessionCredentials) × AuthDb backend
    login_as password token session_id found db =
        if leb (ip_max_failures service)
          (count secrets backend service.lock_seconds (ip_key tenant ip) now db)
        then (none, record_event "login_failed" tenant (id_of_found found) "rate_limited" db)
        else elim found [
          | none ↦ (none, reject_unknown db)
          | some user ↦
              if is_active user
              then try_password password token session_id user db
              else (none, reject_unknown db)
        ]

    -- `login`; `none` is the AuthenticationError
    unfoldable pub login :
        String
        → String
        → String
        → String
        → AuthDb backend
        → Option (AuthIdentity × SessionCredentials) × AuthDb backend
    login username password token session_id db =
        login_as password token session_id (user_of tenant username db) db
