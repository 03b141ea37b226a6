-- ===== src/Tests/Auth.antt =====
-- Logins of one account, on tables that are held in memory.
use excelflow.Prelude.{
  String, ◌≡◌, refl, ℕ, ◌+◌, true, false, [], ◌∷◌, none, some, str_eq, arith, find_by-none, is_some,
}
use excelflow.Sql.{cas, first, get}
use excelflow.Sql.Memory.{memory}
use excelflow.Auth.{
  UserRow, AuthSessionRow, AuthRateLimitRow, Secrets, Backend, AuthDb, normalize_username,
}
use excelflow.Auth.Limits.{count, count_rows, increment, increment_rows}
use excelflow.Auth.Limits.Guarantees.{IsInserting, increment_rows-counts}
use excelflow.Auth.Service.{
  reject_password, AuthService, AuthIdentity, SessionCredentials, login, accept_password,
}
use excelflow.Auth.Service.Guarantees.{IsAdmitted, login-IsAdmitted}
use excelflow.Auth.Service.Shutting.{Attempt, attempt, after}
use excelflow.Auth.Service.Locks.{login_locks}
use excelflow.Auth.Sessions.{validate_session, logout, active_session}
use excelflow.Auth.Sessions.Guarantees.{logout-ends}

abbrev secrets : Secrets
secrets = record {
  fold_name = λ t. t;
  verify_password = λ password hash. str_eq password hash;
  sha256 = λ t. t;
  hmac_csrf = λ t. t;
}

abbrev backend : Backend
backend = record {
  users = memory UserRow;
  sessions = memory AuthSessionRow;
  limits = memory AuthRateLimitRow;
  redis = record {
    Store = ℕ;
    is_configured = false;
    get = λ key store. none;
    count_up = λ key seconds store. (none, store);
    delete = λ key store. store;
  };
  tenant_status = λ id. some "active";
}

abbrev service : AuthService
service = record { session_ttl = 100; max_failures = 1; lock_seconds = 300; ip_max = none }

abbrev bob : UserRow
bob = record {
  id = "u";
  tenant_id = "t";
  username = "bob";
  username_normalized = "bob";
  password_hash = "right";
  role = "viewer";
  status = "active";
  failed_login_count = 0;
  locked_until = none;
  last_login_at = none;
}

abbrev db : AuthDb backend
db = record { users = bob ∷ []; sessions = []; limits = []; store = 0; events = [] }

memory-IsInserting : IsInserting (memory AuthRateLimitRow)
memory-IsInserting = record {
  find-insert = λ p r rows none_there. ground (arith, find_by-none p rows none_there);
}

increment_rows-counts_example :
    ((increment_rows secrets backend 300 "k" 10 []).0
      ≡ count_rows secrets backend 300 "k" 10 [] + 1)
    × (count_rows secrets backend 300 "k" 10 (increment_rows secrets backend 300 "k" 10 []).1
        ≡ (increment_rows secrets backend 300 "k" 10 []).0)
increment_rows-counts_example =
    increment_rows-counts secrets backend 300 "k" 10 memory-IsInserting [] tt

abbrev bobs_identity : AuthIdentity
bobs_identity = record {
  session_id = "s";
  user_id = "u";
  tenant_id = "t";
  username = "bob";
  role = "viewer";
  csrf_token = "token";
  expires_at = 110;
}

abbrev bobs_credentials : SessionCredentials
bobs_credentials = record {
  session_id = "s";
  token = "token";
  csrf_token = "token";
  expires_at = 110;
}

bob_enters :
    (login secrets backend service "t" "" 10 "bob" "right" "token" "s" db).0
    ≡ some (bobs_identity, bobs_credentials)
unfolding login accept_password normalize_username count count_rows first
bob_enters = refl

login-IsAdmitted_example :
    IsAdmitted secrets backend service "t" "" 10 "bob" "right" db bobs_identity
login-IsAdmitted_example =
    login-IsAdmitted secrets backend service "t" "" 10 "right" "token" "s" "bob" db bobs_identity
      bobs_credentials bob_enters

-- a login as bob with this password
abbrev as_bob : String → ℕ → Attempt secrets backend service
as_bob password now = record {
  tenant = "t";
  ip = "";
  now = now;
  username = "bob";
  password = password;
  token = "token";
  session_id = "s";
}

login_locks_example :
    (attempt secrets backend service (as_bob "right" 300) (
      after secrets backend service
        (as_bob "right" 20 ∷ [])
        (attempt secrets backend service (as_bob "wrong" 10) db).1)).0
    ≡ none
unfolding normalize_username login reject_password count count_rows first increment increment_rows
    get cas
login_locks_example =
    login_locks secrets backend service (as_bob "wrong" 10) bob db refl refl refl refl refl refl
      (as_bob "right" 20 ∷ []) (omega arith, tt) (as_bob "right" 300) (omega arith)
      (record bob { failed_login_count = 1; locked_until = some 310 }) refl refl

abbrev inside : AuthDb backend
inside = record db {
  sessions =
      record {
        id = "s";
        user_id = "u";
        token_hash = "token";
        csrf_hash = "token";
        created_at = 10;
        expires_at = 110;
        revoked_at = none;
      }
      ∷ [];
}

logout-ends_example :
    validate_session secrets backend "token" 30 (logout secrets backend "token" 20 inside) ≡ none
logout-ends_example = logout-ends secrets backend "token" 20 30 inside (tt, tt) (omega arith)

-- Before the logout the token was valid.
bob_is_inside : is_some (validate_session secrets backend "token" 20 inside) ≡ true
unfolding validate_session active_session get first
bob_is_inside = refl
