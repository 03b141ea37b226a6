-- ===== src/Auth/Sessions.antt =====
-- src/excel_auditor/auth_service.py, with the queries of src/excel_auditor/persistence.py that it calls: the
-- sessions after a login.
pub mod Guarantees
use excelflow.Prelude.{
  ℕ, Bool, true, false, ◌&&◌, ◌||◌, not, List, [], ◌∷◌, ◌++◌, Option, none, some, String, str_eq,
  ltb, length, is_some, holds, find_by, if◌then◌else◌,
}
use excelflow.Sql.{SqlTable, get, cas}
use excelflow.Auth.{UserRow, AuthSessionRow, AuthEvent, Secrets, Backend, AuthDb}
use excelflow.Auth.Service.{AuthIdentity, id_of_user, id_of_session}

module _ (secrets : Secrets) (backend : Backend) where
  open secrets use {sha256, hmac_csrf}

  -- `revoked_at IS NULL AND expires_at > now`
  abbrev pub is_live : ℕ → AuthSessionRow → Bool
  is_live now r = not (is_some r.revoked_at) && ltb now r.expires_at

  abbrev pub has_token : String → ℕ → AuthSessionRow → Bool
  has_token token_hash now r = str_eq r.token_hash token_hash && is_live now r

  abbrev is_active_tenant : String → Bool
  is_active_tenant id = holds (λ status. str_eq status "active") (backend.tenant_status id)

  -- the session with its user, where that and its tenant are active
  abbrev pub with_user :
      Option AuthSessionRow → backend.users.Db → Option (AuthSessionRow × UserRow)
  with_user none users = none
  with_user (some r) users = elim (get id_of_user backend.users r.user_id users) [
    | none ↦ none
    | some user ↦
        if str_eq user.status "active" && is_active_tenant user.tenant_id
        then some (r, user)
        else none
  ]

  -- `get_active_auth_session`, with the user that it has read
  unfoldable pub active_session : String → ℕ → AuthDb backend → Option (AuthSessionRow × UserRow)
  active_session token_hash now db =
      with_user
        (find_by (λ r. true) (backend.sessions.select (has_token token_hash now) db.sessions))
        db.users

  -- `validate_session`; the user is read again, of the same table.
  unfoldable pub validate_session : String → ℕ → AuthDb backend → Option AuthIdentity
  validate_session token now db =
      if str_eq token "" then none else elim (active_session (sha256 token) now db) [
        | none ↦ none
        | some found ↦ some (record {
          session_id = found.0.id;
          user_id = found.1.id;
          tenant_id = found.1.tenant_id;
          username = found.1.username;
          role = found.1.role;
          csrf_token = "";
          expires_at = found.0.expires_at;
        })
      ]

  -- `validate_csrf`
  unfoldable pub validate_csrf : String → String → ℕ → AuthDb backend → Bool
  validate_csrf session_id token now db =
      if str_eq session_id "" || str_eq token ""
      then false
      else elim (get id_of_session backend.sessions session_id db.sessions) [
        | none ↦ false
        | some r ↦ is_live now r && str_eq r.csrf_hash (sha256 token)
      ]

  -- `rotate_auth_csrf`; `none` is the FileNotFoundError
  abbrev rotate : String → String → AuthDb backend → Option (AuthDb backend)
  rotate session_id csrf_hash db =
      elim (get id_of_session backend.sessions session_id db.sessions) [
        | none ↦ none
        | some r ↦
            if is_some r.revoked_at
            then none
            else some (record db {
              sessions =
                  (cas id_of_session backend.sessions session_id (λ r. true)
                    (λ r. record r { csrf_hash = csrf_hash }) db.sessions).0;
            })
      ]

  abbrev or_same : Bool → String → String → AuthDb backend → Option (String × AuthDb backend)
  or_same true session_id csrf db = some (csrf, db)
  or_same false session_id csrf db = elim (rotate session_id (sha256 csrf) db) [
    | none ↦ none
    | some later ↦ some (csrf, later)
  ]

  -- `issue_csrf`; `none` is an error
  unfoldable pub issue_csrf :
      String → String → ℕ → AuthDb backend → Option (String × AuthDb backend)
  issue_csrf session_id session_token now db = elim (active_session (sha256 session_token) now db) [
    | none ↦ none
    | some found ↦
        let csrf = hmac_csrf session_token in
        if str_eq found.0.id session_id
        then or_same (str_eq found.0.csrf_hash (sha256 csrf)) session_id csrf db
        else none
  ]

  abbrev pub revoked : ℕ → AuthSessionRow → AuthSessionRow
  revoked now r = record r { revoked_at = some now }

  abbrev pub is_unrevoked : AuthSessionRow → Bool
  is_unrevoked r = not (is_some r.revoked_at)

  -- `revoke_auth_session`
  abbrev pub revoke_session : String → ℕ → AuthDb backend → AuthDb backend
  revoke_session id now db = record db {
    sessions = (cas id_of_session backend.sessions id is_unrevoked (revoked now) db.sessions).0;
  }

  -- `logout`
  unfoldable pub logout : String → ℕ → AuthDb backend → AuthDb backend
  logout token now db =
      if str_eq token "" then db else elim (active_session (sha256 token) now db) [
        | none ↦ db
        | some found ↦ record (revoke_session found.0.id now db) {
          events =
              db.events
              ++ record {
                action = "logout";
                tenant_id = some found.1.tenant_id;
                user_id = some found.0.user_id;
                detail = found.0.id;
              }
                ∷ [];
        }
      ]

  -- `revoke_all`
  unfoldable pub revoke_all : String → ℕ → AuthDb backend → ℕ × AuthDb backend
  revoke_all user_id now db =
      let (sessions, count) =
        backend.sessions.update (λ r. str_eq r.user_id user_id && is_unrevoked r) (revoked now)
          db.sessions in
      (count, record db { sessions = sessions })
