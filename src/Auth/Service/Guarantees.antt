-- ===== src/Auth/Service/Guarantees.antt =====
-- src/excel_auditor/auth_service.py: whom a login admits, and when it shuts an account.
use excelflow.Prelude.{
  ◌∙◌, ◌≡◌, refl, sym, ap, ℕ, ◌+◌, Bool, true, false, List, [], ◌∷◌, Option, none, some, String,
  ltb, leb, find_by, filter_by, if_keeps, option_keeps, Bool-cases, inl, inr, arith, if◌then◌else◌,
}
use mathlib.Core.Path.{subst}
use excelflow.Sql.{cas}
use excelflow.Sql.Rows.{update_rows}
use excelflow.Auth.{UserRow, Secrets, Backend, AuthDb}
use excelflow.Auth.Limits.{window, limit_key, count, increment}
use excelflow.Auth.Service.{
  AuthService, AuthIdentity, SessionCredentials, id_of_user, ip_max_failures, is_active, is_locked,
  user_of, failed, ip_key, account_key, limiter_increment, reject_password, accept_password,
  login_as, login,
}

module _ {Row : Type 0} where
  find_all : (p : Row → Bool) (rs : List Row) → find_by (λ r. true) (filter_by p rs) ≡ find_by p rs
  find_all p [] = refl
  find_all p (r ∷ rs) = ground (arith, find_all p rs)

  -- A query that does not read what is updated finds its row, updated.
  pub find-update_rows :
      (p q : Row → Bool) (f : Row → Row)
      → ((r : Row) → p (f r) ≡ p r)
      → (rs : List Row) (r : Row) → find_by p rs ≡ some r
      → q r ≡ true
      → find_by p (update_rows q f rs) ≡ some (f r)
  find-update_rows p q f same [] r found hit = cc
  find-update_rows p q f same (x ∷ rs) r found hit = elim (Bool-cases (p x)) [
    | inl here ↦
        let equal : x ≡ r = ground arith in
        let hit_here : q x ≡ true = subst (λ y. q y ≡ true) (sym equal) hit in
        ground (arith, same x, ap f equal)
    | inr there ↦ ground (arith, same x, find-update_rows p q f same rs r)
  ]

module _ (secrets : Secrets) (backend : Backend) (service : AuthService) where
  -- what a login has tested of the user
  pub record IsAdmitted (tenant ip : String) (now : ℕ) (username password : String)
      (db : AuthDb backend) (identity : AuthIdentity) : Type 0 where
    pub user : UserRow
    pub is_found : user_of secrets backend service tenant username db ≡ some user
    pub active : is_active secrets backend service user ≡ true
    pub unlocked : is_locked secrets backend service now user ≡ false
    pub verified : secrets.verify_password password user.password_hash ≡ true
    pub below_limit :
        ltb
          (count secrets backend service.lock_seconds
            (ip_key secrets backend service tenant ip)
            now
            db)
          (ip_max_failures service)
        ≡ true
    pub is_user : identity.user_id ≡ user.id
    pub is_tenant : identity.tenant_id ≡ user.tenant_id

  module _ (tenant ip : String) (now : ℕ) (password token session_id : String) where
    abbrev pub verified : UserRow → Bool
    verified user = secrets.verify_password password user.password_hash

    abbrev pub is_limited : AuthDb backend → Bool
    is_limited db = leb (ip_max_failures service) (
        count secrets backend service.lock_seconds (ip_key secrets backend service tenant ip) now
          db)

    login_as-IsAdmitted :
        (username : String) (db : AuthDb backend) (identity : AuthIdentity)
        (credentials : SessionCredentials) (found : Option UserRow)
        → user_of secrets backend service tenant username db ≡ found
        → (login_as secrets backend service tenant ip now password token session_id found db).0
          ≡ some (identity, credentials)
        → IsAdmitted tenant ip now username password db identity
    unfolding accept_password
    login_as-IsAdmitted username db identity credentials none at done =
        elim (Bool-cases (is_limited db)) [
          | inl limited ↦ absurd (ground arith)
          | inr free ↦ absurd (ground arith)
        ]
    login_as-IsAdmitted username db identity credentials (some user) at done =
        elim (Bool-cases (is_limited db)) [
          | inl limited ↦ absurd (ground arith)
          | inr free ↦ elim (Bool-cases (is_active secrets backend service user)) [
            | inr inactive ↦ absurd (ground arith)
            | inl active ↦ elim (Bool-cases (is_locked secrets backend service now user)) [
              | inl locked ↦ absurd (ground arith)
              | inr unlocked ↦ elim (Bool-cases (verified user)) [
                | inr wrong ↦ absurd (ground arith)
                | inl right ↦ record {
                  user = user;
                  is_found = at;
                  active = active;
                  unlocked = unlocked;
                  verified = right;
                  below_limit = ground arith;
                  is_user = ground arith;
                  is_tenant = ground arith;
                }
              ]
            ]
          ]
        ]

    -- A login that succeeds has found the user by its name, who is active and not locked, verified the
    -- password, and found the source below its limit; the identity is that user's.
    pub login-IsAdmitted :
        (username : String) (db : AuthDb backend) (identity : AuthIdentity)
        (credentials : SessionCredentials)
        → (login secrets backend service tenant ip now username password token session_id db).0
          ≡ some (identity, credentials)
        → IsAdmitted tenant ip now username password db identity
    unfolding login
    login-IsAdmitted username db identity credentials done =
        login_as-IsAdmitted username db identity credentials
          (user_of secrets backend service tenant username db) refl done

    -- counting a failure does not touch the accounts
    pub users-increment :
        (value : String) (db : AuthDb backend)
        → (increment secrets backend service.lock_seconds value now db).1.users ≡ db.users
    unfolding increment
    users-increment value db =
        if_keeps (λ (x : ℕ × AuthDb backend). x.1.users ≡ db.users) backend.redis.is_configured
          (λ on.
            option_keeps (λ (x : ℕ × AuthDb backend). x.1.users ≡ db.users)
              (backend.redis.count_up (limit_key secrets backend now value)
                (window secrets backend service.lock_seconds) db.store).0
              (λ lost. refl) (λ n counted. refl))
          (λ off. refl)

    -- the count of a failed login on its account
    abbrev pub failures_then : UserRow → AuthDb backend → ℕ
    failures_then user db =
        (limiter_increment secrets backend service tenant ip now
          (account_key secrets backend service tenant user)
          (limiter_increment secrets backend service tenant ip now
            (ip_key secrets backend service tenant ip) db).1).0

    pub users-reject_password :
        (user : UserRow) (db : AuthDb backend)
        → leb service.max_failures (failures_then user db) ≡ true
        → (reject_password secrets backend service tenant ip now user db).users
          ≡ (cas id_of_user backend.users user.id
              (λ r. true)
              (failed secrets backend service
                (failures_then user db)
                (some (now + service.lock_seconds)))
              db.users).0
    unfolding reject_password
    users-reject_password user db many =
        let by_source =
          limiter_increment secrets backend service tenant ip now
            (ip_key secrets backend service tenant ip) db in
        let by_account =
          limiter_increment secrets backend service tenant ip now
            (account_key secrets backend service tenant user) by_source.1 in
        let update = λ (locked : Option ℕ) (users : backend.users.Db).
          (cas id_of_user backend.users user.id (λ r. true)
            (failed secrets backend service (failures_then user db) locked) users).0 in
        ap
          (λ (locks : Bool).
            update (if locks then some (now + service.lock_seconds) else none) by_account.1.users)
          many
        ∙ ap (update (some (now + service.lock_seconds))) (
            users-increment (account_key secrets backend service tenant user) by_source.1
            ∙ users-increment (ip_key secrets backend service tenant ip) db)

    pub select_row :
        (p : UserRow → Bool) (users : backend.users.Db)
        → find_by (λ r. true) (backend.users.select p users) ≡ find_by p (backend.users.rows users)
    select_row p users =
        ap (find_by (λ r. true)) (backend.users.select_lem p users)
        ∙ find_all p (backend.users.rows users)

    pub login_as-rejects :
        (user : UserRow) (db : AuthDb backend)
        → is_active secrets backend service user ≡ true
        → is_limited db ≡ false
        → is_locked secrets backend service now user ≡ false
        → verified user ≡ false
        → (login_as secrets backend service tenant ip now password token session_id
            (some user)
            db).1
          ≡ reject_password secrets backend service tenant ip now user db
    login_as-rejects user db active free unlocked wrong = ground arith
