-- ===== src/Auth/Service/Locks.antt =====
-- src/excel_auditor/auth_service.py: how a failed login shuts an account, and for how long.
use excelflow.Prelude.{
  ◌∙◌, ◌≡◌, ◌<◌, refl, sym, ap, ℕ, ◌+◌, true, false, not, List, [], ◌∷◌, Option, none, some, String,
  str_eq, leb, holds, all_by, if_keeps, Option-cases, inl, inr, arith, if◌then◌else◌,
}
use mathlib.Core.Path.{subst}
use excelflow.Sql.{cas}
use excelflow.Sql.Rows.{by_key}
use excelflow.Auth.{UserRow, Secrets, Backend, AuthDb}
use excelflow.Auth.Limits.{clear}
use excelflow.Auth.Service.{
  AuthService, id_of_user, is_active, is_locked, user_of, failed, logged_in, ip_key, account_key,
  limiter_increment, reject_password, accept_password, try_password, login_as, login,
}
use excelflow.Auth.Service.Guarantees.{
  is_limited, failures_then, users-increment, users-reject_password, login_as-rejects,
}
use excelflow.Auth.Service.Shutting.{
  is_shut, shut-locked, Attempt, attempt, after, AreBefore, IsShut, user_of-shut, kept,
  other_updated, Refuses,
}

module _ (secrets : Secrets) (backend : Backend) (service : AuthService) where
  module _ (id : String) (until : ℕ) where
    module _ (tenant ip : String) (now : ℕ) (password token session_id : String) where
      reject_password-users :
          (v : UserRow) (db : AuthDb backend)
          → (reject_password secrets backend service tenant ip now v db).users
            ≡ (cas id_of_user backend.users v.id
                (λ r. true)
                (failed secrets backend service
                  (failures_then secrets backend service tenant ip now password token session_id v
                    db)
                  (if leb service.max_failures (
                      failures_then secrets backend service tenant ip now password token session_id
                        v db)
                    then some (now + service.lock_seconds)
                    else none))
                db.users).0
      unfolding reject_password
      reject_password-users v db =
          let by_source =
            limiter_increment secrets backend service tenant ip now
              (ip_key secrets backend service tenant ip) db in
          ap
            (λ users.
              (cas id_of_user backend.users v.id (λ r. true)
                (failed secrets backend service
                  (failures_then secrets backend service tenant ip now password token session_id v
                    db)
                  (if leb service.max_failures (
                      failures_then secrets backend service tenant ip now password token session_id
                        v db)
                    then some (now + service.lock_seconds)
                    else none))
                users).0)
            (users-increment secrets backend service tenant ip now password token session_id
                (account_key secrets backend service tenant v) by_source.1
              ∙ users-increment secrets backend service tenant ip now password token session_id
                  (ip_key secrets backend service tenant ip) db)

      accept_password-users :
          (v : UserRow) (db : AuthDb backend)
          → (accept_password secrets backend service tenant ip now token session_id v db).1.users
            ≡ (cas id_of_user backend.users v.id
                (λ r. true)
                (logged_in secrets backend service now)
                db.users).0
      unfolding accept_password clear
      accept_password-users v db = refl

      failed-id :
          (n : ℕ) (locked : Option ℕ) (r : UserRow)
          → (failed secrets backend service n locked r).id ≡ r.id
      failed-id n none r = refl
      failed-id n (some u) r = refl

      unlocked-other :
          (v : UserRow)
          → now < until
          → is_shut id until v ≡ true
          → is_locked secrets backend service now v ≡ false
          → str_eq v.id id ≡ false
      unlocked-other v soon shut unlocked = elim (Option-cases v.locked_until) [
        | inl none_set ↦ ground (arith, none_set)
        | inr (u, set) ↦ ground (arith, set, soon)
      ]

      try_password-Refuses :
          (v : UserRow) (db : AuthDb backend)
          → now < until
          → IsShut secrets backend service id until db
          → is_shut id until v ≡ true
          → Refuses secrets backend service id until
              (some v)
              (try_password secrets backend service tenant ip now password token session_id v db)
      try_password-Refuses v db soon shut mine =
          if_keeps (Refuses secrets backend service id until (some v))
            (is_locked secrets backend service now v) (λ locked. (shut, λ w e same. refl))
            (λ unlocked.
              let other = unlocked-other v soon mine unlocked in
              if_keeps (Refuses secrets backend service id until (some v))
                (not (secrets.verify_password password v.password_hash))
                (λ wrong. (
                  other_updated secrets backend service id until v.id _ db _ (failed-id _ _) other
                      (reject_password-users v db) shut,
                  λ w e same. refl,
                ))
                (λ right. (
                  other_updated secrets backend service id until v.id
                      (logged_in secrets backend service now) db _ (λ r. refl) other
                      (accept_password-users v db) shut,
                  λ w e same. absurd (
                      ground (
                        arith,
                        other,
                        same,
                        ap (λ o. holds (λ (r : UserRow). str_eq r.id id) o) e,
                      )),
                )))

      login_as-Refuses :
          (found : Option UserRow) (db : AuthDb backend)
          → now < until
          → IsShut secrets backend service id until db
          → ((v : UserRow) → found ≡ some v → is_shut id until v ≡ true)
          → Refuses secrets backend service id until found
              (login_as secrets backend service tenant ip now password token session_id found db)
      login_as-Refuses none db soon shut mine =
          if_keeps (Refuses secrets backend service id until none)
            (is_limited secrets backend service tenant ip now password token session_id db)
            (λ limited. (shut, λ w e same. refl))
            (λ free. (
              kept secrets backend service id until db _
                  (users-increment secrets backend service tenant ip now password token session_id
                    (ip_key secrets backend service tenant ip) db)
                  shut,
              λ w e same. refl,
            ))
      login_as-Refuses (some v) db soon shut mine =
          if_keeps (Refuses secrets backend service id until (some v))
            (is_limited secrets backend service tenant ip now password token session_id db)
            (λ limited. (shut, λ w e same. refl))
            (λ free.
              if_keeps (Refuses secrets backend service id until (some v))
                (is_active secrets backend service v)
                (λ active. try_password-Refuses v db soon shut (mine v refl))
                (λ inactive. (
                  kept secrets backend service id until db _
                      (users-increment secrets backend service tenant ip now password token
                        session_id (ip_key secrets backend service tenant ip) db)
                      shut,
                  λ w e same. refl,
                )))

    attempt-Refuses :
        (a : Attempt secrets backend service) (db : AuthDb backend)
        → a.now < until
        → IsShut secrets backend service id until db
        → Refuses secrets backend service id until
            (user_of secrets backend service a.tenant a.username db)
            (attempt secrets backend service a db)
    unfolding login
    attempt-Refuses a db soon shut =
        login_as-Refuses a.tenant a.ip a.now a.password a.token a.session_id
          (user_of secrets backend service a.tenant a.username db) db soon shut
          (λ v found.
            user_of-shut secrets backend service id until a.tenant a.username db v shut found)

    after-IsShut :
        (attempts : List (Attempt secrets backend service)) (db : AuthDb backend)
        → AreBefore secrets backend service until attempts
        → IsShut secrets backend service id until db
        → IsShut secrets backend service id until (after secrets backend service attempts db)
    after-IsShut [] db before shut = shut
    after-IsShut (a ∷ attempts) db before shut =
        after-IsShut attempts (attempt secrets backend service a db).1 before.1
          (attempt-Refuses a db before.0 shut).0

  -- the first login
  rejected-IsShut :
      (a : Attempt secrets backend service) (user : UserRow) (db : AuthDb backend)
      → leb service.max_failures (
          failures_then secrets backend service a.tenant a.ip a.now a.password a.token a.session_id
            user db)
        ≡ true
      → IsShut secrets backend service user.id
          (a.now + service.lock_seconds)
          (reject_password secrets backend service a.tenant a.ip a.now user db)
  unfolding cas
  rejected-IsShut a user db many =
      let until = a.now + service.lock_seconds in
      let f =
        failed secrets backend service
          (failures_then secrets backend service a.tenant a.ip a.now a.password a.token a.session_id
            user db)
          (some until) in
      subst (λ users. all_by (is_shut user.id until) (backend.users.rows users) ≡ true)
        (sym (
          users-reject_password secrets backend service a.tenant a.ip a.now a.password a.token
            a.session_id user db many))
        (subst (λ rs. all_by (is_shut user.id until) rs ≡ true)
          (sym (backend.users.rows-update (by_key id_of_user user.id (λ r. true)) f db.users))
          (shut-locked user.id until f (λ r. refl) (backend.users.rows db.users)))

  -- A login to an active account that is not locked, from a source below its limit, whose password does
  -- not verify, and whose failures reach the maximum, shuts the account: whatever logins of whatever
  -- accounts come after secrets backend service it until the lock ends, each login before that time that finds the account,
  -- under any spelling of its name, with any password and from any source, is refused.
  pub login_locks :
      (first : Attempt secrets backend service) (user : UserRow) (db : AuthDb backend)
      → user_of secrets backend service first.tenant first.username db ≡ some user
      → is_active secrets backend service user ≡ true
      → is_limited secrets backend service first.tenant first.ip first.now first.password
          first.token first.session_id db
        ≡ false
      → is_locked secrets backend service first.now user ≡ false
      → secrets.verify_password first.password user.password_hash ≡ false
      → leb service.max_failures (
          failures_then secrets backend service first.tenant first.ip first.now first.password
            first.token first.session_id user db)
        ≡ true
      → (attempts : List (Attempt secrets backend service))
      → AreBefore secrets backend service (first.now + service.lock_seconds) attempts
      → (last : Attempt secrets backend service) → last.now < first.now + service.lock_seconds
      → (found : UserRow)
      → user_of secrets backend service last.tenant last.username
          (after secrets backend service attempts (attempt secrets backend service first db).1)
        ≡ some found
      → str_eq found.id user.id ≡ true
      → (attempt secrets backend service last
          (after secrets backend service attempts (attempt secrets backend service first db).1)).0
        ≡ none
  unfolding login
  login_locks first user db at active free unlocked wrong many attempts before last soon found there
        same =
      let until = first.now + service.lock_seconds in
      let rejected : (attempt secrets backend service first db).1
          ≡ reject_password secrets backend service first.tenant first.ip first.now user db =
        ap
          (λ o.
            (login_as secrets backend service first.tenant first.ip first.now first.password
              first.token first.session_id o db).1)
          at
        ∙ login_as-rejects secrets backend service first.tenant first.ip first.now first.password
            first.token first.session_id user db active free unlocked wrong in
      let shut =
        after-IsShut user.id until attempts (attempt secrets backend service first db).1 before (
          subst (IsShut secrets backend service user.id until) (sym rejected)
            (rejected-IsShut first user db many)) in
      (attempt-Refuses user.id until last
          (after secrets backend service attempts (attempt secrets backend service first db).1) soon
          shut).1
        found there same
