-- ===== src/Auth/Service/Shutting.antt =====
-- src/excel_auditor/auth_service.py: rows of an account that are shut, and what keeps them so.
use excelflow.Prelude.{
  ◌∙◌, ◌≡◌, ◌<◌, refl, sym, ap, ℕ, Bool, true, false, ◌||◌, not, List, [], ◌∷◌, Option, none, some,
  String, str_eq, eq_iff, leb, holds, find_by, all_by, option_keeps, Bool-cases, inl, inr, arith,
}
use mathlib.Core.Path.{subst}
use excelflow.Sql.{cas}
use excelflow.Sql.Rows.{update_rows, by_key}
use excelflow.Auth.{UserRow, Secrets, Backend, AuthDb, normalize_username}
use excelflow.Auth.Service.{
  AuthService, AuthIdentity, SessionCredentials, id_of_user, is_named, user_of, login,
}
use excelflow.Auth.Service.Guarantees.{select_row}

-- a row of the account is shut to this time at least
abbrev pub is_shut : String → ℕ → UserRow → Bool
is_shut id until r = not (str_eq r.id id) || holds (λ u. leb until u) r.locked_until

module _ (id : String) (until : ℕ) where
  shut_of :
      (p : UserRow → Bool) (rs : List UserRow) (v : UserRow)
      → all_by (is_shut id until) rs ≡ true
      → find_by p rs ≡ some v
      → is_shut id until v ≡ true
  shut_of p [] v all found = cc
  shut_of p (r ∷ rs) v all found = elim (Bool-cases (p r)) [
    | inl here ↦
        let same : r ≡ v = ground arith in
        subst (λ x. is_shut id until x ≡ true) same (ground arith)
    | inr there ↦ shut_of p rs v (ground arith) (ground arith)
  ]

  -- an update of another account
  shut-other :
      (key : String) (f : UserRow → UserRow)
      → ((r : UserRow) → (f r).id ≡ r.id)
      → str_eq key id ≡ false
      → (rs : List UserRow) → all_by (is_shut id until) rs ≡ true
      → all_by (is_shut id until) (update_rows (by_key id_of_user key (λ r. true)) f rs) ≡ true
  shut-other key f keeps other [] all = refl
  shut-other key f keeps other (r ∷ rs) all =
      ground
        (arith, eq_iff r.id key, ap (λ i. str_eq i id) (keeps r), shut-other key f keeps other rs)

  -- the lock of the account
  pub shut-locked :
      (f : UserRow → UserRow)
      → ((r : UserRow) → (f r).locked_until ≡ some until)
      → (rs : List UserRow)
      → all_by (is_shut id until) (update_rows (by_key id_of_user id (λ r. true)) f rs) ≡ true
  shut-locked f locks [] = refl
  shut-locked f locks (r ∷ rs) = ground (arith, locks r, shut-locked f locks rs)

module _ (secrets : Secrets) (backend : Backend) (service : AuthService) where
  -- a login, with the token and the identifier of a session that are drawn for it
  pub record Attempt : Type 0 where
    pub tenant : String
    pub ip : String
    pub now : ℕ
    pub username : String
    pub password : String
    pub token : String
    pub session_id : String

  abbrev pub attempt :
      Attempt → AuthDb backend → Option (AuthIdentity × SessionCredentials) × AuthDb backend
  attempt a db =
      login secrets backend service a.tenant a.ip a.now a.username a.password a.token a.session_id
        db

  -- the tables after some logins
  abbrev pub after : List Attempt → AuthDb backend → AuthDb backend
  after [] db = db
  after (a ∷ attempts) db = after attempts (attempt a db).1

  abbrev pub AreBefore : ℕ → List Attempt → Type 0
  AreBefore time [] = Unit
  AreBefore time (a ∷ attempts) = (a.now < time) × AreBefore time attempts

  -- every row of the account is shut
  abbrev pub IsShut : String → ℕ → AuthDb backend → Type 0
  IsShut id until db = all_by (is_shut id until) (backend.users.rows db.users) ≡ true

  module _ (id : String) (until : ℕ) where
    pub user_of-shut :
        (tenant username : String) (db : AuthDb backend) (v : UserRow)
        → IsShut id until db
        → user_of secrets backend service tenant username db ≡ some v
        → is_shut id until v ≡ true
    user_of-shut tenant username db v shut found =
        option_keeps (λ (r : Option UserRow). r ≡ some v → is_shut id until v ≡ true)
          (normalize_username secrets username) (λ bad e. cc)
          (λ name named e.
            option_keeps (λ (r : Option UserRow). r ≡ some v → is_shut id until v ≡ true)
              (normalize_username secrets name) (λ bad e. cc)
              (λ twice named e.
                shut_of id until (is_named secrets backend service tenant twice)
                  (backend.users.rows db.users) v shut
                  (sym (
                      select_row secrets backend service tenant "" 0 "" "" ""
                        (is_named secrets backend service tenant twice) db.users)
                    ∙ e))
              e)
          found

    -- contents whose users are those before, or those with another account updated
    pub kept :
        (db : AuthDb backend) (later : backend.users.Db)
        → later ≡ db.users
        → IsShut id until db
        → all_by (is_shut id until) (backend.users.rows later) ≡ true
    kept db later same shut =
        subst (λ users. all_by (is_shut id until) (backend.users.rows users) ≡ true) (sym same) shut

    pub other_updated :
        (key : String) (f : UserRow → UserRow) (db : AuthDb backend) (later : backend.users.Db)
        → ((r : UserRow) → (f r).id ≡ r.id)
        → str_eq key id ≡ false
        → later ≡ (cas id_of_user backend.users key (λ r. true) f db.users).0
        → IsShut id until db
        → all_by (is_shut id until) (backend.users.rows later) ≡ true
    unfolding cas
    other_updated key f db later keeps other written shut =
        subst (λ users. all_by (is_shut id until) (backend.users.rows users) ≡ true) (sym written)
          (subst (λ rs. all_by (is_shut id until) rs ≡ true)
            (sym (backend.users.rows-update (by_key id_of_user key (λ r. true)) f db.users))
            (shut-other id until key f keeps other (backend.users.rows db.users) shut))

    -- What a login leaves shut, and that it is refused for the account.
    abbrev pub Refuses :
        Option UserRow → Option (AuthIdentity × SessionCredentials) × AuthDb backend → Type 0
    Refuses found r =
        IsShut id until r.1 × ((v : UserRow) → found ≡ some v → str_eq v.id id ≡ true → r.0 ≡ none)
