-- ===== src/Auth/Sessions/Guarantees.antt =====
-- src/excel_auditor/auth_service.py: what a logout ends.
use mathlib.Core.Path.{subst}
use excelflow.Prelude.{
  ◌∙◌, ◌≡◌, ◌≤◌, refl, sym, ap, ℕ, Bool, true, false, List, [], ◌∷◌, ◌++◌, Option, none, some,
  String, str_eq, eq_refl, find_by, if_keeps, Bool-cases, Option-cases, inl, inr, arith,
  if◌then◌else◌,
}
use excelflow.Sql.{get, cas}
use excelflow.Sql.Rows.{update_rows, by_key, find_key, keep_if, UniqueKeys, Absent, find-select}
use excelflow.Auth.{UserRow, AuthSessionRow, Secrets, Backend, AuthDb}
use excelflow.Auth.Service.{id_of_user, id_of_session}
use excelflow.Auth.Service.Guarantees.{find-update_rows}
use excelflow.Auth.Sessions.{
  is_live, has_token, with_user, active_session, validate_session, revoked, is_unrevoked,
  revoke_session, logout,
}

abbrev pub token_of : AuthSessionRow → String
token_of r = r.token_hash

module _ {Row : Type 0} (key_of : Row → String) (q : Row → Bool) (f : Row → Row)
    (keeps : (r : Row) → key_of (f r) ≡ key_of r) where
  Absent-update :
      (key : String) (rs : List Row) → Absent key_of key rs → Absent key_of key (update_rows q f rs)
  Absent-update key [] absent = tt
  Absent-update key (r ∷ rs) absent = (
    if_keeps (λ (x : Row). str_eq (key_of x) key ≡ false) (q r)
        (λ h. ap (λ k. str_eq k key) (keeps r) ∙ absent.0) (λ h. absent.0),
    Absent-update key rs absent.1,
  )

  -- An UPDATE that leaves a column leaves its values distinct.
  UniqueKeys-update_rows :
      (rs : List Row) → UniqueKeys key_of rs → UniqueKeys key_of (update_rows q f rs)
  UniqueKeys-update_rows [] unique = tt
  UniqueKeys-update_rows (r ∷ rs) unique = (
    if_keeps (λ (x : Row). Absent key_of (key_of x) (update_rows q f rs)) (q r)
        (λ h.
          subst (λ k. Absent key_of k (update_rows q f rs)) (sym (keeps r))
            (Absent-update (key_of r) rs unique.0))
        (λ h. Absent-update (key_of r) rs unique.0),
    UniqueKeys-update_rows rs unique.1,
  )

module _ (secrets : Secrets) (backend : Backend) where
  -- `token_hash` is unique
  abbrev pub HasUniqueTokens : AuthDb backend → Type 0
  HasUniqueTokens db = UniqueKeys token_of (backend.sessions.rows db.sessions)

  abbrev row_of : String → AuthDb backend → Option AuthSessionRow
  row_of token_hash db = find_key token_of token_hash (backend.sessions.rows db.sessions)

  active-row_of :
      (token_hash : String) (now : ℕ) (db : AuthDb backend)
      → HasUniqueTokens db
      → active_session secrets backend token_hash now db
        ≡ with_user secrets backend
            (keep_if (is_live secrets backend now) (row_of token_hash db))
            db.users
  unfolding active_session
  active-row_of token_hash now db unique =
      ap (λ o. with_user secrets backend o db.users)
        (ap (find_by (λ r. true))
            (backend.sessions.select_lem (has_token secrets backend token_hash now) db.sessions)
          ∙ find-select token_of token_hash (is_live secrets backend now)
              (backend.sessions.rows db.sessions) unique)

  -- What is not live does not come to life.
  still_dead :
      (o : Option AuthSessionRow) (now later : ℕ) (users : backend.users.Db)
      → now ≤ later
      → with_user secrets backend (keep_if (is_live secrets backend now) o) users ≡ none
      → with_user secrets backend (keep_if (is_live secrets backend later) o) users ≡ none
  still_dead none now later users since dead = refl
  still_dead (some r) now later users since dead =
      elim (Bool-cases (is_live secrets backend later r)) [
        | inr ended ↦
            ap (λ (live : Bool). with_user secrets backend (if live then some r else none) users)
              ended
        | inl lives ↦
            let lived : is_live secrets backend now r ≡ true = ground arith in
            ap (λ (live : Bool). with_user secrets backend (if live then some r else none) users)
              (lives ∙ sym lived)
            ∙ dead
      ]

  none_valid :
      (token : String) (now : ℕ) (db : AuthDb backend)
      → active_session secrets backend (secrets.sha256 token) now db ≡ none
      → validate_session secrets backend token now db ≡ none
  unfolding validate_session
  none_valid token now db dead = elim (Bool-cases (str_eq token "")) [
    | inl empty ↦ rw empty refl
    | inr given ↦ rw (given, dead) refl
  ]

  with_user-row :
      (r : AuthSessionRow) (e : AuthSessionRow × UserRow) (users : backend.users.Db)
      → with_user secrets backend (some r) users ≡ some e
      → r ≡ e.0
  with_user-row r e users found =
      elim (Option-cases (get id_of_user backend.users r.user_id users)) [
        | inl nobody ↦ absurd (ground arith)
        | inr (user, at) ↦ ground arith
      ]

  live_row :
      (o : Option AuthSessionRow) (now : ℕ) (e : AuthSessionRow × UserRow)
      (users : backend.users.Db)
      → with_user secrets backend (keep_if (is_live secrets backend now) o) users ≡ some e
      → (o ≡ some e.0) × (is_live secrets backend now e.0 ≡ true)
  live_row none now e users found = cc
  live_row (some r) now e users found = elim (Bool-cases (is_live secrets backend now r)) [
    | inr ended ↦ absurd (ground arith)
    | inl lives ↦
        let found_live : with_user secrets backend (some r) users ≡ some e =
          ap (λ (live : Bool). with_user secrets backend (if live then some r else none) users)
            (sym lives)
          ∙ found in
        let same = with_user-row r e users found_live in
        (ap some same, ap (is_live secrets backend now) (sym same) ∙ lives)
  ]

  module _ (token_hash : String) (now : ℕ) (db : AuthDb backend) (unique : HasUniqueTokens db)
      (r : AuthSessionRow) (at : row_of token_hash db ≡ some r)
      (unrevoked : is_unrevoked secrets backend r ≡ true) where
    abbrev ended : AuthDb backend
    ended = revoke_session secrets backend r.id now db

    abbrev hits : AuthSessionRow → Bool
    hits = by_key id_of_session r.id (is_unrevoked secrets backend)

    row_of-ended : row_of token_hash ended ≡ some (revoked secrets backend now r)
    unfolding cas
    row_of-ended =
        ap (find_key token_of token_hash)
          (backend.sessions.rows-update hits (revoked secrets backend now) db.sessions)
        ∙ find-update_rows (λ (s : AuthSessionRow). str_eq (token_of s) token_hash) hits
            (revoked secrets backend now) (λ s. refl) (backend.sessions.rows db.sessions) r at
            (ground (arith, eq_refl r.id))

    ended-HasUniqueTokens : HasUniqueTokens ended
    unfolding cas
    ended-HasUniqueTokens =
        subst (UniqueKeys token_of)
          (sym (backend.sessions.rows-update hits (revoked secrets backend now) db.sessions))
          (UniqueKeys-update_rows token_of hits (revoked secrets backend now) (λ s. refl)
            (backend.sessions.rows db.sessions) unique)

    active_session-ended :
        (later : ℕ) → active_session secrets backend token_hash later ended ≡ none
    active_session-ended later =
        active-row_of token_hash later ended ended-HasUniqueTokens
        ∙ ap
            (λ o. with_user secrets backend (keep_if (is_live secrets backend later) o) ended.users)
            row_of-ended

  -- the database as a logout leaves it
  abbrev left : ℕ → AuthDb backend → AuthSessionRow × UserRow → AuthDb backend
  left now db found = record (revoke_session secrets backend found.0.id now db) {
    events =
        db.events
        ++ record {
          action = "logout";
          tenant_id = some found.1.tenant_id;
          user_id = some found.0.user_id;
          detail = found.0.id;
        }
          ∷ [];
  }

  active_session-left :
      (token_hash : String) (now later : ℕ) (db : AuthDb backend) (found : AuthSessionRow × UserRow)
      → active_session secrets backend token_hash later (left now db found)
        ≡ active_session secrets backend token_hash later
            (revoke_session secrets backend found.0.id now db)
  unfolding active_session
  active_session-left token_hash now later db found = refl

  logout-active :
      (token : String) (now later : ℕ) (db : AuthDb backend)
      → HasUniqueTokens db
      → now ≤ later
      → str_eq token "" ≡ false
      → active_session secrets backend
          (secrets.sha256 token)
          later
          (logout secrets backend token now db)
        ≡ none
  unfolding logout
  logout-active token now later db unique since given =
      let hash : String = secrets.sha256 token in
      elim (Option-cases (active_session secrets backend hash now db)) [
        | inl dead ↦
            rw (given, dead)
              (active-row_of hash later db unique
                ∙ still_dead (row_of hash db) now later db.users since
                    (sym (active-row_of hash now db unique) ∙ dead))
        | inr (found, at) ↦
            let (stands, lives) =
              live_row (row_of hash db) now found db.users
                (sym (active-row_of hash now db unique) ∙ at) in
            rw (given, at)
              (active_session-left hash now later db found
                ∙ active_session-ended hash now db unique found.0 stands (ground arith) later)
      ]

  -- Where tokens are unique, a token is valid at no time after a logout with it.
  pub logout-ends :
      (token : String) (now later : ℕ) (db : AuthDb backend)
      → HasUniqueTokens db
      → now ≤ later
      → validate_session secrets backend token later (logout secrets backend token now db) ≡ none
  unfolding validate_session
  logout-ends token now later db unique since = elim (Bool-cases (str_eq token "")) [
    | inl empty ↦ rw empty refl
    | inr given ↦
        none_valid token later (logout secrets backend token now db)
          (logout-active token now later db unique since given)
  ]
