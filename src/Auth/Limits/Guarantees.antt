-- ===== src/Auth/Limits/Guarantees.antt =====
-- src/excel_auditor/auth_limits.py: what the table of a limiter counts.
use excelflow.Prelude.{
  ◌∙◌, ◌≡◌, refl, ap, ℕ, ◌+◌, not, Bool, true, List, [], ◌∷◌, none, some, String, ltb, leb, eq_refl,
  count_by, find_by, filter_by, if_keeps, Option-cases, inl, inr, arith, if◌then◌else◌,
}
use excelflow.Sql.{
  SqlTable, first, lookup, HasPrimaryKey, first_lem, get_lem, cas, lookup-cas, HasPrimaryKey-cas,
}
use excelflow.Sql.Rows.{by_key, find_key, keep_if, KeepsKey, find-filter, UniqueKeys-filter}
use excelflow.Auth.{AuthRateLimitRow, Secrets, Backend}
use excelflow.Auth.Limits.{
  key_of_limit, window, failures_of, is_open, count_rows, counted_up, upsert_row, upsert,
  increment_rows,
}

-- what an INSERT does to a query that met no row
pub record IsInserting {Row : Type 0} (t : SqlTable Row) : Type 0 where
  pub find-insert :
      (p : Row → Bool) (r : Row) (db : t.Db)
      → count_by p (t.rows db) ≡ 0
      → find_by p (t.rows (t.insert r db)) ≡ (if p r then some r else none)

module _ {Row : Type 0} (id_of : Row → String) (t : SqlTable Row) where
  find_all : (p : Row → Bool) (rs : List Row) → find_by (λ r. true) (filter_by p rs) ≡ find_by p rs
  find_all p [] = refl
  find_all p (r ∷ rs) = ground (arith, find_all p rs)

  -- a query of one row in words of the rows
  pub first_find :
      (key : String) (test : Row → Bool) (db : t.Db)
      → first id_of t key test db ≡ find_by (by_key id_of key test) (t.rows db)
  unfolding first
  first_find key test db = rw (t.select_lem) (find_all (by_key id_of key test) (t.rows db))

  pub count_none :
      (key : String) (test : Row → Bool) (rs : List Row)
      → find_key id_of key rs ≡ none
      → count_by (by_key id_of key test) rs ≡ 0
  count_none key test [] h = refl
  count_none key test (r ∷ rs) h = ground (arith, count_none key test rs)

module _ (secrets : Secrets) (backend : Backend) (seconds : ℕ) (key : String) (now : ℕ) where
  module _ (db : backend.limits.Db) (unique : HasPrimaryKey key_of_limit backend.limits db) where
    abbrev kept : backend.limits.Db
    kept = backend.limits.delete (λ r. leb r.expires_at now) db

    unique_kept : HasPrimaryKey key_of_limit backend.limits kept
    unique_kept = rw (backend.limits.rows-delete) (
        UniqueKeys-filter key_of_limit (λ r. not (leb r.expires_at now)) (backend.limits.rows db)
          unique)

    lookup-kept :
        lookup key_of_limit backend.limits key kept
        ≡ keep_if (λ r. not (leb r.expires_at now)) (lookup key_of_limit backend.limits key db)
    lookup-kept = rw (backend.limits.rows-delete) (
        find-filter key_of_limit key (λ r. not (leb r.expires_at now)) (backend.limits.rows db)
          unique)

    counts :
        count_rows secrets backend seconds key now db
        ≡ failures_of secrets backend seconds (
            keep_if
              (is_open secrets backend seconds now)
              (lookup key_of_limit backend.limits key db))
    unfolding count_rows
    counts =
        ap (failures_of secrets backend seconds) (
          first_lem key_of_limit backend.limits key (is_open secrets backend seconds now) db unique)

    abbrev fresh : AuthRateLimitRow
    fresh = record { key = key; failures = 1; expires_at = now + window secrets backend seconds }

    upsert-new :
        lookup key_of_limit backend.limits key db ≡ none
        → upsert secrets backend seconds key now db ≡ (1, backend.limits.insert fresh db)
    upsert-new absent =
        ap (λ o. upsert_row secrets backend seconds o key now db)
          (get_lem key_of_limit backend.limits key db ∙ absent)

    upsert-old :
        (r : AuthRateLimitRow)
        → lookup key_of_limit backend.limits key db ≡ some r
        → upsert secrets backend seconds key now db ≡ (
          (counted_up secrets backend seconds now r).failures,
          (cas key_of_limit backend.limits key
              (λ r. true)
              (counted_up secrets backend seconds now)
              db).0,
        )
    unfolding cas
    upsert-old r found =
        ap (λ o. upsert_row secrets backend seconds o key now db)
          (get_lem key_of_limit backend.limits key db ∙ found)

    -- what is counted after a row is inserted, or counted up
    counts-new :
        IsInserting backend.limits
        → lookup key_of_limit backend.limits key db ≡ none
        → count_rows secrets backend seconds key now (backend.limits.insert fresh db) ≡ 1
    unfolding count_rows
    counts-new inserting absent =
        ap (failures_of secrets backend seconds) (
          first_find key_of_limit backend.limits key (is_open secrets backend seconds now)
            (backend.limits.insert fresh db)
          ∙ inserting.find-insert (by_key key_of_limit key (is_open secrets backend seconds now))
              fresh db
              (count_none key_of_limit backend.limits key (is_open secrets backend seconds now)
                (backend.limits.rows db) absent))
        ∙ ground (arith, eq_refl key)

    counts-old :
        (r : AuthRateLimitRow)
        → lookup key_of_limit backend.limits key db ≡ some r
        → ltb now r.expires_at ≡ true
        → count_rows secrets backend seconds key now
            (cas key_of_limit backend.limits key
              (λ r. true)
              (counted_up secrets backend seconds now)
              db).0
          ≡ r.failures + 1
    unfolding count_rows
    counts-old r found open_still =
        let keeps : KeepsKey key_of_limit (counted_up secrets backend seconds now) = λ s.
          if_keeps (λ (u : AuthRateLimitRow). u.key ≡ s.key) (leb s.expires_at now) (λ h. refl)
            (λ h. refl) in
        let counted : AuthRateLimitRow = counted_up secrets backend seconds now r in
        let revised : lookup key_of_limit backend.limits key
              (cas key_of_limit backend.limits key (λ r. true)
                (counted_up secrets backend seconds now) db).0
            ≡ some counted =
          lookup-cas key_of_limit backend.limits key (λ r. true)
            (counted_up secrets backend seconds now) db keeps key
          ∙ ground (arith, eq_refl key) in
        ap (failures_of secrets backend seconds) (
          first_lem key_of_limit backend.limits key (is_open secrets backend seconds now) _ (
            HasPrimaryKey-cas key_of_limit backend.limits key (λ r. true)
              (counted_up secrets backend seconds now) db keeps unique)
          ∙ ap (keep_if (is_open secrets backend seconds now)) revised)
        ∙ ground arith

  increment-kept :
      (db : backend.limits.Db) (o : ℕ × backend.limits.Db)
      → upsert secrets backend seconds key now
          (backend.limits.delete (λ r. leb r.expires_at now) db)
        ≡ o
      → increment_rows secrets backend seconds key now db ≡ o
  unfolding increment_rows
  increment-kept db o h = h

  -- An increment returns one more than was counted, and that is what is counted then.
  pub increment_rows-counts :
      IsInserting backend.limits
      → (db : backend.limits.Db) → HasPrimaryKey key_of_limit backend.limits db
      → ((increment_rows secrets backend seconds key now db).0
          ≡ count_rows secrets backend seconds key now db + 1)
        × (count_rows secrets backend seconds key now
              (increment_rows secrets backend seconds key now db).1
            ≡ (increment_rows secrets backend seconds key now db).0)
  increment_rows-counts inserting db unique =
      let shut = unique_kept db unique in
      let before = counts db unique in
      let later = lookup-kept db unique in
      elim (Option-cases (lookup key_of_limit backend.limits key (kept db unique))) [
        | inl absent ↦
            rw (increment-kept db _ (upsert-new (kept db unique) shut absent))
              (ground arith, counts-new (kept db unique) shut inserting absent)
        | inr (r, found) ↦ elim (Option-cases (lookup key_of_limit backend.limits key db)) [
          | inl nothing ↦ absurd (ground arith)
          | inr (s, stood) ↦
              let open_still : ltb now r.expires_at ≡ true = ground arith in
              rw (increment-kept db _ (upsert-old (kept db unique) shut r found))
                (ground arith, counts-old (kept db unique) shut r found open_still ∙ ground arith)
        ]
      ]
