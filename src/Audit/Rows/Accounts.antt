-- ===== src/Audit/Rows/Accounts.antt =====
-- src/excel_auditor/engine.py: no row of a worksheet that is read disappears without a word.
use mathlib.Core.Path.{subst}
use mathlib.Core.List.{Memᴰ}
use mathlib.Core.List.Memᴰ.{head, tail, append_right}
use excelflow.Prelude.{
  ◌∙◌, ◌≡◌, refl, sym, ap, ◌⊎◌, inl, inr, ℕ, ◌==◌, ◌&&◌, Bool, true, false, List, [], ◌∷◌, ◌++◌,
  String, Option, some, leb, any_by, count_by, find_by, Bool-cases, arith,
}
use excelflow.Sorting.{sorted, count_by-sorted}
use excelflow.Audit.{Engine, ColumnRule, Report}
use excelflow.Audit.Keys.{
  EmptyKeyAction, report_invalid, skip_row, use_row_number, key_of, Key, same_key, IsEquality,
  same_key_refl,
}
use excelflow.Audit.Keys.Collecting.{bears}
use excelflow.Audit.Rows.{
  Row, Kept, Rows, Region, Reading, RowKey, has_formula, skipped, invalid, keyed, record_of,
  row_key, is_left_out, read_rows, note_rows, drop_duplicates, read_sheet, formula_key_fields,
  without_key, by_key, unread, region_rows, distinct,
}
use excelflow.Audit.Rows.Reporting.{
  is_reported, stays, told_at_once, note_rows_keeps, drop_duplicates_keeps, is_refused, key_of_row,
  read_rows-reports,
}
use excelflow.Audit.Rows.Listing.{lists, lists-store_all}
use excelflow.Audit.Rows.Guarantees.{
  keyed_row, keyed_rows, keyed_entries, records-read_rows, read_sheet-find,
}

-- The positions of a list that a test meets, as a count.
any_by-count : {A : Type 0} (p : A → Bool) (xs : List A) → any_by p xs ≡ leb 1 (count_by p xs)
any_by-count p [] = refl
any_by-count p (x ∷ xs) = ground (arith, any_by-count p xs)

any_by-mem :
    {A : Type 0} (p : A → Bool) (x : A) (xs : List A) → Memᴰ x xs → p x ≡ true → any_by p xs ≡ true
any_by-mem p x [] mem h = elim mem [ ]
any_by-mem p x (y ∷ xs) (head same) h = ground (arith, ap p same)
any_by-mem p x (y ∷ xs) (tail mem) h = ground (arith, any_by-mem p x xs mem h)

any_by-distinct :
    (n : ℕ) (ns : List ℕ) → any_by (λ m. m == n) (distinct ns) ≡ any_by (λ m. m == n) ns
any_by-distinct n [] = refl
any_by-distinct n (m ∷ ns) = elim (Bool-cases (any_by (λ j. j == m) ns)) [
  | inl again ↦ elim (Bool-cases (m == n)) [
    | inl same ↦
        let equal : m ≡ n = ground arith in
        let present : any_by (λ j. j == n) ns ≡ true =
          subst (λ k. any_by (λ j. j == k) ns ≡ true) equal again in
        ground (arith, any_by-distinct n ns)
    | inr other ↦ ground (arith, any_by-distinct n ns)
  ]
  | inr once ↦ ground (arith, any_by-distinct n ns)
]

find_once :
    {A : Type 0} (p : A → Bool) (x : A) (xs : List A)
    → Memᴰ x xs
    → p x ≡ true
    → count_by p xs ≡ 1
    → find_by p xs ≡ some x
find_once p x [] mem h once = elim mem [ ]
find_once p x (y ∷ xs) (head same) h once = ground (arith, ap p same)
find_once p x (y ∷ xs) (tail mem) h once = elim (Bool-cases (p y)) [
  | inl here ↦ absurd (ground (arith, any_by-mem p x xs mem h, any_by-count p xs))
  | inr there ↦ ground (arith, find_once p x xs mem h)
]

module _ (engine : Engine) (region : Region engine) where
  note_rows-reports :
      (key : Key engine) (n : ℕ) (rows : List ℕ) (report : Report engine)
      → any_by (λ m. m == n) rows ≡ true
      → is_reported engine n (note_rows engine region key rows report) ≡ true
  unfolding note_rows
  note_rows-reports key n [] report h = cc
  note_rows-reports key n (m ∷ rows) report h = elim (Bool-cases (m == n)) [
    | inl here ↦
        note_rows_keeps engine (λ later. is_reported engine n later ≡ true) (stays engine n) region
          key rows _ (told_at_once engine n _ report (ap some (ground arith)))
    | inr there ↦ note_rows-reports key n rows _ (ground arith)
  ]

  drop_duplicates-reports :
      (k : Key engine) (n : ℕ) (duplicates : Rows engine)
      (records : List (Key engine × Kept engine)) (report : Report engine)
      → lists engine region k n duplicates ≡ true
      → is_reported engine n (drop_duplicates engine region duplicates records report).1 ≡ true
  unfolding drop_duplicates
  drop_duplicates-reports k n [] records report h = cc
  drop_duplicates-reports k n ((key, rows) ∷ duplicates) records report h =
      elim (Bool-cases (same_key engine key k && any_by (λ m. m == n) rows)) [
        | inl here ↦
            drop_duplicates_keeps engine (λ later. is_reported engine n later ≡ true)
              (stays engine n) region duplicates _ _
              (note_rows-reports key n (sorted leb (distinct rows)) report (
                any_by-count (λ m. m == n) (sorted leb (distinct rows))
                ∙ ap (leb 1) (count_by-sorted leb (λ m. m == n) (distinct rows))
                ∙ sym (any_by-count (λ m. m == n) (distinct rows))
                ∙ any_by-distinct n rows
                ∙ ground arith))
        | inr there ↦ drop_duplicates-reports k n duplicates _ _ (ground arith)
      ]

  abbrev entry_of : Row engine → List (String × Option engine.Value)
  entry_of row = record_of engine region.columns row.1

  keyed_row_lem :
      (row : Row engine) (k : Key engine)
      → is_left_out engine region row ≡ false
      → key_of_row engine region row ≡ keyed k
      → keyed_row engine region row ≡ (k, (row.0, entry_of row)) ∷ []
  unfolding keyed_row
  keyed_row_lem row k read is_key = rw (read, is_key) refl

  keyed_rows-mem :
      (rows : List (Row engine)) (row : Row engine) (k : Key engine)
      → Memᴰ row rows
      → is_left_out engine region row ≡ false
      → key_of_row engine region row ≡ keyed k
      → Memᴰ (k, (row.0, entry_of row)) (keyed_rows engine region rows)
  unfolding keyed_rows
  keyed_rows-mem [] row k mem read is_key = elim mem [ ]
  keyed_rows-mem (x ∷ rows) row k (head same) read is_key =
      subst
        (λ y.
          Memᴰ (k, (row.0, entry_of row))
            (keyed_row engine region y ++ keyed_rows engine region rows))
        same (rw (keyed_row_lem row k read is_key) (head refl))
  keyed_rows-mem (x ∷ rows) row k (tail mem) read is_key =
      append_right _ (keyed_rows-mem rows row k mem read is_key)

  -- a formula of the key is that of a field
  abbrev is_proper : RowKey engine → Bool
  is_proper (has_formula []) = false
  is_proper _ = true

  without_key-proper :
      (a : EmptyKeyAction) (row : ℕ) → is_proper (without_key engine region a row) ≡ true
  without_key-proper report_invalid row = refl
  without_key-proper skip_row row = refl
  without_key-proper use_row_number row = refl

  by_key-proper : (row : ℕ) (k : Key engine × Bool) → is_proper (by_key engine region row k) ≡ true
  by_key-proper row (key, true) = refl
  by_key-proper row (key, false) = without_key-proper region.keys.empty_action row

  row_key-proper :
      (row : ℕ) (entry : List (String × Option engine.Value))
      → is_proper (row_key engine region row entry) ≡ true
  unfolding row_key
  row_key-proper row entry =
      elim (formula_key_fields engine region entry)
        as (λ fields.
          is_proper (elim fields [
            | [] ↦ by_key engine region row (
                key_of engine region.parsing.parse_excel_value entry region.keys
                  (some (engine.of_number row)))
            | rule ∷ rules ↦ has_formula (rule ∷ rules)
          ])
          ≡ true) [
            | [] ↦ by_key-proper row (
                key_of engine region.parsing.parse_excel_value entry region.keys
                  (some (engine.of_number row)))
            | rule ∷ rules ↦ refl
          ]

  module _ (laws : IsEquality engine) (rows : List (Row engine)) (report : Report engine)
      (row : Row engine) (mem : Memᴰ row (region_rows engine region rows))
      (read : is_left_out engine region row ≡ false) where
    abbrev result : List (Key engine × Kept engine) × Rows engine × Report engine
    result = read_sheet engine region rows report

    abbrev reading : Reading engine
    reading = read_rows engine region (region_rows engine region rows) (unread engine region report)

    refused_reported :
        is_refused engine region (key_of_row engine region row) ≡ true
        → is_reported engine row.0 result.2 ≡ true
    unfolding read_sheet
    refused_reported refused =
        drop_duplicates_keeps engine (λ later. is_reported engine row.0 later ≡ true)
          (stays engine row.0) region reading.records.1 reading.records.0 reading.report
          (read_rows-reports engine region (region_rows engine region rows)
            (unread engine region report) row mem read refused)

    module _ (k : Key engine) (is_key : key_of_row engine region row ≡ keyed k) where
      abbrev kept : Key engine × Kept engine
      kept = (k, (row.0, entry_of row))

      among : Memᴰ kept (keyed_entries engine region rows)
      among = keyed_rows-mem (region_rows engine region rows) row k mem read is_key

      duplicate_reported :
          leb 2 (count_by (bears engine k) (keyed_entries engine region rows)) ≡ true
          → is_reported engine row.0 result.2 ≡ true
      unfolding read_sheet
      duplicate_reported several =
          let xs = keyed_entries engine region rows in
          let listed = lists-store_all engine laws region k row.0 xs ([], []) in
          let of_row =
            any_by-mem (λ (x : Key engine × Kept engine). bears engine k x && x.1.0 == row.0) kept
              xs among (ground (arith, same_key_refl engine laws k)) in
          let stored =
            records-read_rows engine region (region_rows engine region rows)
              (unread engine region report) in
          drop_duplicates-reports k row.0 reading.records.1 reading.records.0 reading.report (
            subst
              (λ (c : List (Key engine × Kept engine) × Rows engine).
                lists engine region k row.0 c.1 ≡ true)
              (sym stored) (listed ∙ ground arith))

      kept_once :
          count_by (bears engine k) (keyed_entries engine region rows) ≡ 1
          → find_by (bears engine k) result.0 ≡ some kept
      kept_once once =
          let found =
            find_once (bears engine k) kept (keyed_entries engine region rows) among
              (same_key_refl engine laws k) once in
          read_sheet-find engine laws region rows report k ∙ ground arith

    abbrev pub IsAccounted : RowKey engine → Type 0
    IsAccounted key =
        (is_reported engine row.0 result.2 ≡ true)
        ⊎ ((key ≡ skipped)
            ⊎ ((k : Key engine) × (key ≡ keyed k)
                × (find_by (bears engine k) result.0 ≡ some (k, (row.0, entry_of row)))))

    key-IsAccounted :
        (rule : ColumnRule engine) (rules : List (ColumnRule engine))
        → region.keys.primary_key ≡ rule ∷ rules
        → (key : RowKey engine) → key_of_row engine region row ≡ key
        → is_proper key ≡ true
        → IsAccounted key
    key-IsAccounted rule rules has_key (has_formula []) at proper = cc
    key-IsAccounted rule rules has_key (has_formula (r ∷ rs)) at proper =
        inl (refused_reported (ap (is_refused engine region) at))
    key-IsAccounted rule rules has_key skipped at proper = inr (inl refl)
    key-IsAccounted rule rules has_key invalid at proper =
        inl (refused_reported (ap (is_refused engine region) at ∙ rw has_key refl))
    key-IsAccounted rule rules has_key (keyed k) at proper =
        elim (Bool-cases (leb 2 (count_by (bears engine k) (keyed_entries engine region rows)))) [
          | inl several ↦ inl (duplicate_reported k at several)
          | inr few ↦
              let present =
                any_by-mem (bears engine k) (kept k at) (keyed_entries engine region rows)
                  (among k at) (same_key_refl engine laws k) in
              let counted = any_by-count (bears engine k) (keyed_entries engine region rows) in
              inr (inr (k, refl, kept_once k at (ground arith)))
        ]

    -- Where `==` is an equality and the key has fields, a row of the region that the loop does not pass
    -- over is reported, or skipped by the rule for rows without a key, or it stands with its record under
    -- its key.
    pub read_sheet-accounts :
        (rule : ColumnRule engine) (rules : List (ColumnRule engine))
        → region.keys.primary_key ≡ rule ∷ rules
        → IsAccounted (key_of_row engine region row)
    read_sheet-accounts rule rules has_key =
        let key = key_of_row engine region row in
        key-IsAccounted rule rules has_key key refl
          (row_key-proper row.0 (record_of engine region.columns row.1))
