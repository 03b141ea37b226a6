-- ===== src/Audit/Rows/Reporting.antt =====
-- src/excel_auditor/engine.py: what the loops over the rows have reported stays reported.
use mathlib.Core.Path.{subst}
use mathlib.Core.List.{Memᴰ}
use mathlib.Core.List.Memᴰ.{head, tail}
use excelflow.Prelude.{
  ◌∙◌, ◌≡◌, refl, ℕ, ◌==◌, ◌||◌, Bool, true, false, List, [], ◌∷◌, ◌++◌, String, if_keeps, Option,
  some, holds, leb, any_by, any_by-append, arith,
}
use excelflow.Sorting.{sorted}
use excelflow.Audit.{Engine, ColumnRule, Difference, Report, note}
use excelflow.Audit.Keys.{Key}
use excelflow.Audit.Rows.{
  Row, Kept, Rows, Region, Reading, RowKey, has_formula, skipped, invalid, keyed, record_of,
  row_key, is_left_out, note_formulas, note_invalid_key, take_key, read_row, read_rows, note_rows,
  drop_duplicates, distinct,
}

module _ (engine : Engine) where
  -- a difference of the report names the row
  abbrev pub is_reported : ℕ → Report engine → Bool
  is_reported n report =
      any_by (λ (d : Difference engine). holds (λ row. row == n) d.excel_row) report.differences

  is_reported-note :
      (n : ℕ) (d : Difference engine) (report : Report engine)
      → is_reported n (note engine d report)
        ≡ (is_reported n report || holds (λ row. row == n) d.excel_row)
  unfolding note
  is_reported-note n d report =
      any_by-append (λ (d : Difference engine). holds (λ row. row == n) d.excel_row)
        report.differences (record d { difference_id = engine.new_id report.drawn } ∷ [])
      ∙ ground arith

  abbrev Entry : Type 0
  Entry = List (String × Option engine.Value)

  module _ (Q : Report engine → Type 0)
      (note_keeps : (d : Difference engine) (report : Report engine)
        → Q report
        → Q (note engine d report))
      (region : Region engine) where
    -- what every difference keeps, the loops over the rows keep
    note_formulas_keeps :
        (row : ℕ) (entry : Entry) (rules : List (ColumnRule engine)) (report : Report engine)
        → Q report
        → Q (note_formulas engine region row entry rules report)
    unfolding note_formulas
    note_formulas_keeps row entry [] report q = q
    note_formulas_keeps row entry (rule ∷ rules) report q =
        note_formulas_keeps row entry rules _ (note_keeps _ report q)

    note_invalid_key_keeps :
        (row : ℕ) (entry : Entry) (rules : List (ColumnRule engine)) (report : Report engine)
        → Q report
        → Q (note_invalid_key engine region row entry rules report)
    unfolding note_invalid_key
    note_invalid_key_keeps row entry [] report q = q
    note_invalid_key_keeps row entry (rule ∷ rules) report q =
        note_invalid_key_keeps row entry rules _ (note_keeps _ report q)

    pub note_rows_keeps :
        (key : Key engine) (rows : List ℕ) (report : Report engine)
        → Q report
        → Q (note_rows engine region key rows report)
    unfolding note_rows
    note_rows_keeps key [] report q = q
    note_rows_keeps key (row ∷ rows) report q = note_rows_keeps key rows _ (note_keeps _ report q)

    take_key_keeps :
        (row : ℕ) (entry : Entry) (key : RowKey engine) (r : Reading engine)
        → Q r.report
        → Q (take_key engine region row entry key r).report
    take_key_keeps row entry (has_formula rules) r q =
        note_formulas_keeps row entry rules r.report q
    take_key_keeps row entry skipped r q = q
    take_key_keeps row entry invalid r q =
        note_invalid_key_keeps row entry region.keys.primary_key r.report q
    take_key_keeps row entry (keyed key) r q = q

    pub read_rows_keeps :
        (rows : List (Row engine)) (r : Reading engine)
        → Q r.report
        → Q (read_rows engine region rows r).report
    unfolding read_rows read_row
    read_rows_keeps [] r q = q
    read_rows_keeps ((row, values) ∷ rows) r q = read_rows_keeps rows _ (
        if_keeps (λ (later : Reading engine). Q later.report)
          (is_left_out engine region (row, values)) (λ out. q)
          (λ read.
            take_key_keeps row (record_of engine region.columns values)
              (row_key engine region row (record_of engine region.columns values)) _ q))

    pub drop_duplicates_keeps :
        (duplicates : Rows engine) (records : List (Key engine × Kept engine))
        (report : Report engine)
        → Q report
        → Q (drop_duplicates engine region duplicates records report).1
    unfolding drop_duplicates
    drop_duplicates_keeps [] records report q = q
    drop_duplicates_keeps ((key, rows) ∷ duplicates) records report q =
        drop_duplicates_keeps duplicates _ _
          (note_rows_keeps key (sorted leb (distinct rows)) report q)

  -- a row that has been reported stays so
  pub stays :
      (n : ℕ) (d : Difference engine) (report : Report engine)
      → is_reported n report ≡ true
      → is_reported n (note engine d report) ≡ true
  stays n d report told = ground (arith, is_reported-note n d report)

  pub told_at_once :
      (n : ℕ) (d : Difference engine) (report : Report engine)
      → d.excel_row ≡ some n
      → is_reported n (note engine d report) ≡ true
  told_at_once n d report at = ground (arith, is_reported-note n d report)

  module _ (region : Region engine) where
    abbrev is_nonempty : List (ColumnRule engine) → Bool
    is_nonempty [] = false
    is_nonempty (rule ∷ rules) = true

    -- a row that the loop reports at once
    abbrev pub is_refused : RowKey engine → Bool
    is_refused (has_formula rules) = is_nonempty rules
    is_refused invalid = is_nonempty region.keys.primary_key
    is_refused _ = false

    invalid_reports :
        (row : ℕ) (entry : Entry) (rules : List (ColumnRule engine)) (report : Report engine)
        → is_nonempty rules ≡ true
        → is_reported row (note_invalid_key engine region row entry rules report) ≡ true
    unfolding note_invalid_key
    invalid_reports row entry [] report some_rule = cc
    invalid_reports row entry (rule ∷ rules) report some_rule =
        note_invalid_key_keeps (λ later. is_reported row later ≡ true) (stays row) region row entry
          rules _ (told_at_once row _ report refl)

    take_key-reports :
        (row : ℕ) (entry : Entry) (key : RowKey engine) (r : Reading engine)
        → is_refused key ≡ true
        → is_reported row (take_key engine region row entry key r).report ≡ true
    unfolding note_formulas
    take_key-reports row entry (has_formula []) r refused = cc
    take_key-reports row entry (has_formula (rule ∷ rules)) r refused =
        note_formulas_keeps (λ later. is_reported row later ≡ true) (stays row) region row entry
          rules _ (told_at_once row _ r.report refl)
    take_key-reports row entry skipped r refused = cc
    take_key-reports row entry invalid r refused =
        invalid_reports row entry region.keys.primary_key r.report refused
    take_key-reports row entry (keyed key) r refused = cc

    abbrev pub key_of_row : Row engine → RowKey engine
    key_of_row row = row_key engine region row.0 (record_of engine region.columns row.1)

    read_row-reports :
        (row : Row engine) (r : Reading engine)
        → is_left_out engine region row ≡ false
        → is_refused (key_of_row row) ≡ true
        → is_reported row.0 (read_row engine region row r).report ≡ true
    unfolding read_row
    read_row-reports (n, values) r read refused = rw read (
        take_key-reports n (record_of engine region.columns values) (key_of_row (n, values))
          (record r { target_rows = r.target_rows ++ n ∷ [] }) refused)

    pub read_rows-reports :
        (rows : List (Row engine)) (r : Reading engine) (row : Row engine)
        → Memᴰ row rows
        → is_left_out engine region row ≡ false
        → is_refused (key_of_row row) ≡ true
        → is_reported row.0 (read_rows engine region rows r).report ≡ true
    unfolding read_rows
    read_rows-reports [] r row mem read refused = elim mem [ ]
    read_rows-reports (x ∷ rows) r row (tail mem) read refused =
        read_rows-reports rows _ row mem read refused
    read_rows-reports (x ∷ rows) r row (head same) read refused =
        read_rows_keeps (λ later. is_reported row.0 later ≡ true) (stays row.0) region rows _
          (subst (λ y. is_reported row.0 (read_row engine region y r).report ≡ true) same
            (read_row-reports row r read refused))
