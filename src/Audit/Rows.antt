-- ===== src/Audit/Rows.antt =====
-- src/excel_auditor/engine.py: the loop of `_compare_records` over the rows of a worksheet, which gives
-- each its key, and the loop that takes out the keys of several rows.
pub mod Guarantees
pub mod Reporting
mod Listing
pub mod Accounts
use Prim.Native.String.{◌++◌ as append}
use excelflow.Prelude.{
  ℕ, ◌+◌, ◌-◌, ◌==◌, Bool, true, false, ◌&&◌, ◌||◌, not, List, [], ◌∷◌, ◌++◌, Option, none, some,
  String, leb, any_by, filter_by, drop, if◌then◌else◌,
}
use excelflow.Products.{Dict, get}
use excelflow.Spill.{get_elem?}
use excelflow.Sorting.{sorted}
use excelflow.Audit.{
  Engine, ColumnRule, Parsing, unsupported_feature, empty_primary_key, duplicate_primary_key,
  DifferenceType, Difference, Report, note,
}
use excelflow.Audit.Values.{safe_value}
use excelflow.Audit.Matched.{value_of, is_missing, is_formula}
use excelflow.Audit.Keys.{
  Key, same_key, KeyRules, EmptyKeyAction, report_invalid, skip_row, use_row_number, key_of,
  fallback_key, business_key,
}
use excelflow.Audit.Keys.Collecting.{store, pop}

-- `sorted(set(rows))`
abbrev pub distinct : List ℕ → List ℕ
distinct [] = []
distinct (n ∷ ns) = if any_by (λ m. m == n) ns then distinct ns else n ∷ distinct ns

module _ (engine : Engine) where
  open engine use {Value, of_number, cell_name}

  -- a row of the worksheet with its number
  abbrev pub Row : Type 0
  Row = ℕ × List (Option Value)

  -- what `excel_records` keeps of a row
  abbrev pub Kept : Type 0
  Kept = ℕ × Dict (Option Value)

  abbrev pub Rows : Type 0
  Rows = List (Key engine × List ℕ)

  pub record Region : Type 0 where
    pub parsing : Parsing engine
    pub keys : KeyRules engine
    pub columns : Dict ℕ
    -- `data_region.start_row or header.row + 1`, counted from 1
    pub start_row : ℕ
    -- `row_number in snapshot.hidden_rows`
    pub is_hidden : ℕ → Bool
    pub include_hidden_rows : Bool
    -- `actions.duplicate_key == "mark_purple"`
    pub mark_duplicates : Bool

  -- `excel_records` with `excel_duplicates`, `formula_target_rows`, and the report
  pub record Reading : Type 0 where
    pub records : List (Key engine × Kept) × Rows
    pub target_rows : List ℕ
    pub report : Report engine

  -- how the loop takes a row that is visible and has a value
  pub data RowKey : Type 0 where
    has_formula : List (ColumnRule engine) → RowKey
    skipped invalid : RowKey
    keyed : Key engine → RowKey

  abbrev pub with_value : String → Option Value → Dict (Option Value) → Dict (Option Value)
  with_value name v rest = if is_missing engine v then rest else (name, v) ∷ rest

  -- the record of a row, without the cells that are empty
  unfoldable pub record_of : Dict ℕ → List (Option Value) → Dict (Option Value)
  record_of [] values = []
  record_of ((name, index) ∷ columns) values = elim (get_elem? values (index - 1)) [
    | none ↦ record_of columns values
    | some v ↦ with_value name v (record_of columns values)
  ]

  -- `excel_duplicates[key].extend(rows)`
  unfoldable pub extend : Key engine → List ℕ → Rows → Rows
  extend key rows [] = (key, rows) ∷ []
  extend key rows ((k, ns) ∷ rest) =
      if same_key engine k key then (k, ns ++ rows) ∷ rest else (k, ns) ∷ extend key rows rest

  abbrev pub mark_rows : Key engine → Kept → Kept → Rows → Rows
  mark_rows key first again duplicates = extend key (first.0 ∷ again.0 ∷ []) duplicates

  module _ (region : Region) where
    abbrev pub formula_key_fields : Dict (Option Value) → List (ColumnRule engine)
    formula_key_fields entry =
        filter_by
          (λ (rule : ColumnRule engine). is_formula engine (value_of engine rule.name entry))
          region.keys.primary_key

    -- a row without a valid key
    abbrev pub without_key : EmptyKeyAction → ℕ → RowKey
    without_key skip_row row = skipped
    without_key use_row_number row = keyed (fallback_key engine (row + 1 - region.start_row))
    without_key report_invalid row = invalid

    abbrev pub by_key : ℕ → Key engine × Bool → RowKey
    by_key row (key, valid) = if valid then keyed key else without_key region.keys.empty_action row

    unfoldable pub row_key : ℕ → Dict (Option Value) → RowKey
    row_key row entry = elim (formula_key_fields entry) [
      | [] ↦
          by_key row (
            key_of engine region.parsing.parse_excel_value entry region.keys (some (of_number row)))
      | rule ∷ rules ↦ has_formula (rule ∷ rules)
    ]

    -- a difference on a row, before its particulars
    abbrev pub row_difference : DifferenceType → ℕ → String → Difference engine
    row_difference type row render_action = record {
      difference_id = "";
      type = type;
      severity = "error";
      cell = none;
      excel_row = some row;
      canonical_field = none;
      business_key = none;
      excel_raw_value = none;
      excel_normalized_value = none;
      standard_raw_value = none;
      standard_normalized_value = none;
      rule_id = none;
      render_action = render_action;
      repair_status = "not_requested";
    }

    -- a difference on the field of a key
    abbrev key_difference :
        DifferenceType
        → ℕ
        → Dict (Option Value)
        → Option String
        → String
        → ColumnRule engine
        → Difference engine
    key_difference type row entry rule_id render_action rule =
        record (row_difference type row render_action) {
          cell = elim (get rule.name region.columns) [
            | none ↦ none
            | some column ↦ some (cell_name column row)
          ];
          canonical_field = some rule.name;
          excel_raw_value = safe_value engine (value_of engine rule.name entry) rule;
          rule_id = rule_id;
        }

    unfoldable pub note_formulas :
        ℕ → Dict (Option Value) → List (ColumnRule engine) → Report engine → Report engine
    note_formulas row entry [] report = report
    note_formulas row entry (rule ∷ rules) report = note_formulas row entry rules (
        note engine
          (key_difference unsupported_feature row entry
            (some (append rule.name ".formula_primary_key")) "mark_purple" rule)
          report)

    -- the key of the rules; one without fields, which is the row's number, is always read
    unfoldable pub note_invalid_key :
        ℕ → Dict (Option Value) → List (ColumnRule engine) → Report engine → Report engine
    note_invalid_key row entry [] report = report
    note_invalid_key row entry (rule ∷ rules) report = note_invalid_key row entry rules (
        note engine
          (key_difference empty_primary_key row entry none
            (if region.mark_duplicates then "mark_purple" else "report_only") rule)
          report)

    abbrev pub take_key : ℕ → Dict (Option Value) → RowKey → Reading → Reading
    take_key row entry (has_formula rules) r = record r {
      report = note_formulas row entry rules r.report;
    }
    take_key row entry skipped r = r
    take_key row entry invalid r = record r {
      report = note_invalid_key row entry region.keys.primary_key r.report;
    }
    take_key row entry (keyed key) r = record r {
      records = store engine mark_rows key (row, entry) r.records;
    }

    -- the rows that the loop passes over
    abbrev pub is_left_out : Row → Bool
    is_left_out (row, values) =
        (region.is_hidden row && not region.include_hidden_rows)
        || elim (record_of region.columns values) [ [] ↦ true | e ∷ es ↦ false ]

    unfoldable pub read_row : Row → Reading → Reading
    read_row (row, values) r =
        if is_left_out (row, values)
        then r
        else (let entry = record_of region.columns values in
            take_key row entry (row_key row entry)
              (record r { target_rows = r.target_rows ++ row ∷ [] }))

    unfoldable pub read_rows : List Row → Reading → Reading
    read_rows [] r = r
    read_rows (row ∷ rows) r = read_rows rows (read_row row r)

    unfoldable pub note_rows : Key engine → List ℕ → Report engine → Report engine
    note_rows key [] report = report
    note_rows key (row ∷ rows) report = note_rows key rows (
        note engine
          (record (row_difference duplicate_primary_key row
            (if region.mark_duplicates then "mark_row_purple" else "report_only")) {
              business_key = some (business_key engine region.keys key);
            })
          report)

    -- the loop over `excel_duplicates`
    unfoldable pub drop_duplicates :
        Rows → List (Key engine × Kept) → Report engine → List (Key engine × Kept) × Report engine
    drop_duplicates [] records report = (records, report)
    drop_duplicates ((key, rows) ∷ duplicates) records report =
        drop_duplicates duplicates (pop engine key records)
          (note_rows key (sorted leb (distinct rows)) report)

    -- the values that both loops start with
    abbrev pub unread : Report engine → Reading
    unread report = record { records = ([], []); target_rows = []; report = report }

    -- `snapshot.rows[start_row - 1 :]`
    abbrev pub region_rows : List Row → List Row
    region_rows rows = drop (region.start_row - 1) rows

    -- Both loops over the rows of a snapshot: `excel_records`, `excel_duplicates`, and the report.
    unfoldable pub read_sheet :
        List Row → Report engine → List (Key engine × Kept) × Rows × Report engine
    read_sheet rows report =
        let r = read_rows (region_rows rows) (unread report) in
        let (records, reported) = drop_duplicates r.records.1 r.records.0 r.report in
        (records, r.records.1, reported)
