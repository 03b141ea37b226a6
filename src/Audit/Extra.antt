-- ===== src/Audit/Extra.antt =====
-- src/excel_auditor/engine.py: the loop of `_compare_records` over the records that only the workbook
-- has, which reports each and fills its empty cells with the static defaults of their columns.
pub mod Guarantees
use excelflow.Prelude.{
  ℕ, Bool, true, false, ◌&&◌, not, List, [], ◌∷◌, Option, none, some, String, str_eq, is_some,
  find_by, if◌then◌else◌,
}
use excelflow.Products.{Dict}
use excelflow.Audit.{
  Engine, ColumnRule, ParsedValue, normalized_match, extra_record, set_cell, Difference, Report,
  note,
}
use excelflow.Audit.Values.{safe_value, excel_write_safe, excel_write_value}
use excelflow.Audit.Matched.{Matched, Sheet, value_of, difference, planned, note_unsafe, plan_value}

module _ (engine : Engine) (sheet : Sheet engine) (mark_red : Bool) where
  open engine use {Value, cell_name}
  open sheet.parsing use {parse_value, parse_excel_value}

  -- A record of the workbook is a pair without a record of the standard.
  module _ (m : Matched engine) where
    -- the test of a cell that is empty and has a default
    abbrev pub takes_default : ColumnRule engine → Bool
    takes_default rule =
        let parsed = parse_excel_value (value_of engine rule.name m.excel_record) rule in
        parsed.valid && (not (is_some parsed.normalized) && rule.fill_static_default)

    abbrev default_difference : ColumnRule engine → String → Difference engine
    default_difference rule cell =
        record (planned engine sheet m rule
          (difference engine sheet m rule normalized_match (some cell) ".fill_static_default" "")
          "set_cell_green") {
            excel_raw_value =
                safe_value engine
                  (parse_excel_value (value_of engine rule.name m.excel_record) rule).raw rule;
            standard_raw_value = safe_value engine rule.static_default rule;
          }

    abbrev pub write_default : ColumnRule engine → String → Report engine → Report engine
    write_default rule cell report =
        let default = parse_value rule.static_default rule in
        if not (excel_write_safe engine default rule)
        then note_unsafe engine sheet m rule (some cell) default report
        else plan_value engine sheet m rule set_cell ".fill_static_default" (some cell)
            (default_difference rule cell) (excel_write_value engine default rule) report

    unfoldable pub fill_cell : ColumnRule engine → ℕ → Report engine → Report engine
    fill_cell rule column report =
        if takes_default rule
        then write_default rule (cell_name column m.row_number) report
        else report

    abbrev pub rule_of : String → Option (ColumnRule engine)
    rule_of name = find_by (λ (rule : ColumnRule engine). str_eq rule.name name) sheet.rules

    -- the loop over the columns, each of which is the column of a rule
    unfoldable pub fill_cells : Dict ℕ → Report engine → Report engine
    fill_cells [] report = report
    fill_cells ((name, column) ∷ columns) report =
        fill_cells columns
          (elim (rule_of name) [ none ↦ report | some rule ↦ fill_cell rule column report ])

    abbrev pub extra_difference : Difference engine
    extra_difference = record {
      difference_id = "";
      type = extra_record;
      severity = "error";
      cell = none;
      excel_row = some m.row_number;
      canonical_field = none;
      business_key = some m.business_key;
      excel_raw_value = none;
      excel_normalized_value = none;
      standard_raw_value = none;
      standard_normalized_value = none;
      rule_id = none;
      render_action = if mark_red then "mark_row_red" else "report_only";
      repair_status = "not_requested";
    }

  -- the loop over `excel_only`
  unfoldable pub report_extra : List (Matched engine) → Report engine → Report engine
  report_extra [] report = report
  report_extra (m ∷ ms) report =
      report_extra ms (fill_cells m sheet.columns (note engine (extra_difference m) report))
