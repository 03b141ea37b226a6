-- ===== src/Audit/Missing.antt =====
-- src/excel_auditor/engine.py: the loop of `_compare_records` over the records that only the standard
-- has, which reports each and appends it under the last row where that is allowed.
pub mod Guarantees
use Prim.Native.String.{◌++◌ as append}
use excelflow.Prelude.{
  ℕ, ◌+◌, Bool, true, false, ◌&&◌, ◌||◌, not, List, [], ◌∷◌, ◌++◌, map, Option, none, some, String,
  holds, is_some, find_by, filter_by, str_eq, length, ◌==◌, if◌then◌else◌,
}
use excelflow.Products.{Dict}
use excelflow.Audit.{
  Engine, ColumnRule, ParsedValue, Parsing, missing_record, unsupported_feature, Difference,
  append_record, RepairOperation, Report, note, plan,
}
use excelflow.Audit.Values.{
  is_formula_mode, is_datetime, safe_value, excel_write_safe, excel_write_value,
}
use excelflow.Audit.Matched.{value_of, is_formula, is_text, key_or_none}

module _ (engine : Engine) where
  open engine use {Value, expand, of_record}

  -- A record of the standard: `business_key` is what `_business_key` gives for its key, `key_row` is
  -- `key[0][1]`, and `is_duplicate` says whether the key stands in several rows of the workbook.
  pub record Missing : Type 0 where
    pub entry : Dict (Option Value)
    pub business_key : Dict (Option Value)
    pub key_row : ℕ
    pub is_duplicate : Bool

  pub record Appending : Type 0 where
    pub parsing : Parsing engine
    pub rules : List (ColumnRule engine)
    -- `primary_key_mode == "row_number"`
    pub by_row_number : Bool
    -- `actions.missing_record == "append_and_mark_green"`
    pub append_requested : Bool

  module _ (sheet : Appending) where
    open sheet.parsing use {parse_value}

    -- `_safe_record`
    abbrev pub safe_record : Dict (Option Value) → Dict (Option Value)
    safe_record [] = []
    safe_record ((name, v) ∷ rest) =
        (
          name,
          elim (find_by (λ (r : ColumnRule engine). str_eq r.name name) sheet.rules) [
            | none ↦ v
            | some rule ↦ safe_value engine v rule
          ],
        )
        ∷ safe_record rest

    module _ (m : Missing) (append_row : ℕ) where
      abbrev pub parsed : ColumnRule engine → ParsedValue engine
      parsed rule = parse_value (value_of engine rule.name m.entry) rule

      -- a formula that the template of its column does not give for this row
      abbrev pub is_unsafe_formula : ColumnRule engine → Bool
      is_unsafe_formula rule =
          is_formula_mode rule.formula_mode
          && (is_formula engine (value_of engine rule.name m.entry) && elim rule.formula_template [
            | none ↦ true
            | some template ↦
                not
                  (is_text engine (expand template append_row) (value_of engine rule.name m.entry))
          ])

      abbrev pub is_unsafe_write : ColumnRule engine → Bool
      is_unsafe_write rule = not (excel_write_safe engine (parsed rule) rule)

      abbrev pub unsafe_formula_fields : List (ColumnRule engine)
      unsafe_formula_fields =
          if sheet.append_requested then filter_by is_unsafe_formula sheet.rules else []

      abbrev pub unsafe_write_fields : List (ColumnRule engine)
      unsafe_write_fields =
          if sheet.append_requested then filter_by is_unsafe_write sheet.rules else []

      abbrev pub requested_row : ℕ
      requested_row = if sheet.by_row_number then m.key_row else append_row

      abbrev pub formula_append_blocked : Bool
      formula_append_blocked = not (length unsafe_formula_fields == 0)

      abbrev pub write_append_blocked : Bool
      write_append_blocked = not (length unsafe_write_fields == 0)

      -- `append`
      abbrev pub appends : Bool
      appends =
          sheet.append_requested
          && (not m.is_duplicate
              && (requested_row == append_row
                  && (not formula_append_blocked && not write_append_blocked)))

      abbrev pub missing_rule_id : Option String
      missing_rule_id =
          if appends
          then some "missing_record.append"
          else if formula_append_blocked
          then some "missing_record.formula_template_required"
          else if write_append_blocked
          then some (
              if length
                  (filter_by (λ (r : ColumnRule engine). is_datetime r.type) unsafe_write_fields)
                == 0
              then "missing_record.numeric_write_blocked"
              else "missing_record.datetime_write_blocked")
          else none

      abbrev pub missing_difference : Difference engine
      missing_difference = record {
        difference_id = "";
        type = missing_record;
        severity = "error";
        cell = none;
        excel_row = if appends then some append_row else none;
        canonical_field = none;
        business_key = some m.business_key;
        excel_raw_value = none;
        excel_normalized_value = none;
        standard_raw_value = some (of_record (safe_record m.entry));
        standard_normalized_value = none;
        rule_id = missing_rule_id;
        render_action = if appends then "append_row_green" else "report_only";
        repair_status = if appends then "planned" else "not_requested";
      }

      -- the values of the new row
      abbrev pub write_record : List (ColumnRule engine) → Dict (Option Value)
      write_record [] = []
      write_record (rule ∷ rules) =
          (rule.name, excel_write_value engine (parsed rule) rule) ∷ write_record rules

      abbrev pub append_repair : RepairOperation engine
      append_repair = record {
        type = append_record;
        rule_id = "missing_record.append";
        difference_id = "";
        cell = none;
        excel_row = some append_row;
        canonical_field = none;
        value = none;
        values = some (write_record sheet.rules);
      }

      -- `_append_excel_write_safety_difference` without a row
      abbrev pub unsafe_difference : ColumnRule engine → Difference engine
      unsafe_difference rule = record missing_difference {
        type = unsupported_feature;
        excel_row = none;
        canonical_field = some rule.name;
        business_key = key_or_none engine m.business_key;
        standard_raw_value = safe_value engine (parsed rule).raw rule;
        standard_normalized_value = safe_value engine (parsed rule).normalized rule;
        rule_id = some (
            append rule.name (
              if is_datetime rule.type then ".excel_write_timezone" else ".excel_write_precision"));
        render_action = "report_only";
        repair_status = "not_requested";
      }

      unfoldable pub note_all : List (ColumnRule engine) → Report engine → Report engine
      note_all [] report = report
      note_all (rule ∷ rules) report = note_all rules (note engine (unsafe_difference rule) report)

    -- the difference of a missing record, and its repair where it is appended
    abbrev pub report_missing : Missing → ℕ → Report engine → ℕ × Report engine
    report_missing m append_row report =
        if appends m append_row
        then (
          append_row + 1,
          plan engine (missing_difference m append_row) (append_repair m append_row) report,
        )
        else (append_row, note engine (missing_difference m append_row) report)

    -- the loop over `standard_only`
    unfoldable pub append_missing : List Missing → ℕ → Report engine → Report engine
    append_missing [] append_row report = report
    append_missing (m ∷ ms) append_row report =
        let noted = note_all m append_row (unsafe_write_fields m append_row) report in
        let (next_row, reported) = report_missing m append_row noted in
        append_missing ms next_row reported
