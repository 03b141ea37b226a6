-- ===== src/Audit/Matched.antt =====
-- src/excel_auditor/engine.py: the loop of `_compare_records` over the matched records, which reports
-- what differs from the standard and plans the repairs that the rules of the sheet allow.
pub mod Permits
pub mod Fields
pub mod Reports
pub mod Guarantees
use Prim.Native.String.{◌++◌ as append}
use excelflow.Prelude.{
  ℕ, ◌+◌, Bool, true, false, ◌&&◌, ◌||◌, not, List, [], ◌∷◌, ◌++◌, Option, none, some, String,
  holds, is_some, if◌then◌else◌,
}
use excelflow.Products.{Dict, get}
use excelflow.Audit.{
  FieldType, fuzzy_string, datetime, FormulaMode, reject, Engine, ColumnRule, ParsedValue, Parsing,
  SheetActions, DifferenceType, value_mismatch, invalid_value, normalized_match,
  unsupported_feature, Difference, RepairType, set_cell, set_field, RepairOperation, Report, note,
  plan,
}
use excelflow.Audit.Values.{
  is_formula_mode, is_datetime, safe_value, excel_write_safe, excel_write_value,
  should_insert_missing,
}

abbrev pub is_reject : FormulaMode → Bool
is_reject reject = true
is_reject _ = false

abbrev pub is_fuzzy : FieldType → Bool
is_fuzzy fuzzy_string = true
is_fuzzy _ = false

module _ (engine : Engine) where
  open engine use {Value, of_text, text_of, same_value, is_formula_text, expand, cell_name}

  -- A pair of records of one key: `business_key` is what `_business_key` gives for it.
  pub record Matched : Type 0 where
    pub row_number : ℕ
    pub excel_record : Dict (Option Value)
    pub standard_record : Dict (Option Value)
    pub business_key : Dict (Option Value)

  -- `_business_key(key, sheet) if key else None`: the dictionary is empty exactly if the key is.
  abbrev pub key_or_none : Dict (Option Value) → Option (Dict (Option Value))
  key_or_none [] = none
  key_or_none (e ∷ es) = some (e ∷ es)

  -- `record.get(name)`
  abbrev pub value_of : String → Dict (Option Value) → Option Value
  value_of name record_ = elim (get name record_) [ none ↦ none | some v ↦ v ]

  -- `value is None or value == ""`
  abbrev pub is_missing : Option Value → Bool
  is_missing none = true
  is_missing (some v) = same_value v (of_text "")

  abbrev pub is_formula : Option Value → Bool
  is_formula v = holds is_formula_text v

  -- `value == text`
  abbrev pub is_text : String → Option Value → Bool
  is_text text v = holds (λ w. same_value w (of_text text)) v

  abbrev pub are_same : Option Value → Option Value → Bool
  are_same (some v) (some w) = same_value v w
  are_same none none = true
  are_same _ _ = false

  -- what every sheet of one workbook shares, and the columns that the headers are mapped to
  pub record Sheet : Type 0 where
    pub parsing : Parsing engine
    pub actions : SheetActions
    pub rules : List (ColumnRule engine)
    pub columns : Dict ℕ
    pub cached_values : Dict (Option Value)

  module _ (sheet : Sheet) (m : Matched) (rule : ColumnRule engine) where
    open sheet.parsing use {parse_value, parse_excel_value, values_equal}

    abbrev pub suffixed : String → String
    suffixed text = append rule.name text

    -- a difference on this column and row, before its particulars
    abbrev pub difference : DifferenceType → Option String → String → String → Difference engine
    difference type cell rule_id render_action = record {
      difference_id = "";
      type = type;
      severity = "error";
      cell = cell;
      excel_row = some m.row_number;
      canonical_field = some rule.name;
      business_key = some m.business_key;
      excel_raw_value = none;
      excel_normalized_value = none;
      standard_raw_value = none;
      standard_normalized_value = none;
      rule_id = some (suffixed rule_id);
      render_action = render_action;
      repair_status = "not_requested";
    }

    abbrev pub planned : Difference engine → String → Difference engine
    planned d render_action = record d {
      severity = "info";
      render_action = render_action;
      repair_status = "planned";
    }

    abbrev pub repair_of :
        RepairType → String → Option String → Option Value → RepairOperation engine
    repair_of type rule_id cell value = record {
      type = type;
      rule_id = suffixed rule_id;
      difference_id = "";
      cell = cell;
      excel_row = elim cell [ none ↦ some m.row_number | some c ↦ none ];
      canonical_field = some rule.name;
      value = value;
      values = none;
    }

    -- `_append_excel_write_safety_difference`
    unfoldable pub note_unsafe : Option String → ParsedValue engine → Report engine → Report engine
    note_unsafe cell parsed report =
        note engine
          (record (difference unsupported_feature cell
            (if is_datetime rule.type then ".excel_write_timezone" else ".excel_write_precision")
            "report_only") {
              business_key = key_or_none m.business_key;
              standard_raw_value = safe_value engine parsed.raw rule;
              standard_normalized_value = safe_value engine parsed.normalized rule;
            })
          report

    -- `_append_formula_cached_write_blocked`
    unfoldable pub note_blocked :
        String
        → Option Value
        → ParsedValue engine
        → ParsedValue engine
        → Report engine
        → Report engine
    note_blocked cell formula_raw cached standard report =
        note engine
          (record (difference unsupported_feature (some cell) ".formula_cached_write_blocked"
            "report_only") {
              excel_raw_value = safe_value engine formula_raw rule;
              excel_normalized_value = safe_value engine cached.normalized rule;
              standard_raw_value = safe_value engine standard.raw rule;
              standard_normalized_value = safe_value engine standard.normalized rule;
            })
          report

    -- A repair of this cell (or of this field, without a cell), with the difference that announces it.
    unfoldable pub plan_value :
        RepairType
        → String
        → Option String
        → Difference engine
        → Option Value
        → Report engine
        → Report engine
    plan_value type rule_id cell d value report =
        plan engine d (repair_of type rule_id cell value) report

    -- The branch of a field whose column is missing and is to be inserted.
    unfoldable pub fill_inserted :
        ParsedValue engine → String → Option Value → Report engine → Report engine
    fill_inserted parsed rule_id shown report =
        if excel_write_safe engine parsed rule
        then plan_value set_field rule_id none
            (record (planned (difference normalized_match none rule_id "") "set_field_green") {
              standard_raw_value = safe_value engine shown rule;
            })
            (excel_write_value engine parsed rule) report
        else note_unsafe none parsed report

    unfoldable pub compare_template : String → Report engine → Report engine
    compare_template template report =
        let expected = expand template m.row_number in
        if is_some (get rule.name m.standard_record)
          && not (is_text expected (value_of rule.name m.standard_record))
        then note engine
            (record (difference value_mismatch none ".formula_template_mismatch" "report_only") {
              standard_raw_value = safe_value engine (value_of rule.name m.standard_record) rule;
              standard_normalized_value = safe_value engine (some (of_text expected)) rule;
            })
            report
        else report

    unfoldable pub insert_value : Report engine → Report engine
    insert_value report =
        let right = parse_value (value_of rule.name m.standard_record) rule in
        if sheet.actions.fill_empty_from_standard && (right.valid && is_some right.normalized)
        then fill_inserted right ".fill_empty_from_standard" right.raw report
        else if rule.fill_static_default
        then fill_inserted (parse_value rule.static_default rule) ".fill_static_default"
            rule.static_default report
        else report

    unfoldable pub compare_absent : Report engine → Report engine
    compare_absent report =
        if should_insert_missing engine sheet.actions rule
        then (elim rule.formula_template [
          | some template ↦ compare_template template report
          | none ↦ insert_value report
        ])
        else report

    module _ (cell : String) where
      -- what the cell holds, before a formula is replaced by its cached value
      abbrev pub excel_cell_raw : Option Value
      excel_cell_raw = value_of rule.name m.excel_record

      abbrev pub right_raw : Option Value
      right_raw = value_of rule.name m.standard_record

      abbrev pub mismatch :
          ParsedValue engine → ParsedValue engine → String → String → Difference engine
      mismatch left right rule_id render_action =
          record (difference value_mismatch (some cell) rule_id render_action) {
            excel_raw_value = safe_value engine excel_cell_raw rule;
            excel_normalized_value = safe_value engine left.normalized rule;
            standard_raw_value = safe_value engine right.raw rule;
            standard_normalized_value = safe_value engine right.normalized rule;
          }

      unfoldable pub note_formula : Report engine → Report engine
      note_formula report =
          note engine
            (record (difference value_mismatch (some cell) ".formula_text"
              sheet.actions.mismatched_value) {
                excel_raw_value = safe_value engine excel_cell_raw rule;
                standard_raw_value = safe_value engine right_raw rule;
              })
            report

      unfoldable pub note_invalid : ParsedValue engine → Report engine → Report engine
      note_invalid right report =
          note engine
            (record (difference invalid_value (some cell) ".standard_parse" "report_only") {
              standard_raw_value = safe_value engine right.raw rule;
            })
            report

      abbrev pub can_fill : ParsedValue engine → ParsedValue engine → Bool
      can_fill left right =
          not (is_some left.normalized)
          && (is_some right.normalized && sheet.actions.fill_empty_from_standard)

      unfoldable pub note_mismatch :
          ParsedValue engine → ParsedValue engine → Report engine → Report engine
      note_mismatch left right report =
          note engine (mismatch left right (append "." rule.mode) sheet.actions.mismatched_value)
            report

      unfoldable pub note_fuzzy :
          ParsedValue engine → ParsedValue engine → Report engine → Report engine
      note_fuzzy left right report =
          note engine
            (record (mismatch left right ".fuzzy_suggestion" "mark_purple") {
              excel_raw_value = safe_value engine left.raw rule;
              severity = "warning";
            })
            report

      -- The branch of two values that are not equal.
      unfoldable pub compare_unequal :
          ParsedValue engine → ParsedValue engine → Report engine → Report engine
      compare_unequal left right report =
          let repair = can_fill left right || sheet.actions.overwrite_mismatch in
          if is_fuzzy rule.type
          then note_fuzzy left right report
          else if repair && is_formula excel_cell_raw
          then note_mismatch left right (note_blocked cell excel_cell_raw left right report)
          else if repair && not (excel_write_safe engine right rule)
          then note_mismatch left right (note_unsafe (some cell) right report)
          else if repair
          then plan_value set_cell
              (if can_fill left right then ".fill_empty_from_standard" else ".overwrite_mismatch")
              (some cell)
              (record (mismatch left right (append "." rule.mode) "set_cell_green") {
                repair_status = "planned";
              })
              (excel_write_value engine right rule) report
          else note_mismatch left right report

      -- The branch of an empty cell with a default value.
      unfoldable pub fill_default :
          ParsedValue engine → ParsedValue engine → Report engine → Report engine
      fill_default left default report =
          if is_formula excel_cell_raw
          then note_blocked cell excel_cell_raw left default report
          else if not (excel_write_safe engine default rule)
          then note_unsafe (some cell) default report
          else plan_value set_cell ".fill_static_default" (some cell)
              (record (planned (difference normalized_match (some cell) ".fill_static_default" "")
                "set_cell_green") {
                  standard_raw_value = safe_value engine rule.static_default rule;
                })
              (excel_write_value engine default rule) report

      unfoldable pub compare_values : Option Value → Report engine → Report engine
      compare_values left_raw report =
          let left = parse_excel_value left_raw rule in
          let right = parse_value right_raw rule in
          if is_missing left_raw && (is_missing right_raw && not rule.fill_static_default)
          then report
          else if not left.valid
          then report
          else if not right.valid
          then note_invalid right report
          else if not (values_equal left right rule)
          then compare_unequal left right report
          else if not (is_some left.normalized) && rule.fill_static_default
          then fill_default left (parse_value rule.static_default rule) report
          else report

      unfoldable pub compare_present : Report engine → Report engine
      compare_present report =
          if not (is_some (get rule.name m.standard_record))
            && not (is_missing excel_cell_raw && rule.fill_static_default)
          then report
          else if is_formula_mode rule.formula_mode
              && (is_formula excel_cell_raw || is_formula right_raw)
          then (if is_formula excel_cell_raw
                && (is_formula right_raw && are_same excel_cell_raw right_raw)
              then report
              else note_formula report)
          else if is_formula excel_cell_raw
          then (if is_reject rule.formula_mode
              then report
              else compare_values (value_of cell sheet.cached_values) report)
          else compare_values excel_cell_raw report

    -- the body of the loop over the columns
    unfoldable pub compare_field : Report engine → Report engine
    compare_field report = elim (get rule.name sheet.columns) [
      | none ↦ compare_absent report
      | some column ↦ compare_present (cell_name column m.row_number) report
    ]

  unfoldable pub compare_fields :
      Sheet → Matched → List (ColumnRule engine) → Report engine → Report engine
  compare_fields sheet m [] report = report
  compare_fields sheet m (rule ∷ rules) report =
      compare_fields sheet m rules (compare_field sheet m rule report)

  -- the loop over the matched keys
  unfoldable pub compare_matched : Sheet → List Matched → Report engine → Report engine
  compare_matched sheet [] report = report
  compare_matched sheet (m ∷ ms) report =
      compare_matched sheet ms (compare_fields sheet m sheet.rules report)
