-- ===== src/Audit/Values.antt =====
-- src/excel_auditor/engine.py: what of a value is shown in a report and written into a workbook.
use Prim.Native.String.{◌++◌ as append, count}
use excelflow.Prelude.{
  take_chars, drop_chars, ◌-◌, Bool, true, false, ◌&&◌, not, Option, none, some, String, leb,
  if◌then◌else◌,
}
use excelflow.Audit.{
  FieldType, integer, decimal, date, datetime, boolean, enum, set, json, FormulaMode, formula,
  insert, insert_nothing, InsertAction, Engine, ColumnRule, ParsedValue, SheetActions,
}

abbrev pub is_formula_mode : FormulaMode → Bool
is_formula_mode formula = true
is_formula_mode _ = false

abbrev pub is_datetime : FieldType → Bool
is_datetime datetime = true
is_datetime _ = false

abbrev is_numeric : FieldType → Bool
is_numeric integer = true
is_numeric decimal = true
is_numeric _ = false

abbrev is_insert : InsertAction → Bool
is_insert insert = true
is_insert insert_nothing = false

module _ (engine : Engine) where
  open engine use {
    Value, of_text, text_of, is_formula_text, isoformat, join, datetime_write_safe,
    numeric_write_safe,
  }

  -- the text that stands for a sensitive one
  abbrev masked : String → String
  masked text =
      if leb (count text) 4
      then "****"
      else append (take_chars 2 text) (append "***" (drop_chars (count text - 2) text))

  unfoldable pub safe_value : Option Value → ColumnRule engine → Option Value
  safe_value none rule = none
  safe_value (some v) rule = if rule.sensitive then some (of_text (masked (text_of v))) else some v

  -- the test of a value that is valid and not None
  abbrev is_safe : Value → ColumnRule engine → Bool
  is_safe v rule =
      if is_datetime rule.type
      then datetime_write_safe v rule.timezone
      else if not (is_numeric rule.type)
      then true
      else if is_formula_mode rule.formula_mode && is_formula_text v
      then true
      else numeric_write_safe v

  unfoldable pub excel_write_safe : ParsedValue engine → ColumnRule engine → Bool
  excel_write_safe parsed rule = elim parsed.normalized [
    | none ↦ true
    | some v ↦ if parsed.valid then is_safe v rule else true
  ]

  abbrev written : FieldType → String → Option Value → Value → Option Value
  written decimal separator raw v = some (of_text (text_of v))
  written date separator raw v = some (of_text (isoformat v))
  written datetime separator raw v = some (of_text (isoformat v))
  written set separator raw v = some (of_text (join separator v))
  written json separator raw v = some (of_text (text_of v))
  written integer separator raw v = some v
  written boolean separator raw v = some v
  written enum separator raw v = some v
  written _ separator raw v = raw

  unfoldable pub excel_write_value : ParsedValue engine → ColumnRule engine → Option Value
  excel_write_value parsed rule = elim parsed.normalized [
    | none ↦ none
    | some v ↦ if parsed.valid then written rule.type rule.separator parsed.raw v else none
  ]

  unfoldable pub should_insert_missing : SheetActions → ColumnRule engine → Bool
  should_insert_missing actions column = elim column.missing_column_action [
    | some action ↦ is_insert action
    | none ↦
        if column.required then actions.insert_required_header else actions.insert_optional_header
  ]
