-- ===== src/Audit.antt =====
-- src/excel_auditor/engine.py and models.py: the rules of a sheet, and the differences and repairs that
-- an audit of a workbook plans. The texts of messages, and the sheet that all items of one call name,
-- are left out.
pub mod Values
pub mod Headers
pub mod Matched
pub mod Missing
pub mod Keys
pub mod Rows
pub mod Standards
pub mod Joining
pub mod Extra
pub mod Partitions
use excelflow.Prelude.{
  ℕ, ◌+◌, Bool, true, false, List, [], ◌∷◌, ◌++◌, Option, none, some, String, if◌then◌else◌,
}
use excelflow.Products.{Dict}

pub data FieldType : Type 0 where
  string integer decimal date datetime boolean enum phone id_code postal_code set json
        fuzzy_string :
      FieldType

pub data FormulaMode : Type 0 where
  formula cached_value reject : FormulaMode

pub data InsertAction : Type 0 where
  insert insert_nothing : InsertAction

-- What the engine takes from normalization.py (whose functions stand on decimal, datetime and zoneinfo),
-- from openpyxl, from `str`, and from the supply of identifiers. `Value` has the values other than None,
-- before and after normalisation.
pub record Engine : Type 1 where
  pub Value : Type 0
  pub of_text : String → Value
  pub text_of : Value → String
  pub same_value : Value → Value → Bool
  pub is_formula_text : Value → Bool
  pub isoformat : Value → String
  pub join : String → Value → String
  pub datetime_write_safe : Value → Option String → Bool
  pub numeric_write_safe : Value → Bool
  -- `template.replace("{row}", str(row))`
  pub expand : String → ℕ → String
  -- `get_column_letter(column)` and the number of the row
  pub cell_name : ℕ → ℕ → String
  -- the identifier that the n-th call of `new_ulid` gives
  pub new_id : ℕ → String
  pub of_number : ℕ → Value
  -- the number of an integer that is not a bool, or of a text of decimal digits; a negative one has none
  pub integer_of : Value → Option ℕ
  -- `str` of a tuple of pairs
  pub text_of_key : List (String × Value) → String
  -- a dictionary as a value
  pub of_record : List (String × Option Value) → Value

module _ (engine : Engine) where
  open engine use {Value, new_id}

  -- The members of `ColumnRule` and its `CompareConfig` that are read.
  pub record ColumnRule : Type 0 where
    pub name : String
    pub required : Bool
    pub type : FieldType
    pub mode : String
    pub timezone : Option String
    pub formula_mode : FormulaMode
    pub formula_template : Option String
    pub separator : String
    pub missing_column_action : Option InsertAction
    pub fill_static_default : Bool
    pub static_default : Option Value
    pub sensitive : Bool

  pub record ParsedValue : Type 0 where
    pub raw : Option Value
    pub normalized : Option Value
    pub valid : Bool

  -- `parse_value`, `parse_excel_value` with the epoch of the workbook, and `values_equal`
  pub record Parsing : Type 0 where
    pub parse_value : Option Value → ColumnRule → ParsedValue
    pub parse_excel_value : Option Value → ColumnRule → ParsedValue
    pub values_equal : ParsedValue → ParsedValue → ColumnRule → Bool

-- The members of `SheetActions` that are read; the two of missing headers say whether they are
-- "insert_and_mark_green".
pub record SheetActions : Type 0 where
  pub insert_required_header : Bool
  pub insert_optional_header : Bool
  pub mismatched_value : String
  pub fill_empty_from_standard : Bool
  pub overwrite_mismatch : Bool

pub data DifferenceType : Type 0 where
  value_mismatch invalid_value normalized_match unsupported_feature missing_record extra_record
        empty_primary_key duplicate_primary_key :
      DifferenceType

pub data RepairType : Type 0 where
  set_cell set_field append_record : RepairType

module _ (engine : Engine) where
  open engine use {Value, new_id}

  pub record Difference : Type 0 where
    pub difference_id : String
    pub type : DifferenceType
    pub severity : String
    pub cell : Option String
    pub excel_row : Option ℕ
    pub canonical_field : Option String
    pub business_key : Option (Dict (Option Value))
    pub excel_raw_value : Option Value
    pub excel_normalized_value : Option Value
    pub standard_raw_value : Option Value
    pub standard_normalized_value : Option Value
    pub rule_id : Option String
    pub render_action : String
    pub repair_status : String

  pub record RepairOperation : Type 0 where
    pub type : RepairType
    pub rule_id : String
    pub difference_id : String
    pub cell : Option String
    pub excel_row : Option ℕ
    pub canonical_field : Option String
    pub value : Option Value
    pub values : Option (Dict (Option Value))

  -- the lists that the comparison appends to, and the number of identifiers drawn
  pub record Report : Type 0 where
    pub differences : List Difference
    pub repairs : List RepairOperation
    pub drawn : ℕ

  -- `differences.append(_difference(…))`
  unfoldable pub note : Difference → Report → Report
  note d report = record report {
    differences = report.differences ++ record d { difference_id = new_id report.drawn } ∷ [];
    drawn = report.drawn + 1;
  }

  -- the same, and `repairs.append(RepairOperation(…))` for this difference
  unfoldable pub plan : Difference → RepairOperation → Report → Report
  unfolding note
  plan d repair report = record (note d report) {
    repairs = report.repairs ++ record repair { difference_id = new_id report.drawn } ∷ [];
  }
