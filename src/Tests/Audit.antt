-- ===== src/Tests/Audit.antt =====
-- Runs of the comparison of matched records on one pair.
use mathlib.Core.List.{Memᴰ}
use mathlib.Core.List.Memᴰ.{head}
use excelflow.Catalog.{Names, normalize_header}
use excelflow.Audit.Headers.{
  Column, is_matched_to, columns_of, add_aliases, exact_names, map_header, map_all, map_headers,
}
use excelflow.Audit.Headers.Guarantees.{resolves, map_headers-once}
use excelflow.Prelude.{
  Option, count_by, ◌≤◌, ◌==◌, if◌then◌else◌, is_some, ◌≡◌, refl, Bool, List, map, refl, ◌⊎◌, true,
  false, [], ◌∷◌, none, some, String, str_eq,
}
use excelflow.Audit.{
  string, reject, set_cell, Engine, ColumnRule, Difference, RepairOperation, Report, plan, note,
}
use excelflow.Products.{get}
use excelflow.Audit.Values.{excel_write_safe, excel_write_value}
use excelflow.Audit.Matched.{
  Matched, Sheet, compare_matched, compare_fields, compare_field, compare_present, compare_values,
  compare_unequal, plan_value,
}
use excelflow.Audit.Missing.{Missing, Appending, append_missing, note_all}
use excelflow.Audit.Missing.Guarantees.{IsAppended, append_missing-IsAppended}
use excelflow.Audit.Matched.Permits.{Announces}
use excelflow.Audit.Matched.Guarantees.{
  IsPermitted, Shows, compare_matched-IsPermitted, compare_matched-reports,
}

abbrev pub engine : Engine
engine = record {
  Value = String;
  of_text = λ t. t;
  text_of = λ v. v;
  same_value = λ v w. str_eq v w;
  is_formula_text = λ v. str_eq v "=A1";
  isoformat = λ v. v;
  join = λ separator v. v;
  datetime_write_safe = λ v zone. true;
  numeric_write_safe = λ v. true;
  expand = λ template row. template;
  cell_name = λ column row. "B2";
  new_id = λ n. "diff_1";
  of_number = λ n. if n == 1 then "1" else "2";
  integer_of = λ v. if str_eq v "1" then some 1 else none;
  text_of_key = λ k. "key";
  of_record = λ r. "record";
}

abbrev pub rule : ColumnRule engine
rule = record {
  name = "price";
  required = true;
  type = string;
  mode = "exact";
  timezone = none;
  formula_mode = reject;
  formula_template = none;
  separator = ",";
  missing_column_action = none;
  fill_static_default = false;
  static_default = none;
  sensitive = false;
}

abbrev pub sheet : Sheet engine
sheet = record {
  parsing = record {
    parse_value = λ v rule. record { raw = v; normalized = v; valid = true };
    parse_excel_value = λ v rule. record { raw = v; normalized = v; valid = true };
    values_equal = λ left right rule. false;
  };
  actions = record {
    insert_required_header = true;
    insert_optional_header = false;
    mismatched_value = "mark_yellow";
    fill_empty_from_standard = false;
    overwrite_mismatch = true;
  };
  rules = rule ∷ [];
  columns = ("price", 2) ∷ [];
  cached_values = [];
}

abbrev pub pair : Matched engine
pair = record {
  row_number = 2;
  excel_record = ("price", some "3") ∷ [];
  standard_record = ("price", some "4") ∷ [];
  business_key = ("sku", some "x") ∷ [];
}

abbrev pub empty_report : Report engine
empty_report = record { differences = []; repairs = []; drawn = 0 }

abbrev repair : RepairOperation engine
repair = record {
  type = set_cell;
  rule_id = "price.overwrite_mismatch";
  difference_id = "diff_1";
  cell = some "B2";
  excel_row = none;
  canonical_field = some "price";
  value = some "4";
  values = none;
}

compare_matched-IsPermitted_example :
    (Memᴰ repair empty_report.repairs ⊎ IsPermitted engine sheet (pair ∷ []) repair)
    × ((d : Difference engine) × Memᴰ d
          (compare_matched engine sheet (pair ∷ []) empty_report).differences
        × Announces engine d repair)
unfolding compare_matched compare_fields compare_field get compare_present compare_values
    compare_unequal excel_write_safe plan_value plan excel_write_value
compare_matched-IsPermitted_example =
    compare_matched-IsPermitted engine sheet (pair ∷ []) empty_report (λ r old. elim old [ ]) repair
      (head refl)

compare_matched-reports_example :
    Shows engine sheet pair rule (compare_matched engine sheet (pair ∷ []) empty_report)
unfolding get
compare_matched-reports_example =
    compare_matched-reports engine sheet pair rule 2 refl refl (pair ∷ []) empty_report (head refl)
      (head refl)

abbrev appending : Appending engine
appending = record {
  parsing = sheet.parsing;
  rules = rule ∷ [];
  by_row_number = false;
  append_requested = true;
}

abbrev missing : String → Bool → Missing engine
missing sku is_duplicate = record {
  entry = ("price", some "4") ∷ [];
  business_key = ("sku", some sku) ∷ [];
  key_row = 0;
  is_duplicate = is_duplicate;
}

abbrev missing_records : List (Missing engine)
missing_records = missing "x" false ∷ missing "y" true ∷ missing "z" false ∷ []

append_missing-IsAppended_example :
    IsAppended engine appending missing_records 10 empty_report
      (append_missing engine appending missing_records 10 empty_report)
append_missing-IsAppended_example =
    append_missing-IsAppended engine appending missing_records 10 empty_report

-- the rows of the two records that are appended
appended_rows :
    map
      (λ (r : RepairOperation engine). r.excel_row)
      (append_missing engine appending missing_records 10 empty_report).repairs
    ≡ some 10 ∷ some 11 ∷ []
unfolding append_missing note_all note plan excel_write_safe get
appended_rows = refl

-- texts without normalisation, and no similar ones
abbrev names : Names
names = record {
  Value = String;
  of_text = λ t. t;
  text_of = λ v. v;
  tidy = λ t. t;
  casefold = λ t. t;
  full_score = 100;
  extract = λ query choices cutoff limit. [];
  extract-known = λ query choices cutoff limit. refl;
}

abbrev columns : List Column
columns =
    record { name = "price"; title = "Price"; aliases = "cost" ∷ [] }
    ∷ record { name = "sku"; title = "Code"; aliases = [] }
    ∷ []

abbrev header_row : List (Option String)
header_row = some "Price" ∷ some "Code" ∷ some "cost" ∷ none ∷ []

map_headers-once_example :
    let (mappings, found) = map_headers names columns (λ n. none) header_row in
    (is_some (get "sku" found)
      ≡ (count_by (resolves names columns (λ n. none) header_row "sku") header_row == 1))
    × (count_by (is_matched_to "sku") mappings ≤ 1)
map_headers-once_example = map_headers-once names columns (λ n. none) header_row "sku" refl

-- the price has two columns and gets neither
found_columns : (map_headers names columns (λ n. none) header_row).1 ≡ ("sku", 2) ∷ []
unfolding map_headers map_all map_header exact_names add_aliases columns_of normalize_header get
found_columns = refl
