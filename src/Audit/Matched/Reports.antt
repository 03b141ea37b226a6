-- ===== src/Audit/Matched/Reports.antt =====
-- A field whose valid values differ is reported.
use mathlib.Core.List.{Memᴰ}
use mathlib.Core.List.Memᴰ.{head, append_right}
use excelflow.Prelude.{
  ℕ, ◌≡◌, refl, Bool, true, ◌&&◌, ◌||◌, not, some, String, is_some, arith, if_keeps, option_keeps,
}
use excelflow.Products.{get}
use excelflow.Audit.{
  Engine, ColumnRule, ParsedValue, value_mismatch, Difference, RepairOperation, Report, note, plan,
}
use excelflow.Audit.Values.{is_formula_mode, excel_write_safe}
use excelflow.Audit.Matched.{
  Matched, Sheet, value_of, is_formula, is_missing, is_fuzzy, can_fill, note_mismatch, note_fuzzy,
  plan_value, compare_field, compare_values, compare_unequal, compare_present,
}
use excelflow.Audit.Matched.Permits.{present, standard, excel_value}

module _ (engine : Engine) (sheet : Sheet engine) (m : Matched engine)
    (rule : ColumnRule engine) where
  open engine use {Value, cell_name, new_id}
  open sheet.parsing use {values_equal}

  -- a mismatch of this row and column
  pub record IsMismatch (d : Difference engine) : Type 0 where
    pub is_mismatch : d.type ≡ value_mismatch
    pub of_row : d.excel_row ≡ some m.row_number
    pub of_field : d.canonical_field ≡ some rule.name

  abbrev pub Reported : Report engine → Type 0
  Reported report = (d : Difference engine) × Memᴰ d report.differences × IsMismatch d

  -- The column is there, the standard has a value for it, neither value is a formula and not both are
  -- empty; both are valid, and they differ.
  abbrev pub differs : Bool
  differs =
      is_some (get rule.name m.standard_record)
      && (not (is_formula engine (excel_value engine sheet m rule))
          && not (is_formula engine (value_of engine rule.name m.standard_record)))
      && not (
          is_missing engine (excel_value engine sheet m rule)
          && is_missing engine (value_of engine rule.name m.standard_record))
      && ((present engine sheet m rule).valid && (standard engine sheet m rule).valid)
      && not (values_equal (present engine sheet m rule) (standard engine sheet m rule) rule)

  note-Reported :
      (d : Difference engine) (report : Report engine)
      → IsMismatch d
      → Reported (note engine d report)
  unfolding note
  note-Reported d report mismatch = (
    record d { difference_id = new_id report.drawn },
    append_right report.differences (head refl),
    record {
      is_mismatch = mismatch.is_mismatch;
      of_row = mismatch.of_row;
      of_field = mismatch.of_field;
    },
  )

  plan-Reported :
      (d : Difference engine) (repair : RepairOperation engine) (report : Report engine)
      → IsMismatch d
      → Reported (plan engine d repair report)
  unfolding plan
  plan-Reported d repair report mismatch = note-Reported d report mismatch

  module _ (cell : String) where
    note_mismatch-Reported :
        (left right : ParsedValue engine) (report : Report engine)
        → Reported (note_mismatch engine sheet m rule cell left right report)
    unfolding note_mismatch
    note_mismatch-Reported left right report =
        note-Reported _ report (record { is_mismatch = refl; of_row = refl; of_field = refl })

    compare_unequal-Reported :
        (left right : ParsedValue engine) (report : Report engine)
        → Reported (compare_unequal engine sheet m rule cell left right report)
    unfolding compare_unequal note_fuzzy plan_value
    compare_unequal-Reported left right report =
        let repair =
          can_fill engine sheet m rule cell left right || sheet.actions.overwrite_mismatch in
        if_keeps Reported (is_fuzzy rule.type)
          (λ fuzzy.
            note-Reported _ report (record { is_mismatch = refl; of_row = refl; of_field = refl }))
          (λ exact.
            if_keeps Reported (repair && is_formula engine (excel_value engine sheet m rule))
              (λ blocked. note_mismatch-Reported left right _)
              (λ open_.
                if_keeps Reported (repair && not (excel_write_safe engine right rule))
                  (λ unsafe. note_mismatch-Reported left right _)
                  (λ safe.
                    if_keeps Reported repair
                      (λ repairs.
                        plan-Reported _ _ report
                          (record { is_mismatch = refl; of_row = refl; of_field = refl }))
                      (λ keeps. note_mismatch-Reported left right report))))

    compare_present-Reported :
        (report : Report engine)
        → differs ≡ true
        → Reported (compare_present engine sheet m rule cell report)
    unfolding compare_present compare_values
    compare_present-Reported report h =
        let raw = excel_value engine sheet m rule in
        let other = value_of engine rule.name m.standard_record in
        let left = present engine sheet m rule in
        let right = standard engine sheet m rule in
        if_keeps Reported
          (not (is_some (get rule.name m.standard_record))
            && not (is_missing engine raw && rule.fill_static_default))
          (λ absent. absurd (ground arith))
          (λ given.
            if_keeps Reported
              (is_formula_mode rule.formula_mode
                && (is_formula engine raw || is_formula engine other))
              (λ formulas. absurd (ground arith))
              (λ values.
                if_keeps Reported (is_formula engine raw) (λ formula. absurd (ground arith))
                  (λ open_.
                    if_keeps Reported
                      (is_missing engine raw
                        && (is_missing engine other && not rule.fill_static_default))
                      (λ missing. absurd (ground arith))
                      (λ shown.
                        if_keeps Reported (not left.valid) (λ invalid. absurd (ground arith))
                          (λ valid.
                            if_keeps Reported (not right.valid) (λ invalid. absurd (ground arith))
                              (λ valid_right.
                                if_keeps Reported (not (values_equal left right rule))
                                  (λ differ. compare_unequal-Reported left right report)
                                  (λ equal. absurd (ground arith))))))))

  pub compare_field-Reported :
      (column : ℕ) (report : Report engine)
      → get rule.name sheet.columns ≡ some column
      → differs ≡ true
      → Reported (compare_field engine sheet m rule report)
  unfolding compare_field
  compare_field-Reported column report found h =
      option_keeps Reported (get rule.name sheet.columns) (λ absent. absurd (ground arith))
        (λ c e. compare_present-Reported (cell_name c m.row_number) report h)
