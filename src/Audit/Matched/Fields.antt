-- ===== src/Audit/Matched/Fields.antt =====
-- Every branch of the comparison of one field keeps what every note and every permitted repair keeps.
use mathlib.Core.Path.{subst}
use excelflow.Prelude.{
  ℕ, ◌≡◌, refl, Bool, true, false, ◌&&◌, ◌||◌, not, Option, none, some, String, is_some, arith,
  if_keeps, option_keeps, ap,
}
use excelflow.Products.{get}
use excelflow.Audit.{
  Engine, ColumnRule, ParsedValue, Difference, set_field, RepairOperation, Report, note, plan,
}
use excelflow.Audit.Values.{
  is_formula_mode, excel_write_safe, excel_write_value, should_insert_missing,
}
use excelflow.Audit.Matched.{
  Matched, Sheet, value_of, is_formula, is_missing, is_fuzzy, are_same, is_reject, can_fill,
  repair_of, note_unsafe, note_blocked, plan_value, fill_inserted, compare_template, insert_value,
  compare_absent, note_formula, note_invalid, note_mismatch, note_fuzzy, compare_unequal,
  fill_default, compare_values, compare_present, compare_field, is_text,
}
use excelflow.Audit.Matched.Permits.{
  Permits, correction, default_value, inserted, inserted_default, excel_value, standard, present,
  default, may_insert, named,
}

module _ (engine : Engine) (sheet : Sheet engine) (m : Matched engine) (rule : ColumnRule engine)
    (Q : Report engine → Type 0)
    (note_keeps : (d : Difference engine) (report : Report engine)
      → Q report
      → Q (note engine d report))
    (plan_keeps : (d : Difference engine) (repair : RepairOperation engine) (report : Report engine)
      → d.repair_status ≡ "planned"
      → d.canonical_field ≡ repair.canonical_field
      → Permits engine sheet m rule (named engine repair (engine.new_id report.drawn))
      → Q report
      → Q (plan engine d repair report)) where
  open engine use {Value, cell_name, new_id, expand}
  open sheet.parsing use {parse_value, parse_excel_value, values_equal}

  note_unsafe_keeps :
      (cell : Option String) (parsed : ParsedValue engine) (report : Report engine)
      → Q report
      → Q (note_unsafe engine sheet m rule cell parsed report)
  unfolding note_unsafe
  note_unsafe_keeps cell parsed report good = note_keeps _ report good

  note_blocked_keeps :
      (cell : String) (raw : Option Value) (cached right : ParsedValue engine)
      (report : Report engine)
      → Q report
      → Q (note_blocked engine sheet m rule cell raw cached right report)
  unfolding note_blocked
  note_blocked_keeps cell raw cached right report good = note_keeps _ report good

  note_mismatch_keeps :
      (cell : String) (left right : ParsedValue engine) (report : Report engine)
      → Q report
      → Q (note_mismatch engine sheet m rule cell left right report)
  unfolding note_mismatch
  note_mismatch_keeps cell left right report good = note_keeps _ report good

  fill_inserted_keeps :
      (parsed : ParsedValue engine) (rule_id : String) (shown : Option Value)
      (report : Report engine)
      → (excel_write_safe engine parsed rule ≡ true
          → (id : String)
          → Permits engine sheet m rule (
              named engine
                (repair_of engine sheet m rule set_field rule_id none
                  (excel_write_value engine parsed rule))
                id))
      → Q report
      → Q (fill_inserted engine sheet m rule parsed rule_id shown report)
  unfolding fill_inserted plan_value
  fill_inserted_keeps parsed rule_id shown report p good =
      if_keeps Q (excel_write_safe engine parsed rule)
        (λ safe. plan_keeps _ _ report refl refl (p safe (new_id report.drawn)) good)
        (λ unsafe. note_unsafe_keeps none parsed report good)

  insert_value_keeps :
      (report : Report engine)
      → get rule.name sheet.columns ≡ none
      → may_insert engine sheet m rule ≡ true
      → Q report
      → Q (insert_value engine sheet m rule report)
  unfolding insert_value
  insert_value_keeps report absent may good =
      if_keeps Q
        (sheet.actions.fill_empty_from_standard
          && ((standard engine sheet m rule).valid
              && is_some (standard engine sheet m rule).normalized))
        (λ fill.
          fill_inserted_keeps (standard engine sheet m rule) _ _ report
            (λ safe id. (inserted _ id absent (ground arith))) good)
        (λ other.
          if_keeps Q rule.fill_static_default
            (λ fill.
              fill_inserted_keeps (default engine sheet m rule) _ _ report
                (λ safe id. (inserted_default _ id absent (ground arith))) good)
            (λ other. good))

  compare_absent_keeps :
      (report : Report engine)
      → get rule.name sheet.columns ≡ none
      → Q report
      → Q (compare_absent engine sheet m rule report)
  unfolding compare_absent compare_template
  compare_absent_keeps report absent good =
      if_keeps Q (should_insert_missing engine sheet.actions rule)
        (λ insert.
          option_keeps Q rule.formula_template
            (λ no_template. insert_value_keeps report absent (ground arith) good)
            (λ template given.
              if_keeps Q
                (is_some (get rule.name m.standard_record)
                  && not (
                      is_text engine (expand template m.row_number)
                        (value_of engine rule.name m.standard_record)))
                (λ differs. note_keeps _ report good) (λ same. good)))
        (λ other. good)

  module _ (column : ℕ) (found : get rule.name sheet.columns ≡ some column) where
    abbrev cell : String
    cell = cell_name column m.row_number

    abbrev right : ParsedValue engine
    right = standard engine sheet m rule

    -- what `may_correct` says of what was read from the cell
    abbrev may_write : ParsedValue engine → Bool
    may_write left =
        not (is_formula engine (excel_value engine sheet m rule))
        && (left.valid && (right.valid && not (values_equal left right rule)))
        && (can_fill engine sheet m rule cell left right || sheet.actions.overwrite_mismatch)
        && excel_write_safe engine right rule

    compare_unequal_keeps :
        (left : ParsedValue engine) (report : Report engine)
        → (is_formula engine (excel_value engine sheet m rule) ≡ false
            → left ≡ present engine sheet m rule)
        → (left.valid && (right.valid && not (values_equal left right rule))) ≡ true
        → Q report
        → Q (compare_unequal engine sheet m rule cell left right report)
    unfolding compare_unequal note_fuzzy plan_value
    compare_unequal_keeps left report reads unequal good =
        let repair =
          can_fill engine sheet m rule cell left right || sheet.actions.overwrite_mismatch in
        let formula = is_formula engine (excel_value engine sheet m rule) in
        if_keeps Q (is_fuzzy rule.type) (λ fuzzy. note_keeps _ report good)
          (λ exact.
            if_keeps Q (repair && formula)
              (λ blocked.
                note_mismatch_keeps cell left right _
                  (note_blocked_keeps cell _ left right report good))
              (λ open_.
                if_keeps Q (repair && not (excel_write_safe engine right rule))
                  (λ unsafe.
                    note_mismatch_keeps cell left right _
                      (note_unsafe_keeps (some cell) right report good))
                  (λ safe.
                    if_keeps Q repair
                      (λ repairs.
                        plan_keeps _ _ report refl refl
                          ((correction column _ (new_id report.drawn) found (
                            subst (λ l. may_write l ≡ true) (reads (ground arith)) (ground arith))))
                          good)
                      (λ keeps. note_mismatch_keeps cell left right report good))))

    fill_default_keeps :
        (left : ParsedValue engine) (report : Report engine)
        → (is_formula engine (excel_value engine sheet m rule) ≡ false
            → left ≡ present engine sheet m rule)
        → (left.valid && (not (is_some left.normalized) && rule.fill_static_default)) ≡ true
        → Q report
        → Q (fill_default engine sheet m rule cell left (default engine sheet m rule) report)
    unfolding fill_default plan_value
    fill_default_keeps left report reads empty good =
        let formula = is_formula engine (excel_value engine sheet m rule) in
        if_keeps Q formula
          (λ blocked. note_blocked_keeps cell _ left (default engine sheet m rule) report good)
          (λ open_.
            if_keeps Q (not (excel_write_safe engine (default engine sheet m rule) rule))
              (λ unsafe. note_unsafe_keeps (some cell) (default engine sheet m rule) report good)
              (λ safe.
                plan_keeps _ _ report refl refl
                  ((default_value column _ (new_id report.drawn) found (
                    subst
                      (λ (l : ParsedValue engine).
                        (not formula
                          && (l.valid && not (is_some l.normalized))
                          && rule.fill_static_default
                          && excel_write_safe engine (default engine sheet m rule) rule)
                        ≡ true)
                      (reads open_) (ground arith))))
                  good))

    compare_values_keeps :
        (left_raw : Option Value) (report : Report engine)
        → (is_formula engine (excel_value engine sheet m rule) ≡ false
            → left_raw ≡ excel_value engine sheet m rule)
        → Q report
        → Q (compare_values engine sheet m rule cell left_raw report)
    unfolding compare_values note_invalid
    compare_values_keeps left_raw report reads good =
        let left = parse_excel_value left_raw rule in
        let same : is_formula engine (excel_value engine sheet m rule) ≡ false
            → left ≡ present engine sheet m rule =
          λ open_. ap (λ raw. parse_excel_value raw rule) (reads open_) in
        if_keeps Q
          (is_missing engine left_raw
            && (is_missing engine (value_of engine rule.name m.standard_record)
                && not rule.fill_static_default))
          (λ missing. good)
          (λ given.
            if_keeps Q (not left.valid) (λ invalid. good)
              (λ valid.
                if_keeps Q (not right.valid) (λ invalid. note_keeps _ report good)
                  (λ valid_right.
                    if_keeps Q (not (values_equal left right rule))
                      (λ differ. compare_unequal_keeps left report same (ground arith) good)
                      (λ equal.
                        if_keeps Q (not (is_some left.normalized) && rule.fill_static_default)
                          (λ empty. fill_default_keeps left report same (ground arith) good)
                          (λ filled. good)))))

    compare_present_keeps :
        (report : Report engine) → Q report → Q (compare_present engine sheet m rule cell report)
    unfolding compare_present note_formula
    compare_present_keeps report good =
        let raw = excel_value engine sheet m rule in
        let other = value_of engine rule.name m.standard_record in
        if_keeps Q
          (not (is_some (get rule.name m.standard_record))
            && not (is_missing engine raw && rule.fill_static_default))
          (λ absent. good)
          (λ given.
            if_keeps Q
              (is_formula_mode rule.formula_mode
                && (is_formula engine raw || is_formula engine other))
              (λ formulas.
                if_keeps Q
                  (is_formula engine raw && (is_formula engine other && are_same engine raw other))
                  (λ same. good) (λ differs. note_keeps _ report good))
              (λ values.
                if_keeps Q (is_formula engine raw)
                  (λ formula.
                    if_keeps Q (is_reject rule.formula_mode) (λ rejected. good)
                      (λ cached.
                        compare_values_keeps (value_of engine cell sheet.cached_values) report
                          (λ open_. cc) good))
                  (λ open_. compare_values_keeps raw report (λ e. refl) good)))

  pub compare_field_keeps :
      (report : Report engine) → Q report → Q (compare_field engine sheet m rule report)
  unfolding compare_field
  compare_field_keeps report good =
      option_keeps Q (get rule.name sheet.columns)
        (λ absent. compare_absent_keeps report absent good)
        (λ column found. compare_present_keeps column found report good)
