-- ===== src/Audit/Extra/Guarantees.antt =====
-- src/excel_auditor/engine.py: what the loop over the extra records writes and reports.
use mathlib.Core.Path.{subst}
use mathlib.Core.List.{Memᴰ}
use mathlib.Core.List.Memᴰ.{head, tail, append_left, append_right, append_cases, eq_of_singleton}
use excelflow.Prelude.{
  ◌≡◌, refl, sym, ◌⊎◌, inl, inr, ℕ, Bool, true, false, not, is_some, List, [], ◌∷◌, some, String,
  if_keeps, option_keeps, arith,
}
use excelflow.Audit.{
  Engine, ColumnRule, extra_record, Difference, RepairOperation, set_cell, Report, note, plan,
}
use excelflow.Products.{Dict}
use excelflow.Audit.Values.{excel_write_safe, excel_write_value}
use excelflow.Audit.Matched.{value_of, Matched, Sheet, note_unsafe, plan_value}
use excelflow.Audit.Extra.{
  takes_default, fill_cell, rule_of, fill_cells, extra_difference, report_extra,
}

module _ (engine : Engine) (sheet : Sheet engine) (mark_red : Bool) where
  open engine use {cell_name}
  open sheet.parsing use {parse_value, parse_excel_value}

  -- The repair writes the default of the column, for which the rule asks, into a cell of the record that
  -- is read and empty, and the value survives in a workbook.
  pub record IsFill (m : Matched engine) (columns : Dict ℕ) (r : RepairOperation engine)
      : Type 0 where
    pub rule : ColumnRule engine
    pub column : ℕ
    pub name : String
    pub is_column : Memᴰ (name, column) columns
    pub is_rule : rule_of engine sheet mark_red m name ≡ some rule
    pub is_read : (parse_excel_value (value_of engine rule.name m.excel_record) rule).valid ≡ true
    pub is_empty :
        is_some (parse_excel_value (value_of engine rule.name m.excel_record) rule).normalized
        ≡ false
    pub is_asked : rule.fill_static_default ≡ true
    pub is_safe : excel_write_safe engine (parse_value rule.static_default rule) rule ≡ true
    pub on_cell : r.cell ≡ some (cell_name column m.row_number)
    pub is_set : r.type ≡ set_cell
    pub writes : r.value ≡ excel_write_value engine (parse_value rule.static_default rule) rule

  -- what a report keeps when a permitted repair of the record is planned
  abbrev PlanKeeps : (Report engine → Type 0) → Matched engine → Dict ℕ → Type 0
  PlanKeeps Q m columns =
      (d : Difference engine) (r : RepairOperation engine) (report : Report engine)
      → IsFill m columns (record r { difference_id = engine.new_id report.drawn })
      → Q report
      → Q (plan engine d r report)

  module _ (Q : Report engine → Type 0)
      (note_keeps : (d : Difference engine) (report : Report engine)
        → Q report
        → Q (note engine d report)) where
    module _ (m : Matched engine) where
      fill_cell_keeps :
          (columns : Dict ℕ) (name : String) (rule : ColumnRule engine) (column : ℕ)
          → Memᴰ (name, column) columns
          → rule_of engine sheet mark_red m name ≡ some rule
          → PlanKeeps Q m columns
          → (report : Report engine) → Q report
          → Q (fill_cell engine sheet mark_red m rule column report)
      unfolding fill_cell plan_value note_unsafe
      fill_cell_keeps columns name rule column mem found plan_keeps report q =
          if_keeps Q (takes_default engine sheet mark_red m rule)
            (λ empty.
              if_keeps Q (not (excel_write_safe engine (parse_value rule.static_default rule) rule))
                (λ unsafe. note_keeps _ report q)
                (λ safe.
                  plan_keeps _ _ report
                    (record {
                      rule = rule;
                      column = column;
                      name = name;
                      is_column = mem;
                      is_rule = found;
                      is_read = ground arith;
                      is_empty = ground arith;
                      is_asked = ground arith;
                      is_safe = ground arith;
                      on_cell = refl;
                      is_set = refl;
                      writes = refl;
                    })
                    q))
            (λ full. q)

      fill_cells_keeps :
          (all columns : Dict ℕ)
          → ((e : String × ℕ) → Memᴰ e columns → Memᴰ e all)
          → PlanKeeps Q m all
          → (report : Report engine) → Q report
          → Q (fill_cells engine sheet mark_red m columns report)
      unfolding fill_cells
      fill_cells_keeps all [] among plan_keeps report q = q
      fill_cells_keeps all ((name, column) ∷ columns) among plan_keeps report q =
          fill_cells_keeps all columns (λ e mem. among e (tail mem)) plan_keeps _
            (option_keeps Q (rule_of engine sheet mark_red m name) (λ absent. q)
              (λ rule found.
                fill_cell_keeps all name rule column (among (name, column) (head refl)) found
                  plan_keeps report q))

    report_extra_keeps :
        (ms : List (Matched engine))
        → ((m : Matched engine) → Memᴰ m ms → PlanKeeps Q m sheet.columns)
        → (report : Report engine) → Q report
        → Q (report_extra engine sheet mark_red ms report)
    unfolding report_extra
    report_extra_keeps [] plan_keeps report q = q
    report_extra_keeps (m ∷ ms) plan_keeps report q =
        report_extra_keeps ms (λ other mem. plan_keeps other (tail mem)) _
          (fill_cells_keeps m sheet.columns sheet.columns (λ e mem. mem) (plan_keeps m (head refl))
            _ (note_keeps (extra_difference engine sheet mark_red m) report q))

  -- a difference of the report names the record as an extra one
  abbrev pub Tells : Matched engine → Report engine → Type 0
  Tells m report =
      (d : Difference engine) × Memᴰ d report.differences
      × (d.type ≡ extra_record)
      × (d.excel_row ≡ some m.row_number)

  Tells-note :
      (m : Matched engine) (d : Difference engine) (report : Report engine)
      → Tells m report
      → Tells m (note engine d report)
  unfolding note
  Tells-note m d report (told, mem, type, row) = (told, append_left _ mem, type, row)

  Tells-extra :
      (m : Matched engine) (report : Report engine)
      → Tells m (note engine (extra_difference engine sheet mark_red m) report)
  unfolding note
  Tells-extra m report = (_, append_right report.differences (head refl), refl, refl)

  report_extra-Tells :
      (ms : List (Matched engine)) (report : Report engine) (m : Matched engine)
      → Memᴰ m ms
      → Tells m (report_extra engine sheet mark_red ms report)
  unfolding report_extra plan
  report_extra-Tells [] report m mem = elim mem [ ]
  report_extra-Tells (x ∷ ms) report m (head same) =
      subst (λ m. Tells m (report_extra engine sheet mark_red (x ∷ ms) report)) (sym same)
        (report_extra_keeps (Tells x) (Tells-note x) ms
          (λ other among d r later fill. Tells-note x d later) _
          (fill_cells_keeps (Tells x) (Tells-note x) x sheet.columns sheet.columns
            (λ e among. among) (λ d r later fill. Tells-note x d later) _ (Tells-extra x report)))
  report_extra-Tells (x ∷ ms) report m (tail mem) = report_extra-Tells ms _ m mem

  -- where a repair comes from
  abbrev pub IsOfExtra : List (Matched engine) → RepairOperation engine → Type 0
  IsOfExtra ms r = (m : Matched engine) × Memᴰ m ms × IsFill m sheet.columns r

  -- Each extra record is reported, and each repair that the loop adds fills a cell of one that is
  -- read and empty with the default of its column, where the rule of the column asks for that.
  pub report_extra-reports :
      (ms : List (Matched engine)) (report : Report engine)
      → ((m : Matched engine) → Memᴰ m ms → Tells m (report_extra engine sheet mark_red ms report))
        × ((r : RepairOperation engine)
            → Memᴰ r (report_extra engine sheet mark_red ms report).repairs
            → Memᴰ r report.repairs ⊎ IsOfExtra ms r)
  unfolding note plan
  report_extra-reports ms report = (
    report_extra-Tells ms report,
    report_extra_keeps
        (λ later.
          (r : RepairOperation engine)
          → Memᴰ r later.repairs
          → Memᴰ r report.repairs ⊎ IsOfExtra ms r)
        (λ d later old. old) ms
        (λ m mem d r later fill old r' added. elim (append_cases later.repairs added) [
          | inl before ↦ old r' before
          | inr new ↦ inr (m, mem, subst (IsFill m sheet.columns) (sym (eq_of_singleton new)) fill)
        ])
        report (λ r mem. inl mem),
  )
