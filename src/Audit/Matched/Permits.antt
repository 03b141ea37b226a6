-- ===== src/Audit/Matched/Permits.antt =====
-- What the rules of a sheet permit on one field of a matched pair, and how reports grow.
use mathlib.Core.Path.{subst}
use mathlib.Core.List.{Memᴰ}
use mathlib.Core.List.Memᴰ.{head, append_left, append_right, append_cases, eq_of_singleton}
use excelflow.Prelude.{
  ℕ, ◌≡◌, refl, sym, inl, inr, Bool, true, ◌&&◌, ◌||◌, not, Option, none, some, String, is_some,
}
use excelflow.Products.{get}
use excelflow.Audit.{
  Engine, ColumnRule, ParsedValue, Difference, set_cell, set_field, RepairOperation, Report, note,
  plan,
}
use excelflow.Audit.Values.{excel_write_safe, excel_write_value, should_insert_missing}
use excelflow.Audit.Matched.{Matched, Sheet, value_of, is_formula, can_fill, repair_of}

module _ (engine : Engine) where
  open engine use {Value, cell_name, new_id}

  -- A repair, with any identifier.
  abbrev pub named : RepairOperation engine → String → RepairOperation engine
  named r id = record r { difference_id = id }

  module _ (sheet : Sheet engine) (m : Matched engine) (rule : ColumnRule engine) where
    open sheet.parsing use {parse_value, parse_excel_value, values_equal}

    abbrev pub excel_value : Option Value
    excel_value = value_of engine rule.name m.excel_record

    abbrev pub standard : ParsedValue engine
    standard = parse_value (value_of engine rule.name m.standard_record) rule

    abbrev pub present : ParsedValue engine
    present = parse_excel_value excel_value rule

    abbrev pub default : ParsedValue engine
    default = parse_value rule.static_default rule

    -- The cell has no formula, both values are valid, they differ, the sheet allows to fill an empty cell
    -- or to overwrite, and the value survives in a workbook.
    abbrev pub may_correct : String → Bool
    may_correct cell =
        not (is_formula engine excel_value)
        && (present.valid && (standard.valid && not (values_equal present standard rule)))
        && (can_fill engine sheet m rule cell present standard || sheet.actions.overwrite_mismatch)
        && excel_write_safe engine standard rule

    -- The cell has no formula and is empty, and the column has a default value, which survives.
    abbrev pub may_default : Bool
    may_default =
        not (is_formula engine excel_value)
        && (present.valid && not (is_some present.normalized))
        && rule.fill_static_default
        && excel_write_safe engine default rule

    -- The missing column may be inserted and has no formula template.
    abbrev pub may_insert : Bool
    may_insert =
        should_insert_missing engine sheet.actions rule && not (is_some rule.formula_template)

    pub data Permits : RepairOperation engine → Type 0 where
      correction :
          (column : ℕ) (rule_id id : String)
          → get rule.name sheet.columns ≡ some column
          → may_correct (cell_name column m.row_number) ≡ true
          → Permits (
              named
                (repair_of engine sheet m rule set_cell rule_id
                  (some (cell_name column m.row_number))
                  (excel_write_value engine standard rule))
                id)
      default_value :
          (column : ℕ) (rule_id id : String)
          → get rule.name sheet.columns ≡ some column
          → may_default ≡ true
          → Permits (
              named
                (repair_of engine sheet m rule set_cell rule_id
                  (some (cell_name column m.row_number))
                  (excel_write_value engine default rule))
                id)
      inserted :
          (rule_id id : String)
          → get rule.name sheet.columns ≡ none
          → (may_insert
              && (sheet.actions.fill_empty_from_standard
                  && (standard.valid && is_some standard.normalized))
              && excel_write_safe engine standard rule)
            ≡ true
          → Permits (
              named
                (repair_of engine sheet m rule set_field rule_id none
                  (excel_write_value engine standard rule))
                id)
      inserted_default :
          (rule_id id : String)
          → get rule.name sheet.columns ≡ none
          → (may_insert && rule.fill_static_default && excel_write_safe engine default rule) ≡ true
          → Permits (
              named
                (repair_of engine sheet m rule set_field rule_id none
                  (excel_write_value engine default rule))
                id)

  -- A difference announces the repair.
  pub record Announces (d : Difference engine) (r : RepairOperation engine) : Type 0 where
    same_id : d.difference_id ≡ r.difference_id
    is_planned : d.repair_status ≡ "planned"
    same_field : d.canonical_field ≡ r.canonical_field

  module _ (P : RepairOperation engine → Type 0) where
    -- Each repair of the report satisfies P, and a difference of the report announces it.
    pub record IsGood (report : Report engine) : Type 0 where
      pub allowed : (r : RepairOperation engine) → Memᴰ r report.repairs → P r
      pub announced :
          (r : RepairOperation engine)
          → Memᴰ r report.repairs
          → (d : Difference engine) × Memᴰ d report.differences × Announces d r

    pub note-IsGood :
        (d : Difference engine) (report : Report engine)
        → IsGood report
        → IsGood (note engine d report)
    unfolding note
    note-IsGood d report good = record {
      allowed = good.allowed;
      announced = λ r mem.
          let (e, found, announces) = good.announced r mem in (e, append_left _ found, announces);
    }

    pub plan-IsGood :
        (d : Difference engine) (repair : RepairOperation engine) (report : Report engine)
        → d.repair_status ≡ "planned"
        → d.canonical_field ≡ repair.canonical_field
        → P (named repair (new_id report.drawn))
        → IsGood report
        → IsGood (plan engine d repair report)
    unfolding plan note
    plan-IsGood d repair report planned field p good = record {
      allowed = λ r mem. elim (append_cases report.repairs mem) [
        | inl old ↦ good.allowed r old
        | inr new ↦ subst P (sym (eq_of_singleton new)) p
      ];
      announced = λ r mem. elim (append_cases report.repairs mem) [
        | inl old ↦
            let (e, found, announces) = good.announced r old in (e, append_left _ found, announces)
        | inr new ↦
            let same : named repair (new_id report.drawn) ≡ r = sym (eq_of_singleton new) in
            (
              record d { difference_id = new_id report.drawn },
              append_right report.differences (head refl),
              subst (Announces (record d { difference_id = new_id report.drawn })) same
                  (record { same_id = refl; is_planned = planned; same_field = field }),
            )
      ];
    }
