-- ===== src/Audit/Matched/Guarantees.antt =====
-- What the comparison of the matched records promises of the report.
use mathlib.Core.Path.{subst}
use mathlib.Core.List.{Memᴰ}
use mathlib.Core.List.Memᴰ.{head, tail, append_left}
use excelflow.Prelude.{ℕ, ◌≡◌, refl, ◌⊎◌, inl, inr, true, List, [], ◌∷◌, some}
use excelflow.Products.{get}
use excelflow.Audit.{Engine, ColumnRule, Difference, RepairOperation, Report, note, plan}
use excelflow.Audit.Matched.{Matched, Sheet, compare_field, compare_fields, compare_matched}
use excelflow.Audit.Matched.Permits.{Permits, IsGood, note-IsGood, plan-IsGood, Announces, named}
use excelflow.Audit.Matched.Reports.{Reported, differs, compare_field-Reported}
use excelflow.Audit.Matched.Fields.{compare_field_keeps}

module _ (engine : Engine) (sheet : Sheet engine) where
  open engine use {Value, cell_name, new_id}

  -- A column of the sheet and one of the pairs permit the repair.
  pub record IsPermitted (ms : List (Matched engine)) (r : RepairOperation engine) : Type 0 where
    pair : Matched engine
    rule : ColumnRule engine
    is_pair : Memᴰ pair ms
    is_rule : Memᴰ rule sheet.rules
    permits : Permits engine sheet pair rule r

  module _ (Q : Report engine → Type 0)
      (note_keeps : (d : Difference engine) (report : Report engine)
        → Q report
        → Q (note engine d report)) where
    compare_fields_keeps :
        (m : Matched engine) (rules : List (ColumnRule engine))
        → ((rule : ColumnRule engine)
            → Memᴰ rule rules
            → (d : Difference engine) (repair : RepairOperation engine) (report : Report engine)
            → d.repair_status ≡ "planned"
            → d.canonical_field ≡ repair.canonical_field
            → Permits engine sheet m rule (named engine repair (new_id report.drawn))
            → Q report
            → Q (plan engine d repair report))
        → (report : Report engine) → Q report
        → Q (compare_fields engine sheet m rules report)
    unfolding compare_fields
    compare_fields_keeps m [] plan_keeps report q = q
    compare_fields_keeps m (rule ∷ rules) plan_keeps report q =
        compare_fields_keeps m rules (λ other mem. plan_keeps other (tail mem))
          (compare_field engine sheet m rule report)
          (compare_field_keeps engine sheet m rule Q note_keeps (plan_keeps rule (head refl)) report
            q)

    compare_matched_keeps :
        (ms : List (Matched engine))
        → ((m : Matched engine) (rule : ColumnRule engine)
            → Memᴰ m ms
            → Memᴰ rule sheet.rules
            → (d : Difference engine) (repair : RepairOperation engine) (report : Report engine)
            → d.repair_status ≡ "planned"
            → d.canonical_field ≡ repair.canonical_field
            → Permits engine sheet m rule (named engine repair (new_id report.drawn))
            → Q report
            → Q (plan engine d repair report))
        → (report : Report engine) → Q report
        → Q (compare_matched engine sheet ms report)
    unfolding compare_matched
    compare_matched_keeps [] plan_keeps report q = q
    compare_matched_keeps (m ∷ ms) plan_keeps report q =
        compare_matched_keeps ms (λ other rule mem. plan_keeps other rule (tail mem))
          (compare_fields engine sheet m sheet.rules report)
          (compare_fields_keeps m sheet.rules (λ rule. plan_keeps m rule (head refl)) report q)

  -- Where each repair of the report is announced by a difference, each repair that the loop over the
  -- matched records leaves in the report was there before, or is permitted for one of the pairs and
  -- one of the columns: it corrects a valid cell without a formula that differs from a valid standard
  -- value, or gives an empty cell or an inserted column its value, each where the actions of the sheet
  -- or the column allow it and the value survives in a workbook. A planned difference with its
  -- identifier and its field announces it.
  pub compare_matched-IsPermitted :
      (ms : List (Matched engine)) (report : Report engine)
      → ((r : RepairOperation engine)
          → Memᴰ r report.repairs
          → (d : Difference engine) × Memᴰ d report.differences × Announces engine d r)
      → (r : RepairOperation engine) → Memᴰ r (compare_matched engine sheet ms report).repairs
      → (Memᴰ r report.repairs ⊎ IsPermitted ms r)
        × ((d : Difference engine) × Memᴰ d (compare_matched engine sheet ms report).differences
            × Announces engine d r)
  compare_matched-IsPermitted ms report announced r mem =
      let P = λ (r : RepairOperation engine). Memᴰ r report.repairs ⊎ IsPermitted ms r in
      let good =
        compare_matched_keeps (IsGood engine P) (note-IsGood engine P) ms
          (λ m rule of_m of_rule d repair rep planned field permits.
            plan-IsGood engine P d repair rep planned field (
              inr (record {
                pair = m;
                rule = rule;
                is_pair = of_m;
                is_rule = of_rule;
                permits = permits;
              })))
          report (record { allowed = λ r old. inl old; announced = announced }) in
      (good.allowed r mem, good.announced r mem)

  module _ (m : Matched engine) (rule : ColumnRule engine) where
    abbrev pub Shows : Report engine → Type 0
    Shows report = Reported engine sheet m rule report

    note-Shows :
        (d : Difference engine) (report : Report engine)
        → Shows report
        → Shows (note engine d report)
    unfolding note
    note-Shows d report (e, found, mismatch) = (e, append_left _ found, mismatch)

    plan-Shows :
        (d : Difference engine) (repair : RepairOperation engine) (report : Report engine)
        → Shows report
        → Shows (plan engine d repair report)
    unfolding plan
    plan-Shows d repair report shows = note-Shows d report shows

    module _ (column : ℕ) (found : get rule.name sheet.columns ≡ some column)
        (h : differs engine sheet m rule ≡ true) where
      compare_fields-Shows :
          (rules : List (ColumnRule engine)) (report : Report engine)
          → Memᴰ rule rules
          → Shows (compare_fields engine sheet m rules report)
      unfolding compare_fields
      compare_fields-Shows [] report mem = elim mem [ ]
      compare_fields-Shows (x ∷ rules) report (head same) =
          compare_fields_keeps Shows note-Shows m rules
            (λ other mem d repair rep planned field permits. plan-Shows d repair rep)
            (compare_field engine sheet m x report)
            (subst (λ x. Shows (compare_field engine sheet m x report)) same
              (compare_field-Reported engine sheet m rule column report found h))
      compare_fields-Shows (x ∷ rules) report (tail mem) =
          compare_fields-Shows rules (compare_field engine sheet m x report) mem

      -- Where a matched pair is among those compared and a column among those of the sheet, and where
      -- the column is mapped, both values are given, valid and no formulas, not both empty, and differ,
      -- the report has a value mismatch of the row and the field in the end.
      pub compare_matched-reports :
          (ms : List (Matched engine)) (report : Report engine)
          → Memᴰ m ms
          → Memᴰ rule sheet.rules
          → Shows (compare_matched engine sheet ms report)
      unfolding compare_matched
      compare_matched-reports [] report mem of_rule = elim mem [ ]
      compare_matched-reports (x ∷ ms) report (head same) of_rule =
          compare_matched_keeps Shows note-Shows ms
            (λ n other mem of_other d repair rep planned field permits. plan-Shows d repair rep)
            (compare_fields engine sheet x sheet.rules report)
            (subst (λ x. Shows (compare_fields engine sheet x sheet.rules report)) same
              (compare_fields-Shows sheet.rules report of_rule))
      compare_matched-reports (x ∷ ms) report (tail mem) of_rule =
          compare_matched-reports ms (compare_fields engine sheet x sheet.rules report) mem of_rule
