-- ===== src/Audit/Missing/Guarantees.antt =====
-- What the loop over the missing records promises of the report.
use excelflow.Products.{Dict}
use excelflow.Audit.Matched.{value_of}
use excelflow.Audit.Values.{excel_write_value}
use mathlib.Core.Path.{subst}
use excelflow.Prelude.{
  map, Option, some, none, is_some, if◌then◌else◌, ℕ, ◌+◌, ◌≡◌, refl, sym, ap, ◌∙◌, ◌⊎◌, inl, inr,
  Bool, true, false, ◌&&◌, ◌||◌, not, List, [], ◌∷◌, ◌++◌, arith, all_by, filter_by, length, ◌==◌,
  if_keeps,
}
use excelflow.Audit.{
  append_record, Engine, ColumnRule, DifferenceType, missing_record, Difference, RepairOperation,
  Report, note, plan,
}
use excelflow.Audit.Missing.{
  write_record, Missing, Appending, is_unsafe_formula, is_unsafe_write, appends, note_all,
  append_missing, report_missing, unsafe_write_fields, unsafe_difference,
}

abbrev is_missing_record : DifferenceType → Bool
is_missing_record missing_record = true
is_missing_record _ = false

none_left :
    {A : Type 0} (p : A → Bool) (xs : List A)
    → (length (filter_by p xs) == 0) ≡ all_by (λ x. not (p x)) xs
none_left p [] = refl
none_left p (x ∷ xs) = ground (arith, none_left p xs)

all_both :
    {A : Type 0} (p q : A → Bool) (xs : List A)
    → (all_by p xs && all_by q xs) ≡ all_by (λ x. p x && q x) xs
all_both p q [] = refl
all_both p q (x ∷ xs) = ground (arith, all_both p q xs)

append_assoc : {A : Type 0} (xs ys zs : List A) → (xs ++ ys) ++ zs ≡ xs ++ (ys ++ zs)
append_assoc [] ys zs = refl
append_assoc (x ∷ xs) ys zs = ap (λ r. x ∷ r) (append_assoc xs ys zs)

append_none : {A : Type 0} (xs : List A) → xs ++ [] ≡ xs
append_none [] = refl
append_none (x ∷ xs) = ap (λ r. x ∷ r) (append_none xs)

filter_by-append :
    {A : Type 0} (p : A → Bool) (xs ys : List A)
    → filter_by p (xs ++ ys) ≡ filter_by p xs ++ filter_by p ys
filter_by-append p [] ys = refl
filter_by-append p (x ∷ xs) ys = ground (arith, filter_by-append p xs ys)

module _ (engine : Engine) (sheet : Appending engine) where
  -- The sheet asks for it, the key does not stand in several rows, a key that is a row number is that
  -- of the new row, and no column has a formula that its template does not give or a value that does
  -- not survive in a workbook.
  abbrev may_append : Missing engine → ℕ → Bool
  may_append m row =
      sheet.append_requested
      && (not m.is_duplicate
          && ((not sheet.by_row_number || m.key_row == row)
              && all_by
                  (λ rule.
                    not (is_unsafe_formula engine sheet m row rule)
                    && not (is_unsafe_write engine sheet m row rule))
                  sheet.rules))

  appends_lem : (m : Missing engine) (row : ℕ) → appends engine sheet m row ≡ may_append m row
  appends_lem m row = ground (
    arith,
    none_left (is_unsafe_formula engine sheet m row) sheet.rules,
    none_left (is_unsafe_write engine sheet m row) sheet.rules,
    all_both (λ rule. not (is_unsafe_formula engine sheet m row rule))
        (λ rule. not (is_unsafe_write engine sheet m row rule)) sheet.rules,
  )

  -- the difference that names a record, which is appended to a row or is not
  pub record Names (m : Missing engine) (appended_to : Option ℕ) (d : Difference engine)
      : Type 0 where
    pub is_missing : d.type ≡ missing_record
    pub of_key : d.business_key ≡ some m.business_key
    pub on_row : d.excel_row ≡ appended_to
    pub status : d.repair_status ≡ (if is_some appended_to then "planned" else "not_requested")

  -- the value of each column that is written for a record
  abbrev pub new_values : Missing engine → List (ColumnRule engine) → Dict (Option engine.Value)
  new_values m rules =
      map
        (λ rule. (
          rule.name,
          excel_write_value engine
              (sheet.parsing.parse_value (value_of engine rule.name m.entry) rule) rule,
        ))
        rules

  write_record_lem :
      (m : Missing engine) (row : ℕ) (rules : List (ColumnRule engine))
      → write_record engine sheet m row rules ≡ new_values m rules
  write_record_lem m row [] = refl
  write_record_lem m row (rule ∷ rules) =
      ap
        (λ vs.
          (
            rule.name,
            excel_write_value engine
                (sheet.parsing.parse_value (value_of engine rule.name m.entry) rule) rule,
          )
          ∷ vs)
        (write_record_lem m row rules)

  -- The repair that appends a record to a row: it has the value of each column, and names the
  -- difference.
  pub record IsAppending (m : Missing engine) (row : ℕ) (d : Difference engine)
      (r : RepairOperation engine) : Type 0 where
    pub is_append : r.type ≡ append_record
    pub on_row : r.excel_row ≡ some row
    pub values : r.values ≡ some (new_values m sheet.rules)
    pub of_difference : r.difference_id ≡ d.difference_id

  -- The differences and the repairs for some records from a row on: each record has a difference, and
  -- one that may be appended has the next row.
  pub data Appends
      : ℕ
        → List (Missing engine)
        → List (Difference engine)
        → List (RepairOperation engine)
        → Type 0 where
    finished : {row : ℕ} → Appends row [] [] []
    skipped :
        {row : ℕ} {m : Missing engine} {ms : List (Missing engine)} {d : Difference engine}
        {ds : List (Difference engine)} {rs : List (RepairOperation engine)}
        → may_append m row ≡ false
        → Names m none d
        → Appends row ms ds rs
        → Appends row (m ∷ ms) (d ∷ ds) rs
    appended :
        {row : ℕ} {m : Missing engine} {ms : List (Missing engine)} {d : Difference engine}
        {ds : List (Difference engine)} {r : RepairOperation engine}
        {rs : List (RepairOperation engine)}
        → may_append m row ≡ true
        → Names m (some row) d
        → IsAppending m row d r
        → Appends (row + 1) ms ds rs
        → Appends row (m ∷ ms) (d ∷ ds) (r ∷ rs)

  -- the missing records that a report names
  abbrev pub named_missing : Report engine → List (Difference engine)
  named_missing report =
      filter_by (λ (d : Difference engine). is_missing_record d.type) report.differences

  pub record IsAppended (ms : List (Missing engine)) (row : ℕ) (before after : Report engine)
      : Type 0 where
    pub told : List (Difference engine)
    pub added : List (RepairOperation engine)
    pub differences : named_missing after ≡ named_missing before ++ told
    pub repairs : after.repairs ≡ before.repairs ++ added
    pub in_turn : Appends row ms told added

  note_all-repairs :
      (m : Missing engine) (row : ℕ) (rules : List (ColumnRule engine)) (report : Report engine)
      → (note_all engine sheet m row rules report).repairs ≡ report.repairs
  unfolding note_all note
  note_all-repairs m row [] report = refl
  note_all-repairs m row (rule ∷ rules) report =
      note_all-repairs m row rules (note engine (unsafe_difference engine sheet m row rule) report)

  note_all-named_missing :
      (m : Missing engine) (row : ℕ) (rules : List (ColumnRule engine)) (report : Report engine)
      → named_missing (note_all engine sheet m row rules report) ≡ named_missing report
  unfolding note_all note
  note_all-named_missing m row [] report = refl
  note_all-named_missing m row (rule ∷ rules) report =
      note_all-named_missing m row rules
        (note engine (unsafe_difference engine sheet m row rule) report)
      ∙ filter_by-append (λ (d : Difference engine). is_missing_record d.type) report.differences _
      ∙ append_none (named_missing report)

  -- one record
  record IsStep (m : Missing engine) (row : ℕ) (before : Report engine) (r : ℕ × Report engine)
      : Type 0 where
    told : Difference engine
    differences : named_missing r.1 ≡ named_missing before ++ told ∷ []
    turn :
        ((may_append m row ≡ false)
          × Names m none told
          × (r.0 ≡ row)
          × (r.1.repairs ≡ before.repairs))
        ⊎ ((repair : RepairOperation engine) × (may_append m row ≡ true)
            × Names m (some row) told
            × IsAppending m row told repair
            × (r.0 ≡ row + 1)
            × (r.1.repairs ≡ before.repairs ++ repair ∷ []))

  report_missing-IsStep :
      (m : Missing engine) (row : ℕ) (report : Report engine)
      → IsStep m row report (report_missing engine sheet m row report)
  unfolding plan note
  report_missing-IsStep m row report =
      if_keeps (IsStep m row report) (appends engine sheet m row)
        (λ yes_. record {
          told = _;
          differences =
              filter_by-append (λ (d : Difference engine). is_missing_record d.type)
                report.differences _;
          turn = inr (
            _,
            sym (appends_lem m row) ∙ yes_,
            record {
              is_missing = refl;
              of_key = refl;
              on_row = ap (λ (b : Bool). if b then some row else none) yes_;
              status = ap (λ (b : Bool). if b then "planned" else "not_requested") yes_;
            },
            record {
              is_append = refl;
              on_row = refl;
              values = ap some (write_record_lem m row sheet.rules);
              of_difference = refl;
            },
            refl,
            refl,
          );
        })
        (λ no_. record {
          told = _;
          differences =
              filter_by-append (λ (d : Difference engine). is_missing_record d.type)
                report.differences _;
          turn = inl (
            sym (appends_lem m row) ∙ no_,
            record {
              is_missing = refl;
              of_key = refl;
              on_row = ap (λ (b : Bool). if b then some row else none) no_;
              status = ap (λ (b : Bool). if b then "planned" else "not_requested") no_;
            },
            refl,
            refl,
          );
        })

  -- what a step leaves, with the rest of the loop
  step-IsAppended :
      (m : Missing engine) (row : ℕ) (ms : List (Missing engine)) (before : Report engine)
      (r : ℕ × Report engine) (after : Report engine)
      → IsStep m row before r
      → IsAppended ms r.0 r.1 after
      → IsAppended (m ∷ ms) row before after
  step-IsAppended m row ms before r after step rest = elim step.turn [
    | inl (refused, names, same_row, same) ↦ record {
      told = step.told ∷ rest.told;
      added = rest.added;
      differences = all_told;
      repairs = rest.repairs ∙ ap (λ rs. rs ++ rest.added) same;
      in_turn =
          skipped refused names
            (subst (λ n. Appends n ms rest.told rest.added) same_row rest.in_turn);
    }
    | inr (repair, allowed, names, appends_it, next_row, more) ↦ record {
      told = step.told ∷ rest.told;
      added = repair ∷ rest.added;
      differences = all_told;
      repairs =
          rest.repairs
          ∙ ap (λ rs. rs ++ rest.added) more
          ∙ append_assoc before.repairs _ rest.added;
      in_turn =
          appended allowed names appends_it
            (subst (λ n. Appends n ms rest.told rest.added) next_row rest.in_turn);
    }
  ]
    where
      all_told : named_missing after ≡ named_missing before ++ (step.told ∷ rest.told)
      all_told =
          rest.differences
          ∙ ap (λ ds. ds ++ rest.told) step.differences
          ∙ append_assoc (named_missing before) _ rest.told

  -- The loop over the records that only the standard has names each in one difference, in their order,
  -- with its key, and adds to the repairs, in the order of the records, one for each that may be
  -- appended, with the values of the columns and the identifier of its difference: the first has the
  -- given row, and each further one the row beneath. The difference has the row of the repair.
  pub append_missing-IsAppended :
      (ms : List (Missing engine)) (row : ℕ) (report : Report engine)
      → IsAppended ms row report (append_missing engine sheet ms row report)
  unfolding append_missing
  append_missing-IsAppended [] row report = record {
    told = [];
    added = [];
    differences = sym (append_none (named_missing report));
    repairs = sym (append_none report.repairs);
    in_turn = finished;
  }
  append_missing-IsAppended (m ∷ ms) row report =
      let noted = note_all engine sheet m row (unsafe_write_fields engine sheet m row) report in
      let r = report_missing engine sheet m row noted in
      let rest = append_missing-IsAppended ms r.0 r.1 in
      let whole =
        step-IsAppended m row ms noted r (append_missing engine sheet ms r.0 r.1)
          (report_missing-IsStep m row noted) rest in
      record {
        told = whole.told;
        added = whole.added;
        differences =
            whole.differences
            ∙ ap (λ ds. ds ++ whole.told)
                (note_all-named_missing m row (unsafe_write_fields engine sheet m row) report);
        repairs =
            whole.repairs
            ∙ ap (λ rs. rs ++ whole.added)
                (note_all-repairs m row (unsafe_write_fields engine sheet m row) report);
        in_turn = whole.in_turn;
      }
