-- ===== src/Audit/Standards.antt =====
-- src/excel_auditor/engine.py: the loop of `_compare_records` over the records of the standard, which
-- gives each its key, and the loop that takes out the keys of several records, where the records are
-- held in a dictionary in memory: they are no `SpilledRecords`, and fewer than
-- EXCEL_AUDITOR_DISK_RECORD_THRESHOLD. The map on disk, which takes keys of one text for one, is
-- modelled in Records and not joined here.
mod Widths
pub mod Guarantees
use excelflow.Prelude.{
  ℕ, ◌+◌, Bool, true, false, List, [], ◌∷◌, ◌++◌, Option, none, some, any_by, if◌then◌else◌,
}
use excelflow.Products.{Dict}
use excelflow.Audit.{Engine, Parsing, duplicate_primary_key, Difference, Report, note}
use excelflow.Audit.Matched.{value_of}
use excelflow.Audit.Keys.{
  Key, same_key, KeyRules, EmptyKeyAction, report_invalid, skip_row, use_row_number, key_of,
  fallback_key, business_key,
}
use excelflow.Audit.Keys.Collecting.{store, pop}

module _ (engine : Engine) where
  open engine use {Value, of_number}

  abbrev pub Entry : Type 0
  Entry = Dict (Option Value)

  -- how the loop takes a record
  pub data Standing : Type 0 where
    passed : Standing
    rejected accepted : Key engine → Standing

  abbrev pub with_standing : Entry → Standing → List (Key engine × Entry)
  with_standing entry (accepted key) = (key, entry) ∷ []
  with_standing entry _ = []

  abbrev pub rejected_key : Standing → List (Key engine)
  rejected_key (rejected key) = key ∷ []
  rejected_key _ = []

  -- `if key: standard_duplicates.add(key)`; the order of a set is arbitrary, here that of insertion.
  unfoldable pub add_key : Key engine → List (Key engine) → List (Key engine)
  add_key [] keys = keys
  add_key (p ∷ key) keys =
      if any_by (λ k. same_key engine k (p ∷ key)) keys then keys else keys ++ (p ∷ key) ∷ []

  abbrev pub mark_key : Key engine → Entry → Entry → List (Key engine) → List (Key engine)
  mark_key key first again keys = add_key key keys

  module _ (parsing : Parsing engine) (rules : KeyRules engine) where
    -- a record with the part of a key that has been read
    abbrev pub without_key : EmptyKeyAction → ℕ → Key engine → Standing
    without_key skip_row ordinal key = passed
    without_key use_row_number ordinal key = accepted (fallback_key engine ordinal)
    without_key report_invalid ordinal key = rejected key

    abbrev pub standing_of : ℕ → Key engine × Bool → Standing
    standing_of ordinal (key, valid) =
        if valid then accepted key else without_key rules.empty_action ordinal key

    -- `standard_row_number`
    abbrev pub row_number_of : ℕ → Entry → Option Value
    row_number_of ordinal entry =
        if rules.by_row_number
        then value_of engine rules.row_number_field entry
        else some (of_number ordinal)

    unfoldable pub standing : ℕ → Entry → Standing
    standing ordinal entry =
        standing_of ordinal
          (key_of engine parsing.parse_value entry rules (row_number_of ordinal entry))

    -- the records that have a key, and the keys that are rejected
    unfoldable pub keyed_standards : ℕ → List Entry → List (Key engine × Entry)
    keyed_standards ordinal [] = []
    keyed_standards ordinal (entry ∷ entries) =
        with_standing entry (standing ordinal entry) ++ keyed_standards (ordinal + 1) entries

    unfoldable pub rejected_keys : ℕ → List Entry → List (Key engine)
    rejected_keys ordinal [] = []
    rejected_keys ordinal (entry ∷ entries) =
        rejected_key (standing ordinal entry) ++ rejected_keys (ordinal + 1) entries

    -- `standard_records`, a dictionary, with `standard_duplicates`
    abbrev pub Standards : Type 0
    Standards = List (Key engine × Entry) × List (Key engine)

    abbrev pub take_standing : Entry → Standing → Standards → Standards
    take_standing entry passed c = c
    take_standing entry (rejected key) c = (c.0, add_key key c.1)
    take_standing entry (accepted key) c = store engine mark_key key entry c

    unfoldable pub read_standards : ℕ → List Entry → Standards → Standards
    read_standards ordinal [] c = c
    read_standards ordinal (entry ∷ entries) c =
        read_standards (ordinal + 1) entries (take_standing entry (standing ordinal entry) c)

    abbrev duplicate_difference : Key engine → Difference engine
    duplicate_difference key = record {
      difference_id = "";
      type = duplicate_primary_key;
      severity = "error";
      cell = none;
      excel_row = none;
      canonical_field = none;
      business_key = some (business_key engine rules key);
      excel_raw_value = none;
      excel_normalized_value = none;
      standard_raw_value = none;
      standard_normalized_value = none;
      rule_id = none;
      render_action = "report_only";
      repair_status = "not_requested";
    }

    -- the loop over `standard_duplicates`
    unfoldable pub drop_standards :
        List (Key engine)
        → List (Key engine × Entry)
        → Report engine
        → List (Key engine × Entry) × Report engine
    drop_standards [] records report = (records, report)
    drop_standards (key ∷ keys) records report =
        drop_standards keys (pop engine key records) (note engine (duplicate_difference key) report)

    -- both loops over the records of a standard that is held in memory
    unfoldable pub read_standard_in_memory :
        List Entry → Report engine → List (Key engine × Entry) × Report engine
    read_standard_in_memory entries report =
        let c = read_standards 1 entries ([], []) in drop_standards c.1 c.0 report
