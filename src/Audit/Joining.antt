-- ===== src/Audit/Joining.antt =====
-- src/excel_auditor/engine.py: how `_compare_records` divides the keys of the workbook and of the standard
-- in memory and by the partitioned connector. The records of the standard are a dictionary in memory,
-- not the map on disk, whose keys come from `iter_join_keys` and whose records from their positions.
pub mod Guarantees
pub mod Equivalence
use excelflow.Prelude.{
  ℕ, ◌+◌, leb, length, Bool, true, false, not, List, [], ◌∷◌, map, Option, none, some, is_some,
  find_by, filter_by, any_by, if◌then◌else◌,
}
use excelflow.Products.{Dict}
use excelflow.Sorting.{text_leb, sorted}
use excelflow.Audit.{Engine, Parsing, Report}
use excelflow.Audit.Matched.{Matched}
use excelflow.Audit.Missing.{Missing}
use excelflow.Audit.Keys.{Key, same_key, KeyRules, parse_row_number, business_key}
use excelflow.Audit.Keys.Collecting.{bears}
use excelflow.Audit.Partitions.{Frames, classify, at_indexes}
use excelflow.Audit.Rows.{Kept, Rows}
use excelflow.Audit.Standards.{Entry}

module _ (engine : Engine) where
  open engine use {Value, text_of_key}

  pub record Join : Type 0 where
    pub excel_only : List (Key engine)
    pub standard_only : List (Key engine)
    pub matched : List (Key engine)

  -- `key in records`
  abbrev pub has_key : {X : Type 0} → Key engine → List (Key engine × X) → Bool
  has_key k records = any_by (bears engine k) records

  abbrev pub keys_of : {X : Type 0} → List (Key engine × X) → List (Key engine)
  keys_of records = map (λ e. e.0) records

  -- `sorted(keys, key=str)`; keys of one text, whose order in a set is arbitrary, stay in place.
  abbrev pub sorted_keys : List (Key engine) → List (Key engine)
  sorted_keys keys = sorted (λ a b. text_leb (text_of_key a) (text_of_key b)) keys

  -- the sets of keys, and their differences and intersection
  unfoldable pub join_in_memory :
      List (Key engine × Kept engine) → List (Key engine × Entry engine) → Join
  join_in_memory excel standard = record {
    excel_only = sorted_keys (filter_by (λ k. not (has_key k standard)) (keys_of excel));
    standard_only = sorted_keys (filter_by (λ k. not (has_key k excel)) (keys_of standard));
    matched = sorted_keys (filter_by (λ k. has_key k standard) (keys_of excel));
  }

  -- the keys at the positions that the connector gives; `none` is an IndexError
  unfoldable pub join_partitioned :
      Frames (Key engine)
      → ℕ
      → List (Key engine × Kept engine)
      → List (Key engine × Entry engine)
      → Option Join
  join_partitioned frames batch_size excel standard =
      let joined = classify frames batch_size (keys_of excel) (keys_of standard) in
      elim (at_indexes (keys_of excel) joined.excel_only) [
        | none ↦ none
        | some excel_only ↦ elim (at_indexes (keys_of standard) joined.standard_only) [
          | none ↦ none
          | some standard_only ↦
              elim (at_indexes (keys_of excel) (map (λ (pair : ℕ × ℕ). pair.0) joined.matched)) [
                | none ↦ none
                | some matched ↦ some (record {
                  excel_only = excel_only;
                  standard_only = standard_only;
                  matched = matched;
                })
              ]
        ]
      ]

  -- the choice by `EXCEL_AUDITOR_POLARS_JOIN_THRESHOLD`
  unfoldable pub join_keys :
      Frames (Key engine)
      → ℕ
      → ℕ
      → List (Key engine × Kept engine)
      → List (Key engine × Entry engine)
      → Option Join
  join_keys frames batch_size join_threshold excel standard =
      if leb join_threshold (length excel + length standard)
      then join_partitioned frames batch_size excel standard
      else some (join_in_memory excel standard)
