-- ===== src/Audit/Partitions.antt =====
-- src/excel_auditor/partitioned_join.py: `PolarsPartitionedKeyConnector`, which divides the keys through
-- files, and how `_compare_records` reads what it returns.
pub mod Guarantees
pub mod Indexes
use excelflow.Prelude.{
  ℕ, ◌+◌, Bool, true, false, List, [], ◌∷◌, ◌++◌, Option, none, some, String, leb, length,
  if◌then◌else◌,
}
use excelflow.Spill.{get_elem?}

-- What polars does with the frames of the parts, each row a text and a number; `K` has the keys, whose
-- text `json.dumps` gives.
pub record Frames (K : Type 0) : Type 0 where
  pub stable_key : K → String
  -- the numbers of the left rows whose text no right row has, in the order of the texts
  pub anti_join : List (String × ℕ) → List (String × ℕ) → List ℕ
  -- the numbers of the rows of one text, in the order of the texts
  pub inner_join : List (String × ℕ) → List (String × ℕ) → List (ℕ × ℕ)

pub record PartitionedKeyJoin : Type 0 where
  pub excel_only : List ℕ
  pub standard_only : List ℕ
  pub matched : List (ℕ × ℕ)

-- `[keys[index] for index in indexes]`; `none` is the IndexError
unfoldable pub at_indexes {ℓ} : {A : Type ℓ} → List A → List ℕ → Option (List A)
at_indexes keys [] = some []
at_indexes keys (i ∷ is) = elim (get_elem? keys i) [
  | none ↦ none
  | some k ↦ elim (at_indexes keys is) [ none ↦ none | some ks ↦ some (k ∷ ks) ]
]

module _ {K : Type 0} (frames : Frames K) (batch_size : ℕ) where
  open frames use {stable_key, anti_join, inner_join}

  -- the rows of a part
  abbrev pub Part : Type 0
  Part = List (String × ℕ)

  -- a batch that has reached its size is written
  abbrev flush : Part → List Part → Part × List Part
  flush batch parts =
      if leb batch_size (length batch) then ([], parts ++ batch ∷ []) else (batch, parts)

  -- the end of `_write_partitions`: what is left is a part, and so is nothing where there is no other
  abbrev last_part : Part → List Part → List Part
  last_part [] [] = [] ∷ []
  last_part [] (p ∷ parts) = p ∷ parts
  last_part (row ∷ batch) parts = parts ++ (row ∷ batch) ∷ []

  unfoldable pub write_rows : ℕ → List K → Part → List Part → List Part
  write_rows row_id [] batch parts = last_part batch parts
  write_rows row_id (key ∷ keys) batch parts =
      let (batch', parts') = flush (batch ++ (stable_key key, row_id) ∷ []) parts in
      write_rows (row_id + 1) keys batch' parts'

  -- `_write_partitions`
  unfoldable pub write_partitions : List K → List Part
  write_partitions keys = write_rows 0 keys [] []

  -- `scan_parquet` of the parts, in the order of their names
  unfoldable pub scan : List Part → Part
  scan [] = []
  scan (part ∷ parts) = part ++ scan parts

  unfoldable pub classify : List K → List K → PartitionedKeyJoin
  classify excel_keys standard_keys =
      let excel = scan (write_partitions excel_keys) in
      let standard = scan (write_partitions standard_keys) in
      record {
        excel_only = anti_join excel standard;
        standard_only = anti_join standard excel;
        matched = inner_join excel standard;
      }
