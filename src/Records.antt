-- ===== src/Records.antt =====
-- src/excel_auditor/record_store.py: `DiskBackedRecordMap`, a dictionary that sqlite holds.
pub mod Changes
pub mod Effects
pub mod Guarantees
use excelflow.Prelude.{
  ℕ, ◌+◌, ◌==◌, Bool, true, false, List, [], ◌∷◌, map, Option, none, some, String, str_eq, leb,
  length, is_some, find_by,
}
use excelflow.Sorting.{sorted}
use excelflow.Spill.{get_elem?}
use excelflow.Sql.{SqlTable, get}

-- What the map takes from pickle, and `stable_key` of partitioned_join.py, whose text json writes.
pub record Pickles (K V : Type 0) : Type 1 where
  pub Blob : Type 0
  pub dump_key : K → Blob
  pub load_key : Blob → K
  pub dump_record : V → Blob
  pub load_record : Blob → V
  pub stable_key : K → String

module _ {K V : Type 0} (pickles : Pickles K V) where
  open pickles use {Blob, dump_key, load_key, dump_record, load_record, stable_key}

  -- A row of the table `records`.
  pub record StoredRecord : Type 0 where
    pub text : String
    pub ordinal : ℕ
    pub key_blob : Blob
    pub record_blob : Blob

  abbrev pub text_of : StoredRecord → String
  text_of r = r.text

  module _ (t : SqlTable StoredRecord) where
    pub record RecordMap : Type 0 where
      pub table : t.Db
      pub next_ordinal : ℕ
      pub join_ordinals : List ℕ

    abbrev pub row_of : K → RecordMap → Option StoredRecord
    row_of key m = get text_of t (stable_key key) m.table

    -- `m[key]`; `none` is the KeyError
    unfoldable pub get_item : K → RecordMap → Option V
    get_item key m = elim (row_of key m) [ none ↦ none | some r ↦ some (load_record r.record_blob) ]

    -- `key in m`
    unfoldable pub contains : K → RecordMap → Bool
    contains key m = is_some (row_of key m)

    abbrev pub new_record : K → V → RecordMap → StoredRecord
    new_record key value m = record {
      text = stable_key key;
      ordinal = m.next_ordinal;
      key_blob = dump_key key;
      record_blob = dump_record value;
    }

    -- `m[key] = value`; `none` is the KeyError for a key that is there
    unfoldable pub set_item : K → V → RecordMap → Option RecordMap
    set_item key value m = elim (row_of key m) [
      | some r ↦ none
      | none ↦ some (record m {
        table = t.insert (new_record key value m) m.table;
        next_ordinal = m.next_ordinal + 1;
      })
    ]

    -- `del m[key]`; `none` is the KeyError
    unfoldable pub del_item : K → RecordMap → Option RecordMap
    del_item key m = elim (row_of key m) [
      | none ↦ none
      | some r ↦ some (record m { table = t.delete (λ s. str_eq s.text (stable_key key)) m.table })
    ]

    -- the rows in the order of their ordinals
    abbrev pub ordered : RecordMap → List StoredRecord
    ordered m =
        sorted (λ (r s : StoredRecord). leb r.ordinal s.ordinal) (t.select (λ r. true) m.table)

    -- `iter_join_keys`, read to its end
    unfoldable pub iter_join_keys : RecordMap → List K × RecordMap
    iter_join_keys m = (
      map (λ (r : StoredRecord). load_key r.key_blob) (ordered m),
      record m { join_ordinals = map (λ (r : StoredRecord). r.ordinal) (ordered m) },
    )

    -- `item_at_join_index` of an index that is not negative; `none` is the IndexError
    unfoldable pub item_at_join_index : ℕ → RecordMap → Option (K × V)
    item_at_join_index index m = elim (get_elem? m.join_ordinals index) [
      | none ↦ none
      | some ordinal ↦ elim (find_by (λ r. true) (t.select (λ r. r.ordinal == ordinal) m.table)) [
        | none ↦ none
        | some r ↦ some (load_key r.key_blob, load_record r.record_blob)
      ]
    ]

    -- `len(m)`
    unfoldable pub len : RecordMap → ℕ
    len m = length (t.select (λ r. true) m.table)
