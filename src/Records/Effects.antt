-- ===== src/Records/Effects.antt =====
-- src/excel_auditor/record_store.py: what a store and a removal do to the record of a text.
use excelflow.Prelude.{
  ◌∙◌, ◌≡◌, ◌+◌, refl, ap, not, Bool, true, false, List, [], ◌∷◌, Option, none, some, String,
  str_eq, eq_refl, eq_iff, arith, find_by, count_by, filter_by, Bool-cases, inl, inr, if◌then◌else◌,
}
use mathlib.Core.Path.{subst}
use excelflow.Sql.{SqlTable, lookup, get_lem}
use excelflow.Records.{
  Pickles, StoredRecord, text_of, RecordMap, row_of, get_item, new_record, set_item, del_item,
}

-- what an INSERT does to the queries of one row
pub record IsStoring {Row : Type 0} (t : SqlTable Row) : Type 0 where
  pub find-new :
      (p : Row → Bool) (r : Row) (db : t.Db)
      → count_by p (t.rows db) ≡ 0
      → find_by p (t.rows (t.insert r db)) ≡ (if p r then some r else none)
  pub find-other :
      (p : Row → Bool) (r : Row) (db : t.Db)
      → p r ≡ false
      → find_by p (t.rows (t.insert r db)) ≡ find_by p (t.rows db)

count_by-none : {A : Type 0} (p : A → Bool) (xs : List A) → find_by p xs ≡ none → count_by p xs ≡ 0
count_by-none p [] h = refl
count_by-none p (x ∷ xs) h = ground (arith, count_by-none p xs)

find-dropped :
    {A : Type 0} (p q : A → Bool)
    → ((x : A) → p x ≡ true → q x ≡ false)
    → (xs : List A) → find_by p (filter_by (λ x. not (q x)) xs) ≡ find_by p xs
find-dropped p q apart [] = refl
find-dropped p q apart (x ∷ xs) = ground (arith, apart x, find-dropped p q apart xs)

find-gone :
    {A : Type 0} (p : A → Bool) (xs : List A) → find_by p (filter_by (λ x. not (p x)) xs) ≡ none
find-gone p [] = refl
find-gone p (x ∷ xs) = ground (arith, find-gone p xs)

module _ {K V : Type 0} (pickles : Pickles K V) where
  open pickles use {dump_record, load_record, stable_key}

  module _ (t : SqlTable (StoredRecord pickles)) where
    abbrev pub read : Option (StoredRecord pickles) → Option V
    read none = none
    read (some r) = some (load_record r.record_blob)

    -- the record of a text
    abbrev pub record_at : String → RecordMap pickles t → Option V
    record_at text m = read (lookup (text_of pickles) t text m.table)

    module _ (m : RecordMap pickles t) (key : K) where
      abbrev pub at_key : Option (StoredRecord pickles)
      at_key = lookup (text_of pickles) t (stable_key key) m.table

      abbrev pub inserted : V → RecordMap pickles t
      inserted value = record m {
        table = t.insert (new_record pickles t key value m) m.table;
        next_ordinal = m.next_ordinal + 1;
      }

      abbrev pub deleted : RecordMap pickles t
      deleted = record m { table = t.delete (λ s. str_eq s.text (stable_key key)) m.table }

      pub get_item_lem : get_item pickles t key m ≡ read at_key
      unfolding get_item
      get_item_lem = ap read (get_lem (text_of pickles) t (stable_key key) m.table)

      -- what the query for the key returns decides each change
      by_row :
          {A : Type 0} (f : Option (StoredRecord pickles) → A) (o : Option (StoredRecord pickles))
          → at_key ≡ o
          → f (row_of pickles t key m) ≡ f o
      by_row f o h = ap f (get_lem (text_of pickles) t (stable_key key) m.table ∙ h)

      abbrev put_row : V → Option (StoredRecord pickles) → Option (RecordMap pickles t)
      put_row value none = some (inserted value)
      put_row value (some r) = none

      abbrev drop_row : Option (StoredRecord pickles) → Option (RecordMap pickles t)
      drop_row none = none
      drop_row (some r) = some deleted

      pub set_item-there :
          (value : V) (r : StoredRecord pickles)
          → at_key ≡ some r
          → set_item pickles t key value m ≡ none
      unfolding set_item
      set_item-there value r found = by_row (put_row value) (some r) found

      pub set_item-absent :
          (value : V) → at_key ≡ none → set_item pickles t key value m ≡ some (inserted value)
      unfolding set_item
      set_item-absent value absent = by_row (put_row value) none absent

      pub del_item-there :
          (r : StoredRecord pickles) → at_key ≡ some r → del_item pickles t key m ≡ some deleted
      unfolding del_item
      del_item-there r found = by_row drop_row (some r) found

      pub del_item-absent : at_key ≡ none → del_item pickles t key m ≡ none
      unfolding del_item
      del_item-absent absent = by_row drop_row none absent

      pub record_at-inserted :
          IsStoring t
          → ((v : V) → load_record (dump_record v) ≡ v)
          → (value : V) (text : String) → at_key ≡ none
          → record_at text (inserted value)
            ≡ (if str_eq (stable_key key) text then some value else record_at text m)
      record_at-inserted storing lossless value text absent =
          elim (Bool-cases (str_eq (stable_key key) text)) [
            | inl same ↦
                ap read (
                  storing.find-new (λ r. str_eq r.text text) (new_record pickles t key value m)
                    m.table
                    (count_by-none (λ (r : StoredRecord pickles). str_eq r.text text)
                      (t.rows m.table)
                      (subst (λ s. lookup (text_of pickles) t s m.table ≡ none)
                        ((eq_iff (stable_key key) text).0 same) absent)))
                ∙ ground (arith, lossless value)
            | inr other ↦
                ap read (
                  storing.find-other (λ r. str_eq r.text text) (new_record pickles t key value m)
                    m.table other)
                ∙ ground (arith, other)
          ]

      pub record_at-deleted :
          (text : String)
          → record_at text deleted
            ≡ (if str_eq (stable_key key) text then none else record_at text m)
      record_at-deleted text = elim (Bool-cases (str_eq (stable_key key) text)) [
        | inl same ↦
            ap read (
              ap (find_by (λ (r : StoredRecord pickles). str_eq r.text text))
                (t.rows-delete (λ r. str_eq r.text (stable_key key)) m.table)
              ∙ subst
                  (λ s.
                    find_by (λ (r : StoredRecord pickles). str_eq r.text s)
                      (filter_by (λ r. not (str_eq r.text (stable_key key))) (t.rows m.table))
                    ≡ none)
                  ((eq_iff (stable_key key) text).0 same)
                  (find-gone (λ (r : StoredRecord pickles). str_eq r.text (stable_key key))
                    (t.rows m.table)))
            ∙ ground (arith, same)
        | inr other ↦
            ap read (
              ap (find_by (λ (r : StoredRecord pickles). str_eq r.text text))
                (t.rows-delete (λ r. str_eq r.text (stable_key key)) m.table)
              ∙ find-dropped (λ r. str_eq r.text text) (λ r. str_eq r.text (stable_key key))
                  (λ r h. ground (
                    arith,
                    other,
                    h,
                    eq_iff r.text text,
                    eq_iff r.text (stable_key key),
                    eq_iff (stable_key key) text,
                    eq_refl text,
                  ))
                  (t.rows m.table))
            ∙ ground (arith, other)
      ]
