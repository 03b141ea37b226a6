-- ===== src/Records/Guarantees.antt =====
-- src/excel_auditor/record_store.py: the map on disk refines a dictionary by the texts of the keys.
use excelflow.Prelude.{
  ◌∙◌, ◌≡◌, sym, ap, List, [], ◌∷◌, Option, none, some, str_eq, Option-cases, inl, inr,
  if◌then◌else◌,
}
use mathlib.Core.Path.{subst}
use excelflow.Sql.{SqlTable}
use excelflow.Records.{Pickles, StoredRecord, RecordMap, set_item, del_item}
use excelflow.Records.Changes.{
  Contents, Change, put, remove, put_at, remove_at, change, run, change_map, run_map, Represents,
  Agree,
}
use excelflow.Records.Effects.{
  IsStoring, read, at_key, inserted, deleted, get_item_lem, set_item-there, set_item-absent,
  del_item-there, del_item-absent, record_at-inserted, record_at-deleted,
}

module _ {K V : Type 0} (pickles : Pickles K V) where
  open pickles use {dump_record, load_record, stable_key}

  module _ (t : SqlTable (StoredRecord pickles)) where
    Agree-from :
        (o p : Option (RecordMap pickles t)) (e f : Option (Contents V))
        → o ≡ p
        → e ≡ f
        → Agree pickles t p f
        → Agree pickles t o e
    Agree-from o p e f op ef h =
        subst (λ x. Agree pickles t x e) (sym op) (subst (Agree pickles t p) (sym ef) h)

    module _ (storing : IsStoring t) (lossless : (v : V) → load_record (dump_record v) ≡ v) where
      put-refines :
          (key : K) (value : V) (m : RecordMap pickles t) (d : Contents V)
          → Represents pickles t m d
          → Agree pickles t (set_item pickles t key value m) (change pickles (put key value) d)
      unfolding change
      put-refines key value m d same = elim (Option-cases (at_key pickles t m key)) [
        | inl absent ↦
            Agree-from (set_item pickles t key value m) (some (inserted pickles t m key value))
              (change pickles (put key value) d)
              (some (λ text. if str_eq (stable_key key) text then some value else d text))
              (set_item-absent pickles t m key value absent)
              (ap (put_at pickles key value d)
                (sym (same key) ∙ get_item_lem pickles t m key ∙ ap ((read pickles t)) absent))
              (λ k.
                get_item_lem pickles t (inserted pickles t m key value) k
                ∙ record_at-inserted pickles t m key storing lossless value (stable_key k) absent
                ∙ ap
                    (λ (o : Option V).
                      if str_eq (stable_key key) (stable_key k) then some value else o)
                    (sym (get_item_lem pickles t m k) ∙ same k))
        | inr (r, found) ↦
            Agree-from (set_item pickles t key value m) none (change pickles (put key value) d) none
              (set_item-there pickles t m key value r found)
              (ap (put_at pickles key value d)
                (sym (same key) ∙ get_item_lem pickles t m key ∙ ap ((read pickles t)) found))
              tt
      ]

      remove-refines :
          (key : K) (m : RecordMap pickles t) (d : Contents V)
          → Represents pickles t m d
          → Agree pickles t (del_item pickles t key m) (change pickles (remove key) d)
      unfolding change
      remove-refines key m d same = elim (Option-cases (at_key pickles t m key)) [
        | inl absent ↦
            Agree-from (del_item pickles t key m) none (change pickles (remove key) d) none
              (del_item-absent pickles t m key absent)
              (ap (remove_at pickles key d)
                (sym (same key) ∙ get_item_lem pickles t m key ∙ ap ((read pickles t)) absent))
              tt
        | inr (r, found) ↦
            Agree-from (del_item pickles t key m) (some (deleted pickles t m key))
              (change pickles (remove key) d)
              (some (λ text. if str_eq (stable_key key) text then none else d text))
              (del_item-there pickles t m key r found)
              (ap (remove_at pickles key d)
                (sym (same key) ∙ get_item_lem pickles t m key ∙ ap ((read pickles t)) found))
              (λ k.
                get_item_lem pickles t (deleted pickles t m key) k
                ∙ record_at-deleted pickles t m key (stable_key k)
                ∙ ap (λ (o : Option V). if str_eq (stable_key key) (stable_key k) then none else o)
                    (sym (get_item_lem pickles t m k) ∙ same k))
      ]

      change-refines :
          (c : Change K V) (m : RecordMap pickles t) (d : Contents V)
          → Represents pickles t m d
          → Agree pickles t (change_map pickles t c m) (change pickles c d)
      unfolding change_map
      change-refines (put key value) m d same = put-refines key value m d same
      change-refines (remove key) m d same = remove-refines key m d same

      go_on :
          (cs : List (Change K V))
          → ((n : RecordMap pickles t) (f : Contents V)
              → Represents pickles t n f
              → Agree pickles t (run_map pickles t cs n) (run pickles cs f))
          → (o : Option (RecordMap pickles t)) (e : Option (Contents V)) → Agree pickles t o e
          → Agree pickles t
              (elim o [ none ↦ none | some n ↦ run_map pickles t cs n ])
              (elim e [ none ↦ none | some f ↦ run pickles cs f ])
      go_on cs rest none none h = tt
      go_on cs rest (some n) (some f) h = rest n f h
      go_on cs rest none (some f) h = elim h [ ]
      go_on cs rest (some n) none h = elim h [ ]

      -- Stores and removals one after another on a map that represents a dictionary, in a table that
      -- stores what is inserted and with records that pickle gives back: the map raises a KeyError
      -- exactly when the dictionary's change is not allowed, a store of a key that is there or a
      -- removal of one that is not, and else every key reads what it reads in the dictionary.
      pub run_map-refines :
          (cs : List (Change K V)) (m : RecordMap pickles t) (d : Contents V)
          → Represents pickles t m d
          → Agree pickles t (run_map pickles t cs m) (run pickles cs d)
      unfolding run run_map
      run_map-refines [] m d same = same
      run_map-refines (c ∷ cs) m d same =
          go_on cs (run_map-refines cs) (change_map pickles t c m) (change pickles c d)
            (change-refines c m d same)
