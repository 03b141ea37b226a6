-- ===== src/Records/Changes.antt =====
-- src/excel_auditor/record_store.py: the dictionary that the map on disk stands for.
use excelflow.Prelude.{◌≡◌, List, [], ◌∷◌, Option, none, some, String, str_eq, if◌then◌else◌}
use excelflow.Sql.{SqlTable}
use excelflow.Records.{Pickles, StoredRecord, RecordMap, get_item, set_item, del_item}

-- A dictionary by the texts of keys, and what may be done to it.
abbrev pub Contents : Type 0 → Type 0
Contents V = String → Option V

pub data Change (K V : Type 0) : Type 0 where
  put : K → V → Change K V
  remove : K → Change K V

module _ {K V : Type 0} (pickles : Pickles K V) where
  open pickles use {stable_key}

  abbrev pub put_at : K → V → Contents V → Option V → Option (Contents V)
  put_at key value d (some v) = none
  put_at key value d none =
      some (λ text. if str_eq (stable_key key) text then some value else d text)

  abbrev pub remove_at : K → Contents V → Option V → Option (Contents V)
  remove_at key d none = none
  remove_at key d (some v) = some (λ text. if str_eq (stable_key key) text then none else d text)

  -- a change of the dictionary, where the key may not be there yet, or has to be there
  unfoldable pub change : Change K V → Contents V → Option (Contents V)
  change (put key value) d = put_at key value d (d (stable_key key))
  change (remove key) d = remove_at key d (d (stable_key key))

  -- The changes one after another, to the first that fails.
  unfoldable pub run : List (Change K V) → Contents V → Option (Contents V)
  run [] d = some d
  run (c ∷ cs) d = elim (change c d) [ none ↦ none | some e ↦ run cs e ]

  module _ (t : SqlTable (StoredRecord pickles)) where
    unfoldable pub change_map : Change K V → RecordMap pickles t → Option (RecordMap pickles t)
    change_map (put key value) m = set_item pickles t key value m
    change_map (remove key) m = del_item pickles t key m

    unfoldable pub run_map : List (Change K V) → RecordMap pickles t → Option (RecordMap pickles t)
    run_map [] m = some m
    run_map (c ∷ cs) m = elim (change_map c m) [ none ↦ none | some n ↦ run_map cs n ]

    -- every key reads the record that the dictionary has for its text
    abbrev pub Represents : RecordMap pickles t → Contents V → Type 0
    Represents m d = (key : K) → get_item pickles t key m ≡ d (stable_key key)

    -- both fail, or both give what represents each other
    abbrev pub Agree : Option (RecordMap pickles t) → Option (Contents V) → Type 0
    Agree none none = Unit
    Agree (some m) (some d) = Represents m d
    Agree _ _ = ⊥
