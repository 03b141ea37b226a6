-- ===== src/Tests/Records.antt =====
-- The record map on a table that is held in memory.
use excelflow.Prelude.{
  ◌≡◌, refl, true, ℕ, [], ◌∷◌, List, Option, none, some, String, arith, find_by-none, Bool,
}
use excelflow.Sql.{get}
use excelflow.Sql.Memory.{memory}
use excelflow.Spill.{get_elem?}
use excelflow.Sorting.{sorted}
use excelflow.Records.{
  set_item, del_item, Pickles, StoredRecord, RecordMap, iter_join_keys, item_at_join_index,
  get_item, contains, len,
}
use excelflow.Records.Changes.{Contents, Change, put, remove, run, run_map, change_map, Agree}
use excelflow.Records.Effects.{IsStoring}
use excelflow.Records.Guarantees.{run_map-refines}

abbrev pickles : Pickles String ℕ
pickles = record {
  Blob = String × ℕ;
  dump_key = λ k. (k, 0);
  load_key = λ b. b.0;
  dump_record = λ v. ("", v);
  load_record = λ b. b.1;
  stable_key = λ k. k;
}

memory-IsStoring : IsStoring (memory (StoredRecord pickles))
memory-IsStoring = record {
  find-new = λ p r rows none_there. ground (arith, find_by-none p rows none_there);
  find-other = λ p r rows other. ground (arith, other);
}

abbrev empty_map : RecordMap pickles (memory (StoredRecord pickles))
empty_map = record { table = []; next_ordinal = 0; join_ordinals = [] }

abbrev changes : List (Change String ℕ)
changes = put "b" 7 ∷ put "a" 2 ∷ remove "b" ∷ put "b" 3 ∷ []

abbrev no_records : Contents ℕ
no_records text = none

run_map-refines_example :
    Agree pickles
      (memory (StoredRecord pickles))
      (run_map pickles (memory (StoredRecord pickles)) changes empty_map)
      (run pickles changes no_records)
unfolding get_item get
run_map-refines_example =
    run_map-refines pickles (memory (StoredRecord pickles)) memory-IsStoring (λ v. refl) changes
      empty_map no_records (λ key. refl)

-- The keys are read in the order in which they came, and an index finds its record.
abbrev later_map : Option (RecordMap pickles (memory (StoredRecord pickles)))
later_map = run_map pickles (memory (StoredRecord pickles)) changes empty_map

read_back :
    elim later_map [
      | none ↦ none
      | some m ↦
          item_at_join_index pickles
            (memory (StoredRecord pickles))
            1
            (iter_join_keys pickles (memory (StoredRecord pickles)) m).1
    ]
    ≡ some ("b", 3)
unfolding run_map change_map set_item get del_item item_at_join_index get_elem? iter_join_keys
    sorted
read_back = refl

abbrev report : RecordMap pickles (memory (StoredRecord pickles)) → Bool × Option ℕ × ℕ
report m = (
  contains pickles (memory (StoredRecord pickles)) "b" m,
  get_item pickles (memory (StoredRecord pickles)) "c" m,
  len pickles (memory (StoredRecord pickles)) m,
)

reported : elim later_map [ none ↦ none | some m ↦ some (report m) ] ≡ some (true, none, 2)
unfolding run_map change_map set_item get del_item contains get_item len
reported = refl
