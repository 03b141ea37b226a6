-- ===== src/Tests/Pairing.antt =====
-- Runs of the pairing of two rows with one record of the standard.
use mathlib.Core.List.{Memᴰ}
use mathlib.Core.List.Memᴰ.{head, tail}
use excelflow.Prelude.{
  ◌≡◌, ◌⊎◌, refl, ap, true, false, List, [], ◌∷◌, map, some, str_eq, eq_refl, eq_iff, arith, all_by,
  drop, drop_none, leb,
}
use excelflow.Spill.{get_elem?}
use excelflow.Products.{get}
use excelflow.Audit.{RepairOperation, note, plan}
use excelflow.Audit.Keys.{Key, same_key, IsEquality, report_invalid, key_of, fields_key, type_value}
use excelflow.Audit.Keys.Collecting.{IsDict}
use excelflow.Audit.Rows.{
  Row, Kept, Region, record_of, row_key, read_sheet, region_rows, is_left_out,
}
use excelflow.Audit.Rows.Guarantees.{keyed_rows, keyed_row}
use excelflow.Audit.Rows.Accounts.{read_sheet-accounts, IsAccounted}
use excelflow.Audit.Rows.Reporting.{key_of_row}
use excelflow.Audit.Standards.{Entry, read_standard_in_memory, keyed_standards, standing}
use excelflow.Audit.Joining.{Join, join_in_memory, join_partitioned}
use excelflow.Audit.Joining.Guarantees.{occurs, join_in_memory-divides}
use excelflow.Audit.Joining.Equivalence.{join_partitioned-equivalent}
use excelflow.Audit.Partitions.{Frames, scan, write_partitions}
use excelflow.Audit.Partitions.Guarantees.{numbered, write_partitions_lem}
use excelflow.Audit.Partitions.Indexes.{IsJoining, alone, pairs}
use mathlib.Core.Path.{subst}
use excelflow.Prelude.{sym, length}
use excelflow.Audit.Values.{excel_write_safe, excel_write_value}
use excelflow.Audit.Matched.{Matched, Sheet, plan_value}
use excelflow.Audit.Extra.{report_extra, fill_cells, fill_cell}
use excelflow.Audit.Extra.Guarantees.{Tells, IsOfExtra, report_extra-reports}
use excelflow.Tests.Audit.{engine, rule, sheet, pair, empty_report}

text_laws : IsEquality engine
text_laws = record {
  same_refl = λ v. eq_refl v;
  same_class = λ v w u h. ap (λ x. str_eq x u) ((eq_iff v w).0 h);
}

abbrev region : Region engine
region = record {
  parsing = sheet.parsing;
  keys = record {
    by_row_number = false;
    row_number_field = "row";
    primary_key = rule ∷ [];
    empty_action = report_invalid;
  };
  columns = ("price", 1) ∷ [];
  start_row = 1;
  is_hidden = λ n. false;
  include_hidden_rows = true;
  mark_duplicates = true;
}

abbrev two_rows : List (Row engine)
two_rows = (2, some "3" ∷ []) ∷ (3, some "4" ∷ []) ∷ []

abbrev one_entry : List (Entry engine)
one_entry = (("price", some "3") ∷ []) ∷ []

abbrev key_three : Key engine
key_three = ("string", "3") ∷ []

join_in_memory-divides_example :
    let j =
      join_in_memory engine
        (read_sheet engine region two_rows empty_report).0
        (read_standard_in_memory engine sheet.parsing region.keys one_entry empty_report).0 in
    (occurs engine key_three j.matched ≡ 1)
    × (occurs engine key_three j.excel_only ≡ 0)
    × (occurs engine key_three j.standard_only ≡ 0)
unfolding same_key keyed_rows keyed_row row_key key_of fields_key type_value record_of get_elem?
    drop get keyed_standards standing
join_in_memory-divides_example =
    join_in_memory-divides engine text_laws region two_rows one_entry empty_report empty_report
      key_three refl

first_row : Memᴰ (2, some "3" ∷ []) (region_rows engine region two_rows)
first_row =
    let here : Memᴰ {A = Row engine} (2, some "3" ∷ []) two_rows = head refl in
    subst (Memᴰ (2, some "3" ∷ [])) (sym (drop_none two_rows)) here

first_is_read : is_left_out engine region (2, some "3" ∷ []) ≡ false
unfolding record_of get_elem?
first_is_read = refl

read_sheet-accounts_example :
    IsAccounted engine region text_laws two_rows empty_report
      (2, some "3" ∷ [])
      first_row
      first_is_read
      (key_of_row engine region (2, some "3" ∷ []))
read_sheet-accounts_example =
    read_sheet-accounts engine region text_laws two_rows empty_report (2, some "3" ∷ []) first_row
      first_is_read rule [] refl

abbrev frames : Frames (Key engine)
frames = record { stable_key = λ k. "key"; anti_join = alone; inner_join = pairs }

abbrev three_keys : List (Key engine)
three_keys = key_three ∷ key_three ∷ key_three ∷ []

write_partitions_lem_example :
    (scan frames 2 (write_partitions frames 2 three_keys)
      ≡ ("key", 0) ∷ ("key", 1) ∷ ("key", 2) ∷ [])
    × (all_by (λ part. leb (length part) 2) (write_partitions frames 2 three_keys) ≡ true)
unfolding numbered
write_partitions_lem_example = write_partitions_lem frames 2 three_keys (omega arith)

abbrev one_kept : List (Key engine × Kept engine)
one_kept = (key_three, (2, [])) ∷ []

abbrev one_standard : List (Key engine × Entry engine)
one_standard = (key_three, []) ∷ []

one-IsDict : {X : Type 0} (x : X) → IsDict engine ((key_three, x) ∷ [])
one-IsDict x k = ground arith

three-IsTold :
    (a b : Key engine)
    → Memᴰ a (key_three ∷ [])
    → Memᴰ b (key_three ∷ [])
    → str_eq (frames.stable_key b) (frames.stable_key a) ≡ same_key engine b a
unfolding same_key
three-IsTold a b (head at) (head bt) =
    subst (λ c. true ≡ same_key engine b c) (sym at)
      (subst (λ c. true ≡ same_key engine c key_three) (sym bt) refl)
three-IsTold a b (head at) (tail mem) = elim mem [ ]
three-IsTold a b (tail mem) other = elim mem [ ]

frames-IsJoining : IsJoining frames
frames-IsJoining = record { anti-alone = λ p left right. refl; inner-pairs = λ p left right. refl }

join_partitioned-equivalent_example :
    let memory = join_in_memory engine one_kept one_standard in
    (j : Join engine) × (join_partitioned engine frames 2 one_kept one_standard ≡ some j)
    × ((k : Key engine)
        → (occurs engine k j.excel_only ≡ occurs engine k memory.excel_only)
          × (occurs engine k j.standard_only ≡ occurs engine k memory.standard_only)
          × (occurs engine k j.matched ≡ occurs engine k memory.matched))
join_partitioned-equivalent_example =
    join_partitioned-equivalent engine frames 2 frames-IsJoining one_kept one_standard (omega arith)
      (one-IsDict (2, [])) (one-IsDict []) three-IsTold three-IsTold

abbrev sheet_default : Sheet engine
sheet_default = record sheet {
  rules = record rule { fill_static_default = true; static_default = some "0" } ∷ [];
}

abbrev extra : Matched engine
extra = record pair { excel_record = [] }

report_extra-reports_example :
    ((m : Matched engine)
      → Memᴰ m (extra ∷ [])
      → Tells engine sheet_default true m
          (report_extra engine sheet_default true (extra ∷ []) empty_report))
    × ((r : RepairOperation engine)
        → Memᴰ r (report_extra engine sheet_default true (extra ∷ []) empty_report).repairs
        → Memᴰ r empty_report.repairs ⊎ IsOfExtra engine sheet_default true (extra ∷ []) r)
report_extra-reports_example =
    report_extra-reports engine sheet_default true (extra ∷ []) empty_report

-- The default is written.
report_extra_fills :
    map
      (λ (r : RepairOperation engine). r.value)
      (report_extra engine sheet_default true (extra ∷ []) empty_report).repairs
    ≡ some "0" ∷ []
unfolding report_extra fill_cells fill_cell note plan plan_value excel_write_safe excel_write_value
    get
report_extra_fills = refl
