-- ===== src/Tests/Products.antt =====
-- Runs of product_workflow on two merchant and two platform products.
use excelflow.Prelude.{
  ℕ, ◌≡◌, ◌≤◌, refl, Bool, true, false, List, [], ◌∷◌, ◌++◌, map, none, some, String, arith, str_eq,
  eq_iff, Bool-cases, inl, inr, length, count_by, any_by, all_by, ◌==◌, ◌&&◌, if◌then◌else◌,
}
use mathlib.Core.Path.{subst}
use excelflow.Products.{ok, Cells, get, field, member, MerchantRecord, PlatformRecord}
use excelflow.Sorting.{sorted}
use excelflow.Products.Template.{fixed_fields}
use excelflow.Products.Matching.{
  normalize_text, normalize_product_name, tie_break_score, name_score, scored, find_candidates,
  choose, match_loop, match_products, level, Matching,
}
use excelflow.Products.Matching.Choice.{matches_platform}
use excelflow.Products.Matching.Scores.{is_justified}
use excelflow.Products.Matching.Guarantees.{
  match_products_once, matches-is_justified, has_reason, match_products_complete,
}
use excelflow.Products.Merging.{merge_fixed_fields}
use excelflow.Products.Merging.Outcome.{pick, differs, listed, told_of, merge_fixed_fields_lem}
use excelflow.Products.Reconciling.{ReconciliationResult, left_over, reconcile_products}
use excelflow.Products.Reconciling.Kept.{Source, source_of, merchant_source, shows_platform}
use excelflow.Products.Reconciling.Summary.{reconcile_products-rows, reconcile_products_shows}

-- texts that are equal or half alike
abbrev cells : Cells
cells = record {
  Value = String;
  Number = ℕ;
  is_string = λ v. true;
  value_text = λ v. v;
  casefold = λ v. v;
  strip_name = λ v. v;
  wratio = λ a b. 50;
  full_score = 100;
  wratio-le = λ a b. omega arith;
  decimal_value = λ v. none;
  same_number = λ a b. a == b;
  bool_value = λ v. none;
  iso_date = λ v. none;
}

abbrev merchant : String → String → ℕ → MerchantRecord cells
merchant id name line = record {
  record_id = id;
  source_sheet = "s";
  source_row = line;
  fixed = ("product_name", some name) ∷ ("brand", some "x") ∷ [];
}

abbrev platform : String → String → PlatformRecord cells
platform id name = record {
  record_id = id;
  fixed = ("product_name", some name) ∷ ("brand", some "y") ∷ ("sku", some "z") ∷ [];
  extras = [];
}

abbrev ms : List (MerchantRecord cells)
ms = merchant "m" "desk" 2 ∷ merchant "n" "chair" 3 ∷ []

abbrev ps : List (PlatformRecord cells)
ps = platform "p" "desk" ∷ platform "q" "lamp" ∷ []

abbrev matching : Matching cells
matching = record {
  used = "p" ∷ [];
  matches =
      record {
        merchant_record_id = "m";
        platform_record_id = "p";
        score = 100;
        tie_break_score = 0;
      }
      ∷ [];
  issues = [];
  ambiguous = [];
}

matched : match_products cells ms ps (level 90) ≡ some matching
unfolding match_products find_candidates scored name_score tie_break_score normalize_text
    normalize_product_name match_loop choose sorted get field
matched = refl

match_products_once_example : matches_platform cells "p" matching.matches ≤ 1
match_products_once_example = match_products_once cells 90 ms ps matched "p"

matches-is_justified_example : all_by (is_justified cells 90 ps ms) matching.matches ≡ true
matches-is_justified_example = matches-is_justified cells 90 ms ps matched

match_products_complete_example : all_by (has_reason cells 90 ms ps matched matching) ms ≡ true
match_products_complete_example = match_products_complete cells 90 ms ps matched

merge_fixed_fields_lem_example :
    let merge = merge_fixed_fields cells (merchant "m" "desk" 2) (platform "p" "desk") 100 in
    (get "brand" merge.merged ≡ (
      if listed cells (merchant "m" "desk" 2) (platform "p" "desk") 100 "brand" fixed_fields
      then some (pick cells (merchant "m" "desk" 2) (platform "p" "desk") 100 "brand")
      else none))
    × (member "brand" merge.differences ≡ (
        listed cells (merchant "m" "desk" 2) (platform "p" "desk") 100 "brand" fixed_fields
        && differs cells (merchant "m" "desk" 2) (platform "p" "desk") 100 "brand"))
    × (merge.issues ≡ told_of cells (merchant "m" "desk" 2) (platform "p" "desk") 100 fixed_fields)
    × (length merge.issues ≡ length merge.differences)
merge_fixed_fields_lem_example =
    merge_fixed_fields_lem cells (merchant "m" "desk" 2) (platform "p" "desk") 100 "brand"

reconciled_rows :
    (r : ReconciliationResult cells) × (reconcile_products cells ms ps [] (level 90) true ≡ ok r)
    × (map (source_of cells) r.output_records
        ≡ map (merchant_source cells) ms
          ++ map {B = Source cells} (λ q. (none, none)) (left_over cells matching ps))
reconciled_rows = reconcile_products-rows cells ms ps 90 matching matched []

single_bit : (b : Bool) → (if b then 1 else 0) ≤ 1
single_bit true = omega arith
single_bit false = omega arith

single : (id : String) → count_by (λ (m : MerchantRecord cells). str_eq m.record_id id) ms ≤ 1
single id = elim (Bool-cases (str_eq "m" id)) [
  | inl same ↦
      subst (λ x. count_by (λ (m : MerchantRecord cells). str_eq m.record_id x) ms ≤ 1)
        ((eq_iff "m" id).0 same) (omega arith)
  | inr other ↦ rw other (single_bit (str_eq "n" id))
]

reconcile_products_shows_example :
    all_by
      (λ (p : PlatformRecord cells).
        any_by (shows_platform cells p.record_id) reconciled_rows.0.output_records)
      ps
    ≡ true
reconcile_products_shows_example =
    reconcile_products_shows cells ms ps 90 matching matched [] single reconciled_rows.1
