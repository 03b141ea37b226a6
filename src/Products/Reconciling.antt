-- ===== src/Products/Reconciling.antt =====
-- src/excel_auditor/product_workflow/reconciler.py: `reconcile_products`, from the records of both
-- sides to the rows and issues of the summary.
pub mod Indexing
pub mod Kept
pub mod Summary
use Prim.Native.Nat.{◌+◌}
use excelflow.Prelude.{
  ℕ, Bool, true, false, not, List, [], ◌∷◌, ◌++◌, map, Option, none, some, String, str_eq, any_by,
  filter_by, count_by, if◌then◌else◌,
}
use excelflow.Products.{
  Result, ok, value_error, key_error, ◌>>=◌, index_by, Cells, Dict, get, member, Fields, field,
  MerchantRecord, PlatformRecord, ProductMatch,
}
use excelflow.Products.Matching.{Threshold, Matching, AmbiguousMatch, match_products}
use excelflow.Products.Merging.{
  IssueType, field_mismatch, merchant_only_product, platform_only_product, ambiguous_product_match,
  info, warning, RowStatus, merchant_only, platform_only, source_only, Issue, OutputRecord,
  merge_fixed_fields,
}

module _ (cells : Cells) where
  pub record ReconciliationResult : Type 0 where
    pub merchant_records : List (MerchantRecord cells)
    pub platform_records : List (PlatformRecord cells)
    pub matches : List (ProductMatch cells)
    pub output_records : List (OutputRecord cells)
    pub issues : List (Issue cells)
    pub platform_extension_fields : List String

  -- a merchant's row without a platform product
  unfoldable pub alone : RowStatus → MerchantRecord cells → OutputRecord cells
  alone status m = record {
    fixed = m.fixed;
    platform_extras = [];
    source_sheet = some m.source_sheet;
    source_row = some m.source_row;
    platform_record_id = none;
    match_score = none;
    difference_fields = [];
    row_status = status;
  }

  abbrev pub ambiguity : AmbiguousMatch cells → Issue cells
  ambiguity a = record {
    issue_type = ambiguous_product_match;
    severity = warning;
    message = "多个平台商品的名称相似度和辅助字段得分相同，未自动合并。";
    source_sheet = some a.source_sheet;
    source_row = some a.source_row;
    field_id = some "product_name";
    field_title = some "商品名称";
    merchant_value = a.merchant_value;
    platform_value = none;
    platform_record_id = none;
    match_score = some a.match_score;
  }

  abbrev pub unmatched_merchant : MerchantRecord cells → Issue cells
  unmatched_merchant m = record {
    issue_type = merchant_only_product;
    severity = warning;
    message = "未找到相似度达到阈值的平台商品，商家商品已保留。";
    source_sheet = some m.source_sheet;
    source_row = some m.source_row;
    field_id = some "product_name";
    field_title = some "商品名称";
    merchant_value = field cells "product_name" m.fixed;
    platform_value = none;
    platform_record_id = none;
    match_score = none;
  }

  abbrev pub unmatched_platform : PlatformRecord cells → Issue cells
  unmatched_platform p = record {
    issue_type = platform_only_product;
    severity = info;
    message = "平台商品在商家工作表中不存在，已追加到汇总表底部。";
    source_sheet = none;
    source_row = none;
    field_id = some "product_name";
    field_title = some "商品名称";
    merchant_value = none;
    platform_value = field cells "product_name" p.fixed;
    platform_record_id = some p.record_id;
    match_score = none;
  }

  -- the row of a matched pair, with the issues of its merge
  unfoldable pub paired :
      MerchantRecord cells → PlatformRecord cells → ℕ → OutputRecord cells × List (Issue cells)
  paired m p score =
      let merge = merge_fixed_fields cells m p score in
      (
        record {
          fixed = merge.merged;
          platform_extras = p.extras;
          source_sheet = some m.source_sheet;
          source_row = some m.source_row;
          platform_record_id = some p.record_id;
          match_score = some score;
          difference_fields = merge.differences;
          row_status = RowStatus.matched;
        },
        merge.issues,
      )

  module _ (matching : Matching cells) (by_merchant : Dict (ProductMatch cells))
      (by_id : Dict (PlatformRecord cells)) where
    -- One round of the loop over the merchants.
    unfoldable pub merchant_row :
        MerchantRecord cells → Result (OutputRecord cells × List (Issue cells))
    merchant_row m = elim (get m.record_id by_merchant) [
      | none ↦
          if member m.record_id matching.ambiguous
          then ok (alone RowStatus.ambiguous m, [])
          else ok (alone merchant_only m, unmatched_merchant m ∷ [])
      | some x ↦ elim (get x.platform_record_id by_id) [
        | none ↦ key_error
        | some p ↦ ok (paired m p x.score)
      ]
    ]

    unfoldable pub merchant_rows :
        List (MerchantRecord cells) → Result (List (OutputRecord cells) × List (Issue cells))
    merchant_rows [] = ok ([], [])
    merchant_rows (m ∷ ms) = do
      (row, row_issues) ← merchant_row m
      (rows, issues) ← merchant_rows ms
      ok (row ∷ rows, row_issues ++ issues)

  unfoldable pub platform_row : PlatformRecord cells → OutputRecord cells
  platform_row p = record {
    fixed = p.fixed;
    platform_extras = p.extras;
    source_sheet = none;
    source_row = none;
    platform_record_id = some p.record_id;
    match_score = none;
    difference_fields = [];
    row_status = platform_only;
  }

  -- the platform records that no match has taken
  abbrev pub left_over : Matching cells → List (PlatformRecord cells) → List (PlatformRecord cells)
  left_over matching ps =
      filter_by (λ p. not (any_by (λ x. str_eq x.platform_record_id p.record_id) matching.matches))
        ps

  -- the result, from the rows and issues of the merchants
  abbrev pub summary :
      List (MerchantRecord cells)
      → List (PlatformRecord cells)
      → List String
      → Matching cells
      → List (OutputRecord cells)
      → List (Issue cells)
      → ReconciliationResult
  summary ms ps extension_fields matching rows issues = record {
    merchant_records = ms;
    platform_records = ps;
    matches = matching.matches;
    output_records = rows ++ map platform_row (left_over matching ps);
    issues =
        map ambiguity matching.issues ++ (issues ++ map unmatched_platform (left_over matching ps));
    platform_extension_fields = extension_fields;
  }

  unfoldable pub reconcile_matched :
      List (MerchantRecord cells)
      → List (PlatformRecord cells)
      → List String
      → Matching cells
      → Result ReconciliationResult
  reconcile_matched ms ps extension_fields matching = do
    (rows, issues) ←
        merchant_rows matching (index_by (λ x. x.merchant_record_id) matching.matches [])
          (index_by (λ p. p.record_id) ps []) ms
    ok (summary ms ps extension_fields matching rows issues)

  unfoldable pub reconcile_products :
      List (MerchantRecord cells)
      → List (PlatformRecord cells)
      → List String
      → Threshold
      → Bool
      → Result ReconciliationResult
  reconcile_products ms ps extension_fields threshold platform_available =
      if platform_available
      then elim (match_products cells ms ps threshold) [
        | none ↦ value_error
        | some matching ↦ reconcile_matched ms ps extension_fields matching
      ]
      else ok (record {
        merchant_records = ms;
        platform_records = [];
        matches = [];
        output_records = map (alone source_only) ms;
        issues = [];
        platform_extension_fields = [];
      })
