-- ===== src/Products/Merging.antt =====
-- src/excel_auditor/product_workflow/reconciler.py: when two values are equal, and how the fixed
-- fields of a matched pair are merged.
pub mod Outcome
use Prim.Native.String.{◌++◌ as join}
use excelflow.Prelude.{
  ℕ, Bool, true, false, ◌&&◌, ◌||◌, not, List, [], ◌∷◌, ◌++◌, Option, none, some, String, str_eq,
  any_by, if◌then◌else◌,
}
use excelflow.Products.{Cells, member, Fields, field, MerchantRecord, PlatformRecord}
use excelflow.Products.Template.{
  FixedField, ValueType, boolean, decimal, datetime, fixed_fields, has_type,
}
use excelflow.Products.Matching.{normalize_text}

pub data IssueType : Type 0 where
  field_mismatch merchant_only_product platform_only_product ambiguous_product_match : IssueType

pub data Severity : Type 0 where
  info warning error : Severity

pub data RowStatus : Type 0 where
  matched ambiguous merchant_only platform_only source_only : RowStatus

abbrev true_tokens : List String
true_tokens = "是" ∷ "有" ∷ "包含" ∷ "true" ∷ "1" ∷ "yes" ∷ "y" ∷ []

abbrev false_tokens : List String
false_tokens = "否" ∷ "无" ∷ "不包含" ∷ "false" ∷ "0" ∷ "no" ∷ "n" ∷ []

module _ (cells : Cells) where
  open cells use {
    Value, Number, is_string, value_text, casefold, decimal_value, same_number, bool_value,
    iso_date,
  }

  pub record Issue : Type 0 where
    pub issue_type : IssueType
    pub severity : Severity
    pub message : String
    pub source_sheet : Option String
    pub source_row : Option ℕ
    pub field_id : Option String
    pub field_title : Option String
    pub merchant_value : Option Value
    pub platform_value : Option Value
    pub platform_record_id : Option String
    pub match_score : Option ℕ

  pub record OutputRecord : Type 0 where
    pub fixed : Fields cells
    pub platform_extras : Fields cells
    pub source_sheet : Option String
    pub source_row : Option ℕ
    pub platform_record_id : Option String
    pub match_score : Option ℕ
    pub difference_fields : List String
    pub row_status : RowStatus

  -- `_missing`
  unfoldable pub missing : Option Value → Bool
  missing none = true
  missing (some v) = is_string v && str_eq (value_text v) ""

  abbrev token : Value → String
  token v = casefold (value_text v)

  -- `_boolean_value`
  unfoldable pub boolean_value : Value → Option Bool
  boolean_value v = elim (bool_value v) [
    | some b ↦ some b
    | none ↦
        if member (token v) true_tokens
        then some true
        else if member (token v) false_tokens
        then some false
        else none
  ]

  -- `_date_value`
  unfoldable pub date_value : Value → String
  date_value v = elim (iso_date v) [ some text ↦ text | none ↦ token v ]

  abbrev same_bool : Bool → Bool → Bool
  same_bool true b = b
  same_bool false b = not b

  -- Both conversions succeed, and their results are compared; else the comparison goes on.
  abbrev both : {A : Type 0} → Option A → Option A → (A → A → Bool) → Bool → Bool
  both (some a) (some b) same next = same a b
  both (some a) none same next = next
  both none b same next = next

  -- the comparison of two values that are there
  unfoldable pub present_equal : String → Value → Value → Bool
  unfolding boolean_value date_value
  present_equal id left right =
      let as_text = str_eq (token left) (token right) in
      let as_date =
        if has_type datetime id then str_eq (date_value left) (date_value right) else as_text in
      let as_boolean =
        if has_type boolean id
        then both (boolean_value left) (boolean_value right) same_bool as_date
        else as_date in
      if has_type decimal id
      then both (decimal_value left) (decimal_value right) same_number as_boolean
      else as_boolean

  unfoldable pub values_equal : String → Option Value → Option Value → Bool
  values_equal id none right = missing right
  values_equal id (some l) none = missing (some l)
  values_equal id (some l) (some r) =
      if missing (some l) && missing (some r)
      then true
      else if missing (some l) || missing (some r)
      then false
      else present_equal id l r

  abbrev pub title_of : FixedField → String
  title_of f = elim f.group [ none ↦ f.title | some g ↦ join g (join "/" f.title) ]

  pub record Merge : Type 0 where
    pub merged : Fields cells
    pub differences : List String
    pub issues : List Issue

  module _ (m : MerchantRecord cells) (p : PlatformRecord cells) (match_score : ℕ) where
    pub mismatch : FixedField → Issue
    mismatch f = record {
      issue_type = field_mismatch;
      severity = error;
      message = join f.title "与平台值不同，汇总表保留商家值并标红。";
      source_sheet = some m.source_sheet;
      source_row = some m.source_row;
      field_id = some f.field_id;
      field_title = some (title_of f);
      merchant_value = field cells f.field_id m.fixed;
      platform_value = field cells f.field_id p.fixed;
      platform_record_id = some p.record_id;
      match_score = some match_score;
    }

    -- One round of the loop over the fixed fields.
    unfoldable pub merge_field : FixedField → Merge → Merge
    merge_field f s =
        let mine = field cells f.field_id m.fixed in
        let theirs = field cells f.field_id p.fixed in
        if missing mine && not (missing theirs)
        then record s { merged = (f.field_id, theirs) ∷ s.merged }
        else if str_eq f.field_id "product_name"
            || (missing theirs || values_equal f.field_id mine theirs)
        then record s { merged = (f.field_id, mine) ∷ s.merged }
        else record s {
          merged = (f.field_id, mine) ∷ s.merged;
          differences = f.field_id ∷ s.differences;
          issues = s.issues ++ mismatch f ∷ [];
        }

    unfoldable pub merge_fields : List FixedField → Merge → Merge
    merge_fields [] s = s
    merge_fields (f ∷ fs) s = merge_fields fs (merge_field f s)

    -- `_merge_fixed_fields`
    pub merge_fixed_fields : Merge
    merge_fixed_fields =
        merge_fields fixed_fields (record { merged = []; differences = []; issues = [] })
