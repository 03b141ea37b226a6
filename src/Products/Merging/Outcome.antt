-- ===== src/Products/Merging/Outcome.antt =====
-- The merge of a matched pair, field by field.
use excelflow.Prelude.{
  ℕ, ◌+◌, ◌≡◌, refl, sym, ap, ◌∙◌, ◌++◌, map, filter_by, Bool, ◌&&◌, ◌||◌, not, List, [], ◌∷◌,
  Option, none, some, String, arith, str_eq, eq_iff, any_by, length, length-append, if◌then◌else◌,
}
use excelflow.Products.{Cells, get, field, member, MerchantRecord, PlatformRecord}
use excelflow.Products.Template.{FixedField, fixed_fields}
use Prim.Native.String.{◌++◌ as join}
use excelflow.Products.Merging.{
  Issue, field_mismatch, error, missing, values_equal, Merge, merge_field, merge_fields,
  merge_fixed_fields, mismatch,
}

append_none : {A : Type 0} (xs : List A) → xs ++ [] ≡ xs
append_none [] = refl
append_none (x ∷ xs) = ap (λ r. x ∷ r) (append_none xs)

append_assoc : {A : Type 0} (xs ys zs : List A) → (xs ++ ys) ++ zs ≡ xs ++ (ys ++ zs)
append_assoc [] ys zs = refl
append_assoc (x ∷ xs) ys zs = ap (λ r. x ∷ r) (append_assoc xs ys zs)

module _ (cells : Cells) (m : MerchantRecord cells) (p : PlatformRecord cells) (score : ℕ) where
  -- the two values of a field
  abbrev pub mine : String → Option cells.Value
  mine id = field cells id m.fixed

  abbrev pub theirs : String → Option cells.Value
  theirs id = field cells id p.fixed

  -- the merged value of a field, and whether the field counts as a difference
  abbrev pub pick : String → Option cells.Value
  pick id =
      if missing cells (mine id) && not (missing cells (theirs id)) then theirs id else mine id

  abbrev pub differs : String → Bool
  differs id =
      not (missing cells (mine id) && not (missing cells (theirs id)))
      && (not (str_eq id "product_name")
          && (not (missing cells (theirs id)) && not (values_equal cells id (mine id) (theirs id))))

  abbrev pub listed : String → List FixedField → Bool
  listed id fs = any_by (λ f. str_eq f.field_id id) fs

  merged-merge_field :
      (id : String) (f : FixedField) (s : Merge cells)
      → get id (merge_field cells m p score f s).merged
        ≡ (if str_eq f.field_id id then some (pick id) else get id s.merged)
  unfolding merge_field get
  merged-merge_field id f s = ground (arith, eq_iff f.field_id id)

  member-merge_field :
      (id : String) (f : FixedField) (s : Merge cells)
      → member id (merge_field cells m p score f s).differences
        ≡ (str_eq f.field_id id && differs id || member id s.differences)
  unfolding merge_field
  member-merge_field id f s = ground (arith, eq_iff f.field_id id)

  merged-merge_fields :
      (id : String) (fs : List FixedField) (s : Merge cells)
      → get id (merge_fields cells m p score fs s).merged
        ≡ (if listed id fs then some (pick id) else get id s.merged)
  unfolding merge_fields
  merged-merge_fields id [] s = refl
  merged-merge_fields id (f ∷ fs) s = ground (
    arith,
    merged-merge_field id f s,
    merged-merge_fields id fs (merge_field cells m p score f s),
  )

  member-merge_fields :
      (id : String) (fs : List FixedField) (s : Merge cells)
      → member id (merge_fields cells m p score fs s).differences
        ≡ (listed id fs && differs id || member id s.differences)
  unfolding merge_fields
  member-merge_fields id [] s = refl
  member-merge_fields id (f ∷ fs) s = ground (
    arith,
    member-merge_field id f s,
    member-merge_fields id fs (merge_field cells m p score f s),
  )

  -- the issue of a field that differs: both values, under its id and its title
  abbrev pub told : FixedField → Issue cells
  told f = record {
    issue_type = field_mismatch;
    severity = error;
    message = join f.title "与平台值不同，汇总表保留商家值并标红。";
    source_sheet = some m.source_sheet;
    source_row = some m.source_row;
    field_id = some f.field_id;
    field_title = some (elim f.group [ none ↦ f.title | some g ↦ join g (join "/" f.title) ]);
    merchant_value = mine f.field_id;
    platform_value = theirs f.field_id;
    platform_record_id = some p.record_id;
    match_score = some score;
  }

  -- the issues of the fields that differ, in the order of the fields
  abbrev pub told_of : List FixedField → List (Issue cells)
  told_of fs = map told (filter_by (λ f. differs f.field_id) fs)

  told-merge_field :
      (f : FixedField) (s : Merge cells)
      → (merge_field cells m p score f s).issues ≡ s.issues ++ told_of (f ∷ [])
  unfolding merge_field mismatch
  told-merge_field f s = ground (arith, append_none s.issues)

  told_of-cons :
      (f : FixedField) (fs : List FixedField) → told_of (f ∷ fs) ≡ told_of (f ∷ []) ++ told_of fs
  told_of-cons f fs = ground arith

  told-merge_fields :
      (fs : List FixedField) (s : Merge cells)
      → (merge_fields cells m p score fs s).issues ≡ s.issues ++ told_of fs
  unfolding merge_fields
  told-merge_fields [] s = sym (append_none s.issues)
  told-merge_fields (f ∷ fs) s =
      told-merge_fields fs (merge_field cells m p score f s)
      ∙ ap (λ issues. issues ++ told_of fs) (told-merge_field f s)
      ∙ append_assoc s.issues (told_of (f ∷ [])) (told_of fs)
      ∙ ap (λ issues. s.issues ++ issues) (sym (told_of-cons f fs))

  issues-merge_field :
      (f : FixedField) (s : Merge cells)
      → length (merge_field cells m p score f s).issues + length s.differences
        ≡ length (merge_field cells m p score f s).differences + length s.issues
  unfolding merge_field
  issues-merge_field f s = ground (arith, length-append s.issues (mismatch cells m p score f ∷ []))

  issues-merge_fields :
      (fs : List FixedField) (s : Merge cells)
      → length (merge_fields cells m p score fs s).issues + length s.differences
        ≡ length (merge_fields cells m p score fs s).differences + length s.issues
  unfolding merge_fields
  issues-merge_fields [] s = omega arith
  issues-merge_fields (f ∷ fs) s =
      omega
        (arith, issues-merge_field f s, issues-merge_fields fs (merge_field cells m p score f s))

  -- The merge of a pair has exactly the fixed fields. Each holds the merchant's value, or the
  -- platform's where the merchant's is missing and the platform's is not; the differences are the
  -- fields but the product name where both are there and unequal. Each of these has one issue, in the
  -- order of the fields, with its id, its title, both values, the pair and its score.
  pub merge_fixed_fields_lem :
      (id : String)
      → let merge = merge_fixed_fields cells m p score in
        (get id merge.merged ≡ (if listed id fixed_fields then some (pick id) else none))
        × (member id merge.differences ≡ (listed id fixed_fields && differs id))
        × (merge.issues ≡ told_of fixed_fields)
        × (length merge.issues ≡ length merge.differences)
  unfolding merge_fixed_fields
  merge_fixed_fields_lem id =
      let start : Merge cells = record { merged = []; differences = []; issues = [] } in
      (
        unfold get in merged-merge_fields id fixed_fields start,
        ground (arith, member-merge_fields id fixed_fields start),
        told-merge_fields fixed_fields start,
        omega (arith, issues-merge_fields fixed_fields start),
      )
