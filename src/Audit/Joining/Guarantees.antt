-- ===== src/Audit/Joining/Guarantees.antt =====
-- src/excel_auditor/engine.py: each key is extra, missing or matched as it is borne by the rows of the
-- worksheet and the records of the standard.
use excelflow.Prelude.{
  ◌∙◌, ◌≡◌, refl, sym, ap, ℕ, ◌==◌, ◌&&◌, not, Bool, true, false, List, [], ◌∷◌, is_some, any_by,
  count_by, filter_by, find_by, Bool-cases, inl, inr, arith, if◌then◌else◌,
}
use excelflow.Sorting.{text_leb, count_by-sorted}
use excelflow.Audit.{Engine, Report}
use excelflow.Audit.Keys.{Key, same_key, IsEquality}
use excelflow.Audit.Keys.Collecting.{bears, bit, bears_same}
use excelflow.Audit.Rows.{Row, Kept, Region, read_sheet}
use excelflow.Audit.Rows.Guarantees.{keyed_entries, read_sheet-find, read_sheet-IsDict}
use excelflow.Audit.Standards.{Entry, read_standard_in_memory, keyed_standards}
use excelflow.Audit.Standards.Guarantees.{
  read_standard_in_memory-find, read_standard_in_memory-IsDict,
}
use excelflow.Audit.Joining.{has_key, keys_of, sorted_keys, join_in_memory}

module _ (engine : Engine) where
  -- how often a list has a key
  abbrev pub occurs : Key engine → List (Key engine) → ℕ
  occurs k keys = count_by (λ j. same_key engine j k) keys

  pub any_by-find : {A : Type 0} (p : A → Bool) (xs : List A) → any_by p xs ≡ is_some (find_by p xs)
  any_by-find p [] = refl
  any_by-find p (x ∷ xs) = ground (arith, any_by-find p xs)

  gated : (t a b : Bool) {n : ℕ} → n ≡ bit a → t ≡ b → (if t then n else 0) ≡ bit (a && b)
  gated t a b counted tested = ground arith

  pub occurs-keys_of :
      {X : Type 0} (k : Key engine) (records : List (Key engine × X))
      → occurs k (keys_of engine records) ≡ count_by (bears engine k) records
  occurs-keys_of k [] = refl
  occurs-keys_of k (e ∷ es) = ground (arith, occurs-keys_of k es)

  module _ (laws : IsEquality engine) where
    pub has_key-same :
        {X : Type 0} (a b : Key engine) (records : List (Key engine × X))
        → same_key engine a b ≡ true
        → has_key engine a records ≡ has_key engine b records
    has_key-same a b [] h = refl
    has_key-same a b (e ∷ es) h =
        ground (arith, bears_same engine laws a b e h, has_key-same a b es h)

    module _ (p : Key engine → Bool)
        (p-same : (a b : Key engine) → same_key engine a b ≡ true → p a ≡ p b) where
      occurs-filter_by :
          (k : Key engine) (keys : List (Key engine))
          → occurs k (filter_by p keys) ≡ (if p k then occurs k keys else 0)
      occurs-filter_by k [] = ground arith
      occurs-filter_by k (j ∷ keys) = elim (Bool-cases (same_key engine j k)) [
        | inl same ↦ ground (arith, p-same j k same, occurs-filter_by k keys)
        | inr other ↦ ground (arith, occurs-filter_by k keys)
      ]

      occurs-sorted_keys :
          {X : Type 0} (k : Key engine) (records : List (Key engine × X))
          → occurs k (sorted_keys engine (filter_by p (keys_of engine records)))
            ≡ (if p k then count_by (bears engine k) records else 0)
      occurs-sorted_keys k records =
          count_by-sorted (λ a b. text_leb (engine.text_of_key a) (engine.text_of_key b))
            (λ j. same_key engine j k) (filter_by p (keys_of engine records))
          ∙ occurs-filter_by k (keys_of engine records)
          ∙ ap (λ n. if p k then n else 0) (occurs-keys_of k records)

    module _ (region : Region engine) (rows : List (Row engine)) (entries : List (Entry engine))
        (read reported : Report engine) where
      abbrev excel : List (Key engine × Kept engine)
      excel = (read_sheet engine region rows read).0

      abbrev standard : List (Key engine × Entry engine)
      standard = (read_standard_in_memory engine region.parsing region.keys entries reported).0

      -- one row of the worksheet has the key, one record of the standard
      abbrev pub in_one_row : Key engine → Bool
      in_one_row k = count_by (bears engine k) (keyed_entries engine region rows) == 1

      abbrev pub in_one_entry : Key engine → Bool
      in_one_entry k =
          count_by (bears engine k) (keyed_standards engine region.parsing region.keys 1 entries)
          == 1

      find_some :
          {X : Type 0} (k : Key engine) (xs : List (Key engine × X))
          → count_by (bears engine k) xs ≡ 1
          → is_some (find_by (bears engine k) xs) ≡ true
      find_some k [] h = absurd (omega arith)
      find_some k (x ∷ xs) h = ground (arith, find_some k xs)

      has_key-excel : (k : Key engine) → has_key engine k excel ≡ in_one_row k
      has_key-excel k =
          any_by-find (bears engine k) excel
          ∙ ap is_some (read_sheet-find engine laws region rows read k)
          ∙ ground (arith, find_some k (keyed_entries engine region rows))

      has_key-standard :
          (k : Key engine)
          → same_key engine [] k ≡ false
          → has_key engine k standard ≡ in_one_entry k
      has_key-standard k proper =
          any_by-find (bears engine k) standard
          ∙ ap is_some (
              read_standard_in_memory-find engine laws region.parsing region.keys entries reported k
                proper)
          ∙ ground
              (arith, find_some k (keyed_standards engine region.parsing region.keys 1 entries))

      -- Of a standard that is held in memory, and joined in memory, where `==` is an equality: a key that
      -- is not empty is once among the matched ones exactly if one row of the worksheet and one record of
      -- the standard bear it, once among the extra ones if one row but not one record does, and once
      -- among the missing ones if one record but not one row does.
      pub join_in_memory-divides :
          (k : Key engine)
          → same_key engine [] k ≡ false
          → (occurs k (join_in_memory engine excel standard).matched
              ≡ bit (in_one_row k && in_one_entry k))
            × (occurs k (join_in_memory engine excel standard).excel_only
                ≡ bit (in_one_row k && not (in_one_entry k)))
            × (occurs k (join_in_memory engine excel standard).standard_only
                ≡ bit (in_one_entry k && not (in_one_row k)))
      unfolding join_in_memory
      join_in_memory-divides k proper =
          let on_excel = has_key-excel k in
          let on_standard = has_key-standard k proper in
          let excel_count =
            read_sheet-IsDict engine laws region rows read k
            ∙ ap bit (sym (any_by-find (bears engine k) excel) ∙ on_excel) in
          let standard_count =
            read_standard_in_memory-IsDict engine laws region.parsing region.keys entries reported k
            ∙ ap bit (sym (any_by-find (bears engine k) standard) ∙ on_standard) in
          let matching =
            occurs-sorted_keys (λ j. has_key engine j standard)
              (λ a b h. has_key-same a b standard h) k excel in
          let extra =
            occurs-sorted_keys (λ j. not (has_key engine j standard))
              (λ a b h. ap not (has_key-same a b standard h)) k excel in
          let missing =
            occurs-sorted_keys (λ j. not (has_key engine j excel))
              (λ a b h. ap not (has_key-same a b excel h)) k standard in
          (
            matching ∙ gated _ _ _ excel_count on_standard,
            extra ∙ gated _ _ _ excel_count (ap not on_standard),
            missing ∙ gated _ _ _ standard_count (ap not on_excel),
          )
