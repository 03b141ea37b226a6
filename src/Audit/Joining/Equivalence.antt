-- ===== src/Audit/Joining/Equivalence.antt =====
-- src/excel_auditor/engine.py and partitioned_join.py: the partitioned connector and the sets in memory
-- divide the keys alike, where the texts of the keys tell them apart as `==` does.
use excelflow.Prelude.{
  ◌∙◌, ◌≡◌, ◌≤◌, refl, sym, ap, ℕ, zero, suc, ◌+◌, Bool, false, not, List, [], ◌∷◌, map, some,
  String, length, ltb, str_eq, holds, count_by, filter_by, arith,
}
use mathlib.Core.List.{Memᴰ}
use mathlib.Core.List.Memᴰ.{head, tail}
use excelflow.Spill.{get_elem?}
use excelflow.Sorting.{text_leb, count_by-sorted}
use excelflow.Audit.{Engine}
use excelflow.Audit.Keys.{Key, same_key}
use excelflow.Audit.Keys.Collecting.{bears, bit, IsDict}
use excelflow.Audit.Rows.{Kept}
use excelflow.Audit.Standards.{Entry}
use excelflow.Audit.Partitions.{Frames, classify, at_indexes}
use excelflow.Audit.Partitions.Guarantees.{numbered, write_partitions_lem}
use excelflow.Audit.Partitions.Indexes.{
  IsJoining, at_indexes_lem, bearing, count_by-alone, count_by-pairs,
}
use excelflow.Audit.Joining.{Join, has_key, keys_of, join_in_memory, join_partitioned}
use excelflow.Audit.Joining.Guarantees.{occurs, occurs-keys_of, any_by-find}

module _ (engine : Engine) (frames : Frames (Key engine)) (batch_size : ℕ) where
  -- the text of a key of one list tells it apart from those of another
  abbrev pub IsTold : List (Key engine) → List (Key engine) → Type 0
  IsTold left right =
      (a b : Key engine)
      → Memᴰ a left
      → Memᴰ b right
      → str_eq (frames.stable_key b) (frames.stable_key a) ≡ same_key engine b a

  bearing-numbered :
      (n : ℕ) (a : Key engine) (right : List (Key engine))
      → ((b : Key engine)
          → Memᴰ b right
          → str_eq (frames.stable_key b) (frames.stable_key a) ≡ same_key engine b a)
      → count_by
          (λ (f : String × ℕ). str_eq f.0 (frames.stable_key a))
          (numbered frames batch_size n right)
        ≡ occurs engine a right
  unfolding numbered
  bearing-numbered n a [] told = refl
  bearing-numbered n a (b ∷ right) told =
      ground (arith, told b (head refl), bearing-numbered (n + 1) a right (λ c m. told c (tail m)))

  abbrev rows : List (Key engine) → List (String × ℕ)
  rows keys = numbered frames batch_size 0 keys

  in_range :
      {A : Type 0} (xs : List A) (i : ℕ) (x : A)
      → get_elem? xs i ≡ some x
      → not (ltb i (length xs)) ≡ false
  unfolding get_elem?
  in_range [] i x h = cc
  in_range (y ∷ xs) zero x h = ground arith
  in_range (y ∷ xs) (suc i) x h = ground (arith, in_range xs i x h)

  none_left : {A : Type 0} (xs : List A) → count_by (λ x. false) xs ≡ 0
  none_left [] = refl
  none_left (x ∷ xs) = none_left xs

  module _ (joining : IsJoining frames) where
    module _ (left right : List (Key engine)) (has : Key engine → Bool)
        (once : (k : Key engine) → Memᴰ k left → occurs engine k right ≡ bit (has k))
        (told : IsTold left right) where
      borne : (k : Key engine) → Memᴰ k left → bearing frames (rows right) k ≡ bit (has k)
      borne k m = bearing-numbered 0 k right (λ b n. told k b m n) ∙ once k m

      in_list :
          (i : ℕ) (k : Key engine)
          → get_elem? left i ≡ some k
          → not (ltb (0 + i) (length left)) ≡ false
      in_list i k found =
          ap (λ j. not (ltb j (length left))) (omega arith) ∙ in_range left i k found

      tested :
          (q : Key engine → Bool) (i : ℕ) (k : Key engine)
          → get_elem? left i ≡ some k
          → holds q (get_elem? left (0 + i)) ≡ q k
      tested q i k found = ap (λ j. holds q (get_elem? left j)) (omega arith) ∙ ap (holds q) found

      -- the keys at the positions of the anti-join
      alone_keys :
          (ks : List (Key engine)) × (at_indexes left (frames.anti_join (rows left) (rows right))
            ≡ some ks)
          × ((q : Key engine → Bool)
              → count_by q ks ≡ count_by q (filter_by (λ k. not (has k)) left))
      alone_keys =
          let counted =
            count_by-alone frames batch_size (rows right) has (λ i. not (ltb i (length left)))
              (λ k. false) 0 left borne in_list in
          let (ks, given, counts) =
            at_indexes_lem left (frames.anti_join (rows left) (rows right)) (
              joining.anti-alone (λ i. not (ltb i (length left))) (rows left) (rows right)
              ∙ counted
              ∙ none_left (filter_by (λ k. not (has k)) left)) in
          (
            ks,
            given,
            λ q.
                counts q
                ∙ joining.anti-alone (λ i. holds q (get_elem? left i)) (rows left) (rows right)
                ∙ count_by-alone frames batch_size (rows right) has
                    (λ i. holds q (get_elem? left i)) q 0 left borne (tested q),
          )

      count_by-firsts :
          (p : ℕ → Bool) (ps : List (ℕ × ℕ))
          → count_by p (map (λ (pair : ℕ × ℕ). pair.0) ps)
            ≡ count_by (λ (pair : ℕ × ℕ). p pair.0) ps
      count_by-firsts p [] = refl
      count_by-firsts p (x ∷ ps) = ground (arith, count_by-firsts p ps)

      -- the keys at the positions of the inner join
      matched_keys :
          (ks : List (Key engine)) × (at_indexes left
              (map (λ (pair : ℕ × ℕ). pair.0) (frames.inner_join (rows left) (rows right)))
            ≡ some ks)
          × ((q : Key engine → Bool) → count_by q ks ≡ count_by q (filter_by has left))
      matched_keys =
          let joined = frames.inner_join (rows left) (rows right) in
          let (ks, given, counts) = at_indexes_lem left (map (λ (pair : ℕ × ℕ). pair.0) joined) (
            count_by-firsts (λ i. not (ltb i (length left))) joined
            ∙ joining.inner-pairs (λ (pair : ℕ × ℕ). not (ltb pair.0 (length left))) (rows left)
                (rows right)
            ∙ count_by-pairs frames batch_size (rows right) has (λ i. not (ltb i (length left)))
                (λ k. false) 0 left borne in_list
            ∙ none_left (filter_by has left)) in
          (
            ks,
            given,
            λ q.
                counts q
                ∙ count_by-firsts (λ i. holds q (get_elem? left i)) joined
                ∙ joining.inner-pairs (λ (pair : ℕ × ℕ). holds q (get_elem? left pair.0))
                    (rows left) (rows right)
                ∙ count_by-pairs frames batch_size (rows right) has
                    (λ i. holds q (get_elem? left i)) q 0 left borne (tested q),
          )

    classified :
        (left right : List (Key engine))
        → 1 ≤ batch_size
        → classify frames batch_size left right ≡ record {
          excel_only = frames.anti_join (rows left) (rows right);
          standard_only = frames.anti_join (rows right) (rows left);
          matched = frames.inner_join (rows left) (rows right);
        }
    unfolding classify
    classified left right positive =
        rw
          (
            (write_partitions_lem frames batch_size left positive).0,
            (write_partitions_lem frames batch_size right positive).0,
          )
          refl

    module _ (excel : List (Key engine × Kept engine))
        (standard : List (Key engine × Entry engine)) where
      partitioned :
          (xs ys ms : List (Key engine))
          → at_indexes
              (keys_of engine excel)
              (classify frames batch_size
                (keys_of engine excel)
                (keys_of engine standard)).excel_only
            ≡ some xs
          → at_indexes
              (keys_of engine standard)
              (classify frames batch_size
                (keys_of engine excel)
                (keys_of engine standard)).standard_only
            ≡ some ys
          → at_indexes (keys_of engine excel) (
              map
                (λ (pair : ℕ × ℕ). pair.0)
                (classify frames batch_size
                  (keys_of engine excel)
                  (keys_of engine standard)).matched)
            ≡ some ms
          → join_partitioned engine frames batch_size excel standard
            ≡ some (record { excel_only = xs; standard_only = ys; matched = ms })
      unfolding join_partitioned
      partitioned xs ys ms f g h = ground arith

      occurs-dict :
          {X : Type 0} (records : List (Key engine × X)) (k : Key engine)
          → IsDict engine records
          → occurs engine k (keys_of engine records) ≡ bit (has_key engine k records)
      occurs-dict records k dict =
          occurs-keys_of engine k records
          ∙ dict k
          ∙ ap bit (sym (any_by-find engine (bears engine k) records))

      -- With a batch of one or more, two dictionaries whose keys are told apart by their texts as by `==`,
      -- and joins that list the rows which polars documents, the partitioned connector gives positions in
      -- range, and with them the same keys as the sets in memory, each as often.
      pub join_partitioned-equivalent :
          1 ≤ batch_size
          → IsDict engine excel
          → IsDict engine standard
          → IsTold (keys_of engine excel) (keys_of engine standard)
          → IsTold (keys_of engine standard) (keys_of engine excel)
          → (j : Join engine) × (join_partitioned engine frames batch_size excel standard ≡ some j)
            × ((k : Key engine)
                → (occurs engine k j.excel_only
                    ≡ occurs engine k (join_in_memory engine excel standard).excel_only)
                  × (occurs engine k j.standard_only
                      ≡ occurs engine k (join_in_memory engine excel standard).standard_only)
                  × (occurs engine k j.matched
                      ≡ occurs engine k (join_in_memory engine excel standard).matched))
      unfolding join_in_memory
      join_partitioned-equivalent positive unique_rows unique_entries told told_back =
          let on_left = λ (k : Key engine) (m : Memᴰ k (keys_of engine excel)).
            occurs-dict standard k unique_entries in
          let on_right = λ (k : Key engine) (m : Memᴰ k (keys_of engine standard)).
            occurs-dict excel k unique_rows in
          let reading = classified (keys_of engine excel) (keys_of engine standard) positive in
          let (xs, extra, extra_counts) =
            alone_keys (keys_of engine excel) (keys_of engine standard)
              (λ k. has_key engine k standard) on_left told in
          let (ys, missing, missing_counts) =
            alone_keys (keys_of engine standard) (keys_of engine excel)
              (λ k. has_key engine k excel) on_right told_back in
          let (ms, matching, matching_counts) =
            matched_keys (keys_of engine excel) (keys_of engine standard)
              (λ k. has_key engine k standard) on_left told in
          let sorting = λ (q : Key engine → Bool) (keys : List (Key engine)). sym (
            count_by-sorted (λ a b. text_leb (engine.text_of_key a) (engine.text_of_key b)) q
              keys) in
          (
            record { excel_only = xs; standard_only = ys; matched = ms },
            partitioned xs ys ms
                (ap (λ j. at_indexes (keys_of engine excel) j.excel_only) reading ∙ extra)
                (ap (λ j. at_indexes (keys_of engine standard) j.standard_only) reading ∙ missing)
                (ap
                    (λ j.
                      at_indexes (keys_of engine excel) (map (λ (pair : ℕ × ℕ). pair.0) j.matched))
                    reading
                  ∙ matching),
            λ k. (
              extra_counts (λ j. same_key engine j k) ∙ sorting _ _,
              missing_counts (λ j. same_key engine j k) ∙ sorting _ _,
              matching_counts (λ j. same_key engine j k) ∙ sorting _ _,
            ),
          )
