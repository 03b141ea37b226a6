-- ===== src/Audit/Partitions/Guarantees.antt =====
-- src/excel_auditor/partitioned_join.py: the parts hold every key once and in order, whatever their size.
use excelflow.Prelude.{
  ◌∙◌, ◌≡◌, ◌≤◌, ◌<◌, refl, sym, ap, ℕ, ◌+◌, Bool, true, List, [], ◌∷◌, ◌++◌, String, length, leb,
  Bool-cases, all_by, all_by-append, length-append, inl, inr, arith,
}
use mathlib.Core.List.{append_assoc, append-nil}
use excelflow.Audit.Partitions.{Frames, Part, flush, last_part, write_rows, write_partitions, scan}

module _ {K : Type 0} (frames : Frames K) (batch_size : ℕ) where
  -- each key with its position, from `n` on
  unfoldable pub numbered : ℕ → List K → List (String × ℕ)
  numbered n [] = []
  numbered n (key ∷ keys) = (frames.stable_key key, n) ∷ numbered (n + 1) keys

  scan-append :
      (ps qs : List (Part frames batch_size))
      → scan frames batch_size (ps ++ qs) ≡ scan frames batch_size ps ++ scan frames batch_size qs
  unfolding scan
  scan-append [] qs = refl
  scan-append (p ∷ ps) qs =
      ap (λ rest. p ++ rest) (scan-append ps qs)
      ∙ sym (append_assoc p (scan frames batch_size ps) (scan frames batch_size qs))

  scan-last_part :
      (batch : Part frames batch_size) (parts : List (Part frames batch_size))
      → scan frames batch_size (last_part frames batch_size batch parts)
        ≡ scan frames batch_size parts ++ batch
  unfolding scan
  scan-last_part [] [] = refl
  scan-last_part [] (p ∷ parts) = sym (append-nil (p ++ scan frames batch_size parts))
  scan-last_part (row ∷ batch) parts =
      scan-append parts ((row ∷ batch) ∷ [])
      ∙ ap (λ rest. scan frames batch_size parts ++ rest) (append-nil (row ∷ batch))

  scan-flush :
      (batch : Part frames batch_size) (parts : List (Part frames batch_size))
      → scan frames batch_size (flush frames batch_size batch parts).1
          ++ (flush frames batch_size batch parts).0
        ≡ scan frames batch_size parts ++ batch
  unfolding scan
  scan-flush batch parts = elim (Bool-cases (leb batch_size (length batch))) [
    | inl full ↦ rw full (
        append-nil (scan frames batch_size (parts ++ batch ∷ []))
        ∙ scan-append parts (batch ∷ [])
        ∙ ap (λ rest. scan frames batch_size parts ++ rest) (append-nil batch))
    | inr room ↦ rw room refl
  ]

  scan-write_rows :
      (n : ℕ) (keys : List K) (batch : Part frames batch_size)
      (parts : List (Part frames batch_size))
      → scan frames batch_size (write_rows frames batch_size n keys batch parts)
        ≡ scan frames batch_size parts ++ (batch ++ numbered n keys)
  unfolding write_rows numbered
  scan-write_rows n [] batch parts =
      scan-last_part batch parts
      ∙ ap (λ rest. scan frames batch_size parts ++ rest) (sym (append-nil batch))
  scan-write_rows n (key ∷ keys) batch parts =
      let row : String × ℕ = (frames.stable_key key, n) in
      let flushed = flush frames batch_size (batch ++ row ∷ []) parts in
      scan-write_rows (n + 1) keys flushed.0 flushed.1
      ∙ sym (append_assoc (scan frames batch_size flushed.1) flushed.0 (numbered (n + 1) keys))
      ∙ ap (λ rest. rest ++ numbered (n + 1) keys) (scan-flush (batch ++ row ∷ []) parts)
      ∙ append_assoc (scan frames batch_size parts) (batch ++ row ∷ []) (numbered (n + 1) keys)
      ∙ ap (λ rest. scan frames batch_size parts ++ rest)
          (append_assoc batch (row ∷ []) (numbered (n + 1) keys))

  -- no part exceeds the size
  abbrev is_bounded : Part frames batch_size → Bool
  is_bounded part = leb (length part) batch_size

  bounded-write_rows :
      (n : ℕ) (keys : List K) (batch : Part frames batch_size)
      (parts : List (Part frames batch_size))
      → length batch < batch_size
      → all_by is_bounded parts ≡ true
      → all_by is_bounded (write_rows frames batch_size n keys batch parts) ≡ true
  unfolding write_rows
  bounded-write_rows n [] [] [] short bounded = ground arith
  bounded-write_rows n [] [] (p ∷ parts) short bounded = bounded
  bounded-write_rows n [] (row ∷ batch) parts short bounded =
      ground (arith, all_by-append is_bounded parts ((row ∷ batch) ∷ []))
  bounded-write_rows n (key ∷ keys) batch parts short bounded =
      let row : String × ℕ = (frames.stable_key key, n) in
      let grown : List (String × ℕ) = batch ++ row ∷ [] in
      elim (Bool-cases (leb batch_size (length grown))) [
        | inl full ↦ rw full (
            bounded-write_rows (n + 1) keys [] (parts ++ grown ∷ []) (omega arith) (
              ground (
                arith,
                all_by-append is_bounded parts (grown ∷ []),
                length-append batch (row ∷ []),
              )))
        | inr room ↦ rw room (bounded-write_rows (n + 1) keys grown parts (ground arith) bounded)
      ]

  -- With a batch of one or more, the parts hold each key with its position, in order, and none of them
  -- has more rows than a batch.
  pub write_partitions_lem :
      (keys : List K)
      → 1 ≤ batch_size
      → (scan frames batch_size (write_partitions frames batch_size keys) ≡ numbered 0 keys)
        × (all_by is_bounded (write_partitions frames batch_size keys) ≡ true)
  unfolding write_partitions scan
  write_partitions_lem keys positive =
      (scan-write_rows 0 keys [] [], bounded-write_rows 0 keys [] [] (omega arith) refl)
