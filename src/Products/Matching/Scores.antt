-- ===== src/Products/Matching/Scores.antt =====
-- Every match comes from a pair of records, with the score that the pair has.
use excelflow.Prelude.{
  ℕ, ◌≡◌, refl, inl, inr, Bool-cases, Bool, true, ◌&&◌, List, [], ◌∷◌, ◌++◌, String, arith, leb,
  str_eq, eq_iff, eq_refl, any_by, all_by, All, ◌==◌, all_by-append, all_by_imp,
}
use excelflow.Products.{Cells, get, MerchantRecord, PlatformRecord, ProductMatch}
use excelflow.Sorting.{sorted, all_by-sorted}
use excelflow.Products.Matching.{
  Candidate, Candidates, candidate_leb, entry, name_score, tie_break_score, scored, find_candidates,
}

module _ (cells : Cells) (threshold : ℕ) where
  -- the candidate's score reaches the threshold and is that of the merchant record and a platform
  -- record of its id
  abbrev pub origin : List (PlatformRecord cells) → MerchantRecord cells → Candidate → Bool
  origin ps m c =
      leb threshold c.score
      && any_by
          (λ p.
            str_eq p.record_id c.platform_id
            && (c.score == name_score cells m p && c.tie == tie_break_score cells m p))
          ps

  abbrev pub justified :
      List (MerchantRecord cells) → List (PlatformRecord cells) → String → Candidate → Bool
  justified ms ps id c = any_by (λ m. str_eq m.record_id id && origin ps m c) ms

  scored-origin :
      (m : MerchantRecord cells) (ps : List (PlatformRecord cells))
      → all_by (origin ps m) (scored cells threshold m ps) ≡ true
  unfolding scored
  scored-origin m [] = refl
  scored-origin m (p ∷ ps) = ground (
    arith,
    eq_refl p.record_id,
    all_by_imp (origin ps m) (origin (p ∷ ps) m) (λ c h. ground arith) (scored cells threshold m ps)
        (scored-origin m ps),
  )

  module _ (all : List (MerchantRecord cells)) (ps : List (PlatformRecord cells)) where
    abbrev pub IsCovered : Candidates → Type 0
    IsCovered candidates = (id : String) → all_by (justified all ps id) (entry candidates id) ≡ true

    -- the record is one of the merchants
    abbrev pub IsKnown : MerchantRecord cells → Type 0
    IsKnown m = (c : Candidate) → origin ps m c ≡ true → justified all ps m.record_id c ≡ true

    entry-IsCovered :
        (m : MerchantRecord cells) (candidates : Candidates)
        → IsKnown m
        → IsCovered candidates
        → all_by
            (justified all ps m.record_id)
            (sorted candidate_leb (entry candidates m.record_id ++ scored cells threshold m ps))
          ≡ true
    entry-IsCovered m candidates known covered = ground (
      arith,
      all_by-sorted candidate_leb (justified all ps m.record_id)
          (entry candidates m.record_id ++ scored cells threshold m ps),
      all_by-append (justified all ps m.record_id) (entry candidates m.record_id)
          (scored cells threshold m ps),
      covered m.record_id,
      all_by_imp (origin ps m) (justified all ps m.record_id) known (scored cells threshold m ps)
          (scored-origin m ps),
    )

    put_covered :
        (m : MerchantRecord cells) (candidates : Candidates) (items : List Candidate) (id : String)
        → all_by (justified all ps id) (entry candidates id) ≡ true
        → all_by (justified all ps m.record_id) items ≡ true
        → all_by (justified all ps id) (entry ((m.record_id, items) ∷ candidates) id) ≡ true
    unfolding get
    put_covered m candidates items id old new = elim (Bool-cases (str_eq m.record_id id)) [
      | inl e ↦ ground (arith, eq_iff m.record_id id)
      | inr e ↦ ground arith
    ]

    pub find_candidates-IsCovered :
        (ms : List (MerchantRecord cells)) (candidates : Candidates)
        → All IsKnown ms
        → IsCovered candidates
        → IsCovered (find_candidates cells threshold ms ps candidates)
    unfolding find_candidates
    find_candidates-IsCovered [] candidates known covered = covered
    find_candidates-IsCovered (m ∷ ms) candidates known covered =
        find_candidates-IsCovered ms _ known.1 (λ id.
          put_covered m candidates _ id (covered id) (entry-IsCovered m candidates known.0 covered))

    known_cons :
        (m n : MerchantRecord cells) (c : Candidate) (rest : List (MerchantRecord cells))
        → justified rest ps n.record_id c ≡ true
        → justified (m ∷ rest) ps n.record_id c ≡ true
    known_cons m n c rest h = ground arith

  module _ (ps : List (PlatformRecord cells)) where
    All-weaken :
        (m : MerchantRecord cells) (all ms : List (MerchantRecord cells))
        → All (IsKnown all ps) ms
        → All (IsKnown (m ∷ all) ps) ms
    All-weaken m all [] h = tt
    All-weaken m all (n ∷ ms) h =
        ((λ c o. known_cons all ps m n c all (h.0 c o)), All-weaken m all ms h.1)

    pub All-IsKnown : (ms : List (MerchantRecord cells)) → All (IsKnown ms ps) ms
    All-IsKnown [] = tt
    All-IsKnown (m ∷ ms) =
        ((λ c o. ground (arith, eq_refl m.record_id)), All-weaken m ms ms (All-IsKnown ms))

    abbrev pub cand_of : ProductMatch cells → Candidate
    cand_of x = record {
      score = x.score;
      tie = x.tie_break_score;
      platform_id = x.platform_record_id;
    }

    abbrev pub is_justified : List (MerchantRecord cells) → ProductMatch cells → Bool
    is_justified all x = justified all ps x.merchant_record_id (cand_of x)
