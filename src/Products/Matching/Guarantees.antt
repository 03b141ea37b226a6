-- ===== src/Products/Matching/Guarantees.antt =====
-- What `match_products` promises of its result.
use excelflow.Prelude.{
  ℕ, ◌≤◌, ◌≡◌, refl, sym, ◌∙◌, Bool, true, ◌||◌, List, [], ◌∷◌, ◌++◌, some, String, arith, ltb,
  str_eq, eq_iff, eq_refl, any_by, all_by, count_by, All, all_by-append, all_by-filter_by,
  all_by_imp,
}
use excelflow.Products.{Cells, get, member, MerchantRecord, PlatformRecord}
use excelflow.Sorting.{sorted, all_by-sorted, count_by-sorted}
use excelflow.Products.Matching.{
  Candidate, Candidates, candidate_leb, merchant_leb, entry, level, Matching, no_matches,
  name_score, scored, find_candidates, choose, match_loop, match_products,
}
use excelflow.Products.Matching.Choice.{
  is_matched, taken-match_loop, matches_platform, match_loop-IsOnce, decisions,
  decisions-match_loop, exhausted, match_loop_exhausts,
}
use excelflow.Products.Matching.Scores.{
  justified, is_justified, find_candidates-IsCovered, All-IsKnown,
}

module _ (cells : Cells) (threshold : ℕ) (ps : List (PlatformRecord cells)) where
  -- the loop keeps its matches justified
  choose-is_justified :
      (all : List (MerchantRecord cells)) (candidates : Candidates) (m : MerchantRecord cells)
      (r : Matching cells) (cs : List Candidate)
      → all_by (justified cells threshold all ps m.record_id) cs ≡ true
      → all_by (is_justified cells threshold ps all) r.matches ≡ true
      → all_by (is_justified cells threshold ps all) (choose cells cs m r).matches ≡ true
  unfolding choose
  choose-is_justified all candidates m r [] e h = h
  choose-is_justified all candidates m r (c ∷ cs) e h = ground (
    arith,
    all_by-append (is_justified cells threshold ps all) r.matches (
        record {
          merchant_record_id = m.record_id;
          platform_record_id = c.platform_id;
          score = c.score;
          tie_break_score = c.tie;
        }
        ∷ []),
  )

  match_loop-is_justified :
      (all : List (MerchantRecord cells)) (candidates : Candidates)
      (ms : List (MerchantRecord cells)) (r : Matching cells)
      → ((id : String) → all_by (justified cells threshold all ps id) (entry candidates id) ≡ true)
      → all_by (is_justified cells threshold ps all) r.matches ≡ true
      → all_by (is_justified cells threshold ps all) (match_loop cells candidates ms r).matches
        ≡ true
  unfolding match_loop
  match_loop-is_justified all candidates [] r covered h = h
  match_loop-is_justified all candidates (m ∷ ms) r covered h =
      match_loop-is_justified all candidates ms _ covered (
        choose-is_justified all candidates m r _
          (all_by-filter_by (justified cells threshold all ps m.record_id) _
            (entry candidates m.record_id) (covered m.record_id))
          h)

  -- A later merchant only adds to the candidates of an id.
  find_candidates_grows :
      (q : Candidate → Bool) (id : String) (ms : List (MerchantRecord cells))
      (candidates : Candidates)
      → all_by q (entry (find_candidates cells threshold ms ps candidates) id) ≡ true
      → all_by q (entry candidates id) ≡ true
  unfolding find_candidates get
  find_candidates_grows q id [] candidates h = h
  find_candidates_grows q id (m ∷ ms) candidates h = ground (
    arith,
    eq_iff m.record_id id,
    find_candidates_grows q id ms
        ((
          m.record_id,
          sorted candidate_leb (entry candidates m.record_id ++ scored cells threshold m ps),
        )
          ∷ candidates)
        h,
    all_by-sorted candidate_leb q (entry candidates m.record_id ++ scored cells threshold m ps),
    all_by-append q (entry candidates m.record_id) (scored cells threshold m ps),
  )

  -- a test of every platform record that reaches the threshold
  abbrev reaching : (String → Bool) → MerchantRecord cells → Bool
  reaching q m = all_by (λ p. ltb (name_score cells m p) threshold || q p.record_id) ps

  scored-reaching :
      (q : String → Bool) (m : MerchantRecord cells) (xs : List (PlatformRecord cells))
      → all_by (λ c. q c.platform_id) (scored cells threshold m xs) ≡ true
      → all_by (λ p. ltb (name_score cells m p) threshold || q p.record_id) xs ≡ true
  unfolding scored
  scored-reaching q m [] h = refl
  scored-reaching q m (p ∷ xs) h = ground (arith, scored-reaching q m xs)

  entries_reach :
      (q : String → Bool) (ms : List (MerchantRecord cells)) (candidates : Candidates)
      → All
          (λ m.
            all_by
                (λ c. q c.platform_id)
                (entry (find_candidates cells threshold ms ps candidates) m.record_id)
              ≡ true
            → reaching q m ≡ true)
          ms
  unfolding find_candidates get
  entries_reach q [] candidates = tt
  entries_reach q (m ∷ ms) candidates =
      let grown =
        (
          m.record_id,
          sorted candidate_leb (entry candidates m.record_id ++ scored cells threshold m ps),
        )
        ∷ candidates in
      (
        (λ h. ground (
          arith,
          eq_refl m.record_id,
          find_candidates_grows (λ c. q c.platform_id) m.record_id ms grown h,
          all_by-sorted candidate_leb (λ c. q c.platform_id)
              (entry candidates m.record_id ++ scored cells threshold m ps),
          all_by-append (λ c. q c.platform_id) (entry candidates m.record_id)
              (scored cells threshold m ps),
          scored-reaching q m ps,
        )),
        entries_reach q ms grown,
      )

module _ (cells : Cells) (threshold : ℕ) (ms : List (MerchantRecord cells))
    (ps : List (PlatformRecord cells)) {r : Matching cells}
    (matched : match_products cells ms ps (level threshold) ≡ some r) where
  abbrev candidates : Candidates
  candidates = find_candidates cells threshold ms ps []

  abbrev order : List (MerchantRecord cells)
  order = sorted (merchant_leb cells candidates) ms

  result-match_loop : r ≡ match_loop cells candidates order (no_matches cells)
  unfolding match_products
  result-match_loop = ground arith

  -- Where `match_products` returns a result: a platform product is matched to at most one merchant
  -- product.
  pub match_products_once :
      (platform_id : String) → matches_platform cells platform_id r.matches ≤ 1
  match_products_once platform_id =
      rw result-match_loop (
        ground
          (arith, match_loop-IsOnce cells platform_id candidates order (no_matches cells) refl))

  -- Where `match_products` returns a result: of the merchant records with an id, each is decided at
  -- most once: the matches and the ambiguities of an id together are no more than its records.
  pub decisions-le : (id : String) → decisions cells id r ≤ count_by (λ m. str_eq m.record_id id) ms
  decisions-le id = rw result-match_loop (
      omega (
        arith,
        decisions-match_loop cells id candidates order (no_matches cells),
        count_by-sorted (merchant_leb cells candidates) (λ m. str_eq m.record_id id) ms,
      ))

  -- Where `match_products` returns a result: every match comes from a merchant and a platform
  -- record of its ids, has their scores, and reaches the threshold.
  pub matches-is_justified : all_by (is_justified cells threshold ps ms) r.matches ≡ true
  matches-is_justified = rw result-match_loop (
      match_loop-is_justified cells threshold ps ms candidates order (no_matches cells)
        (find_candidates-IsCovered cells threshold ms ps ms [] (All-IsKnown cells threshold ps ms)
          (λ id. unfold get in refl))
        refl)

  -- why a merchant record is not merged with any platform record
  abbrev pub has_reason : Matching cells → MerchantRecord cells → Bool
  has_reason result m =
      any_by (λ x. str_eq x.merchant_record_id m.record_id) result.matches
      || (member m.record_id result.ambiguous
          || all_by
              (λ p. ltb (name_score cells m p) threshold || is_matched cells p.record_id result) ps)

  has_reason_of_exhausted :
      (result : Matching cells) (xs : List (MerchantRecord cells))
      → ((p : String) → member p result.used ≡ is_matched cells p result)
      → All
          (λ m.
            all_by (λ c. is_matched cells c.platform_id result) (entry candidates m.record_id)
              ≡ true
            → all_by
                (λ p. ltb (name_score cells m p) threshold || is_matched cells p.record_id result)
                ps
              ≡ true)
          xs
      → all_by (exhausted cells candidates result) xs ≡ true
      → all_by (has_reason result) xs ≡ true
  has_reason_of_exhausted result [] taken h e = refl
  has_reason_of_exhausted result (m ∷ xs) taken h e = ground (
    arith,
    h.0,
    has_reason_of_exhausted result xs taken h.1,
    all_by_imp (λ (c : Candidate). member c.platform_id result.used)
        (λ c. is_matched cells c.platform_id result) (λ c used. sym (taken c.platform_id) ∙ used)
        (entry candidates m.record_id),
  )

  -- Where `match_products` returns a result: no match is missed: a merchant record that is neither
  -- matched nor ambiguous has, for every platform record whose score reaches the threshold, a match
  -- of that record in the result.
  pub match_products_complete : all_by (has_reason r) ms ≡ true
  match_products_complete =
      has_reason_of_exhausted r ms
        (λ p.
          rw result-match_loop (taken-match_loop cells p candidates order (no_matches cells) refl))
        (entries_reach cells threshold ps (λ id. is_matched cells id r) ms [])
        (rw result-match_loop (
          sym (
            all_by-sorted (merchant_leb cells candidates)
              (exhausted cells candidates (match_loop cells candidates order (no_matches cells)))
              ms)
          ∙ match_loop_exhausts cells candidates order (no_matches cells)))
