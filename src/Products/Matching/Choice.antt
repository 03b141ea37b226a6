-- ===== src/Products/Matching/Choice.antt =====
-- The greedy loop: who is matched, how often, and why a merchant stays alone.
use excelflow.Prelude.{
  ℕ, ◌+◌, ◌≤◌, ◌≡◌, refl, Bool, true, ◌||◌, not, List, [], ◌∷◌, String, arith, str_eq, eq_iff,
  eq_refl, filter_by, any_by, all_by, count_by, count_by-append, any_by-append, all_by_imp,
  filter_by_head, filter_by-nil, if◌then◌else◌,
}
use excelflow.Products.{Cells, member, MerchantRecord, ProductMatch}
use excelflow.Products.Matching.{Candidate, Candidates, entry, Matching, choose, match_loop}

module _ (cells : Cells) where
  -- the matches of a platform product, and those of a merchant's
  abbrev pub matches_platform : String → List (ProductMatch cells) → ℕ
  matches_platform p ms = count_by (λ x. str_eq x.platform_record_id p) ms

  abbrev pub matches_merchant : String → List (ProductMatch cells) → ℕ
  matches_merchant id ms = count_by (λ x. str_eq x.merchant_record_id id) ms

  -- the candidates of a merchant that are not taken
  abbrev available : Candidates → MerchantRecord cells → Matching cells → List Candidate
  available candidates m r =
      filter_by (λ c. not (member c.platform_id r.used)) (entry candidates m.record_id)

  -- A platform product is used exactly by the one match that took it.
  abbrev pub IsOnce : String → Matching cells → Type 0
  IsOnce p r = matches_platform p r.matches ≡ (if member p r.used then 1 else 0)

  choose-IsOnce :
      (p : String) (candidates : Candidates) (m : MerchantRecord cells) (r : Matching cells)
      (cs : List Candidate)
      → available candidates m r ≡ cs
      → IsOnce p r
      → IsOnce p (choose cells cs m r)
  unfolding choose
  choose-IsOnce p candidates m r [] e h = h
  choose-IsOnce p candidates m r (c ∷ cs) e h = ground (
    arith,
    eq_iff c.platform_id p,
    filter_by_head (λ x. not (member x.platform_id r.used)) (entry candidates m.record_id) e,
    count_by-append (λ x. str_eq x.platform_record_id p) r.matches
        (record {
          merchant_record_id = m.record_id;
          platform_record_id = c.platform_id;
          score = c.score;
          tie_break_score = c.tie;
        }
          ∷ []),
  )

  pub match_loop-IsOnce :
      (p : String) (candidates : Candidates) (ms : List (MerchantRecord cells)) (r : Matching cells)
      → IsOnce p r
      → IsOnce p (match_loop cells candidates ms r)
  unfolding match_loop
  match_loop-IsOnce p candidates [] r h = h
  match_loop-IsOnce p candidates (m ∷ ms) r h =
      match_loop-IsOnce p candidates ms _ (choose-IsOnce p candidates m r _ refl h)

  -- a platform product is taken exactly if a merchant is matched to it
  abbrev pub is_matched : String → Matching cells → Bool
  is_matched p r = any_by (λ x. str_eq x.platform_record_id p) r.matches

  taken-choose :
      (p : String) (m : MerchantRecord cells) (r : Matching cells) (cs : List Candidate)
      → member p r.used ≡ is_matched p r
      → member p (choose cells cs m r).used ≡ is_matched p (choose cells cs m r)
  unfolding choose
  taken-choose p m r [] h = h
  taken-choose p m r (c ∷ cs) h = ground (
    arith,
    any_by-append (λ x. str_eq x.platform_record_id p) r.matches
        (record {
          merchant_record_id = m.record_id;
          platform_record_id = c.platform_id;
          score = c.score;
          tie_break_score = c.tie;
        }
          ∷ []),
  )

  pub taken-match_loop :
      (p : String) (candidates : Candidates) (ms : List (MerchantRecord cells)) (r : Matching cells)
      → member p r.used ≡ is_matched p r
      → member p (match_loop cells candidates ms r).used
        ≡ is_matched p (match_loop cells candidates ms r)
  unfolding match_loop
  taken-match_loop p candidates [] r h = h
  taken-match_loop p candidates (m ∷ ms) r h =
      taken-match_loop p candidates ms _ (taken-choose p m r (available candidates m r) h)

  -- what the loop has decided of a merchant
  abbrev pub decisions : String → Matching cells → ℕ
  decisions id r = matches_merchant id r.matches + count_by (λ x. str_eq x id) r.ambiguous

  choose-decisions :
      (id : String) (m : MerchantRecord cells) (r : Matching cells) (cs : List Candidate)
      → decisions id (choose cells cs m r)
        ≤ decisions id r + (if str_eq m.record_id id then 1 else 0)
  unfolding choose
  choose-decisions id m r [] = ground arith
  choose-decisions id m r (c ∷ cs) = ground (
    arith,
    count_by-append (λ x. str_eq x.merchant_record_id id) r.matches
        (record {
          merchant_record_id = m.record_id;
          platform_record_id = c.platform_id;
          score = c.score;
          tie_break_score = c.tie;
        }
          ∷ []),
  )

  pub decisions-match_loop :
      (id : String) (candidates : Candidates) (ms : List (MerchantRecord cells))
      (r : Matching cells)
      → decisions id (match_loop cells candidates ms r)
        ≤ decisions id r + count_by (λ m. str_eq m.record_id id) ms
  unfolding match_loop
  decisions-match_loop id candidates [] r = omega arith
  decisions-match_loop id candidates (m ∷ ms) r = ground (
    arith,
    choose-decisions id m r (available candidates m r),
    decisions-match_loop id candidates ms (choose cells (available candidates m r) m r),
  )

  -- Nothing is left for the merchant: it is matched or ambiguous, or its candidates are all taken.
  abbrev pub exhausted : Candidates → Matching cells → MerchantRecord cells → Bool
  exhausted candidates r m =
      any_by (λ x. str_eq x.merchant_record_id m.record_id) r.matches
      || (member m.record_id r.ambiguous
          || all_by (λ c. member c.platform_id r.used) (entry candidates m.record_id))

  choose_exhausts :
      (candidates : Candidates) (m : MerchantRecord cells) (r : Matching cells)
      (cs : List Candidate)
      → available candidates m r ≡ cs
      → exhausted candidates (choose cells cs m r) m ≡ true
  unfolding choose
  choose_exhausts candidates m r [] e = ground (
    arith,
    filter_by-nil (λ c. not (member c.platform_id r.used)) (λ c. member c.platform_id r.used)
        (λ c h. ground arith) (entry candidates m.record_id) e,
  )
  choose_exhausts candidates m r (c ∷ cs) e = ground (
    arith,
    eq_refl m.record_id,
    any_by-append (λ x. str_eq x.merchant_record_id m.record_id) r.matches
        (record {
          merchant_record_id = m.record_id;
          platform_record_id = c.platform_id;
          score = c.score;
          tie_break_score = c.tie;
        }
          ∷ []),
  )

  used-choose :
      (m : MerchantRecord cells) (r : Matching cells) (cs : List Candidate) (p : String)
      → member p r.used ≡ true
      → member p (choose cells cs m r).used ≡ true
  unfolding choose
  used-choose m r [] p h = h
  used-choose m r (c ∷ cs) p h = ground arith

  choose_keeps :
      (candidates : Candidates) (m n : MerchantRecord cells) (r : Matching cells)
      (cs : List Candidate)
      → exhausted candidates r n ≡ true
      → exhausted candidates (choose cells cs m r) n ≡ true
  unfolding choose
  choose_keeps candidates m n r [] h = h
  choose_keeps candidates m n r (c ∷ cs) h = ground (
    arith,
    any_by-append (λ x. str_eq x.merchant_record_id n.record_id) r.matches
        (record {
          merchant_record_id = m.record_id;
          platform_record_id = c.platform_id;
          score = c.score;
          tie_break_score = c.tie;
        }
          ∷ []),
    all_by_imp (λ x. member x.platform_id r.used)
        (λ x. member x.platform_id (choose cells (c ∷ cs) m r).used)
        (λ x. used-choose m r (c ∷ cs) x.platform_id) (entry candidates n.record_id),
  )

  match_loop_keeps :
      (candidates : Candidates) (n : MerchantRecord cells) (ms : List (MerchantRecord cells))
      (r : Matching cells)
      → exhausted candidates r n ≡ true
      → exhausted candidates (match_loop cells candidates ms r) n ≡ true
  unfolding match_loop
  match_loop_keeps candidates n [] r h = h
  match_loop_keeps candidates n (m ∷ ms) r h =
      match_loop_keeps candidates n ms _ (choose_keeps candidates m n r _ h)

  pub match_loop_exhausts :
      (candidates : Candidates) (ms : List (MerchantRecord cells)) (r : Matching cells)
      → all_by (exhausted candidates (match_loop cells candidates ms r)) ms ≡ true
  unfolding match_loop
  match_loop_exhausts candidates [] r = refl
  match_loop_exhausts candidates (m ∷ ms) r =
      rw
        (match_loop_keeps candidates m ms (choose cells (available candidates m r) m r)
          (choose_exhausts candidates m r (available candidates m r) refl))
        (match_loop_exhausts candidates ms (choose cells (available candidates m r) m r))
