-- ===== src/Products/Matching.antt =====
-- src/excel_auditor/product_workflow/product_matcher.py: candidates by score, and the greedy choice
-- among them. Sets are lists that are asked for membership only.
pub mod Choice
pub mod Scores
pub mod Guarantees
use excelflow.Prelude.{
  ℕ, suc, ◌+◌, Bool, true, false, ◌&&◌, not, List, [], ◌∷◌, ◌++◌, Option, none, some, String, ltb,
  leb, str_eq, filter_by, length, ◌==◌, if◌then◌else◌,
}
use excelflow.Products.{
  Cells, Dict, get, member, Fields, field, MerchantRecord, PlatformRecord, ProductMatch,
}
use excelflow.Sorting.{sorted, text_leb}

-- (score, tie-break score, platform record)
pub record Candidate : Type 0 where
  pub score : ℕ
  pub tie : ℕ
  pub platform_id : String

-- the order by `(-item[0], -item[1], item[2])`
abbrev pub candidate_leb : Candidate → Candidate → Bool
candidate_leb a b =
    if ltb b.score a.score
    then true
    else if ltb a.score b.score
    then false
    else if ltb b.tie a.tie
    then true
    else if ltb a.tie b.tie
    then false
    else text_leb a.platform_id b.platform_id

-- `name_match_threshold`: a number below 0, or one counted in the units of the scores
pub data Threshold : Type 0 where
  negative : Threshold
  level : ℕ → Threshold

abbrev pub Candidates : Type 0
Candidates = Dict (List Candidate)

-- `candidates[id]` of a `defaultdict(list)`
abbrev pub entry : Candidates → String → List Candidate
entry candidates id = elim (get id candidates) [ none ↦ [] | some items ↦ items ]

module _ (cells : Cells) where
  open cells use {value_text, casefold, strip_name, wratio, full_score}

  -- `normalize_text`
  unfoldable pub normalize_text : Option cells.Value → String
  normalize_text none = ""
  normalize_text (some v) = value_text v

  unfoldable pub normalize_product_name : Option cells.Value → String
  normalize_product_name v = strip_name (casefold (normalize_text v))

  abbrev same_field : String → MerchantRecord cells → PlatformRecord cells → Bool
  same_field id m p =
      let a = casefold (normalize_text (field cells id m.fixed)) in
      let b = casefold (normalize_text (field cells id p.fixed)) in not (str_eq a "") && str_eq a b

  abbrev weight : Bool → ℕ → ℕ
  weight true n = n
  weight false n = 0

  -- the loop over `_TIE_BREAK_WEIGHTS`
  unfoldable pub tie_break_score : MerchantRecord cells → PlatformRecord cells → ℕ
  tie_break_score m p =
      weight (same_field "sku" m p) 8
      + weight (same_field "brand" m p) 4
      + weight (same_field "product_category" m p) 2
      + weight (same_field "sales_unit" m p) 1

  unfoldable pub name_score : MerchantRecord cells → PlatformRecord cells → ℕ
  name_score m p =
      let a = normalize_product_name (field cells "product_name" m.fixed) in
      let b = normalize_product_name (field cells "product_name" p.fixed) in
      if str_eq a b then full_score else wratio a b

  module _ (threshold : ℕ) where
    unfoldable pub scored : MerchantRecord cells → List (PlatformRecord cells) → List Candidate
    scored m [] = []
    scored m (p ∷ ps) =
        let rest = scored m ps in
        if leb threshold (name_score m p)
        then record { score = name_score m p; tie = tie_break_score m p; platform_id = p.record_id }
          ∷ rest
        else rest

    unfoldable pub find_candidates :
        List (MerchantRecord cells) → List (PlatformRecord cells) → Candidates → Candidates
    find_candidates [] ps candidates = candidates
    find_candidates (m ∷ ms) ps candidates = find_candidates ms ps (
        (m.record_id, sorted candidate_leb (entry candidates m.record_id ++ scored m ps))
        ∷ candidates)

  -- the order of merchants by their best candidate; without one the key begins with 1, behind every
  -- negated score
  abbrev pub merchant_leb : Candidates → MerchantRecord cells → MerchantRecord cells → Bool
  merchant_leb candidates a b =
      best_leb (entry candidates a.record_id) (entry candidates b.record_id)
    where
      best_leb : List Candidate → List Candidate → Bool
      best_leb [] [] = text_leb a.record_id b.record_id
      best_leb [] (y ∷ ys) = false
      best_leb (x ∷ xs) [] = true
      best_leb (x ∷ xs) (y ∷ ys) =
          candidate_leb (record x { platform_id = a.record_id })
            (record y { platform_id = b.record_id })

  -- the issue of an ambiguous merchant record
  pub record AmbiguousMatch : Type 0 where
    pub source_sheet : String
    pub source_row : ℕ
    pub merchant_value : Option cells.Value
    pub match_score : ℕ

  pub record Matching : Type 0 where
    pub used : List String
    pub matches : List (ProductMatch cells)
    pub issues : List AmbiguousMatch
    pub ambiguous : List String

  -- One merchant of the greedy loop: nothing, an ambiguity, or a match.
  unfoldable pub choose : List Candidate → MerchantRecord cells → Matching → Matching
  choose [] m r = r
  choose (best ∷ available) m r =
      if ltb 1
        (length (filter_by (λ c. c.score == best.score && c.tie == best.tie) (best ∷ available)))
      then record r {
        ambiguous = m.record_id ∷ r.ambiguous;
        issues =
            r.issues
            ++ record {
              source_sheet = m.source_sheet;
              source_row = m.source_row;
              merchant_value = field cells "product_name" m.fixed;
              match_score = best.score;
            }
              ∷ [];
      }
      else record r {
        used = best.platform_id ∷ r.used;
        matches =
            r.matches
            ++ record {
              merchant_record_id = m.record_id;
              platform_record_id = best.platform_id;
              score = best.score;
              tie_break_score = best.tie;
            }
              ∷ [];
      }

  unfoldable pub match_loop : Candidates → List (MerchantRecord cells) → Matching → Matching
  match_loop candidates [] r = r
  match_loop candidates (m ∷ ms) r = match_loop candidates ms (
      choose (filter_by (λ c. not (member c.platform_id r.used)) (entry candidates m.record_id)) m
        r)

  abbrev pub no_matches : Matching
  no_matches = record { used = []; matches = []; issues = []; ambiguous = [] }

  -- `none` is the ValueError of a threshold outside 0 to 100.
  unfoldable pub match_products :
      List (MerchantRecord cells) → List (PlatformRecord cells) → Threshold → Option Matching
  match_products ms ps negative = none
  match_products ms ps (level threshold) =
      let candidates = find_candidates threshold ms ps [] in
      if leb threshold full_score
      then some (match_loop candidates (sorted (merchant_leb candidates) ms) no_matches)
      else none
