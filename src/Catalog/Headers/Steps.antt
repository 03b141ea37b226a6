-- ===== src/Catalog/Headers/Steps.antt =====
-- What one header adds to the mappings, and a run of headers.
use mathlib.Core.Path.{subst}
use excelflow.Prelude.{
  ℕ, ◌+◌, ◌≤◌, ◌≡◌, refl, Bool, true, false, not, ◌&&◌, ◌||◌, List, [], ◌∷◌, map, some, String,
  arith, str_eq, eq_iff, eq_refl, all_by, count_by, holds,
}
use excelflow.Products.{member, ok, ◌>>=◌, >>=-returns}
use excelflow.Catalog.{is_only, Names, MappingCandidate, normalize_header}
use excelflow.Catalog.Headers.{
  FieldMapping, is_accepted, Targets, blank, suggestion, best_matches, ranked, header_owners,
  mapped, map_owned, map_header, map_headers,
}

-- whether a mapping gives its column to the field
abbrev pub gives : String → FieldMapping → Bool
gives id m = is_accepted m.status && holds (λ f. str_eq f id) m.field_id

abbrev pub Label : Type 0
Label = ℕ × String × String

abbrev pub label_of : FieldMapping → Label
label_of m = (m.physical_column, m.raw_header, m.normalized_header)

abbrev pub bit : Bool → ℕ
bit true = 1
bit false = 0

module _ (names : Names) where
  open names use {Value, text_of, casefold, full_score, extract, extract-known}

  -- what the columns show, numbered from the left
  abbrev pub labels : ℕ → List Value → List Label
  labels column [] = []
  labels column (raw ∷ raws) =
      (column, text_of raw, normalize_header names (some raw)) ∷ labels (column + 1) raws

  module _ (t : Targets names) where
    -- An accepted mapping has the one owner of its header.
    abbrev pub owned : FieldMapping → Bool
    owned m =
        not (is_accepted m.status)
        || holds (λ id. is_only id (header_owners names t (casefold m.normalized_header)))
            m.field_id

    record IsStep (column : ℕ) (raw : Value) (taken : List String) (id : String)
        (r : FieldMapping × List String) : Type 0 where
      label : label_of r.0 ≡ (column, text_of raw, normalize_header names (some raw))
      counted : bit (gives id r.0) + bit (member id taken) ≡ bit (member id r.1)
      has_owner : owned r.0 ≡ true

    suggestion-IsStep :
        (column : ℕ) (raw : Value) (taken : List String) (id : String) (cs : List MappingCandidate)
        → IsStep column raw taken id (suggestion names t column raw cs, taken)
    unfolding suggestion blank
    suggestion-IsStep column raw taken id [] = ground arith
    suggestion-IsStep column raw taken id (c ∷ cs) = ground arith

    map_owned-IsStep :
        (column : ℕ) (raw : Value) (taken : List String) (id : String) (owners : List String)
        {r : FieldMapping × List String}
        → header_owners names t (casefold (normalize_header names (some raw))) ≡ owners
        → map_owned names t column raw (casefold (normalize_header names (some raw))) owners taken
          ≡ ok r
        → IsStep column raw taken id r
    unfolding map_owned mapped blank
    map_owned-IsStep column raw taken id [] {r} o h =
        let token = casefold (normalize_header names (some raw)) in
        let (best, made, e) =
          >>=-returns (best_matches names t token)
            (λ best. ok (suggestion names t column raw (ranked names t best), taken)) h in
        let same : (suggestion names t column raw (ranked names t best), taken) ≡ r = cc in
        subst (IsStep column raw taken id) same
          (suggestion-IsStep column raw taken id (ranked names t best))
    map_owned-IsStep column raw taken id (x ∷ []) {r} o h = ground (arith, eq_iff x id, eq_refl x)
    map_owned-IsStep column raw taken id (x ∷ y ∷ xs) {r} o h = ground arith

    map_header-IsStep :
        (column : ℕ) (raw : Value) (taken : List String) (id : String)
        {r : FieldMapping × List String}
        → map_header names t column raw taken ≡ ok r
        → IsStep column raw taken id r
    unfolding map_header blank
    map_header-IsStep column raw taken id {r} h =
        let token = casefold (normalize_header names (some raw)) in
        ground
          (arith, map_owned-IsStep column raw taken id (header_owners names t token) {r = r} refl)

    pub record AreSteps (column : ℕ) (raws : List Value) (taken : List String) (id : String)
        (rs : List FieldMapping) : Type 0 where
      pub labelled : map label_of rs ≡ labels column raws
      pub counted : count_by (gives id) rs + bit (member id taken) ≤ 1
      pub have_owners : all_by owned rs ≡ true

    cons-AreSteps :
        (column : ℕ) (raw : Value) (raws : List Value) (taken : List String) (id : String)
        (p : FieldMapping × List String) (rs : List FieldMapping)
        → IsStep column raw taken id p
        → AreSteps (column + 1) raws p.1 id rs
        → AreSteps column (raw ∷ raws) taken id (p.0 ∷ rs)
    cons-AreSteps column raw raws taken id p rs step steps = record {
      labelled = λ i. step.label i ∷ steps.labelled i;
      counted = ground (arith, step.counted, steps.counted);
      have_owners = ground (arith, step.has_owner, steps.have_owners);
    }

    pub map_headers-AreSteps :
        (column : ℕ) (raws : List Value) (taken : List String) (id : String)
        {rs : List FieldMapping}
        → map_headers names t column raws taken ≡ ok rs
        → AreSteps column raws taken id rs
    unfolding map_headers
    map_headers-AreSteps column [] taken id {rs} h = ground arith
    map_headers-AreSteps column (raw ∷ raws) taken id {rs} h =
        let (p, made, more) =
          >>=-returns (map_header names t column raw taken)
            (λ p. map_headers names t (column + 1) raws p.1 >>= λ rest. ok (p.0 ∷ rest)) h in
        let (rest, remade, e) =
          >>=-returns (map_headers names t (column + 1) raws p.1) (λ rest. ok (p.0 ∷ rest)) more in
        let same : p.0 ∷ rest ≡ rs = cc in
        subst (AreSteps column (raw ∷ raws) taken id) same (
          cons-AreSteps column raw raws taken id p rest (map_header-IsStep column raw taken id made)
            (map_headers-AreSteps (column + 1) raws p.1 id remade))
