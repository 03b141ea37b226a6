-- ===== src/Catalog/Bearers.antt =====
-- The index of names and the items that bear them.
use excelflow.Prelude.{
  ◌≡◌, refl, sym, ◌∙◌, Bool, true, false, not, ◌&&◌, ◌||◌, List, [], ◌∷◌, String, arith, str_eq,
  eq_iff, eq_refl, any_by, any_by_imp, all_by, length, ◌==◌,
}
use excelflow.Products.{member}
use excelflow.Catalog.{Names, Owner, owners_of, is_only, name_index, has_name}
use excelflow.Catalog.Owners.{member-name_index, is_only-member, or_empty, both}

module _ (names : Names) {A : Type 0} (id_of : A → String) (names_of : A → List String)
    (xs : List A) where
  abbrev bears : String → A → Bool
  bears token x = has_name names id_of names_of token x

  -- The item of that id bears the text, and no item of another id does.
  abbrev pub is_sole_bearer : String → String → Bool
  is_sole_bearer token id =
      any_by (λ x. str_eq (id_of x) id && bears token x) xs
      && all_by (λ x. not (bears token x) || str_eq (id_of x) id) xs

  abbrev pub has_no_bearer : String → Bool
  has_no_bearer token = all_by (λ x. not (bears token x)) xs

  abbrev index : List Owner
  index = name_index names id_of names_of xs []

  only_bearers :
      (token id : String) (ys : List A)
      → ((k : String)
          → any_by (λ x. str_eq (id_of x) k && bears token x) ys ≡ true
          → str_eq k id ≡ true)
      → all_by (λ x. not (bears token x) || str_eq (id_of x) id) ys ≡ true
  only_bearers token id [] h = refl
  only_bearers token id (y ∷ ys) h =
      ground (
        arith,
        h (id_of y),
        eq_refl (id_of y),
        only_bearers token id ys (λ k e. h k (ground arith)),
      )

  no_bearer :
      (token : String) (ys : List A)
      → ((k : String) → any_by (λ x. str_eq (id_of x) k && bears token x) ys ≡ false)
      → all_by (λ x. not (bears token x)) ys ≡ true
  no_bearer token [] h = refl
  no_bearer token (y ∷ ys) h =
      ground (arith, h (id_of y), eq_refl (id_of y), no_bearer token ys (λ k. ground (arith, h k)))

  member-owners :
      (token k : String)
      → member k (owners_of token index) ≡ any_by (λ x. str_eq (id_of x) k && bears token x) xs
  unfolding owners_of
  member-owners token k =
      member-name_index names id_of names_of token k xs []
      ∙ or_empty (any_by (λ x. str_eq (id_of x) k && bears token x) xs)

  pub owned-any :
      (token id : String)
      → member id (owners_of token index) ≡ true
      → any_by (λ x. str_eq (id_of x) id) xs ≡ true
  owned-any token id e =
      any_by_imp (λ x. str_eq (id_of x) id && bears token x) (λ x. str_eq (id_of x) id)
        (λ x b. ground arith) xs (sym (member-owners token id) ∙ e)

  pub sole_bearer :
      (token id : String)
      → is_only id (owners_of token index) ≡ true
      → is_sole_bearer token id ≡ true
  sole_bearer token id h =
      let bearers : (k : String)
          → any_by (λ x. str_eq (id_of x) k && bears token x) xs ≡ str_eq id k =
        λ k. sym (member-owners token k) ∙ is_only-member id k (owners_of token index) h in
      both (bearers id ∙ eq_refl id)
        (only_bearers token id xs (λ k e. ground (arith, bearers k, e, eq_iff id k, eq_refl k)))

  pub unowned-has_no_bearer :
      (token : String) → (length (owners_of token index) == 0) ≡ true → has_no_bearer token ≡ true
  unowned-has_no_bearer token h =
      no_bearer token xs
        (λ k. sym (member-owners token k) ∙ none_member k (owners_of token index) h)
    where
      none_member :
          (k : String) (ids : List String) → (length ids == 0) ≡ true → member k ids ≡ false
      none_member k [] e = refl
      none_member k (x ∷ ids) e = ground arith
