-- ===== src/Catalog/Owners.antt =====
-- The index from names to ids has exactly the ids of the items that bear a name.
use excelflow.Prelude.{
  ◌≡◌, refl, Bool, true, false, ◌&&◌, ◌||◌, List, [], ◌∷◌, String, arith, str_eq, eq_iff, any_by,
  all_by, any_by-append, eq_refl,
}
use excelflow.Products.{member}
use excelflow.Catalog.{
  is_only, Names, Owner, add_once, add_owner, owners_of, key, add_names, name_index, has_name,
}

member-add_once :
    (id o : String) (ids : List String)
    → member id (add_once o ids) ≡ (str_eq o id || member id ids)
member-add_once id o ids =
    ground (arith, eq_iff o id, any_by-append (λ y. str_eq y id) ids (o ∷ []))

member-add_owner :
    (t token id o : String) (os : List Owner)
    → member id (owners_of t (add_owner token o os))
      ≡ ((str_eq token t && str_eq o id) || member id (owners_of t os))
unfolding add_owner owners_of
member-add_owner t token id o [] = ground arith
member-add_owner t token id o (x ∷ os) = ground (
  arith,
  eq_iff x.token token,
  eq_iff x.token t,
  eq_iff token t,
  member-add_once id o x.ids,
  member-add_owner t token id o os,
)

-- A test of every id that a text may own.
pub all_members :
    (p : String → Bool) (ids : List String)
    → ((id : String) → member id ids ≡ true → p id ≡ true)
    → all_by p ids ≡ true
all_members p [] h = refl
all_members p (x ∷ ids) h =
    ground (arith, h x, eq_refl x, all_members p ids (λ id e. h id (ground arith)))

pub or_empty : (b : Bool) → (b || false) ≡ b
or_empty b = ground arith

pub both : {a b : Bool} → a ≡ true → b ≡ true → (a && b) ≡ true
both {a} {b} h g = ground arith

pub is_only-member :
    (id k : String) (ids : List String) → is_only id ids ≡ true → member k ids ≡ str_eq id k
is_only-member id k [] h = cc
is_only-member id k (x ∷ []) h = ground (arith, eq_iff x id)
is_only-member id k (x ∷ y ∷ xs) h = cc

module _ (names : Names) {A : Type 0} (id_of : A → String) (names_of : A → List String) where
  member-add_names :
      (t id o : String) (vs : List String) (os : List Owner)
      → member id (owners_of t (add_names names o vs os))
        ≡ ((any_by (λ v. str_eq (key names v) t) vs && str_eq o id) || member id (owners_of t os))
  unfolding add_names
  member-add_names t id o [] os = refl
  member-add_names t id o (v ∷ vs) os = ground (
    arith,
    member-add_names t id o vs (add_owner (key names v) o os),
    member-add_owner t (key names v) id o os,
  )

  -- An id owns a text exactly if some item has the id and a name of that text, or it owned it before.
  pub member-name_index :
      (t id : String) (xs : List A) (os : List Owner)
      → member id (owners_of t (name_index names id_of names_of xs os)) ≡ (
          any_by (λ x. str_eq (id_of x) id && has_name names id_of names_of t x) xs
          || member id (owners_of t os))
  unfolding name_index
  member-name_index t id [] os = refl
  member-name_index t id (x ∷ xs) os = ground (
    arith,
    member-name_index t id xs (add_names names (id_of x) (names_of x) os),
    member-add_names t id (id_of x) (names_of x) os,
  )
