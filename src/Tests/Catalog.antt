-- ===== src/Tests/Catalog.antt =====
-- Runs of the header mapping and of the category resolution on small catalogues.
use excelflow.Prelude.{
  ℕ, ◌≡◌, ◌≤◌, refl, true, List, [], ◌∷◌, map, none, some, String, arith, eq_refl, count_by, all_by,
}
use excelflow.Products.{ok, member, Dict, get, index_by}
use excelflow.Catalog.{Names, key}
use excelflow.Catalog.Headers.{CatalogField, FieldMapping, confirm, map_product_headers}
use excelflow.Catalog.Headers.Steps.{gives, label_of, labels}
use excelflow.Catalog.Headers.Guarantees.{
  has_target, map_product_headers-maps_all, map_product_headers-accepts_targets,
}
use excelflow.Catalog.Categories.{
  Category, Resolution, Row, row_numbers, directory_of, resolve_categories,
}
use excelflow.Catalog.Categories.Rows as Rows
use excelflow.Catalog.Categories.Guarantees.{
  facts, resolve_categories-resolves_all, resolve_categories-is_sound,
}

-- the first choice, as a close one
abbrev first_choice : List String → List (String × ℕ)
first_choice [] = []
first_choice (c ∷ cs) = (c, 90) ∷ []

first_choice-known :
    (choices : List String) → all_by (λ r. member r.0 choices) (first_choice choices) ≡ true
first_choice-known [] = refl
first_choice-known (c ∷ cs) = ground (arith, eq_refl c)

abbrev names : Names
names = record {
  Value = String;
  of_text = λ t. t;
  text_of = λ v. v;
  tidy = λ t. t;
  casefold = λ t. t;
  full_score = 100;
  extract = λ query choices cutoff limit. first_choice choices;
  extract-known = λ query choices cutoff limit. first_choice-known choices;
}

abbrev field : String → String → List String → CatalogField
field id title aliases = record {
  field_id = id;
  title = title;
  aliases = aliases;
  attribute_id = none;
}

abbrev fields : List CatalogField
fields = field "sku" "code" [] ∷ field "name" "title" ("label" ∷ []) ∷ []

abbrev headers : List String
headers = "label" ∷ "item" ∷ "price" ∷ "title" ∷ []

abbrev aliases : List (String × String)
aliases = ("item", "sku") ∷ []

abbrev confirmed : Dict String
confirmed = ("item", "sku") ∷ []

map_product_headers-maps_all_example :
    (rs : List FieldMapping) × (map_product_headers names headers fields aliases [] 80 3 ≡ ok rs)
    × (map label_of rs ≡ labels names 1 headers)
    × ((id : String) → count_by (gives id) rs ≤ 1)
unfolding confirm get index_by key
map_product_headers-maps_all_example =
    map_product_headers-maps_all names fields aliases [] 80 3 confirmed headers refl refl

unfoldable mappings : List FieldMapping
unfolding confirm get index_by key
mappings = (map_product_headers-maps_all names fields aliases [] 80 3 confirmed headers refl refl).0

mappings-made : map_product_headers names headers fields aliases [] 80 3 ≡ ok mappings
unfolding confirm get index_by key mappings
mappings-made =
    (map_product_headers-maps_all names fields aliases [] 80 3 confirmed headers refl refl).1

map_product_headers-accepts_targets_example :
    all_by (has_target names fields confirmed) mappings ≡ true
unfolding confirm get index_by key
map_product_headers-accepts_targets_example =
    map_product_headers-accepts_targets names fields aliases [] 80 3 confirmed headers refl
      mappings-made

abbrev category : String → String → Category
category id name = record {
  category_id = id;
  name = name;
  path = "home" ∷ [];
  aliases = [];
  active = true;
}

abbrev categories : List Category
categories = category "1" "desk" ∷ category "2" "chair" ∷ []

abbrev rows : List (Row names)
rows =
    (("name", some "desk") ∷ [])
    ∷ (("id", some "2") ∷ [])
    ∷ (("id", some "2") ∷ ("name", some "desk") ∷ [])
    ∷ (("name", some "home") ∷ [])
    ∷ []

resolve_categories-resolves_all_example :
    (rs : List Resolution) × (resolve_categories names rows categories "name"
        (some "id")
        2
        none
        90
        5
      ≡ ok rs)
    × (map Rows.label_of rs
        ≡ Rows.labels names
            (directory_of names categories 90 5)
            "name"
            (some "id")
            (row_numbers none 2 rows)
            rows)
resolve_categories-resolves_all_example =
    resolve_categories-resolves_all names categories "name" (some "id") 2 none 90 5 rows refl refl
      refl

unfoldable resolutions : List Resolution
resolutions =
    (resolve_categories-resolves_all names categories "name" (some "id") 2 none 90 5 rows refl refl
      refl).0

resolutions-made :
    resolve_categories names rows categories "name" (some "id") 2 none 90 5 ≡ ok resolutions
unfolding resolutions
resolutions-made =
    (resolve_categories-resolves_all names categories "name" (some "id") 2 none 90 5 rows refl refl
      refl).1

resolve_categories-is_sound_example :
    all_by (Rows.is_sound (facts names categories)) resolutions ≡ true
resolve_categories-is_sound_example =
    resolve_categories-is_sound names categories "name" (some "id") 2 none 90 5 rows
      resolutions-made
