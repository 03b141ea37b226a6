-- ===== src/Sql.antt =====
-- The relational tables behind the services (sqlalchemy's `select` and `update` over a table with a
-- primary key `id`). The engine is not part of the repository: it is the parameter `SqlTable`,
-- whose laws are what SQL documents of SELECT ... WHERE and UPDATE ... WHERE.
pub mod Rows
pub mod Memory
use excelflow.Prelude.{
  ℕ, ◌+◌, ◌≡◌, Bool, true, not, List, Option, String, filter_by, count_by, find_by, str_eq, holds,
  if◌then◌else◌,
}
use Rows.{
  update_rows, revise, by_key, find_key, UniqueKeys, KeepsKey, find-update, UniqueKeys-update,
  count-by_key, find-select, find-select_key, keep_if,
}

pub record SqlTable (Row : Type 0) : Type 1 where
  pub Db : Type 0
  -- the rows, in the order in which an unordered query returns them
  pub rows : Db → List Row
  pub select : (Row → Bool) → Db → List Row
  -- the new contents, and the result's `rowcount`
  pub update : (Row → Bool) → (Row → Row) → Db → Db × ℕ
  pub insert : Row → Db → Db
  pub delete : (Row → Bool) → Db → Db
  pub select_lem : (p : Row → Bool) (db : Db) → select p db ≡ filter_by p (rows db)
  pub rows-update :
      (p : Row → Bool) (f : Row → Row) (db : Db)
      → rows (update p f db).0 ≡ update_rows p f (rows db)
  pub count-update :
      (p : Row → Bool) (f : Row → Row) (db : Db) → (update p f db).1 ≡ count_by p (rows db)
  pub count-insert :
      (p : Row → Bool) (r : Row) (db : Db)
      → count_by p (rows (insert r db)) ≡ count_by p (rows db) + (if p r then 1 else 0)
  pub rows-delete :
      (p : Row → Bool) (db : Db) → rows (delete p db) ≡ filter_by (λ r. not (p r)) (rows db)

module _ {Row : Type 0} (id_of : Row → String) (t : SqlTable Row) where
  -- The row of a key: what `SELECT ... WHERE id = key` finds.
  abbrev pub lookup : String → t.Db → Option Row
  lookup key db = find_key id_of key (t.rows db)

  -- `SELECT ... WHERE id = key AND test`, its first row
  unfoldable pub first : String → (Row → Bool) → t.Db → Option Row
  first key test db = find_by (λ r. true) (t.select (by_key id_of key test) db)

  -- `session.get(Table, key)`: the row of that primary key, if there is one.
  unfoldable pub get : String → t.Db → Option Row
  unfolding first
  get key db = first key (λ r. true) db

  abbrev pub HasPrimaryKey : t.Db → Type 0
  HasPrimaryKey db = UniqueKeys id_of (t.rows db)

  pub first_lem :
      (key : String) (test : Row → Bool) (db : t.Db)
      → HasPrimaryKey db
      → first key test db ≡ keep_if test (lookup key db)
  unfolding first
  first_lem key test db u = rw (t.select_lem) (find-select id_of key test (t.rows db) u)

  pub get_lem : (key : String) (db : t.Db) → get key db ≡ lookup key db
  unfolding get
  get_lem key db = rw (t.select_lem) (find-select_key id_of key (t.rows db))

  -- `UPDATE ... SET f WHERE id = key AND test`: a compare-and-set of one row.
  unfoldable pub cas : String → (Row → Bool) → (Row → Row) → t.Db → t.Db × ℕ
  cas key test f db = t.update (by_key id_of key test) f db

  module _ (key : String) (test : Row → Bool) (f : Row → Row) (db : t.Db) where
    pub lookup-cas :
        KeepsKey id_of f
        → (j : String)
        → lookup j (cas key test f db).0
          ≡ (if str_eq j key then revise test f (lookup j db) else lookup j db)
    unfolding cas
    lookup-cas keeps j = rw (t.rows-update) (find-update id_of key test f keeps j (t.rows db))

    pub rowcount-cas :
        HasPrimaryKey db → (cas key test f db).1 ≡ (if holds test (lookup key db) then 1 else 0)
    unfolding cas
    rowcount-cas u = rw (t.count-update) (count-by_key id_of key test (t.rows db) u)

    pub HasPrimaryKey-cas :
        KeepsKey id_of f → HasPrimaryKey db → HasPrimaryKey (cas key test f db).0
    unfolding cas
    HasPrimaryKey-cas keeps u =
        rw (t.rows-update) (UniqueKeys-update id_of key test f keeps (t.rows db) u)
