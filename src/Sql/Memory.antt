-- ===== src/Sql/Memory.antt =====
-- A table held in memory: the laws of `SqlTable` can be met, and the handlers can be run.
use excelflow.Prelude.{
  refl, ◌≡◌, ◌+◌, Bool, ◌∷◌, not, arith, if◌then◌else◌, filter_by, count_by, List,
}
use excelflow.Sql.{SqlTable}
use excelflow.Sql.Rows.{update_rows}

pub count-cons :
    {Row : Type 0} (p : Row → Bool) (r : Row) (rs : List Row)
    → count_by p (r ∷ rs) ≡ count_by p rs + (if p r then 1 else 0)
count-cons p r rs = ground arith

abbrev pub memory : (Row : Type 0) → SqlTable Row
memory Row = record {
  Db = List Row;
  rows = λ db. db;
  select = filter_by;
  update = λ p f db. (update_rows p f db, count_by p db);
  insert = λ r db. r ∷ db;
  delete = λ p db. filter_by (λ r. not (p r)) db;
  select_lem = λ p db. refl;
  rows-update = λ p f db. refl;
  count-update = λ p f db. refl;
  count-insert = count-cons;
  rows-delete = λ p db. refl;
}
