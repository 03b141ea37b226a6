-- ===== src/Workflow/Store/Rows.antt =====
-- What `get` reads, and when `fence` and `claim` succeed.
use excelflow.Prelude.{
  ℕ, ◌+◌, ◌≡◌, refl, ap, ◌∙◌, Bool, true, false, ◌&&◌, Option, none, some, String, str_eq, eq_refl,
  holds, arith, ◌==◌, if◌then◌else◌,
}
use excelflow.Sql.{
  first_lem, cas, lookup, HasPrimaryKey, HasPrimaryKey-cas, lookup-cas, rowcount-cas,
}
use excelflow.Sql.Rows.{revise, keep_if}
use excelflow.Workflow.{
  Execution, Object, Kind, task, template, exports, operation, other_kind, Schema, Database,
}
use excelflow.Workflow.Store.{
  Store, not_found, revision_conflict, execution_expired, Outcome, returned, raised, then_, is_held,
  of_kind, get_object, fence, claim, same_kind,
}

pub same_kind_refl : (k : Kind) → same_kind k k ≡ true
same_kind_refl task = refl
same_kind_refl template = refl
same_kind_refl exports = refl
same_kind_refl operation = refl
same_kind_refl (other_kind a) = eq_refl a

module _ (store : Store) (now : ℕ) (s : Schema) where
  abbrev pub object_at : String → Database s → Option Object
  object_at id db = lookup Object.id s.objects id db.objects

  abbrev pub found : Option Object → Outcome Object
  found none = raised not_found
  found (some o) = returned o

  pub get_object_lem :
      (id tenant : String) (kind : Option Kind) (db : Database s)
      → HasPrimaryKey Object.id s.objects db.objects
      → get_object store now s id tenant kind db
        ≡ found
            (keep_if (λ o. str_eq o.tenant_id tenant && of_kind store now kind o) (object_at id db))
  unfolding get_object
  get_object_lem id tenant kind db keyed =
      rw
        (
          get_object,
          first_lem Object.id s.objects id
              (λ o. str_eq o.tenant_id tenant && of_kind store now kind o) db.objects keyed,
        )
        (found_choice
          (keep_if (λ o. str_eq o.tenant_id tenant && of_kind store now kind o) (object_at id db)))
    where
      found_choice :
          (row : Option Object)
          → (elim row [ none ↦ raised not_found | some o ↦ returned o ]) ≡ found row
      found_choice none = refl
      found_choice (some o) = refl

  module _ (id tenant : String) (base : ℕ) (kind : Kind) where
    -- the row that a claim takes
    abbrev pub is_base : Object → Bool
    is_base o = str_eq o.tenant_id tenant && (same_kind o.kind kind && o.revision == base)

    abbrev pub claimed : Object → Object
    claimed o = record o { revision = base + 1; updated_at = now }

    abbrev pub after_claim : Database s → Database s
    after_claim db = record db {
      objects = (cas Object.id s.objects id is_base claimed db.objects).0;
    }

    pub object-after_claim :
        (j : String) (db : Database s)
        → object_at j (after_claim db)
          ≡ (if str_eq j id then revise is_base claimed (object_at j db) else object_at j db)
    object-after_claim j db =
        lookup-cas Object.id s.objects id is_base claimed db.objects (λ r. refl) j

    -- what a claim of the row returns, with the new contents
    abbrev pub claim_result : Option Object → Database s → Outcome (Object × Database s)
    claim_result none db = raised not_found
    claim_result (some o) db =
        if is_base o
        then returned (claimed o, db)
        else if str_eq o.tenant_id tenant && of_kind store now (some kind) o
        then raised revision_conflict
        else raised not_found

    claimed-result :
        (o : Option Object) (n : ℕ) (g : Outcome Object) (db : Database s)
        → n ≡ (if holds is_base o then 1 else 0)
        → g
          ≡ found (
              keep_if
                (λ o. str_eq o.tenant_id tenant && of_kind store now (some kind) o)
                (revise is_base claimed o))
        → (if n == 1
            then then_ (λ o. returned (o, db)) g
            else then_ (λ o. raised revision_conflict) g)
          ≡ claim_result o db
    claimed-result none n g db a b = ground arith
    claimed-result (some o) n g db a b = ground arith

    pub claim_lem :
        (db : Database s)
        → HasPrimaryKey Object.id s.objects db.objects
        → claim store now s id tenant base kind db ≡ claim_result (object_at id db) (after_claim db)
    unfolding claim
    claim_lem db keyed =
        claimed-result (object_at id db) (cas Object.id s.objects id is_base claimed db.objects).1
          (get_object store now s id tenant (some kind) (after_claim db)) (after_claim db)
          (rowcount-cas Object.id s.objects id is_base claimed db.objects keyed)
          (get_object_lem id tenant (some kind) (after_claim db) (
              HasPrimaryKey-cas Object.id s.objects id is_base claimed db.objects (λ r. refl) keyed)
            ∙ ap
                (λ o.
                  found
                    (keep_if (λ o. str_eq o.tenant_id tenant && of_kind store now (some kind) o) o))
                (object-after_claim id db ∙ rw (eq_refl id) refl))

  pub fence_refused :
      (id token : String) (db : Database s)
      → HasPrimaryKey Execution.id s.executions db.executions
      → store.execution ≡ some (id, token)
      → holds (is_held store now token) (lookup Execution.id s.executions id db.executions) ≡ false
      → fence store now s db ≡ raised execution_expired
  unfolding fence
  fence_refused id token db keyed runs lost = rw (runs) (
      refuse _ _ (
        rowcount-cas Execution.id s.executions id (is_held store now token)
          (λ e. record e { updated_at = now }) db.executions keyed))
    where
      refuse :
          (n : ℕ) (db' : Database s)
          → n ≡ (
              if holds (is_held store now token) (lookup Execution.id s.executions id db.executions)
              then 1
              else 0)
          → (if n == 1 then returned db' else raised execution_expired) ≡ raised execution_expired
      refuse n db' e = ground (arith, e, lost)
