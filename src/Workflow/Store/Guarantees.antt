-- ===== src/Workflow/Store/Guarantees.antt =====
-- What the calls of `WorkflowStore` promise.
use excelflow.Prelude.{
  ℕ, ◌+◌, ◌≡◌, refl, sym, ap, ◌∙◌, Bool, true, ◌&&◌, Option, none, some, String, str_eq, eq_iff,
  eq_refl, holds, arith, ◌==◌, if◌then◌else◌, if_keeps, option_keeps,
}
use mathlib.Core.Path.{subst}
use excelflow.Sql.{lookup, cas, lookup-cas, rowcount-cas, HasPrimaryKey, HasPrimaryKey-cas}
use excelflow.Sql.Rows.{revise}
use excelflow.Workflow.{Execution, Object, Kind, Schema, Database, Operation}
use excelflow.Workflow.Capacity.{Admission, admitted, capacity_full, user_capacity_full, admit}
use excelflow.Workflow.Executions.{set}
use excelflow.Workflow.Store.{
  of_kind, Store, revision_conflict, Outcome, returned, raised, then_, is_held, claim, save, fence,
  schedule, saved, scheduled, operation_of, own_id, is_own, admit_one, insert_once,
}
use excelflow.Workflow.Store.Rows.{
  object_at, is_base, claimed, after_claim, object-after_claim, claim_result, claim_lem,
}

module _ (store : Store) (s : Schema) where
  -- A claim of this row took it, and left these contents.
  record IsTaken (now : ℕ) (id tenant : String) (base : ℕ) (kind : Kind) (o : Option Object)
      (obj : Object) (db db' : Database s) : Type 0 where
    was_base : holds (is_base store now s id tenant base kind) o ≡ true
    is_row :
        revise (is_base store now s id tenant base kind) (claimed store now s id tenant base kind) o
        ≡ some obj
    advanced : obj.revision ≡ base + 1
    same_contents : db ≡ db'

  claim_result-IsTaken :
      (now : ℕ) (id tenant : String) (base : ℕ) (kind : Kind) (o : Option Object) (obj : Object)
      (db db' : Database s)
      → claim_result store now s id tenant base kind o db ≡ returned (obj, db')
      → IsTaken now id tenant base kind o obj db db'
  claim_result-IsTaken now id tenant base kind none obj db db' h = cc
  claim_result-IsTaken now id tenant base kind (some o) obj db db' h =
      if_keeps (λ r. r ≡ returned (obj, db') → IsTaken now id tenant base kind (some o) obj db db')
        (is_base store now s id tenant base kind o)
        (λ b e.
          let same : ◌≡◌ {A = Object × Database s} (claimed store now s id tenant base kind o, db)
              (obj, db') =
            cc in
          record {
            was_base = b;
            is_row = rw (b) (ap (λ (p : Object × Database s). some p.0) same);
            advanced = sym (ap (λ (p : Object × Database s). p.0.revision) same);
            same_contents = ap (λ (p : Object × Database s). p.1) same;
          })
        (λ b e. absurd (
          if_keeps (λ r. r ≡ returned (obj, db') → ⊥)
            (str_eq o.tenant_id tenant && of_kind store now (some kind) o) (λ t e. cc) (λ t e. cc)
            e))
        h

  claim_result-again :
      (now later : ℕ) (id tenant : String) (base : ℕ) (kind : Kind) (o : Option Object)
      (db : Database s)
      → holds (is_base store now s id tenant base kind) o ≡ true
      → claim_result store later s id tenant base kind
          (revise
            (is_base store now s id tenant base kind)
            (claimed store now s id tenant base kind)
            o)
          db
        ≡ raised revision_conflict
  claim_result-again now later id tenant base kind none db h = cc
  claim_result-again now later id tenant base kind (some o) db h = ground arith

  -- With ids as primary keys: where `claim` returns an object, the row of the id had the tenant, the
  -- kind and the base revision; the object, at the next revision, is now its row, and every other row is
  -- as before; and a second claim on the same base revision, at any time, meets a revision conflict.
  pub claim-once :
      (now later : ℕ) (id tenant : String) (base : ℕ) (kind : Kind) (obj : Object)
      (db db' : Database s) (j : String)
      → HasPrimaryKey Object.id s.objects db.objects
      → claim store now s id tenant base kind db ≡ returned (obj, db')
      → (holds (is_base store now s id tenant base kind) (object_at store now s id db) ≡ true)
        × (obj.revision ≡ base + 1)
        × (object_at store now s j db'
            ≡ (if str_eq j id then some obj else object_at store now s j db))
        × (claim store later s id tenant base kind db' ≡ raised revision_conflict)
  claim-once now later id tenant base kind obj db db' j keyed h =
      let taken =
        claim_result-IsTaken now id tenant base kind (object_at store now s id db) obj
          (after_claim store now s id tenant base kind db) db'
          (sym (claim_lem store now s id tenant base kind db keyed) ∙ h) in
      let there : (j : String)
          → object_at store now s j db'
            ≡ object_at store now s j (after_claim store now s id tenant base kind db) =
        λ j. ap (object_at store now s j) (sym taken.same_contents) in
      let row = there id ∙ object-after_claim store now s id tenant base kind id db in
      let keyed' : HasPrimaryKey Object.id s.objects db'.objects =
        subst (λ d. HasPrimaryKey Object.id s.objects d.objects) taken.same_contents
          (HasPrimaryKey-cas Object.id s.objects id (is_base store now s id tenant base kind)
            (claimed store now s id tenant base kind) db.objects (λ r. refl) keyed) in
      (
        taken.was_base,
        taken.advanced,
        there j
            ∙ object-after_claim store now s id tenant base kind j db
            ∙ if_keeps (λ o. o ≡ (if str_eq j id then some obj else object_at store now s j db))
                (str_eq j id)
                (λ e. rw (e) (
                  subst
                    (λ k.
                      revise (is_base store now s id tenant base kind)
                        (claimed store now s id tenant base kind) (object_at store now s k db)
                      ≡ some obj)
                    (sym ((eq_iff j id).0 e)) taken.is_row))
                (λ e. rw (e) refl),
        claim_lem store later s id tenant base kind db' keyed'
            ∙ ap
                (λ o.
                  claim_result store later s id tenant base kind o
                    (after_claim store later s id tenant base kind db'))
                (row ∙ rw (eq_refl id) refl)
            ∙ claim_result-again now later id tenant base kind (object_at store now s id db) _
                taken.was_base,
      )

  -- the row that `save` writes
  abbrev pub is_current : Object → Object → Bool
  is_current obj o = str_eq o.tenant_id obj.tenant_id && o.revision == obj.revision

  kept :
      {d : s.objects.Db} (db db' : Database s)
      → db.objects ≡ d
      → returned db ≡ returned db'
      → db'.objects ≡ d
  kept db db' same e = let eq : db ≡ db' = cc in ap (λ (d : Database s). d.objects) (sym eq) ∙ same

  insert_once-objects :
      (now : ℕ) (e : Execution) (db : Database s)
      → (insert_once store now s e db).objects ≡ db.objects
  unfolding insert_once
  insert_once-objects now e db =
      if_keeps (λ (d : Database s). d.objects ≡ db.objects) _ (λ there. refl) (λ absent. refl)

  admit_one-objects :
      (now : ℕ) (admission : Admission) (obj : Object) (op : Operation) (db db' : Database s)
      → admit_one store now s admission obj op db ≡ returned db'
      → db'.objects ≡ db.objects
  unfolding admit_one
  admit_one-objects now admitted obj op db db' h =
      kept (insert_once store now s (scheduled store now obj op) db) db'
        (insert_once-objects now (scheduled store now obj op) db) h
  admit_one-objects now capacity_full obj op db db' h = cc
  admit_one-objects now user_capacity_full obj op db db' h = cc

  fence-objects :
      (now : ℕ) (db db' : Database s)
      → fence store now s db ≡ returned db'
      → db'.objects ≡ db.objects
  unfolding fence
  fence-objects now db db' h =
      option_keeps (λ (r : Outcome (Database s)). r ≡ returned db' → db'.objects ≡ db.objects)
        store.execution (λ none_held e. kept db db' refl e)
        (λ held found e.
          if_keeps (λ (r : Outcome (Database s)). r ≡ returned db' → db'.objects ≡ db.objects)
            ((set s held.0 (is_held store now held.1) (λ e. record e { updated_at = now }) db).1
              == 1)
            (λ one e. kept _ db' refl e) (λ none_left e. cc) e)
        h

  schedule-objects :
      (now : ℕ) (obj : Object) (db db' : Database s)
      → schedule store now s obj db ≡ returned db'
      → db'.objects ≡ db.objects
  unfolding schedule
  schedule-objects now obj db db' h =
      option_keeps (λ (r : Outcome (Database s)). r ≡ returned db' → db'.objects ≡ db.objects)
        (operation_of obj.status obj.kind) (λ idle e. kept db db' refl e)
        (λ op found e.
          if_keeps (λ (r : Outcome (Database s)). r ≡ returned db' → db'.objects ≡ db.objects)
            (is_own store now s obj db) (λ own e. kept db db' refl e)
            (λ other e.
              admit_one-objects now (admit s db store.limits (own_id store now) obj op) obj op db
                db' e)
            e)
        h

  then_-returned :
      {A B : Type 0} (f : A → Outcome B) (m : Outcome A) {b : B}
      → then_ f m ≡ returned b
      → (a : A) × (m ≡ returned a) × (f a ≡ returned b)
  then_-returned f (raised error) h = cc
  then_-returned f (returned a) h = (a, refl, h)

  one_row :
      (p : Object → Bool) (o : Option Object) (n : ℕ)
      → n ≡ (if holds p o then 1 else 0)
      → (n == 1) ≡ true
      → holds p o ≡ true
  one_row p o n count one = ground (arith, count, one)

  revise-holds :
      (p : Object → Bool) (f : Object → Object) (o : Option Object)
      → holds p o ≡ true
      → revise p f o ≡ revise (λ o. true) f o
  revise-holds p f none h = refl
  revise-holds p f (some o) h = ground arith

  -- A row with the payload and the status of the object, and the creator and the parent of the payload;
  -- it keeps its id, tenant, kind, revision and time of creation.
  abbrev pub rewritten : ℕ → Object → Object → Object
  rewritten now obj old = record {
    id = old.id;
    tenant_id = old.tenant_id;
    kind = old.kind;
    status = obj.status;
    revision = old.revision;
    payload = obj.payload;
    created_at = old.created_at;
    updated_at = now;
    creator_id = obj.payload.actor;
    parent_task_id = obj.payload.task_id;
  }

  -- What a save leaves of the row of j.
  abbrev pub saved_row : ℕ → Object → String → s.objects.Db → Option Object
  saved_row now obj j rows =
      if str_eq j obj.id
      then revise (λ o. true) (rewritten now obj) (lookup Object.id s.objects j rows)
      else lookup Object.id s.objects j rows

  update_saved :
      (now : ℕ) (obj : Object) (j : String) (rows : s.objects.Db)
      → holds (is_current obj) (lookup Object.id s.objects obj.id rows) ≡ true
      → lookup Object.id s.objects j
          (cas Object.id s.objects obj.id (is_current obj) (saved store now obj) rows).0
        ≡ saved_row now obj j rows
  update_saved now obj j rows current =
      lookup-cas Object.id s.objects obj.id (is_current obj) (saved store now obj) rows (λ r. refl)
        j
      ∙ if_keeps (λ o. o ≡ saved_row now obj j rows) (str_eq j obj.id)
          (λ e. rw (e) (
            revise-holds (is_current obj) (saved store now obj) (lookup Object.id s.objects j rows)
              (subst (λ k. holds (is_current obj) (lookup Object.id s.objects k rows) ≡ true)
                (sym ((eq_iff j obj.id).0 e)) current)))
          (λ e. rw (e) refl)

  -- With ids as primary keys: where `save` returns, the row of the object had its tenant and its
  -- revision; it now has the payload and the status of the object and the creator and the parent that
  -- the payload names, and every other row is as before.
  pub save-writes :
      (now : ℕ) (obj : Object) (db db' : Database s) (j : String)
      → HasPrimaryKey Object.id s.objects db.objects
      → save store now s obj db ≡ returned db'
      → (holds (is_current obj) (object_at store now s obj.id db) ≡ true)
        × (object_at store now s j db' ≡ saved_row now obj j db.objects)
  unfolding save
  save-writes now obj db db' j keyed h =
      let (d, fenced, more) = then_-returned _ (fence store now s db) h in
      let same = fence-objects now db d fenced in
      let (rows, changed) =
        cas Object.id s.objects obj.id (is_current obj) (saved store now obj) d.objects in
      subst
        (λ rows.
          (holds (is_current obj) (lookup Object.id s.objects obj.id rows) ≡ true)
          × (object_at store now s j db' ≡ saved_row now obj j rows))
        same
        (if_keeps
          (λ (r : Outcome (Database s)).
            r ≡ returned db'
            → (holds (is_current obj) (lookup Object.id s.objects obj.id d.objects) ≡ true)
              × (object_at store now s j db' ≡ saved_row now obj j d.objects))
          (changed == 1)
          (λ one e.
            let current =
              one_row (is_current obj) (lookup Object.id s.objects obj.id d.objects) changed
                (rowcount-cas Object.id s.objects obj.id (is_current obj) (saved store now obj)
                  d.objects (subst (HasPrimaryKey Object.id s.objects) (sym same) keyed))
                one in
            (
              current,
              ap (lookup Object.id s.objects j)
                    (schedule-objects now obj (record d { objects = rows }) db' e)
                  ∙ update_saved now obj j d.objects current,
            ))
          (λ other e. cc) more)
