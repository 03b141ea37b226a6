-- ===== src/Workflow/Dispatching/Offers.antt =====
-- What `dispatch` returns where it has no queue.
use excelflow.Prelude.{
  ℕ, inl, inr, ◌≡◌, refl, ap, Option-cases, true, ◌&&◌, ◌+◌, Bool, Option, none, some, List, [],
  ◌∷◌, String, arith, all_by, eq_refl, holds, ◌==◌,
}
use excelflow.Workflow.{Execution, Schema, Database, is_queued}
use excelflow.Workflow.Leasing.{Service}
use excelflow.Workflow.Executions.{recover}
use excelflow.Workflow.Executions.Effects.{row, IsKeyed, row-offer, offer-result, offer-IsKeyed}
use excelflow.Workflow.Executions.Recovery.{recover_lem}
use excelflow.Workflow.Dispatching.{Queue, listed, hand_over, dispatch_row, dispatch_rows, dispatch}

module _ (service : Service) (now : ℕ) (s : Schema) (q : Queue) where
  -- queued under a lease of the dispatcher's
  abbrev pub is_offered : Execution → Bool
  is_offered e = is_queued e.status && holds (λ u. u == now + 30) e.lease_until

  abbrev offered_row : String → Database s → Bool
  offered_row id db = holds is_offered (row s id db)

  row-kept :
      (e : Execution) (id : String) (db : Database s)
      → IsKeyed s db
      → offered_row id db ≡ true
      → offered_row id (dispatch_row service now s q e none db).1 ≡ true
  unfolding dispatch_row hand_over
  row-kept e id db key h = ground (arith, row-offer service now s db key e id)

  row-listed :
      (e : Execution) (id : String) (db : Database s)
      → IsKeyed s db
      → (dispatch_row service now s q e none db).0 ≡ some id
      → offered_row id (dispatch_row service now s q e none db).1 ≡ true
  unfolding dispatch_row hand_over
  row-listed e id db key h = ground (
    arith,
    eq_refl e.id,
    row-offer service now s db key e e.id,
    offer-result service now s db key e,
  )

  offer_row-IsKeyed :
      (e : Execution) (db : Database s)
      → IsKeyed s db
      → IsKeyed s (dispatch_row service now s q e none db).1
  unfolding dispatch_row hand_over
  offer_row-IsKeyed e db key = ground (arith, key, offer-IsKeyed service now s db key e)

  row-queue : (e : Execution) (db : Database s) → (dispatch_row service now s q e none db).2 ≡ none
  unfolding dispatch_row hand_over
  row-queue e db = ground arith

  rows-step :
      (e : Execution) (es : List Execution) (db : Database s)
      → let (mine, db', queue) = dispatch_row service now s q e none db in
        let (ids, db'', queue') = dispatch_rows service now s q es none db' in
        dispatch_rows service now s q (e ∷ es) none db
        ≡ (listed service now s q mine ids, db'', queue')
  unfolding dispatch_rows
  rows-step e es db =
      ap
        (λ x.
          let (ids, db'', queue') =
            dispatch_rows service now s q es x (dispatch_row service now s q e none db).1 in
          (listed service now s q (dispatch_row service now s q e none db).0 ids, db'', queue'))
        (row-queue e db)

  rows-kept :
      (es : List Execution) (id : String) (db : Database s)
      → IsKeyed s db
      → offered_row id db ≡ true
      → offered_row id (dispatch_rows service now s q es none db).1 ≡ true
  rows-kept [] id db key h = unfold dispatch_rows in h
  rows-kept (e ∷ es) id db key h =
      rw (rows-step e es db)
        (rows-kept es id _ (offer_row-IsKeyed e db key) (row-kept e id db key h))

  rows-offered :
      (es : List Execution) (db : Database s)
      → IsKeyed s db
      → all_by
          (λ id. offered_row id (dispatch_rows service now s q es none db).1)
          (dispatch_rows service now s q es none db).0
        ≡ true
  rows-offered [] db key = unfold dispatch_rows in refl
  rows-offered (e ∷ es) db key =
      let after = (dispatch_row service now s q e none db).1 in
      let rest = rows-offered es after (offer_row-IsKeyed e db key) in
      rw (rows-step e es db) (elim (Option-cases (dispatch_row service now s q e none db).0) [
        | inl nothing ↦ rw nothing rest
        | inr (id, mine) ↦ rw mine (
            rw
              (
                rows-kept es id after (offer_row-IsKeyed e db key) (row-listed e id db key mine),
                rest,
              )
              refl)
      ])

  -- Where ids are primary keys and no queue is given, every execution that `dispatch` returns is
  -- queued in the end, under a dispatch lease of 30 seconds.
  pub dispatch-offered :
      (object_id : Option String) (db : Database s)
      → IsKeyed s db
      → let (ids, db', queue) = dispatch service now s q object_id none db in
        all_by (λ id. holds is_offered (row s id db')) ids ≡ true
  unfolding dispatch
  dispatch-offered object_id db key =
      rows-offered _ (recover service now s db).1 (recover_lem service now s db "" key).2
