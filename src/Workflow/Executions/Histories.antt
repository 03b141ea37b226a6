-- ===== src/Workflow/Executions/Histories.antt =====
-- Histories of the execution service: any interleaving of claims, heartbeats, reports and recovery
-- scans of any workers, as a list of events with their times.
use excelflow.Prelude.{
  ℕ, ◌≡◌, inl, inr, Bool, true, ◌&&◌, Option, some, List, [], ◌∷◌, String, arith, str_eq, eq_iff,
  Option-cases, if◌then◌else◌,
}
use excelflow.Workflow.{Execution, Schema, Database, is_waiting}
use excelflow.Workflow.Capacity.{Limits}
use excelflow.Workflow.Leasing.{
  Service, Failure, leased_to, renewed, finished, lost, still_queued, prolonged, offerable, offered,
}
use excelflow.Workflow.Executions.{claim, heartbeat, finish, recover, prolong, offer}
use excelflow.Workflow.Executions.Effects.{
  row-prolong, prolong-IsKeyed, row-offer, offer-IsKeyed, row, object, IsKeyed, row-heartbeat,
  heartbeat-IsKeyed,
}
use excelflow.Workflow.Executions.Claims.{
  outcome, blocked, claim-outcome, claim_missing, claim-IsKeyed,
}
use excelflow.Workflow.Executions.Finishing.{row-finish, finish-IsKeyed}
use excelflow.Workflow.Executions.Recovery.{restore, recover_lem}

pub data Event : Type 0 where
  claims : String → String → String → Event
  heartbeats : Execution → Event
  finishes : Execution → Option Failure → Bool → Event
  recovers : Event
  prolongs : Execution → Event
  offers : (read : Execution) → is_waiting read.status ≡ true → Event

pub record Timed : Type 0 where
  pub now : ℕ
  pub event : Event

module _ (service : Service) (limits : Limits) (s : Schema) where
  unfoldable pub perform : ℕ → Event → Database s → Database s
  perform now (claims id token worker) db = (claim service now s limits id token worker db).1
  perform now (heartbeats held) db = (heartbeat service now s held db).1
  perform now (finishes held error retryable) db = finish service now s held error retryable db
  perform now (prolongs read) db = prolong service now s read db
  perform now (offers read waits) db = (offer service now s read db).1
  perform now recovers db = (recover service now s db).1

  unfoldable pub run : List Timed → Database s → Database s
  run [] db = db
  run (e ∷ es) db = run es (perform e.now e.event db)

  pub perform-IsKeyed :
      (now : ℕ) (event : Event) (db : Database s) → IsKeyed s db → IsKeyed s (perform now event db)
  unfolding perform
  perform-IsKeyed now (claims id token worker) db key =
      claim-IsKeyed service now s limits token worker db key id
  perform-IsKeyed now (heartbeats held) db key = heartbeat-IsKeyed service now s db key held
  perform-IsKeyed now (finishes held error retryable) db key =
      finish-IsKeyed service now s db key held error retryable
  perform-IsKeyed now (prolongs read) db key = prolong-IsKeyed service now s db key read
  perform-IsKeyed now (offers read waits) db key = offer-IsKeyed service now s db key read
  perform-IsKeyed now recovers db key = (recover_lem service now s db "" key).2

  module _ (db : Database s) (key : IsKeyed s db) (j : String) where
    -- what an event makes of the row `e` of execution `j`
    abbrev pub next : ℕ → Event → Execution → Execution
    next now (claims id token worker) e =
        if str_eq j id
        then (outcome service now token worker (object s e.object_id db)
            (blocked service now s limits token worker db key e) e).1
        else e
    next now (heartbeats held) e =
        if str_eq j held.id && leased_to service now held.token e then renewed service now e else e
    next now (finishes held error retryable) e =
        if str_eq j held.id && leased_to service now held.token e
        then finished service now held error retryable e
        else e
    next now (prolongs read) e =
        if str_eq j read.id && still_queued service now read e then prolonged service now e else e
    next now (offers read waits) e =
        if str_eq j read.id && offerable service now read e then offered service now e else e
    next now recovers e = if lost service now e then restore service now e else e

    row-claims :
        (now : ℕ) (id token worker : String) (e : Execution)
        → row s j db ≡ some e
        → row s j (perform now (claims id token worker) db)
          ≡ some (next now (claims id token worker) e)
    unfolding perform
    row-claims now id token worker e found = elim (Option-cases (row s id db)) [
      | inl missing ↦
          ground (arith, eq_iff j id, claim_missing service now s limits token worker db key id)
      | inr (c, there) ↦ ground (
        arith,
        eq_iff j id,
        (claim-outcome service now s limits token worker db key id j there).1,
      )
    ]

    pub row-perform :
        (now : ℕ) (event : Event) (e : Execution)
        → row s j db ≡ some e
        → row s j (perform now event db) ≡ some (next now event e)
    unfolding perform
    row-perform now (claims id token worker) e found = row-claims now id token worker e found
    row-perform now (heartbeats held) e found =
        ground (arith, row-heartbeat service now s db key held j)
    row-perform now (finishes held error retryable) e found =
        ground (arith, row-finish service now s db key held error retryable j)
    row-perform now (prolongs read) e found =
        ground (arith, row-prolong service now s db key read j)
    row-perform now (offers read waits) e found =
        ground (arith, row-offer service now s db key read j)
    row-perform now recovers e found = ground (arith, (recover_lem service now s db j key).0)
