-- ===== src/Task/Recovery/Leased.antt =====
-- What a tick of the recovery service leaves alone
-- (apps/canvas-api/src/task/task-invoke-recovery.service.ts).
use xg_canvas.Prelude.{
  string_eq, nat_eq, is_some, is_none, select, Uuid, Timestamp, ℕ, String, ◌≡◌, refl, ◌∙◌, Bool,
  true, false, not, ◌&&◌, Option, none, some, List, [], ◌∷◌, arith,
}
use xg_canvas.RequestLog.{
  Ledger, Services, accepted_id, is_open, finalize_unknown_set, finalize_pending_without_external,
}
use xg_canvas.RequestLog.Queries.{RecoveryAttempt}
use xg_canvas.RequestLog.Reconciler.Kept.{update_log-select}
use xg_canvas.Task.Row.{Task, Table, is_lease_free}
use xg_canvas.Task.Table.{update_where, update_first}
use xg_canvas.Task.Store.{attach_cond, attach_set, attach_recovered_without_lease}
use xg_canvas.Task.World.{World}
use xg_canvas.Task.Recovery.{correlation, compensate}
use xg_canvas.Task.Recovery.Orphans.{
  AcceptedInvokeOrphan, list_accepted_invoke_orphans, finalize_attached_terminal, compensate_orphan,
  attach_orphan, attach_or_compensate, reconcile_orphan, reconcile_orphans,
  reconcile_accepted_orphans,
}
use xg_canvas.Task.Recovery.Abandoned.{abandoned_patch, abandon_all, run_recovery}

-- A worker holds the row, and its lease has not run out.
abbrev pub is_leased : Timestamp → Task → Bool
is_leased now t = not (is_lease_free t now)

update_where-select :
    (cond : Task → Bool) (set : Task → Task) (keep : Task → Bool)
    → ((t : Task) → cond t ≡ true → (keep t ≡ false) × (keep (set t) ≡ false))
    → (ts : Table) → select keep (update_where cond set ts).0 ≡ select keep ts
unfolding update_where
update_where-select cond set keep h [] = refl
update_where-select cond set keep h (t ∷ ts) =
    ground (arith, h t, update_where-select cond set keep h ts)

absent_some : (v : Option String) (a : Bool) → (a && is_none v) ≡ true → is_some v ≡ false
absent_some none a h = refl
absent_some (some x) a h = ground arith

module _ (sv : Services) (cancel_accepted : Uuid → Bool) (now : Timestamp) where
  abbrev held : World → Table
  held w = select (is_leased now) w.tasks

  attach_orphan-held :
      (o : AcceptedInvokeOrphan) (w : World) → held (attach_orphan now o w).0 ≡ held w
  unfolding attach_recovered_without_lease update_first
  attach_orphan-held o w =
      update_where-select (attach_cond now o.attempt.task_id o.attempt.logical_request_id)
        (attach_set now (correlation now o.attempt o.external_task_id)) (is_leased now)
        (λ t h. ground arith) w.tasks

  compensate-held :
      (o : AcceptedInvokeOrphan) (w : World)
      → (compensate_orphan sv cancel_accepted now o w).0.tasks ≡ w.tasks
  unfolding compensate
  compensate-held o w = ground arith

  finalize_attached-held :
      (o : AcceptedInvokeOrphan) (w : World)
      → (finalize_attached_terminal sv now o w).0.tasks ≡ w.tasks
  unfolding finalize_attached_terminal
  finalize_attached-held o w = ground arith

  attach_or_compensate-held :
      (o : AcceptedInvokeOrphan) (w : World)
      → held (attach_or_compensate sv cancel_accepted now o w).0 ≡ held w
  unfolding attach_or_compensate
  attach_or_compensate-held o w =
      ground (arith, attach_orphan-held o w, compensate-held o (attach_orphan now o w).0)

  reconcile_orphan-held :
      (o : AcceptedInvokeOrphan) (w : World)
      → held (reconcile_orphan sv cancel_accepted now o w).0 ≡ held w
  unfolding reconcile_orphan
  reconcile_orphan-held o w =
      ground (arith, finalize_attached-held o w, attach_or_compensate-held o w, compensate-held o w)

  reconcile_orphans-held :
      (os : List AcceptedInvokeOrphan) (w : World)
      → held (reconcile_orphans sv cancel_accepted now os w).0 ≡ held w
  unfolding reconcile_orphans
  reconcile_orphans-held [] w = refl
  reconcile_orphans-held (o ∷ os) w =
      reconcile_orphans-held os (reconcile_orphan sv cancel_accepted now o w).0
      ∙ reconcile_orphan-held o w

  -- Abandoning attempts, whichever they are, leaves each ledger row that the vendor accepted.
  abandon_all-select :
      (attempts : List RecoveryAttempt) (rs : Ledger)
      → select (λ r. is_some (accepted_id r)) (abandon_all sv now attempts rs).0
        ≡ select (λ r. is_some (accepted_id r)) rs
  unfolding abandon_all finalize_pending_without_external
  abandon_all-select [] rs = refl
  abandon_all-select (a ∷ rest) rs =
      abandon_all-select rest (finalize_pending_without_external sv now a.id abandoned_patch rs).0
      ∙ update_log-select (λ r. is_open a.id r && is_none (accepted_id r))
          (finalize_unknown_set sv now abandoned_patch) (λ r. is_some (accepted_id r))
          (λ r h. (
            absent_some (accepted_id r) (is_open a.id r) h,
            absent_some (accepted_id r) (is_open a.id r) h,
          ))
          rs

  -- A tick of the recovery leaves every task row that a worker holds under an unexpired lease as it
  -- is, in order.
  pub run_recovery-keeps_leased :
      (abandon_ms limit : ℕ) (w : World)
      → select (is_leased now) (run_recovery sv cancel_accepted now abandon_ms limit w).0.tasks
        ≡ select (is_leased now) w.tasks
  unfolding run_recovery reconcile_accepted_orphans
  run_recovery-keeps_leased abandon_ms limit w =
      reconcile_orphans-held (list_accepted_invoke_orphans limit w.tasks w.logs) w
