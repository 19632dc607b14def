-- ===== src/Task/Recovery/Abandoned.antt =====
-- The periodic closing of attempts whose outcome stayed unknown (`reconcileAbandonedUnknowns` in
-- apps/canvas-api/src/task/task-invoke-recovery.service.ts, with the query
-- `listAbandonedUnknownInvokes` of apps/canvas-api/src/request-log/request-log.service.ts).
use xg_canvas.Task.World.{World}
use xg_canvas.Prelude.{
  ltb, leb, if◌then◌else◌, string_eq, nat_eq, ◌==◌, is_none, take, select, Uuid, Timestamp, sort_by,
  ℕ, ◌+◌, ◌*◌, Bool, true, false, ◌&&◌, none, some, List, [], ◌∷◌,
}
use xg_canvas.RequestLog.{
  LogStatus, cancelled, RequestLog, Ledger, FinalizePatch, patch_of, Services, accepted_id,
  finalize_pending_without_external,
}
use xg_canvas.RequestLog.Queries.{RecoveryAttempt, complete_attempt, keep_some}
use xg_canvas.RequestLog.Reconciler.{joined_task, clamp_limit}
use xg_canvas.Task.Status.{failed, cancelled, status_eq}
use xg_canvas.Task.Row.{Task, Table}
use xg_canvas.Task.Recovery.{is_uuid}
use xg_canvas.Task.Recovery.Orphans.{reconcile_accepted_orphans, is_pending_attempt, attempt_of}

abbrev pub default_abandon_ms : ℕ
default_abandon_ms = 60 * 60000

-- `t.status = 'cancelled' OR t.error->>'code' = 'INVOKE_OUTCOME_UNKNOWN'`, of an ended task.
abbrev pub gave_up : Task → Bool
gave_up t = elim t.status [
  | cancelled ↦ true
  | failed ↦ elim t.error [ none ↦ false | some e ↦ e.code == "INVOKE_OUTCOME_UNKNOWN" ]
  | _ ↦ false
]

abbrev pub is_abandoned : Timestamp → ℕ → Table → RequestLog → Bool
is_abandoned now abandon_ms ts r =
    is_pending_attempt r
    && is_none (accepted_id r)
    && ltb (r.created_at + abandon_ms) now
    && (elim (joined_task ts r) [
      | none ↦ false
      | some t ↦ gave_up t && (elim r.logical_request_id [
        | none ↦ false
        | some logical ↦ is_uuid t.invoke_logical_request_id logical
      ])
    ])

unfoldable pub list_abandoned_unknown_invokes :
    Timestamp → ℕ → ℕ → Table → Ledger → List RecoveryAttempt
unfolding keep_some sort_by complete_attempt
list_abandoned_unknown_invokes now abandon_ms limit ts rs = keep_some attempt_of (
    take (clamp_limit limit)
      (sort_by (λ a b. leb a.created_at b.created_at) (select (is_abandoned now abandon_ms ts) rs)))

abbrev pub abandoned_patch : FinalizePatch
abandoned_patch =
    patch_of LogStatus.timeout (some "INVOKE_OUTCOME_ABANDONED")
      (some "Unknown vendor outcome was abandoned after the safety window")

unfoldable pub abandon_all : Services → Timestamp → List RecoveryAttempt → Ledger → Ledger × ℕ
abandon_all sv now [] rs = (rs, 0)
abandon_all sv now (a ∷ rest) rs =
    let (rs', hit) = finalize_pending_without_external sv now a.id abandoned_patch rs in
    let (rs'', n) = abandon_all sv now rest rs' in (rs'', if hit then n + 1 else n)

unfoldable pub reconcile_abandoned_unknowns :
    Services → Timestamp → ℕ → ℕ → Table → Ledger → Ledger × ℕ
unfolding list_abandoned_unknown_invokes abandon_all
reconcile_abandoned_unknowns sv now abandon_ms limit ts rs =
    abandon_all sv now (list_abandoned_unknown_invokes now abandon_ms limit ts rs) rs

-- One tick of the service (`runGuarded`): how many orphans were repaired, and how many attempts of
-- unknown outcome were abandoned.
unfoldable pub run_recovery : Services → (Uuid → Bool) → Timestamp → ℕ → ℕ → World → World × ℕ × ℕ
unfolding reconcile_accepted_orphans reconcile_abandoned_unknowns
run_recovery sv cancel_accepted now abandon_ms limit w =
    let (w', repaired) = reconcile_accepted_orphans sv cancel_accepted now limit w in
    let (logs', abandoned) =
      reconcile_abandoned_unknowns sv now abandon_ms limit w'.tasks w'.logs in
    (record w' { logs = logs' }, repaired, abandoned)
