-- ===== src/Task/Recovery/Orphans.antt =====
-- The periodic repair of attempts that the vendor accepted and no task carries
-- (`reconcileAcceptedOrphans` and its helpers in
-- apps/canvas-api/src/task/task-invoke-recovery.service.ts, with the query
-- `listAcceptedInvokeOrphans` of
-- apps/canvas-api/src/request-log/request-log.service.ts). A pass reads its rows at one moment, and
-- `now` stands for each reading of the clock in it.
use xg_canvas.Prelude.{
  ltb, if◌then◌else◌, string_eq, nat_eq, ◌==◌, is_some, is_none, take, select, Uuid, Timestamp,
  sort_by, ℕ, ◌+◌, String, Bool, true, false, ◌&&◌, ◌||◌, Option, none, some, List, [], ◌∷◌,
}
use xg_canvas.RequestLog.{
  LogStatus, cancelled, is_pending, RequestLog, Ledger, FinalizePatch, patch_of, Services,
  non_blank, accepted_id, finalize_pending,
}
use xg_canvas.RequestLog.Queries.{RecoveryAttempt, complete_attempt, keep_some, later_attempt}
use xg_canvas.RequestLog.Reconciler.{joined_task, clamp_limit}
use xg_canvas.Task.Status.{succeeded, failed, cancelled, status_eq}
use xg_canvas.Task.Row.{Task, Table, is_due, is_in_flight}
use xg_canvas.Task.Table.{find_by_id}
use xg_canvas.Task.Store.{attach_recovered_without_lease}
use xg_canvas.Task.World.{World}
use xg_canvas.Task.Recovery.{correlation, is_text, is_uuid, same_correlation, compensate}

-- An attempt, the vendor's id of its job, and the task columns of the join.
pub record AcceptedInvokeOrphan : Type 0 where
  pub attempt : RecoveryAttempt
  pub external_task_id : String
  pub task : Option Task

-- NULL comes last.
abbrev pub logical_before : Option Uuid → Option Uuid → Bool
logical_before none b = false
logical_before (some a) none = true
logical_before (some a) (some b) = ltb a b

abbrev pub same_logical : Option Uuid → Option Uuid → Bool
same_logical none b = is_none b
same_logical (some a) b = is_uuid b a

-- `ORDER BY r.logical_request_id, r.attempt_no DESC, r.created_at DESC`.
abbrev pub orphan_before : RequestLog → RequestLog → Bool
orphan_before a b =
    logical_before a.logical_request_id b.logical_request_id
    || (same_logical a.logical_request_id b.logical_request_id && later_attempt a b)

abbrev pub is_pending_attempt : RequestLog → Bool
is_pending_attempt r = r.source == "invoke" && is_pending r.status && is_some r.attempt_no

-- `isCompleteRecoveryAttempt` of a row with its task and its logical request.
abbrev pub attempt_of : RequestLog → Option RecoveryAttempt
attempt_of r = elim r.task_id [
  | none ↦ none
  | some task ↦ elim r.logical_request_id [
    | none ↦ none
    | some logical ↦ complete_attempt task logical r
  ]
]

abbrev pub orphan_of : Table → RequestLog → Option AcceptedInvokeOrphan
orphan_of ts r = elim (attempt_of r) [
  | none ↦ none
  | some a ↦ elim a.external_task_id [
    | none ↦ none
    | some external ↦
        some (record { attempt = a; external_task_id = external; task = joined_task ts r })
  ]
]

unfoldable pub list_accepted_invoke_orphans : ℕ → Table → Ledger → List AcceptedInvokeOrphan
unfolding keep_some sort_by complete_attempt
list_accepted_invoke_orphans limit ts rs = keep_some (orphan_of ts) (
    take (clamp_limit limit)
      (sort_by orphan_before (select (λ r. is_pending_attempt r && is_some (accepted_id r)) rs)))

abbrev pub same_raw_correlation : AcceptedInvokeOrphan → Bool
same_raw_correlation o = elim o.task [
  | none ↦ false
  | some t ↦
      is_uuid t.invoke_request_id o.attempt.id && is_text t.external_task_id o.external_task_id
]

abbrev pub same_vendor_job : AcceptedInvokeOrphan → Bool
same_vendor_job o = elim o.task [
  | none ↦ false
  | some t ↦
      is_text t.external_task_id o.external_task_id
      && is_uuid t.channel_resource_uid o.attempt.channel_resource_uid
      && is_uuid t.channel_revision_id o.attempt.channel_revision_id
      && is_uuid t.credential_id o.attempt.credential_id
]

-- The task is in flight for the logical request of the attempt, without a vendor job.
abbrev pub awaits : AcceptedInvokeOrphan → Task → Bool
awaits o t =
    is_uuid t.invoke_logical_request_id o.attempt.logical_request_id
    && is_none (non_blank t.external_task_id)
    && is_in_flight t.status

abbrev pub can_attach : Timestamp → AcceptedInvokeOrphan → Bool
can_attach now o = elim o.task [
  | none ↦ false
  | some t ↦ awaits o t && is_due t.lease_expires_at now
]

abbrev pub has_active_owner : Timestamp → AcceptedInvokeOrphan → Bool
has_active_owner now o = elim o.task [
  | none ↦ false
  | some t ↦ awaits o t && (elim t.lease_expires_at [ none ↦ false | some at ↦ ltb now at ])
]

-- The patch that a terminal task gives the row it carries.
abbrev pub attached_patch : Task → Option FinalizePatch
attached_patch t = elim t.status [
  | succeeded ↦ some (patch_of LogStatus.success none none)
  | cancelled ↦ some (patch_of LogStatus.cancelled none none)
  | failed ↦ some (
      patch_of LogStatus.error (some (elim t.error [ none ↦ "TASK_FAILED" | some e ↦ e.code ])) (
        some (elim t.error [
          | none ↦ "Task failed before invoke log finalization"
          | some e ↦ e.message
        ])))
  | _ ↦ none
]

-- A finalization in the world.
abbrev pub close_log : Services → Timestamp → Uuid → FinalizePatch → World → World × Bool
close_log sv now id patch w =
    let (logs', hit) = finalize_pending sv now id patch w.logs in (record w { logs = logs' }, hit)

abbrev pub close_with : Services → Timestamp → Uuid → Option FinalizePatch → World → World × Bool
close_with sv now id none w = (w, false)
close_with sv now id (some patch) w = close_log sv now id patch w

unfoldable pub finalize_attached_terminal :
    Services → Timestamp → AcceptedInvokeOrphan → World → World × Bool
finalize_attached_terminal sv now o w = elim o.task [
  | none ↦ (w, false)
  | some t ↦ close_with sv now o.attempt.id (attached_patch t) w
]

abbrev pub duplicate_patch : FinalizePatch
duplicate_patch =
    patch_of LogStatus.cancelled (some "DUPLICATE_INVOKE_CORRELATION")
      (some "Duplicate ledger row resolved to the already-attached vendor job")

abbrev pub compensate_orphan :
    Services → (Uuid → Bool) → Timestamp → AcceptedInvokeOrphan → World → World × Bool
compensate_orphan sv cancel_accepted now o =
    compensate sv cancel_accepted now o.attempt o.external_task_id

abbrev pub attach_orphan : Timestamp → AcceptedInvokeOrphan → World → World × Bool
attach_orphan now o w =
    let (tasks', attached) =
      attach_recovered_without_lease now o.attempt.task_id o.attempt.logical_request_id
        (correlation now o.attempt o.external_task_id) w.tasks in
    (record w { tasks = tasks' }, attached)

-- The task is attached to the job; where that fails and the task does not carry the job, the job is
-- cancelled.
unfoldable pub attach_or_compensate :
    Services → (Uuid → Bool) → Timestamp → AcceptedInvokeOrphan → World → World × Bool
attach_or_compensate sv cancel_accepted now o w =
    let (w', attached) = attach_orphan now o w in
    if attached
    then (w', true)
    else if same_correlation (find_by_id o.attempt.task_id w'.tasks) o.attempt o.external_task_id
    then (w', false)
    else compensate_orphan sv cancel_accepted now o w'

-- One row of the pass: whether it was repaired.
unfoldable pub reconcile_orphan :
    Services → (Uuid → Bool) → Timestamp → AcceptedInvokeOrphan → World → World × Bool
unfolding finalize_attached_terminal attach_or_compensate
reconcile_orphan sv cancel_accepted now o w =
    if same_raw_correlation o
    then finalize_attached_terminal sv now o w
    else if same_vendor_job o
    then close_log sv now o.attempt.id duplicate_patch w
    else if has_active_owner now o
    then (w, false)
    else if can_attach now o
    then attach_or_compensate sv cancel_accepted now o w
    else compensate_orphan sv cancel_accepted now o w

unfoldable pub reconcile_orphans :
    Services → (Uuid → Bool) → Timestamp → List AcceptedInvokeOrphan → World → World × ℕ
unfolding reconcile_orphan
reconcile_orphans sv cancel_accepted now [] w = (w, 0)
reconcile_orphans sv cancel_accepted now (o ∷ os) w =
    let (w', hit) = reconcile_orphan sv cancel_accepted now o w in
    let (rest, n) = reconcile_orphans sv cancel_accepted now os w' in
    (rest, if hit then n + 1 else n)

unfoldable pub reconcile_accepted_orphans :
    Services → (Uuid → Bool) → Timestamp → ℕ → World → World × ℕ
unfolding list_accepted_invoke_orphans reconcile_orphans
reconcile_accepted_orphans sv cancel_accepted now limit w =
    reconcile_orphans sv cancel_accepted now (list_accepted_invoke_orphans limit w.tasks w.logs) w
