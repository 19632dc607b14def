-- ===== src/Task/Terminal/Cancel.antt =====
-- `cancelByOwner` of apps/canvas-api/src/task/task-terminal.service.ts.
use xg_canvas.Prelude.{
  ◌==◌, nat_eq, string_eq, if◌then◌else◌, get_or, find?, Uuid, Timestamp, Bool, true, false, ◌&&◌,
  Option, none, some,
}
use xg_canvas.RequestLog.{cancelled as log_cancelled, patch_of, Services, finalize_pending}
use xg_canvas.Task.Status.{Status, pending, queued, running, cancelled, status_eq, is_terminal}
use xg_canvas.Task.Row.{Task}
use xg_canvas.Task.Table.{update_first}
use xg_canvas.Task.World.{World, Outcome, returned, thrown}
use xg_canvas.Task.Projection.{apply_terminal}
use xg_canvas.Task.Terminal.{Reply, value, raised, cancel_vendor_best_effort}

abbrev pub owned_cond : Uuid → Uuid → Task → Bool
owned_cond user id t = t.id == id && t.owner_id == user

abbrev pub is_cancellable : Status → Bool
is_cancellable pending = true
is_cancellable queued = true
is_cancellable running = true
is_cancellable _ = false

abbrev pub cancel_set : Timestamp → Task → Task
cancel_set now t = record t {
  status = cancelled;
  finished_at = some now;
  next_poll_at = none;
  lease_token = none;
  lease_expires_at = none;
  updated_at = now;
}

-- The task after the call, and whether this call made the transition.
abbrev pub CancelOutcome : Type 0
CancelOutcome = Option (Task × Bool)

abbrev pub cancel_log : Services → Timestamp → Option Uuid → Task → World → Outcome CancelOutcome
cancel_log sv now none t w = returned w (some (t, t.status == cancelled))
cancel_log sv now (some request_id) t w =
    if t.status == cancelled
    then (let (logs', finalized) =
          finalize_pending sv now request_id (patch_of log_cancelled none none) w.logs in
        if finalized
        then returned (record w { logs = logs' }) (some (t, true))
        else thrown "pending invoke request log is missing")
    else returned w (some (t, false))

abbrev pub cancel_settle : Services → Timestamp → Task → World → Outcome CancelOutcome
cancel_settle sv now t w = cancel_log sv now t.invoke_request_id t (apply_terminal now t w).0

abbrev pub cancel_locked :
    Services → Timestamp → Uuid → Uuid → Option Task → World → Outcome CancelOutcome
cancel_locked sv now user id none w = returned w none
cancel_locked sv now user id (some current) w =
    if is_terminal current.status
    then returned w (some (current, false))
    else (let (tasks', updated) =
          update_first (λ t. owned_cond user id t && is_cancellable t.status) (cancel_set now)
            w.tasks in
        cancel_settle sv now (get_or updated current) (record w { tasks = tasks' }))

unfoldable pub cancel_transaction :
    Services → Timestamp → Uuid → Uuid → World → Outcome CancelOutcome
cancel_transaction sv now user id w =
    cancel_locked sv now user id (find? (owned_cond user id) w.tasks) w

abbrev pub cancel_end : World → Outcome CancelOutcome → World × Reply (Option Task)
cancel_end w (returned w' none) = (w', value none)
cancel_end w (returned w' (some (t, transitioned))) =
    (if transitioned then cancel_vendor_best_effort t w' else w', value (some t))
cancel_end w (thrown e) = (w, raised e)

unfoldable pub cancel_by_owner :
    Services → Timestamp → Uuid → Uuid → World → World × Reply (Option Task)
cancel_by_owner sv now user id w = cancel_end w (cancel_transaction sv now user id w)
