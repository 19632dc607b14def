-- ===== src/Task/RecoveryTests.antt =====
-- The periodic reconcilers at concrete rows (apps/canvas-api/src/request-log and
-- apps/canvas-api/src/task/task-invoke-recovery.service.ts).
use xg_canvas.Prelude.{
  string_eq, nat_eq, any, select, Timestamp, ℕ, ◌≡◌, refl, true, false, none, some, [], ◌∷◌, arith,
}
use xg_canvas.RequestLog.{LogStatus, cancelled, RequestLog, Ledger, finalize_pending}
use xg_canvas.RequestLog.Reconciler.{
  default_task_grace_ms, default_detached_grace_ms, is_stale, candidate_of, finalize_candidates,
  reconcile_once,
}
use xg_canvas.RequestLog.Reconciler.Settled.{reconcile_once-settles}
use xg_canvas.RequestLog.Reconciler.Kept.{is_safe, finalize_candidates-keeps}
use xg_canvas.Task.Row.{Task}
use xg_canvas.Task.Table.{update_where, update_first, find_by_id}
use xg_canvas.Task.World.{cancel_vendor, World}
use xg_canvas.Task.Status.{cancelled, status_eq}
use xg_canvas.Task.Store.{attach_recovered_without_lease}
use xg_canvas.Task.Samples.{prepared, plain_services, world_of, open_log}
use xg_canvas.Task.Recovery.{compensate}
use xg_canvas.Task.Recovery.Orphans.{
  AcceptedInvokeOrphan, list_accepted_invoke_orphans, reconcile_orphan,
}
use xg_canvas.Task.Recovery.Abandoned.{default_abandon_ms, run_recovery}
use xg_canvas.Task.Recovery.Repaired.{SparesCarried, IsResolved, reconcile_orphan-resolves}
use xg_canvas.Task.Recovery.Leased.{is_leased, run_recovery-keeps_leased}

-- A row of a poll whose task is gone, and two hours later.
abbrev poll_log : RequestLog
poll_log = record open_log { id = 600; source = "poll"; task_id = none }

abbrev two_hours_on : Timestamp
two_hours_on = 7201000

-- The same of an invocation: the query never finds it, since its comparison with NULL is not true.
abbrev detached_log : RequestLog
detached_log = record open_log { task_id = none }

abbrev pass : Ledger → Ledger × ℕ
pass =
    reconcile_once plain_services two_hours_on default_task_grace_ms default_detached_grace_ms 100
      []

poll_log_closes : (pass (poll_log ∷ [])).1 ≡ 1
unfolding reconcile_once finalize_pending
poll_log_closes = refl

detached_log_stays : pass (detached_log ∷ []) ≡ (detached_log ∷ [], 0)
unfolding reconcile_once
detached_log_stays = refl

reconcile_once-settles_example :
    any
      (is_stale two_hours_on default_task_grace_ms default_detached_grace_ms [])
      (pass (poll_log ∷ detached_log ∷ [])).0
    ≡ false
reconcile_once-settles_example =
    reconcile_once-settles plain_services two_hours_on default_task_grace_ms
      default_detached_grace_ms [] 100 (poll_log ∷ detached_log ∷ []) (omega arith)

-- The row of the prepared task, accepted by the vendor.
abbrev accepted_log : RequestLog
accepted_log = record open_log {
  response_body = some (record { external_task_id = some "job"; rest = "{}" });
}

finalize_candidates-keeps_example :
    select
      (is_safe (candidate_of [] open_log ∷ []))
      (finalize_candidates plain_services 9000
        (candidate_of [] open_log ∷ [])
        (accepted_log ∷ [])).0
    ≡ accepted_log ∷ []
unfolding find_by_id
finalize_candidates-keeps_example =
    finalize_candidates-keeps plain_services 9000 (candidate_of [] open_log ∷ [])
      (accepted_log ∷ [])

abbrev waiting : Task
waiting = record prepared { lease_expires_at = some 2000 }

abbrev orphan_world : World
orphan_world = record (world_of (waiting ∷ [])) { logs = accepted_log ∷ [] }

abbrev orphan : AcceptedInvokeOrphan
orphan = record {
  attempt = record {
    id = 500;
    logical_request_id = 900;
    attempt_no = 1;
    status = LogStatus.pending;
    task_id = 1;
    channel_resource_uid = 90;
    channel_revision_id = 91;
    channel_route = "route";
    credential_id = 92;
    external_task_id = some "job";
    error_code = none;
    error_message = none;
    created_at = 1000;
  };
  external_task_id = "job";
  task = some waiting;
}

lists_orphan : list_accepted_invoke_orphans 100 orphan_world.tasks orphan_world.logs ≡ orphan ∷ []
unfolding list_accepted_invoke_orphans find_by_id
lists_orphan = refl

-- The lost task takes the job over, and the row stays open for the poller.
attaches_orphan : (reconcile_orphan plain_services (λ id. true) 3000 orphan orphan_world).1 ≡ true
unfolding reconcile_orphan attach_recovered_without_lease update_first update_where
attaches_orphan = refl

-- The job of a cancelled task is cancelled.
compensates_orphan :
    (reconcile_orphan plain_services
      (λ id. true)
      3000
      (record orphan { task = some (record waiting { status = cancelled }) })
      (record orphan_world { tasks = record waiting { status = cancelled } ∷ [] })).0.sent
    ≡ cancel_vendor 1 "job" ∷ []
unfolding reconcile_orphan compensate
compensates_orphan = refl

orphan_fresh : orphan.task ≡ find_by_id 1 orphan_world.tasks
unfolding find_by_id
orphan_fresh = refl

reconcile_orphan-resolves_example :
    let (w', repaired) = reconcile_orphan plain_services (λ id. true) 3000 orphan orphan_world in
    SparesCarried orphan orphan_world w' × (repaired ≡ true → IsResolved orphan w')
reconcile_orphan-resolves_example =
    reconcile_orphan-resolves plain_services (λ id. true) 3000 orphan orphan_world orphan_fresh

run_recovery-keeps_leased_example :
    select
      (is_leased 1500)
      (run_recovery plain_services (λ id. true) 1500 default_abandon_ms 100 orphan_world).0.tasks
    ≡ waiting ∷ []
run_recovery-keeps_leased_example =
    run_recovery-keeps_leased plain_services (λ id. true) 1500 default_abandon_ms 100 orphan_world
