-- ===== src/Task/Recovery.antt =====
-- The recovery of an attempt whose worker was lost (`recoverClaimed` and its helpers in
-- apps/canvas-api/src/task/task-invoke-recovery.service.ts, with the ledger queries of
-- apps/canvas-api/src/request-log/request-log.service.ts).
pub mod Orphans
pub mod Abandoned
pub mod Repaired
pub mod Leased
use xg_canvas.Prelude.{
  leb, ◌==◌, nat_eq, string_eq, if◌then◌else◌, get_or, head?, Uuid, Timestamp, ℕ, ◌+◌, ◌-◌, ◌*◌,
  String, Bool, true, false, ◌&&◌, Option, none, some, List, [], ◌∷◌,
}
use xg_canvas.RequestLog.{LogStatus, success, patch_of, Services, finalize_pending}
use xg_canvas.RequestLog.Queries.{
  RecoveryAttempt, PreflightFailure, list_recovery_attempts, find_preflight_failure,
  is_open_attempt, find_accepted,
}
use xg_canvas.Task.Row.{Task}
use xg_canvas.Task.Table.{find_by_id}
use xg_canvas.Task.Store.{ExternalTaskCorrelation, save_external_result, defer_invoke_recovery}
use xg_canvas.Task.World.{cancel_vendor, World, send}

pub data ClaimedInvokeRecovery : Type 0 where
  recovered deferred : ClaimedInvokeRecovery
  recovery_failed : String → String → ClaimedInvokeRecovery

abbrev pub default_unknown_timeout_ms : ℕ
default_unknown_timeout_ms = 5 * 60000

abbrev pub default_defer_ms : ℕ
default_defer_ms = 5000

abbrev pub correlation : Timestamp → RecoveryAttempt → String → ExternalTaskCorrelation
correlation now a external = record {
  external_task_id = external;
  invoke_request_id = a.id;
  invoke_logical_request_id = a.logical_request_id;
  channel_resource_uid = a.channel_resource_uid;
  channel_revision_id = a.channel_revision_id;
  channel_route = a.channel_route;
  credential_id = a.credential_id;
  next_poll_at = now;
}

abbrev pub is_text : Option String → String → Bool
is_text none s = false
is_text (some x) s = x == s

abbrev pub is_uuid : Option Uuid → Uuid → Bool
is_uuid none id = false
is_uuid (some x) id = x == id

-- The task already carries the attempt.
abbrev pub same_correlation : Option Task → RecoveryAttempt → String → Bool
same_correlation none a external = false
same_correlation (some t) a external =
    is_text t.external_task_id external
    && is_uuid t.channel_resource_uid a.channel_resource_uid
    && is_uuid t.channel_revision_id a.channel_revision_id
    && is_uuid t.credential_id a.credential_id

abbrev pub recovery_expired : Timestamp → Option Timestamp → ℕ → Bool
recovery_expired now none timeout_ms = true
recovery_expired now (some prepared_at) timeout_ms = leb timeout_ms (now - prepared_at)

-- The vendor job of an attempt is cancelled, and its row closed if the vendor accepts that.
unfoldable pub compensate :
    Services → (Uuid → Bool) → Timestamp → RecoveryAttempt → String → World → World × Bool
compensate sv cancel_accepted now a external w =
    let w' = send (cancel_vendor a.task_id external ∷ []) w in
    if cancel_accepted a.id
    then (let (logs', done) =
          finalize_pending sv now a.id (patch_of LogStatus.cancelled none none) w'.logs in
        (record w' { logs = logs' }, done))
    else (w', false)

-- The failure that a terminal row of the ledger stands for.
abbrev pub terminal_failure : LogStatus → RecoveryAttempt → ClaimedInvokeRecovery
terminal_failure success a =
    recovery_failed "INVOKE_RESULT_LOST"
      "Vendor request succeeded but its synchronous result was not committed to the Task"
terminal_failure _ a =
    recovery_failed (get_or a.error_code "VENDOR_REJECTED")
      (get_or a.error_message "Vendor request ended before Task state was committed")

abbrev pub recover_accepted :
    Services
    → (Uuid → Bool)
    → Timestamp
    → Uuid
    → Uuid
    → RecoveryAttempt
    → String
    → World
    → World × ClaimedInvokeRecovery
recover_accepted sv cancel_accepted now id token a external w =
    let (tasks', attached) =
      save_external_result now id token (correlation now a external) w.tasks in
    let w' = record w { tasks = tasks' } in
    if attached
    then (w', recovered)
    else if same_correlation (find_by_id id w'.tasks) a external
    then (w', recovered)
    else ((compensate sv cancel_accepted now a external w').0, deferred)

abbrev pub recover_unknown :
    Timestamp → ℕ → Task → Uuid → Option PreflightFailure → World → World × ClaimedInvokeRecovery
recover_unknown now timeout_ms t token (some f) w = (
  w,
  recovery_failed (get_or f.error_code "VENDOR_REJECTED")
      (get_or f.error_message "Invoke preflight failed before Task state was committed"),
)
recover_unknown now timeout_ms t token none w =
    if recovery_expired now t.invoke_prepared_at timeout_ms
    then (
      w,
      recovery_failed "INVOKE_OUTCOME_UNKNOWN"
          "Vendor dispatch outcome remained unknown after the recovery timeout",
    )
    else (
      record w {
        tasks = (defer_invoke_recovery now t.id token (now + default_defer_ms) w.tasks).0;
      },
      deferred,
    )

abbrev pub recover_rest :
    Timestamp
    → ℕ
    → Task
    → Uuid
    → Uuid
    → Option RecoveryAttempt
    → World
    → World × ClaimedInvokeRecovery
recover_rest now timeout_ms t token logical (some a) w =
    if is_open_attempt a
    then recover_unknown now timeout_ms t token (find_preflight_failure t.id logical w.logs) w
    else (w, terminal_failure a.status a)
recover_rest now timeout_ms t token logical none w =
    recover_unknown now timeout_ms t token (find_preflight_failure t.id logical w.logs) w

abbrev pub recover_attempts :
    Services
    → (Uuid → Bool)
    → Timestamp
    → ℕ
    → Task
    → Uuid
    → Uuid
    → List RecoveryAttempt
    → World
    → World × ClaimedInvokeRecovery
recover_attempts sv cancel_accepted now timeout_ms t token logical attempts w =
    elim (find_accepted attempts) [
      | some (a, external) ↦ recover_accepted sv cancel_accepted now t.id token a external w
      | none ↦ recover_rest now timeout_ms t token logical (head? attempts) w
    ]

-- A reclaimed logical invocation is settled from the ledger; it is never sent again.
unfoldable pub recover_claimed :
    Services → (Uuid → Bool) → Timestamp → ℕ → Task → Uuid → World → World × ClaimedInvokeRecovery
unfolding list_recovery_attempts
recover_claimed sv cancel_accepted now timeout_ms t token w = elim t.invoke_logical_request_id [
  | none ↦ (w, recovery_failed "INVOKE_CORRELATION_MISSING" "Task invoke correlation is missing")
  | some logical ↦
      recover_attempts sv cancel_accepted now timeout_ms t token logical
        (list_recovery_attempts t.id logical w.logs) w
]
