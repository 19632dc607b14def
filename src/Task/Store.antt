-- ===== src/Task/Store.antt =====
-- The lease and compare-and-set statements of
-- apps/canvas-api/src/task/task-execution.store.ts. Each is the WHERE condition, the SET list and the
-- statement; NOW() and the random UUIDs are arguments. The two claims are in Task/Claim.
use xg_canvas.Prelude.{
  ℕ, String, ◌+◌, Bool, false, ◌&&◌, ◌||◌, Option, none, some, ◌==◌, nat_eq, coalesce, is_some,
  is_none, Uuid, Timestamp, Json,
}
use xg_canvas.Task.Status.{queued, running, status_eq}
use xg_canvas.Task.Row.{Task, TaskError, Table, holds_lease, is_in_flight, is_lease_free}
use xg_canvas.Task.Table.{update_first}

abbrev pub default_lease_ms : ℕ
default_lease_ms = 120000

pub record ExternalTaskCorrelation : Type 0 where
  pub external_task_id : String
  pub invoke_request_id : Uuid
  pub invoke_logical_request_id : Uuid
  pub channel_resource_uid : Uuid
  pub channel_revision_id : Uuid
  pub channel_route : Json
  pub credential_id : Uuid
  pub next_poll_at : Timestamp

-- `invoke_logical_request_id = $3`, which is not true of NULL.
abbrev pub has_logical : Task → Uuid → Bool
has_logical t logical = elim t.invoke_logical_request_id [ none ↦ false | some l ↦ l == logical ]

abbrev pub start_cond : Uuid → Uuid → Task → Bool
start_cond id token t = t.id == id && holds_lease t token && t.status == queued

abbrev pub start_set : Timestamp → ℕ → Task → Task
start_set now lease_ms t = record t {
  status = running;
  started_at = coalesce t.started_at (some now);
  lease_expires_at = some (now + lease_ms);
  updated_at = now;
}

unfoldable pub start_claimed : Timestamp → Uuid → Uuid → ℕ → Table → Table × Option Task
start_claimed now id token lease_ms = update_first (start_cond id token) (start_set now lease_ms)

abbrev pub renew_cond : Uuid → Uuid → Task → Bool
renew_cond id token t = t.id == id && holds_lease t token && is_in_flight t.status

abbrev pub renew_set : Timestamp → ℕ → Task → Task
renew_set now lease_ms t = record t { lease_expires_at = some (now + lease_ms); updated_at = now }

unfoldable pub renew_lease : Timestamp → Uuid → Uuid → ℕ → Table → Table × Bool
renew_lease now id token lease_ms ts =
    let (ts', row) = update_first (renew_cond id token) (renew_set now lease_ms) ts in
    (ts', is_some row)

abbrev pub prepare_cond : Uuid → Uuid → Uuid → Task → Bool
prepare_cond id token logical t =
    t.id == id
    && holds_lease t token
    && t.status == running
    && is_none t.external_task_id
    && (is_none t.invoke_logical_request_id || has_logical t logical)

abbrev pub prepare_set : Timestamp → Uuid → Task → Task
prepare_set now logical t = record t {
  invoke_logical_request_id = coalesce t.invoke_logical_request_id (some logical);
  invoke_prepared_at = coalesce t.invoke_prepared_at (some now);
  updated_at = now;
}

-- The Task-owned logical group is stored before any vendor network call.
unfoldable pub prepare_invoke_attempt : Timestamp → Uuid → Uuid → Uuid → Table → Table × Option Task
prepare_invoke_attempt now id token logical =
    update_first (prepare_cond id token logical) (prepare_set now logical)

abbrev pub save_external_cond : Uuid → Uuid → ExternalTaskCorrelation → Task → Bool
save_external_cond id token patch t =
    t.id == id
    && holds_lease t token
    && t.status == running
    && is_none t.external_task_id
    && has_logical t patch.invoke_logical_request_id

abbrev pub save_external_set : Timestamp → ExternalTaskCorrelation → Task → Task
save_external_set now patch t = record t {
  external_task_id = some patch.external_task_id;
  invoke_request_id = some patch.invoke_request_id;
  channel_resource_uid = some patch.channel_resource_uid;
  channel_revision_id = some patch.channel_revision_id;
  channel_route = some patch.channel_route;
  credential_id = some patch.credential_id;
  next_poll_at = some patch.next_poll_at;
  lease_token = none;
  lease_expires_at = none;
  updated_at = now;
}

unfoldable pub save_external_result :
    Timestamp → Uuid → Uuid → ExternalTaskCorrelation → Table → Table × Bool
save_external_result now id token patch ts =
    let (ts', row) =
      update_first (save_external_cond id token patch) (save_external_set now patch) ts in
    (ts', is_some row)

abbrev pub defer_cond : Uuid → Uuid → Task → Bool
defer_cond id token t =
    t.id == id
    && holds_lease t token
    && t.status == running
    && is_some t.invoke_logical_request_id
    && is_none t.external_task_id

abbrev pub defer_set : Timestamp → Timestamp → Task → Task
defer_set now next_check_at t = record t {
  status = queued;
  next_poll_at = some next_check_at;
  lease_token = none;
  lease_expires_at = none;
  updated_at = now;
}

unfoldable pub defer_invoke_recovery : Timestamp → Uuid → Uuid → Timestamp → Table → Table × Bool
defer_invoke_recovery now id token next_check_at ts =
    let (ts', row) = update_first (defer_cond id token) (defer_set now next_check_at) ts in
    (ts', is_some row)

abbrev pub attach_cond : Timestamp → Uuid → Uuid → Task → Bool
attach_cond now id logical t =
    t.id == id
    && has_logical t logical
    && is_none t.external_task_id
    && is_in_flight t.status
    && is_lease_free t now

abbrev pub attach_set : Timestamp → ExternalTaskCorrelation → Task → Task
attach_set now patch t = record t {
  status = running;
  external_task_id = some patch.external_task_id;
  invoke_request_id = some patch.invoke_request_id;
  channel_resource_uid = some patch.channel_resource_uid;
  channel_revision_id = some patch.channel_revision_id;
  channel_route = some patch.channel_route;
  credential_id = some patch.credential_id;
  next_poll_at = some patch.next_poll_at;
  lease_token = none;
  lease_expires_at = none;
  updated_at = now;
}

unfoldable pub attach_recovered_without_lease :
    Timestamp → Uuid → Uuid → ExternalTaskCorrelation → Table → Table × Bool
attach_recovered_without_lease now id logical patch ts =
    let (ts', row) = update_first (attach_cond now id logical) (attach_set now patch) ts in
    (ts', is_some row)

pub record PollPatch : Type 0 where
  pub progress : Option ℕ
  pub error : Option TaskError
  pub next_poll_at : Timestamp

abbrev pub release_poll_cond : Uuid → Uuid → Task → Bool
release_poll_cond id token t = t.id == id && holds_lease t token && t.status == running

abbrev pub release_poll_set : Timestamp → PollPatch → Task → Task
release_poll_set now patch t = record t {
  progress = coalesce patch.progress t.progress;
  error = patch.error;
  next_poll_at = some patch.next_poll_at;
  lease_token = none;
  lease_expires_at = none;
  updated_at = now;
}

unfoldable pub release_poll : Timestamp → Uuid → Uuid → PollPatch → Table → Table × Bool
release_poll now id token patch ts =
    let (ts', row) = update_first (release_poll_cond id token) (release_poll_set now patch) ts in
    (ts', is_some row)

abbrev pub schedule_retry_cond : Uuid → Uuid → Task → Bool
schedule_retry_cond id token t = t.id == id && holds_lease t token && is_in_flight t.status

-- The attempt is over: everything that belongs to it is cleared.
abbrev pub schedule_retry_set : Timestamp → String → String → Timestamp → Task → Task
schedule_retry_set now code message next_attempt_at t = record t {
  status = queued;
  external_task_id = none;
  invoke_request_id = none;
  invoke_logical_request_id = none;
  invoke_prepared_at = none;
  channel_resource_uid = none;
  channel_revision_id = none;
  channel_route = none;
  credential_id = none;
  progress = none;
  error = some (record { code = code; message = message; vendor = none });
  retry_count = t.retry_count + 1;
  started_at = none;
  next_poll_at = some next_attempt_at;
  lease_token = none;
  lease_expires_at = none;
  updated_at = now;
}

unfoldable pub schedule_retry :
    Timestamp → Uuid → Uuid → String → String → Timestamp → Table → Table × Bool
schedule_retry now id token code message next_attempt_at ts =
    let (ts', row) =
      update_first (schedule_retry_cond id token)
        (schedule_retry_set now code message next_attempt_at) ts in
    (ts', is_some row)

abbrev pub poll_retry_cond : Uuid → Uuid → Task → Bool
poll_retry_cond id token t =
    t.id == id && holds_lease t token && t.status == running && is_some t.external_task_id

abbrev pub poll_retry_set : Timestamp → String → String → Timestamp → Task → Task
poll_retry_set now code message next_poll_at t = record t {
  error = some (record { code = code; message = message; vendor = none });
  retry_count = t.retry_count + 1;
  next_poll_at = some next_poll_at;
  lease_token = none;
  lease_expires_at = none;
  updated_at = now;
}

unfoldable pub schedule_poll_retry :
    Timestamp → Uuid → Uuid → String → String → Timestamp → Table → Table × Bool
schedule_poll_retry now id token code message next_poll_at ts =
    let (ts', row) =
      update_first (poll_retry_cond id token) (poll_retry_set now code message next_poll_at) ts in
    (ts', is_some row)
