-- ===== src/Task/ExecutorTests.antt =====
-- The executor's and the poller's theorems at concrete worlds.
use xg_canvas.RequestLog.Queries.{find_preflight_failure, list_recovery_attempts}
use xg_canvas.Task.Recovery.{recover_claimed}
use xg_canvas.Task.Table.{update_where, update_first}
use xg_canvas.Prelude.{
  string_eq, nat_eq, length, Pointwise, ◌+◌, ◌≤◌, ◌≡◌, refl, ◌⊎◌, true, false, none, some, List, [],
  ◌∷◌,
}
use xg_canvas.Task.Invoke.{
  InvokeResponse, AdapterReply, responded, rejected, Candidate, InvokeInput, max_failover, invoke,
}
use xg_canvas.Task.Invoke.Failover.{IsOneDispatch}
use xg_canvas.Task.Failure.{definitely_rejected, outcome_unknown, done}
use xg_canvas.Task.Executor.AtMostOnce.{tried_by, started_row, execute-calls}
use xg_canvas.Prelude.{
  string_eq, nat_eq, length, Pointwise, ◌+◌, ◌≤◌, ◌≡◌, refl, ◌⊎◌, true, false, none, some, List, [],
  ◌∷◌,
}
use xg_canvas.Prelude.{string_eq, nat_eq, ◌+◌, ◌≡◌, refl, ◌⊎◌, true, none, some, [], ◌∷◌}
use xg_canvas.Task.Status.{running, status_eq}
use xg_canvas.Task.Row.{Task}
use xg_canvas.Task.Store.{start_claimed, prepare_invoke_attempt, save_external_result}
use xg_canvas.Task.Executor.{
  InvokeResponse, Env, complete_routing, handle_running, attempt, execute,
}
use xg_canvas.Task.Executor.Calls.{calls}
use xg_canvas.Task.Executor.AtMostOnce.{started_row, execute-calls}
use xg_canvas.Task.Failure.{done}
use xg_canvas.Task.Poller.{PollEnv, polled, poll_one, is_running_timed_out}
use xg_canvas.Task.Poller.Rows.{Hands}
use xg_canvas.Task.Poller.Progress.{poll_one-Hands}
use xg_canvas.Task.Samples.{leased, prepared, plain_services, world_of}

abbrev running_answer : InvokeResponse
running_answer = record {
  status = running;
  request_id = some 500;
  external_task_id = some "job";
  channel_resource_uid = some 90;
  channel_revision_id = some 91;
  channel_route = some "route";
  credential_id = some 92;
  assets = [];
  text = none;
  json = none;
  usage = none;
  progress = none;
  error_code = none;
  error_message = none;
  next_poll_after_ms = none;
}

-- A candidate that the vendor turns away, and one that takes the job.
abbrev candidate : AdapterReply → Candidate
candidate reply = record {
  request_id = 500;
  request_text = "500";
  channel_resource_uid = 90;
  channel_revision_id = 91;
  channel_route = "route";
  credential_id = 92;
  has_begun = true;
  reply = reply;
  is_logged = true;
  can_cancel = true;
}

abbrev rate_limited : AdapterReply
rate_limited = rejected (record {
  code = "RATE_LIMITED";
  message = "slow down";
  retryable = true;
  accepted_result = false;
  dispatch_outcome = definitely_rejected;
})

abbrev timed_out : AdapterReply
timed_out = rejected (record {
  code = "VENDOR_TIMEOUT";
  message = "no answer";
  retryable = true;
  accepted_result = false;
  dispatch_outcome = outcome_unknown;
})

abbrev input_of : List Candidate → InvokeInput
input_of cs = record { preflight = none; preflight_id = "p"; candidates = cs }

abbrev env : Env
env = record {
  services = plain_services;
  cancel_accepted = λ id. true;
  fresh_asset = λ n. 2000 + n;
  random_uuid = 900;
  resolve_inputs = none;
  service = input_of (candidate rate_limited ∷ candidate (responded running_answer) ∷ []);
  save_throws = none;
  recovery_timeout_ms = 300000;
}

-- A call of unknown outcome is not followed by another.
unknown_stops :
    length (invoke (input_of (candidate timed_out ∷ candidate rate_limited ∷ []))).tried ≡ 1
unfolding invoke
unknown_stops = refl

-- The claimed row is started and prepared, and the second candidate takes it.
two_calls : calls (execute env 1000 1 7 (world_of (leased ∷ []))).sent ≡ 2
unfolding calls execute start_claimed prepare_invoke_attempt save_external_result handle_running
    complete_routing attempt update_first update_where invoke
two_calls = refl

-- A row that another worker had prepared is deferred.
no_call : calls (execute env 1000 1 7 (world_of (prepared ∷ []))).sent ≡ 0
unfolding calls execute start_claimed prepare_invoke_attempt save_external_result handle_running
    complete_routing attempt update_first update_where recover_claimed list_recovery_attempts
    find_preflight_failure
no_call = refl

execute-calls_example :
    (calls (execute env 1000 1 7 (world_of (leased ∷ []))).sent ≡ calls [])
    ⊎ ((calls (execute env 1000 1 7 (world_of (leased ∷ []))).sent
          ≡ calls [] + length (tried_by env))
        × (length (tried_by env) ≤ max_failover)
        × IsOneDispatch (tried_by env)
        × (t : Task) × (started_row 1000 1 7 (world_of (leased ∷ [])) ≡ some t)
        × (t.invoke_logical_request_id ≡ none))
execute-calls_example = execute-calls env 1000 1 7 (world_of (leased ∷ []))

-- A poll of a running task whose vendor still works on it.
abbrev polled_task : Task
polled_task = record prepared {
  status = running;
  external_task_id = some "job";
  channel_resource_uid = some 90;
  channel_revision_id = some 91;
  channel_route = some "route";
  credential_id = some 92;
}

abbrev poll_env : PollEnv
poll_env = record {
  services = plain_services;
  fresh_asset = λ n. 2000 + n;
  running_timeout_ms = 0;
  poll = polled running_answer none;
  to_lower = λ s. s;
  to_text = λ n. "n";
}

poll_ends : (poll_one poll_env 1000 polled_task 7 (world_of (polled_task ∷ []))).1 ≡ done
unfolding poll_one is_running_timed_out
poll_ends = refl

poll_one-Hands_example :
    Pointwise
      (Hands polled_task.id 7)
      (polled_task ∷ [])
      (poll_one poll_env 1000 polled_task 7 (world_of (polled_task ∷ []))).0.tasks
poll_one-Hands_example =
    poll_one-Hands poll_env 1000 polled_task 7 (world_of (polled_task ∷ [])) refl ((λ e. refl), tt)
      poll_ends
