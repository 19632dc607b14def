-- ===== src/Task/Failure.antt =====
-- How a failed attempt is classified and settled (`taskError` and `handleFailed` of
-- apps/canvas-api/src/task/task-executor.service.ts).
use xg_canvas.Task.Terminal.{Reply, value, raised}
use xg_canvas.Prelude.{
  ◌==◌, nat_eq, string_eq, if◌then◌else◌, get_or, Uuid, Timestamp, text_append, ℕ, ◌+◌, String,
  Bool, true, false, not, Option, none, some,
}
use xg_canvas.RequestLog.{Services}
use xg_canvas.Task.Row.{Task}
use xg_canvas.Task.Store.{schedule_retry}
use xg_canvas.Task.World.{World}
use xg_canvas.Task.Terminal.Fail.{fail}
use xg_canvas.Task.RetryPolicy.{RetryDecision, decide_retry}

pub data DispatchOutcome : Type 0 where
  definitely_rejected outcome_unknown accepted : DispatchOutcome

-- A caught exception. For an HttpException `http_status` is its status and `code` and `message`
-- are read from its response; for any other error they are the error's own.
pub record Thrown : Type 0 where
  pub http_status : Option ℕ
  pub code : Option String
  pub message : String
  pub request_id : Option String
  pub accepted_result : Bool
  pub dispatch_outcome : Option DispatchOutcome

pub record Classified : Type 0 where
  pub code : String
  pub message : String
  pub request_id : Option String
  pub allow_redispatch : Bool

abbrev pub http_code : ℕ → String
http_code status =
    if status == 400
    then "VALIDATION_FAILED"
    else if status == 403
    then "FORBIDDEN"
    else if status == 404
    then "NOT_FOUND"
    else "INTERNAL_ERROR"

abbrev pub is_ambiguous : Option DispatchOutcome → Bool
is_ambiguous (some outcome_unknown) = true
is_ambiguous (some accepted) = true
is_ambiguous _ = false

unfoldable pub task_error : Services → Thrown → Classified
task_error sv e = elim e.http_status [
  | some status ↦ record {
    code = get_or e.code (http_code status);
    message = sv.redact_text e.message;
    request_id = e.request_id;
    allow_redispatch = true;
  }
  | none ↦ record {
    code =
        if e.accepted_result
        then get_or e.code "ASSET_DOWNLOAD_FAILED"
        else if is_ambiguous e.dispatch_outcome
        then "INVOKE_OUTCOME_UNKNOWN"
        else get_or e.code "INTERNAL_ERROR";
    message = sv.redact_text e.message;
    request_id = e.request_id;
    allow_redispatch = not e.accepted_result;
  }
]

abbrev pub with_request_id : Option String → String → String
with_request_id none message = message
with_request_id (some id) message =
    if id == "" then message else text_append message (text_append "（请求 ID: " (text_append id "）"))

abbrev pub no_retry : RetryDecision
no_retry = record { retry = false; delay_ms = 0; max_attempts = 0 }

-- An `Error` of the services themselves.
abbrev pub plain_error : String → Thrown
plain_error message = record {
  http_status = none;
  code = none;
  message = message;
  request_id = none;
  accepted_result = false;
  dispatch_outcome = none;
}

-- How a handler's body ends.
pub data Completion : Type 0 where
  done : Completion
  threw : Thrown → Completion

abbrev pub completion {ℓ} : {A : Type ℓ} → World × Reply A → World × Completion
completion (w, value a) = (w, done)
completion (w, raised e) = (w, threw (plain_error e))

-- A failed attempt is queued again by the retry policy, or the task fails.
unfoldable pub handle_failed :
    Services → Timestamp → Task → Uuid → String → String → Bool → World → World × Completion
handle_failed sv now t token code message allow_redispatch w =
    let decision = if allow_redispatch then decide_retry code t.retry_count else no_retry in
    if decision.retry
    then (
      record w {
        tasks = (schedule_retry now t.id token code message (now + decision.delay_ms) w.tasks).0;
      },
      done,
    )
    else completion (fail sv now t.id token code message w)
