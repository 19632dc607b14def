-- ===== src/Task/Poller.antt =====
-- One poll of a running vendor task (apps/canvas-api/src/task/task-poller.service.ts).
pub mod Rows
pub mod Progress
use text.Mathlib.Text.{find? as find_text}
use xg_canvas.Prelude.{
  ltb, leb, ◌==◌, nat_eq, string_eq, if◌then◌else◌, is_some, is_none, coalesce, get_or, Uuid,
  Timestamp, text_append, ℕ, ◌+◌, ◌-◌, ◌*◌, ◌/◌, String, Bool, false, not, ◌&&◌, ◌||◌, Option, none,
  some,
}
use xg_canvas.RequestLog.{error, Usage, patch_of, Services}
use xg_canvas.Task.Status.{Status, running, succeeded, status_eq}
use xg_canvas.Task.Row.{VendorDetail, poll_fails, TaskError, Task}
use xg_canvas.Task.Store.{PollPatch, release_poll, schedule_retry, schedule_poll_retry}
use xg_canvas.Task.World.{World}
use xg_canvas.Task.Terminal.Succeed.{TaskSuccessResult, succeed}
use xg_canvas.Task.Terminal.Fail.{fail}
use xg_canvas.Task.RetryPolicy.{decide_retry}
use xg_canvas.Task.Failure.{Completion, done, threw, completion}
use xg_canvas.Task.Executor.{InvokeResponse, finalize_invoke_request}

abbrev pub default_running_timeout_ms : ℕ
default_running_timeout_ms = 45 * 60 * 1000

abbrev pub max_transient_poll_fails : ℕ
max_transient_poll_fails = 12

-- What the vendor says, or the code and the message of what the call throws.
pub data PollReply : Type 0 where
  polled : InvokeResponse → Option ℕ → PollReply
  poll_threw : Option String → String → PollReply

pub record PollEnv : Type 0 where
  pub services : Services
  pub fresh_asset : ℕ → Uuid
  pub running_timeout_ms : ℕ
  pub poll : PollReply
  pub to_lower : String → String  -- toLowerCase
  pub to_text : ℕ → String  -- a number in a template

unfoldable pub is_running_timed_out : Timestamp → Option Timestamp → ℕ → Bool
is_running_timed_out now none timeout_ms = false
is_running_timed_out now (some started_at) timeout_ms =
    ltb 0 timeout_ms && ltb timeout_ms (now - started_at)

abbrev pub includes : String → String → Bool
includes s part = is_some (find_text s part)

unfoldable pub is_permanent_poll_error : (String → String) → String → String → Bool
is_permanent_poll_error to_lower code message =
    code == "CONSTRAINT_VIOLATION"
    || code == "VENDOR_REJECTED"
    || code == "CLI_INVOCATION_FAILED"
    || code == "CATALOG_REVISION_MISSING"
    || includes (to_lower message) "record not found"
    || includes (to_lower message) "query_result parse failed"
    || includes (to_lower message) "no submit_id"

abbrev pub vendor_fails : Option VendorDetail → ℕ
vendor_fails (some (poll_fails n)) = n
vendor_fails _ = 0

abbrev pub poll_fail_streak : Option TaskError → ℕ
poll_fail_streak none = 0
poll_fail_streak (some e) = vendor_fails e.vendor

abbrev pub has_route : Task → Bool
has_route t =
    is_some t.channel_resource_uid
    && is_some t.channel_revision_id
    && is_some t.channel_route
    && is_some t.credential_id

abbrev pub fail_terminal :
    PollEnv → Timestamp → Task → Uuid → String → String → World → World × Completion
fail_terminal ev now t token code message w =
    completion (fail ev.services now t.id token code message w)

-- `failOrRetry`: an answer that says failed ends the attempt, and a retry starts another.
unfoldable pub fail_or_retry :
    PollEnv → Timestamp → Task → Uuid → String → String → Option Usage → World → World × Completion
fail_or_retry ev now t token code message usage w =
    let decision = decide_retry code t.retry_count in
    if decision.retry
    then (let w' =
          finalize_invoke_request ev.services now t.invoke_request_id
            (record (patch_of error (some code) (some message)) { usage = usage }) w in
        (
          record w' {
            tasks =
                (schedule_retry now t.id token code message (now + decision.delay_ms) w'.tasks).0;
          },
          done,
        ))
    else fail_terminal ev now t token code message w

abbrev pub transient_patch : Timestamp → String → String → ℕ → PollPatch
transient_patch now code message fails = record {
  progress = none;
  error = some (record { code = code; message = message; vendor = some (poll_fails fails) });
  next_poll_at = now + 5000;
}

abbrev pub release_with : Timestamp → Task → Uuid → PollPatch → World → World × Completion
release_with now t token patch w =
    (record w { tasks = (release_poll now t.id token patch w.tasks).0 }, done)

abbrev pub streak_message : PollEnv → ℕ → String → String
streak_message ev fails message =
    text_append "轮询连续失败 " (text_append (ev.to_text fails) (text_append " 次：" message))

abbrev pub timeout_message : PollEnv → String
timeout_message ev =
    text_append "任务运行超时（超过 "
      (text_append (ev.to_text ((ev.running_timeout_ms + 30000) / 60000)) " 分钟），请重试")

-- The poll itself failed: transient failures are counted, and a download is retried.
abbrev pub poll_failed :
    PollEnv → Timestamp → Task → Uuid → String → String → World → World × Completion
poll_failed ev now t token code message w =
    let fails = poll_fail_streak t.error + 1 in
    let decision = decide_retry code t.retry_count in
    if is_permanent_poll_error ev.to_lower code message
    then fail_terminal ev now t token code message w
    else if leb max_transient_poll_fails fails
    then fail_terminal ev now t token code (streak_message ev fails message) w
    else if decision.retry && code == "ASSET_DOWNLOAD_FAILED"
    then (
      record w {
        tasks =
            (schedule_poll_retry now t.id token code message (now + decision.delay_ms) w.tasks).0;
      },
      done,
    )
    else release_with now t token (transient_patch now code message fails) w

abbrev pub poll_success : InvokeResponse → TaskSuccessResult
poll_success r = record {
  assets = r.assets;
  text = r.text;
  json = r.json;
  channel_resource_uid = none;
  channel_revision_id = none;
  channel_route = none;
  credential_id = none;
  usage = r.usage;
}

abbrev pub poll_answered :
    PollEnv
    → Timestamp
    → Task
    → Uuid
    → Status
    → InvokeResponse
    → Option ℕ
    → World
    → World × Completion
poll_answered ev now t token running r after w =
    release_with now t token
      (record {
        progress = coalesce r.progress t.progress;
        error = none;
        next_poll_at = now + get_or after 3000;
      })
      w
poll_answered ev now t token succeeded r after w =
    completion (succeed ev.services now ev.fresh_asset t.id token (poll_success r) w)
poll_answered ev now t token _ r after w =
    fail_or_retry ev now t token (get_or r.error_code "VENDOR_REJECTED")
      (get_or r.error_message "failed") r.usage w

-- The `catch`: an exception of the services themselves has no code.
abbrev pub poll_caught : PollEnv → Timestamp → Task → Uuid → World × Completion → World × Completion
poll_caught ev now t token (w, done) = (w, done)
poll_caught ev now t token (w, threw e) =
    poll_failed ev now t token (get_or e.code "INTERNAL_ERROR") e.message w

abbrev pub poll_replied : PollEnv → Timestamp → Task → Uuid → PollReply → World → World × Completion
poll_replied ev now t token (polled r after) w =
    poll_caught ev now t token (poll_answered ev now t token r.status r after w)
poll_replied ev now t token (poll_threw code message) w =
    poll_failed ev now t token (get_or code "INTERNAL_ERROR") message w

-- `pollOne`.
unfoldable pub poll_one : PollEnv → Timestamp → Task → Uuid → World → World × Completion
poll_one ev now t token w =
    if is_none t.external_task_id
    then (w, done)
    else if not (has_route t)
    then fail_terminal ev now t token "TASK_ROUTING_METADATA_MISSING"
        "异步任务缺少固定 Channel Revision、路由或 Credential，无法继续轮询" w
    else if is_running_timed_out now t.started_at ev.running_timeout_ms
    then fail_terminal ev now t token "VENDOR_TIMEOUT" (timeout_message ev) w
    else poll_replied ev now t token ev.poll w
