-- ===== src/Task/Terminal/Fail.antt =====
-- `fail` of apps/canvas-api/src/task/task-terminal.service.ts.
use xg_canvas.Prelude.{
  ◌==◌, nat_eq, string_eq, if◌then◌else◌, Uuid, Timestamp, String, Bool, true, false, Option, none,
  some,
}
use xg_canvas.RequestLog.{error, timeout, FinalizePatch, patch_of, Services}
use xg_canvas.Task.Status.{failed, status_eq}
use xg_canvas.Task.Row.{Task}
use xg_canvas.Task.World.{World, Outcome, returned, thrown}
use xg_canvas.Task.Terminal.{
  TerminalPatch, update_terminal, lock_leased, settle, Reply, value, raised,
  cancel_vendor_best_effort,
}

abbrev pub failure_patch : String → String → TerminalPatch
failure_patch code message = record {
  output_asset_ids = none;
  text_output = none;
  json_output = none;
  progress = none;
  error = some (some (record { code = code; message = message; vendor = none }));
  channel_resource_uid = none;
  channel_revision_id = none;
  channel_route = none;
  credential_id = none;
}

abbrev pub failure_log : String → String → FinalizePatch
failure_log code message =
    patch_of (if code == "VENDOR_TIMEOUT" then timeout else error) (some code) (some message)

abbrev pub fail_locked :
    Services
    → Timestamp
    → Uuid
    → Uuid
    → String
    → String
    → Option Task
    → World
    → Outcome (Option Task)
fail_locked sv now id token code message none w = returned w none
fail_locked sv now id token code message (some t) w =
    let (tasks', updated) =
      update_terminal now id token failed (failure_patch code message) w.tasks in
    settle sv now (failure_log code message) updated (record w { tasks = tasks' })

unfoldable pub fail_transaction :
    Services → Timestamp → Uuid → Uuid → String → String → World → Outcome (Option Task)
fail_transaction sv now id token code message w =
    fail_locked sv now id token code message (lock_leased id token w.tasks) w

abbrev pub fail_end : World → Outcome (Option Task) → World × Reply Bool
fail_end w (returned w' none) = (w', value false)
fail_end w (returned w' (some t)) = (cancel_vendor_best_effort t w', value true)
fail_end w (thrown e) = (w, raised e)

unfoldable pub fail :
    Services → Timestamp → Uuid → Uuid → String → String → World → World × Reply Bool
fail sv now id token code message w = fail_end w (fail_transaction sv now id token code message w)
