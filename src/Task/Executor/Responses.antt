-- ===== src/Task/Executor/Responses.antt =====
-- No answer of the vendor makes the executor call it again in the same run.
use xg_canvas.Prelude.{
  string_eq, nat_eq, get_or, Uuid, Timestamp, ◌≡◌, refl, ap, ◌∙◌, true, Option, none, some, arith,
}
use xg_canvas.RequestLog.{FinalizePatch, Services}
use xg_canvas.Task.Status.{Status, running, succeeded, status_eq}
use xg_canvas.Task.Row.{Task}
use xg_canvas.Task.World.{World}
use xg_canvas.Task.Store.{save_external_result}
use xg_canvas.Task.Terminal.Succeed.{succeed}
use xg_canvas.Task.Failure.{task_error, with_request_id, Completion, done, threw, handle_failed}
use xg_canvas.Task.Recovery.{ClaimedInvokeRecovery, recovery_failed}
use xg_canvas.Task.Executor.{
  InvokeResponse, Env, Routing, complete_routing, cancel_vendor_job, finalize_invoke_request,
  incomplete_log, correlation_of, save_routing, handle_running, success_of, handle_response, caught,
  settle_recovery,
}
use xg_canvas.Task.Executor.Calls.{
  calls, IsQuiet, job-IsQuiet, succeed-IsQuiet, completion-world, handle_failed-IsQuiet,
}

finalize_invoke_request-sent :
    (sv : Services) (now : Timestamp) (id : Option Uuid) (patch : FinalizePatch) (w : World)
    → (finalize_invoke_request sv now id patch w).sent ≡ w.sent
finalize_invoke_request-sent sv now none patch w = refl
finalize_invoke_request-sent sv now (some id) patch w = refl

module _ (ev : Env) (now : Timestamp) (t : Task) (token logical : Uuid) where
  save_routing-IsQuiet :
      (r : InvokeResponse) (route : Routing) (w : World)
      → IsQuiet w (save_routing ev now t token logical r route w).0
  save_routing-IsQuiet r route w =
      let w' = record w {
        tasks =
            (save_external_result now t.id token (correlation_of now logical r route) w.tasks).0;
      } in
      ground (arith, job-IsQuiet t r w, job-IsQuiet t r w')

  unrouted-IsQuiet :
      (r : InvokeResponse) (w : World)
      → IsQuiet w
          (handle_failed ev.services now t token "VENDOR_REJECTED"
            "async adapter must return complete request, route and credential metadata" true
            (cancel_vendor_job t r
              (finalize_invoke_request ev.services now r.request_id incomplete_log w))).0
  unrouted-IsQuiet r w =
      let w' = finalize_invoke_request ev.services now r.request_id incomplete_log w in
      handle_failed-IsQuiet ev.services now t token "VENDOR_REJECTED"
        "async adapter must return complete request, route and credential metadata" true
        (cancel_vendor_job t r w')
      ∙ job-IsQuiet t r w'
      ∙ ap calls (finalize_invoke_request-sent ev.services now r.request_id incomplete_log w)

  handle_running-IsQuiet :
      (r : InvokeResponse) (w : World) → IsQuiet w (handle_running ev now t token logical r w).0
  unfolding handle_running
  handle_running-IsQuiet r w =
      elim (complete_routing r)
        as (λ x.
          IsQuiet w
            (elim x as (λ y. World × Completion) [
              | none ↦
                  handle_failed ev.services now t token "VENDOR_REJECTED"
                    "async adapter must return complete request, route and credential metadata" true
                    (cancel_vendor_job t r
                      (finalize_invoke_request ev.services now r.request_id incomplete_log w))
              | some route ↦ save_routing ev now t token logical r route w
            ]).0) [ none ↦ unrouted-IsQuiet r w | some route ↦ save_routing-IsQuiet r route w ]

  pub handle_response-IsQuiet :
      (s : Status) (r : InvokeResponse) (w : World)
      → IsQuiet w (handle_response ev now t token logical s r w).0
  handle_response-IsQuiet running r w = handle_running-IsQuiet r w
  handle_response-IsQuiet succeeded r w =
      ap (λ (v : World). calls v.sent)
        (completion-world (succeed ev.services now ev.fresh_asset t.id token (success_of r) w))
      ∙ succeed-IsQuiet ev.services now t.id token ev.fresh_asset (success_of r) w
  handle_response-IsQuiet _ r w =
      handle_failed-IsQuiet ev.services now t token (get_or r.error_code "VENDOR_REJECTED")
        (get_or r.error_message "vendor failed") true w

  pub caught-IsQuiet : (w : World) (c : Completion) → IsQuiet w (caught ev now t token (w, c))
  caught-IsQuiet w done = refl
  caught-IsQuiet w (threw e) =
      let c = task_error ev.services e in
      handle_failed-IsQuiet ev.services now t token c.code (with_request_id c.request_id c.message)
        c.allow_redispatch w

  pub settle_recovery-IsQuiet :
      (w : World) (c : ClaimedInvokeRecovery) → IsQuiet w (settle_recovery ev now t token (w, c))
  settle_recovery-IsQuiet w (recovery_failed code message) =
      handle_failed-IsQuiet ev.services now t token code message true w
  settle_recovery-IsQuiet w _ = refl
