-- ===== src/Task/Executor.antt =====
-- The dispatch of a leased task (apps/canvas-api/src/task/task-executor.service.ts). What the
-- adapters and the input resolver answer, the random UUID and one reading of the clock are arguments.
pub mod Calls
pub mod Responses
pub mod Recovered
pub mod AtMostOnce
pub use xg_canvas.Task.Invoke.{InvokeResponse, VendorReply, answered, refused}
use xg_canvas.Task.Invoke.{
  InvokeResponse, VendorReply, answered, refused, AdapterError, AdapterReply, responded, rejected,
  Candidate, InvokeInput, Dispatch, max_failover, thrown_by, ledger_error, routed, is_rejection,
  is_failoverable, is_last, ends_with, withdrawn_job, after_response, after_error, after_reply,
  nothing_tried, failover, invoked, invoke,
}
use xg_canvas.Prelude.{
  ltb, leb, nat_beq, nat_beq_iff, Eq, if◌then◌else◌, string_eq, nat_eq, ◌==◌, leb→le, Bool-cases,
  is_some, is_none, coalesce, get_or, Option-cases, length, take, head?, any, every, select, find?,
  find?-holds, All, length-append, length-take-le, In, Pointwise, In-take, In-select, In-select_of,
  take_all, any-In, find?-In, All-Pointwise, Pointwise-All, All-In, All-of_In, All-map, In-any,
  All-select, any-select, none-select, Uuid, Timestamp, Json, text_append, ErrorKind, bad_request,
  forbidden, not_found, conflict, internal, ApiError, Result, ok, err, throw_error, ◌>>=◌, ◌>>◌,
  require, require_some, require_some-ok, require-ok, bind-ok, ok-injective, require_test,
  DistinctBy, eq_of_key, sort_by, In-sort_by, In-sort_by_of, length-sort_by, ℕ, zero, suc, ◌+◌, ◌-◌,
  ◌*◌, ◌/◌, ◌%◌, ◌^◌, ◌≤◌, ◌<◌, min, max, String, slice, len, ◌≡◌, refl, sym, ap, ◌∙◌, subst,
  fun_ext, ◌≢◌, ◌↔◌, ◌⊎◌, inl, inr, Bool, true, false, not, ◌&&◌, ◌||◌, Option, none, some, List,
  [], ◌∷◌, ◌++◌, map, eq_iff, arith, starts_with,
}
use xg_canvas.Task.World.{
  NodeValue, text, reference, other_value, NodeData, CanvasNode, Canvas, Project, Asset, Outbound,
  cancel_vendor, invoke_vendor, delete_object, World, Outcome, returned, thrown, send,
}
use xg_canvas.Prelude.{
  ◌==◌, nat_eq, string_eq, if◌then◌else◌, is_some, get_or, Uuid, Timestamp, Json, ℕ, ◌+◌, String,
  Bool, true, not, ◌&&◌, Option, none, some, List, [], ◌∷◌,
}
use xg_canvas.RequestLog.{
  LogStatus, error, Usage, FinalizePatch, patch_of, Services, finalize_pending,
}
use xg_canvas.Task.Status.{Status, running, succeeded, status_eq}
use xg_canvas.Task.Row.{Task}
use xg_canvas.Task.Store.{
  default_lease_ms, ExternalTaskCorrelation, start_claimed, prepare_invoke_attempt,
  save_external_result,
}
use xg_canvas.Task.World.{cancel_vendor, invoke_vendor, World, send}
use xg_canvas.Task.Terminal.Succeed.{ProducedAsset, TaskSuccessResult, succeed}
use xg_canvas.Task.Failure.{
  Thrown, task_error, with_request_id, plain_error, Completion, done, threw, completion,
  handle_failed,
}
use xg_canvas.Task.Recovery.{ClaimedInvokeRecovery, recovery_failed, recover_claimed}

pub record Env : Type 0 where
  pub services : Services
  pub cancel_accepted : Uuid → Bool
  pub fresh_asset : ℕ → Uuid
  pub random_uuid : Uuid
  pub resolve_inputs : Option Thrown  -- what it throws, if it does
  pub service : InvokeInput
  pub save_throws : Option String  -- a database error while the routing is saved
  pub recovery_timeout_ms : ℕ

-- The routing that an asynchronous answer must carry in full.
pub record Routing : Type 0 where
  pub request_id : Uuid
  pub external_task_id : String
  pub channel_resource_uid : Uuid
  pub channel_revision_id : Uuid
  pub channel_route : Json
  pub credential_id : Uuid

abbrev pub route_of :
    Option Uuid
    → Option String
    → Option Uuid
    → Option Uuid
    → Option Json
    → Option Uuid
    → Option Routing
route_of (some request) (some external) (some resource) (some revision) (some route) (some cred) =
    if external == ""
    then none
    else some (record {
      request_id = request;
      external_task_id = external;
      channel_resource_uid = resource;
      channel_revision_id = revision;
      channel_route = route;
      credential_id = cred;
    })
route_of _ _ _ _ _ _ = none

unfoldable pub complete_routing : InvokeResponse → Option Routing
complete_routing r =
    route_of r.request_id r.external_task_id r.channel_resource_uid r.channel_revision_id
      r.channel_route r.credential_id

-- `cancelVendorJob`: sent if the external id and the route are known, and its failure is ignored.
unfoldable pub cancel_vendor_job : Task → InvokeResponse → World → World
cancel_vendor_job t r w = elim r.external_task_id [
  | none ↦ w
  | some external ↦
      if not (external == "")
        && is_some r.channel_resource_uid
        && is_some r.channel_revision_id
        && is_some r.channel_route
        && is_some r.credential_id
      then send (cancel_vendor t.id external ∷ []) w
      else w
]

-- `finalizeInvokeRequest`, outside any transaction.
abbrev pub finalize_invoke_request :
    Services → Timestamp → Option Uuid → FinalizePatch → World → World
finalize_invoke_request sv now none patch w = w
finalize_invoke_request sv now (some request_id) patch w = record w {
  logs = (finalize_pending sv now request_id patch w.logs).0;
}

abbrev pub incomplete_log : FinalizePatch
incomplete_log =
    patch_of error (some "VENDOR_REJECTED")
      (some "async adapter returned incomplete routing metadata")

abbrev pub unsaved_log : FinalizePatch
unsaved_log =
    patch_of error (some "INTERNAL_ERROR") (some "failed to persist async vendor task routing")

abbrev pub correlation_of : Timestamp → Uuid → InvokeResponse → Routing → ExternalTaskCorrelation
correlation_of now logical r route = record {
  external_task_id = route.external_task_id;
  invoke_request_id = route.request_id;
  invoke_logical_request_id = logical;
  channel_resource_uid = route.channel_resource_uid;
  channel_revision_id = route.channel_revision_id;
  channel_route = route.channel_route;
  credential_id = route.credential_id;
  next_poll_at = now + get_or r.next_poll_after_ms 2000;
}

abbrev pub save_routing :
    Env → Timestamp → Task → Uuid → Uuid → InvokeResponse → Routing → World → World × Completion
save_routing ev now t token logical r route w = elim ev.save_throws [
  | some e ↦ (
    finalize_invoke_request ev.services now (some route.request_id) unsaved_log
        (cancel_vendor_job t r w),
    threw (plain_error e),
  )
  | none ↦
      (let (tasks', saved) =
          save_external_result now t.id token (correlation_of now logical r route) w.tasks in
        let w' = record w { tasks = tasks' } in
        if saved then (w', done) else (
          finalize_invoke_request ev.services now (some route.request_id)
              (patch_of LogStatus.cancelled none none) (cancel_vendor_job t r w'),
          done,
        ))
]

unfoldable pub handle_running :
    Env → Timestamp → Task → Uuid → Uuid → InvokeResponse → World → World × Completion
handle_running ev now t token logical r w = elim (complete_routing r) [
  | none ↦
      handle_failed ev.services now t token "VENDOR_REJECTED"
        "async adapter must return complete request, route and credential metadata" true
        (cancel_vendor_job t r
          (finalize_invoke_request ev.services now r.request_id incomplete_log w))
  | some route ↦ save_routing ev now t token logical r route w
]

abbrev pub success_of : InvokeResponse → TaskSuccessResult
success_of r = record {
  assets = r.assets;
  text = r.text;
  json = r.json;
  channel_resource_uid = r.channel_resource_uid;
  channel_revision_id = r.channel_revision_id;
  channel_route = r.channel_route;
  credential_id = r.credential_id;
  usage = none;
}

abbrev pub handle_response :
    Env → Timestamp → Task → Uuid → Uuid → Status → InvokeResponse → World → World × Completion
handle_response ev now t token logical running r w = handle_running ev now t token logical r w
handle_response ev now t token logical succeeded r w =
    completion (succeed ev.services now ev.fresh_asset t.id token (success_of r) w)
handle_response ev now t token logical _ r w =
    handle_failed ev.services now t token (get_or r.error_code "VENDOR_REJECTED")
      (get_or r.error_message "vendor failed") true w

abbrev pub withdrawals : Uuid → Option String → List Outbound
withdrawals id none = []
withdrawals id (some external) = cancel_vendor id external ∷ []

-- What the request to the invoke service sends: its calls of the vendor, and a cancellation of a job
-- that it could not record.
abbrev pub sent_by : Uuid → Uuid → Dispatch → List Outbound
sent_by id logical d =
    map (λ (c : Candidate). invoke_vendor id logical) d.tried ++ withdrawals id d.withdrawn

-- The body of the `try`: the inputs are resolved, and then the invoke service is asked.
unfoldable pub attempt : Env → Timestamp → Task → Uuid → Uuid → World → World × Completion
attempt ev now t token logical w = elim ev.resolve_inputs [
  | some e ↦ (w, threw e)
  | none ↦
      (let d = invoke ev.service in
        let w' = send (sent_by t.id logical d) w in
        elim d.reply [
          | answered r ↦ handle_response ev now t token logical r.status r w'
          | refused e ↦ (w', threw e)
        ])
]

abbrev pub caught : Env → Timestamp → Task → Uuid → World × Completion → World
caught ev now t token (w, done) = w
caught ev now t token (w, threw e) =
    let c = task_error ev.services e in
    (handle_failed ev.services now t token c.code (with_request_id c.request_id c.message)
      c.allow_redispatch w).0

abbrev pub settle_recovery : Env → Timestamp → Task → Uuid → World × ClaimedInvokeRecovery → World
settle_recovery ev now t token (w, recovery_failed code message) =
    (handle_failed ev.services now t token code message true w).0
settle_recovery ev now t token (w, _) = w

abbrev pub run_prepared : Env → Timestamp → Bool → Uuid → Option Uuid → Task → World → World
run_prepared ev now reclaimed token none t w = w
run_prepared ev now reclaimed token (some logical) t w =
    if reclaimed
    then settle_recovery ev now t token
        (recover_claimed ev.services ev.cancel_accepted now ev.recovery_timeout_ms t token w)
    else caught ev now t token (attempt ev now t token logical w)

abbrev pub run_started : Env → Timestamp → Uuid → Task → World → World
run_started ev now token started w =
    let (tasks', prepared) =
      prepare_invoke_attempt now started.id token
        (get_or started.invoke_logical_request_id ev.random_uuid) w.tasks in
    let w' = record w { tasks = tasks' } in
    elim prepared [
      | none ↦ w'
      | some t ↦
          run_prepared ev now (is_some started.invoke_logical_request_id) token
            t.invoke_logical_request_id t w'
    ]

-- `run` of the executor, for the task and the token of a claim.
unfoldable pub execute : Env → Timestamp → Uuid → Uuid → World → World
execute ev now id token w =
    let (tasks', started) = start_claimed now id token default_lease_ms w.tasks in
    let w' = record w { tasks = tasks' } in
    elim started [ none ↦ w' | some t ↦ run_started ev now token t w' ]
