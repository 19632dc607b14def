-- ===== src/Task/Invoke.antt =====
-- The dispatch of one request with failover (`invoke` of
-- apps/canvas-api/src/account/invoke/invoke.service.ts). The candidates with what the adapter and
-- the ledger answer for each are an argument, and so is what is thrown before they are tried; the
-- rows that the service writes to the ledger are left out.
pub mod Failover
use xg_canvas.Prelude.{
  ltb, leb, nat_beq, nat_beq_iff, Eq, if◌then◌else◌, string_eq, nat_eq, ◌==◌, leb→le, Bool-cases,
  is_some, is_none, coalesce, get_or, Option-cases, length, take, head?, any, every, select, find?,
  find?-holds, All, length-append, length-take-le, In, Pointwise, In-take, In-select, In-select_of,
  take_all, any-In, find?-In, All-Pointwise, Pointwise-All, All-In, All-of_In, All-map, In-any,
  All-select, any-select, none-select, Uuid, Timestamp, Json, text_append, ErrorKind, bad_request,
  forbidden, not_found, conflict, internal, ApiError, Result, ok, err, throw_error, ◌>>=◌, ◌>>◌,
  require, require_some, require_some-ok, require-ok, bind-ok, ok-injective, require_test,
  DistinctBy, eq_of_key, sort_by, In-sort_by, In-sort_by_of, length-sort_by, ℕ, zero, suc, ◌+◌, ◌-◌,
  ◌*◌, ◌/◌, ◌%◌, ◌^◌, ◌≤◌, ◌<◌, min, max, String, slice, len, ◌≡◌, refl, sym, ap, ◌∙◌, subst,
  fun_ext, ◌≢◌, ◌↔◌, ◌⊎◌, inl, inr, Bool, true, false, not, ◌&&◌, ◌||◌, Option, none, some, List,
  [], ◌∷◌, ◌++◌, map, eq_iff, arith, starts_with,
}
use xg_canvas.Task.Status.{
  Status, pending, queued, running, succeeded, failed, cancelled, same_status, same_status_iff,
  status_eq, allowed, can_transition, is_terminal,
}
use xg_canvas.Task.Failure.{
  DispatchOutcome, definitely_rejected, outcome_unknown, accepted, Thrown, Classified, http_code,
  is_ambiguous, task_error, with_request_id, no_retry, plain_error, Completion, done, threw,
  completion, handle_failed,
}
use xg_canvas.Task.Terminal.Succeed.{
  ProducedAsset, TaskSuccessResult, asset_of, asset_rows, unique_keys, discard_produced,
  success_patch, success_log, succeed_locked, succeed_transaction, succeed_end, succeed,
}
use xg_canvas.RequestLog.{
  LogStatus, pending, success, error, timeout, cancelled, is_pending, Usage, ResponseBody,
  RequestLog, Ledger, FinalizePatch, patch_of, Services, has_key, set_key, spread, non_empty,
  merge_usage, map_option, success_cost, finalize_set, non_blank, accepted_id, update_log, is_open,
  finalize_pending, finalize_unknown_set, finalize_pending_without_external, is_invoke_of,
  max_attempt, next_attempt_no, has_unresolved_invoke,
}

pub record InvokeResponse : Type 0 where
  pub status : Status
  pub request_id : Option Uuid
  pub external_task_id : Option String
  pub channel_resource_uid : Option Uuid
  pub channel_revision_id : Option Uuid
  pub channel_route : Option Json
  pub credential_id : Option Uuid
  pub assets : List ProducedAsset
  pub text : Option String
  pub json : Option Json
  pub usage : Option Usage
  pub progress : Option ℕ
  pub error_code : Option String
  pub error_message : Option String
  pub next_poll_after_ms : Option ℕ

pub data VendorReply : Type 0 where
  answered : InvokeResponse → VendorReply
  refused : Thrown → VendorReply

-- What an adapter throws. Any other exception is wrapped as one with an unknown outcome.
pub record AdapterError : Type 0 where
  pub code : String
  pub message : String
  pub retryable : Bool
  pub accepted_result : Bool
  pub dispatch_outcome : DispatchOutcome

pub data AdapterReply : Type 0 where
  responded : InvokeResponse → AdapterReply
  rejected : AdapterError → AdapterReply

-- A channel with a credential, and what happens when it is tried.
pub record Candidate : Type 0 where
  pub request_id : Uuid
  pub request_text : String  -- the same id in a message
  pub channel_resource_uid : Uuid
  pub channel_revision_id : Uuid
  pub channel_route : Json
  pub credential_id : Uuid
  pub has_begun : Bool  -- the attempt was written to the ledger
  pub reply : AdapterReply
  pub is_logged : Bool  -- the outcome was written to the ledger
  pub can_cancel : Bool  -- the adapter has `cancel`

pub record InvokeInput : Type 0 where
  pub preflight : Option Thrown
  pub preflight_id : String
  pub candidates : List Candidate

-- The candidates whose adapter was called, in order; the job that was cancelled again; the answer.
pub record Dispatch : Type 0 where
  pub tried : List Candidate
  pub withdrawn : Option String
  pub reply : VendorReply

abbrev pub max_failover : ℕ
max_failover = 4

abbrev pub thrown_by : String → AdapterError → Thrown
thrown_by request e = record {
  http_status = none;
  code = some e.code;
  message = e.message;
  request_id = some request;
  accepted_result = e.accepted_result;
  dispatch_outcome = some e.dispatch_outcome;
}

abbrev pub ledger_error : Candidate → String → DispatchOutcome → VendorReply
ledger_error c message outcome = refused (
    thrown_by c.request_text (record {
      code = "ADAPTER_INTERNAL";
      message = message;
      retryable = false;
      accepted_result = false;
      dispatch_outcome = outcome;
    }))

abbrev pub routed : Candidate → InvokeResponse → InvokeResponse
routed c r = record r {
  request_id = some c.request_id;
  channel_resource_uid = some c.channel_resource_uid;
  channel_revision_id = some c.channel_revision_id;
  channel_route = some c.channel_route;
  credential_id = some c.credential_id;
}

abbrev pub is_rejection : DispatchOutcome → Bool
is_rejection definitely_rejected = true
is_rejection _ = false

abbrev pub is_failoverable : AdapterError → Bool
is_failoverable e = e.retryable || e.code == "CREDENTIAL_INVALID"

abbrev pub is_last : List Candidate → Bool
is_last [] = true
is_last (c ∷ cs) = false

abbrev pub ends_with : Candidate → VendorReply → Dispatch
ends_with c reply = record { tried = c ∷ []; withdrawn = none; reply = reply }

-- The job of an answer that could not be written down.
abbrev pub withdrawn_job : Candidate → InvokeResponse → Option String
withdrawn_job c r =
    if r.status == running && c.can_cancel then non_blank r.external_task_id else none

abbrev pub after_response : Candidate → InvokeResponse → Dispatch
after_response c r = if c.is_logged then ends_with c (answered (routed c r)) else record {
  tried = c ∷ [];
  withdrawn = withdrawn_job c r;
  reply = ledger_error c "vendor responded but its result could not be persisted" accepted;
}

-- After an error: `later` is what the remaining candidates come to, if they are tried.
abbrev pub after_error : Candidate → AdapterError → Bool → Dispatch → Dispatch
after_error c e last later =
    let same = refused (thrown_by c.request_text e) in
    if e.accepted_result
    then ends_with c (
        if c.is_logged
        then same
        else ledger_error c "vendor completed but its accepted result could not be persisted"
            accepted)
    else if not (is_rejection e.dispatch_outcome)
    then ends_with c (
        if c.is_logged
        then same
        else ledger_error c "failed to persist an unknown vendor dispatch outcome" outcome_unknown)
    else if not c.is_logged
    then ends_with c (ledger_error c "failed to persist vendor attempt failure" definitely_rejected)
    else if not (is_failoverable e) || last
    then ends_with c same
    else record later { tried = c ∷ later.tried }

abbrev pub after_reply : Candidate → AdapterReply → Bool → Dispatch → Dispatch
after_reply c (responded r) last later = after_response c r
after_reply c (rejected e) last later = after_error c e last later

abbrev pub nothing_tried : VendorReply → Dispatch
nothing_tried reply = record { tried = []; withdrawn = none; reply = reply }

-- The loop over the candidates, with the id of the failure without any.
unfoldable pub failover : String → List Candidate → Dispatch
failover preflight_id [] = nothing_tried (
    refused (
      thrown_by preflight_id (record {
        code = "CREDENTIAL_INVALID";
        message = "无可用渠道/凭证";
        retryable = false;
        accepted_result = false;
        dispatch_outcome = definitely_rejected;
      })))
failover preflight_id (c ∷ cs) =
    let later = failover preflight_id cs in
    if c.has_begun
    then after_reply c c.reply (is_last cs) later
    else nothing_tried
        (ledger_error c "failed to persist vendor attempt before dispatch" definitely_rejected)

abbrev pub invoked : InvokeInput → Option Thrown → Dispatch
invoked i (some e) = nothing_tried (refused e)
invoked i none = failover i.preflight_id (take max_failover i.candidates)

unfoldable pub invoke : InvokeInput → Dispatch
unfolding failover
invoke i = invoked i i.preflight
