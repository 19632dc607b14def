-- ===== src/RequestLog/Record.antt =====
-- The insertion of a ledger row: `record` of apps/canvas-api/src/request-log/request-log.service.ts
-- with `sanitizeRequestLogRecord` and its assertions of request-log-record.ts, and two CHECK
-- constraints of database/migrations/ops/001_init_ops_schema.sql. What the catalog package finds
-- wrong with a channel route is an argument.
pub mod Shaped
use xg_canvas.Prelude.{
  ltb, leb, nat_beq, nat_beq_iff, Eq, if◌then◌else◌, string_eq, nat_eq, ◌==◌, leb→le, Bool-cases,
  is_some, is_none, coalesce, get_or, Option-cases, length, take, head?, any, every, select, find?,
  find?-holds, All, length-append, length-take-le, In, Pointwise, In-take, In-select, In-select_of,
  take_all, any-In, find?-In, All-Pointwise, Pointwise-All, All-In, All-of_In, All-map, In-any,
  All-select, any-select, none-select, Uuid, Timestamp, Json, text_append, ErrorKind, bad_request,
  forbidden, not_found, conflict, internal, ApiError, Result, ok, err, throw_error, ◌>>=◌, ◌>>◌,
  require, require_some, require_some-ok, require-ok, bind-ok, ok-injective, require_test,
  DistinctBy, eq_of_key, sort_by, In-sort_by, In-sort_by_of, length-sort_by, ℕ, zero, suc, ◌+◌, ◌-◌,
  ◌*◌, ◌/◌, ◌%◌, ◌^◌, ◌≤◌, ◌<◌, min, max, String, slice, len, ◌≡◌, refl, sym, ap, ◌∙◌, subst,
  fun_ext, ◌≢◌, ◌↔◌, ◌⊎◌, inl, inr, Bool, true, false, not, ◌&&◌, ◌||◌, Option, none, some, List,
  [], ◌∷◌, ◌++◌, map, eq_iff, arith, starts_with,
}
use xg_canvas.RequestLog.{
  LogStatus, pending, success, error, timeout, cancelled, is_pending, Usage, ResponseBody,
  RequestLog, Ledger, FinalizePatch, patch_of, Services, has_key, set_key, spread, non_empty,
  merge_usage, map_option, success_cost, finalize_set, non_blank, accepted_id, update_log, is_open,
  finalize_pending, finalize_unknown_set, finalize_pending_without_external, is_invoke_of,
  max_attempt, next_attempt_no, has_unresolved_invoke,
}

-- The first of `PHYSICAL_ATTEMPT_FIELDS` that is absent; the error carries its name only.
abbrev pub first_absent : List (String × Bool) → Option String
first_absent [] = none
first_absent ((name, present) ∷ rest) =
    let later = first_absent rest in if present then later else some name

abbrev pub attempt_fields : RequestLog → List (String × Bool)
attempt_fields e =
    ("logical_request_id", is_some e.logical_request_id)
    ∷ ("workspace_id", is_some e.workspace_id)
    ∷ ("task_id", is_some e.task_id)
    ∷ ("model_id", is_some e.model_id)
    ∷ ("model_resource_uid", is_some e.model_resource_uid)
    ∷ ("model_revision_id", is_some e.model_revision_id)
    ∷ ("catalog_epoch", is_some e.catalog_epoch)
    ∷ ("adapter_key", is_some e.adapter_key)
    ∷ ("channel_resource_uid", is_some e.channel_resource_uid)
    ∷ ("channel_revision_id", is_some e.channel_revision_id)
    ∷ ("channel_route", is_some e.channel_route)
    ∷ ("credential_id", is_some e.credential_id)
    ∷ []

abbrev pub require_attempt : Option String → Result (Unit {0})
require_attempt none = ok tt
require_attempt (some name) = throw_error internal "PHYSICAL_ATTEMPT_FIELDS" name

abbrev pub require_fields : RequestLog → Option ℕ → Result (Unit {0})
require_fields e none = ok tt
require_fields e (some n) = do
  require (leb 1 n) internal "ATTEMPT_NO" "request log attempt_no must be a positive integer"
  require_attempt (first_absent (attempt_fields e))

unfoldable pub assert_record_shape : RequestLog → Result (Unit {0})
assert_record_shape e = do
  require (not (is_pending e.status && is_none e.attempt_no)) internal "PENDING"
      "pending request log must be a physical attempt"
  require_fields e e.attempt_no

-- `assertSafeChannelRoute`, with the first issue that the checks of the route find.
abbrev pub assert_safe_route : (Json → Option String) → Option Json → Result (Unit {0})
assert_safe_route route_issue none = ok tt
assert_safe_route route_issue (some route) = elim (route_issue route) [
  | none ↦ ok tt
  | some issue ↦ throw_error internal "UNSAFE_ROUTE" issue
]

abbrev pub redact_usage : Services → Usage → Usage
redact_usage sv = map (λ e. (e.0, sv.redact_json e.1))

abbrev pub redacted : Services → RequestLog → RequestLog
redacted sv e = record e {
  usage = map_option (redact_usage sv) e.usage;
  vendor_error = map_option sv.redact_json e.vendor_error;
  error_message = map_option sv.redact_text e.error_message;
  response_body = map_option sv.redact_body e.response_body;
}

unfoldable pub sanitize_record : Services → (Json → Option String) → RequestLog → Result RequestLog
unfolding assert_record_shape
sanitize_record sv route_issue e = do
  assert_record_shape e
  assert_safe_route route_issue e.channel_route
  ok (redacted sv e)

abbrev pub record_cost : Services → RequestLog → Option (ℕ × String)
record_cost sv e = elim e.status [
  | success ↦ sv.compute_cost e.rate_card_revision_id e.usage
  | _ ↦ none
]

-- The row that is inserted, with the defaults of the columns that the caller leaves open.
abbrev pub inserted : Services → Timestamp → RequestLog → RequestLog
inserted sv now e = record e {
  cost = map_option (λ c. c.0) (record_cost sv e);
  cost_currency = map_option (λ c. c.1) (record_cost sv e);
  created_at = now;
  finished_at = if is_pending e.status then none else some now;
}

-- `x = y`, which is not true of NULL.
abbrev pub is_same : Option ℕ → ℕ → Bool
is_same none y = false
is_same (some x) y = x == y

-- idx_request_logs_logical_attempt: the rows are one attempt of one logical request.
abbrev pub same_attempt : RequestLog → RequestLog → Bool
same_attempt q r = elim r.logical_request_id [
  | none ↦ false
  | some logical ↦ elim r.attempt_no [
    | none ↦ false
    | some n ↦ is_same q.logical_request_id logical && is_same q.attempt_no n
  ]
]

-- The primary key or the unique index refuses the row.
abbrev pub clashes : RequestLog → RequestLog → Bool
clashes r q = q.id == r.id || same_attempt q r

abbrev pub insert_log : RequestLog → Ledger → Result Ledger
insert_log r rs =
    if any (clashes r) rs
    then throw_error internal "23505" "duplicate key value violates unique constraint"
    else ok (rs ++ (r ∷ []))

unfoldable pub record_log :
    Services → (Json → Option String) → Timestamp → RequestLog → Ledger → Result Ledger
unfolding sanitize_record
record_log sv route_issue now e rs = do
  safe ← sanitize_record sv route_issue e
  insert_log (inserted sv now safe) rs

-- ck_request_logs_attempt_shape.
abbrev pub has_attempt_shape : RequestLog → Bool
has_attempt_shape r = elim r.attempt_no [
  | none ↦ not (is_pending r.status)
  | some n ↦
      leb 1 n
      && is_some r.logical_request_id
      && is_some r.workspace_id
      && is_some r.task_id
      && is_some r.model_id
      && is_some r.model_resource_uid
      && is_some r.model_revision_id
      && is_some r.catalog_epoch
      && is_some r.adapter_key
      && is_some r.channel_resource_uid
      && is_some r.channel_revision_id
      && is_some r.channel_route
      && is_some r.credential_id
]

-- ck_request_logs_finished_at.
abbrev pub has_finish_shape : RequestLog → Bool
has_finish_shape r = if is_pending r.status then is_none r.finished_at else is_some r.finished_at
