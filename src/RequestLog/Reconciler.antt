-- ===== src/RequestLog/Reconciler.antt =====
-- The periodic reconciler of the ledger: `reconcileOnce` and `terminalPatch` of
-- apps/canvas-api/src/request-log/request-log-reconciler.service.ts. A pass reads its candidates
-- at one moment and finalizes them one by one.
pub mod Settled
pub mod Kept
use xg_canvas.Prelude.{
  ltb, leb, nat_beq, nat_beq_iff, Eq, if◌then◌else◌, string_eq, nat_eq, ◌==◌, leb→le, Bool-cases,
  is_some, is_none, coalesce, get_or, Option-cases, length, take, head?, any, every, select, find?,
  find?-holds, All, length-append, length-take-le, In, Pointwise, In-take, In-select, any-In,
  find?-In, All-Pointwise, Pointwise-All, All-In, All-of_In, All-map, In-any, All-select,
  any-select, none-select, Uuid, Timestamp, Json, text_append, ErrorKind, bad_request, forbidden,
  not_found, conflict, internal, ApiError, Result, ok, err, throw_error, ◌>>=◌, ◌>>◌, require,
  require_some, require_some-ok, require-ok, bind-ok, ok-injective, require_test, DistinctBy,
  eq_of_key, sort_by, In-sort_by, ℕ, zero, suc, ◌+◌, ◌-◌, ◌*◌, ◌/◌, ◌%◌, ◌^◌, ◌≤◌, ◌<◌, min, max,
  String, slice, len, ◌≡◌, refl, sym, ap, ◌∙◌, subst, fun_ext, ◌≢◌, ◌↔◌, ◌⊎◌, inl, inr, Bool, true,
  false, not, ◌&&◌, ◌||◌, Option, none, some, List, [], ◌∷◌, ◌++◌, map, eq_iff, arith, starts_with,
}
use xg_canvas.RequestLog.{
  LogStatus, pending, success, error, timeout, cancelled, is_pending, Usage, ResponseBody,
  RequestLog, Ledger, FinalizePatch, patch_of, Services, has_key, set_key, spread, non_empty,
  merge_usage, map_option, success_cost, finalize_set, non_blank, accepted_id, update_log, is_open,
  finalize_pending, finalize_unknown_set, finalize_pending_without_external, is_invoke_of,
  max_attempt, next_attempt_no, has_unresolved_invoke,
}
use xg_canvas.Task.Row.{
  VendorDetail, poll_fails, other_detail, TaskError, Task, Table, holds_lease, is_due, is_past,
  is_lease_free, is_in_flight, IsConsistent,
}
use xg_canvas.Task.Table.{
  update_where, update_first, find_by_id, All-update_where, All-update_first, Distinct, eq_of_id,
  update_where-Pointwise, update_first-clears, update_first-none, update_first-some,
}
use xg_canvas.Task.Status.{
  Status, pending, queued, running, succeeded, failed, cancelled, same_status, same_status_iff,
  status_eq, allowed, can_transition, is_terminal,
}
use xg_canvas.Task.Recovery.{
  ClaimedInvokeRecovery, recovered, deferred, recovery_failed, default_unknown_timeout_ms,
  default_defer_ms, correlation, is_text, is_uuid, same_correlation, recovery_expired, compensate,
  terminal_failure, recover_accepted, recover_unknown, recover_rest, recover_attempts,
  recover_claimed,
}

abbrev pub default_task_grace_ms : ℕ
default_task_grace_ms = 5 * 60000

abbrev pub default_detached_grace_ms : ℕ
default_detached_grace_ms = 60 * 60000

pub record PendingCandidate : Type 0 where
  pub id : Uuid
  pub source : String
  pub attempt_no : Option ℕ
  pub task_status : Option Status
  pub task_error : Option TaskError
  pub referenced_by_task : Bool

-- `LEFT JOIN canvas.tasks t ON t.id::text = r.task_id`.
abbrev pub joined_task : Table → RequestLog → Option Task
joined_task ts r = elim r.task_id [ none ↦ none | some id ↦ find_by_id id ts ]

-- The three-valued comparison and conjunction of SQL, with `none` for NULL, and where `NOT` of a
-- value is true.
abbrev pub sql_eq : Option Uuid → Option Uuid → Option Bool
sql_eq (some a) (some b) = some (a == b)
sql_eq _ _ = none

abbrev pub sql_and : Bool → Option Bool → Option Bool
sql_and false v = some false
sql_and true v = v

abbrev pub is_false : Option Bool → Bool
is_false none = false
is_false (some b) = not b

abbrev pub logical_of : Option Task → Option Uuid
logical_of none = none
logical_of (some t) = t.invoke_logical_request_id

-- `x IS NULL OR x < NOW()`.
abbrev pub is_expired : Option Timestamp → Timestamp → Bool
is_expired none now = true
is_expired (some at) now = ltb at now

abbrev pub is_referenced : Option Task → RequestLog → Bool
is_referenced none r = false
is_referenced (some t) r = is_uuid t.invoke_request_id r.id

-- The row has outlived its grace period, and no worker is on its task.
abbrev pub is_orphaned : Timestamp → ℕ → ℕ → Option Task → RequestLog → Bool
is_orphaned now task_grace detached_grace none r = ltb (r.created_at + detached_grace) now
is_orphaned now task_grace detached_grace (some t) r =
    ltb (r.created_at + task_grace) now
    && (is_uuid t.invoke_request_id r.id && is_terminal t.status
        || not (is_uuid t.invoke_request_id r.id) && is_expired t.lease_expires_at now)

-- The vendor accepted the attempt.
abbrev pub is_accepted_attempt : RequestLog → Bool
is_accepted_attempt r = r.source == "invoke" && is_some r.attempt_no && is_some (accepted_id r)

abbrev pub is_stale : Timestamp → ℕ → ℕ → Table → RequestLog → Bool
is_stale now task_grace detached_grace ts r =
    is_pending r.status
    && not (is_accepted_attempt r)
    && is_false (
        sql_and (r.source == "invoke")
          (sql_eq (logical_of (joined_task ts r)) r.logical_request_id))
    && is_orphaned now task_grace detached_grace (joined_task ts r) r

abbrev pub candidate_of : Table → RequestLog → PendingCandidate
candidate_of ts r = record {
  id = r.id;
  source = r.source;
  attempt_no = r.attempt_no;
  task_status = map_option (λ (t : Task). t.status) (joined_task ts r);
  task_error = elim (joined_task ts r) [ none ↦ none | some t ↦ t.error ];
  referenced_by_task = is_referenced (joined_task ts r) r;
}

-- `Math.max(1, Math.min(limit, 1000))`.
abbrev pub clamp_limit : ℕ → ℕ
clamp_limit limit = max 1 (min limit 1000)

unfoldable pub candidates : Timestamp → ℕ → ℕ → ℕ → Table → Ledger → List PendingCandidate
unfolding sort_by
candidates now task_grace detached_grace limit ts rs = map (candidate_of ts) (
    take (clamp_limit limit) (
      sort_by (λ a b. leb a.created_at b.created_at)
        (select (is_stale now task_grace detached_grace ts) rs)))

abbrev pub is_status : Option Status → Status → Bool
is_status none s = false
is_status (some x) s = x == s

unfoldable pub terminal_patch : PendingCandidate → FinalizePatch
terminal_patch c =
    if c.referenced_by_task && is_status c.task_status succeeded
    then patch_of LogStatus.success none none
    else if is_status c.task_status cancelled
    then patch_of LogStatus.cancelled none none
    else if is_status c.task_status failed
    then patch_of LogStatus.error
        (some (elim c.task_error [ none ↦ "TASK_FAILED" | some e ↦ e.code ]))
        (some (elim c.task_error [
          | none ↦ "Task failed before request-log finalization"
          | some e ↦ e.message
        ]))
    else patch_of LogStatus.timeout (some "REQUEST_LOG_ORPHANED")
        (some "Process ended before the vendor attempt could be correlated to a Task")

abbrev pub is_success : LogStatus → Bool
is_success success = true
is_success _ = false

-- A physical attempt that is not closed as a success.
abbrev pub is_guarded : PendingCandidate → Bool
is_guarded c =
    c.source == "invoke" && is_some c.attempt_no && not (is_success (terminal_patch c).status)

unfoldable pub finalize_candidate : Services → Timestamp → PendingCandidate → Ledger → Ledger × Bool
finalize_candidate sv now c rs =
    if is_guarded c
    then finalize_pending_without_external sv now c.id (terminal_patch c) rs
    else finalize_pending sv now c.id (terminal_patch c) rs

-- The ledger after the pass, and how many rows it closed.
unfoldable pub finalize_candidates :
    Services → Timestamp → List PendingCandidate → Ledger → Ledger × ℕ
unfolding finalize_candidate
finalize_candidates sv now [] rs = (rs, 0)
finalize_candidates sv now (c ∷ cs) rs =
    let (rs', hit) = finalize_candidate sv now c rs in
    let (rest, n) = finalize_candidates sv now cs rs' in (rest, if hit then n + 1 else n)

unfoldable pub reconcile_once : Services → Timestamp → ℕ → ℕ → ℕ → Table → Ledger → Ledger × ℕ
unfolding candidates finalize_candidates
reconcile_once sv now task_grace detached_grace limit ts rs =
    finalize_candidates sv now (candidates now task_grace detached_grace limit ts rs) rs
