-- ===== src/RequestLog/Queries.antt =====
-- The recovery queries of apps/canvas-api/src/request-log/request-log.service.ts over the ledger.
use xg_canvas.Prelude.{
  ltb, leb, ◌==◌, nat_eq, string_eq, if◌then◌else◌, is_some, is_none, get_or, head?, select, Uuid,
  Timestamp, Json, sort_by, ℕ, String, Bool, true, false, ◌&&◌, ◌||◌, Option, none, some, List, [],
  ◌∷◌,
}
use xg_canvas.RequestLog.{
  LogStatus, error, timeout, cancelled, is_pending, RequestLog, Ledger, accepted_id, is_invoke_of,
}

-- A complete physical attempt (`isCompleteRecoveryAttempt`), read from its row.
pub record RecoveryAttempt : Type 0 where
  pub id : Uuid
  pub logical_request_id : Uuid
  pub attempt_no : ℕ
  pub status : LogStatus
  pub task_id : Uuid
  pub channel_resource_uid : Uuid
  pub channel_revision_id : Uuid
  pub channel_route : Json
  pub credential_id : Uuid
  pub external_task_id : Option String
  pub error_code : Option String
  pub error_message : Option String
  pub created_at : Timestamp

pub record PreflightFailure : Type 0 where
  pub id : Uuid
  pub error_code : Option String
  pub error_message : Option String

abbrev pub read_route :
    RequestLog
    → Uuid
    → Uuid
    → Option Uuid
    → Option Uuid
    → Option Json
    → Option Uuid
    → Option RecoveryAttempt
read_route r logical task (some resource) (some revision) (some route) (some credential) =
    some (record {
      id = r.id;
      logical_request_id = logical;
      attempt_no = get_or r.attempt_no 0;
      status = r.status;
      task_id = task;
      channel_resource_uid = resource;
      channel_revision_id = revision;
      channel_route = route;
      credential_id = credential;
      external_task_id = accepted_id r;
      error_code = r.error_code;
      error_message = r.error_message;
      created_at = r.created_at;
    })
read_route r logical task _ _ _ _ = none

unfoldable pub complete_attempt : Uuid → Uuid → RequestLog → Option RecoveryAttempt
complete_attempt task logical r =
    if is_some r.workspace_id
      && is_some r.model_id
      && is_some r.model_resource_uid
      && is_some r.model_revision_id
      && is_some r.catalog_epoch
    then read_route r logical task r.channel_resource_uid r.channel_revision_id r.channel_route
        r.credential_id
    else none

abbrev pub is_of_task : Uuid → RequestLog → Bool
is_of_task task r = elim r.task_id [ none ↦ false | some t ↦ t == task ]

unfoldable pub keep_some : {A B : Type 0} → (A → Option B) → List A → List B
keep_some f [] = []
keep_some f (x ∷ xs) = let rest = keep_some f xs in elim (f x) [ none ↦ rest | some b ↦ b ∷ rest ]

-- `ORDER BY attempt_no DESC, created_at DESC`.
abbrev pub later_attempt : RequestLog → RequestLog → Bool
later_attempt a b =
    ltb (get_or b.attempt_no 0) (get_or a.attempt_no 0)
    || (get_or a.attempt_no 0 == get_or b.attempt_no 0 && leb b.created_at a.created_at)

unfoldable pub list_recovery_attempts : Uuid → Uuid → Ledger → List RecoveryAttempt
unfolding complete_attempt keep_some sort_by
list_recovery_attempts task logical rs = keep_some (complete_attempt task logical) (
    sort_by later_attempt
      (select (λ r. is_invoke_of logical r && is_of_task task r && is_some r.attempt_no) rs))

-- `status IN ('error', 'timeout', 'cancelled')`.
abbrev pub is_failure : LogStatus → Bool
is_failure error = true
is_failure timeout = true
is_failure cancelled = true
is_failure _ = false

unfoldable pub find_preflight_failure : Uuid → Uuid → Ledger → Option PreflightFailure
unfolding sort_by
find_preflight_failure task logical rs =
    elim (head? (
      sort_by (λ a b. leb b.created_at a.created_at)
        (select
          (λ r.
            is_invoke_of logical r
            && is_of_task task r
            && is_none r.attempt_no
            && is_failure r.status)
          rs))) [
            | none ↦ none
            | some r ↦
                some
                  (record { id = r.id; error_code = r.error_code; error_message = r.error_message })
          ]

abbrev pub is_open_attempt : RecoveryAttempt → Bool
is_open_attempt a = is_pending a.status

-- `attempts.find((row) => row.status === 'pending' && row.external_task_id)`.
unfoldable pub find_accepted : List RecoveryAttempt → Option (RecoveryAttempt × String)
find_accepted [] = none
find_accepted (a ∷ rest) =
    let later = find_accepted rest in
    elim a.external_task_id [
      | none ↦ later
      | some external ↦ if is_open_attempt a then some (a, external) else later
    ]
