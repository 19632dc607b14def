-- ===== src/RequestLog.antt =====
-- The invocation ledger ops.request_logs (apps/canvas-api/src/request-log): the finalizers of
-- request-log.service.ts, its recovery queries, and mergeUsage of request-log.utils.ts.
-- The cost calculation and the redaction of secrets are arguments, collected in `Services`.
pub mod Finalize
pub mod Queries
pub mod Pending
pub mod Reconciler
pub mod Record
pub mod Tests
use xg_canvas.Prelude.{
  ℕ, String, ◌+◌, Bool, true, false, ◌&&◌, Option, none, some, List, [], ◌∷◌, ◌==◌, nat_eq,
  string_eq, is_none, coalesce, get_or, if◌then◌else◌, any, select, max, Uuid, Timestamp, Json,
}

pub data LogStatus : Type 0 where
  pending success error timeout cancelled : LogStatus

abbrev pub is_pending : LogStatus → Bool
is_pending pending = true
is_pending _ = false

-- Usage meters, a JSON object by its entries in order.
abbrev pub Usage : Type 0
Usage = List (String × Json)

-- The vendor's reply, with the field that recovery reads (NULLIF(…, '')) apart.
pub record ResponseBody : Type 0 where
  pub external_task_id : Option String
  pub rest : Json

-- The columns that the operations here read or write.
pub record RequestLog : Type 0 where
  pub id : Uuid
  pub logical_request_id : Option Uuid
  pub attempt_no : Option ℕ
  pub source : String
  pub task_id : Option Uuid
  pub workspace_id : Option Uuid
  pub model_id : Option String
  pub model_resource_uid : Option Uuid
  pub model_revision_id : Option Uuid
  pub catalog_epoch : Option ℕ
  pub adapter_key : Option String
  pub rate_card_revision_id : Option Uuid
  pub channel_resource_uid : Option Uuid
  pub channel_revision_id : Option Uuid
  pub channel_route : Option Json
  pub credential_id : Option Uuid
  pub status : LogStatus
  pub http_status : Option ℕ
  pub latency_ms : Option ℕ
  pub usage : Option Usage
  pub cost : Option ℕ
  pub cost_currency : Option String
  pub error_code : Option String
  pub error_message : Option String
  pub vendor_error : Option Json
  pub response_body : Option ResponseBody
  pub created_at : Timestamp
  pub finished_at : Option Timestamp

abbrev pub Ledger : Type 0
Ledger = List RequestLog

-- `status` is not 'pending' in the callers.
pub record FinalizePatch : Type 0 where
  pub status : LogStatus
  pub usage : Option Usage
  pub http_status : Option ℕ
  pub latency_ms : Option ℕ
  pub error_code : Option String
  pub error_message : Option String
  pub vendor_error : Option Json
  pub response_body : Option ResponseBody

-- A patch that gives a status and an error only.
abbrev pub patch_of : LogStatus → Option String → Option String → FinalizePatch
patch_of status code message = record {
  status = status;
  usage = none;
  http_status = none;
  latency_ms = none;
  error_code = code;
  error_message = message;
  vendor_error = none;
  response_body = none;
}

-- CostService.computeCost, with `none` where it throws or has no rate; the redactions.
pub record Services : Type 0 where
  pub compute_cost : Option Uuid → Option Usage → Option (ℕ × String)
  pub redact_text : String → String
  pub redact_json : Json → Json
  pub redact_body : ResponseBody → ResponseBody

abbrev pub has_key : String → Usage → Bool
has_key k = any (λ e. e.0 == k)

-- `{ ...initial, ...terminal }`: a key keeps its first place and takes its last value.
unfoldable pub set_key : String → Json → Usage → Usage
set_key k v [] = (k, v) ∷ []
set_key k v ((j, w) ∷ u) = let rest = set_key k v u in if j == k then (k, v) ∷ u else (j, w) ∷ rest

unfoldable pub spread : Usage → Usage → Usage
unfolding set_key
spread initial [] = initial
spread initial ((k, v) ∷ rest) = spread (set_key k v initial) rest

abbrev pub non_empty : Usage → Option Usage
non_empty [] = none
non_empty (e ∷ u) = some (e ∷ u)

unfoldable pub merge_usage : Option Usage → Option Usage → Option Usage
unfolding spread
merge_usage initial terminal =
    non_empty (spread (spread [] (get_or initial [])) (get_or terminal []))

abbrev pub map_option {ℓ κ} : {A : Type ℓ} {B : Type κ} → (A → B) → Option A → Option B
map_option f none = none
map_option f (some a) = some (f a)

abbrev pub success_cost : Services → FinalizePatch → RequestLog → Option (ℕ × String)
success_cost sv patch r = elim patch.status [
  | success ↦ sv.compute_cost r.rate_card_revision_id (merge_usage r.usage patch.usage)
  | _ ↦ none
]

abbrev pub finalize_set : Services → Timestamp → FinalizePatch → RequestLog → RequestLog
finalize_set sv now patch r = record r {
  status = patch.status;
  usage = merge_usage r.usage patch.usage;
  http_status = coalesce patch.http_status r.http_status;
  latency_ms = coalesce patch.latency_ms r.latency_ms;
  cost = map_option (λ c. c.0) (success_cost sv patch r);
  cost_currency = map_option (λ c. c.1) (success_cost sv patch r);
  error_code = patch.error_code;
  error_message = map_option sv.redact_text patch.error_message;
  vendor_error = map_option sv.redact_json (coalesce patch.vendor_error r.vendor_error);
  response_body = map_option sv.redact_body (coalesce patch.response_body r.response_body);
  finished_at = some now;
}

-- An empty id is none.
abbrev pub non_blank : Option String → Option String
non_blank none = none
non_blank (some s) = if s == "" then none else some s

abbrev pub accepted_id : RequestLog → Option String
accepted_id r = elim r.response_body [ none ↦ none | some b ↦ non_blank b.external_task_id ]

-- `UPDATE … WHERE id = :id AND …` on the ledger, whose ids are unique: whether a row was updated.
unfoldable pub update_log : (RequestLog → Bool) → (RequestLog → RequestLog) → Ledger → Ledger × Bool
update_log cond set [] = ([], false)
update_log cond set (r ∷ rs) =
    let (rest, hit) = update_log cond set rs in
    if cond r then (set r ∷ rest, true) else (r ∷ rest, hit)

abbrev pub is_open : Uuid → RequestLog → Bool
is_open id r = r.id == id && is_pending r.status

unfoldable pub finalize_pending :
    Services → Timestamp → Uuid → FinalizePatch → Ledger → Ledger × Bool
unfolding update_log
finalize_pending sv now id patch = update_log (is_open id) (finalize_set sv now patch)

abbrev pub finalize_unknown_set : Services → Timestamp → FinalizePatch → RequestLog → RequestLog
finalize_unknown_set sv now patch r = record r {
  status = patch.status;
  http_status = coalesce patch.http_status r.http_status;
  latency_ms = coalesce patch.latency_ms r.latency_ms;
  error_code = patch.error_code;
  error_message = map_option sv.redact_text patch.error_message;
  vendor_error = map_option sv.redact_json (coalesce patch.vendor_error r.vendor_error);
  finished_at = some now;
}

-- An attempt with an accepted vendor task is left alone.
unfoldable pub finalize_pending_without_external :
    Services → Timestamp → Uuid → FinalizePatch → Ledger → Ledger × Bool
unfolding update_log
finalize_pending_without_external sv now id patch =
    update_log (λ r. is_open id r && is_none (accepted_id r)) (finalize_unknown_set sv now patch)

abbrev pub is_invoke_of : Uuid → RequestLog → Bool
is_invoke_of logical r =
    r.source == "invoke" && (elim r.logical_request_id [ none ↦ false | some l ↦ l == logical ])

-- `COALESCE(MAX(attempt_no), 0) + 1`.
abbrev pub max_attempt : Ledger → ℕ
max_attempt [] = 0
max_attempt (r ∷ rs) = max (get_or r.attempt_no 0) (max_attempt rs)

unfoldable pub next_attempt_no : Uuid → Ledger → ℕ
next_attempt_no logical rs = max_attempt (select (is_invoke_of logical) rs) + 1

unfoldable pub has_unresolved_invoke : Uuid → Ledger → Bool
has_unresolved_invoke logical = any (λ r. is_invoke_of logical r && is_pending r.status)
