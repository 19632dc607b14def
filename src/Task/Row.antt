-- ===== src/Task/Row.antt =====
-- A row of canvas.tasks (apps/canvas-api/src/database/entities/task.entity.ts) and the CHECK
-- constraints that database/migrations/canvas/001_init_canvas_schema.sql puts on it.
use xg_canvas.Prelude.{
  ℕ, String, ◌≡◌, Bool, true, false, ◌||◌, Option, none, some, List, ◌==◌, leb, is_some, is_none,
  Uuid, Timestamp, Json, nat_eq,
}
use xg_canvas.Task.Status.{Status, queued, running, is_terminal}

-- `error.vendor`: the poller's failure count, or what an adapter left there.
pub data VendorDetail : Type 0 where
  poll_fails : ℕ → VendorDetail
  other_detail : Json → VendorDetail

pub record TaskError : Type 0 where
  pub code : String
  pub message : String
  pub vendor : Option VendorDetail

pub record Task : Type 0 where
  pub id : Uuid
  pub type : String
  pub status : Status
  pub model_id : String
  pub model_resource_uid : Uuid
  pub model_revision_id : Uuid
  pub rate_card_revision_id : Option Uuid
  pub catalog_epoch : ℕ
  pub external_task_id : Option String
  pub invoke_request_id : Option Uuid
  pub invoke_logical_request_id : Option Uuid
  pub invoke_prepared_at : Option Timestamp
  pub channel_resource_uid : Option Uuid
  pub channel_revision_id : Option Uuid
  pub channel_route : Option Json
  pub credential_id : Option Uuid
  pub source_node_id : Option Uuid
  pub project_id : Option Uuid
  pub workspace_id : Uuid
  pub owner_id : Uuid
  pub params : Json
  pub inputs : Json
  pub output_asset_ids : List Uuid
  pub text_output : Option String
  pub json_output : Option Json
  pub progress : Option ℕ  -- in thousandths
  pub error : Option TaskError
  pub retry_count : ℕ
  pub attempt_no : ℕ
  pub lease_token : Option Uuid
  pub lease_expires_at : Option Timestamp
  pub next_poll_at : Option Timestamp
  pub started_at : Option Timestamp
  pub finished_at : Option Timestamp
  pub created_at : Timestamp
  pub updated_at : Timestamp

abbrev pub Table : Type 0
Table = List Task

-- `lease_token = $2`, which is not true of NULL.
abbrev pub holds_lease : Task → Uuid → Bool
holds_lease t token = elim t.lease_token [ none ↦ false | some l ↦ l == token ]

-- `x IS NULL OR x <= NOW()`.
abbrev pub is_due : Option Timestamp → Timestamp → Bool
is_due none now = true
is_due (some at) now = leb at now

-- `x <= NOW()`, which is not true of NULL.
abbrev pub is_past : Option Timestamp → Timestamp → Bool
is_past none now = false
is_past (some at) now = leb at now

-- `lease_token IS NULL OR lease_expires_at <= NOW()`.
abbrev pub is_lease_free : Task → Timestamp → Bool
is_lease_free t now = is_none t.lease_token || is_past t.lease_expires_at now

-- `status IN ('queued', 'running')`.
abbrev pub is_in_flight : Status → Bool
is_in_flight queued = true
is_in_flight running = true
is_in_flight _ = false

-- The five CHECK constraints of the table, by their names.
pub record IsConsistent (t : Task) : Type 0 where
  pub credential_channel_pair :
      (is_some t.channel_revision_id ≡ is_some t.channel_resource_uid)
      × (is_some t.channel_route ≡ is_some t.channel_resource_uid)
      × (is_some t.credential_id ≡ is_some t.channel_resource_uid)
  pub invoke_logical_pair : is_some t.invoke_prepared_at ≡ is_some t.invoke_logical_request_id
  pub external_correlation :
      (is_some t.invoke_request_id ≡ is_some t.external_task_id)
      × (is_some t.external_task_id ≡ true → is_some t.invoke_logical_request_id ≡ true)
  pub lease_pair : is_some t.lease_expires_at ≡ is_some t.lease_token
  pub terminal_no_lease : is_terminal t.status ≡ true → t.lease_token ≡ none
