-- ===== src/Task/Retry.antt =====
-- The manual retry (apps/canvas-api/src/task/task-retry.service.ts). Membership, project access,
-- permissions and the catalog's pin check are other services, and arguments here.
pub mod Effect
use xg_canvas.Prelude.{
  ◌==◌, nat_eq, string_eq, is_some, Uuid, Timestamp, forbidden, not_found, conflict, Result, ok,
  ◌>>=◌, ◌>>◌, require, require_some, ◌+◌, String, Bool, true, false, not, ◌&&◌, Option, none, some,
  [],
}
use xg_canvas.RequestLog.{has_unresolved_invoke}
use xg_canvas.Task.Status.{Status, queued, failed, cancelled, status_eq}
use xg_canvas.Task.Row.{Task, Table}
use xg_canvas.Task.Table.{update_first, find_by_id}
use xg_canvas.Task.World.{Project, World}
use xg_canvas.Task.Projection.{source_node}

-- What the services answer: `check_member` and `get_project` may throw.
pub record Access : Type 0 where
  pub check_member : Uuid → Uuid → Result (Unit {0})
  pub get_project : Uuid → Uuid → Result Project
  pub can : Uuid → String → Uuid → Bool
  pub has_task_pin : Task → Bool

unfoldable pub get_owned_task : Uuid → Uuid → Uuid → Table → Result Task
get_owned_task user workspace id ts = do
  t ← require_some (find_by_id id ts) not_found "NOT_FOUND" "task not found"
  require (t.owner_id == user) forbidden "FORBIDDEN" "not your task"
  require (t.workspace_id == workspace) not_found "NOT_FOUND" "task not found"
  ok t

abbrev pub is_retryable_status : Status → Bool
is_retryable_status failed = true
is_retryable_status cancelled = true
is_retryable_status _ = false

abbrev pub check_retryable : Task → Result (Unit {0})
check_retryable t =
    require (is_retryable_status t.status) forbidden "CONFLICT"
      "only failed/cancelled tasks can retry"

abbrev pub has_unresolved : Task → World → Bool
has_unresolved t w = elim t.invoke_logical_request_id [
  | none ↦ false
  | some l ↦ has_unresolved_invoke l w.logs
]

abbrev pub check_source_node : Access → Uuid → Uuid → Uuid → Uuid → World → Result (Unit {0})
check_source_node ac user workspace project node w = do
  require (ac.can user "project.canvas.node.edit" project) forbidden "FORBIDDEN"
      "project.canvas.node.edit is required"
  require (is_some (source_node node project workspace w)) forbidden "FORBIDDEN"
      "source node does not belong to the task project"

abbrev pub check_source : Access → Uuid → Uuid → Uuid → Option Uuid → World → Result (Unit {0})
check_source ac user workspace project none w = ok tt
check_source ac user workspace project (some node) w =
    check_source_node ac user workspace project node w

abbrev pub check_project :
    Access → Uuid → Uuid → Option Uuid → Option Uuid → World → Result (Unit {0})
check_project ac user workspace none source w = ok tt
check_project ac user workspace (some project) source w = do
  p ← ac.get_project user project
  require (p.workspace_id == workspace) forbidden "FORBIDDEN"
      "project is outside the active workspace"
  require (ac.can user "project.task.run" project) forbidden "FORBIDDEN"
      "project.task.run is required"
  check_source ac user workspace project source w

abbrev pub retry_cond : Uuid → Uuid → Uuid → Task → Bool
retry_cond id user workspace t =
    t.id == id && t.owner_id == user && t.workspace_id == workspace && is_retryable_status t.status

abbrev pub retry_set : Timestamp → Task → Task
retry_set now t = record t {
  status = queued;
  external_task_id = none;
  invoke_request_id = none;
  invoke_logical_request_id = none;
  invoke_prepared_at = none;
  channel_resource_uid = none;
  channel_revision_id = none;
  channel_route = none;
  credential_id = none;
  progress = none;
  error = none;
  started_at = none;
  finished_at = none;
  next_poll_at = some now;
  lease_token = none;
  lease_expires_at = none;
  output_asset_ids = [];
  text_output = none;
  json_output = none;
  retry_count = t.retry_count + 1;
  updated_at = now;
}

abbrev pub retry_end : Uuid → Uuid → Uuid → World → Option Task → Result (World × Task)
retry_end user workspace id w (some t) = ok (w, t)
retry_end user workspace id w none = do
  latest ← get_owned_task user workspace id w.tasks
  check_retryable latest
  ok (w, latest)

unfoldable pub retry : Access → Timestamp → Uuid → Uuid → Uuid → World → Result (World × Task)
unfolding get_owned_task
retry ac now user workspace id w = do
  ac.check_member user workspace
  current ← get_owned_task user workspace id w.tasks
  check_retryable current
  require (not (has_unresolved current w)) conflict "INVOKE_ATTEMPT_UNRESOLVED"
      "the previous vendor attempt is still being recovered or cancelled"
  require (ac.has_task_pin current) conflict "CATALOG_REVISION_MISSING"
      "task Catalog revision is no longer available"
  check_project ac user workspace current.project_id current.source_node_id w
  let (tasks', row) = update_first (retry_cond id user workspace) (retry_set now) w.tasks
  retry_end user workspace id (record w { tasks = tasks' }) row
