-- ===== src/Task/Samples.antt =====
-- Rows and worlds that the tests of the task lifecycle run on.
use xg_canvas.RequestLog.{RequestLog, pending as log_pending}
use xg_canvas.Task.Terminal.Succeed.{TaskSuccessResult}
use xg_canvas.Prelude.{nat_eq, string_eq, Uuid, Timestamp, none, some, [], ◌∷◌}
use xg_canvas.RequestLog.{Services}
use xg_canvas.Task.Status.{pending, queued, running, succeeded, status_eq}
use xg_canvas.Task.Row.{Task, Table}
use xg_canvas.Task.World.{text, World}

-- A row as TaskService.create inserts it.
abbrev pub created : Uuid → Timestamp → Task
created id at = record {
  id = id;
  type = "gen.video";
  status = pending;
  model_id = "m1";
  model_resource_uid = 100;
  model_revision_id = 101;
  rate_card_revision_id = none;
  catalog_epoch = 1;
  external_task_id = none;
  invoke_request_id = none;
  invoke_logical_request_id = none;
  invoke_prepared_at = none;
  channel_resource_uid = none;
  channel_revision_id = none;
  channel_route = none;
  credential_id = none;
  source_node_id = none;
  project_id = none;
  workspace_id = 50;
  owner_id = 60;
  params = "{}";
  inputs = "{}";
  output_asset_ids = [];
  text_output = none;
  json_output = none;
  progress = none;
  error = none;
  retry_count = 0;
  attempt_no = 0;
  lease_token = none;
  lease_expires_at = none;
  next_poll_at = none;
  started_at = none;
  finished_at = none;
  created_at = at;
  updated_at = at;
}

-- Claimed at 1000 under the token 7 and not started.
abbrev pub leased : Task
leased = record (created 1 500) {
  status = queued;
  attempt_no = 1;
  lease_token = some 7;
  lease_expires_at = some 121000;
}

-- Started, with the logical request 900.
abbrev pub prepared : Task
prepared = record leased {
  status = running;
  started_at = some 1000;
  invoke_logical_request_id = some 900;
  invoke_prepared_at = some 1000;
}

abbrev pub finished : Task
finished = record prepared {
  status = succeeded;
  lease_token = none;
  lease_expires_at = none;
  finished_at = some 2000;
}

abbrev pub two_tasks : Table
two_tasks = leased ∷ created 2 600 ∷ []

abbrev pub three_tasks : Table
three_tasks = prepared ∷ record finished { id = 3 } ∷ created 2 600 ∷ []

abbrev pub plain_services : Services
plain_services = record {
  compute_cost = λ rate usage. none;
  redact_text = λ s. s;
  redact_json = λ j. j;
  redact_body = λ b. b;
}

abbrev pub world_of : Table → World
world_of ts = record {
  tasks = ts;
  nodes = [];
  canvases = [];
  projects = [];
  assets = [];
  logs = [];
  sent = [];
}

-- The pending row of request 500.
abbrev pub open_log : RequestLog
open_log = record {
  id = 500;
  logical_request_id = some 900;
  attempt_no = some 1;
  source = "invoke";
  task_id = some 1;
  workspace_id = some 70;
  model_id = some "m";
  model_resource_uid = some 80;
  model_revision_id = some 81;
  catalog_epoch = some 1;
  adapter_key = some "http";
  rate_card_revision_id = none;
  channel_resource_uid = some 90;
  channel_revision_id = some 91;
  channel_route = some "route";
  credential_id = some 92;
  status = log_pending;
  http_status = none;
  latency_ms = none;
  usage = none;
  cost = none;
  cost_currency = none;
  error_code = none;
  error_message = none;
  vendor_error = none;
  response_body = none;
  created_at = 1000;
  finished_at = none;
}

-- A running task with the invoke request 500, whose source node 40 stands on canvas 50 of project
-- 30, and another canvas.
abbrev pub canvas_world : World
canvas_world =
    record (world_of (
      record prepared {
        invoke_request_id = some 500;
        source_node_id = some 40;
        project_id = some 30;
        workspace_id = 70;
      }
      ∷ created 2 600
      ∷ [])) {
        nodes =
            record {
              id = 40;
              canvas_id = 50;
              data_ = ("status", text "x") ∷ ("title", text "t") ∷ [];
            }
            ∷ record { id = 41; canvas_id = 50; data_ = [] }
            ∷ [];
        canvases =
            record {
              id = 50;
              project_id = 30;
              version = 7;
              last_modified_by = none;
              updated_at = 0;
            }
            ∷ record {
              id = 51;
              project_id = 30;
              version = 1;
              last_modified_by = none;
              updated_at = 0;
            }
            ∷ [];
        projects = record { id = 30; workspace_id = 70 } ∷ [];
        logs = open_log ∷ record open_log { id = 501 } ∷ [];
      }

-- A vendor's success with one image and a text.
abbrev pub image_result : TaskSuccessResult
image_result = record {
  assets = record { asset_type = "image"; storage_key = "a.png"; role = none } ∷ [];
  text = some "done";
  json = none;
  channel_resource_uid = some 90;
  channel_revision_id = some 91;
  channel_route = some "route";
  credential_id = some 92;
  usage = none;
}
