-- ===== src/Task/Terminal.antt =====
-- The terminal transitions and their transactional projections
-- (apps/canvas-api/src/task/task-terminal.service.ts, with persistProduced and discardProduced of
-- apps/canvas-api/src/asset/asset.service.ts). The ids of new assets and the services of the ledger
-- are arguments.
pub mod Succeed
pub mod Fail
pub mod Cancel
pub mod Effects
pub mod Race
pub mod Unlocks
pub mod CancelRace
use xg_canvas.Prelude.{
  ℕ, String, Bool, not, ◌&&◌, Option, none, some, List, [], ◌∷◌, ◌==◌, nat_eq, string_eq, coalesce,
  get_or, is_some, if◌then◌else◌, find?, Uuid, Timestamp, Json,
}
use xg_canvas.RequestLog.{error, Services, FinalizePatch, finalize_pending}
use xg_canvas.Task.Status.{Status, status_eq}
use xg_canvas.Task.Row.{Task, TaskError, Table, holds_lease, is_in_flight}
use xg_canvas.Task.Table.{update_first}
use xg_canvas.Task.World.{World, cancel_vendor, Outcome, returned, thrown, send}
use xg_canvas.Task.Projection.{apply_terminal}

-- A field that is absent is `none`; one that is null, `some none`.
pub record TerminalPatch : Type 0 where
  pub output_asset_ids : Option (List Uuid)
  pub text_output : Option (Option String)
  pub json_output : Option (Option Json)
  pub progress : Option (Option ℕ)
  pub error : Option (Option TaskError)
  pub channel_resource_uid : Option Uuid
  pub channel_revision_id : Option Uuid
  pub channel_route : Option Json
  pub credential_id : Option Uuid

-- The condition of `lockLeased` and of `updateTerminal`.
abbrev pub leased_cond : Uuid → Uuid → Task → Bool
leased_cond id token t = t.id == id && holds_lease t token && is_in_flight t.status

abbrev pub terminal_set : Timestamp → Status → TerminalPatch → Task → Task
terminal_set now status patch t = record t {
  status = status;
  output_asset_ids = get_or patch.output_asset_ids t.output_asset_ids;
  text_output = get_or patch.text_output t.text_output;
  json_output = get_or patch.json_output t.json_output;
  progress = get_or patch.progress t.progress;
  error = get_or patch.error t.error;
  channel_resource_uid = coalesce patch.channel_resource_uid t.channel_resource_uid;
  channel_revision_id = coalesce patch.channel_revision_id t.channel_revision_id;
  channel_route = coalesce patch.channel_route t.channel_route;
  credential_id = coalesce patch.credential_id t.credential_id;
  finished_at = some now;
  next_poll_at = none;
  lease_token = none;
  lease_expires_at = none;
  updated_at = now;
}

unfoldable pub update_terminal :
    Timestamp → Uuid → Uuid → Status → TerminalPatch → Table → Table × Option Task
update_terminal now id token status patch =
    update_first (leased_cond id token) (terminal_set now status patch)

unfoldable pub lock_leased : Uuid → Uuid → Table → Option Task
lock_leased id token ts = find? (leased_cond id token) ts

-- `assertInvokeFinalized` after `finalizePending`, where the task has an invoke request.
abbrev pub finalize_request :
    Services → Timestamp → FinalizePatch → Option Uuid → Task → World → Outcome (Option Task)
finalize_request sv now patch none t w = returned w (some t)
finalize_request sv now patch (some request_id) t w =
    let (logs', finalized) = finalize_pending sv now request_id patch w.logs in
    if finalized
    then returned (record w { logs = logs' }) (some t)
    else thrown "pending invoke request log is missing"

-- The common end of the three transactions: the write-back and the ledger.
abbrev pub settle :
    Services → Timestamp → FinalizePatch → Option Task → World → Outcome (Option Task)
settle sv now patch none w = returned w none
settle sv now patch (some t) w =
    finalize_request sv now patch t.invoke_request_id t (apply_terminal now t w).0

-- A call's new world, and its value or the exception that it throws.
pub data Reply {ℓ} (A : Type ℓ) : Type ℓ where
  value : A → Reply A
  raised : String → Reply A

-- `cancelVendorBestEffort`: the request goes out if the routing is complete.
unfoldable pub cancel_vendor_best_effort : Task → World → World
cancel_vendor_best_effort t w = elim t.external_task_id [
  | none ↦ w
  | some external ↦
      if not (external == "")
        && is_some t.channel_resource_uid
        && is_some t.channel_revision_id
        && is_some t.channel_route
        && is_some t.credential_id
      then send (cancel_vendor t.id external ∷ []) w
      else w
]
