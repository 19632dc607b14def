-- ===== src/Task/Terminal/Succeed.antt =====
-- `succeed` of apps/canvas-api/src/task/task-terminal.service.ts, with persistProduced and
-- discardProduced of apps/canvas-api/src/asset/asset.service.ts. The ids of new assets are an argument.
use xg_canvas.Prelude.{
  ◌==◌, nat_eq, string_eq, if◌then◌else◌, is_some, get_or, any, Uuid, Timestamp, Json, ℕ, suc,
  String, Bool, true, false, Option, none, some, List, [], ◌∷◌, ◌++◌, map,
}
use xg_canvas.RequestLog.{success, Usage, FinalizePatch, patch_of, Services}
use xg_canvas.Task.Status.{succeeded, status_eq}
use xg_canvas.Task.Row.{Task}
use xg_canvas.Task.World.{Asset, delete_object, World, Outcome, returned, thrown, send}
use xg_canvas.Task.Terminal.{
  TerminalPatch, update_terminal, lock_leased, settle, Reply, value, raised,
}

pub record ProducedAsset : Type 0 where
  pub asset_type : String
  pub storage_key : String
  pub role : Option String

pub record TaskSuccessResult : Type 0 where
  pub assets : List ProducedAsset
  pub text : Option String
  pub json : Option Json
  pub channel_resource_uid : Option Uuid
  pub channel_revision_id : Option Uuid
  pub channel_route : Option Json
  pub credential_id : Option Uuid
  pub usage : Option Usage

abbrev pub asset_of : Task → Uuid → ProducedAsset → Asset
asset_of t id p = record {
  id = id;
  type = p.asset_type;
  scope = if is_some t.project_id then "project" else "workspace";
  visibility = if is_some t.project_id then "project" else "private";
  workspace_id = t.workspace_id;
  project_id = t.project_id;
  owner_id = t.owner_id;
  task_id = t.id;
  storage_key = p.storage_key;
  role = p.role;
}

-- The rows of the produced assets; `fresh n` is the id of the n-th.
unfoldable pub asset_rows : Task → (ℕ → Uuid) → ℕ → List ProducedAsset → List Asset
asset_rows t fresh n [] = []
asset_rows t fresh n (p ∷ ps) = asset_of t (fresh n) p ∷ asset_rows t fresh (suc n) ps

-- `[...new Set(keys)]`: the first of each.
unfoldable pub unique_keys : List String → List String → List String
unique_keys seen [] = []
unique_keys seen (k ∷ ks) =
    let rest = unique_keys (k ∷ seen) ks in
    let skip = unique_keys seen ks in if any (λ s. s == k) seen then skip else k ∷ rest

unfoldable pub discard_produced : List ProducedAsset → World → World
unfolding unique_keys
discard_produced ps w = send (map delete_object (unique_keys [] (map (λ p. p.storage_key) ps))) w

abbrev pub success_patch : List Uuid → TaskSuccessResult → TerminalPatch
success_patch ids r = record {
  output_asset_ids = some ids;
  text_output = some r.text;
  json_output = some r.json;
  progress = some (some 1000);
  error = some none;
  channel_resource_uid = r.channel_resource_uid;
  channel_revision_id = r.channel_revision_id;
  channel_route = r.channel_route;
  credential_id = r.credential_id;
}

abbrev pub success_log : TaskSuccessResult → FinalizePatch
success_log r = record (patch_of success none none) {
  usage = r.usage;
  response_body = some (record { external_task_id = none; rest = get_or r.text "" });
}

abbrev pub succeed_locked :
    Services
    → Timestamp
    → (ℕ → Uuid)
    → Uuid
    → Uuid
    → TaskSuccessResult
    → Option Task
    → World
    → Outcome (Option Task)
succeed_locked sv now fresh id token r none w = returned w none
succeed_locked sv now fresh id token r (some t) w =
    let rows = asset_rows t fresh 0 r.assets in
    let patch = success_patch (map (λ a. a.id) rows) r in
    let (tasks', updated) = update_terminal now id token succeeded patch w.tasks in
    settle sv now (success_log r) updated (record w { tasks = tasks'; assets = w.assets ++ rows })

unfoldable pub succeed_transaction :
    Services
    → Timestamp
    → (ℕ → Uuid)
    → Uuid
    → Uuid
    → TaskSuccessResult
    → World
    → Outcome (Option Task)
succeed_transaction sv now fresh id token r w =
    succeed_locked sv now fresh id token r (lock_leased id token w.tasks) w

abbrev pub succeed_end : TaskSuccessResult → World → Outcome (Option Task) → World × Reply Bool
succeed_end r w (returned w' none) = (discard_produced r.assets w', value false)
succeed_end r w (returned w' (some t)) = (w', value true)
succeed_end r w (thrown e) = (discard_produced r.assets w, raised e)

unfoldable pub succeed :
    Services → Timestamp → (ℕ → Uuid) → Uuid → Uuid → TaskSuccessResult → World → World × Reply Bool
succeed sv now fresh id token r w = succeed_end r w (succeed_transaction sv now fresh id token r w)
