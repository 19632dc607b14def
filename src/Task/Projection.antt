-- ===== src/Task/Projection.antt =====
-- The write-back of a terminal task to its source node
-- (apps/canvas-api/src/database/task-node-terminal-projection.ts, called by
-- task-node-writeback.service.ts).
pub mod Frame
pub mod Keys
use xg_canvas.Prelude.{
  String, ◌+◌, Bool, true, false, ◌&&◌, ◌||◌, Option, none, some, List, [], ◌∷◌, ◌==◌, nat_eq,
  string_eq, ltb, if◌then◌else◌, any, find?, Uuid, Timestamp,
}
use xg_canvas.Task.Status.{Status, succeeded, failed, cancelled}
use xg_canvas.Task.Row.{Task, TaskError, Table}
use xg_canvas.Task.World.{World, CanvasNode, Canvas, NodeData, NodeValue, text, reference}

-- The join of a canvas with its project.
abbrev pub is_canvas_of : Uuid → Uuid → Uuid → World → Bool
is_canvas_of canvas_id project_id workspace_id w =
    any
      (λ c.
        c.id == canvas_id
        && c.project_id == project_id
        && any (λ p. p.id == project_id && p.workspace_id == workspace_id) w.projects)
      w.canvases

-- The source node of the task, if it stands on a canvas of the task's project and workspace.
unfoldable pub source_node : Uuid → Uuid → Uuid → World → Option CanvasNode
source_node node_id project_id workspace_id w =
    find? (λ n. n.id == node_id && is_canvas_of n.canvas_id project_id workspace_id w) w.nodes

-- `x = $1`, which is not true of NULL.
abbrev pub is_ref : Option Uuid → Uuid → Bool
is_ref none id = false
is_ref (some x) id = x == id

-- `(a.created_at, a.id) > (b.created_at, b.id)`.
abbrev pub newer_than : Task → Task → Bool
newer_than a b = ltb b.created_at a.created_at || (a.created_at == b.created_at && ltb b.id a.id)

-- Whether a newer task of the same node exists.
unfoldable pub is_superseded : Task → Uuid → Uuid → Table → Bool
is_superseded t node_id project_id ts =
    any
      (λ c.
        is_ref c.source_node_id node_id
        && is_ref c.project_id project_id
        && c.workspace_id == t.workspace_id
        && any (λ current. current.id == t.id && newer_than c current) ts)
      ts

unfoldable pub delete_key : String → NodeData → NodeData
delete_key k [] = []
delete_key k ((j, v) ∷ d) = let rest = delete_key k d in if j == k then rest else (j, v) ∷ rest

unfoldable pub put_key : String → NodeValue → NodeData → NodeData
put_key k v [] = (k, v) ∷ []
put_key k v ((j, u) ∷ d) = let rest = put_key k v d in if j == k then (k, v) ∷ d else (j, u) ∷ rest

abbrev pub put_some : String → Option NodeValue → NodeData → NodeData
put_some k none d = d
put_some k (some v) d = put_key k v d

abbrev pub first_asset : List Uuid → Option NodeValue
first_asset [] = none
first_asset (a ∷ rest) = some (reference a)

abbrev pub output_text : Option String → Option NodeValue
output_text none = none
output_text (some s) = some (text s)

abbrev pub error_text : Option TaskError → String
error_text none = "task failed"
error_text (some e) = e.message

-- The node's new data, or nothing for a task that is not terminal.
unfoldable pub projected : Status → Task → NodeData → Option NodeData
projected succeeded t d = some (
    delete_key "last_error" (
      put_key "output_task_id" (reference t.id) (
        put_some "output_text" (output_text t.text_output)
          (put_some "output_asset_id" (first_asset t.output_asset_ids) d))))
projected failed t d = some (put_key "last_error" (text (error_text t.error)) d)
projected cancelled t d = some d
projected _ t d = none

unfoldable pub set_node : Uuid → Uuid → NodeData → List CanvasNode → List CanvasNode
set_node id canvas_id d [] = []
set_node id canvas_id d (n ∷ ns) =
    let rest = set_node id canvas_id d ns in
    if n.id == id && n.canvas_id == canvas_id then record n { data_ = d } ∷ rest else n ∷ rest

unfoldable pub bump_canvas : Timestamp → Uuid → Uuid → List Canvas → List Canvas
bump_canvas now id by [] = []
bump_canvas now id by (c ∷ cs) =
    let rest = bump_canvas now id by cs in
    if c.id == id
    then record c { version = c.version + 1; last_modified_by = some by; updated_at = now } ∷ rest
    else c ∷ rest

abbrev pub write_node : Timestamp → Task → CanvasNode → Option NodeData → World → World × Bool
write_node now t n none w = (w, false)
write_node now t n (some d) w = (
  record w {
    nodes = set_node n.id n.canvas_id d w.nodes;
    canvases = bump_canvas now n.canvas_id t.owner_id w.canvases;
  },
  true,
)

abbrev pub project_onto : Timestamp → Task → Uuid → Uuid → Option CanvasNode → World → World × Bool
project_onto now t node_id project_id none w = (w, false)
project_onto now t node_id project_id (some n) w =
    if is_superseded t node_id project_id w.tasks
    then (w, false)
    else write_node now t n
        (projected t.status t (delete_key "task_id" (delete_key "status" n.data_))) w

abbrev pub apply_refs : Timestamp → Task → Option Uuid → Option Uuid → World → World × Bool
apply_refs now t (some node_id) (some project_id) w =
    project_onto now t node_id project_id (source_node node_id project_id t.workspace_id w) w
apply_refs now t _ _ w = (w, false)

-- applyTaskTerminalProjection.
unfoldable pub apply_terminal : Timestamp → Task → World → World × Bool
apply_terminal now t w = apply_refs now t t.source_node_id t.project_id w
