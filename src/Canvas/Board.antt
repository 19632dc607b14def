-- ===== src/Canvas/Board.antt =====
-- The tables of a canvas and the operations that the canvas services share
-- (apps/canvas-api/src/canvas/canvas.service.ts; rows in
-- apps/canvas-api/src/database/entities/canvas.entity.ts). Project access and the merge of two JSON
-- objects are arguments. The order of the rows carries no meaning; a new row comes first.
use xg_canvas.Prelude.{
  if◌then◌else◌, string_eq, nat_eq, ◌==◌, select, find?, Uuid, Timestamp, Json, not_found, Result,
  ok, ◌>>=◌, ◌>>◌, require_some, ℕ, ◌+◌, String, Option, some, List, [], ◌∷◌,
}
use xg_canvas.Canvas.Cycle.{Link}
use xg_canvas.Canvas.Validator.{BoardNode}

pub record CanvasEdge : Type 0 where
  pub id : Uuid
  pub canvas_id : Uuid
  pub source_node_id : Uuid
  pub source_handle : String
  pub target_node_id : Uuid
  pub target_handle : String
  pub data_type : String

pub record BoardCanvas : Type 0 where
  pub id : Uuid
  pub project_id : Uuid
  pub name : String
  pub viewport : Json
  pub version : ℕ
  pub last_modified_by : Option Uuid
  pub updated_at : Timestamp

pub record Board : Type 0 where
  pub canvases : List BoardCanvas
  pub nodes : List BoardNode
  pub edges : List CanvasEdge

-- `ProjectService.getOrThrow` and `{ ...a, ...b }`.
pub record BoardServices : Type 0 where
  pub get_project : Uuid → Uuid → Result (Unit {0})
  pub merge_json : Json → Json → Json

unfoldable pub get_or_throw : BoardServices → Uuid → Uuid → Board → Result BoardCanvas
get_or_throw sv user canvas_id b = do
  c ←
      require_some (find? (λ c. c.id == canvas_id) b.canvases) not_found "NOT_FOUND"
        "canvas not found"
  sv.get_project user c.project_id
  ok c

abbrev pub bumped : Timestamp → Uuid → BoardCanvas → BoardCanvas
bumped now user c = record c {
  version = c.version + 1;
  last_modified_by = some user;
  updated_at = now;
}

unfoldable pub bump_rows : Timestamp → Uuid → Uuid → List BoardCanvas → List BoardCanvas
bump_rows now canvas_id user [] = []
bump_rows now canvas_id user (c ∷ cs) =
    let rest = bump_rows now canvas_id user cs in
    if c.id == canvas_id then bumped now user c ∷ rest else c ∷ rest

-- `bumpVersion`.
abbrev pub bump_version : Timestamp → Uuid → Uuid → Board → Board
bump_version now canvas_id user b = record b { canvases = bump_rows now canvas_id user b.canvases }

-- `findByCanvas`.
abbrev pub nodes_of : Uuid → Board → List BoardNode
nodes_of canvas_id b = select (λ n. n.canvas_id == canvas_id) b.nodes

abbrev pub link_of : CanvasEdge → Link
link_of e = record { source_node_id = e.source_node_id; target_node_id = e.target_node_id }

-- `edges.find({ where: { canvas_id }, select: { source_node_id, target_node_id } })`.
unfoldable pub links_of : Uuid → List CanvasEdge → List Link
links_of canvas_id [] = []
links_of canvas_id (e ∷ es) =
    let rest = links_of canvas_id es in if e.canvas_id == canvas_id then link_of e ∷ rest else rest
