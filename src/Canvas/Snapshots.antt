-- ===== src/Canvas/Snapshots.antt =====
-- Snapshots of a canvas (apps/canvas-api/src/canvas/snapshot.service.ts). The payload is kept as rows;
-- in the source it is their JSON.
pub mod Restored
use xg_canvas.Prelude.{
  string_eq, nat_eq, ◌==◌, any, select, find?, Uuid, Timestamp, Json, not_found, Result, ok, ◌>>=◌,
  ◌>>◌, require_some, ℕ, Bool, not, ◌&&◌, ◌||◌, Option, none, some, List, ◌∷◌, ◌++◌, map,
}
use xg_canvas.Canvas.Validator.{BoardNode}
use xg_canvas.Canvas.Board.{
  CanvasEdge, BoardCanvas, Board, BoardServices, get_or_throw, bump_version, nodes_of,
}
use xg_canvas.Canvas.Replace.{set_viewport}

pub record Snapshot : Type 0 where
  pub id : Uuid
  pub canvas_id : Uuid
  pub version : ℕ
  pub nodes : List BoardNode
  pub edges : List CanvasEdge
  pub viewport : Json

abbrev pub edges_of : Uuid → Board → List CanvasEdge
edges_of canvas_id b = select (λ e. e.canvas_id == canvas_id) b.edges

abbrev pub snapshot_of : Uuid → BoardCanvas → Uuid → Board → Snapshot
snapshot_of fresh c canvas_id b = record {
  id = fresh;
  canvas_id = canvas_id;
  version = c.version;
  nodes = nodes_of canvas_id b;
  edges = edges_of canvas_id b;
  viewport = c.viewport;
}

abbrev pub is_version : Uuid → ℕ → Snapshot → Bool
is_version canvas_id version s = s.canvas_id == canvas_id && s.version == version

abbrev pub snapshot_missing :
    Uuid
    → BoardCanvas
    → Uuid
    → Board
    → Option Snapshot
    → List Snapshot
    → Result (List Snapshot × Snapshot)
snapshot_missing fresh c canvas_id b none ss =
    ok (snapshot_of fresh c canvas_id b ∷ ss, snapshot_of fresh c canvas_id b)
snapshot_missing fresh c canvas_id b (some s) ss = ok (ss, s)

-- A version is kept once.
unfoldable pub create_snapshot :
    BoardServices → Uuid → Uuid → Uuid → Board → List Snapshot → Result (List Snapshot × Snapshot)
create_snapshot sv fresh user canvas_id b ss = do
  c ← get_or_throw sv user canvas_id b
  snapshot_missing fresh c canvas_id b (find? (is_version canvas_id c.version) ss) ss

abbrev pub node_on : Uuid → BoardNode → BoardNode
node_on canvas_id n = record n { canvas_id = canvas_id }

abbrev pub edge_on : Uuid → CanvasEdge → CanvasEdge
edge_on canvas_id e = record e { canvas_id = canvas_id }

-- An edge of one of the nodes goes with it.
abbrev pub touches : List BoardNode → CanvasEdge → Bool
touches ns e = any (λ n. n.id == e.source_node_id || n.id == e.target_node_id) ns

-- The canvas's rows are deleted, and those of the payload saved.
unfoldable pub restore_rows : Uuid → Snapshot → Board → Board
restore_rows canvas_id s b = record b {
  nodes = map (node_on canvas_id) s.nodes ++ select (λ n. not (n.canvas_id == canvas_id)) b.nodes;
  edges =
      map (edge_on canvas_id) s.edges
      ++ select (λ e. not (e.canvas_id == canvas_id || touches (nodes_of canvas_id b) e)) b.edges;
  canvases = set_viewport canvas_id (some s.viewport) b.canvases;
}

abbrev pub is_snapshot : Uuid → Uuid → Snapshot → Bool
is_snapshot id canvas_id s = s.id == id && s.canvas_id == canvas_id

unfoldable pub restore :
    BoardServices → Timestamp → Uuid → Uuid → Uuid → Board → List Snapshot → Result Board
restore sv now user canvas_id snapshot_id b ss = do
  s ←
      require_some (find? (is_snapshot snapshot_id canvas_id) ss) not_found "NOT_FOUND"
        "snapshot not found"
  c ← get_or_throw sv user canvas_id b
  ok (bump_version now canvas_id user (restore_rows canvas_id s b))
