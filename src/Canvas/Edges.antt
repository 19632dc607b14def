-- ===== src/Canvas/Edges.antt =====
-- The edge operations (apps/canvas-api/src/canvas/edge.service.ts).
use xg_canvas.Prelude.{
  string_eq, nat_eq, ◌==◌, any, select, find?, Uuid, Timestamp, not_found, conflict, Result, ok,
  ◌>>=◌, ◌>>◌, require, require_some, Bool, not, ◌&&◌, ◌∷◌,
}
use xg_canvas.Canvas.Validator.{ProposedEdge, validate_edge}
use xg_canvas.Canvas.Cycle.{assert_no_cycle}
use xg_canvas.Canvas.Board.{
  CanvasEdge, Board, BoardServices, get_or_throw, bump_version, nodes_of, links_of,
}

abbrev pub same_endpoints : Uuid → ProposedEdge → CanvasEdge → Bool
same_endpoints canvas_id dto e =
    e.canvas_id == canvas_id
    && e.source_node_id == dto.source_node_id
    && e.source_handle == dto.source_handle
    && e.target_node_id == dto.target_node_id
    && e.target_handle == dto.target_handle

abbrev pub edge_of : Uuid → Uuid → ProposedEdge → CanvasEdge
edge_of fresh canvas_id dto = record {
  id = fresh;
  canvas_id = canvas_id;
  source_node_id = dto.source_node_id;
  source_handle = dto.source_handle;
  target_node_id = dto.target_node_id;
  target_handle = dto.target_handle;
  data_type = dto.data_type;
}

unfoldable pub create_edge :
    BoardServices → Timestamp → Uuid → Uuid → Uuid → ProposedEdge → Board → Result Board
create_edge sv now fresh user canvas_id dto b = do
  c ← get_or_throw sv user canvas_id b
  validate_edge dto (nodes_of canvas_id b)
  require (not (any (same_endpoints canvas_id dto) b.edges)) conflict "EDGE_EXISTS" "已存在相同的连线"
  assert_no_cycle (links_of canvas_id b.edges) dto.source_node_id dto.target_node_id
  ok (bump_version now canvas_id user (record b { edges = edge_of fresh canvas_id dto ∷ b.edges }))

abbrev pub is_edge : Uuid → Uuid → CanvasEdge → Bool
is_edge id canvas_id e = e.id == id && e.canvas_id == canvas_id

unfoldable pub remove_edge : BoardServices → Timestamp → Uuid → Uuid → Uuid → Board → Result Board
remove_edge sv now user canvas_id edge_id b = do
  c ← get_or_throw sv user canvas_id b
  e ←
      require_some (find? (is_edge edge_id canvas_id) b.edges) not_found "NOT_FOUND"
        "edge not found"
  ok (
      bump_version now canvas_id user
        (record b { edges = select (λ x. not (x.id == e.id)) b.edges }))
