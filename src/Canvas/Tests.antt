-- ===== src/Canvas/Tests.antt =====
-- The theorems on canvases at concrete boards.
use xg_canvas.Prelude.{
  string_eq, nat_eq, is_some, Uuid, ok, ◌+◌, String, ◌≡◌, refl, ◌↔◌, true, none, List, [], ◌∷◌,
}
use xg_canvas.Canvas.Cycle.{
  Link, add_link, add_links, targets_of, push_all, search, assert_no_cycle,
}
use xg_canvas.Canvas.Cycle.Paths.{PathTo}
use xg_canvas.Canvas.Cycle.Acyclic.{assert_no_cycle_iff, IsAcyclic, assert_no_cycle-IsAcyclic}
use xg_canvas.Canvas.Io.{parse_edge_data_type}
use xg_canvas.Canvas.Rules.{port_matches, is_connection_allowed}
use xg_canvas.Canvas.NodeSpec.{node_specs, get_node_spec}
use xg_canvas.Canvas.Validator.{
  BoardNode, ProposedEdge, find_source_port, find_target_port, check_ports, check_nodes,
  validate_edge,
}
use xg_canvas.Canvas.Validator.Accepted.{IsConnection, validate_edge-IsConnection}
use xg_canvas.Canvas.Board.{Board, BoardServices, get_or_throw, bump_version, links_of}
use xg_canvas.Canvas.Edges.{edge_of, create_edge}
use xg_canvas.Canvas.Sound.{IsSound}
use xg_canvas.Canvas.Edit.{creates_edge, apply_edit, apply_edit-IsSound}
use xg_canvas.Canvas.Mutator.{
  BatchOp, op_create_edge, BatchResult, no_result, resolve_ref, batch_create_edge, batch_op,
  batch_ops, apply_batch,
}
use xg_canvas.Canvas.Mutator.Batch.{IsJoined, apply_batch-IsJoined}

abbrev link : Uuid → Uuid → Link
link a b = record { source_node_id = a; target_node_id = b }

-- A chain may be extended, and a cycle may not be closed.
chain_extends : assert_no_cycle (link 1 2 ∷ link 2 3 ∷ []) 3 4 ≡ ok tt
unfolding assert_no_cycle search add_links add_link targets_of push_all
chain_extends = refl

cycle_is_refused : is_some (search 4 (add_links (link 1 2 ∷ link 2 3 ∷ []) []) 3 (1 ∷ []) []) ≡ true
unfolding search add_links add_link targets_of push_all
cycle_is_refused = refl

assert_no_cycle_iff_example :
    (assert_no_cycle (link 1 2 ∷ []) 2 3 ≡ ok tt) ↔ (¬ PathTo (link 1 2 ∷ []) 2 3)
assert_no_cycle_iff_example = assert_no_cycle_iff (link 1 2 ∷ []) 2 3

no_link-IsAcyclic : IsAcyclic []
no_link-IsAcyclic e k p = elim k [ ]

one_link-IsAcyclic : IsAcyclic (link 1 2 ∷ [])
unfolding assert_no_cycle search add_links targets_of push_all
one_link-IsAcyclic = assert_no_cycle-IsAcyclic [] (link 1 2) no_link-IsAcyclic refl

abbrev board_node : Uuid → String → BoardNode
board_node id type = record {
  id = id;
  canvas_id = 50;
  type = type;
  position = "{}";
  data_ = "{}";
  layout_zones = "{}";
}

abbrev board : Board
board = record {
  canvases =
      record {
        id = 50;
        project_id = 30;
        name = "main";
        viewport = "{}";
        version = 4;
        last_modified_by = none;
        updated_at = 0;
      }
      ∷ [];
  nodes = board_node 1 "gen_text" ∷ board_node 2 "gen_text" ∷ board_node 3 "gen_image" ∷ [];
  edges = [];
}

abbrev open_services : BoardServices
open_services = record { get_project = λ user project. ok tt; merge_json = λ old patch. patch }

abbrev text_edge : Uuid → Uuid → ProposedEdge
text_edge a b = record {
  source_node_id = a;
  source_handle = "out";
  target_node_id = b;
  target_handle = "prompt";
  data_type = "text";
}

validate_edge-IsConnection_example : IsConnection (text_edge 1 3) board.nodes
unfolding validate_edge check_nodes check_ports find_source_port find_target_port get_node_spec
    node_specs parse_edge_data_type is_connection_allowed port_matches
validate_edge-IsConnection_example = validate_edge-IsConnection (text_edge 1 3) board.nodes refl

board-IsSound : IsSound board
unfolding links_of
board-IsSound = record { endpoints = tt; unique = tt; acyclic = λ c e k p. elim k [ ] }

apply_edit-IsSound_example :
    IsSound (bump_version 9 50 60 (record board { edges = edge_of 70 50 (text_edge 1 3) ∷ [] }))
unfolding apply_edit create_edge get_or_throw validate_edge check_nodes check_ports find_source_port
    find_target_port get_node_spec node_specs parse_edge_data_type is_connection_allowed
    port_matches assert_no_cycle search add_links add_link targets_of push_all links_of
apply_edit-IsSound_example =
    apply_edit-IsSound open_services 9 60 50 (creates_edge 70 (text_edge 1 3)) board
      (bump_version 9 50 60 (record board { edges = edge_of 70 50 (text_edge 1 3) ∷ [] })) refl
      board-IsSound

abbrev two_edges : List BatchOp
two_edges = op_create_edge 1 "out" 2 "prompt" "text" ∷ op_create_edge 2 "out" 1 "prompt" "text" ∷ []

abbrev after_batch : Board × BatchResult
after_batch = (
  bump_version 9 50 60 (record board {
    edges = edge_of 701 50 (text_edge 2 1) ∷ edge_of 700 50 (text_edge 1 2) ∷ [];
  }),
  record no_result { created_edge_ids = 700 ∷ 701 ∷ [] },
)

-- A batch accepts two edges that close a cycle.
batch_makes_cycle :
    apply_batch open_services (λ n. 700 + n) 9 50 two_edges 60 board ≡ ok after_batch
unfolding apply_batch batch_ops batch_op batch_create_edge resolve_ref validate_edge check_nodes
    check_ports find_source_port find_target_port get_node_spec node_specs parse_edge_data_type
    is_connection_allowed port_matches
batch_makes_cycle = refl

apply_batch-IsJoined_example : IsJoined after_batch.0
apply_batch-IsJoined_example =
    apply_batch-IsJoined open_services (λ n. 700 + n) 9 50 two_edges 60 board after_batch
      batch_makes_cycle (tt, tt)
