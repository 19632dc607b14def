-- ===== src/Canvas/ReplaceTests.antt =====
-- The theorems on replacements at a concrete board.
use xg_canvas.Canvas.Snapshots.{Snapshot, edges_of, create_snapshot, restore_rows, restore}
use xg_canvas.Canvas.Snapshots.Restored.{restore-create_snapshot}
use xg_canvas.Prelude.{string_eq, nat_eq, All, Uuid, ok, ◌≡◌, refl, none, List, [], ◌∷◌, map}
use xg_canvas.Canvas.Validator.{BoardNode, ProposedEdge}
use xg_canvas.Canvas.Board.{Board, BoardServices, get_or_throw, bump_rows, bump_version, nodes_of}
use xg_canvas.Canvas.Edges.{edge_of}
use xg_canvas.Canvas.Replace.{
  ReplaceNode, ReplaceEdge, ReplaceCanvas, replace_row, upsert_node, upsert_nodes, upsert_edge,
  upsert_edges, valid_edges, prune_nodes, prune_edges, set_viewport, replace_canvas,
}
use xg_canvas.Canvas.Replace.Joined.{IsJoinedOn, replace_canvas-IsJoinedOn}

abbrev client_node : Uuid → ReplaceNode
client_node id = record {
  id = id;
  type = "gen_text";
  position = "{}";
  data_ = none;
  layout_zones = none;
}

abbrev ends : Uuid → Uuid → ProposedEdge
ends a b = record {
  source_node_id = a;
  source_handle = "out";
  target_node_id = b;
  target_handle = "prompt";
  data_type = "text";
}

-- A good edge, its double, and one to a node that the client does not have.
abbrev client_edges : List ReplaceEdge
client_edges =
    record { id = 80; ends = ends 1 4 }
    ∷ record { id = 81; ends = ends 1 4 }
    ∷ record { id = 82; ends = ends 1 9 }
    ∷ []

kept_ids : map (λ e. e.id) (valid_edges (1 ∷ 4 ∷ []) [] client_edges) ≡ 80 ∷ []
unfolding valid_edges
kept_ids = refl

abbrev small_board : Board
small_board = record {
  canvases =
      record {
        id = 50;
        project_id = 30;
        name = "main";
        viewport = "{}";
        version = 4;
        last_modified_by = none;
        updated_at = 0;
      }
      ∷ [];
  nodes =
      record {
        id = 1;
        canvas_id = 50;
        type = "gen_text";
        position = "{}";
        data_ = "{}";
        layout_zones = "{}";
      }
      ∷ record {
        id = 2;
        canvas_id = 50;
        type = "gen_text";
        position = "{}";
        data_ = "{}";
        layout_zones = "{}";
      }
      ∷ [];
  edges = edge_of 70 50 (ends 1 2) ∷ [];
}

abbrev any_access : BoardServices
any_access = record { get_project = λ user project. ok tt; merge_json = λ old patch. patch }

abbrev client : ReplaceCanvas
client = record {
  nodes = client_node 1 ∷ client_node 4 ∷ [];
  edges = client_edges;
  viewport = none;
}

abbrev new_nodes : List BoardNode
new_nodes = replace_row 50 (client_node 4) ∷ replace_row 50 (client_node 1) ∷ []

abbrev replaced : Board
replaced =
    bump_version 9 50 60
      (record small_board { nodes = new_nodes; edges = edge_of 80 50 (ends 1 4) ∷ [] })

replace_canvas-IsJoinedOn_example : All (IsJoinedOn 50 new_nodes) (edge_of 80 50 (ends 1 4) ∷ [])
unfolding replace_canvas prune_nodes prune_edges get_or_throw upsert_nodes upsert_node upsert_edges
    upsert_edge valid_edges set_viewport
replace_canvas-IsJoinedOn_example =
    replace_canvas-IsJoinedOn any_access 9 60 50 client small_board replaced refl

abbrev taken_snapshot : Snapshot
taken_snapshot = record {
  id = 300;
  canvas_id = 50;
  version = 4;
  nodes = small_board.nodes;
  edges = small_board.edges;
  viewport = "{}";
}

-- A snapshot is taken, the canvas is replaced, and the snapshot is restored.
restore-create_snapshot_example :
    (nodes_of 50 (bump_version 10 50 60 (restore_rows 50 taken_snapshot replaced))
      ≡ nodes_of 50 small_board)
    × (edges_of 50 (bump_version 10 50 60 (restore_rows 50 taken_snapshot replaced))
        ≡ edges_of 50 small_board)
unfolding create_snapshot restore get_or_throw bump_rows
restore-create_snapshot_example =
    restore-create_snapshot any_access 300 10 60 60 50 small_board replaced
      (bump_version 10 50 60 (restore_rows 50 taken_snapshot replaced)) [] (taken_snapshot ∷ [])
      taken_snapshot refl tt refl refl
