-- ===== src/Canvas/Edit.antt =====
-- The edits of a canvas through the node and the edge service.
use xg_canvas.Prelude.{
  string_eq, nat_eq, ◌==◌, any, find?, Uuid, Timestamp, not_found, conflict, Result, ok,
  require_some-ok, require-ok, bind-ok, ok-injective, ◌≡◌, ◌∙◌, subst, not, Option, none, some,
  List, [], ◌∷◌, arith,
}
use xg_canvas.Canvas.Cycle.{assert_no_cycle}
use xg_canvas.Canvas.Validator.{BoardNode, ProposedEdge, validate_edge}
use xg_canvas.Canvas.Validator.Accepted.{validate_edge-IsConnection}
use xg_canvas.Canvas.Board.{Board, BoardServices, get_or_throw, bump_rows, nodes_of, links_of}
use xg_canvas.Canvas.Nodes.{
  CreateNode, UpdateNode, new_node, create_node, is_node, patched, save_node, update_node,
  patch_rows, save_nodes, named_rows, saved_batch, batch_update_nodes, delete_node, remove_found,
  remove_node,
}
use xg_canvas.Canvas.Edges.{same_endpoints, create_edge, is_edge, remove_edge}
use xg_canvas.Canvas.Sound.{
  IsSound, fewer_edges-IsSound, more_nodes-IsSound, save_node-any, save_nodes-any,
  delete_node-IsSound, new_edge-IsSound,
}

-- A request, with the id of the row that it creates.
pub data Edit : Type 0 where
  creates_node : Uuid → CreateNode → Edit
  updates_node : Uuid → UpdateNode → Edit
  updates_nodes : List (Uuid × UpdateNode) → Edit
  removes_node : Uuid → Edit
  creates_edge : Uuid → ProposedEdge → Edit
  removes_edge : Uuid → Edit

unfoldable pub apply_edit : BoardServices → Timestamp → Uuid → Uuid → Edit → Board → Result Board
unfolding create_node batch_update_nodes update_node remove_node create_edge remove_edge
apply_edit sv now user canvas_id (creates_node fresh dto) b =
    create_node sv now fresh user canvas_id dto b
apply_edit sv now user canvas_id (updates_node id dto) b =
    update_node sv now user canvas_id id dto b
apply_edit sv now user canvas_id (updates_nodes patches) b =
    batch_update_nodes sv now user canvas_id patches b
apply_edit sv now user canvas_id (removes_node id) b = remove_node sv now user canvas_id id b
apply_edit sv now user canvas_id (creates_edge fresh dto) b =
    create_edge sv now fresh user canvas_id dto b
apply_edit sv now user canvas_id (removes_edge id) b = remove_edge sv now user canvas_id id b

module _ (sv : BoardServices) (now : Timestamp) (user canvas_id : Uuid) (b b' : Board) where
  create_node-IsSound :
      (fresh : Uuid) (dto : CreateNode)
      → create_node sv now fresh user canvas_id dto b ≡ ok b'
      → IsSound b
      → IsSound b'
  unfolding create_node
  create_node-IsSound fresh dto h s =
      let (c, a, h1) = bind-ok (get_or_throw sv user canvas_id b) _ b' h in
      subst IsSound (ok-injective h1) (
        more_nodes-IsSound b (bump_rows now canvas_id user b.canvases)
          (new_node fresh canvas_id dto ∷ b.nodes) (λ e k. ground arith) s)

  update_node-IsSound :
      (id : Uuid) (dto : UpdateNode)
      → update_node sv now user canvas_id id dto b ≡ ok b'
      → IsSound b
      → IsSound b'
  unfolding update_node
  update_node-IsSound id dto h s =
      let (c, a, h1) = bind-ok (get_or_throw sv user canvas_id b) _ b' h in
      let (n, f, h2) =
        require_some-ok (find? (is_node id canvas_id) b.nodes) not_found "NOT_FOUND"
          "node not found" _ b' h1 in
      subst IsSound (ok-injective h2) (
        more_nodes-IsSound b (bump_rows now canvas_id user b.canvases)
          (save_node (patched sv dto n) b.nodes)
          (λ e k. (
            save_node-any e.source_node_id e.canvas_id (patched sv dto n) b.nodes ∙ k.0,
            save_node-any e.target_node_id e.canvas_id (patched sv dto n) b.nodes ∙ k.1,
          ))
          s)

  saved_batch-IsSound :
      (patches : List (Uuid × UpdateNode))
      → IsSound b
      → IsSound (saved_batch sv now user canvas_id patches b)
  saved_batch-IsSound [] s = s
  saved_batch-IsSound (p ∷ patches) s =
      let rows = patch_rows sv (p ∷ patches) (named_rows canvas_id (p ∷ patches) b.nodes) in
      more_nodes-IsSound b (bump_rows now canvas_id user b.canvases) (save_nodes rows b.nodes)
        (λ e k. (
          save_nodes-any e.source_node_id e.canvas_id rows b.nodes ∙ k.0,
          save_nodes-any e.target_node_id e.canvas_id rows b.nodes ∙ k.1,
        ))
        s

  batch_update_nodes-IsSound :
      (patches : List (Uuid × UpdateNode))
      → batch_update_nodes sv now user canvas_id patches b ≡ ok b'
      → IsSound b
      → IsSound b'
  unfolding batch_update_nodes
  batch_update_nodes-IsSound patches h s =
      let (c, a, h1) = bind-ok (get_or_throw sv user canvas_id b) _ b' h in
      subst IsSound (ok-injective h1) (saved_batch-IsSound patches s)

  remove_found-IsSound :
      (n : Option BoardNode) → IsSound b → IsSound (remove_found now user canvas_id n b)
  remove_found-IsSound none s = s
  remove_found-IsSound (some n) s =
      delete_node-IsSound n.id (bump_rows now canvas_id user (delete_node n.id b).canvases) b s

  remove_node-IsSound :
      (id : Uuid) → remove_node sv now user canvas_id id b ≡ ok b' → IsSound b → IsSound b'
  unfolding remove_node
  remove_node-IsSound id h s =
      let (c, a, h1) = bind-ok (get_or_throw sv user canvas_id b) _ b' h in
      subst IsSound (ok-injective h1)
        (remove_found-IsSound (find? (is_node id canvas_id) b.nodes) s)

  create_edge-IsSound :
      (fresh : Uuid) (dto : ProposedEdge)
      → create_edge sv now fresh user canvas_id dto b ≡ ok b'
      → IsSound b
      → IsSound b'
  unfolding create_edge
  create_edge-IsSound fresh dto h s =
      let (c, a, h1) = bind-ok (get_or_throw sv user canvas_id b) _ b' h in
      let (v, valid, h2) = bind-ok (validate_edge dto (nodes_of canvas_id b)) _ b' h1 in
      let (dup, h3) =
        require-ok (not (any (same_endpoints canvas_id dto) b.edges)) conflict "EDGE_EXISTS"
          "已存在相同的连线" _ b' h2 in
      let (f, free, h4) =
        bind-ok (assert_no_cycle (links_of canvas_id b.edges) dto.source_node_id dto.target_node_id)
          _ b' h3 in
      subst IsSound (ok-injective h4) (
        new_edge-IsSound fresh canvas_id (bump_rows now canvas_id user b.canvases) dto b
          (validate_edge-IsConnection dto (nodes_of canvas_id b) valid) (ground arith) free s)

  remove_edge-IsSound :
      (id : Uuid) → remove_edge sv now user canvas_id id b ≡ ok b' → IsSound b → IsSound b'
  unfolding remove_edge
  remove_edge-IsSound id h s =
      let (c, a, h1) = bind-ok (get_or_throw sv user canvas_id b) _ b' h in
      let (e, f, h2) =
        require_some-ok (find? (is_edge id canvas_id) b.edges) not_found "NOT_FOUND"
          "edge not found" _ b' h1 in
      subst IsSound (ok-injective h2) (
        fewer_edges-IsSound b (λ x. not (x.id == e.id)) (bump_rows now canvas_id user b.canvases)
          b.nodes (λ x k p. p) s)

-- Every accepted edit through the services keeps the board sound: both nodes of each edge stand on
-- its canvas, no two edges have the same endpoints and handles, and the links of every canvas are
-- acyclic.
pub apply_edit-IsSound :
    (sv : BoardServices) (now : Timestamp) (user canvas_id : Uuid) (edit : Edit) (b b' : Board)
    → apply_edit sv now user canvas_id edit b ≡ ok b'
    → IsSound b
    → IsSound b'
unfolding apply_edit
apply_edit-IsSound sv now user canvas_id (creates_node fresh dto) b b' =
    create_node-IsSound sv now user canvas_id b b' fresh dto
apply_edit-IsSound sv now user canvas_id (updates_node id dto) b b' =
    update_node-IsSound sv now user canvas_id b b' id dto
apply_edit-IsSound sv now user canvas_id (updates_nodes patches) b b' =
    batch_update_nodes-IsSound sv now user canvas_id b b' patches
apply_edit-IsSound sv now user canvas_id (removes_node id) b b' =
    remove_node-IsSound sv now user canvas_id b b' id
apply_edit-IsSound sv now user canvas_id (creates_edge fresh dto) b b' =
    create_edge-IsSound sv now user canvas_id b b' fresh dto
apply_edit-IsSound sv now user canvas_id (removes_edge id) b b' =
    remove_edge-IsSound sv now user canvas_id b b' id
