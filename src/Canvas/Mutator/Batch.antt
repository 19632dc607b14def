-- ===== src/Canvas/Mutator/Batch.antt =====
-- What a batch keeps: the endpoints of the edges and their uniqueness. It does not search for
-- cycles.
use xg_canvas.Prelude.{
  string_eq, nat_eq, ◌==◌, Bool-cases, any, select, find?, All, In, In-select, All-map, All-select,
  Uuid, Timestamp, Json, internal, ok, require-ok, bind-ok, ok-injective, ℕ, suc, ◌≡◌, ◌∙◌, subst,
  inl, inr, Bool, true, not, ◌||◌, Option, none, some, List, [], ◌∷◌, arith,
}
use xg_canvas.Canvas.Validator.{BoardNode, ProposedEdge, validate_edge}
use xg_canvas.Canvas.Validator.Accepted.{validate_edge-IsConnection}
use xg_canvas.Canvas.Board.{CanvasEdge, Board, BoardServices, nodes_of}
use xg_canvas.Canvas.Nodes.{is_node, patched, save_node, delete_node}
use xg_canvas.Canvas.Edges.{same_endpoints}
use xg_canvas.Canvas.Sound.{
  HasEndpoints, HasUniqueEndpoints, HasUniqueEndpoints-select, save_node-any,
  delete_node-HasEndpoints, accepted-any,
}
use xg_canvas.Canvas.Mutator.{
  BatchOp, op_create_node, op_update_node, op_delete_node, op_create_edge, BatchResult, no_result,
  batch_node, batch_update, delete_on_canvas, batch_edge, is_endpoint, batch_create_edge, batch_op,
  batch_ops, apply_batch,
}

abbrev pub IsJoined : Board → Type 0
IsJoined b = All (HasEndpoints b.nodes) b.edges × HasUniqueEndpoints b.edges

batch_update-IsJoined :
    (sv : BoardServices) (position data_ : Option Json) (n : Option BoardNode) (b : Board)
    (r : BatchResult)
    → IsJoined b
    → IsJoined (batch_update sv position data_ n b r).0
batch_update-IsJoined sv position data_ none b r h = h
batch_update-IsJoined sv position data_ (some n) b r h =
    let m = patched sv (record { position = position; data_ = data_; layout_zones = none }) n in
    (
      All-map (HasEndpoints b.nodes) (HasEndpoints (save_node m b.nodes)) b.edges
          (λ e k. (
            save_node-any e.source_node_id e.canvas_id m b.nodes ∙ k.0,
            save_node-any e.target_node_id e.canvas_id m b.nodes ∙ k.1,
          ))
          h.0,
      h.1,
    )

delete_on_canvas-IsJoined :
    (id canvas_id : Uuid) (b : Board) → IsJoined b → IsJoined (delete_on_canvas id canvas_id b)
unfolding delete_on_canvas delete_node
delete_on_canvas-IsJoined id canvas_id b h =
    let q = λ (e : CanvasEdge). not (e.source_node_id == id || e.target_node_id == id) in
    elim (Bool-cases (any (is_node id canvas_id) b.nodes)) [
      | inl t ↦ rw t (
        All-select (HasEndpoints b.nodes) (HasEndpoints (select (λ n. not (n.id == id)) b.nodes)) q
            b.edges (delete_node-HasEndpoints id b.nodes) h.0,
        HasUniqueEndpoints-select q b.edges h.1,
      )
      | inr t ↦ rw t h
    ]

endpoint_of :
    (canvas_id id : Uuid) (p : BoardNode → Bool) (n : BoardNode) (b : Board)
    → In n (select p (nodes_of canvas_id b))
    → n.id ≡ id
    → any (is_node id canvas_id) b.nodes ≡ true
endpoint_of canvas_id id p n b i e =
    accepted-any canvas_id id n b (In-select p n (nodes_of canvas_id b) i).0 e

batch_create_edge-IsJoined :
    (fresh canvas_id : Uuid) (e : ProposedEdge) (b : Board) (r : BatchResult)
    (s : Board × BatchResult)
    → batch_create_edge fresh canvas_id e b r ≡ ok s
    → IsJoined b
    → IsJoined s.0
unfolding batch_create_edge
batch_create_edge-IsJoined fresh canvas_id e b r s h j =
    let (v, valid, h1) =
      bind-ok (validate_edge e (select (is_endpoint e) (nodes_of canvas_id b))) _ s h in
    let (dup, h2) =
      require-ok (not (any (same_endpoints canvas_id e) b.edges)) internal "23505"
        "uk_edge_endpoints" _ s h1 in
    let con = validate_edge-IsConnection e (select (is_endpoint e) (nodes_of canvas_id b)) valid in
    subst (λ (x : Board × BatchResult). IsJoined x.0) (ok-injective h2)
      (
        (
          (
            endpoint_of canvas_id e.source_node_id (is_endpoint e) con.source b con.source_In.0
                con.source_In.1,
            endpoint_of canvas_id e.target_node_id (is_endpoint e) con.target b con.target_In.0
                con.target_In.1,
          ),
          j.0,
        ),
        (ground arith, j.1),
      )

batch_op-IsJoined :
    (sv : BoardServices) (fresh canvas_id : Uuid) (op : BatchOp) (b : Board) (r : BatchResult)
    (s : Board × BatchResult)
    → batch_op sv fresh canvas_id op b r ≡ ok s
    → IsJoined b
    → IsJoined s.0
unfolding batch_op
batch_op-IsJoined sv fresh canvas_id (op_create_node client type position data_) b r s h j =
    subst (λ (x : Board × BatchResult). IsJoined x.0) (ok-injective h)
      (
        All-map (HasEndpoints b.nodes)
            (HasEndpoints (batch_node fresh canvas_id type position data_ ∷ b.nodes)) b.edges
            (λ e k. ground arith) j.0,
        j.1,
      )
batch_op-IsJoined sv fresh canvas_id (op_update_node id position data_) b r s h j =
    subst (λ (x : Board × BatchResult). IsJoined x.0) (ok-injective h)
      (batch_update-IsJoined sv position data_ (find? (is_node id canvas_id) b.nodes) b r j)
batch_op-IsJoined sv fresh canvas_id (op_delete_node id) b r s h j =
    subst (λ (x : Board × BatchResult). IsJoined x.0) (ok-injective h)
      (delete_on_canvas-IsJoined id canvas_id b j)
batch_op-IsJoined sv fresh canvas_id
      (op_create_edge source source_handle target target_handle data_type) b r s h j =
    batch_create_edge-IsJoined fresh canvas_id
      (batch_edge r source source_handle target target_handle data_type) b r s h j

batch_ops-IsJoined :
    (sv : BoardServices) (fresh : ℕ → Uuid) (n : ℕ) (canvas_id : Uuid) (ops : List BatchOp)
    (b : Board) (r : BatchResult) (s : Board × BatchResult)
    → batch_ops sv fresh n canvas_id ops b r ≡ ok s
    → IsJoined b
    → IsJoined s.0
unfolding batch_ops
batch_ops-IsJoined sv fresh n canvas_id [] b r s h j =
    subst (λ (x : Board × BatchResult). IsJoined x.0) (ok-injective h) j
batch_ops-IsJoined sv fresh n canvas_id (op ∷ ops) b r s h j =
    let (t, first, rest) = bind-ok (batch_op sv (fresh n) canvas_id op b r) _ s h in
    batch_ops-IsJoined sv fresh (suc n) canvas_id ops t.0 t.1 s rest
      (batch_op-IsJoined sv (fresh n) canvas_id op b r t first j)

-- A batch that goes through leaves every edge with both nodes on its canvas, and no two edges with
-- the same endpoints and handles, whatever nodes it creates, changes and deletes in between.
pub apply_batch-IsJoined :
    (sv : BoardServices) (fresh : ℕ → Uuid) (now : Timestamp) (canvas_id : Uuid)
    (ops : List BatchOp) (user : Uuid) (b : Board) (s : Board × BatchResult)
    → apply_batch sv fresh now canvas_id ops user b ≡ ok s
    → IsJoined b
    → IsJoined s.0
unfolding apply_batch
apply_batch-IsJoined sv fresh now canvas_id ops user b s h j =
    let (t, ran, rest) = bind-ok (batch_ops sv fresh 0 canvas_id ops b no_result) _ s h in
    subst (λ (x : Board × BatchResult). IsJoined x.0) (ok-injective rest)
      (batch_ops-IsJoined sv fresh 0 canvas_id ops b no_result t ran j)
