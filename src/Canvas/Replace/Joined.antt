-- ===== src/Canvas/Replace/Joined.antt =====
-- After a replacement the edges of the canvas stand between its nodes.
use xg_canvas.Prelude.{
  if◌then◌else◌, string_eq, nat_eq, ◌==◌, Bool-cases, any, select, All, All-select, any-select,
  Uuid, Timestamp, ok, bind-ok, ok-injective, ◌≡◌, refl, sym, subst, ◌⊎◌, inl, inr, Bool, true,
  false, not, ◌&&◌, List, [], ◌∷◌, map, arith,
}
use xg_canvas.Canvas.Validator.{BoardNode}
use xg_canvas.Canvas.Board.{CanvasEdge, Board, BoardServices, get_or_throw}
use xg_canvas.Canvas.Nodes.{is_node}
use xg_canvas.Canvas.Edges.{edge_of}
use xg_canvas.Canvas.Replace.{
  ReplaceNode, ReplaceEdge, ReplaceCanvas, replace_row, upsert_node, upsert_nodes, upsert_edge,
  upsert_edges, has_id, valid_edges, is_stale, prune_nodes, prune_edges, replace_canvas,
}
use xg_canvas.Canvas.Replace.Kept.{
  IsInside, valid_edges-IsInside, overwritten_here, overwritten_keeps,
}

upserted-node :
    (canvas_id id : Uuid) (n : BoardNode) (ns : List BoardNode)
    → n.canvas_id ≡ canvas_id
    → (n.id ≡ id) ⊎ (any (is_node id canvas_id) ns ≡ true)
    → any (is_node id canvas_id) (upsert_node n ns) ≡ true
unfolding upsert_node
upserted-node canvas_id id n ns c h = elim (Bool-cases (any (λ x. x.id == n.id) ns)) [
  | inl q ↦ rw q (elim h [
    | inl e ↦ overwritten_here canvas_id id n ns e c q
    | inr k ↦ overwritten_keeps canvas_id id n ns c k
  ])
  | inr q ↦ rw q (ground (arith, c, h))
]

head_or :
    (canvas_id id : Uuid) (r : ReplaceNode) (rs : List ReplaceNode) (ns : List BoardNode)
    → has_id id (map (λ n. n.id) rs) ≡ false
    → (has_id id (map (λ n. n.id) (r ∷ rs)) ≡ true) ⊎ (any (is_node id canvas_id) ns ≡ true)
    → (r.id ≡ id) ⊎ (any (is_node id canvas_id) ns ≡ true)
head_or canvas_id id r rs ns q (inl h) = inl (ground (arith, q, h))
head_or canvas_id id r rs ns q (inr h) = inr h

upserted-nodes :
    (canvas_id id : Uuid) (rs : List ReplaceNode) (ns : List BoardNode)
    → (has_id id (map (λ n. n.id) rs) ≡ true) ⊎ (any (is_node id canvas_id) ns ≡ true)
    → any (is_node id canvas_id) (upsert_nodes canvas_id rs ns) ≡ true
unfolding upsert_nodes
upserted-nodes canvas_id id [] ns (inl h) = cc
upserted-nodes canvas_id id [] ns (inr h) = h
upserted-nodes canvas_id id (r ∷ rs) ns h =
    let row = replace_row canvas_id r in
    elim (Bool-cases (has_id id (map (λ n. n.id) rs))) [
      | inl q ↦ upserted-nodes canvas_id id rs (upsert_node row ns) (inl q)
      | inr q ↦
          upserted-nodes canvas_id id rs (upsert_node row ns)
            (inr (upserted-node canvas_id id row ns refl (head_or canvas_id id r rs ns q h)))
    ]

same_id : (id canvas_id : Uuid) (n : BoardNode) → is_node id canvas_id n ≡ true → n.id ≡ id
same_id id canvas_id n k = ground arith

not_stale :
    (canvas_id id : Uuid) (ids : List Uuid) (n : BoardNode)
    → has_id id ids ≡ true
    → is_node id canvas_id n ≡ true
    → not (is_stale canvas_id ids n) ≡ true
not_stale canvas_id id ids n h k =
    let e = same_id id canvas_id n k in
    rw (subst (λ x. has_id x ids ≡ true) (sym e) h) (ground arith)

pruned-node :
    (canvas_id id : Uuid) (ids : List Uuid) (ns : List BoardNode)
    → has_id id ids ≡ true
    → any (is_node id canvas_id) ns ≡ true
    → any (is_node id canvas_id) (select (λ n. not (is_stale canvas_id ids n)) ns) ≡ true
pruned-node canvas_id id ids ns h =
    any-select (is_node id canvas_id) (λ n. not (is_stale canvas_id ids n)) ns
      (λ n k. not_stale canvas_id id ids n h k)

-- The ends of an edge are among the ids.
abbrev pub EndsIn : List Uuid → CanvasEdge → Type 0
EndsIn ids e = (has_id e.source_node_id ids ≡ true) × (has_id e.target_node_id ids ≡ true)

abbrev pub IsWritten : List Uuid → List Uuid → CanvasEdge → Type 0
IsWritten ids done e = has_id e.id done ≡ true → EndsIn ids e

IsWritten-if :
    (b : Bool) (ids done : List Uuid) (e x : CanvasEdge)
    → (x.id == e.id) ≡ b
    → EndsIn ids e
    → IsWritten ids done x
    → IsWritten ids (e.id ∷ done) (if b then e else x)
IsWritten-if true ids done e x q k h w = k
IsWritten-if false ids done e x q k h w = h (ground (arith, q, w))

overwritten-IsWritten :
    (ids done : List Uuid) (e : CanvasEdge) (es : List CanvasEdge)
    → EndsIn ids e
    → All (IsWritten ids done) es
    → All (IsWritten ids (e.id ∷ done)) (map (λ x. if x.id == e.id then e else x) es)
overwritten-IsWritten ids done e [] k h = tt
overwritten-IsWritten ids done e (x ∷ es) k h =
    (IsWritten-if (x.id == e.id) ids done e x refl k h.0, overwritten-IsWritten ids done e es k h.1)

fresh-IsWritten :
    (ids done : List Uuid) (e : CanvasEdge) (es : List CanvasEdge)
    → any (λ x. x.id == e.id) es ≡ false
    → All (IsWritten ids done) es
    → All (IsWritten ids (e.id ∷ done)) es
fresh-IsWritten ids done e [] q h = tt
fresh-IsWritten ids done e (x ∷ es) q h =
    (λ k. h.0 (ground (arith, q, k)), fresh-IsWritten ids done e es (ground arith) h.1)

upsert_edge-IsWritten :
    (ids done : List Uuid) (e : CanvasEdge) (es : List CanvasEdge)
    → EndsIn ids e
    → All (IsWritten ids done) es
    → All (IsWritten ids (e.id ∷ done)) (upsert_edge e es)
unfolding upsert_edge
upsert_edge-IsWritten ids done e es k h = elim (Bool-cases (any (λ x. x.id == e.id) es)) [
  | inl q ↦ rw q (overwritten-IsWritten ids done e es k h)
  | inr q ↦ rw q (λ w. k, fresh-IsWritten ids done e es q h)
]

-- The ids that the upserts have written.
unfoldable written : List ReplaceEdge → List Uuid → List Uuid
written [] done = done
written (r ∷ rs) done = written rs (r.id ∷ done)

shift_id :
    (id x : Uuid) (rest done : List Uuid)
    → (has_id id (x ∷ rest) ≡ true) ⊎ (has_id id done ≡ true)
    → (has_id id rest ≡ true) ⊎ (has_id id (x ∷ done) ≡ true)
shift_id id x rest done h = ground arith

written-has_id :
    (id : Uuid) (rs : List ReplaceEdge) (done : List Uuid)
    → (has_id id (map (λ e. e.id) rs) ≡ true) ⊎ (has_id id done ≡ true)
    → has_id id (written rs done) ≡ true
unfolding written
written-has_id id [] done (inl h) = cc
written-has_id id [] done (inr h) = h
written-has_id id (r ∷ rs) done h =
    written-has_id id rs (r.id ∷ done) (shift_id id r.id (map (λ e. e.id) rs) done h)

upsert_edges-IsWritten :
    (ids done : List Uuid) (canvas_id : Uuid) (rs : List ReplaceEdge) (es : List CanvasEdge)
    → All (IsInside ids) rs
    → All (IsWritten ids done) es
    → All (IsWritten ids (written rs done)) (upsert_edges canvas_id rs es)
unfolding upsert_edges written
upsert_edges-IsWritten ids done canvas_id [] es k h = h
upsert_edges-IsWritten ids done canvas_id (r ∷ rs) es k h =
    upsert_edges-IsWritten ids (r.id ∷ done) canvas_id rs
      (upsert_edge (edge_of r.id canvas_id r.ends) es) k.1
      (upsert_edge-IsWritten ids done (edge_of r.id canvas_id r.ends) es k.0 h)

-- Before the upserts nothing is written.
nothing-IsWritten : (ids : List Uuid) (es : List CanvasEdge) → All (IsWritten ids []) es
nothing-IsWritten ids [] = tt
nothing-IsWritten ids (e ∷ es) = (λ w. cc, nothing-IsWritten ids es)

-- The edge of the canvas has both nodes there.
abbrev pub IsJoinedOn : Uuid → List BoardNode → CanvasEdge → Type 0
IsJoinedOn canvas_id ns e =
    e.canvas_id ≡ canvas_id
    → (any (is_node e.source_node_id canvas_id) ns ≡ true)
      × (any (is_node e.target_node_id canvas_id) ns ≡ true)

kept_id :
    (canvas_id : Uuid) (e : CanvasEdge) (kept : List Uuid)
    → not (e.canvas_id == canvas_id && not (has_id e.id kept)) ≡ true
    → e.canvas_id ≡ canvas_id
    → has_id e.id kept ≡ true
kept_id canvas_id e kept q on = ground arith

joined :
    (canvas_id : Uuid) (ids : List Uuid) (rs : List ReplaceNode) (ns : List BoardNode)
    (e : CanvasEdge)
    → map (λ n. n.id) rs ≡ ids
    → EndsIn ids e
    → (any
          (is_node e.source_node_id canvas_id)
          (select (λ n. not (is_stale canvas_id ids n)) (upsert_nodes canvas_id rs ns))
        ≡ true)
      × (any
            (is_node e.target_node_id canvas_id)
            (select (λ n. not (is_stale canvas_id ids n)) (upsert_nodes canvas_id rs ns))
          ≡ true)
joined canvas_id ids rs ns e q k =
    let here = λ (id : Uuid) (h : has_id id ids ≡ true).
      pruned-node canvas_id id ids (upsert_nodes canvas_id rs ns) h
        (upserted-nodes canvas_id id rs ns (inl (subst (λ xs. has_id id xs ≡ true) (sym q) h))) in
    (here e.source_node_id k.0, here e.target_node_id k.1)

-- After a replacement that goes through, every edge of the canvas has both of its nodes on the
-- canvas, whatever edges and nodes the client has sent and the canvas had before.
pub replace_canvas-IsJoinedOn :
    (sv : BoardServices) (now : Timestamp) (user canvas_id : Uuid) (dto : ReplaceCanvas)
    (b b' : Board)
    → replace_canvas sv now user canvas_id dto b ≡ ok b'
    → All (IsJoinedOn canvas_id b'.nodes) b'.edges
unfolding replace_canvas prune_nodes prune_edges
replace_canvas-IsJoinedOn sv now user canvas_id dto b b' h =
    let (c, a, h1) = bind-ok (get_or_throw sv user canvas_id b) _ b' h in
    let ids = map (λ (n : ReplaceNode). n.id) dto.nodes in
    let b1 =
      prune_nodes canvas_id ids (record b { nodes = upsert_nodes canvas_id dto.nodes b.nodes }) in
    let edges = valid_edges ids [] dto.edges in
    let kept = map (λ (e : ReplaceEdge). e.id) edges in
    let up = upsert_edges canvas_id edges b1.edges in
    subst (λ (x : Board). All (IsJoinedOn canvas_id x.nodes) x.edges) (ok-injective h1)
      (All-select (IsWritten ids (written edges [])) (IsJoinedOn canvas_id b1.nodes)
        (λ e. not (e.canvas_id == canvas_id && not (has_id e.id kept))) up
        (λ e q w on.
          joined canvas_id ids dto.nodes b.nodes e refl
            (w (written-has_id e.id edges [] (inl (kept_id canvas_id e kept q on)))))
        (upsert_edges-IsWritten ids [] canvas_id edges b1.edges
          (valid_edges-IsInside ids [] dto.edges) (nothing-IsWritten ids b1.edges)))
