-- ===== src/Canvas/Sound.antt =====
-- The edits of a canvas through the node and the edge service keep it sound.
use xg_canvas.Prelude.{
  nat_beq_iff, string_eq, nat_eq, ◌==◌, Bool-cases, any, select, All, In, In-select, All-map,
  In-any, All-select, any-select, none-select, Uuid, ok, ◌≡◌, refl, ◌∙◌, subst, inl, inr, Bool,
  true, false, not, ◌||◌, List, [], ◌∷◌, arith,
}
use xg_canvas.Canvas.Cycle.{Link, assert_no_cycle}
use xg_canvas.Canvas.Cycle.Paths.{PathTo, arrived, along}
use xg_canvas.Canvas.Cycle.Acyclic.{IsAcyclic, assert_no_cycle-IsAcyclic}
use xg_canvas.Canvas.Validator.{BoardNode, ProposedEdge}
use xg_canvas.Canvas.Validator.Accepted.{IsConnection}
use xg_canvas.Canvas.Board.{CanvasEdge, BoardCanvas, Board, nodes_of, link_of, links_of}
use xg_canvas.Canvas.Nodes.{is_node, save_node, save_nodes, delete_node}
use xg_canvas.Canvas.Edges.{same_endpoints, edge_of}

abbrev pub proposal : CanvasEdge → ProposedEdge
proposal e = record {
  source_node_id = e.source_node_id;
  source_handle = e.source_handle;
  target_node_id = e.target_node_id;
  target_handle = e.target_handle;
  data_type = e.data_type;
}

-- Both nodes of the edge stand on its canvas.
abbrev pub HasEndpoints : List BoardNode → CanvasEdge → Type 0
HasEndpoints ns e =
    (any (is_node e.source_node_id e.canvas_id) ns ≡ true)
    × (any (is_node e.target_node_id e.canvas_id) ns ≡ true)

-- The constraint uk_edge_endpoints.
abbrev pub HasUniqueEndpoints : List CanvasEdge → Type 0
HasUniqueEndpoints [] = Unit {0}
HasUniqueEndpoints (e ∷ es) =
    (any (same_endpoints e.canvas_id (proposal e)) es ≡ false) × HasUniqueEndpoints es

pub record IsSound (b : Board) : Type 0 where
  pub endpoints : All (HasEndpoints b.nodes) b.edges
  pub unique : HasUniqueEndpoints b.edges
  pub acyclic : (canvas_id : Uuid) → IsAcyclic (links_of canvas_id b.edges)

pub HasUniqueEndpoints-select :
    (q : CanvasEdge → Bool) (es : List CanvasEdge)
    → HasUniqueEndpoints es
    → HasUniqueEndpoints (select q es)
HasUniqueEndpoints-select q [] h = tt
HasUniqueEndpoints-select q (e ∷ es) h = elim (Bool-cases (q e)) [
  | inl s ↦ rw s (
    none-select (same_endpoints e.canvas_id (proposal e)) q es h.0,
    HasUniqueEndpoints-select q es h.1,
  )
  | inr s ↦ rw s (HasUniqueEndpoints-select q es h.1)
]

links_of-select :
    (canvas_id : Uuid) (q : CanvasEdge → Bool) (l : Link) (es : List CanvasEdge)
    → In l (links_of canvas_id (select q es))
    → In l (links_of canvas_id es)
unfolding links_of
links_of-select canvas_id q l [] h = h
links_of-select canvas_id q l (e ∷ es) h =
    let rest = links_of-select canvas_id q l es in ground (arith, rest)

path_mono :
    (es fs : List Link) (b : Uuid) {a : Uuid}
    → ((l : Link) → In l es → In l fs)
    → PathTo es b a
    → PathTo fs b a
path_mono es fs b sub arrived = arrived
path_mono es fs b sub (along e k p) = along e (sub e k) (path_mono es fs b sub p)

IsAcyclic-select :
    (canvas_id : Uuid) (q : CanvasEdge → Bool) (es : List CanvasEdge)
    → IsAcyclic (links_of canvas_id es)
    → IsAcyclic (links_of canvas_id (select q es))
IsAcyclic-select canvas_id q es h l i p =
    let sub = λ (x : Link). links_of-select canvas_id q x es in
    h l (sub l i)
      (path_mono (links_of canvas_id (select q es)) (links_of canvas_id es) l.source_node_id sub p)

-- Edges may go, and nodes change, as long as the endpoints of those that stay do.
pub fewer_edges-IsSound :
    (b : Board) (q : CanvasEdge → Bool) (cs : List BoardCanvas) (ns : List BoardNode)
    → ((e : CanvasEdge) → q e ≡ true → HasEndpoints b.nodes e → HasEndpoints ns e)
    → IsSound b
    → IsSound (record { canvases = cs; nodes = ns; edges = select q b.edges })
fewer_edges-IsSound b q cs ns keep s = record {
  endpoints = All-select (HasEndpoints b.nodes) (HasEndpoints ns) q b.edges keep s.endpoints;
  unique = HasUniqueEndpoints-select q b.edges s.unique;
  acyclic = λ c. IsAcyclic-select c q b.edges (s.acyclic c);
}

pub more_nodes-IsSound :
    (b : Board) (cs : List BoardCanvas) (ns : List BoardNode)
    → ((e : CanvasEdge) → HasEndpoints b.nodes e → HasEndpoints ns e)
    → IsSound b
    → IsSound (record { canvases = cs; nodes = ns; edges = b.edges })
more_nodes-IsSound b cs ns keep s = record {
  endpoints =
      All-map (HasEndpoints b.nodes) (HasEndpoints ns) b.edges (λ e h. keep e h) s.endpoints;
  unique = s.unique;
  acyclic = s.acyclic;
}

pub save_node-any :
    (id canvas_id : Uuid) (n : BoardNode) (ns : List BoardNode)
    → any (is_node id canvas_id) (save_node n ns) ≡ any (is_node id canvas_id) ns
unfolding save_node
save_node-any id canvas_id n [] = refl
save_node-any id canvas_id n (x ∷ ns) = ground (arith, save_node-any id canvas_id n ns)

pub save_nodes-any :
    (id canvas_id : Uuid) (rows ns : List BoardNode)
    → any (is_node id canvas_id) (save_nodes rows ns) ≡ any (is_node id canvas_id) ns
unfolding save_nodes
save_nodes-any id canvas_id [] ns = refl
save_nodes-any id canvas_id (r ∷ rows) ns =
    save_nodes-any id canvas_id rows (save_node r ns) ∙ save_node-any id canvas_id r ns

pub delete_node-HasEndpoints :
    (id : Uuid) (ns : List BoardNode) (e : CanvasEdge)
    → not (e.source_node_id == id || e.target_node_id == id) ≡ true
    → HasEndpoints ns e
    → HasEndpoints (select (λ n. not (n.id == id)) ns) e
delete_node-HasEndpoints id ns e q h = (
  any-select (is_node e.source_node_id e.canvas_id) (λ n. not (n.id == id)) ns (λ n k. ground arith)
      h.0,
  any-select (is_node e.target_node_id e.canvas_id) (λ n. not (n.id == id)) ns (λ n k. ground arith)
      h.1,
)

pub delete_node-IsSound :
    (id : Uuid) (cs : List BoardCanvas) (b : Board)
    → IsSound b
    → IsSound (record (delete_node id b) { canvases = cs })
unfolding delete_node
delete_node-IsSound id cs b s =
    fewer_edges-IsSound b (λ e. not (e.source_node_id == id || e.target_node_id == id)) cs
      (select (λ n. not (n.id == id)) b.nodes) (delete_node-HasEndpoints id b.nodes) s

pub accepted-any :
    (canvas_id id : Uuid) (n : BoardNode) (b : Board)
    → In n (nodes_of canvas_id b)
    → n.id ≡ id
    → any (is_node id canvas_id) b.nodes ≡ true
accepted-any canvas_id id n b i e =
    let (j, c) = In-select (λ n. n.canvas_id == canvas_id) n b.nodes i in
    In-any (is_node id canvas_id) n b.nodes j (ground arith)

links_of_cons-IsAcyclic :
    (fresh canvas_id c : Uuid) (dto : ProposedEdge) (es : List CanvasEdge)
    → IsAcyclic (links_of c es)
    → assert_no_cycle (links_of canvas_id es) dto.source_node_id dto.target_node_id ≡ ok tt
    → IsAcyclic (links_of c (edge_of fresh canvas_id dto ∷ es))
unfolding links_of
links_of_cons-IsAcyclic fresh canvas_id c dto es h k = elim (Bool-cases (canvas_id == c)) [
  | inl q ↦ rw q (
      assert_no_cycle-IsAcyclic (links_of c es) (link_of (edge_of fresh canvas_id dto)) h (
        subst (λ y. assert_no_cycle (links_of y es) dto.source_node_id dto.target_node_id ≡ ok tt)
          ((nat_beq_iff canvas_id c).0 q) k))
  | inr q ↦ rw q h
]

pub new_edge-IsSound :
    (fresh canvas_id : Uuid) (cs : List BoardCanvas) (dto : ProposedEdge) (b : Board)
    → IsConnection dto (nodes_of canvas_id b)
    → any (same_endpoints canvas_id dto) b.edges ≡ false
    → assert_no_cycle (links_of canvas_id b.edges) dto.source_node_id dto.target_node_id ≡ ok tt
    → IsSound b
    → IsSound (record b { canvases = cs; edges = edge_of fresh canvas_id dto ∷ b.edges })
new_edge-IsSound fresh canvas_id cs dto b con dup free s = record {
  endpoints = (
    (
      accepted-any canvas_id dto.source_node_id con.source b con.source_In.0 con.source_In.1,
      accepted-any canvas_id dto.target_node_id con.target b con.target_In.0 con.target_In.1,
    ),
    s.endpoints,
  );
  unique = (dup, s.unique);
  acyclic = λ c. links_of_cons-IsAcyclic fresh canvas_id c dto b.edges (s.acyclic c) free;
}
