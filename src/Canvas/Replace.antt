-- ===== src/Canvas/Replace.antt =====
-- The canvas service's own changes: `getOrCreate`, `update` and `replace`
-- (apps/canvas-api/src/canvas/canvas.service.ts). `replace` is one transaction; a deleted node takes
-- its edges along.
pub mod Kept
pub mod Joined
use xg_canvas.Prelude.{
  if◌then◌else◌, string_eq, nat_eq, ◌==◌, get_or, any, select, find?, Uuid, Timestamp, Json,
  conflict, Result, ok, ◌>>=◌, ◌>>◌, require, ℕ, String, Bool, true, not, ◌&&◌, ◌||◌, Option, none,
  some, List, [], ◌∷◌, map,
}
use xg_canvas.Canvas.Validator.{BoardNode, ProposedEdge}
use xg_canvas.Canvas.Board.{
  CanvasEdge, BoardCanvas, Board, BoardServices, get_or_throw, bump_version,
}
use xg_canvas.Canvas.Edges.{edge_of}

abbrev pub new_canvas : Timestamp → Uuid → Uuid → Uuid → BoardCanvas
new_canvas now fresh user project_id = record {
  id = fresh;
  project_id = project_id;
  name = "main";
  viewport = "{\"x\":0,\"y\":0,\"zoom\":1}";
  version = 0;
  last_modified_by = some user;
  updated_at = now;
}

abbrev pub create_missing :
    Timestamp → Uuid → Uuid → Uuid → Option BoardCanvas → Board → Result (Board × BoardCanvas)
create_missing now fresh user project_id none b = ok (
  record b { canvases = new_canvas now fresh user project_id ∷ b.canvases },
  new_canvas now fresh user project_id,
)
create_missing now fresh user project_id (some c) b = ok (b, c)

unfoldable pub get_or_create :
    BoardServices → Timestamp → Uuid → Uuid → Uuid → Board → Result (Board × BoardCanvas)
get_or_create sv now fresh user project_id b = do
  sv.get_project user project_id
  create_missing now fresh user project_id (find? (λ c. c.project_id == project_id) b.canvases) b

pub record UpdateCanvas : Type 0 where
  pub if_match_version : Option ℕ
  pub viewport : Option Json
  pub name : Option String

-- `typeof if_match_version === 'number' && if_match_version !== c.version`, negated.
abbrev pub matches_version : Option ℕ → ℕ → Bool
matches_version none version = true
matches_version (some n) version = n == version

-- `if (dto.name)`: an empty name changes nothing.
abbrev pub name_or : Option String → String → String
name_or none old = old
name_or (some name) old = if name == "" then old else name

abbrev pub saved_canvas : Timestamp → Uuid → UpdateCanvas → BoardCanvas → BoardCanvas
saved_canvas now user dto c = record c {
  viewport = get_or dto.viewport c.viewport;
  name = name_or dto.name c.name;
  last_modified_by = some user;
  updated_at = now;
}

-- `save` of a changed row, by its primary key.
unfoldable pub save_canvas : BoardCanvas → List BoardCanvas → List BoardCanvas
save_canvas c [] = []
save_canvas c (x ∷ xs) = let rest = save_canvas c xs in if x.id == c.id then c ∷ rest else x ∷ rest

unfoldable pub update_canvas :
    BoardServices → Timestamp → Uuid → Uuid → UpdateCanvas → Board → Result Board
update_canvas sv now user canvas_id dto b = do
  c ← get_or_throw sv user canvas_id b
  require (matches_version dto.if_match_version c.version) conflict "CONFLICT" "version mismatch"
  ok (record b { canvases = save_canvas (saved_canvas now user dto c) b.canvases })

-- The client's rows.
pub record ReplaceNode : Type 0 where
  pub id : Uuid
  pub type : String
  pub position : Json
  pub data_ : Option Json
  pub layout_zones : Option Json

pub record ReplaceEdge : Type 0 where
  pub id : Uuid
  pub ends : ProposedEdge

pub record ReplaceCanvas : Type 0 where
  pub nodes : List ReplaceNode
  pub edges : List ReplaceEdge
  pub viewport : Option Json

abbrev pub replace_row : Uuid → ReplaceNode → BoardNode
replace_row canvas_id n = record {
  id = n.id;
  canvas_id = canvas_id;
  type = n.type;
  position = n.position;
  data_ = get_or n.data_ "{}";
  layout_zones = get_or n.layout_zones "{}";
}

-- `upsert(…, ['id'])`: a row of that id is overwritten, on whatever canvas it stood.
unfoldable pub upsert_node : BoardNode → List BoardNode → List BoardNode
upsert_node n ns =
    if any (λ x. x.id == n.id) ns then map (λ x. if x.id == n.id then n else x) ns else n ∷ ns

unfoldable pub upsert_nodes : Uuid → List ReplaceNode → List BoardNode → List BoardNode
upsert_nodes canvas_id [] ns = ns
upsert_nodes canvas_id (n ∷ rest) ns =
    upsert_nodes canvas_id rest (upsert_node (replace_row canvas_id n) ns)

unfoldable pub upsert_edge : CanvasEdge → List CanvasEdge → List CanvasEdge
upsert_edge e es =
    if any (λ x. x.id == e.id) es then map (λ x. if x.id == e.id then e else x) es else e ∷ es

unfoldable pub upsert_edges : Uuid → List ReplaceEdge → List CanvasEdge → List CanvasEdge
upsert_edges canvas_id [] es = es
upsert_edges canvas_id (e ∷ rest) es =
    upsert_edges canvas_id rest (upsert_edge (edge_of e.id canvas_id e.ends) es)

abbrev pub has_id : Uuid → List Uuid → Bool
has_id id ids = any (λ x. x == id) ids

-- The key `${source}|${handle}|${target}|${handle}`, compared part by part.
abbrev pub same_ends : ProposedEdge → ProposedEdge → Bool
same_ends a b =
    a.source_node_id == b.source_node_id
    && a.source_handle == b.source_handle
    && a.target_node_id == b.target_node_id
    && a.target_handle == b.target_handle

-- `validEdges`: with both nodes among the client's, and the first of its endpoints; `seen` holds the
-- endpoints that are kept.
unfoldable pub valid_edges : List Uuid → List ProposedEdge → List ReplaceEdge → List ReplaceEdge
valid_edges ids seen [] = []
valid_edges ids seen (e ∷ es) =
    let skipped = valid_edges ids seen es in
    let kept = valid_edges ids (e.ends ∷ seen) es in
    if not (has_id e.ends.source_node_id ids) || not (has_id e.ends.target_node_id ids)
    then skipped
    else if any (λ s. same_ends s e.ends) seen
    then skipped
    else e ∷ kept

-- The nodes of the canvas that the client does not have are deleted, with their edges.
abbrev pub is_stale : Uuid → List Uuid → BoardNode → Bool
is_stale canvas_id ids n = n.canvas_id == canvas_id && not (has_id n.id ids)

unfoldable pub prune_nodes : Uuid → List Uuid → Board → Board
prune_nodes canvas_id ids b =
    let stale = select (is_stale canvas_id ids) b.nodes in
    record b {
      nodes = select (λ n. not (is_stale canvas_id ids n)) b.nodes;
      edges =
          select (λ e. not (any (λ n. n.id == e.source_node_id || n.id == e.target_node_id) stale))
            b.edges;
    }

unfoldable pub prune_edges : Uuid → List Uuid → List CanvasEdge → List CanvasEdge
prune_edges canvas_id ids es =
    select (λ e. not (e.canvas_id == canvas_id && not (has_id e.id ids))) es

unfoldable pub set_viewport : Uuid → Option Json → List BoardCanvas → List BoardCanvas
set_viewport canvas_id none cs = cs
set_viewport canvas_id (some v) cs =
    map (λ c. if c.id == canvas_id then record c { viewport = v } else c) cs

unfoldable pub replace_canvas :
    BoardServices → Timestamp → Uuid → Uuid → ReplaceCanvas → Board → Result Board
replace_canvas sv now user canvas_id dto b = do
  c ← get_or_throw sv user canvas_id b
  let ids = map (λ n. n.id) dto.nodes
  let b1 = prune_nodes canvas_id ids (record b { nodes = upsert_nodes canvas_id dto.nodes b.nodes })
  let edges = valid_edges ids [] dto.edges
  let es = prune_edges canvas_id (map (λ e. e.id) edges) (upsert_edges canvas_id edges b1.edges)
  ok (
      bump_version now canvas_id user
        (record b1 { edges = es; canvases = set_viewport canvas_id dto.viewport b.canvases }))
