-- ===== src/Canvas/Nodes.antt =====
-- The node operations (apps/canvas-api/src/canvas/node.service.ts). A deleted node takes its edges
-- along (ON DELETE CASCADE of database/migrations/canvas/001_init_canvas_schema.sql).
use xg_canvas.Prelude.{
  if◌then◌else◌, string_eq, nat_eq, ◌==◌, get_or, any, select, find?, Uuid, Timestamp, Json,
  not_found, Result, ok, ◌>>=◌, require_some, String, Bool, not, ◌&&◌, ◌||◌, Option, none, some,
  List, [], ◌∷◌, map,
}
use xg_canvas.Canvas.Validator.{BoardNode}
use xg_canvas.Canvas.Board.{Board, BoardServices, get_or_throw, bump_version}

pub record CreateNode : Type 0 where
  pub type : String
  pub position : Json
  pub data_ : Option Json
  pub layout_zones : Option Json

pub record UpdateNode : Type 0 where
  pub position : Option Json
  pub data_ : Option Json
  pub layout_zones : Option Json

abbrev pub new_node : Uuid → Uuid → CreateNode → BoardNode
new_node fresh canvas_id dto = record {
  id = fresh;
  canvas_id = canvas_id;
  type = dto.type;
  position = dto.position;
  data_ = get_or dto.data_ "{}";
  layout_zones = get_or dto.layout_zones "{}";
}

unfoldable pub create_node :
    BoardServices → Timestamp → Uuid → Uuid → Uuid → CreateNode → Board → Result Board
create_node sv now fresh user canvas_id dto b = do
  c ← get_or_throw sv user canvas_id b
  ok (bump_version now canvas_id user (record b { nodes = new_node fresh canvas_id dto ∷ b.nodes }))

abbrev pub is_node : Uuid → Uuid → BoardNode → Bool
is_node id canvas_id n = n.id == id && n.canvas_id == canvas_id

abbrev pub merged : BoardServices → Json → Option Json → Json
merged sv old none = old
merged sv old (some patch) = sv.merge_json old patch

abbrev pub patched : BoardServices → UpdateNode → BoardNode → BoardNode
patched sv dto n = record n {
  position = get_or dto.position n.position;
  data_ = merged sv n.data_ dto.data_;
  layout_zones = get_or dto.layout_zones n.layout_zones;
}

-- `save` of a changed row: its changed columns, by its primary key.
unfoldable pub save_node : BoardNode → List BoardNode → List BoardNode
save_node n [] = []
save_node n (x ∷ xs) =
    let rest = save_node n xs in
    if x.id == n.id
    then record x { position = n.position; data_ = n.data_; layout_zones = n.layout_zones } ∷ rest
    else x ∷ rest

unfoldable pub update_node :
    BoardServices → Timestamp → Uuid → Uuid → Uuid → UpdateNode → Board → Result Board
update_node sv now user canvas_id node_id dto b = do
  c ← get_or_throw sv user canvas_id b
  n ←
      require_some (find? (is_node node_id canvas_id) b.nodes) not_found "NOT_FOUND"
        "node not found"
  ok (bump_version now canvas_id user (record b { nodes = save_node (patched sv dto n) b.nodes }))

-- `batchUpdate`: the rows that the patches name are read once, patched in order, and saved.
unfoldable pub patch_rows :
    BoardServices → List (Uuid × UpdateNode) → List BoardNode → List BoardNode
patch_rows sv [] rows = rows
patch_rows sv ((id, dto) ∷ patches) rows =
    patch_rows sv patches (map (λ n. if n.id == id then patched sv dto n else n) rows)

unfoldable pub save_nodes : List BoardNode → List BoardNode → List BoardNode
save_nodes [] ns = ns
save_nodes (r ∷ rows) ns = save_nodes rows (save_node r ns)

abbrev pub named_rows : Uuid → List (Uuid × UpdateNode) → List BoardNode → List BoardNode
named_rows canvas_id patches ns =
    select (λ n. any (λ p. p.0 == n.id) patches && n.canvas_id == canvas_id) ns

abbrev pub saved_batch :
    BoardServices → Timestamp → Uuid → Uuid → List (Uuid × UpdateNode) → Board → Board
saved_batch sv now user canvas_id [] b = b
saved_batch sv now user canvas_id (p ∷ patches) b = bump_version now canvas_id user (record b {
  nodes =
      save_nodes (patch_rows sv (p ∷ patches) (named_rows canvas_id (p ∷ patches) b.nodes)) b.nodes;
})

unfoldable pub batch_update_nodes :
    BoardServices → Timestamp → Uuid → Uuid → List (Uuid × UpdateNode) → Board → Result Board
batch_update_nodes sv now user canvas_id patches b = do
  c ← get_or_throw sv user canvas_id b
  ok (saved_batch sv now user canvas_id patches b)

-- `DELETE FROM canvas.canvas_nodes WHERE id = $1`, with the cascade.
unfoldable pub delete_node : Uuid → Board → Board
delete_node id b = record b {
  nodes = select (λ n. not (n.id == id)) b.nodes;
  edges = select (λ e. not (e.source_node_id == id || e.target_node_id == id)) b.edges;
}

abbrev pub remove_found : Timestamp → Uuid → Uuid → Option BoardNode → Board → Board
remove_found now user canvas_id none b = b
remove_found now user canvas_id (some n) b = bump_version now canvas_id user (delete_node n.id b)

-- A missing node is no error.
unfoldable pub remove_node : BoardServices → Timestamp → Uuid → Uuid → Uuid → Board → Result Board
remove_node sv now user canvas_id node_id b = do
  c ← get_or_throw sv user canvas_id b
  ok (remove_found now user canvas_id (find? (is_node node_id canvas_id) b.nodes) b)
