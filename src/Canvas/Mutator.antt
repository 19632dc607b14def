-- ===== src/Canvas/Mutator.antt =====
-- The batch mutator (apps/canvas-api/src/canvas/canvas-mutator.service.ts): one transaction, which an
-- exception rolls back. Client ids and UUIDs share one space of names, as in the code; `fresh n` is
-- the UUID of the n-th row that the batch creates.
pub mod Batch
use xg_canvas.Prelude.{
  if◌then◌else◌, string_eq, nat_eq, ◌==◌, any, select, find?, Uuid, Timestamp, Json, internal,
  Result, ok, ◌>>=◌, ◌>>◌, require, ℕ, suc, String, Bool, not, ◌||◌, Option, none, some, List, [],
  ◌∷◌, ◌++◌,
}
use xg_canvas.Canvas.Validator.{BoardNode, ProposedEdge, validate_edge}
use xg_canvas.Canvas.Board.{Board, BoardServices, bump_version, nodes_of}
use xg_canvas.Canvas.Nodes.{is_node, patched, save_node, delete_node}
use xg_canvas.Canvas.Edges.{same_endpoints, edge_of}

pub data BatchOp : Type 0 where
  op_create_node : Uuid → String → Json → Json → BatchOp  -- client id, type, position, data
  op_update_node : Uuid → Option Json → Option Json → BatchOp  -- node, position, data
  op_delete_node : Uuid → BatchOp
  op_create_edge : Uuid → String → Uuid → String → String → BatchOp  -- source, target, data type

pub record BatchResult : Type 0 where
  pub created_node_ids : List (Uuid × Uuid)
  pub created_edge_ids : List Uuid
  pub deleted_node_ids : List Uuid
  pub updated_node_ids : List Uuid

abbrev pub no_result : BatchResult
no_result = record {
  created_node_ids = [];
  created_edge_ids = [];
  deleted_node_ids = [];
  updated_node_ids = [];
}

-- `result.created_node_ids[ref] ?? ref`; the newest entry of a client id stands first.
unfoldable pub resolve_ref : Uuid → List (Uuid × Uuid) → Uuid
resolve_ref ref [] = ref
resolve_ref ref ((client, id) ∷ rest) = if client == ref then id else resolve_ref ref rest

abbrev pub batch_node : Uuid → Uuid → String → Json → Json → BoardNode
batch_node fresh canvas_id type position data_ = record {
  id = fresh;
  canvas_id = canvas_id;
  type = type;
  position = position;
  data_ = data_;
  layout_zones = "{}";
}

abbrev pub batch_update :
    BoardServices
    → Option Json
    → Option Json
    → Option BoardNode
    → Board
    → BatchResult
    → Board × BatchResult
batch_update sv position data_ none b r = (b, r)
batch_update sv position data_ (some n) b r = (
  record b {
    nodes =
        save_node
          (patched sv (record { position = position; data_ = data_; layout_zones = none }) n)
          b.nodes;
  },
  record r { updated_node_ids = r.updated_node_ids ++ (n.id ∷ []) },
)

-- `em.delete(CanvasNode, { id, canvas_id })`, with the cascade; ids are a primary key.
unfoldable pub delete_on_canvas : Uuid → Uuid → Board → Board
unfolding delete_node
delete_on_canvas id canvas_id b = if any (is_node id canvas_id) b.nodes then delete_node id b else b

abbrev pub batch_edge : BatchResult → Uuid → String → Uuid → String → String → ProposedEdge
batch_edge r source source_handle target target_handle data_type = record {
  source_node_id = resolve_ref source r.created_node_ids;
  source_handle = source_handle;
  target_node_id = resolve_ref target r.created_node_ids;
  target_handle = target_handle;
  data_type = data_type;
}

-- `In([sourceId, targetId])`.
abbrev pub is_endpoint : ProposedEdge → BoardNode → Bool
is_endpoint e n = n.id == e.source_node_id || n.id == e.target_node_id

-- The edge is validated and saved; the database refuses a second edge of the same endpoints.
unfoldable pub batch_create_edge :
    Uuid → Uuid → ProposedEdge → Board → BatchResult → Result (Board × BatchResult)
batch_create_edge fresh canvas_id e b r = do
  validate_edge e (select (is_endpoint e) (nodes_of canvas_id b))
  require (not (any (same_endpoints canvas_id e) b.edges)) internal "23505" "uk_edge_endpoints"
  ok (
    record b { edges = edge_of fresh canvas_id e ∷ b.edges },
    record r { created_edge_ids = r.created_edge_ids ++ (fresh ∷ []) },
  )

unfoldable pub batch_op :
    BoardServices → Uuid → Uuid → BatchOp → Board → BatchResult → Result (Board × BatchResult)
batch_op sv fresh canvas_id (op_create_node client type position data_) b r = ok (
  record b { nodes = batch_node fresh canvas_id type position data_ ∷ b.nodes },
  record r { created_node_ids = (client, fresh) ∷ r.created_node_ids },
)
batch_op sv fresh canvas_id (op_update_node id position data_) b r =
    ok (batch_update sv position data_ (find? (is_node id canvas_id) b.nodes) b r)
batch_op sv fresh canvas_id (op_delete_node id) b r = ok (
  delete_on_canvas id canvas_id b,
  record r { deleted_node_ids = r.deleted_node_ids ++ (id ∷ []) },
)
batch_op sv fresh canvas_id (op_create_edge source source_handle target target_handle data_type) b
      r =
    batch_create_edge fresh canvas_id
      (batch_edge r source source_handle target target_handle data_type) b r

-- The `for` loop.
unfoldable pub batch_ops :
    BoardServices
    → (ℕ → Uuid)
    → ℕ
    → Uuid
    → List BatchOp
    → Board
    → BatchResult
    → Result (Board × BatchResult)
batch_ops sv fresh n canvas_id [] b r = ok (b, r)
batch_ops sv fresh n canvas_id (op ∷ ops) b r = do
  s ← batch_op sv (fresh n) canvas_id op b r
  batch_ops sv fresh (suc n) canvas_id ops s.0 s.1

unfoldable pub apply_batch :
    BoardServices
    → (ℕ → Uuid)
    → Timestamp
    → Uuid
    → List BatchOp
    → Uuid
    → Board
    → Result (Board × BatchResult)
apply_batch sv fresh now canvas_id ops user b = do
  s ← batch_ops sv fresh 0 canvas_id ops b no_result
  ok (bump_version now canvas_id user s.0, s.1)
