-- ===== src/Canvas/Validator.antt =====
-- `validateEdge` of apps/canvas-api/src/canvas/connection-validator.ts.
pub mod Accepted
use xg_canvas.Prelude.{
  if◌then◌else◌, string_eq, nat_eq, ◌==◌, is_none, find?, Uuid, Json, conflict, Result, ok,
  throw_error, ◌>>=◌, ◌>>◌, require, require_some, String, Bool, true, not, ◌&&◌, ◌||◌, Option,
  none, some, List,
}
use xg_canvas.Canvas.Io.{reference, EntityRefKind, EdgeDataType, parse_edge_data_type}
use xg_canvas.Canvas.Rules.{
  same_io, same_kind, same_optional_kind, PortRef, is_entity_ref, is_connection_allowed,
}
use xg_canvas.Canvas.NodeSpec.{PortSpec, NodeSpec, get_node_spec}

-- A row of canvas.canvas_nodes without its timestamps.
pub record BoardNode : Type 0 where
  pub id : Uuid
  pub canvas_id : Uuid
  pub type : String
  pub position : Json
  pub data_ : Json
  pub layout_zones : Json

pub record ProposedEdge : Type 0 where
  pub source_node_id : Uuid
  pub source_handle : String
  pub target_node_id : Uuid
  pub target_handle : String
  pub data_type : String

-- `a ?? b` of two searches.
abbrev pub or_else : Option PortSpec → Option PortSpec → Option PortSpec
or_else none b = b
or_else (some p) b = some p

-- `!parsed.entityKind || p.entityKind === parsed.entityKind`.
abbrev pub match_kind : EdgeDataType → PortSpec → Bool
match_kind parsed p =
    is_none parsed.entity_kind || same_optional_kind p.entity_kind parsed.entity_kind

unfoldable pub find_source_port : ProposedEdge → EdgeDataType → List PortSpec → Option PortSpec
find_source_port edge parsed outputs = or_else (find? (λ p. p.id == edge.source_handle) outputs) (
    or_else (find? (λ p. same_io p.type parsed.io && match_kind parsed p) outputs)
      (find? (λ p. same_io p.type parsed.io) outputs))

abbrev pub ref_of : PortSpec → PortRef
ref_of p = record { io = p.type; entity_kind = p.entity_kind }

unfoldable pub find_target_port : ProposedEdge → PortRef → List PortSpec → Option PortSpec
find_target_port edge src inputs =
    or_else (find? (λ p. p.id == edge.target_handle) inputs)
      (find? (λ p. is_connection_allowed src (ref_of p)) inputs)

-- `port.entityKind && port.entityKind !== kind`, negated.
abbrev pub expects_kind : PortSpec → EntityRefKind → Bool
expects_kind p kind = elim p.entity_kind [ none ↦ true | some k ↦ same_kind k kind ]

abbrev pub check_known_kind : Option EntityRefKind → PortSpec → PortSpec → Result (Unit {0})
check_known_kind none src tgt =
    throw_error conflict "VALIDATION_FAILED" "entity_ref must specify a known kind"
check_known_kind (some kind) src tgt = do
  require (expects_kind src kind) conflict "VALIDATION_FAILED" "source port expects entity_ref"
  require (expects_kind tgt kind) conflict "VALIDATION_FAILED" "target port expects entity_ref"

unfoldable pub check_ports : EdgeDataType → PortSpec → PortSpec → Result (Unit {0})
check_ports parsed src tgt = do
  require (is_connection_allowed (ref_of src) (ref_of tgt)) conflict "VALIDATION_FAILED"
      "connection is not allowed"
  if is_entity_ref parsed.io then check_known_kind parsed.entity_kind src tgt else ok tt

unfoldable pub check_nodes : ProposedEdge → EdgeDataType → NodeSpec → NodeSpec → Result (Unit {0})
check_nodes edge parsed src_spec tgt_spec = do
  src_port ←
      require_some (find_source_port edge parsed src_spec.outputs) conflict "VALIDATION_FAILED"
        "no output of the type"
  require (same_io src_port.type parsed.io) conflict "VALIDATION_FAILED"
      "data_type disagrees with the source port type"
  tgt_port ←
      require_some (find_target_port edge (ref_of src_port) tgt_spec.inputs) conflict
        "VALIDATION_FAILED" "no compatible input"
  check_ports parsed src_port tgt_port

-- The messages leave out the names that the source's templates fill in.
unfoldable pub validate_edge : ProposedEdge → List BoardNode → Result (Unit {0})
validate_edge edge nodes = do
  src ←
      require_some (find? (λ n. n.id == edge.source_node_id) nodes) conflict "NOT_FOUND"
        "edge endpoints must reference nodes on the same canvas"
  tgt ←
      require_some (find? (λ n. n.id == edge.target_node_id) nodes) conflict "NOT_FOUND"
        "edge endpoints must reference nodes on the same canvas"
  parsed ←
      require_some (parse_edge_data_type edge.data_type) conflict "VALIDATION_FAILED"
        "unknown data_type"
  check_nodes edge parsed (get_node_spec src.type) (get_node_spec tgt.type)
