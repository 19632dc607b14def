-- ===== src/Canvas/Validator/Accepted.antt =====
-- What an accepted edge connects.
use xg_canvas.Prelude.{
  require_test, nat_beq_iff, if◌then◌else◌, string_eq, nat_eq, ◌==◌, find?, find?-holds, In,
  find?-In, conflict, ok, require, require_some-ok, require-ok, ◌≡◌, refl, ◌⊎◌, inl, inr, true,
  ◌&&◌, Option, none, some, List,
}
use xg_canvas.Canvas.Io.{EntityRefKind, EdgeDataType, parse_edge_data_type}
use xg_canvas.Canvas.Rules.{PortRef, same_io, is_entity_ref, is_connection_allowed}
use xg_canvas.Canvas.NodeSpec.{PortSpec, get_node_spec}
use xg_canvas.Canvas.Validator.{
  check_nodes, match_kind, find_source_port, check_known_kind, validate_edge, find_target_port,
  check_ports, or_else, BoardNode, ProposedEdge, ref_of, expects_kind,
}

-- Nodes of the list with the edge's ids, an output of the one of the edge's io type, and an input of
-- the other that the rules allow from there; a reference to an entity names a kind that both ports
-- take.
pub record IsConnection (edge : ProposedEdge) (nodes : List BoardNode) : Type 0 where
  pub source : BoardNode
  pub target : BoardNode
  pub data_type : EdgeDataType
  pub output : PortSpec
  pub input : PortSpec
  pub source_In : In source nodes × (source.id ≡ edge.source_node_id)
  pub target_In : In target nodes × (target.id ≡ edge.target_node_id)
  pub parsed : parse_edge_data_type edge.data_type ≡ some data_type
  pub output_In : In output (get_node_spec source.type).outputs
  pub input_In : In input (get_node_spec target.type).inputs
  pub output_type : same_io output.type data_type.io ≡ true
  pub allowed : is_connection_allowed (ref_of output) (ref_of input) ≡ true
  pub kinds :
      is_entity_ref data_type.io ≡ true
      → (k : EntityRefKind) × (data_type.entity_kind ≡ some k)
        × (expects_kind output k ≡ true)
        × (expects_kind input k ≡ true)

or_else-some :
    (a b : Option PortSpec) (p : PortSpec) → or_else a b ≡ some p → (a ≡ some p) ⊎ (b ≡ some p)
or_else-some none b p h = inr h
or_else-some (some q) b p h = inl h

find_source_port-In :
    (edge : ProposedEdge) (parsed : EdgeDataType) (outputs : List PortSpec) (p : PortSpec)
    → find_source_port edge parsed outputs ≡ some p
    → In p outputs
unfolding find_source_port
find_source_port-In edge parsed outputs p h =
    let by_id = λ (p : PortSpec). p.id == edge.source_handle in
    let by_kind = λ (p : PortSpec). same_io p.type parsed.io && match_kind parsed p in
    let by_type = λ (p : PortSpec). same_io p.type parsed.io in
    elim (or_else-some (find? by_id outputs)
      (or_else (find? by_kind outputs) (find? by_type outputs)) p h) [
        | inl e ↦ find?-In by_id p outputs e
        | inr r ↦ elim (or_else-some (find? by_kind outputs) (find? by_type outputs) p r) [
          | inl e ↦ find?-In by_kind p outputs e
          | inr e ↦ find?-In by_type p outputs e
        ]
      ]

find_target_port-In :
    (edge : ProposedEdge) (src : PortRef) (inputs : List PortSpec) (p : PortSpec)
    → find_target_port edge src inputs ≡ some p
    → In p inputs
unfolding find_target_port
find_target_port-In edge src inputs p h =
    let by_id = λ (p : PortSpec). p.id == edge.target_handle in
    let by_rule = λ (p : PortSpec). is_connection_allowed src (ref_of p) in
    elim (or_else-some (find? by_id inputs) (find? by_rule inputs) p h) [
      | inl e ↦ find?-In by_id p inputs e
      | inr e ↦ find?-In by_rule p inputs e
    ]

check_known_kind-ok :
    (kind : Option EntityRefKind) (src tgt : PortSpec)
    → check_known_kind kind src tgt ≡ ok tt
    → (k : EntityRefKind) × (kind ≡ some k)
      × (expects_kind src k ≡ true)
      × (expects_kind tgt k ≡ true)
check_known_kind-ok none src tgt h = cc
check_known_kind-ok (some k) src tgt h =
    let (a, r) =
      require-ok (expects_kind src k) conflict "VALIDATION_FAILED" "source port expects entity_ref"
        (require (expects_kind tgt k) conflict "VALIDATION_FAILED" "target port expects entity_ref")
        tt h in
    (
      k,
      refl,
      a,
      require_test (expects_kind tgt k) conflict "VALIDATION_FAILED"
          "target port expects entity_ref" r,
    )

check_ports-ok :
    (parsed : EdgeDataType) (src tgt : PortSpec)
    → check_ports parsed src tgt ≡ ok tt
    → (is_connection_allowed (ref_of src) (ref_of tgt) ≡ true)
      × (is_entity_ref parsed.io ≡ true
          → (k : EntityRefKind) × (parsed.entity_kind ≡ some k)
            × (expects_kind src k ≡ true)
            × (expects_kind tgt k ≡ true))
unfolding check_ports
check_ports-ok parsed src tgt h =
    let (a, r) =
      require-ok (is_connection_allowed (ref_of src) (ref_of tgt)) conflict "VALIDATION_FAILED"
        "connection is not allowed"
        (if is_entity_ref parsed.io then check_known_kind parsed.entity_kind src tgt else ok tt) tt
        h in
    (a, λ e. check_known_kind-ok parsed.entity_kind src tgt (rw e at r))

-- An edge that is accepted is a connection between nodes of the list.
pub validate_edge-IsConnection :
    (edge : ProposedEdge) (nodes : List BoardNode)
    → validate_edge edge nodes ≡ ok tt
    → IsConnection edge nodes
unfolding validate_edge check_nodes
validate_edge-IsConnection edge nodes h =
    let by_source = λ (n : BoardNode). n.id == edge.source_node_id in
    let by_target = λ (n : BoardNode). n.id == edge.target_node_id in
    let (src, s, h1) =
      require_some-ok (find? by_source nodes) conflict "NOT_FOUND"
        "edge endpoints must reference nodes on the same canvas" _ tt h in
    let (tgt, t, h2) =
      require_some-ok (find? by_target nodes) conflict "NOT_FOUND"
        "edge endpoints must reference nodes on the same canvas" _ tt h1 in
    let (parsed, p, h3) =
      require_some-ok (parse_edge_data_type edge.data_type) conflict "VALIDATION_FAILED"
        "unknown data_type" _ tt h2 in
    let (out, o, h4) =
      require_some-ok (find_source_port edge parsed (get_node_spec src.type).outputs) conflict
        "VALIDATION_FAILED" "no output of the type" _ tt h3 in
    let (same, h5) =
      require-ok (same_io out.type parsed.io) conflict "VALIDATION_FAILED"
        "data_type disagrees with the source port type" _ tt h4 in
    let (inp, i, h6) =
      require_some-ok (find_target_port edge (ref_of out) (get_node_spec tgt.type).inputs) conflict
        "VALIDATION_FAILED" "no compatible input" _ tt h5 in
    let (ok_pair, kinds) = check_ports-ok parsed out inp h6 in
    record {
      source = src;
      target = tgt;
      data_type = parsed;
      output = out;
      input = inp;
      source_In = (
        find?-In by_source src nodes s,
        (nat_beq_iff src.id edge.source_node_id).0 (find?-holds by_source src nodes s),
      );
      target_In = (
        find?-In by_target tgt nodes t,
        (nat_beq_iff tgt.id edge.target_node_id).0 (find?-holds by_target tgt nodes t),
      );
      parsed = p;
      output_In = find_source_port-In edge parsed (get_node_spec src.type).outputs out o;
      input_In = find_target_port-In edge (ref_of out) (get_node_spec tgt.type).inputs inp i;
      output_type = same;
      allowed = ok_pair;
      kinds = kinds;
    }
