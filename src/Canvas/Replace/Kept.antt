-- ===== src/Canvas/Replace/Kept.antt =====
-- Which of the client's edges a replacement keeps.
use xg_canvas.Canvas.Nodes.{is_node}
use xg_canvas.Prelude.{
  if◌then◌else◌, string_eq, nat_eq, ◌==◌, any, All, In, In-any, Uuid, ◌≡◌, refl, inl, inr, Bool,
  true, false, List, [], ◌∷◌, map, arith,
}
use xg_canvas.Canvas.Validator.{BoardNode, ProposedEdge}
use xg_canvas.Canvas.Replace.{ReplaceEdge, has_id, same_ends, valid_edges}

-- Endpoints that the list already has.
abbrev pub has_ends : ProposedEdge → List ReplaceEdge → Bool
has_ends p es = any (λ e. same_ends p e.ends) es

abbrev pub IsUnique : List ReplaceEdge → Type 0
IsUnique [] = Unit {0}
IsUnique (e ∷ es) = (has_ends e.ends es ≡ false) × IsUnique es

-- Both nodes are among the client's.
abbrev pub IsInside : List Uuid → ReplaceEdge → Type 0
IsInside ids e =
    (has_id e.ends.source_node_id ids ≡ true) × (has_id e.ends.target_node_id ids ≡ true)

pub valid_edges-IsInside :
    (ids : List Uuid) (seen : List ProposedEdge) (es : List ReplaceEdge)
    → All (IsInside ids) (valid_edges ids seen es)
unfolding valid_edges
valid_edges-IsInside ids seen [] = tt
valid_edges-IsInside ids seen (e ∷ es) =
    ground (arith, valid_edges-IsInside ids seen es, valid_edges-IsInside ids (e.ends ∷ seen) es)

-- Endpoints that are seen are not kept again.
unseen :
    (ids : List Uuid) (s : ProposedEdge) (seen : List ProposedEdge) (es : List ReplaceEdge)
    → In s seen
    → has_ends s (valid_edges ids seen es) ≡ false
unfolding valid_edges
unseen ids s seen [] i = refl
unseen ids s seen (e ∷ es) i = ground (
  arith,
  unseen ids s seen es i,
  unseen ids s (e.ends ∷ seen) es (inr i),
  In-any (λ x. same_ends x e.ends) s seen i,
)

-- No two of the client's edges that a replacement keeps have the same endpoints and handles.
valid_edges-IsUnique :
    (ids : List Uuid) (seen : List ProposedEdge) (es : List ReplaceEdge)
    → IsUnique (valid_edges ids seen es)
unfolding valid_edges
valid_edges-IsUnique ids seen [] = tt
valid_edges-IsUnique ids seen (e ∷ es) = ground (
  arith,
  valid_edges-IsUnique ids seen es,
  valid_edges-IsUnique ids (e.ends ∷ seen) es,
  unseen ids e.ends (e.ends ∷ seen) es (inl refl),
)

-- The client's rows are there after the upserts.
pub overwritten_here :
    (canvas_id id : Uuid) (n : BoardNode) (ns : List BoardNode)
    → n.id ≡ id
    → n.canvas_id ≡ canvas_id
    → any (λ x. x.id == n.id) ns ≡ true
    → any (is_node id canvas_id) (map (λ x. if x.id == n.id then n else x) ns) ≡ true
overwritten_here canvas_id id n [] e c h = cc
overwritten_here canvas_id id n (x ∷ ns) e c h =
    ground (arith, overwritten_here canvas_id id n ns e c)

pub overwritten_keeps :
    (canvas_id id : Uuid) (n : BoardNode) (ns : List BoardNode)
    → n.canvas_id ≡ canvas_id
    → any (is_node id canvas_id) ns ≡ true
    → any (is_node id canvas_id) (map (λ x. if x.id == n.id then n else x) ns) ≡ true
overwritten_keeps canvas_id id n [] c h = cc
overwritten_keeps canvas_id id n (x ∷ ns) c h =
    ground (arith, overwritten_keeps canvas_id id n ns c)
