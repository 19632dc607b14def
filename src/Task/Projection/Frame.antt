-- ===== src/Task/Projection/Frame.antt =====
-- What the write-back of a terminal task may touch.
use xg_canvas.Prelude.{
  ◌==◌, nat_eq, string_eq, Bool-cases, find?-holds, Pointwise, Uuid, Timestamp, ◌+◌, ◌≡◌, refl, sym,
  ap, ◌∙◌, ◌⊎◌, inl, inr, ◌&&◌, Option, none, some, List, [], ◌∷◌, arith,
}
use xg_canvas.Task.Status.{status_eq}
use xg_canvas.Task.Row.{Task}
use xg_canvas.Task.World.{NodeData, CanvasNode, Canvas, World}
use xg_canvas.Task.Projection.{
  is_canvas_of, source_node, is_superseded, delete_key, projected, set_node, bump_canvas,
  write_node, project_onto, apply_refs, apply_terminal,
}

-- The node is the same, or it is the task's source node with new data.
abbrev pub OnlySource : Task → CanvasNode → CanvasNode → Type 0
OnlySource t n m = (m ≡ n) ⊎ ((t.source_node_id ≡ some n.id) × (m ≡ record n { data_ = m.data_ }))

-- The canvas is the same, or it has the next version, the task's owner and the time.
abbrev pub OnlyBumped : Timestamp → Task → Canvas → Canvas → Type 0
OnlyBumped now t c d =
    (d ≡ c)
    ⊎ (d ≡ record c {
      version = c.version + 1;
      last_modified_by = some t.owner_id;
      updated_at = now;
    })

set_node-OnlySource :
    (t : Task) (canvas_id : Uuid) (d : NodeData) (id : Uuid)
    → t.source_node_id ≡ some id
    → (ns : List CanvasNode) → Pointwise (OnlySource t) ns (set_node id canvas_id d ns)
unfolding set_node
set_node-OnlySource t c d id e [] = tt
set_node-OnlySource t c d id e (n ∷ ns) = ground (arith, set_node-OnlySource t c d id e ns)

bump_canvas-OnlyBumped :
    (now : Timestamp) (t : Task) (id : Uuid) (cs : List Canvas)
    → Pointwise (OnlyBumped now t) cs (bump_canvas now id t.owner_id cs)
unfolding bump_canvas
bump_canvas-OnlyBumped now t id [] = tt
bump_canvas-OnlyBumped now t id (c ∷ cs) = ground (arith, bump_canvas-OnlyBumped now t id cs)

nodes_refl : (t : Task) (ns : List CanvasNode) → Pointwise (OnlySource t) ns ns
nodes_refl t [] = tt
nodes_refl t (n ∷ ns) = (inl refl, nodes_refl t ns)

canvases_refl : (now : Timestamp) (t : Task) (cs : List Canvas) → Pointwise (OnlyBumped now t) cs cs
canvases_refl now t [] = tt
canvases_refl now t (c ∷ cs) = (inl refl, canvases_refl now t cs)

abbrev pub IsFramed : Timestamp → Task → World → World → Type 0
IsFramed now t w v =
    Pointwise (OnlySource t) w.nodes v.nodes × Pointwise (OnlyBumped now t) w.canvases v.canvases

same-IsFramed : (now : Timestamp) (t : Task) (w : World) → IsFramed now t w w
same-IsFramed now t w = (nodes_refl t w.nodes, canvases_refl now t w.canvases)

source_node-id :
    (node project workspace : Uuid) (w : World) (n : CanvasNode)
    → source_node node project workspace w ≡ some n
    → n.id ≡ node
unfolding source_node
source_node-id node project workspace w n h =
    let e =
      find?-holds (λ n. n.id == node && is_canvas_of n.canvas_id project workspace w) n w.nodes h in
    ground arith

write_node-IsFramed :
    (now : Timestamp) (t : Task) (n : CanvasNode) (d : Option NodeData) (w : World)
    → t.source_node_id ≡ some n.id
    → IsFramed now t w (write_node now t n d w).0
write_node-IsFramed now t n none w e = same-IsFramed now t w
write_node-IsFramed now t n (some d) w e = (
  set_node-OnlySource t n.canvas_id d n.id e w.nodes,
  bump_canvas-OnlyBumped now t n.canvas_id w.canvases,
)

project_onto-IsFramed :
    (now : Timestamp) (t : Task) (node project : Uuid) (n : Option CanvasNode) (w : World)
    → t.source_node_id ≡ some node
    → source_node node project t.workspace_id w ≡ n
    → IsFramed now t w (project_onto now t node project n w).0
project_onto-IsFramed now t node project none w e h = same-IsFramed now t w
project_onto-IsFramed now t node project (some n) w e h =
    let d = projected t.status t (delete_key "task_id" (delete_key "status" n.data_)) in
    let q =
      e ∙ ap (λ (x : Uuid). some x) (sym (source_node-id node project t.workspace_id w n h)) in
    elim (Bool-cases (is_superseded t node project w.tasks)) [
      | inl b ↦ rw b (same-IsFramed now t w)
      | inr b ↦ rw b (write_node-IsFramed now t n d w q)
    ]

apply_refs-IsFramed :
    (now : Timestamp) (t : Task) (node project : Option Uuid) (w : World)
    → t.source_node_id ≡ node
    → IsFramed now t w (apply_refs now t node project w).0
apply_refs-IsFramed now t (some node) (some project) w e =
    project_onto-IsFramed now t node project (source_node node project t.workspace_id w) w e refl
apply_refs-IsFramed now t none p w e = same-IsFramed now t w
apply_refs-IsFramed now t (some node) none w e = same-IsFramed now t w

-- The write-back changes no node but the task's source node, and of that the data only; each canvas
-- stays, or gets the next version with the task's owner and the time of the write.
pub apply_terminal-IsFramed :
    (now : Timestamp) (t : Task) (w : World) → IsFramed now t w (apply_terminal now t w).0
unfolding apply_terminal
apply_terminal-IsFramed now t w = apply_refs-IsFramed now t t.source_node_id t.project_id w refl
