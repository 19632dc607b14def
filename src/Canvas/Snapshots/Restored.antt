-- ===== src/Canvas/Snapshots/Restored.antt =====
-- A restored canvas has the rows that the snapshot took.
use xg_canvas.Canvas.Validator.{BoardNode}
use xg_canvas.Canvas.Snapshots.{
  Snapshot, edges_of, snapshot_of, is_version, snapshot_missing, create_snapshot, node_on, edge_on,
  touches, restore_rows, is_snapshot, restore,
}
use xg_canvas.Canvas.Board.{
  CanvasEdge, BoardCanvas, Board, BoardServices, get_or_throw, bump_version, nodes_of,
}
use xg_canvas.Prelude.{
  nat_beq_iff, string_eq, nat_eq, ◌==◌, Bool-cases, get_or, select, find?, All, find?-In, All-In,
  Uuid, Timestamp, not_found, ok, require_some-ok, bind-ok, ok-injective, ◌≡◌, refl, sym, ap, ◌∙◌,
  subst, ◌≢◌, inl, inr, Bool, true, false, not, ◌||◌, Option, none, some, List, [], ◌∷◌, ◌++◌, map,
  arith,
}

restored_rows :
    {A : Type 0} (on q : A → Bool) (move : A → A) (xs ys : List A)
    → ((a : A) → on (move a) ≡ true)
    → ((a : A) → q a ≡ true → on a ≡ false)
    → select on (map move xs ++ select q ys) ≡ map move xs
restored_rows on q move [] [] f g = refl
restored_rows on q move [] (y ∷ ys) f g = ground (arith, g y, restored_rows on q move [] ys f g)
restored_rows on q move (x ∷ xs) ys f g = ground (arith, f x, restored_rows on q move xs ys f g)

moved_rows :
    {A : Type 0} (on : A → Bool) (move : A → A) (xs : List A)
    → ((a : A) → on a ≡ true → move a ≡ a)
    → map move (select on xs) ≡ select on xs
moved_rows on move [] f = refl
moved_rows on move (x ∷ xs) f = elim (Bool-cases (on x)) [
  | inl q ↦
      rw q
        (ap (λ y. y ∷ map move (select on xs)) (f x q) ∙ ap (λ r. x ∷ r) (moved_rows on move xs f))
  | inr q ↦ rw q (moved_rows on move xs f)
]

-- The snapshot was taken by this call, and is not an older one of the same version.
taken :
    (fresh canvas_id : Uuid) (c : BoardCanvas) (b : Board) (ss ss' : List Snapshot) (s : Snapshot)
    (o : Option Snapshot)
    → find? (is_version canvas_id c.version) ss ≡ o
    → All (λ x. x.id ≢ fresh) ss
    → snapshot_missing fresh c canvas_id b o ss ≡ ok (ss', s)
    → s.id ≡ fresh
    → ss' ≡ snapshot_of fresh c canvas_id b ∷ ss
taken fresh canvas_id c b ss ss' s none f new h e =
    sym (ap (λ (p : List Snapshot × Snapshot). p.0) (ok-injective h))
taken fresh canvas_id c b ss ss' s (some x) f new h e =
    let q = ap (λ (p : List Snapshot × Snapshot). p.1) (ok-injective h) in
    absurd (
      All-In (λ y. y.id ≢ fresh) x ss new (find?-In (is_version canvas_id c.version) x ss f)
        (ap (λ (y : Snapshot). y.id) q ∙ e))

snapshot_hit :
    (fresh canvas_id : Uuid) (c : BoardCanvas) (b : Board) (ss : List Snapshot)
    → find? (is_snapshot fresh canvas_id) (snapshot_of fresh c canvas_id b ∷ ss)
      ≡ some (snapshot_of fresh c canvas_id b)
snapshot_hit fresh canvas_id c b ss =
    rw ((nat_beq_iff fresh fresh).1 refl, (nat_beq_iff canvas_id canvas_id).1 refl) refl

first_snapshot :
    (fresh canvas_id : Uuid) (c : BoardCanvas) (b : Board) (s : Snapshot) (ss : List Snapshot)
    → find? (is_snapshot fresh canvas_id) (snapshot_of fresh c canvas_id b ∷ ss) ≡ some s
    → snapshot_of fresh c canvas_id b ≡ s
first_snapshot fresh canvas_id c b s ss h =
    ap (λ o. get_or o (snapshot_of fresh c canvas_id b))
      (sym (snapshot_hit fresh canvas_id c b ss) ∙ h)

-- What a restore writes, when the snapshot stands first.
restored_first :
    (sv : BoardServices) (now : Timestamp) (user canvas_id fresh : Uuid) (c : BoardCanvas)
    (b later b' : Board) (ss : List Snapshot)
    → restore sv now user canvas_id fresh later (snapshot_of fresh c canvas_id b ∷ ss) ≡ ok b'
    → b'
      ≡ bump_version now canvas_id user
          (restore_rows canvas_id (snapshot_of fresh c canvas_id b) later)
unfolding restore
restored_first sv now user canvas_id fresh c b later b' ss h =
    let snap = snapshot_of fresh c canvas_id b in
    let (s, f, h1) =
      require_some-ok (find? (is_snapshot fresh canvas_id) (snap ∷ ss)) not_found "NOT_FOUND"
        "snapshot not found" _ b' h in
    let (x, a, h2) = bind-ok (get_or_throw sv user canvas_id later) _ b' h1 in
    let e = first_snapshot fresh canvas_id c b s ss f in
    sym (ok-injective h2)
    ∙ ap (λ y. bump_version now canvas_id user (restore_rows canvas_id y later)) (sym e)

-- Whatever happens to the canvas after a snapshot was taken, a restore that goes through brings back
-- exactly the nodes and the edges that the canvas had then.
pub restore-create_snapshot :
    (sv : BoardServices) (fresh : Uuid) (now : Timestamp) (user by canvas_id : Uuid)
    (b later b' : Board) (ss ss' : List Snapshot) (s : Snapshot)
    → create_snapshot sv fresh user canvas_id b ss ≡ ok (ss', s)
    → All (λ x. x.id ≢ fresh) ss
    → s.id ≡ fresh
    → restore sv now by canvas_id fresh later ss' ≡ ok b'
    → (nodes_of canvas_id b' ≡ nodes_of canvas_id b)
      × (edges_of canvas_id b' ≡ edges_of canvas_id b)
unfolding create_snapshot restore_rows
restore-create_snapshot sv fresh now user by canvas_id b later b' ss ss' s h new e r =
    let (c, a, h1) = bind-ok (get_or_throw sv user canvas_id b) _ (ss', s) h in
    let t =
      taken fresh canvas_id c b ss ss' s (find? (is_version canvas_id c.version) ss) refl new h1
        e in
    let q =
      restored_first sv now by canvas_id fresh c b later b' ss
        (subst (λ xs. restore sv now by canvas_id fresh later xs ≡ ok b') t r) in
    (
      ap (nodes_of canvas_id) q
          ∙ restored_rows (λ (n : BoardNode). n.canvas_id == canvas_id)
              (λ n. not (n.canvas_id == canvas_id)) (node_on canvas_id) (nodes_of canvas_id b)
              later.nodes (λ n. ground arith) (λ n k. ground arith)
          ∙ moved_rows (λ (n : BoardNode). n.canvas_id == canvas_id) (node_on canvas_id) b.nodes
              (λ n k. ground arith),
      ap (edges_of canvas_id) q
          ∙ restored_rows (λ (n : CanvasEdge). n.canvas_id == canvas_id)
              (λ e. not (e.canvas_id == canvas_id || touches (nodes_of canvas_id later) e))
              (edge_on canvas_id) (edges_of canvas_id b) later.edges (λ n. ground arith)
              (λ n k. ground arith)
          ∙ moved_rows (λ (n : CanvasEdge). n.canvas_id == canvas_id) (edge_on canvas_id) b.edges
              (λ n k. ground arith),
    )
