-- ===== src/Task/Claim/Picked.antt =====
-- A row that a claim leases meets the WHERE clause of the claim's SELECT.
use xg_canvas.Prelude.{
  ◌==◌, nat_eq, string_eq, In, In-take, In-select, any-In, In-sort_by, ℕ, ◌≡◌, Bool, true, not,
  ◌&&◌,
}
use xg_canvas.Task.Row.{Task, Table}
use xg_canvas.Task.Table.{Distinct, eq_of_id}
use xg_canvas.Task.Claim.{pick, is_picked}

module _ (before : Task → Task → Bool) (cond locked : Task → Bool) (limit : ℕ) (ts : Table)
    (d : Distinct ts) where
  pub is_picked-cond :
      (t : Task)
      → In t ts
      → is_picked (pick before cond locked limit ts) t ≡ true
      → (cond t && not (locked t)) ≡ true
  unfolding pick
  is_picked-cond t i h =
      let (p, k, e) = any-In (λ p. t.id == p.id) (pick before cond locked limit ts) h in
      let (j, c) =
        In-select (λ u. cond u && not (locked u)) p ts
          (In-sort_by before p _ (In-take limit p _ k)) in
      rw (eq_of_id t p ts d i j ((nat_eq.beq_iff t.id p.id).0 e)) c
