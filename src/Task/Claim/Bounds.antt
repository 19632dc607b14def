-- ===== src/Task/Claim/Bounds.antt =====
-- How many rows the two claims of apps/canvas-api/src/task/task-execution.store.ts lease.
use xg_canvas.Prelude.{
  string_eq, nat_eq, ◌==◌, Bool-cases, length, select, All, length-take-le, Uuid, Timestamp,
  sort_by, ℕ, ◌+◌, ◌≤◌, ◌≡◌, refl, subst, ◌≢◌, inl, inr, Bool, false, not, ◌&&◌, ◌||◌, List, [],
  ◌∷◌, arith,
}
use xg_canvas.Task.Row.{Task, Table}
use xg_canvas.Task.Table.{update_where, Distinct}
use xg_canvas.Task.Claim.{
  claimable, pollable, created_before, polled_before, pick, is_picked, claim_set, claim_poll_set,
  claim_pending, claim_due_polls,
}

-- The rows that an UPDATE returns.
abbrev updated : (Task → Bool) → (Task → Task) → Table → ℕ
updated cond set ts = length (update_where cond set ts).1

module _ (set : Task → Task) where
  updated_nothing : (ts : Table) → updated (λ t. false) set ts ≡ 0
  unfolding update_where
  updated_nothing [] = refl
  updated_nothing (t ∷ ts) = updated_nothing ts

  updated-any :
      (c d : Task → Bool) (ts : Table)
      → updated (λ t. c t || d t) set ts ≤ updated c set ts + updated d set ts
  unfolding update_where
  updated-any c d [] = omega arith
  updated-any c d (t ∷ ts) = ground (arith, updated-any c d ts)

  updated_elsewhere :
      (id : ℕ) (ts : Table) → All (λ u. u.id ≢ id) ts → updated (λ t. t.id == id) set ts ≡ 0
  unfolding update_where
  updated_elsewhere id [] h = refl
  updated_elsewhere id (t ∷ ts) h =
      ground (arith, h.0, (nat_eq.beq_iff t.id id).0, updated_elsewhere id ts h.1)

  updated_by_id : (id : ℕ) (ts : Table) → Distinct ts → updated (λ t. t.id == id) set ts ≤ 1
  unfolding update_where
  updated_by_id id [] d = omega arith
  updated_by_id id (t ∷ ts) d = elim (Bool-cases (t.id == id)) [
    | inl e ↦ rw e (
        rw
          (updated_elsewhere id ts
            (subst (λ i. All (λ u. u.id ≢ i) ts) ((nat_eq.beq_iff t.id id).0 e) d.0))
          (omega arith))
    | inr e ↦ rw e (updated_by_id id ts d.1)
  ]

  updated-is_picked :
      (ps : List Task) (ts : Table) → Distinct ts → updated (is_picked ps) set ts ≤ length ps
  updated-is_picked [] ts d = rw (updated_nothing ts) (omega arith)
  updated-is_picked (p ∷ ps) ts d =
      let one = updated_by_id p.id ts d in
      let rest = updated-is_picked ps ts d in
      let both = updated-any (λ t. t.id == p.id) (is_picked ps) ts in omega arith

length-pick :
    (before : Task → Task → Bool) (cond locked : Task → Bool) (limit : ℕ) (ts : Table)
    → length (pick before cond locked limit ts) ≤ limit
unfolding pick
length-pick before cond locked limit ts =
    length-take-le limit (sort_by before (select (λ t. cond t && not (locked t)) ts))

-- From a table of distinct rows, each of the two claims returns at most as many rows as its LIMIT,
-- whatever other transactions have locked.
pub claim_within_limit :
    (now : Timestamp) (locked : Task → Bool) (fresh : Task → Uuid) (limit lease_ms : ℕ) (ts : Table)
    → Distinct ts
    → (length (claim_pending now locked fresh limit lease_ms ts).1 ≤ limit)
      × (length (claim_due_polls now locked fresh limit lease_ms ts).1 ≤ limit)
unfolding claim_pending claim_due_polls
claim_within_limit now locked fresh limit lease_ms ts d =
    let a =
      updated-is_picked (claim_set now lease_ms fresh)
        (pick created_before (claimable now) locked limit ts) ts d in
    let b =
      updated-is_picked (claim_poll_set now lease_ms fresh)
        (pick polled_before (pollable now) locked limit ts) ts d in
    let la = length-pick created_before (claimable now) locked limit ts in
    let lb = length-pick polled_before (pollable now) locked limit ts in (omega arith, omega arith)
