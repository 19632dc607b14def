-- ===== src/Task/Table.antt =====
-- The statements `UPDATE canvas.tasks SET … WHERE … RETURNING *` and `SELECT … WHERE id = $1`, which
-- the task services send, over a table as a list of rows; `firstRow` of their results.
pub mod Find
use xg_canvas.Prelude.{
  ◌==◌, nat_eq, string_eq, if◌then◌else◌, Bool-cases, head?, find?, All, In, Pointwise, Uuid, ◌>>=◌,
  ◌>>◌, ◌≡◌, refl, sym, ap, ◌∙◌, ◌≢◌, inl, inr, Bool, true, false, Option, none, some, List, [],
  ◌∷◌, arith,
}
use xg_canvas.Task.Row.{Task, Table}

-- Every row that meets the condition is set; the updated rows are returned.
unfoldable pub update_where : (Task → Bool) → (Task → Task) → Table → Table × List Task
update_where cond set [] = ([], [])
update_where cond set (t ∷ ts) =
    let (rest, rows) = update_where cond set ts in
    if cond t then (set t ∷ rest, set t ∷ rows) else (t ∷ rest, rows)

-- The same, with the first returned row (`firstRow`).
unfoldable pub update_first : (Task → Bool) → (Task → Task) → Table → Table × Option Task
update_first cond set ts = let (ts', rows) = update_where cond set ts in (ts', head? rows)

-- `SELECT * FROM canvas.tasks WHERE id = $1`.
unfoldable pub find_by_id : Uuid → Table → Option Task
find_by_id id ts = find? (λ t. t.id == id) ts

module _ {ℓ} (P : Task → Type ℓ) (cond : Task → Bool) (set : Task → Task) where
  -- A property of rows that the assignment keeps where the condition holds is kept by the statement.
  pub All-update_where :
      ((t : Task) → cond t ≡ true → P t → P (set t))
      → (ts : Table) → All P ts
      → All P (update_where cond set ts).0
  unfolding update_where
  All-update_where keep [] h = tt
  All-update_where keep (t ∷ ts) h = elim (Bool-cases (cond t)) [
    | inl e ↦ rw e (keep t e h.0, All-update_where keep ts h.1)
    | inr e ↦ rw e (h.0, All-update_where keep ts h.1)
  ]

  pub All-update_first :
      ((t : Task) → cond t ≡ true → P t → P (set t))
      → (ts : Table) → All P ts
      → All P (update_first cond set ts).0
  unfolding update_first
  All-update_first keep ts h = All-update_where keep ts h

-- Ids are a primary key.
abbrev pub Distinct : Table → Type 0
Distinct [] = Unit
Distinct (t ∷ ts) = All (λ u. u.id ≢ t.id) ts × Distinct ts

not-In_of_All : (t p : Task) (ts : Table) → All (λ u. u.id ≢ t.id) ts → In p ts → p.id ≢ t.id
not-In_of_All t p (x ∷ ts) h (inl e) q = h.0 (ap (λ (u : Task). u.id) (sym e) ∙ q)
not-In_of_All t p (x ∷ ts) h (inr i) q = not-In_of_All t p ts h.1 i q
not-In_of_All t p [] h i q = elim i [ ]

-- Two rows of a table with the same id are one row.
pub eq_of_id : (t p : Task) (ts : Table) → Distinct ts → In t ts → In p ts → t.id ≡ p.id → t ≡ p
eq_of_id t p [] d i j e = elim i [ ]
eq_of_id t p (x ∷ ts) d (inl a) (inl b) e = a ∙ sym b
eq_of_id t p (x ∷ ts) d (inl a) (inr j) e =
    absurd (not-In_of_All x p ts d.0 j (sym e ∙ ap (λ (u : Task). u.id) a))
eq_of_id t p (x ∷ ts) d (inr i) (inl b) e =
    absurd (not-In_of_All x t ts d.0 i (e ∙ ap (λ (u : Task). u.id) b))
eq_of_id t p (x ∷ ts) d (inr i) (inr j) e = eq_of_id t p ts d.1 i j e

module _ (R : Task → Task → Type 0) (cond : Task → Bool) (set : Task → Task) where
  -- The statement relates each row to its successor, if the assignment and standing still do.
  pub update_where-Pointwise :
      ((t : Task) → R t t)
      → (ts : Table) → ((t : Task) → In t ts → cond t ≡ true → R t (set t))
      → Pointwise R ts (update_where cond set ts).0
  unfolding update_where
  update_where-Pointwise still [] moves = tt
  update_where-Pointwise still (t ∷ ts) moves =
      let rest = update_where-Pointwise still ts (λ u i. moves u (inr i)) in
      ground (arith, still t, moves t (inl refl), rest)

-- After a statement whose assignment falsifies its condition no row meets the condition.
pub update_first-clears :
    (cond : Task → Bool) (set : Task → Task)
    → ((t : Task) → cond (set t) ≡ false)
    → (ts : Table) → find? cond (update_first cond set ts).0 ≡ none
unfolding update_first update_where
update_first-clears cond set off [] = refl
update_first-clears cond set off (t ∷ ts) =
    ground (arith, off t, update_first-clears cond set off ts)

-- A row that meets the condition is set, and one that does is returned.
pub update_first-none :
    (cond : Task → Bool) (set : Task → Task) (ts : Table)
    → find? cond ts ≡ none
    → update_first cond set ts ≡ (ts, none)
unfolding update_first update_where
update_first-none cond set [] h = refl
update_first-none cond set (t ∷ ts) h = ground (arith, update_first-none cond set ts)

-- The first row that meets the condition is the one that is set and returned.
pub update_first-some :
    (cond : Task → Bool) (set : Task → Task) (p : Task) (ts : Table)
    → find? cond ts ≡ some p
    → (update_first cond set ts).1 ≡ some (set p)
unfolding update_first update_where
update_first-some cond set p [] h = cc
update_first-some cond set p (t ∷ ts) h = ground (arith, update_first-some cond set p ts)
