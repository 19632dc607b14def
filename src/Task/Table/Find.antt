-- ===== src/Task/Table/Find.antt =====
-- A statement about one id acts on the row of that id, and returns it.
use xg_canvas.Prelude.{
  nat_eq, string_eq, if◌then◌else◌, All, In, Uuid, ◌≡◌, refl, ◌≢◌, Bool, true, Option, none, some,
  [], ◌∷◌, arith,
}
use xg_canvas.Task.Row.{Task, Table}
use xg_canvas.Task.Table.{update_where, update_first, find_by_id, Distinct}

abbrev pub set_if : (Task → Bool) → (Task → Task) → Task → Task
set_if cond set t = if cond t then set t else t

abbrev pub apply_to : (Task → Task) → Option Task → Option Task
apply_to f none = none
apply_to f (some t) = some (f t)

abbrev pub hit_of : (Task → Bool) → (Task → Task) → Option Task → Option Task
hit_of cond set none = none
hit_of cond set (some t) = if cond t then some (set t) else none

pub find_by_id-id : (id : Uuid) (t : Task) (ts : Table) → find_by_id id ts ≡ some t → t.id ≡ id
unfolding find_by_id
find_by_id-id id t [] h = cc
find_by_id-id id t (x ∷ ts) h = ground (arith, find_by_id-id id t ts)

pub find_by_id-In : (id : Uuid) (t : Task) (ts : Table) → find_by_id id ts ≡ some t → In t ts
unfolding find_by_id
find_by_id-In id t [] h = cc
find_by_id-In id t (x ∷ ts) h = ground (arith, find_by_id-In id t ts)

module _ (id : Uuid) (cond : Task → Bool) (set : Task → Task)
    (of_id : (t : Task) → cond t ≡ true → t.id ≡ id)
    (same_id : (t : Task) → (set t).id ≡ t.id) where
  pub find_by_id-update_first :
      (ts : Table)
      → find_by_id id (update_first cond set ts).0 ≡ apply_to (set_if cond set) (find_by_id id ts)
  unfolding find_by_id update_first update_where
  find_by_id-update_first [] = refl
  find_by_id-update_first (x ∷ ts) = ground (arith, of_id x, same_id x, find_by_id-update_first ts)

  no-other :
      (x : Task) (ts : Table)
      → x.id ≡ id
      → All (λ u. u.id ≢ x.id) ts
      → update_where cond set ts ≡ (ts, [])
  unfolding update_where
  no-other x [] e h = refl
  no-other x (y ∷ ts) e h = ground (arith, of_id y, no-other x ts e h.1)

  pub update_first-row :
      (ts : Table) → Distinct ts → (update_first cond set ts).1 ≡ hit_of cond set (find_by_id id ts)
  unfolding find_by_id update_first update_where
  update_first-row [] d = refl
  update_first-row (x ∷ ts) d = ground (arith, of_id x, no-other x ts, d.0, update_first-row ts d.1)
