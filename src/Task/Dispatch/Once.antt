-- ===== src/Task/Dispatch/Once.antt =====
-- The invoke service is asked at most once for a task between two resets of its attempt.
use xg_canvas.Task.Statement.Consistency.{run-Distinct}
use xg_canvas.Prelude.{
  nat_eq, string_eq, is_some, Option-cases, All, In, All-Pointwise, All-In, All-of_In, All-map,
  Uuid, Timestamp, ℕ, ◌≤◌, ◌<◌, ◌≡◌, refl, sym, ap, ◌∙◌, ◌≢◌, ◌⊎◌, inl, inr, true, none, some, List,
  [], ◌∷◌, arith,
}
use xg_canvas.Task.Row.{Task, Table}
use xg_canvas.Task.Table.{eq_of_id, find_by_id, Distinct}
use xg_canvas.Task.Statement.{prepares, Statement, claims, run, condition, assignment}
use xg_canvas.Task.Statement.Pointwise.{run-Pointwise}
use xg_canvas.Task.Store.{prepare_cond, prepare_set, prepare_invoke_attempt}
use xg_canvas.Task.Table.Find.{
  find_by_id-In, set_if, apply_to, hit_of, find_by_id-update_first, update_first-row,
}
use xg_canvas.Task.Dispatch.{dispatch, here, other, next, Step, Reach, System, IsFreshLogical}

-- An attempt was dispatched for the row: it is over, or the row has a logical request.
abbrev pub IsSpent : Uuid × ℕ → Task → Type 0
IsSpent e t =
    t.id ≡ e.0
    → (e.1 < t.retry_count) ⊎ ((e.1 ≤ t.retry_count) × (is_some t.invoke_logical_request_id ≡ true))

assignment-IsSpent :
    (now : Timestamp) (s : Statement) (e : Uuid × ℕ) (t : Task)
    → condition now s t ≡ true
    → IsSpent e t
    → IsSpent e (assignment now s t)
assignment-IsSpent now (claims locked fresh limit lease_ms) e t c v = ground arith
assignment-IsSpent now _ e t c v = ground arith

run-IsSpent :
    (now : Timestamp) (s : Statement) (e : Uuid × ℕ) (ts : Table)
    → Distinct ts
    → All (IsSpent e) ts
    → All (IsSpent e) (run now s ts)
run-IsSpent now s e ts d h =
    All-Pointwise (IsSpent e) ts (run now s ts)
      (run-Pointwise (λ t u. IsSpent e t → IsSpent e u) (λ t v. v) now s ts d
        (λ t c. assignment-IsSpent now s e t c))
      h

abbrev pub AllDistinct : List (Uuid × ℕ) → Type 0
AllDistinct [] = Unit
AllDistinct (e ∷ es) = All (λ f. f ≢ e) es × AllDistinct es

pub record IsSafe (a : System) : Type 0 where
  pub distinct : Distinct a.tasks
  pub spent : All (λ e. All (IsSpent e) a.tasks) a.dispatched
  pub once : AllDistinct a.dispatched

spent_row :
    (t u : Task)
    → u ≡ t
    → is_some t.invoke_logical_request_id ≡ true
    → (t.retry_count < u.retry_count)
      ⊎ ((t.retry_count ≤ u.retry_count) × (is_some u.invoke_logical_request_id ≡ true))
spent_row t u q l = rw q (inr (omega arith, l))

entry_over :
    (t0 t : Task) (e : Uuid × ℕ)
    → t0.invoke_logical_request_id ≡ none
    → t0.id ≡ t.id
    → t0.retry_count ≡ t.retry_count
    → IsSpent e t0
    → e ≢ (t.id, t.retry_count)
entry_over t0 t e n i r s q =
    ground (arith, s (i ∙ ap (λ (f : Uuid × ℕ). f.0) (sym q)), ap (λ (f : Uuid × ℕ). f.1) q)

module _ (now : Timestamp) (id token logical : Uuid) (t : Task) (a : System) (v : IsSafe a)
    (fresh : IsFreshLogical logical a.tasks)
    (won : (prepare_invoke_attempt now id token logical a.tasks).1 ≡ some t) where
  after : Table
  after = (prepare_invoke_attempt now id token logical a.tasks).0

  prepared :
      hit_of (prepare_cond id token logical) (prepare_set now logical) (find_by_id id a.tasks)
      ≡ some t
  unfolding prepare_invoke_attempt
  prepared =
      sym (
        update_first-row id (prepare_cond id token logical) (prepare_set now logical)
          (λ u c. ground arith) (λ u. refl) a.tasks v.distinct)
      ∙ won

  found-after :
      find_by_id id after
      ≡ apply_to
          (set_if (prepare_cond id token logical) (prepare_set now logical))
          (find_by_id id a.tasks)
  unfolding after prepare_invoke_attempt
  found-after =
      find_by_id-update_first id (prepare_cond id token logical) (prepare_set now logical)
        (λ u c. ground arith) (λ u. refl) a.tasks

  from_row :
      (t0 : Task)
      → find_by_id id a.tasks ≡ some t0
      → (t0.invoke_logical_request_id ≡ none)
        × (t0.id ≡ t.id)
        × (t0.retry_count ≡ t.retry_count)
        × (is_some t.invoke_logical_request_id ≡ true)
        × (find_by_id id after ≡ some t)
  from_row t0 e = ground (
    arith,
    prepared,
    found-after,
    All-In (λ u. u.invoke_logical_request_id ≢ some logical) t0 a.tasks fresh
        (find_by_id-In id t0 a.tasks e),
  )

  -- The row before: without a logical request, and in the same attempt.
  found_before : (t0 : Task) × (find_by_id id a.tasks ≡ some t0)
  found_before = elim (Option-cases (find_by_id id a.tasks)) [
    | inl e ↦
        absurd
          (cc (prepared, ap (hit_of (prepare_cond id token logical) (prepare_set now logical)) e))
    | inr found ↦ found
  ]

  before :
      (t0 : Task) × In t0 a.tasks
      × (t0.invoke_logical_request_id ≡ none)
      × (t0.id ≡ t.id)
      × (t0.retry_count ≡ t.retry_count)
  before =
      let (t0, e) = found_before in
      let (n, i, r, _, _) = from_row t0 e in (t0, find_by_id-In id t0 a.tasks e, n, i, r)

  as_run : after ≡ run now (prepares id token logical) a.tasks
  unfolding after run
  as_run = refl

  Distinct-after : Distinct after
  Distinct-after = rw as_run (run-Distinct now (prepares id token logical) a.tasks v.distinct)

  -- Only the dispatched row has its id, so the entry is spent in the whole table.
  IsSpent-after : All (IsSpent (t.id, t.retry_count)) after
  IsSpent-after =
      let (t0, e) = found_before in
      let (_, _, _, l, f) = from_row t0 e in
      All-of_In (IsSpent (t.id, t.retry_count)) after λ u i.
        λ q. spent_row t u (eq_of_id u t after Distinct-after i (find_by_id-In id t after f) q) l

  -- No entry of the row's attempt was there.
  new_entry : All (λ e. e ≢ (t.id, t.retry_count)) a.dispatched
  new_entry =
      let (t0, i, n, same, r) = before in
      All-map (λ e. All (IsSpent e) a.tasks) (λ e. e ≢ (t.id, t.retry_count)) a.dispatched
        (λ e h. entry_over t0 t e n same r (All-In (IsSpent e) t0 a.tasks h i)) v.spent

  dispatch-IsSafe :
      IsSafe (record { tasks = after; dispatched = (t.id, t.retry_count) ∷ a.dispatched })
  dispatch-IsSafe = record {
    distinct = Distinct-after;
    spent = (
      IsSpent-after,
      All-map (λ e. All (IsSpent e) a.tasks) (λ e. All (IsSpent e) after) a.dispatched
          (λ e h. rw as_run (run-IsSpent now (prepares id token logical) e a.tasks v.distinct h))
          v.spent,
    );
    once = (new_entry, v.once);
  }

Step-IsSafe : {a b : System} → Step a b → IsSafe a → IsSafe b
Step-IsSafe {a} (other now s) v = record {
  distinct = run-Distinct now s a.tasks v.distinct;
  spent =
      All-map (λ e. All (IsSpent e) a.tasks) (λ e. All (IsSpent e) (run now s a.tasks)) a.dispatched
        (λ e h. run-IsSpent now s e a.tasks v.distinct h) v.spent;
  once = v.once;
}
Step-IsSafe {a} (dispatch now id token logical t fresh won) v =
    unfold after in dispatch-IsSafe now id token logical t a v fresh won

Reach-IsSafe : {a b : System} → IsSafe a → Reach a b → IsSafe b
Reach-IsSafe v here = v
Reach-IsSafe v (next r s) = Step-IsSafe s (Reach-IsSafe v r)

start : (a : System) → Distinct a.tasks → a.dispatched ≡ [] → IsSafe a
start a d e = record { distinct = d; spent = rw e tt; once = rw e tt }

-- From a table of distinct rows, and whatever statements of workers, pollers, owners and the
-- recovery come between, an attempt is prepared, and the invoke service asked for it, at most once:
-- no pair of a task and its retry count is dispatched twice.
pub Reach-once :
    {a b : System} → Distinct a.tasks → a.dispatched ≡ [] → Reach a b → AllDistinct b.dispatched
Reach-once {a} d e r = (Reach-IsSafe (start a d e) r).once
