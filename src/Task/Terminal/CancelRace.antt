-- ===== src/Task/Terminal/CancelRace.antt =====
-- A worker whose task was cancelled, or had ended before, cannot end it.
use xg_canvas.Task.Statement.{Statement, cancels, run}
use xg_canvas.Task.Statement.Lifecycle.{IsRestart, terminal_row_blocks, assignment-SameRequest}
use xg_canvas.Task.Statement.Pointwise.{run-Pointwise}
use xg_canvas.Prelude.{
  string_eq, nat_eq, ◌==◌, Bool-cases, get_or, find?, All, All-Pointwise, All-map, Uuid, Timestamp,
  ℕ, ◌≡◌, refl, sym, ap, ◌∙◌, subst, ◌≢◌, inl, inr, Bool, true, false, ◌&&◌, Option, none, some,
  List, [], ◌∷◌, arith,
}
use xg_canvas.Task.Statement.Consistency.{run-Distinct}
use xg_canvas.Task.Terminal.Effects.{
  apply_terminal-frame, Ending, finish, after_loss, finish_loses, cancel_vendor-tasks,
}
use xg_canvas.Task.Projection.{apply_terminal}
use xg_canvas.Task.World.{World, Outcome, returned, thrown}
use xg_canvas.RequestLog.{Services}
use xg_canvas.Prelude.{
  string_eq, nat_eq, Bool-cases, get_or, find?, All, Uuid, Timestamp, ℕ, ◌≡◌, refl, ap, subst, ◌≢◌,
  inl, inr, Bool, true, false, ◌&&◌, Option, none, some, [], ◌∷◌, arith,
}
use xg_canvas.Task.Status.{Status, status_eq, is_terminal}
use xg_canvas.Task.Row.{Task, Table}
use xg_canvas.Task.Table.{update_where, update_first, Distinct}
use xg_canvas.Task.Terminal.{leased_cond, lock_leased, Reply, value}
use xg_canvas.Task.Terminal.Cancel.{
  owned_cond, is_cancellable, cancel_set, CancelOutcome, cancel_log, cancel_locked,
  cancel_transaction, cancel_end, cancel_by_owner,
}

returned-world : {v w : World} {o p : CancelOutcome} → returned v o ≡ returned w p → v ≡ w
returned-world {v} {w} {o} {p} e = ap (world_or v) e
  where
    world_or : World → Outcome CancelOutcome → World
    world_or x (returned y q) = y
    world_or x (thrown m) = x

-- The row of an id is ended.
abbrev pub IsEnded : Uuid → Task → Type 0
IsEnded id t = t.id ≡ id → is_terminal t.status ≡ true

-- The row of an id is ended, in a table of distinct rows.
abbrev pub Ends : Uuid → Table → Type 0
Ends id ts = All (IsEnded id) ts × Distinct ts

-- Rows of other ids are out of question.
others-IsEnded :
    (id : Uuid) (x : Task) (ts : Table)
    → x.id ≡ id
    → All (λ u. u.id ≢ x.id) ts
    → All (IsEnded id) ts
others-IsEnded id x ts e h =
    All-map (λ u. u.id ≢ x.id) (IsEnded id) ts (λ u n q. absurd (n (q ∙ sym e))) h

-- A worker that holds a token of an ended row cannot lock it.
Ends-unlocked :
    (id token : Uuid) (ts : Table) → All (IsEnded id) ts → find? (leased_cond id token) ts ≡ none
unfolding is_terminal
Ends-unlocked id token [] h = refl
Ends-unlocked id token (t ∷ ts) h = ground (arith, h.0, Ends-unlocked id token ts h.1)

-- Statements one after the other.
pub run_all : List (Timestamp × Statement) → Table → Table
run_all [] ts = ts
run_all ((now, s) ∷ rest) ts = run_all rest (run now s ts)

abbrev pub after_all : List (Timestamp × Statement) → World → World
after_all ss w = record w { tasks = run_all ss w.tasks }

run-IsEnded :
    (id : Uuid) (now : Timestamp) (s : Statement) (ts : Table)
    → ¬ IsRestart s
    → Ends id ts
    → Ends id (run now s ts)
run-IsEnded id now s ts n h = (
  All-Pointwise (IsEnded id) ts (run now s ts)
      (run-Pointwise (λ t u. IsEnded id t → IsEnded id u) (λ t e. e) now s ts h.1
        (λ t c e q.
          cc
            (e (sym (assignment-SameRequest now s t c).0.id ∙ q), terminal_row_blocks now s t n c)))
      h.0,
  run-Distinct now s ts h.1,
)

run_all-IsEnded :
    (id : Uuid) (ss : List (Timestamp × Statement)) (ts : Table)
    → All (λ e. ¬ IsRestart e.1) ss
    → Ends id ts
    → Ends id (run_all ss ts)
unfolding run_all
run_all-IsEnded id [] ts n h = h
run_all-IsEnded id ((now, s) ∷ rest) ts n h =
    run_all-IsEnded id rest (run now s ts) n.1 (run-IsEnded id now s ts n.0 h)

module _ (user id : Uuid) where
  owned-none :
      (x : Task) (ts : Table)
      → x.id ≡ id
      → All (λ u. u.id ≢ x.id) ts
      → find? (owned_cond user id) ts ≡ none
  owned-none x [] e h = refl
  owned-none x (t ∷ ts) e h = ground (arith, owned-none x ts e h.1)

  not_same : (t : Task) → t.id ≡ id → (t.id == id) ≡ false → ⊥
  not_same t e q = ground (arith, (nat_eq.beq_iff t.id id).1 e)

  -- The row that is found behind a row of another id, and the row that is found of the id.
  rest_owned :
      (t cur : Task) (ts : Table)
      → (t.id == id) ≡ false
      → find? (owned_cond user id) (t ∷ ts) ≡ some cur
      → find? (owned_cond user id) ts ≡ some cur
  rest_owned t cur ts q h = ground arith

  found_first :
      (t cur : Task) (ts : Table)
      → All (λ u. u.id ≢ t.id) ts
      → (t.id == id) ≡ true
      → find? (owned_cond user id) (t ∷ ts) ≡ some cur
      → (cur ≡ t) × (owned_cond user id t ≡ true)
  found_first t cur ts d q h = elim (Bool-cases (owned_cond user id t)) [
    | inl o ↦ ground arith
    | inr o ↦ cc (owned-none t ts ((nat_eq.beq_iff t.id id).0 q) d, rw o at h)
  ]

  first_ended :
      (t cur : Task) (ts : Table)
      → All (λ u. u.id ≢ t.id) ts
      → (t.id == id) ≡ true
      → find? (owned_cond user id) (t ∷ ts) ≡ some cur
      → is_terminal cur.status ≡ true
      → is_terminal t.status ≡ true
  first_ended t cur ts d q h e = cc ((found_first t cur ts d q h).0, e)

  terminal-IsEnded :
      (cur : Task) (ts : Table)
      → Distinct ts
      → find? (owned_cond user id) ts ≡ some cur
      → is_terminal cur.status ≡ true
      → All (IsEnded id) ts
  terminal-IsEnded cur [] d h e = tt
  terminal-IsEnded cur (t ∷ ts) d h e = elim (Bool-cases (t.id == id)) [
    | inl q ↦ (
      λ _. first_ended t cur ts d.0 q h e,
      others-IsEnded id t ts ((nat_eq.beq_iff t.id id).0 q) d.0,
    )
    | inr q ↦
        (λ o. absurd (not_same t o q), terminal-IsEnded cur ts d.1 (rest_owned t cur ts q h) e)
  ]

  abbrev cancel_cond_of : Task → Bool
  cancel_cond_of t = owned_cond user id t && is_cancellable t.status

  of_id : (t : Task) → cancel_cond_of t ≡ true → (t.id == id) ≡ true
  of_id t c = ground arith

  update_others :
      (now : Timestamp) (x : Task) (ts : Table)
      → x.id ≡ id
      → All (λ u. u.id ≢ x.id) ts
      → All (IsEnded id) (update_where cancel_cond_of (cancel_set now) ts).0
  unfolding update_where
  update_others now x [] e h = tt
  update_others now x (t ∷ ts) e h = elim (Bool-cases (cancel_cond_of t)) [
    | inl c ↦ absurd (h.0 ((nat_eq.beq_iff t.id id).0 (of_id t c) ∙ sym e))
    | inr c ↦ rw c (λ q. absurd (h.0 (q ∙ sym e)), update_others now x ts e h.1)
  ]

  open_cancellable : (s : Status) → is_terminal s ≡ false → is_cancellable s ≡ true
  unfolding is_terminal
  open_cancellable s h = ground arith

  set_ended : (now : Timestamp) (t : Task) → is_terminal (cancel_set now t).status ≡ true
  unfolding is_terminal
  set_ended now t = refl

  -- The owned row is open, so the cancel takes it.
  missed :
      (t cur : Task) (ts : Table)
      → All (λ u. u.id ≢ t.id) ts
      → (t.id == id) ≡ true
      → find? (owned_cond user id) (t ∷ ts) ≡ some cur
      → is_terminal cur.status ≡ false
      → cancel_cond_of t ≡ false
      → ⊥
  missed t cur ts d q h e c =
      let (same, own) = found_first t cur ts d q h in
      let open_ : is_terminal t.status ≡ false =
        subst (λ (x : Task). is_terminal x.status ≡ false) same e in
      ground (arith, own, open_cancellable t.status open_)

  cancelled-IsEnded :
      (now : Timestamp) (cur : Task) (ts : Table)
      → Distinct ts
      → find? (owned_cond user id) ts ≡ some cur
      → is_terminal cur.status ≡ false
      → All (IsEnded id) (update_where cancel_cond_of (cancel_set now) ts).0
  unfolding update_where
  cancelled-IsEnded now cur [] d h e = tt
  cancelled-IsEnded now cur (t ∷ ts) d h e = elim (Bool-cases (t.id == id)) [
    | inl q ↦ elim (Bool-cases (cancel_cond_of t)) [
      | inl c ↦
          rw c ((λ _. set_ended now t), update_others now t ts ((nat_eq.beq_iff t.id id).0 q) d.0)
      | inr c ↦ absurd (missed t cur ts d.0 q h e c)
    ]
    | inr q ↦ elim (Bool-cases (cancel_cond_of t)) [
      | inl c ↦ cc (of_id t c, q)
      | inr c ↦ rw c (
        λ o. absurd (not_same t o q),
        cancelled-IsEnded now cur ts d.1 (rest_owned t cur ts q h) e,
      )
    ]
  ]

  cancel_log-tasks :
      (sv : Services) (now : Timestamp) (r : Option Uuid) (t : Task) (w v : World)
      (o : CancelOutcome)
      → cancel_log sv now r t w ≡ returned v o
      → v.tasks ≡ w.tasks
  cancel_log-tasks sv now none t w v o e = ground arith
  cancel_log-tasks sv now (some r) t w v o e = ground arith

  cancel_locked-Ends :
      (sv : Services) (now : Timestamp) (o : Option Task) (w v : World) (p : Task × Bool)
      → Distinct w.tasks
      → find? (owned_cond user id) w.tasks ≡ o
      → cancel_locked sv now user id o w ≡ returned v (some p)
      → Ends id v.tasks
  unfolding update_first run
  cancel_locked-Ends sv now none w v p d h e = ground arith
  cancel_locked-Ends sv now (some cur) w v p d h e = elim (Bool-cases (is_terminal cur.status)) [
    | inl q ↦
        subst (λ (x : World). Ends id x.tasks) (returned-world (rw q at e))
          (terminal-IsEnded cur w.tasks d h q, d)
    | inr q ↦
        let up = update_first cancel_cond_of (cancel_set now) w.tasks in
        let t = get_or up.1 cur in
        let w1 = record w { tasks = up.0 } in
        let same =
          cancel_log-tasks sv now t.invoke_request_id t (apply_terminal now t w1).0 v (some p)
            (rw q at e) in
        let frame = apply_terminal-frame now t w1 in
        rw (same, frame.0)
          (cancelled-IsEnded now cur w.tasks d h q, run-Distinct now (cancels user id) w.tasks d)
  ]

  cancel_end-Ends :
      (sv : Services) (now : Timestamp) (w w' : World) (t : Task) (x : Outcome CancelOutcome)
      → Distinct w.tasks
      → cancel_locked sv now user id (find? (owned_cond user id) w.tasks) w ≡ x
      → cancel_end w x ≡ (w', value (some t))
      → Ends id w'.tasks
  cancel_end-Ends sv now w w' t (returned v none) d q e = ground arith
  cancel_end-Ends sv now w w' t (thrown m) d q e = ground arith
  cancel_end-Ends sv now w w' t (returned v (some (u, true))) d q e =
      subst (λ (x : World). Ends id x.tasks) (ap (λ (p : World × Reply (Option Task)). p.0) e)
        (rw (cancel_vendor-tasks sv (λ n. n) now id 0 u v)
          (cancel_locked-Ends sv now (find? (owned_cond user id) w.tasks) w v (u, true) d refl q))
  cancel_end-Ends sv now w w' t (returned v (some (u, false))) d q e =
      subst (λ (x : World). Ends id x.tasks) (ap (λ (p : World × Reply (Option Task)). p.0) e)
        (cancel_locked-Ends sv now (find? (owned_cond user id) w.tasks) w v (u, false) d refl q)

-- After the owner's cancel has answered with the task, whether it cancelled it or found it ended, and
-- whatever statements other than a manual retry come next, no worker can end the task, whatever its
-- token: a success or a failure returns false and changes nothing, except that a success asks the
-- object store to delete what it had produced.
pub cancel_beats_worker :
    (sv : Services) (now : Timestamp) (sv2 : Services) (fresh : ℕ → Uuid) (later : Timestamp)
    (user id token : Uuid) (e : Ending) (w w' : World) (t : Task)
    (between : List (Timestamp × Statement))
    → All (λ s. ¬ IsRestart s.1) between
    → Distinct w.tasks
    → cancel_by_owner sv now user id w ≡ (w', value (some t))
    → finish sv2 fresh later id token e (after_all between w')
      ≡ (after_loss e (after_all between w'), value false)
unfolding cancel_by_owner cancel_transaction lock_leased
cancel_beats_worker sv now sv2 fresh later user id token e w w' t between n d h =
    finish_loses sv2 fresh later id token e (after_all between w') (
      Ends-unlocked id token (run_all between w'.tasks)
        (run_all-IsEnded id between w'.tasks n (
          cancel_end-Ends user id sv now w w' t
            (cancel_locked sv now user id (find? (owned_cond user id) w.tasks) w) d refl h)).0)
