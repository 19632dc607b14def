-- ===== src/Task/Terminal/Race.antt =====
-- A task ends once: what is left for the second of two workers, and for a worker whose task was
-- cancelled.
use xg_canvas.Prelude.{
  string_eq, nat_eq, Uuid, Timestamp, ℕ, String, ◌≡◌, refl, sym, ap, subst, ◌≢◌, ◌⊎◌, inl, inr,
  Bool, true, false, Option, none, some, ◌++◌, map, arith,
}
use xg_canvas.RequestLog.{Services}
use xg_canvas.Task.Status.{Status, succeeded, failed, status_eq, is_terminal}
use xg_canvas.Task.Row.{Task, Table}
use xg_canvas.Task.Table.{update_first-some}
use xg_canvas.Task.World.{World, Outcome, returned, thrown}
use xg_canvas.Task.Terminal.{
  TerminalPatch, leased_cond, terminal_set, update_terminal, lock_leased, settle, Reply, value,
}
use xg_canvas.Task.Terminal.Succeed.{
  TaskSuccessResult, asset_rows, discard_produced, success_patch, success_log, succeed_locked,
  succeed_transaction, succeed_end, succeed,
}
use xg_canvas.Task.Terminal.Fail.{
  failure_patch, failure_log, fail_locked, fail_transaction, fail_end, fail,
}
use xg_canvas.Task.Terminal.Effects.{
  settle-some, unlocked_after_update, settle-tasks, cancel_vendor-tasks, finish_loses, Ending,
  succeeds_with, fails_with, finish, after_loss,
}

succeed_end-returned :
    (r : TaskSuccessResult) (w w' : World) (x : Outcome (Option Task))
    → succeed_end r w x ≡ (w', value true)
    → (t : Task) × (x ≡ returned w' (some t))
succeed_end-returned r w w' (returned v none) e = ground arith
succeed_end-returned r w w' (returned v (some t)) e = (t, ground arith)
succeed_end-returned r w w' (thrown m) e = ground arith

succeeded-IsOver : is_terminal succeeded ≡ true
unfolding is_terminal
succeeded-IsOver = refl

failed-IsOver : is_terminal failed ≡ true
unfolding is_terminal
failed-IsOver = refl

module _ (sv : Services) (fresh : ℕ → Uuid) (now : Timestamp) (id token : Uuid) where
  -- The rows are those after a terminal update.
  abbrev pub IsUpdate : Table → Table → Type 0
  IsUpdate ts ts' =
      (status : Status) × (patch : TerminalPatch) × (is_terminal status ≡ true)
      × (ts' ≡ (update_terminal now id token status patch ts).0)

  succeed_locked-updates :
      (r : TaskSuccessResult) (o : Option Task) (w w' : World) (t : Task)
      → succeed_locked sv now fresh id token r o w ≡ returned w' (some t)
      → IsUpdate w.tasks w'.tasks
  succeed_locked-updates r none w w' t e = ground arith
  succeed_locked-updates r (some u) w w' t e =
      let rows = asset_rows u fresh 0 r.assets in
      let patch = success_patch (map (λ a. a.id) rows) r in
      let up = update_terminal now id token succeeded patch w.tasks in
      let same =
        settle-tasks sv now (success_log r) up.1 (some t)
          (record w { tasks = up.0; assets = w.assets ++ rows }) w' e in
      (succeeded, patch, succeeded-IsOver, same)

  fail_locked-updates :
      (code message : String) (o : Option Task) (w w' : World) (t : Task)
      → fail_locked sv now id token code message o w ≡ returned w' (some t)
      → IsUpdate w.tasks w'.tasks
  fail_locked-updates code message none w w' t e = ground arith
  fail_locked-updates code message (some u) w w' t e =
      let up = update_terminal now id token failed (failure_patch code message) w.tasks in
      let same =
        settle-tasks sv now (failure_log code message) up.1 (some t) (record w { tasks = up.0 }) w'
          e in
      (failed, failure_patch code message, failed-IsOver, same)

  fail_end-updates :
      (code message : String) (w w' : World) (x : Outcome (Option Task))
      → fail_locked sv now id token code message (lock_leased id token w.tasks) w ≡ x
      → fail_end w x ≡ (w', value true)
      → IsUpdate w.tasks w'.tasks
  fail_end-updates code message w w' (returned v none) q e = ground arith
  fail_end-updates code message w w' (returned v (some t)) q e =
      subst (λ (u : World). IsUpdate w.tasks u.tasks) (ap (λ (p : World × Reply Bool). p.0) e)
        (rw (cancel_vendor-tasks sv fresh now id token t v)
          (fail_locked-updates code message (lock_leased id token w.tasks) w v t q))
  fail_end-updates code message w w' (thrown m) q e = ground arith

  pub winner-updates :
      (e : Ending) (w w' : World)
      → finish sv fresh now id token e w ≡ (w', value true)
      → IsUpdate w.tasks w'.tasks
  unfolding succeed succeed_transaction fail fail_transaction
  winner-updates (succeeds_with r) w w' h =
      let (t, q) =
        succeed_end-returned r w w'
          (succeed_locked sv now fresh id token r (lock_leased id token w.tasks) w) h in
      succeed_locked-updates r (lock_leased id token w.tasks) w w' t q
  winner-updates (fails_with code message) w w' h =
      fail_end-updates code message w w'
        (fail_locked sv now id token code message (lock_leased id token w.tasks) w) refl h

  -- After an end that won, the token holds no row of the task.
  pub winner-unlocks :
      (e : Ending) (w w' : World)
      → finish sv fresh now id token e w ≡ (w', value true)
      → lock_leased id token w'.tasks ≡ none
  winner-unlocks e w w' h =
      let (status, patch, _, same) = winner-updates e w w' h in
      rw same (unlocked_after_update sv fresh now id token status patch w.tasks)

-- Of the two ends that workers with one token try, a success or a failure each, at most one
-- succeeds: after an end that returned true, any other under the same token and at any later time returns false and changes nothing,
-- except that a success asks the object store to delete what it had produced.
pub finish_once :
    (sv : Services) (fresh : ℕ → Uuid) (now : Timestamp) (sv2 : Services) (fresh2 : ℕ → Uuid)
    (later : Timestamp) (id token : Uuid) (e e2 : Ending) (w w' : World)
    → finish sv fresh now id token e w ≡ (w', value true)
    → finish sv2 fresh2 later id token e2 w' ≡ (after_loss e2 w', value false)
finish_once sv fresh now sv2 fresh2 later id token e e2 w w' h =
    finish_loses sv2 fresh2 later id token e2 w' (winner-unlocks sv fresh now id token e w w' h)

module _ (sv : Services) (fresh : ℕ → Uuid) (now : Timestamp) (id token : Uuid) where
  pub updated-some :
      (status : Status) (patch : TerminalPatch) (u : Task) (ts : Table)
      → lock_leased id token ts ≡ some u
      → (update_terminal now id token status patch ts).1 ≡ some (terminal_set now status patch u)
  unfolding lock_leased update_terminal
  updated-some status patch u ts h =
      update_first-some (leased_cond id token) (terminal_set now status patch) u ts h

  -- A row that was locked is ended, if nothing throws.
  pub succeed_locked-ends :
      (r : TaskSuccessResult) (w : World) (u : Task)
      → lock_leased id token w.tasks ≡ some u
      → (x : Outcome (Option Task)) → succeed_locked sv now fresh id token r (some u) w ≡ x
      → (succeed_end r w x).1 ≢ value false
  succeed_locked-ends r w u h (thrown m) e q = cc
  succeed_locked-ends r w u h (returned v (some t)) e q = cc
  succeed_locked-ends r w u h (returned v none) e q =
      let rows = asset_rows u fresh 0 r.assets in
      let patch = success_patch (map (λ a. a.id) rows) r in
      let up = update_terminal now id token succeeded patch w.tasks in
      settle-some sv now (success_log r) (terminal_set now succeeded patch u)
        (record w { tasks = up.0; assets = w.assets ++ rows }) v
        (subst
          (λ o.
            settle sv now (success_log r) o (record w { tasks = up.0; assets = w.assets ++ rows })
            ≡ returned v none)
          (updated-some succeeded patch u w.tasks h) e)

  pub fail_locked-ends :
      (code message : String) (w : World) (u : Task)
      → lock_leased id token w.tasks ≡ some u
      → (x : Outcome (Option Task)) → fail_locked sv now id token code message (some u) w ≡ x
      → (fail_end w x).1 ≢ value false
  fail_locked-ends code message w u h (thrown m) e q = cc
  fail_locked-ends code message w u h (returned v (some t)) e q = cc
  fail_locked-ends code message w u h (returned v none) e q =
      let patch = failure_patch code message in
      let up = update_terminal now id token failed patch w.tasks in
      settle-some sv now (failure_log code message) (terminal_set now failed patch u)
        (record w { tasks = up.0 }) v
        (subst
          (λ o.
            settle sv now (failure_log code message) o (record w { tasks = up.0 })
            ≡ returned v none)
          (updated-some failed patch u w.tasks h) e)

  succeed_locked-rows :
      (r : TaskSuccessResult) (w : World) (o : Option Task)
      → lock_leased id token w.tasks ≡ o
      → (x : Outcome (Option Task)) → succeed_locked sv now fresh id token r o w ≡ x
      → ((succeed_end r w x).1 ≡ value true) ⊎ ((succeed_end r w x).0 ≡ discard_produced r.assets w)
  succeed_locked-rows r w none h x e = rw (sym e) (inr refl)
  succeed_locked-rows r w (some u) h (thrown m) e = inr refl
  succeed_locked-rows r w (some u) h (returned v (some t)) e = inl refl
  succeed_locked-rows r w (some u) h (returned v none) e =
      absurd (succeed_locked-ends r w u h (returned v none) e refl)

  fail_locked-rows :
      (code message : String) (w : World) (o : Option Task)
      → lock_leased id token w.tasks ≡ o
      → (x : Outcome (Option Task)) → fail_locked sv now id token code message o w ≡ x
      → ((fail_end w x).1 ≡ value true) ⊎ ((fail_end w x).0 ≡ w)
  fail_locked-rows code message w none h x e = rw (sym e) (inr refl)
  fail_locked-rows code message w (some u) h (thrown m) e = inr refl
  fail_locked-rows code message w (some u) h (returned v (some t)) e = inl refl
  fail_locked-rows code message w (some u) h (returned v none) e =
      absurd (fail_locked-ends code message w u h (returned v none) e refl)

-- After an end that does not return true, by a lost race or an exception in the transaction, the
-- world is the one before, but for the objects that a success asks the object store to delete.
pub finish_all_or_nothing :
    (sv : Services) (fresh : ℕ → Uuid) (now : Timestamp) (id token : Uuid) (e : Ending) (w : World)
    → ((finish sv fresh now id token e w).1 ≡ value true)
      ⊎ ((finish sv fresh now id token e w).0 ≡ after_loss e w)
unfolding succeed succeed_transaction fail fail_transaction
finish_all_or_nothing sv fresh now id token (succeeds_with r) w =
    succeed_locked-rows sv fresh now id token r w (lock_leased id token w.tasks) refl
      (succeed_locked sv now fresh id token r (lock_leased id token w.tasks) w) refl
finish_all_or_nothing sv fresh now id token (fails_with code message) w =
    fail_locked-rows sv fresh now id token code message w (lock_leased id token w.tasks) refl
      (fail_locked sv now id token code message (lock_leased id token w.tasks) w) refl
