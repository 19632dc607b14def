-- ===== src/Task/Terminal/Unlocks.antt =====
-- What an end of a task that does not throw leaves of the rows
-- (apps/canvas-api/src/task/task-terminal.service.ts).
use xg_canvas.Prelude.{
  string_eq, nat_eq, Option-cases, Uuid, Timestamp, ℕ, String, ◌≡◌, refl, ap, ◌∙◌, ◌≢◌, ◌⊎◌, inl,
  inr, Bool, true, false, none, some, List,
}
use xg_canvas.Prelude.{
  string_eq, nat_eq, Option-cases, Uuid, Timestamp, ℕ, String, ◌≡◌, refl, ap, ◌∙◌, ◌≢◌, inl, inr,
  Bool, true, false, none, some, List,
}
use xg_canvas.Task.Status.{status_eq}
use xg_canvas.Task.Row.{Task}
use xg_canvas.Task.World.{World}
use xg_canvas.Task.Terminal.{lock_leased, Reply, value, raised}
use xg_canvas.Task.Terminal.Succeed.{ProducedAsset, discard_produced, succeed_transaction, succeed}
use xg_canvas.Task.Terminal.Fail.{fail_transaction, fail}
use xg_canvas.Task.Terminal.Effects.{
  Ending, succeeds_with, fails_with, finish, after_loss, finish_loses,
}
use xg_canvas.Task.Terminal.Race.{
  fail_locked-ends, succeed_locked-ends, winner-updates, IsUpdate, finish_all_or_nothing,
}
use xg_canvas.RequestLog.{Services}

pub discard_produced-tasks :
    (xs : List ProducedAsset) (w : World) → (discard_produced xs w).tasks ≡ w.tasks
unfolding discard_produced
discard_produced-tasks xs w = refl

module _ (sv : Services) (fresh : ℕ → Uuid) (now : Timestamp) (id token : Uuid) where
  after_loss-tasks : (e : Ending) (w : World) → (after_loss e w).tasks ≡ w.tasks
  after_loss-tasks (succeeds_with r) w = discard_produced-tasks r.assets w
  after_loss-tasks (fails_with code message) w = refl

  locked-ends :
      (e : Ending) (w : World) (u : Task)
      → lock_leased id token w.tasks ≡ some u
      → (finish sv fresh now id token e w).1 ≢ value false
  unfolding succeed succeed_transaction fail fail_transaction
  locked-ends (succeeds_with r) w u h =
      rw h (succeed_locked-ends sv fresh now id token r w u h _ refl)
  locked-ends (fails_with code message) w u h =
      rw h (fail_locked-ends sv fresh now id token code message w u h _ refl)

  -- After an end that answers, the rows are those after a terminal update, or as before and the
  -- token held no row of the task.
  pub finish-updates :
      (e : Ending) (b : Bool) (w : World)
      → (finish sv fresh now id token e w).1 ≡ value b
      → let ts' = (finish sv fresh now id token e w).0.tasks in
        IsUpdate sv fresh now id token w.tasks ts'
        ⊎ ((ts' ≡ w.tasks) × (lock_leased id token w.tasks ≡ none))
  finish-updates e true w h = inl (
      winner-updates sv fresh now id token e w (finish sv fresh now id token e w).0
        (ap (λ (r : Reply Bool). ((finish sv fresh now id token e w).0, r)) h))
  finish-updates e false w h = elim (Option-cases (lock_leased id token w.tasks)) [
    | inl n ↦ inr (rw (finish_loses sv fresh now id token e w n) (after_loss-tasks e w), n)
    | inr (u, s) ↦ absurd (locked-ends e w u s h)
  ]

  -- After one that throws, the rows are as before.
  pub finish-thrown :
      (e : Ending) (m : String) (w : World)
      → (finish sv fresh now id token e w).1 ≡ raised m
      → (finish sv fresh now id token e w).0.tasks ≡ w.tasks
  finish-thrown e m w h = elim (finish_all_or_nothing sv fresh now id token e w) [
    | inl won ↦ cc
    | inr same ↦ ap (λ (v : World). v.tasks) same ∙ after_loss-tasks e w
  ]
