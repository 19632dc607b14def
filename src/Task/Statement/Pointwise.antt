-- ===== src/Task/Statement/Pointwise.antt =====
-- A statement relates each row to what it becomes: the rows that it sets meet its condition.
use xg_canvas.Prelude.{nat_eq, string_eq, Pointwise, Timestamp, ◌≡◌, Bool, true}
use xg_canvas.Task.Row.{Task, Table}
use xg_canvas.Task.Table.{update_where, update_first, Distinct, update_where-Pointwise}
use xg_canvas.Task.Store.{
  start_claimed, renew_lease, prepare_invoke_attempt, save_external_result, defer_invoke_recovery,
  attach_recovered_without_lease, release_poll, schedule_retry, schedule_poll_retry,
}
use xg_canvas.Task.Claim.{
  claimable, pollable, created_before, polled_before, claim_pending, claim_due_polls,
}
use xg_canvas.Task.Claim.Picked.{is_picked-cond}
use xg_canvas.Task.Terminal.{update_terminal}
use xg_canvas.Task.Statement.{
  Statement, claims, claims_polls, starts, renews, prepares, saves, defers, attaches, releases,
  reschedules, repolls, succeeds, fails, cancels, restarts, run, condition, assignment,
}

module _ (R : Task → Task → Type 0) (still : (t : Task) → R t t) where
  direct :
      (cond : Task → Bool) (set : Task → Task) (ts : Table)
      → ((t : Task) → cond t ≡ true → R t (set t))
      → Pointwise R ts (update_where cond set ts).0
  direct cond set ts moves = update_where-Pointwise R cond set still ts (λ t i. moves t)

  -- Whatever the assignment does where the condition holds, the statement does to the rows that it
  -- sets, and it leaves the others.
  pub run-Pointwise :
      (now : Timestamp) (s : Statement) (ts : Table)
      → Distinct ts
      → ((t : Task) → condition now s t ≡ true → R t (assignment now s t))
      → Pointwise R ts (run now s ts)
  unfolding run update_first claim_pending claim_due_polls start_claimed renew_lease
      prepare_invoke_attempt save_external_result defer_invoke_recovery
      attach_recovered_without_lease release_poll schedule_retry schedule_poll_retry update_terminal
  run-Pointwise now (claims locked fresh limit lease_ms) ts d moves =
      update_where-Pointwise R _ _ still ts
        (λ t i h. moves t (is_picked-cond created_before (claimable now) locked limit ts d t i h))
  run-Pointwise now (claims_polls locked fresh limit lease_ms) ts d moves =
      update_where-Pointwise R _ _ still ts
        (λ t i h. moves t (is_picked-cond polled_before (pollable now) locked limit ts d t i h))
  run-Pointwise now (starts id token lease_ms) ts d moves = direct _ _ ts moves
  run-Pointwise now (renews id token lease_ms) ts d moves = direct _ _ ts moves
  run-Pointwise now (prepares id token logical) ts d moves = direct _ _ ts moves
  run-Pointwise now (saves id token patch) ts d moves = direct _ _ ts moves
  run-Pointwise now (defers id token at) ts d moves = direct _ _ ts moves
  run-Pointwise now (attaches id logical patch) ts d moves = direct _ _ ts moves
  run-Pointwise now (releases id token patch) ts d moves = direct _ _ ts moves
  run-Pointwise now (reschedules id token code message at) ts d moves = direct _ _ ts moves
  run-Pointwise now (repolls id token code message at) ts d moves = direct _ _ ts moves
  run-Pointwise now (succeeds id token patch) ts d moves = direct _ _ ts moves
  run-Pointwise now (fails id token patch) ts d moves = direct _ _ ts moves
  run-Pointwise now (cancels user id) ts d moves = direct _ _ ts moves
  run-Pointwise now (restarts id user workspace) ts d moves = direct _ _ ts moves
