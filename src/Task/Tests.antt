-- ===== src/Task/Tests.antt =====
-- Tests of the task lifecycle, and its theorems at concrete rows.
use xg_canvas.Prelude.{
  nat_eq, string_eq, All, Pointwise, length, ◌+◌, ◌≤◌, ◌≡◌, refl, ◌⊎◌, true, false, some, [], ◌∷◌,
  map, arith,
}
use xg_canvas.Task.Status.{pending, queued, running, status_eq, is_terminal}
use xg_canvas.Task.Row.{Table, is_in_flight, IsConsistent}
use xg_canvas.Task.Table.{update_where, update_first, Distinct}
use xg_canvas.Task.Store.{prepare_invoke_attempt}
use xg_canvas.Task.Claim.{claim_pending, claim_due_polls}
use xg_canvas.Task.Claim.Bounds.{claim_within_limit}
use xg_canvas.Task.Statement.{Statement, claims, starts, defers, reschedules, cancels, run}
use xg_canvas.Task.Statement.Consistency.{run-IsConsistent}
use xg_canvas.Task.Statement.WellFormed.{IsWellFormed, run-IsWellFormed}
use xg_canvas.Task.Statement.Lifecycle.{
  IsLegalMove, run-IsLegalMove, run_keeps_terminal, SameAttempt, run-SameAttempt,
}
use xg_canvas.Task.Statement.Leases.{run_needs_lease, KeepsLease, run-KeepsLease}
use xg_canvas.Task.Dispatch.{System, other, dispatch, Reach, here, next}
use xg_canvas.Task.Dispatch.Once.{AllDistinct, Reach-once}
use xg_canvas.Task.Samples.{created, leased, prepared, two_tasks, three_tasks}

claim_first : Statement
claim_first = claims (λ t. false) (λ t. t.id + 1000) 1 120000

-- A claim of one row takes the older of two that wait.
claim_takes_oldest :
    map
      (λ t. t.status)
      (claim_pending 1000
        (λ t. false)
        (λ t. t.id + 1000)
        1
        120000
        (created 2 600 ∷ created 1 500 ∷ [])).0
    ≡ pending ∷ queued ∷ []
unfolding claim_pending update_where
claim_takes_oldest = refl

two_tasks-Distinct : Distinct two_tasks
two_tasks-Distinct = omega arith

three_tasks-Distinct : Distinct three_tasks
three_tasks-Distinct = omega arith

three_tasks-IsConsistent : All IsConsistent three_tasks
unfolding is_terminal
three_tasks-IsConsistent = ground arith

three_tasks-IsWellFormed : All IsWellFormed three_tasks
unfolding is_terminal
three_tasks-IsWellFormed = ground arith

run-IsConsistent_example :
    All IsConsistent (run 130000 (reschedules 1 7 "RATE_LIMITED" "slow" 132000) three_tasks)
run-IsConsistent_example =
    run-IsConsistent 130000 (reschedules 1 7 "RATE_LIMITED" "slow" 132000) three_tasks tt
      three_tasks-Distinct three_tasks-IsConsistent

run-IsWellFormed_example : All IsWellFormed (run 5000 (starts 1 7 120000) three_tasks)
run-IsWellFormed_example =
    run-IsWellFormed 5000 (starts 1 7 120000) three_tasks three_tasks-Distinct
      three_tasks-IsWellFormed

run-IsLegalMove_example : Pointwise IsLegalMove two_tasks (run 5000 (starts 1 7 120000) two_tasks)
run-IsLegalMove_example = run-IsLegalMove 5000 (starts 1 7 120000) two_tasks two_tasks-Distinct

run_keeps_terminal_example :
    Pointwise
      (λ t u. is_terminal t.status ≡ true → u ≡ t)
      three_tasks
      (run 5000 (cancels 60 1) three_tasks)
run_keeps_terminal_example =
    run_keeps_terminal 5000 (cancels 60 1) three_tasks (λ r. r) three_tasks-Distinct

run-SameAttempt_example : Pointwise SameAttempt three_tasks (run 5000 (defers 1 7 6000) three_tasks)
run-SameAttempt_example =
    run-SameAttempt 5000 (defers 1 7 6000) three_tasks (λ r. r) three_tasks-Distinct

run_needs_lease_example :
    Pointwise
      (λ t u. (u ≡ t) ⊎ ((t.lease_token ≡ some 8) × (is_in_flight t.status ≡ true)))
      three_tasks
      (run 5000 (defers 1 8 6000) three_tasks)
run_needs_lease_example =
    run_needs_lease 5000 (defers 1 8 6000) 8 three_tasks refl three_tasks-Distinct

run-KeepsLease_example :
    Pointwise
      (KeepsLease 130000)
      three_tasks
      (run 130000 (claims (λ t. false) (λ t. t.id + 1000) 5 120000) three_tasks)
run-KeepsLease_example =
    run-KeepsLease 130000 (claims (λ t. false) (λ t. t.id + 1000) 5 120000) three_tasks
      three_tasks-Distinct three_tasks-IsWellFormed

abbrev started_table : Table
started_table = record leased { status = running; started_at = some 1000 } ∷ created 2 600 ∷ []

abbrev idle : System
idle = record { tasks = started_table; dispatched = [] }

-- The worker of token 7 prepares the logical request 900 and calls the vendor; then the lease runs
-- out and another worker claims the row.
dispatch_history : Reach idle (record {
  tasks =
      run 130000
        (claims (λ t. false) (λ t. t.id + 1000) 5 120000)
        (prepare_invoke_attempt 1000 1 7 900 started_table).0;
  dispatched = (1, 0) ∷ [];
})
unfolding prepare_invoke_attempt update_first update_where
dispatch_history =
    next
      (next here
        (dispatch 1000 1 7 900 (record prepared { updated_at = 1000 }) (ground arith) refl))
      (other 130000 (claims (λ t. false) (λ t. t.id + 1000) 5 120000))

Reach-once_example : AllDistinct ((1, 0) ∷ [])
Reach-once_example = Reach-once {a = idle} (omega arith) refl dispatch_history

claim_within_limit_example :
    (length (claim_pending 1000 (λ t. false) (λ t. t.id + 1000) 1 120000 two_tasks).1 ≤ 1)
    × (length (claim_due_polls 1000 (λ t. false) (λ t. t.id + 1000) 1 120000 two_tasks).1 ≤ 1)
claim_within_limit_example =
    claim_within_limit 1000 (λ t. false) (λ t. t.id + 1000) 1 120000 two_tasks two_tasks-Distinct
