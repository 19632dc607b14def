-- ===== src/Task/Statement/WellFormed.antt =====
-- What the statements together keep of a row, beyond the CHECK constraints.
use xg_canvas.Prelude.{
  nat_eq, string_eq, is_some, All, All-Pointwise, Timestamp, ◌≡◌, true, none, arith,
}
use xg_canvas.Task.Status.{pending, queued, running, status_eq, is_terminal}
use xg_canvas.Task.Row.{Task, Table}
use xg_canvas.Task.Table.{Distinct}
use xg_canvas.Task.Statement.{Statement, claims, run, condition, assignment}
use xg_canvas.Task.Statement.Pointwise.{run-Pointwise}

pub record IsWellFormed (t : Task) : Type 0 where
  -- a pending row was never claimed
  pub pending_untouched :
      t.status ≡ pending
      → (t.lease_token ≡ none) × (t.external_task_id ≡ none) × (t.invoke_logical_request_id ≡ none)
  -- a vendor task belongs to a running or a finished row
  pub queued_detached : t.status ≡ queued → t.external_task_id ≡ none
  -- the poller's timeout can be computed
  pub running_started : t.status ≡ running → is_some t.started_at ≡ true
  pub prepared_started : is_some t.invoke_logical_request_id ≡ true → is_some t.started_at ≡ true
  pub finished_terminal : is_some t.finished_at ≡ is_terminal t.status

assignment-IsWellFormed :
    (now : Timestamp) (s : Statement) (t : Task)
    → condition now s t ≡ true
    → IsWellFormed t
    → IsWellFormed (assignment now s t)
unfolding is_terminal
assignment-IsWellFormed now (claims locked fresh limit lease_ms) t c v = ground arith
assignment-IsWellFormed now _ t c v = ground arith

-- Every statement keeps the rows well formed: a pending row has no lease, no vendor task and no
-- logical request; a queued row has no vendor task; a running or prepared row has a start time; a
-- row has a finish time exactly if its status is terminal.
pub run-IsWellFormed :
    (now : Timestamp) (s : Statement) (ts : Table)
    → Distinct ts
    → All IsWellFormed ts
    → All IsWellFormed (run now s ts)
run-IsWellFormed now s ts d h =
    All-Pointwise IsWellFormed ts (run now s ts)
      (run-Pointwise (λ t u. IsWellFormed t → IsWellFormed u) (λ t v. v) now s ts d
        (assignment-IsWellFormed now s))
      h
