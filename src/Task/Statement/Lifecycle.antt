-- ===== src/Task/Statement/Lifecycle.antt =====
-- What a statement may do to one row: its status, its outcome and its counters.
use xg_canvas.Prelude.{
  nat_eq, string_eq, is_some, Pointwise, Timestamp, ◌+◌, ◌≤◌, ◌≡◌, refl, ◌⊎◌, inl, true, false,
  arith,
}
use xg_canvas.Task.Status.{queued, succeeded, status_eq, can_transition, is_terminal}
use xg_canvas.Task.Row.{Task, Table}
use xg_canvas.Task.Table.{Distinct}
use xg_canvas.Task.Statement.{Statement, claims, reschedules, restarts, run, condition, assignment}
use xg_canvas.Task.Statement.Pointwise.{run-Pointwise}

-- A status stays, moves as `ALLOWED` says, or jumps from queued to succeeded.
abbrev pub IsLegalMove : Task → Task → Type 0
IsLegalMove t u =
    (u.status ≡ t.status)
    ⊎ (can_transition t.status u.status ≡ true)
    ⊎ ((t.status ≡ queued) × (u.status ≡ succeeded))

assignment-IsLegalMove :
    (now : Timestamp) (s : Statement) (t : Task)
    → condition now s t ≡ true
    → IsLegalMove t (assignment now s t)
unfolding can_transition
assignment-IsLegalMove now (claims locked fresh limit lease_ms) t c = ground arith
assignment-IsLegalMove now _ t c = ground arith

-- Every statement moves the status of a row as the table `ALLOWED` of the state machine says, or
-- keeps it, with one exception: the terminal update also accepts a queued row as succeeded.
pub run-IsLegalMove :
    (now : Timestamp) (s : Statement) (ts : Table)
    → Distinct ts
    → Pointwise IsLegalMove ts (run now s ts)
run-IsLegalMove now s ts d =
    run-Pointwise IsLegalMove (λ t. inl refl) now s ts d (assignment-IsLegalMove now s)

abbrev pub IsRestart : Statement → Type 0
IsRestart (restarts id user workspace) = Unit {0}
IsRestart _ = ⊥

pub terminal_row_blocks :
    (now : Timestamp) (s : Statement) (t : Task)
    → ¬ IsRestart s
    → condition now s t ≡ true
    → is_terminal t.status ≡ false
unfolding is_terminal
terminal_row_blocks now (restarts id user workspace) t n c = absurd (n tt)
terminal_row_blocks now _ t n c = ground arith

-- A terminal row is final: every statement but the manual retry leaves it as it is, whatever else
-- it does to the table.
pub run_keeps_terminal :
    (now : Timestamp) (s : Statement) (ts : Table)
    → ¬ IsRestart s
    → Distinct ts
    → Pointwise (λ t u. is_terminal t.status ≡ true → u ≡ t) ts (run now s ts)
run_keeps_terminal now s ts n d =
    run-Pointwise (λ t u. is_terminal t.status ≡ true → u ≡ t) (λ t e. refl) now s ts d
      (λ t c e. cc (terminal_row_blocks now s t n c))

-- The columns that no statement writes after the row is created.
pub record SameRequest (t u : Task) : Type 0 where
  pub id : u.id ≡ t.id
  pub type : u.type ≡ t.type
  pub model_id : u.model_id ≡ t.model_id
  pub model_resource_uid : u.model_resource_uid ≡ t.model_resource_uid
  pub model_revision_id : u.model_revision_id ≡ t.model_revision_id
  pub rate_card_revision_id : u.rate_card_revision_id ≡ t.rate_card_revision_id
  pub catalog_epoch : u.catalog_epoch ≡ t.catalog_epoch
  pub source_node_id : u.source_node_id ≡ t.source_node_id
  pub project_id : u.project_id ≡ t.project_id
  pub workspace_id : u.workspace_id ≡ t.workspace_id
  pub owner_id : u.owner_id ≡ t.owner_id
  pub params : u.params ≡ t.params
  pub inputs : u.inputs ≡ t.inputs
  pub created_at : u.created_at ≡ t.created_at

-- The attempt of a row goes on: its logical request and its vendor task are set once.
pub record SameAttempt (t u : Task) : Type 0 where
  pub logical :
      is_some t.invoke_logical_request_id ≡ true
      → u.invoke_logical_request_id ≡ t.invoke_logical_request_id
  pub external : is_some t.external_task_id ≡ true → u.external_task_id ≡ t.external_task_id
  pub request : is_some t.external_task_id ≡ true → u.invoke_request_id ≡ t.invoke_request_id

-- The counters never fall, and rise by one at a time.
abbrev pub IsCounted : Task → Task → Type 0
IsCounted t u =
    (t.retry_count ≤ u.retry_count)
    × (u.retry_count ≤ t.retry_count + 1)
    × (t.attempt_no ≤ u.attempt_no)
    × (u.attempt_no ≤ t.attempt_no + 1)

pub assignment-SameRequest :
    (now : Timestamp) (s : Statement) (t : Task)
    → condition now s t ≡ true
    → SameRequest t (assignment now s t) × IsCounted t (assignment now s t)
assignment-SameRequest now (claims locked fresh limit lease_ms) t c = ground arith
assignment-SameRequest now _ t c = ground arith

-- No statement changes what was asked for, nor whom it belongs to; the two counters never fall, and
-- rise by one at most.
run-SameRequest :
    (now : Timestamp) (s : Statement) (ts : Table)
    → Distinct ts
    → Pointwise (λ t u. SameRequest t u × IsCounted t u) ts (run now s ts)
run-SameRequest now s ts d =
    run-Pointwise (λ t u. SameRequest t u × IsCounted t u) (λ t. ground arith) now s ts d
      (assignment-SameRequest now s)

-- The statements that end an attempt so that a new one can begin.
abbrev pub IsReset : Statement → Type 0
IsReset (reschedules id token code message at) = Unit {0}
IsReset (restarts id user workspace) = Unit {0}
IsReset _ = ⊥

assignment-SameAttempt :
    (now : Timestamp) (s : Statement) (t : Task)
    → ¬ IsReset s
    → condition now s t ≡ true
    → SameAttempt t (assignment now s t)
assignment-SameAttempt now (reschedules id token code message at) t n c = absurd (n tt)
assignment-SameAttempt now (restarts id user workspace) t n c = absurd (n tt)
assignment-SameAttempt now _ t n c = ground arith

-- Within an attempt the logical request, the vendor task and the ledger row of a task are written
-- once: every statement but a scheduled or a manual retry keeps them where they are set.
pub run-SameAttempt :
    (now : Timestamp) (s : Statement) (ts : Table)
    → ¬ IsReset s
    → Distinct ts
    → Pointwise SameAttempt ts (run now s ts)
run-SameAttempt now s ts n d =
    run-Pointwise SameAttempt (λ t. ground arith) now s ts d
      (λ t c. assignment-SameAttempt now s t n c)
