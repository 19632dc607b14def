-- ===== src/Task/Dispatch.antt =====
-- The dispatch of attempts under every interleaving of the workers' statements. A worker that started
-- an attempt without a logical request prepares one under a new UUID, and asks the invoke service if
-- the preparation returns the row (`run` of apps/canvas-api/src/task/task-executor.service.ts); all
-- other statements, of workers, pollers, owners and the recovery, may come at any time between. What
-- the service does with one request is in Task/Invoke.
pub mod Once
use xg_canvas.Prelude.{
  nat_eq, string_eq, All, Uuid, Timestamp, ◌>>=◌, ◌>>◌, ℕ, ◌≡◌, ◌≢◌, some, List, ◌∷◌,
}
use xg_canvas.Task.Row.{Task, Table}
use xg_canvas.Task.Store.{prepare_invoke_attempt}
use xg_canvas.Task.Statement.{Statement, run}

-- `dispatched` lists the tasks that the invoke service was asked for, with the retry count of the
-- attempt.
pub record System : Type 0 where
  pub tasks : Table
  pub dispatched : List (Uuid × ℕ)

-- No row has this logical request yet.
abbrev pub IsFreshLogical : Uuid → Table → Type 0
IsFreshLogical logical = All (λ t. t.invoke_logical_request_id ≢ some logical)

pub data Step (a : System) : System → Type 0 where
  other : (now : Timestamp) (s : Statement) → Step a (record a { tasks = run now s a.tasks })
  dispatch :
      (now : Timestamp) (id token logical : Uuid) (t : Task)
      → IsFreshLogical logical a.tasks
      → (prepare_invoke_attempt now id token logical a.tasks).1 ≡ some t
      → Step a (record {
        tasks = (prepare_invoke_attempt now id token logical a.tasks).0;
        dispatched = (t.id, t.retry_count) ∷ a.dispatched;
      })

pub data Reach (a : System) : System → Type 0 where
  here : Reach a a
  next : {b c : System} → Reach a b → Step b c → Reach a c
