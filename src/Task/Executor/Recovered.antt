-- ===== src/Task/Executor/Recovered.antt =====
-- The recovery of a reclaimed attempt never calls the vendor to start a job.
use xg_canvas.Prelude.{
  string_eq, nat_eq, head?, Uuid, Timestamp, ℕ, String, refl, Bool, Option, none, some, List, arith,
}
use xg_canvas.RequestLog.{Services}
use xg_canvas.RequestLog.Queries.{
  RecoveryAttempt, PreflightFailure, list_recovery_attempts, find_preflight_failure, find_accepted,
}
use xg_canvas.Task.Status.{status_eq}
use xg_canvas.Task.Row.{Task}
use xg_canvas.Task.World.{World}
use xg_canvas.Task.Store.{save_external_result}
use xg_canvas.Task.Recovery.{
  ClaimedInvokeRecovery, recovery_failed, correlation, compensate, recover_accepted,
  recover_unknown, recover_rest, recover_attempts, recover_claimed,
}
use xg_canvas.Task.Executor.Calls.{IsQuiet, cancel-IsQuiet}

compensate-IsQuiet :
    (sv : Services) (ack : Uuid → Bool) (now : Timestamp) (a : RecoveryAttempt) (e : String)
    (w : World)
    → IsQuiet w (compensate sv ack now a e w).0
unfolding compensate
compensate-IsQuiet sv ack now a e w = ground (arith, cancel-IsQuiet a.task_id e w)

recover_accepted-IsQuiet :
    (sv : Services) (ack : Uuid → Bool) (now : Timestamp) (id token : Uuid) (a : RecoveryAttempt)
    (e : String) (w : World)
    → IsQuiet w (recover_accepted sv ack now id token a e w).0
recover_accepted-IsQuiet sv ack now id token a e w =
    let w' = record w {
      tasks = (save_external_result now id token (correlation now a e) w.tasks).0;
    } in
    ground (arith, compensate-IsQuiet sv ack now a e w')

recover_unknown-IsQuiet :
    (now : Timestamp) (timeout_ms : ℕ) (t : Task) (token : Uuid) (f : Option PreflightFailure)
    (w : World)
    → IsQuiet w (recover_unknown now timeout_ms t token f w).0
recover_unknown-IsQuiet now timeout_ms t token (some f) w = refl
recover_unknown-IsQuiet now timeout_ms t token none w = ground arith

recover_rest-IsQuiet :
    (now : Timestamp) (timeout_ms : ℕ) (t : Task) (token logical : Uuid)
    (a : Option RecoveryAttempt) (w : World)
    → IsQuiet w (recover_rest now timeout_ms t token logical a w).0
recover_rest-IsQuiet now timeout_ms t token logical (some a) w = ground (
  arith,
  recover_unknown-IsQuiet now timeout_ms t token (find_preflight_failure t.id logical w.logs) w,
)
recover_rest-IsQuiet now timeout_ms t token logical none w =
    recover_unknown-IsQuiet now timeout_ms t token (find_preflight_failure t.id logical w.logs) w

module _ (sv : Services) (ack : Uuid → Bool) (now : Timestamp) (timeout_ms : ℕ) (t : Task)
    (token : Uuid) (w : World) where
  recover_attempts-IsQuiet :
      (logical : Uuid) (attempts : List RecoveryAttempt)
      → IsQuiet w (recover_attempts sv ack now timeout_ms t token logical attempts w).0
  recover_attempts-IsQuiet logical attempts =
      elim (find_accepted attempts)
        as (λ x.
          IsQuiet w
            (elim x as (λ y. World × ClaimedInvokeRecovery) [
              | some (a, external) ↦ recover_accepted sv ack now t.id token a external w
              | none ↦ recover_rest now timeout_ms t token logical (head? attempts) w
            ]).0) [
              | some (a, external) ↦ recover_accepted-IsQuiet sv ack now t.id token a external w
              | none ↦ recover_rest-IsQuiet now timeout_ms t token logical (head? attempts) w
            ]

  pub recover_claimed-IsQuiet : IsQuiet w (recover_claimed sv ack now timeout_ms t token w).0
  unfolding recover_claimed
  recover_claimed-IsQuiet =
      elim t.invoke_logical_request_id
        as (λ x.
          IsQuiet w
            (elim x as (λ y. World × ClaimedInvokeRecovery) [
              | none ↦ (
                w,
                recovery_failed "INVOKE_CORRELATION_MISSING" "Task invoke correlation is missing",
              )
              | some logical ↦
                  recover_attempts sv ack now timeout_ms t token logical
                    (list_recovery_attempts t.id logical w.logs) w
            ]).0) [
              | none ↦ refl
              | some logical ↦
                  recover_attempts-IsQuiet logical (list_recovery_attempts t.id logical w.logs)
            ]
