-- ===== src/Task/Statement.antt =====
-- Every statement that the services of apps/canvas-api/src/task send to canvas.tasks after a row is
-- created, as data, with its WHERE condition and its SET list.
pub mod Pointwise
pub mod Consistency
pub mod Lifecycle
pub mod WellFormed
pub mod Leases
use xg_canvas.Prelude.{nat_eq, string_eq, Uuid, Timestamp, ◌>>=◌, ◌>>◌, ℕ, String, Bool, not, ◌&&◌}
use xg_canvas.Task.Status.{succeeded, failed, status_eq}
use xg_canvas.Task.Row.{Task, Table}
use xg_canvas.Task.Table.{update_first}
use xg_canvas.Task.Store.{
  ExternalTaskCorrelation, start_cond, start_set, start_claimed, renew_cond, renew_set, renew_lease,
  prepare_cond, prepare_set, prepare_invoke_attempt, save_external_cond, save_external_set,
  save_external_result, defer_cond, defer_set, defer_invoke_recovery, attach_cond, attach_set,
  attach_recovered_without_lease, PollPatch, release_poll_cond, release_poll_set, release_poll,
  schedule_retry_cond, schedule_retry_set, schedule_retry, poll_retry_cond, poll_retry_set,
  schedule_poll_retry,
}
use xg_canvas.Task.Claim.{
  claimable, pollable, claim_set, claim_poll_set, claim_pending, claim_due_polls,
}
use xg_canvas.Task.Terminal.{TerminalPatch, leased_cond, terminal_set, update_terminal}
use xg_canvas.Task.Terminal.Cancel.{owned_cond, is_cancellable, cancel_set}
use xg_canvas.Task.Retry.{retry_cond, retry_set}

pub data Statement : Type 0 where
  claims : (Task → Bool) → (Task → Uuid) → ℕ → ℕ → Statement
  claims_polls : (Task → Bool) → (Task → Uuid) → ℕ → ℕ → Statement
  starts : Uuid → Uuid → ℕ → Statement
  renews : Uuid → Uuid → ℕ → Statement
  prepares : Uuid → Uuid → Uuid → Statement
  saves : Uuid → Uuid → ExternalTaskCorrelation → Statement
  defers : Uuid → Uuid → Timestamp → Statement
  attaches : Uuid → Uuid → ExternalTaskCorrelation → Statement
  releases : Uuid → Uuid → PollPatch → Statement
  reschedules : Uuid → Uuid → String → String → Timestamp → Statement
  repolls : Uuid → Uuid → String → String → Timestamp → Statement
  succeeds : Uuid → Uuid → TerminalPatch → Statement
  fails : Uuid → Uuid → TerminalPatch → Statement
  cancels : Uuid → Uuid → Statement
  restarts : Uuid → Uuid → Uuid → Statement

abbrev pub cancel_cond : Uuid → Uuid → Task → Bool
cancel_cond user id t = owned_cond user id t && is_cancellable t.status

-- The table after the statement.
unfoldable pub run : Timestamp → Statement → Table → Table
run now (claims locked fresh limit lease_ms) ts =
    (claim_pending now locked fresh limit lease_ms ts).0
run now (claims_polls locked fresh limit lease_ms) ts =
    (claim_due_polls now locked fresh limit lease_ms ts).0
run now (starts id token lease_ms) ts = (start_claimed now id token lease_ms ts).0
run now (renews id token lease_ms) ts = (renew_lease now id token lease_ms ts).0
run now (prepares id token logical) ts = (prepare_invoke_attempt now id token logical ts).0
run now (saves id token patch) ts = (save_external_result now id token patch ts).0
run now (defers id token at) ts = (defer_invoke_recovery now id token at ts).0
run now (attaches id logical patch) ts = (attach_recovered_without_lease now id logical patch ts).0
run now (releases id token patch) ts = (release_poll now id token patch ts).0
run now (reschedules id token code message at) ts =
    (schedule_retry now id token code message at ts).0
run now (repolls id token code message at) ts =
    (schedule_poll_retry now id token code message at ts).0
run now (succeeds id token patch) ts = (update_terminal now id token succeeded patch ts).0
run now (fails id token patch) ts = (update_terminal now id token failed patch ts).0
run now (cancels user id) ts = (update_first (cancel_cond user id) (cancel_set now) ts).0
run now (restarts id user workspace) ts =
    (update_first (retry_cond id user workspace) (retry_set now) ts).0

-- A condition that holds of each row that the statement sets. For the claims it is the WHERE
-- clause of their SELECT.
abbrev pub condition : Timestamp → Statement → Task → Bool
condition now (claims locked fresh limit lease_ms) t = claimable now t && not (locked t)
condition now (claims_polls locked fresh limit lease_ms) t = pollable now t && not (locked t)
condition now (starts id token lease_ms) t = start_cond id token t
condition now (renews id token lease_ms) t = renew_cond id token t
condition now (prepares id token logical) t = prepare_cond id token logical t
condition now (saves id token patch) t = save_external_cond id token patch t
condition now (defers id token at) t = defer_cond id token t
condition now (attaches id logical patch) t = attach_cond now id logical t
condition now (releases id token patch) t = release_poll_cond id token t
condition now (reschedules id token code message at) t = schedule_retry_cond id token t
condition now (repolls id token code message at) t = poll_retry_cond id token t
condition now (succeeds id token patch) t = leased_cond id token t
condition now (fails id token patch) t = leased_cond id token t
condition now (cancels user id) t = cancel_cond user id t
condition now (restarts id user workspace) t = retry_cond id user workspace t

-- What the statement sets such a row to.
abbrev pub assignment : Timestamp → Statement → Task → Task
assignment now (claims locked fresh limit lease_ms) = claim_set now lease_ms fresh
assignment now (claims_polls locked fresh limit lease_ms) = claim_poll_set now lease_ms fresh
assignment now (starts id token lease_ms) = start_set now lease_ms
assignment now (renews id token lease_ms) = renew_set now lease_ms
assignment now (prepares id token logical) = prepare_set now logical
assignment now (saves id token patch) = save_external_set now patch
assignment now (defers id token at) = defer_set now at
assignment now (attaches id logical patch) = attach_set now patch
assignment now (releases id token patch) = release_poll_set now patch
assignment now (reschedules id token code message at) = schedule_retry_set now code message at
assignment now (repolls id token code message at) = poll_retry_set now code message at
assignment now (succeeds id token patch) = terminal_set now succeeded patch
assignment now (fails id token patch) = terminal_set now failed patch
assignment now (cancels user id) = cancel_set now
assignment now (restarts id user workspace) = retry_set now
