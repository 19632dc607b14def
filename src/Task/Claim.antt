-- ===== src/Task/Claim.antt =====
-- The two claims of apps/canvas-api/src/task/task-execution.store.ts: claimPending and
-- claimDuePolls. A claim picks rows (`SELECT … ORDER BY … LIMIT … FOR UPDATE SKIP LOCKED`) and then
-- leases the picked ones (`UPDATE … FROM picked WHERE t.id = picked.id`).
pub mod Bounds
pub mod Picked
use xg_canvas.Prelude.{
  leb, ◌==◌, nat_eq, string_eq, if◌then◌else◌, is_none, take, any, select, Uuid, Timestamp, ◌>>=◌,
  ◌>>◌, sort_by, ℕ, ◌+◌, Bool, true, false, not, ◌&&◌, ◌||◌, Option, none, some, List,
}
use xg_canvas.Task.Status.{pending, queued, running, status_eq}
use xg_canvas.Task.Row.{Task, Table, is_due, is_lease_free}
use xg_canvas.Task.Table.{update_where}
use xg_canvas.Prelude.{sort_by}

-- The WHERE clause of the first claim.
abbrev pub claimable : Timestamp → Task → Bool
claimable now t =
    is_none t.external_task_id
    && (t.status == pending
        || (t.status == queued && is_due t.next_poll_at now && is_lease_free t now)
        || (t.status == running && is_lease_free t now))

-- The WHERE clause of the second.
abbrev pub pollable : Timestamp → Task → Bool
pollable now t =
    t.status == running
    && not (is_none t.external_task_id)
    && is_due t.next_poll_at now
    && is_lease_free t now

-- `ORDER BY created_at ASC`.
abbrev pub created_before : Task → Task → Bool
created_before a b = leb a.created_at b.created_at

-- `ORDER BY next_poll_at ASC NULLS FIRST`.
abbrev pub nulls_first : Option Timestamp → Option Timestamp → Bool
nulls_first none b = true
nulls_first (some a) none = false
nulls_first (some a) (some b) = leb a b

abbrev pub polled_before : Task → Task → Bool
polled_before a b = nulls_first a.next_poll_at b.next_poll_at

-- The first `limit` rows, in order, that meet the condition and that no other transaction has
-- locked.
unfoldable pub pick : (Task → Task → Bool) → (Task → Bool) → (Task → Bool) → ℕ → Table → List Task
unfolding sort_by
pick before cond locked limit ts =
    take limit (sort_by before (select (λ t. cond t && not (locked t)) ts))

abbrev pub is_picked : List Task → Task → Bool
is_picked picked t = any (λ p. t.id == p.id) picked

abbrev pub claim_set : Timestamp → ℕ → (Task → Uuid) → Task → Task
claim_set now lease_ms fresh t = record t {
  status = queued;
  attempt_no =
      if is_none t.lease_token && is_none t.invoke_logical_request_id
      then t.attempt_no + 1
      else t.attempt_no;
  lease_token = some (fresh t);
  lease_expires_at = some (now + lease_ms);
  next_poll_at = none;
  updated_at = now;
}

abbrev pub claim_poll_set : Timestamp → ℕ → (Task → Uuid) → Task → Task
claim_poll_set now lease_ms fresh t = record t {
  lease_token = some (fresh t);
  lease_expires_at = some (now + lease_ms);
  updated_at = now;
}

-- `fresh` is gen_random_uuid(), which gives each row a token.
unfoldable pub claim_pending :
    Timestamp → (Task → Bool) → (Task → Uuid) → ℕ → ℕ → Table → Table × List Task
unfolding pick
claim_pending now locked fresh limit lease_ms ts =
    update_where (is_picked (pick created_before (claimable now) locked limit ts))
      (claim_set now lease_ms fresh) ts

unfoldable pub claim_due_polls :
    Timestamp → (Task → Bool) → (Task → Uuid) → ℕ → ℕ → Table → Table × List Task
unfolding pick
claim_due_polls now locked fresh limit lease_ms ts =
    update_where (is_picked (pick polled_before (pollable now) locked limit ts))
      (claim_poll_set now lease_ms fresh) ts
