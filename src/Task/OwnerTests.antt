-- ===== src/Task/OwnerTests.antt =====
-- The theorems on the owner's cancel and retry at concrete worlds.
use xg_canvas.Task.Retry.Effect.{IsRetryOf, IsFreshAttempt, rows_but, retry_effect}
use xg_canvas.Task.Statement.{starts, prepares}
use xg_canvas.Prelude.{string_eq, nat_eq, ok, ◌≡◌, refl, true, false, some, [], ◌∷◌, arith}
use xg_canvas.RequestLog.{has_unresolved_invoke}
use xg_canvas.Task.Status.{failed, status_eq, is_terminal}
use xg_canvas.Task.Row.{Task}
use xg_canvas.Task.Table.{update_where, update_first, find_by_id}
use xg_canvas.Task.World.{World}
use xg_canvas.Task.Projection.{apply_terminal}
use xg_canvas.Task.Retry.{Access, get_owned_task, retry_set, retry}
use xg_canvas.Task.Retry.Effect.{IsRetryOf, retry_effect}
use xg_canvas.Task.Terminal.{value, cancel_vendor_best_effort}
use xg_canvas.Task.Terminal.Cancel.{cancel_set, cancel_transaction, cancel_by_owner}
use xg_canvas.Task.Terminal.Effects.{fails_with, finish}
use xg_canvas.Task.Terminal.CancelRace.{after_all, cancel_beats_worker}
use xg_canvas.Task.Samples.{created, leased, finished, plain_services, world_of}

abbrev open_access : Access
open_access = record {
  check_member = λ user workspace. ok tt;
  get_project = λ user project. ok (record { id = project; workspace_id = 70 });
  can = λ user permission project. true;
  has_task_pin = λ t. true;
}

abbrev failed_task : Task
failed_task = record finished { status = failed }

abbrev failed_world : World
failed_world = world_of (failed_task ∷ created 2 600 ∷ [])

retry_effect_example :
    (t : Task) × IsRetryOf open_access 60 failed_task.workspace_id 1 failed_world t
    × IsFreshAttempt 5000 t (retry_set 5000 failed_task)
    × (find_by_id 1 (retry_set 5000 failed_task ∷ created 2 600 ∷ [])
        ≡ some (retry_set 5000 failed_task))
    × (rows_but 1 (retry_set 5000 failed_task ∷ created 2 600 ∷ []) ≡ rows_but 1 failed_world.tasks)
    × (world_of (retry_set 5000 failed_task ∷ created 2 600 ∷ [])
        ≡ record failed_world { tasks = retry_set 5000 failed_task ∷ created 2 600 ∷ [] })
unfolding retry get_owned_task find_by_id update_first update_where has_unresolved_invoke
retry_effect_example =
    retry_effect open_access 5000 60 failed_task.workspace_id 1 failed_world
      (world_of (retry_set 5000 failed_task ∷ created 2 600 ∷ [])) (retry_set 5000 failed_task)
      (omega arith) refl

-- The row is claimed by nobody, and a late preparation and a late end of the old worker find nothing.
cancel_beats_worker_example :
    finish plain_services
      (λ n. n)
      6000
      1
      7
      (fails_with "VENDOR_REJECTED" "no")
      (after_all
        ((5500, prepares 1 7 901) ∷ (5600, starts 1 7 9000) ∷ [])
        (world_of (cancel_set 5000 leased ∷ [])))
    ≡ (
      after_all
          ((5500, prepares 1 7 901) ∷ (5600, starts 1 7 9000) ∷ [])
          (world_of (cancel_set 5000 leased ∷ [])),
      value false,
    )
unfolding cancel_by_owner cancel_transaction update_first update_where apply_terminal is_terminal
    cancel_vendor_best_effort
cancel_beats_worker_example =
    cancel_beats_worker plain_services 5000 plain_services (λ n. n) 6000 60 1 7
      (fails_with "VENDOR_REJECTED" "no") (world_of (leased ∷ []))
      (world_of (cancel_set 5000 leased ∷ [])) (cancel_set 5000 leased)
      ((5500, prepares 1 7 901) ∷ (5600, starts 1 7 9000) ∷ []) ((λ r. r), ((λ r. r), tt)) (tt, tt)
      refl
