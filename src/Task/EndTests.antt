-- ===== src/Task/EndTests.antt =====
-- The theorems on the end of a task, its write-back, the retry policy and the runner at concrete
-- inputs.
use xg_canvas.Prelude.{
  string_eq, nat_eq, ◌+◌, ◌≡◌, refl, ◌⊎◌, inl, true, false, some, [], ◌∷◌, map, arith,
}
use xg_canvas.RequestLog.{pending, finalize_pending}
use xg_canvas.Task.Status.{pending, pending, succeeded, status_eq}
use xg_canvas.Task.Row.{Task}
use xg_canvas.Task.World.{World}
use xg_canvas.Task.Projection.{
  source_node, is_superseded, delete_key, put_key, projected, set_node, bump_canvas, apply_terminal,
}
use xg_canvas.Task.Projection.Frame.{IsFramed, apply_terminal-IsFramed}
use xg_canvas.Task.Runner.{Runner, initial, begin_claim, end_claim, finish_task}
use xg_canvas.Task.Runner.Capacity.{
  begins, claims, ends, Runs, starts, after, IsWithin, Runs-IsWithin,
}
use xg_canvas.Task.Terminal.{update_terminal, lock_leased, value}
use xg_canvas.Task.Terminal.Succeed.{asset_rows, succeed_transaction, succeed}
use xg_canvas.Task.Terminal.Effects.{succeeds_with, fails_with, finish, after_loss}
use xg_canvas.Task.Terminal.Race.{finish_once, finish_all_or_nothing}
use xg_canvas.Task.Table.{update_where, update_first}
use xg_canvas.Task.Samples.{finished, plain_services, canvas_world, image_result}

abbrev won : World
won = (finish plain_services (λ n. 2000 + n) 3000 1 7 (succeeds_with image_result) canvas_world).0

-- The success wins: the task, the ledger, the node and the canvas are written.
won_statuses : map (λ t. t.status) won.tasks ≡ succeeded ∷ pending ∷ []
unfolding succeed succeed_transaction lock_leased update_terminal update_first update_where
    apply_terminal source_node is_superseded projected delete_key put_key set_node bump_canvas
    finalize_pending asset_rows
won_statuses = refl

won_versions : map (λ c. c.version) won.canvases ≡ 8 ∷ 1 ∷ []
unfolding succeed succeed_transaction lock_leased update_terminal update_first update_where
    apply_terminal source_node is_superseded projected delete_key put_key set_node bump_canvas
    finalize_pending asset_rows
won_versions = refl

finish_once_example :
    finish plain_services (λ n. 3000 + n) 4000 1 7 (succeeds_with image_result) won
    ≡ (after_loss (succeeds_with image_result) won, value false)
unfolding succeed succeed_transaction lock_leased update_terminal update_first update_where
    apply_terminal source_node is_superseded projected delete_key put_key set_node bump_canvas
    finalize_pending asset_rows
finish_once_example =
    finish_once plain_services (λ n. 2000 + n) 3000 plain_services (λ n. 3000 + n) 4000 1 7
      (succeeds_with image_result) (succeeds_with image_result) canvas_world won refl

finish_all_or_nothing_example :
    ((finish plain_services (λ n. n) 3000 1 8 (fails_with "VENDOR_REJECTED" "no") canvas_world).1
      ≡ value true)
    ⊎ ((finish plain_services (λ n. n) 3000 1 8 (fails_with "VENDOR_REJECTED" "no") canvas_world).0
        ≡ canvas_world)
finish_all_or_nothing_example =
    finish_all_or_nothing plain_services (λ n. n) 3000 1 8 (fails_with "VENDOR_REJECTED" "no")
      canvas_world

abbrev done_task : Task
done_task = record finished {
  source_node_id = some 40;
  project_id = some 30;
  workspace_id = 70;
  output_asset_ids = 2000 ∷ [];
}

apply_terminal-IsFramed_example :
    IsFramed 3000 done_task canvas_world (apply_terminal 3000 done_task canvas_world).0
apply_terminal-IsFramed_example = apply_terminal-IsFramed 3000 done_task canvas_world

-- A round that fills five of eight slots, with a second that begins meanwhile, and the end of one
-- of the five.
abbrev busy : Runner
busy = finish_task (end_claim 8 5 (begin_claim (begin_claim (initial 8)).0).0)

busy_runs : Runs 8 busy
unfolding begin_claim end_claim
busy_runs =
    after (after (after (after starts begins) begins) (claims 8 5 (inl refl) (omega arith)))
      (ends (omega arith))

Runs-IsWithin_example : IsWithin 8 busy
Runs-IsWithin_example = Runs-IsWithin 8 busy_runs
