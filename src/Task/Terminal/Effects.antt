-- ===== src/Task/Terminal/Effects.antt =====
-- What the terminal transitions do to the tables.
use xg_canvas.Task.Table.{update_first-clears}
use xg_canvas.Task.Terminal.Fail.{fail_transaction, fail}
use xg_canvas.Task.Terminal.{
  terminal_set, leased_cond, TerminalPatch, value, settle, update_terminal, Reply,
  cancel_vendor_best_effort, lock_leased,
}
use xg_canvas.Task.Terminal.Succeed.{
  succeed_transaction, succeed, TaskSuccessResult, discard_produced,
}
use xg_canvas.RequestLog.{FinalizePatch, Services}
use xg_canvas.Prelude.{
  nat_eq, string_eq, Uuid, Timestamp, ℕ, String, ◌≡◌, ◌≢◌, Bool, false, Option, none, some, arith,
}
use xg_canvas.Task.Status.{Status, status_eq}
use xg_canvas.Task.Row.{Table, Task}
use xg_canvas.Task.World.{returned, World}
use xg_canvas.Task.Projection.{apply_terminal}

-- The write-back touches the nodes and the canvases only.
pub apply_terminal-frame :
    (now : Timestamp) (t : Task) (w : World)
    → let w' = (apply_terminal now t w).0 in
      (w'.tasks ≡ w.tasks) × (w'.logs ≡ w.logs) × (w'.assets ≡ w.assets) × (w'.sent ≡ w.sent)
unfolding apply_terminal
apply_terminal-frame now t w = ground arith

pub settle-tasks :
    (sv : Services) (now : Timestamp) (patch : FinalizePatch) (row r : Option Task) (w w' : World)
    → settle sv now patch row w ≡ returned w' r
    → w'.tasks ≡ w.tasks
settle-tasks sv now patch none r w w' e = ground arith
settle-tasks sv now patch (some t) r w w' e = ground (arith, apply_terminal-frame now t w)

-- A transaction that updated a row returns it, if it does not throw.
pub settle-some :
    (sv : Services) (now : Timestamp) (patch : FinalizePatch) (t : Task) (w w' : World)
    → settle sv now patch (some t) w ≢ returned w' none
settle-some sv now patch t w w' e = ground arith

-- How a worker ends its task.
pub data Ending : Type 0 where
  succeeds_with : TaskSuccessResult → Ending
  fails_with : String → String → Ending

abbrev pub finish :
    Services → (ℕ → Uuid) → Timestamp → Uuid → Uuid → Ending → World → World × Reply Bool
finish sv fresh now id token (succeeds_with r) w = succeed sv now fresh id token r w
finish sv fresh now id token (fails_with code message) w = fail sv now id token code message w

-- What is left for the loser of a race: a success throws its stored objects away.
abbrev pub after_loss : Ending → World → World
after_loss (succeeds_with r) w = discard_produced r.assets w
after_loss (fails_with code message) w = w

module _ (sv : Services) (fresh : ℕ → Uuid) (now : Timestamp) (id token : Uuid) where
  pub unlocked_after_update :
      (status : Status) (patch : TerminalPatch) (ts : Table)
      → lock_leased id token (update_terminal now id token status patch ts).0 ≡ none
  unfolding lock_leased update_terminal
  unlocked_after_update status patch ts =
      update_first-clears (leased_cond id token) (terminal_set now status patch) (λ t. ground arith)
        ts

  pub finish_loses :
      (e : Ending) (w : World)
      → lock_leased id token w.tasks ≡ none
      → finish sv fresh now id token e w ≡ (after_loss e w, value false)
  unfolding succeed succeed_transaction fail fail_transaction
  finish_loses (succeeds_with r) w h = rw h
  finish_loses (fails_with code message) w h = rw h

  pub cancel_vendor-tasks : (t : Task) (w : World) → (cancel_vendor_best_effort t w).tasks ≡ w.tasks
  unfolding cancel_vendor_best_effort
  cancel_vendor-tasks t w = ground arith
