-- ===== src/Task/Poller/Progress.antt =====
-- A poll that ends leaves its task to others (apps/canvas-api/src/task/task-poller.service.ts).
use xg_canvas.Task.Poller.Rows.{
  IsPolling, Hands, nothing_held, release-Hands, poll_retry-Hands, retry-Hands, end-Hands,
}
use xg_canvas.RequestLog.{pending, error, cancelled, Usage, FinalizePatch, patch_of}
use xg_canvas.Task.Executor.{InvokeResponse, finalize_invoke_request}
use xg_canvas.Prelude.{
  leb, string_eq, nat_eq, ◌==◌, Bool-cases, is_some, is_none, get_or, Pointwise, Uuid, Timestamp, ℕ,
  ◌+◌, String, ◌≡◌, refl, sym, ◌∙◌, subst, inl, inr, Bool, true, false, ◌&&◌, Option, none, some,
  arith,
}
use xg_canvas.Task.Terminal.{Reply, value, raised}
use xg_canvas.Task.Status.{
  Status, pending, queued, running, succeeded, failed, cancelled, status_eq,
}
use xg_canvas.Prelude.{
  leb, string_eq, nat_eq, ◌==◌, Bool-cases, is_some, is_none, get_or, Uuid, Timestamp, ℕ, ◌+◌,
  String, ◌≡◌, refl, sym, ◌∙◌, subst, inl, inr, Bool, true, false, ◌&&◌, Option, none, arith,
}
use xg_canvas.Task.Status.{
  Status, pending, queued, running, succeeded, failed, cancelled, status_eq,
}
use xg_canvas.Task.Row.{Task}
use xg_canvas.Task.World.{World}
use xg_canvas.Task.Store.{schedule_retry}
use xg_canvas.Task.Terminal.{Reply, value, raised}
use xg_canvas.Task.Terminal.Effects.{Ending, succeeds_with, fails_with, finish}
use xg_canvas.Task.Terminal.Unlocks.{finish-updates, finish-thrown}
use xg_canvas.Task.Failure.{Completion, done, threw, completion}
use xg_canvas.Task.Poller.{
  max_transient_poll_fails, PollReply, polled, poll_threw, PollEnv, is_running_timed_out,
  is_permanent_poll_error, poll_fail_streak, has_route, fail_or_retry, poll_failed, poll_success,
  poll_answered, poll_caught, poll_replied, poll_one,
}
use xg_canvas.Task.Executor.{finalize_invoke_request, InvokeResponse}
use xg_canvas.Task.RetryPolicy.{decide_retry}
use xg_canvas.RequestLog.{error, patch_of, Usage}

-- What a poll's end says of the rows.
abbrev Settles : Uuid → Uuid → World → World × Completion → Type 0
Settles id token w (v, done) = Pointwise (Hands id token) w.tasks v.tasks
Settles id token w (v, threw e) = v.tasks ≡ w.tasks

completion-Settles :
    (id token : Uuid) (w : World) (x : World × Reply Bool)
    → ((b : Bool) → x.1 ≡ value b → Pointwise (Hands id token) w.tasks x.0.tasks)
    → ((m : String) → x.1 ≡ raised m → x.0.tasks ≡ w.tasks)
    → Settles id token w (completion x)
completion-Settles id token w (v, value b) f g = f b refl
completion-Settles id token w (v, raised m) f g = g m refl

module _ (ev : PollEnv) (now : Timestamp) (t : Task) (token : Uuid) where
  finished-Hands :
      (e : Ending) (b : Bool) (w : World)
      → (finish ev.services ev.fresh_asset now t.id token e w).1 ≡ value b
      → Pointwise
          (Hands t.id token)
          w.tasks
          (finish ev.services ev.fresh_asset now t.id token e w).0.tasks
  finished-Hands e b w h = elim (finish-updates ev.services ev.fresh_asset now t.id token e b w h) [
    | inl (status, patch, over, same) ↦ rw same (end-Hands now t.id token status patch w.tasks over)
    | inr (same, free) ↦ rw same (nothing_held t.id token w.tasks free)
  ]

  end-Settles :
      (e : Ending) (w : World)
      → Settles t.id token w (completion (finish ev.services ev.fresh_asset now t.id token e w))
  end-Settles e w =
      completion-Settles t.id token w (finish ev.services ev.fresh_asset now t.id token e w)
        (λ b h. finished-Hands e b w h)
        (λ m h. finish-thrown ev.services ev.fresh_asset now t.id token e m w h)

  moved-Settles :
      (v w : World) (x : World × Completion)
      → v.tasks ≡ w.tasks
      → Settles t.id token v x
      → Settles t.id token w x
  moved-Settles v w (u, done) e h = subst (λ ts. Pointwise (Hands t.id token) ts u.tasks) e h
  moved-Settles v w (u, threw m) e h = h ∙ e

  finalized-tasks :
      (request : Option Uuid) (patch : FinalizePatch) (w : World)
      → (finalize_invoke_request ev.services now request patch w).tasks ≡ w.tasks
  finalized-tasks none patch w = refl
  finalized-tasks (some request) patch w = refl

  fail_or_retry-Settles :
      (code message : String) (usage : Option Usage) (w : World)
      → Settles t.id token w (fail_or_retry ev now t token code message usage w)
  unfolding fail_or_retry
  fail_or_retry-Settles code message usage w =
      elim (Bool-cases (decide_retry code t.retry_count).retry) [
        | inl e ↦
            let at = now + (decide_retry code t.retry_count).delay_ms in
            let patch = record (patch_of error (some code) (some message)) { usage = usage } in
            let w' = finalize_invoke_request ev.services now t.invoke_request_id patch w in
            rw e (
              subst
                (λ ts.
                  Pointwise (Hands t.id token) ts
                    (schedule_retry now t.id token code message at w'.tasks).0)
                (finalized-tasks t.invoke_request_id patch w)
                (retry-Hands now t.id token code message at w'.tasks))
        | inr e ↦ rw e (end-Settles (fails_with code message) w)
      ]

  poll_failed-Settles :
      (code message : String) (w : World)
      → IsPolling t.id token w.tasks
      → Settles t.id token w (poll_failed ev now t token code message w)
  poll_failed-Settles code message w h =
      elim (Bool-cases (is_permanent_poll_error ev.to_lower code message)) [
        | inl e ↦ rw e (end-Settles (fails_with code message) w)
        | inr e ↦ elim (Bool-cases (leb max_transient_poll_fails (poll_fail_streak t.error + 1))) [
          | inl f ↦ rw (e, f) (end-Settles (fails_with code _) w)
          | inr f ↦
              elim (Bool-cases
                ((decide_retry code t.retry_count).retry && code == "ASSET_DOWNLOAD_FAILED")) [
                  | inl g ↦ rw (e, f, g) (poll_retry-Hands now t.id token w.tasks h code message _)
                  | inr g ↦ rw (e, f, g) (release-Hands now t.id token w.tasks h _)
                ]
        ]
      ]

  poll_answered-Settles :
      (status : Status) (r : InvokeResponse) (after : Option ℕ) (w : World)
      → IsPolling t.id token w.tasks
      → Settles t.id token w (poll_answered ev now t token status r after w)
  poll_answered-Settles running r after w h = release-Hands now t.id token w.tasks h _
  poll_answered-Settles succeeded r after w h = end-Settles (succeeds_with (poll_success r)) w
  poll_answered-Settles pending r after w h = fail_or_retry-Settles _ _ r.usage w
  poll_answered-Settles queued r after w h = fail_or_retry-Settles _ _ r.usage w
  poll_answered-Settles failed r after w h = fail_or_retry-Settles _ _ r.usage w
  poll_answered-Settles cancelled r after w h = fail_or_retry-Settles _ _ r.usage w

  caught-Settles :
      (w : World) (x : World × Completion)
      → IsPolling t.id token w.tasks
      → Settles t.id token w x
      → Settles t.id token w (poll_caught ev now t token x)
  caught-Settles w (v, done) h s = s
  caught-Settles w (v, threw e) h s =
      moved-Settles v w (poll_failed ev now t token (get_or e.code "INTERNAL_ERROR") e.message v) s
        (poll_failed-Settles (get_or e.code "INTERNAL_ERROR") e.message v
          (subst (IsPolling t.id token) (sym s) h))

  replied-Settles :
      (reply : PollReply) (w : World)
      → IsPolling t.id token w.tasks
      → Settles t.id token w (poll_replied ev now t token reply w)
  replied-Settles (polled r after) w h =
      caught-Settles w (poll_answered ev now t token r.status r after w) h
        (poll_answered-Settles r.status r after w h)
  replied-Settles (poll_threw code message) w h =
      poll_failed-Settles (get_or code "INTERNAL_ERROR") message w h

  poll_one-Settles :
      (w : World)
      → is_some t.external_task_id ≡ true
      → IsPolling t.id token w.tasks
      → Settles t.id token w (poll_one ev now t token w)
  unfolding poll_one
  poll_one-Settles w ext h =
      let known : is_none t.external_task_id ≡ false = ground arith in
      elim (Bool-cases (has_route t)) [
        | inr r ↦ rw (known, r) (end-Settles (fails_with _ _) w)
        | inl r ↦ elim (Bool-cases (is_running_timed_out now t.started_at ev.running_timeout_ms)) [
          | inl e ↦ rw (known, r, e) (end-Settles (fails_with _ _) w)
          | inr e ↦ rw (known, r, e) (replied-Settles ev.poll w h)
        ]
      ]

done-Hands :
    (id token : Uuid) (w : World) (x : World × Completion)
    → x.1 ≡ done
    → Settles id token w x
    → Pointwise (Hands id token) w.tasks x.0.tasks
done-Hands id token w (v, done) e h = h
done-Hands id token w (v, threw m) e h = cc

-- If the rows that the token holds are running ones that the vendor knows, as the claim picks them,
-- a poll that ends without an exception hands each of them over, whatever the vendor answers or
-- throws: it has no lease any more, and has ended, or still runs with its vendor task and a time for
-- the next poll, or is queued with a time for the next attempt, under the next retry count and
-- without a vendor task. The rows that the token does not hold stay as they are.
pub poll_one-Hands :
    (ev : PollEnv) (now : Timestamp) (t : Task) (token : Uuid) (w : World)
    → is_some t.external_task_id ≡ true
    → IsPolling t.id token w.tasks
    → (poll_one ev now t token w).1 ≡ done
    → Pointwise (Hands t.id token) w.tasks (poll_one ev now t token w).0.tasks
poll_one-Hands ev now t token w ext h e =
    done-Hands t.id token w (poll_one ev now t token w) e (poll_one-Settles ev now t token w ext h)
