-- ===== src/Task/Executor/Calls.antt =====
-- How often the executor calls the vendor.
use xg_canvas.Prelude.{
  not, ◌&&◌, is_some, if◌then◌else◌, Bool, true, false, none, ◌==◌, string_eq, if◌then◌else◌,
  string_eq, nat_eq, ◌==◌, is_some, Uuid, Timestamp, ℕ, suc, ◌+◌, String, ◌≡◌, refl, ap, ◌∙◌, Bool,
  true, false, not, ◌&&◌, Option, none, some, List, [], ◌∷◌, ◌++◌, map, arith,
}
use xg_canvas.RequestLog.{FinalizePatch, Services}
use xg_canvas.Task.Status.{succeeded, failed, status_eq}
use xg_canvas.Task.Row.{Task}
use xg_canvas.Task.World.{
  Outbound, cancel_vendor, invoke_vendor, delete_object, World, Outcome, returned, thrown, send,
}
use xg_canvas.Task.Terminal.{
  update_terminal, lock_leased, settle, Reply, value, raised, cancel_vendor_best_effort,
}
use xg_canvas.Task.Terminal.Succeed.{
  ProducedAsset, TaskSuccessResult, asset_rows, unique_keys, discard_produced, success_patch,
  success_log, succeed_locked, succeed_transaction, succeed_end, succeed,
}
use xg_canvas.Task.Terminal.Fail.{
  failure_patch, failure_log, fail_locked, fail_transaction, fail_end, fail,
}
use xg_canvas.Task.Terminal.Effects.{apply_terminal-frame}
use xg_canvas.Task.Failure.{completion, handle_failed}
use xg_canvas.Task.Executor.{InvokeResponse, cancel_vendor_job}

-- The vendor invocations among the outgoing calls.
unfoldable pub calls : List Outbound → ℕ
calls [] = 0
calls (invoke_vendor t l ∷ xs) = suc (calls xs)
calls (cancel_vendor t e ∷ xs) = calls xs
calls (delete_object k ∷ xs) = calls xs

pub calls-append : (xs ys : List Outbound) → calls (xs ++ ys) ≡ calls xs + calls ys
unfolding calls
calls-append [] ys = omega arith
calls-append (invoke_vendor t l ∷ xs) ys = omega (arith, calls-append xs ys)
calls-append (cancel_vendor t e ∷ xs) ys = calls-append xs ys
calls-append (delete_object k ∷ xs) ys = calls-append xs ys

abbrev pub IsQuiet : World → World → Type 0
IsQuiet w v = calls v.sent ≡ calls w.sent

deletions-calls : (ks : List String) → calls (map delete_object ks) ≡ 0
unfolding calls
deletions-calls [] = refl
deletions-calls (k ∷ ks) = deletions-calls ks

discard-IsQuiet : (ps : List ProducedAsset) (w : World) → IsQuiet w (discard_produced ps w)
unfolding discard_produced
discard-IsQuiet ps w =
    let ks = unique_keys [] (map (λ p. p.storage_key) ps) in
    omega (arith, calls-append w.sent (map delete_object ks), deletions-calls ks)

pub cancel-IsQuiet :
    (t : Uuid) (e : String) (w : World) → IsQuiet w (send (cancel_vendor t e ∷ []) w)
unfolding calls
cancel-IsQuiet t e w = omega (arith, calls-append w.sent (cancel_vendor t e ∷ []))

guarded-IsQuiet :
    (b : Bool) (t : Uuid) (e : String) (w : World)
    → IsQuiet w (if b then send (cancel_vendor t e ∷ []) w else w)
guarded-IsQuiet true t e w = cancel-IsQuiet t e w
guarded-IsQuiet false t e w = refl

best_effort-IsQuiet : (t : Task) (w : World) → IsQuiet w (cancel_vendor_best_effort t w)
unfolding cancel_vendor_best_effort
best_effort-IsQuiet t w =
    elim t.external_task_id
      as (λ x. IsQuiet w (elim x [
        | none ↦ w
        | some external ↦
            if not (external == "")
              && is_some t.channel_resource_uid
              && is_some t.channel_revision_id
              && is_some t.channel_route
              && is_some t.credential_id
            then send (cancel_vendor t.id external ∷ []) w
            else w
      ])) [
        | none ↦ refl
        | some e ↦
            guarded-IsQuiet
              (not (e == "")
                && is_some t.channel_resource_uid
                && is_some t.channel_revision_id
                && is_some t.channel_route
                && is_some t.credential_id)
              t.id e w
      ]

pub job-IsQuiet : (t : Task) (r : InvokeResponse) (w : World) → IsQuiet w (cancel_vendor_job t r w)
unfolding cancel_vendor_job
job-IsQuiet t r w =
    elim r.external_task_id
      as (λ x. IsQuiet w (elim x [
        | none ↦ w
        | some external ↦
            if not (external == "")
              && is_some r.channel_resource_uid
              && is_some r.channel_revision_id
              && is_some r.channel_route
              && is_some r.credential_id
            then send (cancel_vendor t.id external ∷ []) w
            else w
      ])) [
        | none ↦ refl
        | some e ↦
            guarded-IsQuiet
              (not (e == "")
                && is_some r.channel_resource_uid
                && is_some r.channel_revision_id
                && is_some r.channel_route
                && is_some r.credential_id)
              t.id e w
      ]

settle-sent :
    (sv : Services) (now : Timestamp) (patch : FinalizePatch) (row r : Option Task) (w w' : World)
    → settle sv now patch row w ≡ returned w' r
    → w'.sent ≡ w.sent
settle-sent sv now patch none r w w' e = ground arith
settle-sent sv now patch (some t) r w w' e = ground (arith, apply_terminal-frame now t w)

module _ (sv : Services) (now : Timestamp) (id token : Uuid) where
  succeed_locked-sent :
      (fresh : ℕ → Uuid) (r : TaskSuccessResult) (o p : Option Task) (w v : World)
      → succeed_locked sv now fresh id token r o w ≡ returned v p
      → v.sent ≡ w.sent
  succeed_locked-sent fresh r none p w v e = ground arith
  succeed_locked-sent fresh r (some u) p w v e =
      let rows = asset_rows u fresh 0 r.assets in
      let up =
        update_terminal now id token succeeded (success_patch (map (λ a. a.id) rows) r) w.tasks in
      settle-sent sv now (success_log r) up.1 p
        (record w { tasks = up.0; assets = w.assets ++ rows }) v e

  succeed_end-IsQuiet :
      (fresh : ℕ → Uuid) (r : TaskSuccessResult) (o : Option Task) (w : World)
      (x : Outcome (Option Task))
      → succeed_locked sv now fresh id token r o w ≡ x
      → IsQuiet w (succeed_end r w x).0
  succeed_end-IsQuiet fresh r o w (returned v none) e =
      discard-IsQuiet r.assets v ∙ ap calls (succeed_locked-sent fresh r o none w v e)
  succeed_end-IsQuiet fresh r o w (returned v (some t)) e =
      ap calls (succeed_locked-sent fresh r o (some t) w v e)
  succeed_end-IsQuiet fresh r o w (thrown m) e = discard-IsQuiet r.assets w

  pub succeed-IsQuiet :
      (fresh : ℕ → Uuid) (r : TaskSuccessResult) (w : World)
      → IsQuiet w (succeed sv now fresh id token r w).0
  unfolding succeed succeed_transaction
  succeed-IsQuiet fresh r w =
      succeed_end-IsQuiet fresh r (lock_leased id token w.tasks) w
        (succeed_locked sv now fresh id token r (lock_leased id token w.tasks) w) refl

  fail_locked-sent :
      (code message : String) (o p : Option Task) (w v : World)
      → fail_locked sv now id token code message o w ≡ returned v p
      → v.sent ≡ w.sent
  fail_locked-sent code message none p w v e = ground arith
  fail_locked-sent code message (some u) p w v e =
      let up = update_terminal now id token failed (failure_patch code message) w.tasks in
      settle-sent sv now (failure_log code message) up.1 p (record w { tasks = up.0 }) v e

  fail_end-IsQuiet :
      (code message : String) (o : Option Task) (w : World) (x : Outcome (Option Task))
      → fail_locked sv now id token code message o w ≡ x
      → IsQuiet w (fail_end w x).0
  fail_end-IsQuiet code message o w (returned v none) e =
      ap calls (fail_locked-sent code message o none w v e)
  fail_end-IsQuiet code message o w (returned v (some t)) e =
      best_effort-IsQuiet t v ∙ ap calls (fail_locked-sent code message o (some t) w v e)
  fail_end-IsQuiet code message o w (thrown m) e = refl

  fail-IsQuiet :
      (code message : String) (w : World) → IsQuiet w (fail sv now id token code message w).0
  unfolding fail fail_transaction
  fail-IsQuiet code message w =
      fail_end-IsQuiet code message (lock_leased id token w.tasks) w
        (fail_locked sv now id token code message (lock_leased id token w.tasks) w) refl

pub completion-world : {A : Type 0} (p : World × Reply A) → (completion p).0 ≡ p.0
completion-world (w, value a) = refl
completion-world (w, raised e) = refl

pub handle_failed-IsQuiet :
    (sv : Services) (now : Timestamp) (t : Task) (token : Uuid) (code message : String)
    (allow : Bool) (w : World)
    → IsQuiet w (handle_failed sv now t token code message allow w).0
unfolding handle_failed
handle_failed-IsQuiet sv now t token code message allow w = ground (
  arith,
  fail-IsQuiet sv now t.id token code message w,
  completion-world (fail sv now t.id token code message w),
)
