-- ===== src/Task/Recovery/Repaired.antt =====
-- What the repair of an accepted orphan does to its vendor job, its ledger row and the tasks
-- (apps/canvas-api/src/task/task-invoke-recovery.service.ts).
use xg_canvas.Prelude.{
  if◌then◌else◌, string_eq, nat_eq, ◌==◌, Bool-cases, is_some, any, Uuid, Timestamp, String, ◌≡◌,
  refl, sym, ap, ◌∙◌, ◌⊎◌, inl, inr, Bool, true, false, ◌&&◌, Option, none, some, [], ◌∷◌, ◌++◌,
  arith,
}
use xg_canvas.RequestLog.{LogStatus, is_pending, FinalizePatch, patch_of, Services, is_open}
use xg_canvas.RequestLog.Queries.{RecoveryAttempt}
use xg_canvas.RequestLog.Finalize.{finalize_pending_effect}
use xg_canvas.Task.Row.{Task, Table}
use xg_canvas.Task.Table.{update_where, update_first, find_by_id}
use xg_canvas.Task.Store.{attach_cond, attach_set, attach_recovered_without_lease}
use xg_canvas.Task.World.{cancel_vendor, World}
use xg_canvas.Task.Recovery.{correlation, is_text, is_uuid, same_correlation, compensate}
use xg_canvas.Task.Recovery.Orphans.{
  AcceptedInvokeOrphan, same_raw_correlation, same_vendor_job, can_attach, has_active_owner,
  attached_patch, close_log, close_with, finalize_attached_terminal, duplicate_patch,
  compensate_orphan, attach_orphan, attach_or_compensate, reconcile_orphan,
}

-- A task carries the attempt: it names the attempt's request and the vendor's job.
abbrev pub carries : AcceptedInvokeOrphan → Task → Bool
carries o t =
    t.id == o.attempt.task_id
    && is_uuid t.invoke_request_id o.attempt.id
    && is_text t.external_task_id o.external_task_id

-- Nothing was sent, or the job was cancelled and its task does not carry it.
abbrev pub SparesCarried : AcceptedInvokeOrphan → World → World → Type 0
SparesCarried o w w' =
    (w'.sent ≡ w.sent)
    ⊎ ((w'.sent ≡ w.sent ++ (cancel_vendor o.attempt.task_id o.external_task_id ∷ []))
        × (same_correlation (find_by_id o.attempt.task_id w'.tasks) o.attempt o.external_task_id
            ≡ false))

-- The row is closed, or a task carries its attempt.
abbrev pub IsResolved : AcceptedInvokeOrphan → World → Type 0
IsResolved o w = (any (is_open o.attempt.id) w.logs ≡ false) ⊎ (any (carries o) w.tasks ≡ true)

abbrev Settles : AcceptedInvokeOrphan → World → World × Bool → Type 0
Settles o w (w', repaired) = SparesCarried o w w' × (repaired ≡ true → IsResolved o w')

-- A row that is returned is in the table as the assignment left it.
update_first-any :
    (cond : Task → Bool) (set : Task → Task) (p : Task → Bool)
    → ((t : Task) → cond t ≡ true → p (set t) ≡ true)
    → (ts : Table) → is_some (update_first cond set ts).1 ≡ true
    → any p (update_first cond set ts).0 ≡ true
unfolding update_first update_where
update_first-any cond set p h [] e = cc
update_first-any cond set p h (t ∷ ts) e = ground (arith, h t, update_first-any cond set p h ts)

same_vendor_job-same_correlation :
    (a : RecoveryAttempt) (external : String) (task : Option Task)
    → same_vendor_job (record { attempt = a; external_task_id = external; task = task })
      ≡ same_correlation task a external
same_vendor_job-same_correlation a external none = refl
same_vendor_job-same_correlation a external (some t) = refl

module _ (sv : Services) (cancel_accepted : Uuid → Bool) (now : Timestamp)
    (o : AcceptedInvokeOrphan) where
  close_log-Settles :
      (patch : FinalizePatch) (w : World)
      → is_pending patch.status ≡ false
      → Settles o w (close_log sv now o.attempt.id patch w)
  close_log-Settles patch w final =
      (inl refl, λ e. inl (finalize_pending_effect sv now o.attempt.id patch final w.logs).1)

  close_with-Settles :
      (w : World) (patch : Option FinalizePatch)
      → ((p : FinalizePatch) → patch ≡ some p → is_pending p.status ≡ false)
      → Settles o w (close_with sv now o.attempt.id patch w)
  close_with-Settles w none final = (inl refl, λ e. cc e)
  close_with-Settles w (some p) final = close_log-Settles p w (final p refl)

  attached_patch-final :
      (t : Task) (p : FinalizePatch) → attached_patch t ≡ some p → is_pending p.status ≡ false
  attached_patch-final t p h = ground arith

  finalize_attached-Settles : (w : World) → Settles o w (finalize_attached_terminal sv now o w)
  unfolding finalize_attached_terminal
  finalize_attached-Settles w =
      elim o.task
        as (λ task. Settles o w (elim task [
          | none ↦ (w, false)
          | some t ↦ close_with sv now o.attempt.id (attached_patch t) w
        ])) [
          | none ↦ (inl refl, λ e. cc e)
          | some t ↦ close_with-Settles w (attached_patch t) (attached_patch-final t)
        ]

  compensate-Settles :
      (w : World)
      → same_correlation (find_by_id o.attempt.task_id w.tasks) o.attempt o.external_task_id ≡ false
      → Settles o w (compensate_orphan sv cancel_accepted now o w)
  unfolding compensate
  compensate-Settles w h = elim (Bool-cases (cancel_accepted o.attempt.id)) [
    | inl e ↦ rw e (
      inr (refl, h),
      λ r.
          inl
            (finalize_pending_effect sv now o.attempt.id (patch_of LogStatus.cancelled none none)
              refl w.logs).1,
    )
    | inr e ↦ rw e (inr (refl, h), λ r. cc r)
  ]

  attached-carries :
      (t : Task)
      → attach_cond now o.attempt.task_id o.attempt.logical_request_id t ≡ true
      → carries o (attach_set now (correlation now o.attempt o.external_task_id) t) ≡ true
  attached-carries t h = ground (
    arith,
    (string_eq.beq_iff o.external_task_id o.external_task_id).1 refl,
    (nat_eq.beq_iff o.attempt.id o.attempt.id).1 refl,
  )

  after_attach :
      (w : World) (tasks' : Table)
      → let w' = record w { tasks = tasks' } in
        Settles o w (
          if same_correlation (find_by_id o.attempt.task_id w'.tasks) o.attempt o.external_task_id
          then (w', false)
          else compensate_orphan sv cancel_accepted now o w')
  after_attach w tasks' =
      elim (Bool-cases
        (same_correlation (find_by_id o.attempt.task_id tasks') o.attempt o.external_task_id)) [
          | inl e ↦ rw e (inl refl, λ r. cc r)
          | inr e ↦ rw e (compensate-Settles (record w { tasks = tasks' }) e)
        ]

  attach-Settles : (w : World) → Settles o w (attach_or_compensate sv cancel_accepted now o w)
  unfolding attach_or_compensate attach_recovered_without_lease
  attach-Settles w = elim (Bool-cases (attach_orphan now o w).1) [
    | inl e ↦ rw e (
      inl refl,
      λ r. inr (
          update_first-any (attach_cond now o.attempt.task_id o.attempt.logical_request_id)
            (attach_set now (correlation now o.attempt o.external_task_id)) (carries o)
            (λ t h. attached-carries t h) w.tasks e),
    )
    | inr e ↦ rw e (after_attach w (attach_orphan now o w).0.tasks)
  ]

  stays_apart :
      (w : World)
      → o.task ≡ find_by_id o.attempt.task_id w.tasks
      → same_vendor_job o ≡ false
      → same_correlation (find_by_id o.attempt.task_id w.tasks) o.attempt o.external_task_id ≡ false
  stays_apart w fresh j =
      ap (λ t. same_correlation t o.attempt o.external_task_id) (sym fresh)
      ∙ sym (same_vendor_job-same_correlation o.attempt o.external_task_id o.task)
      ∙ j

  -- Repairing an accepted orphan that was read together with its task: the vendor job is cancelled
  -- only if the task does not carry it, on the same channel and credential, and where the repair
  -- answers true the ledger row is closed or a task carries the attempt.
  pub reconcile_orphan-resolves :
      (w : World)
      → o.task ≡ find_by_id o.attempt.task_id w.tasks
      → let (w', repaired) = reconcile_orphan sv cancel_accepted now o w in
        SparesCarried o w w' × (repaired ≡ true → IsResolved o w')
  unfolding reconcile_orphan
  reconcile_orphan-resolves w fresh = elim (Bool-cases (same_raw_correlation o)) [
    | inl e ↦ rw e (finalize_attached-Settles w)
    | inr e ↦ rw e (elim (Bool-cases (same_vendor_job o)) [
      | inl j ↦ rw j (close_log-Settles duplicate_patch w refl)
      | inr j ↦ rw j (elim (Bool-cases (has_active_owner now o)) [
        | inl a ↦ rw a (inl refl, λ r. cc r)
        | inr a ↦ rw a (elim (Bool-cases (can_attach now o)) [
          | inl c ↦ rw c (attach-Settles w)
          | inr c ↦ rw c (compensate-Settles w (stays_apart w fresh j))
        ])
      ])
    ])
  ]
