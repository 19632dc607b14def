-- ===== src/Task/Retry/Effect.antt =====
-- What a manual retry has checked, and what it does.
use xg_canvas.Prelude.{
  nat_beq_iff, string_eq, nat_eq, ◌==◌, select, Uuid, Timestamp, forbidden, not_found, conflict, ok,
  require_some-ok, require-ok, bind-ok, ok-injective, require_test, ◌+◌, ◌≡◌, refl, sym, ap, ◌∙◌,
  subst, ◌⊎◌, Bool, true, false, not, none, some, [], ◌∷◌, arith,
}
use xg_canvas.Task.Status.{Status, queued, failed, cancelled, status_eq}
use xg_canvas.Prelude.{
  nat_beq_iff, string_eq, nat_eq, ◌==◌, select, Uuid, Timestamp, forbidden, not_found, conflict, ok,
  require_some-ok, require-ok, bind-ok, ok-injective, require_test, ◌+◌, ◌≡◌, refl, sym, ap, ◌∙◌,
  subst, Bool, true, false, not, none, some, [], ◌∷◌, arith,
}
use xg_canvas.Task.Statement.Lifecycle.{SameRequest}
use xg_canvas.Task.Status.{queued, status_eq}
use xg_canvas.Prelude.{
  nat_beq_iff, string_eq, nat_eq, ◌==◌, Uuid, Timestamp, forbidden, not_found, conflict, ok,
  require_some-ok, require-ok, bind-ok, ok-injective, require_test, ◌≡◌, refl, sym, ap, ◌∙◌, Bool,
  true, false, not, some, arith,
}
use xg_canvas.Task.Status.{status_eq}
use xg_canvas.Task.Row.{Task, Table}
use xg_canvas.Task.Table.{update_where, update_first, find_by_id, Distinct}
use xg_canvas.Task.Table.Find.{find_by_id-id, find_by_id-update_first, update_first-row}
use xg_canvas.Task.World.{World}
use xg_canvas.Task.Retry.{
  Access, get_owned_task, is_retryable_status, check_retryable, has_unresolved, check_project,
  retry_cond, retry_set, retry_end, retry,
}

-- The task that a retry starts from.
pub record IsRetryOf (ac : Access) (user workspace id : Uuid) (w : World) (t : Task) : Type 0 where
  pub found : find_by_id id w.tasks ≡ some t
  pub owned : (t.owner_id ≡ user) × (t.workspace_id ≡ workspace)
  pub ended : (t.status ≡ failed) ⊎ (t.status ≡ cancelled)
  pub resolved : has_unresolved t w ≡ false
  pub pinned : ac.has_task_pin t ≡ true
  pub allowed : check_project ac user workspace t.project_id t.source_node_id w ≡ ok tt

ended_status : (s : Status) → is_retryable_status s ≡ true → (s ≡ failed) ⊎ (s ≡ cancelled)
ended_status s h = ground arith

-- `u` is `t` as a fresh attempt under the next retry count: queued and due, with nothing left of the
-- attempt before, no lease and no result, and what was asked for unchanged.
pub record IsFreshAttempt (now : Timestamp) (t u : Task) : Type 0 where
  pub request : SameRequest t u
  pub counted : (u.retry_count ≡ t.retry_count + 1) × (u.attempt_no ≡ t.attempt_no)
  pub queued_now : (u.status ≡ queued) × (u.next_poll_at ≡ some now) × (u.updated_at ≡ now)
  pub no_request :
      (u.invoke_request_id ≡ none)
      × (u.invoke_logical_request_id ≡ none)
      × (u.invoke_prepared_at ≡ none)
      × (u.external_task_id ≡ none)
  pub no_route :
      (u.channel_resource_uid ≡ none)
      × (u.channel_revision_id ≡ none)
      × (u.channel_route ≡ none)
      × (u.credential_id ≡ none)
  pub no_lease : (u.lease_token ≡ none) × (u.lease_expires_at ≡ none)
  pub no_times : (u.started_at ≡ none) × (u.finished_at ≡ none)
  pub no_result :
      (u.output_asset_ids ≡ [])
      × (u.text_output ≡ none)
      × (u.json_output ≡ none)
      × (u.progress ≡ none)
      × (u.error ≡ none)

retry_set-IsFreshAttempt : (now : Timestamp) (t : Task) → IsFreshAttempt now t (retry_set now t)
retry_set-IsFreshAttempt now t = ground arith

-- The rows of other ids.
abbrev pub rows_but : Uuid → Table → Table
rows_but id = select (λ (u : Task). not (u.id == id))

others_kept :
    (now : Timestamp) (id user workspace : Uuid) (ts : Table)
    → rows_but id (update_first (retry_cond id user workspace) (retry_set now) ts).0
      ≡ rows_but id ts
unfolding update_first update_where
others_kept now id user workspace [] = refl
others_kept now id user workspace (t ∷ ts) = ground (arith, others_kept now id user workspace ts)

get_owned_task-ok :
    (user workspace id : Uuid) (ts : Table) (t : Task)
    → get_owned_task user workspace id ts ≡ ok t
    → (find_by_id id ts ≡ some t) × (t.owner_id ≡ user) × (t.workspace_id ≡ workspace)
unfolding get_owned_task
get_owned_task-ok user workspace id ts t h =
    let (c, f, h1) =
      require_some-ok (find_by_id id ts) not_found "NOT_FOUND" "task not found" _ t h in
    let (o, h2) = require-ok (c.owner_id == user) forbidden "FORBIDDEN" "not your task" _ t h1 in
    let (s, h3) =
      require-ok (c.workspace_id == workspace) not_found "NOT_FOUND" "task not found" _ t h2 in
    let e = ok-injective h3 in
    (
      f ∙ ap (λ (x : Task). some x) e,
      ap (λ (x : Task). x.owner_id) (sym e) ∙ (nat_beq_iff c.owner_id user).0 o,
      ap (λ (x : Task). x.workspace_id) (sym e) ∙ (nat_beq_iff c.workspace_id workspace).0 s,
    )

retry_cond-holds :
    (id user workspace : Uuid) (t : Task)
    → t.id ≡ id
    → t.owner_id ≡ user
    → t.workspace_id ≡ workspace
    → is_retryable_status t.status ≡ true
    → retry_cond id user workspace t ≡ true
retry_cond-holds id user workspace t a b c d = ground arith

updated-row :
    (now : Timestamp) (id user workspace : Uuid) (ts : Table) (t : Task)
    → Distinct ts
    → find_by_id id ts ≡ some t
    → retry_cond id user workspace t ≡ true
    → (update_first (retry_cond id user workspace) (retry_set now) ts).1 ≡ some (retry_set now t)
updated-row now id user workspace ts t d f c =
    update_first-row id (retry_cond id user workspace) (retry_set now) (λ t h. ground arith)
      (λ t. refl) ts d
    ∙ rw (f, c) refl

found_row :
    (now : Timestamp) (id user workspace : Uuid) (ts : Table) (t : Task)
    → find_by_id id ts ≡ some t
    → retry_cond id user workspace t ≡ true
    → find_by_id id (update_first (retry_cond id user workspace) (retry_set now) ts).0
      ≡ some (retry_set now t)
found_row now id user workspace ts t f c =
    find_by_id-update_first id (retry_cond id user workspace) (retry_set now) (λ t h. ground arith)
      (λ t. refl) ts
    ∙ rw (f, c) refl

not-true : (b : Bool) → not b ≡ true → b ≡ false
not-true b h = ground arith

-- A retry that succeeds found the user's own failed or cancelled task in the workspace, with no
-- vendor attempt of its logical request still pending and its catalog pin and the access to its
-- project in order; it returns that task as a fresh attempt under the next retry count (queued and
-- due, with nothing left of the vendor task, lease and result before, and the request unchanged),
-- leaves it so in the table, and changes no other row and no other table.
pub retry_effect :
    (ac : Access) (now : Timestamp) (user workspace id : Uuid) (w w' : World) (u : Task)
    → Distinct w.tasks
    → retry ac now user workspace id w ≡ ok (w', u)
    → (t : Task) × IsRetryOf ac user workspace id w t
      × IsFreshAttempt now t u
      × (find_by_id id w'.tasks ≡ some u)
      × (rows_but id w'.tasks ≡ rows_but id w.tasks)
      × (w' ≡ record w { tasks = w'.tasks })
unfolding retry
retry_effect ac now user workspace id w w' u d h =
    let (m, mem, h1) = bind-ok (ac.check_member user workspace) _ (w', u) h in
    let (t, own, h2) = bind-ok (get_owned_task user workspace id w.tasks) _ (w', u) h1 in
    let (e, ended, h3) = bind-ok (check_retryable t) _ (w', u) h2 in
    let (free, h4) =
      require-ok (not (has_unresolved t w)) conflict "INVOKE_ATTEMPT_UNRESOLVED"
        "the previous vendor attempt is still being recovered or cancelled" _ (w', u) h3 in
    let (pin, h5) =
      require-ok (ac.has_task_pin t) conflict "CATALOG_REVISION_MISSING"
        "task Catalog revision is no longer available" _ (w', u) h4 in
    let (a, access, h6) =
      bind-ok (check_project ac user workspace t.project_id t.source_node_id w) _ (w', u) h5 in
    let (f, o, s) = get_owned_task-ok user workspace id w.tasks t own in
    let r =
      require_test (is_retryable_status t.status) forbidden "CONFLICT"
        "only failed/cancelled tasks can retry" ended in
    let c = retry_cond-holds id user workspace t (find_by_id-id id t w.tasks f) o s r in
    let w1 = record w {
      tasks = (update_first (retry_cond id user workspace) (retry_set now) w.tasks).0;
    } in
    let q = ok-injective (
      ap (retry_end user workspace id w1) (sym (updated-row now id user workspace w.tasks t d f c))
      ∙ h6) in
    let eu = ap (λ (p : World × Task). p.1) q in
    let ew = ap (λ (p : World × Task). p.0) q in
    (
      t,
      record {
        found = f;
        owned = (o, s);
        ended = ended_status t.status r;
        resolved = not-true (has_unresolved t w) free;
        pinned = pin;
        allowed = access;
      },
      subst (IsFreshAttempt now t) eu (retry_set-IsFreshAttempt now t),
      ap (λ (v : World). find_by_id id v.tasks) (sym ew)
          ∙ found_row now id user workspace w.tasks t f c
          ∙ ap (λ (x : Task). some x) eu,
      ap (λ (v : World). rows_but id v.tasks) (sym ew) ∙ others_kept now id user workspace w.tasks,
      sym ew ∙ ap (λ (v : World). record w { tasks = v.tasks }) ew,
    )
