-- ===== src/Task/Poller/Rows.antt =====
-- What the statements that end a poll do to the rows that its token holds
-- (apps/canvas-api/src/task/task-execution.store.ts).
use xg_canvas.Prelude.{
  string_eq, nat_eq, ◌==◌, Bool-cases, is_some, All, Pointwise, All-of_In, All-map, Uuid, Timestamp,
  ◌+◌, String, ◌≡◌, refl, sym, ◌∙◌, ◌⊎◌, inl, inr, Bool, true, false, ◌&&◌, none, [], ◌∷◌, arith,
}
use xg_canvas.Task.Table.{update_where, update_first}
use xg_canvas.Prelude.{
  string_eq, nat_eq, ◌==◌, Bool-cases, is_some, All, Pointwise, All-of_In, All-map, Uuid, Timestamp,
  ◌+◌, String, ◌≡◌, refl, sym, ◌∙◌, ◌⊎◌, inl, inr, Bool, true, false, ◌&&◌, none, [], ◌∷◌, arith,
}
use xg_canvas.Task.Terminal.{TerminalPatch, leased_cond, terminal_set, update_terminal, lock_leased}
use xg_canvas.Task.Status.{Status, queued, running, status_eq, is_terminal}
use xg_canvas.Prelude.{
  string_eq, nat_eq, ◌==◌, Bool-cases, is_some, All, All-of_In, All-map, Uuid, Timestamp, ◌+◌,
  String, ◌≡◌, refl, sym, ◌∙◌, inl, inr, Bool, true, false, ◌&&◌, none, [], ◌∷◌, arith,
}
use xg_canvas.Task.Status.{Status, queued, running, status_eq}
use xg_canvas.Task.Row.{Task, Table}
use xg_canvas.Task.Table.{update_where, update_first}
use xg_canvas.Task.Store.{
  PollPatch, release_poll_cond, release_poll_set, release_poll, schedule_retry_cond,
  schedule_retry_set, schedule_retry, poll_retry_cond, poll_retry_set, schedule_poll_retry,
}
use xg_canvas.Task.Terminal.{leased_cond, lock_leased}

-- The rows that the token holds are polled ones: they run, and the vendor knows them.
abbrev pub IsPolling : Uuid → Uuid → Table → Type 0
IsPolling id token ts =
    All
      (λ u.
        leased_cond id token u ≡ true → (u.status == running && is_some u.external_task_id) ≡ true)
      ts

polling-released :
    (id token : Uuid) (u : Task)
    → (leased_cond id token u ≡ true → (u.status == running && is_some u.external_task_id) ≡ true)
    → release_poll_cond id token u ≡ leased_cond id token u
polling-released id token u p = elim (Bool-cases (leased_cond id token u)) [
  | inl l ↦ ground (arith, p l)
  | inr l ↦ ground arith
]

polling-repolled :
    (id token : Uuid) (u : Task)
    → (leased_cond id token u ≡ true → (u.status == running && is_some u.external_task_id) ≡ true)
    → poll_retry_cond id token u ≡ leased_cond id token u
polling-repolled id token u p = elim (Bool-cases (leased_cond id token u)) [
  | inl l ↦ ground (arith, p l)
  | inr l ↦ ground arith
]

-- What a row may be once a poll is over: ended, waiting for the next poll of its vendor task, or
-- queued as a new attempt under the next retry count; in any case without a lease.
abbrev pub IsWaiting : Task → Task → Type 0
IsWaiting u v =
    (v.status ≡ running)
    × (v.external_task_id ≡ u.external_task_id)
    × (is_some v.next_poll_at ≡ true)

abbrev pub IsRequeued : Task → Task → Type 0
IsRequeued u v =
    (v.status ≡ queued)
    × (v.retry_count ≡ u.retry_count + 1)
    × (v.invoke_logical_request_id ≡ none)
    × (v.external_task_id ≡ none)
    × (is_some v.next_poll_at ≡ true)

abbrev pub IsHandedOver : Task → Task → Type 0
IsHandedOver u v =
    (v.lease_token ≡ none)
    × (v.lease_expires_at ≡ none)
    × ((is_terminal v.status ≡ true) ⊎ IsWaiting u v ⊎ IsRequeued u v)

-- A row that the token holds is handed over, and any other is as it was.
abbrev pub Hands : Uuid → Uuid → Task → Task → Type 0
Hands id token u v =
    (leased_cond id token u ≡ true → IsHandedOver u v) × (leased_cond id token u ≡ false → v ≡ u)

-- A statement that takes in exactly the rows that the token holds, and hands them over.
handing :
    (id token : Uuid) (cond : Task → Bool) (set : Task → Task) (ts : Table)
    → All (λ u. cond u ≡ leased_cond id token u) ts
    → ((u : Task) → cond u ≡ true → IsHandedOver u (set u))
    → Pointwise (Hands id token) ts (update_first cond set ts).0
unfolding update_first update_where
handing id token cond set [] h over = tt
handing id token cond set (u ∷ ts) h over = elim (Bool-cases (cond u)) [
  | inl c ↦
      rw c (((λ l. over u c), (λ l. cc (sym h.0 ∙ c, l))), handing id token cond set ts h.1 over)
  | inr c ↦ rw c (((λ l. cc (h.0 ∙ l, c)), (λ l. refl)), handing id token cond set ts h.1 over)
]

-- Where the token holds nothing, nothing need change.
pub nothing_held :
    (id token : Uuid) (ts : Table)
    → lock_leased id token ts ≡ none
    → Pointwise (Hands id token) ts ts
unfolding lock_leased
nothing_held id token [] h = tt
nothing_held id token (u ∷ ts) h = elim (Bool-cases (leased_cond id token u)) [
  | inl c ↦ cc (rw c at h)
  | inr c ↦ (((λ l. cc (l, c)), (λ l. refl)), nothing_held id token ts (rw c at h))
]

module _ (now : Timestamp) (id token : Uuid) (ts : Table) (h : IsPolling id token ts) where
  pub release-Hands :
      (patch : PollPatch) → Pointwise (Hands id token) ts (release_poll now id token patch ts).0
  unfolding release_poll
  release-Hands patch =
      handing id token (release_poll_cond id token) (release_poll_set now patch) ts
        (All-map _ _ ts (λ u p. polling-released id token u p) h) (λ u c. ground arith)

  pub poll_retry-Hands :
      (code message : String) (at : Timestamp)
      → Pointwise (Hands id token) ts (schedule_poll_retry now id token code message at ts).0
  unfolding schedule_poll_retry
  poll_retry-Hands code message at =
      handing id token (poll_retry_cond id token) (poll_retry_set now code message at) ts
        (All-map _ _ ts (λ u p. polling-repolled id token u p) h) (λ u c. ground arith)

pub retry-Hands :
    (now : Timestamp) (id token : Uuid) (code message : String) (at : Timestamp) (ts : Table)
    → Pointwise (Hands id token) ts (schedule_retry now id token code message at ts).0
unfolding schedule_retry
retry-Hands now id token code message at ts =
    handing id token (schedule_retry_cond id token) (schedule_retry_set now code message at) ts
      (All-of_In _ ts (λ u i. refl)) (λ u c. ground arith)

pub end-Hands :
    (now : Timestamp) (id token : Uuid) (status : Status) (patch : TerminalPatch) (ts : Table)
    → is_terminal status ≡ true
    → Pointwise (Hands id token) ts (update_terminal now id token status patch ts).0
unfolding update_terminal
end-Hands now id token status patch ts over =
    handing id token (leased_cond id token) (terminal_set now status patch) ts
      (All-of_In _ ts (λ u i. refl)) (λ u c. (refl, refl, inl over))
