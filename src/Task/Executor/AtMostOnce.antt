-- ===== src/Task/Executor/AtMostOnce.antt =====
-- The executor asks the invoke service once at most, and never for a reclaimed attempt.
use xg_canvas.Task.Executor.Responses.{
  handle_response-IsQuiet, caught-IsQuiet, settle_recovery-IsQuiet,
}
use xg_canvas.Task.Executor.Recovered.{recover_claimed-IsQuiet}
use xg_canvas.Prelude.{
  string_eq, nat_eq, is_some, get_or, length, Uuid, Timestamp, ◌+◌, ◌≤◌, String, ◌≡◌, refl, sym,
  ◌∙◌, ◌⊎◌, inl, inr, Bool, true, false, Option, none, some, List, [], ◌∷◌, map, arith,
}
use xg_canvas.Task.Invoke.{
  VendorReply, answered, refused, Candidate, Dispatch, max_failover, invoke,
}
use xg_canvas.Task.Invoke.Failover.{IsOneDispatch, invoke-IsOneDispatch}
use xg_canvas.Task.Executor.{
  VendorReply, answered, refused, Env, handle_response, withdrawals, sent_by, attempt, caught,
  run_prepared, run_started, execute,
}
use xg_canvas.Task.Failure.{Completion, threw}
use xg_canvas.Prelude.{
  string_eq, nat_eq, is_some, get_or, Uuid, Timestamp, ◌+◌, ◌≡◌, refl, sym, ◌∙◌, ◌⊎◌, inl, inr,
  Bool, true, false, Option, none, some, [], ◌∷◌, arith,
}
use xg_canvas.Task.Status.{status_eq}
use xg_canvas.Task.Row.{Task}
use xg_canvas.Task.World.{invoke_vendor, World, send}
use xg_canvas.Task.Store.{default_lease_ms, start_claimed, prepare_invoke_attempt}
use xg_canvas.Task.Failure.{threw}
use xg_canvas.Task.Recovery.{recover_claimed}
use xg_canvas.Task.Executor.{
  answered, refused, Env, handle_response, attempt, caught, run_prepared, run_started, execute,
}
use xg_canvas.Task.Executor.Calls.{calls, calls-append, IsQuiet}

-- The calls of one request to the invoke service.
abbrev pub tried_by : Env → List Candidate
tried_by ev = (invoke ev.service).tried

-- No call, or those of one request.
abbrev pub IsAtMostOne : Env → World → World → Type 0
IsAtMostOne ev w v = IsQuiet w v ⊎ (calls v.sent ≡ calls w.sent + length (tried_by ev))

tried-calls :
    (id logical : Uuid) (cs : List Candidate)
    → calls (map (λ (c : Candidate). invoke_vendor id logical) cs) ≡ length cs
unfolding calls
tried-calls id logical [] = refl
tried-calls id logical (c ∷ cs) = omega (arith, tried-calls id logical cs)

withdrawn-calls : (id : Uuid) (o : Option String) → calls (withdrawals id o) ≡ 0
unfolding calls
withdrawn-calls id none = refl
withdrawn-calls id (some external) = refl

sent-calls :
    (id logical : Uuid) (d : Dispatch) (w : World)
    → calls (send (sent_by id logical d) w).sent ≡ calls w.sent + length d.tried
sent-calls id logical d w =
    let tries = map (λ (c : Candidate). invoke_vendor id logical) d.tried in
    omega (
      arith,
      calls-append w.sent (sent_by id logical d),
      calls-append tries (withdrawals id d.withdrawn),
      tried-calls id logical d.tried,
      withdrawn-calls id d.withdrawn,
    )

module _ (ev : Env) (now : Timestamp) (t : Task) (token logical : Uuid) where
  -- What follows the reply sends no further call.
  replied-IsQuiet :
      (reply : VendorReply) (w : World)
      → IsQuiet w (
          caught ev now t token (elim reply as (λ x. World × Completion) [
            | answered r ↦ handle_response ev now t token logical r.status r w
            | refused e ↦ (w, threw e)
          ]))
  replied-IsQuiet (answered r) w =
      let h = handle_response ev now t token logical r.status r w in
      caught-IsQuiet ev now t token logical h.0 h.1
      ∙ handle_response-IsQuiet ev now t token logical r.status r w
  replied-IsQuiet (refused e) w = caught-IsQuiet ev now t token logical w (threw e)

  attempt-IsAtMostOne :
      (w : World) → IsAtMostOne ev w (caught ev now t token (attempt ev now t token logical w))
  unfolding attempt
  attempt-IsAtMostOne w =
      let d = invoke ev.service in
      let w' = send (sent_by t.id logical d) w in
      elim ev.resolve_inputs
        as (λ x. IsAtMostOne ev w (
          caught ev now t token (elim x as (λ y. World × Completion) [
            | some e ↦ (w, threw e)
            | none ↦ elim d.reply as (λ y. World × Completion) [
              | answered r ↦ handle_response ev now t token logical r.status r w'
              | refused e ↦ (w', threw e)
            ]
          ]))) [
            | some e ↦ inl (caught-IsQuiet ev now t token logical w (threw e))
            | none ↦ inr (replied-IsQuiet d.reply w' ∙ sent-calls t.id logical d w)
          ]

run_prepared-IsAtMostOne :
    (ev : Env) (now : Timestamp) (reclaimed : Bool) (token : Uuid) (logical : Option Uuid)
    (t : Task) (w : World)
    → IsQuiet w (run_prepared ev now reclaimed token logical t w)
      ⊎ ((calls (run_prepared ev now reclaimed token logical t w).sent
            ≡ calls w.sent + length (tried_by ev))
          × (reclaimed ≡ false))
run_prepared-IsAtMostOne ev now reclaimed token none t w = inl refl
run_prepared-IsAtMostOne ev now true token (some logical) t w =
    let r = recover_claimed ev.services ev.cancel_accepted now ev.recovery_timeout_ms t token w in
    inl (
      settle_recovery-IsQuiet ev now t token logical r.0 r.1
      ∙ recover_claimed-IsQuiet ev.services ev.cancel_accepted now ev.recovery_timeout_ms t token w)
run_prepared-IsAtMostOne ev now false token (some logical) t w =
    elim (attempt-IsAtMostOne ev now t token logical w) [ inl q ↦ inl q | inr q ↦ inr (q, refl) ]

-- The row that the executor starts.
abbrev pub started_row : Timestamp → Uuid → Uuid → World → Option Task
started_row now id token w = (start_claimed now id token default_lease_ms w.tasks).1

not_some : (o : Option Uuid) → is_some o ≡ false → o ≡ none
not_some none h = refl
not_some (some x) h = cc

module _ (ev : Env) (now : Timestamp) (token : Uuid) where
  continued-IsAtMostOne :
      (t : Task) (o : Option Task) (w : World)
      → IsQuiet w (elim o as (λ x. World) [
        | none ↦ w
        | some u ↦
            run_prepared ev now
              (is_some t.invoke_logical_request_id)
              token
              u.invoke_logical_request_id
              u
              w
      ])
        ⊎ ((calls
                (elim o as (λ x. World) [
                  | none ↦ w
                  | some u ↦
                      run_prepared ev now
                        (is_some t.invoke_logical_request_id)
                        token
                        u.invoke_logical_request_id
                        u
                        w
                ]).sent
              ≡ calls w.sent + length (tried_by ev))
            × (t.invoke_logical_request_id ≡ none))
  continued-IsAtMostOne t none w = inl refl
  continued-IsAtMostOne t (some u) w =
      elim (run_prepared-IsAtMostOne ev now (is_some t.invoke_logical_request_id) token
        u.invoke_logical_request_id u w) [
          | inl q ↦ inl q
          | inr q ↦ inr (q.0, not_some t.invoke_logical_request_id q.1)
        ]

  run_started-IsAtMostOne :
      (t : Task) (w : World)
      → IsQuiet w (run_started ev now token t w)
        ⊎ ((calls (run_started ev now token t w).sent ≡ calls w.sent + length (tried_by ev))
            × (t.invoke_logical_request_id ≡ none))
  run_started-IsAtMostOne t w =
      let p =
        prepare_invoke_attempt now t.id token (get_or t.invoke_logical_request_id ev.random_uuid)
          w.tasks in
      continued-IsAtMostOne t p.1 (record w { tasks = p.0 })

  executed-IsAtMostOne :
      (id : Uuid) (o : Option Task) (w : World)
      → (first : Option Task) → o ≡ first
      → IsQuiet w (elim o as (λ x. World) [ none ↦ w | some t ↦ run_started ev now token t w ])
        ⊎ ((calls (elim o as (λ x. World) [ none ↦ w | some t ↦ run_started ev now token t w ]).sent
              ≡ calls w.sent + length (tried_by ev))
            × (t : Task) × (first ≡ some t)
            × (t.invoke_logical_request_id ≡ none))
  executed-IsAtMostOne id none w first e = inl refl
  executed-IsAtMostOne id (some t) w first e = elim (run_started-IsAtMostOne t w) [
    | inl q ↦ inl q
    | inr q ↦ inr (q.0, t, sym e, q.1)
  ]

-- Whatever the adapters, the inputs, the clock and the database answer, one run of the executor
-- either calls no vendor, or makes the calls of one request to the invoke service: at most four, and
-- each but the last definitely rejected by the vendor. It does so only if the row that it started
-- carries no logical request: an attempt that another worker had prepared is never sent again.
pub execute-calls :
    (ev : Env) (now : Timestamp) (id token : Uuid) (w : World)
    → (calls (execute ev now id token w).sent ≡ calls w.sent)
      ⊎ ((calls (execute ev now id token w).sent ≡ calls w.sent + length (tried_by ev))
          × (length (tried_by ev) ≤ max_failover)
          × IsOneDispatch (tried_by ev)
          × (t : Task) × (started_row now id token w ≡ some t)
          × (t.invoke_logical_request_id ≡ none))
unfolding execute
execute-calls ev now id token w =
    let s = start_claimed now id token default_lease_ms w.tasks in
    let (few, one) = invoke-IsOneDispatch ev.service in
    elim (executed-IsAtMostOne ev now token id s.1 (record w { tasks = s.0 }) s.1 refl) [
      | inl quiet ↦ inl quiet
      | inr (made, t, found, fresh) ↦ inr (made, few, one, t, found, fresh)
    ]
