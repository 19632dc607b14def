-- ===== src/RequestLog/Record/Shaped.antt =====
-- The CHECK constraints of the ledger under its operations
-- (apps/canvas-api/src/request-log/request-log.service.ts).
use xg_canvas.Prelude.{
  string_eq, nat_eq, Bool-cases, is_none, any, every, Uuid, Timestamp, Json, Result, ok, err, ◌>>◌,
  bind-ok, ok-injective, String, ◌≡◌, refl, subst, ◌↔◌, inl, inr, Bool, true, false, not, ◌&&◌,
  Option, some, [], ◌∷◌, ◌++◌, arith,
}
use xg_canvas.RequestLog.{
  LogStatus, is_pending, RequestLog, Ledger, FinalizePatch, Services, finalize_set, accepted_id,
  update_log, is_open, finalize_pending, finalize_unknown_set, finalize_pending_without_external,
}
use xg_canvas.RequestLog.Record.{
  clashes, assert_record_shape, assert_safe_route, redacted, sanitize_record, inserted, insert_log,
  record_log, has_attempt_shape, has_finish_shape,
}
use xg_canvas.RequestLog.Pending.{UpdatePatch, pending_set, update_pending}

-- Both constraints hold.
abbrev pub is_shaped : RequestLog → Bool
is_shaped r = has_attempt_shape r && has_finish_shape r

-- The operations that write the ledger, with their arguments.
pub data LedgerOp : Type 0 where
  record_row : (Json → Option String) → RequestLog → LedgerOp
  update_row : Uuid → UpdatePatch → LedgerOp
  finalize_row finalize_unknown_row : Uuid → FinalizePatch → LedgerOp

-- A call that throws leaves the ledger.
abbrev pub or_same : Result Ledger → Ledger → Ledger
or_same (ok rs') rs = rs'
or_same (err e) rs = rs

unfoldable pub run_ledger : Services → Timestamp → LedgerOp → Ledger → Ledger
run_ledger sv now (record_row route_issue e) rs = or_same (record_log sv route_issue now e rs) rs
run_ledger sv now (update_row id patch) rs = (update_pending sv id patch rs).0
run_ledger sv now (finalize_row id patch) rs = (finalize_pending sv now id patch rs).0
run_ledger sv now (finalize_unknown_row id patch) rs =
    (finalize_pending_without_external sv now id patch rs).0

-- A patch of a finalization gives a final status.
abbrev pub is_final : LedgerOp → Bool
is_final (finalize_row id patch) = not (is_pending patch.status)
is_final (finalize_unknown_row id patch) = not (is_pending patch.status)
is_final _ = true

-- The assertion that a row passes before it is inserted accepts exactly the rows that the CHECK
-- constraint on physical attempts accepts.
pub assert_record_shape_iff :
    (e : RequestLog) → (assert_record_shape e ≡ ok tt) ↔ (has_attempt_shape e ≡ true)
unfolding assert_record_shape
assert_record_shape_iff e = (λ h. ground arith, λ h. ground arith)

-- A statement keeps a test of all rows that its assignment keeps where the condition holds.
update_log-every :
    (p cond : RequestLog → Bool) (set : RequestLog → RequestLog)
    → ((r : RequestLog) → cond r ≡ true → p r ≡ true → p (set r) ≡ true)
    → (rs : Ledger) → every p rs ≡ true
    → every p (update_log cond set rs).0 ≡ true
unfolding update_log
update_log-every p cond set h [] e = refl
update_log-every p cond set h (r ∷ rs) e = ground (arith, h r, update_log-every p cond set h rs)

every-append_one :
    (p : RequestLog → Bool) (r : RequestLog) (rs : Ledger)
    → every p rs ≡ true
    → p r ≡ true
    → every p (rs ++ (r ∷ [])) ≡ true
every-append_one p r [] h e = rw e refl
every-append_one p r (q ∷ rs) h e = ground (arith, every-append_one p r rs)

or_same-every :
    (p : RequestLog → Bool) (m : Result Ledger) (rs : Ledger)
    → every p rs ≡ true
    → ((rs' : Ledger) → m ≡ ok rs' → every p rs' ≡ true)
    → every p (or_same m rs) ≡ true
or_same-every p (ok rs') rs h f = f rs' refl
or_same-every p (err e) rs h f = h

insert_log-every :
    (p : RequestLog → Bool) (r : RequestLog) (rs rs' : Ledger)
    → every p rs ≡ true
    → p r ≡ true
    → insert_log r rs ≡ ok rs'
    → every p rs' ≡ true
insert_log-every p r rs rs' h e i = elim (Bool-cases (any (clashes r) rs)) [
  | inl b ↦ cc (rw b at i)
  | inr b ↦ subst (λ q. every p q ≡ true) (ok-injective (rw b at i)) (every-append_one p r rs h e)
]

-- What a sanitized row has passed, and that it is the given row with its secrets redacted.
sanitize_record-ok :
    (sv : Services) (route_issue : Json → Option String) (e safe : RequestLog)
    → sanitize_record sv route_issue e ≡ ok safe
    → (has_attempt_shape e ≡ true) × (redacted sv e ≡ safe)
unfolding sanitize_record
sanitize_record-ok sv route_issue e safe h =
    let (u, shape, rest) =
      bind-ok (assert_record_shape e)
        (λ _. assert_safe_route route_issue e.channel_route >> ok (redacted sv e)) safe h in
    let (v, route, last) =
      bind-ok (assert_safe_route route_issue e.channel_route) (λ _. ok (redacted sv e)) safe rest in
    ((assert_record_shape_iff e).0 shape, ok-injective last)

inserted-is_shaped :
    (sv : Services) (now : Timestamp) (e : RequestLog)
    → has_attempt_shape e ≡ true
    → is_shaped (inserted sv now (redacted sv e)) ≡ true
inserted-is_shaped sv now e h = rw h (ground arith)

record_log-every :
    (sv : Services) (now : Timestamp) (route_issue : Json → Option String) (e : RequestLog)
    (rs : Ledger)
    → every is_shaped rs ≡ true
    → every is_shaped (or_same (record_log sv route_issue now e rs) rs) ≡ true
unfolding record_log
record_log-every sv now route_issue e rs h =
    or_same-every is_shaped (record_log sv route_issue now e rs) rs h (λ rs' m.
      let (safe, s, i) =
        bind-ok (sanitize_record sv route_issue e) (λ safe. insert_log (inserted sv now safe) rs)
          rs' m in
      let (shape, same) = sanitize_record-ok sv route_issue e safe s in
      insert_log-every is_shaped (inserted sv now safe) rs rs' h
        (subst (λ q. is_shaped (inserted sv now q) ≡ true) same (inserted-is_shaped sv now e shape))
        i)

final_test : (s : LogStatus) → not (is_pending s) ≡ true → is_pending s ≡ false
final_test s h = ground arith

-- A final status and a time of finish keep the shape of a row.
final_shape :
    (now : Timestamp) (r : RequestLog) (s : LogStatus)
    → is_pending s ≡ false
    → is_shaped r ≡ true
    → is_shaped (record r { status = s; finished_at = some now }) ≡ true
final_shape now r s f h = ground arith

-- Every operation of the ledger, with a final status where it finalizes, keeps the two CHECK
-- constraints of the table: a row is pending exactly while it has no time of finish, and a row that
-- is pending or has an attempt number has a positive one and each field of a physical attempt.
pub run_ledger-is_shaped :
    (sv : Services) (now : Timestamp) (op : LedgerOp) (rs : Ledger)
    → is_final op ≡ true
    → every is_shaped rs ≡ true
    → every is_shaped (run_ledger sv now op rs) ≡ true
unfolding run_ledger update_pending finalize_pending finalize_pending_without_external
run_ledger-is_shaped sv now (record_row route_issue e) rs f h =
    record_log-every sv now route_issue e rs h
run_ledger-is_shaped sv now (update_row id patch) rs f h =
    update_log-every is_shaped (is_open id) (pending_set sv patch) (λ r c s. s) rs h
run_ledger-is_shaped sv now (finalize_row id patch) rs f h =
    update_log-every is_shaped (is_open id) (finalize_set sv now patch)
      (λ r c s. final_shape now r patch.status (final_test patch.status f) s) rs h
run_ledger-is_shaped sv now (finalize_unknown_row id patch) rs f h =
    update_log-every is_shaped (λ r. is_open id r && is_none (accepted_id r))
      (finalize_unknown_set sv now patch)
      (λ r c s. final_shape now r patch.status (final_test patch.status f) s) rs h
