-- ===== src/RequestLog/Tests.antt =====
-- The theorems on the ledger at concrete rows.
use xg_canvas.RequestLog.Pending.{UpdatePatch, update_pending, update_pending-finalize_pending}
use xg_canvas.RequestLog.Record.{assert_record_shape, has_attempt_shape}
use xg_canvas.RequestLog.Record.Shaped.{
  is_shaped, finalize_row, run_ledger, assert_record_shape_iff, run_ledger-is_shaped,
}
use xg_canvas.Prelude.{
  string_eq, nat_eq, any, every, internal, ok, throw_error, ◌≡◌, refl, ◌↔◌, true, false, none, some,
  [], ◌∷◌,
}
use xg_canvas.RequestLog.{success, cancelled, patch_of, is_open, finalize_pending}
use xg_canvas.RequestLog.Finalize.{finalize_pending_once}
use xg_canvas.Task.Samples.{plain_services, open_log}

finalize_pending_once_example :
    let rs' =
      (finalize_pending plain_services 3000 500 (patch_of success none none) (open_log ∷ [])).0 in
    ((finalize_pending plain_services 4000 500 (patch_of cancelled none none) rs').0 ≡ rs')
    × ((finalize_pending plain_services 4000 500 (patch_of cancelled none none) rs').1 ≡ false)
finalize_pending_once_example =
    finalize_pending_once plain_services 3000 500 (patch_of success none none) refl plain_services
      4000 (patch_of cancelled none none) (open_log ∷ [])

abbrev submit_patch : UpdatePatch
submit_patch = record {
  usage = none;
  http_status = some 200;
  latency_ms = some 40;
  error_code = none;
  error_message = none;
  vendor_error = none;
  response_body = none;
}

update_pending-finalize_pending_example :
    let (rs', hit) = update_pending plain_services 500 submit_patch (open_log ∷ []) in
    (hit ≡ any (is_open 500) (open_log ∷ []))
    × ((finalize_pending plain_services 3000 500 (patch_of success none none) rs').1
        ≡ (finalize_pending plain_services 3000 500 (patch_of success none none) (open_log ∷ [])).1)
update_pending-finalize_pending_example =
    update_pending-finalize_pending plain_services 500 submit_patch 3000
      (patch_of success none none) 500 (open_log ∷ [])

-- Not a physical attempt, and pending.
pending_refused :
    assert_record_shape (record open_log { attempt_no = none })
    ≡ throw_error internal "PENDING" "pending request log must be a physical attempt"
unfolding assert_record_shape
pending_refused = refl

assert_record_shape_iff_example :
    (assert_record_shape (record open_log { credential_id = none }) ≡ ok tt)
    ↔ (has_attempt_shape (record open_log { credential_id = none }) ≡ true)
assert_record_shape_iff_example = assert_record_shape_iff (record open_log { credential_id = none })

run_ledger-is_shaped_example :
    every is_shaped (
      run_ledger plain_services 3000
        (finalize_row 500 (patch_of success none none))
        (open_log ∷ []))
    ≡ true
run_ledger-is_shaped_example =
    run_ledger-is_shaped plain_services 3000 (finalize_row 500 (patch_of success none none))
      (open_log ∷ []) refl refl
