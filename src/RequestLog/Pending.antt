-- ===== src/RequestLog/Pending.antt =====
-- `updatePending` of apps/canvas-api/src/request-log/request-log.service.ts: what the submission of an
-- asynchronous job adds to its pending row.
use xg_canvas.Prelude.{
  string_eq, nat_eq, coalesce, any, Uuid, Timestamp, Json, ℕ, String, ◌≡◌, refl, sym, ◌∙◌, Bool,
  Option, [], ◌∷◌, arith,
}
use xg_canvas.RequestLog.{
  Usage, ResponseBody, RequestLog, Ledger, FinalizePatch, Services, merge_usage, map_option,
  finalize_set, update_log, is_open, finalize_pending,
}
use xg_canvas.RequestLog.Finalize.{update_log_hit}

pub record UpdatePatch : Type 0 where
  pub usage : Option Usage
  pub http_status : Option ℕ
  pub latency_ms : Option ℕ
  pub error_code : Option String
  pub error_message : Option String
  pub vendor_error : Option Json
  pub response_body : Option ResponseBody

abbrev pub pending_set : Services → UpdatePatch → RequestLog → RequestLog
pending_set sv patch r = record r {
  usage = merge_usage r.usage patch.usage;
  http_status = coalesce patch.http_status r.http_status;
  latency_ms = coalesce patch.latency_ms r.latency_ms;
  error_code = coalesce patch.error_code r.error_code;
  error_message = map_option sv.redact_text (coalesce patch.error_message r.error_message);
  vendor_error = map_option sv.redact_json (coalesce patch.vendor_error r.vendor_error);
  response_body = map_option sv.redact_body (coalesce patch.response_body r.response_body);
}

unfoldable pub update_pending : Services → Uuid → UpdatePatch → Ledger → Ledger × Bool
unfolding update_log
update_pending sv id patch = update_log (is_open id) (pending_set sv patch)

open_stays :
    (sv : Services) (id : Uuid) (patch : UpdatePatch) (rs : Ledger) (other : Uuid)
    → any (is_open other) (update_log (is_open id) (pending_set sv patch) rs).0
      ≡ any (is_open other) rs
unfolding update_log
open_stays sv id patch [] other = refl
open_stays sv id patch (r ∷ rs) other = ground (arith, open_stays sv id patch rs other)

-- An update of a pending row answers whether a pending row of the id was there; it closes and opens
-- no row, of this id or another, so that the row is still finalized exactly when it would have been
-- without the update.
pub update_pending-finalize_pending :
    (sv : Services) (id : Uuid) (patch : UpdatePatch) (now : Timestamp) (last : FinalizePatch)
    (other : Uuid) (rs : Ledger)
    → let (rs', hit) = update_pending sv id patch rs in
      (hit ≡ any (is_open id) rs)
      × ((finalize_pending sv now other last rs').1 ≡ (finalize_pending sv now other last rs).1)
unfolding update_pending finalize_pending
update_pending-finalize_pending sv id patch now last other rs = (
  update_log_hit (is_open id) (pending_set sv patch) rs,
  update_log_hit (is_open other) (finalize_set sv now last)
        (update_log (is_open id) (pending_set sv patch) rs).0
      ∙ open_stays sv id patch rs other
      ∙ sym (update_log_hit (is_open other) (finalize_set sv now last) rs),
)
