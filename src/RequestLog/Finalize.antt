-- ===== src/RequestLog/Finalize.antt =====
-- A pending row of the ledger is finalized once, and no other row is touched
-- (apps/canvas-api/src/request-log/request-log.service.ts).
use xg_canvas.Prelude.{
  ◌≡◌, refl, Bool, true, false, not, [], ◌∷◌, arith, ◌==◌, nat_eq, Uuid, Timestamp, any, select,
}
use xg_canvas.RequestLog.{
  RequestLog, Ledger, FinalizePatch, Services, is_pending, is_open, finalize_set, update_log,
  finalize_pending,
}

module _ (cond : RequestLog → Bool) (set : RequestLog → RequestLog) where
  -- No row meets the condition after an assignment that falsifies it.
  update_log_clears :
      ((r : RequestLog) → cond (set r) ≡ false)
      → (rs : Ledger) → any cond (update_log cond set rs).0 ≡ false
  unfolding update_log
  update_log_clears off [] = refl
  update_log_clears off (r ∷ rs) = ground (arith, off r, update_log_clears off rs)

  -- It reports a hit exactly if some row met the condition.
  pub update_log_hit : (rs : Ledger) → (update_log cond set rs).1 ≡ any cond rs
  unfolding update_log
  update_log_hit [] = refl
  update_log_hit (r ∷ rs) = ground (arith, update_log_hit rs)

  -- Without such a row the ledger stays as it is.
  update_log_misses : (rs : Ledger) → any cond rs ≡ false → (update_log cond set rs).0 ≡ rs
  unfolding update_log
  update_log_misses [] h = refl
  update_log_misses (r ∷ rs) h = ground (arith, update_log_misses rs)

  -- The rows outside a class are kept, in order, if those that are set are inside and stay there.
  update_log_keeps :
      (inside : RequestLog → Bool)
      → ((r : RequestLog) → cond r ≡ true → inside r ≡ true)
      → ((r : RequestLog) → inside (set r) ≡ inside r)
      → (rs : Ledger)
      → select (λ r. not (inside r)) (update_log cond set rs).0 ≡ select (λ r. not (inside r)) rs
  unfolding update_log
  update_log_keeps inside only same [] = refl
  update_log_keeps inside only same (r ∷ rs) =
      ground (arith, only r, same r, update_log_keeps inside only same rs)

module _ (sv : Services) (now : Timestamp) (id : Uuid) (patch : FinalizePatch)
    (final : is_pending patch.status ≡ false) where
  closes : (r : RequestLog) → is_open id (finalize_set sv now patch r) ≡ false
  closes r = ground (arith, final)

  -- Finalizing reports whether a pending row of the id was there, leaves no such row, and keeps
  -- every row of another id.
  pub finalize_pending_effect :
      (rs : Ledger)
      → let (rs', hit) = finalize_pending sv now id patch rs in
        (hit ≡ any (is_open id) rs)
        × (any (is_open id) rs' ≡ false)
        × (select (λ r. not (r.id == id)) rs' ≡ select (λ r. not (r.id == id)) rs)
  unfolding finalize_pending
  finalize_pending_effect rs = (
    update_log_hit (is_open id) (finalize_set sv now patch) rs,
    update_log_clears (is_open id) (finalize_set sv now patch) closes rs,
    update_log_keeps (is_open id) (finalize_set sv now patch) (λ r. r.id == id)
        (λ r h. ground arith) (λ r. refl) rs,
  )

  -- A second finalization of the same id, whatever its patch, does nothing and says so.
  pub finalize_pending_once :
      (again : Services) (later : Timestamp) (other : FinalizePatch) (rs : Ledger)
      → let rs' = (finalize_pending sv now id patch rs).0 in
        ((finalize_pending again later id other rs').0 ≡ rs')
        × ((finalize_pending again later id other rs').1 ≡ false)
  unfolding finalize_pending
  finalize_pending_once again later other rs = ground (
    arith,
    update_log_clears (is_open id) (finalize_set sv now patch) closes rs,
    update_log_misses (is_open id) (finalize_set again later other)
        (finalize_pending sv now id patch rs).0,
    update_log_hit (is_open id) (finalize_set again later other)
        (finalize_pending sv now id patch rs).0,
  )
