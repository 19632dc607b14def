-- ===== src/Task/RetryPolicy/Bounds.antt =====
-- The delay that decideRetry answers.
use xg_canvas.Prelude.{
  zero, suc, nat_eq, string_eq, ℕ, zero, suc, ◌≤◌, ◌<◌, String, ◌≡◌, true, arith,
}
use xg_canvas.Task.RetryPolicy.{backoff, decide_retry}

backoff-bounds : (n : ℕ) → n < 3 → (2000 ≤ backoff n) × (backoff n ≤ 30000)
backoff-bounds zero h = omega arith
backoff-bounds (suc zero) h = omega arith
backoff-bounds (suc (suc zero)) h = omega arith
backoff-bounds (suc (suc (suc n))) h = omega arith

-- A retry waits for at least two and at most thirty seconds.
decide_retry_delay :
    (code : String) (n : ℕ)
    → (decide_retry code n).retry ≡ true
    → (2000 ≤ (decide_retry code n).delay_ms) × ((decide_retry code n).delay_ms ≤ 30000)
unfolding decide_retry
decide_retry_delay code n h = ground (arith, backoff-bounds n)
