-- ===== src/Task/Status.antt =====
-- The task state machine (apps/canvas-api/src/task/state-machine.ts).
use xg_canvas.Prelude.{◌≡◌, ◌↔◌, Bool, true, false, List, [], ◌∷◌, arith, Eq, ◌==◌, any}

pub data Status : Type 0 where
  pending queued running succeeded failed cancelled : Status

abbrev pub same_status : Status → Status → Bool
same_status pending pending = true
same_status queued queued = true
same_status running running = true
same_status succeeded succeeded = true
same_status failed failed = true
same_status cancelled cancelled = true
same_status _ _ = false

pub same_status_iff : (a b : Status) → (same_status a b ≡ true) ↔ (a ≡ b)
same_status_iff a b = ground arith

instance abbrev pub status_eq : Eq Status
status_eq = record { beq = same_status; beq_iff = same_status_iff }

-- The table `ALLOWED`.
unfoldable pub allowed : Status → List Status
allowed pending = queued ∷ cancelled ∷ []
allowed queued = running ∷ cancelled ∷ failed ∷ []
allowed running = succeeded ∷ failed ∷ cancelled ∷ queued ∷ []
allowed succeeded = []
allowed failed = queued ∷ []
allowed cancelled = queued ∷ []

unfoldable pub can_transition : Status → Status → Bool
unfolding allowed
can_transition from to = any (λ s. s == to) (allowed from)

unfoldable pub is_terminal : Status → Bool
is_terminal s = any (λ t. t == s) (succeeded ∷ failed ∷ cancelled ∷ [])
