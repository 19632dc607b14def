-- ===== src/Task/Runner.antt =====
-- The claim rounds of the task runner (apps/canvas-api/src/task/task-runner.service.ts). A round
-- reads the free slots, asks the database, and adds what it got; other events of the process, other
-- rounds among them, come between.
pub mod Capacity
use xg_canvas.Prelude.{
  ltb, leb, nat_beq, nat_beq_iff, Eq, if◌then◌else◌, string_eq, nat_eq, ◌==◌, leb→le, Bool-cases,
  is_some, is_none, coalesce, get_or, Option-cases, length, take, head?, any, every, select, find?,
  find?-holds, All, length-append, length-take-le, In, Pointwise, In-take, In-select, In-select_of,
  take_all, any-In, find?-In, All-Pointwise, Pointwise-All, All-In, All-of_In, All-map, In-any,
  All-select, any-select, none-select, Uuid, Timestamp, Json, text_append, ErrorKind, bad_request,
  forbidden, not_found, conflict, internal, ApiError, Result, ok, err, throw_error, ◌>>=◌, ◌>>◌,
  require, require_some, require_some-ok, require-ok, bind-ok, ok-injective, require_test,
  DistinctBy, eq_of_key, sort_by, In-sort_by, In-sort_by_of, length-sort_by, ℕ, zero, suc, ◌+◌, ◌-◌,
  ◌*◌, ◌/◌, ◌%◌, ◌^◌, ◌≤◌, ◌<◌, min, max, String, slice, len, ◌≡◌, refl, sym, ap, ◌∙◌, subst,
  fun_ext, ◌≢◌, ◌↔◌, ◌⊎◌, inl, inr, Bool, true, false, not, ◌&&◌, ◌||◌, Option, none, some, List,
  [], ◌∷◌, ◌++◌, map, eq_iff, arith, starts_with,
}

pub record Runner : Type 0 where
  pub concurrency : ℕ
  pub in_flight : ℕ
  pub dispatching : Bool
  -- the free slots that each round at hand read before it asked the database, newest first
  pub asked : List ℕ

abbrev pub initial : ℕ → Runner
initial concurrency = record {
  concurrency = concurrency;
  in_flight = 0;
  dispatching = false;
  asked = [];
}

-- `claimWithinCapacity` up to its `await`: the number that the claim asks for, if it asks.
unfoldable pub begin_claim : Runner → Runner × Option ℕ
begin_claim r =
    if r.dispatching then (r, none) else if leb r.concurrency r.in_flight then (r, none) else (
      record r { dispatching = true; asked = (r.concurrency - r.in_flight) ∷ r.asked },
      some (r.concurrency - r.in_flight),
    )

abbrev pub remove_first : ℕ → List ℕ → List ℕ
remove_first n [] = []
remove_first n (m ∷ ms) = let rest = remove_first n ms in if m == n then ms else m ∷ rest

-- After the `await` of a round that asked for `n` slots: the claimed tasks are counted, and the
-- `finally` ends the round.
unfoldable pub end_claim : ℕ → ℕ → Runner → Runner
end_claim n claimed r = record r {
  in_flight = r.in_flight + claimed;
  dispatching = false;
  asked = remove_first n r.asked;
}

-- The claim of such a round threw.
unfoldable pub abort_claim : ℕ → Runner → Runner
abort_claim n r = record r { dispatching = false; asked = remove_first n r.asked }

-- The `finally` of a task's work.
unfoldable pub finish_task : Runner → Runner
finish_task r = record r { in_flight = r.in_flight - 1 }

-- The heartbeat's period in milliseconds.
unfoldable pub heartbeat_ms : ℕ → ℕ
heartbeat_ms lease_ms = max 5000 (min 10000 (lease_ms / 3))
