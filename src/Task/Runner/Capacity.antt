-- ===== src/Task/Runner/Capacity.antt =====
-- The runner's capacity over every sequence of its events.
use xg_canvas.Prelude.{
  string_eq, nat_eq, length, In, ℕ, ◌+◌, ◌≤◌, ◌<◌, ◌≡◌, refl, inl, inr, Bool, true, false, List, [],
  ◌∷◌, arith,
}
use xg_canvas.Task.Runner.{
  Runner, initial, begin_claim, remove_first, end_claim, abort_claim, finish_task,
}

-- What happens to the counters of one process: a round begins, also while others are at hand; the
-- claim of some round at hand returns at most as many rows as its LIMIT, or throws; a task's work
-- ends.
pub data Event : Runner → Runner → Type 0 where
  begins : {r : Runner} → Event r (begin_claim r).0
  claims :
      {r : Runner} (n claimed : ℕ) → In n r.asked → claimed ≤ n → Event r (end_claim n claimed r)
  aborts : {r : Runner} (n : ℕ) → In n r.asked → Event r (abort_claim n r)
  ends : {r : Runner} → 0 < r.in_flight → Event r (finish_task r)

pub data Runs (c : ℕ) : Runner → Type 0 where
  starts : Runs c (initial c)
  after : {r s : Runner} → Runs c r → Event r s → Runs c s

-- The slots that the rounds at hand may fill together.
abbrev pub asked_slots : List ℕ → ℕ
asked_slots [] = 0
asked_slots (n ∷ ns) = n + asked_slots ns

-- One round is at hand while `dispatching` is set, and none otherwise.
abbrev pub IsSingle : Bool → List ℕ → Type 0
IsSingle true ns = length ns ≡ 1
IsSingle false ns = length ns ≡ 0

abbrev pub IsWithin : ℕ → Runner → Type 0
IsWithin c r =
    (r.concurrency ≡ c) × (r.in_flight + asked_slots r.asked ≤ c) × IsSingle r.dispatching r.asked

no_round : (ns : List ℕ) → length ns ≡ 0 → asked_slots ns ≡ 0
no_round [] h = refl
no_round (n ∷ ns) h = absurd (omega (arith, h))

begin-IsWithin : (c : ℕ) (r : Runner) → IsWithin c r → IsWithin c (begin_claim r).0
unfolding begin_claim
begin-IsWithin c r h = ground (arith, no_round r.asked)

-- A round that ends was the only one.
only_round :
    (b : Bool) (ns : List ℕ) (n : ℕ)
    → IsSingle b ns
    → In n ns
    → (asked_slots ns ≡ n) × (remove_first n ns ≡ [])
only_round false [] n h i = elim i [ ]
only_round false (m ∷ ms) n h i = absurd (omega (arith, h))
only_round true [] n h i = elim i [ ]
only_round true (m ∷ []) n h (inl e) = ground (arith, e)
only_round true (m ∷ []) n h (inr i) = elim i [ ]
only_round true (m ∷ k ∷ ms) n h i = absurd (omega (arith, h))

Event-IsWithin : (c : ℕ) {r s : Runner} → Event r s → IsWithin c r → IsWithin c s
unfolding end_claim abort_claim finish_task
Event-IsWithin c {r} begins h = begin-IsWithin c r h
Event-IsWithin c {r} (claims n k i l) h =
    let (e, q) = only_round r.dispatching r.asked n h.2 i in ground (arith, e, q)
Event-IsWithin c {r} (aborts n i) h =
    let (e, q) = only_round r.dispatching r.asked n h.2 i in ground (arith, e, q)
Event-IsWithin c (ends l) h = ground arith

-- Whatever order rounds begin, end and throw in, and tasks end in between: the claims in flight and
-- the slots that all rounds at hand have asked for are together at most the configured concurrency,
-- and exactly one round is at hand while `dispatching` is set, and none otherwise.
pub Runs-IsWithin : (c : ℕ) {r : Runner} → Runs c r → IsWithin c r
Runs-IsWithin c starts = ground arith
Runs-IsWithin c (after run e) = Event-IsWithin c e (Runs-IsWithin c run)
