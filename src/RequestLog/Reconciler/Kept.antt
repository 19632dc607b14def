-- ===== src/RequestLog/Reconciler/Kept.antt =====
-- What the finalizations of a pass leave alone, whatever happened to the ledger since its candidates
-- were read (apps/canvas-api/src/request-log/request-log-reconciler.service.ts).
use xg_canvas.Prelude.{
  string_eq, nat_eq, ◌==◌, Bool-cases, is_some, is_none, any, select, In, In-any, Uuid, Timestamp,
  String, ◌≡◌, refl, ◌∙◌, inl, inr, Bool, true, false, not, ◌&&◌, Option, none, some, List, [], ◌∷◌,
  arith,
}
use xg_canvas.RequestLog.{
  RequestLog, Ledger, Services, finalize_set, accepted_id, update_log, is_open, finalize_pending,
  finalize_unknown_set, finalize_pending_without_external,
}
use xg_canvas.Task.Status.{succeeded, status_eq}
use xg_canvas.RequestLog.Reconciler.{
  PendingCandidate, is_status, terminal_patch, is_guarded, finalize_candidate, finalize_candidates,
}

-- A physical attempt that its candidate does not show as the request of a succeeded task.
abbrev pub is_lost_attempt : PendingCandidate → Bool
is_lost_attempt c =
    c.source == "invoke"
    && is_some c.attempt_no
    && not (c.referenced_by_task && is_status c.task_status succeeded)

-- No candidate but a lost attempt has the row's id.
abbrev pub free : List PendingCandidate → RequestLog → Bool
free cs r = not (any (λ c. r.id == c.id && not (is_lost_attempt c)) cs)

-- The vendor accepted the row, and each candidate of its id is a lost attempt.
abbrev pub is_safe : List PendingCandidate → RequestLog → Bool
is_safe cs r = is_some (accepted_id r) && free cs r

is_guarded_of_lost : (c : PendingCandidate) → is_lost_attempt c ≡ true → is_guarded c ≡ true
unfolding terminal_patch
is_guarded_of_lost c h = ground arith

-- A statement that neither sets a row of a class nor makes one keeps the class, in order.
pub update_log-select :
    (cond : RequestLog → Bool) (set : RequestLog → RequestLog) (keep : RequestLog → Bool)
    → ((r : RequestLog) → cond r ≡ true → (keep r ≡ false) × (keep (set r) ≡ false))
    → (rs : Ledger) → select keep (update_log cond set rs).0 ≡ select keep rs
unfolding update_log
update_log-select cond set keep h [] = refl
update_log-select cond set keep h (r ∷ rs) =
    ground (arith, h r, update_log-select cond set keep h rs)

lost_unless : (c : PendingCandidate) → is_guarded c ≡ false → is_lost_attempt c ≡ false
lost_unless c g = elim (Bool-cases (is_lost_attempt c)) [
  | inl e ↦ cc (is_guarded_of_lost c e, g)
  | inr e ↦ e
]

hit_unsafe : (v : Option String) (b : Bool) → b ≡ true → (is_some v && not b) ≡ false
hit_unsafe v b h = ground arith

absent_unsafe :
    (v : Option String) (a b : Bool) → (a && is_none v) ≡ true → (is_some v && b) ≡ false
absent_unsafe none a b h = refl
absent_unsafe (some x) a b h = ground arith

open_id : (id : Uuid) (r : RequestLog) → is_open id r ≡ true → (r.id == id) ≡ true
open_id id r h = ground arith

module _ (sv : Services) (now : Timestamp) where
  unguarded-unsafe :
      (c : PendingCandidate) (all : List PendingCandidate)
      → In c all
      → is_guarded c ≡ false
      → (r : RequestLog) → (r.id == c.id) ≡ true
      → is_safe all r ≡ false
  unguarded-unsafe c all i g r e =
      hit_unsafe (accepted_id r) (any (λ d. r.id == d.id && not (is_lost_attempt d)) all) (
        In-any (λ d. r.id == d.id && not (is_lost_attempt d)) c all i
          (rw (e, lost_unless c g) refl))

  finalize_candidate-select :
      (c : PendingCandidate) (all : List PendingCandidate) (rs : Ledger)
      → In c all
      → select (is_safe all) (finalize_candidate sv now c rs).0 ≡ select (is_safe all) rs
  unfolding finalize_candidate finalize_pending finalize_pending_without_external
  finalize_candidate-select c all rs i = elim (Bool-cases (is_guarded c)) [
    | inl g ↦ rw g (
        update_log-select (λ r. is_open c.id r && is_none (accepted_id r))
          (finalize_unknown_set sv now (terminal_patch c)) (is_safe all)
          (λ r h. (
            absent_unsafe (accepted_id r) (is_open c.id r) (free all r) h,
            absent_unsafe (accepted_id r) (is_open c.id r) (free all r) h,
          ))
          rs)
    | inr g ↦ rw g (
        update_log-select (is_open c.id) (finalize_set sv now (terminal_patch c)) (is_safe all)
          (λ r h. (
            unguarded-unsafe c all i g r (open_id c.id r h),
            unguarded-unsafe c all i g (finalize_set sv now (terminal_patch c) r)
                (open_id c.id r h),
          ))
          rs)
  ]

  finalize_all-select :
      (cs all : List PendingCandidate) (rs : Ledger)
      → ((c : PendingCandidate) → In c cs → In c all)
      → select (is_safe all) (finalize_candidates sv now cs rs).0 ≡ select (is_safe all) rs
  unfolding finalize_candidates
  finalize_all-select [] all rs h = refl
  finalize_all-select (c ∷ cs) all rs h =
      finalize_all-select cs all (finalize_candidate sv now c rs).0 (λ d i. h d (inr i))
      ∙ finalize_candidate-select c all rs (h c (inl refl))

  -- The candidates of a pass may be older than the ledger they are applied to. Whatever both are,
  -- each row that the vendor accepted is kept as it is, in order, unless a candidate of its id is
  -- not an attempt of an invocation, or shows it as the request of a succeeded task.
  pub finalize_candidates-keeps :
      (cs : List PendingCandidate) (rs : Ledger)
      → select (is_safe cs) (finalize_candidates sv now cs rs).0 ≡ select (is_safe cs) rs
  finalize_candidates-keeps cs rs = finalize_all-select cs cs rs (λ c i. i)
