-- ===== src/RequestLog/Reconciler/Settled.antt =====
-- What a pass of the ledger's reconciler leaves behind
-- (apps/canvas-api/src/request-log/request-log-reconciler.service.ts).
use xg_canvas.Prelude.{
  leb, string_eq, nat_eq, ◌==◌, Bool-cases, is_some, is_none, length, any, select, In, In-select_of,
  take_all, any-In, Timestamp, sort_by, In-sort_by_of, length-sort_by, ℕ, ◌≤◌, String, ◌≡◌, refl,
  sym, ap, ◌∙◌, ◌⊎◌, inl, inr, Bool, true, false, ◌&&◌, Option, none, some, List, [], ◌∷◌, map,
  arith,
}
use xg_canvas.RequestLog.{
  is_pending, RequestLog, Ledger, Services, finalize_set, accepted_id, update_log, is_open,
  finalize_pending, finalize_unknown_set, finalize_pending_without_external,
}
use xg_canvas.Task.Row.{Table}
use xg_canvas.RequestLog.Reconciler.{
  PendingCandidate, is_accepted_attempt, is_stale, candidate_of, clamp_limit, candidates,
  terminal_patch, is_guarded, finalize_candidate, finalize_candidates, reconcile_once,
}

-- A row after a statement is one that the statement passed over, or one that it set.
update_log-In :
    (cond : RequestLog → Bool) (set : RequestLog → RequestLog) (r : RequestLog) (rs : Ledger)
    → In r (update_log cond set rs).0
    → (In r rs × (cond r ≡ false)) ⊎ ((q : RequestLog) × (r ≡ set q))
unfolding update_log
update_log-In cond set r [] i = elim i [ ]
update_log-In cond set r (x ∷ rs) i = elim (Bool-cases (cond x)) [
  | inl e ↦ elim (rw e at i) [
    | inl q ↦ inr (x, q)
    | inr j ↦ elim (update_log-In cond set r rs j) [ inl k ↦ inl (inr k.0, k.1) | inr k ↦ inr k ]
  ]
  | inr e ↦ elim (rw e at i) [
    | inl q ↦ inl (inl q, ap cond q ∙ e)
    | inr j ↦ elim (update_log-In cond set r rs j) [ inl k ↦ inl (inr k.0, k.1) | inr k ↦ inr k ]
  ]
]

terminal_patch-final : (c : PendingCandidate) → is_pending (terminal_patch c).status ≡ false
unfolding terminal_patch
terminal_patch-final c = ground arith

none_of_In :
    (p : RequestLog → Bool) (rs : Ledger)
    → ((r : RequestLog) → In r rs → p r ≡ true → ⊥)
    → any p rs ≡ false
none_of_In p rs h = elim (Bool-cases (any p rs)) [
  | inl e ↦ let (r, i, t) = any-In p rs e in absurd (h r i t)
  | inr e ↦ e
]

guarded-is_attempt :
    (c : PendingCandidate)
    → is_guarded c ≡ true
    → (c.source == "invoke" ≡ true) × (is_some c.attempt_no ≡ true)
guarded-is_attempt c h = ground arith

absent :
    (a b : Bool) (v : Option String)
    → (a ≡ true) × (b ≡ true)
    → (a && b && is_some v) ≡ false
    → is_none v ≡ true
absent a b none h e = refl
absent a b (some x) h e = ground arith

module _ (sv : Services) (now : Timestamp) (task_grace detached_grace : ℕ) (ts : Table) where
  abbrev stale : RequestLog → Bool
  stale = is_stale now task_grace detached_grace ts

  -- Every stale row of the ledger still has its candidate ahead.
  abbrev Covers : List PendingCandidate → Ledger → Type 0
  Covers cs rs = (r : RequestLog) → In r rs → stale r ≡ true → In (candidate_of ts r) cs

  -- A stale row is open, and free of a vendor job where the finalizer asks for that.
  stale-is_open : (r : RequestLog) → stale r ≡ true → is_open r.id r ≡ true
  stale-is_open r h = ground arith

  stale-is_free : (r : RequestLog) → stale r ≡ true → is_accepted_attempt r ≡ false
  stale-is_free r h = ground arith

  stale-is_unaccepted :
      (r : RequestLog)
      → stale r ≡ true
      → is_guarded (candidate_of ts r) ≡ true
      → is_none (accepted_id r) ≡ true
  stale-is_unaccepted r h g =
      absent (r.source == "invoke") (is_some r.attempt_no) (accepted_id r)
        (guarded-is_attempt (candidate_of ts r) g) (stale-is_free r h)

  -- A statement that passes over no stale row of the first candidate, and closes what it sets.
  step-Covers :
      (cond : RequestLog → Bool) (set : RequestLog → RequestLog) (c : PendingCandidate)
      (cs : List PendingCandidate) (rs : Ledger)
      → ((r : RequestLog) → stale r ≡ true → candidate_of ts r ≡ c → cond r ≡ true)
      → ((q : RequestLog) → is_pending (set q).status ≡ false)
      → Covers (c ∷ cs) rs
      → Covers cs (update_log cond set rs).0
  step-Covers cond set c cs rs meets closes h r i s = elim (update_log-In cond set r rs i) [
    | inl (j, off) ↦ elim (h r j s) [ inl e ↦ cc (meets r s e, off) | inr k ↦ k ]
    | inr (q, e) ↦ ground (arith, closes q, e, s)
  ]

  meets_open :
      (c : PendingCandidate) (r : RequestLog)
      → stale r ≡ true
      → candidate_of ts r ≡ c
      → is_open c.id r ≡ true
  meets_open c r s e = rw (sym e) (stale-is_open r s)

  meets_guarded :
      (c : PendingCandidate) (r : RequestLog)
      → stale r ≡ true
      → candidate_of ts r ≡ c
      → is_guarded c ≡ true
      → (is_open c.id r && is_none (accepted_id r)) ≡ true
  meets_guarded c r s e g =
      rw (meets_open c r s e, stale-is_unaccepted r s (ap is_guarded e ∙ g)) refl

  finalize_candidate-Covers :
      (c : PendingCandidate) (cs : List PendingCandidate) (rs : Ledger)
      → Covers (c ∷ cs) rs
      → Covers cs (finalize_candidate sv now c rs).0
  unfolding finalize_candidate finalize_pending finalize_pending_without_external
  finalize_candidate-Covers c cs rs h = elim (Bool-cases (is_guarded c)) [
    | inl g ↦ rw g (
        step-Covers (λ r. is_open c.id r && is_none (accepted_id r))
          (finalize_unknown_set sv now (terminal_patch c)) c cs rs
          (λ r s e. meets_guarded c r s e g) (λ q. terminal_patch-final c) h)
    | inr g ↦ rw g (
        step-Covers (is_open c.id) (finalize_set sv now (terminal_patch c)) c cs rs (meets_open c)
          (λ q. terminal_patch-final c) h)
  ]

  finalize_candidates-clears :
      (cs : List PendingCandidate) (rs : Ledger)
      → Covers cs rs
      → any stale (finalize_candidates sv now cs rs).0 ≡ false
  unfolding finalize_candidates
  finalize_candidates-clears [] rs h = none_of_In stale rs (λ r i s. elim (h r i s) [ ])
  finalize_candidates-clears (c ∷ cs) rs h =
      finalize_candidates-clears cs (finalize_candidate sv now c rs).0
        (finalize_candidate-Covers c cs rs h)

  abbrev older : RequestLog → RequestLog → Bool
  older a b = leb a.created_at b.created_at

  In-map_of :
      (r : RequestLog) (rs : Ledger) → In r rs → In (candidate_of ts r) (map (candidate_of ts) rs)
  In-map_of r [] i = elim i [ ]
  In-map_of r (x ∷ rs) (inl e) = inl (ap (candidate_of ts) e)
  In-map_of r (x ∷ rs) (inr i) = inr (In-map_of r rs i)

  -- With room for all of them, the candidates cover the ledger they were read from.
  candidates-Covers :
      (limit : ℕ) (rs : Ledger)
      → length (select stale rs) ≤ clamp_limit limit
      → Covers (candidates now task_grace detached_grace limit ts rs) rs
  unfolding candidates
  candidates-Covers limit rs h r i s =
      rw
        (take_all (clamp_limit limit) (sort_by older (select stale rs))
          (omega (arith, length-sort_by older (select stale rs), h)))
        (In-map_of r (sort_by older (select stale rs))
          (In-sort_by_of older r (select stale rs) (In-select_of stale r rs i s)))

  -- A pass settles the ledger: where the stale rows fit the limit (of at least one row and at most
  -- a thousand), none is left that the query of the next pass, at the same moment, would find.
  pub reconcile_once-settles :
      (limit : ℕ) (rs : Ledger)
      → length (select (is_stale now task_grace detached_grace ts) rs) ≤ clamp_limit limit
      → any
          (is_stale now task_grace detached_grace ts)
          (reconcile_once sv now task_grace detached_grace limit ts rs).0
        ≡ false
  unfolding reconcile_once
  reconcile_once-settles limit rs h =
      finalize_candidates-clears (candidates now task_grace detached_grace limit ts rs) rs
        (candidates-Covers limit rs h)
