-- ===== src/Task/Invoke/Failover.antt =====
-- When one request calls the vendor again (apps/canvas-api/src/account/invoke/invoke.service.ts).
use xg_canvas.Prelude.{
  if◌then◌else◌, string_eq, nat_eq, Bool-cases, length, take, length-take-le, ◌≤◌, String, ◌≡◌,
  refl, sym, subst, ◌⊎◌, inl, inr, Bool, true, false, not, ◌||◌, Option, none, some, List, [], ◌∷◌,
  arith,
}
use xg_canvas.Task.Failure.{DispatchOutcome, definitely_rejected, Thrown}
use xg_canvas.Task.Invoke.{
  invoked, AdapterError, AdapterReply, responded, rejected, Candidate, InvokeInput, Dispatch,
  max_failover, is_rejection, is_failoverable, is_last, after_error, after_reply, failover, invoke,
}

-- The vendor definitely rejected the candidate, with an error that another one may not meet.
abbrev pub IsRejected : AdapterReply → Type 0
IsRejected (responded r) = ⊥
IsRejected (rejected e) =
    (e.dispatch_outcome ≡ definitely_rejected)
    × (e.accepted_result ≡ false)
    × ((e.retryable ≡ true) ⊎ (e.code ≡ "CREDENTIAL_INVALID"))

-- Every candidate but the last one that was tried was rejected so.
abbrev pub IsOneDispatch : List Candidate → Type 0
IsOneDispatch [] = Unit
IsOneDispatch (c ∷ []) = Unit
IsOneDispatch (c ∷ d ∷ cs) = IsRejected c.reply × IsOneDispatch (d ∷ cs)

rejection : (o : DispatchOutcome) → is_rejection o ≡ true → o ≡ definitely_rejected
rejection o h = ground arith

continues :
    (c : Candidate) (cs : List Candidate)
    → IsRejected c.reply
    → IsOneDispatch cs
    → IsOneDispatch (c ∷ cs)
continues c [] r h = tt
continues c (d ∷ cs) r h = (r, h)

-- Of an answer that one test picks.
either_way :
    (b : Bool) (x y : Dispatch)
    → (b ≡ true → IsOneDispatch x.tried)
    → (b ≡ false → IsOneDispatch y.tried)
    → IsOneDispatch (if b then x else y).tried
either_way true x y f g = f refl
either_way false x y f g = g refl

may_continue :
    (e : AdapterError)
    → is_failoverable e ≡ true
    → (e.retryable ≡ true) ⊎ (e.code ≡ "CREDENTIAL_INVALID")
may_continue e h = elim (Bool-cases e.retryable) [
  | inl r ↦ inl r
  | inr r ↦ inr ((string_eq.beq_iff e.code "CREDENTIAL_INVALID").0 (ground arith))
]

goes_on : (a b : Bool) → (not a || b) ≡ false → a ≡ true
goes_on a b h = ground arith

kept : (a : Bool) → not a ≡ false → a ≡ true
kept a h = ground arith

module _ (c : Candidate) (e : AdapterError) (last : Bool) (later : Dispatch)
    (q : c.reply ≡ rejected e) (h : IsOneDispatch later.tried) where
  after_error-IsOneDispatch : IsOneDispatch (after_error c e last later).tried
  after_error-IsOneDispatch =
      either_way e.accepted_result _ _ (λ _. tt)
        λ a.
          either_way (not (is_rejection e.dispatch_outcome)) _ _ (λ _. tt)
            λ o.
              either_way (not c.is_logged) _ _ (λ _. tt)
                λ l.
                  either_way (not (is_failoverable e) || last) _ _ (λ _. tt)
                    λ f.
                      continues c later.tried
                        (subst IsRejected (sym q) (
                          rejection e.dispatch_outcome (kept (is_rejection e.dispatch_outcome) o),
                          a,
                          may_continue e (goes_on (is_failoverable e) last f),
                        ))
                        h

after_reply-IsOneDispatch :
    (c : Candidate) (r : AdapterReply) (last : Bool) (later : Dispatch)
    → c.reply ≡ r
    → IsOneDispatch later.tried
    → IsOneDispatch (after_reply c r last later).tried
after_reply-IsOneDispatch c (responded r) last later q h =
    either_way c.is_logged _ _ (λ _. tt) (λ _. tt)
after_reply-IsOneDispatch c (rejected e) last later q h =
    after_error-IsOneDispatch c e last later q h

pub failover-IsOneDispatch :
    (id : String) (cs : List Candidate) → IsOneDispatch (failover id cs).tried
unfolding failover
failover-IsOneDispatch id [] = tt
failover-IsOneDispatch id (c ∷ cs) =
    either_way c.has_begun _ _
      (λ _.
        after_reply-IsOneDispatch c c.reply (is_last cs) (failover id cs) refl
          (failover-IsOneDispatch id cs))
      (λ _. tt)

pub failover-tried : (id : String) (cs : List Candidate) → length (failover id cs).tried ≤ length cs
unfolding failover
failover-tried id [] = omega arith
failover-tried id (c ∷ cs) = ground (arith, failover-tried id cs)

invoked-IsOneDispatch :
    (i : InvokeInput) (p : Option Thrown)
    → (length (invoked i p).tried ≤ max_failover) × IsOneDispatch (invoked i p).tried
invoked-IsOneDispatch i (some e) = (omega arith, tt)
invoked-IsOneDispatch i none = (
  omega (
    arith,
    failover-tried i.preflight_id (take max_failover i.candidates),
    length-take-le max_failover i.candidates,
  ),
  failover-IsOneDispatch i.preflight_id (take max_failover i.candidates),
)

-- One request calls the vendor at most four times, and again only after a call that the vendor
-- definitely rejected, with an error that may be retried or a refused credential: at most one of
-- the calls can have started a job.
pub invoke-IsOneDispatch :
    (i : InvokeInput) → (length (invoke i).tried ≤ max_failover) × IsOneDispatch (invoke i).tried
unfolding invoke
invoke-IsOneDispatch i = invoked-IsOneDispatch i i.preflight
