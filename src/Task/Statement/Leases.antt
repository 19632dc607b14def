-- ===== src/Task/Statement/Leases.antt =====
-- Leases: what a worker with a token that is no longer on the row can do (nothing), and what a claim
-- gives.
use xg_canvas.Prelude.{
  nat_eq, string_eq, All, Pointwise, Pointwise-All, Uuid, Timestamp, ◌≡◌, refl, ◌⊎◌, inl, inr, true,
  Option, none, some, arith,
}
use xg_canvas.Task.Status.{status_eq}
use xg_canvas.Task.Row.{Task, Table, is_lease_free, is_in_flight}
use xg_canvas.Task.Table.{Distinct}
use xg_canvas.Task.Statement.{
  Statement, claims, starts, renews, prepares, saves, defers, releases, reschedules, repolls,
  succeeds, fails, run, condition, assignment,
}
use xg_canvas.Task.Statement.WellFormed.{IsWellFormed}
use xg_canvas.Task.Statement.Pointwise.{run-Pointwise}

-- The token under which a worker sends the statement.
abbrev pub token_of : Statement → Option Uuid
token_of (starts id token lease_ms) = some token
token_of (renews id token lease_ms) = some token
token_of (prepares id token logical) = some token
token_of (saves id token patch) = some token
token_of (defers id token at) = some token
token_of (releases id token patch) = some token
token_of (reschedules id token code message at) = some token
token_of (repolls id token code message at) = some token
token_of (succeeds id token patch) = some token
token_of (fails id token patch) = some token
token_of _ = none

guarded :
    (now : Timestamp) (s : Statement) (token : Uuid) (t : Task)
    → token_of s ≡ some token
    → condition now s t ≡ true
    → (t.lease_token ≡ some token) × (is_in_flight t.status ≡ true)
guarded now (claims locked fresh limit lease_ms) token t e c = cc
guarded now _ token t e c = ground arith

-- A statement under a token sets only rows that are leased under this token and in flight; every
-- other row it leaves as it is.
pub run_needs_lease :
    (now : Timestamp) (s : Statement) (token : Uuid) (ts : Table)
    → token_of s ≡ some token
    → Distinct ts
    → Pointwise
        (λ t u. (u ≡ t) ⊎ ((t.lease_token ≡ some token) × (is_in_flight t.status ≡ true)))
        ts
        (run now s ts)
run_needs_lease now s token ts e d =
    run-Pointwise (λ t u. (u ≡ t) ⊎ ((t.lease_token ≡ some token) × (is_in_flight t.status ≡ true)))
      (λ t. inl refl) now s ts d (λ t c. inr (guarded now s token t e c))

-- The token of a row stays, is dropped, or was free to be replaced.
abbrev pub KeepsLease : Timestamp → Task → Task → Type 0
KeepsLease now t u =
    (u.lease_token ≡ t.lease_token) ⊎ (u.lease_token ≡ none) ⊎ (is_lease_free t now ≡ true)

assignment-KeepsLease :
    (now : Timestamp) (s : Statement) (t : Task)
    → condition now s t ≡ true
    → IsWellFormed t
    → KeepsLease now t (assignment now s t)
assignment-KeepsLease now (claims locked fresh limit lease_ms) t c v = ground arith
assignment-KeepsLease now _ t c v = ground arith

-- In a table of well-formed rows a lease is never taken over while it runs: a statement puts a
-- new token on a row only if the row has none or the time of its lease is past.
pub run-KeepsLease :
    (now : Timestamp) (s : Statement) (ts : Table)
    → Distinct ts
    → All IsWellFormed ts
    → Pointwise (KeepsLease now) ts (run now s ts)
run-KeepsLease now s ts d v =
    Pointwise-All IsWellFormed (KeepsLease now) ts (run now s ts)
      (run-Pointwise (λ t u. IsWellFormed t → KeepsLease now t u) (λ t h. inl refl) now s ts d
        (assignment-KeepsLease now s))
      v
