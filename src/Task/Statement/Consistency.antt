-- ===== src/Task/Statement/Consistency.antt =====
-- The CHECK constraints of canvas.tasks and its primary key, under every statement.
use xg_canvas.Prelude.{
  nat_eq, string_eq, is_some, All, Pointwise, All-Pointwise, Timestamp, ◌≡◌, refl, sym, ◌∙◌, ◌≢◌,
  true, [], ◌∷◌, arith,
}
use xg_canvas.Task.Status.{status_eq, is_terminal}
use xg_canvas.Task.Row.{Task, Table, IsConsistent}
use xg_canvas.Task.Table.{Distinct}
use xg_canvas.Task.Terminal.{TerminalPatch}
use xg_canvas.Task.Statement.{Statement, claims, succeeds, fails, run, condition, assignment}
use xg_canvas.Task.Statement.Pointwise.{run-Pointwise}

-- The routing of a terminal patch is complete or absent.
abbrev pub IsRouted : TerminalPatch → Type 0
IsRouted p =
    (is_some p.channel_revision_id ≡ is_some p.channel_resource_uid)
    × (is_some p.channel_route ≡ is_some p.channel_resource_uid)
    × (is_some p.credential_id ≡ is_some p.channel_resource_uid)

abbrev pub HasRoutedPatch : Statement → Type 0
HasRoutedPatch (succeeds id token patch) = IsRouted patch
HasRoutedPatch (fails id token patch) = IsRouted patch
HasRoutedPatch _ = Unit

assignment-IsConsistent :
    (now : Timestamp) (s : Statement) (t : Task)
    → HasRoutedPatch s
    → condition now s t ≡ true
    → IsConsistent t
    → IsConsistent (assignment now s t)
unfolding is_terminal
assignment-IsConsistent now (claims locked fresh limit lease_ms) t p c v = ground arith
assignment-IsConsistent now _ t p c v = ground arith

-- Every statement keeps the five CHECK constraints in every row of a table with distinct ids, if
-- the routing in the patch of a terminal update is complete or absent.
pub run-IsConsistent :
    (now : Timestamp) (s : Statement) (ts : Table)
    → HasRoutedPatch s
    → Distinct ts
    → All IsConsistent ts
    → All IsConsistent (run now s ts)
run-IsConsistent now s ts p d h =
    All-Pointwise IsConsistent ts (run now s ts)
      (run-Pointwise (λ t u. IsConsistent t → IsConsistent u) (λ t v. v) now s ts d
        (λ t c. assignment-IsConsistent now s t p c))
      h

All-ids :
    (t u : Task) (ts us : Table)
    → u.id ≡ t.id
    → Pointwise (λ x y. y.id ≡ x.id) ts us
    → All (λ x. x.id ≢ t.id) ts
    → All (λ x. x.id ≢ u.id) us
All-ids t u [] [] e r h = tt
All-ids t u (x ∷ ts) (y ∷ us) e r h = (λ q. h.0 (sym r.0 ∙ q ∙ e), All-ids t u ts us e r.1 h.1)
All-ids t u [] (y ∷ us) e r h = elim r [ ]
All-ids t u (x ∷ ts) [] e r h = elim r [ ]

Distinct-Pointwise :
    (ts us : Table) → Pointwise (λ x y. y.id ≡ x.id) ts us → Distinct ts → Distinct us
Distinct-Pointwise [] [] r d = tt
Distinct-Pointwise (t ∷ ts) (u ∷ us) r d =
    (All-ids t u ts us r.0 r.1 d.0, Distinct-Pointwise ts us r.1 d.1)
Distinct-Pointwise [] (u ∷ us) r d = elim r [ ]
Distinct-Pointwise (t ∷ ts) [] r d = elim r [ ]

keeps-id : (now : Timestamp) (s : Statement) (t : Task) → (assignment now s t).id ≡ t.id
keeps-id now (claims locked fresh limit lease_ms) t = refl
keeps-id now _ t = refl

-- No statement changes a row's id, so the ids stay distinct.
pub run-Distinct :
    (now : Timestamp) (s : Statement) (ts : Table) → Distinct ts → Distinct (run now s ts)
run-Distinct now s ts d =
    Distinct-Pointwise ts (run now s ts)
      (run-Pointwise (λ t u. u.id ≡ t.id) (λ t. refl) now s ts d (λ t c. keeps-id now s t)) d
