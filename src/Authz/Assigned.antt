-- ===== src/Authz/Assigned.antt =====
-- A member holds exactly one role in a project (assignProjectRole of
-- apps/canvas-api/src/authz/role-binding.service.ts).
use xg_canvas.Task.World.{Project}
use xg_canvas.Prelude.{
  string_eq, nat_eq, ◌==◌, Bool-cases, any, select, find?, Uuid, bad_request, not_found, ok,
  require_some-ok, require-ok, ok-injective, String, ◌≡◌, refl, sym, ap, inl, inr, Bool, true, not,
  ◌&&◌, some, List, [], ◌∷◌, ◌++◌, arith,
}
use xg_canvas.Authz.Types.{project, scope_beq, Role, Binding, Membership, AuthzState}
use xg_canvas.Authz.Resolve.{invalidate}
use mathlib.Core.List.{append-nil}
use xg_canvas.Task.World.{Project}
use xg_canvas.Authz.Bindings.{
  add_member, find_role, is_project_binding, project_binding, assign_transaction,
  assign_project_role,
}

select-append :
    (p : Binding → Bool) (xs ys : List Binding) → select p (xs ++ ys) ≡ select p xs ++ select p ys
select-append p [] ys = refl
select-append p (x ∷ xs) ys = ground (arith, select-append p xs ys)

select_dropped :
    (p : Binding → Bool) (xs : List Binding) → select p (select (λ x. not (p x)) xs) ≡ []
select_dropped p [] = refl
select_dropped p (x ∷ xs) = ground (arith, select_dropped p xs)

select_rest_twice :
    (p : Binding → Bool) (xs : List Binding)
    → select (λ x. not (p x)) (select (λ x. not (p x)) xs) ≡ select (λ x. not (p x)) xs
select_rest_twice p [] = refl
select_rest_twice p (x ∷ xs) = ground (arith, select_rest_twice p xs)

-- The bindings of the user in the project are replaced by one, and no other is touched.
replaced :
    (p : Binding → Bool) (b : Binding) (bs : List Binding)
    → p b ≡ true
    → (select p (select (λ x. not (p x)) bs ++ b ∷ []) ≡ b ∷ [])
      × (select (λ x. not (p x)) (select (λ x. not (p x)) bs ++ b ∷ [])
          ≡ select (λ x. not (p x)) bs)
replaced p b bs h = (
  rw (select-append p (select (λ x. not (p x)) bs) (b ∷ []), select_dropped p bs, h) refl,
  rw
      (
        select-append (λ x. not (p x)) (select (λ x. not (p x)) bs) (b ∷ []),
        select_rest_twice p bs,
        h,
      )
      (append-nil (select (λ x. not (p x)) bs)),
)

added_member :
    (workspace user : Uuid) (ms : List Membership)
    → any (λ m. m.workspace_id == workspace && m.user_id == user) (add_member workspace user ms)
      ≡ true
added_member workspace user ms =
    elim (Bool-cases (any (λ m. m.workspace_id == workspace && m.user_id == user) ms)) [
      | inl e ↦ rw e e
      | inr e ↦ rw e (last ms)
    ]
  where
    last :
        (ms : List Membership)
        → any
            (λ m. m.workspace_id == workspace && m.user_id == user)
            (ms ++ record { workspace_id = workspace; user_id = user; role = "member" } ∷ [])
          ≡ true
    last [] = ground arith
    last (m ∷ ms) = ground (arith, last ms)

-- After an accepted assignment the user's bindings in the project are the one to the role of that
-- key, which is a project role; every other binding is as it was, and the user is a member of the
-- project's workspace.
pub assign_project_role-replaced :
    (project_id user : Uuid) (role_key : String) (by : Uuid) (s t : AuthzState)
    → assign_project_role project_id user role_key by s ≡ ok t
    → (role : Role) × (proj : Project) × (find_role role_key s.roles ≡ some role)
      × (scope_beq role.scope_kind project ≡ true)
      × (find? (λ p. p.id == project_id) s.projects ≡ some proj)
      × (select (is_project_binding user project_id) t.bindings
          ≡ project_binding user role.id project_id (some by) ∷ [])
      × (select (λ b. not (is_project_binding user project_id b)) t.bindings
          ≡ select (λ b. not (is_project_binding user project_id b)) s.bindings)
      × (any (λ m. m.workspace_id == proj.workspace_id && m.user_id == user) t.workspace_members
          ≡ true)
unfolding assign_project_role assign_transaction invalidate
assign_project_role-replaced project_id user role_key by s t e =
    let (role, found, e1) =
      require_some-ok (find_role role_key s.roles) bad_request "BAD_ROLE" "不是有效的项目角色" _ t e in
    let (scope, e2) =
      require-ok (scope_beq role.scope_kind project) bad_request "BAD_ROLE" "不是有效的项目角色" _ t e1 in
    let (proj, has, e3) =
      require_some-ok (find? (λ p. p.id == project_id) s.projects) not_found "NOT_FOUND" "项目不存在" _ t
        e2 in
    let new = project_binding user role.id project_id (some by) in
    let (one, rest) = replaced (is_project_binding user project_id) new s.bindings (ground arith) in
    let bindings = ap (λ (u : AuthzState). u.bindings) (ok-injective e3) in
    let members = ap (λ (u : AuthzState). u.workspace_members) (ok-injective e3) in
    (
      role,
      proj,
      found,
      scope,
      has,
      rw (sym bindings) one,
      rw (sym bindings) rest,
      rw (sym members) (added_member proj.workspace_id user s.workspace_members),
    )
