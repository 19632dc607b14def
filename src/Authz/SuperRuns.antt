-- ===== src/Authz/SuperRuns.antt =====
-- There is always an active super administrator, whatever operations of authorization come.
use xg_canvas.Prelude.{
  string_eq, nat_eq, ◌==◌, Bool-cases, Option-cases, any, select, find?, any-In, In-any, Uuid,
  bad_request, not_found, require, require_some, String, ◌≡◌, refl, inl, inr, Bool, true, not, ◌&&◌,
  Option, some, List, [], ◌∷◌, eq_iff, arith,
}
use xg_canvas.Authz.Types.{
  Scope, system, project, scope_beq, uuid_beq, Role, Binding, caps_key, AuthzState,
}
use xg_canvas.Authz.Catalog.{RoleDef, super_admin, builtin_roles}
use xg_canvas.Authz.Resolve.{
  has_role_key, is_super_or_owner, cached, resolve_capabilities, invalidate, invalidate_all,
  holders, invalidate_by_role_id,
}
use xg_canvas.Authz.Bindings.{
  find_role, is_project_binding, project_binding, assign_transaction, assign_project_role,
  remove_project_member,
}
use xg_canvas.Authz.Bootstrap.{upsert_role, seed_role, seed_roles, seed_builtin_roles}
use xg_canvas.Authz.Coherent.{settled, settled_bind}
use xg_canvas.Authz.Runs.{
  AuthzOp, assigns, removes, sets, resolves, seeds, expires, run_op, run_ops,
}
use xg_canvas.Authz.Supers.{is_active_super, HasSuper, any-append, kept_any, set-HasSuper}

pub any_mono :
    (p q : Binding → Bool) (bs : List Binding)
    → ((b : Binding) → p b ≡ true → q b ≡ true)
    → any p bs ≡ true
    → any q bs ≡ true
any_mono p q bs f h = let (b, i, e) = any-In p bs h in In-any q b bs i (f b e)

system_stays :
    (k : Scope) (mine here : Bool)
    → scope_beq k system ≡ true
    → not (mine && (scope_beq k project && here)) ≡ true
system_stays system mine here e = ground arith
system_stays project mine here e = cc

project_bindings_go :
    (project_id user : Uuid) (s : AuthzState)
    → HasSuper s
    → any (is_active_super s) (select (λ b. not (is_project_binding user project_id b)) s.bindings)
      ≡ true
project_bindings_go project_id user s h =
    let (b, i, e) = any-In (is_active_super s) s.bindings h in
    kept_any (is_active_super s) (λ c. not (is_project_binding user project_id c)) b s.bindings i e
      (system_stays b.scope_kind (b.user_id == user) (uuid_beq b.scope_id (some project_id))
        (ground arith))

assign-HasSuper :
    (project_id user : Uuid) (role_key : String) (by : Uuid) (s : AuthzState)
    → HasSuper s
    → HasSuper (settled s (assign_project_role project_id user role_key by s))
unfolding assign_project_role invalidate assign_transaction
assign-HasSuper project_id user role_key by s h =
    settled_bind HasSuper s
      (require_some (find_role role_key s.roles) bad_request "BAD_ROLE" "不是有效的项目角色") _ h
      λ role _.
        settled_bind HasSuper s
          (require (scope_beq role.scope_kind project) bad_request "BAD_ROLE" "不是有效的项目角色") _ h
          λ _ _.
            settled_bind HasSuper s
              (require_some (find? (λ p. p.id == project_id) s.projects) not_found "NOT_FOUND"
                "项目不存在")
              _ h
              λ proj _.
                rw
                  (
                    any-append (is_active_super s)
                        (select (λ b. not (is_project_binding user project_id b)) s.bindings)
                        (project_binding user role.id project_id (some by) ∷ []),
                    project_bindings_go project_id user s h,
                  )
                  refl

remove-HasSuper :
    (project_id user by : Uuid) (s : AuthzState)
    → HasSuper s
    → HasSuper (remove_project_member project_id user by s)
unfolding remove_project_member invalidate
remove-HasSuper project_id user by s h = project_bindings_go project_id user s h

resolve-HasSuper :
    (user : Uuid) (scope : Scope) (id : Option Uuid) (s : AuthzState)
    → HasSuper s
    → HasSuper (resolve_capabilities user scope id s).0
unfolding resolve_capabilities
resolve-HasSuper user scope id s h = elim (Bool-cases (is_super_or_owner s user)) [
  | inl e ↦ rw e h
  | inr e ↦ elim (Option-cases (cached (caps_key user scope id) s.caps)) [
    | inl m ↦ rw (e, m) h
    | inr (c, m) ↦ rw (e, m) h
  ]
]

-- The seed keeps the id and the key of every role.
upsert-has_role_key :
    (fresh : Uuid) (def : RoleDef) (roles : List Role) (key : String) (b : Binding)
    → has_role_key roles key b ≡ true
    → has_role_key (upsert_role fresh def roles).0 key b ≡ true
unfolding upsert_role
upsert-has_role_key fresh def [] key b h = cc
upsert-has_role_key fresh def (r ∷ roles) key b h =
    let rest = upsert-has_role_key fresh def roles key b in
    ground (arith, rest, eq_iff r.key def.key, eq_iff r.key key, eq_iff def.key key)

invalidate_all-HasSuper :
    (users : List Uuid) (s : AuthzState) → HasSuper s → HasSuper (invalidate_all users s)
unfolding invalidate_all
invalidate_all-HasSuper [] s h = h
invalidate_all-HasSuper (u ∷ users) s h = invalidate_all-HasSuper users (invalidate u s) h

seed_role-HasSuper :
    (fresh : Uuid) (def : RoleDef) (s : AuthzState) → HasSuper s → HasSuper (seed_role fresh def s)
unfolding seed_role invalidate_by_role_id
seed_role-HasSuper fresh def s h =
    invalidate_all-HasSuper (holders (upsert_role fresh def s.roles).1 s.bindings) _ (
      any_mono (is_active_super s)
        (is_active_super (record s { roles = (upsert_role fresh def s.roles).0 })) s.bindings
        (λ b e. ground (arith, upsert-has_role_key fresh def s.roles super_admin b)) h)

seed_roles-HasSuper :
    (fresh : String → Uuid) (defs : List RoleDef) (s : AuthzState)
    → HasSuper s
    → HasSuper (seed_roles fresh defs s)
unfolding seed_roles
seed_roles-HasSuper fresh [] s h = h
seed_roles-HasSuper fresh (def ∷ defs) s h =
    seed_roles-HasSuper fresh defs (seed_role (fresh def.key) def s)
      (seed_role-HasSuper (fresh def.key) def s h)

run_op-HasSuper : (op : AuthzOp) (s : AuthzState) → HasSuper s → HasSuper (run_op op s)
unfolding run_op seed_builtin_roles
run_op-HasSuper (assigns p user role by) s h = assign-HasSuper p user role by s h
run_op-HasSuper (removes p user by) s h = remove-HasSuper p user by s h
run_op-HasSuper (sets user role by) s h = set-HasSuper user role by s h
run_op-HasSuper (resolves user scope id) s h = resolve-HasSuper user scope id s h
run_op-HasSuper (seeds fresh) s h = seed_roles-HasSuper fresh builtin_roles s h
run_op-HasSuper (expires k) s h = h

-- Whatever grants, revocations, role seeds, look-ups and expiries come, an instance with an active
-- super administrator never loses the last one.
pub run_ops-HasSuper : (ops : List AuthzOp) (s : AuthzState) → HasSuper s → HasSuper (run_ops ops s)
unfolding run_ops
run_ops-HasSuper [] s h = h
run_ops-HasSuper (op ∷ ops) s h = run_ops-HasSuper ops (run_op op s) (run_op-HasSuper op s h)
