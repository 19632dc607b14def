-- ===== src/Authz/Bindings.antt =====
-- The changes of role bindings (apps/canvas-api/src/authz/role-binding.service.ts), with the creation
-- of a project's first binding (create of apps/canvas-api/src/project/project.service.ts).
use xg_canvas.Prelude.{
  if◌then◌else◌, string_eq, nat_eq, ◌==◌, is_some, any, select, find?, Uuid, bad_request, forbidden,
  not_found, internal, Result, ok, ◌>>=◌, ◌>>◌, require, require_some, String, Bool, true, false,
  not, ◌&&◌, ◌||◌, Option, none, some, List, [], ◌∷◌, ◌++◌, map,
}
use xg_canvas.Authz.Types.{
  Scope, system, project, scope_beq, is_active, User, Role, Binding, Membership, Audit, AuthzState,
}
use xg_canvas.Authz.Catalog.{super_admin}
use xg_canvas.Authz.Resolve.{
  is_super_binding, applies_everywhere, applies_in_project, can, invalidate, audit,
}
use xg_canvas.Task.World.{Project}

abbrev pub find_role : String → List Role → Option Role
find_role key roles = find? (λ r. r.key == key) roles

abbrev binding_audit : Uuid → String → Scope → Option Uuid → Uuid → Audit
binding_audit actor action scope id target = record {
  actor_id = actor;
  action = action;
  scope_kind = scope;
  scope_id = id;
  target_id = some target;
  permission_key = none;
}

-- `INSERT … ON CONFLICT (workspace_id, user_id) DO NOTHING`.
abbrev pub add_member : Uuid → Uuid → List Membership → List Membership
add_member workspace user ms =
    if any (λ m. m.workspace_id == workspace && m.user_id == user) ms
    then ms
    else ms ++ record { workspace_id = workspace; user_id = user; role = "member" } ∷ []

abbrev pub is_project_binding : Uuid → Uuid → Binding → Bool
is_project_binding user project_id b = applies_in_project user (some project_id) b

abbrev pub project_binding : Uuid → Uuid → Uuid → Option Uuid → Binding
project_binding user role project_id by = record {
  user_id = user;
  role_id = role;
  scope_kind = project;
  scope_id = some project_id;
  granted_by = by;
}

abbrev pub system_binding : Uuid → Uuid → Option Uuid → Binding
system_binding user role by = record {
  user_id = user;
  role_id = role;
  scope_kind = system;
  scope_id = none;
  granted_by = by;
}

-- The transaction of `assignProjectRole`.
unfoldable pub assign_transaction : Uuid → Uuid → Uuid → Role → Uuid → AuthzState → AuthzState
assign_transaction workspace project_id user role by s = record s {
  workspace_members = add_member workspace user s.workspace_members;
  bindings =
      select (λ b. not (is_project_binding user project_id b)) s.bindings
      ++ project_binding user role.id project_id (some by) ∷ [];
}

unfoldable pub assign_project_role : Uuid → Uuid → String → Uuid → AuthzState → Result AuthzState
unfolding assign_transaction
assign_project_role project_id user role_key by s = do
  role ← require_some (find_role role_key s.roles) bad_request "BAD_ROLE" "不是有效的项目角色"
  require (scope_beq role.scope_kind project) bad_request "BAD_ROLE" "不是有效的项目角色"
  proj ← require_some (find? (λ p. p.id == project_id) s.projects) not_found "NOT_FOUND" "项目不存在"
  ok (
      audit (binding_audit by "binding.grant" project (some project_id) user)
        (invalidate user (assign_transaction proj.workspace_id project_id user role by s)))

unfoldable pub remove_project_member : Uuid → Uuid → Uuid → AuthzState → AuthzState
remove_project_member project_id user by s =
    audit (binding_audit by "binding.revoke" project (some project_id) user) (
      invalidate user (record s {
        bindings = select (λ b. not (is_project_binding user project_id b)) s.bindings;
      }))

-- The user's own binding to the super administrators, and those of other active users.
abbrev pub is_super_of : List Role → Uuid → Binding → Bool
is_super_of roles user b = b.user_id == user && is_super_binding roles b

abbrev pub is_active_user : List User → Uuid → Bool
is_active_user users id = any (λ u. u.id == id && is_active u.status) users

abbrev pub is_other_super : AuthzState → Uuid → Binding → Bool
is_other_super s user b =
    is_super_binding s.roles b && is_active_user s.users b.user_id && not (b.user_id == user)

abbrev pub names_super : Option String → Bool
names_super none = false
names_super (some key) = key == super_admin

abbrev pub is_valid_system_role : Option String → Bool
is_valid_system_role none = true
is_valid_system_role (some key) = any (λ k. k == key) ("sys_admin" ∷ super_admin ∷ [])

abbrev pub revoked : Uuid → AuthzState → List Binding
revoked user s = select (λ b. not (applies_everywhere user b)) s.bindings

-- `role[0].id` of no row throws, which rolls the transaction back.
unfoldable pub grant_system : Uuid → Option String → Uuid → AuthzState → Result (List Binding)
grant_system user none by s = ok (revoked user s)
grant_system user (some key) by s = do
  role ← require_some (find_role key s.roles) internal "INTERNAL_ERROR" "role[0] is undefined"
  ok (revoked user s ++ system_binding user role.id (some by) ∷ [])

-- The guard on the last super administrator.
abbrev pub may_revoke : Uuid → Option String → AuthzState → Bool
may_revoke user role_key s =
    not (any (is_super_of s.roles user) s.bindings && not (names_super role_key))
    || any (is_other_super s user) s.bindings

unfoldable pub set_system_role : Uuid → Option String → Uuid → AuthzState → Result AuthzState
unfolding grant_system
set_system_role user role_key by s = do
  require (is_valid_system_role role_key) bad_request "BAD_ROLE" "不是有效的系统角色"
  require (may_revoke user role_key s) bad_request "LAST_SUPER_ADMIN" "不能移除最后一个超级管理员"
  bindings ← grant_system user role_key by s
  ok (
      audit
        (binding_audit by (if is_some role_key then "binding.grant" else "binding.revoke") system
          none user)
        (invalidate user (record s { bindings = bindings })))

-- A `PUT` of the administrators' controller: only who may assign super administrators grants a
-- system role.
unfoldable pub put_system_role : Uuid → Uuid → Option String → AuthzState → Result AuthzState
put_system_role caller user role_key s =
    let (s', allowed) = can caller "system.user.assign_super_admin" system none s in
    if is_some role_key
    then (do
      require allowed forbidden "FORBIDDEN" "需要「指派超级管理员」权限"
      set_system_role user role_key caller s')
    else set_system_role user role_key caller s

-- `INSERT … SELECT … FROM canvas.roles WHERE key = 'project_admin'`.
abbrev admin_bindings : Uuid → Uuid → List Role → List Binding
admin_bindings user project_id roles =
    map (λ r. project_binding user r.id project_id (some user))
      (select (λ r. r.key == "project_admin") roles)

-- The binding of a project that `id` has just been given.
unfoldable pub create_project : Uuid → Project → AuthzState → AuthzState
create_project user p s = record s {
  projects = s.projects ++ p ∷ [];
  bindings = s.bindings ++ admin_bindings user p.id s.roles;
}
