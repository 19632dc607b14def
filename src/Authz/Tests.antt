-- ===== src/Authz/Tests.antt =====
-- Tests of authorization, and its theorems at a small instance.
use xg_canvas.Prelude.{
  string_eq, nat_eq, ◌==◌, any, select, find?, Uuid, bad_request, ok, throw_error, String, ◌≡◌,
  refl, true, false, not, ◌&&◌, none, some, List, [], ◌∷◌,
}
use xg_canvas.Authz.Types.{
  Scope, system, project, scope_beq, active, User, Role, caps_key, AuthzState,
}
use xg_canvas.Authz.Resolve.{
  contains, add_all, is_super_or_owner, permission_rows, computed, resolve_capabilities, can,
  invalidate,
}
use xg_canvas.Authz.Bindings.{
  find_role, is_project_binding, project_binding, system_binding, assign_transaction,
  assign_project_role, set_system_role,
}
use xg_canvas.Authz.Allowed.{allowed}
use xg_canvas.Authz.Assigned.{assign_project_role-replaced}
use xg_canvas.Authz.Coherent.{settled}
use xg_canvas.Authz.Runs.{
  AuthzOp, assigns, sets, resolves, seeds, expires, run_op, run_ops, run_ops-can,
}
use xg_canvas.Authz.Supers.{HasSuper}
use xg_canvas.Authz.SuperRuns.{run_ops-HasSuper}
use xg_canvas.Task.World.{Project}

abbrev user : Uuid → User
user id = record {
  id = id;
  status = active;
  is_instance_owner = false;
  merged_into_user_id = none;
  primary_identity_id = none;
}

abbrev role : Uuid → String → Scope → Role
role id key scope = record {
  id = id;
  key = key;
  name_zh = key;
  scope_kind = scope;
  is_system = true;
  is_locked = false;
}

-- User 1 is a super administrator, user 2 a guest of project 50.
abbrev pub instance_one : AuthzState
instance_one = record {
  users = user 1 ∷ user 2 ∷ [];
  roles =
      role 10 "it_super_admin" system
      ∷ role 11 "sys_admin" system
      ∷ role 12 "project_member" project
      ∷ role 13 "project_guest" project
      ∷ [];
  role_permissions =
      record { role_id = 13; permission_key = "project.read" }
      ∷ record { role_id = 12; permission_key = "project.read" }
      ∷ record { role_id = 12; permission_key = "project.task.run" }
      ∷ record { role_id = 11; permission_key = "project.read" }
      ∷ [];
  bindings = system_binding 1 10 none ∷ project_binding 2 13 50 (some 1) ∷ [];
  workspace_members = [];
  projects = record { id = 50; workspace_id = 60 } ∷ [];
  caps = [];
  tracked = [];
  audits = [];
}

abbrev promotion : List AuthzOp
promotion =
    resolves 2 project (some 50)
    ∷ assigns 50 2 "project_member" 1
    ∷ sets 1 none 1
    ∷ seeds (λ key. 99)
    ∷ expires (caps_key 2 project (some 50))
    ∷ []

-- The new role counts at once, although the old permissions were cached.
member_runs :
    (can 2 "project.task.run" project (some 50) (
      run_ops (resolves 2 project (some 50) ∷ assigns 50 2 "project_member" 1 ∷ []) instance_one)).1
    ≡ true
unfolding run_ops run_op resolve_capabilities assign_project_role assign_transaction invalidate
    computed permission_rows add_all can is_super_or_owner contains
member_runs = refl

guest_does_not_run : (can 2 "project.task.run" project (some 50) instance_one).1 ≡ false
unfolding can resolve_capabilities computed permission_rows add_all is_super_or_owner contains
guest_does_not_run = refl

last_super_stays :
    set_system_role 1 none 1 instance_one
    ≡ throw_error bad_request "LAST_SUPER_ADMIN" "不能移除最后一个超级管理员"
unfolding set_system_role
last_super_stays = refl

run_ops-can_example :
    (can 2 "project.task.run" project (some 50) (run_ops promotion instance_one)).1
    ≡ allowed (run_ops promotion instance_one) 2 "project.task.run" project (some 50)
run_ops-can_example = run_ops-can promotion 2 "project.task.run" project (some 50) instance_one tt

instance_one-HasSuper : HasSuper instance_one
instance_one-HasSuper = refl

run_ops-HasSuper_example : HasSuper (run_ops promotion instance_one)
run_ops-HasSuper_example = run_ops-HasSuper promotion instance_one instance_one-HasSuper

abbrev assigned : AuthzState
assigned = settled instance_one (assign_project_role 50 2 "project_member" 1 instance_one)

accepted_assignment : assign_project_role 50 2 "project_member" 1 instance_one ≡ ok assigned
unfolding assign_project_role
accepted_assignment = refl

assign_project_role-replaced_example :
    (role : Role) × (proj : Project) × (find_role "project_member" instance_one.roles ≡ some role)
    × (scope_beq role.scope_kind project ≡ true)
    × (find? (λ p. p.id == 50) instance_one.projects ≡ some proj)
    × (select (is_project_binding 2 50) assigned.bindings
        ≡ project_binding 2 role.id 50 (some 1) ∷ [])
    × (select (λ b. not (is_project_binding 2 50 b)) assigned.bindings
        ≡ select (λ b. not (is_project_binding 2 50 b)) instance_one.bindings)
    × (any (λ m. m.workspace_id == proj.workspace_id && m.user_id == 2) assigned.workspace_members
        ≡ true)
assign_project_role-replaced_example =
    assign_project_role-replaced 50 2 "project_member" 1 instance_one assigned accepted_assignment
