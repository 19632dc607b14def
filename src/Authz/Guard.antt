-- ===== src/Authz/Guard.antt =====
-- The guard of the routes and the members' controller (apps/canvas-api/src/authz/permission.guard.ts,
-- member.controller.ts).
use xg_canvas.Prelude.{
  if◌then◌else◌, string_eq, nat_eq, ◌==◌, get_or, Uuid, bad_request, forbidden, not_found, Result,
  ok, throw_error, ◌>>=◌, ◌>>◌, require, require_some, String, Bool, not, ◌||◌, Option, none, some,
}
use xg_canvas.Authz.Types.{Scope, system, project, Audit, AuthzState}
use xg_canvas.Authz.Resolve.{can, audit}
use xg_canvas.Authz.Bindings.{assign_project_role}

-- Where a route names its project.
pub data RequestPart : Type 0 where
  param body query : RequestPart

-- What `@RequirePerm` declares.
pub record RequirePerm : Type 0 where
  pub permission : String
  pub scope : Scope
  pub from : Option RequestPart
  pub key : Option String
  pub optional : Bool

-- A value of the request that is a text, if it is one; ids are read from their text by `to_uuid`.
pub record Request : Type 0 where
  pub user : Option Uuid
  pub part : RequestPart → String → Option String
  pub to_uuid : String → Uuid

abbrev default_key : RequestPart → String
default_key param = "projectId"
default_key _ = "project_id"

abbrev project_text : Option String → Option String
project_text none = none
project_text (some v) = if v == "global" || v == "" then none else some v

abbrev request_key : RequirePerm → RequestPart → String
request_key meta from = get_or meta.key (default_key from)

-- `resolveProjectId`.
unfoldable pub resolve_project_id : Request → RequirePerm → Option Uuid
resolve_project_id req meta =
    let from = get_or meta.from param in
    let found = project_text (req.part from (request_key meta from)) in
    elim found [ none ↦ none | some v ↦ some (req.to_uuid v) ]

abbrev denial : Uuid → RequirePerm → Option Uuid → Audit
denial user meta id = record {
  actor_id = user;
  action = "deny";
  scope_kind = meta.scope;
  scope_id = id;
  target_id = none;
  permission_key = some meta.permission;
}

-- The check in a scope; a denial is audited and throws.
unfoldable pub check_permission :
    Uuid → RequirePerm → Option Uuid → AuthzState → AuthzState × Result (Unit {0})
check_permission user meta id s =
    let (s', allowed) = can user meta.permission meta.scope id s in
    if allowed
    then (s', ok tt)
    else (audit (denial user meta id) s', throw_error forbidden "FORBIDDEN" "权限不足")

project_check : Uuid → RequirePerm → Option Uuid → AuthzState → AuthzState × Result (Unit {0})
project_check user meta none s =
    (s, if meta.optional then ok tt else throw_error forbidden "FORBIDDEN" "缺少项目上下文")
project_check user meta (some id) s = check_permission user meta (some id) s

abbrev scoped_check :
    Scope → Uuid → Request → RequirePerm → AuthzState → AuthzState × Result (Unit {0})
scoped_check system user req meta s = check_permission user meta none s
scoped_check project user req meta s = project_check user meta (resolve_project_id req meta) s

-- `canActivate`, of a route with or without a declaration.
unfoldable pub can_activate :
    Option RequirePerm → Request → AuthzState → AuthzState × Result (Unit {0})
unfolding check_permission project_check resolve_project_id
can_activate none req s = (s, ok tt)
can_activate (some meta) req s = elim req.user [
  | none ↦ (s, throw_error forbidden "FORBIDDEN" "no session")
  | some user ↦ scoped_check meta.scope user req meta s
]

-- The member routes, behind the guard; `found` is the account of the address.
unfoldable pub add_member_route :
    Option Uuid → Uuid → String → Uuid → AuthzState → Result AuthzState
add_member_route found project_id role caller s = do
  target ← require_some found not_found "NOT_FOUND" "该邮箱用户不存在"
  assign_project_role project_id target role caller s

unfoldable pub change_role_route : Uuid → Uuid → String → Uuid → AuthzState → Result AuthzState
change_role_route project_id user role caller s = do
  require (not (user == caller)) bad_request "SELF_ROLE_CHANGE_DENIED" "不能修改自己的角色"
  assign_project_role project_id user role caller s
