-- ===== src/Authz/Catalog.antt =====
-- The capability catalog and the built-in roles (apps/canvas-api/src/authz/catalog.ts).
use xg_canvas.Prelude.{string_eq, nat_eq, String, Bool, true, false, List, [], ◌∷◌, ◌++◌, map}
use xg_canvas.Authz.Types.{Scope, system, project}

pub record PermissionDef : Type 0 where
  pub key : String
  pub scope_kind : Scope
  pub grp : String
  pub label_zh : String
  pub has_condition : Bool
  pub is_dangerous : Bool

abbrev permission : String → Scope → String → String → Bool → Bool → PermissionDef
permission key scope grp label has_condition is_dangerous = record {
  key = key;
  scope_kind = scope;
  grp = grp;
  label_zh = label;
  has_condition = has_condition;
  is_dangerous = is_dangerous;
}

unfoldable pub permissions : List PermissionDef
permissions =
    permission "system.user.manage" system "system.user" "用户管理" false false
    ∷ permission "system.user.assign_super_admin" system "system.user" "指派超级管理员" false true
    ∷ permission "system.role.manage" system "system.role" "角色管理" false false
    ∷ permission "system.credential.manage" system "system.credential" "凭证管理" false false
    ∷ permission "system.credential.read_secret" system "system.credential" "查看凭证明文" true true
    ∷ permission "system.model.manage" system "system.provider" "供应商/模型管理" false false
    ∷ permission "system.billing.view" system "system.billing" "查看计费" false false
    ∷ permission "system.billing.manage" system "system.billing" "管理费率" false false
    ∷ permission "system.request_log.view" system "system.audit" "查看请求日志" false false
    ∷ permission "system.request_log.manage" system "system.audit" "清理请求日志" false true
    ∷ permission "system.audit.view" system "system.audit" "查看授权审计" false true
    ∷ permission "system.config.sync" system "system.ops" "模型目录重载" false true
    ∷ permission "system.config.manage" system "system.config" "功能模型配置" false false
    ∷ permission "system.content.manage" system "system.content" "管理工作区公共资产与资源库" true false
    ∷ permission "project.read" project "project.base" "打开项目" false false
    ∷ permission "project.canvas.node.edit" project "project.canvas" "编辑画布节点" false false
    ∷ permission "project.task.view" project "project.task" "查看任务" false false
    ∷ permission "project.task.run" project "project.task" "运行/重试任务" false false
    ∷ permission "project.asset.view" project "project.asset" "查看资产" false false
    ∷ permission "project.asset.create" project "project.asset" "上传/入库资产" false false
    ∷ permission "project.asset.delete" project "project.asset" "删除资产" true false
    ∷ permission "project.library.view" project "project.library" "查看资源库" false false
    ∷ permission "project.library.create" project "project.library" "创建/编辑资源库条目" false false
    ∷ permission "project.library.delete" project "project.library" "删除资源库条目" true false
    ∷ permission "project.member.manage" project "project.member" "管理项目成员" false false
    ∷ permission "project.settings.manage" project "project.settings" "项目设置/归档" true false
    ∷ []

unfoldable pub all_permission_keys : List String
unfolding permissions
all_permission_keys = map (λ p. p.key) permissions

-- `'ALL'`, or the keys themselves.
pub data Grant : Type 0 where
  everything : Grant
  these : List String → Grant

pub record RoleDef : Type 0 where
  pub key : String
  pub name_zh : String
  pub scope_kind : Scope
  pub is_locked : Bool
  pub permissions : Grant

abbrev pub super_admin : String
super_admin = "it_super_admin"

abbrev pub system_role_keys : List String
system_role_keys = "it_super_admin" ∷ "sys_admin" ∷ []

abbrev project_write : List String
project_write =
    "project.read" ∷ "project.canvas.node.edit" ∷ "project.task.view" ∷ "project.task.run"
    ∷ "project.asset.view" ∷ "project.asset.create" ∷ "project.asset.delete"
    ∷ "project.library.view" ∷ "project.library.create" ∷ "project.library.delete" ∷ []

abbrev role_def : String → String → Scope → Bool → Grant → RoleDef
role_def key name scope locked grant = record {
  key = key;
  name_zh = name;
  scope_kind = scope;
  is_locked = locked;
  permissions = grant;
}

unfoldable pub builtin_roles : List RoleDef
builtin_roles =
    role_def "it_super_admin" "IT 超级管理员" system true everything
    ∷ role_def "sys_admin" "系统管理员" system false (
        these (
          "system.user.manage" ∷ "system.role.manage" ∷ "system.credential.manage"
          ∷ "system.model.manage" ∷ "system.billing.view" ∷ "system.billing.manage"
          ∷ "system.request_log.view" ∷ "system.request_log.manage" ∷ "system.config.sync"
          ∷ "system.config.manage" ∷ "system.content.manage" ∷ "project.read" ∷ []))
    ∷ role_def "project_admin" "项目管理员" project false
        (these (project_write ++ "project.member.manage" ∷ "project.settings.manage" ∷ []))
    ∷ role_def "project_member" "项目成员" project false (these project_write)
    ∷ role_def "project_guest" "游客" project false (
        these (
          "project.read" ∷ "project.task.view" ∷ "project.asset.view" ∷ "project.library.view"
          ∷ []))
    ∷ []

keys_of_grant : Grant → List String
keys_of_grant everything = all_permission_keys
keys_of_grant (these keys) = keys

-- `roleKeys`.
unfoldable pub role_keys : RoleDef → List String
unfolding keys_of_grant
role_keys role = keys_of_grant role.permissions
