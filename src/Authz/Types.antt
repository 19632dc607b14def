-- ===== src/Authz/Types.antt =====
-- The tables that authorization reads and writes (apps/canvas-api/src/database/entities/user.entity.ts,
-- role.entity.ts, role-binding.entity.ts and database/migrations/canvas/005_authz_schema.sql), and
-- its keys in Redis (apps/canvas-api/src/redis/keys.ts).
use xg_canvas.Prelude.{
  string_eq, nat_eq, ◌==◌, Uuid, String, Bool, true, false, ◌&&◌, Option, none, some, List,
}
use xg_canvas.Task.World.{Project}

pub data Scope : Type 0 where
  system project : Scope

abbrev pub scope_beq : Scope → Scope → Bool
scope_beq system system = true
scope_beq project project = true
scope_beq _ _ = false

abbrev pub uuid_beq : Option Uuid → Option Uuid → Bool
uuid_beq none none = true
uuid_beq (some a) (some b) = a == b
uuid_beq _ _ = false

pub data UserStatus : Type 0 where
  active disabled : UserStatus

abbrev pub is_active : UserStatus → Bool
is_active active = true
is_active disabled = false

pub record User : Type 0 where
  pub id : Uuid
  pub status : UserStatus
  pub is_instance_owner : Bool
  pub merged_into_user_id : Option Uuid
  pub primary_identity_id : Option Uuid

pub record Role : Type 0 where
  pub id : Uuid
  pub key : String
  pub name_zh : String
  pub scope_kind : Scope
  pub is_system : Bool
  pub is_locked : Bool

pub record Binding : Type 0 where
  pub user_id : Uuid
  pub role_id : Uuid
  pub scope_kind : Scope
  pub scope_id : Option Uuid
  pub granted_by : Option Uuid

-- A row of canvas.role_permissions.
pub record RolePermission : Type 0 where
  pub role_id : Uuid
  pub permission_key : String

pub record Membership : Type 0 where
  pub workspace_id : Uuid
  pub user_id : Uuid
  pub role : String

-- `Keys.authz.caps(userId, scopeKind, scopeId)`, before it is joined to a text.
pub record CapsKey : Type 0 where
  pub user_id : Uuid
  pub scope_kind : Scope
  pub scope_id : Option Uuid

abbrev pub caps_key : Uuid → Scope → Option Uuid → CapsKey
caps_key user scope id = record { user_id = user; scope_kind = scope; scope_id = id }

abbrev pub caps_key_beq : CapsKey → CapsKey → Bool
caps_key_beq j k =
    j.user_id == k.user_id && scope_beq j.scope_kind k.scope_kind && uuid_beq j.scope_id k.scope_id

pub record CapsEntry : Type 0 where
  pub key : CapsKey
  pub caps : List String

-- A member of the Redis set `Keys.authz.userSet(userId)`.
pub record TrackedKey : Type 0 where
  pub user_id : Uuid
  pub key : CapsKey

pub record Audit : Type 0 where
  pub actor_id : Uuid
  pub action : String
  pub scope_kind : Scope
  pub scope_id : Option Uuid
  pub target_id : Option Uuid
  pub permission_key : Option String

pub record AuthzState : Type 0 where
  pub users : List User
  pub roles : List Role
  pub role_permissions : List RolePermission
  pub bindings : List Binding
  pub workspace_members : List Membership
  pub projects : List Project
  pub caps : List CapsEntry
  pub tracked : List TrackedKey
  pub audits : List Audit
