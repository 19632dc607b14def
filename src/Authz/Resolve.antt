-- ===== src/Authz/Resolve.antt =====
-- Effective permissions and their cache (apps/canvas-api/src/authz/authz.service.ts).
use xg_canvas.Prelude.{
  if◌then◌else◌, string_eq, nat_eq, ◌==◌, is_some, is_none, any, select, find?, Uuid, String, Bool,
  false, not, ◌&&◌, ◌||◌, Option, none, some, List, [], ◌∷◌, ◌++◌, map,
}
use xg_canvas.Authz.Types.{
  Scope, system, project, scope_beq, uuid_beq, is_active, User, Role, Binding, RolePermission,
  CapsKey, caps_key, caps_key_beq, CapsEntry, TrackedKey, Audit, AuthzState,
}
use xg_canvas.Authz.Catalog.{all_permission_keys, super_admin}

-- `Set.has` and `Set.add`.
unfoldable pub contains : String → List String → Bool
contains x xs = any (λ y. y == x) xs

abbrev pub set_add : List String → String → List String
set_add caps x = if contains x caps then caps else caps ++ x ∷ []

unfoldable pub add_all : List String → List String → List String
unfolding contains
add_all caps [] = caps
add_all caps (x ∷ rows) = add_all (set_add caps x) rows

-- `JOIN canvas.roles r ON r.id = b.role_id … AND r.key = $key`.
abbrev pub has_role_key : List Role → String → Binding → Bool
has_role_key roles key b = any (λ r. r.id == b.role_id && r.key == key) roles

abbrev pub is_super_binding : List Role → Binding → Bool
is_super_binding roles b = scope_beq b.scope_kind system && has_role_key roles super_admin b

abbrev pub find_user : Uuid → List User → Option User
find_user id users = find? (λ u. u.id == id) users

abbrev super_or_owner : AuthzState → Option User → Bool
super_or_owner s none = false
super_or_owner s (some u) =
    is_active u.status
    && is_none u.merged_into_user_id
    && (u.is_instance_owner
        || any (λ b. b.user_id == u.id && is_super_binding s.roles b) s.bindings)

-- `isSuperOrOwner`.
unfoldable pub is_super_or_owner : AuthzState → Uuid → Bool
is_super_or_owner s user = super_or_owner s (find_user user s.users)

-- `JOIN canvas.role_permissions rp ON rp.role_id = b.role_id`, over the selected bindings.
unfoldable pub permission_rows : List RolePermission → List Binding → List String
permission_rows rps [] = []
permission_rows rps (b ∷ bs) =
    map (λ rp. rp.permission_key) (select (λ rp. rp.role_id == b.role_id) rps)
    ++ permission_rows rps bs

abbrev pub applies_everywhere : Uuid → Binding → Bool
applies_everywhere user b = b.user_id == user && scope_beq b.scope_kind system

abbrev pub applies_in_project : Uuid → Option Uuid → Binding → Bool
applies_in_project user id b =
    b.user_id == user && (scope_beq b.scope_kind project && uuid_beq b.scope_id id)

-- What `resolveCapabilities` reads from the database on a cache miss.
unfoldable pub computed : List RolePermission → List Binding → CapsKey → List String
unfolding add_all permission_rows
computed rps bs k =
    let sys = add_all [] (permission_rows rps (select (applies_everywhere k.user_id) bs)) in
    if scope_beq k.scope_kind project && is_some k.scope_id
    then add_all sys (permission_rows rps (select (applies_in_project k.user_id k.scope_id) bs))
    else sys

abbrev pub cached : CapsKey → List CapsEntry → Option CapsEntry
cached k entries = find? (λ e. caps_key_beq e.key k) entries

resolve_miss : CapsKey → AuthzState → Option CapsEntry → AuthzState × List String
resolve_miss k s (some e) = (s, e.caps)
resolve_miss k s none =
    let caps = computed s.role_permissions s.bindings k in
    (
      record s {
        caps = record { key = k; caps = caps } ∷ s.caps;
        tracked = record { user_id = k.user_id; key = k } ∷ s.tracked;
      },
      caps,
    )

-- `resolveCapabilities`.
unfoldable pub resolve_capabilities :
    Uuid → Scope → Option Uuid → AuthzState → AuthzState × List String
unfolding resolve_miss
resolve_capabilities user scope id s =
    if is_super_or_owner s user
    then (s, all_permission_keys)
    else resolve_miss (caps_key user scope id) s (cached (caps_key user scope id) s.caps)

-- `can`.
unfoldable pub can : Uuid → String → Scope → Option Uuid → AuthzState → AuthzState × Bool
unfolding contains
can user permission scope id s =
    let (s', caps) = resolve_capabilities user scope id s in (s', contains permission caps)

-- `'ALL'`, or the projects' ids.
pub data ProjectIds : Type 0 where
  all_projects : ProjectIds
  some_projects : List Uuid → ProjectIds

abbrev pub has_permission : List RolePermission → String → Binding → Bool
has_permission rps permission b =
    any (λ rp. rp.role_id == b.role_id && rp.permission_key == permission) rps

abbrev pub add_id : Option Uuid → List Uuid → List Uuid
add_id none ids = ids
add_id (some id) ids = if any (λ j. j == id) ids then ids else id ∷ ids

abbrev pub distinct_scopes : List Binding → List Uuid
distinct_scopes [] = []
distinct_scopes (b ∷ bs) = add_id b.scope_id (distinct_scopes bs)

-- `projectIdsWithCap`.
unfoldable pub project_ids_with_cap : Uuid → String → AuthzState → AuthzState × ProjectIds
unfolding contains
project_ids_with_cap user permission s =
    let (s', caps) = resolve_capabilities user system none s in
    (
      s',
      if contains permission caps
          then all_projects
          else some_projects (
              distinct_scopes (
                select
                  (λ b.
                    b.user_id == user
                    && scope_beq b.scope_kind project
                    && is_some b.scope_id
                    && has_permission s.role_permissions permission b)
                  s.bindings)),
    )

abbrev pub is_tracked : List TrackedKey → Uuid → CapsKey → Bool
is_tracked ts user k = any (λ t. t.user_id == user && caps_key_beq t.key k) ts

-- `invalidate`: DEL of every key that the user's set names, and of the set.
unfoldable pub invalidate : Uuid → AuthzState → AuthzState
invalidate user s = record s {
  caps = select (λ e. not (is_tracked s.tracked user e.key)) s.caps;
  tracked = select (λ t. not (t.user_id == user)) s.tracked;
}

unfoldable pub invalidate_all : List Uuid → AuthzState → AuthzState
unfolding invalidate
invalidate_all [] s = s
invalidate_all (u ∷ users) s = invalidate_all users (invalidate u s)

-- `SELECT DISTINCT user_id FROM canvas.role_bindings WHERE role_id = $1`.
unfoldable pub holders : Uuid → List Binding → List Uuid
holders role [] = []
holders role (b ∷ bs) =
    let rest = holders role bs in if b.role_id == role then add_id (some b.user_id) rest else rest

-- `invalidateByRoleId`.
unfoldable pub invalidate_by_role_id : Uuid → AuthzState → AuthzState
unfolding invalidate_all holders
invalidate_by_role_id role s = invalidate_all (holders role s.bindings) s

-- `audit`; an audit row that cannot be written is dropped.
abbrev pub audit : Audit → AuthzState → AuthzState
audit a s = record s { audits = s.audits ++ a ∷ [] }
