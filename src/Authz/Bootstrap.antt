-- ===== src/Authz/Bootstrap.antt =====
-- The seed of the permissions and the built-in roles (apps/canvas-api/src/authz/
-- authz-bootstrap.service.ts), which every start of the server runs.
use xg_canvas.Prelude.{
  if◌then◌else◌, string_eq, nat_eq, ◌==◌, any, select, Uuid, String, true, not, ◌&&◌, List, [], ◌∷◌,
  ◌++◌,
}
use xg_canvas.Authz.Types.{Role, RolePermission, AuthzState}
use xg_canvas.Authz.Catalog.{RoleDef, builtin_roles, role_keys}
use xg_canvas.Authz.Resolve.{invalidate_by_role_id}

abbrev seeded_role : Uuid → RoleDef → Role
seeded_role id def = record {
  id = id;
  key = def.key;
  name_zh = def.name_zh;
  scope_kind = def.scope_kind;
  is_system = true;
  is_locked = def.is_locked;
}

-- `INSERT … ON CONFLICT (key) DO UPDATE … RETURNING id`; `fresh` is the id of a new row.
unfoldable pub upsert_role : Uuid → RoleDef → List Role → List Role × Uuid
upsert_role fresh def [] = (seeded_role fresh def ∷ [], fresh)
upsert_role fresh def (r ∷ roles) =
    let (rest, id) = upsert_role fresh def roles in
    if r.key == def.key then (seeded_role r.id def ∷ roles, r.id) else (r ∷ rest, id)

-- `INSERT … ON CONFLICT DO NOTHING`, for each key.
unfoldable pub insert_permissions : Uuid → List String → List RolePermission → List RolePermission
insert_permissions role [] rps = rps
insert_permissions role (k ∷ keys) rps = insert_permissions role keys (
    if any (λ rp. rp.role_id == role && rp.permission_key == k) rps
    then rps
    else rps ++ record { role_id = role; permission_key = k } ∷ [])

-- The built-in role's permissions become those of the catalog.
unfoldable pub refresh_role : Uuid → List String → AuthzState → AuthzState
unfolding insert_permissions
refresh_role role keys s = invalidate_by_role_id role (record s {
  role_permissions =
      insert_permissions role keys (select (λ rp. not (rp.role_id == role)) s.role_permissions);
})

unfoldable pub seed_role : Uuid → RoleDef → AuthzState → AuthzState
unfolding refresh_role upsert_role
seed_role fresh def s =
    let (roles, id) = upsert_role fresh def s.roles in
    refresh_role id (role_keys def) (record s { roles = roles })

-- `seedBuiltinRoles`, with a supply of ids for new rows.
unfoldable pub seed_roles : (String → Uuid) → List RoleDef → AuthzState → AuthzState
unfolding seed_role
seed_roles fresh [] s = s
seed_roles fresh (def ∷ defs) s = seed_roles fresh defs (seed_role (fresh def.key) def s)

unfoldable pub seed_builtin_roles : (String → Uuid) → AuthzState → AuthzState
seed_builtin_roles fresh s = seed_roles fresh builtin_roles s
