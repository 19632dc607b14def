-- ===== src/Authz/Seeded.antt =====
-- The seed of the built-in roles keeps the cache coherent (apps/canvas-api/src/authz/
-- authz-bootstrap.service.ts).
use xg_canvas.Prelude.{
  string_eq, nat_eq, ◌==◌, Bool-cases, any, select, Uuid, String, ◌≡◌, refl, ◌∙◌, inl, inr, false,
  not, ◌&&◌, List, [], ◌∷◌, ◌++◌, arith,
}
use xg_canvas.Authz.Types.{RolePermission, AuthzState}
use xg_canvas.Authz.Resolve.{computed, invalidate, invalidate_all, holders, invalidate_by_role_id}
use xg_canvas.Authz.Catalog.{RoleDef, role_keys}
use xg_canvas.Authz.Bootstrap.{upsert_role, insert_permissions, refresh_role, seed_role, seed_roles}
use xg_canvas.Authz.Cache.{IsCoherent, invalidate_all-IsCached, IsCached-moved}
use xg_canvas.Authz.Computed.{rows_of, computed-other_role}

-- A role's permissions change, and an invalidation of all who hold it.
rows_of-append :
    (r : Uuid) (rps : List RolePermission) (rp : RolePermission)
    → (r == rp.role_id) ≡ false
    → rows_of (rps ++ rp ∷ []) r ≡ rows_of rps r
rows_of-append r [] rp n = ground arith
rows_of-append r (x ∷ rps) rp n = ground (arith, rows_of-append r rps rp n)

insert_permissions-others :
    (role r : Uuid) (keys : List String) (rps : List RolePermission)
    → (r == role) ≡ false
    → rows_of (insert_permissions role keys rps) r ≡ rows_of rps r
unfolding insert_permissions
insert_permissions-others role r [] rps n = refl
insert_permissions-others role r (k ∷ keys) rps n =
    insert_permissions-others role r keys _ n
    ∙ elim (Bool-cases (any (λ rp. rp.role_id == role && rp.permission_key == k) rps)) [
      | inl e ↦ rw e refl
      | inr e ↦ rw e (rows_of-append r rps (record { role_id = role; permission_key = k }) n)
    ]

remove_permissions-others :
    (role r : Uuid) (rps : List RolePermission)
    → (r == role) ≡ false
    → rows_of (select (λ rp. not (rp.role_id == role)) rps) r ≡ rows_of rps r
remove_permissions-others role r [] n = refl
remove_permissions-others role r (rp ∷ rps) n =
    ground (arith, remove_permissions-others role r rps n)

invalidate_all-tables :
    (users : List Uuid) (s : AuthzState)
    → ((invalidate_all users s).bindings ≡ s.bindings)
      × ((invalidate_all users s).role_permissions ≡ s.role_permissions)
unfolding invalidate_all
invalidate_all-tables [] s = (refl, refl)
invalidate_all-tables (u ∷ users) s = invalidate_all-tables users (invalidate u s)

refresh_role-IsCoherent :
    (role : Uuid) (keys : List String) (s : AuthzState)
    → IsCoherent s
    → IsCoherent (refresh_role role keys s)
unfolding refresh_role invalidate_by_role_id
refresh_role-IsCoherent role keys s h =
    let rps =
      insert_permissions role keys (select (λ rp. not (rp.role_id == role)) s.role_permissions) in
    let t = record s { role_permissions = rps } in
    let kept = invalidate_all-tables (holders role s.bindings) t in
    rw (kept.0, kept.1)
      (IsCached-moved (computed s.role_permissions s.bindings) (computed rps s.bindings)
        (holders role s.bindings) (invalidate_all (holders role s.bindings) t)
        (λ k e.
          computed-other_role s.role_permissions rps role s.bindings k
            (λ r n.
              insert_permissions-others role r keys
                (select (λ rp. not (rp.role_id == role)) s.role_permissions) n
              ∙ remove_permissions-others role r s.role_permissions n)
            e)
        (invalidate_all-IsCached (computed s.role_permissions s.bindings) (holders role s.bindings)
          t h))

pub seed_roles-IsCoherent :
    (fresh : String → Uuid) (defs : List RoleDef) (s : AuthzState)
    → IsCoherent s
    → IsCoherent (seed_roles fresh defs s)
unfolding seed_roles
seed_roles-IsCoherent fresh [] s h = h
seed_roles-IsCoherent fresh (def ∷ defs) s h =
    let (roles, id) = upsert_role (fresh def.key) def s.roles in
    seed_roles-IsCoherent fresh defs (seed_role (fresh def.key) def s)
      (refresh_role-IsCoherent id (role_keys def) (record s { roles = roles }) h)
