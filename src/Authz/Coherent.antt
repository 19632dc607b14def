-- ===== src/Authz/Coherent.antt =====
-- Grants, revocations and look-ups keep the cache coherent (apps/canvas-api/src/authz).
use xg_canvas.Prelude.{
  string_eq, nat_eq, ◌==◌, Bool-cases, Option-cases, select, find?, All, All-map, Uuid, bad_request,
  not_found, internal, Result, ok, err, ◌>>=◌, require, require_some, bind-ok, ok-injective, String,
  ◌≡◌, refl, ◌∙◌, subst, inl, inr, Bool, true, false, not, Option, none, some, List, [], ◌∷◌, ◌++◌,
  arith,
}
use xg_canvas.Authz.Types.{
  Scope, system, project, scope_beq, uuid_beq, Binding, CapsKey, caps_key, caps_key_beq, AuthzState,
}
use xg_canvas.Authz.Resolve.{
  is_super_or_owner, applies_everywhere, computed, cached, resolve_capabilities, invalidate,
}
use xg_canvas.Authz.Bindings.{
  find_role, is_project_binding, project_binding, system_binding, assign_transaction,
  assign_project_role, remove_project_member, is_valid_system_role, grant_system, may_revoke,
  set_system_role,
}
use xg_canvas.Authz.Cache.{
  IsCached, IsCoherent, invalidate-IsCached, invalidate-HasNoEntry, IsCached-moved,
}
use xg_canvas.Authz.Computed.{SameFor, computed-SameFor, SameFor-select, SameFor-append}

-- A call that throws has changed nothing.
abbrev pub settled : AuthzState → Result AuthzState → AuthzState
settled s (ok s') = s'
settled s (err e) = s

-- What holds if a step throws, and after it if it does not, holds of the whole call.
pub settled_bind :
    {A : Type 0} (P : AuthzState → Type 0) (s : AuthzState) (m : Result A)
    (f : A → Result AuthzState)
    → P s
    → ((a : A) → m ≡ ok a → P (settled s (f a)))
    → P (settled s (m >>= f))
settled_bind P s (ok a) f h k = k a refl
settled_bind P s (err e) f h k = h

-- New bindings of one user, and an invalidation of that user.
rebound-IsCoherent :
    (user : Uuid) (old : List Binding) (s : AuthzState)
    → ((u : Uuid) → (user == u) ≡ false → SameFor u s.bindings old)
    → IsCached (computed s.role_permissions old) s
    → IsCoherent (invalidate user s)
unfolding invalidate
rebound-IsCoherent user old s same h =
    IsCached-moved (computed s.role_permissions old) (computed s.role_permissions s.bindings)
      (user ∷ []) (invalidate user s)
      (λ k e. computed-SameFor s.role_permissions s.bindings old k (same k.user_id (ground arith)))
      (
        invalidate-IsCached (computed s.role_permissions old) user s h,
        invalidate-HasNoEntry (computed s.role_permissions old) user s h,
      )

-- Bindings of one user go, and others of that user come.
SameFor-replaced :
    (user u : Uuid) (q : Binding → Bool) (new bs : List Binding)
    → (user == u) ≡ false
    → ((b : Binding) → (b.user_id == user) ≡ false → q b ≡ true)
    → All (λ b. b.user_id ≡ user) new
    → SameFor u (select q bs ++ new) bs
SameFor-replaced user u q new bs e keep own p =
    SameFor-append u (select q bs) new (All-map _ _ new (λ b o. rw o e) own) p
    ∙ SameFor-select u q bs (λ b m. keep b (ground arith)) p

pub assign-IsCoherent :
    (project_id user : Uuid) (role_key : String) (by : Uuid) (s : AuthzState)
    → IsCoherent s
    → IsCoherent (settled s (assign_project_role project_id user role_key by s))
unfolding assign_project_role
assign-IsCoherent project_id user role_key by s h =
    settled_bind IsCoherent s
      (require_some (find_role role_key s.roles) bad_request "BAD_ROLE" "不是有效的项目角色") _ h
      λ role _.
        settled_bind IsCoherent s
          (require (scope_beq role.scope_kind project) bad_request "BAD_ROLE" "不是有效的项目角色") _ h
          λ _ _.
            settled_bind IsCoherent s
              (require_some (find? (λ p. p.id == project_id) s.projects) not_found "NOT_FOUND"
                "项目不存在")
              _ h
              λ proj _.
                rebound-IsCoherent user s.bindings
                  (assign_transaction proj.workspace_id project_id user role by s)
                  (λ u e.
                    SameFor-replaced user u (λ b. not (is_project_binding user project_id b))
                      (project_binding user role.id project_id (some by) ∷ []) s.bindings e
                      (λ b m. ground arith) (refl, tt))
                  h

pub remove-IsCoherent :
    (project_id user by : Uuid) (s : AuthzState)
    → IsCoherent s
    → IsCoherent (remove_project_member project_id user by s)
unfolding remove_project_member
remove-IsCoherent project_id user by s h =
    rebound-IsCoherent user s.bindings
      (record s { bindings = select (λ b. not (is_project_binding user project_id b)) s.bindings })
      (λ u e p.
        SameFor-select u (λ b. not (is_project_binding user project_id b)) s.bindings
          (λ b m. ground arith) p)
      h

grant_system-SameFor :
    (user : Uuid) (role_key : Option String) (by : Uuid) (s : AuthzState) (bs : List Binding)
    → grant_system user role_key by s ≡ ok bs
    → (u : Uuid) → (user == u) ≡ false
    → SameFor u bs s.bindings
unfolding grant_system
grant_system-SameFor user none by s bs e u n =
    subst (λ cs. SameFor u cs s.bindings) (ok-injective e)
      (SameFor-select u (λ b. not (applies_everywhere user b)) s.bindings (λ b m. ground arith))
grant_system-SameFor user (some key) by s bs e u n =
    let (role, f, g) =
      bind-ok
        (require_some (find_role key s.roles) internal "INTERNAL_ERROR" "role[0] is undefined") _ bs
        e in
    subst (λ cs. SameFor u cs s.bindings) (ok-injective g)
      (SameFor-replaced user u (λ b. not (applies_everywhere user b))
        (system_binding user role.id (some by) ∷ []) s.bindings n (λ b m. ground arith) (refl, tt))

pub set-IsCoherent :
    (user : Uuid) (role_key : Option String) (by : Uuid) (s : AuthzState)
    → IsCoherent s
    → IsCoherent (settled s (set_system_role user role_key by s))
unfolding set_system_role
set-IsCoherent user role_key by s h =
    settled_bind IsCoherent s
      (require (is_valid_system_role role_key) bad_request "BAD_ROLE" "不是有效的系统角色") _ h
      λ _ _.
        settled_bind IsCoherent s
          (require (may_revoke user role_key s) bad_request "LAST_SUPER_ADMIN" "不能移除最后一个超级管理员") _ h
          λ _ _. settled_bind IsCoherent s (grant_system user role_key by s) _ h λ bs e.
            rebound-IsCoherent user s.bindings (record s { bindings = bs })
              (grant_system-SameFor user role_key by s bs e) h

caps_key_beq_refl : (k : CapsKey) → caps_key_beq k k ≡ true
caps_key_beq_refl k = ground (arith, scope_beq_refl k.scope_kind, uuid_beq_refl k.scope_id)
  where
    scope_beq_refl : (a : Scope) → scope_beq a a ≡ true
    scope_beq_refl system = refl
    scope_beq_refl project = refl

    uuid_beq_refl : (a : Option Uuid) → uuid_beq a a ≡ true
    uuid_beq_refl none = refl
    uuid_beq_refl (some a) = ground arith

pub resolve-IsCoherent :
    (user : Uuid) (scope : Scope) (id : Option Uuid) (s : AuthzState)
    → IsCoherent s
    → IsCoherent (resolve_capabilities user scope id s).0
unfolding resolve_capabilities
resolve-IsCoherent user scope id s h = elim (Bool-cases (is_super_or_owner s user)) [
  | inl e ↦ rw e h
  | inr e ↦ elim (Option-cases (cached (caps_key user scope id) s.caps)) [
    | inl m ↦
        rw (e, m)
          (
            (refl, ground (arith, caps_key_beq_refl (caps_key user scope id))),
            All-map _ _ s.caps (λ c p. (p.0, ground arith)) h,
          )
    | inr (c, m) ↦ rw (e, m) h
  ]
]
