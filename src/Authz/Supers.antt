-- ===== src/Authz/Supers.antt =====
-- A change of system roles leaves an active super administrator (apps/canvas-api/src/authz/role-binding.service.ts).
use xg_canvas.Authz.Coherent.{settled_bind, settled}
use xg_canvas.Prelude.{
  string_eq, nat_eq, ◌==◌, Bool-cases, any, select, find?-holds, In, any-In, find?-In, In-any, Uuid,
  bad_request, internal, ok, require, require_some, bind-ok, ok-injective, require_test, String,
  ◌≡◌, refl, sym, ap, subst, inl, inr, Bool, true, false, not, ◌&&◌, ◌||◌, Option, none, some, List,
  [], ◌∷◌, ◌++◌, eq_iff, arith,
}
use xg_canvas.Authz.Types.{Role, Binding, AuthzState}
use xg_canvas.Authz.Catalog.{super_admin}
use xg_canvas.Authz.Resolve.{invalidate, is_super_binding, applies_everywhere}
use xg_canvas.Authz.Bindings.{
  is_valid_system_role, names_super, is_super_of, grant_system, set_system_role, may_revoke,
  find_role, system_binding, is_active_user, is_other_super, revoked,
}

-- A binding that makes an active user a super administrator.
abbrev pub is_active_super : AuthzState → Binding → Bool
is_active_super s b = is_super_binding s.roles b && is_active_user s.users b.user_id

abbrev pub HasSuper : AuthzState → Type 0
HasSuper s = any (is_active_super s) s.bindings ≡ true

pub any-append :
    (p : Binding → Bool) (xs ys : List Binding) → any p (xs ++ ys) ≡ any p xs || any p ys
any-append p [] ys = refl
any-append p (x ∷ xs) ys = ground (arith, any-append p xs ys)

-- An entry that the selection keeps.
pub kept_any :
    (p q : Binding → Bool) (b : Binding) (bs : List Binding)
    → In b bs
    → p b ≡ true
    → q b ≡ true
    → any p (select q bs) ≡ true
kept_any p q b [] i h k = elim i [ ]
kept_any p q b (c ∷ bs) (inl e) h k = rw (sym e, k, h) refl
kept_any p q b (c ∷ bs) (inr i) h k = ground (arith, kept_any p q b bs i h k)

-- The new binding to the super administrators' role, of an active user.
new_super :
    (s : AuthzState) (user : Uuid) (role : Role) (by : Uuid)
    → find_role super_admin s.roles ≡ some role
    → is_active_user s.users user ≡ true
    → is_active_super s (system_binding user role.id (some by)) ≡ true
new_super s user role by found act =
    let named = find?-holds (λ r. r.key == super_admin) role s.roles found in
    let stands = find?-In (λ r. r.key == super_admin) role s.roles found in
    let held =
      In-any (λ r. r.id == role.id && r.key == super_admin) role s.roles stands (ground arith) in
    ground arith

-- Bindings of others stay.
revoked_keeps :
    (s : AuthzState) (user : Uuid) (b : Binding)
    → In b s.bindings
    → is_active_super s b ≡ true
    → (b.user_id == user) ≡ false
    → any (is_active_super s) (revoked user s) ≡ true
revoked_keeps s user b i h n =
    kept_any (is_active_super s) (λ b. not (applies_everywhere user b)) b s.bindings i h
      (ground arith)

others_remain :
    (s : AuthzState) (user : Uuid)
    → any (is_other_super s user) s.bindings ≡ true
    → any (is_active_super s) (revoked user s) ≡ true
others_remain s user h =
    let (b, i, e) = any-In (is_other_super s user) s.bindings h in
    revoked_keeps s user b i (ground arith) (ground arith)

granted_keeps :
    (s : AuthzState) (user : Uuid) (role_key : Option String) (by : Uuid) (bs : List Binding)
    → grant_system user role_key by s ≡ ok bs
    → any (is_active_super s) (revoked user s) ≡ true
    → any (is_active_super s) bs ≡ true
unfolding grant_system
granted_keeps s user none by bs e h =
    subst (λ cs. any (is_active_super s) cs ≡ true) (ok-injective e) h
granted_keeps s user (some key) by bs e h =
    let (role, f, g) =
      bind-ok
        (require_some (find_role key s.roles) internal "INTERNAL_ERROR" "role[0] is undefined") _ bs
        e in
    subst (λ cs. any (is_active_super s) cs ≡ true) (ok-injective g)
      (rw
        (
          any-append (is_active_super s) (revoked user s)
              (system_binding user role.id (some by) ∷ []),
          h,
        )
        refl)

granted_super :
    (s : AuthzState) (user : Uuid) (role_key : Option String) (by : Uuid) (bs : List Binding)
    → grant_system user role_key by s ≡ ok bs
    → names_super role_key ≡ true
    → is_active_user s.users user ≡ true
    → any (is_active_super s) bs ≡ true
unfolding grant_system
granted_super s user none by bs e n act = cc
granted_super s user (some key) by bs e n act =
    let (role, f, g) =
      bind-ok
        (require_some (find_role key s.roles) internal "INTERNAL_ERROR" "role[0] is undefined") _ bs
        e in
    let found = require_some_found (find_role key s.roles) role f in
    let super = subst (λ k. find_role k s.roles ≡ some role) ((eq_iff key super_admin).0 n) found in
    subst (λ cs. any (is_active_super s) cs ≡ true) (ok-injective g)
      (rw
        (any-append (is_active_super s) (revoked user s)
          (system_binding user role.id (some by) ∷ []))
        (ground (arith, new_super s user role by super act)))
  where
    require_some_found :
        (o : Option Role) (r : Role)
        → require_some o internal "INTERNAL_ERROR" "role[0] is undefined" ≡ ok r
        → o ≡ some r
    require_some_found none r e = cc
    require_some_found (some q) r e = ap some (ok-injective e)

-- The guard leaves a super administrator, whoever was one before.
guarded :
    (s : AuthzState) (user : Uuid) (role_key : Option String) (by : Uuid) (bs : List Binding)
    → HasSuper s
    → may_revoke user role_key s ≡ true
    → grant_system user role_key by s ≡ ok bs
    → any (is_active_super s) bs ≡ true
guarded s user role_key by bs h may e =
    let (b, i, p) = any-In (is_active_super s) s.bindings h in
    elim (Bool-cases (b.user_id == user)) [
      | inr n ↦ granted_keeps s user role_key by bs e (revoked_keeps s user b i p n)
      | inl m ↦ elim (Bool-cases (any (is_other_super s user) s.bindings)) [
        | inl o ↦ granted_keeps s user role_key by bs e (others_remain s user o)
        | inr o ↦
            granted_super s user role_key by bs e
              (ground (arith, In-any (is_super_of s.roles user) b s.bindings i (ground arith)))
              (subst (λ u. is_active_user s.users u ≡ true) ((nat_eq.beq_iff b.user_id user).0 m)
                (ground arith))
      ]
    ]

pub set-HasSuper :
    (user : Uuid) (role_key : Option String) (by : Uuid) (s : AuthzState)
    → HasSuper s
    → HasSuper (settled s (set_system_role user role_key by s))
unfolding set_system_role invalidate
set-HasSuper user role_key by s h =
    settled_bind HasSuper s
      (require (is_valid_system_role role_key) bad_request "BAD_ROLE" "不是有效的系统角色") _ h
      λ _ _.
        settled_bind HasSuper s
          (require (may_revoke user role_key s) bad_request "LAST_SUPER_ADMIN" "不能移除最后一个超级管理员") _ h
          λ _ may. settled_bind HasSuper s (grant_system user role_key by s) _ h λ bs e.
            guarded s user role_key by bs h
              (require_test (may_revoke user role_key s) bad_request "LAST_SUPER_ADMIN"
                "不能移除最后一个超级管理员" may)
              e
