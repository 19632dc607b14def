-- ===== src/Authz/Allowed.antt =====
-- What `can` answers, described by the tables alone (apps/canvas-api/src/authz/authz.service.ts).
use xg_canvas.Authz.Cache.{IsCoherent, IsCached}
use xg_canvas.Prelude.{
  if◌then◌else◌, string_eq, nat_eq, ◌==◌, Bool-cases, is_some, Option-cases, any, select,
  find?-holds, find?-In, All-In, Uuid, String, ◌≡◌, refl, ap, ◌∙◌, subst, fun_ext, inl, inr, Bool,
  true, false, ◌&&◌, ◌||◌, Option, none, some, List, [], ◌∷◌, ◌++◌, map, eq_iff, arith,
}
use xg_canvas.Authz.Types.{
  CapsEntry, Scope, system, project, scope_beq, uuid_beq, Binding, RolePermission, CapsKey,
  caps_key, caps_key_beq, AuthzState,
}
use xg_canvas.Authz.Catalog.{all_permission_keys}
use xg_canvas.Authz.Resolve.{
  cached, resolve_capabilities, can, computed, set_add, has_permission, contains, add_all,
  is_super_or_owner, permission_rows, applies_everywhere, applies_in_project,
}

-- A binding counts in a scope: a system binding everywhere, a project's in that project.
abbrev pub covers : CapsKey → Binding → Bool
covers k b =
    applies_everywhere k.user_id b
    || (scope_beq k.scope_kind project
        && is_some k.scope_id
        && applies_in_project k.user_id k.scope_id b)

-- Super administrators and the owner have every permission of the catalog; others have those of
-- the bindings that count.
abbrev pub allowed : AuthzState → Uuid → String → Scope → Option Uuid → Bool
allowed s user permission scope id =
    if is_super_or_owner s user
    then contains permission all_permission_keys
    else any
        (λ b. covers (caps_key user scope id) b && has_permission s.role_permissions permission b)
        s.bindings

pub contains-nil : (p : String) → contains p [] ≡ false
unfolding contains
contains-nil p = refl

contains-cons : (p x : String) (xs : List String) → contains p (x ∷ xs) ≡ (x == p) || contains p xs
unfolding contains
contains-cons p x xs = refl

contains-append :
    (p : String) (xs ys : List String) → contains p (xs ++ ys) ≡ contains p xs || contains p ys
unfolding contains
contains-append p [] ys = refl
contains-append p (x ∷ xs) ys = ground (arith, contains-append p xs ys)

added :
    (p x : String) (acc rows : List String)
    → contains p (set_add acc x) || contains p rows ≡ contains p acc || contains p (x ∷ rows)
added p x acc rows = elim (Bool-cases (contains x acc)) [
  | inl e ↦ rw e (present e)
  | inr e ↦ rw e (rw (contains-append p acc (x ∷ [])) absent)
]
  where
    present :
        contains x acc ≡ true
        → contains p acc || contains p rows ≡ contains p acc || contains p (x ∷ rows)
    present e =
        let held =
          λ (q : (x == p) ≡ true). subst (λ y. contains y acc ≡ true) ((eq_iff x p).0 q) e in
        elim (Bool-cases (x == p)) [
          | inl q ↦ ground (arith, held q, contains-cons p x rows)
          | inr q ↦ ground (arith, contains-cons p x rows)
        ]

    absent :
        (contains p acc || contains p (x ∷ [])) || contains p rows
        ≡ contains p acc || contains p (x ∷ rows)
    absent = ground (arith, contains-cons p x rows, contains-cons p x [], contains-nil p)

contains-add_all :
    (p : String) (acc rows : List String)
    → contains p (add_all acc rows) ≡ contains p acc || contains p rows
unfolding add_all
contains-add_all p acc [] = ground arith
contains-add_all p acc (x ∷ rows) =
    let rest = contains-add_all p (set_add acc x) rows in rest ∙ added p x acc rows

contains-rows :
    (p : String) (rps : List RolePermission) (role : Uuid)
    → contains p (map (λ rp. rp.permission_key) (select (λ rp. rp.role_id == role) rps))
      ≡ any (λ rp. rp.role_id == role && rp.permission_key == p) rps
unfolding contains
contains-rows p [] role = refl
contains-rows p (rp ∷ rps) role = ground (arith, contains-rows p rps role)

contains-permission_rows :
    (p : String) (rps : List RolePermission) (f : Binding → Bool) (bs : List Binding)
    → contains p (permission_rows rps (select f bs)) ≡ any (λ b. f b && has_permission rps p b) bs
unfolding permission_rows
contains-permission_rows p rps f [] = contains-nil p
contains-permission_rows p rps f (b ∷ bs) = elim (Bool-cases (f b)) [
  | inl e ↦ rw e (
      rw
        (
          contains-append p
              (map (λ rp. rp.permission_key) (select (λ rp. rp.role_id == b.role_id) rps))
              (permission_rows rps (select f bs)),
          contains-rows p rps b.role_id,
          contains-permission_rows p rps f bs,
        )
        refl)
  | inr e ↦ rw e (contains-permission_rows p rps f bs)
]

any-or :
    (f g h : Binding → Bool) (bs : List Binding)
    → any (λ b. f b && h b) bs || any (λ b. g b && h b) bs ≡ any (λ b. (f b || g b) && h b) bs
any-or f g h [] = refl
any-or f g h (b ∷ bs) = ground (arith, any-or f g h bs)

uuid_eq : (a b : Option Uuid) → uuid_beq a b ≡ true → a ≡ b
uuid_eq none none h = refl
uuid_eq (some a) (some b) h = ground arith
uuid_eq none (some b) h = cc
uuid_eq (some a) none h = cc

scope_eq : (a b : Scope) → scope_beq a b ≡ true → a ≡ b
scope_eq system system h = refl
scope_eq project project h = refl
scope_eq system project h = cc
scope_eq project system h = cc

caps_key_eq : (j k : CapsKey) → caps_key_beq j k ≡ true → j ≡ k
caps_key_eq j k h =
    ground (arith, uuid_eq j.scope_id k.scope_id, scope_eq j.scope_kind k.scope_kind)

any-eq :
    (f g : Binding → Bool) (bs : List Binding) → ((b : Binding) → f b ≡ g b) → any f bs ≡ any g bs
any-eq f g bs h = ap (λ p. any p bs) (fun_ext h)

-- The two queries together read the rows of the bindings that either selects.
contains-two_queries :
    (p : String) (rps : List RolePermission) (f g : Binding → Bool) (both : Bool)
    (bs : List Binding)
    → contains p (
        if both
        then add_all
            (add_all [] (permission_rows rps (select f bs)))
            (permission_rows rps (select g bs))
        else add_all [] (permission_rows rps (select f bs)))
      ≡ any (λ b. (f b || (both && g b)) && has_permission rps p b) bs
contains-two_queries p rps f g true bs =
    rw
      (
        contains-add_all p (add_all [] (permission_rows rps (select f bs)))
            (permission_rows rps (select g bs)),
        contains-add_all p [] (permission_rows rps (select f bs)),
        contains-nil p,
        contains-permission_rows p rps f bs,
        contains-permission_rows p rps g bs,
      )
      (any-or f g (has_permission rps p) bs)
contains-two_queries p rps f g false bs =
    rw
      (
        contains-add_all p [] (permission_rows rps (select f bs)),
        contains-nil p,
        contains-permission_rows p rps f bs,
      )
      (any-eq (λ b. f b && has_permission rps p b) (λ b. (f b || false) && has_permission rps p b)
        bs (λ b. ground arith))

contains-computed :
    (s : AuthzState) (p : String) (k : CapsKey)
    → contains p (computed s.role_permissions s.bindings k)
      ≡ any (λ b. covers k b && has_permission s.role_permissions p b) s.bindings
unfolding computed
contains-computed s p k =
    contains-two_queries p s.role_permissions (applies_everywhere k.user_id)
      (applies_in_project k.user_id k.scope_id)
      (scope_beq k.scope_kind project && is_some k.scope_id) s.bindings

cached-caps :
    (f : CapsKey → List String) (s : AuthzState) (k : CapsKey) (e : CapsEntry)
    → IsCached f s
    → cached k s.caps ≡ some e
    → e.caps ≡ f k
cached-caps f s k e h found =
    let i = find?-In (λ e. caps_key_beq e.key k) e s.caps found in
    let same = caps_key_eq e.key k (find?-holds (λ e. caps_key_beq e.key k) e s.caps found) in
    (All-In _ e s.caps h i).0 ∙ ap f same

resolved :
    (user : Uuid) (scope : Scope) (id : Option Uuid) (s : AuthzState)
    → IsCoherent s
    → is_super_or_owner s user ≡ false
    → (resolve_capabilities user scope id s).1
      ≡ computed s.role_permissions s.bindings (caps_key user scope id)
unfolding resolve_capabilities
resolved user scope id s h e = elim (Option-cases (cached (caps_key user scope id) s.caps)) [
  | inl m ↦ rw (e, m) refl
  | inr (c, m) ↦
      rw (e, m)
        (cached-caps (computed s.role_permissions s.bindings) s (caps_key user scope id) c h m)
]

resolved_super :
    (user : Uuid) (scope : Scope) (id : Option Uuid) (s : AuthzState)
    → is_super_or_owner s user ≡ true
    → (resolve_capabilities user scope id s).1 ≡ all_permission_keys
unfolding resolve_capabilities
resolved_super user scope id s e = rw e refl

pub can-allowed :
    (user : Uuid) (permission : String) (scope : Scope) (id : Option Uuid) (s : AuthzState)
    → IsCoherent s
    → (can user permission scope id s).1 ≡ allowed s user permission scope id
unfolding can
can-allowed user permission scope id s h = elim (Bool-cases (is_super_or_owner s user)) [
  | inl e ↦ rw (e, resolved_super user scope id s e) refl
  | inr e ↦
      rw (e, resolved user scope id s h e) (contains-computed s permission (caps_key user scope id))
]
