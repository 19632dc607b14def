-- ===== src/Authz/Computed.antt =====
-- Which rows a user's permissions depend on (the queries of apps/canvas-api/src/authz/
-- authz.service.ts).
use xg_canvas.Prelude.{
  string_eq, nat_eq, ◌==◌, Bool-cases, any, select, All, Uuid, String, ◌≡◌, refl, sym, subst, inl,
  inr, Bool, true, false, ◌&&◌, List, [], ◌∷◌, ◌++◌, map, arith,
}
use xg_canvas.Authz.Types.{system, project, scope_beq, uuid_beq, Binding, RolePermission, CapsKey}
use xg_canvas.Authz.Resolve.{holders, permission_rows, computed}

-- Two lists of bindings on which a user stands the same.
abbrev pub SameFor : Uuid → List Binding → List Binding → Type 0
SameFor user bs cs =
    (p : Binding → Bool)
    → select (λ b. b.user_id == user && p b) bs ≡ select (λ b. b.user_id == user && p b) cs

pub computed-SameFor :
    (rps : List RolePermission) (bs cs : List Binding) (k : CapsKey)
    → SameFor k.user_id bs cs
    → computed rps bs k ≡ computed rps cs k
unfolding computed
computed-SameFor rps bs cs k h =
    let sys = h (λ b. scope_beq b.scope_kind system) in
    let proj = h (λ b. scope_beq b.scope_kind project && uuid_beq b.scope_id k.scope_id) in
    rw (sys, proj) refl

-- Bindings of others may go and come.
pub SameFor-select :
    (user : Uuid) (q : Binding → Bool) (bs : List Binding)
    → ((b : Binding) → (b.user_id == user) ≡ true → q b ≡ true)
    → SameFor user (select q bs) bs
SameFor-select user q [] h p = refl
SameFor-select user q (b ∷ bs) h p = ground (arith, h b, SameFor-select user q bs h p)

pub SameFor-append :
    (user : Uuid) (bs cs : List Binding)
    → All (λ b. (b.user_id == user) ≡ false) cs
    → SameFor user (bs ++ cs) bs
SameFor-append user [] cs h p = none_of cs h
  where
    none_of :
        (cs : List Binding)
        → All (λ b. (b.user_id == user) ≡ false) cs
        → select (λ b. b.user_id == user && p b) cs ≡ []
    none_of [] h = refl
    none_of (c ∷ cs) h = ground (arith, none_of cs h.1)
SameFor-append user (b ∷ bs) cs h p = ground (arith, SameFor-append user bs cs h p)

-- The permissions of one role.
abbrev pub rows_of : List RolePermission → Uuid → List String
rows_of rps role = map (λ rp. rp.permission_key) (select (λ rp. rp.role_id == role) rps)

permission_rows_same :
    (rps rps' : List RolePermission) (role : Uuid) (bs : List Binding)
    → ((r : Uuid) → (r == role) ≡ false → rows_of rps' r ≡ rows_of rps r)
    → All (λ b. (b.role_id == role) ≡ false) bs
    → permission_rows rps' bs ≡ permission_rows rps bs
unfolding permission_rows
permission_rows_same rps rps' role [] h a = refl
permission_rows_same rps rps' role (b ∷ bs) h a =
    rw (h b.role_id a.0, permission_rows_same rps rps' role bs h a.1) refl

holders_tail :
    (role user : Uuid) (b : Binding) (bs : List Binding)
    → any (λ v. v == user) (holders role (b ∷ bs)) ≡ false
    → any (λ v. v == user) (holders role bs) ≡ false
unfolding holders
holders_tail role user b bs h = ground arith

holders_head :
    (role user : Uuid) (b : Binding) (bs : List Binding)
    → any (λ v. v == user) (holders role (b ∷ bs)) ≡ false
    → (b.user_id == user) ≡ true
    → (b.role_id == role) ≡ false
unfolding holders
holders_head role user b bs h e =
    let same = sym ((nat_eq.beq_iff b.user_id user).0 e) in
    let h' : any (λ v. v == b.user_id) (holders role (b ∷ bs)) ≡ false =
      subst (λ u. any (λ v. v == u) (holders role (b ∷ bs)) ≡ false) same h in
    ground arith

-- A user who does not hold a role does not see a change of its permissions.
not_holder :
    (role user : Uuid) (p : Binding → Bool) (bs : List Binding)
    → any (λ v. v == user) (holders role bs) ≡ false
    → All (λ b. (b.role_id == role) ≡ false) (select (λ b. b.user_id == user && p b) bs)
unfolding holders
not_holder role user p [] h = tt
not_holder role user p (b ∷ bs) h =
    let rest = not_holder role user p bs (holders_tail role user b bs h) in
    elim (Bool-cases (b.user_id == user && p b)) [
      | inl e ↦ rw e (holders_head role user b bs h (and_left (b.user_id == user) (p b) e), rest)
      | inr e ↦ rw e rest
    ]
  where
    and_left : (x y : Bool) → (x && y) ≡ true → x ≡ true
    and_left x y e = ground arith

pub computed-other_role :
    (rps rps' : List RolePermission) (role : Uuid) (bs : List Binding) (k : CapsKey)
    → ((r : Uuid) → (r == role) ≡ false → rows_of rps' r ≡ rows_of rps r)
    → any (λ v. v == k.user_id) (holders role bs) ≡ false
    → computed rps' bs k ≡ computed rps bs k
unfolding computed
computed-other_role rps rps' role bs k h n =
    let sys =
      permission_rows_same rps rps' role _ h
        (not_holder role k.user_id (λ b. scope_beq b.scope_kind system) bs n) in
    let proj = permission_rows_same rps rps' role _ h (
      not_holder role k.user_id
        (λ b. scope_beq b.scope_kind project && uuid_beq b.scope_id k.scope_id) bs n) in
    rw (sys, proj) refl
