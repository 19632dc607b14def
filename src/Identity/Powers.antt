-- ===== src/Identity/Powers.antt =====
-- What a merge of accounts does to administrators (apps/canvas-api/src/identity/merge.service.ts).
use xg_canvas.Prelude.{
  string_eq, nat_eq, ◌==◌, Bool-cases, any, select, In, any-In, In-any, Uuid, conflict, ok,
  require-ok, ok-injective, String, ◌≡◌, refl, sym, ◌∙◌, subst, ◌⊎◌, inl, inr, Bool, true, false,
  not, ◌&&◌, ◌||◌, List, [], ◌∷◌, ◌++◌, map, arith,
}
use xg_canvas.Authz.Types.{User, Binding}
use xg_canvas.Authz.Resolve.{is_super_binding, applies_everywhere}
use xg_canvas.Authz.Bindings.{is_active_user, system_binding}
use xg_canvas.Authz.Supers.{kept_any, is_active_super, HasSuper, any-append}
use xg_canvas.Identity.Accounts.{Accounts}
use xg_canvas.Identity.Merge.{
  move_owner, tombstone, full_merge, is_owner, handed_over, merge_bindings, do_merge,
  is_super_admin,
}

any-false :
    (p : Binding → Bool) (b : Binding) (bs : List Binding)
    → any p bs ≡ false
    → In b bs
    → p b ≡ false
any-false p b bs h i = elim (Bool-cases (p b)) [
  | inl e ↦ let t = In-any p b bs i e in cc
  | inr e ↦ e
]

-- A selection that drops nothing of what is looked for.
any-select_same :
    (p q : Binding → Bool) (bs : List Binding)
    → ((b : Binding) → In b bs → p b ≡ true → q b ≡ true)
    → any p (select q bs) ≡ any p bs
any-select_same p q [] h = refl
any-select_same p q (b ∷ bs) h =
    ground (arith, h b (inl refl), any-select_same p q bs (λ c i. h c (inr i)))

none-handed_over :
    (p : Binding → Bool) (survivor merged : Uuid) (bs : List Binding)
    → ((b : Binding)
        → In b bs
        → applies_everywhere merged b ≡ true
        → p (system_binding survivor b.role_id b.granted_by) ≡ false)
    → any p (handed_over survivor merged bs) ≡ false
none-handed_over p survivor merged [] h = refl
none-handed_over p survivor merged (b ∷ bs) h =
    ground (arith, h b (inl refl), none-handed_over p survivor merged bs (λ c i. h c (inr i)))

In-append : (b : Binding) (xs ys : List Binding) → In b (xs ++ ys) → In b xs ⊎ In b ys
In-append b [] ys i = inr i
In-append b (x ∷ xs) ys (inl e) = inl (inl e)
In-append b (x ∷ xs) ys (inr i) = elim (In-append b xs ys i) [ inl j ↦ inl (inr j) | inr j ↦ inr j ]

handed_over-user :
    (survivor merged : Uuid) (b : Binding) (bs : List Binding)
    → In b (handed_over survivor merged bs)
    → (b.user_id == survivor) ≡ true
handed_over-user survivor merged b [] i = elim i [ ]
handed_over-user survivor merged b (c ∷ bs) i = elim (Bool-cases (applies_everywhere merged c)) [
  | inl e ↦ first (handed_over-user survivor merged b bs) (rw e at i)
  | inr e ↦ handed_over-user survivor merged b bs (rw e at i)
]
  where
    first :
        (In b (handed_over survivor merged bs) → (b.user_id == survivor) ≡ true)
        → In b (system_binding survivor c.role_id c.granted_by ∷ handed_over survivor merged bs)
        → (b.user_id == survivor) ≡ true
    first rest (inl e) = rw e ((nat_eq.beq_iff survivor survivor).1 refl)
    first rest (inr j) = rest j

module _ (survivor merged : Uuid) (kind : String) (a : Accounts)
    (other : (survivor == merged) ≡ false) where
  -- What counts after the merge among the bindings before and those handed over.
  merged-bindings :
      (p : Binding → Bool)
      → ((b : Binding)
          → In b a.authz.bindings
          → p b ≡ true
          → not (applies_everywhere merged b) ≡ true)
      → any p (merge_bindings survivor merged a.authz.bindings)
        ≡ any p a.authz.bindings || any p (handed_over survivor merged a.authz.bindings)
  merged-bindings p h =
      any-select_same p (λ b. not (applies_everywhere merged b))
        (a.authz.bindings ++ handed_over survivor merged a.authz.bindings)
        (λ b i e. elim (In-append b a.authz.bindings _ i) [
          | inl j ↦ h b j e
          | inr j ↦ ground (arith, handed_over-user survivor merged b a.authz.bindings j)
        ])
      ∙ any-append p a.authz.bindings (handed_over survivor merged a.authz.bindings)

  do_merge-super :
      (user : Uuid)
      → is_super_admin a.authz merged ≡ false
      → is_super_admin (do_merge survivor merged kind a).authz user ≡ is_super_admin a.authz user
  unfolding do_merge
  do_merge-super user n =
      let p = λ (b : Binding). b.user_id == user && is_super_binding a.authz.roles b in
      let clear = λ (b : Binding) (i : In b a.authz.bindings).
        any-false (λ b. b.user_id == merged && is_super_binding a.authz.roles b) b a.authz.bindings
          n i in
      rw
        (
          merged-bindings p (λ b i e. ground (arith, clear b i)),
          none-handed_over p survivor merged a.authz.bindings (λ b i e. ground (arith, clear b i)),
        )
        (ground arith)

not_owner-merge :
    (survivor merged user : Uuid) (us : List User)
    → is_owner user (map (λ u. tombstone survivor merged (move_owner false survivor merged u)) us)
      ≡ is_owner user us
not_owner-merge survivor merged user [] = refl
not_owner-merge survivor merged user (u ∷ us) =
    ground (arith, not_owner-merge survivor merged user us)

kept_owner :
    (caller target user : Uuid) (a : Accounts)
    → is_owner target a.authz.users ≡ false
    → is_owner user (do_merge caller target "full_merge" a).authz.users
      ≡ is_owner user a.authz.users
unfolding do_merge
kept_owner caller target user a n = rw n (not_owner-merge caller target user a.authz.users)

-- A merge that a user asks for and that is accepted makes nobody a super administrator or the
-- instance owner, and takes neither power from anyone.
pub full_merge_keeps_powers :
    (caller target user : Uuid) (a b : Accounts)
    → full_merge caller target a ≡ ok b
    → (is_super_admin b.authz user ≡ is_super_admin a.authz user)
      × (is_owner user b.authz.users ≡ is_owner user a.authz.users)
unfolding full_merge
full_merge_keeps_powers caller target user a b e =
    let (self, e1) = require-ok _ conflict "SELF_MERGE" "不能与自己合并" _ b e in
    let (owner, e2) = require-ok _ conflict "CANNOT_MERGE_INSTANCE_OWNER" "不能合并实例所有者账户" _ b e1 in
    let (super, e3) = require-ok _ conflict "CANNOT_MERGE_SUPER_ADMIN" "不能合并超级管理员账户" _ b e2 in
    let (_, e4) = require-ok _ conflict "TARGET_HAS_ASSETS" "对方账户存在内容，无法自助合并，请联系人工" _ b e3 in
    subst
      (λ (c : Accounts).
        (is_super_admin c.authz user ≡ is_super_admin a.authz user)
        × (is_owner user c.authz.users ≡ is_owner user a.authz.users))
      (ok-injective e4)
      (
        do_merge-super caller target "full_merge" a (negated _ self) user (negated _ super),
        kept_owner caller target user a (negated _ owner),
      )
  where
    negated : (t : Bool) → not t ≡ true → t ≡ false
    negated t h = ground arith

In-append_left : (b : Binding) (xs ys : List Binding) → In b xs → In b (xs ++ ys)
In-append_left b [] ys i = elim i [ ]
In-append_left b (x ∷ xs) ys (inl e) = inl e
In-append_left b (x ∷ xs) ys (inr i) = inr (In-append_left b xs ys i)

In-append_right : (b : Binding) (xs ys : List Binding) → In b ys → In b (xs ++ ys)
In-append_right b [] ys i = i
In-append_right b (x ∷ xs) ys i = inr (In-append_right b xs ys i)

any-handed_over :
    (p : Binding → Bool) (survivor merged : Uuid) (b : Binding) (bs : List Binding)
    → In b bs
    → applies_everywhere merged b ≡ true
    → p (system_binding survivor b.role_id b.granted_by) ≡ true
    → any p (handed_over survivor merged bs) ≡ true
any-handed_over p survivor merged b [] i e h = elim i [ ]
any-handed_over p survivor merged b (c ∷ bs) (inl s) e h = rw (sym s, e, h) refl
any-handed_over p survivor merged b (c ∷ bs) (inr i) e h =
    ground (arith, any-handed_over p survivor merged b bs i e h)

active_after :
    (survivor merged user : Uuid) (was : Bool) (us : List User)
    → (user == merged) ≡ false
    → is_active_user us user ≡ true
    → is_active_user
        (map (λ u. tombstone survivor merged (move_owner was survivor merged u)) us)
        user
      ≡ true
active_after survivor merged user was [] n h = cc
active_after survivor merged user was (u ∷ us) n h =
    ground (arith, active_after survivor merged user was us n)

module _ (survivor merged : Uuid) (kind : String) (a : Accounts)
    (other : (survivor == merged) ≡ false)
    (in_use : is_active_user a.authz.users survivor ≡ true) where
  -- If the account that survives a merge is in use, the merge leaves an active super administrator
  -- where there was one, be it the merged account itself.
  pub do_merge-HasSuper : HasSuper a.authz → HasSuper (do_merge survivor merged kind a).authz
  unfolding do_merge
  do_merge-HasSuper h =
      let z = (do_merge survivor merged kind a).authz in
      let bs = a.authz.bindings in
      let handed = handed_over survivor merged bs in
      let was = is_owner merged a.authz.users in
      let (b, i, e) = any-In (is_active_super a.authz) bs h in
      elim (Bool-cases (b.user_id == merged)) [
        | inr n ↦
            kept_any (is_active_super z) (λ c. not (applies_everywhere merged c)) b (bs ++ handed)
              (In-append_left b bs handed i)
              (ground (arith, active_after survivor merged b.user_id was a.authz.users n))
              (ground arith)
        | inl m ↦
            let (c, j, f) = any-In (is_active_super z) handed (
              any-handed_over (is_active_super z) survivor merged b bs i (ground arith) (
                ground
                  (arith, active_after survivor merged survivor was a.authz.users other in_use))) in
            kept_any (is_active_super z) (λ c. not (applies_everywhere merged c)) c (bs ++ handed)
              (In-append_right c bs handed j) f
              (ground (arith, handed_over-user survivor merged c bs j))
      ]
