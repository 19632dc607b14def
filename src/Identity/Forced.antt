-- ===== src/Identity/Forced.antt =====
-- A forced move of login methods leaves both accounts with one (forceBind of
-- apps/canvas-api/src/identity/merge.service.ts).
use xg_canvas.Prelude.{
  leb, string_eq, nat_eq, ◌==◌, Bool-cases, any, select, In, In-select, any-In, Uuid, conflict, ok,
  require-ok, ok-injective, DistinctBy, String, ◌≡◌, refl, sym, ◌∙◌, subst, inl, inr, Bool, true,
  false, not, ◌&&◌, List, [], ◌∷◌, map, arith,
}
use xg_canvas.Identity.Methods.{
  Identity, is_wechat, login_method_count, is_usable, login_method_count_pos,
}
use xg_canvas.Identity.Accounts.{Accounts, of_user}
use xg_canvas.Identity.Merge.{is_truthy, key_beq, moved_ids, is_among, give_to, bind_from}
use xg_canvas.Identity.Logins.{is_login_of, has_login, KeepsLogin, foreign_row}

any-map : (p : Uuid → Bool) (is : List Identity) → any p (map (λ i. i.id) is) ≡ any (λ i. p i.id) is
any-map p [] = refl
any-map p (i ∷ is) = ground (arith, any-map p is)

In-of_user :
    (user : Uuid) (i : Identity) (is : List Identity)
    → In i is
    → (i.user_id == user) ≡ true
    → In i (of_user user is)
In-of_user user i [] m e = m
In-of_user user i (j ∷ is) (inl s) e =
    rw (subst (λ (k : Identity). (k.user_id == user) ≡ true) s e) (inl s)
In-of_user user i (j ∷ is) (inr m) e = elim (Bool-cases (j.user_id == user)) [
  | inl f ↦ rw f (inr (In-of_user user i is m e))
  | inr f ↦ rw f (In-of_user user i is m e)
]

-- An id that is moved is one of the owner's rows.
moved_among :
    (idn i : Identity) (provider : String) (rows : List Identity)
    → In idn rows
    → is_among (moved_ids idn provider rows) i ≡ true
    → (j : Identity) × In j rows × (j.id == i.id ≡ true)
moved_among idn i provider rows m h =
    elim (Bool-cases (is_truthy idn.union_key && is_wechat provider)) [
      | inl e ↦
          let family =
            λ (k : Identity). key_beq k.union_key idn.union_key && is_wechat k.provider in
          let h' : any (λ j. j == i.id) (map (λ k. k.id) (select family rows)) ≡ true = rw e at h in
          let (j, n, k) =
            any-In (λ (j : Identity). j.id == i.id) (select family rows)
              (sym (any-map (λ j. j == i.id) (select family rows)) ∙ h') in
          (j, (In-select family j rows n).0, k)
      | inr e ↦
          let h' : any (λ j. j == i.id) (idn.id ∷ []) ≡ true = rw e at h in (idn, m, ground arith)
    ]

has_login_moved :
    (user : Uuid) (f : Identity → Identity) (i : Identity) (is : List Identity)
    → In i is
    → is_login_of user (f i) ≡ true
    → has_login user (map f is) ≡ true
has_login_moved user f i [] m e = elim m [ ]
has_login_moved user f i (j ∷ is) (inl s) e = rw (sym s, e) refl
has_login_moved user f i (j ∷ is) (inr m) e = ground (arith, has_login_moved user f i is m e)

-- What the guard of the move leaves.
left_has_login :
    (caller owner : Uuid) (ids : List Uuid) (is : List Identity)
    → any is_usable (select (λ i. not (is_among ids i)) (of_user owner is)) ≡ true
    → has_login owner (map (give_to caller (is_among ids)) is) ≡ true
left_has_login caller owner ids is h =
    let (i, m, e) = any-In is_usable (select (λ i. not (is_among ids i)) (of_user owner is)) h in
    let (n, k) = In-select (λ i. not (is_among ids i)) i (of_user owner is) m in
    let (o, own) = In-select (λ j. j.user_id == owner) i is n in
    has_login_moved owner (give_to caller (is_among ids)) i is o (ground arith)

module _ (caller : Uuid) (provider : String) (idn : Identity) (a : Accounts)
    (d : DistinctBy (λ i. i.id) a.identities) (m : In idn a.identities) where
  bystander :
      (user : Uuid)
      → (user == idn.user_id) ≡ false
      → has_login user a.identities ≡ true
      → has_login user (
          map
            (give_to caller (is_among (moved_ids idn provider (of_user idn.user_id a.identities))))
            a.identities)
        ≡ true
  bystander user n h =
      let rows = of_user idn.user_id a.identities in
      let ids = moved_ids idn provider rows in
      let (i, k, l) = any-In (is_login_of user) a.identities h in
      elim (Bool-cases (is_among ids i)) [
        | inr f ↦
            has_login_moved user (give_to caller (is_among ids)) i a.identities k (ground arith)
        | inl f ↦
            let own = In-of_user idn.user_id idn a.identities m (ground arith) in
            let (j, r, q) = moved_among idn i provider rows own f in
            let (o, mine) = In-select (λ x. x.user_id == idn.user_id) j a.identities r in
            let foreign =
              foreign_row user idn.user_id i j a.identities d k o (ground arith) mine n in
            cc
      ]

  pub bind_from-KeepsLogin :
      (user : Uuid) (b : Accounts) → bind_from caller provider idn a ≡ ok b → KeepsLogin user a b
  unfolding bind_from
  bind_from-KeepsLogin user b e h live = elim (Bool-cases (idn.user_id == caller)) [
    | inl s ↦
        let e' : ok a ≡ ok b = rw s at e in
        subst (λ (c : Accounts). has_login user c.identities ≡ true) (ok-injective e') h
    | inr s ↦
        let rows = of_user idn.user_id a.identities in
        let ids = moved_ids idn provider rows in
        let (guard, done) =
          require-ok (leb 1 (login_method_count (select (λ i. not (is_among ids i)) rows))) conflict
            "WOULD_ORPHAN_TARGET" "对方账户将失去唯一登录方式，无法强制绑定" _ b (rw s at e) in
        subst (λ (c : Accounts). has_login user c.identities ≡ true) (ok-injective done)
          (elim (Bool-cases (user == idn.user_id)) [
            | inl o ↦
                subst (λ u. has_login u (map (give_to caller (is_among ids)) a.identities) ≡ true)
                  (sym ((nat_eq.beq_iff user idn.user_id).0 o))
                  (left_has_login caller idn.user_id ids a.identities (
                    sym (login_method_count_pos (select (λ i. not (is_among ids i)) rows)) ∙ guard))
            | inr o ↦ bystander user o h
          ])
  ]
