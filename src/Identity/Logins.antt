-- ===== src/Identity/Logins.antt =====
-- No account that stays in use loses its last login method (apps/canvas-api/src/identity).
use xg_canvas.Identity.Service.{unbind}
use xg_canvas.Prelude.{
  string_eq, nat_eq, ◌==◌, Bool-cases, is_none, any, select, find?, find?-holds, In, In-select,
  any-In, find?-In, Uuid, not_found, conflict, ok, require_some-ok, require-ok, ok-injective,
  DistinctBy, eq_of_key, String, ◌≡◌, refl, sym, ◌∙◌, subst, inl, inr, Bool, true, false, not, ◌&&◌,
  List, [], ◌∷◌, ◌++◌, map, arith,
}
use xg_canvas.Authz.Types.{User}
use xg_canvas.Authz.Bindings.{is_active_user}
use xg_canvas.Identity.Methods.{login_method_count_pos, Identity, is_usable}
use xg_canvas.Identity.Accounts.{of_user, Accounts}
use xg_canvas.Identity.Merge.{
  asset_blocker, try_silent_merge, give_to, move_owner, tombstone, do_merge,
}

abbrev pub is_login_of : Uuid → Identity → Bool
is_login_of user i = i.user_id == user && is_usable i

abbrev pub has_login : Uuid → List Identity → Bool
has_login user is = any (is_login_of user) is

pub kept_by_map :
    (user : Uuid) (f : Identity → Identity) (is : List Identity)
    → ((i : Identity) → is_login_of user i ≡ true → is_login_of user (f i) ≡ true)
    → has_login user is ≡ true
    → has_login user (map f is) ≡ true
kept_by_map user f [] h e = cc
kept_by_map user f (i ∷ is) h e = ground (arith, h i, kept_by_map user f is h)

pub kept_by_insertion :
    (user : Uuid) (is js : List Identity)
    → has_login user is ≡ true
    → has_login user (is ++ js) ≡ true
kept_by_insertion user [] js e = cc
kept_by_insertion user (i ∷ is) js e = ground (arith, kept_by_insertion user is js)

pub kept_by_selection :
    (user : Uuid) (q : Identity → Bool) (i : Identity) (is : List Identity)
    → In i is
    → is_login_of user i ≡ true
    → q i ≡ true
    → has_login user (select q is) ≡ true
kept_by_selection user q i [] m e k = elim m [ ]
kept_by_selection user q i (j ∷ is) (inl s) e k = rw (sym s, k, e) refl
kept_by_selection user q i (j ∷ is) (inr m) e k =
    ground (arith, kept_by_selection user q i is m e k)

-- A merge takes the methods of the merged account only.
do_merge-has_login :
    (user survivor merged : Uuid) (kind : String) (a : Accounts)
    → (user == merged) ≡ false
    → has_login user a.identities ≡ true
    → has_login user (do_merge survivor merged kind a).identities ≡ true
unfolding do_merge
do_merge-has_login user survivor merged kind a n h =
    kept_by_map user (give_to survivor (λ i. i.user_id == merged)) a.identities
      (λ i e. ground arith) h

-- The merged account is out of use.
do_merge-merged :
    (survivor merged : Uuid) (kind : String) (a : Accounts)
    → is_active_user (do_merge survivor merged kind a).authz.users merged ≡ false
unfolding do_merge
do_merge-merged survivor merged kind a = gone _ a.authz.users
  where
    gone :
        (was : Bool) (us : List User)
        → is_active_user
            (map (λ u. tombstone survivor merged (move_owner was survivor merged u)) us)
            merged
          ≡ false
    gone was [] = refl
    gone was (u ∷ us) = ground (arith, gone was us)

-- What an operation promises for one account: if it is in use afterwards, it has not lost its last
-- method.
abbrev pub KeepsLogin : Uuid → Accounts → Accounts → Type 0
KeepsLogin user a b =
    has_login user a.identities ≡ true
    → is_active_user b.authz.users user ≡ true
    → has_login user b.identities ≡ true

pub do_merge-KeepsLogin :
    (user survivor merged : Uuid) (kind : String) (a : Accounts)
    → KeepsLogin user a (do_merge survivor merged kind a)
do_merge-KeepsLogin user survivor merged kind a h live = elim (Bool-cases (user == merged)) [
  | inr n ↦ do_merge-has_login user survivor merged kind a n h
  | inl e ↦
      let dead =
        subst (λ u. is_active_user (do_merge survivor merged kind a).authz.users u ≡ false)
          (sym ((nat_eq.beq_iff user merged).0 e)) (do_merge-merged survivor merged kind a) in
      cc
]

pub try_silent_merge-KeepsLogin :
    (user keep absorb : Uuid) (a : Accounts) → KeepsLogin user a (try_silent_merge keep absorb a).0
unfolding try_silent_merge
try_silent_merge-KeepsLogin user keep absorb a h live = elim (Bool-cases (keep == absorb)) [
  | inl e ↦ rw e h
  | inr e ↦ elim (Bool-cases (is_none (asset_blocker a.content absorb))) [
    | inl f ↦
        rw (e, f) (do_merge-KeepsLogin user keep absorb "silent_merge" a h (rw (e, f) at live))
    | inr f ↦ elim (Bool-cases (is_none (asset_blocker a.content keep))) [
      | inl g ↦
          rw (e, f, g)
            (do_merge-KeepsLogin user absorb keep "silent_merge" a h (rw (e, f, g) at live))
      | inr g ↦ rw (e, f, g) h
    ]
  ]
]

-- The rows of one owner that a guard leaves.
pub rest_has_login :
    (user : Uuid) (q : Identity → Bool) (is : List Identity)
    → any is_usable (select q (of_user user is)) ≡ true
    → has_login user (select q is) ≡ true
rest_has_login user q is h =
    let (i, m, e) = any-In is_usable (select q (of_user user is)) h in
    let (n, k) = In-select q i (of_user user is) m in
    let (o, own) = In-select (λ j. j.user_id == user) i is n in
    kept_by_selection user q i is o (ground arith) k

-- A row of another owner is none of the ids that belong to an owner's rows.
pub foreign_row :
    (user owner : Uuid) (i j : Identity) (is : List Identity)
    → DistinctBy (λ i. i.id) is
    → In i is
    → In j is
    → (i.user_id == user) ≡ true
    → (j.user_id == owner) ≡ true
    → (user == owner) ≡ false
    → (j.id == i.id) ≡ false
foreign_row user owner i j is d m n u o ne = elim (Bool-cases (j.id == i.id)) [
  | inr e ↦ e
  | inl e ↦
      let same = eq_of_key (λ i. i.id) j i is d n m ((nat_eq.beq_iff j.id i.id).0 e) in
      let own : (i.user_id == owner) ≡ true =
        subst (λ (k : Identity). (k.user_id == owner) ≡ true) same o in
      ground arith
]

pub unbind-KeepsLogin :
    (user owner id : Uuid) (a b : Accounts)
    → DistinctBy (λ i. i.id) a.identities
    → unbind owner id a ≡ ok b
    → KeepsLogin user a b
unfolding unbind
unbind-KeepsLogin user owner id a b d e h live =
    let (target, found, e') =
      require_some-ok (find? (λ i. i.id == id) (of_user owner a.identities)) not_found "NOT_FOUND"
        "identity not found" _ b e in
    let (guard, done) = require-ok _ conflict "LAST_LOGIN_IDENTITY" "这是唯一的登录方式，无法解绑" _ b e' in
    let (i, m, l) = any-In (is_login_of user) a.identities h in
    let (n, o) =
      In-select (λ i. i.user_id == owner) target a.identities
        (find?-In (λ i. i.id == id) target (of_user owner a.identities) found) in
    let t = find?-holds (λ i. i.id == id) target (of_user owner a.identities) found in
    subst (λ (c : Accounts). has_login user c.identities ≡ true) (ok-injective done)
      (elim (Bool-cases (user == owner)) [
        | inl s ↦
            subst (λ u. has_login u (select (λ i. not (i.id == id)) a.identities) ≡ true)
              (sym ((nat_eq.beq_iff user owner).0 s))
              (rest_has_login owner (λ i. not (i.id == id)) a.identities
                (sym (
                    login_method_count_pos
                      (select (λ i. not (i.id == id)) (of_user owner a.identities)))
                  ∙ guard))
        | inr s ↦
            kept_by_selection user (λ i. not (i.id == id)) i a.identities m l
              (ground (arith, foreign_row user owner i target a.identities d m n))
      ])
