-- ===== src/Identity/Runs.antt =====
-- Every operation on login methods, and what all of them keep (apps/canvas-api/src/identity).
use xg_canvas.Authz.Bindings.{is_active_user}
use xg_canvas.Prelude.{
  if◌then◌else◌, string_eq, nat_eq, ◌==◌, Bool-cases, Option-cases, find?-In, Uuid, Timestamp,
  not_found, conflict, Result, ok, err, require_some-ok, require-ok, ok-injective, DistinctBy,
  String, ◌≡◌, refl, subst, inl, inr, true, ◌&&◌, Option, none, some, List, arith,
}
use xg_canvas.Identity.Methods.{Identity, group_of, is_usable}
use xg_canvas.Identity.Accounts.{Accounts, find_identity}
use xg_canvas.Identity.Merge.{force_bind, full_merge}
use xg_canvas.Identity.Service.{
  ResolvedIdentity, FreshIds, union_owner, touch_identity, touch, create_user, late_merge,
  find_or_create_by, find_or_create, create_password_user, register_with_password, bind_to,
  bind_resolved, unbind,
}
use xg_canvas.Identity.Logins.{
  is_login_of, has_login, kept_by_map, kept_by_insertion, KeepsLogin, do_merge-KeepsLogin,
  try_silent_merge-KeepsLogin, unbind-KeepsLogin,
}
use xg_canvas.Identity.Forced.{bind_from-KeepsLogin}

-- The services' calls, with the clock and the ids of new rows.
pub data IdentityOp : Type 0 where
  logs_in : Timestamp → FreshIds → ResolvedIdentity → IdentityOp
  registers : Timestamp → FreshIds → String → String → IdentityOp
  binds : Timestamp → Uuid → Uuid → ResolvedIdentity → IdentityOp
  unbinds : Uuid → Uuid → IdentityOp
  forces : Uuid → String → String → IdentityOp
  merges : Uuid → Uuid → IdentityOp

-- A call that throws has changed nothing.
abbrev pub accounts_after : Accounts → Result Accounts → Accounts
accounts_after a (ok b) = b
accounts_after a (err e) = a

abbrev pub accounts_of : Accounts → Result (Accounts × Uuid) → Accounts
accounts_of a (ok r) = r.0
accounts_of a (err e) = a

unfoldable pub run_identity : IdentityOp → Accounts → Accounts
run_identity (logs_in now ids r) a = (find_or_create now ids r a).0
run_identity (registers now ids email hash) a =
    accounts_after a (register_with_password now ids email hash a)
run_identity (binds now id user r) a = accounts_of a (bind_resolved now id user r a)
run_identity (unbinds user id) a = accounts_after a (unbind user id a)
run_identity (forces caller provider uid) a = accounts_after a (force_bind caller provider uid a)
run_identity (merges caller target) a = accounts_after a (full_merge caller target a)

module _ (user : Uuid) where
  -- If an accepted call keeps the logins, so does the call.
  after-KeepsLogin :
      (a : Accounts) (r : Result Accounts)
      → ((b : Accounts) → r ≡ ok b → KeepsLogin user a b)
      → KeepsLogin user a (accounts_after a r)
  after-KeepsLogin a (ok b) f h live = f b refl h live
  after-KeepsLogin a (err e) f h live = h

  touch-is_usable :
      (now : Timestamp) (i : Identity)
      → is_usable i ≡ true
      → is_usable (touch_identity now i) ≡ true
  unfolding group_of
  touch-is_usable now i e = elim (Option-cases i.verified_at) [
    | inl v ↦ ground arith
    | inr (t, v) ↦ ground arith
  ]

  touched :
      (now : Timestamp) (id : Uuid) (i : Identity)
      → is_login_of user i ≡ true
      → is_login_of user (if i.id == id then touch_identity now i else i) ≡ true
  touched now id i e = ground (arith, touch-is_usable now i)

  touch-has_login :
      (now : Timestamp) (id : Uuid) (is : List Identity)
      → has_login user is ≡ true
      → has_login user (touch now id is) ≡ true
  touch-has_login now id is h =
      kept_by_map user (λ i. if i.id == id then touch_identity now i else i) is
        (λ i e. touched now id i e) h

  late_merge-KeepsLogin :
      (hit : Option Identity) (exact : Identity) (a : Accounts)
      → KeepsLogin user a (late_merge hit exact a).0
  late_merge-KeepsLogin none exact a h live = h
  late_merge-KeepsLogin (some hit) exact a h live =
      elim (Bool-cases (hit.user_id == exact.user_id)) [
        | inl e ↦ rw e h
        | inr e ↦
            rw e (try_silent_merge-KeepsLogin user hit.user_id exact.user_id a h (rw e at live))
      ]

  login-KeepsLogin :
      (now : Timestamp) (ids : FreshIds) (r : ResolvedIdentity) (hit exact : Option Identity)
      (a : Accounts)
      → KeepsLogin user a (find_or_create_by now ids r hit exact a).0
  unfolding find_or_create_by create_user
  login-KeepsLogin now ids r hit (some exact) a h live =
      touch-has_login now exact.id (late_merge hit exact a).0.identities
        (late_merge-KeepsLogin hit exact a h live)
  login-KeepsLogin now ids r none none a h live = kept_by_insertion user a.identities _ h
  login-KeepsLogin now ids r (some hit) none a h live = kept_by_insertion user a.identities _ h

  register-KeepsLogin :
      (now : Timestamp) (ids : FreshIds) (email hash : String) (a b : Accounts)
      → register_with_password now ids email hash a ≡ ok b
      → KeepsLogin user a b
  unfolding register_with_password create_password_user create_user
  register-KeepsLogin now ids email hash a b e h live =
      let (_, e1) = require-ok _ conflict "CONFLICT" "email already registered" _ b e in
      let (_, e2) = require-ok _ conflict "CONFLICT" "email already registered" _ b e1 in
      subst (λ (c : Accounts). has_login user c.identities ≡ true) (ok-injective e2)
        (kept_by_insertion user a.identities _ h)

  bind-KeepsLogin :
      (now : Timestamp) (id owner : Uuid) (r : ResolvedIdentity) (found : Option Identity)
      (a : Accounts)
      → KeepsLogin user a (accounts_of a (bind_to now id owner r found a))
  unfolding bind_to
  bind-KeepsLogin now id owner r none a h live = kept_by_insertion user a.identities _ h
  bind-KeepsLogin now id owner r (some i) a h live = elim (Bool-cases (i.user_id == owner)) [
    | inl e ↦ rw e h
    | inr e ↦ rw e h
  ]

  force-KeepsLogin :
      (caller : Uuid) (provider uid : String) (a b : Accounts)
      → DistinctBy (λ i. i.id) a.identities
      → force_bind caller provider uid a ≡ ok b
      → KeepsLogin user a b
  unfolding force_bind
  force-KeepsLogin caller provider uid a b d e =
      let (idn, found, e') =
        require_some-ok (find_identity provider uid a.identities) not_found "NOT_FOUND" "该登录方式不存在" _
          b e in
      bind_from-KeepsLogin caller provider idn a d
        (find?-In (λ i. i.provider == provider && i.provider_uid == uid) idn a.identities found)
        user b e'

  merge-KeepsLogin :
      (caller target : Uuid) (a b : Accounts)
      → full_merge caller target a ≡ ok b
      → KeepsLogin user a b
  unfolding full_merge
  merge-KeepsLogin caller target a b e =
      let (_, e1) = require-ok _ conflict "SELF_MERGE" "不能与自己合并" _ b e in
      let (_, e2) = require-ok _ conflict "CANNOT_MERGE_INSTANCE_OWNER" "不能合并实例所有者账户" _ b e1 in
      let (_, e3) = require-ok _ conflict "CANNOT_MERGE_SUPER_ADMIN" "不能合并超级管理员账户" _ b e2 in
      let (_, e4) = require-ok _ conflict "TARGET_HAS_ASSETS" "对方账户存在内容，无法自助合并，请联系人工" _ b e3 in
      subst (KeepsLogin user a) (ok-injective e4)
        (do_merge-KeepsLogin user caller target "full_merge" a)

run_identity-KeepsLogin :
    (op : IdentityOp) (user : Uuid) (a : Accounts)
    → DistinctBy (λ i. i.id) a.identities
    → KeepsLogin user a (run_identity op a)
unfolding run_identity find_or_create bind_resolved
run_identity-KeepsLogin (logs_in now ids r) user a d =
    login-KeepsLogin user now ids r (union_owner r a.identities)
      (find_identity r.provider r.provider_uid a.identities) a
run_identity-KeepsLogin (registers now ids email hash) user a d =
    after-KeepsLogin user a _ (λ b e. register-KeepsLogin user now ids email hash a b e)
run_identity-KeepsLogin (binds now id owner r) user a d =
    bind-KeepsLogin user now id owner r (find_identity r.provider r.provider_uid a.identities) a
run_identity-KeepsLogin (unbinds owner id) user a d =
    after-KeepsLogin user a _ (λ b e. unbind-KeepsLogin user owner id a b d e)
run_identity-KeepsLogin (forces caller provider uid) user a d =
    after-KeepsLogin user a _ (λ b e. force-KeepsLogin user caller provider uid a b d e)
run_identity-KeepsLogin (merges caller target) user a d =
    after-KeepsLogin user a _ (λ b e. merge-KeepsLogin user caller target a b e)

-- Where the ids of the login methods are distinct, no operation on them, accepted or not, takes
-- the last usable method from an account that is in use afterwards.
pub run_identity-has_login :
    (op : IdentityOp) (user : Uuid) (a : Accounts)
    → DistinctBy (λ i. i.id) a.identities
    → has_login user a.identities ≡ true
    → is_active_user (run_identity op a).authz.users user ≡ true
    → has_login user (run_identity op a).identities ≡ true
run_identity-has_login op user a d h live = run_identity-KeepsLogin op user a d h live
