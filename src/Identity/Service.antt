-- ===== src/Identity/Service.antt =====
-- Finding, creating, binding and unbinding login methods
-- (apps/canvas-api/src/identity/identity.service.ts).
use xg_canvas.Prelude.{
  leb, if◌then◌else◌, string_eq, nat_eq, ◌==◌, is_none, coalesce, any, select, find?, Uuid,
  Timestamp, not_found, conflict, Result, ok, ◌>>=◌, ◌>>◌, require, require_some, String, Bool,
  false, not, ◌&&◌, Option, none, some, List, [], ◌∷◌, ◌++◌, map,
}
use xg_canvas.Authz.Types.{active, User}
use xg_canvas.Identity.Methods.{Identity, is_wechat, login_method_count}
use xg_canvas.Identity.Accounts.{Accounts, of_user, find_identity, repoint}
use xg_canvas.Identity.Merge.{is_truthy, try_silent_merge}

-- A login that a provider has resolved.
pub record ResolvedIdentity : Type 0 where
  pub provider : String
  pub provider_uid : String
  pub union_key : Option String

-- The ids of the rows that a call may insert.
pub record FreshIds : Type 0 where
  pub user : Uuid
  pub workspace : Uuid
  pub identity : Uuid
  pub password : Uuid

abbrev in_family : String → Identity → Bool
in_family provider i =
    if is_wechat provider
    then any (λ p. p == i.provider) ("wechat_mp" ∷ "wechat_oa" ∷ "wechat_open" ∷ [])
    else i.provider == provider

abbrev has_union : Option String → Identity → Bool
has_union none i = false
has_union (some k) i = elim i.union_key [ none ↦ false | some u ↦ u == k ]

-- The union match: a non-empty union key ties prior identities to one person.
abbrev pub union_owner : ResolvedIdentity → List Identity → Option Identity
union_owner r is =
    if is_truthy r.union_key
    then find? (λ i. in_family r.provider i && has_union r.union_key i) is
    else none

abbrev pub touch_identity : Timestamp → Identity → Identity
touch_identity now i = record i {
  last_authenticated_at = some now;
  verified_at = coalesce i.verified_at (some now);
}

abbrev pub touch : Timestamp → Uuid → List Identity → List Identity
touch now id is = map (λ i. if i.id == id then touch_identity now i else i) is

-- `createUser`.
abbrev new_user : FreshIds → Option Uuid → User
new_user ids primary = record {
  id = ids.user;
  status = active;
  is_instance_owner = false;
  merged_into_user_id = none;
  primary_identity_id = primary;
}

unfoldable pub create_user : FreshIds → Accounts → Accounts
create_user ids a =
    let z = a.authz in
    record a {
      workspaces = a.workspaces ++ record { id = ids.workspace; owner_id = ids.user } ∷ [];
      authz = record z {
        users = z.users ++ new_user ids none ∷ [];
        workspace_members =
            z.workspace_members
            ++ record { workspace_id = ids.workspace; user_id = ids.user; role = "owner" } ∷ [];
      };
    }

abbrev pub login_identity : Timestamp → Uuid → Uuid → ResolvedIdentity → Identity
login_identity now id user r = record {
  id = id;
  user_id = user;
  provider = r.provider;
  provider_uid = r.provider_uid;
  union_key = r.union_key;
  verified_at = some now;
  secret_hash = none;
  last_authenticated_at = some now;
}

-- `UPDATE … SET primary_identity_id = $1 WHERE id = $2 AND primary_identity_id IS NULL`.
abbrev point : Uuid → Uuid → List User → List User
point user id users =
    map
      (λ u.
        if u.id == user && is_none u.primary_identity_id
        then record u { primary_identity_id = some id }
        else u)
      users

abbrev pub insert_login : Timestamp → Uuid → Uuid → ResolvedIdentity → Accounts → Accounts
insert_login now id user r a = record a {
  identities = a.identities ++ login_identity now id user r ∷ [];
  authz = record a.authz { users = point user id a.authz.users };
}

-- A login that is known: its account, or the survivor of a late merge.
abbrev pub late_merge : Option Identity → Identity → Accounts → Accounts × Uuid
late_merge none exact a = (a, exact.user_id)
late_merge (some hit) exact a =
    if not (hit.user_id == exact.user_id)
    then try_silent_merge hit.user_id exact.user_id a
    else (a, exact.user_id)

abbrev pub known_login : Timestamp → Option Identity → Identity → Accounts → Accounts × Uuid
known_login now hit exact a =
    let (a', survivor) = late_merge hit exact a in
    (record a' { identities = touch now exact.id a'.identities }, survivor)

abbrev pub new_login :
    Timestamp → FreshIds → Option Identity → ResolvedIdentity → Accounts → Accounts × Uuid
new_login now ids none r a =
    (insert_login now ids.identity ids.user r (create_user ids a), ids.user)
new_login now ids (some hit) r a = (insert_login now ids.identity hit.user_id r a, hit.user_id)

unfoldable pub find_or_create_by :
    Timestamp
    → FreshIds
    → ResolvedIdentity
    → Option Identity
    → Option Identity
    → Accounts
    → Accounts × Uuid
find_or_create_by now ids r hit (some exact) a = known_login now hit exact a
find_or_create_by now ids r hit none a = new_login now ids hit r a

-- `findOrCreate`.
unfoldable pub find_or_create : Timestamp → FreshIds → ResolvedIdentity → Accounts → Accounts × Uuid
unfolding find_or_create_by create_user try_silent_merge
find_or_create now ids r a =
    find_or_create_by now ids r (union_owner r a.identities)
      (find_identity r.provider r.provider_uid a.identities) a

abbrev password_identity : Timestamp → Uuid → Uuid → String → String → Option String → Identity
password_identity now id user provider email hash = record {
  id = id;
  user_id = user;
  provider = provider;
  provider_uid = email;
  union_key = none;
  verified_at = some now;
  secret_hash = hash;
  last_authenticated_at = none;
}

-- `UPDATE … SET primary_identity_id = …` of one user.
abbrev set_primary : Uuid → Uuid → List User → List User
set_primary user id users =
    map (λ u. if u.id == user then record u { primary_identity_id = some id } else u) users

abbrev pub with_password : Timestamp → FreshIds → String → String → Accounts → Accounts
with_password now ids email hash a = record a {
  identities =
      a.identities
      ++ password_identity now ids.identity ids.user "email" email none
        ∷ password_identity now ids.password ids.user "password" email (some hash)
        ∷ [];
  authz = record a.authz { users = set_primary ids.user ids.identity a.authz.users };
}

-- `createPasswordUser`; the email is normalized and the password hashed before.
unfoldable pub create_password_user :
    Timestamp → FreshIds → String → String → Accounts → Result Accounts
unfolding create_user
create_password_user now ids email hash a = do
  require
      (is_none (find_identity "email" email a.identities)
        && is_none (find_identity "password" email a.identities))
      conflict "CONFLICT" "email already registered"
  ok (with_password now ids email hash (create_user ids a))

-- `registerWithPassword`.
unfoldable pub register_with_password :
    Timestamp → FreshIds → String → String → Accounts → Result Accounts
unfolding create_password_user
register_with_password now ids email hash a = do
  require (is_none (find_identity "email" email a.identities)) conflict "CONFLICT"
      "email already registered"
  create_password_user now ids email hash a

abbrev bound_identity : Timestamp → Uuid → Uuid → ResolvedIdentity → Identity
bound_identity now id user r = record (login_identity now id user r) {
  last_authenticated_at = none;
}

unfoldable pub bind_to :
    Timestamp
    → Uuid
    → Uuid
    → ResolvedIdentity
    → Option Identity
    → Accounts
    → Result (Accounts × Uuid)
bind_to now id user r none a =
    ok (record a { identities = a.identities ++ bound_identity now id user r ∷ [] }, id)
bind_to now id user r (some existing) a = do
  require (existing.user_id == user) conflict "IDENTITY_ALREADY_BOUND" "该登录方式已绑定到其他账户"
  ok (a, existing.id)

-- `bindResolved`.
unfoldable pub bind_resolved :
    Timestamp → Uuid → Uuid → ResolvedIdentity → Accounts → Result (Accounts × Uuid)
unfolding bind_to
bind_resolved now id user r a =
    bind_to now id user r (find_identity r.provider r.provider_uid a.identities) a

abbrev pub unbound : Uuid → Uuid → Accounts → Accounts
unbound user id a =
    let is = select (λ i. not (i.id == id)) a.identities in
    record a {
      identities = is;
      authz = record a.authz { users = repoint user (id ∷ []) is a.authz.users };
    }

-- `unbind`.
unfoldable pub unbind : Uuid → Uuid → Accounts → Result Accounts
unbind user id a = do
  target ←
      require_some (find? (λ i. i.id == id) (of_user user a.identities)) not_found "NOT_FOUND"
        "identity not found"
  require (leb 1 (login_method_count (select (λ i. not (i.id == id)) (of_user user a.identities))))
      conflict "LAST_LOGIN_IDENTITY" "这是唯一的登录方式，无法解绑"
  ok (unbound user id a)
