-- ===== src/Identity/Merge.antt =====
-- Moving login methods between accounts (apps/canvas-api/src/identity/merge.service.ts).
use xg_canvas.Prelude.{
  leb, if◌then◌else◌, string_eq, nat_eq, ◌==◌, is_none, any, select, Uuid, not_found, conflict,
  Result, ok, ◌>>=◌, ◌>>◌, require, require_some, String, Bool, true, false, not, ◌&&◌, Option,
  none, some, List, [], ◌∷◌, ◌++◌, map,
}
use xg_canvas.Authz.Types.{disabled, User, Binding, Membership, AuthzState}
use xg_canvas.Authz.Resolve.{is_super_binding, applies_everywhere}
use xg_canvas.Authz.Bindings.{system_binding}
use xg_canvas.Identity.Methods.{Identity, is_wechat, login_method_count}
use xg_canvas.Identity.Accounts.{Content, Accounts, of_user, find_identity, repoint}

-- A string that is not null and not empty.
abbrev pub is_truthy : Option String → Bool
is_truthy none = false
is_truthy (some s) = not (s == "")

abbrev pub key_beq : Option String → Option String → Bool
key_beq none none = true
key_beq (some a) (some b) = a == b
key_beq _ _ = false

-- The identity, or its whole WeChat family among the rows of its owner.
abbrev pub moved_ids : Identity → String → List Identity → List Uuid
moved_ids idn provider rows =
    if is_truthy idn.union_key && is_wechat provider
    then map (λ i. i.id)
        (select (λ i. key_beq i.union_key idn.union_key && is_wechat i.provider) rows)
    else idn.id ∷ []

abbrev pub is_among : List Uuid → Identity → Bool
is_among ids i = any (λ j. j == i.id) ids

abbrev pub give_to : Uuid → (Identity → Bool) → Identity → Identity
give_to user p i = if p i then record i { user_id = user } else i

unfoldable pub move_identities : Uuid → Uuid → List Uuid → Accounts → Accounts
move_identities caller target ids a =
    let is = map (give_to caller (is_among ids)) a.identities in
    record a {
      identities = is;
      authz = record a.authz { users = repoint target ids is a.authz.users };
      merge_log =
          a.merge_log
          ++ record {
            surviving_user_id = caller;
            merged_user_id = none;
            kind = "force_bind";
            moved_identity_ids = ids;
          }
            ∷ [];
      kicked = a.kicked ++ target ∷ [];
    }

unfoldable pub bind_from : Uuid → String → Identity → Accounts → Result Accounts
unfolding move_identities
bind_from caller provider idn a =
    let rows = of_user idn.user_id a.identities in
    let ids = moved_ids idn provider rows in
    if idn.user_id == caller then ok a else (do
      require (leb 1 (login_method_count (select (λ i. not (is_among ids i)) rows))) conflict
          "WOULD_ORPHAN_TARGET" "对方账户将失去唯一登录方式，无法强制绑定"
      ok (move_identities caller idn.user_id ids a))

-- `forceBind`.
unfoldable pub force_bind : Uuid → String → String → Accounts → Result Accounts
unfolding bind_from
force_bind caller provider uid a = do
  idn ← require_some (find_identity provider uid a.identities) not_found "NOT_FOUND" "该登录方式不存在"
  bind_from caller provider idn a

-- Memberships: dropped where the survivor is a member already, else moved.
abbrev merge_members : Uuid → Uuid → List Membership → List Membership
merge_members survivor merged ms =
    map (λ m. if m.user_id == merged then record m { user_id = survivor } else m)
      (select
        (λ m. not (
          m.user_id == merged
          && any (λ x. x.workspace_id == m.workspace_id && x.user_id == survivor) ms))
        ms)

-- The system bindings of the merged account as the survivor's. A system binding has no scope id, so
-- the table's unique key never conflicts.
abbrev pub handed_over : Uuid → Uuid → List Binding → List Binding
handed_over survivor merged bs =
    map (λ b. system_binding survivor b.role_id b.granted_by)
      (select (applies_everywhere merged) bs)

abbrev pub merge_bindings : Uuid → Uuid → List Binding → List Binding
merge_bindings survivor merged bs =
    select (λ b. not (applies_everywhere merged b)) (bs ++ handed_over survivor merged bs)

abbrev pub is_owner : Uuid → List User → Bool
is_owner id users = any (λ u. u.id == id && u.is_instance_owner) users

abbrev pub move_owner : Bool → Uuid → Uuid → User → User
move_owner was_owner survivor merged u =
    if was_owner
    then (if u.id == survivor
        then record u { is_instance_owner = true }
        else if u.id == merged
        then record u { is_instance_owner = false }
        else u)
    else u

abbrev pub tombstone : Uuid → Uuid → User → User
tombstone survivor merged u =
    if u.id == merged
    then record u { status = disabled; merged_into_user_id = some survivor }
    else u

-- `doMerge`.
unfoldable pub do_merge : Uuid → Uuid → String → Accounts → Accounts
do_merge survivor merged kind a =
    let z = a.authz in
    record a {
      identities = map (give_to survivor (λ i. i.user_id == merged)) a.identities;
      workspaces =
          map (λ w. if w.owner_id == merged then record w { owner_id = survivor } else w)
            a.workspaces;
      authz = record z {
        workspace_members = merge_members survivor merged z.workspace_members;
        bindings = merge_bindings survivor merged z.bindings;
        users =
            map
              (λ u.
                tombstone survivor merged (move_owner (is_owner merged z.users) survivor merged u))
              z.users;
      };
      merge_log =
          a.merge_log
          ++ record {
            surviving_user_id = survivor;
            merged_user_id = some merged;
            kind = kind;
            moved_identity_ids = map (λ i. i.id) (of_user merged a.identities);
          }
            ∷ [];
      kicked = a.kicked ++ merged ∷ [];
    }

-- `assetBlocker`.
unfoldable pub asset_blocker : Content → Uuid → Option String
asset_blocker c user =
    if any (λ o. o == user) c.projects
    then some "项目"
    else if any (λ o. o == user) c.tasks
    then some "任务"
    else if any (λ x. x.owner_id == user && is_none x.deleted_at) c.assets
    then some "资产"
    else if any (λ o. o == user) c.conversations
    then some "会话"
    else if any (λ p. p.owner_id == user && p.scope == "user") c.presets
    then some "预设"
    else none

-- `assertNotPrivileged`.
abbrev pub is_super_admin : AuthzState → Uuid → Bool
is_super_admin z user = any (λ b. b.user_id == user && is_super_binding z.roles b) z.bindings

unfoldable pub full_merge : Uuid → Uuid → Accounts → Result Accounts
unfolding do_merge asset_blocker
full_merge caller target a = do
  require (not (caller == target)) conflict "SELF_MERGE" "不能与自己合并"
  require (not (is_owner target a.authz.users)) conflict "CANNOT_MERGE_INSTANCE_OWNER" "不能合并实例所有者账户"
  require (not (is_super_admin a.authz target)) conflict "CANNOT_MERGE_SUPER_ADMIN" "不能合并超级管理员账户"
  require (is_none (asset_blocker a.content target)) conflict "TARGET_HAS_ASSETS"
      "对方账户存在内容，无法自助合并，请联系人工"
  ok (do_merge caller target "full_merge" a)

-- `trySilentMerge`.
unfoldable pub try_silent_merge : Uuid → Uuid → Accounts → Accounts × Uuid
unfolding do_merge asset_blocker
try_silent_merge keep absorb a =
    if keep == absorb
    then (a, keep)
    else if is_none (asset_blocker a.content absorb)
    then (do_merge keep absorb "silent_merge" a, keep)
    else if is_none (asset_blocker a.content keep)
    then (do_merge absorb keep "silent_merge" a, absorb)
    else (a, absorb)
