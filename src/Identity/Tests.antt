-- ===== src/Identity/Tests.antt =====
-- Tests of login methods and merges, and their theorems at small instances.
use xg_canvas.Prelude.{
  string_eq, nat_eq, ◌==◌, any, Uuid, ok, String, ◌≡◌, refl, true, false, ◌&&◌, none, some, [], ◌∷◌,
  arith,
}
use xg_canvas.Authz.Types.{project, caps_key}
use xg_canvas.Authz.Resolve.{
  contains, add_all, is_super_or_owner, permission_rows, computed, resolve_capabilities, can,
}
use xg_canvas.Authz.Bindings.{is_active_user, system_binding}
use xg_canvas.Authz.Supers.{HasSuper}
use xg_canvas.Authz.Tests.{instance_one}
use xg_canvas.Identity.Methods.{group_of, Identity, login_method_count}
use xg_canvas.Identity.Accounts.{Accounts, of_user}
use xg_canvas.Identity.Merge.{
  move_identities, bind_from, force_bind, is_owner, do_merge, is_super_admin, full_merge,
}
use xg_canvas.Identity.Service.{unbound, unbind}
use xg_canvas.Identity.Logins.{has_login}
use xg_canvas.Identity.Runs.{run_identity-has_login, forces, run_identity, run_identity-has_login}
use xg_canvas.Identity.Powers.{full_merge_keeps_powers, do_merge-HasSuper}

abbrev login : Uuid → Uuid → String → String → Identity
login id user provider uid = record {
  id = id;
  user_id = user;
  provider = provider;
  provider_uid = uid;
  union_key = none;
  verified_at = some 100;
  secret_hash = none;
  last_authenticated_at = none;
}

abbrev two_accounts : Accounts
two_accounts = record {
  authz = instance_one;
  identities = login 31 2 "email" "b@x" ∷ login 32 2 "feishu" "f2" ∷ login 33 1 "email" "a@x" ∷ [];
  workspaces = record { id = 60; owner_id = 1 } ∷ record { id = 61; owner_id = 2 } ∷ [];
  content = record { projects = 1 ∷ []; tasks = []; assets = []; conversations = []; presets = [] };
  merge_log = [];
  kicked = [];
}

abbrev after_force : Accounts
after_force = run_identity (forces 1 "feishu" "f2") two_accounts

still_active : is_active_user after_force.authz.users 2 ≡ true
unfolding run_identity force_bind bind_from move_identities login_method_count
still_active = refl

can_log_in : has_login 2 two_accounts.identities ≡ true
unfolding group_of
can_log_in = refl

run_identity-has_login_example : has_login 2 after_force.identities ≡ true
run_identity-has_login_example =
    run_identity-has_login (forces 1 "feishu" "f2") 2 two_accounts (omega arith) can_log_in
      still_active

abbrev merged : Accounts
merged = do_merge 1 2 "full_merge" two_accounts

accepted_merge : full_merge 1 2 two_accounts ≡ ok merged
unfolding full_merge
accepted_merge = refl

full_merge_keeps_powers_example :
    (is_super_admin merged.authz 1 ≡ is_super_admin two_accounts.authz 1)
    × (is_owner 1 merged.authz.users ≡ is_owner 1 two_accounts.authz.users)
full_merge_keeps_powers_example = full_merge_keeps_powers 1 2 1 two_accounts merged accepted_merge

do_merge-HasSuper_example : HasSuper (do_merge 2 1 "silent_merge" two_accounts).authz
do_merge-HasSuper_example = do_merge-HasSuper 2 1 "silent_merge" two_accounts refl refl refl

-- Each of two unbindings that read the same rows is accepted, and both leave no method.
both_unbind :
    (unbind 2 31 two_accounts ≡ ok (unbound 2 31 two_accounts))
    × (unbind 2 32 two_accounts ≡ ok (unbound 2 32 two_accounts))
    × (login_method_count (of_user 2 (unbound 2 32 (unbound 2 31 two_accounts)).identities) ≡ 0)
unfolding unbind login_method_count
both_unbind = (refl, refl, refl)

-- A merge grants the survivor a role, and the permissions cached before it stand.
abbrev looked_up : Accounts
looked_up = record two_accounts {
  authz =
      (resolve_capabilities 2 project (some 51)
        (record instance_one { bindings = system_binding 1 11 none ∷ [] })).0;
}

stale_after_merge :
    (computed looked_up.authz.role_permissions
        (do_merge 2 1 "silent_merge" looked_up).authz.bindings
        (caps_key 2 project (some 51))
      ≡ "project.read" ∷ [])
    × ((can 2 "project.read" project (some 51) (do_merge 2 1 "silent_merge" looked_up).authz).1
        ≡ false)
unfolding do_merge resolve_capabilities computed permission_rows add_all can is_super_or_owner
    contains
stale_after_merge = (refl, refl)

-- An accepted merge takes over a system administrator's role.
abbrev with_sys_admin : Accounts
with_sys_admin = record two_accounts {
  authz = record instance_one { bindings = system_binding 2 11 none ∷ instance_one.bindings };
}

sys_admin_absorbed :
    (full_merge 1 2 with_sys_admin ≡ ok (do_merge 1 2 "full_merge" with_sys_admin))
    × (any
          (λ b. b.user_id == 1 && b.role_id == 11)
          (do_merge 1 2 "full_merge" with_sys_admin).authz.bindings
        ≡ true)
unfolding full_merge do_merge
sys_admin_absorbed = (refl, refl)
