-- ===== src/Authz/Runs.antt =====
-- Every sequence of the operations of authorization keeps the cache coherent.
use xg_canvas.Prelude.{
  string_eq, nat_eq, select, All-select, Uuid, String, ◌≡◌, not, Option, List, [], ◌∷◌,
}
use xg_canvas.Authz.Types.{Scope, CapsKey, caps_key_beq, AuthzState}
use xg_canvas.Authz.Resolve.{resolve_capabilities, can}
use xg_canvas.Authz.Catalog.{builtin_roles}
use xg_canvas.Authz.Bindings.{assign_project_role, remove_project_member, set_system_role}
use xg_canvas.Authz.Bootstrap.{seed_builtin_roles}
use xg_canvas.Authz.Cache.{IsCoherent}
use xg_canvas.Authz.Allowed.{allowed, can-allowed}
use xg_canvas.Authz.Coherent.{
  settled, assign-IsCoherent, remove-IsCoherent, set-IsCoherent, resolve-IsCoherent,
}
use xg_canvas.Authz.Seeded.{seed_roles-IsCoherent}

pub data AuthzOp : Type 0 where
  assigns : Uuid → Uuid → String → Uuid → AuthzOp
  removes : Uuid → Uuid → Uuid → AuthzOp
  sets : Uuid → Option String → Uuid → AuthzOp
  resolves : Uuid → Scope → Option Uuid → AuthzOp
  seeds : (String → Uuid) → AuthzOp
  expires : CapsKey → AuthzOp  -- an entry's time to live is over

unfoldable pub run_op : AuthzOp → AuthzState → AuthzState
run_op (assigns p user role by) s = settled s (assign_project_role p user role by s)
run_op (removes p user by) s = remove_project_member p user by s
run_op (sets user role by) s = settled s (set_system_role user role by s)
run_op (resolves user scope id) s = (resolve_capabilities user scope id s).0
run_op (seeds fresh) s = seed_builtin_roles fresh s
run_op (expires k) s = record s { caps = select (λ e. not (caps_key_beq e.key k)) s.caps }

unfoldable pub run_ops : List AuthzOp → AuthzState → AuthzState
unfolding run_op
run_ops [] s = s
run_ops (op ∷ ops) s = run_ops ops (run_op op s)

run_op-IsCoherent : (op : AuthzOp) (s : AuthzState) → IsCoherent s → IsCoherent (run_op op s)
unfolding run_op seed_builtin_roles
run_op-IsCoherent (assigns p user role by) s h = assign-IsCoherent p user role by s h
run_op-IsCoherent (removes p user by) s h = remove-IsCoherent p user by s h
run_op-IsCoherent (sets user role by) s h = set-IsCoherent user role by s h
run_op-IsCoherent (resolves user scope id) s h = resolve-IsCoherent user scope id s h
run_op-IsCoherent (seeds fresh) s h = seed_roles-IsCoherent fresh builtin_roles s h
run_op-IsCoherent (expires k) s h =
    All-select _ _ (λ e. not (caps_key_beq e.key k)) s.caps (λ e q p. p) h

run_ops-IsCoherent :
    (ops : List AuthzOp) (s : AuthzState) → IsCoherent s → IsCoherent (run_ops ops s)
unfolding run_ops
run_ops-IsCoherent [] s h = h
run_ops-IsCoherent (op ∷ ops) s h = run_ops-IsCoherent ops (run_op op s) (run_op-IsCoherent op s h)

-- From a coherent cache, and whatever grants, revocations, role seeds, look-ups and expiries come,
-- each of them one step, `can` answers what the tables at that time say: everything in the catalog
-- to an active super administrator or owner, and to others exactly what one of their system
-- bindings, or of their bindings in that project, permits.
pub run_ops-can :
    (ops : List AuthzOp) (user : Uuid) (permission : String) (scope : Scope) (id : Option Uuid)
    (s : AuthzState)
    → IsCoherent s
    → (can user permission scope id (run_ops ops s)).1
      ≡ allowed (run_ops ops s) user permission scope id
run_ops-can ops user permission scope id s h =
    can-allowed user permission scope id (run_ops ops s) (run_ops-IsCoherent ops s h)
