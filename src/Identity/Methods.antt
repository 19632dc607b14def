-- ===== src/Identity/Methods.antt =====
-- A login method (apps/canvas-api/src/database/entities/auth-identity.entity.ts) and how many an
-- account has (apps/canvas-api/src/identity/identity-helpers.ts).
use xg_canvas.Prelude.{
  leb, if◌then◌else◌, string_eq, nat_eq, ◌==◌, Bool-cases, is_some, length, any, Uuid, Timestamp, ℕ,
  String, ◌≡◌, ◌∙◌, inl, inr, Bool, ◌&&◌, ◌||◌, Option, none, some, List, [], ◌∷◌, arith,
  starts_with,
}
use xg_canvas.Authz.Allowed.{contains-nil}
use xg_canvas.Authz.Resolve.{contains, set_add}

pub record Identity : Type 0 where
  pub id : Uuid
  pub user_id : Uuid
  pub provider : String
  pub provider_uid : String
  pub union_key : Option String
  pub verified_at : Option Timestamp
  pub secret_hash : Option String
  pub last_authenticated_at : Option Timestamp

abbrev pub is_wechat : String → Bool
is_wechat provider = starts_with provider "wechat"

-- The group of a login method, if it is usable.
unfoldable pub group_of : Identity → Option String
group_of i =
    if i.provider == "password"
    then some "password"
    else if (i.provider == "email" || i.provider == "phone") && is_some i.verified_at
    then some i.provider
    else if is_wechat i.provider
    then some "wechat"
    else if i.provider == "feishu"
    then some "feishu"
    else none

abbrev add_group : List String → Option String → List String
add_group groups none = groups
add_group groups (some g) = set_add groups g

unfoldable pub add_groups : List String → List Identity → List String
unfolding group_of contains
add_groups groups [] = groups
add_groups groups (i ∷ rows) = add_groups (add_group groups (group_of i)) rows

-- `loginMethodCount`.
unfoldable pub login_method_count : List Identity → ℕ
unfolding add_groups
login_method_count rows = length (add_groups [] rows)

-- A usable login method among the rows.
abbrev pub is_usable : Identity → Bool
is_usable i = is_some (group_of i)

add_group_pos :
    (groups : List String) (o : Option String)
    → leb 1 (length (add_group groups o)) ≡ leb 1 (length groups) || is_some o
add_group_pos groups none = ground arith
add_group_pos [] (some g) = ground (arith, contains-nil g)
add_group_pos (x ∷ groups) (some g) = elim (Bool-cases (contains g (x ∷ groups))) [
  | inl e ↦ rw e (ground arith)
  | inr e ↦ rw e (ground arith)
]

add_groups_pos :
    (groups : List String) (rows : List Identity)
    → leb 1 (length (add_groups groups rows)) ≡ leb 1 (length groups) || any is_usable rows
unfolding add_groups
add_groups_pos groups [] = ground arith
add_groups_pos groups (i ∷ rows) =
    add_groups_pos (add_group groups (group_of i)) rows
    ∙ ground (arith, add_group_pos groups (group_of i))

-- There is a method exactly if one of the rows is usable.
pub login_method_count_pos :
    (rows : List Identity) → leb 1 (login_method_count rows) ≡ any is_usable rows
unfolding login_method_count
login_method_count_pos rows = add_groups_pos [] rows
