-- ===== src/Identity/Accounts.antt =====
-- The rows that the identity services read and write, and what an account owns.
use xg_canvas.Prelude.{
  if◌then◌else◌, string_eq, nat_eq, ◌==◌, head?, any, select, find?, Uuid, Timestamp, String, ◌&&◌,
  Option, none, some, List, map,
}
use xg_canvas.Authz.Types.{uuid_beq, User, AuthzState}
use xg_canvas.Identity.Methods.{Identity}

pub record Workspace : Type 0 where
  pub id : Uuid
  pub owner_id : Uuid

pub record OwnedAsset : Type 0 where
  pub owner_id : Uuid
  pub deleted_at : Option Timestamp

pub record OwnedPreset : Type 0 where
  pub owner_id : Uuid
  pub scope : String

-- The owners in the tables that `assetBlocker` counts.
pub record Content : Type 0 where
  pub projects : List Uuid
  pub tasks : List Uuid
  pub assets : List OwnedAsset
  pub conversations : List Uuid
  pub presets : List OwnedPreset

-- A row of canvas.account_merge_log.
pub record MergeLog : Type 0 where
  pub surviving_user_id : Uuid
  pub merged_user_id : Option Uuid
  pub kind : String
  pub moved_identity_ids : List Uuid

-- Identities stand in the order of their creation; `kicked` are the users whose sessions were
-- revoked.
pub record Accounts : Type 0 where
  pub authz : AuthzState
  pub identities : List Identity
  pub workspaces : List Workspace
  pub content : Content
  pub merge_log : List MergeLog
  pub kicked : List Uuid

abbrev pub of_user : Uuid → List Identity → List Identity
of_user user is = select (λ i. i.user_id == user) is

abbrev pub find_identity : String → String → List Identity → Option Identity
find_identity provider uid is = find? (λ i. i.provider == provider && i.provider_uid == uid) is

abbrev pub first_id : Option Identity → Option Uuid
first_id none = none
first_id (some i) = some i.id

-- `UPDATE canvas.users SET primary_identity_id = (the oldest that is left) WHERE id = … AND
-- primary_identity_id = ANY(…)`.
abbrev pub repoint_user : List Identity → Uuid → List Uuid → User → User
repoint_user is user gone u =
    if u.id == user && any (λ g. uuid_beq u.primary_identity_id (some g)) gone
    then record u { primary_identity_id = first_id (head? (of_user user is)) }
    else u

abbrev pub repoint : Uuid → List Uuid → List Identity → List User → List User
repoint user gone is users = map (repoint_user is user gone) users
