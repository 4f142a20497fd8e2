-- ===== src/Service/Roster.antt =====
-- The rows and the tuples that the workspace services keep together (internal/service/members.go,
-- workspaces.go, ownership.go, invitations.go).
pub mod Put
pub mod Rows
pub mod Members
pub mod Requests
pub mod Removal
pub mod Leave
pub mod Create
pub mod Rename
pub mod Retain
pub mod Erase
pub mod Transfer
pub mod HandOver
pub mod Succession
pub mod Invites
pub mod Accept
pub mod Steps
pub mod Tests
use workspace.Base.{
  String, ◌≡◌, Bool, false, ◌&&◌, Option, none, some, List, [], ◌∷◌, ◌==◌, ◌⊎◌, Dict, lookup,
}
use workspace.Base.Tables.{has, shard, values}
use workspace.Authz.Model.{Tuple}
use workspace.Service.Types.{
  Workspace, Membership, Invitation, role_owner, status_active, status_suspended,
}
use workspace.Service.Access.{user_tuple}
use workspace.Store.Keys.{scope, tuple_key}
use workspace.Store.State.{Store}
use workspace.Store.Tuples.Writes.{WellKeyed}

abbrev pub All : {A : Type 0} → (A → Type 0) → List A → Type 0
All P [] = Unit
All P (x ∷ xs) = P x × All P xs

-- the row of a member, and of a workspace, in a scope
abbrev pub member_of : (sk workspace user : String) → Store → Option Membership
member_of sk workspace user st = lookup user (shard workspace (shard sk st.memberships))

abbrev pub workspace_of : (sk workspace : String) → Store → Option Workspace
workspace_of sk workspace st = lookup workspace (shard sk st.workspaces)

abbrev pub role_key : (workspace role user : String) → String
role_key workspace role user = tuple_key (user_tuple "workspace" workspace role user)

-- A member holds the role of the row while the row is active.
abbrev pub holds : String → Option Membership → Bool
holds role none = false
holds role (some m) = m.status == status_active && m.role == role

-- The row stands where it says, and is active or suspended.
pub record IsAt (sk workspace user : String) (m : Membership) : Type 0 where
  pub scope_is : scope m.project_id m.tenant_id ≡ sk
  pub workspace_is : m.workspace_id ≡ workspace
  pub user_is : m.user_id ≡ user
  pub status_known : (m.status ≡ status_active) ⊎ (m.status ≡ status_suspended)

-- The one member with the role of an owner is the owner of the workspace, who is active.
pub record IsOwned (sk : String) (st : Store) (id : String) (w : Workspace) : Type 0 where
  pub scope_is : scope w.project_id w.tenant_id ≡ sk
  pub id_is : w.id ≡ id
  pub owner : Membership
  pub has_row : member_of sk id w.owner_user_id st ≡ some owner
  pub is_owner : owner.role ≡ role_owner
  pub is_active : owner.status ≡ status_active
  pub alone :
      (user : String) (m : Membership)
      → member_of sk id user st ≡ some m
      → m.role ≡ role_owner
      → user ≡ w.owner_user_id

abbrev pub Owned : String → Store → String → Option Workspace → Type 0
Owned sk st id none = (user : String) → member_of sk id user st ≡ none
Owned sk st id (some w) = IsOwned sk st id w

-- An invitation is to a workspace that is there, and to a role that may be granted.
pub record IsInvited (sk : String) (st : Store) (inv : Invitation) : Type 0 where
  pub scope_is : scope inv.project_id inv.tenant_id ≡ sk
  pub role_is : (inv.role == role_owner) ≡ false
  pub workspace : Workspace
  pub has_workspace : workspace_of sk inv.workspace_id st ≡ some workspace

-- Tuples stand under their own keys, rows at their places, and who holds which role tuple of which
-- workspace is what the rows say.
pub record Settled (sk : String) (st : Store) : Type 0 where
  pub keyed : WellKeyed (shard sk st.tuples)
  pub placed :
      (workspace user : String) (m : Membership)
      → member_of sk workspace user st ≡ some m
      → IsAt sk workspace user m
  pub backed :
      (workspace role user : String)
      → has (role_key workspace role user) (shard sk st.tuples)
        ≡ holds role (member_of sk workspace user st)
  pub invited : All (IsInvited sk st) (values (shard sk st.invitations))

-- And every workspace has its one owner, and members only while it is there.
pub record Consistent (sk : String) (st : Store) : Type 0 where
  pub settled : Settled sk st
  pub owned : (workspace : String) → Owned sk st workspace (workspace_of sk workspace st)
