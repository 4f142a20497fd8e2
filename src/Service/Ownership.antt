-- ===== src/Service/Ownership.antt =====
-- internal/service/ownership.go: the transfer of a workspace to another owner.
use workspace.Base.{ℕ, String, not, Option, none, some, List, [], ◌==◌, if◌then◌else◌, Error}
use workspace.Authz.Model.{Tuple}
use workspace.Authz.State.{pure, raise, lift, ◌>>=◌, ◌>>◌}
use workspace.Service.Types.{
  Workspace, Membership, role_owner, role_admin, type_personal, status_active,
}
use workspace.Service.Access.{
  Principal, Service, ensure_project_active, require_workspace, user_tuple, find_row,
}
use workspace.Service.Members.{role_tuples}
use workspace.Store.State.{Op}
use workspace.Store.Tuples.{write_tuples}
use workspace.Store.Workspaces.{put_membership_and_tuples, get_membership, update_workspace}

-- the role tuple that the new owner had
unfoldable pub former_role : (workspace user : String) → Option Membership → List Tuple
unfolding user_tuple
former_role workspace user none = []
former_role workspace user (some m) =
    if not (m.role == role_owner) then role_tuples workspace m.role user else []

unfoldable pub new_owner :
    ℕ → Principal → (workspace user : String) → Option Membership → Membership
new_owner now p workspace user existing = record {
  project_id = p.project_id;
  tenant_id = p.tenant_id;
  workspace_id = workspace;
  user_id = user;
  role = role_owner;
  status = status_active;
  created_at = elim existing [ none ↦ now | some m ↦ m.created_at ];
  updated_at = now;
}

unfoldable pub promote_as :
    ℕ → Principal → (workspace user : String) → Option Membership → Op (Unit {0})
unfolding put_membership_and_tuples new_owner user_tuple former_role
promote_as now p workspace user existing =
    put_membership_and_tuples (new_owner now p workspace user existing)
      (role_tuples workspace role_owner user) (former_role workspace user existing)

-- step 1
unfoldable pub promote : ℕ → Principal → (workspace user : String) → Op (Unit {0})
unfolding find_row get_membership promote_as
promote now p workspace user =
    find_row (get_membership p.project_id p.tenant_id workspace user)
    >>= promote_as now p workspace user

-- A former owner without a row has the tuples swapped alone.
unfoldable pub demote_as :
    ℕ → Principal → (workspace user : String) → Option Membership → Op (Unit {0})
unfolding put_membership_and_tuples user_tuple write_tuples
demote_as now p workspace user (some m) =
    put_membership_and_tuples (record m { role = role_admin; updated_at = now })
      (role_tuples workspace role_admin user) (role_tuples workspace role_owner user)
demote_as now p workspace user none =
    write_tuples p.project_id p.tenant_id (role_tuples workspace role_admin user)
      (role_tuples workspace role_owner user)

-- step 3
unfoldable pub demote : ℕ → Principal → (workspace user : String) → Op (Unit {0})
unfolding find_row get_membership demote_as
demote now p workspace user =
    find_row (get_membership p.project_id p.tenant_id workspace user)
    >>= demote_as now p workspace user

unfoldable pub hand_over : ℕ → Principal → (workspace user : String) → Workspace → Op Workspace
unfolding promote update_workspace demote
hand_over now p workspace user w =
    promote now p workspace user
    >> update_workspace (record w { owner_user_id = user; updated_at = now })
    >> demote now p workspace w.owner_user_id
    >> pure (record w { owner_user_id = user; updated_at = now })

unfoldable pub transfer : ℕ → Principal → (workspace user : String) → Workspace → Op Workspace
unfolding hand_over
transfer now p workspace user w =
    if w.kind == type_personal
    then raise Error.failed_precondition
    else if user == w.owner_user_id
    then pure w
    else hand_over now p workspace user w

unfoldable pub transfer_ownership :
    Service → ℕ → Principal → (workspace user : String) → Op Workspace
unfolding require_workspace ensure_project_active transfer
transfer_ownership sv now p workspace user =
    if user == ""
    then raise Error.invalid_argument
    else require_workspace sv now p workspace role_owner >>= λ w.
        lift (ensure_project_active sv p) >> transfer now p workspace user w
