-- ===== src/Service/Members.antt =====
-- internal/service/members.go: the members of a workspace.
use workspace.Base.{
  ℕ, String, Bool, not, ◌&&◌, Option, none, some, List, [], ◌∷◌, ◌==◌, if◌then◌else◌, Error,
}
use workspace.Authz.Model.{Tuple}
use workspace.Authz.State.{pure, raise, lift, ◌>>=◌, ◌>>◌}
use workspace.Service.Types.{
  Workspace, Membership, valid_role, role_owner, role_admin, role_guest, type_personal,
  status_active, status_suspended,
}
use workspace.Service.Access.{
  Principal, Service, ensure_project_active, require_workspace, user_tuple, find_row,
}
use workspace.Store.State.{Op}
use workspace.Store.Workspaces.{
  put_membership_and_tuples, get_membership, list_members, delete_membership_and_tuples,
}

abbrev pub role_tuples : (workspace role user : String) → List Tuple
role_tuples workspace role user = user_tuple "workspace" workspace role user ∷ []

unfoldable pub new_member : ℕ → Principal → (workspace user role : String) → Membership
new_member now p workspace user role = record {
  project_id = p.project_id;
  tenant_id = p.tenant_id;
  workspace_id = workspace;
  user_id = user;
  role = role;
  status = status_active;
  created_at = now;
  updated_at = now;
}

unfoldable pub put_new : ℕ → Principal → (workspace user role : String) → Op Membership
unfolding new_member put_membership_and_tuples user_tuple
put_new now p workspace user role =
    put_membership_and_tuples (new_member now p workspace user role)
      (role_tuples workspace role user) []
    >> pure (new_member now p workspace user role)

unfoldable pub put_member : Service → ℕ → Principal → (workspace user role : String) → Op Membership
unfolding ensure_project_active put_new
put_member sv now p workspace user role =
    lift (ensure_project_active sv p) >> put_new now p workspace user role

-- the roles that may be granted
unfoldable pub is_grantable : String → Bool
unfolding valid_role
is_grantable role = valid_role role && not (role == role_owner)

-- a user who has a row already is refused
unfoldable pub admit_new :
    Service → ℕ → Principal → (workspace user role : String) → Option Membership → Op Membership
unfolding put_member
admit_new sv now p workspace user role (some _) = raise Error.already_exists
admit_new sv now p workspace user role none = put_member sv now p workspace user role

-- a member of the workspace, for a caller who may add one
unfoldable pub admit :
    Service → ℕ → Principal → (workspace user role : String) → Workspace → Op Membership
unfolding find_row get_membership admit_new
admit sv now p workspace user role w =
    if w.kind == type_personal
    then raise Error.failed_precondition
    else find_row (get_membership p.project_id p.tenant_id workspace user)
      >>= admit_new sv now p workspace user role

unfoldable pub add_member : Service → ℕ → Principal → (workspace user role : String) → Op Membership
unfolding is_grantable require_workspace admit
add_member sv now p workspace user role =
    if not (is_grantable role)
    then raise Error.invalid_argument
    else if user == ""
    then raise Error.invalid_argument
    else require_workspace sv now p workspace role_admin >>= admit sv now p workspace user role

-- the change of a member whose row is found
unfoldable pub change_role : ℕ → (workspace user role : String) → Membership → Op Membership
unfolding put_membership_and_tuples user_tuple
change_role now workspace user role m =
    if m.role == role_owner
    then raise Error.failed_precondition
    else if m.status == status_suspended
    then raise Error.failed_precondition
    else if m.role == role
    then pure m
    else put_membership_and_tuples (record m { role = role; updated_at = now })
        (role_tuples workspace role user) (role_tuples workspace m.role user)
      >> pure (record m { role = role; updated_at = now })

unfoldable pub update_member_role :
    Service → ℕ → Principal → (workspace user role : String) → Op Membership
unfolding is_grantable require_workspace get_membership change_role
update_member_role sv now p workspace user role =
    if not (is_grantable role)
    then raise Error.invalid_argument
    else require_workspace sv now p workspace role_admin >>= λ _.
        get_membership p.project_id p.tenant_id workspace user
        >>= change_role now workspace user role

unfoldable pub drop_member : Principal → (workspace user : String) → Membership → Op (Unit {0})
unfolding delete_membership_and_tuples user_tuple
drop_member p workspace user m =
    if m.role == role_owner
    then raise Error.failed_precondition
    else delete_membership_and_tuples p.project_id p.tenant_id workspace user
        (role_tuples workspace m.role user)

unfoldable pub remove_member : Service → ℕ → Principal → (workspace user : String) → Op (Unit {0})
unfolding require_workspace get_membership drop_member
remove_member sv now p workspace user = require_workspace sv now p workspace role_admin >>= λ _.
    get_membership p.project_id p.tenant_id workspace user >>= drop_member p workspace user

-- `Service.ListMembers`
unfoldable pub view_members : Service → ℕ → Principal → String → Op (List Membership)
unfolding require_workspace list_members
view_members sv now p workspace =
    require_workspace sv now p workspace role_guest
    >> list_members p.project_id p.tenant_id workspace

unfoldable pub suspend : ℕ → (workspace user : String) → Membership → Op Membership
unfolding put_membership_and_tuples user_tuple
suspend now workspace user m =
    if m.role == role_owner
    then raise Error.failed_precondition
    else if m.status == status_suspended
    then pure m
    else put_membership_and_tuples (record m { status = status_suspended; updated_at = now }) []
        (role_tuples workspace m.role user)
      >> pure (record m { status = status_suspended; updated_at = now })

unfoldable pub suspend_member : Service → ℕ → Principal → (workspace user : String) → Op Membership
unfolding require_workspace get_membership suspend
suspend_member sv now p workspace user = require_workspace sv now p workspace role_admin >>= λ _.
    get_membership p.project_id p.tenant_id workspace user >>= suspend now workspace user

unfoldable pub reinstate : ℕ → (workspace user : String) → Membership → Op Membership
unfolding put_membership_and_tuples user_tuple
reinstate now workspace user m =
    if not (m.status == status_suspended)
    then pure m
    else put_membership_and_tuples (record m { status = status_active; updated_at = now })
        (role_tuples workspace m.role user) []
      >> pure (record m { status = status_active; updated_at = now })

unfoldable pub reinstate_member :
    Service → ℕ → Principal → (workspace user : String) → Op Membership
unfolding require_workspace get_membership reinstate
reinstate_member sv now p workspace user = require_workspace sv now p workspace role_admin >>= λ _.
    get_membership p.project_id p.tenant_id workspace user >>= reinstate now workspace user
