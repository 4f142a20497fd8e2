-- ===== src/Service/Workspaces.antt =====
-- internal/service/workspaces.go: the workspaces and their owners. The clock and the new id are
-- arguments.
use workspace.Base.{
  ℕ, String, Option, none, some, List, [], ◌∷◌, ◌==◌, if◌then◌else◌, Result, ok, err, Error,
}
use workspace.Authz.State.{pure, raise, lift, ◌>>=◌, ◌>>◌}
use workspace.Service.Types.{
  Workspace, Membership, role_owner, role_admin, role_guest, type_personal, type_team,
  status_active,
}
use workspace.Service.Access.{
  Principal, Service, ensure_project_active, require_workspace, user_tuple, is_already_exists,
  attempt, find_row,
}
use workspace.Service.Names.{trim_name, slugify}
use workspace.Store.State.{Op}
use workspace.Store.Workspaces.{
  create_workspace, update_workspace, delete_workspace, personal_workspace, workspaces_for_user,
  put_membership_and_tuples,
}

unfoldable pub owner_membership : Workspace → Membership
owner_membership w = record {
  project_id = w.project_id;
  tenant_id = w.tenant_id;
  workspace_id = w.id;
  user_id = w.owner_user_id;
  role = role_owner;
  status = status_active;
  created_at = w.created_at;
  updated_at = w.updated_at;
}

unfoldable pub create_workspace_with_owner : Workspace → Op (Unit {0})
unfolding create_workspace put_membership_and_tuples owner_membership user_tuple
create_workspace_with_owner w =
    create_workspace w
    >> put_membership_and_tuples (owner_membership w)
        (user_tuple "workspace" w.id role_owner w.owner_user_id ∷ []) []

unfoldable pub new_personal : ℕ → String → Principal → Workspace
new_personal now id p = record {
  id = id;
  project_id = p.project_id;
  tenant_id = p.tenant_id;
  slug = "personal";
  display_name = "Personal";
  kind = type_personal;
  owner_user_id = p.user_id;
  created_at = now;
  updated_at = now;
}

-- If another call has created it first, the winner is the answer.
unfoldable pub winner : ℕ → String → Principal → Result (Unit {0}) → Op Workspace
unfolding new_personal personal_workspace is_already_exists
winner now id p (ok _) = pure (new_personal now id p)
winner now id p (err e) =
    if is_already_exists e then personal_workspace p.project_id p.tenant_id p.user_id else raise e

unfoldable pub create_personal : ℕ → String → Principal → Op Workspace
unfolding create_workspace_with_owner new_personal winner
create_personal now id p =
    attempt (create_workspace_with_owner (new_personal now id p)) >>= winner now id p

unfoldable pub personal_or_new : ℕ → String → Principal → Option Workspace → Op Workspace
unfolding create_personal
personal_or_new now id p (some w) = pure w
personal_or_new now id p none = create_personal now id p

unfoldable pub ensure_personal_workspace : ℕ → String → Principal → Op Workspace
unfolding find_row personal_or_new personal_workspace
ensure_personal_workspace now id p =
    find_row (personal_workspace p.project_id p.tenant_id p.user_id) >>= personal_or_new now id p

unfoldable pub slug_of : Service → (slug display_name : String) → String
unfolding slugify
slug_of sv slug display_name =
    if slug == "" then slugify sv.to_lower display_name else slugify sv.to_lower slug

unfoldable pub new_team :
    Service → ℕ → String → Principal → (display_name slug : String) → Workspace
unfolding slug_of
new_team sv now id p display_name slug = record {
  id = id;
  project_id = p.project_id;
  tenant_id = p.tenant_id;
  slug = slug_of sv slug display_name;
  display_name = display_name;
  kind = type_team;
  owner_user_id = p.user_id;
  created_at = now;
  updated_at = now;
}

unfoldable pub put_team : Workspace → Op Workspace
unfolding create_workspace_with_owner
put_team w = create_workspace_with_owner w >> pure w

-- `Service.CreateWorkspace`
unfoldable pub create_team :
    Service → ℕ → String → Principal → (display_name slug : String) → Op Workspace
unfolding ensure_project_active trim_name new_team put_team
create_team sv now id p display_name slug =
    lift (ensure_project_active sv p)
    >> (if trim_name display_name == ""
        then raise Error.invalid_argument
        else put_team (new_team sv now id p (trim_name display_name) slug))

-- `Service.GetWorkspace`
unfoldable pub view_workspace : Service → ℕ → Principal → String → Op Workspace
unfolding require_workspace
view_workspace sv now p id = require_workspace sv now p id role_guest

-- `Service.ListWorkspaces`
unfoldable pub list_workspaces : ℕ → String → Principal → Op (List Workspace)
unfolding ensure_personal_workspace workspaces_for_user
list_workspaces now id p =
    ensure_personal_workspace now id p >> workspaces_for_user p.project_id p.tenant_id p.user_id

unfoldable pub rename : ℕ → (display_name : String) → Workspace → Op Workspace
unfolding trim_name update_workspace
rename now display_name w =
    if trim_name display_name == ""
    then raise Error.invalid_argument
    else update_workspace (record w { display_name = trim_name display_name; updated_at = now })
      >> pure (record w { display_name = trim_name display_name; updated_at = now })

-- `Service.UpdateWorkspace`
unfoldable pub rename_workspace :
    Service → ℕ → Principal → (id display_name : String) → Op Workspace
unfolding require_workspace rename
rename_workspace sv now p id display_name =
    require_workspace sv now p id role_admin >>= rename now display_name

unfoldable pub erase_team : Principal → String → Workspace → Op (Unit {0})
unfolding delete_workspace
erase_team p id w =
    if w.kind == type_personal
    then raise Error.failed_precondition
    else delete_workspace p.project_id p.tenant_id id

-- `Service.DeleteWorkspace`
unfoldable pub remove_workspace : Service → ℕ → Principal → String → Op (Unit {0})
unfolding require_workspace erase_team
remove_workspace sv now p id = require_workspace sv now p id role_owner >>= erase_team p id
