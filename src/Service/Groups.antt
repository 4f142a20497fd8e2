-- ===== src/Service/Groups.antt =====
-- internal/service/groups.go: groups, their members, and the enrollments that follow them.
pub mod Enrolled
pub mod Tests
use workspace.Base.{
  ℕ, String, false, not, ◌&&◌, Option, none, some, List, [], ◌∷◌, ◌==◌, if◌then◌else◌, Result, ok,
  err, Error,
}
use workspace.Authz.Model.{Subject, Tuple}
use workspace.Authz.State.{pure, raise, lift, ◌>>=◌, ◌>>◌}
use workspace.Service.Types.{
  Group, GroupMember, Enrollment, valid_enrollment, grants_access, role_admin, role_member,
  role_guest, enrollment_enrolled, enrollment_dropped,
}
use workspace.Service.Access.{
  Principal, Service, ensure_project_active, require_workspace, allowed, user_tuple, find_row,
}
use workspace.Service.Names.{trim_name}
use workspace.Service.Workspaces.{slug_of}
use workspace.Store.State.{Op}
use workspace.Store.Tuples.{write_tuples, list_subjects}
use workspace.Store.Groups.{
  create_group, get_group, list_groups, delete_group, set_enrollment_and_tuples, get_enrollment,
  list_enrollments,
}

unfoldable pub new_group :
    Service → ℕ → String → Principal → (display_name slug workspace : String) → Group
unfolding slug_of
new_group sv now id p display_name slug workspace = record {
  id = id;
  project_id = p.project_id;
  tenant_id = p.tenant_id;
  workspace_id = workspace;
  slug = slug_of sv slug display_name;
  display_name = display_name;
  created_by = p.user_id;
  created_at = now;
  updated_at = now;
}

-- the caller's relation to a workspace, if one is named
unfoldable pub require_if_named : Service → ℕ → Principal → (workspace rel : String) → Op (Unit {0})
unfolding require_workspace
require_if_named sv now p workspace rel =
    if workspace == "" then pure tt else require_workspace sv now p workspace rel >> pure tt

-- `Service.CreateGroup`
unfoldable pub make_group :
    Service → ℕ → String → Principal → (display_name slug workspace : String) → Op Group
unfolding ensure_project_active trim_name require_if_named new_group create_group
make_group sv now id p display_name slug workspace =
    lift (ensure_project_active sv p)
    >> (if trim_name display_name == ""
        then raise Error.invalid_argument
        else require_if_named sv now p workspace role_member
          >> create_group (new_group sv now id p (trim_name display_name) slug workspace)
          >> pure (new_group sv now id p (trim_name display_name) slug workspace))

-- `Service.ListGroups`
unfoldable pub view_groups : Service → ℕ → Principal → String → Op (List Group)
unfolding require_if_named list_groups
view_groups sv now p workspace =
    require_if_named sv now p workspace role_guest >> list_groups p.project_id p.tenant_id workspace

unfoldable pub require_group_manager : Service → ℕ → Principal → Group → Op (Unit {0})
unfolding allowed
require_group_manager sv now p g =
    if g.created_by == p.user_id
    then pure tt
    else if g.workspace_id == ""
    then raise Error.permission_denied
    else allowed sv now p g.workspace_id role_admin >>= λ granted.
        if granted then pure tt else raise Error.permission_denied

-- the group, for a caller who manages it
unfoldable pub managed_group : Service → ℕ → Principal → String → Op Group
unfolding get_group require_group_manager
managed_group sv now p id =
    get_group p.project_id p.tenant_id id >>= λ g. require_group_manager sv now p g >> pure g

-- `Service.DeleteGroup`
unfoldable pub remove_group : Service → ℕ → Principal → String → Op (Unit {0})
unfolding managed_group delete_group
remove_group sv now p id = managed_group sv now p id >> delete_group p.project_id p.tenant_id id

unfoldable pub nested_tuple : (group nested : String) → Tuple
nested_tuple group nested = record {
  namespace = "group";
  object_id = group;
  relation = "member";
  subject = record {
    user_id = "";
    set = some (record { namespace = "group"; object_id = nested; relation = "member" });
    wildcard = false;
    condition = none;
  };
  expires_at = none;
}

unfoldable pub group_member_tuple : String → GroupMember → Result Tuple
unfolding user_tuple nested_tuple
group_member_tuple group m =
    if not (m.user_id == "") && m.group_id == ""
    then ok (user_tuple "group" group "member" m.user_id)
    else if not (m.group_id == "") && m.user_id == ""
    then ok (nested_tuple group m.group_id)
    else err Error.invalid_argument

-- A member with an enrollment moves to the state with the tuple; another has the tuple moved alone.
unfoldable pub move_member :
    ℕ
    → Principal
    → String
    → GroupMember
    → (state : String) → (inserts deletes : List Tuple) → Op (Unit {0})
unfolding find_row get_enrollment set_enrollment_and_tuples write_tuples
move_member now p group m state inserts deletes =
    find_row (get_enrollment p.project_id p.tenant_id group m) >>= λ o. elim o [
      | some e ↦
          set_enrollment_and_tuples (record e { state = state; updated_at = now }) inserts deletes
      | none ↦ write_tuples p.project_id p.tenant_id inserts deletes
    ]

unfoldable pub add_group_member : Service → ℕ → Principal → String → GroupMember → Op (Unit {0})
unfolding ensure_project_active managed_group group_member_tuple move_member
add_group_member sv now p group m =
    lift (ensure_project_active sv p)
    >> managed_group sv now p group
    >> (lift (group_member_tuple group m) >>= λ t.
        move_member now p group m enrollment_enrolled (t ∷ []) [])

unfoldable pub remove_group_member : Service → ℕ → Principal → String → GroupMember → Op (Unit {0})
unfolding managed_group group_member_tuple move_member
remove_group_member sv now p group m =
    managed_group sv now p group
    >> (lift (group_member_tuple group m) >>= λ t.
        move_member now p group m enrollment_dropped [] (t ∷ []))

-- the loop over the subjects: users and nested groups; a wildcard is a user without an id
unfoldable pub group_members : List Subject → List GroupMember
group_members [] = []
group_members (s ∷ rest) =
    let later = group_members rest in
    elim s.set [
      | none ↦ record { user_id = s.user_id; group_id = "" } ∷ later
      | some u ↦
          if u.namespace == "group"
          then record { user_id = ""; group_id = u.object_id } ∷ later
          else later
    ]

unfoldable pub list_group_members : ℕ → Principal → String → Op (List GroupMember)
unfolding get_group list_subjects group_members
list_group_members now p group =
    get_group p.project_id p.tenant_id group
    >> (list_subjects now p.project_id p.tenant_id "group" group "member" >>= λ ss.
        pure (group_members ss))

unfoldable pub new_enrollment :
    ℕ → Principal → String → GroupMember → (state : String) → Option Enrollment → Enrollment
new_enrollment now p group m state existing = record {
  project_id = p.project_id;
  tenant_id = p.tenant_id;
  group_id = group;
  member = m;
  state = state;
  created_at = elim existing [ none ↦ now | some e ↦ e.created_at ];
  updated_at = now;
}

-- the tuple is present iff the state grants access
unfoldable pub enroll :
    ℕ → Principal → String → GroupMember → (state : String) → Tuple → Op Enrollment
unfolding find_row get_enrollment new_enrollment grants_access set_enrollment_and_tuples
enroll now p group m state t = find_row (get_enrollment p.project_id p.tenant_id group m) >>= λ o.
    set_enrollment_and_tuples (new_enrollment now p group m state o)
      (if grants_access state then t ∷ [] else []) (if grants_access state then [] else t ∷ [])
    >> pure (new_enrollment now p group m state o)

unfoldable pub set_enrollment_state :
    Service → ℕ → Principal → String → GroupMember → (state : String) → Op Enrollment
unfolding ensure_project_active valid_enrollment group_member_tuple managed_group enroll
set_enrollment_state sv now p group m state =
    lift (ensure_project_active sv p)
    >> (if not (valid_enrollment state)
        then raise Error.invalid_argument
        else lift (group_member_tuple group m) >>= λ t.
            managed_group sv now p group >> enroll now p group m state t)

-- `Service.ListEnrollments`
unfoldable pub view_enrollments : Service → ℕ → Principal → String → Op (List Enrollment)
unfolding managed_group list_enrollments
view_enrollments sv now p group =
    managed_group sv now p group >> list_enrollments p.project_id p.tenant_id group
