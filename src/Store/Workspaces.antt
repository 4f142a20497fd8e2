-- ===== src/Store/Workspaces.antt =====
-- internal/repo/memory/memory.go: projects, workspaces, memberships and invitations. A row that an
-- operation returns is a copy.
pub mod Cascade
pub mod Personal
use workspace.Base.{
  ℕ, String, Bool, true, false, not, ◌&&◌, ◌||◌, Option, none, some, List, [], ◌∷◌, ◌==◌, ltb,
  is_equal, if◌then◌else◌, Result, ok, err, Error, Dict, lookup,
}
use workspace.Base.Int.{increment64}
use workspace.Base.Tables.{
  put, remove, retain, values, has, shard, put_in, change_in, sort_by, filter, find_value,
  string_less,
}
use workspace.Authz.Model.{Tuple}
use workspace.Authz.State.{pure, raise, ◌>>=◌, ◌>>◌}
use workspace.Service.Types.{
  Project, Workspace, Membership, Invitation, type_personal, status_active,
}
use workspace.Store.Keys.{scope}
use workspace.Store.State.{Store, Op}
use workspace.Store.Tuples.{write_tuples_locked, write_tuples, advance}

-- by the instant of creation, and by id among equals
abbrev pub created_before : ℕ → String → ℕ → String → Bool
created_before at id at' id' = if is_equal at at' then string_less id id' else ltb at at'

-- a row, or `ErrNotFound`
abbrev pub found : {A : Type 0} → Option A → Op A
found none = raise Error.not_found
found (some a) = pure a

unfoldable pub create_project : Project → Op (Unit {0})
unfolding put lookup
create_project p st =
    if has p.id st.projects
    then (err Error.already_exists, st)
    else (ok tt, record st { projects = put p.id p st.projects })

unfoldable pub get_project : String → Op Project
unfolding lookup
get_project id st = found (lookup id st.projects) st

unfoldable pub update_project : Project → Op (Unit {0})
unfolding put lookup
update_project p st =
    if not (has p.id st.projects)
    then (err Error.not_found, st)
    else (ok tt, record st { projects = put p.id p st.projects })

unfoldable pub list_projects : Op (List Project)
unfolding sort_by values
list_projects st = (
  ok (
      sort_by (λ (a b : Project). created_before a.created_at a.id b.created_at b.id)
        (values st.projects)),
  st,
)

-- a personal workspace of the user
abbrev pub is_personal_of : String → Workspace → Bool
is_personal_of user w = w.kind == type_personal && w.owner_user_id == user

abbrev pub is_some : {A : Type 0} → Option A → Bool
is_some none = false
is_some (some _) = true

unfoldable pub create_workspace : Workspace → Op (Unit {0})
unfolding put_in shard lookup find_value
create_workspace w st =
    let sk = scope w.project_id w.tenant_id in
    let by_id = shard sk st.workspaces in
    if has w.id by_id
    then (err Error.already_exists, st)
    else if w.kind == type_personal && is_some (find_value (is_personal_of w.owner_user_id) by_id)
    then (err Error.already_exists, st)
    else (ok tt, record st { workspaces = put_in sk w.id w st.workspaces })

unfoldable pub get_workspace : String → String → String → Op Workspace
unfolding shard lookup
get_workspace project tenant id st =
    found (lookup id (shard (scope project tenant) st.workspaces)) st

unfoldable pub update_workspace : Workspace → Op (Unit {0})
unfolding shard lookup put_in
update_workspace w st =
    let sk = scope w.project_id w.tenant_id in
    if not (has w.id (shard sk st.workspaces))
    then (err Error.not_found, st)
    else (ok tt, record st { workspaces = put_in sk w.id w st.workspaces })

abbrev pub of_object : String → String → Tuple → Bool
of_object namespace id t = t.namespace == namespace && t.object_id == id

-- the workspace, its members, its tuples and its invitations go together
unfoldable pub erase_workspace : String → String → Store → Store
unfolding change_in remove retain advance
erase_workspace sk id st = advance sk (record st {
  workspaces = change_in sk (remove id) st.workspaces;
  memberships = change_in sk (remove id) st.memberships;
  tuples = change_in sk (retain (λ t. not (of_object "workspace" id t))) st.tuples;
  invitations =
      change_in sk (retain (λ (i : Invitation). not (i.workspace_id == id))) st.invitations;
})

unfoldable pub delete_workspace : String → String → String → Op (Unit {0})
unfolding shard lookup erase_workspace
delete_workspace project tenant id st =
    let sk = scope project tenant in
    if not (has id (shard sk st.workspaces))
    then (err Error.not_found, st)
    else (ok tt, erase_workspace sk id st)

unfoldable pub personal_workspace : String → String → String → Op Workspace
unfolding shard find_value
personal_workspace project tenant user st =
    found (find_value (is_personal_of user) (shard (scope project tenant) st.workspaces)) st

-- the loop over the memberships of a scope, by workspace
unfoldable pub active_workspaces : String → Dict Workspace → Dict (Dict Membership) → List Workspace
unfolding lookup
active_workspaces user workspaces [] = []
active_workspaces user workspaces ((ws, by_user) ∷ rest) =
    let later = active_workspaces user workspaces rest in
    elim (lookup user by_user) [
      | none ↦ later
      | some m ↦
          if not (m.status == status_active)
          then later
          else elim (lookup ws workspaces) [ none ↦ later | some w ↦ w ∷ later ]
    ]

unfoldable pub workspaces_for_user : String → String → String → Op (List Workspace)
unfolding active_workspaces shard sort_by
workspaces_for_user project tenant user st =
    let sk = scope project tenant in
    (
      ok (
          sort_by (λ (a b : Workspace). created_before a.created_at a.id b.created_at b.id)
            (active_workspaces user (shard sk st.workspaces) (shard sk st.memberships))),
      st,
    )

-- `putMembershipLocked`
unfoldable pub put_membership_locked : Membership → Store → Store
unfolding put put_in shard
put_membership_locked m st =
    let sk = scope m.project_id m.tenant_id in
    record st {
      memberships =
          put sk (put_in m.workspace_id m.user_id m (shard sk st.memberships)) st.memberships;
    }

unfoldable pub put_membership : Membership → Op (Unit {0})
unfolding put_membership_locked
put_membership m st = (ok tt, put_membership_locked m st)

unfoldable pub put_membership_and_tuples :
    Membership → (inserts deletes : List Tuple) → Op (Unit {0})
unfolding put_membership_locked write_tuples_locked
put_membership_and_tuples m inserts deletes st = (
  ok tt,
  write_tuples_locked m.project_id m.tenant_id inserts deletes (put_membership_locked m st),
)

unfoldable pub get_membership : String → String → String → String → Op Membership
unfolding shard lookup
get_membership project tenant workspace user st =
    found (lookup user (shard workspace (shard (scope project tenant) st.memberships))) st

unfoldable pub list_members : String → String → String → Op (List Membership)
unfolding shard sort_by values
list_members project tenant workspace st = (
  ok (
      sort_by (λ (a b : Membership). created_before a.created_at a.user_id b.created_at b.user_id)
        (values (shard workspace (shard (scope project tenant) st.memberships)))),
  st,
)

-- `deleteMembershipLocked`
unfoldable pub delete_membership : String → String → String → String → Op (Unit {0})
unfolding shard lookup change_in remove
delete_membership project tenant workspace user st =
    let sk = scope project tenant in
    if not (has user (shard workspace (shard sk st.memberships)))
    then (err Error.not_found, st)
    else (
      ok tt,
      record st { memberships = change_in sk (change_in workspace (remove user)) st.memberships },
    )

unfoldable pub delete_membership_and_tuples :
    String → String → String → String → List Tuple → Op (Unit {0})
unfolding delete_membership write_tuples
delete_membership_and_tuples project tenant workspace user deletes =
    delete_membership project tenant workspace user >> write_tuples project tenant [] deletes

unfoldable pub create_invitation : Invitation → Op (Unit {0})
unfolding shard lookup put_in
create_invitation inv st =
    let sk = scope inv.project_id inv.tenant_id in
    if has inv.id (shard sk st.invitations)
    then (err Error.already_exists, st)
    else (ok tt, record st { invitations = put_in sk inv.id inv st.invitations })

unfoldable pub get_invitation : String → String → String → Op Invitation
unfolding shard lookup
get_invitation project tenant id st =
    found (lookup id (shard (scope project tenant) st.invitations)) st

unfoldable pub get_invitation_by_token_hash : String → String → String → Op Invitation
unfolding shard find_value
get_invitation_by_token_hash project tenant token_hash st =
    found
      (find_value (λ (i : Invitation). i.token_hash == token_hash)
        (shard (scope project tenant) st.invitations))
      st

unfoldable pub update_invitation : Invitation → Op (Unit {0})
unfolding shard lookup put_in
update_invitation inv st =
    let sk = scope inv.project_id inv.tenant_id in
    if not (has inv.id (shard sk st.invitations))
    then (err Error.not_found, st)
    else (ok tt, record st { invitations = put_in sk inv.id inv st.invitations })

unfoldable pub list_invitations : String → String → String → Op (List Invitation)
unfolding shard sort_by values filter
list_invitations project tenant workspace st = (
  ok (
      sort_by (λ (a b : Invitation). created_before a.created_at a.id b.created_at b.id)
        (filter (λ (i : Invitation). i.workspace_id == workspace)
          (values (shard (scope project tenant) st.invitations)))),
  st,
)
