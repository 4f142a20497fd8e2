-- ===== src/Service/Invitations.antt =====
-- internal/service/invitations.go: invitations by a token, of which the store keeps the hash. The token,
-- its hash and the id are arguments.
use workspace.Base.{
  ℕ, ◌+◌, ◌*◌, String, not, Option, none, some, List, ◌==◌, ltb, if◌then◌else◌, Error,
}
use workspace.Authz.State.{pure, raise, lift, ◌>>=◌, ◌>>◌}
use workspace.Service.Types.{
  Workspace, Invitation, Membership, role_admin, type_personal, invite_pending, invite_accepted,
  invite_revoked, invite_expired,
}
use workspace.Service.Access.{
  Principal, Service, ensure_project_active, require_workspace, attempt, find_row,
}
use workspace.Service.Names.{trim_name}
use workspace.Service.Members.{is_grantable, put_member}
use workspace.Store.State.{Op}
use workspace.Store.Workspaces.{
  create_invitation, get_invitation, get_invitation_by_token_hash, update_invitation,
  list_invitations, get_membership,
}

-- seven days
abbrev pub invitation_ttl : ℕ
invitation_ttl = 7 * 24 * 3600 * 1000000000

unfoldable pub new_invitation :
    ℕ → (id token_hash : String) → Principal → (workspace email role : String) → Invitation
new_invitation now id token_hash p workspace email role = record {
  id = id;
  project_id = p.project_id;
  tenant_id = p.tenant_id;
  workspace_id = workspace;
  email = email;
  role = role;
  status = invite_pending;
  invited_by = p.user_id;
  token_hash = token_hash;
  created_at = now;
  expires_at = now + invitation_ttl;
}

unfoldable pub issue :
    ℕ
    → (id token_hash : String) → Principal
    → (workspace email role : String) → Workspace
    → Op Invitation
unfolding new_invitation create_invitation
issue now id token_hash p workspace email role w =
    if w.kind == type_personal
    then raise Error.failed_precondition
    else create_invitation (new_invitation now id token_hash p workspace email role)
      >> pure (new_invitation now id token_hash p workspace email role)

-- `Service.CreateInvitation`
unfoldable pub invite :
    Service
    → ℕ
    → (id token_hash : String) → Principal
    → (workspace email role : String) → Op Invitation
unfolding ensure_project_active is_grantable trim_name require_workspace issue
invite sv now id token_hash p workspace email role =
    lift (ensure_project_active sv p)
    >> (if not (is_grantable role)
        then raise Error.invalid_argument
        else if trim_name email == ""
        then raise Error.invalid_argument
        else require_workspace sv now p workspace role_admin
          >>= issue now id token_hash p workspace (trim_name email) role)

-- the write of an invitation as accepted
unfoldable pub consume : Invitation → Op (Unit {0})
unfolding update_invitation
consume inv = update_invitation (record inv { status = invite_accepted })

-- A user who is a member keeps the role; another is added.
unfoldable pub join_as : Service → ℕ → Principal → Invitation → Option Membership → Op Membership
unfolding consume put_member
join_as sv now p inv (some m) = consume inv >> pure m
join_as sv now p inv none =
    put_member sv now p inv.workspace_id p.user_id inv.role >>= λ m. consume inv >> pure m

unfoldable pub join : Service → ℕ → Principal → Invitation → Op Membership
unfolding find_row get_membership join_as
join sv now p inv =
    find_row (get_membership p.project_id p.tenant_id inv.workspace_id p.user_id)
    >>= join_as sv now p inv

-- a failure to mark the invitation expired is ignored
unfoldable pub redeem : Service → ℕ → Principal → Invitation → Op Membership
unfolding join update_invitation
redeem sv now p inv =
    if not (inv.status == invite_pending)
    then raise Error.failed_precondition
    else if ltb inv.expires_at now
    then attempt (update_invitation (record inv { status = invite_expired }))
      >> raise Error.failed_precondition
    else join sv now p inv

unfoldable pub accept_invitation :
    Service → ℕ → Principal → (token token_hash : String) → Op Membership
unfolding get_invitation_by_token_hash redeem
accept_invitation sv now p token token_hash =
    if token == ""
    then raise Error.invalid_argument
    else get_invitation_by_token_hash p.project_id p.tenant_id token_hash >>= redeem sv now p

-- `Service.ListInvitations`
unfoldable pub view_invitations : Service → ℕ → Principal → String → Op (List Invitation)
unfolding require_workspace list_invitations
view_invitations sv now p workspace =
    require_workspace sv now p workspace role_admin
    >> list_invitations p.project_id p.tenant_id workspace

unfoldable pub revoke : Invitation → Op (Unit {0})
unfolding update_invitation
revoke inv =
    if inv.status == invite_pending
    then update_invitation (record inv { status = invite_revoked })
    else pure tt

unfoldable pub revoke_invitation : Service → ℕ → Principal → String → Op (Unit {0})
unfolding get_invitation require_workspace revoke
revoke_invitation sv now p id = get_invitation p.project_id p.tenant_id id >>= λ inv.
    require_workspace sv now p inv.workspace_id role_admin >> revoke inv
