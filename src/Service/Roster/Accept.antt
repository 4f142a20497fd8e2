-- ===== src/Service/Roster/Accept.antt =====
-- The issue, the redemption and the revocation of invitations keep rows and tuples together (internal/service/invitations.go).
use workspace.Base.{
  ℕ, String, ◌≡◌, refl, ap₂, ◌∙◌, false, not, Option, none, some, ◌==◌, ltb, arith, if◌then◌else◌,
  lookup, Error,
}
use workspace.Base.Tables.{shard}
use workspace.Authz.State.{pure, raise, ◌>>=◌, ◌>>◌}
use workspace.Service.Types.{
  Workspace, Membership, Invitation, role_owner, role_admin, type_personal, invite_pending,
  invite_expired, invite_accepted, invite_revoked,
}
use workspace.Service.Access.{Principal, Service, ensure_project_active, require_workspace, attempt}
use workspace.Service.Names.{trim_name}
use workspace.Service.Members.{is_grantable, put_member}
use workspace.Service.Invitations.{
  new_invitation, issue, invite, consume, join_as, join, redeem, accept_invitation, revoke,
  revoke_invitation,
}
use workspace.Service.Rules.{
  Keeps, bind-Keeps, pure-Keeps, if-Keeps, found-Keeps, find_row-Keeps, lift-Keeps, require-Keeps,
}
use workspace.Service.Roster.{member_of, workspace_of, IsInvited}
use workspace.Service.Roster.Invites.{
  All-lookup, All-find_value, create_invitation-Keeps, update_invitation-Keeps,
}
use workspace.Service.Roster.Rows.{AllConsistent}
use workspace.Service.Roster.Requests.{grantable_humble, put_member-Post}
use workspace.Store.Keys.{scope}
use workspace.Store.State.{Store}
use workspace.Store.Workspaces.{
  create_invitation, update_invitation, get_invitation, get_invitation_by_token_hash,
  get_membership,
}

module _ (sv : Service) (now : ℕ) (p : Principal) (st : Store) (c : AllConsistent st) where
  issue-Keeps :
      (id token_hash workspace email role : String) (w : Workspace)
      → (role == role_owner) ≡ false
      → workspace_of (scope p.project_id p.tenant_id) workspace st ≡ some w
      → Keeps AllConsistent (issue now id token_hash p workspace email role w st)
  unfolding issue new_invitation
  issue-Keeps id token_hash workspace email role w humble row =
      if-Keeps AllConsistent (w.kind == type_personal) (raise Error.failed_precondition)
        (create_invitation (new_invitation now id token_hash p workspace email role)
          >> pure (new_invitation now id token_hash p workspace email role))
        st (λ _. c)
        λ _.
          pure-Keeps AllConsistent
            (create_invitation (new_invitation now id token_hash p workspace email role))
            (new_invitation now id token_hash p workspace email role) st
            (create_invitation-Keeps (new_invitation now id token_hash p workspace email role) st c
              (record { scope_is = refl; role_is = humble; workspace = w; has_workspace = row }))

  pub invite-Keeps :
      (id token_hash workspace email role : String)
      → Keeps AllConsistent (invite sv now id token_hash p workspace email role st)
  unfolding invite
  invite-Keeps id token_hash workspace email role =
      lift-Keeps AllConsistent (ensure_project_active sv p)
        (λ _.
          if not (is_grantable role)
          then raise Error.invalid_argument
          else if trim_name email == ""
          then raise Error.invalid_argument
          else require_workspace sv now p workspace role_admin
            >>= issue now id token_hash p workspace (trim_name email) role)
        st c
        λ _ _.
          if-Keeps AllConsistent (not (is_grantable role)) (raise Error.invalid_argument)
            (if trim_name email == ""
              then raise Error.invalid_argument
              else require_workspace sv now p workspace role_admin
                >>= issue now id token_hash p workspace (trim_name email) role)
            st (λ _. c)
            λ grantable.
              if-Keeps AllConsistent (trim_name email == "") (raise Error.invalid_argument)
                (require_workspace sv now p workspace role_admin
                  >>= issue now id token_hash p workspace (trim_name email) role)
                st (λ _. c)
                λ _.
                  require-Keeps AllConsistent sv now p workspace role_admin
                    (issue now id token_hash p workspace (trim_name email) role) st c
                    (λ w.
                      issue-Keeps id token_hash workspace (trim_name email) role w
                        (grantable_humble role (ground arith)))

  -- an invitation that the store has
  module _ (inv : Invitation) (fit : IsInvited (scope p.project_id p.tenant_id) st inv) where
    moved_to :
        (status : String) (st' : Store)
        → st'.workspaces ≡ st.workspaces
        → IsInvited (scope inv.project_id inv.tenant_id) st' (record inv { status = status })
    moved_to status st' same = record {
      scope_is = refl;
      role_is = fit.role_is;
      workspace = fit.workspace;
      has_workspace =
          ap₂ (λ ws s. lookup inv.workspace_id (shard s ws)) same fit.scope_is ∙ fit.has_workspace;
    }

    consume-Keeps :
        (st' : Store)
        → AllConsistent st'
        → st'.workspaces ≡ st.workspaces
        → Keeps AllConsistent (consume inv st')
    unfolding consume
    consume-Keeps st' c' same =
        update_invitation-Keeps (record inv { status = invite_accepted }) st' c'
          (moved_to invite_accepted st' same)

    join_as-Keeps :
        (o : Option Membership)
        → member_of (scope p.project_id p.tenant_id) inv.workspace_id p.user_id st ≡ o
        → Keeps AllConsistent (join_as sv now p inv o st)
    unfolding join_as
    join_as-Keeps (some m) e = pure-Keeps AllConsistent (consume inv) m st (consume-Keeps st c refl)
    join_as-Keeps none e =
        bind-Keeps AllConsistent (λ _ st'. AllConsistent st' × (st'.workspaces ≡ st.workspaces))
          (put_member sv now p inv.workspace_id p.user_id inv.role) (λ m. consume inv >> pure m) st
          (put_member-Post sv now p inv.workspace_id p.user_id st c inv.role fit.workspace
            fit.has_workspace e fit.role_is)
          λ m st' h. pure-Keeps AllConsistent (consume inv) m st' (consume-Keeps st' h.0 h.1)

    redeem-Keeps : Keeps AllConsistent (redeem sv now p inv st)
    unfolding redeem join get_membership
    redeem-Keeps =
        if-Keeps AllConsistent (not (inv.status == invite_pending))
          (raise Error.failed_precondition)
          (if ltb inv.expires_at now
            then attempt (update_invitation (record inv { status = invite_expired }))
              >> raise Error.failed_precondition
            else join sv now p inv)
          st (λ _. c)
          λ _.
            if-Keeps AllConsistent (ltb inv.expires_at now)
              (attempt (update_invitation (record inv { status = invite_expired }))
                >> raise Error.failed_precondition)
              (join sv now p inv) st
              (λ _.
                update_invitation-Keeps (record inv { status = invite_expired }) st c
                  (moved_to invite_expired st refl))
              λ _. find_row-Keeps AllConsistent _ (join_as sv now p inv) st join_as-Keeps

    revoke-Keeps : Keeps AllConsistent (revoke inv st)
    unfolding revoke
    revoke-Keeps =
        if-Keeps AllConsistent (inv.status == invite_pending)
          (update_invitation (record inv { status = invite_revoked })) (pure tt) st
          (λ _.
            update_invitation-Keeps (record inv { status = invite_revoked }) st c
              (moved_to invite_revoked st refl))
          (λ _. c)

  pub accept_invitation-Keeps :
      (token token_hash : String)
      → Keeps AllConsistent (accept_invitation sv now p token token_hash st)
  unfolding accept_invitation get_invitation_by_token_hash
  accept_invitation-Keeps token token_hash =
      if-Keeps AllConsistent (token == "") (raise Error.invalid_argument)
        (get_invitation_by_token_hash p.project_id p.tenant_id token_hash >>= redeem sv now p) st
        (λ _. c)
        λ _. found-Keeps AllConsistent _ (redeem sv now p) st c λ inv e. redeem-Keeps inv (
          All-find_value (IsInvited (scope p.project_id p.tenant_id) st)
            (λ (i : Invitation). i.token_hash == token_hash) inv
            (shard (scope p.project_id p.tenant_id) st.invitations) e
            (c (scope p.project_id p.tenant_id)).settled.invited)

  pub revoke_invitation-Keeps :
      (id : String) → Keeps AllConsistent (revoke_invitation sv now p id st)
  unfolding revoke_invitation get_invitation
  revoke_invitation-Keeps id =
      found-Keeps AllConsistent _
        (λ (inv : Invitation). require_workspace sv now p inv.workspace_id role_admin >> revoke inv)
        st c
        λ inv e.
          require-Keeps AllConsistent sv now p inv.workspace_id role_admin (λ _. revoke inv) st c
            λ _ _. revoke-Keeps inv (
              All-lookup (IsInvited (scope p.project_id p.tenant_id) st) id inv
                (shard (scope p.project_id p.tenant_id) st.invitations) e
                (c (scope p.project_id p.tenant_id)).settled.invited)
