-- ===== src/Service/Roster/Steps.antt =====
-- The requests of the workspace services in any order (internal/service/workspaces.go, members.go,
-- ownership.go, invitations.go).
use workspace.Base.{ℕ, String, ◌≡◌, refl, none, some, lookup}
use workspace.Base.Tables.{shard, values}
use workspace.Service.Types.{Membership}
use workspace.Service.Access.{Principal, Service}
use workspace.Service.Workspaces.{
  ensure_personal_workspace, create_team, list_workspaces, rename_workspace, remove_workspace,
}
use workspace.Service.Members.{
  add_member, update_member_role, remove_member, suspend_member, reinstate_member,
}
use workspace.Service.Ownership.{transfer_ownership}
use workspace.Service.Invitations.{invite, accept_invitation, revoke_invitation}
use workspace.Service.Rules.{Keeps, Keeps-Post, bind-Keeps}
use workspace.Service.Roster.Rows.{AllConsistent}
use workspace.Service.Roster.Requests.{
  add_member-Keeps, update_member_role-Keeps, suspend_member-Keeps, reinstate_member-Keeps,
}
use workspace.Service.Roster.Leave.{remove_member-Keeps}
use workspace.Service.Roster.Rename.{
  ensure_personal_workspace-Keeps, create_team-Keeps, rename_workspace-Keeps,
}
use workspace.Service.Roster.Erase.{remove_workspace-Keeps}
use workspace.Service.Roster.HandOver.{transfer_ownership-Keeps}
use workspace.Service.Roster.Accept.{invite-Keeps, accept_invitation-Keeps, revoke_invitation-Keeps}
use workspace.Store.State.{Store, new_store}
use workspace.Store.Workspaces.{workspaces_for_user}

-- A request to the workspace services, of any caller. The ids, the hashes and the instant are what
-- the service draws.
pub data Request : Type 0 where
  open_personal list : (id : String) → Request
  create : (id display_name slug : String) → Request
  rename : (id display_name : String) → Request
  delete : (id : String) → Request
  add update_role : (workspace user role : String) → Request
  remove suspend reinstate transfer : (workspace user : String) → Request
  send_invitation : (id token_hash workspace email role : String) → Request
  accept : (token token_hash : String) → Request
  revoke : (id : String) → Request

-- the store that the request leaves, whatever it answers
unfoldable pub serve : Service → ℕ → Principal → Request → Store → Store
unfolding ensure_personal_workspace list_workspaces create_team rename_workspace remove_workspace
    add_member update_member_role remove_member suspend_member reinstate_member transfer_ownership
    invite accept_invitation revoke_invitation
serve sv now p (Request.open_personal id) st = (ensure_personal_workspace now id p st).1
serve sv now p (Request.list id) st = (list_workspaces now id p st).1
serve sv now p (Request.create id display_name slug) st =
    (create_team sv now id p display_name slug st).1
serve sv now p (Request.rename id display_name) st =
    (rename_workspace sv now p id display_name st).1
serve sv now p (Request.delete id) st = (remove_workspace sv now p id st).1
serve sv now p (Request.add workspace user role) st = (add_member sv now p workspace user role st).1
serve sv now p (Request.update_role workspace user role) st =
    (update_member_role sv now p workspace user role st).1
serve sv now p (Request.remove workspace user) st = (remove_member sv now p workspace user st).1
serve sv now p (Request.suspend workspace user) st = (suspend_member sv now p workspace user st).1
serve sv now p (Request.reinstate workspace user) st =
    (reinstate_member sv now p workspace user st).1
serve sv now p (Request.transfer workspace user) st =
    (transfer_ownership sv now p workspace user st).1
serve sv now p (Request.send_invitation id token_hash workspace email role) st =
    (invite sv now id token_hash p workspace email role st).1
serve sv now p (Request.accept token token_hash) st =
    (accept_invitation sv now p token token_hash st).1
serve sv now p (Request.revoke id) st = (revoke_invitation sv now p id st).1

-- a request is served, at some instant and to some caller
pub data Served : Store → Store → Type 0 where
  done : {st : Store} → Served st st
  also :
      {st st' : Store} (sv : Service) (now : ℕ) (p : Principal) (r : Request)
      → Served (serve sv now p r st) st'
      → Served st st'

list_workspaces-Keeps :
    (now : ℕ) (id : String) (p : Principal) (sv : Service) (st : Store)
    → AllConsistent st
    → Keeps AllConsistent (list_workspaces now id p st)
unfolding list_workspaces workspaces_for_user
list_workspaces-Keeps now id p sv st c =
    bind-Keeps AllConsistent (λ _ st. AllConsistent st) (ensure_personal_workspace now id p)
      (λ _. workspaces_for_user p.project_id p.tenant_id p.user_id) st
      (Keeps-Post AllConsistent (ensure_personal_workspace now id p st)
        (ensure_personal_workspace-Keeps sv now p st c id))
      (λ _ st' c'. c')

serve-AllConsistent :
    (sv : Service) (now : ℕ) (p : Principal) (r : Request) (st : Store)
    → AllConsistent st
    → AllConsistent (serve sv now p r st)
unfolding serve
serve-AllConsistent sv now p (Request.open_personal id) st c =
    ensure_personal_workspace-Keeps sv now p st c id
serve-AllConsistent sv now p (Request.list id) st c = list_workspaces-Keeps now id p sv st c
serve-AllConsistent sv now p (Request.create id name slug) st c =
    create_team-Keeps sv now p st c id name slug
serve-AllConsistent sv now p (Request.rename id name) st c =
    rename_workspace-Keeps sv now p st c id name
serve-AllConsistent sv now p (Request.delete id) st c = remove_workspace-Keeps sv now p id st c
serve-AllConsistent sv now p (Request.add w u role) st c = add_member-Keeps sv now p w u st c role
serve-AllConsistent sv now p (Request.update_role w u role) st c =
    update_member_role-Keeps sv now p w u st c role
serve-AllConsistent sv now p (Request.remove w u) st c = remove_member-Keeps sv now p w u st c
serve-AllConsistent sv now p (Request.suspend w u) st c = suspend_member-Keeps sv now p w u st c
serve-AllConsistent sv now p (Request.reinstate w u) st c = reinstate_member-Keeps sv now p w u st c
serve-AllConsistent sv now p (Request.transfer w u) st c =
    transfer_ownership-Keeps sv now p w u st c
serve-AllConsistent sv now p (Request.send_invitation id hash w email role) st c =
    invite-Keeps sv now p st c id hash w email role
serve-AllConsistent sv now p (Request.accept token hash) st c =
    accept_invitation-Keeps sv now p st c token hash
serve-AllConsistent sv now p (Request.revoke id) st c = revoke_invitation-Keeps sv now p st c id

-- Rows and grants do not diverge under the requests of the workspace services: if in every scope the
-- tuples stand under their own keys, every membership row stands at its place and is active or
-- suspended, the stored tuple of a role of a user on a workspace exists exactly if that user's row is
-- active and has that role, every invitation is to a workspace that exists and to a role other than
-- owner, every workspace has one owner row, which is active and is that of its recorded owner, and a
-- workspace that does not exist has no rows, then so it is after any sequence of these requests by
-- any callers, served one after the other, whatever each of them answers.
pub Served-AllConsistent : {st st' : Store} → Served st st' → AllConsistent st → AllConsistent st'
Served-AllConsistent done c = c
Served-AllConsistent {st} (also sv now p r rest) c =
    Served-AllConsistent rest (serve-AllConsistent sv now p r st c)

-- and so it is in a new store
pub new_store-AllConsistent : AllConsistent new_store
unfolding new_store shard lookup values
new_store-AllConsistent sk = record {
  settled = record {
    keyed = tt;
    placed = λ _ _ _ e. nothing e;
    backed = λ _ _ _. refl;
    invited = tt;
  };
  owned = λ _ _. refl;
}
  where
    nothing : {A : Type 0} {m : Membership} → none ≡ some m → A
    nothing e = absurd (cc)
