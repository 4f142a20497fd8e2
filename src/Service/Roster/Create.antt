-- ===== src/Service/Roster/Create.antt =====
-- The creation of a workspace with its owner keeps rows and tuples together
-- (internal/service/workspaces.go).
use workspace.Base.{
  String, ◌≡◌, refl, sym, ap, ◌∙◌, subst, Bool, true, false, not, ◌&&◌, ◌||◌, Option, none, some,
  [], ◌∷◌, ◌==◌, arith, eq_iff, eq_self, if◌then◌else◌, ◌⊎◌, inl, inr, contains, ok, err, Error,
}
use workspace.Base.Tables.{put_in, shard, values}
use workspace.Base.Tables.Lookup.{lookup-put_in}
use workspace.Authz.State.{◌>>◌}
use workspace.Service.Types.{Workspace, Membership, Invitation, role_owner}
use workspace.Service.Rules.{Keeps}
use workspace.Service.Members.{role_tuples}
use workspace.Service.Workspaces.{owner_membership, create_workspace_with_owner}
use workspace.Service.Roster.{
  member_of, workspace_of, holds, IsOwned, Owned, IsInvited, Settled, Consistent,
}
use workspace.Service.Roster.Put.{All-map, Owned-same, after_put}
use workspace.Service.Roster.Rows.{
  IsHere, AllConsistent, put-Settled, put-Owned, is_own, row-after_put, member-written,
}
use workspace.Service.Roster.Members.{moves_in}
use workspace.Store.Keys.{scope}
use workspace.Store.State.{Store}
use workspace.Store.Tuples.{write_tuples_locked, advance}
use workspace.Store.Workspaces.{create_workspace, put_membership_locked, put_membership_and_tuples}

module _ (w : Workspace) (st : Store) where
  -- the store with the workspace's row
  unfoldable pub with_row : Store
  unfolding put_in
  with_row = record st { workspaces = put_in (scope w.project_id w.tenant_id) w.id w st.workspaces }

  pub workspace-with_row :
      (sk id : String)
      → workspace_of sk id with_row ≡ (
          if scope w.project_id w.tenant_id == sk && w.id == id
          then some w
          else workspace_of sk id st)
  unfolding with_row
  workspace-with_row sk id =
      lookup-put_in (scope w.project_id w.tenant_id) w.id w st.workspaces sk id

  pub Settled-with_row : (sk : String) → Settled sk st → Settled sk with_row
  unfolding with_row
  Settled-with_row sk c = record {
    keyed = c.keyed;
    placed = c.placed;
    backed = c.backed;
    invited =
        All-map (IsInvited sk st) (IsInvited sk with_row) still (values (shard sk st.invitations))
          c.invited;
  }
    where
      there :
          (b : Bool) (o : Option Workspace) (v : Workspace)
          → o ≡ some v
          → (if b then some w else o) ≡ some (if b then w else v)
      there true o v e = refl
      there false o v e = e

      still : (inv : Invitation) → IsInvited sk st inv → IsInvited sk with_row inv
      still inv i = record {
        scope_is = i.scope_is;
        role_is = i.role_is;
        workspace =
            if scope w.project_id w.tenant_id == sk && w.id == inv.workspace_id
            then w
            else i.workspace;
        has_workspace =
            workspace-with_row sk inv.workspace_id
            ∙ there (scope w.project_id w.tenant_id == sk && w.id == inv.workspace_id)
                (workspace_of sk inv.workspace_id st) i.workspace i.has_workspace;
      }

  -- the store with the owner's row and tuple
  abbrev owned_store : String → Store
  owned_store sk = after_put sk (owner_membership w) (role_owner ∷ []) [] with_row

  module _ (sk : String) (fresh : workspace_of (scope w.project_id w.tenant_id) w.id st ≡ none)
      (c : Consistent sk st) where
    nobody :
        scope w.project_id w.tenant_id ≡ sk → (user : String) → member_of sk w.id user st ≡ none
    nobody at user =
        subst (Owned sk st w.id) (subst (λ s. workspace_of s w.id st ≡ none) at fresh)
          (c.owned w.id) user

    own : scope w.project_id w.tenant_id ≡ sk → IsOwned sk (owned_store sk) w.id w
    unfolding owner_membership with_row put_membership_and_tuples
    own at = record {
      scope_is = at;
      id_is = refl;
      owner = owner_membership w;
      has_row = member-written sk (owner_membership w) (role_owner ∷ []) [] with_row at;
      is_owner = refl;
      is_active = refl;
      alone = λ user n e _.
          alone user n
            (row-after_put sk (owner_membership w) (role_owner ∷ []) [] with_row w.id user n e);
    }
      where
        alone :
            (user : String) (n : Membership)
            → (IsHere sk w.id user (owner_membership w) × (owner_membership w ≡ n))
              ⊎ (member_of sk w.id user with_row ≡ some n)
            → user ≡ w.owner_user_id
        alone user n (inl (h, _)) = sym h.2
        alone user n (inr old) = absurd (cc (nobody at user))

    row_there : scope w.project_id w.tenant_id ≡ sk → some w ≡ workspace_of sk w.id with_row
    row_there at = sym (
        workspace-with_row sk w.id
        ∙ same (scope w.project_id w.tenant_id == sk && w.id == w.id)
            (ground (arith, eq_iff (scope w.project_id w.tenant_id) sk, eq_self w.id)))
      where
        same : (b : Bool) → b ≡ true → (if b then some w else workspace_of sk w.id st) ≡ some w
        same true e = refl
        same false e = absurd (cc)

    elsewhere :
        (id : String)
        → is_own sk (owner_membership w) (role_owner ∷ []) [] with_row id ≡ false
        → Owned sk with_row id (workspace_of sk id with_row)
    unfolding is_own owner_membership with_row
    elsewhere id other =
        subst (Owned sk with_row id)
          (sym (
            workspace-with_row sk id
            ∙ ap (λ (b : Bool). if b then some w else workspace_of sk id st) other))
          (Owned-same sk st with_row id (workspace_of sk id st) (λ _. refl) (c.owned id))

    create-Consistent : Consistent sk (owned_store sk)
    unfolding owner_membership with_row put_membership_and_tuples put_membership_locked
        write_tuples_locked advance
    create-Consistent = record {
      settled =
          put-Settled sk (owner_membership w) (role_owner ∷ []) [] with_row
            (Settled-with_row sk c.settled) (inl refl)
            (λ at role.
              ap (λ o. contains role (role_owner ∷ []) || (not (contains role []) && holds role o))
                (nobody at w.owner_user_id)
              ∙ moves_in (owner_membership w) refl role);
      owned = λ id.
          put-Owned sk (owner_membership w) (role_owner ∷ []) [] with_row
            (λ at. subst (Owned sk (owned_store sk) w.id) (row_there at) (own at)) id
            (elsewhere id);
    }

-- `createWorkspaceWithOwner`
pub create_workspace_with_owner-Keeps :
    (w : Workspace) (st : Store)
    → AllConsistent st
    → Keeps AllConsistent (create_workspace_with_owner w st)
unfolding create_workspace_with_owner create_workspace with_row owner_membership
    put_membership_and_tuples
create_workspace_with_owner-Keeps w st c =
    by_row (workspace_of (scope w.project_id w.tenant_id) w.id st) refl _
  where
    by_row :
        (o : Option Workspace)
        → workspace_of (scope w.project_id w.tenant_id) w.id st ≡ o
        → (personal : Bool)
        → Keeps AllConsistent (
            ((λ (s : Store).
                  if (elim o [ none ↦ false | some _ ↦ true ])
                  then (err Error.already_exists, s)
                  else if personal
                  then (err Error.already_exists, s)
                  else (ok tt, with_row w s))
                >> put_membership_and_tuples
                    (owner_membership w)
                    (role_tuples w.id role_owner w.owner_user_id)
                    [])
              st)
    by_row (some _) e personal = c
    by_row none e true = c
    by_row none e false = λ sk. create-Consistent w st sk e (c sk)
