-- ===== src/Service/Roster/Erase.antt =====
-- `DeleteWorkspace` keeps rows and tuples together (internal/service/workspaces.go).
use workspace.Base.{
  ℕ, String, ◌≡◌, refl, sym, ap, ◌∙◌, subst, Bool, true, false, not, ◌&&◌, Option, none, some, [],
  ◌==◌, arith, eq_iff, if◌then◌else◌, Dict, lookup, Result, ok, err, Error,
}
use workspace.Base.Tables.{remove, retain, has, shard, values}
use workspace.Base.Tables.Lookup.{lookup-remove, shard-change_in}
use workspace.Authz.Model.{Tuple}
use workspace.Authz.State.{raise}
use workspace.Service.Types.{Workspace, Membership, Invitation, role_owner, type_personal}
use workspace.Service.Access.{Principal, Service, user_tuple}
use workspace.Service.Rules.{Keeps, if-Keeps, require-Keeps}
use workspace.Service.Workspaces.{erase_team, remove_workspace}
use workspace.Service.Roster.{
  All, member_of, workspace_of, role_key, holds, Owned, IsInvited, Consistent,
}
use workspace.Service.Roster.Put.{All-map, Owned-same}
use workspace.Service.Roster.Retain.{WellKeyed-retain, has-retain, All-retain}
use workspace.Service.Roster.Rows.{AllConsistent}
use workspace.Store.Keys.{scope, tuple_key, Place, tuple_key-place_iff}
use workspace.Store.State.{Store}
use workspace.Store.Tuples.{advance}
use workspace.Store.Tuples.Writes.{WellKeyed}
use workspace.Store.Workspaces.{of_object, erase_workspace, delete_workspace}

module _ (at id : String) (st : Store) where
  unfoldable pub erased : Store
  unfolding erase_workspace
  erased = erase_workspace at id st

  module _ (sk workspace : String) where
    unfoldable pub is_erased : Bool
    is_erased = at == sk && id == workspace

    workspace-erased :
        workspace_of sk workspace erased
        ≡ (if is_erased then none else workspace_of sk workspace st)
    unfolding erased erase_workspace advance is_erased remove
    workspace-erased =
        ap (lookup workspace) (shard-change_in at sk (remove id) st.workspaces refl)
        ∙ by_scope (at == sk)
      where
        by_scope :
            (b : Bool)
            → lookup workspace
                (if b then remove id (shard sk st.workspaces) else shard sk st.workspaces)
              ≡ (if b && id == workspace then none else workspace_of sk workspace st)
        by_scope true = lookup-remove id workspace (shard sk st.workspaces)
        by_scope false = refl

    member-erased :
        (user : String)
        → member_of sk workspace user erased
          ≡ (if is_erased then none else member_of sk workspace user st)
    unfolding erased erase_workspace advance is_erased remove lookup shard
    member-erased user =
        ap (λ d. lookup user (shard workspace d))
          (shard-change_in at sk (remove id) st.memberships refl)
        ∙ by_scope (at == sk)
      where
        by_scope :
            (b : Bool)
            → lookup user (
                shard workspace
                  (if b then remove id (shard sk st.memberships) else shard sk st.memberships))
              ≡ (if b && id == workspace then none else member_of sk workspace user st)
        by_scope true =
            ap (λ (o : Option (Dict Membership)). lookup user (elim o [ none ↦ [] | some d ↦ d ]))
              (lookup-remove id workspace (shard sk st.memberships))
            ∙ by_id (id == workspace)
          where
            by_id :
                (c : Bool)
                → lookup user
                    (elim (if c then none else lookup workspace (shard sk st.memberships)) [
                      | none ↦ []
                      | some d ↦ d
                    ])
                  ≡ (if c then none else member_of sk workspace user st)
            by_id true = refl
            by_id false = refl
        by_scope false = refl

  -- the tuples that stay, and none of them is of the workspace
  module _ (sk : String) where
    tuples-erased : shard sk erased.tuples ≡ (
        if at == sk
        then retain (λ t. not (of_object "workspace" id t)) (shard sk st.tuples)
        else shard sk st.tuples)
    unfolding erased erase_workspace advance retain
    tuples-erased =
        shard-change_in at sk (retain (λ t. not (of_object "workspace" id t))) st.tuples refl

module _ (at id : String) (st : Store) (sk : String) (c : Consistent sk st) where
  backed-erased :
      (workspace role user : String)
      → has (role_key workspace role user) (shard sk (erased at id st).tuples)
        ≡ holds role (member_of sk workspace user (erased at id st))
  unfolding is_erased user_tuple
  backed-erased workspace role user =
      ap (has (role_key workspace role user)) (tuples-erased at id st sk)
      ∙ by_scope (at == sk)
      ∙ sym (ap (holds role) (member-erased at id st sk workspace user))
    where
      stays_or_goes :
          (t : Tuple)
          → tuple_key t ≡ role_key workspace role user
          → not (of_object "workspace" id t) ≡ not (id == workspace)
      stays_or_goes t e =
          let same = (tuple_key-place_iff t (user_tuple "workspace" workspace role user)).0 e in
          let of_workspaces : t.namespace ≡ "workspace" = ap (λ (p : Place). p.namespace) same in
          let of_this : t.object_id ≡ workspace = ap (λ (p : Place). p.object_id) same in
          ground (arith, eq_iff t.namespace "workspace", eq_iff t.object_id id, eq_iff id workspace)

      by_scope :
          (b : Bool)
          → has (role_key workspace role user) (
              if b
              then retain (λ t. not (of_object "workspace" id t)) (shard sk st.tuples)
              else shard sk st.tuples)
            ≡ holds role (if b && id == workspace then none else member_of sk workspace user st)
      by_scope false = c.settled.backed workspace role user
      by_scope true =
          has-retain (λ t. not (of_object "workspace" id t)) (role_key workspace role user)
            (not (id == workspace)) (shard sk st.tuples) c.settled.keyed stays_or_goes
          ∙ ap (λ b. not (id == workspace) && b) (c.settled.backed workspace role user)
          ∙ by_id (id == workspace) (member_of sk workspace user st)
        where
          by_id :
              (b : Bool) (o : Option Membership)
              → (not b && holds role o) ≡ holds role (if b then none else o)
          by_id true o = refl
          by_id false o = refl

  row-erased :
      (workspace user : String) (m : Membership)
      → member_of sk workspace user (erased at id st) ≡ some m
      → member_of sk workspace user st ≡ some m
  row-erased workspace user m e =
      by_test (is_erased at id st sk workspace) (sym (member-erased at id st sk workspace user) ∙ e)
    where
      by_test :
          (b : Bool)
          → (if b then none else member_of sk workspace user st) ≡ some m
          → member_of sk workspace user st ≡ some m
      by_test true f = absurd (cc)
      by_test false f = f

  Owned-erased :
      (workspace : String)
      → Owned sk (erased at id st) workspace (workspace_of sk workspace (erased at id st))
  Owned-erased workspace =
      subst (Owned sk (erased at id st) workspace) (sym (workspace-erased at id st sk workspace))
        (by_test (is_erased at id st sk workspace) (member-erased at id st sk workspace))
    where
      by_test :
          (b : Bool)
          → ((user : String)
              → member_of sk workspace user (erased at id st)
                ≡ (if b then none else member_of sk workspace user st))
          → Owned sk (erased at id st) workspace (if b then none else workspace_of sk workspace st)
      by_test true gone = gone
      by_test false same =
          Owned-same sk st (erased at id st) workspace (workspace_of sk workspace st) same
            (c.owned workspace)

  IsInvited-erased :
      All (IsInvited sk (erased at id st)) (values (shard sk (erased at id st).invitations))
  unfolding erased erase_workspace advance retain is_erased
  IsInvited-erased =
      subst (λ m. All (IsInvited sk (erased at id st)) (values m))
        (sym (
          shard-change_in at sk (retain (λ (i : Invitation). not (i.workspace_id == id)))
            st.invitations refl))
        (by_scope (at == sk) refl)
    where
      still :
          (inv : Invitation)
          → (at == sk && id == inv.workspace_id) ≡ false
          → IsInvited sk st inv
          → IsInvited sk (erased at id st) inv
      still inv apart i = record {
        scope_is = i.scope_is;
        role_is = i.role_is;
        workspace = i.workspace;
        has_workspace =
            workspace-erased at id st sk inv.workspace_id
            ∙ ap (λ (b : Bool). if b then none else workspace_of sk inv.workspace_id st) apart
            ∙ i.has_workspace;
      }

      by_scope :
          (b : Bool)
          → (at == sk) ≡ b
          → All (IsInvited sk (erased at id st)) (
              values (
                if b
                then retain
                    (λ (i : Invitation). not (i.workspace_id == id))
                    (shard sk st.invitations)
                else shard sk st.invitations))
      by_scope true e =
          All-map _ (IsInvited sk (erased at id st))
            (λ inv h.
              still inv
                (ground (arith, h.1, eq_iff id inv.workspace_id, eq_iff inv.workspace_id id)) h.0)
            (values
              (retain (λ (i : Invitation). not (i.workspace_id == id)) (shard sk st.invitations)))
            (All-retain (IsInvited sk st) (λ (i : Invitation). not (i.workspace_id == id))
              (shard sk st.invitations) c.settled.invited)
      by_scope false e =
          All-map (IsInvited sk st) (IsInvited sk (erased at id st))
            (λ inv i. still inv (rw e refl) i) (values (shard sk st.invitations)) c.settled.invited

  keyed-erased : WellKeyed (shard sk (erased at id st).tuples)
  keyed-erased = subst WellKeyed (sym (tuples-erased at id st sk)) (by_scope (at == sk))
    where
      by_scope :
          (b : Bool)
          → WellKeyed (
              if b
              then retain (λ t. not (of_object "workspace" id t)) (shard sk st.tuples)
              else shard sk st.tuples)
      by_scope true = WellKeyed-retain _ (shard sk st.tuples) c.settled.keyed
      by_scope false = c.settled.keyed

  erase-Consistent : Consistent sk (erased at id st)
  erase-Consistent = record {
    settled = record {
      keyed = keyed-erased;
      placed =
          λ workspace user m e. c.settled.placed workspace user m (row-erased workspace user m e);
      backed = backed-erased;
      invited = IsInvited-erased;
    };
    owned = Owned-erased;
  }

pub remove_workspace-Keeps :
    (sv : Service) (now : ℕ) (p : Principal) (id : String) (st : Store)
    → AllConsistent st
    → Keeps AllConsistent (remove_workspace sv now p id st)
unfolding remove_workspace erase_team delete_workspace erased
remove_workspace-Keeps sv now p id st c =
    require-Keeps AllConsistent sv now p id role_owner (erase_team p id) st c λ w row.
      if-Keeps AllConsistent (w.kind == type_personal) (raise Error.failed_precondition)
        (delete_workspace p.project_id p.tenant_id id) st (λ _. c)
        (λ _. by_row (workspace_of (scope p.project_id p.tenant_id) id st))
  where
    by_row :
        (o : Option Workspace)
        → Keeps AllConsistent (
            if◌then◌else◌ {A = Result (Unit {0}) × Store}
              (not (elim o [ none ↦ false | some _ ↦ true ]))
              (err Error.not_found, st)
              (ok tt, erased (scope p.project_id p.tenant_id) id st))
    by_row none = c
    by_row (some _) = λ sk. erase-Consistent (scope p.project_id p.tenant_id) id st sk (c sk)
