-- ===== src/Service/Roster/Rename.antt =====
-- The requests that create or rename a workspace keep rows and tuples together
-- (internal/service/workspaces.go).
use workspace.Base.{
  ℕ, String, ◌≡◌, refl, sym, subst, Bool, true, false, not, ◌&&◌, Option, none, some, ◌==◌, arith,
  eq_iff, if◌then◌else◌, Result, ok, err, Error,
}
use workspace.Authz.State.{pure, raise, ◌>>=◌, ◌>>◌}
use workspace.Service.Types.{Workspace, role_admin}
use workspace.Service.Access.{Principal, Service, ensure_project_active, attempt, is_already_exists}
use workspace.Service.Names.{trim_name}
use workspace.Service.Rules.{Keeps, if-Keeps, find_row-Keeps, lift-Keeps, require-Keeps}
use workspace.Service.Workspaces.{
  create_workspace_with_owner, new_personal, winner, create_personal, personal_or_new,
  ensure_personal_workspace, new_team, put_team, create_team, rename, rename_workspace,
}
use workspace.Service.Roster.{workspace_of, IsOwned, Owned}
use workspace.Service.Roster.Put.{Owned-same}
use workspace.Service.Roster.Rows.{AllConsistent}
use workspace.Service.Roster.Create.{
  with_row, workspace-with_row, Settled-with_row, create_workspace_with_owner-Keeps,
}
use workspace.Store.Keys.{scope}
use workspace.Store.State.{Store}
use workspace.Store.Workspaces.{found, update_workspace, personal_workspace}

module _ (w : Workspace) (st : Store) where
  unfoldable pub is_row : String → String → Bool
  is_row sk id = scope w.project_id w.tenant_id == sk && w.id == id

  -- the owners after the write of a workspace's row, given those of that workspace
  pub row-Owned :
      (sk id : String)
      → (scope w.project_id w.tenant_id ≡ sk → IsOwned sk (with_row w st) w.id w)
      → (is_row sk id ≡ false → Owned sk st id (workspace_of sk id st))
      → Owned sk (with_row w st) id (workspace_of sk id (with_row w st))
  unfolding is_row with_row
  row-Owned sk id own others =
      subst (Owned sk (with_row w st) id) (sym (workspace-with_row w st sk id))
        (by_place (is_row sk id) refl)
    where
      by_place :
          (b : Bool)
          → is_row sk id ≡ b
          → Owned sk (with_row w st) id (if b then some w else workspace_of sk id st)
      by_place true e =
          subst (λ x. IsOwned sk (with_row w st) x w) (ground (arith, eq_iff w.id id))
            (own (ground (arith, eq_iff (scope w.project_id w.tenant_id) sk)))
      by_place false e =
          Owned-same sk st (with_row w st) id (workspace_of sk id st) (λ _. refl) (others e)

  pub update-AllConsistent :
      AllConsistent st
      → IsOwned (scope w.project_id w.tenant_id) (with_row w st) w.id w
      → AllConsistent (with_row w st)
  update-AllConsistent c own sk = record {
    settled = Settled-with_row w st sk (c sk).settled;
    owned = λ id.
        row-Owned sk id (λ e. subst (λ s. IsOwned s (with_row w st) w.id w) e own)
          (λ _. (c sk).owned id);
  }

  -- the row of the workspace is written, if it is there
  pub update-Keeps :
      {B : Type 0} (P : Store → Type 0) (b : B)
      → P st
      → P (with_row w st)
      → Keeps P ((update_workspace w >> pure b) st)
  unfolding update_workspace with_row
  update-Keeps P b h k = by_row (workspace_of (scope w.project_id w.tenant_id) w.id st)
    where
      by_row :
          (o : Option Workspace)
          → Keeps P (
              ((λ (s : Store).
                    if not (elim o [ none ↦ false | some _ ↦ true ])
                    then (err Error.not_found, s)
                    else (ok tt, with_row w s))
                  >> pure b)
                st)
      by_row none = h
      by_row (some _) = k

module _ (sv : Service) (now : ℕ) (p : Principal) (st : Store) (c : AllConsistent st) where
  create_personal-Keeps : (id : String) → Keeps AllConsistent (create_personal now id p st)
  unfolding create_personal winner personal_workspace
  create_personal-Keeps id =
      by_result (create_workspace_with_owner (new_personal now id p) st)
        (create_workspace_with_owner-Keeps (new_personal now id p) st c)
    where
      by_result :
          (o : Result (Unit {0}) × Store)
          → AllConsistent o.1
          → Keeps AllConsistent ((attempt (λ _. o) >>= winner now id p) st)
      by_result (ok _, st') h = h
      by_result (err e, st') h =
          if-Keeps AllConsistent (is_already_exists e)
            (personal_workspace p.project_id p.tenant_id p.user_id) (raise e) st'
            (λ _. found_keeps _) (λ _. h)
        where
          found_keeps : (o : Option Workspace) → Keeps AllConsistent (found o st')
          found_keeps none = h
          found_keeps (some _) = h

  personal_or_new-Keeps :
      (id : String) (o : Option Workspace) → Keeps AllConsistent (personal_or_new now id p o st)
  unfolding personal_or_new
  personal_or_new-Keeps id none = create_personal-Keeps id
  personal_or_new-Keeps id (some w) = c

  pub ensure_personal_workspace-Keeps :
      (id : String) → Keeps AllConsistent (ensure_personal_workspace now id p st)
  unfolding ensure_personal_workspace personal_workspace
  ensure_personal_workspace-Keeps id =
      find_row-Keeps AllConsistent _ (personal_or_new now id p) st
        (λ o _. personal_or_new-Keeps id o)

  pub create_team-Keeps :
      (id display_name slug : String)
      → Keeps AllConsistent (create_team sv now id p display_name slug st)
  unfolding create_team put_team
  create_team-Keeps id display_name slug =
      lift-Keeps AllConsistent (ensure_project_active sv p)
        (λ _.
          if trim_name display_name == ""
          then raise Error.invalid_argument
          else put_team (new_team sv now id p (trim_name display_name) slug))
        st c
        λ _ _.
          if-Keeps AllConsistent (trim_name display_name == "") (raise Error.invalid_argument)
            (put_team (new_team sv now id p (trim_name display_name) slug)) st (λ _. c)
            λ _.
              put (new_team sv now id p (trim_name display_name) slug)
                (create_workspace_with_owner (new_team sv now id p (trim_name display_name) slug)
                  st)
                (create_workspace_with_owner-Keeps
                  (new_team sv now id p (trim_name display_name) slug) st c)
    where
      put :
          (w : Workspace) (o : Result (Unit {0}) × Store)
          → AllConsistent o.1
          → Keeps AllConsistent (((λ _. o) >> pure w) st)
      put w (ok _, st') h = h
      put w (err e, st') h = h

  pub rename_workspace-Keeps :
      (id display_name : String)
      → Keeps AllConsistent (rename_workspace sv now p id display_name st)
  unfolding rename_workspace rename with_row
  rename_workspace-Keeps id display_name =
      require-Keeps AllConsistent sv now p id role_admin (rename now display_name) st c λ w row.
        if-Keeps AllConsistent (trim_name display_name == "") (raise Error.invalid_argument)
          (update_workspace (renamed w) >> pure (renamed w)) st (λ _. c)
          λ _. update-Keeps (renamed w) st AllConsistent (renamed w) c (
            update-AllConsistent (renamed w) st c (
              same_owner w (
                subst (Owned (scope p.project_id p.tenant_id) st id) row
                  ((c (scope p.project_id p.tenant_id)).owned id))))
    where
      renamed : Workspace → Workspace
      renamed w = record w { display_name = trim_name display_name; updated_at = now }

      same_owner :
          (w : Workspace)
          → IsOwned (scope p.project_id p.tenant_id) st id w
          → IsOwned (scope w.project_id w.tenant_id) (with_row (renamed w) st) w.id (renamed w)
      same_owner w i =
          subst (λ s. IsOwned s (with_row (renamed w) st) w.id (renamed w)) (sym i.scope_is)
            (subst
              (λ x.
                IsOwned (scope p.project_id p.tenant_id) (with_row (renamed w) st) x (renamed w))
              (sym i.id_is)
              (record {
                scope_is = i.scope_is;
                id_is = i.id_is;
                owner = i.owner;
                has_row = i.has_row;
                is_owner = i.is_owner;
                is_active = i.is_active;
                alone = i.alone;
              }))
