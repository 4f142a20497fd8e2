-- ===== src/Store/Workspaces/Cascade.antt =====
-- What the deletion of a workspace takes with it (`DeleteWorkspace` in internal/repo/memory/memory.go).
use workspace.Base.{
  ℕ, String, ◌≡◌, refl, ap, ◌∙◌, subst, true, not, [], ◌==◌, arith, eq_self, ok, err, Error, Dict,
  lookup,
}
use workspace.Base.Tables.{values, remove, retain, has, shard, change_in, sort_by}
use workspace.Base.Tables.Lookup.{lookup-remove, shard-change_in, filter-retain}
use workspace.Service.Types.{Invitation}
use workspace.Store.Keys.{scope}
use workspace.Store.State.{Store}
use workspace.Store.Tuples.{advance, list_subjects, stands_at}
use workspace.Store.Workspaces.{
  found, of_object, get_workspace, list_members, list_invitations, erase_workspace,
  delete_workspace,
}

-- the scope that a change was made in
shard-changed :
    {V : Type 0} (sk : String) (f : Dict V → Dict V) (m : Dict (Dict V))
    → f [] ≡ []
    → shard sk (change_in sk f m) ≡ f (shard sk m)
shard-changed sk f m e = rw eq_self at (shard-change_in sk sk f m e)

shard-remove : {V : Type 0} (k : String) (m : Dict (Dict V)) → shard k (remove k m) ≡ []
unfolding shard lookup
shard-remove k m = ground (arith, lookup-remove k k m, eq_self k)

module _ (project tenant id : String) (st : Store) where
  erased : Store
  erased = erase_workspace (scope project tenant) id st

  not_found : (get_workspace project tenant id erased).0 ≡ err Error.not_found
  unfolding get_workspace erased erase_workspace advance
  not_found =
      ap (λ d. (found (lookup id d) erased).0)
        (shard-changed (scope project tenant) (remove id) st.workspaces refl)
      ∙ rw (lookup-remove id id (shard (scope project tenant) st.workspaces), eq_self id) refl

  no_members_left : (list_members project tenant id erased).0 ≡ ok []
  unfolding list_members erased erase_workspace advance sort_by values
  no_members_left =
      rw (shard-changed (scope project tenant) (remove id) st.memberships refl)
        (rw (shard-remove id (shard (scope project tenant) st.memberships)) refl)

  no_invitations_left : (list_invitations project tenant id erased).0 ≡ ok []
  unfolding list_invitations erased erase_workspace advance sort_by
  no_invitations_left =
      rw
        (shard-changed (scope project tenant)
          (retain (λ (i : Invitation). not (i.workspace_id == id))) st.invitations refl)
        (rw
          (filter-retain (λ (i : Invitation). i.workspace_id == id)
            (λ (i : Invitation). not (i.workspace_id == id))
            (shard (scope project tenant) st.invitations) (λ i e. ground arith))
          refl)

  no_subjects_left :
      (relation : String) (now : ℕ)
      → (list_subjects now project tenant "workspace" id relation erased).0 ≡ ok []
  unfolding list_subjects erased erase_workspace advance
  no_subjects_left relation now =
      rw
        (shard-changed (scope project tenant) (retain (λ t. not (of_object "workspace" id t)))
          st.tuples refl)
        (rw
          (filter-retain (stands_at "workspace" id relation now)
            (λ t. not (of_object "workspace" id t)) (shard (scope project tenant) st.tuples)
            (λ t e. ground arith))
          refl)

-- After a workspace is deleted it is not found, and it has no members, no invitations and no subjects
-- of any relation.
pub delete_workspace-cascade :
    (project tenant id relation : String) (now : ℕ) (st : Store)
    → has id (shard (scope project tenant) st.workspaces) ≡ true
    → ((get_workspace project tenant id (delete_workspace project tenant id st).1).0
        ≡ err Error.not_found)
      × ((list_members project tenant id (delete_workspace project tenant id st).1).0 ≡ ok [])
      × ((list_invitations project tenant id (delete_workspace project tenant id st).1).0 ≡ ok [])
      × ((list_subjects now project tenant "workspace" id relation
            (delete_workspace project tenant id st).1).0
          ≡ ok [])
unfolding delete_workspace erased
delete_workspace-cascade project tenant id relation now st there =
    let gone : erase_workspace (scope project tenant) id st
        ≡ (delete_workspace project tenant id st).1 =
      rw there refl in
    (
      subst (λ s. (get_workspace project tenant id s).0 ≡ err Error.not_found) gone
          (not_found project tenant id st),
      subst (λ s. (list_members project tenant id s).0 ≡ ok []) gone
          (no_members_left project tenant id st),
      subst (λ s. (list_invitations project tenant id s).0 ≡ ok []) gone
          (no_invitations_left project tenant id st),
      subst (λ s. (list_subjects now project tenant "workspace" id relation s).0 ≡ ok []) gone
          (no_subjects_left project tenant id st relation now),
    )
