-- ===== src/Service/Subjects/Erased.antt =====
-- What deprovisioning leaves of a user's grants (`DeprovisionUser` in internal/service/authz.go).
use workspace.Base.{
  ℕ, String, ◌≡◌, refl, Bool, true, false, [], ◌++◌, map, ◌==◌, if◌then◌else◌, Result, ok, err,
  Error,
}
use workspace.Authz.State.{pure, raise, lift, ◌>>=◌, ◌>>◌}
use workspace.Service.Access.{Principal, Service, ensure_region}
use workspace.Service.Subjects.{
  deprovision_user, export_subject_grants, direct_grant, group_sets, grants_via,
}
use workspace.Service.Rules.{then-ok}
use workspace.Store.State.{Store}
use workspace.Store.Tuples.{delete_all_subject_tuples_in_project, list_subject_tuples_in_project}
use workspace.Store.Tuples.Projects.{delete_all_subject_tuples_in_project-clears}

module _ (sv : Service) (p : Principal) (user : String) (st : Store) where
  abbrev cleared : Store
  unfolding delete_all_subject_tuples_in_project
  cleared = (delete_all_subject_tuples_in_project p.project_id user st).1

  -- After a deprovisioning of a user that answers, the export of that user's grants in the project
  -- answers at every instant and for every tenant, and is empty: neither a direct grant nor one by way
  -- of a group is left.
  pub export-deprovision_user :
      (count now : ℕ) (tenant : String)
      → (deprovision_user sv p user st).0 ≡ ok count
      → export_subject_grants sv now
          (record p { tenant_id = tenant })
          user
          (deprovision_user sv p user st).1
        ≡ (ok [], (deprovision_user sv p user st).1)
  unfolding deprovision_user export_subject_grants ensure_region group_sets grants_via
      list_subject_tuples_in_project
  export-deprovision_user count now tenant h = by_gates (user == "") (ensure_region sv p) h
    where
      by_gates :
          (b : Bool) (o : Result (Unit {0}))
          → ((if b
                then raise Error.invalid_argument
                else lift o >> delete_all_subject_tuples_in_project p.project_id user)
              st).0
            ≡ ok count
          → (if b
                then raise Error.invalid_argument
                else lift o
                  >> (list_subject_tuples_in_project now p.project_id user >>= λ direct.
                      grants_via now p.project_id (group_sets direct) >>= λ via.
                      pure (map direct_grant direct ++ via)))
              ((if b
                  then raise Error.invalid_argument
                  else lift o >> delete_all_subject_tuples_in_project p.project_id user)
                st).1
            ≡ (
              ok [],
              ((if b
                    then raise Error.invalid_argument
                    else lift o >> delete_all_subject_tuples_in_project p.project_id user)
                  st).1,
            )
      by_gates true o h = absurd (cc)
      by_gates false (err e) h = absurd (cc)
      by_gates false (ok _) h =
          then-ok (list_subject_tuples_in_project now p.project_id user)
            (λ direct. grants_via now p.project_id (group_sets direct) >>= λ via.
              pure (map direct_grant direct ++ via))
            (λ i. (
              (delete_all_subject_tuples_in_project-clears p.project_id tenant user "" now st).0 i,
              cleared,
            ))
            refl
