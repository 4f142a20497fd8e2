-- ===== src/Service/Subjects.antt =====
-- internal/service/authz.go: the stored tuples of a scope, and what a user holds in a whole project.
pub mod Erased
pub mod Tests
use workspace.Base.{
  ℕ, String, Bool, true, false, ◌&&◌, Option, none, some, List, [], ◌∷◌, ◌++◌, map, ◌==◌,
  if◌then◌else◌, Result, ok, err, Error,
}
use workspace.Authz.Model.{SubjectSet, Tuple}
use workspace.Authz.State.{pure, raise, lift, ◌>>=◌, ◌>>◌}
use workspace.Service.Types.{TupleAt, TupleFilter}
use workspace.Service.Access.{Principal, Service, ensure_region}
use workspace.Store.State.{Op}
use workspace.Store.Tuples.{
  read_tuples, delete_all_subject_tuples_in_project, list_subject_tuples_in_project,
  list_tuples_for_subject_sets_in_project,
}

-- `Service.ReadTuples`
unfoldable pub read_relation_tuples : Service → ℕ → Principal → TupleFilter → Op (List Tuple)
unfolding ensure_region read_tuples
read_relation_tuples sv now p f =
    lift (ensure_region sv p) >> read_tuples now p.project_id p.tenant_id f

unfoldable pub deprovision_user : Service → Principal → String → Op ℕ
unfolding ensure_region delete_all_subject_tuples_in_project
deprovision_user sv p user =
    if user == ""
    then raise Error.invalid_argument
    else lift (ensure_region sv p) >> delete_all_subject_tuples_in_project p.project_id user

pub record SubjectGrant : Type 0 where
  pub tenant_id : String
  pub namespace : String
  pub object_id : String
  pub relation : String
  pub via_group : String

unfoldable pub direct_grant : TupleAt → SubjectGrant
direct_grant ta = record {
  tenant_id = ta.tenant_id;
  namespace = ta.tuple.namespace;
  object_id = ta.tuple.object_id;
  relation = ta.tuple.relation;
  via_group = "";
}

-- `Subject.Set.ObjectID` of a tuple that the store lists for a userset
abbrev pub set_object : Option SubjectSet → String
set_object none = ""
set_object (some u) = u.object_id

unfoldable pub group_grant : TupleAt → SubjectGrant
unfolding direct_grant
group_grant ta = record (direct_grant ta) { via_group = set_object ta.tuple.subject.set }

-- the groups that the user is a direct member of
unfoldable pub group_sets : List TupleAt → List SubjectSet
group_sets [] = []
group_sets (ta ∷ tas) =
    let rest = group_sets tas in
    if ta.tuple.namespace == "group" && ta.tuple.relation == "member"
    then record { namespace = "group"; object_id = ta.tuple.object_id; relation = "member" } ∷ rest
    else rest

-- the grants by way of groups, for which the store is read only if there are some
unfoldable pub grants_via : ℕ → String → List SubjectSet → Op (List SubjectGrant)
unfolding list_tuples_for_subject_sets_in_project group_grant
grants_via now project [] = pure []
grants_via now project (u ∷ us) =
    list_tuples_for_subject_sets_in_project now project (u ∷ us) >>= λ via.
    pure (map group_grant via)

unfoldable pub export_subject_grants : Service → ℕ → Principal → String → Op (List SubjectGrant)
unfolding ensure_region list_subject_tuples_in_project direct_grant group_sets grants_via
export_subject_grants sv now p user =
    if user == ""
    then raise Error.invalid_argument
    else lift (ensure_region sv p)
      >> (list_subject_tuples_in_project now p.project_id user >>= λ direct.
          grants_via now p.project_id (group_sets direct) >>= λ via.
          pure (map direct_grant direct ++ via))
