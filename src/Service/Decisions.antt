-- ===== src/Service/Decisions.antt =====
-- internal/service/authz.go and batchcheck.go: the decisions, behind the gates of the project. A
-- decision leaves the store as it is, so it is a result. The records of decisions are left out.
pub mod Gates
pub mod Batch
pub mod Tests
pub mod Grants
use workspace.Base.{
  ℕ, suc, String, Bool, true, false, ◌||◌, Option, none, some, List, [], ◌∷◌, ◌==◌, if◌then◌else◌,
  Result, ok, err, Error, and_then,
}
use workspace.Authz.Condition.{Fields}
use workspace.Authz.Model.{SubjectSet}
use workspace.Authz.State.{Backstops}
use workspace.Authz.Tree.{Tree}
use workspace.Authz.Check.{check_with_model}
use workspace.Authz.CheckSet.{check_set_with_model}
use workspace.Authz.Expand.{expand_with_model}
use workspace.Authz.ListObjects.{list_objects_with_model}
use workspace.Service.Access.{
  Principal, Resolved, Service, region_servable, model_or_default, engine_of, map_budget_err,
}
use workspace.Store.State.{Store}

-- the project, if this instance serves its region
unfoldable pub servable : Service → Principal → Result Resolved
unfolding region_servable
servable sv p =
    and_then (sv.resolve p.project_id) λ res. and_then (region_servable sv res) λ _. ok res

-- a userset that a request names in full
abbrev pub is_incomplete : SubjectSet → Bool
is_incomplete u = u.namespace == "" || u.object_id == "" || u.relation == ""

-- `errors.Is(err, authz.ErrExpandTooLarge)`, and else `mapBudgetErr`
unfoldable pub map_expand_err : Result Tree → Result Tree
unfolding map_budget_err
map_expand_err (err Error.expand_too_large) = err Error.resource_exhausted
map_expand_err r = map_budget_err r

-- `errors.Is(err, authz.ErrTooManyObjects)`, and else `mapBudgetErr`
unfoldable pub map_list_err : Result (List String) → Result (List String)
unfolding map_budget_err
map_list_err (err Error.too_many_objects) = err Error.resource_exhausted
map_list_err r = map_budget_err r

module _ (sv : Service) (now : ℕ) (st : Store) (p : Principal) (collector : Option Backstops) where
  unfoldable pub check_in : Resolved → SubjectSet → String → Fields → Result Bool
  unfolding map_budget_err check_with_model engine_of model_or_default
  check_in res u user context =
      if res.suspended
      then ok false
      else map_budget_err
          (check_with_model (engine_of sv now st) (model_or_default res) p.project_id p.tenant_id u
            user context res.max_check_reads collector).0

  -- `Service.Check`
  unfoldable pub check_permission : SubjectSet → String → Fields → Result Bool
  unfolding servable check_in
  check_permission u user context =
      if is_incomplete u || user == ""
      then err Error.invalid_argument
      else and_then (servable sv p) λ res. check_in res u user context

  unfoldable pub check_set_in : Resolved → SubjectSet → SubjectSet → Fields → Result Bool
  unfolding map_budget_err check_set_with_model engine_of model_or_default
  check_set_in res u set context =
      if res.suspended
      then ok false
      else map_budget_err
          (check_set_with_model (engine_of sv now st) (model_or_default res) p.project_id
            p.tenant_id u set context res.max_check_reads collector).0

  -- `Service.CheckSet`
  unfoldable pub check_subject_set : SubjectSet → SubjectSet → Fields → Result Bool
  unfolding servable check_set_in
  check_subject_set u set context =
      if is_incomplete u
      then err Error.invalid_argument
      else if is_incomplete set
      then err Error.invalid_argument
      else and_then (servable sv p) λ res. check_set_in res u set context

  -- `Service.Expand`
  unfoldable pub expand_relation : SubjectSet → Result Tree
  unfolding servable map_expand_err expand_with_model engine_of model_or_default
  expand_relation u =
      if is_incomplete u
      then err Error.invalid_argument
      else and_then (servable sv p) λ res.
        if res.suspended
        then err Error.failed_precondition
        else map_expand_err
            (expand_with_model (engine_of sv now st) (model_or_default res) p.project_id p.tenant_id
              u sv.max_expand_nodes res.max_check_reads collector).0

  -- `Service.ListObjects`
  unfoldable pub list_user_objects : (namespace relation user : String) → Result (List String)
  unfolding servable map_list_err list_objects_with_model engine_of model_or_default
  list_user_objects namespace relation user =
      if namespace == "" || relation == "" || user == ""
      then err Error.invalid_argument
      else and_then (servable sv p) λ res.
        if res.suspended
        then err Error.failed_precondition
        else map_list_err (
            list_objects_with_model (engine_of sv now st) (model_or_default res) p.project_id
              p.tenant_id namespace relation user sv.max_list_objects res.max_check_reads collector)

pub record BatchCheckItem : Type 0 where
  pub on : SubjectSet
  pub subject_user_id : String

pub record BatchCheckResult : Type 0 where
  pub allowed : Bool
  pub error : Option Error

-- the errors that stay with their item
unfoldable pub is_isolated : Error → Bool
is_isolated Error.invalid_argument = true
is_isolated Error.resource_exhausted = true
is_isolated _ = false

unfoldable pub item_result : Result Bool → Result BatchCheckResult
unfolding is_isolated
item_result (ok b) = ok (record { allowed = b; error = none })
item_result (err e) =
    if is_isolated e then ok (record { allowed = false; error = some e }) else err e

-- `Service.BatchCheck`: the loop, with the context's error before each item
module _ (sv : Service) (now : ℕ) (st : Store) (p : Principal) (collector : Option Backstops)
    (ctx_err : ℕ → Option Error) where
  unfoldable pub batch_from : ℕ → List BatchCheckItem → Result (List BatchCheckResult)
  unfolding check_permission item_result
  batch_from i [] = ok []
  batch_from i (it ∷ its) =
      let rest = batch_from (suc i) its in
      elim (ctx_err i) [
        | some e ↦ err e
        | none ↦
            and_then
              (item_result (check_permission sv now st p collector it.on it.subject_user_id []))
              λ r. and_then rest λ rs. ok (r ∷ rs)
      ]

  unfoldable pub batch_check : List BatchCheckItem → Result (List BatchCheckResult)
  unfolding batch_from
  batch_check items = batch_from 0 items
