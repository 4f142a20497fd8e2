-- ===== src/Service/Access.antt =====
-- internal/service/service.go and projects.go: who asks, what a project resolves to, the gates in front
-- of every operation, and the engine over the store. A request reads the clock once, which is `now`.
pub mod Users
use workspace.Base.{
  ℕ, String, Bool, true, false, not, ◌||◌, Option, none, some, [], ◌==◌, if◌then◌else◌, Result, ok,
  err, Error, and_then,
}
use workspace.Base.Int.{ℤ}
use workspace.Authz.Condition.{Library}
use workspace.Authz.Model.{Tuple, Model, default_model}
use workspace.Authz.State.{pure, raise, lift, ◌>>=◌, Action}
use workspace.Authz.Engine.{Engine, new_engine, with_max_reads, with_max_list_objects}
use workspace.Authz.Check.{check_user}
use workspace.Service.Types.{Workspace}
use workspace.Store.State.{Store, Op}
use workspace.Store.Tuples.{list_subjects, list_object_ids}
use workspace.Store.Workspaces.{get_workspace}

pub record Principal : Type 0 where
  pub user_id : String
  pub project_id : String
  pub tenant_id : String
  pub caller : String

-- `resolved`: a nil model is the default one
pub record Resolved : Type 0 where
  pub model : Option Model
  pub suspended : Bool
  pub data_region : String
  pub max_check_reads : ℤ

unfoldable pub model_or_default : Resolved → Model
unfolding default_model
model_or_default res = elim res.model [ none ↦ default_model | some m ↦ m ]

-- Go's `Service`: the resolver's answers, and the configuration
pub record Service : Type 0 where
  pub library : Library
  pub to_lower : String → String
  pub resolve : String → Result Resolved
  pub data_region : String
  pub max_list_objects : ℤ
  pub max_expand_nodes : ℤ
  pub max_check_reads : ℤ

unfoldable pub region_servable : Service → Resolved → Result (Unit {0})
region_servable sv res =
    if sv.data_region == "" || res.data_region == "" || res.data_region == sv.data_region
    then ok tt
    else err Error.region_not_servable

unfoldable pub ensure_project_active : Service → Principal → Result (Unit {0})
unfolding region_servable
ensure_project_active sv p = and_then (sv.resolve p.project_id) λ res.
    and_then (region_servable sv res)
      λ _. if res.suspended then err Error.failed_precondition else ok tt

-- An instance without a region does not resolve the project.
unfoldable pub ensure_region : Service → Principal → Result (Unit {0})
unfolding region_servable
ensure_region sv p =
    if sv.data_region == "" then ok tt else and_then (sv.resolve p.project_id) (region_servable sv)

-- `modelResolver.ModelFor`
unfoldable pub model_for : Service → String → Result Model
unfolding model_or_default
model_for sv project = and_then (sv.resolve project) λ res. ok (model_or_default res)

-- the engine that `New` builds, over the store as it stands at an instant
unfoldable pub engine_of : Service → ℕ → Store → Engine
unfolding new_engine with_max_reads with_max_list_objects model_for list_subjects list_object_ids
engine_of sv now st =
    with_max_list_objects
      (with_max_reads
        (new_engine (model_for sv)
          (λ project tenant u.
            (list_subjects now project tenant u.namespace u.object_id u.relation st).0)
          (some λ project tenant namespace. (list_object_ids now project tenant namespace st).0)
          sv.library)
        sv.max_check_reads)
      sv.max_list_objects

-- `mapBudgetErr`
unfoldable pub map_budget_err : {A : Type 0} → Result A → Result A
map_budget_err (ok a) = ok a
map_budget_err (err Error.eval_budget_exceeded) = err Error.resource_exhausted
map_budget_err (err e) = err e

unfoldable pub allowed : Service → ℕ → Principal → String → String → Op Bool
unfolding map_budget_err check_user engine_of
allowed sv now p workspace rel st = (
  map_budget_err (
      check_user (engine_of sv now st) p.project_id p.tenant_id
        (record { namespace = "workspace"; object_id = workspace; relation = rel }) p.user_id []
        none),
  st,
)

unfoldable pub require_workspace : Service → ℕ → Principal → String → String → Op Workspace
unfolding get_workspace allowed
require_workspace sv now p workspace rel = do
  w ← get_workspace p.project_id p.tenant_id workspace
  granted ← allowed sv now p workspace rel
  if granted then pure w else raise Error.permission_denied

unfoldable pub user_tuple : (namespace object relation user : String) → Tuple
user_tuple namespace object relation user = record {
  namespace = namespace;
  object_id = object;
  relation = relation;
  subject = record { user_id = user; set = none; wildcard = false; condition = none };
  expires_at = none;
}

unfoldable pub is_not_found : Error → Bool
is_not_found Error.not_found = true
is_not_found _ = false

unfoldable pub is_already_exists : Error → Bool
is_already_exists Error.already_exists = true
is_already_exists _ = false

-- `v, err := m`: the operation's result as a value
abbrev pub attempt : {A : Type 0} → Op A → Op (Result A)
attempt m st = let (r, st') = m st in (ok r, st')

-- a row, or none if the store answers `ErrNotFound`
unfoldable pub find_row : {A : Type 0} → Op A → Op (Option A)
unfolding is_not_found
find_row m = attempt m >>= λ r. elim r [
  | ok a ↦ pure (some a)
  | err e ↦ if is_not_found e then pure none else raise e
]
