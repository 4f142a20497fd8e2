-- ===== src/Authz/ListObjects.antt =====
-- pkg/authz/engine.go: ListObjects, a Check of each candidate under one read budget.
pub mod Grants
use workspace.Base.{
  ℕ, suc, String, Bool, true, false, ◌&&◌, Option, none, some, List, [], ◌∷◌, ◌++◌, length,
  if◌then◌else◌, Result, ok, err, Error,
}
use workspace.Base.Int.{ℤ, pos, ltb_ℤ, is_positive}
use workspace.Authz.Model.{SubjectSet, Model}
use workspace.Authz.State.{EvalState, new_eval_state, Backstops, Eval, pure, ◌>>=◌}
use workspace.Authz.Engine.{Engine, Request, user_query, effective_max_reads, fan_out_budget}
use workspace.Authz.Check.{top_check, check}
use workspace.Authz.CheckSet.{reset}

abbrev pub candidate : String → String → String → SubjectSet
candidate namespace relation id = record {
  namespace = namespace;
  object_id = id;
  relation = relation;
}

-- the loop over the candidates: the marks and the memo are fresh for each, the reads are shared
unfoldable pub list_granted :
    Request → String → String → List String → List String → Eval (List String)
unfolding check reset
list_granted r namespace relation [] out = pure out
list_granted r namespace relation (id ∷ ids) out =
    (λ st. top_check r (candidate namespace relation id) (reset st)) >>= λ granted.
    list_granted r namespace relation ids (if granted then out ++ id ∷ [] else out)

-- `Engine.ListObjectsWithModel`, after the candidates are read
unfoldable pub list_candidates :
    Request → String → String → ℤ → ℤ → Option Backstops → List String → Result (List String)
unfolding list_granted new_eval_state effective_max_reads fan_out_budget
list_candidates r namespace relation max_objects max_reads backstops ids =
    if is_positive max_objects && ltb_ℤ max_objects (pos (length ids))
    then err Error.too_many_objects
    else let candidates = if is_positive max_objects then max_objects else pos (length ids) in
      (list_granted r namespace relation ids [] (
        new_eval_state (fan_out_budget r.engine (effective_max_reads r.engine max_reads) candidates)
          backstops)).0

unfoldable pub list_objects_with_model :
    Engine
    → Model
    → String
    → String
    → String
    → String
    → String
    → ℤ
    → ℤ
    → Option Backstops
    → Result (List String)
unfolding list_candidates
list_objects_with_model e m project tenant namespace relation user max_objects max_reads backstops =
    elim e.lister [
      | none ↦ err Error.list_objects_unsupported
      | some list_object_ids ↦ elim (list_object_ids project tenant namespace) [
        | err x ↦ err x
        | ok ids ↦
            list_candidates
              (record {
                engine = e;
                model = m;
                project_id = project;
                tenant_id = tenant;
                query = user_query user;
                context = [];
              })
              namespace relation max_objects max_reads backstops ids
      ]
    ]

-- `Engine.ListObjects`
unfoldable pub list_objects :
    Engine
    → String
    → String
    → String
    → String
    → String
    → ℤ
    → Option Backstops
    → Result (List String)
unfolding list_objects_with_model
list_objects e project tenant namespace relation user max_objects backstops =
    elim (e.resolver project) [
      | err x ↦ err x
      | ok m ↦
          list_objects_with_model e m project tenant namespace relation user max_objects (pos 0)
            backstops
    ]
