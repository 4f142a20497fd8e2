-- ===== src/Authz/Engine.antt =====
-- pkg/authz/engine.go: the engine's configuration, its read budgets, and what one request fixes.
use workspace.Base.{ℕ, String, Option, none, some, List, if◌then◌else◌, Result}
use workspace.Base.Int.{ℤ, pos, ltb_ℤ, is_positive, ◌*ℤ◌, wrap64}
use workspace.Authz.Condition.{Fields, Library}
use workspace.Authz.Model.{Subject, SubjectSet, Model}

-- `TupleReader`, by project, tenant and userset
abbrev pub TupleReader : Type 0
TupleReader = String → String → SubjectSet → Result (List Subject)

-- `ObjectLister`, by project, tenant and namespace
abbrev pub ObjectLister : Type 0
ObjectLister = String → String → String → Result (List String)

-- Go's `Engine`. The store is read as it stands when an operation begins; `lister` is none if the
-- reader does not implement `ObjectLister`.
pub record Engine : Type 0 where
  pub resolver : String → Result Model
  pub reader : TupleReader
  pub lister : Option ObjectLister
  pub library : Library
  pub max_depth : ℕ
  pub max_reads : ℤ
  pub max_list_objects : ℤ

abbrev pub max_recursion_depth : ℕ
max_recursion_depth = 32

abbrev pub fan_out_headroom : ℤ
fan_out_headroom = pos 2

abbrev pub default_check_set_fan_out_candidates : ℤ
default_check_set_fan_out_candidates = pos 1000

unfoldable pub new_engine :
    (String → Result Model) → TupleReader → Option ObjectLister → Library → Engine
new_engine resolver reader lister library = record {
  resolver = resolver;
  reader = reader;
  lister = lister;
  library = library;
  max_depth = max_recursion_depth;
  max_reads = pos 0;
  max_list_objects = pos 0;
}

unfoldable pub with_max_reads : Engine → ℤ → Engine
with_max_reads e n = if is_positive n then record e { max_reads = n } else e

unfoldable pub with_max_list_objects : Engine → ℤ → Engine
with_max_list_objects e n = if is_positive n then record e { max_list_objects = n } else e

unfoldable pub effective_max_reads : Engine → ℤ → ℤ
effective_max_reads e override = if is_positive override then override else e.max_reads

-- the larger of the scaled budget and the base, as both budgets below choose it
abbrev at_least : ℤ → ℤ → ℤ
at_least base scaled = if ltb_ℤ base scaled then scaled else base

unfoldable pub fan_out_budget : Engine → ℤ → ℤ → ℤ
fan_out_budget e base candidates =
    if is_positive base
    then at_least base (wrap64 (wrap64 (candidates *ℤ pos e.max_depth) *ℤ fan_out_headroom))
    else pos 0

unfoldable pub expand_budget : ℤ → ℤ → ℤ
expand_budget base max_nodes =
    if is_positive base then at_least base (wrap64 (max_nodes *ℤ fan_out_headroom)) else pos 0

unfoldable pub max_list_objects_or_default : Engine → ℤ
max_list_objects_or_default e =
    if is_positive e.max_list_objects
    then e.max_list_objects
    else default_check_set_fan_out_candidates

-- Go's `subjectQuery`: a concrete user, or a userset
pub record SubjectQuery : Type 0 where
  pub user : String
  pub set : Option SubjectSet

abbrev pub user_query : String → SubjectQuery
user_query user = record { user = user; set = none }

abbrev pub set_query : SubjectSet → SubjectQuery
set_query u = record { user = ""; set = some u }

-- The arguments that the recursion passes on unchanged.
pub record Request : Type 0 where
  pub engine : Engine
  pub model : Model
  pub project_id : String
  pub tenant_id : String
  pub query : SubjectQuery
  pub context : Fields

abbrev pub list_subjects : Request → SubjectSet → Result (List Subject)
list_subjects r u = r.engine.reader r.project_id r.tenant_id u
