-- ===== src/Authz/Tests/Store.antt =====
-- A small store: ann owns the workspace acme and bob is its guest; the folder plans hangs under acme,
-- the document roadmap under plans, and loop_a and loop_b under one another. Of the guests of the
-- team red, bob is suspended.
use workspace.Base.{
  String, false, true, none, some, List, [], ◌∷◌, if◌then◌else◌, ok, Bool-cases, inl, inr,
}
use workspace.Authz.Condition.{Library, texts, eval_condition}
use workspace.Authz.Model.{
  Subject, SubjectSet, Model, default_model, exclusion, computed, rewrite_of, operator,
}
use workspace.Authz.State.{charge}
use workspace.Authz.Engine.{Engine, TupleReader, new_engine, effective_max_reads}
use workspace.Authz.Check.{
  set_eq, this_step, tupleset_step, walk, read_and_walk, eval_this, eval_tuple_to_userset,
  eval_rewrite, evaluate, check,
}
use workspace.Authz.Check.Rules.{PlainSets}

abbrev pub library : Library
library = record {
  float64_ge = λ a b. true;
  float64_of = λ n. 0;
  parse_ip = λ s. none;
  parse_cidr = λ s. none;
  contains = λ n ip. false;
  parse_rfc3339 = λ s. none;
}

abbrev pub user : String → Subject
user id = record { user_id = id; set = none; wildcard = false; condition = none }

abbrev pub member : SubjectSet → Subject
member u = record { user_id = ""; set = some u; wildcard = false; condition = none }

abbrev pub if_scope : String → Subject → Subject
if_scope scope s = record s {
  condition = some (record { name = "scope_in"; params = ("allowed", texts (scope ∷ [])) ∷ [] });
}

abbrev pub userset : String → String → String → SubjectSet
userset namespace object_id relation = record {
  namespace = namespace;
  object_id = object_id;
  relation = relation;
}

abbrev pub Table : Type 0
Table = List (SubjectSet × List Subject)

unfoldable pub find : Table → SubjectSet → List Subject
unfolding set_eq
find [] u = []
find ((v, ss) ∷ rows) u = if set_eq v u then ss else find rows u

abbrev pub rows : Table
rows =
    (userset "workspace" "acme" "owner", user "ann" ∷ [])
    ∷ (userset "workspace" "acme" "guest", user "bob" ∷ [])
    ∷ (userset "team" "red" "guest", user "bob" ∷ user "dan" ∷ [])
    ∷ (userset "team" "red" "suspended", user "bob" ∷ [])
    ∷ (userset "resource" "plans" "parent", member (userset "workspace" "acme" "") ∷ [])
    ∷ (userset "resource" "roadmap" "parent", member (userset "resource" "plans" "") ∷ [])
    ∷ (userset "resource" "roadmap" "editor", if_scope "write" (user "carl") ∷ [])
    ∷ (userset "resource" "loop_a" "parent", member (userset "resource" "loop_b" "") ∷ [])
    ∷ (userset "resource" "loop_b" "parent", member (userset "resource" "loop_a" "") ∷ [])
    ∷ []

abbrev pub reader : TupleReader
reader project tenant u = ok (find rows u)

abbrev pub model : Model
model =
    ("team", ("active", exclusion (computed "guest") (computed "suspended")) ∷ []) ∷ default_model

-- The line names all that a run of the engine computes with.
unfoldable pub engine : Engine
unfolding find new_engine default_model rewrite_of operator eval_condition charge this_step
    tupleset_step walk read_and_walk eval_this eval_tuple_to_userset eval_rewrite evaluate check
    effective_max_reads
engine = new_engine (λ project. ok default_model) reader none library

abbrev pub AllRows : Table → Type 0
AllRows [] = Unit
AllRows ((v, ss) ∷ rows) = PlainSets ss × AllRows rows

pub find-PlainSets : (rows : Table) → AllRows rows → (u : SubjectSet) → PlainSets (find rows u)
unfolding find
find-PlainSets [] h u = tt
find-PlainSets ((v, ss) ∷ rows) h u = elim (Bool-cases (set_eq v u)) [
  | inl same ↦ rw same h.0
  | inr other ↦ rw other (find-PlainSets rows h.1 u)
]
