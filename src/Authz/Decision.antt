-- ===== src/Authz/Decision.antt =====
-- What a relation of the model means, apart from how `check` computes it (pkg/authz/engine.go and
-- the rules in pkg/authz/model.go). `Decides r u b` is a finite derivation that the query of `r`
-- is (`true`) or is not (`false`) in the userset `u`. Neither follows from a cycle alone.
pub mod Unique
use workspace.Base.{◌≡◌, ◌⊎◌, String, Bool, true, false, none, some, List, [], ◌∷◌, ok}
use workspace.Authz.Model.{
  Subject, SubjectSet, Rewrite, rewrite, Rewrites, nil, cons, Exclusion, absent, minus, Operator,
  operator, rewrite_of,
}
use workspace.Authz.Engine.{Request, list_subjects}
use workspace.Authz.Check.{Step, skip, grant, follow, this_step, tupleset_step}

mutual
  -- by the rewrite rule that the model gives the relation
  pub data Decides (r : Request) : SubjectSet → Bool → Type 0 where
    by_rule :
        {u : SubjectSet} {b : Bool}
        → Rule r u (rewrite_of r.model u.namespace u.relation) b
        → Decides r u b

  pub data Rule (r : Request) : SubjectSet → Rewrite → Bool → Type 0 where
    direct :
        {u : SubjectSet} {us is : Rewrites} {x : Exclusion} {c t cr : String} {b : Bool}
        (ss : List Subject)
        → operator (rewrite us is x c t cr) ≡ Operator.direct
        → list_subjects r u ≡ ok ss
        → Stored r (this_step r) ss b
        → Rule r u (rewrite us is x c t cr) b
    -- in a union: some child, or none of them
    some_child :
        {u : SubjectSet} {us is : Rewrites} {x : Exclusion} {c t cr : String}
        → operator (rewrite us is x c t cr) ≡ Operator.any_of
        → Some r u us true
        → Rule r u (rewrite us is x c t cr) true
    no_child :
        {u : SubjectSet} {us is : Rewrites} {x : Exclusion} {c t cr : String}
        → operator (rewrite us is x c t cr) ≡ Operator.any_of
        → Every r u us false
        → Rule r u (rewrite us is x c t cr) false
    -- in an intersection: each child, or not one of them
    every_child :
        {u : SubjectSet} {us is : Rewrites} {x : Exclusion} {c t cr : String}
        → operator (rewrite us is x c t cr) ≡ Operator.all_of
        → r.query.set ≡ none
        → Every r u is true
        → Rule r u (rewrite us is x c t cr) true
    not_every_child :
        {u : SubjectSet} {us is : Rewrites} {x : Exclusion} {c t cr : String}
        → operator (rewrite us is x c t cr) ≡ Operator.all_of
        → r.query.set ≡ none
        → Some r u is false
        → Rule r u (rewrite us is x c t cr) false
    -- in an exclusion: Include and not Exclude
    included :
        {u : SubjectSet} {us is : Rewrites} {inc exc : Rewrite} {c t cr : String}
        → operator (rewrite us is (minus inc exc) c t cr) ≡ Operator.difference
        → r.query.set ≡ none
        → Rule r u inc true
        → Rule r u exc false
        → Rule r u (rewrite us is (minus inc exc) c t cr) true
    not_included :
        {u : SubjectSet} {us is : Rewrites} {inc exc : Rewrite} {c t cr : String}
        → operator (rewrite us is (minus inc exc) c t cr) ≡ Operator.difference
        → r.query.set ≡ none
        → Rule r u inc false
        → Rule r u (rewrite us is (minus inc exc) c t cr) false
    excluded :
        {u : SubjectSet} {us is : Rewrites} {inc exc : Rewrite} {c t cr : String}
        → operator (rewrite us is (minus inc exc) c t cr) ≡ Operator.difference
        → r.query.set ≡ none
        → Rule r u exc true
        → Rule r u (rewrite us is (minus inc exc) c t cr) false
    -- a userset query is in no intersection and in no exclusion
    set_not_intersected :
        {u q : SubjectSet} {us is : Rewrites} {x : Exclusion} {c t cr : String}
        → operator (rewrite us is x c t cr) ≡ Operator.all_of
        → r.query.set ≡ some q
        → Rule r u (rewrite us is x c t cr) false
    set_not_excluded :
        {u q : SubjectSet} {us is : Rewrites} {x : Exclusion} {c t cr : String}
        → operator (rewrite us is x c t cr) ≡ Operator.difference
        → r.query.set ≡ some q
        → Rule r u (rewrite us is x c t cr) false
    -- another relation of the same object
    computed :
        {u : SubjectSet} {us is : Rewrites} {x : Exclusion} {c t cr : String} {b : Bool}
        → operator (rewrite us is x c t cr) ≡ Operator.computed_userset
        → Decides r (record u { relation = c }) b
        → Rule r u (rewrite us is x c t cr) b
    -- a relation of the objects that the tupleset relation points at
    through :
        {u : SubjectSet} {us is : Rewrites} {x : Exclusion} {c t cr : String} {b : Bool}
        (ss : List Subject)
        → operator (rewrite us is x c t cr) ≡ Operator.tupleset
        → list_subjects r (record u { relation = t }) ≡ ok ss
        → Stored r (tupleset_step r cr) ss b
        → Rule r u (rewrite us is x c t cr) b

  pub data Some (r : Request) : SubjectSet → Rewrites → Bool → Type 0 where
    here :
        {u : SubjectSet} {rw : Rewrite} {rest : Rewrites} {b : Bool}
        → Rule r u rw b
        → Some r u (cons rw rest) b
    there :
        {u : SubjectSet} {rw : Rewrite} {rest : Rewrites} {b : Bool}
        → Some r u rest b
        → Some r u (cons rw rest) b

  pub data Every (r : Request) : SubjectSet → Rewrites → Bool → Type 0 where
    done : {u : SubjectSet} {b : Bool} → Every r u nil b
    also :
        {u : SubjectSet} {rw : Rewrite} {rest : Rewrites} {b : Bool}
        → Rule r u rw b
        → Every r u rest b
        → Every r u (cons rw rest) b

  -- some stored subject grants, or none does
  pub data Stored (r : Request) : (Subject → Step) → List Subject → Bool → Type 0 where
    empty : {step : Subject → Step} → Stored r step [] false
    granted :
        {step : Subject → Step} {s : Subject} {ss : List Subject}
        → step s ≡ grant
        → Stored r step (s ∷ ss) true
    skipped :
        {step : Subject → Step} {s : Subject} {ss : List Subject} {b : Bool}
        → step s ≡ skip
        → Stored r step ss b
        → Stored r step (s ∷ ss) b
    followed :
        {step : Subject → Step} {s : Subject} {ss : List Subject} (v : SubjectSet)
        → step s ≡ follow v
        → Decides r v true
        → Stored r step (s ∷ ss) true
    not_followed :
        {step : Subject → Step} {s : Subject} {ss : List Subject} (v : SubjectSet)
        → step s ≡ follow v
        → Decides r v false
        → Stored r step ss false
        → Stored r step (s ∷ ss) false
    later :
        {step : Subject → Step} {s : Subject} {ss : List Subject}
        → Stored r step ss true
        → Stored r step (s ∷ ss) true

-- What the children of a rewrite decide, by operator.
abbrev pub AnyOf : Request → SubjectSet → Rewrites → Bool → Type 0
AnyOf r u us true = Some r u us true
AnyOf r u us false = Every r u us false

abbrev pub AllOf : Request → SubjectSet → Rewrites → Bool → Type 0
AllOf r u is true = Every r u is true
AllOf r u is false = Some r u is false

abbrev pub Difference : Request → SubjectSet → Exclusion → Bool → Type 0
Difference r u absent b = b ≡ false
Difference r u (minus inc exc) true = Rule r u inc true × Rule r u exc false
Difference r u (minus inc exc) false = Rule r u inc false ⊎ Rule r u exc true
