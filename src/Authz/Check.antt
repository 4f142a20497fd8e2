-- ===== src/Authz/Check.antt =====
-- pkg/authz/engine.go: the evaluation of Check. The code counts `depth` up to `maxDepth`; here
-- `left` counts the levels that remain, `maxDepth + 1 - depth`, so `depth > maxDepth` is `left = 0`.
pub mod Effect
pub mod Answers
pub mod Rules
pub mod Correct
pub mod Guarantees
pub mod Total
pub mod Reads
pub mod Complete
use workspace.Base.{
  ℕ, zero, suc, String, Bool, true, false, not, ◌&&◌, Option, none, some, List, [], ◌∷◌, ◌==◌,
  if◌then◌else◌, is_equal, Result, ok, err,
}
use workspace.Base.Int.{ℤ, pos}
use workspace.Authz.Condition.{Fields, eval_condition}
use workspace.Authz.Model.{
  Subject, SubjectSet, Rewrite, rewrite, Rewrites, nil, cons, Exclusion, absent, minus, Model,
  Operator, operator, rewrite_of,
}
use workspace.Authz.State.{
  EvalState, new_eval_state, Backstops, BackstopReason, Eval, pure, call_store, ◌>>=◌, ◌>>◌, charge,
  backstop, visit_key, memo_key, set_visited, set_memo,
}
use workspace.Authz.Engine.{Engine, Request, user_query, list_subjects, effective_max_reads}

-- A call of `check` at the next level, on a userset and a polarity.
abbrev pub Call : Type 0
Call = SubjectSet → Bool → Eval Bool

-- What the loop body does with one stored subject: continue, return true, or check a userset.
pub data Step : Type 0 where
  skip grant : Step
  follow : SubjectSet → Step

unfoldable pub set_eq : SubjectSet → SubjectSet → Bool
set_eq a b = a.namespace == b.namespace && a.object_id == b.object_id && a.relation == b.relation

-- `q.set != nil && *s.Set == *q.set`
unfoldable pub is_queried_set : Option SubjectSet → SubjectSet → Bool
unfolding set_eq
is_queried_set none u = false
is_queried_set (some q) u = set_eq u q

-- `q.user != "" && s.UserID == q.user`
unfoldable pub is_queried_user : String → String → Bool
is_queried_user user user_id = not (user == "") && user_id == user

-- the loop body of `evalThis`
unfoldable pub this_step : Request → Subject → Step
unfolding is_queried_set is_queried_user
this_step r s =
    if not (eval_condition r.engine.library s.condition r.context)
    then skip
    else if s.wildcard
    then grant
    else elim s.set [
      | none ↦ if is_queried_user r.query.user s.user_id then grant else skip
      | some u ↦ if is_queried_set r.query.set u then grant else follow u
    ]

-- the loop body of `evalTupleToUserset`
unfoldable pub tupleset_step : Request → String → Subject → Step
tupleset_step r computed_relation s =
    if not (eval_condition r.engine.library s.condition r.context)
    then skip
    else elim s.set [ none ↦ skip | some u ↦ follow (record u { relation = computed_relation }) ]

-- `if ok { return true, nil }`, and else the rest of the loop
abbrev pub or_else : Eval Bool → Eval Bool → Eval Bool
or_else m rest = m >>= λ granted. if granted then pure true else rest

-- `if !ok { return false, nil }`, and else the rest of the loop
abbrev pub and_also : Eval Bool → Eval Bool → Eval Bool
and_also m rest = m >>= λ granted. if granted then rest else pure false

abbrev pub take_step : Call → Bool → Step → Eval Bool → Eval Bool
take_step call negated skip rest = rest
take_step call negated grant rest = pure true
take_step call negated (follow u) rest = or_else (call u negated) rest

-- the loop of `evalThis` and of `evalTupleToUserset`
unfoldable pub walk : Call → Bool → (Subject → Step) → List Subject → Eval Bool
walk call negated step [] = pure false
walk call negated step (s ∷ ss) = take_step call negated (step s) (walk call negated step ss)

-- a charged read of the subjects stored under a userset, and the loop over them
unfoldable pub read_and_walk : Request → Call → Bool → (Subject → Step) → SubjectSet → Eval Bool
unfolding walk
read_and_walk r call negated step u =
    charge >> call_store (list_subjects r u) >>= walk call negated step

unfoldable pub eval_this : Request → Call → Bool → SubjectSet → Eval Bool
unfolding read_and_walk
eval_this r call negated u = read_and_walk r call negated (this_step r) u

unfoldable pub eval_tuple_to_userset :
    Request → Call → Bool → SubjectSet → String → String → Eval Bool
unfolding read_and_walk
eval_tuple_to_userset r call negated u tupleset_relation computed_relation =
    read_and_walk r call negated (tupleset_step r computed_relation)
      (record u { relation = tupleset_relation })

-- `q.set != nil`: a userset query is not matched through an intersection or an exclusion
abbrev pub unless_set_query : Option SubjectSet → Eval Bool → Eval Bool
unless_set_query none m = m
unless_set_query (some _) m = pure false

-- `switch { ... }`, with the six cases in the code's order and `false` as the default
abbrev pub switch :
    Operator → (this union intersection exclusion computed tupleset : Eval Bool) → Eval Bool
switch Operator.direct a b c d e f = a
switch Operator.any_of a b c d e f = b
switch Operator.all_of a b c d e f = c
switch Operator.difference a b c d e f = d
switch Operator.computed_userset a b c d e f = e
switch Operator.tupleset a b c d e f = f
switch Operator.invalid a b c d e f = pure false

unfoldable mutual
  pub eval_rewrite : Request → Call → SubjectSet → Rewrite → Bool → Eval Bool
  eval_rewrite r call u (rewrite us is x c t cr) negated =
      switch (operator (rewrite us is x c t cr)) (eval_this r call negated u)
        (eval_union r call u us negated)
        (unless_set_query r.query.set (eval_intersection r call u is negated))
        (unless_set_query r.query.set (eval_exclusion r call u x negated))
        (call (record u { relation = c }) negated) (eval_tuple_to_userset r call negated u t cr)

  pub eval_union : Request → Call → SubjectSet → Rewrites → Bool → Eval Bool
  eval_union r call u nil negated = pure false
  eval_union r call u (cons child rest) negated =
      or_else (eval_rewrite r call u child negated) (eval_union r call u rest negated)

  pub eval_intersection : Request → Call → SubjectSet → Rewrites → Bool → Eval Bool
  eval_intersection r call u nil negated = pure true
  eval_intersection r call u (cons child rest) negated =
      and_also (eval_rewrite r call u child negated) (eval_intersection r call u rest negated)

  -- the Exclude branch flips the polarity
  pub eval_exclusion : Request → Call → SubjectSet → Exclusion → Bool → Eval Bool
  eval_exclusion r call u absent negated = pure false
  eval_exclusion r call u (minus include exclude) negated =
      and_also (eval_rewrite r call u include negated)
        (eval_rewrite r call u exclude (not negated) >>= λ excluded. pure (not excluded))

-- the result of an evaluation that met no backstop is cached
unfoldable pub remember : String → Bool → ℕ → Result Bool × EvalState → Result Bool × EvalState
unfolding set_memo
remember key negated before (err e, st) = (err e, st)
remember key negated before (ok b, st) =
    (ok b, if is_equal st.cycles_seen before then set_memo (memo_key key negated) b st else st)

-- the part of `check` that evaluates the relation's rewrite: mark, evaluate, unmark, cache
unfoldable pub evaluate : String → Bool → Eval Bool → Eval Bool
unfolding remember set_visited
evaluate key negated body st =
    let (res, st') = body (set_visited key true st) in
    remember key negated st.cycles_seen (res, set_visited key false st')

abbrev pub or_evaluate : Option Bool → Eval Bool → Eval Bool
or_evaluate none m = m
or_evaluate (some b) m = pure b

-- `Engine.check`
unfoldable pub check : Request → ℕ → Call
unfolding visit_key memo_key backstop eval_rewrite evaluate
check r zero u negated st =
    if st.visited (visit_key u)
    then backstop BackstopReason.cycle negated st
    else backstop BackstopReason.depth negated st
check r (suc left) u negated st =
    if st.visited (visit_key u)
    then backstop BackstopReason.cycle negated st
    else or_evaluate (st.memo (memo_key (visit_key u) negated))
        (evaluate (visit_key u) negated
          (eval_rewrite r (check r left) u (rewrite_of r.model u.namespace u.relation) negated))
        st

-- the check that an operation starts: at depth 0, in positive polarity
abbrev pub top_check : Request → SubjectSet → Eval Bool
top_check r u = check r (suc r.engine.max_depth) u false

unfoldable pub check_with_model :
    Engine
    → Model
    → String
    → String
    → SubjectSet
    → String
    → Fields
    → ℤ
    → Option Backstops
    → Result Bool × EvalState
unfolding check new_eval_state effective_max_reads
check_with_model e m project tenant u user ctx max_reads backstops =
    top_check
      (record {
        engine = e;
        model = m;
        project_id = project;
        tenant_id = tenant;
        query = user_query user;
        context = ctx;
      })
      u (new_eval_state (effective_max_reads e max_reads) backstops)

-- `Engine.Check`
unfoldable pub check_user :
    Engine → String → String → SubjectSet → String → Fields → Option Backstops → Result Bool
unfolding check_with_model
check_user e project tenant u user ctx backstops = elim (e.resolver project) [
  | ok m ↦ (check_with_model e m project tenant u user ctx (pos 0) backstops).0
  | err x ↦ err x
]
