-- ===== src/Authz/Expand.antt =====
-- pkg/authz/expand.go: the userset tree of a relation. `left` is `maxDepth + 1 - depth`, as in Check.
pub mod Effect
pub mod Bounds
use workspace.Base.{
  ℕ, zero, suc, ◌+◌, String, Bool, true, false, ◌&&◌, Option, none, some, List, [], ◌∷◌, length,
  if◌then◌else◌, Result, ok, err, Error, update,
}
use workspace.Base.Int.{ℤ, pos, ltb_ℤ, is_positive}
use workspace.Authz.Model.{
  Subject, SubjectSet, Rewrite, rewrite, Rewrites, Exclusion, Model, Operator, operator, rewrite_of,
}
use workspace.Authz.State.{
  EvalState, new_eval_state, Backstops, BackstopReason, Action, Eval, pure, call_store, ◌>>=◌, ◌>>◌,
  charge, record_backstop, visit_key,
}
use workspace.Authz.Engine.{
  Engine, Request, user_query, list_subjects, effective_max_reads, expand_budget,
}
use workspace.Authz.Tree.{
  Tree, Trees, nil, cons, empty_leaf, leaf_node, bare, union_node, intersection_node,
  exclusion_node, add_subjects,
}

-- What the recursion shares by reference: the node count, the path's usersets and the scratch state.
pub record ExpandState : Type 0 where
  pub count : ℕ
  pub visited : String → Bool
  pub eval : EvalState

abbrev pub Expand : Type 0 → Type 0
Expand A = Action ExpandState A

-- an action on the scratch state alone
abbrev pub on_eval : {A : Type 0} → Eval A → Expand A
on_eval m st = let (r, eval) = m st.eval in (r, record st { eval = eval })

unfoldable pub bump : ℤ → ℕ → Expand (Unit {0})
bump max n st =
    let st' = record st { count = st.count + n } in
    (
      if is_positive max && ltb_ℤ max (pos st'.count) then err Error.expand_too_large else ok tt,
      st',
    )

-- a charged read
abbrev pub read_subjects : Request → SubjectSet → Expand (List Subject)
read_subjects r u = on_eval (charge >> call_store (list_subjects r u))

-- a call of `expand` at the next level
abbrev pub ExpandCall : Type 0
ExpandCall = SubjectSet → Expand Tree

unfoldable pub expand_this : Request → ℤ → SubjectSet → Expand Tree
unfolding bump add_subjects
expand_this r max u = do
  subjects ← read_subjects r u
  bump max (length subjects)
  pure (leaf_node u (add_subjects empty_leaf subjects))

-- one turn of the loop over the pointers of a tupleset: a userset is expanded
abbrev pub expand_pointer : ExpandCall → String → Option SubjectSet → Expand Trees → Expand Trees
expand_pointer call computed_relation none rest = rest
expand_pointer call computed_relation (some u) rest =
    call (record u { relation = computed_relation }) >>= λ sub.
    rest >>= λ subs. pure (cons sub subs)

unfoldable pub expand_pointers : ExpandCall → String → List Subject → Expand Trees
expand_pointers call computed_relation [] = pure nil
expand_pointers call computed_relation (s ∷ ss) =
    expand_pointer call computed_relation s.set (expand_pointers call computed_relation ss)

unfoldable pub expand_tuple_to_userset :
    Request → ExpandCall → SubjectSet → String → String → Expand Tree
unfolding expand_pointers
expand_tuple_to_userset r call u tupleset_relation computed_relation = do
  subjects ← read_subjects r (record u { relation = tupleset_relation })
  subs ← expand_pointers call computed_relation subjects
  pure (union_node u subs)

-- `switch { ... }`, with a bare leaf as the default
abbrev pub expand_switch :
    Operator
    → (this union intersection exclusion computed tupleset default : Expand Tree) → Expand Tree
expand_switch Operator.direct a b c d e f g = a
expand_switch Operator.any_of a b c d e f g = b
expand_switch Operator.all_of a b c d e f g = c
expand_switch Operator.difference a b c d e f g = d
expand_switch Operator.computed_userset a b c d e f g = e
expand_switch Operator.tupleset a b c d e f g = f
expand_switch Operator.invalid a b c d e f g = g

unfoldable mutual
  pub expand_rewrite : Request → ExpandCall → ℤ → SubjectSet → Rewrite → Expand Tree
  expand_rewrite r call max u (rewrite us is x c t cr) =
      bump max 1
      >> expand_switch (operator (rewrite us is x c t cr)) (expand_this r max u)
          (expand_children r call max u us >>= λ subs. pure (union_node u subs))
          (expand_children r call max u is >>= λ subs. pure (intersection_node u subs))
          (expand_exclusion r call max u x) (call (record u { relation = c }))
          (expand_tuple_to_userset r call u t cr) (pure (bare u))

  pub expand_children : Request → ExpandCall → ℤ → SubjectSet → Rewrites → Expand Trees
  expand_children r call max u Rewrites.nil = pure nil
  expand_children r call max u (Rewrites.cons child rest) = do
    sub ← expand_rewrite r call max u child
    subs ← expand_children r call max u rest
    pure (cons sub subs)

  pub expand_exclusion : Request → ExpandCall → ℤ → SubjectSet → Exclusion → Expand Tree
  expand_exclusion r call max u Exclusion.absent = pure (bare u)
  expand_exclusion r call max u (Exclusion.minus include exclude) = do
    inc ← expand_rewrite r call max u include
    exc ← expand_rewrite r call max u exclude
    pure (exclusion_node u inc exc)

-- a truncated leaf, after a backstop
unfoldable pub truncate : BackstopReason → SubjectSet → Expand Tree
unfolding record_backstop
truncate reason u st = (ok (bare u), record st { eval = record_backstop reason st.eval })

unfoldable pub mark : String → Bool → ExpandState → ExpandState
mark key b st = record st { visited = update st.visited key b }

-- `visited[key] = true; defer delete(visited, key)` round the expansion of the rewrite
abbrev pub marked : String → Expand Tree → Expand Tree
marked key body st = let (res, st') = body (mark key true st) in (res, mark key false st')

-- `Engine.expand`
unfoldable pub expand : Request → ℤ → ℕ → ExpandCall
unfolding visit_key truncate mark expand_rewrite
expand r max zero u st = truncate BackstopReason.depth u st
expand r max (suc left) u st =
    if st.visited (visit_key u)
    then truncate BackstopReason.cycle u st
    else marked (visit_key u)
        (expand_rewrite r (expand r max left) max u (rewrite_of r.model u.namespace u.relation)) st

abbrev pub expand_start : EvalState → ExpandState
expand_start eval = record { count = 0; visited = λ _. false; eval = eval }

unfoldable pub expand_with_model :
    Engine
    → Model
    → String
    → String
    → SubjectSet
    → ℤ
    → ℤ
    → Option Backstops
    → Result Tree × ExpandState
unfolding expand new_eval_state effective_max_reads expand_budget
expand_with_model e m project tenant u max_nodes max_reads backstops =
    expand
      (record {
        engine = e;
        model = m;
        project_id = project;
        tenant_id = tenant;
        query = user_query "";
        context = [];
      })
      max_nodes (suc e.max_depth) u
      (expand_start
        (new_eval_state (expand_budget (effective_max_reads e max_reads) max_nodes) backstops))

-- `Engine.Expand`
unfoldable pub expand_userset :
    Engine → String → String → SubjectSet → ℤ → Option Backstops → Result Tree
unfolding expand_with_model
expand_userset e project tenant u max_nodes backstops = elim (e.resolver project) [
  | ok m ↦ (expand_with_model e m project tenant u max_nodes (pos 0) backstops).0
  | err x ↦ err x
]
