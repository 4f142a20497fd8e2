-- ===== src/Authz/Expand/Bounds.antt =====
-- Expand (pkg/authz/expand.go) within its caps: its reads, and the subjects in its tree.
use workspace.Base.{
  ℕ, zero, suc, ◌+◌, ◌≤◌, String, ◌≡◌, refl, ap, ◌∙◌, true, false, Option, none, some, List, [],
  ◌∷◌, arith, inl, inr, Bool-cases, length, length-append, if◌then◌else◌, ok, ok-injective, ◌⊎◌,
  update-update_back, update,
}
use workspace.Base.Int.{ℤ, pos}
use workspace.Authz.Model.{
  Subject, SubjectSet, Rewrite, rewrite, Rewrites, Exclusion, Model, Operator, operator, rewrite_of,
}
use workspace.Authz.State.{Backstops, BackstopReason, pure, ◌>>=◌, visit_key, new_eval_state}
use workspace.Authz.Engine.{Engine, Request, list_subjects, effective_max_reads, expand_budget}
use workspace.Authz.Tree.{
  Tree, tree, Trees, nil, cons, ExcludeTree, absent, minus, Leaf, empty_leaf, leaf_node, bare,
  union_node, intersection_node, exclusion_node, add_subject, add_subjects,
}
use workspace.Authz.Expand.{
  ExpandState, Expand, bump, read_subjects, ExpandCall, expand_this, expand_pointer,
  expand_pointers, expand_tuple_to_userset, expand_switch, expand_rewrite, expand_children,
  expand_exclusion, truncate, mark, marked, expand, expand_start, expand_with_model,
}
use workspace.Authz.Check.Guarantees.{user_request}
use workspace.Authz.Spending.{Spends-recorded}
use workspace.Authz.Expand.Effect.{
  Effect, Grows, Grows-pure, Grows-after, Grows-read, Grows-bump, Grows-bind, Grows-map, Grows-both,
}

-- the concrete users and the unexpanded usersets in a tree
unfoldable mutual
  pub leaf_subjects : Tree → ℕ
  leaf_subjects (tree self us is x users sets wildcard) =
      length users + length sets + all_leaf_subjects us + all_leaf_subjects is + excluded_subjects x

  pub all_leaf_subjects : Trees → ℕ
  all_leaf_subjects nil = 0
  all_leaf_subjects (cons t ts) = leaf_subjects t + all_leaf_subjects ts

  pub excluded_subjects : ExcludeTree → ℕ
  excluded_subjects absent = 0
  excluded_subjects (minus inc exc) = leaf_subjects inc + leaf_subjects exc

abbrev leaf_size : Leaf → ℕ
leaf_size l = length l.users + length l.sets

add_subject-le : (l : Leaf) (s : Subject) → leaf_size (add_subject l s) ≤ suc (leaf_size l)
unfolding add_subject
add_subject-le l s = grind (arith, length-append)

add_subjects-le :
    (l : Leaf) (ss : List Subject) → leaf_size (add_subjects l ss) ≤ leaf_size l + length ss
unfolding add_subjects
add_subjects-le l [] = omega arith
add_subjects-le l (s ∷ ss) = omega (arith, add_subjects-le (add_subject l s) ss, add_subject-le l s)

module _ (r : Request) (max : ℤ) where
  abbrev Caps : ExpandCall → Type 0
  Caps call = (u : SubjectSet) → Grows max leaf_subjects (call u)

  Grows-this : (u : SubjectSet) → Grows max leaf_subjects (expand_this r max u)
  unfolding expand_this leaf_subjects
  Grows-this u =
      Grows-bind max leaf_subjects (read_subjects r u)
        (λ ss. bump max (length ss) >>= λ _. pure (leaf_node u (add_subjects empty_leaf ss)))
        (Grows-read max (list_subjects r u))
        λ ss.
          Grows-map max (λ _. length ss) leaf_subjects (bump max (length ss))
            (λ _. leaf_node u (add_subjects empty_leaf ss)) (Grows-bump max (length ss))
            (λ _. omega (arith, add_subjects-le empty_leaf ss))

  module _ (call : ExpandCall) (calls : Caps call) where
    Grows-pointers :
        (cr : String) (ss : List Subject) → Grows max all_leaf_subjects (expand_pointers call cr ss)
    unfolding expand_pointers leaf_subjects
    Grows-pointers cr [] = Grows-pure max all_leaf_subjects nil refl
    Grows-pointers cr (s ∷ ss) = by_set s.set (Grows-pointers cr ss)
      where
        by_set :
            (o : Option SubjectSet)
            → Grows max all_leaf_subjects (expand_pointers call cr ss)
            → Grows max all_leaf_subjects (expand_pointer call cr o (expand_pointers call cr ss))
        by_set none rest = rest
        by_set (some u) rest =
            Grows-both max leaf_subjects all_leaf_subjects all_leaf_subjects
              (call (record u { relation = cr })) (expand_pointers call cr ss) cons
              (calls (record u { relation = cr })) rest (λ t ts. omega arith)

    Grows-tupleset :
        (u : SubjectSet) (t cr : String)
        → Grows max leaf_subjects (expand_tuple_to_userset r call u t cr)
    unfolding expand_tuple_to_userset leaf_subjects
    Grows-tupleset u t cr =
        Grows-bind max leaf_subjects (read_subjects r (record u { relation = t }))
          (λ ss. expand_pointers call cr ss >>= λ subs. pure (union_node u subs))
          (Grows-read max (list_subjects r (record u { relation = t })))
          λ ss.
            Grows-map max all_leaf_subjects leaf_subjects (expand_pointers call cr ss)
              (union_node u) (Grows-pointers cr ss) (λ ts. omega arith)

    Grows-switch :
        (u : SubjectSet) (us is : Rewrites) (x : Exclusion) (c t cr : String) (o : Operator)
        → Grows max all_leaf_subjects (expand_children r call max u us)
        → Grows max all_leaf_subjects (expand_children r call max u is)
        → Grows max leaf_subjects (expand_exclusion r call max u x)
        → Grows max leaf_subjects (
            expand_switch o
              (expand_this r max u)
              (expand_children r call max u us >>= λ subs. pure (union_node u subs))
              (expand_children r call max u is >>= λ subs. pure (intersection_node u subs))
              (expand_exclusion r call max u x)
              (call (record u { relation = c }))
              (expand_tuple_to_userset r call u t cr)
              (pure (bare u)))
    unfolding leaf_subjects
    Grows-switch u us is x c t cr Operator.direct any all diff = Grows-this u
    Grows-switch u us is x c t cr Operator.any_of any all diff =
        Grows-map max all_leaf_subjects leaf_subjects _ (union_node u) any (λ ts. omega arith)
    Grows-switch u us is x c t cr Operator.all_of any all diff =
        Grows-map max all_leaf_subjects leaf_subjects _ (intersection_node u) all
          (λ ts. omega arith)
    Grows-switch u us is x c t cr Operator.difference any all diff = diff
    Grows-switch u us is x c t cr Operator.computed_userset any all diff =
        calls (record u { relation = c })
    Grows-switch u us is x c t cr Operator.tupleset any all diff = Grows-tupleset u t cr
    Grows-switch u us is x c t cr Operator.invalid any all diff =
        Grows-pure max leaf_subjects (bare u) refl

-- The loops over the children, by recursion on the rewrite.
mutual
  unfolding expand_rewrite leaf_subjects

  Grows-rewrite :
      (r : Request) (max : ℤ) (call : ExpandCall) (calls : Caps r max call) (u : SubjectSet)
      (rw' : Rewrite)
      → Grows max leaf_subjects (expand_rewrite r call max u rw')
  Grows-rewrite r max call calls u (rewrite us is x c t cr) =
      Grows-after max 1 leaf_subjects _ (Grows-bump max 1) (
        Grows-switch r max call calls u us is x c t cr (operator (rewrite us is x c t cr))
          (Grows-children r max call calls u us) (Grows-children r max call calls u is)
          (Grows-exclusion r max call calls u x))

  Grows-children :
      (r : Request) (max : ℤ) (call : ExpandCall) (calls : Caps r max call) (u : SubjectSet)
      (us : Rewrites)
      → Grows max all_leaf_subjects (expand_children r call max u us)
  Grows-children r max call calls u Rewrites.nil = Grows-pure max all_leaf_subjects nil refl
  Grows-children r max call calls u (Rewrites.cons rw' us) =
      Grows-both max leaf_subjects all_leaf_subjects all_leaf_subjects
        (expand_rewrite r call max u rw') (expand_children r call max u us) cons
        (Grows-rewrite r max call calls u rw') (Grows-children r max call calls u us)
        (λ t ts. omega arith)

  Grows-exclusion :
      (r : Request) (max : ℤ) (call : ExpandCall) (calls : Caps r max call) (u : SubjectSet)
      (x : Exclusion)
      → Grows max leaf_subjects (expand_exclusion r call max u x)
  Grows-exclusion r max call calls u Exclusion.absent = Grows-pure max leaf_subjects (bare u) refl
  Grows-exclusion r max call calls u (Exclusion.minus inc exc) =
      Grows-both max leaf_subjects leaf_subjects leaf_subjects (expand_rewrite r call max u inc)
        (expand_rewrite r call max u exc) (exclusion_node u) (Grows-rewrite r max call calls u inc)
        (Grows-rewrite r max call calls u exc) (λ t s. omega arith)

-- a backstop truncates to a leaf with no subjects
Grows-truncate :
    (max : ℤ) (reason : BackstopReason) (u : SubjectSet)
    → Grows max leaf_subjects (truncate reason u)
unfolding truncate leaf_subjects
Grows-truncate max reason u = record {
  at = λ st. record {
    visited = refl;
    spends = Spends-recorded reason st.eval;
    counted = λ a e. omega (arith, ap leaf_subjects (ok-injective e));
    capped = λ n e h b q. h;
  };
}

-- Every call of `expand`, at every remaining depth.
pub Grows-expand :
    (r : Request) (max : ℤ) (left : ℕ) (u : SubjectSet)
    → Grows max leaf_subjects (expand r max left u)
unfolding expand
Grows-expand r max zero u = record { at = (Grows-truncate max BackstopReason.depth u).at }
Grows-expand r max (suc left) u = record {
  at = λ st. by_mark st (Bool-cases (st.visited (visit_key u))) (
      Grows-rewrite r max (expand r max left) (Grows-expand r max left) u
        (rewrite_of r.model u.namespace u.relation));
}
  where
    body : Expand Tree
    body = expand_rewrite r (expand r max left) max u (rewrite_of r.model u.namespace u.relation)

    by_mark :
        (st : ExpandState)
        → (st.visited (visit_key u) ≡ true) ⊎ (st.visited (visit_key u) ≡ false)
        → Grows max leaf_subjects body
        → Effect max leaf_subjects st (
            if st.visited (visit_key u)
            then truncate BackstopReason.cycle u st
            else marked (visit_key u) body st)
    by_mark st (inl seen) g = rw seen ((Grows-truncate max BackstopReason.cycle u).at st)
    by_mark st (inr free) g = rw free (unmarked st free (g.at (mark (visit_key u) true st)))
      where
        unmarked :
            (st : ExpandState)
            → st.visited (visit_key u) ≡ false
            → Effect max leaf_subjects
                (mark (visit_key u) true st)
                (body (mark (visit_key u) true st))
            → Effect max leaf_subjects st (marked (visit_key u) body st)
        unmarked st free h = record {
          visited =
              ap (λ v. update v (visit_key u) false) h.visited
              ∙ update-update_back st.visited (visit_key u) true false free;
          spends = h.spends;
          counted = h.counted;
          capped = h.capped;
        }

module _ (e : Engine) (m : Model) (project tenant : String) (u : SubjectSet) (override : ℤ)
    (backstops : Option Backstops) where
  expand-Effect :
      (max : ℤ)
      → Effect max leaf_subjects
          (expand_start
            (new_eval_state (expand_budget (effective_max_reads e override) max) backstops))
          (expand_with_model e m project tenant u max override backstops)
  unfolding expand_with_model
  expand-Effect max =
      (Grows-expand (user_request e m project tenant "" []) max (suc e.max_depth) u).at (
        expand_start
          (new_eval_state (expand_budget (effective_max_reads e override) max) backstops))

  -- If an Expand with a positive node cap answers, then its tree holds no more users and usersets
  -- than the cap.
  pub expand_with_model-subjects :
      (cap : ℕ) (t : Tree)
      → (expand_with_model e m project tenant u (pos (suc cap)) override backstops).0 ≡ ok t
      → leaf_subjects t ≤ suc cap
  unfolding new_eval_state
  expand_with_model-subjects cap t a =
      let h = expand-Effect (pos (suc cap)) in
      omega (arith, h.counted t a, h.capped cap refl (omega arith) t a)

  -- Whatever an Expand answers, with a node cap or without one, it calls the store no more often than
  -- its positive read budget allows. The read that would exceed the budget is not made.
  pub expand_with_model-reads :
      (max : ℤ) (n : ℕ)
      → expand_budget (effective_max_reads e override) max ≡ pos (suc n)
      → (expand_with_model e m project tenant u max override backstops).1.eval.list_calls ≤ suc n
  unfolding new_eval_state
  expand_with_model-reads max n b =
      let (_, _, calls) = (expand-Effect max).spends.bound n b (omega arith) (omega arith) in calls
