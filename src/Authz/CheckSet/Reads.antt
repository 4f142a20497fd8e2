-- ===== src/Authz/CheckSet/Reads.antt =====
-- The one read budget that a whole CheckSet shares (pkg/authz/checkset.go).
use workspace.Base.{
  ℕ, zero, suc, ◌≤◌, String, ◌≡◌, true, false, Option, none, List, [], ◌∷◌, arith, ◌⊎◌, inl, inr,
  Bool-cases, if◌then◌else◌, ok,
}
use workspace.Base.Int.{ℤ, pos}
use workspace.Authz.Condition.{Fields}
use workspace.Authz.Model.{SubjectSet, Model}
use workspace.Authz.State.{
  EvalState, Backstops, BackstopReason, pure, ◌>>=◌, visit_key, new_eval_state,
}
use workspace.Authz.Engine.{
  Engine, Request, SubjectQuery, user_query, set_query, effective_max_reads, fan_out_budget,
  max_list_objects_or_default,
}
use workspace.Authz.Check.{top_check}
use workspace.Authz.Check.Reads.{Saves-check}
use workspace.Authz.Tree.{Tree, tree, Trees, nil, cons, ExcludeTree, absent, minus}
use workspace.Authz.Expand.{expand_start}
use workspace.Authz.Expand.Bounds.{Grows-expand}
use workspace.Authz.Spending.{Spends, Spends-recorded, Frugal, Frugal-lift, Frugal-bind, Frugal-if}
use workspace.Authz.CheckSet.{
  Members, no_members, remove_members, MemberState, Resolve, MemberCall, merge, narrow,
  bounded_members, members_of_sets, members_of_tree, members_of_union, members_of_intersection,
  members_of_exclusion, mark_member, expand_fresh, resolve_members, with_query, reset, check_member,
  check_members, resolve, is_inhabited, check_by_members, check_set_with_model,
}

abbrev scratch : MemberState → EvalState
scratch st = st.eval

abbrev Thrifty : {A : Type 0} → Resolve A → Type 0
Thrifty m = Frugal scratch m

module _ (call : MemberCall) (calls : (u : SubjectSet) → Thrifty (call u)) where
  Thrifty-sets : (us : List SubjectSet) (out : Members) → Thrifty (members_of_sets call us out)
  unfolding members_of_sets
  Thrifty-sets [] out = Frugal-lift scratch (ok out)
  Thrifty-sets (u ∷ us) out =
      Frugal-bind scratch (call u) (λ m. members_of_sets call us (merge out m)) (calls u)
        (λ m. Thrifty-sets us (merge out m))

-- The algebra over the tree, by recursion on it.
mutual
  unfolding members_of_tree

  Thrifty-tree :
      (call : MemberCall) (calls : (u : SubjectSet) → Thrifty (call u)) (t : Tree)
      → Thrifty (members_of_tree call t)
  Thrifty-tree call calls (tree self us is x users sets wildcard) =
      Frugal-if scratch _ (members_of_union call us no_members) _
        (Thrifty-union call calls us no_members)
        (Frugal-if scratch _ (members_of_intersection call is none) _
          (Thrifty-intersection call calls is none)
          (Frugal-if scratch _ (members_of_exclusion call x) _ (Thrifty-exclusion call calls x)
            (Thrifty-sets call calls sets _)))

  Thrifty-union :
      (call : MemberCall) (calls : (u : SubjectSet) → Thrifty (call u)) (ts : Trees) (out : Members)
      → Thrifty (members_of_union call ts out)
  Thrifty-union call calls nil out = Frugal-lift scratch (ok out)
  Thrifty-union call calls (cons t ts) out =
      Frugal-bind scratch (members_of_tree call t) (λ m. members_of_union call ts (merge out m))
        (Thrifty-tree call calls t) (λ m. Thrifty-union call calls ts (merge out m))

  Thrifty-intersection :
      (call : MemberCall) (calls : (u : SubjectSet) → Thrifty (call u)) (ts : Trees)
      (acc : Option (List String))
      → Thrifty (members_of_intersection call ts acc)
  Thrifty-intersection call calls nil acc = Frugal-lift scratch (ok (bounded_members acc))
  Thrifty-intersection call calls (cons t ts) acc =
      Frugal-bind scratch (members_of_tree call t)
        (λ m. members_of_intersection call ts (narrow acc m)) (Thrifty-tree call calls t)
        (λ m. Thrifty-intersection call calls ts (narrow acc m))

  Thrifty-exclusion :
      (call : MemberCall) (calls : (u : SubjectSet) → Thrifty (call u)) (x : ExcludeTree)
      → Thrifty (members_of_exclusion call x)
  Thrifty-exclusion call calls absent = Frugal-lift scratch (ok no_members)
  Thrifty-exclusion call calls (minus inc exc) =
      Frugal-bind scratch (members_of_tree call inc)
        (λ i. members_of_tree call exc >>= λ e. pure (remove_members i e))
        (Thrifty-tree call calls inc)
        (λ i.
          Frugal-bind scratch (members_of_tree call exc) (λ e. pure (remove_members i e))
            (Thrifty-tree call calls exc) (λ e. Frugal-lift scratch (ok (remove_members i e))))

Thrifty-expand_fresh : (r : Request) (left : ℕ) (u : SubjectSet) → Thrifty (expand_fresh r left u)
unfolding expand_fresh
Thrifty-expand_fresh r left u st =
    ((Grows-expand r (pos 0) left u).at (expand_start st.eval)).spends

Thrifty-resolve : (r : Request) (left : ℕ) (u : SubjectSet) → Thrifty (resolve_members r left u)
unfolding resolve_members
Thrifty-resolve r zero u st = Spends-recorded BackstopReason.depth st.eval
Thrifty-resolve r (suc left) u st =
    by_mark (Thrifty-resolve r left) (Bool-cases (st.visited (visit_key u)))
  where
    by_mark :
        ((v : SubjectSet) → Thrifty (resolve_members r left v))
        → (st.visited (visit_key u) ≡ true) ⊎ (st.visited (visit_key u) ≡ false)
        → Spends st.eval
            (resolve_members r (suc left) u st).0
            (resolve_members r (suc left) u st).1.eval
    by_mark calls (inl seen) = rw seen (Spends-recorded BackstopReason.cycle st.eval)
    by_mark calls (inr free) = rw free (
        Frugal-bind scratch (expand_fresh r (suc left) u) (members_of_tree (resolve_members r left))
          (Thrifty-expand_fresh r (suc left) u) (Thrifty-tree (resolve_members r left) calls)
          (mark_member (visit_key u) true st))

module _ (r : Request) (target : SubjectSet) where
  -- a Check for any query, from any state
  pub Frugal-check :
      (q : SubjectQuery) → Frugal (λ (st : EvalState). st) (top_check (with_query r q) target)
  Frugal-check q = Saves-check (with_query r q) (suc r.engine.max_depth) target false

  Frugal-member : (v : String) → Frugal (λ (st : EvalState). st) (check_member r target v)
  unfolding reset
  Frugal-member v st =
      let h = Frugal-check (user_query v) (reset st) in
      record { max_reads = h.max_reads; bound = h.bound }

  Frugal-members : (us : List String) → Frugal (λ (st : EvalState). st) (check_members r target us)
  unfolding check_members
  Frugal-members [] = Frugal-lift (λ st. st) (ok false)
  Frugal-members (v ∷ us) =
      Frugal-bind (λ st. st) (check_member r target v)
        (λ granted. if granted then pure true else check_members r target us) (Frugal-member v)
        (λ granted.
          Frugal-if (λ st. st) granted (pure true) (check_members r target us)
            (Frugal-lift (λ st. st) (ok true)) (Frugal-members us))

  Frugal-resolve : (u : SubjectSet) → Frugal (λ (st : EvalState). st) (resolve r u)
  Frugal-resolve u st =
      Thrifty-resolve r (suc r.engine.max_depth) u (record { visited = λ _. false; eval = st })

  Frugal-by_members :
      (set : SubjectSet) → Frugal (λ (st : EvalState). st) (check_by_members r target set)
  unfolding check_by_members
  Frugal-by_members set =
      Frugal-bind (λ st. st) (resolve r set) _ (Frugal-resolve set)
        λ m.
          Frugal-bind (λ st. st) (check_members r target m.users) _ (Frugal-members m.users)
            λ granted.
              Frugal-if (λ st. st) granted (pure true) _ (Frugal-lift (λ st. st) (ok true))
                (Frugal-if (λ st. st) m.everyone (resolve r target >>= λ t. pure (is_inhabited t))
                  (pure false)
                  (Frugal-bind (λ st. st) (resolve r target) (λ t. pure (is_inhabited t))
                    (Frugal-resolve target) (λ t. Frugal-lift (λ st. st) (ok (is_inhabited t))))
                  (Frugal-lift (λ st. st) (ok false)))

-- the request that a CheckSet evaluates
abbrev pub set_request : Engine → Model → String → String → SubjectSet → Fields → Request
set_request e m project tenant set ctx = record {
  engine = e;
  model = m;
  project_id = project;
  tenant_id = tenant;
  query = set_query set;
  context = ctx;
}

-- Whatever a CheckSet answers, the structural walk, the expansion of the queried userset and the
-- Checks of all its members call the store together no more often than the one fan-out budget allows,
-- where that is positive. The read that would exceed the budget is not made.
pub check_set_with_model-reads :
    (e : Engine) (m : Model) (project tenant : String) (target set : SubjectSet) (ctx : Fields)
    (override : ℤ) (backstops : Option Backstops) (n : ℕ)
    → fan_out_budget e (effective_max_reads e override) (max_list_objects_or_default e)
      ≡ pos (suc n)
    → (check_set_with_model e m project tenant target set ctx override backstops).1.list_calls
      ≤ suc n
unfolding check_set_with_model new_eval_state
check_set_with_model-reads e m project tenant target set ctx override backstops n h =
    let r = set_request e m project tenant set ctx in
    let start =
      new_eval_state
        (fan_out_budget e (effective_max_reads e override) (max_list_objects_or_default e))
        backstops in
    let (_, _, calls) =
      (Frugal-bind (λ (st : EvalState). st) (top_check r target)
          (λ granted. if granted then pure true else check_by_members r target set)
          (Frugal-check r target (set_query set))
          (λ granted.
            Frugal-if (λ (st : EvalState). st) granted (pure true) (check_by_members r target set)
              (Frugal-lift (λ (st : EvalState). st) (ok true)) (Frugal-by_members r target set))
          start).bound
        n h (omega arith) (omega arith) in
    calls
