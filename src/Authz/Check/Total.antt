-- ===== src/Authz/Check/Total.antt =====
-- Check answers (`CheckWithModel` in pkg/authz/engine.go): where neither a budget nor the store fails.
use workspace.Base.{
  ℕ, zero, suc, String, ◌≡◌, refl, Bool, true, false, not, Option, none, some, List, [], ◌∷◌,
  if◌then◌else◌, Result, ok, err, is_equal, inl, inr, Bool-cases,
}
use workspace.Base.Int.{ℤ, is_positive}
use workspace.Authz.Condition.{Fields}
use workspace.Authz.Model.{
  Subject, SubjectSet, Rewrite, rewrite, Rewrites, nil, cons, Exclusion, absent, minus, Model,
  Operator, operator, rewrite_of,
}
use workspace.Authz.State.{
  EvalState, Backstops, BackstopReason, Eval, pure, call_store, ◌>>=◌, ◌>>◌, charge, backstop,
  visit_key, memo_key, set_visited, set_memo, new_eval_state, record_backstop,
}
use workspace.Authz.Engine.{Engine, Request, list_subjects, effective_max_reads}
use workspace.Authz.Check.{
  Call, Step, skip, grant, follow, this_step, tupleset_step, take_step, walk, switch, read_and_walk,
  eval_this, eval_tuple_to_userset, unless_set_query, eval_rewrite, eval_union, eval_intersection,
  eval_exclusion, or_else, and_also, remember, evaluate, or_evaluate, check, check_with_model,
}
use workspace.Authz.Check.Guarantees.{user_request}

abbrev Unlimited : EvalState → Type 0
Unlimited st = is_positive st.max_reads ≡ false

-- From a state without a budget, the action ends with a value and leaves no budget.
pub record Ends {A : Type 0} (p : Result A × EvalState) : Type 0 where
  pub value : A
  pub answers : p.0 ≡ ok value
  pub unlimited : Unlimited p.1

abbrev Total : {A : Type 0} → Eval A → Type 0
Total m = (st : EvalState) → Unlimited st → Ends (m st)

Total-pure : {A : Type 0} (a : A) → Total (pure a)
Total-pure a st h = record { value = a; answers = refl; unlimited = h }

Total-bind :
    {A B : Type 0} (m : Eval A) (k : A → Eval B)
    → Total m
    → ((a : A) → Total (k a))
    → Total (m >>= k)
Total-bind {A} {B} m k first next st h = ended (m st) (first st h)
  where
    ended : (p : Result A × EvalState) → Ends p → Ends (((λ (_ : EvalState). p) >>= k) st)
    ended (ok a, st') e = next a st' e.unlimited
    ended (err x, st') e = absurd (cc e.answers)

Total-if : {A : Type 0} (b : Bool) (m k : Eval A) → Total m → Total k → Total (if b then m else k)
Total-if true m k h h' = h
Total-if false m k h h' = h'

Total-charge : Total charge
unfolding charge
Total-charge st h = rw h (record { value = tt; answers = refl; unlimited = h })

Total-backstop : (reason : BackstopReason) (b : Bool) → Total (backstop reason b)
unfolding backstop record_backstop
Total-backstop reason b st h = record { value = b; answers = refl; unlimited = h }

-- `if granted then … else …` after an evaluation
Total-or_else : (m rest : Eval Bool) → Total m → Total rest → Total (or_else m rest)
Total-or_else m rest h k =
    Total-bind m (λ granted. if granted then pure true else rest) h
      (λ granted. Total-if granted (pure true) rest (Total-pure true) k)

Total-and_also : (m rest : Eval Bool) → Total m → Total rest → Total (and_also m rest)
Total-and_also m rest h k =
    Total-bind m (λ granted. if granted then rest else pure false) h
      (λ granted. Total-if granted rest (pure false) k (Total-pure false))

abbrev pub Reads : Request → Type 0
Reads r = (u : SubjectSet) → (ss : List Subject) × (list_subjects r u ≡ ok ss)

module _ (r : Request) (reads : Reads r) (call : Call)
    (calls : (u : SubjectSet) (n : Bool) → Total (call u n)) where
  Total-walk :
      (negated : Bool) (step : Subject → Step) (ss : List Subject)
      → Total (walk call negated step ss)
  unfolding walk
  Total-walk negated step [] = Total-pure false
  Total-walk negated step (s ∷ ss) = by_step (step s) (Total-walk negated step ss)
    where
      by_step :
          (x : Step)
          → Total (walk call negated step ss)
          → Total (take_step call negated x (walk call negated step ss))
      by_step skip rest = rest
      by_step grant rest = Total-pure true
      by_step (follow u) rest = Total-or_else (call u negated) _ (calls u negated) rest

  Total-read :
      (negated : Bool) (step : Subject → Step) (u : SubjectSet)
      → Total (read_and_walk r call negated step u)
  unfolding read_and_walk
  Total-read negated step u =
      Total-bind (charge >> call_store (list_subjects r u)) (walk call negated step)
        (Total-bind charge (λ _. call_store (list_subjects r u)) Total-charge (λ _. stored))
        (Total-walk negated step)
    where
      stored : Total (call_store (list_subjects r u))
      stored st h = let (ss, e) = reads u in record { value = ss; answers = e; unlimited = h }

  Total-unless_set :
      (q : Option SubjectSet) (m : Eval Bool) → Total m → Total (unless_set_query q m)
  Total-unless_set none m h = h
  Total-unless_set (some _) m h = Total-pure false

  Total-switch :
      (o : Operator) (a b c d e f : Eval Bool)
      → Total a
      → Total b
      → Total c
      → Total d
      → Total e
      → Total f
      → Total (switch o a b c d e f)
  Total-switch Operator.direct a b c d e f ha hb hc hd he hf = ha
  Total-switch Operator.any_of a b c d e f ha hb hc hd he hf = hb
  Total-switch Operator.all_of a b c d e f ha hb hc hd he hf = hc
  Total-switch Operator.difference a b c d e f ha hb hc hd he hf = hd
  Total-switch Operator.computed_userset a b c d e f ha hb hc hd he hf = he
  Total-switch Operator.tupleset a b c d e f ha hb hc hd he hf = hf
  Total-switch Operator.invalid a b c d e f ha hb hc hd he hf = Total-pure false

mutual
  unfolding eval_rewrite eval_this eval_tuple_to_userset

  Total-rewrite :
      (r : Request) (reads : Reads r) (call : Call)
      (calls : (u : SubjectSet) (n : Bool) → Total (call u n)) (u : SubjectSet) (negated : Bool)
      (rw' : Rewrite)
      → Total (eval_rewrite r call u rw' negated)
  Total-rewrite r reads call calls u negated (rewrite us is x c t cr) =
      Total-switch r reads call calls (operator (rewrite us is x c t cr)) _ _ _ _ _ _
        (Total-read r reads call calls negated (this_step r) u)
        (Total-union r reads call calls u negated us)
        (Total-unless_set r reads call calls r.query.set _
          (Total-intersection r reads call calls u negated is))
        (Total-unless_set r reads call calls r.query.set _
          (Total-exclusion r reads call calls u negated x))
        (calls (record u { relation = c }) negated)
        (Total-read r reads call calls negated (tupleset_step r cr) (record u { relation = t }))

  Total-union :
      (r : Request) (reads : Reads r) (call : Call)
      (calls : (u : SubjectSet) (n : Bool) → Total (call u n)) (u : SubjectSet) (negated : Bool)
      (us : Rewrites)
      → Total (eval_union r call u us negated)
  Total-union r reads call calls u negated nil = Total-pure false
  Total-union r reads call calls u negated (cons rw' us) =
      Total-or_else (eval_rewrite r call u rw' negated) (eval_union r call u us negated)
        (Total-rewrite r reads call calls u negated rw')
        (Total-union r reads call calls u negated us)

  Total-intersection :
      (r : Request) (reads : Reads r) (call : Call)
      (calls : (u : SubjectSet) (n : Bool) → Total (call u n)) (u : SubjectSet) (negated : Bool)
      (us : Rewrites)
      → Total (eval_intersection r call u us negated)
  Total-intersection r reads call calls u negated nil = Total-pure true
  Total-intersection r reads call calls u negated (cons rw' us) =
      Total-and_also (eval_rewrite r call u rw' negated) (eval_intersection r call u us negated)
        (Total-rewrite r reads call calls u negated rw')
        (Total-intersection r reads call calls u negated us)

  Total-exclusion :
      (r : Request) (reads : Reads r) (call : Call)
      (calls : (u : SubjectSet) (n : Bool) → Total (call u n)) (u : SubjectSet) (negated : Bool)
      (x : Exclusion)
      → Total (eval_exclusion r call u x negated)
  Total-exclusion r reads call calls u negated absent = Total-pure false
  Total-exclusion r reads call calls u negated (minus inc exc) =
      Total-and_also (eval_rewrite r call u inc negated) _
        (Total-rewrite r reads call calls u negated inc)
        (Total-bind (eval_rewrite r call u exc (not negated)) (λ excluded. pure (not excluded))
          (Total-rewrite r reads call calls u (not negated) exc)
          (λ excluded. Total-pure (not excluded)))

Total-evaluate :
    (key : String) (negated : Bool) (body : Eval Bool)
    → Total body
    → Total (evaluate key negated body)
unfolding evaluate remember set_visited set_memo
Total-evaluate key negated body h st unlimited =
    ended (body (set_visited key true st)) (h (set_visited key true st) unlimited)
  where
    ended :
        (p : Result Bool × EvalState)
        → Ends p
        → Ends (remember key negated st.cycles_seen (p.0, set_visited key false p.1))
    ended (err x, st') e = absurd (cc e.answers)
    ended (ok b, st') e = by_cycles (is_equal st'.cycles_seen st.cycles_seen)
      where
        by_cycles :
            (clean : Bool)
            → Ends (
              ok b,
              if clean
                  then set_memo (memo_key key negated) b (set_visited key false st')
                  else set_visited key false st',
            )
        by_cycles true = record { value = b; answers = refl; unlimited = e.unlimited }
        by_cycles false = record { value = b; answers = refl; unlimited = e.unlimited }

Total-check :
    (r : Request)
    → Reads r
    → (left : ℕ) (u : SubjectSet) (negated : Bool) → Total (check r left u negated)
unfolding check
Total-check r reads zero u negated st h = elim (Bool-cases (st.visited (visit_key u))) [
  | inl seen ↦ rw seen (Total-backstop BackstopReason.cycle negated st h)
  | inr fresh ↦ rw fresh (Total-backstop BackstopReason.depth negated st h)
]
Total-check r reads (suc left) u negated st h = elim (Bool-cases (st.visited (visit_key u))) [
  | inl seen ↦ rw seen (Total-backstop BackstopReason.cycle negated st h)
  | inr fresh ↦
      rw fresh (by_memo (st.memo (memo_key (visit_key u) negated)) (Total-check r reads left))
]
  where
    body : Eval Bool
    body = eval_rewrite r (check r left) u (rewrite_of r.model u.namespace u.relation) negated

    by_memo :
        (o : Option Bool)
        → ((v : SubjectSet) (n : Bool) → Total (check r left v n))
        → Ends (or_evaluate o (evaluate (visit_key u) negated body) st)
    by_memo (some b) calls = Total-pure b st h
    by_memo none calls =
        Total-evaluate (visit_key u) negated body
          (Total-rewrite r reads (check r left) calls u negated
            (rewrite_of r.model u.namespace u.relation))
          st h

-- If neither the request nor the engine sets a positive read budget and the store answers every read,
-- then a Check answers: no model and no cycle among the tuples makes it fail or run on.
pub check_with_model-answers :
    (e : Engine) (m : Model) (project tenant : String) (u : SubjectSet) (user : String)
    (ctx : Fields) (override : ℤ) (backstops : Option Backstops)
    → is_positive (effective_max_reads e override) ≡ false
    → Reads (user_request e m project tenant user ctx)
    → (b : Bool) × ((check_with_model e m project tenant u user ctx override backstops).0 ≡ ok b)
unfolding check_with_model new_eval_state
check_with_model-answers e m project tenant u user ctx override backstops unlimited reads =
    let ends =
      Total-check (user_request e m project tenant user ctx) reads (suc e.max_depth) u false
        (new_eval_state (effective_max_reads e override) backstops) unlimited in
    (ends.value, ends.answers)
