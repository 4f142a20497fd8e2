-- ===== src/Authz/Check/Reads.antt =====
-- How often a Check calls the store (`CheckWithModel` in pkg/authz/engine.go).
use workspace.Base.{
  ℕ, zero, suc, ◌≤◌, String, ◌≡◌, Bool, true, false, not, Option, none, some, List, [], ◌∷◌, arith,
  if◌then◌else◌, Result, ok, err, is_equal, inl, inr, Bool-cases,
}
use workspace.Base.Int.{ℤ, pos}
use workspace.Authz.Condition.{Fields}
use workspace.Authz.Model.{
  Subject, SubjectSet, Rewrite, rewrite, Rewrites, nil, cons, Exclusion, absent, minus, Model,
  Operator, operator, rewrite_of,
}
use workspace.Authz.State.{
  EvalState, Backstops, BackstopReason, Eval, pure, ◌>>◌, charge, call_store, backstop, visit_key,
  memo_key, set_visited, set_memo, new_eval_state, record_backstop,
}
use workspace.Authz.Engine.{Engine, Request, list_subjects, effective_max_reads}
use workspace.Authz.Spending.{
  Spends, Spends-read, Spends-recorded, Frugal, Frugal-lift, Frugal-bind, Frugal-if,
}
use workspace.Authz.Check.{
  Call, Step, skip, grant, follow, this_step, tupleset_step, take_step, walk, switch, read_and_walk,
  eval_this, eval_tuple_to_userset, unless_set_query, eval_rewrite, eval_union, eval_intersection,
  eval_exclusion, or_else, and_also, remember, evaluate, or_evaluate, check, check_with_model,
}
use workspace.Authz.Check.Guarantees.{user_request}

abbrev Saves : {A : Type 0} → Eval A → Type 0
Saves m = Frugal (λ (st : EvalState). st) m

abbrev AllSave : Call → Type 0
AllSave call = (u : SubjectSet) (negated : Bool) → Saves (call u negated)

Saves-pure : {A : Type 0} (a : A) → Saves (pure a)
Saves-pure a = Frugal-lift (λ st. st) (ok a)

Saves-backstop : (reason : BackstopReason) (b : Bool) → Saves (backstop reason b)
unfolding backstop record_backstop
Saves-backstop reason b st =
    let h = Spends-recorded {res = ok b} reason st in
    record { max_reads = h.max_reads; bound = h.bound }

Saves-or_else : (m rest : Eval Bool) → Saves m → Saves rest → Saves (or_else m rest)
Saves-or_else m rest h k =
    Frugal-bind (λ st. st) m (λ granted. if granted then pure true else rest) h
      (λ granted. Frugal-if (λ st. st) granted (pure true) rest (Saves-pure true) k)

Saves-and_also : (m rest : Eval Bool) → Saves m → Saves rest → Saves (and_also m rest)
Saves-and_also m rest h k =
    Frugal-bind (λ st. st) m (λ granted. if granted then rest else pure false) h
      (λ granted. Frugal-if (λ st. st) granted rest (pure false) k (Saves-pure false))

module _ (r : Request) (call : Call) (calls : AllSave call) where
  Saves-walk :
      (negated : Bool) (step : Subject → Step) (ss : List Subject)
      → Saves (walk call negated step ss)
  unfolding walk
  Saves-walk negated step [] = Saves-pure false
  Saves-walk negated step (s ∷ ss) = by_step (step s) (Saves-walk negated step ss)
    where
      by_step :
          (x : Step)
          → Saves (walk call negated step ss)
          → Saves (take_step call negated x (walk call negated step ss))
      by_step skip rest = rest
      by_step grant rest = Saves-pure true
      by_step (follow u) rest = Saves-or_else (call u negated) _ (calls u negated) rest

  Saves-read :
      (negated : Bool) (step : Subject → Step) (u : SubjectSet)
      → Saves (read_and_walk r call negated step u)
  unfolding read_and_walk
  Saves-read negated step u =
      Frugal-bind (λ st. st) (charge >> call_store (list_subjects r u)) (walk call negated step)
        (Spends-read (list_subjects r u)) (Saves-walk negated step)

  Saves-unless_set :
      (q : Option SubjectSet) (m : Eval Bool) → Saves m → Saves (unless_set_query q m)
  Saves-unless_set none m h = h
  Saves-unless_set (some _) m h = Saves-pure false

  Saves-switch :
      (o : Operator) (a b c d e f : Eval Bool)
      → Saves a
      → Saves b
      → Saves c
      → Saves d
      → Saves e
      → Saves f
      → Saves (switch o a b c d e f)
  Saves-switch Operator.direct a b c d e f ha hb hc hd he hf = ha
  Saves-switch Operator.any_of a b c d e f ha hb hc hd he hf = hb
  Saves-switch Operator.all_of a b c d e f ha hb hc hd he hf = hc
  Saves-switch Operator.difference a b c d e f ha hb hc hd he hf = hd
  Saves-switch Operator.computed_userset a b c d e f ha hb hc hd he hf = he
  Saves-switch Operator.tupleset a b c d e f ha hb hc hd he hf = hf
  Saves-switch Operator.invalid a b c d e f ha hb hc hd he hf = Saves-pure false

mutual
  unfolding eval_rewrite eval_this eval_tuple_to_userset

  Saves-rewrite :
      (r : Request) (call : Call) (calls : AllSave call) (u : SubjectSet) (negated : Bool)
      (rw' : Rewrite)
      → Saves (eval_rewrite r call u rw' negated)
  Saves-rewrite r call calls u negated (rewrite us is x c t cr) =
      Saves-switch r call calls (operator (rewrite us is x c t cr)) _ _ _ _ _ _
        (Saves-read r call calls negated (this_step r) u) (Saves-union r call calls u negated us)
        (Saves-unless_set r call calls r.query.set _ (Saves-intersection r call calls u negated is))
        (Saves-unless_set r call calls r.query.set _ (Saves-exclusion r call calls u negated x))
        (calls (record u { relation = c }) negated)
        (Saves-read r call calls negated (tupleset_step r cr) (record u { relation = t }))

  Saves-union :
      (r : Request) (call : Call) (calls : AllSave call) (u : SubjectSet) (negated : Bool)
      (us : Rewrites)
      → Saves (eval_union r call u us negated)
  Saves-union r call calls u negated nil = Saves-pure false
  Saves-union r call calls u negated (cons rw' us) =
      Saves-or_else (eval_rewrite r call u rw' negated) (eval_union r call u us negated)
        (Saves-rewrite r call calls u negated rw') (Saves-union r call calls u negated us)

  Saves-intersection :
      (r : Request) (call : Call) (calls : AllSave call) (u : SubjectSet) (negated : Bool)
      (us : Rewrites)
      → Saves (eval_intersection r call u us negated)
  Saves-intersection r call calls u negated nil = Saves-pure true
  Saves-intersection r call calls u negated (cons rw' us) =
      Saves-and_also (eval_rewrite r call u rw' negated) (eval_intersection r call u us negated)
        (Saves-rewrite r call calls u negated rw') (Saves-intersection r call calls u negated us)

  Saves-exclusion :
      (r : Request) (call : Call) (calls : AllSave call) (u : SubjectSet) (negated : Bool)
      (x : Exclusion)
      → Saves (eval_exclusion r call u x negated)
  Saves-exclusion r call calls u negated absent = Saves-pure false
  Saves-exclusion r call calls u negated (minus inc exc) =
      Saves-and_also (eval_rewrite r call u inc negated) _
        (Saves-rewrite r call calls u negated inc)
        (Frugal-bind (λ st. st) (eval_rewrite r call u exc (not negated))
          (λ excluded. pure (not excluded)) (Saves-rewrite r call calls u (not negated) exc)
          (λ excluded. Saves-pure (not excluded)))

Saves-evaluate :
    (key : String) (negated : Bool) (body : Eval Bool)
    → Saves body
    → Saves (evaluate key negated body)
unfolding evaluate remember set_visited set_memo
Saves-evaluate key negated body h st =
    ended (body (set_visited key true st)) (h (set_visited key true st))
  where
    ended :
        (p : Result Bool × EvalState)
        → Spends (set_visited key true st) p.0 p.1
        → Spends st
            (remember key negated st.cycles_seen (p.0, set_visited key false p.1)).0
            (remember key negated st.cycles_seen (p.0, set_visited key false p.1)).1
    ended (err x, st') e = record { max_reads = e.max_reads; bound = e.bound }
    ended (ok b, st') e = by_cycles (is_equal st'.cycles_seen st.cycles_seen)
      where
        by_cycles :
            (clean : Bool)
            → Spends st (ok b) (
                if clean
                then set_memo (memo_key key negated) b (set_visited key false st')
                else set_visited key false st')
        by_cycles true = record { max_reads = e.max_reads; bound = e.bound }
        by_cycles false = record { max_reads = e.max_reads; bound = e.bound }

pub Saves-check :
    (r : Request) (left : ℕ) (u : SubjectSet) (negated : Bool) → Saves (check r left u negated)
unfolding check
Saves-check r zero u negated st = elim (Bool-cases (st.visited (visit_key u))) [
  | inl seen ↦ rw seen (Saves-backstop BackstopReason.cycle negated st)
  | inr fresh ↦ rw fresh (Saves-backstop BackstopReason.depth negated st)
]
Saves-check r (suc left) u negated st = elim (Bool-cases (st.visited (visit_key u))) [
  | inl seen ↦ rw seen (Saves-backstop BackstopReason.cycle negated st)
  | inr fresh ↦ rw fresh (by_memo (st.memo (memo_key (visit_key u) negated)) (Saves-check r left))
]
  where
    body : Eval Bool
    body = eval_rewrite r (check r left) u (rewrite_of r.model u.namespace u.relation) negated

    by_memo :
        (o : Option Bool)
        → ((v : SubjectSet) (n : Bool) → Saves (check r left v n))
        → Spends st
            (or_evaluate o (evaluate (visit_key u) negated body) st).0
            (or_evaluate o (evaluate (visit_key u) negated body) st).1
    by_memo (some b) calls = Saves-pure b st
    by_memo none calls =
        Saves-evaluate (visit_key u) negated body
          (Saves-rewrite r (check r left) calls u negated
            (rewrite_of r.model u.namespace u.relation))
          st

-- Whatever a Check answers, it calls the store no more often than its read budget allows: the
-- project's override if that is positive, and else the engine's own, where that is positive. The read
-- that would exceed the budget is not made.
pub check_with_model-reads :
    (e : Engine) (m : Model) (project tenant : String) (u : SubjectSet) (user : String)
    (ctx : Fields) (override : ℤ) (backstops : Option Backstops) (n : ℕ)
    → effective_max_reads e override ≡ pos (suc n)
    → (check_with_model e m project tenant u user ctx override backstops).1.list_calls ≤ suc n
unfolding check_with_model new_eval_state
check_with_model-reads e m project tenant u user ctx override backstops n h =
    let start = new_eval_state (effective_max_reads e override) backstops in
    let (_, _, calls) =
      (Saves-check (user_request e m project tenant user ctx) (suc e.max_depth) u false start).bound
        n h (omega arith) (omega arith) in
    calls
