-- ===== src/Authz/Check/Rules.antt =====
-- The evaluation of a rewrite and of stored subjects (`evalRewrite`, `evalThis` and
-- `evalTupleToUserset` in pkg/authz/engine.go), given that the calls of `check` are right.
use workspace.Base.{
  String, ◌≡◌, ◌≢◌, refl, inl, inr, Bool, true, false, not, Option, none, some, List, [], ◌∷◌,
  arith, ok,
}
use workspace.Authz.Model.{
  Subject, SubjectSet, Rewrite, rewrite, Rewrites, nil, cons, Exclusion, absent, minus, Operator,
  operator,
}
use workspace.Authz.State.{Eval}
use workspace.Authz.Engine.{Request, list_subjects}
use workspace.Authz.Keys.{IsPlain}
use workspace.Authz.Check.{
  Call, Step, skip, grant, follow, this_step, tupleset_step, take_step, walk, switch, read_and_walk,
  eval_this, eval_tuple_to_userset, unless_set_query, eval_rewrite, eval_union, eval_intersection,
  eval_exclusion,
}
use workspace.Authz.Check.Answers.{
  Sound, Sound-pure, Sound-map, Sound-read, Sound-or_else, Sound-and_also, Sound-negation,
}
use workspace.Authz.Decision.{
  Decides, Rule, direct, some_child, no_child, every_child, not_every_child, included, not_included,
  excluded, set_not_intersected, set_not_excluded, computed, through, here, there, AnyOf, AllOf,
  Difference, done, also, Stored, empty, granted, skipped, followed, not_followed, later,
}

-- The store holds only usersets whose visit key is unambiguous.
abbrev pub PlainStep : Step → Type 0
PlainStep skip = Unit
PlainStep grant = Unit
PlainStep (follow u) = IsPlain u

abbrev AllPlain : (Subject → Step) → List Subject → Type 0
AllPlain step [] = Unit
AllPlain step (s ∷ ss) = PlainStep (step s) × AllPlain step ss

-- Each userset that a list of subjects holds is plain.
abbrev pub PlainSet : Option SubjectSet → Type 0
PlainSet none = Unit
PlainSet (some u) = IsPlain u

abbrev pub PlainSets : List Subject → Type 0
PlainSets [] = Unit
PlainSets (s ∷ ss) = PlainSet s.set × PlainSets ss

abbrev pub PlainStore : Request → Type 0
PlainStore r = (u : SubjectSet) (ss : List Subject) → list_subjects r u ≡ ok ss → PlainSets ss

this_step-plain : (r : Request) (s : Subject) → PlainSet s.set → PlainStep (this_step r s)
unfolding this_step
this_step-plain r s p = ground arith

tupleset_step-plain :
    (r : Request) (cr : String) (s : Subject) → PlainSet s.set → PlainStep (tupleset_step r cr s)
unfolding tupleset_step
tupleset_step-plain r cr s p = ground arith

AllPlain-map :
    (step : Subject → Step)
    → ((s : Subject) → PlainSet s.set → PlainStep (step s))
    → (ss : List Subject) → PlainSets ss
    → AllPlain step ss
AllPlain-map step f [] h = tt
AllPlain-map step f (s ∷ ss) h = (f s h.0, AllPlain-map step f ss h.1)

-- the default of the switch is never taken
operator-ne-invalid :
    (us is : Rewrites) (x : Exclusion) (c t cr : String)
    → operator (rewrite us is x c t cr) ≢ Operator.invalid
unfolding operator
operator-ne-invalid us is x c t cr e = ground arith

in_difference :
    (r : Request) (u : SubjectSet) (us is : Rewrites) (x : Exclusion) (c t cr : String)
    → operator (rewrite us is x c t cr) ≡ Operator.difference
    → r.query.set ≡ none
    → (b : Bool) → Difference r u x b
    → Rule r u (rewrite us is x c t cr) b
unfolding operator
in_difference r u us is absent c t cr e q b h = absurd (no_absent us is c t cr e)
  where
    no_absent :
        (us is : Rewrites) (c t cr : String)
        → operator (rewrite us is absent c t cr) ≢ Operator.difference
    no_absent us is c t cr e = ground arith
in_difference r u us is (minus inc exc) c t cr e q true h = included e q h.0 h.1
in_difference r u us is (minus inc exc) c t cr e q false (inl h) = not_included e q h
in_difference r u us is (minus inc exc) c t cr e q false (inr h) = excluded e q h

module _ (r : Request) where
  -- a call of `check` is right about each plain userset
  abbrev pub CallSound : Call → Type 0
  CallSound call =
      (u : SubjectSet) (negated : Bool) → IsPlain u → Sound r negated (Decides r u) (call u negated)

  module _ (call : Call) (calls : CallSound call) (negated : Bool) where
    walk-Sound :
        (step : Subject → Step) (ss : List Subject)
        → AllPlain step ss
        → Sound r negated (Stored r step ss) (walk call negated step ss)
    unfolding walk
    walk-Sound step [] plain = Sound-pure r negated (Stored r step []) false empty
    walk-Sound step (s ∷ ss) plain = at (step s) refl plain.0 (walk-Sound step ss plain.1)
      where
        at :
            (t : Step)
            → step s ≡ t
            → PlainStep t
            → Sound r negated (Stored r step ss) (walk call negated step ss)
            → Sound r negated
                (Stored r step (s ∷ ss))
                (take_step call negated t (walk call negated step ss))
        at skip e p rest =
            Sound-map r negated (Stored r step ss) (Stored r step (s ∷ ss))
              (walk call negated step ss) (λ b. skipped e) rest
        at grant e p rest = Sound-pure r negated (Stored r step (s ∷ ss)) true (granted e)
        at (follow v) e p rest =
            Sound-or_else r negated (Decides r v) (Stored r step ss) (Stored r step (s ∷ ss))
              (call v negated) (walk call negated step ss) (followed v e) later (not_followed v e)
              (calls v negated p) rest

  module _ (store : PlainStore r) (call : Call) (calls : CallSound call) where
    read_and_walk-Sound :
        (negated : Bool) (step : Subject → Step) (u : SubjectSet) (S : Bool → Type 0)
        → ((s : Subject) → PlainSet s.set → PlainStep (step s))
        → ((ss : List Subject) (b : Bool) → list_subjects r u ≡ ok ss → Stored r step ss b → S b)
        → Sound r negated S (read_and_walk r call negated step u)
    unfolding read_and_walk
    read_and_walk-Sound negated step u S plain f =
        Sound-read r negated S (list_subjects r u) (walk call negated step) λ ss e.
          Sound-map r negated (Stored r step ss) S (walk call negated step ss) (λ b. f ss b e)
            (walk-Sound call calls negated step ss (AllPlain-map step plain ss (store u ss e)))

    unless_set_query-Sound :
        (negated : Bool) (S : Bool → Type 0) (m : Eval Bool) (set : Option SubjectSet)
        → r.query.set ≡ set
        → ((q : SubjectSet) → r.query.set ≡ some q → S false)
        → (r.query.set ≡ none → Sound r negated S m)
        → Sound r negated S (unless_set_query set m)
    unless_set_query-Sound negated S m none e refused next = next e
    unless_set_query-Sound negated S m (some q) e refused next =
        Sound-pure r negated S false (refused q e)

    -- `evalRewrite`, from what its loops over the children answer
    rewrite-Sound :
        (u : SubjectSet) (us is : Rewrites) (x : Exclusion) (c t cr : String) (negated : Bool)
        → IsPlain u
        → Sound r negated (AnyOf r u us) (eval_union r call u us negated)
        → Sound r negated (AllOf r u is) (eval_intersection r call u is negated)
        → Sound r negated (Difference r u x) (eval_exclusion r call u x negated)
        → Sound r negated
            (Rule r u (rewrite us is x c t cr))
            (eval_rewrite r call u (rewrite us is x c t cr) negated)
    unfolding eval_rewrite eval_this eval_tuple_to_userset
    rewrite-Sound u us is x c t cr negated plain any all diff =
        by_operator (operator (rewrite us is x c t cr)) refl
      where
        holds : Bool → Type 0
        holds = Rule r u (rewrite us is x c t cr)

        in_any :
            operator (rewrite us is x c t cr) ≡ Operator.any_of
            → (b : Bool) → AnyOf r u us b
            → holds b
        in_any e true h = some_child e h
        in_any e false h = no_child e h

        in_all :
            operator (rewrite us is x c t cr) ≡ Operator.all_of
            → r.query.set ≡ none
            → (b : Bool) → AllOf r u is b
            → holds b
        in_all e q true h = every_child e q h
        in_all e q false h = not_every_child e q h

        by_operator :
            (o : Operator)
            → operator (rewrite us is x c t cr) ≡ o
            → Sound r negated holds (
                switch o
                  (eval_this r call negated u)
                  (eval_union r call u us negated)
                  (unless_set_query r.query.set (eval_intersection r call u is negated))
                  (unless_set_query r.query.set (eval_exclusion r call u x negated))
                  (call (record u { relation = c }) negated)
                  (eval_tuple_to_userset r call negated u t cr))
        by_operator Operator.direct e =
            read_and_walk-Sound negated (this_step r) u holds (this_step-plain r)
              (λ ss b. direct ss e)
        by_operator Operator.any_of e =
            Sound-map r negated (AnyOf r u us) holds (eval_union r call u us negated) (in_any e) any
        by_operator Operator.all_of e =
            unless_set_query-Sound negated holds _ r.query.set refl (λ q. set_not_intersected e)
              λ q.
                Sound-map r negated (AllOf r u is) holds (eval_intersection r call u is negated)
                  (in_all e q) all
        by_operator Operator.difference e =
            unless_set_query-Sound negated holds _ r.query.set refl (λ q. set_not_excluded e)
              λ q.
                Sound-map r negated (Difference r u x) holds (eval_exclusion r call u x negated)
                  (in_difference r u us is x c t cr e q) diff
        by_operator Operator.computed_userset e =
            Sound-map r negated (Decides r (record u { relation = c })) holds
              (call (record u { relation = c }) negated) (λ b. computed e)
              (calls (record u { relation = c }) negated
                (record {
                  namespace_plain = plain.namespace_plain;
                  object_plain = plain.object_plain;
                }))
        by_operator Operator.tupleset e =
            read_and_walk-Sound negated (tupleset_step r cr) (record u { relation = t }) holds
              (tupleset_step-plain r cr) (λ ss b. through ss e)
        by_operator Operator.invalid e = absurd (operator-ne-invalid us is x c t cr e)

-- The loops over the children, by recursion on the rewrite.
mutual
  unfolding eval_rewrite

  pub eval_rewrite-Sound :
      (r : Request)
      → PlainStore r
      → (call : Call) → CallSound r call
      → (u : SubjectSet) → IsPlain u
      → (rw : Rewrite) (negated : Bool)
      → Sound r negated (Rule r u rw) (eval_rewrite r call u rw negated)
  eval_rewrite-Sound r store call calls u plain (rewrite us is x c t cr) negated =
      rewrite-Sound r store call calls u us is x c t cr negated plain
        (eval_union-Sound r store call calls u plain us negated)
        (eval_intersection-Sound r store call calls u plain is negated)
        (eval_exclusion-Sound r store call calls u plain x negated)

  eval_union-Sound :
      (r : Request)
      → PlainStore r
      → (call : Call) → CallSound r call
      → (u : SubjectSet) → IsPlain u
      → (us : Rewrites) (negated : Bool)
      → Sound r negated (AnyOf r u us) (eval_union r call u us negated)
  eval_union-Sound r store call calls u plain nil negated =
      Sound-pure r negated (AnyOf r u nil) false done
  eval_union-Sound r store call calls u plain (cons rw us) negated =
      Sound-or_else r negated (Rule r u rw) (AnyOf r u us) (AnyOf r u (cons rw us))
        (eval_rewrite r call u rw negated) (eval_union r call u us negated) here there also
        (eval_rewrite-Sound r store call calls u plain rw negated)
        (eval_union-Sound r store call calls u plain us negated)

  eval_intersection-Sound :
      (r : Request)
      → PlainStore r
      → (call : Call) → CallSound r call
      → (u : SubjectSet) → IsPlain u
      → (is : Rewrites) (negated : Bool)
      → Sound r negated (AllOf r u is) (eval_intersection r call u is negated)
  eval_intersection-Sound r store call calls u plain nil negated =
      Sound-pure r negated (AllOf r u nil) true done
  eval_intersection-Sound r store call calls u plain (cons rw is) negated =
      Sound-and_also r negated (Rule r u rw) (AllOf r u is) (AllOf r u (cons rw is))
        (eval_rewrite r call u rw negated) (eval_intersection r call u is negated) also here there
        (eval_rewrite-Sound r store call calls u plain rw negated)
        (eval_intersection-Sound r store call calls u plain is negated)

  eval_exclusion-Sound :
      (r : Request)
      → PlainStore r
      → (call : Call) → CallSound r call
      → (u : SubjectSet) → IsPlain u
      → (x : Exclusion) (negated : Bool)
      → Sound r negated (Difference r u x) (eval_exclusion r call u x negated)
  eval_exclusion-Sound r store call calls u plain absent negated =
      Sound-pure r negated (Difference r u absent) false refl
  eval_exclusion-Sound r store call calls u plain (minus inc exc) negated =
      Sound-and_also r negated (Rule r u inc) (λ b. Rule r u exc (not b))
        (Difference r u (minus inc exc)) (eval_rewrite r call u inc negated) _ (λ i e. (i, e)) inl
        inr (eval_rewrite-Sound r store call calls u plain inc negated)
        (Sound-negation r negated (Rule r u exc) (λ b. Rule r u exc (not b))
          (eval_rewrite r call u exc (not negated)) (λ h. h) (λ h. h)
          (eval_rewrite-Sound r store call calls u plain exc (not negated)))
