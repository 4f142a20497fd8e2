-- ===== src/Authz/Decision/Unique.antt =====
-- The model decides each question in one way at most.
use workspace.Base.{
  ◌≡◌, refl, sym, ◌∙◌, subst, inl, inr, String, Bool, true, false, Option, none, some, List, ok,
}
use workspace.Authz.Model.{
  Subject, SubjectSet, Rewrite, rewrite, Rewrites, Exclusion, minus, Operator, operator,
}
use workspace.Authz.Engine.{Request, list_subjects}
use workspace.Authz.Check.{Step, follow, this_step, tupleset_step}
use workspace.Authz.Decision.{
  Decides, by_rule, Rule, direct, some_child, no_child, every_child, not_every_child, included,
  not_included, excluded, set_not_intersected, set_not_excluded, computed, through, Some, here,
  there, Every, done, also, Stored, empty, granted, skipped, followed, not_followed, later, AnyOf,
  AllOf, Difference,
}

-- a userset query denies, and any other asks the children
abbrev Unless : Option SubjectSet → (Bool → Type 0) → Bool → Type 0
Unless none S b = S b
Unless (some _) S b = b ≡ false

-- what a decision by each operator rests on
abbrev Case :
    Request
    → SubjectSet
    → Rewrites
    → Rewrites
    → Exclusion
    → String
    → String
    → String
    → Bool
    → Operator
    → Type 0
Case r u us is x c t cr b Operator.direct =
    (ss : List Subject) × (list_subjects r u ≡ ok ss) × Stored r (this_step r) ss b
Case r u us is x c t cr b Operator.any_of = AnyOf r u us b
Case r u us is x c t cr b Operator.all_of = Unless r.query.set (AllOf r u is) b
Case r u us is x c t cr b Operator.difference = Unless r.query.set (Difference r u x) b
Case r u us is x c t cr b Operator.computed_userset = Decides r (record u { relation = c }) b
Case r u us is x c t cr b Operator.tupleset =
    (ss : List Subject) × (list_subjects r (record u { relation = t }) ≡ ok ss)
    × Stored r (tupleset_step r cr) ss b
Case r u us is x c t cr b Operator.invalid = ⊥

to_unless : (o : Option SubjectSet) (S : Bool → Type 0) (b : Bool) → o ≡ none → S b → Unless o S b
to_unless none S b e h = h
to_unless (some q) S b e h = absurd (cc)

from_unless : (o : Option SubjectSet) (S : Bool → Type 0) (b : Bool) → o ≡ none → Unless o S b → S b
from_unless none S b e h = h
from_unless (some q) S b e h = absurd (cc)

Unless-refused :
    (o : Option SubjectSet) (S : Bool → Type 0) {q : SubjectSet} → o ≡ some q → Unless o S false
Unless-refused none S e = absurd (cc)
Unless-refused (some q) S e = refl

refused-Unless :
    (o : Option SubjectSet) (S : Bool → Type 0) (b : Bool) {q : SubjectSet}
    → o ≡ some q
    → Unless o S b
    → false ≡ b
refused-Unless none S b e h = absurd (cc)
refused-Unless (some q) S b e h = sym h

inverted :
    {r : Request} {u : SubjectSet} {us is : Rewrites} {x : Exclusion} {c t cr : String} {b : Bool}
    → Rule r u (rewrite us is x c t cr) b
    → Case r u us is x c t cr b (operator (rewrite us is x c t cr))
inverted (direct ss e q h) = rw e (ss, q, h)
inverted (some_child e h) = rw e h
inverted (no_child e h) = rw e h
inverted {r} {u} {is = is} (every_child e q h) =
    rw e (to_unless r.query.set (AllOf r u is) true q h)
inverted {r} {u} {is = is} (not_every_child e q h) =
    rw e (to_unless r.query.set (AllOf r u is) false q h)
inverted {r} {u} {x = x} (included e q h k) =
    rw e (to_unless r.query.set (Difference r u x) true q (h, k))
inverted {r} {u} {x = x} (not_included e q h) =
    rw e (to_unless r.query.set (Difference r u x) false q (inl h))
inverted {r} {u} {x = x} (excluded e q h) =
    rw e (to_unless r.query.set (Difference r u x) false q (inr h))
inverted {r} {u} {is = is} (set_not_intersected e q) =
    rw e (Unless-refused r.query.set (AllOf r u is) q)
inverted {r} {u} {x = x} (set_not_excluded e q) =
    rw e (Unless-refused r.query.set (Difference r u x) q)
inverted (computed e h) = rw e h
inverted (through ss e q h) = rw e (ss, q, h)

-- Against a union that grants, and so on: the other decision is the same, or it is refuted.
module _ (r : Request) (u : SubjectSet) where
  any_true :
      (us : Rewrites) (b : Bool) → AnyOf r u us b → (Every r u us false → true ≡ false) → true ≡ b
  any_true us true h f = refl
  any_true us false h f = f h

  any_false :
      (us : Rewrites) (b : Bool) → AnyOf r u us b → (Some r u us true → false ≡ true) → false ≡ b
  any_false us true h f = f h
  any_false us false h f = refl

  all_true :
      (is : Rewrites) (b : Bool) → AllOf r u is b → (Some r u is false → true ≡ false) → true ≡ b
  all_true is true h f = refl
  all_true is false h f = f h

  all_false :
      (is : Rewrites) (b : Bool) → AllOf r u is b → (Every r u is true → false ≡ true) → false ≡ b
  all_false is true h f = f h
  all_false is false h f = refl

  Difference-true :
      (inc exc : Rewrite) (b : Bool)
      → Difference r u (minus inc exc) b
      → (Rule r u inc false → true ≡ false)
      → (Rule r u exc true → false ≡ true)
      → true ≡ b
  Difference-true inc exc true h f g = refl
  Difference-true inc exc false (inl h) f g = f h
  Difference-true inc exc false (inr h) f g = sym (g h)

  Difference-false :
      (inc exc : Rewrite) (b : Bool)
      → Difference r u (minus inc exc) b
      → (Rule r u inc true × Rule r u exc false → false ≡ true)
      → false ≡ b
  Difference-false inc exc true h f = f h
  Difference-false inc exc false h f = refl

same_list :
    (r : Request) (u : SubjectSet) {ss l : List Subject}
    → list_subjects r u ≡ ok ss
    → list_subjects r u ≡ ok l
    → l ≡ ss
same_list r u p q = cc

follow-injective : {v w : SubjectSet} → follow v ≡ follow w → v ≡ w
follow-injective e = cc

mutual
  Decides-agree :
      {r : Request} {u : SubjectSet} {b d : Bool} → Decides r u b → Decides r u d → b ≡ d
  Decides-agree (by_rule h) (by_rule k) = Rule-agree h k

  Rule-agree :
      {r : Request} {u : SubjectSet} {rw' : Rewrite} {b d : Bool}
      → Rule r u rw' b
      → Rule r u rw' d
      → b ≡ d
  Rule-agree {r} {u} {d = d} (direct ss e q h) k =
      let (l, q', h') = rw e at (inverted k) in
      Stored-unique h (subst (λ l. Stored r (this_step r) l d) (same_list r u q q') h')
  Rule-agree {r} {u} {d = d} (some_child {us = us} e h) k =
      any_true r u us d (rw e at (inverted k)) (λ every. Some-Every h every)
  Rule-agree {r} {u} {d = d} (no_child {us = us} e h) k =
      any_false r u us d (rw e at (inverted k)) (λ some'. Every-Some h some')
  Rule-agree {r} {u} {d = d} (every_child {is = is} e q h) k =
      all_true r u is d (from_unless r.query.set (AllOf r u is) d q (rw e at (inverted k)))
        (λ some'. Every-Some h some')
  Rule-agree {r} {u} {d = d} (not_every_child {is = is} e q h) k =
      all_false r u is d (from_unless r.query.set (AllOf r u is) d q (rw e at (inverted k)))
        (λ every. Some-Every h every)
  Rule-agree {r} {u} {d = d} (included {inc = inc} {exc = exc} e q h x) k =
      Difference-true r u inc exc d
        (from_unless r.query.set (Difference r u (minus inc exc)) d q (rw e at (inverted k)))
        (λ i. Rule-agree h i) (λ y. Rule-agree x y)
  Rule-agree {r} {u} {d = d} (not_included {inc = inc} {exc = exc} e q h) k =
      Difference-false r u inc exc d
        (from_unless r.query.set (Difference r u (minus inc exc)) d q (rw e at (inverted k)))
        (λ i. Rule-agree h i.0)
  Rule-agree {r} {u} {d = d} (excluded {inc = inc} {exc = exc} e q h) k =
      Difference-false r u inc exc d
        (from_unless r.query.set (Difference r u (minus inc exc)) d q (rw e at (inverted k)))
        (λ i. sym (Rule-agree h i.1))
  Rule-agree {r} {u} {d = d} (set_not_intersected {is = is} e q) k =
      refused-Unless r.query.set (AllOf r u is) d q (rw e at (inverted k))
  Rule-agree {r} {u} {d = d} (set_not_excluded {x = x} e q) k =
      refused-Unless r.query.set (Difference r u x) d q (rw e at (inverted k))
  Rule-agree (computed e h) k = Decides-agree h (rw e at (inverted k))
  Rule-agree {r} {u} {d = d} (through {t = t} {cr = cr} ss e q h) k =
      let (l, q', h') = rw e at (inverted k) in
      Stored-unique h (
        subst (λ l. Stored r (tupleset_step r cr) l d)
          (same_list r (record u { relation = t }) q q') h')

  Some-Every :
      {r : Request} {u : SubjectSet} {rs : Rewrites} {b d : Bool}
      → Some r u rs b
      → Every r u rs d
      → b ≡ d
  Some-Every (here h) (also k ks) = Rule-agree h k
  Some-Every (there h) (also k ks) = Some-Every h ks

  Every-Some :
      {r : Request} {u : SubjectSet} {rs : Rewrites} {b d : Bool}
      → Every r u rs b
      → Some r u rs d
      → b ≡ d
  Every-Some done k = elim k [ ]
  Every-Some (also h hs) (here k) = Rule-agree h k
  Every-Some (also h hs) (there k) = Every-Some hs k

  Stored-unique :
      {r : Request} {step : Subject → Step} {ss : List Subject} {b d : Bool}
      → Stored r step ss b
      → Stored r step ss d
      → b ≡ d
  Stored-unique empty empty = refl
  Stored-unique (granted e) (granted e') = refl
  Stored-unique (granted e) (skipped e' k) = absurd (cc)
  Stored-unique (granted e) (followed w e' k) = refl
  Stored-unique (granted e) (not_followed w e' k ks) = absurd (cc)
  Stored-unique (granted e) (later k) = refl
  Stored-unique (skipped e h) (granted e') = absurd (cc)
  Stored-unique (skipped e h) (skipped e' k) = Stored-unique h k
  Stored-unique (skipped e h) (followed w e' k) = absurd (cc)
  Stored-unique (skipped e h) (not_followed w e' k ks) = absurd (cc)
  Stored-unique (skipped e h) (later k) = Stored-unique h k
  Stored-unique (followed v e h) (granted e') = refl
  Stored-unique (followed v e h) (skipped e' k) = absurd (cc)
  Stored-unique (followed v e h) (followed w e' k) = refl
  Stored-unique {r} (followed v e h) (not_followed w e' k ks) =
      Decides-agree h (subst (λ x. Decides r x false) (follow-injective (sym e' ∙ e)) k)
  Stored-unique (followed v e h) (later k) = refl
  Stored-unique (not_followed v e h hs) (granted e') = absurd (cc)
  Stored-unique (not_followed v e h hs) (skipped e' k) = absurd (cc)
  Stored-unique {r} (not_followed v e h hs) (followed w e' k) =
      Decides-agree h (subst (λ x. Decides r x true) (follow-injective (sym e' ∙ e)) k)
  Stored-unique (not_followed v e h hs) (not_followed w e' k ks) = refl
  Stored-unique (not_followed v e h hs) (later k) = Stored-unique hs k
  Stored-unique (later h) (granted e) = refl
  Stored-unique (later h) (skipped e k) = Stored-unique h k
  Stored-unique (later h) (followed w e k) = refl
  Stored-unique (later h) (not_followed w e k ks) = Stored-unique h ks
  Stored-unique (later h) (later k) = refl

-- The rules decide a question in one way at most: they never show that the query is in a userset and
-- also that it is not.
pub Decides-unique :
    (r : Request) (u : SubjectSet) (b d : Bool) → Decides r u b → Decides r u d → b ≡ d
Decides-unique r u b d h k = Decides-agree h k
