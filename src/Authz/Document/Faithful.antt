-- ===== src/Authz/Document/Faithful.antt =====
-- A document and the model that it yields hold the same (`ToModel` and `FromModel` in
-- pkg/authz/model_json.go).
use workspace.Base.{
  String, ◌≡◌, refl, sym, ap, Bool, true, false, not, ◌||◌, Option, none, some, [], ◌∷◌, arith,
  ◌==◌, eq_iff, if◌then◌else◌, is_equal, Result, ok, err, Error, and_then, and_then-ok,
  ok-injective, subst, ◌∙◌,
}
use workspace.Authz.Model.{
  Rewrite, Rewrites, union, intersection, exclusion, computed, Namespace, Model,
}
use workspace.Authz.Document.{
  TupleToUsersetDoc, RewriteDoc, rewrite_doc, ChildDocs, unset, children, RewriteDocs, nil, cons,
  ExclusionDoc, absent, minus, NamespaceDoc, ModelDoc, operators_set, to_pointer, unless_empty,
  to_rewrite, to_rewrites, to_namespace, to_model, direct_doc, computed_doc, pointer_doc, union_doc,
  intersection_doc, exclusion_doc, from_rewrite, from_rewrites, from_namespace, from_model,
}

-- a document that sets one operator, which names a relation if it is the computed one
data Single
    : Bool → String → Option TupleToUsersetDoc → ChildDocs → ChildDocs → ExclusionDoc → Type 0 where
  direct : Single true "" none unset unset absent
  renamed : {c : String} → (c == "") ≡ false → Single false c none unset unset absent
  through : {p : TupleToUsersetDoc} → Single false "" (some p) unset unset absent
  any_of : {ds : RewriteDocs} → Single false "" none (children ds) unset absent
  all_of : {ds : RewriteDocs} → Single false "" none unset (children ds) absent
  difference : {inc exc : RewriteDoc} → Single false "" none unset unset (minus inc exc)

-- an absent name is the empty one
unnamed :
    {t : Bool} {p : Option TupleToUsersetDoc} {us is : ChildDocs} {x : ExclusionDoc} (c : String)
    → (c == "") ≡ true
    → Single t "" p us is x
    → Single t c p us is x
unnamed {t} {p} {us} {is} {x} c e s = subst (λ c. Single t c p us is x) (sym ((eq_iff c "").0 e)) s

operators_set-Single :
    (t : Bool) (c : String) (b : Bool) (p : Option TupleToUsersetDoc) (us is : ChildDocs)
    (x : ExclusionDoc)
    → (c == "") ≡ b
    → operators_set (rewrite_doc t c p us is x) ≡ 1
    → Single t c p us is x
unfolding operators_set
operators_set-Single true c false p us is x e h = absurd (omega (arith, rw e at h))
operators_set-Single true c true (some p) us is x e h = absurd (omega (arith, rw e at h))
operators_set-Single true c true none (children ds) is x e h = absurd (omega (arith, rw e at h))
operators_set-Single true c true none unset (children ds) x e h = absurd (omega (arith, rw e at h))
operators_set-Single true c true none unset unset (minus i j) e h =
    absurd (omega (arith, rw e at h))
operators_set-Single true c true none unset unset absent e h = unnamed c e direct
operators_set-Single false c false (some p) us is x e h = absurd (omega (arith, rw e at h))
operators_set-Single false c false none (children ds) is x e h = absurd (omega (arith, rw e at h))
operators_set-Single false c false none unset (children ds) x e h =
    absurd (omega (arith, rw e at h))
operators_set-Single false c false none unset unset (minus i j) e h =
    absurd (omega (arith, rw e at h))
operators_set-Single false c false none unset unset absent e h = renamed e
operators_set-Single false c true (some p) (children ds) is x e h =
    absurd (omega (arith, rw e at h))
operators_set-Single false c true (some p) unset (children ds) x e h =
    absurd (omega (arith, rw e at h))
operators_set-Single false c true (some p) unset unset (minus i j) e h =
    absurd (omega (arith, rw e at h))
operators_set-Single false c true (some p) unset unset absent e h = unnamed c e through
operators_set-Single false c true none (children ds) (children es) x e h =
    absurd (omega (arith, rw e at h))
operators_set-Single false c true none (children ds) unset (minus i j) e h =
    absurd (omega (arith, rw e at h))
operators_set-Single false c true none (children ds) unset absent e h = unnamed c e any_of
operators_set-Single false c true none unset (children ds) (minus i j) e h =
    absurd (omega (arith, rw e at h))
operators_set-Single false c true none unset (children ds) absent e h = unnamed c e all_of
operators_set-Single false c true none unset unset (minus i j) e h = unnamed c e difference
operators_set-Single false c true none unset unset absent e h = absurd (omega (arith, rw e at h))

-- what a document yields is written as this document
abbrev Same : RewriteDoc → Type 0
Same d = (rw' : Rewrite) → to_rewrite d ≡ ok rw' → from_rewrite rw' ≡ d

abbrev AllSame : ChildDocs → Type 0
AllSame unset = Unit
AllSame (children ds) = (rs : Rewrites) → to_rewrites ds ≡ ok rs → from_rewrites rs ≡ ds

abbrev BothSame : ExclusionDoc → Type 0
BothSame absent = Unit
BothSame (minus inc exc) = Same inc × Same exc

-- inversion of a guard that passes
past_guard :
    {A : Type 0} (b : Bool) (e : Error) (res : Result A) {a : A}
    → (if b then err e else res) ≡ ok a
    → (b ≡ false) × (res ≡ ok a)
past_guard true e res h = absurd (cc)
past_guard false e res h = (refl, h)

pointer-Same :
    (p : TupleToUsersetDoc) (rw' : Rewrite)
    → to_pointer p ≡ ok rw'
    → from_rewrite rw' ≡ pointer_doc p.tupleset p.computed
unfolding from_rewrite
pointer-Same p rw' h =
    let (named, e) = past_guard (p.tupleset == "" || p.computed == "") _ _ h in
    let stored : (p.tupleset == "") ≡ false = ground arith in
    subst (λ r. from_rewrite r ≡ pointer_doc p.tupleset p.computed) (ok-injective e)
      (rw stored refl)

union-Same :
    (rs : Rewrites) (rw' : Rewrite)
    → unless_empty union rs ≡ ok rw'
    → from_rewrite rw' ≡ union_doc (from_rewrites rs)
unfolding from_rewrite
union-Same Rewrites.nil rw' h = absurd (cc)
union-Same (Rewrites.cons r rs) rw' h =
    subst (λ w. from_rewrite w ≡ union_doc (from_rewrites (Rewrites.cons r rs))) (ok-injective h)
      refl

intersection-Same :
    (rs : Rewrites) (rw' : Rewrite)
    → unless_empty intersection rs ≡ ok rw'
    → from_rewrite rw' ≡ intersection_doc (from_rewrites rs)
unfolding from_rewrite
intersection-Same Rewrites.nil rw' h = absurd (cc)
intersection-Same (Rewrites.cons r rs) rw' h =
    subst (λ w. from_rewrite w ≡ intersection_doc (from_rewrites (Rewrites.cons r rs)))
      (ok-injective h) refl

Single-Same :
    {t : Bool} {c : String} {p : Option TupleToUsersetDoc} {us is : ChildDocs} {x : ExclusionDoc}
    → Single t c p us is x
    → AllSame us
    → AllSame is
    → BothSame x
    → Same (rewrite_doc t c p us is x)
unfolding to_rewrite from_rewrite operators_set
Single-Same direct hu hi hx rw' h = subst (λ r. from_rewrite r ≡ direct_doc) (ok-injective h) refl
Single-Same (renamed {c} e) hu hi hx rw' h =
    let yields : ok (computed c) ≡ ok rw' = rw e at h in
    subst (λ r. from_rewrite r ≡ computed_doc c) (ok-injective yields) (rw e refl)
Single-Same (through {p}) hu hi hx rw' h = pointer-Same p rw' h
Single-Same (any_of {ds}) hu hi hx rw' h =
    let (rs, e, u) = and_then-ok (to_rewrites ds) (unless_empty union) h in
    union-Same rs rw' u ∙ ap union_doc (hu rs e)
Single-Same (all_of {ds}) hu hi hx rw' h =
    let (rs, e, u) = and_then-ok (to_rewrites ds) (unless_empty intersection) h in
    intersection-Same rs rw' u ∙ ap intersection_doc (hi rs e)
Single-Same (difference {inc} {exc}) hu hi hx rw' h =
    let (i, e, later) =
      and_then-ok (to_rewrite inc) (λ i. and_then (to_rewrite exc) (λ x. ok (exclusion i x))) h in
    let (j, e', same) = and_then-ok (to_rewrite exc) (λ x. ok (exclusion i x)) later in
    subst (λ r. from_rewrite r ≡ exclusion_doc inc exc) (ok-injective same)
      (ap (λ d. exclusion_doc d (from_rewrite j)) (hx.0 i e) ∙ ap (exclusion_doc inc) (hx.1 j e'))

-- a document that yields a rewrite sets one operator
one_set : (d : RewriteDoc) (rw' : Rewrite) → to_rewrite d ≡ ok rw' → operators_set d ≡ 1
unfolding to_rewrite
one_set (rewrite_doc t c p us is x) rw' h =
    let n = operators_set (rewrite_doc t c p us is x) in
    let (one, _) = past_guard (not (is_equal n 1)) _ _ h in ground arith

mutual
  unfolding to_rewrite from_rewrite

  to_rewrite-Same : (d : RewriteDoc) → Same d
  to_rewrite-Same (rewrite_doc t c p us is x) rw' h =
      Single-Same
        (operators_set-Single t c (c == "") p us is x refl
          (one_set (rewrite_doc t c p us is x) rw' h))
        (to_children-Same us) (to_children-Same is) (to_exclusion-Same x) rw' h

  to_children-Same : (ds : ChildDocs) → AllSame ds
  to_children-Same unset = tt
  to_children-Same (children ds) = to_rewrites-Same ds

  to_exclusion-Same : (x : ExclusionDoc) → BothSame x
  to_exclusion-Same absent = tt
  to_exclusion-Same (minus inc exc) = (to_rewrite-Same inc, to_rewrite-Same exc)

  to_rewrites-Same :
      (ds : RewriteDocs) (rs : Rewrites) → to_rewrites ds ≡ ok rs → from_rewrites rs ≡ ds
  to_rewrites-Same nil rs h = subst (λ r. from_rewrites r ≡ nil) (ok-injective h) refl
  to_rewrites-Same (cons d ds) rs h =
      let (r, e, later) =
        and_then-ok (to_rewrite d) (λ r. and_then (to_rewrites ds) (λ rs. ok (Rewrites.cons r rs)))
          h in
      let (rs', e', same) = and_then-ok (to_rewrites ds) (λ rs. ok (Rewrites.cons r rs)) later in
      subst (λ r. from_rewrites r ≡ cons d ds) (ok-injective same)
        (ap (λ x. cons x (from_rewrites rs')) (to_rewrite-Same d r e)
          ∙ ap (cons d) (to_rewrites-Same ds rs' e'))

from_namespace-to_namespace :
    (rels : NamespaceDoc) (nm : Namespace) → to_namespace rels ≡ ok nm → from_namespace nm ≡ rels
unfolding to_namespace from_namespace
from_namespace-to_namespace [] nm h = subst (λ n. from_namespace n ≡ []) (ok-injective h) refl
from_namespace-to_namespace ((rel, d) ∷ rels) nm h =
    let (_, h') = past_guard (rel == "") _ _ h in
    let (rw', e, later) =
      and_then-ok (to_rewrite d) (λ rw'. and_then (to_namespace rels) (λ nm. ok ((rel, rw') ∷ nm)))
        h' in
    let (nm', e', same) = and_then-ok (to_namespace rels) (λ nm. ok ((rel, rw') ∷ nm)) later in
    subst (λ n. from_namespace n ≡ (rel, d) ∷ rels) (ok-injective same)
      (ap (λ x. (rel, x) ∷ from_namespace nm') (to_rewrite-Same d rw' e)
        ∙ ap (λ x. (rel, d) ∷ x) (from_namespace-to_namespace rels nm' e'))

-- A document that is accepted is written again from the model that it yields, exactly as it was: each
-- namespace, relation, operator, child and name of it is in the model.
pub from_model-to_model : (doc : ModelDoc) (m : Model) → to_model doc ≡ ok m → from_model m ≡ doc
unfolding to_model from_model
from_model-to_model [] m h = subst (λ n. from_model n ≡ []) (ok-injective h) refl
from_model-to_model ((ns, rels) ∷ doc) m h =
    let (_, h') = past_guard (ns == "") _ _ h in
    let (nm, e, later) =
      and_then-ok (to_namespace rels) (λ nm. and_then (to_model doc) (λ m. ok ((ns, nm) ∷ m))) h' in
    let (m', e', same) = and_then-ok (to_model doc) (λ m. ok ((ns, nm) ∷ m)) later in
    subst (λ n. from_model n ≡ (ns, rels) ∷ doc) (ok-injective same)
      (ap (λ x. (ns, x) ∷ from_model m') (from_namespace-to_namespace rels nm e)
        ∙ ap (λ x. (ns, rels) ∷ x) (from_model-to_model doc m' e'))
